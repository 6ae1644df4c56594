-- ===== src/Tests/Client.antt =====
-- A server that accepts one access token, gives it for one refresh token three times at most, and
-- refuses whatever does not read for a missing permission; and a client with an old access token.
use Prim.Native.Nat.{ℕ, suc}
use mathlib.Core.Path.{sym, ap}
use mathlib.Core.Logic.{◌⊎◌, inl, inr}
use mathlib.Core.Bool.{Bool, false}
use mathlib.Core.Option.{Option, none, some}
use mathlib.Core.List.{List, [], ◌∷◌}
use galynx_api.Common.{◌==◌, text_eq, if◌then◌else◌, pos, ltb, is_none, Bool-cases}
use galynx_api.Text.{Str, text}
use galynx_api.Client.Requests.{
  Method, get, post, AuthTokensResponse, Response, Request, World, Client, send_authed_json,
}
use galynx_api.Client.Renewal.{IsServer, IsEnd, send_authed_json-IsEnd}

abbrev response : ℕ → Response
response status = record { status = status; body = [] }

abbrev tokens : AuthTokensResponse
tokens = record {
  access_token = 1 ∷ [];
  refresh_token = 2 ∷ [];
  access_expires_at = pos 900;
  refresh_expires_at = pos 9000;
}

abbrev is_good : Option Str → Str → Bool
is_good none t = false
is_good (some s) t = s == t

-- Without a token the request is a refresh, of which three are let through; with a good token it is
-- refused for a missing permission unless it reads.
abbrev refreshes : List (Request Str) → ℕ
refreshes [] = 0
refreshes (request ∷ sent) = if is_none request.bearer then suc (refreshes sent) else refreshes sent

abbrev status_for : Method → ℕ
status_for get = 200
status_for _ = 401

abbrev answer : List (Request Str) → Str ⊎ Response
answer [] = inl []
answer (request ∷ sent) = by_bearer request.bearer
  where
    by_bearer : Option Str → Str ⊎ Response
    by_bearer none = inr (
        response (
          if ltb 2 (refreshes sent)
          then 429
          else if is_good request.body (2 ∷ [])
          then 200
          else 401))
    by_bearer (some token) =
        inr (response (if token == 1 ∷ [] then status_for request.method else 401))

abbrev world : World
world = record {
  Json = Str;
  answer = answer;
  refresh_payload = λ token. token;
  parse_tokens = λ body. inr tokens;
  parse_error = λ body. none;
}

abbrev accepts : List (Request Str) → Str → Bool
accepts sent token = token == 1 ∷ []

abbrev status_of : Str ⊎ Response → ℕ
status_of (inl error) = 0
status_of (inr answered) = answered.status

abbrev token_of : Str ⊎ AuthTokensResponse → Str
token_of (inl error) = []
token_of (inr given) = given.access_token

world-IsServer : IsServer world post (text "/me") none none accepts
unfolding galynx_api.Common.text_beq
world-IsServer = record {
  refused = λ sent session answered h e. sym (rw h at (ap status_of e));
  granted = λ sent session answered given e success parsed.
      ap (λ t. t == 1 ∷ []) (sym (ap token_of parsed));
}

abbrev client : Client world
client = record {
  session = record {
    base_url = text "http://localhost:3000/";
    access_token = 0 ∷ [];
    refresh_token = 2 ∷ [];
    access_expires_at = pos 10;
    refresh_expires_at = pos 9000;
  };
  sent = [];
}

send_authed_json-IsEnd_example :
    IsEnd world post
      (text "/me")
      none
      none
      accepts
      []
      (send_authed_json world (pos 20) post (text "/me") none none client)
send_authed_json-IsEnd_example =
    send_authed_json-IsEnd world post (text "/me") none none accepts world-IsServer (pos 20) client
