-- ===== src/Client/Requests.antt =====
-- src/bin/galynx.rs: the requests of the command line client, which renews its session where the
-- server no longer accepts it. The server, and the library of JSON, are parameters.
use Prim.Native.Nat.{ℕ}
use mathlib.Core.Logic.{◌⊎◌, inl, inr}
use mathlib.Core.Bool.{Bool, ◌&&◌}
use mathlib.Core.Option.{Option, none, some}
use mathlib.Core.List.{List, [], ◌∷◌, ◌++◌}
use galynx_api.Common.{ℤ, leb_ℤ, leb, ltb, eqb, if◌then◌else◌}
use galynx_api.Text.{Str, text, trim}
use galynx_api.Text.Decimal.{print_ℕ}

pub data Method : Type 0 where
  get post patch put delete : Method

pub record StoredSession : Type 0 where
  pub base_url : Str
  pub access_token : Str
  pub refresh_token : Str
  pub access_expires_at : ℤ
  pub refresh_expires_at : ℤ

pub record AuthTokensResponse : Type 0 where
  pub access_token : Str
  pub refresh_token : Str
  pub access_expires_at : ℤ
  pub refresh_expires_at : ℤ

pub record ApiErrorResponse : Type 0 where
  pub error : Str
  pub message : Str

-- An error with the status of the answer, or without one.
pub data CliError : Type 0 where
  statused_cli_error : ℕ → Str → CliError
  cli_error : Str → CliError

pub record Response : Type 0 where
  pub status : ℕ
  pub body : Str

pub record Request (Json : Type 0) : Type 0 where
  pub method : Method
  pub url : Str
  pub body : Option Json
  pub query : Option (List (Str × Str))
  pub bearer : Option Str

-- What answers the client, by the requests that were sent, the last one first, or the error of a
-- connection; and what reads and writes JSON.
pub record World : Type 1 where
  pub Json : Type 0
  pub answer : List (Request Json) → Str ⊎ Response
  pub refresh_payload : Str → Json
  pub parse_tokens : Str → Str ⊎ AuthTokensResponse
  pub parse_error : Str → Option ApiErrorResponse

-- `trim_end_matches`
unfoldable pub trim_end_matches : ℕ → Str → Str
trim_end_matches c [] = []
trim_end_matches c (d ∷ s) = kept (trim_end_matches c s)
  where
    kept : Str → Str
    kept [] = if eqb d c then [] else d ∷ []
    kept (e ∷ t) = d ∷ e ∷ t

unfoldable pub normalize_base_url : Str → Str
normalize_base_url value = trim_end_matches b'/' (trim value)

unfoldable pub endpoint : Str → Str → Str
unfolding normalize_base_url
endpoint base_url path = normalize_base_url base_url ++ text "/api/v1" ++ path

unfoldable pub cursor_limit_query : Option Str → Option ℕ → List (Str × Str)
cursor_limit_query none none = []
cursor_limit_query none (some limit) = (text "limit", print_ℕ limit) ∷ []
cursor_limit_query (some cursor) none = (text "cursor", cursor) ∷ []
cursor_limit_query (some cursor) (some limit) =
    (text "cursor", cursor) ∷ (text "limit", print_ℕ limit) ∷ []

abbrev pub is_success : ℕ → Bool
is_success status = leb 200 status && ltb status 300

-- `extract_status`
abbrev pub extract_status : CliError → Option ℕ
extract_status (statused_cli_error status message) = some status
extract_status (cli_error message) = none

abbrev pub renewed : AuthTokensResponse → StoredSession → StoredSession
renewed tokens session = record session {
  access_token = tokens.access_token;
  refresh_token = tokens.refresh_token;
  access_expires_at = tokens.access_expires_at;
  refresh_expires_at = tokens.refresh_expires_at;
}

module _ (w : World) where
  -- The session that the client holds, and what it has sent, the last request first.
  pub record Client : Type 0 where
    pub session : StoredSession
    pub sent : List (Request w.Json)

  abbrev pub Call : Type 0 → Type 0
  Call A = Client → (CliError ⊎ A) × Client

  abbrev pub error_message : Response → Option ApiErrorResponse → Str
  error_message response none = print_ℕ response.status ++ text ": " ++ response.body
  error_message response (some parsed) =
      print_ℕ response.status ++ text " (" ++ parsed.error ++ text "): " ++ parsed.message

  -- What `send_json` makes of the answer.
  unfoldable pub read_answer : Str ⊎ Response → CliError ⊎ Response
  read_answer (inl error) = inl (cli_error error)
  read_answer (inr response) =
      if is_success response.status
      then inr response
      else inl (
          statused_cli_error response.status (error_message response (w.parse_error response.body)))

  unfoldable pub send_json :
      Method → Str → Str → Option w.Json → Option (List (Str × Str)) → Option Str → Call Response
  unfolding read_answer endpoint
  send_json method base_url path body query bearer_token client =
      let request : Request w.Json = record {
        method = method;
        url = endpoint base_url path;
        body = body;
        query = query;
        bearer = bearer_token;
      } in
      let sent = request ∷ client.sent in
      (read_answer (w.answer sent), record client { sent = sent })

  abbrev store_tokens : Str ⊎ AuthTokensResponse → Call Unit
  store_tokens (inl error) client = (inl (cli_error error), client)
  store_tokens (inr tokens) client =
      (inr tt, record client { session = renewed tokens client.session })

  -- `?` on the result of a call.
  abbrev pub next :
      {A B : Type 0} → (A → Call B) → (CliError ⊎ A) × Client → (CliError ⊎ B) × Client
  next f (inl error, after) = (inl error, after)
  next f (inr a, after) = f a after

  unfoldable pub refresh_session : Call Unit
  unfolding send_json
  refresh_session client =
      next (λ response. store_tokens (w.parse_tokens response.body))
        (send_json post client.session.base_url (text "/auth/refresh")
          (some (w.refresh_payload client.session.refresh_token)) none none client)

  -- The request with the access token that is held now.
  unfoldable pub send_held :
      Method → Str → Option w.Json → Option (List (Str × Str)) → Call Response
  unfolding send_json
  send_held method path body query client =
      send_json method client.session.base_url path body query (some client.session.access_token)
        client

  abbrev pub retry_refused : Call Response → Option ℕ → CliError → Call Response
  retry_refused send none error after = (inl error, after)
  retry_refused send (some status) error after =
      if eqb status 401 then next (λ u. send) (refresh_session after) else (inl error, after)

  abbrev pub retried :
      Call Response → (CliError ⊎ Response) × Client → (CliError ⊎ Response) × Client
  retried send (inr response, after) = (inr response, after)
  retried send (inl error, after) = retry_refused send (extract_status error) error after

  unfoldable pub send_authed_json :
      ℤ → Method → Str → Option w.Json → Option (List (Str × Str)) → Call Response
  unfolding refresh_session send_held
  send_authed_json now method path body query client =
      let send = send_held method path body query in
      let ready : (CliError ⊎ Unit) × Client =
        if leb_ℤ client.session.access_expires_at now
        then refresh_session client
        else (inr tt, client) in
      next (λ u after. retried send (send after)) ready
