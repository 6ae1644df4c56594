-- ===== src/Client/Renewal.antt =====
-- src/bin/galynx.rs: a client whose refresh token is live is not refused.
use Prim.Native.Nat.{suc, ◌+◌, ◌≤◌}
use mathlib.Core.Path.{◌≡◌, refl}
use mathlib.Core.Logic.{◌⊎◌, ◌≢◌, inl, inr}
use mathlib.Core.Bool.{Bool, true, false}
use mathlib.Core.Option.{Option, none, some}
use mathlib.Core.List.{List, ◌∷◌}
use native.Mathlib.Omega.{arith}
use galynx_api.Common.{ℤ, leb_ℤ, eqb, length, Bool-cases}
use galynx_api.Text.{Str, text}
use galynx_api.Client.Requests.{
  cli_error, statused_cli_error, next, error_message, Method, post, StoredSession,
  AuthTokensResponse, Response, Request, World, Client, CliError, is_success, endpoint, read_answer,
  send_json, refresh_session, send_held, send_authed_json, renewed, retried,
}

unsuccessful : (r : Response) → eqb r.status 401 ≡ true → is_success r.status ≡ false
unsuccessful r h = ground arith

module _ (w : World) where
  -- The request of a client for a new pair of tokens, and one with the token that it holds.
  abbrev pub refresh_request : StoredSession → Request w.Json
  refresh_request session = record {
    method = post;
    url = endpoint session.base_url (text "/auth/refresh");
    body = some (w.refresh_payload session.refresh_token);
    query = none;
    bearer = none;
  }

  abbrev pub held_request :
      Method → Str → Option w.Json → Option (List (Str × Str)) → StoredSession → Request w.Json
  held_request method path body query session = record {
    method = method;
    url = endpoint session.base_url path;
    body = body;
    query = query;
    bearer = some session.access_token;
  }

  -- A refresh that was not granted, and the error that the client makes of its answer.
  abbrev pub IsNotGranted : Str ⊎ Response → CliError → Type 0
  IsNotGranted answer error =
      (read_answer w answer ≡ inl error)
      ⊎ ((response : Response) × ((read_answer w answer ≡ inr response)
            × ((e : Str) × ((w.parse_tokens response.body ≡ inl e) × (error ≡ cli_error e)))))

  module _ (method : Method) (path : Str) (body : Option w.Json)
      (query : Option (List (Str × Str))) where
    -- What the client relies on, for a request that needs an access token: if it is answered though
    -- its token is not accepted, then with 401; and a token that was just granted is accepted.
    pub record IsServer (accepts : List (Request w.Json) → Str → Bool) : Type 0 where
      pub refused :
          (sent : List (Request w.Json)) (session : StoredSession) (response : Response)
          → accepts sent session.access_token ≡ false
          → w.answer (held_request method path body query session ∷ sent) ≡ inr response
          → response.status ≡ 401
      pub granted :
          (sent : List (Request w.Json)) (session : StoredSession) (response : Response)
          (tokens : AuthTokensResponse)
          → w.answer (refresh_request session ∷ sent) ≡ inr response
          → is_success response.status ≡ true
          → w.parse_tokens response.body ≡ inr tokens
          → accepts (refresh_request session ∷ sent) tokens.access_token ≡ true

    -- How a call ends. The last request bears an access token that the server accepts, and the
    -- result is what was answered to it; or it is a refresh that was not granted; or the connection
    -- was lost.
    pub data IsEnd (accepts : List (Request w.Json) → Str → Bool) (before : List (Request w.Json))
        : (CliError ⊎ Response) × Client w → Type 0 where
      answered :
          (session : StoredSession) (earlier : List (Request w.Json))
          → accepts earlier session.access_token ≡ true
          → length earlier ≤ length before + 3
          → IsEnd accepts before (
            read_answer w (w.answer (held_request method path body query session ∷ earlier)),
            record {
              session = session;
              sent = held_request method path body query session ∷ earlier;
            },
          )
      not_renewed :
          (session : StoredSession) (earlier : List (Request w.Json)) (error : CliError)
          → IsNotGranted (w.answer (refresh_request session ∷ earlier)) error
          → length earlier ≤ length before + 2
          → IsEnd accepts before
              (inl error, record { session = session; sent = refresh_request session ∷ earlier })
      disconnected :
          (session : StoredSession) (earlier : List (Request w.Json)) (error : Str)
          → w.answer (held_request method path body query session ∷ earlier) ≡ inl error
          → length earlier ≤ length before + 1
          → IsEnd accepts before (
            inl (cli_error error),
            record {
              session = session;
              sent = held_request method path body query session ∷ earlier;
            },
          )

    module _ (accepts : List (Request w.Json) → Str → Bool) (server : IsServer accepts) where
      -- A refresh is granted, and the token that is then held is accepted; or it is not.
      abbrev Refreshed : Client w → Type 0
      Refreshed client =
          ((after : Client w) × ((refresh_session w client ≡ (inr tt, after))
              × ((accepts after.sent after.session.access_token ≡ true)
                  × (length after.sent ≡ suc (length client.sent)))))
          ⊎ ((error : CliError) × ((refresh_session w client ≡ (
            inl error,
            record {
              session = client.session;
              sent = refresh_request client.session ∷ client.sent;
            },
          ))
                × IsNotGranted (w.answer (refresh_request client.session ∷ client.sent)) error))

      parsed_cases :
          (client : Client w) (response : Response) (parsed : Str ⊎ AuthTokensResponse)
          → w.answer (refresh_request client.session ∷ client.sent) ≡ inr response
          → is_success response.status ≡ true
          → w.parse_tokens response.body ≡ parsed
          → Refreshed client
      unfolding refresh_session send_json read_answer
      parsed_cases client response (inl e) answer success h = inr (
        cli_error e,
        (rw (answer, success, h) refl, inr (response, (rw (answer, success) refl, (e, (h, refl))))),
      )
      parsed_cases client response (inr tokens) answer success h =
          let after : Client w = record {
            session = renewed tokens client.session;
            sent = refresh_request client.session ∷ client.sent;
          } in
          inl (
            after,
            (
              rw (answer, success, h) refl,
              (server.granted client.sent client.session response tokens answer success h, refl),
            ),
          )

      renewal_cases :
          (client : Client w) (answer : Str ⊎ Response)
          → w.answer (refresh_request client.session ∷ client.sent) ≡ answer
          → Refreshed client
      unfolding refresh_session send_json read_answer
      renewal_cases client (inl e) answer =
          inr (cli_error e, (rw answer refl, inl (rw answer refl)))
      renewal_cases client (inr response) answer = elim (Bool-cases (is_success response.status)) [
        | inl success ↦ parsed_cases client response _ answer success refl
        | inr other ↦ inr (
          statused_cli_error response.status
              (error_message w response (w.parse_error response.body)),
          (rw (answer, other) refl, inl (rw (answer, other) refl)),
        )
      ]

      -- The last request, with a token that is accepted.
      send_held-IsEnd :
          (before : List (Request w.Json)) (client : Client w)
          → accepts client.sent client.session.access_token ≡ true
          → length client.sent ≤ length before + 3
          → IsEnd accepts before (send_held w method path body query client)
      unfolding send_held send_json
      send_held-IsEnd before client h bound = answered client.session client.sent h bound

      -- What was answered with anything but 401 was answered to a token that is accepted.
      accepted_unless_401 :
          (client : Client w) (response : Response)
          → w.answer (held_request method path body query client.session ∷ client.sent)
            ≡ inr response
          → response.status ≢ 401
          → accepts client.sent client.session.access_token ≡ true
      accepted_unless_401 client response answer h =
          elim (Bool-cases (accepts client.sent client.session.access_token)) [
            | inl good ↦ good
            | inr bad ↦ absurd (h (server.refused client.sent client.session response bad answer))
          ]

      renewed-IsEnd :
          (before : List (Request w.Json)) (client : Client w)
          → length client.sent ≤ length before + 2
          → Refreshed client
          → IsEnd accepts before
              (next w (λ u. send_held w method path body query) (refresh_session w client))
      renewed-IsEnd before client bound (inl (after, (call, (ok, count)))) =
          rw call (send_held-IsEnd before after ok (omega (arith, count)))
      renewed-IsEnd before client bound (inr (error, (call, refusal))) =
          rw call (not_renewed client.session client.sent error refusal bound)

      -- What is not answered with 401 is not sent again.
      retried-read_answer :
          (send : Client w → (CliError ⊎ Response) × Client w) (after : Client w)
          (response : Response)
          → eqb response.status 401 ≡ false
          → retried w send (read_answer w (inr response), after)
            ≡ (read_answer w (inr response), after)
      unfolding read_answer
      retried-read_answer send after response h = elim (Bool-cases (is_success response.status)) [
        | inl success ↦ rw success refl
        | inr other ↦ rw (other, h) refl
      ]

      sent-IsEnd :
          (before : List (Request w.Json)) (client : Client w) (answer : Str ⊎ Response)
          → w.answer (held_request method path body query client.session ∷ client.sent) ≡ answer
          → length client.sent ≤ length before + 1
          → IsEnd accepts before (
              retried w
                (send_held w method path body query)
                (send_held w method path body query client))
      unfolding send_held send_json read_answer
      sent-IsEnd before client (inl e) answer bound =
          rw answer (disconnected client.session client.sent e answer bound)
      sent-IsEnd before client (inr response) answer bound =
          elim (Bool-cases (eqb response.status 401)) [
            | inl refusal ↦
                let sent : Client w = record {
                  session = client.session;
                  sent = held_request method path body query client.session ∷ client.sent;
                } in
                rw (answer, unsuccessful response refusal, refusal)
                  (renewed-IsEnd before sent (omega (arith, bound)) (renewal_cases sent _ refl))
            | inr other ↦
                let ok =
                  accepted_unless_401 client response answer (λ e. ground (arith, other, e)) in
                let once = send_held-IsEnd before client ok (omega (arith, bound)) in
                rw
                  (
                    answer,
                    retried-read_answer (send_held w method path body query) _ response other,
                  )
                  (rw answer at once)
          ]

      expired-IsEnd :
          (client : Client w)
          → Refreshed client
          → IsEnd accepts client.sent (
              next w
                (λ u after.
                  retried w
                    (send_held w method path body query)
                    (send_held w method path body query after))
                (refresh_session w client))
      expired-IsEnd client (inl (after, (call, (ok, count)))) =
          rw call (sent-IsEnd client.sent after _ refl (omega (arith, count)))
      expired-IsEnd client (inr (error, (call, refusal))) =
          rw call (not_renewed client.session client.sent error refusal (omega arith))

      -- Let a server answer 401 to this request if it does not accept the access token, where it
      -- answers, and accept a token that it has just granted. Then a call ends in one of three
      -- ways, after three other requests at most, whatever the session holds and however the server
      -- answers to a token that it accepts: the last request bears an access token that is
      -- accepted, and the result is what was answered to it; or it is a refresh that was not
      -- granted, and the result is an error that says so; or it lost the connection.
      pub send_authed_json-IsEnd :
          (now : ℤ) (client : Client w)
          → IsEnd accepts client.sent (send_authed_json w now method path body query client)
      unfolding send_authed_json
      send_authed_json-IsEnd now client =
          elim (Bool-cases (leb_ℤ client.session.access_expires_at now)) [
            | inl expired ↦ rw expired (expired-IsEnd client (renewal_cases client _ refl))
            | inr fresh ↦ rw fresh (sent-IsEnd client.sent client _ refl (omega arith))
          ]
