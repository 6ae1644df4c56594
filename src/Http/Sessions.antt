-- ===== src/Http/Sessions.antt =====
-- The handlers of src/auth.rs: login, refresh, logout and the caller's own account.
use mathlib.Core.Bool.{◌||◌}
use mathlib.Core.Option.{Option, none, some}
use galynx_api.Common.{is_empty}
use galynx_api.Text.{Str, text, trim, to_ascii_lowercase}
use galynx_api.Errors.{bad_request, Action, ◌>>=◌, ◌>>◌, pure, fail_if}
use galynx_api.Auth.Context.{AuthContext}
use galynx_api.Auth.Service
use galynx_api.Auth.Service.{
  AuthTokensResponse, MeResponse, authenticate_access_token, me_from_context,
}
use galynx_api.Storage.{Uuid, empty, login as login_metadata, reason}
use galynx_api.RateLimit.{client_ip_from_headers, check_auth}
use galynx_api.Realtime.{Server, on_storage, on_rate_limit}
use galynx_api.Http.{
  AppState, HttpDraw, Headers, HttpResponse, json, no_content, authenticated, log,
}

pub record LoginRequest : Type 0 where
  pub email : Str
  pub password : Str
  pub workspace_id : Option Uuid

module _ (app : AppState) (draw : HttpDraw) (headers : Headers) where
  abbrev pub limited : Option Str → Action Server (Unit {0})
  limited email =
      on_rate_limit
        (check_auth app.lib.show_uuid draw.instant (client_ip_from_headers headers.others) email)

  -- `context_from_access_token`
  unfoldable pub context_from_access_token : AuthTokensResponse → Action Server AuthContext
  context_from_access_token response = on_storage (
      authenticate_access_token app.lib app.auth draw.token_check response.access_token
        app.config.jwt_secret)

  unfoldable pub login : LoginRequest → Action Server (HttpResponse AuthTokensResponse)
  login payload = do
    fail_if (is_empty (trim payload.email) || is_empty (trim payload.password))
        (bad_request (text "email and password are required"))
    limited (some payload.email)
    response ← on_storage (
        Service.login app.lib app.auth draw.session app.config payload.email payload.password
          payload.workspace_id)
    context ← context_from_access_token response
    log draw context.workspace_id context (text "AUTH_LOGIN") (text "user")
        (some (app.lib.show_uuid context.user_id))
        (login_metadata (to_ascii_lowercase (trim payload.email)))
    pure (json response)

  unfoldable pub refresh : Str → Action Server (HttpResponse AuthTokensResponse)
  refresh refresh_token = do
    limited none
    response ← on_storage (Service.refresh app.lib app.auth draw.session app.config refresh_token)
    context ← context_from_access_token response
    log draw context.workspace_id context (text "AUTH_REFRESH") (text "session") none
        (reason (text "token_rotation"))
    pure (json response)

  unfoldable pub logout : Str → Action Server (HttpResponse (Unit {0}))
  logout refresh_token = do
    context ← authenticated app draw headers
    limited none
    on_storage (Service.logout app.lib app.auth draw.session refresh_token)
    log draw context.workspace_id context (text "AUTH_LOGOUT") (text "session") none empty
    pure no_content

  unfoldable pub me : Action Server (HttpResponse MeResponse)
  me = do
    context ← authenticated app draw headers
    answer ← on_storage (me_from_context app.lib app.auth draw.session.seed_time context)
    pure (json answer)
