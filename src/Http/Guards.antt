-- ===== src/Http/Guards.antt =====
-- What a request is answered whose token the server does not accept.
use mathlib.Core.Path.{◌≡◌, ap, ◌∙◌}
use mathlib.Core.Logic.{◌⊎◌, inl, inr}
use mathlib.Core.Bool.{Bool, true, false}
use native.Mathlib.Omega.{arith}
use galynx_api.Common.{nat_eq}
use galynx_api.Errors.{ApiError, err, status_code, ApiResult-cases}
use galynx_api.Auth.Service.{
  authenticate_headers, authenticate_access_token, bearer_from_headers, ensure_bootstrap_seed,
}
use galynx_api.Realtime.{Server}
use galynx_api.Http.{AppState, HttpDraw, Headers, HttpResponse, authenticated}
use galynx_api.Http.Routes.{
  Request, serve, add_channel_member, commit, create_channel, create_message, create_reply,
  create_user, create_workspace, delete_channel, delete_message, get_attachment, get_thread,
  list_audit, list_channel_members, list_channels, list_messages, list_replies, list_users,
  list_workspace_members, list_workspaces, login, logout, me, onboard_workspace_member, presign,
  refresh, remove_channel_member, update_message,
}

-- All but the two requests that hand out tokens.
abbrev pub needs_token : Request → Bool
needs_token (login _) = false
needs_token (refresh _) = false
needs_token _ = true

module _ (app : AppState) (draw : HttpDraw) (headers : Headers) (s : Server) where
  serve-error :
      (r : Request) (e : ApiError)
      → needs_token r ≡ true
      → (authenticated app draw headers s).0 ≡ err e
      → serve app draw headers r s ≡ (err e, (authenticated app draw headers s).1)
  unfolding serve galynx_api.Http.Sessions.logout galynx_api.Http.Sessions.me
      galynx_api.Http.Rooms.list_channels galynx_api.Http.Rooms.create_channel
      galynx_api.Http.Rooms.delete_channel galynx_api.Http.Rooms.list_channel_members
      galynx_api.Http.Rooms.add_channel_member galynx_api.Http.Rooms.remove_channel_member
      galynx_api.Http.Messages.create_message galynx_api.Http.Messages.list_messages
      galynx_api.Http.Messages.update_message galynx_api.Http.Messages.delete_message
      galynx_api.Http.Messages.get_thread galynx_api.Http.Messages.list_replies
      galynx_api.Http.Messages.create_reply galynx_api.Http.Uploads.presign
      galynx_api.Http.Uploads.commit galynx_api.Http.Uploads.get_attachment
      galynx_api.Http.Accounts.list_audit galynx_api.Http.Accounts.list_users
      galynx_api.Http.Accounts.create_user galynx_api.Http.Accounts.list_workspaces
      galynx_api.Http.Accounts.create_workspace galynx_api.Http.Accounts.list_workspace_members
      galynx_api.Http.Accounts.onboard_workspace_member
  serve-error (login payload) e n h = cc
  serve-error (refresh token) e n h = cc
  serve-error (logout token) e n h = ground arith
  serve-error me e n h = ground arith
  serve-error list_channels e n h = ground arith
  serve-error (create_channel payload) e n h = ground arith
  serve-error (delete_channel id) e n h = ground arith
  serve-error (list_channel_members id) e n h = ground arith
  serve-error (add_channel_member id user_id) e n h = ground arith
  serve-error (remove_channel_member id user_id) e n h = ground arith
  serve-error (create_message id body) e n h = ground arith
  serve-error (list_messages id query) e n h = ground arith
  serve-error (update_message id body) e n h = ground arith
  serve-error (delete_message id) e n h = ground arith
  serve-error (get_thread id) e n h = ground arith
  serve-error (list_replies id query) e n h = ground arith
  serve-error (create_reply id body) e n h = ground arith
  serve-error (presign payload) e n h = ground arith
  serve-error (commit payload) e n h = ground arith
  serve-error (get_attachment id) e n h = ground arith
  serve-error (list_audit query) e n h = ground arith
  serve-error list_users e n h = ground arith
  serve-error (create_user payload) e n h = ground arith
  serve-error list_workspaces e n h = ground arith
  serve-error (create_workspace payload) e n h = ground arith
  serve-error (list_workspace_members id) e n h = ground arith
  serve-error (onboard_workspace_member id payload) e n h = ground arith

  authenticated-error :
      (e : ApiError)
      → (authenticated app draw headers s).0 ≡ err e
      → (status_code e ≡ 401)
        × (((authenticated app draw headers s).1 ≡ s)
            ⊎ ((authenticated app draw headers s).1 ≡ record s {
              storage = ensure_bootstrap_seed app.auth draw.authenticate.seed_time s.storage;
            }))
  unfolding authenticated authenticate_headers authenticate_access_token bearer_from_headers
      status_code
  authenticated-error e h = elim (ApiResult-cases (bearer_from_headers headers.authorization)) [
    | inl (token, found) ↦ (ground arith, inr (ground arith))
    | inr (e', missing) ↦ (ground arith, inl (ground arith))
  ]

  -- A request that needs a token, and whose token is not accepted, is answered with that error,
  -- whose status is 401. Nothing is written, but for the seed that is made before a token is read.
  pub serve-unauthenticated :
      (r : Request) (e : ApiError)
      → needs_token r ≡ true
      → (authenticated app draw headers s).0 ≡ err e
      → (status_code e ≡ 401)
        × ((serve app draw headers r s ≡ (err e, s))
            ⊎ (serve app draw headers r s ≡ (
              err e,
              record s {
                storage = ensure_bootstrap_seed app.auth draw.authenticate.seed_time s.storage;
              },
            )))
  serve-unauthenticated r e n h = (
    (authenticated-error e h).0,
    elim (authenticated-error e h).1 [
      | inl same ↦ inl (serve-error r e n h ∙ ap (λ t. (err e, t)) same)
      | inr seeded ↦ inr (serve-error r e n h ∙ ap (λ t. (err e, t)) seeded)
    ],
  )
