-- ===== src/Http/Roles.antt =====
-- The requests that are for the managers of a workspace, and what a member is answered.
use mathlib.Core.Path.{◌≡◌, refl}
use mathlib.Core.Logic.{◌⊎◌, inl, inr}
use mathlib.Core.Bool.{Bool, true, false}
use native.Mathlib.Omega.{arith}
use galynx_api.Common.{Bool-cases, ◌==◌, nat_eq}
use galynx_api.Text.{Str, text}
use galynx_api.Errors.{ApiError, ApiResult, ok, err, unauthorized, status_code}
use galynx_api.Auth.Context.{
  AuthContext, is_manager, ensure_channel_admin, ensure_user_admin, ensure_workspace_admin,
  ensure_context_workspace, ensure_audit_access,
}
use galynx_api.Storage.{Uuid}
use galynx_api.Realtime.{Server}
use galynx_api.Http.{AppState, HttpDraw, Headers, HttpResponse, authenticated}
use galynx_api.Http.Routes.{
  Request, serve, add_channel_member, commit, create_channel, create_message, create_reply,
  create_user, create_workspace, delete_channel, delete_message, get_attachment, get_thread,
  list_audit, list_channel_members, list_channels, list_messages, list_replies, list_users,
  list_workspace_members, list_workspaces, login, logout, me, onboard_workspace_member, presign,
  refresh, remove_channel_member, update_message,
}

-- The first of two results that is an error, if any is.
abbrev both_hold : ApiResult (Unit {0}) → ApiResult (Unit {0}) → ApiResult (Unit {0})
both_hold (ok u) r = r
both_hold (err e) r = err e

-- The requests that the owner and the admins of a workspace may make.
abbrev pub for_managers : Request → Bool
for_managers (create_channel _) = true
for_managers (delete_channel _) = true
for_managers (list_channel_members _) = true
for_managers (add_channel_member _ _) = true
for_managers (remove_channel_member _ _) = true
for_managers (list_audit _) = true
for_managers list_users = true
for_managers (create_user _) = true
for_managers (list_workspace_members _) = true
for_managers (onboard_workspace_member _ _) = true
for_managers _ = false

module _ (app : AppState) (draw : HttpDraw) (headers : Headers) (s : Server) where
  module _ (context : AuthContext) (found : (authenticated app draw headers s).0 ≡ ok context) where
    -- What the handler asks of its caller's role.
    role_guard : Request → ApiResult (Unit {0})
    role_guard (create_channel payload) = ensure_channel_admin context
    role_guard (delete_channel id) = ensure_channel_admin context
    role_guard (list_channel_members id) = ensure_channel_admin context
    role_guard (add_channel_member id user_id) = ensure_channel_admin context
    role_guard (remove_channel_member id user_id) = ensure_channel_admin context
    role_guard (list_audit query) = ensure_audit_access context
    role_guard list_users = ensure_user_admin context
    role_guard (create_user payload) = ensure_user_admin context
    role_guard (list_workspace_members id) =
        both_hold (ensure_context_workspace context id) (ensure_workspace_admin context)
    role_guard (onboard_workspace_member id payload) =
        both_hold (ensure_context_workspace context id) (ensure_workspace_admin context)
    role_guard r = ok tt

    serve-guarded :
        (r : Request) (e : ApiError)
        → role_guard r ≡ err e
        → serve app draw headers r s ≡ (err e, (authenticated app draw headers s).1)
    unfolding serve role_guard galynx_api.Http.Rooms.create_channel
        galynx_api.Http.Rooms.delete_channel galynx_api.Http.Rooms.list_channel_members
        galynx_api.Http.Rooms.add_channel_member galynx_api.Http.Rooms.remove_channel_member
        galynx_api.Http.Accounts.list_audit galynx_api.Http.Accounts.list_users
        galynx_api.Http.Accounts.create_user galynx_api.Http.Accounts.list_workspace_members
        galynx_api.Http.Accounts.onboard_workspace_member
    serve-guarded (login payload) e h = cc
    serve-guarded (refresh token) e h = cc
    serve-guarded (logout token) e h = cc
    serve-guarded me e h = cc
    serve-guarded list_channels e h = cc
    serve-guarded (create_channel payload) e h = ground arith
    serve-guarded (delete_channel id) e h = ground arith
    serve-guarded (list_channel_members id) e h = ground arith
    serve-guarded (add_channel_member id user_id) e h = ground arith
    serve-guarded (remove_channel_member id user_id) e h = ground arith
    serve-guarded (create_message id body) e h = cc
    serve-guarded (list_messages id query) e h = cc
    serve-guarded (update_message id body) e h = cc
    serve-guarded (delete_message id) e h = cc
    serve-guarded (get_thread id) e h = cc
    serve-guarded (list_replies id query) e h = cc
    serve-guarded (create_reply id body) e h = cc
    serve-guarded (presign payload) e h = cc
    serve-guarded (commit payload) e h = cc
    serve-guarded (get_attachment id) e h = cc
    serve-guarded (list_audit query) e h = ground arith
    serve-guarded list_users e h = ground arith
    serve-guarded (create_user payload) e h = ground arith
    serve-guarded list_workspaces e h = cc
    serve-guarded (create_workspace payload) e h = cc
    serve-guarded (list_workspace_members id) e h = ground arith
    serve-guarded (onboard_workspace_member id payload) e h = ground arith

    abbrev IsRefusal : ApiResult (Unit {0}) → Type 0
    IsRefusal r = (e : ApiError) × (r ≡ err e) × (status_code e ≡ 401)

    refusal : (r : ApiResult (Unit {0})) (m : Str) → r ≡ err (unauthorized m) → IsRefusal r
    unfolding status_code
    refusal r m h = (unauthorized m, h, refl)

    both_refused :
        (a b : ApiResult (Unit {0}))
        → ((a ≡ ok tt) ⊎ IsRefusal a)
        → IsRefusal b
        → IsRefusal (both_hold a b)
    both_refused a b (inl h) (e, r, k) = (e, rw h r, k)
    both_refused a b (inr (e, r, k)) h = (e, rw r refl, k)

    other_workspace :
        (id : Uuid)
        → (ensure_context_workspace context id ≡ ok tt)
          ⊎ IsRefusal (ensure_context_workspace context id)
    unfolding ensure_context_workspace
    other_workspace id = elim (Bool-cases (context.workspace_id == id)) [
      | inl same ↦ inl (rw same refl)
      | inr differ ↦
          inr
            (refusal _ (text "token workspace does not match requested workspace") (rw differ refl))
    ]

    module _ (h : is_manager context.role ≡ false) where
      channel_admin : IsRefusal (ensure_channel_admin context)
      unfolding ensure_channel_admin
      channel_admin = refusal _ (text "you do not have permission to manage channels") (rw h refl)

      user_admin : IsRefusal (ensure_user_admin context)
      unfolding ensure_user_admin
      user_admin = refusal _ (text "you do not have permission to manage users") (rw h refl)

      workspace_admin : IsRefusal (ensure_workspace_admin context)
      unfolding ensure_workspace_admin
      workspace_admin =
          refusal _ (text "you do not have permission to manage workspace members") (rw h refl)

      audit_access : IsRefusal (ensure_audit_access context)
      unfolding ensure_audit_access
      audit_access = refusal _ (text "you do not have permission to read audit logs") (rw h refl)

      role_guard-member : (r : Request) → for_managers r ≡ true → IsRefusal (role_guard r)
      unfolding role_guard
      role_guard-member (login payload) n = cc
      role_guard-member (refresh token) n = cc
      role_guard-member (logout token) n = cc
      role_guard-member me n = cc
      role_guard-member list_channels n = cc
      role_guard-member (create_channel payload) n = channel_admin
      role_guard-member (delete_channel id) n = channel_admin
      role_guard-member (list_channel_members id) n = channel_admin
      role_guard-member (add_channel_member id user_id) n = channel_admin
      role_guard-member (remove_channel_member id user_id) n = channel_admin
      role_guard-member (create_message id body) n = cc
      role_guard-member (list_messages id query) n = cc
      role_guard-member (update_message id body) n = cc
      role_guard-member (delete_message id) n = cc
      role_guard-member (get_thread id) n = cc
      role_guard-member (list_replies id query) n = cc
      role_guard-member (create_reply id body) n = cc
      role_guard-member (presign payload) n = cc
      role_guard-member (commit payload) n = cc
      role_guard-member (get_attachment id) n = cc
      role_guard-member (list_audit query) n = audit_access
      role_guard-member list_users n = user_admin
      role_guard-member (create_user payload) n = user_admin
      role_guard-member list_workspaces n = cc
      role_guard-member (create_workspace payload) n = cc
      role_guard-member (list_workspace_members id) n =
          both_refused _ _ (other_workspace id) workspace_admin
      role_guard-member (onboard_workspace_member id payload) n =
          both_refused _ _ (other_workspace id) workspace_admin

      -- A request for managers, by a caller whose role is that of a member, is answered with an
      -- error of status 401, and nothing is written after the caller is authenticated.
      pub serve-member :
          (r : Request)
          → for_managers r ≡ true
          → (e : ApiError) × (status_code e ≡ 401)
            × (serve app draw headers r s ≡ (err e, (authenticated app draw headers s).1))
      serve-member r n =
          let (e, refused, status) = role_guard-member r n in (e, status, serve-guarded r e refused)
