-- ===== src/Http/Accounts.antt =====
-- The handlers of src/users.rs, src/workspaces.rs and src/audit.rs.
use mathlib.Core.Option.{some}
use mathlib.Core.List.{List}
use galynx_api.Common.{is_none}
use galynx_api.Text.{text}
use galynx_api.Errors.{not_found, Action, ◌>>=◌, ◌>>◌, pure, lift, gets, fail_if}
use galynx_api.Auth.Context.{
  ensure_user_admin, ensure_workspace_admin, ensure_context_workspace, ensure_audit_access,
  role_to_storage,
}
use galynx_api.Storage.{Uuid, user, workspace}
use galynx_api.Storage.Accounts.{get_workspace}
use galynx_api.Paging.{MessageQuery}
use galynx_api.Users as UserService
use galynx_api.Users.{CreateUserRequest, UserResponse}
use galynx_api.Workspaces as WorkspaceService
use galynx_api.Workspaces.{
  WorkspaceResponse, CreateWorkspaceRequest, WorkspaceMemberResponse, OnboardWorkspaceMemberRequest,
}
use galynx_api.Audit as AuditService
use galynx_api.Audit.{AuditListResponse}
use galynx_api.Realtime.{Server, on_storage}
use galynx_api.Http.{AppState, HttpDraw, Headers, HttpResponse, json, created, authenticated, log}

module _ (app : AppState) (draw : HttpDraw) (headers : Headers) where
  unfoldable pub list_users : Action Server (HttpResponse (List UserResponse))
  list_users = do
    context ← authenticated app draw headers
    lift (ensure_user_admin context)
    users ← on_storage (UserService.list_users context.workspace_id)
    pure (json users)

  unfoldable pub create_user : CreateUserRequest → Action Server (HttpResponse UserResponse)
  create_user payload = do
    context ← authenticated app draw headers
    lift (ensure_user_admin context)
    item ←
        on_storage
          (UserService.create_user app.argon draw.salt draw.item.uuid context.workspace_id payload)
    log draw context.workspace_id context (text "USER_CREATED") (text "user")
        (some (app.lib.show_uuid item.id)) (user item.email (role_to_storage item.role))
    pure (created item)

  unfoldable pub list_workspaces : Action Server (HttpResponse (List WorkspaceResponse))
  list_workspaces = do
    context ← authenticated app draw headers
    workspaces ← on_storage (WorkspaceService.list_workspaces_for_user context.user_id)
    pure (json workspaces)

  -- The entry of the log stands in the workspace that is made, not in the caller's.
  unfoldable pub create_workspace :
      CreateWorkspaceRequest → Action Server (HttpResponse WorkspaceResponse)
  create_workspace payload = do
    context ← authenticated app draw headers
    item ← on_storage (WorkspaceService.create_workspace draw.item context.user_id payload)
    log draw item.id context (text "WORKSPACE_CREATED") (text "workspace")
        (some (app.lib.show_uuid item.id)) (workspace item.name)
    pure (created item)

  -- `if state.storage.get_workspace(..).is_none() { return Err(..) }`
  abbrev workspace_exists : Uuid → Action Server (Unit {0})
  workspace_exists workspace_id = do
    found ← on_storage (gets (get_workspace workspace_id))
    fail_if (is_none found) (not_found (text "workspace not found"))

  unfoldable pub list_workspace_members :
      Uuid → Action Server (HttpResponse (List WorkspaceMemberResponse))
  list_workspace_members workspace_id = do
    context ← authenticated app draw headers
    lift (ensure_context_workspace context workspace_id)
    lift (ensure_workspace_admin context)
    workspace_exists workspace_id
    members ← on_storage (WorkspaceService.list_members workspace_id)
    pure (json members)

  unfoldable pub onboard_workspace_member :
      Uuid → OnboardWorkspaceMemberRequest → Action Server (HttpResponse WorkspaceMemberResponse)
  onboard_workspace_member workspace_id payload = do
    context ← authenticated app draw headers
    lift (ensure_context_workspace context workspace_id)
    lift (ensure_workspace_admin context)
    workspace_exists workspace_id
    item ←
        on_storage
          (WorkspaceService.onboard_member app.argon draw.salt draw.item.uuid workspace_id payload)
    log draw workspace_id context (text "WORKSPACE_MEMBER_ONBOARDED") (text "user")
        (some (app.lib.show_uuid item.user_id)) (user item.email (role_to_storage item.role))
    pure (created item)

  unfoldable pub list_audit : MessageQuery → Action Server (HttpResponse AuditListResponse)
  list_audit query = do
    context ← authenticated app draw headers
    lift (ensure_audit_access context)
    page ← on_storage (AuditService.list_audit context.workspace_id query)
    pure (json page)
