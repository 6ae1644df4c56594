-- ===== src/Workspaces.antt =====
-- src/workspaces.rs: workspaces and who belongs to them.
pub mod Members
use Prim.Native.Nat.{ℕ}
use mathlib.Core.Logic.{◌⊎◌, inl, inr}
use mathlib.Core.Bool.{Bool, true, false, ◌||◌}
use mathlib.Core.Option.{Option, none, some}
use mathlib.Core.List.{List, [], ◌∷◌, ◌++◌}
use galynx_api.Common.{is_empty, ltb, sort_by, if◌then◌else◌, ℤ}
use galynx_api.Text.{Str, text, trim, to_ascii_lowercase, byte_len}
use galynx_api.Errors.{
  ApiResult, ok, err, bad_request, Action, ◌>>=◌, ◌>>◌, pure, gets, lift, modify, fail_if,
}
use galynx_api.Auth.Context.{WorkspaceRole, owner, parse_role, role_to_storage}
use galynx_api.Storage.{Storage, Uuid, Stamp, AuthUserRecordStore, WorkspaceRecordStore}
use galynx_api.Storage.Accounts.{
  list_workspace_memberships, list_user_memberships, get_auth_user_by_id, get_auth_user_by_email,
  put_auth_user, put_membership_role, put_workspace, get_workspace,
}
use galynx_api.Users.{hash_password, is_owner, str_lt}

pub record CreateWorkspaceRequest : Type 0 where
  pub name : Str

pub record OnboardWorkspaceMemberRequest : Type 0 where
  pub email : Str
  pub name : Option Str
  pub password : Option Str
  pub role : WorkspaceRole

pub record WorkspaceResponse : Type 0 where
  pub id : Uuid
  pub name : Str
  pub role : WorkspaceRole
  pub created_by : Uuid
  pub created_at : ℤ

pub record WorkspaceMemberResponse : Type 0 where
  pub user_id : Uuid
  pub email : Str
  pub name : Str
  pub role : WorkspaceRole

abbrev pub workspace_response : WorkspaceRecordStore → WorkspaceRole → WorkspaceResponse
workspace_response w role = record {
  id = w.id;
  name = w.name;
  role = role;
  created_by = w.created_by;
  created_at = w.created_at;
}

-- The loop of `list_workspaces_for_user`.
abbrev collect_workspaces :
    Storage → List (Uuid × Str) → List WorkspaceResponse → ApiResult (List WorkspaceResponse)
collect_workspaces s [] items = ok items
collect_workspaces s ((workspace_id, stored) ∷ memberships) items =
    elim (get_workspace workspace_id s) [
      | none ↦ collect_workspaces s memberships items
      | some w ↦ elim (parse_role stored) [
        | err e ↦ err e
        | ok role ↦ collect_workspaces s memberships (items ++ workspace_response w role ∷ [])
      ]
    ]

unfoldable pub list_workspaces_for_user : Uuid → Action Storage (List WorkspaceResponse)
list_workspaces_for_user user_id = do
  memberships ← gets (list_user_memberships user_id)
  s ← gets (λ (s : Storage). s)
  lift (collect_workspaces s (sort_by (λ (a b : Uuid × Str). ltb a.0 b.0) memberships) [])

unfoldable pub create_workspace :
    Stamp → Uuid → CreateWorkspaceRequest → Action Storage WorkspaceResponse
create_workspace stamp owner_id payload = do
  let name = trim payload.name
  fail_if (is_empty name) (bad_request (text "workspace name is required"))
  let workspace : WorkspaceRecordStore = record {
    id = stamp.uuid;
    name = name;
    created_by = owner_id;
    created_at = stamp.time;
  }
  modify (put_workspace workspace)
  modify (put_membership_role stamp.uuid owner_id (text "owner"))
  pure (workspace_response workspace owner)

abbrev pub member_response : Uuid → AuthUserRecordStore → WorkspaceRole → WorkspaceMemberResponse
member_response user_id user role = record {
  user_id = user_id;
  email = user.email;
  name = user.name;
  role = role;
}

-- The loop of `list_members`.
abbrev collect_members :
    Storage
    → List (Uuid × Str)
    → List WorkspaceMemberResponse
    → ApiResult (List WorkspaceMemberResponse)
collect_members s [] users = ok users
collect_members s ((user_id, stored) ∷ memberships) users = elim (get_auth_user_by_id user_id s) [
  | none ↦ collect_members s memberships users
  | some user ↦ elim (parse_role stored) [
    | err e ↦ err e
    | ok role ↦ collect_members s memberships (users ++ member_response user_id user role ∷ [])
  ]
]

-- `email`, then `user_id`
abbrev by_email : WorkspaceMemberResponse → WorkspaceMemberResponse → Bool
by_email a b =
    if str_lt a.email b.email
    then true
    else if str_lt b.email a.email
    then false
    else ltb a.user_id b.user_id

unfoldable pub list_members : Uuid → Action Storage (List WorkspaceMemberResponse)
list_members workspace_id = do
  memberships ← gets (list_workspace_memberships workspace_id)
  s ← gets (λ (s : Storage). s)
  users ← lift (collect_members s memberships [])
  pure (sort_by by_email users)

-- `unwrap_or_default().trim()`
abbrev pub or_empty : Option Str → Str
or_empty none = []
or_empty (some value) = trim value

module _ (argon : Str → Str → Str ⊎ Str) (salt : Str) (new_id : Uuid) where
  -- The user who is made where none has the email.
  unfoldable pub new_member :
      Str → OnboardWorkspaceMemberRequest → Action Storage AuthUserRecordStore
  new_member email payload = do
    let name = or_empty payload.name
    let password = or_empty payload.password
    fail_if (is_empty name || is_empty password)
        (bad_request (text "name and password are required for new users"))
    fail_if (ltb (byte_len password) 8)
        (bad_request (text "password must have at least 8 characters"))
    password_hash ← lift (hash_password argon salt password)
    let user : AuthUserRecordStore = record {
      id = new_id;
      email = email;
      name = name;
      password_hash = password_hash;
    }
    modify (put_auth_user user)
    pure user

  abbrev pub existing_or_new :
      Option AuthUserRecordStore
      → Str
      → OnboardWorkspaceMemberRequest
      → Action Storage AuthUserRecordStore
  existing_or_new (some user) email payload = pure user
  existing_or_new none email payload = new_member email payload

  unfoldable pub onboard_member :
      Uuid → OnboardWorkspaceMemberRequest → Action Storage WorkspaceMemberResponse
  unfolding new_member
  onboard_member workspace_id payload = do
    fail_if (is_owner payload.role) (bad_request (text "cannot onboard owner users via api"))
    let email = to_ascii_lowercase (trim payload.email)
    fail_if (is_empty email) (bad_request (text "email is required"))
    existing ← gets (get_auth_user_by_email email)
    user ← existing_or_new existing email payload
    modify (put_membership_role workspace_id user.id (role_to_storage payload.role))
    pure (member_response user.id user payload.role)
