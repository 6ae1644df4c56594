-- ===== src/Auth/Context.antt =====
-- The roles of src/auth.rs, src/users.rs and src/workspaces.rs: how they are stored and read, and
-- what each may do.
use mathlib.Core.Path.{◌≡◌, refl}
use mathlib.Core.Bool.{Bool, true, false}
use mathlib.Core.Logic.{◌⊎◌, ◌↔◌, inl, inr}
use native.Mathlib.Omega.{arith}
use galynx_api.Common.{◌==◌, nat_eq, text_eq, if◌then◌else◌}
use galynx_api.Text.{Str, text, trim, to_ascii_lowercase, text_tests}
use galynx_api.Errors.{ApiError, ApiResult, ok, err, unauthorized, internal}
use galynx_api.Storage.{Uuid}

pub data WorkspaceRole : Type 0 where
  owner admin member : WorkspaceRole

pub record AuthContext : Type 0 where
  pub user_id : Uuid
  pub workspace_id : Uuid
  pub role : WorkspaceRole

-- `WorkspaceRole::from_storage_role`
unfoldable pub from_storage_role : Str → Str ⊎ WorkspaceRole
from_storage_role value =
    let v = to_ascii_lowercase (trim value) in
    if v == text "owner"
    then inr owner
    else if v == text "admin"
    then inr admin
    else if v == text "member"
    then inr member
    else inl (text "invalid role")

-- `role_to_storage`, the same in src/users.rs and src/workspaces.rs
unfoldable pub role_to_storage : WorkspaceRole → Str
role_to_storage owner = text "owner"
role_to_storage admin = text "admin"
role_to_storage member = text "member"

-- `parse_role`, the same in src/users.rs and src/workspaces.rs
unfoldable pub parse_role : Str → ApiResult WorkspaceRole
parse_role value =
    let v = to_ascii_lowercase (trim value) in
    if v == text "owner"
    then ok owner
    else if v == text "admin"
    then ok admin
    else if v == text "member"
    then ok member
    else err (internal (text "invalid membership role"))

-- `matches!(role, Owner | Admin)`
abbrev pub is_manager : WorkspaceRole → Bool
is_manager owner = true
is_manager admin = true
is_manager member = false

abbrev manager_or : Bool → ApiError → ApiResult (Unit {0})
manager_or true e = ok tt
manager_or false e = err e

-- src/channels.rs
unfoldable pub ensure_channel_admin : AuthContext → ApiResult (Unit {0})
ensure_channel_admin context =
    manager_or (is_manager context.role)
      (unauthorized (text "you do not have permission to manage channels"))

-- src/users.rs
unfoldable pub ensure_user_admin : AuthContext → ApiResult (Unit {0})
ensure_user_admin context =
    manager_or (is_manager context.role)
      (unauthorized (text "you do not have permission to manage users"))

-- src/workspaces.rs
unfoldable pub ensure_workspace_admin : AuthContext → ApiResult (Unit {0})
ensure_workspace_admin context =
    manager_or (is_manager context.role)
      (unauthorized (text "you do not have permission to manage workspace members"))

-- src/workspaces.rs
unfoldable pub ensure_context_workspace : AuthContext → Uuid → ApiResult (Unit {0})
ensure_context_workspace context workspace_id =
    if context.workspace_id == workspace_id
    then ok tt
    else err (unauthorized (text "token workspace does not match requested workspace"))

-- src/audit.rs
unfoldable pub ensure_audit_access : AuthContext → ApiResult (Unit {0})
ensure_audit_access context =
    manager_or (is_manager context.role)
      (unauthorized (text "you do not have permission to read audit logs"))

-- A role that is stored is read back.
pub from_storage_role-role_to_storage :
    (r : WorkspaceRole) → from_storage_role (role_to_storage r) ≡ inr r
unfolding from_storage_role role_to_storage text_tests
from_storage_role-role_to_storage owner = refl
from_storage_role-role_to_storage admin = refl
from_storage_role-role_to_storage member = refl

-- `parse_role` reads a stored role as `from_storage_role` does, and refuses what that refuses.
pub parse_role-from_storage_role :
    (value : Str) (r : WorkspaceRole)
    → (parse_role value ≡ ok r) ↔ (from_storage_role value ≡ inr r)
unfolding parse_role from_storage_role
parse_role-from_storage_role value r = ground arith
