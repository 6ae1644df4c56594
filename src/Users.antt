-- ===== src/Users.antt =====
-- src/users.rs: the users of a workspace. The hash of a password is the library's, under the
-- salt that the call draws.
pub mod Create
use Prim.Native.Nat.{ℕ}
use mathlib.Core.Logic.{◌⊎◌, inl, inr}
use mathlib.Core.Bool.{Bool, true, false, ◌||◌}
use mathlib.Core.Option.{Option, none, some}
use mathlib.Core.List.{List, [], ◌∷◌, ◌++◌}
use galynx_api.Common.{is_empty, is_some, ltb, eqb, sort_by, if◌then◌else◌}
use galynx_api.Text.{Str, text, trim, to_ascii_lowercase, byte_len}
use galynx_api.Errors.{
  ApiResult, ok, err, bad_request, internal, Action, ◌>>=◌, ◌>>◌, pure, gets, lift, modify, fail_if,
}
use galynx_api.Auth.Context.{WorkspaceRole, owner, admin, member, parse_role, role_to_storage}
use galynx_api.Storage.{Storage, Uuid, AuthUserRecordStore}
use galynx_api.Storage.Accounts.{
  list_workspace_memberships, get_auth_user_by_id, get_auth_user_by_email, put_auth_user,
  put_membership_role,
}

pub record CreateUserRequest : Type 0 where
  pub email : Str
  pub name : Str
  pub password : Str
  pub role : WorkspaceRole

pub record UserResponse : Type 0 where
  pub id : Uuid
  pub email : Str
  pub name : Str
  pub workspace_id : Uuid
  pub role : WorkspaceRole

-- `hash_password`, the same in src/workspaces.rs: the library's result for a salt and a password,
-- with its error's text under the message of the service.
unfoldable pub hash_password : (Str → Str → Str ⊎ Str) → Str → Str → ApiResult Str
hash_password argon salt password = elim (argon salt password) [
  | inl error ↦ err (internal (text "failed to hash password: " ++ error))
  | inr hash ↦ ok hash
]

-- `matches!(role, Owner)`
abbrev pub is_owner : WorkspaceRole → Bool
is_owner owner = true
is_owner admin = false
is_owner member = false

-- `String::cmp`, by code points, which UTF-8 orders as its bytes
abbrev pub str_lt : Str → Str → Bool
str_lt s [] = false
str_lt [] (d ∷ t) = true
str_lt (c ∷ s) (d ∷ t) = if ltb c d then true else if eqb c d then str_lt s t else false

-- `email`, then `id`
abbrev by_email : UserResponse → UserResponse → Bool
by_email a b =
    if str_lt a.email b.email then true else if str_lt b.email a.email then false else ltb a.id b.id

abbrev user_response : Uuid → AuthUserRecordStore → WorkspaceRole → UserResponse
user_response workspace_id user role = record {
  id = user.id;
  email = user.email;
  name = user.name;
  workspace_id = workspace_id;
  role = role;
}

-- The loop of `list_users`: a membership whose user is gone is passed over, a role that cannot be
-- read ends the loop.
abbrev pub collect_users :
    Uuid → Storage → List (Uuid × Str) → List UserResponse → ApiResult (List UserResponse)
collect_users workspace_id s [] users = ok users
collect_users workspace_id s ((user_id, stored) ∷ memberships) users =
    elim (get_auth_user_by_id user_id s) [
      | none ↦ collect_users workspace_id s memberships users
      | some user ↦ elim (parse_role stored) [
        | err e ↦ err e
        | ok role ↦
            collect_users workspace_id s memberships
              (users ++ user_response workspace_id user role ∷ [])
      ]
    ]

unfoldable pub list_users : Uuid → Action Storage (List UserResponse)
list_users workspace_id = do
  memberships ← gets (list_workspace_memberships workspace_id)
  s ← gets (λ (s : Storage). s)
  users ← lift (collect_users workspace_id s memberships [])
  pure (sort_by by_email users)

unfoldable pub create_user :
    (Str → Str → Str ⊎ Str) → Str → Uuid → Uuid → CreateUserRequest → Action Storage UserResponse
create_user argon salt user_id workspace_id payload = do
  let email = to_ascii_lowercase (trim payload.email)
  let name = trim payload.name
  let password = trim payload.password
  fail_if (is_empty email || is_empty name || is_empty password)
      (bad_request (text "email, name and password are required"))
  fail_if (ltb (byte_len password) 8)
      (bad_request (text "password must have at least 8 characters"))
  fail_if (is_owner payload.role) (bad_request (text "cannot create owner users via api"))
  existing ← gets (get_auth_user_by_email email)
  fail_if (is_some existing) (bad_request (text "email already exists"))
  password_hash ← lift (hash_password argon salt password)
  let user : AuthUserRecordStore = record {
    id = user_id;
    email = email;
    name = name;
    password_hash = password_hash;
  }
  modify (put_auth_user user)
  modify (put_membership_role workspace_id user_id (role_to_storage payload.role))
  pure (user_response workspace_id user payload.role)
