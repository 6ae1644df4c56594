-- ===== src/Storage/Accounts.antt =====
-- src/storage.rs: workspaces, users, memberships and refresh sessions in memory.
use mathlib.Core.Option.{Option, none, some}
use mathlib.Core.List.{List, [], ◌∷◌}
use galynx_api.Common.{lookup, insert, nat_eq, text_eq, pair_eq, ◌==◌, if◌then◌else◌, Map}
use galynx_api.Text.{Str, trim, to_ascii_lowercase}
use galynx_api.Storage.{
  Storage, Uuid, WorkspaceRecordStore, AuthUserRecordStore, RefreshSessionRecordStore,
}

unfoldable pub put_workspace : WorkspaceRecordStore → Storage → Storage
put_workspace w s = record s { workspaces = insert w.id w s.workspaces }

unfoldable pub get_workspace : Uuid → Storage → Option WorkspaceRecordStore
get_workspace id s = lookup id s.workspaces

-- The index by email is written first, under the lowered email.
unfoldable pub put_auth_user : AuthUserRecordStore → Storage → Storage
put_auth_user u s = record s {
  auth_users_by_email = insert (to_ascii_lowercase u.email) u.id s.auth_users_by_email;
  auth_users = insert u.id u s.auth_users;
}

unfoldable pub get_auth_user_by_id : Uuid → Storage → Option AuthUserRecordStore
get_auth_user_by_id id s = lookup id s.auth_users

abbrev user_of : Option Uuid → Storage → Option AuthUserRecordStore
user_of none s = none
user_of (some id) s = lookup id s.auth_users

unfoldable pub get_auth_user_by_email : Str → Storage → Option AuthUserRecordStore
get_auth_user_by_email email s =
    user_of (lookup (to_ascii_lowercase (trim email)) s.auth_users_by_email) s

unfoldable pub put_membership_role : Uuid → Uuid → Str → Storage → Storage
put_membership_role workspace_id user_id role s = record s {
  auth_memberships = insert (workspace_id, user_id) role s.auth_memberships;
}

unfoldable pub get_membership_role : Uuid → Uuid → Storage → Option Str
get_membership_role workspace_id user_id s = lookup (workspace_id, user_id) s.auth_memberships

abbrev first_of_user : Uuid → Map (Uuid × Uuid) Str → Option (Uuid × Str)
first_of_user user_id [] = none
first_of_user user_id (((workspace_id, member_id), role) ∷ m) =
    if member_id == user_id then some (workspace_id, role) else first_of_user user_id m

unfoldable pub find_primary_membership : Uuid → Storage → Option (Uuid × Str)
find_primary_membership user_id s = first_of_user user_id s.auth_memberships

abbrev of_workspace : Uuid → Map (Uuid × Uuid) Str → List (Uuid × Str)
of_workspace id [] = []
of_workspace id (((workspace_id, user_id), role) ∷ m) =
    if workspace_id == id then (user_id, role) ∷ of_workspace id m else of_workspace id m

unfoldable pub list_workspace_memberships : Uuid → Storage → List (Uuid × Str)
list_workspace_memberships workspace_id s = of_workspace workspace_id s.auth_memberships

abbrev of_user : Uuid → Map (Uuid × Uuid) Str → List (Uuid × Str)
of_user id [] = []
of_user id (((workspace_id, member_id), role) ∷ m) =
    if member_id == id then (workspace_id, role) ∷ of_user id m else of_user id m

unfoldable pub list_user_memberships : Uuid → Storage → List (Uuid × Str)
list_user_memberships user_id s = of_user user_id s.auth_memberships

unfoldable pub get_refresh_session : Str → Storage → Option RefreshSessionRecordStore
get_refresh_session token_hash s = lookup token_hash s.refresh_sessions

unfoldable pub put_refresh_session : Str → RefreshSessionRecordStore → Storage → Storage
put_refresh_session token_hash session s = record s {
  refresh_sessions = insert token_hash session s.refresh_sessions;
}

abbrev pub updated :
    Str
    → (RefreshSessionRecordStore → RefreshSessionRecordStore)
    → Option RefreshSessionRecordStore
    → Storage
    → Option RefreshSessionRecordStore × Storage
updated token_hash update_fn none s = (none, s)
updated token_hash update_fn (some session) s =
    (some (update_fn session), put_refresh_session token_hash (update_fn session) s)

-- `update_refresh_session`: reads, changes and writes back; `none` where there is no session.
unfoldable pub update_refresh_session :
    Str
    → (RefreshSessionRecordStore → RefreshSessionRecordStore)
    → Storage
    → Option RefreshSessionRecordStore × Storage
unfolding get_refresh_session put_refresh_session
update_refresh_session token_hash update_fn s =
    updated token_hash update_fn (get_refresh_session token_hash s) s
