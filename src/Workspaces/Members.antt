-- ===== src/Workspaces/Members.antt =====
-- Who belongs to a workspace after a member is onboarded.
use mathlib.Core.Path.{◌≡◌, refl, ◌∙◌, sym}
use mathlib.Core.Logic.{◌⊎◌, inl, inr}
use mathlib.Core.Bool.{false, ◌&&◌}
use mathlib.Core.Option.{none, some}
use native.Mathlib.Omega.{arith}
use galynx_api.Common.{◌==◌, ==_refl, text_eq, nat_eq, if◌then◌else◌, lookup-insert, Option-cases}
use galynx_api.Text.{Str}
use galynx_api.Text.Trim.{normalize}
use galynx_api.Errors.{ApiResult, ok, ApiResult-cases}
use galynx_api.Auth.Context.{role_to_storage}
use galynx_api.Storage.{Storage, Uuid, AuthUserRecordStore}
use galynx_api.Storage.Accounts.{
  get_auth_user_by_email, get_auth_user_by_id, put_auth_user, put_membership_role,
  get_membership_role,
}
use galynx_api.Users.{hash_password, is_owner}
use galynx_api.Users.Create.{
  get_auth_user_by_email-put, get_auth_user_by_email-put_membership_role,
  get_membership_role-put_membership_role, get_membership_role-put_auth_user,
  get_auth_user_by_email-normalize,
}
use galynx_api.Workspaces.{
  OnboardWorkspaceMemberRequest, WorkspaceMemberResponse, onboard_member, or_empty,
}

get_auth_user_by_id-put_membership_role :
    (workspace_id user_id id : Uuid) (role : Str) (s : Storage)
    → get_auth_user_by_id id (put_membership_role workspace_id user_id role s)
      ≡ get_auth_user_by_id id s
unfolding get_auth_user_by_id put_membership_role
get_auth_user_by_id-put_membership_role workspace_id user_id id role s = refl

get_auth_user_by_id-put_auth_user :
    (id : Uuid) (u : AuthUserRecordStore) (s : Storage)
    → get_auth_user_by_id id (put_auth_user u s)
      ≡ (if u.id == id then some u else get_auth_user_by_id id s)
unfolding get_auth_user_by_id put_auth_user
get_auth_user_by_id-put_auth_user id u s = lookup-insert u.id id u s.auth_users

module _ (argon : Str → Str → Str ⊎ Str) (salt : Str) (new_id workspace_id : Uuid)
    (payload : OnboardWorkspaceMemberRequest) (s : Storage) where
  abbrev outcome : ApiResult WorkspaceMemberResponse × Storage
  outcome = onboard_member argon salt new_id workspace_id payload s

  abbrev role : Str
  role = role_to_storage payload.role

  abbrev made : Str → AuthUserRecordStore
  made hash = record {
    id = new_id;
    email = normalize payload.email;
    name = or_empty payload.name;
    password_hash = hash;
  }

  onboarded-granted :
      (response : WorkspaceMemberResponse) → outcome.0 ≡ ok response → is_owner payload.role ≡ false
  unfolding onboard_member
  onboarded-granted response h = ground arith

  onboarded-existing :
      (response : WorkspaceMemberResponse) (user : AuthUserRecordStore)
      → outcome.0 ≡ ok response
      → get_auth_user_by_email (normalize payload.email) s ≡ some user
      → (outcome.1 ≡ put_membership_role workspace_id user.id role s) × (response.user_id ≡ user.id)
  unfolding onboard_member normalize
  onboarded-existing response user h found = ground arith

  onboarded-hash :
      (response : WorkspaceMemberResponse)
      → outcome.0 ≡ ok response
      → get_auth_user_by_email (normalize payload.email) s ≡ none
      → (hash : Str) × (hash_password argon salt (or_empty payload.password) ≡ ok hash)
  unfolding onboard_member normalize
  onboarded-hash response h unknown =
      elim (ApiResult-cases (hash_password argon salt (or_empty payload.password))) [
        | inr (e, failed) ↦ absurd (ground arith)
        | inl (hash, hashed) ↦ (hash, hashed)
      ]

  onboarded-new :
      (response : WorkspaceMemberResponse) (hash : Str)
      → outcome.0 ≡ ok response
      → get_auth_user_by_email (normalize payload.email) s ≡ none
      → hash_password argon salt (or_empty payload.password) ≡ ok hash
      → (outcome.1 ≡ put_membership_role workspace_id new_id role (put_auth_user (made hash) s))
        × (response.user_id ≡ new_id)
  unfolding onboard_member normalize
  onboarded-new response hash h unknown hashed = ground arith

  -- A member of the workspace: in the state `t`, the user of the response has the role asked for,
  -- and nobody else's membership is another than in `s`.
  pub record IsOnboarded (response : WorkspaceMemberResponse) (t : Storage) : Type 0 where
    pub granted : is_owner payload.role ≡ false
    pub membership : get_membership_role workspace_id response.user_id t ≡ some role
    pub others :
        (w u : Uuid)
        → ((workspace_id == w) && (response.user_id == u)) ≡ false
        → get_membership_role w u t ≡ get_membership_role w u s
    pub found :
        (user : AuthUserRecordStore) × (get_auth_user_by_email payload.email t ≡ some user)
        × (user.id ≡ response.user_id)
    pub users :
        (u : Uuid) → (new_id == u) ≡ false → get_auth_user_by_id u t ≡ get_auth_user_by_id u s

  -- A membership that is put on a state which differs from `s` in users only.
  put-IsOnboarded :
      (response : WorkspaceMemberResponse) (user : AuthUserRecordStore) (r : Storage)
      → is_owner payload.role ≡ false
      → response.user_id ≡ user.id
      → get_auth_user_by_email payload.email r ≡ some user
      → ((w u : Uuid) → get_membership_role w u r ≡ get_membership_role w u s)
      → ((u : Uuid) → (new_id == u) ≡ false → get_auth_user_by_id u r ≡ get_auth_user_by_id u s)
      → IsOnboarded response (put_membership_role workspace_id user.id role r)
  put-IsOnboarded response user r granted same found memberships users = record {
    granted = granted;
    membership =
        rw
          (
            same,
            get_membership_role-put_membership_role workspace_id user.id role r workspace_id
                user.id,
            ==_refl workspace_id,
            ==_refl user.id,
          )
          refl;
    others = λ w u other.
        rw
          (get_membership_role-put_membership_role workspace_id user.id role r w u, sym same, other)
          (memberships w u);
    found = (
      user,
      get_auth_user_by_email-put_membership_role workspace_id user.id role r payload.email ∙ found,
      sym same,
    );
    users = λ u other.
        get_auth_user_by_id-put_membership_role workspace_id user.id u role r ∙ users u other;
  }

  -- If `onboard_member` succeeds, the role asked for is not that of an owner. Afterwards a user
  -- is found by the email, whose identifier is that of the response, and has the role asked for
  -- in the workspace, whatever role the user had there before. Every other membership is as
  -- before, and so is the record of every user but that of the drawn identifier.
  pub onboard_member-IsOnboarded :
      (response : WorkspaceMemberResponse)
      → (onboard_member argon salt new_id workspace_id payload s).0 ≡ ok response
      → IsOnboarded response (onboard_member argon salt new_id workspace_id payload s).1
  onboard_member-IsOnboarded response h =
      elim (Option-cases (get_auth_user_by_email (normalize payload.email) s)) [
        | inr (user, known) ↦
            let (state, same) = onboarded-existing response user h known in
            rw state (
              put-IsOnboarded response user s (onboarded-granted response h) same
                (get_auth_user_by_email-normalize payload.email s ∙ known) (λ w u. refl)
                (λ u other. refl))
        | inl unknown ↦
            let (hash, hashed) = onboarded-hash response h unknown in
            let (state, same) = onboarded-new response hash h unknown hashed in
            rw state (
              put-IsOnboarded response (made hash) (put_auth_user (made hash) s)
                (onboarded-granted response h) same
                (get_auth_user_by_email-put (made hash) payload.email s refl)
                (λ w u. get_membership_role-put_auth_user w u (made hash) s)
                (λ u other. get_auth_user_by_id-put_auth_user u (made hash) s ∙ rw other refl))
      ]
