-- ===== src/Users/Create.antt =====
-- A user who is created is found by email and belongs to the workspace.
use mathlib.Core.Path.{◌≡◌, refl, ◌∙◌, sym}
use mathlib.Core.Logic.{◌⊎◌, ◌≢◌, inl, inr}
use mathlib.Core.Bool.{false, ◌&&◌}
use mathlib.Core.Option.{none, some}
use native.Mathlib.Omega.{arith}
use galynx_api.Common.{◌==◌, ==_refl, text_eq, nat_eq, pair_eq, if◌then◌else◌, lookup-insert}
use galynx_api.Text.{Str, trim}
use galynx_api.Text.Trim.{normalize, trim-normalize, lower-normalize}
use galynx_api.Errors.{ApiResult, ok, ApiResult-cases}
use galynx_api.Auth.Context.{owner, role_to_storage}
use galynx_api.Storage.{Storage, Uuid, AuthUserRecordStore}
use galynx_api.Storage.Accounts.{
  get_auth_user_by_email, put_auth_user, put_membership_role, get_membership_role,
}
use galynx_api.Users.{CreateUserRequest, UserResponse, create_user, hash_password, is_owner}

-- The user of a record is found by every spelling of the record's normal email.
pub get_auth_user_by_email-put :
    (u : AuthUserRecordStore) (email : Str) (s : Storage)
    → u.email ≡ normalize email
    → get_auth_user_by_email email (put_auth_user u s) ≡ some u
unfolding get_auth_user_by_email put_auth_user normalize
get_auth_user_by_email-put u email s e =
    rw
      (
        e,
        lower-normalize email,
        lookup-insert,
        ==_refl (normalize email),
        lookup-insert,
        ==_refl u.id,
      )
      refl

pub get_auth_user_by_email-normalize :
    (email : Str) (s : Storage)
    → get_auth_user_by_email email s ≡ get_auth_user_by_email (normalize email) s
unfolding get_auth_user_by_email
get_auth_user_by_email-normalize email s =
    rw (trim-normalize email, lower-normalize email) (unfold normalize in refl)

module _ (workspace_id user_id : Uuid) (role : Str) (s : Storage) where
  pub get_auth_user_by_email-put_membership_role :
      (email : Str)
      → get_auth_user_by_email email (put_membership_role workspace_id user_id role s)
        ≡ get_auth_user_by_email email s
  unfolding get_auth_user_by_email put_membership_role
  get_auth_user_by_email-put_membership_role email = ground arith

  pub get_membership_role-put_membership_role :
      (w u : Uuid)
      → get_membership_role w u (put_membership_role workspace_id user_id role s)
        ≡ (if (workspace_id == w) && (user_id == u) then some role else get_membership_role w u s)
  unfolding get_membership_role put_membership_role
  get_membership_role-put_membership_role w u =
      lookup-insert (workspace_id, user_id) (w, u) role s.auth_memberships

pub get_membership_role-put_auth_user :
    (w u : Uuid) (user : AuthUserRecordStore) (s : Storage)
    → get_membership_role w u (put_auth_user user s) ≡ get_membership_role w u s
unfolding get_membership_role put_auth_user
get_membership_role-put_auth_user w u user s = refl

module _ (argon : Str → Str → Str ⊎ Str) (salt : Str) (user_id workspace_id : Uuid)
    (payload : CreateUserRequest) (s : Storage) where
  -- The user who is stored, with the hash of the trimmed password.
  abbrev pub created : Str → AuthUserRecordStore
  created hash = record {
    id = user_id;
    email = normalize payload.email;
    name = trim payload.name;
    password_hash = hash;
  }

  abbrev outcome : ApiResult UserResponse × Storage
  outcome = create_user argon salt user_id workspace_id payload s

  created-hash :
      (response : UserResponse)
      → outcome.0 ≡ ok response
      → (hash : Str) × (hash_password argon salt (trim payload.password) ≡ ok hash)
  unfolding create_user
  created-hash response h =
      elim (ApiResult-cases (hash_password argon salt (trim payload.password))) [
        | inr (e, failed) ↦ absurd (ground arith)
        | inl (hash, hashed) ↦ (hash, hashed)
      ]

  created-state :
      (response : UserResponse) (hash : Str)
      → outcome.0 ≡ ok response
      → hash_password argon salt (trim payload.password) ≡ ok hash
      → outcome.1
        ≡ put_membership_role workspace_id user_id
            (role_to_storage payload.role)
            (put_auth_user (created hash) s)
  unfolding create_user normalize
  created-state response hash h hashed = ground arith

  created-unknown :
      (response : UserResponse)
      → outcome.0 ≡ ok response
      → get_auth_user_by_email (normalize payload.email) s ≡ none
  unfolding create_user normalize
  created-unknown response h = ground arith

  created-granted :
      (response : UserResponse) → outcome.0 ≡ ok response → is_owner payload.role ≡ false
  unfolding create_user
  created-granted response h = ground arith

  -- If `create_user` succeeds, no user had the email before. Afterwards the user of the drawn
  -- identifier is found by the email, however it is spelled in letter case and with white space
  -- around it, with the hash of the trimmed password; the user has the role asked for in the
  -- workspace, which is not that of an owner, and every other membership is as before.
  pub create_user-found :
      (response : UserResponse)
      → (create_user argon salt user_id workspace_id payload s).0 ≡ ok response
      → let t = (create_user argon salt user_id workspace_id payload s).1 in
        (get_auth_user_by_email payload.email s ≡ none)
        × (payload.role ≢ owner)
        × ((hash : Str) × (hash_password argon salt (trim payload.password) ≡ ok hash)
            × ((spelling : Str)
                → normalize spelling ≡ normalize payload.email
                → get_auth_user_by_email spelling t ≡ some (created hash)))
        × (get_membership_role workspace_id user_id t ≡ some (role_to_storage payload.role))
        × ((w u : Uuid)
            → ((workspace_id == w) && (user_id == u)) ≡ false
            → get_membership_role w u t ≡ get_membership_role w u s)
  create_user-found response h =
      let (hash, hashed) = created-hash response h in
      let state = created-state response hash h hashed in
      let put = put_auth_user (created hash) s in
      let role = role_to_storage payload.role in
      (
        get_auth_user_by_email-normalize payload.email s ∙ created-unknown response h,
        not_owner (created-granted response h),
        (
          hash,
          hashed,
          λ spelling same.
              rw
                (
                  state,
                  get_auth_user_by_email-put_membership_role workspace_id user_id role put spelling,
                )
                (get_auth_user_by_email-put (created hash) spelling s (sym same)),
        ),
        rw
            (
              state,
              get_membership_role-put_membership_role workspace_id user_id role put workspace_id
                  user_id,
              ==_refl workspace_id,
              ==_refl user_id,
            )
            refl,
        λ w u other.
            rw
              (
                state,
                get_membership_role-put_membership_role workspace_id user_id role put w u,
                other,
              )
              (get_membership_role-put_auth_user w u (created hash) s),
      )
    where
      not_owner : is_owner payload.role ≡ false → payload.role ≢ owner
      not_owner g e = ground arith
