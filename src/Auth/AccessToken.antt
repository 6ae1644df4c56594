-- ===== src/Auth/AccessToken.antt =====
-- The access token that a login gives: what it authenticates as, at any later state.
use mathlib.Core.Path.{◌≡◌}
use mathlib.Core.Logic.{◌↔◌, inl, inr}
use mathlib.Core.Bool.{true, false}
use mathlib.Core.Option.{Option, some}
use native.Mathlib.Omega.{arith}
use galynx_api.Common.{ℤ, leb_ℤ, ◌+ℤ◌, ==_refl, text_eq, Option-cases}
use galynx_api.Text.{Str, text}
use galynx_api.Errors.{ok}
use galynx_api.Text.Trim.{normalize}
use galynx_api.Storage.{Storage, Uuid, AuthUserRecordStore}
use galynx_api.Storage.Accounts.{get_auth_user_by_email, get_membership_role}
use galynx_api.Auth.Context.{WorkspaceRole}
use galynx_api.Auth.Service.{
  AuthService, Libraries, AccessClaims, AuthDraw, TokenConfig, AuthTokensResponse,
  ensure_bootstrap_seed, login, issue_tokens, sign, primary_membership, authenticate_access_token,
  access_claims, preferred_membership, membership_of, minutes,
}

-- What the libraries document: a token that was made with a secret and is not over is read back
-- with that secret, and so is an identifier that was printed.
pub record ReadBack (lib : Libraries) : Type 0 where
  pub decodes :
      (claims : AccessClaims) (secret token : Str) (now : ℤ)
      → lib.encode claims secret ≡ inr token
      → leb_ℤ claims.exp now ≡ false
      → lib.decode now token secret ≡ some claims
  pub parses : (id : Uuid) → lib.parse_uuid (lib.show_uuid id) ≡ some id

module _ (lib : Libraries) (svc : AuthService) (laws : ReadBack lib) where
  authenticate-claims :
      (later : AuthDraw) (token secret : Str) (s : Storage) (user : AuthUserRecordStore)
      (workspace_id : Uuid) (at_login role : WorkspaceRole) (iat exp : ℤ)
      → lib.decode later.now token secret
        ≡ some (access_claims lib svc user workspace_id at_login iat exp)
      → ((authenticate_access_token lib svc later token secret s).0
          ≡ ok (record { user_id = user.id; workspace_id = workspace_id; role = role }))
        ↔ (membership_of workspace_id (
              get_membership_role workspace_id user.id
                (ensure_bootstrap_seed svc later.seed_time s))
            ≡ some (workspace_id, role))
  unfolding authenticate_access_token
  authenticate-claims later token secret s user workspace_id at_login role iat exp h =
      ground (arith, laws.parses user.id, laws.parses workspace_id, ==_refl (text "access"))

  module _ (draw : AuthDraw) (config : TokenConfig) (email password : Str) (chosen : Option Uuid)
      (s : Storage) where
    abbrev seeded : Storage
    seeded = ensure_bootstrap_seed svc draw.seed_time s

    -- Who the answer of a login is for, and for which workspace.
    record IsIssued (response : AuthTokensResponse) : Type 0 where
      user : AuthUserRecordStore
      workspace_id : Uuid
      role : WorkspaceRole
      found : get_auth_user_by_email (normalize email) seeded ≡ some user
      verified : lib.verify_password password user.password_hash ≡ true
      membership :
          preferred_membership user.id chosen (ensure_bootstrap_seed svc draw.seed_time seeded)
          ≡ some (workspace_id, role)
      expires : response.access_expires_at ≡ draw.now +ℤ minutes config.access_ttl_minutes
      token :
          lib.encode
            (access_claims lib svc user workspace_id role draw.now response.access_expires_at)
            config.jwt_secret
          ≡ inr response.access_token

    login-found :
        (response : AuthTokensResponse) (user : AuthUserRecordStore)
        → get_auth_user_by_email (normalize email) seeded ≡ some user
        → (login lib svc draw config email password chosen s).0 ≡ ok response
        → (lib.verify_password password user.password_hash ≡ true)
          × ((issue_tokens lib svc draw config user chosen seeded).0 ≡ ok response)
    unfolding login normalize
    login-found response user found h = ground arith

    module _ (response : AuthTokensResponse) (user : AuthUserRecordStore) where
      issue_tokens-issued :
          (workspace_id : Uuid) (role : WorkspaceRole)
          → preferred_membership user.id chosen (ensure_bootstrap_seed svc draw.seed_time seeded)
            ≡ some (workspace_id, role)
          → (issue_tokens lib svc draw config user chosen seeded).0 ≡ ok response
          → (response.access_expires_at ≡ draw.now +ℤ minutes config.access_ttl_minutes)
            × (lib.encode
                  (access_claims lib svc user workspace_id role draw.now response.access_expires_at)
                  config.jwt_secret
                ≡ inr response.access_token)
      unfolding issue_tokens primary_membership sign
      issue_tokens-issued workspace_id role member h = ground arith

    login-IsIssued :
        (response : AuthTokensResponse)
        → (login lib svc draw config email password chosen s).0 ≡ ok response
        → IsIssued response
    login-IsIssued response h =
        elim (Option-cases (get_auth_user_by_email (normalize email) seeded)) [
          | inl missing ↦ absurd (unfold login normalize in ground arith)
          | inr (user, found) ↦
              let issued = (login-found response user found h).1 in
              elim (Option-cases (
                preferred_membership user.id chosen
                  (ensure_bootstrap_seed svc draw.seed_time seeded))) [
                    | inl missing ↦ absurd (unfold issue_tokens primary_membership in ground arith)
                    | inr ((workspace_id, role), member) ↦ record {
                      user = user;
                      workspace_id = workspace_id;
                      role = role;
                      found = found;
                      verified = (login-found response user found h).0;
                      membership = member;
                      expires =
                          (issue_tokens-issued response user workspace_id role member issued).0;
                      token = (issue_tokens-issued response user workspace_id role member issued).1;
                    }
                  ]
        ]

    -- The user who logged in, whose password was right, the workspace that was chosen for the
    -- user, and what the access token is worth in the state `current`.
    pub record IsAuthenticated (response : AuthTokensResponse) (later : AuthDraw)
        (current : Storage) : Type 0 where
      pub user : AuthUserRecordStore
      pub workspace_id : Uuid
      pub role_then : WorkspaceRole
      pub found : get_auth_user_by_email (normalize email) seeded ≡ some user
      pub verified : lib.verify_password password user.password_hash ≡ true
      pub membership :
          preferred_membership user.id chosen (ensure_bootstrap_seed svc draw.seed_time seeded)
          ≡ some (workspace_id, role_then)
      pub expires : response.access_expires_at ≡ draw.now +ℤ minutes config.access_ttl_minutes
      pub context_of :
          (role : WorkspaceRole)
          → ((authenticate_access_token lib svc later response.access_token config.jwt_secret
                current).0
              ≡ ok (record { user_id = user.id; workspace_id = workspace_id; role = role }))
            ↔ (membership_of workspace_id (
                  get_membership_role workspace_id user.id
                    (ensure_bootstrap_seed svc later.seed_time current))
                ≡ some (workspace_id, role))

    -- If a login succeeds, then a user has the normal form of the email sent, the password is the
    -- user's, and the user has a membership in the workspace chosen (or the first one, when none
    -- is), and the access token expires after the configured minutes. Whatever the state is later, as long as the access token of the answer has not
    -- expired and the libraries read back what they wrote: the token is accepted for that user
    -- and workspace with a role exactly where this is the role stored for them by then.
    pub login-authenticates :
        (response : AuthTokensResponse) (later : AuthDraw) (current : Storage)
        → (login lib svc draw config email password chosen s).0 ≡ ok response
        → leb_ℤ response.access_expires_at later.now ≡ false
        → IsAuthenticated response later current
    login-authenticates response later current h early =
        let issued = login-IsIssued response h in
        record {
          user = issued.user;
          workspace_id = issued.workspace_id;
          role_then = issued.role;
          found = issued.found;
          verified = issued.verified;
          membership = issued.membership;
          expires = issued.expires;
          context_of = λ role.
              authenticate-claims later response.access_token config.jwt_secret current issued.user
                issued.workspace_id issued.role role draw.now response.access_expires_at
                (laws.decodes _ config.jwt_secret response.access_token later.now issued.token
                  early);
        }
