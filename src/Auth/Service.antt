-- ===== src/Auth/Service.antt =====
-- src/auth.rs, `AuthService`: login, the rotation of refresh tokens, logout and the reading of
-- access tokens. What the libraries do (the hashes, the signature of tokens, the printing and
-- parsing of identifiers) is a parameter, and so are the clock and the drawn tokens.
use mathlib.Core.Logic.{◌⊎◌, inl, inr}
use mathlib.Core.Bool.{not}
use mathlib.Core.Option.{Option, none, some}
use mathlib.Core.List.{◌++◌}
use galynx_api.Common.{ℤ, ◌+ℤ◌, leb_ℤ, ◌==◌, text_eq, nat_eq, if◌then◌else◌, is_none, is_some}
use galynx_api.Text.{Str, text, trim, to_ascii_lowercase}
use galynx_api.Errors.{
  ApiResult, ok, err, unauthorized, internal, Action, ◌>>=◌, ◌>>◌, pure, gets, modify, or_fail,
  fail_if, lift,
}
use galynx_api.RateLimit.{strip_prefix}
use galynx_api.Auth.Context.{WorkspaceRole, AuthContext, from_storage_role}
use galynx_api.Storage.{
  Storage, Uuid, AuthUserRecordStore, RefreshSessionRecordStore, WorkspaceRecordStore,
}
use galynx_api.Storage.Accounts.{
  get_auth_user_by_email, get_auth_user_by_id, find_primary_membership, put_workspace,
  put_membership_role, put_auth_user, get_membership_role, put_refresh_session, get_refresh_session,
  update_refresh_session,
}
pub use galynx_api.Auth.Records.{
  AuthService, AccessClaims, AuthTokensResponse, MeResponse, Libraries, AuthDraw, TokenConfig,
  minutes, days, role_or_none, membership_of, preferred_membership,
}

module _ (svc : AuthService) where
  abbrev bootstrap_workspace : Uuid → ℤ → WorkspaceRecordStore
  bootstrap_workspace created_by time = record {
    id = svc.bootstrap_workspace_id;
    name = svc.bootstrap_workspace_name;
    created_by = created_by;
    created_at = time;
  }

  abbrev seed_workspace : Uuid → ℤ → Storage → Storage
  seed_workspace user_id time s =
      put_membership_role svc.bootstrap_workspace_id user_id (text "owner")
        (put_workspace (bootstrap_workspace user_id time) s)

  abbrev bootstrap_user : AuthUserRecordStore
  bootstrap_user = record {
    id = svc.bootstrap_user_id;
    email = svc.bootstrap_email;
    name = svc.bootstrap_name;
    password_hash = svc.bootstrap_password_hash;
  }

  -- The bootstrap user is made where no user has its email, and its workspace where the user who
  -- has it belongs to none.
  unfoldable pub ensure_bootstrap_seed : ℤ → Storage → Storage
  ensure_bootstrap_seed time s = elim (get_auth_user_by_email svc.bootstrap_email s) [
    | some existing ↦
        if is_none (find_primary_membership existing.id s)
        then seed_workspace existing.id time s
        else s
    | none ↦ seed_workspace svc.bootstrap_user_id time (put_auth_user bootstrap_user s)
  ]

  unfoldable pub primary_membership :
      ℤ → Uuid → Option Uuid → Action Storage (Option (Uuid × WorkspaceRole))
  primary_membership time user_id preferred_workspace_id = do
    modify (ensure_bootstrap_seed time)
    gets (preferred_membership user_id preferred_workspace_id)

abbrev pub new_session : Uuid → Uuid → ℤ → RefreshSessionRecordStore
new_session user_id workspace_id expires_at = record {
  user_id = user_id;
  workspace_id = workspace_id;
  expires_at = expires_at;
  revoked_at = none;
  replaced_by_hash = none;
}

abbrev pub revoke : ℤ → RefreshSessionRecordStore → RefreshSessionRecordStore
revoke now session = record session { revoked_at = some now }

abbrev pub replace : Str → RefreshSessionRecordStore → RefreshSessionRecordStore
replace hash session = record session { replaced_by_hash = some hash }

-- What is done to the successor of a token that is used again.
abbrev pub revoke_successor : ℤ → Option Str → Storage → Storage
revoke_successor now none s = s
revoke_successor now (some hash) s = (update_refresh_session hash (revoke now) s).1

abbrev pub reuse_detected : ℤ → RefreshSessionRecordStore → Action Storage (Unit {0})
reuse_detected now snapshot s =
    if is_some snapshot.revoked_at
    then (
      err (unauthorized (text "refresh token reuse detected")),
      revoke_successor now snapshot.replaced_by_hash s,
    )
    else (ok tt, s)

-- An action that answers with a value and a new state.
abbrev pub state_of : {A : Type 0} → (Storage → A × Storage) → Action Storage A
state_of f s = let (a, s') = f s in (ok a, s')

-- `from_storage_role(..).map_err(..)`
abbrev role_or_error : Str ⊎ WorkspaceRole → ApiResult WorkspaceRole
role_or_error (inl e) = err (unauthorized (text "invalid membership role"))
role_or_error (inr role) = ok role

module _ (lib : Libraries) (svc : AuthService) where
  abbrev pub access_claims : AuthUserRecordStore → Uuid → WorkspaceRole → ℤ → ℤ → AccessClaims
  access_claims user workspace_id role iat exp = record {
    sub = lib.show_uuid user.id;
    email = user.email;
    workspace_id = lib.show_uuid workspace_id;
    role = role;
    token_type = text "access";
    iat = iat;
    exp = exp;
  }

  -- `encode(..).map_err(..)`
  unfoldable pub sign : AccessClaims → Str → ApiResult Str
  sign claims secret = elim (lib.encode claims secret) [
    | inl error ↦ err (internal (text "failed to create access token: " ++ error))
    | inr token ↦ ok token
  ]

  unfoldable pub issue_tokens :
      AuthDraw → TokenConfig → AuthUserRecordStore → Option Uuid → Action Storage AuthTokensResponse
  issue_tokens draw config user preferred_workspace_id = do
    let access_exp = draw.now +ℤ minutes config.access_ttl_minutes
    let refresh_exp = draw.now +ℤ days config.refresh_ttl_days
    membership ← primary_membership svc draw.seed_time user.id preferred_workspace_id
    found ← or_fail membership (unauthorized (text "user has no workspace membership"))
    let claims = access_claims user found.0 found.1 draw.now access_exp
    access_token ← lift (sign claims config.jwt_secret)
    modify
        (put_refresh_session (lib.token_hash draw.token) (new_session user.id found.0 refresh_exp))
    pure (record {
      access_token = access_token;
      refresh_token = draw.token;
      access_expires_at = access_exp;
      refresh_expires_at = refresh_exp;
    })

  unfoldable pub login :
      AuthDraw → TokenConfig → Str → Str → Option Uuid → Action Storage AuthTokensResponse
  login draw config email password workspace_id = do
    modify (ensure_bootstrap_seed svc draw.seed_time)
    let email = to_ascii_lowercase (trim email)
    user ←
        or_fail (← gets (get_auth_user_by_email email)) (unauthorized (text "invalid credentials"))
    fail_if (not (lib.is_password_hash user.password_hash))
        (internal (text "invalid stored password hash"))
    fail_if (not (lib.verify_password password user.password_hash))
        (unauthorized (text "invalid credentials"))
    issue_tokens draw config user workspace_id

  -- The part of `refresh` that revokes the session of the token and stores its successor's.
  unfoldable pub rotate :
      AuthDraw → TokenConfig → Str → RefreshSessionRecordStore → Action Storage (Unit {0})
  rotate draw config incoming_hash snapshot = do
    revoked ← state_of (update_refresh_session incoming_hash (revoke draw.now))
    or_fail revoked (unauthorized (text "invalid refresh token"))
    let refresh_hash = lib.token_hash draw.token
    state_of (update_refresh_session incoming_hash (replace refresh_hash))
    modify (
        put_refresh_session refresh_hash (
          new_session snapshot.user_id snapshot.workspace_id
            (draw.refresh_now +ℤ days config.refresh_ttl_days)))

  -- The part of `refresh` that answers, the tokens being rotated.
  unfoldable pub answer :
      AuthDraw → TokenConfig → RefreshSessionRecordStore → Action Storage AuthTokensResponse
  answer draw config snapshot = do
    user ←
        or_fail (← gets (get_auth_user_by_id snapshot.user_id))
          (unauthorized (text "user not found"))
    let access_exp = draw.access_now +ℤ minutes config.access_ttl_minutes
    membership ← primary_membership svc draw.seed_time user.id (some snapshot.workspace_id)
    found ← or_fail membership (unauthorized (text "user has no workspace membership"))
    let claims = access_claims user found.0 found.1 draw.iat_now access_exp
    access_token ← lift (sign claims config.jwt_secret)
    pure (record {
      access_token = access_token;
      refresh_token = draw.token;
      access_expires_at = access_exp;
      refresh_expires_at = draw.refresh_now +ℤ days config.refresh_ttl_days;
    })

  unfoldable pub refresh : AuthDraw → TokenConfig → Str → Action Storage AuthTokensResponse
  unfolding rotate answer
  refresh draw config refresh_token = do
    modify (ensure_bootstrap_seed svc draw.seed_time)
    let incoming_hash = lib.token_hash refresh_token
    snapshot ←
        or_fail (← gets (get_refresh_session incoming_hash))
          (unauthorized (text "invalid refresh token"))
    fail_if (leb_ℤ snapshot.expires_at draw.now) (unauthorized (text "refresh token expired"))
    reuse_detected draw.now snapshot
    rotate draw config incoming_hash snapshot
    answer draw config snapshot

  unfoldable pub logout : AuthDraw → Str → Action Storage (Unit {0})
  logout draw refresh_token = do
    modify (ensure_bootstrap_seed svc draw.seed_time)
    revoked ← state_of (update_refresh_session (lib.token_hash refresh_token) (revoke draw.now))
    or_fail revoked (unauthorized (text "invalid refresh token"))
    pure tt

  unfoldable pub me_from_context : ℤ → AuthContext → Action Storage MeResponse
  me_from_context seed_time context = do
    modify (ensure_bootstrap_seed svc seed_time)
    user ←
        or_fail (← gets (get_auth_user_by_id context.user_id))
          (unauthorized (text "user not found"))
    pure (record {
      id = user.id;
      email = user.email;
      name = user.name;
      workspace_id = context.workspace_id;
      role = context.role;
    })

  unfoldable pub authenticate_access_token : AuthDraw → Str → Str → Action Storage AuthContext
  authenticate_access_token draw access_token jwt_secret = do
    modify (ensure_bootstrap_seed svc draw.seed_time)
    claims ←
        or_fail (lib.decode draw.now access_token jwt_secret)
          (unauthorized (text "invalid access token"))
    fail_if (not (claims.token_type == text "access")) (unauthorized (text "invalid token type"))
    user_id ←
        or_fail (lib.parse_uuid claims.sub) (unauthorized (text "invalid access token subject"))
    workspace_id ←
        or_fail (lib.parse_uuid claims.workspace_id)
          (unauthorized (text "invalid workspace id in token"))
    stored ←
        or_fail (← gets (get_membership_role workspace_id user_id))
          (unauthorized (text "membership no longer valid"))
    role ← lift (role_or_error (from_storage_role stored))
    pure (record { user_id = user_id; workspace_id = workspace_id; role = role })

-- The `Authorization` header: absent, not visible text, or a text.
pub data HeaderValue : Type 0 where
  missing : HeaderValue
  opaque_bytes : HeaderValue
  visible : Str → HeaderValue

unfoldable pub bearer_from_headers : HeaderValue → ApiResult Str
bearer_from_headers missing = err (unauthorized (text "missing authorization header"))
bearer_from_headers opaque_bytes = err (unauthorized (text "invalid authorization header"))
bearer_from_headers (visible value) = elim (strip_prefix (text "Bearer ") value) [
  | none ↦ err (unauthorized (text "expected bearer token"))
  | some token ↦ ok (trim token)
]

unfoldable pub authenticate_headers :
    Libraries → AuthService → AuthDraw → HeaderValue → Str → Action Storage AuthContext
authenticate_headers lib svc draw header jwt_secret = do
  access_token ← lift (bearer_from_headers header)
  authenticate_access_token lib svc draw access_token jwt_secret
