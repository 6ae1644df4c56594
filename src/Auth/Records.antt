-- ===== src/Auth/Records.antt =====
-- src/auth.rs: the records of the service, what its libraries compute and what a call draws, and the
-- membership that a session is for.
use Prim.Native.Nat.{ℕ, ◌*◌, ◌+◌}
use mathlib.Core.Logic.{◌⊎◌, inl, inr}
use mathlib.Core.Bool.{Bool}
use mathlib.Core.Option.{Option, none, some}
use mathlib.Core.List.{List, [], ◌∷◌}
use galynx_api.Common.{ℤ, pos, negsuc, sub_ℕ, ltb, text_eq, nat_eq, sort_by}
use galynx_api.Text.{Str}
use galynx_api.Auth.Context.{WorkspaceRole, from_storage_role}
use galynx_api.Storage.{Storage, Uuid}
use galynx_api.Storage.Accounts.{get_membership_role, list_user_memberships}

pub record AuthService : Type 0 where
  pub bootstrap_workspace_id : Uuid
  pub bootstrap_workspace_name : Str
  pub bootstrap_user_id : Uuid
  pub bootstrap_email : Str
  pub bootstrap_name : Str
  pub bootstrap_password_hash : Str

pub record AccessClaims : Type 0 where
  pub sub : Str
  pub email : Str
  pub workspace_id : Str
  pub role : WorkspaceRole
  pub token_type : Str
  pub iat : ℤ
  pub exp : ℤ

pub record AuthTokensResponse : Type 0 where
  pub access_token : Str
  pub refresh_token : Str
  pub access_expires_at : ℤ
  pub refresh_expires_at : ℤ

pub record MeResponse : Type 0 where
  pub id : Uuid
  pub email : Str
  pub name : Str
  pub workspace_id : Uuid
  pub role : WorkspaceRole

-- The libraries that the service calls. `decode` is given the clock, since it refuses a token
-- whose time is over; an error of `encode` is its text.
pub record Libraries : Type 0 where
  pub token_hash : Str → Str
  pub is_password_hash : Str → Bool
  pub verify_password : Str → Str → Bool
  pub encode : AccessClaims → Str → Str ⊎ Str
  pub decode : ℤ → Str → Str → Option AccessClaims
  pub show_uuid : Uuid → Str
  pub parse_uuid : Str → Option Uuid

-- What one call draws: the instants at which it reads the clock, in seconds, the instant of a
-- seed in milliseconds, and the random refresh token.
pub record AuthDraw : Type 0 where
  pub now : ℤ
  pub refresh_now : ℤ
  pub access_now : ℤ
  pub iat_now : ℤ
  pub seed_time : ℤ
  pub token : Str

pub record TokenConfig : Type 0 where
  pub jwt_secret : Str
  pub access_ttl_minutes : ℤ
  pub refresh_ttl_days : ℤ

-- `Duration::minutes` and `Duration::days`, in seconds.
abbrev pub scale : ℕ → ℤ → ℤ
scale k (pos n) = pos (k * n)
scale k (negsuc n) = sub_ℕ 0 (k * (n + 1))

abbrev pub minutes : ℤ → ℤ
minutes n = scale 60 n

abbrev pub days : ℤ → ℤ
days n = scale 86400 n

abbrev pub role_or_none : Str ⊎ WorkspaceRole → Option WorkspaceRole
role_or_none (inl e) = none
role_or_none (inr role) = some role

abbrev pub membership_of : Uuid → Option Str → Option (Uuid × WorkspaceRole)
membership_of workspace_id none = none
membership_of workspace_id (some stored) = elim (role_or_none (from_storage_role stored)) [
  | none ↦ none
  | some role ↦ some (workspace_id, role)
]

abbrev pub first_membership : List (Uuid × Str) → Option (Uuid × WorkspaceRole)
first_membership [] = none
first_membership ((workspace_id, stored) ∷ rest) = membership_of workspace_id (some stored)

abbrev pub preferred_membership : Uuid → Option Uuid → Storage → Option (Uuid × WorkspaceRole)
preferred_membership user_id (some workspace_id) s =
    membership_of workspace_id (get_membership_role workspace_id user_id s)
preferred_membership user_id none s =
    first_membership (sort_by (λ (a b : Uuid × Str). ltb a.0 b.0) (list_user_memberships user_id s))
