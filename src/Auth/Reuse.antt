-- ===== src/Auth/Reuse.antt =====
-- What `refresh` does with a token that was used before.
use mathlib.Core.Path.{◌≡◌, refl, ap, ◌∙◌}
use mathlib.Core.Bool.{Bool, true, false}
use mathlib.Core.Option.{Option, none, some}
use native.Mathlib.Omega.{arith}
use galynx_api.Common.{ℤ, ◌==◌, ==_iff, text_eq, if◌then◌else◌, is_some, leb_ℤ}
use galynx_api.Text.{Str, text}
use galynx_api.Errors.{ApiResult, err, unauthorized}
use galynx_api.Storage.{Storage, RefreshSessionRecordStore}
use galynx_api.Storage.Accounts.{get_refresh_session}
use galynx_api.Auth.Service.{
  AuthService, Libraries, AuthDraw, TokenConfig, AuthTokensResponse, ensure_bootstrap_seed, refresh,
  revoke, revoke_successor,
}
use galynx_api.Auth.Sessions.{seed-get_refresh_session, get-update, map_session}

-- Whether a session names the hash as its successor's.
abbrev pub names : Option Str → Str → Bool
names none other = false
names (some hash) other = hash == other

revoke_successor-get :
    (now : ℤ) (successor : Option Str) (other : Str) (s : Storage)
    → get_refresh_session other (revoke_successor now successor s) ≡ (
        if names successor other
        then map_session (revoke now) (get_refresh_session other s)
        else get_refresh_session other s)
revoke_successor-get now none other s = refl
revoke_successor-get now (some hash) other s =
    get-update (revoke now) hash s other ∙ ground (arith, ==_iff hash other)

module _ (lib : Libraries) (svc : AuthService) (draw : AuthDraw) (config : TokenConfig)
    (token : Str) (s : Storage) (session : RefreshSessionRecordStore) where
  refresh-revoked :
      get_refresh_session (lib.token_hash token) s ≡ some session
      → is_some session.revoked_at ≡ true
      → leb_ℤ session.expires_at draw.now ≡ false
      → refresh lib svc draw config token s ≡ (
        err (unauthorized (text "refresh token reuse detected")),
        revoke_successor draw.now session.replaced_by_hash
            (ensure_bootstrap_seed svc draw.seed_time s),
      )
  unfolding refresh
  refresh-revoked found used early =
      ground (arith, seed-get_refresh_session svc draw.seed_time (lib.token_hash token) s)

  -- A token whose session is revoked and not expired is refused as reused. The session that it
  -- names as its successor, if it is there, is then revoked, and no other session changes: not
  -- those that have come after the successor.
  pub refresh-reuse :
      get_refresh_session (lib.token_hash token) s ≡ some session
      → is_some session.revoked_at ≡ true
      → leb_ℤ session.expires_at draw.now ≡ false
      → let (r, t) = refresh lib svc draw config token s in
        (r ≡ err (unauthorized (text "refresh token reuse detected")))
        × ((other : Str)
            → get_refresh_session other t ≡ (
                if names session.replaced_by_hash other
                then map_session (revoke draw.now) (get_refresh_session other s)
                else get_refresh_session other s))
  refresh-reuse found used early = (
    ap (λ (r : ApiResult AuthTokensResponse × Storage). r.0) (refresh-revoked found used early),
    λ other.
        ap (λ (r : ApiResult AuthTokensResponse × Storage). get_refresh_session other r.1)
          (refresh-revoked found used early)
        ∙ revoke_successor-get draw.now session.replaced_by_hash other
            (ensure_bootstrap_seed svc draw.seed_time s)
        ∙ rw (seed-get_refresh_session svc draw.seed_time other s) refl,
  )
