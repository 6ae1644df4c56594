-- ===== src/Auth/Revocation.antt =====
-- Once a refresh token is revoked, it is never accepted again.
use mathlib.Core.Path.{◌≡◌, refl}
use mathlib.Core.Logic.{◌≢◌, inl, inr}
use mathlib.Core.Bool.{true}
use mathlib.Core.Option.{Option, none, some}
use galynx_api.Common.{◌==◌, ==_iff, text_eq, nat_eq, Bool-cases, is_some}
use galynx_api.Text.{Str}
use galynx_api.Errors.{modify}
use galynx_api.Errors.Keeping.{IsKept, keeping}
use galynx_api.Storage.{Storage, RefreshSessionRecordStore}
use galynx_api.Storage.Accounts.{get_refresh_session, update_refresh_session}
use galynx_api.Auth.Service.{
  AuthService, Libraries, AuthDraw, TokenConfig, ensure_bootstrap_seed, refresh, logout, rotate,
  reuse_detected, revoke_successor, revoke, replace, state_of,
}
use galynx_api.Auth.Sessions.{
  revoked, Of, seed-IsKept, answer-IsKept, put-IsKept, get-update, map_session,
}

revoked-map_session :
    (f : RefreshSessionRecordStore → RefreshSessionRecordStore)
    (o : Option RefreshSessionRecordStore)
    → ((r : RefreshSessionRecordStore)
        → is_some r.revoked_at ≡ true
        → is_some (f r).revoked_at ≡ true)
    → revoked o ≡ true
    → revoked (map_session f o) ≡ true
revoked-map_session f none h r = r
revoked-map_session f (some session) h r = h session r

abbrev pub WasRevoked : Option RefreshSessionRecordStore → Type 0
WasRevoked o = revoked o ≡ true

module _ (lib : Libraries) (svc : AuthService) (draw : AuthDraw) (other : Str) where
  abbrev pub Still : Storage → Type 0
  Still = Of lib svc draw WasRevoked other

  update-IsKept :
      (f : RefreshSessionRecordStore → RefreshSessionRecordStore) (hash : Str)
      → ((r : RefreshSessionRecordStore)
          → is_some r.revoked_at ≡ true
          → is_some (f r).revoked_at ≡ true)
      → (s : Storage) → Still s
      → Still (update_refresh_session hash f s).1
  update-IsKept f hash keeps s h =
      rw (get-update f hash s other) (elim (Bool-cases (hash == other)) [
        | inl same ↦
            rw (same, (==_iff hash other).0 same)
              (revoked-map_session f (get_refresh_session other s) keeps h)
        | inr ne ↦ rw ne h
      ])

  state_of-IsKept :
      (f : RefreshSessionRecordStore → RefreshSessionRecordStore) (hash : Str)
      → ((r : RefreshSessionRecordStore)
          → is_some r.revoked_at ≡ true
          → is_some (f r).revoked_at ≡ true)
      → IsKept Still (state_of (update_refresh_session hash f))
  state_of-IsKept f hash keeps = record { after = update-IsKept f hash keeps }

  revoke-IsKept :
      (hash : Str) → IsKept Still (state_of (update_refresh_session hash (revoke draw.now)))
  revoke-IsKept hash = state_of-IsKept (revoke draw.now) hash (λ r h. refl)

  replace-IsKept :
      (hash by : Str) → IsKept Still (state_of (update_refresh_session hash (replace by)))
  replace-IsKept hash by = state_of-IsKept (replace by) hash (λ r h. h)

  revoke_successor-kept :
      (successor : Option Str) (s : Storage)
      → Still s
      → Still (revoke_successor draw.now successor s)
  revoke_successor-kept none s h = h
  revoke_successor-kept (some hash) s h = update-IsKept (revoke draw.now) hash (λ r _. refl) s h

  reuse_detected-IsKept :
      (snapshot : RefreshSessionRecordStore) → IsKept Still (reuse_detected draw.now snapshot)
  reuse_detected-IsKept snapshot = record {
    after = λ s h. elim (Bool-cases (is_some snapshot.revoked_at)) [
      | inl used ↦ rw used (revoke_successor-kept snapshot.replaced_by_hash s h)
      | inr live ↦ rw live h
    ];
  }

  seeding-IsKept : IsKept Still (modify (ensure_bootstrap_seed svc draw.seed_time))
  seeding-IsKept = seed-IsKept lib svc draw WasRevoked other

  pub logout-IsKept : (token : Str) → IsKept Still (logout lib svc draw token)
  unfolding logout
  logout-IsKept token = search (keeping, seeding-IsKept, revoke-IsKept) depth 24

  rotate-IsKept :
      (config : TokenConfig) (hash : Str) (snapshot : RefreshSessionRecordStore)
      → lib.token_hash draw.token ≢ other
      → IsKept Still (rotate lib svc draw config hash snapshot)
  unfolding rotate
  rotate-IsKept config hash snapshot fresh =
      search (keeping, revoke-IsKept, replace-IsKept, put-IsKept lib svc draw WasRevoked other)
        depth 24

  pub refresh-IsKept :
      (config : TokenConfig) (token : Str)
      → lib.token_hash draw.token ≢ other
      → IsKept Still (refresh lib svc draw config token)
  unfolding refresh
  refresh-IsKept config token fresh =
      search
        (
          keeping,
          seeding-IsKept,
          reuse_detected-IsKept,
          rotate-IsKept,
          answer-IsKept lib svc draw WasRevoked other,
        )
        depth 24
