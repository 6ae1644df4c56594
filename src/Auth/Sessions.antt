-- ===== src/Auth/Sessions.antt =====
-- The life of a refresh token: live, then revoked, and never live again.
use mathlib.Core.Path.{◌≡◌}
use mathlib.Core.Logic.{◌≢◌, inl, inr}
use mathlib.Core.Bool.{Bool, true, false}
use mathlib.Core.Option.{Option, none, some}
use native.Mathlib.Omega.{arith}
use galynx_api.Common.{
  ℤ, ◌+ℤ◌, ◌==◌, ==_refl, ==_iff, text_eq, nat_eq, if◌then◌else◌, Option-cases, is_some,
}
use galynx_api.Text.{Str}
use galynx_api.Errors.{ok, is_ok, modify}
use galynx_api.Errors.Keeping.{IsKept, keeping}
use galynx_api.Storage.{Storage, Uuid, RefreshSessionRecordStore}
use galynx_api.Storage.Accounts.{
  get_refresh_session, put_refresh_session, update_refresh_session, put_workspace, put_auth_user,
  put_membership_role,
}
use galynx_api.Storage.Lookups.{get_refresh_session-put_refresh_session}
use galynx_api.Auth.Service.{
  AuthService, Libraries, AuthDraw, TokenConfig, ensure_bootstrap_seed, primary_membership,
  issue_tokens, login, refresh, logout, rotate, answer, revoke, replace, new_session, days,
}

module _ (svc : AuthService) (time : ℤ) where
  pub seed-refresh_sessions :
      (s : Storage) → (ensure_bootstrap_seed svc time s).refresh_sessions ≡ s.refresh_sessions
  unfolding ensure_bootstrap_seed put_workspace put_auth_user put_membership_role
  seed-refresh_sessions s = ground arith

  pub seed-get_refresh_session :
      (hash : Str) (s : Storage)
      → get_refresh_session hash (ensure_bootstrap_seed svc time s) ≡ get_refresh_session hash s
  unfolding get_refresh_session
  seed-get_refresh_session hash s = rw (seed-refresh_sessions s)

abbrev pub map_session :
    (RefreshSessionRecordStore → RefreshSessionRecordStore)
    → Option RefreshSessionRecordStore
    → Option RefreshSessionRecordStore
map_session f none = none
map_session f (some session) = some (f session)

module _ (f : RefreshSessionRecordStore → RefreshSessionRecordStore) (hash : Str)
    (s : Storage) where
  pub update-found :
      (update_refresh_session hash f s).0 ≡ map_session f (get_refresh_session hash s)
  unfolding update_refresh_session
  update-found = ground arith

  pub get-update :
      (other : Str)
      → get_refresh_session other (update_refresh_session hash f s).1 ≡ (
          if hash == other
          then map_session f (get_refresh_session hash s)
          else get_refresh_session other s)
  unfolding update_refresh_session
  get-update other = elim (Option-cases (get_refresh_session hash s)) [
    | inl missing ↦ rw missing (ground (arith, ==_iff hash other))
    | inr (session, found) ↦
        rw found (get_refresh_session-put_refresh_session hash other (f session) s)
  ]

-- The session of a token is there and has been revoked.
abbrev pub revoked : Option RefreshSessionRecordStore → Bool
revoked none = false
revoked (some session) = is_some session.revoked_at

unfoldable pub is_revoked : Str → Storage → Bool
is_revoked hash s = revoked (get_refresh_session hash s)

module _ (lib : Libraries) (svc : AuthService) (draw : AuthDraw) (token : Str) (s : Storage) where
  abbrev hash : Str
  hash = lib.token_hash token

  -- A logout that succeeds leaves the session of its token revoked.
  pub logout-is_revoked :
      (logout lib svc draw token s).0 ≡ ok tt
      → is_revoked hash (logout lib svc draw token s).1 ≡ true
  unfolding logout is_revoked
  logout-is_revoked h =
      let t = ensure_bootstrap_seed svc draw.seed_time s in
      ground (
        arith,
        get-update (revoke draw.now) hash t hash,
        update-found (revoke draw.now) hash t,
        ==_refl hash,
      )

  pub refused_revoked :
      (config : TokenConfig)
      → is_revoked hash s ≡ true
      → is_ok (refresh lib svc draw config token s).0 ≡ false
  unfolding refresh is_revoked
  refused_revoked config r = ground (arith, seed-get_refresh_session svc draw.seed_time hash s)

  module _ (config : TokenConfig) (snapshot : RefreshSessionRecordStore) where
    pub rotate-result :
        get_refresh_session hash s ≡ some snapshot
        → (rotate lib svc draw config hash snapshot s).0 ≡ ok tt
    unfolding rotate
    rotate-result found = ground (arith, update-found (revoke draw.now) hash s)

    pub rotate-sessions :
        (other : Str)
        → get_refresh_session hash s ≡ some snapshot
        → get_refresh_session other (rotate lib svc draw config hash snapshot s).1 ≡ (
            if lib.token_hash draw.token == other
            then some (
                new_session snapshot.user_id snapshot.workspace_id
                  (draw.refresh_now +ℤ days config.refresh_ttl_days))
            else if hash == other
            then some (record snapshot {
              revoked_at = some draw.now;
              replaced_by_hash = some (lib.token_hash draw.token);
            })
            else get_refresh_session other s)
    unfolding rotate
    rotate-sessions other found =
        rw
          (
            update-found (revoke draw.now) hash s,
            found,
            get_refresh_session-put_refresh_session,
            get-update (replace (lib.token_hash draw.token)) hash
                (update_refresh_session hash (revoke draw.now) s).1 other,
            get-update (revoke draw.now) hash s other,
            get-update (revoke draw.now) hash s hash,
            ==_refl hash,
            found,
          )
          (ground arith)

pub beq_false : (a b : Str) → a ≢ b → (a == b) ≡ false
beq_false a b ne = ground (arith, ==_iff a b)

-- The rest of `refresh` and of `issue_tokens` reads no session.
module _ (lib : Libraries) (svc : AuthService) (draw : AuthDraw)
    (P : Option RefreshSessionRecordStore → Type 0) (other : Str) where
  abbrev pub Of : Storage → Type 0
  Of s = P (get_refresh_session other s)

  pub seed-IsKept : IsKept Of (modify (ensure_bootstrap_seed svc draw.seed_time))
  seed-IsKept = record { after = λ s h. rw (seed-get_refresh_session svc draw.seed_time other s) h }

  pub primary_membership-IsKept :
      (user_id : Uuid) (preferred : Option Uuid)
      → IsKept Of (primary_membership svc draw.seed_time user_id preferred)
  unfolding primary_membership
  primary_membership-IsKept user_id preferred = search (keeping, seed-IsKept)

  pub answer-IsKept :
      (config : TokenConfig) (snapshot : RefreshSessionRecordStore)
      → IsKept Of (answer lib svc draw config snapshot)
  unfolding answer
  answer-IsKept config snapshot = search (keeping, primary_membership-IsKept) depth 12

  pub put-IsKept :
      (hash : Str) (session : RefreshSessionRecordStore)
      → hash ≢ other
      → IsKept Of (modify (put_refresh_session hash session))
  put-IsKept hash session ne = record {
    after = λ s h.
        rw (get_refresh_session-put_refresh_session hash other session s, beq_false hash other ne)
          h;
  }

  pub login-IsKept :
      (config : TokenConfig) (email password : Str) (workspace_id : Option Uuid)
      → lib.token_hash draw.token ≢ other
      → IsKept Of (login lib svc draw config email password workspace_id)
  unfolding login issue_tokens
  login-IsKept config email password workspace_id fresh =
      search (keeping, seed-IsKept, primary_membership-IsKept, put-IsKept) depth 24
