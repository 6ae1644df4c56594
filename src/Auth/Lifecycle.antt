-- ===== src/Auth/Lifecycle.antt =====
-- A refresh token through any sequence of logins, refreshes and logouts.
use mathlib.Core.Path.{◌≡◌, refl, ap, sym, ◌∙◌}
use mathlib.Core.Logic.{◌≢◌, inl, inr}
use mathlib.Core.Bool.{true, false}
use mathlib.Core.Option.{Option, none, some}
use mathlib.Core.List.{List, [], ◌∷◌}
use native.Mathlib.Omega.{arith}
use galynx_api.Common.{◌+ℤ◌, ◌==◌, ==_refl, text_eq, if◌then◌else◌, Option-cases, leb_ℤ, All}
use galynx_api.Text.{Str}
use galynx_api.Errors.{ApiResult, ok, is_ok}
use galynx_api.Storage.{Storage, Uuid, RefreshSessionRecordStore}
use galynx_api.Storage.Accounts.{get_refresh_session}
use galynx_api.Auth.Service.{
  AuthService, Libraries, AuthDraw, TokenConfig, AuthTokensResponse, ensure_bootstrap_seed, login,
  refresh, logout, rotate, answer, new_session, days,
}
use galynx_api.Auth.Sessions.{
  is_revoked, seed-get_refresh_session, refused_revoked, logout-is_revoked, rotate-sessions,
  rotate-result, login-IsKept, answer-IsKept, beq_false,
}
use galynx_api.Auth.Revocation.{WasRevoked, logout-IsKept, refresh-IsKept}

-- The calls of the session state machine.
pub data Call : Type 0 where
  call_login : AuthDraw → TokenConfig → Str → Str → Option Uuid → Call
  call_refresh : AuthDraw → TokenConfig → Str → Call
  call_logout : AuthDraw → Str → Call

abbrev draw_of : Call → AuthDraw
draw_of (call_login draw config email password workspace_id) = draw
draw_of (call_refresh draw config token) = draw
draw_of (call_logout draw token) = draw

module _ (lib : Libraries) (svc : AuthService) where
  -- The state after one call, whether it succeeds or fails.
  abbrev pub step : Call → Storage → Storage
  step (call_login draw config email password workspace_id) s =
      (login lib svc draw config email password workspace_id s).1
  step (call_refresh draw config token) s = (refresh lib svc draw config token s).1
  step (call_logout draw token) s = (logout lib svc draw token s).1

  abbrev pub run : List Call → Storage → Storage
  run [] s = s
  run (call ∷ calls) s = run calls (step call s)

  -- The random token that a call draws has another hash.
  abbrev pub DrawsOther : Str → Call → Type 0
  DrawsOther hash call = lib.token_hash (draw_of call).token ≢ hash

  step-is_revoked :
      (hash : Str) (call : Call) (s : Storage)
      → DrawsOther hash call
      → is_revoked hash s ≡ true
      → is_revoked hash (step call s) ≡ true
  unfolding is_revoked
  step-is_revoked hash (call_login draw config email password workspace_id) s fresh r =
      (login-IsKept lib svc draw WasRevoked hash config email password workspace_id fresh).after s r
  step-is_revoked hash (call_refresh draw config token) s fresh r =
      (refresh-IsKept lib svc draw hash config token fresh).after s r
  step-is_revoked hash (call_logout draw token) s fresh r =
      (logout-IsKept lib svc draw hash token).after s r

  run-is_revoked :
      (hash : Str) (calls : List Call) (s : Storage)
      → All (DrawsOther hash) calls
      → is_revoked hash s ≡ true
      → is_revoked hash (run calls s) ≡ true
  run-is_revoked hash [] s fresh r = r
  run-is_revoked hash (call ∷ calls) s fresh r =
      run-is_revoked hash calls (step call s) fresh.1 (step-is_revoked hash call s fresh.0 r)

  -- After a logout that succeeded, whatever calls follow, as long as none draws a token of the
  -- same hash, a refresh with the token of the logout is refused.
  pub logout_ends :
      (draw : AuthDraw) (token : Str) (s : Storage) (calls : List Call) (later : AuthDraw)
      (config : TokenConfig)
      → (logout lib svc draw token s).0 ≡ ok tt
      → All (DrawsOther (lib.token_hash token)) calls
      → is_ok (refresh lib svc later config token (run calls (logout lib svc draw token s).1)).0
        ≡ false
  logout_ends draw token s calls later config done fresh =
      refused_revoked lib svc later token _ config
        (run-is_revoked _ calls _ fresh (logout-is_revoked lib svc draw token s done))

  answer-token :
      (draw : AuthDraw) (config : TokenConfig) (session : RefreshSessionRecordStore) (s : Storage)
      {response : AuthTokensResponse}
      → (answer lib svc draw config session s).0 ≡ ok response
      → response.refresh_token ≡ draw.token
  unfolding answer
  answer-token draw config session s h = ground arith

  module _ (draw : AuthDraw) (config : TokenConfig) (token : Str) (s : Storage) where
    abbrev old_hash : Str
    old_hash = lib.token_hash token

    abbrev new_hash : Str
    new_hash = lib.token_hash draw.token

    abbrev seeded : Storage
    seeded = ensure_bootstrap_seed svc draw.seed_time s

    abbrev after_refresh : Storage
    after_refresh = (refresh lib svc draw config token s).1

    refresh-live :
        (session : RefreshSessionRecordStore)
        → get_refresh_session old_hash s ≡ some session
        → session.revoked_at ≡ none
        → leb_ℤ session.expires_at draw.now ≡ false
        → refresh lib svc draw config token s
          ≡ answer lib svc draw config session
              (rotate lib svc draw config old_hash session seeded).1
    unfolding refresh
    refresh-live session found live early = ground (
      arith,
      seed-get_refresh_session svc draw.seed_time old_hash s,
      rotate-result lib svc draw token seeded config session
          (seed-get_refresh_session svc draw.seed_time old_hash s ∙ found),
    )

    -- What `refresh` asks of the session of its token.
    record IsAccepted : Type 0 where
      session : RefreshSessionRecordStore
      found : get_refresh_session old_hash s ≡ some session
      live : session.revoked_at ≡ none
      early : leb_ℤ session.expires_at draw.now ≡ false

    IsAccepted-of_ok : is_ok (refresh lib svc draw config token s).0 ≡ true → IsAccepted
    unfolding refresh
    IsAccepted-of_ok h = elim (Option-cases (get_refresh_session old_hash s)) [
      | inl missing ↦
          absurd (ground (arith, seed-get_refresh_session svc draw.seed_time old_hash s))
      | inr (session, found) ↦ record {
        session = session;
        found = found;
        live = ground (arith, seed-get_refresh_session svc draw.seed_time old_hash s);
        early = ground (arith, seed-get_refresh_session svc draw.seed_time old_hash s);
      }
    ]

    -- The session after a refresh that was accepted, whatever becomes of the answer.
    sessions-after :
        (a : IsAccepted) (other : Str)
        → get_refresh_session other after_refresh
          ≡ get_refresh_session other (rotate lib svc draw config old_hash a.session seeded).1
    sessions-after a other =
        let rotated = (rotate lib svc draw config old_hash a.session seeded).1 in
        rw (after_refresh, refresh-live a.session a.found a.live a.early)
          ((answer-IsKept lib svc draw (λ o. o ≡ get_refresh_session other rotated) other config
              a.session).after
            rotated refl)

    rotated-get :
        (a : IsAccepted) (other : Str)
        → get_refresh_session other after_refresh ≡ (
            if new_hash == other
            then some (
                new_session a.session.user_id a.session.workspace_id
                  (draw.refresh_now +ℤ days config.refresh_ttl_days))
            else if old_hash == other
            then some (record (a.session) {
              revoked_at = some draw.now;
              replaced_by_hash = some new_hash;
            })
            else get_refresh_session other s)
    rotated-get a other =
        sessions-after a other
        ∙ rotate-sessions lib svc draw token seeded config a.session other
            (seed-get_refresh_session svc draw.seed_time old_hash s ∙ a.found)
        ∙ rw (seed-get_refresh_session svc draw.seed_time other s) refl

    -- The session sent was stored, neither revoked nor expired, and the answer holds the drawn
    -- token. The old session is now revoked and names its successor, the successor is live, for
    -- the same user and workspace and the configured time, and every other session is as it was.
    pub record IsRotated (response : AuthTokensResponse) : Type 0 where
      pub session : RefreshSessionRecordStore
      pub found : get_refresh_session old_hash s ≡ some session
      pub live : session.revoked_at ≡ none
      pub early : leb_ℤ session.expires_at draw.now ≡ false
      pub answered : response.refresh_token ≡ draw.token
      pub spent :
          get_refresh_session old_hash after_refresh
          ≡ some (record session { revoked_at = some draw.now; replaced_by_hash = some new_hash })
      pub successor :
          get_refresh_session new_hash after_refresh
          ≡ some (
              new_session session.user_id session.workspace_id
                (draw.refresh_now +ℤ days config.refresh_ttl_days))
      pub others :
          (other : Str)
          → other ≢ old_hash
          → other ≢ new_hash
          → get_refresh_session other after_refresh ≡ get_refresh_session other s

    -- If `refresh` succeeds and the hash of the drawn token is not that of the one sent, then the
    -- session sent was stored, neither revoked nor expired. The answer holds the drawn token. The
    -- old session is now revoked and names its successor, the successor is live, for the same
    -- user and workspace and the configured time, and every other session is as it was.
    pub refresh-rotates :
        {response : AuthTokensResponse}
        → (refresh lib svc draw config token s).0 ≡ ok response
        → new_hash ≢ old_hash
        → IsRotated response
    refresh-rotates {response} h fresh =
        let a : IsAccepted = IsAccepted-of_ok (ap is_ok h) in
        record {
          session = a.session;
          found = a.found;
          live = a.live;
          early = a.early;
          answered =
              answer-token draw config a.session
                (rotate lib svc draw config old_hash a.session seeded).1
                (sym (
                    ap (λ (r : ApiResult AuthTokensResponse × Storage). r.0)
                      (refresh-live a.session a.found a.live a.early))
                  ∙ h);
          spent =
              rotated-get a old_hash
              ∙ rw (beq_false new_hash old_hash fresh, ==_refl old_hash) refl;
          successor = rotated-get a new_hash ∙ rw (==_refl new_hash) refl;
          others = λ other ne ne'.
              rotated-get a other
              ∙ rw
                  (
                    beq_false new_hash other (λ e. ne' (sym e)),
                    beq_false old_hash other (λ e. ne (sym e)),
                  )
                  refl;
        }

  -- A refresh token is accepted once. After a refresh that succeeded, whatever calls follow, as
  -- long as neither it nor they draw a token of the same hash, the next refresh with the token is
  -- refused.
  pub refresh_once :
      (draw : AuthDraw) (config : TokenConfig) (token : Str) (s : Storage) (calls : List Call)
      (later : AuthDraw) (config' : TokenConfig)
      → is_ok (refresh lib svc draw config token s).0 ≡ true
      → All (DrawsOther (lib.token_hash token)) (call_refresh draw config token ∷ calls)
      → is_ok
          (refresh lib svc later config' token (run (call_refresh draw config token ∷ calls) s)).0
        ≡ false
  refresh_once draw config token s calls later config' done fresh =
      let a = IsAccepted-of_ok draw config token s done in
      refused_revoked lib svc later token _ config' (
        run-is_revoked (lib.token_hash token) calls (refresh lib svc draw config token s).1 fresh.1
          (unfold is_revoked in
            rw
              (
                rotated-get draw config token s a (lib.token_hash token),
                beq_false _ _ fresh.0,
                ==_refl (lib.token_hash token),
              )
              refl))
