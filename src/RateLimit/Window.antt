-- ===== src/RateLimit/Window.antt =====
-- How many requests the limiter lets through.
use Prim.Native.Nat.{ℕ, ◌+◌, ◌≤◌, ◌<◌}
use mathlib.Core.Path.{◌≡◌, refl}
use mathlib.Core.Logic.{inl, inr}
use mathlib.Core.Bool.{false}
use mathlib.Core.Option.{some}
use mathlib.Core.List.{List, [], ◌∷◌}
use native.Mathlib.Omega.{arith}
use galynx_api.Common.{
  lookup, lookup-insert, ◌==◌, ==_refl, ==_iff, text_eq, leb, if◌then◌else◌, All, filter, length,
  Bool-cases,
}
use galynx_api.Text.{Str}
use galynx_api.Text.Trim.{normalize, normalize_idem}
use galynx_api.Errors.{ApiResult, is_ok}
use galynx_api.Storage.{Uuid}
use galynx_api.RateLimit.{
  fresh_bucket, FixedWindowLimiter, check, current_bucket, RateLimitService, check_auth, auth_key,
  normalize_key,
}

-- A request: its key and its instant.
abbrev pub Request : Type 0
Request = Str × ℕ

abbrev count_ok : {A : Type 0} → ApiResult A → ℕ
count_ok r = if is_ok r then 1 else 0

-- How many of the requests of `key` are let through.
pub accepted : Str → Str → List Request → FixedWindowLimiter → ℕ
accepted key message [] limiter = 0
accepted key message ((k, now) ∷ requests) limiter =
    let (r, limiter') = check now k message limiter in
    (if k == key then count_ok r else 0) + accepted key message requests limiter'

abbrev pub min : ℕ → ℕ → ℕ
min a b = if leb a b then a else b

abbrev pub of_key : Str → List Request → List Request
of_key key = filter (λ (r : Request). r.0 == key)

module _ (now : ℕ) (key message : Str) (limiter : FixedWindowLimiter) where
  -- A request of one key leaves the buckets of the others alone.
  pub check-other :
      (other : Str)
      → (key == other) ≡ false
      → lookup other (check now key message limiter).1.buckets ≡ lookup other limiter.buckets
  unfolding check
  check-other other ne = rw (lookup-insert key other _ limiter.buckets, ne)

  pub check-config :
      ((check now key message limiter).1.max_requests ≡ limiter.max_requests)
      × ((check now key message limiter).1.window ≡ limiter.window)
  unfolding check
  check-config = ground arith

IsOpen : Str → ℕ → ℕ → FixedWindowLimiter → Type 0
IsOpen key c r limiter = lookup key limiter.buckets ≡ some (record { count = c; reset_at = r })

current_bucket_open :
    (now : ℕ) (key : Str) (limiter : FixedWindowLimiter) (c r : ℕ)
    → IsOpen key c r limiter
    → now < r
    → current_bucket now key limiter ≡ record { count = c; reset_at = r }
unfolding current_bucket IsOpen
current_bucket_open now key limiter c r opened early = ground arith

-- The bucket of a request that has just been checked.
check-own :
    (now : ℕ) (key message : Str) (limiter : FixedWindowLimiter) (c r : ℕ)
    → current_bucket now key limiter ≡ record { count = c; reset_at = r }
    → let (result, limiter') = check now key message limiter in
      IsOpen key (c + count_ok result) r limiter'
      × (count_ok result ≡ (if leb limiter.max_requests c then 0 else 1))
unfolding check IsOpen
check-own now key message limiter c r current =
    rw (current, lookup-insert key key, ==_refl key)
      (elim (Bool-cases (leb limiter.max_requests c)) [
        | inl full ↦ rw full ground arith
        | inr free ↦ rw free (refl, refl)
      ])

module _ (key message : Str) where
  -- All that is asked is let through until the limit is reached, `c` requests being counted.
  IsExact : ℕ → List Request → FixedWindowLimiter → Type 0
  IsExact c requests limiter =
      c + accepted key message requests limiter
      ≡ min (c + length (of_key key requests)) limiter.max_requests

  IsExact-other :
      (c : ℕ) (k : Str) (now : ℕ) (requests : List Request) (limiter : FixedWindowLimiter)
      → (k == key) ≡ false
      → IsExact c requests (check now k message limiter).1
      → IsExact c ((k, now) ∷ requests) limiter
  unfolding IsExact accepted
  IsExact-other c k now requests limiter ne exact =
      rw ne (ground (arith, (check-config now k message limiter).0))

  IsExact-own :
      (c : ℕ) (now : ℕ) (requests : List Request) (limiter : FixedWindowLimiter)
      → let result = (check now key message limiter).0 in
        count_ok result ≡ (if leb limiter.max_requests c then 0 else 1)
        → c ≤ limiter.max_requests
        → IsExact (c + count_ok result) requests (check now key message limiter).1
        → IsExact c ((key, now) ∷ requests) limiter
  unfolding IsExact accepted
  IsExact-own c now requests limiter counted low exact =
      rw (==_refl key) (ground (arith, (check-config now key message limiter).0))

  IsExact-open :
      (requests : List Request) (c r : ℕ) (limiter : FixedWindowLimiter)
      → IsOpen key c r limiter
      → c ≤ limiter.max_requests
      → All (λ (q : Request). q.1 < r) requests
      → IsExact c requests limiter
  IsExact-open [] c r limiter opened low early = unfold IsExact accepted in ground arith
  IsExact-open ((k, now) ∷ requests) c r limiter opened low early = elim (Bool-cases (k == key)) [
    | inr other ↦ IsExact-other c k now requests limiter other (
        IsExact-open requests c r (check now k message limiter).1
          (unfold IsOpen in rw (check-other now k message limiter key other) opened)
          (rw (check-config now k message limiter).0 low) early.1)
    | inl same ↦
        let (opened', counted) =
          check-own now key message limiter c r
            (current_bucket_open now key limiter c r opened early.0) in
        rw ((==_iff k key).0 same) (
          IsExact-own c now requests limiter counted low (
            IsExact-open requests _ r (check now key message limiter).1 opened'
              (rw (check-config now key message limiter).0 (ground arith)) early.1))
  ]

  -- Take any requests, of whatever keys and in whatever order, that begin with one of `key` at
  -- an instant `now` where `key` has no window or its window is over, the others being made
  -- before `now` plus the window's length. Of those of `key`, exactly as many are let through as
  -- there are, or as the limit allows if there are more; the requests of other keys do not count.
  pub accepted_in_window :
      (now : ℕ) (requests : List Request) (limiter : FixedWindowLimiter)
      → current_bucket now key limiter ≡ fresh_bucket now limiter
      → All (λ (q : Request). q.1 < now + limiter.window) requests
      → accepted key message ((key, now) ∷ requests) limiter
        ≡ min (1 + length (of_key key requests)) limiter.max_requests
  accepted_in_window now requests limiter idle early =
      let (opened, counted) = check-own now key message limiter 0 (now + limiter.window) idle in
      let exact : IsExact 0 ((key, now) ∷ requests) limiter =
        IsExact-own 0 now requests limiter counted (omega arith) (
          IsExact-open requests _ (now + limiter.window) (check now key message limiter).1 opened
            (rw (check-config now key message limiter).0 (ground arith)) early) in
      unfold IsExact in ground (arith, ==_refl key, exact)

-- Spellings of an address and an email that differ in letter case or in the white space around
-- them are counted as one.
pub check_auth-normalize :
    (show_uuid : Uuid → Str) (now : ℕ) (client_ip email : Str) (s : RateLimitService)
    → check_auth show_uuid now (normalize client_ip) (some (normalize email)) s
      ≡ check_auth show_uuid now client_ip (some email) s
unfolding check_auth auth_key normalize_key
check_auth-normalize show_uuid now client_ip email s =
    rw (normalize_key_idem client_ip, normalize_key_idem email)
  where
    normalize_key_idem : (value : Str) → normalize_key (normalize value) ≡ normalize_key value
    normalize_key_idem value = unfold normalize_key normalize in normalize_idem value
