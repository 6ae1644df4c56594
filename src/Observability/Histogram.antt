-- ===== src/Observability/Histogram.antt =====
-- src/observability.rs: the rendering counts the requests.
use Prim.Native.Nat.{ℕ, ◌+◌, ◌%◌, ◌^◌, ◌≤◌}
use mathlib.Core.Path.{◌≡◌, refl}
use mathlib.Core.List.{List, [], ◌∷◌}
use native.Mathlib.Omega.{arith}
use galynx_api.Common.{length}
use galynx_api.Text.{Str}
use galynx_api.Observability.{AppMetrics, Served, Middleware, add_u64, render_prometheus, format}
use galynx_api.Observability.Counters.{
  Exact, reached-Exact, is_2xx, is_4xx, is_5xx, within, over, between, count,
}

-- The rendering that counts requests, modulo `2 ^ 64`.
unfoldable pub counted : ℕ → List Served → Str
unfolding format
counted n done =
    format (n % 2 ^ 64) (length done % 2 ^ 64) (count is_2xx done % 2 ^ 64)
      (count is_4xx done % 2 ^ 64) (count is_5xx done % 2 ^ 64) (count (within 50) done % 2 ^ 64)
      (count (within 100) done % 2 ^ 64) (count (within 250) done % 2 ^ 64)
      (count (within 500) done % 2 ^ 64) (count (within 1000) done % 2 ^ 64)
      (count (within 2500) done % 2 ^ 64) (count (within 5000) done % 2 ^ 64) (length done % 2 ^ 64)
      (length done % 2 ^ 64)

count-between :
    (low high : ℕ) (done : List Served)
    → low ≤ high
    → count (within low) done + count (between low high) done ≡ count (within high) done
count-between low high [] h = refl
count-between low high (r ∷ done) h = ground (arith, count-between low high done h)

count-over :
    (low : ℕ) (done : List Served) → count (within low) done + count (over low) done ≡ length done
count-over low [] = refl
count-over low (r ∷ done) = ground (arith, count-over low done)

add_u64-sum :
    (a b x y z : ℕ) → a ≡ x % 2 ^ 64 → b ≡ y % 2 ^ 64 → x + y ≡ z → add_u64 a b ≡ z % 2 ^ 64
unfolding add_u64
add_u64-sum a b x y z ha hb h = ground arith

rendered :
    (m : AppMetrics) (n : ℕ) (done : List Served)
    → Exact m n done
    → render_prometheus m ≡ counted n done
unfolding render_prometheus counted
rendered m n done e =
    let le_100 =
      add_u64-sum _ _ _ _ _ e.latency_ms_le_50 e.latency_ms_le_100
        (count-between 50 100 done (omega arith)) in
    let le_250 =
      add_u64-sum _ _ _ _ _ le_100 e.latency_ms_le_250 (count-between 100 250 done (omega arith)) in
    let le_500 =
      add_u64-sum _ _ _ _ _ le_250 e.latency_ms_le_500 (count-between 250 500 done (omega arith)) in
    let le_1000 =
      add_u64-sum _ _ _ _ _ le_500 e.latency_ms_le_1000
        (count-between 500 1000 done (omega arith)) in
    let le_2500 =
      add_u64-sum _ _ _ _ _ le_1000 e.latency_ms_le_2500
        (count-between 1000 2500 done (omega arith)) in
    let le_5000 =
      add_u64-sum _ _ _ _ _ le_2500 e.latency_ms_le_5000
        (count-between 2500 5000 done (omega arith)) in
    let total = add_u64-sum _ _ _ _ _ le_5000 e.latency_ms_inf (count-over 5000 done) in cc

-- After any interleaving of requests that begin and end, what is rendered are the numbers of those
-- that are open, of those that are answered, of those with a status of the classes 2xx, 4xx and
-- 5xx (or above), and for each bound of the histogram of those that took at most so many
-- milliseconds, each modulo `2 ^ 64`. The last bucket and the count are both the number of those
-- that are answered.
pub render_prometheus-counts :
    {m : AppMetrics} {n : ℕ} {done : List Served}
    → Middleware m n done
    → render_prometheus m ≡ counted n done
render_prometheus-counts reached = rendered _ _ _ (reached-Exact reached)
