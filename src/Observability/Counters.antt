-- ===== src/Observability/Counters.antt =====
-- src/observability.rs: each counter is the number of the requests of its kind.
use Prim.Native.Nat.{ℕ, suc, ◌%◌, ◌^◌}
use mathlib.Core.Path.{◌≡◌, refl, ◌∙◌}
use mathlib.Core.Bool.{Bool, ◌&&◌}
use mathlib.Core.List.{List, ◌∷◌}
use native.Mathlib.Omega.{arith}
use galynx_api.Common.{ltb, leb, if◌then◌else◌, length, filter}
use galynx_api.Observability.{
  AppMetrics, Served, Middleware, idle, started, finished, fetch_add, fetch_sub, count_status,
  count_latency, on_request_start, on_request_end, default,
}

abbrev ms : Served → ℕ
ms r = r.millis % 2 ^ 64

abbrev pub is_2xx : Served → Bool
is_2xx r = leb 200 r.status && ltb r.status 300

abbrev pub is_4xx : Served → Bool
is_4xx r = leb 400 r.status && ltb r.status 500

abbrev pub is_5xx : Served → Bool
is_5xx r = leb 500 r.status

-- Requests that took at most, more than, and between so many milliseconds.
abbrev pub within : ℕ → Served → Bool
within high r = leb (ms r) high

abbrev pub over : ℕ → Served → Bool
over low r = ltb low (ms r)

abbrev pub between : ℕ → ℕ → Served → Bool
between low high r = over low r && within high r

abbrev pub count : (Served → Bool) → List Served → ℕ
count p done = length (filter p done)

-- The counters are those of the requests.
pub record Exact (m : AppMetrics) (n : ℕ) (done : List Served) : Type 0 where
  pub in_flight : m.in_flight ≡ n % 2 ^ 64
  pub requests_total : m.requests_total ≡ length done % 2 ^ 64
  pub requests_2xx : m.requests_2xx ≡ count is_2xx done % 2 ^ 64
  pub requests_4xx : m.requests_4xx ≡ count is_4xx done % 2 ^ 64
  pub requests_5xx : m.requests_5xx ≡ count is_5xx done % 2 ^ 64
  pub latency_ms_le_50 : m.latency_ms_le_50 ≡ count (within 50) done % 2 ^ 64
  pub latency_ms_le_100 : m.latency_ms_le_100 ≡ count (between 50 100) done % 2 ^ 64
  pub latency_ms_le_250 : m.latency_ms_le_250 ≡ count (between 100 250) done % 2 ^ 64
  pub latency_ms_le_500 : m.latency_ms_le_500 ≡ count (between 250 500) done % 2 ^ 64
  pub latency_ms_le_1000 : m.latency_ms_le_1000 ≡ count (between 500 1000) done % 2 ^ 64
  pub latency_ms_le_2500 : m.latency_ms_le_2500 ≡ count (between 1000 2500) done % 2 ^ 64
  pub latency_ms_le_5000 : m.latency_ms_le_5000 ≡ count (between 2500 5000) done % 2 ^ 64
  pub latency_ms_inf : m.latency_ms_inf ≡ count (over 5000) done % 2 ^ 64

abbrev bump : Bool → ℕ → ℕ
bump b n = if b then fetch_add n else n

bump-count :
    (p : Served → Bool) (r : Served) (done : List Served) (n : ℕ)
    → n ≡ count p done % 2 ^ 64
    → bump (p r) n ≡ count p (r ∷ done) % 2 ^ 64
unfolding fetch_add
bump-count p r done n h = ground arith

module _ (r : Served) (m : AppMetrics) where
  in_flight_lem : (on_request_end r.status r.millis m).in_flight ≡ fetch_sub m.in_flight
  unfolding on_request_end count_status count_latency fetch_add fetch_sub
  in_flight_lem = ground arith

  requests_total_lem :
      (on_request_end r.status r.millis m).requests_total ≡ fetch_add m.requests_total
  unfolding on_request_end count_status count_latency fetch_add fetch_sub
  requests_total_lem = ground arith

  requests_2xx_lem :
      (on_request_end r.status r.millis m).requests_2xx ≡ bump (is_2xx r) m.requests_2xx
  unfolding on_request_end count_status count_latency fetch_add fetch_sub
  requests_2xx_lem = ground arith

  requests_4xx_lem :
      (on_request_end r.status r.millis m).requests_4xx ≡ bump (is_4xx r) m.requests_4xx
  unfolding on_request_end count_status count_latency fetch_add fetch_sub
  requests_4xx_lem = ground arith

  requests_5xx_lem :
      (on_request_end r.status r.millis m).requests_5xx ≡ bump (is_5xx r) m.requests_5xx
  unfolding on_request_end count_status count_latency fetch_add fetch_sub
  requests_5xx_lem = ground arith

  latency_ms_le_50_lem :
      (on_request_end r.status r.millis m).latency_ms_le_50 ≡ bump (within 50 r) m.latency_ms_le_50
  unfolding on_request_end count_status count_latency fetch_add fetch_sub
  latency_ms_le_50_lem = ground arith

  latency_ms_le_100_lem :
      (on_request_end r.status r.millis m).latency_ms_le_100
      ≡ bump (between 50 100 r) m.latency_ms_le_100
  unfolding on_request_end count_status count_latency fetch_add fetch_sub
  latency_ms_le_100_lem = ground arith

  latency_ms_le_250_lem :
      (on_request_end r.status r.millis m).latency_ms_le_250
      ≡ bump (between 100 250 r) m.latency_ms_le_250
  unfolding on_request_end count_status count_latency fetch_add fetch_sub
  latency_ms_le_250_lem = ground arith

  latency_ms_le_500_lem :
      (on_request_end r.status r.millis m).latency_ms_le_500
      ≡ bump (between 250 500 r) m.latency_ms_le_500
  unfolding on_request_end count_status count_latency fetch_add fetch_sub
  latency_ms_le_500_lem = ground arith

  latency_ms_le_1000_lem :
      (on_request_end r.status r.millis m).latency_ms_le_1000
      ≡ bump (between 500 1000 r) m.latency_ms_le_1000
  unfolding on_request_end count_status count_latency fetch_add fetch_sub
  latency_ms_le_1000_lem = ground arith

  latency_ms_le_2500_lem :
      (on_request_end r.status r.millis m).latency_ms_le_2500
      ≡ bump (between 1000 2500 r) m.latency_ms_le_2500
  unfolding on_request_end count_status count_latency fetch_add fetch_sub
  latency_ms_le_2500_lem = ground arith

  latency_ms_le_5000_lem :
      (on_request_end r.status r.millis m).latency_ms_le_5000
      ≡ bump (between 2500 5000 r) m.latency_ms_le_5000
  unfolding on_request_end count_status count_latency fetch_add fetch_sub
  latency_ms_le_5000_lem = ground arith

  latency_ms_inf_lem :
      (on_request_end r.status r.millis m).latency_ms_inf ≡ bump (over 5000 r) m.latency_ms_inf
  unfolding on_request_end count_status count_latency fetch_add fetch_sub
  latency_ms_inf_lem = ground arith

on_request_end-Exact :
    (r : Served) (m : AppMetrics) (n : ℕ) (done : List Served)
    → Exact m (suc n) done
    → Exact (on_request_end r.status r.millis m) n (r ∷ done)
unfolding fetch_add fetch_sub
on_request_end-Exact r m n done e = record {
  in_flight = in_flight_lem r m ∙ ground (arith, e.in_flight);
  requests_total = requests_total_lem r m ∙ ground (arith, e.requests_total);
  requests_2xx = requests_2xx_lem r m ∙ bump-count is_2xx r done _ e.requests_2xx;
  requests_4xx = requests_4xx_lem r m ∙ bump-count is_4xx r done _ e.requests_4xx;
  requests_5xx = requests_5xx_lem r m ∙ bump-count is_5xx r done _ e.requests_5xx;
  latency_ms_le_50 = latency_ms_le_50_lem r m ∙ bump-count (within 50) r done _ e.latency_ms_le_50;
  latency_ms_le_100 =
      latency_ms_le_100_lem r m ∙ bump-count (between 50 100) r done _ e.latency_ms_le_100;
  latency_ms_le_250 =
      latency_ms_le_250_lem r m ∙ bump-count (between 100 250) r done _ e.latency_ms_le_250;
  latency_ms_le_500 =
      latency_ms_le_500_lem r m ∙ bump-count (between 250 500) r done _ e.latency_ms_le_500;
  latency_ms_le_1000 =
      latency_ms_le_1000_lem r m ∙ bump-count (between 500 1000) r done _ e.latency_ms_le_1000;
  latency_ms_le_2500 =
      latency_ms_le_2500_lem r m ∙ bump-count (between 1000 2500) r done _ e.latency_ms_le_2500;
  latency_ms_le_5000 =
      latency_ms_le_5000_lem r m ∙ bump-count (between 2500 5000) r done _ e.latency_ms_le_5000;
  latency_ms_inf = latency_ms_inf_lem r m ∙ bump-count (over 5000) r done _ e.latency_ms_inf;
}

pub reached-Exact :
    {m : AppMetrics} {n : ℕ} {done : List Served} → Middleware m n done → Exact m n done
unfolding default on_request_start fetch_add
reached-Exact idle = record {
  in_flight = refl;
  requests_total = refl;
  requests_2xx = refl;
  requests_4xx = refl;
  requests_5xx = refl;
  latency_ms_le_50 = refl;
  latency_ms_le_100 = refl;
  latency_ms_le_250 = refl;
  latency_ms_le_500 = refl;
  latency_ms_le_1000 = refl;
  latency_ms_le_2500 = refl;
  latency_ms_le_5000 = refl;
  latency_ms_inf = refl;
}
reached-Exact (started before) =
    let e = reached-Exact before in
    record {
      in_flight = ground (arith, e.in_flight);
      requests_total = e.requests_total;
      requests_2xx = e.requests_2xx;
      requests_4xx = e.requests_4xx;
      requests_5xx = e.requests_5xx;
      latency_ms_le_50 = e.latency_ms_le_50;
      latency_ms_le_100 = e.latency_ms_le_100;
      latency_ms_le_250 = e.latency_ms_le_250;
      latency_ms_le_500 = e.latency_ms_le_500;
      latency_ms_le_1000 = e.latency_ms_le_1000;
      latency_ms_le_2500 = e.latency_ms_le_2500;
      latency_ms_le_5000 = e.latency_ms_le_5000;
      latency_ms_inf = e.latency_ms_inf;
    }
reached-Exact (finished r before) = on_request_end-Exact r _ _ _ (reached-Exact before)
