-- ===== src/Observability.antt =====
-- src/observability.rs: the counters of the server, and what they are rendered as. The modules below
-- have the theorems.
pub mod Counters
pub mod Histogram
use Prim.Native.Nat.{ℕ, suc, ◌+◌, ◌-◌, ◌%◌, ◌^◌}
use mathlib.Core.Bool.{Bool, true, false, not, ◌&&◌}
use mathlib.Core.List.{List, [], ◌∷◌, ◌++◌}
use galynx_api.Common.{ltb, leb, if◌then◌else◌}
use galynx_api.Text.{Str, text}
use galynx_api.Text.Decimal.{print_ℕ}

-- `AtomicU64::fetch_add(1)` and `fetch_sub(1)`, which wrap around.
unfoldable pub fetch_add : ℕ → ℕ
fetch_add n = (n + 1) % 2 ^ 64

unfoldable pub fetch_sub : ℕ → ℕ
fetch_sub n = (n + (2 ^ 64 - 1)) % 2 ^ 64

-- `+` of two `u64`, as it is compiled for a release.
unfoldable pub add_u64 : ℕ → ℕ → ℕ
add_u64 a b = (a + b) % 2 ^ 64

pub record AppMetrics : Type 0 where
  pub in_flight : ℕ
  pub requests_total : ℕ
  pub requests_2xx : ℕ
  pub requests_4xx : ℕ
  pub requests_5xx : ℕ
  pub latency_ms_le_50 : ℕ
  pub latency_ms_le_100 : ℕ
  pub latency_ms_le_250 : ℕ
  pub latency_ms_le_500 : ℕ
  pub latency_ms_le_1000 : ℕ
  pub latency_ms_le_2500 : ℕ
  pub latency_ms_le_5000 : ℕ
  pub latency_ms_inf : ℕ

unfoldable pub default : AppMetrics
default = record {
  in_flight = 0;
  requests_total = 0;
  requests_2xx = 0;
  requests_4xx = 0;
  requests_5xx = 0;
  latency_ms_le_50 = 0;
  latency_ms_le_100 = 0;
  latency_ms_le_250 = 0;
  latency_ms_le_500 = 0;
  latency_ms_le_1000 = 0;
  latency_ms_le_2500 = 0;
  latency_ms_le_5000 = 0;
  latency_ms_inf = 0;
}

unfoldable pub on_request_start : AppMetrics → AppMetrics
unfolding fetch_add
on_request_start m = record m { in_flight = fetch_add m.in_flight }

-- The first chain of tests of `on_request_end`.
unfoldable pub count_status : ℕ → AppMetrics → AppMetrics
unfolding fetch_add
count_status status m =
    if leb 200 status && ltb status 300
    then record m { requests_2xx = fetch_add m.requests_2xx }
    else if leb 400 status && ltb status 500
    then record m { requests_4xx = fetch_add m.requests_4xx }
    else if leb 500 status
    then record m { requests_5xx = fetch_add m.requests_5xx }
    else m

-- The second chain.
unfoldable pub count_latency : ℕ → AppMetrics → AppMetrics
unfolding fetch_add
count_latency ms m =
    if leb ms 50
    then record m { latency_ms_le_50 = fetch_add m.latency_ms_le_50 }
    else if leb ms 100
    then record m { latency_ms_le_100 = fetch_add m.latency_ms_le_100 }
    else if leb ms 250
    then record m { latency_ms_le_250 = fetch_add m.latency_ms_le_250 }
    else if leb ms 500
    then record m { latency_ms_le_500 = fetch_add m.latency_ms_le_500 }
    else if leb ms 1000
    then record m { latency_ms_le_1000 = fetch_add m.latency_ms_le_1000 }
    else if leb ms 2500
    then record m { latency_ms_le_2500 = fetch_add m.latency_ms_le_2500 }
    else if leb ms 5000
    then record m { latency_ms_le_5000 = fetch_add m.latency_ms_le_5000 }
    else record m { latency_ms_inf = fetch_add m.latency_ms_inf }

-- The duration is in whole milliseconds, of which `as u64` keeps the lower 64 bits.
unfoldable pub on_request_end : ℕ → ℕ → AppMetrics → AppMetrics
unfolding fetch_add fetch_sub count_status count_latency
on_request_end status millis m =
    let m = record m {
      in_flight = fetch_sub m.in_flight;
      requests_total = fetch_add m.requests_total;
    } in
    count_latency (millis % 2 ^ 64) (count_status status m)

-- One line of the rendering.
abbrev line : Str → ℕ → Str
line name value = name ++ b' ' ∷ print_ℕ value ++ b'\n' ∷ []

abbrev bucket : Str → ℕ → Str
bucket le value =
    line (text "galynx_http_request_duration_ms_bucket{le=\"" ++ le ++ text "\"}") value

-- `format!`, given its arguments.
unfoldable pub format :
    (in_flight requests_total requests_2xx requests_4xx requests_5xx : ℕ)
    (le_50 le_100 le_250 le_500 le_1000 le_2500 le_5000 inf total : ℕ)
    → Str
format in_flight requests_total requests_2xx requests_4xx requests_5xx le_50 le_100 le_250 le_500
      le_1000 le_2500 le_5000 inf total =
    text "# TYPE galynx_http_in_flight gauge\n"
    ++ line (text "galynx_http_in_flight") in_flight
    ++ text "# TYPE galynx_http_requests_total counter\n"
    ++ line (text "galynx_http_requests_total") requests_total
    ++ line (text "galynx_http_requests_total{status_class=\"2xx\"}") requests_2xx
    ++ line (text "galynx_http_requests_total{status_class=\"4xx\"}") requests_4xx
    ++ line (text "galynx_http_requests_total{status_class=\"5xx\"}") requests_5xx
    ++ text "# TYPE galynx_http_request_duration_ms histogram\n"
    ++ bucket (text "50") le_50
    ++ bucket (text "100") le_100
    ++ bucket (text "250") le_250
    ++ bucket (text "500") le_500
    ++ bucket (text "1000") le_1000
    ++ bucket (text "2500") le_2500
    ++ bucket (text "5000") le_5000
    ++ bucket (text "+Inf") inf
    ++ line (text "galynx_http_request_duration_ms_count") total

unfoldable pub render_prometheus : AppMetrics → Str
unfolding add_u64 format
render_prometheus m =
    let le_50 = m.latency_ms_le_50 in
    let le_100 = add_u64 le_50 m.latency_ms_le_100 in
    let le_250 = add_u64 le_100 m.latency_ms_le_250 in
    let le_500 = add_u64 le_250 m.latency_ms_le_500 in
    let le_1000 = add_u64 le_500 m.latency_ms_le_1000 in
    let le_2500 = add_u64 le_1000 m.latency_ms_le_2500 in
    let le_5000 = add_u64 le_2500 m.latency_ms_le_5000 in
    let total = add_u64 le_5000 m.latency_ms_inf in
    format m.in_flight m.requests_total m.requests_2xx m.requests_4xx m.requests_5xx le_50 le_100
      le_250 le_500 le_1000 le_2500 le_5000 total total

-- A request that `metrics_middleware` is done with.
pub record Served : Type 0 where
  pub status : ℕ
  pub millis : ℕ

-- The counters after requests that `metrics_middleware` has begun and ended, in any interleaving:
-- so many are still open, and those were answered, the last one first.
pub data Middleware : AppMetrics → ℕ → List Served → Type 0 where
  idle : Middleware default 0 []
  started :
      {m : AppMetrics} {n : ℕ} {done : List Served}
      → Middleware m n done
      → Middleware (on_request_start m) (suc n) done
  finished :
      {m : AppMetrics} {n : ℕ} {done : List Served} (r : Served)
      → Middleware m (suc n) done
      → Middleware (on_request_end r.status r.millis m) n (r ∷ done)
