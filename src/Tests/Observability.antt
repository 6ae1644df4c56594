-- ===== src/Tests/Observability.antt =====
-- Two requests of which the second has ended.
use mathlib.Core.Path.{◌≡◌}
use mathlib.Core.List.{[], ◌∷◌}
use galynx_api.Observability.{
  AppMetrics, Served, Middleware, idle, started, finished, default, on_request_start,
  on_request_end, render_prometheus,
}
use galynx_api.Observability.Histogram.{counted, render_prometheus-counts}

abbrev slow : Served
slow = record { status = 404; millis = 120 }

abbrev metrics : AppMetrics
metrics = on_request_end 404 120 (on_request_start (on_request_start default))

abbrev metrics-Middleware : Middleware metrics 1 (slow ∷ [])
metrics-Middleware = finished slow (started (started idle))

render_prometheus-counts_example : render_prometheus metrics ≡ counted 1 (slow ∷ [])
render_prometheus-counts_example = render_prometheus-counts metrics-Middleware
