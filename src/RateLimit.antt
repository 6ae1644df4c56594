-- ===== src/RateLimit.antt =====
-- src/rate_limit.rs: the fixed-window limiter, the three limits of the service, and the address
-- that a request is counted under. Instants are natural numbers of one clock, in nanoseconds.
pub mod Window
pub mod ClientIp
use Prim.Native.Nat.{ℕ, ◌+◌}
use mathlib.Core.Bool.{Bool, true, false}
use mathlib.Core.Option.{Option, none, some}
use mathlib.Core.List.{List, [], ◌∷◌, ◌++◌}
use galynx_api.Common.{Map, lookup, insert, leb, eqb, if◌then◌else◌, text_eq, is_empty, nat_eq}
use galynx_api.Text.{Str, text, trim, to_ascii_lowercase, split}
use galynx_api.Errors.{ApiError, ApiResult, ok, err, too_many_requests, Action}
use galynx_api.Storage.{Uuid}

pub record WindowBucket : Type 0 where
  pub count : ℕ
  pub reset_at : ℕ

pub record FixedWindowLimiter : Type 0 where
  pub max_requests : ℕ
  pub window : ℕ
  pub buckets : Map Str WindowBucket

-- `FixedWindowLimiter::new`
unfoldable pub new_limiter : ℕ → ℕ → FixedWindowLimiter
new_limiter max_requests window = record {
  max_requests = max_requests;
  window = window;
  buckets = [];
}

abbrev pub fresh_bucket : ℕ → FixedWindowLimiter → WindowBucket
fresh_bucket now limiter = record { count = 0; reset_at = now + limiter.window }

-- `entry(key).or_insert(..)`, and the reset where the window is over.
unfoldable pub current_bucket : ℕ → Str → FixedWindowLimiter → WindowBucket
current_bucket now key limiter = elim (lookup key limiter.buckets) [
  | none ↦ fresh_bucket now limiter
  | some bucket ↦ if leb bucket.reset_at now then fresh_bucket now limiter else bucket
]

-- The limit on one bucket: it counts a request, or refuses it and stays as it is.
abbrev pub count_request : ℕ → Str → WindowBucket → ApiResult (Unit {0}) × WindowBucket
count_request max_requests message bucket =
    if leb max_requests bucket.count
    then (err (too_many_requests message), bucket)
    else (ok tt, record bucket { count = bucket.count + 1 })

-- `FixedWindowLimiter::check`, at the instant `now`; the bucket is one of the table's entries.
unfoldable pub check : ℕ → Str → Str → Action FixedWindowLimiter (Unit {0})
unfolding current_bucket
check now key message limiter =
    let (r, bucket) = count_request limiter.max_requests message (current_bucket now key limiter) in
    (r, record limiter { buckets = insert key bucket limiter.buckets })

pub record RateLimitService : Type 0 where
  pub auth_limiter : FixedWindowLimiter
  pub ws_connect_limiter : FixedWindowLimiter
  pub ws_command_limiter : FixedWindowLimiter

-- Sixty seconds.
abbrev pub minute : ℕ
minute = 60000000000

unfoldable pub new_service : RateLimitService
unfolding new_limiter
new_service = record {
  auth_limiter = new_limiter 30 minute;
  ws_connect_limiter = new_limiter 12 minute;
  ws_command_limiter = new_limiter 600 minute;
}

unfoldable pub normalize_key : Str → Str
normalize_key value = to_ascii_lowercase (trim value)

abbrev email_part : Option Str → Str
email_part none = text "-"
email_part (some email) = normalize_key email

-- The text of an identifier is what the library of identifiers prints.
module _ (show_uuid : Uuid → Str) (now : ℕ) where
  unfoldable pub auth_key : Str → Option Str → Str
  unfolding normalize_key
  auth_key client_ip email =
      text "ip=" ++ normalize_key client_ip ++ text "|email=" ++ email_part email

  unfoldable pub check_auth : Str → Option Str → Action RateLimitService (Unit {0})
  unfolding auth_key
  check_auth client_ip email s =
      let (r, limiter) =
        check now (auth_key client_ip email) (text "too many auth requests, retry in a minute")
          s.auth_limiter in
      (r, record s { auth_limiter = limiter })

  unfoldable pub check_ws_connect : Str → Uuid → Action RateLimitService (Unit {0})
  unfolding normalize_key
  check_ws_connect client_ip user_id s =
      let (r, limiter) =
        check now (text "ip=" ++ normalize_key client_ip ++ text "|user=" ++ show_uuid user_id)
          (text "too many websocket connection attempts") s.ws_connect_limiter in
      (r, record s { ws_connect_limiter = limiter })

  unfoldable pub check_ws_command : Uuid → Action RateLimitService (Unit {0})
  check_ws_command user_id s =
      let (r, limiter) =
        check now (text "user=" ++ show_uuid user_id)
          (text "too many websocket commands, slow down") s.ws_command_limiter in
      (r, record s { ws_command_limiter = limiter })

-- The headers of a request: the value of one, by its name, where it is visible text.
abbrev pub HeaderMap : Type 0
HeaderMap = Str → Option Str

-- `strip_prefix`
abbrev pub strip_prefix : Str → Str → Option Str
strip_prefix [] s = some s
strip_prefix (c ∷ p) [] = none
strip_prefix (c ∷ p) (d ∷ s) = if eqb c d then strip_prefix p s else none

-- `trim_matches('"')`
unfoldable pub trim_quotes_start : Str → Str
trim_quotes_start [] = []
trim_quotes_start (c ∷ s) = if eqb c b'"' then trim_quotes_start s else c ∷ s

abbrev before_quotes : ℕ → Str → Str
before_quotes c [] = if eqb c b'"' then [] else c ∷ []
before_quotes c (d ∷ s) = c ∷ d ∷ s

unfoldable pub trim_quotes_end : Str → Str
trim_quotes_end [] = []
trim_quotes_end (c ∷ s) = before_quotes c (trim_quotes_end s)

unfoldable pub trim_quotes : Str → Str
unfolding trim_quotes_start trim_quotes_end
trim_quotes s = trim_quotes_end (trim_quotes_start s)

-- A value that gives an address, if it is not empty.
abbrev pub non_empty : Str → Option Str
non_empty ip = if is_empty ip then none else some ip

-- The first of two that is there: an early return, or else what follows it.
abbrev pub or_else : Option Str → Option Str → Option Str
or_else none after = after
or_else (some ip) after = some ip

abbrev pub and_then : Option Str → (Str → Option Str) → Option Str
and_then none f = none
and_then (some value) f = f value

abbrev pub for_value : Str → Option Str
for_value segment =
    and_then (strip_prefix (text "for=") (trim segment))
      (λ value. non_empty (trim (trim_quotes value)))

abbrev pub first_for : List Str → Option Str
first_for [] = none
first_for (segment ∷ segments) = or_else (for_value segment) (first_for segments)

unfoldable pub parse_forwarded_for : Str → Option Str
parse_forwarded_for value = first_for (split b';' value)

-- `split(',').next().unwrap_or_default()`
abbrev first_segment : List Str → Str
first_segment [] = []
first_segment (segment ∷ segments) = segment

abbrev pub forwarded_ip : HeaderMap → Option Str
forwarded_ip headers =
    and_then (headers (text "x-forwarded-for"))
      (λ value. non_empty (trim (first_segment (split b',' value))))

abbrev pub real_ip : HeaderMap → Option Str
real_ip headers = and_then (headers (text "x-real-ip")) (λ value. non_empty (trim value))

abbrev pub standard_ip : HeaderMap → Option Str
standard_ip headers = and_then (headers (text "forwarded")) parse_forwarded_for

abbrev pub or_unknown : Option Str → Str
or_unknown none = text "unknown"
or_unknown (some ip) = ip

unfoldable pub client_ip_from_headers : HeaderMap → Str
client_ip_from_headers headers =
    or_unknown (or_else (forwarded_ip headers) (or_else (real_ip headers) (standard_ip headers)))
