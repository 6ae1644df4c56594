-- ===== src/RateLimit/ClientIp.antt =====
-- The address that a request is counted under.
use mathlib.Core.Path.{◌≡◌, refl}
use mathlib.Core.Logic.{inl, inr}
use mathlib.Core.Bool.{false}
use mathlib.Core.Option.{Option, none, some}
use mathlib.Core.List.{List, [], ◌∷◌}
use galynx_api.Common.{is_empty, Bool-cases}
use galynx_api.Text.{Str, text, trim, split, text_tests}
use galynx_api.Text.Trim.{trim_idem}
use galynx_api.RateLimit.{
  HeaderMap, client_ip_from_headers, parse_forwarded_for, forwarded_ip, real_ip, standard_ip,
  first_for, for_value, non_empty, trim_quotes, strip_prefix, or_else, and_then, or_unknown,
}

-- A text that is not empty and has no white space at its ends.
abbrev IsAddress : Str → Type 0
IsAddress ip = (is_empty ip ≡ false) × (trim ip ≡ ip)

abbrev AreAddresses : Option Str → Type 0
AreAddresses none = Unit
AreAddresses (some ip) = IsAddress ip

non_empty-trim : (s : Str) → AreAddresses (non_empty (trim s))
non_empty-trim s = elim (Bool-cases (is_empty (trim s))) [
  | inl blank ↦ rw blank tt
  | inr filled ↦ rw filled (filled, trim_idem s)
]

or_else-AreAddresses :
    (o p : Option Str) → AreAddresses o → AreAddresses p → AreAddresses (or_else o p)
or_else-AreAddresses none p h k = k
or_else-AreAddresses (some ip) p h k = h

and_then-AreAddresses :
    (o : Option Str) (f : Str → Option Str)
    → ((s : Str) → AreAddresses (f s))
    → AreAddresses (and_then o f)
and_then-AreAddresses none f h = tt
and_then-AreAddresses (some s) f h = h s

first_for-AreAddresses : (segments : List Str) → AreAddresses (first_for segments)
first_for-AreAddresses [] = tt
first_for-AreAddresses (segment ∷ segments) =
    or_else-AreAddresses (for_value segment) (first_for segments)
      (and_then-AreAddresses (strip_prefix (text "for=") (trim segment)) _
        (λ value. non_empty-trim (trim_quotes value)))
      (first_for-AreAddresses segments)

unknown-IsAddress : IsAddress (text "unknown")
unfolding text_tests
unknown-IsAddress = (refl, refl)

or_unknown-IsAddress : (o : Option Str) → AreAddresses o → IsAddress (or_unknown o)
or_unknown-IsAddress none h = unknown-IsAddress
or_unknown-IsAddress (some ip) h = h

-- Whatever the headers of a request hold, the address it is counted under is not empty and has
-- no white space at its ends.
pub client_ip_from_headers-IsAddress :
    (headers : HeaderMap)
    → (is_empty (client_ip_from_headers headers) ≡ false)
      × (trim (client_ip_from_headers headers) ≡ client_ip_from_headers headers)
unfolding client_ip_from_headers parse_forwarded_for
client_ip_from_headers-IsAddress headers = or_unknown-IsAddress _ (
    or_else-AreAddresses (forwarded_ip headers) _
      (and_then-AreAddresses (headers (text "x-forwarded-for")) _ (λ value. non_empty-trim _))
      (or_else-AreAddresses (real_ip headers) (standard_ip headers)
        (and_then-AreAddresses (headers (text "x-real-ip")) _ (λ value. non_empty-trim value))
        (and_then-AreAddresses (headers (text "forwarded")) parse_forwarded_for
          (λ value. first_for-AreAddresses (split b';' value)))))
