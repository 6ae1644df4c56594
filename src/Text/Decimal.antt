-- ===== src/Text/Decimal.antt =====
-- Decimal numbers as the standard library prints them (`Display` of `i64` and `u128`) and reads
-- them (`str::parse`): an optional sign, at least one digit, and a value in the type's range.
pub mod RoundTrip
use Prim.Native.Nat.{ℕ, zero, suc, ◌+◌, ◌-◌, ◌*◌, ◌/◌, ◌%◌, ◌^◌}
use mathlib.Core.Path.{◌≡◌, refl}
use mathlib.Core.Bool.{Bool, true, false, ◌&&◌}
use mathlib.Core.Option.{Option, none, some}
use mathlib.Core.List.{[], ◌∷◌, ◌++◌}
use galynx_api.Common.{ltb, leb, eqb, if◌then◌else◌, ℤ, pos, negsuc}
use galynx_api.Text.{Str, text}

-- A number needs fewer rounds than its own value and one.
print_fuel : ℕ → ℕ → Str
print_fuel zero n = []
print_fuel (suc f) n =
    let front = print_fuel f (n / 10) ++ (b'0' + n % 10) ∷ [] in
    if ltb n 10 then (b'0' + n) ∷ [] else front

-- `u128::to_string`
unfoldable pub print_ℕ : ℕ → Str
unfolding print_fuel
print_ℕ n = print_fuel (suc n) n

-- `i64::to_string`
unfoldable pub print_ℤ : ℤ → Str
unfolding print_ℕ
print_ℤ (pos n) = print_ℕ n
print_ℤ (negsuc n) = b'-' ∷ print_ℕ (suc n)

unfoldable pub is_digit : ℕ → Bool
is_digit c = leb b'0' c && leb c b'9'

unfoldable pub digits_value : Str → ℕ → Option ℕ
unfolding is_digit
digits_value [] acc = some acc
digits_value (c ∷ s) acc = if is_digit c then digits_value s (acc * 10 + (c - b'0')) else none

unfoldable pub parse_digits : Str → Option ℕ
unfolding digits_value
parse_digits [] = none
parse_digits (c ∷ s) = digits_value (c ∷ s) 0

abbrev pub bounded : ℕ → Option ℕ → Option ℕ
bounded top none = none
bounded top (some n) = if leb n top then some n else none

abbrev pub negate : Option ℕ → Option ℤ
negate none = none
negate (some zero) = some (pos 0)
negate (some (suc n)) = some (negsuc n)

abbrev pub as_pos : Option ℕ → Option ℤ
as_pos none = none
as_pos (some n) = some (pos n)

-- `str::parse::<u128>`
unfoldable pub parse_u128 : Str → Option ℕ
unfolding parse_digits
parse_u128 [] = none
parse_u128 (c ∷ s) =
    bounded (2 ^ 128 - 1) (if eqb c b'+' then parse_digits s else parse_digits (c ∷ s))

-- `str::parse::<i64>`
unfoldable pub parse_i64 : Str → Option ℤ
unfolding parse_digits
parse_i64 [] = none
parse_i64 (c ∷ s) =
    if eqb c b'-'
    then negate (bounded (2 ^ 63) (parse_digits s))
    else as_pos (bounded (2 ^ 63 - 1) (if eqb c b'+' then parse_digits s else parse_digits (c ∷ s)))

print_ℤ_example : print_ℤ (negsuc 1739801000000) ≡ text "-1739801000001"
unfolding print_ℤ text
print_ℤ_example = refl

parse_i64_overflow : parse_i64 (text "9223372036854775808") ≡ none
unfolding parse_i64 text
parse_i64_overflow = refl

parse_i64_least : parse_i64 (text "-9223372036854775808") ≡ some (negsuc 9223372036854775807)
unfolding parse_i64 text
parse_i64_least = refl

parse_u128_sign : (parse_u128 (text "+7") ≡ some 7) × (parse_u128 (text "-7") ≡ none)
unfolding parse_u128 text
parse_u128_sign = (refl, refl)
