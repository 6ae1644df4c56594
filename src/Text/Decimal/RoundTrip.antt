-- ===== src/Text/Decimal/RoundTrip.antt =====
-- What is printed is read back, and a printed number holds digits and a sign only.
use Prim.Native.Nat.{ℕ, zero, suc, ◌+◌, ◌-◌, ◌*◌, ◌/◌, ◌%◌, ◌^◌, ◌≤◌, ◌<◌}
use mathlib.Core.Path.{◌≡◌}
use mathlib.Core.Logic.{inl, inr}
use mathlib.Core.Bool.{true}
use mathlib.Core.Option.{some}
use mathlib.Core.List.{[], ◌∷◌, ◌++◌}
use native.Mathlib.Omega.{arith}
use galynx_api.Common.{ltb, eqb, ℤ, pos, negsuc, pos_part, neg_part, All, Bool-cases}
use galynx_api.Text.{Str}
use galynx_api.Text.Decimal.{
  print_fuel, print_ℕ, print_ℤ, is_digit, digits_value, parse_digits, bounded, parse_u128,
  parse_i64, as_pos,
}

digits_value-append :
    (s : Str) (c acc n : ℕ)
    → digits_value s acc ≡ some n
    → digits_value (s ++ c ∷ []) acc ≡ digits_value (c ∷ []) n
unfolding digits_value
digits_value-append [] c acc n h = ground arith
digits_value-append (d ∷ s) c acc n h =
    ground (arith, digits_value-append s c (acc * 10 + (d - b'0')) n)

digits_value-print_fuel : (f n : ℕ) → n < f → digits_value (print_fuel f n) 0 ≡ some n
unfolding print_fuel digits_value
digits_value-print_fuel zero n h = absurd (omega arith)
digits_value-print_fuel (suc f) n h = elim (Bool-cases (ltb n 10)) [
  | inl small ↦ ground arith
  | inr large ↦
      rw
        (
          large,
          digits_value-append (print_fuel f (n / 10)) (b'0' + n % 10) 0 (n / 10)
              (digits_value-print_fuel f (n / 10) (ground arith)),
        )
        (ground arith)
]

-- A printed number begins with a digit.
print_fuel_head :
    (f n : ℕ) → n < f → (c : ℕ) × (s : Str) × (print_fuel f n ≡ c ∷ s) × (is_digit c ≡ true)
unfolding print_fuel is_digit
print_fuel_head zero n h = absurd (omega arith)
print_fuel_head (suc f) n h = elim (Bool-cases (ltb n 10)) [
  | inl small ↦ (b'0' + n, [], ground arith, ground arith)
  | inr large ↦
      let (c, s, e, d) = print_fuel_head f (n / 10) (ground arith) in
      (c, s ++ (b'0' + n % 10) ∷ [], rw (large, e), d)
]

All-append_one :
    (s : Str) (c : ℕ)
    → All (λ d. is_digit d ≡ true) s
    → is_digit c ≡ true
    → All (λ d. is_digit d ≡ true) (s ++ c ∷ [])
All-append_one [] c h k = (k, tt)
All-append_one (d ∷ s) c h k = (h.0, All-append_one s c h.1 k)

print_fuel-digits : (f n : ℕ) → All (λ d. is_digit d ≡ true) (print_fuel f n)
unfolding print_fuel
print_fuel-digits zero n = tt
print_fuel-digits (suc f) n = elim (Bool-cases (ltb n 10)) [
  | inl small ↦ rw small (unfold is_digit in ground arith)
  | inr large ↦ rw large (
      All-append_one (print_fuel f (n / 10)) (b'0' + n % 10) (print_fuel-digits f (n / 10))
        (unfold is_digit in ground arith))
]

pub print_ℕ-digits : (n : ℕ) → All (λ d. is_digit d ≡ true) (print_ℕ n)
unfolding print_ℕ
print_ℕ-digits n = print_fuel-digits (suc n) n

parse_digits-print_ℕ : (n : ℕ) → parse_digits (print_ℕ n) ≡ some n
unfolding print_ℕ
parse_digits-print_ℕ n =
    let (c, s, e, d) = print_fuel_head (suc n) n (omega arith) in
    let value = digits_value-print_fuel (suc n) n (omega arith) in
    rw e (unfold parse_digits in rw e at value)

parse_u128-digit :
    (c : ℕ) (s : Str)
    → is_digit c ≡ true
    → parse_u128 (c ∷ s) ≡ bounded (2 ^ 128 - 1) (parse_digits (c ∷ s))
unfolding parse_u128 is_digit
parse_u128-digit c s h = elim (Bool-cases (eqb c b'+')) [
  | inl plus ↦ absurd (ground arith)
  | inr digit ↦ rw digit
]

parse_i64-digit :
    (c : ℕ) (s : Str)
    → is_digit c ≡ true
    → parse_i64 (c ∷ s) ≡ as_pos (bounded (2 ^ 63 - 1) (parse_digits (c ∷ s)))
unfolding parse_i64 is_digit
parse_i64-digit c s h = elim (Bool-cases (eqb c b'+')) [
  | inl plus ↦ absurd (ground arith)
  | inr digit ↦ elim (Bool-cases (eqb c b'-')) [
    | inl minus ↦ absurd (ground arith)
    | inr unsigned ↦ rw (digit, unsigned)
  ]
]

print_ℕ_head : (n : ℕ) → (c : ℕ) × (s : Str) × (print_ℕ n ≡ c ∷ s) × (is_digit c ≡ true)
unfolding print_ℕ
print_ℕ_head n = print_fuel_head (suc n) n (omega arith)

-- Reading a printed identifier gives it back, if it fits in 128 bits.
pub parse_u128-print_ℕ : (n : ℕ) → n < 2 ^ 128 → parse_u128 (print_ℕ n) ≡ some n
parse_u128-print_ℕ n h =
    let (c, s, e, d) = print_ℕ_head n in
    let value = rw e at (parse_digits-print_ℕ n) in
    rw (e, parse_u128-digit c s d, value) (ground arith)

-- Reading a printed timestamp gives it back, if it fits in an `i64`.
pub parse_i64-print_ℤ :
    (z : ℤ) → pos_part z < 2 ^ 63 → neg_part z ≤ 2 ^ 63 → parse_i64 (print_ℤ z) ≡ some z
unfolding print_ℤ
parse_i64-print_ℤ (pos n) h k =
    let (c, s, e, d) = print_ℕ_head n in
    let value = rw e at (parse_digits-print_ℕ n) in
    rw (e, parse_i64-digit c s d, value) (ground arith)
parse_i64-print_ℤ (negsuc n) h k =
    unfold parse_i64 in rw (parse_digits-print_ℕ (suc n)) (ground arith)
