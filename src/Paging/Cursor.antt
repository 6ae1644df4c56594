-- ===== src/Paging/Cursor.antt =====
-- The text of a cursor is read back as the key that it was written from.
use Prim.Native.Nat.{ℕ, suc, ◌^◌, ◌<◌, ◌≤◌}
use mathlib.Core.Path.{◌≡◌, refl}
use mathlib.Core.Logic.{inl, inr}
use mathlib.Core.Bool.{true, false}
use mathlib.Core.List.{List, [], ◌∷◌, ◌++◌}
use native.Mathlib.Omega.{arith}
use galynx_api.Common.{Bool-cases, eqb, ℤ, pos, negsuc, pos_part, neg_part, All, All-map_pred}
use mathlib.Core.Option.{some}
use galynx_api.Errors.{ok}
use galynx_api.Text.{Str, split}
use galynx_api.Text.Decimal.{print_ℕ, print_ℤ, is_digit, parse_i64, parse_u128}
use galynx_api.Text.Decimal.RoundTrip.{print_ℕ-digits, parse_u128-print_ℕ, parse_i64-print_ℤ}
use galynx_api.Paging.{CursorKey, format_cursor, parse_cursor, from_segments, parse_before}

-- A timestamp of the type `i64` and an identifier of 128 bits.
pub record IsInRange (k : CursorKey) : Type 0 where
  pub time_below : pos_part k.0 < 2 ^ 63
  pub time_above : neg_part k.0 ≤ 2 ^ 63
  pub id_below : k.1 < 2 ^ 128

split_none : (sep : ℕ) (s : Str) → All (λ c. eqb c sep ≡ false) s → split sep s ≡ s ∷ []
unfolding split
split_none sep [] h = refl
split_none sep (c ∷ s) h = rw (split_none sep s h.1, h.0)

split_cons : (sep : ℕ) (s : Str) → (seg : Str) × (segs : List Str) × (split sep s ≡ seg ∷ segs)
unfolding split
split_cons sep [] = ([], [], refl)
split_cons sep (c ∷ s) =
    let (seg, segs, e) = split_cons sep s in
    elim (Bool-cases (eqb c sep)) [
      | inl here ↦ ([], seg ∷ segs, rw (e, here))
      | inr in_front ↦ (c ∷ seg, segs, rw (e, in_front))
    ]

split_first :
    (sep : ℕ) (s t : Str)
    → All (λ c. eqb c sep ≡ false) s
    → split sep (s ++ (sep ∷ t)) ≡ s ∷ split sep t
unfolding split
split_first sep [] t h = let (seg, segs, e) = split_cons sep t in rw e (ground arith)
split_first sep (c ∷ s) t h = rw (split_first sep s t h.1, h.0)

digit_not_colon : (c : ℕ) → is_digit c ≡ true → eqb c b':' ≡ false
unfolding is_digit
digit_not_colon c h = ground arith

print_ℕ_no_colon : (n : ℕ) → All (λ c. eqb c b':' ≡ false) (print_ℕ n)
print_ℕ_no_colon n = All-map_pred digit_not_colon (print_ℕ n) (print_ℕ-digits n)

print_ℤ_no_colon : (z : ℤ) → All (λ c. eqb c b':' ≡ false) (print_ℤ z)
unfolding print_ℤ
print_ℤ_no_colon (pos n) = print_ℕ_no_colon n
print_ℤ_no_colon (negsuc n) = (refl, print_ℕ_no_colon (suc n))

from_segments_pair :
    (s i : Str) (rest : List Str) {t : ℤ} {id : ℕ}
    → parse_i64 s ≡ some t
    → parse_u128 i ≡ some id
    → from_segments (s ∷ i ∷ rest) ≡ inr (t, id)
from_segments_pair s i rest h k = ground arith

-- For a timestamp in the range of `i64` and an identifier of 128 bits, `parse_cursor` reads the
-- text that `format_cursor` writes as the same timestamp and identifier.
pub parse_cursor-format_cursor :
    (k : CursorKey) → IsInRange k → parse_cursor (format_cursor k) ≡ inr k
unfolding parse_cursor format_cursor
parse_cursor-format_cursor k h =
    rw
      (
        split_first b':' (print_ℤ k.0) (print_ℕ k.1) (print_ℤ_no_colon k.0),
        split_none b':' (print_ℕ k.1) (print_ℕ_no_colon k.1),
      )
      (from_segments_pair (print_ℤ k.0) (print_ℕ k.1) []
        (parse_i64-print_ℤ k.0 h.time_below h.time_above) (parse_u128-print_ℕ k.1 h.id_below))

-- So a page that is asked for with that text starts behind that key.
pub parse_before-format_cursor :
    (k : CursorKey) → IsInRange k → parse_before (some (format_cursor k)) ≡ ok (some k)
unfolding parse_before
parse_before-format_cursor k h = rw (parse_cursor-format_cursor k h)
