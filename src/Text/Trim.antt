-- ===== src/Text/Trim.antt =====
-- Trimming and lowering reach their result in one pass, and lowering commutes with trimming.
use mathlib.Core.Path.{◌≡◌, refl, ap, ◌∙◌}
use mathlib.Core.Logic.{inl, inr}
use mathlib.Core.Bool.{false}
use mathlib.Core.List.{[], ◌∷◌}
use native.Mathlib.Omega.{arith}
use Prim.Native.Nat.{ℕ, ◌≤◌}
use galynx_api.Common.{Bool-cases}
use galynx_api.Text.{
  Str, is_whitespace, trim_start, trim_end, before_end, trim, to_lower, to_ascii_lowercase,
}

letter_not_whitespace : (c : ℕ) → 65 ≤ c → c ≤ 122 → is_whitespace c ≡ false
unfolding is_whitespace
letter_not_whitespace c h k = ground arith

is_whitespace-to_lower : (c : ℕ) → is_whitespace (to_lower c) ≡ is_whitespace c
unfolding to_lower
is_whitespace-to_lower c =
    ground (arith, letter_not_whitespace c, letter_not_whitespace (to_lower c))

to_lower_idem : (c : ℕ) → to_lower (to_lower c) ≡ to_lower c
unfolding to_lower
to_lower_idem c = ground arith

pub to_ascii_lowercase_idem :
    (s : Str) → to_ascii_lowercase (to_ascii_lowercase s) ≡ to_ascii_lowercase s
unfolding to_ascii_lowercase
to_ascii_lowercase_idem [] = refl
to_ascii_lowercase_idem (c ∷ s) = cc (to_lower_idem c, to_ascii_lowercase_idem s)

trim_start-lower : (s : Str) → trim_start (to_ascii_lowercase s) ≡ to_ascii_lowercase (trim_start s)
unfolding trim_start to_ascii_lowercase
trim_start-lower [] = refl
trim_start-lower (c ∷ s) = ground (arith, is_whitespace-to_lower c, trim_start-lower s)

before_end-lower :
    (c : ℕ) (s : Str)
    → before_end (to_lower c) (to_ascii_lowercase s) ≡ to_ascii_lowercase (before_end c s)
unfolding to_ascii_lowercase
before_end-lower c [] = ground (arith, is_whitespace-to_lower c)
before_end-lower c (d ∷ s) = refl

trim_end-lower : (s : Str) → trim_end (to_ascii_lowercase s) ≡ to_ascii_lowercase (trim_end s)
unfolding trim_end to_ascii_lowercase
trim_end-lower [] = refl
trim_end-lower (c ∷ s) = rw (trim_end-lower s) (before_end-lower c (trim_end s))

-- Trimming and lowering may be done in either order.
pub trim-to_ascii_lowercase : (s : Str) → trim (to_ascii_lowercase s) ≡ to_ascii_lowercase (trim s)
unfolding trim
trim-to_ascii_lowercase s = rw (trim_start-lower s) (trim_end-lower (trim_start s))

before_end-trim_end :
    (c : ℕ) (s : Str) → trim_end s ≡ s → trim_end (before_end c s) ≡ before_end c s
unfolding trim_end
before_end-trim_end c [] h = ground arith
before_end-trim_end c (d ∷ s) h = rw h

trim_end_idem : (s : Str) → trim_end (trim_end s) ≡ trim_end s
unfolding trim_end
trim_end_idem [] = refl
trim_end_idem (c ∷ s) = before_end-trim_end c (trim_end s) (trim_end_idem s)

-- Text that begins with a character which is kept still begins with it once its end is trimmed.
trim_start-before_end :
    (c : ℕ) (s : Str) → is_whitespace c ≡ false → trim_start (before_end c s) ≡ before_end c s
unfolding trim_start
trim_start-before_end c [] h = ground arith
trim_start-before_end c (d ∷ s) h = ground arith

trim_start-trim_end : (s : Str) → trim_start (trim_end (trim_start s)) ≡ trim_end (trim_start s)
unfolding trim_start trim_end
trim_start-trim_end [] = refl
trim_start-trim_end (c ∷ s) = elim (Bool-cases (is_whitespace c)) [
  | inl blank ↦ rw blank (trim_start-trim_end s)
  | inr kept ↦ rw kept (trim_start-before_end c (trim_end s) kept)
]

-- Trimming twice is trimming once.
pub trim_idem : (s : Str) → trim (trim s) ≡ trim s
unfolding trim
trim_idem s = ap trim_end (trim_start-trim_end s) ∙ trim_end_idem (trim_start s)

-- The normal form of an email or a channel name, `trim().to_ascii_lowercase()`.
unfoldable pub normalize : Str → Str
normalize s = to_ascii_lowercase (trim s)

pub trim-normalize : (s : Str) → trim (normalize s) ≡ normalize s
unfolding normalize
trim-normalize s = rw (trim-to_ascii_lowercase (trim s), trim_idem s)

pub lower-normalize : (s : Str) → to_ascii_lowercase (normalize s) ≡ normalize s
unfolding normalize
lower-normalize s = to_ascii_lowercase_idem (trim s)

pub normalize_idem : (s : Str) → normalize (normalize s) ≡ normalize s
normalize_idem s = unfold normalize in rw (trim-normalize s) (lower-normalize s)
