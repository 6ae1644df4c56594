-- ===== src/Common/Eq.antt =====
-- Boolean equality as an interface: the derived `PartialEq` and `Hash` of the keys that the
-- program puts in its maps and sets (numbers for `Uuid`, texts, and tuples of these).
use Prim.Native.Nat.{ℕ}
use mathlib.Core.Path.{◌≡◌, refl}
use mathlib.Core.Logic.{◌↔◌}
use mathlib.Core.Bool.{Bool, true, false, ◌&&◌}
use mathlib.Core.List.{List, [], ◌∷◌}
use native.Mathlib.Omega.{arith}
use galynx_api.Common.Tests.{eqb, eqb_iff}

pub record HasEq {ℓ} (A : Type ℓ) : Type ℓ where
  pub same : A → A → Bool
  pub agrees : (a b : A) → (same a b ≡ true) ↔ (a ≡ b)

-- `==` of the program.
infix 50 ◌==◌
abbrev pub ◌==◌ {ℓ} : {A : Type ℓ} ⦃class : HasEq A⦄ → A → A → Bool
◌==◌ ⦃class⦄ x y = class.same x y

module _ {ℓ} {A : Type ℓ} ⦃e : HasEq A⦄ where
  pub ==_iff : (a b : A) → ((a == b) ≡ true) ↔ (a ≡ b)
  ==_iff a b = e.agrees a b

  pub ==_refl : (a : A) → (a == a) ≡ true
  ==_refl a = (e.agrees a a).1 refl

  abbrev pub list_beq : List A → List A → Bool
  list_beq [] [] = true
  list_beq [] (y ∷ ys) = false
  list_beq (x ∷ xs) [] = false
  list_beq (x ∷ xs) (y ∷ ys) = (x == y) && list_beq xs ys

  pub list_beq_iff : (xs ys : List A) → (list_beq xs ys ≡ true) ↔ (xs ≡ ys)
  list_beq_iff [] [] = ground arith
  list_beq_iff [] (y ∷ ys) = ground arith
  list_beq_iff (x ∷ xs) [] = ground arith
  list_beq_iff (x ∷ xs) (y ∷ ys) = ground (arith, e.agrees x y, list_beq_iff xs ys)

instance abbrev pub nat_eq : HasEq ℕ
nat_eq = record { same = eqb; agrees = eqb_iff }

-- Texts are lists of code points; the test stays shut, so that no proof walks them.
unfoldable pub text_beq : List ℕ → List ℕ → Bool
text_beq = list_beq

pub text_beq_iff : (s t : List ℕ) → (text_beq s t ≡ true) ↔ (s ≡ t)
unfolding text_beq
text_beq_iff s t = list_beq_iff s t

instance abbrev pub text_eq : HasEq (List ℕ)
text_eq = record { same = text_beq; agrees = text_beq_iff }

module _ {A B : Type 0} ⦃d : HasEq A⦄ ⦃e : HasEq B⦄ where
  abbrev pub pair_beq : A × B → A × B → Bool
  pair_beq (a, b) (a', b') = (a == a') && (b == b')

  pub pair_beq_iff : (p q : A × B) → (pair_beq p q ≡ true) ↔ (p ≡ q)
  pair_beq_iff p q = ground (arith, d.agrees p.0 q.0, e.agrees p.1 q.1)

  instance abbrev pub pair_eq : HasEq (A × B)
  pair_eq = record { same = pair_beq; agrees = pair_beq_iff }
