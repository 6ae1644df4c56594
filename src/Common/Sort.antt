-- ===== src/Common/Sort.antt =====
-- `sort_by`, a stable sort, and `sort_unstable` with `dedup` on numbers.
use Prim.Native.Nat.{ℕ}
use mathlib.Core.Path.{◌≡◌, refl, ◌∙◌}
use mathlib.Core.Logic.{inl, inr}
use mathlib.Core.Bool.{Bool, true, false}
use mathlib.Core.List.{List, [], ◌∷◌}
use native.Mathlib.Omega.{arith}
use galynx_api.Common.Tests.{ltb, eqb, if◌then◌else◌, Bool-cases}
use galynx_api.Common.Lists.{All}

module _ {A : Type 0} (lt : A → A → Bool) where
  -- An item goes in front of those that are not less.
  abbrev pub insert_by : A → List A → List A
  insert_by x [] = x ∷ []
  insert_by x (y ∷ ys) = if lt y x then y ∷ insert_by x ys else x ∷ y ∷ ys

  unfoldable pub sort_by : List A → List A
  sort_by [] = []
  sort_by (x ∷ xs) = insert_by x (sort_by xs)

  insert_by-All : (P : A → Type 0) (x : A) (xs : List A) → P x → All P xs → All P (insert_by x xs)
  insert_by-All P x [] p h = (p, tt)
  insert_by-All P x (y ∷ ys) p h = ground (arith, insert_by-All P x ys p h.1)

  pub sort_by-All : (P : A → Type 0) (xs : List A) → All P xs → All P (sort_by xs)
  unfolding sort_by
  sort_by-All P [] h = tt
  sort_by-All P (x ∷ xs) h = insert_by-All P x (sort_by xs) h.0 (sort_by-All P xs h.1)

-- `Vec::dedup` after the first element
abbrev dedup_from : ℕ → List ℕ → List ℕ
dedup_from x [] = []
dedup_from x (y ∷ ys) = if eqb x y then dedup_from x ys else y ∷ dedup_from y ys

unfoldable pub dedup : List ℕ → List ℕ
dedup [] = []
dedup (x ∷ xs) = x ∷ dedup_from x xs

-- `users.sort_unstable(); users.dedup();`
unfoldable pub sort_dedup : List ℕ → List ℕ
unfolding sort_by dedup
sort_dedup xs = dedup (sort_by ltb xs)

-- Ascending with no repetition.
abbrev pub IsIncreasing : List ℕ → Type 0
IsIncreasing [] = Unit
IsIncreasing (x ∷ xs) = All (λ y. ltb x y ≡ true) xs × IsIncreasing xs

abbrev pub IsAscending : List ℕ → Type 0
IsAscending [] = Unit
IsAscending (x ∷ xs) = All (λ y. ltb y x ≡ false) xs × IsAscending xs

abbrev pub member : ℕ → List ℕ → Bool
member x [] = false
member x (y ∷ ys) = if eqb y x then true else member x ys

ltb-trans_false : (x y z : ℕ) → ltb y x ≡ false → ltb z y ≡ false → ltb z x ≡ false
ltb-trans_false x y z h k = ground arith

All-below :
    (x y : ℕ) (ys : List ℕ)
    → ltb y x ≡ false
    → All (λ z. ltb z y ≡ false) ys
    → All (λ z. ltb z x ≡ false) ys
All-below x y [] h k = tt
All-below x y (z ∷ zs) h k = (ltb-trans_false x y z h k.0, All-below x y zs h k.1)

insert_by-IsAscending : (x : ℕ) (xs : List ℕ) → IsAscending xs → IsAscending (insert_by ltb x xs)
insert_by-IsAscending x [] h = (tt, tt)
insert_by-IsAscending x (y ∷ ys) h = ground (
  arith,
  insert_by-IsAscending x ys h.1,
  insert_by-All ltb (λ z. ltb z y ≡ false) x ys,
  All-below x y ys,
)

sort_by-IsAscending : (xs : List ℕ) → IsAscending (sort_by ltb xs)
unfolding sort_by
sort_by-IsAscending [] = tt
sort_by-IsAscending (x ∷ xs) = insert_by-IsAscending x (sort_by ltb xs) (sort_by-IsAscending xs)

member-insert_by : (z x : ℕ) (xs : List ℕ) → member z (insert_by ltb x xs) ≡ member z (x ∷ xs)
member-insert_by z x [] = refl
member-insert_by z x (y ∷ ys) = ground (arith, member-insert_by z x ys)

member-sort_by : (z : ℕ) (xs : List ℕ) → member z (sort_by ltb xs) ≡ member z xs
unfolding sort_by
member-sort_by z [] = refl
member-sort_by z (x ∷ xs) =
    ground (arith, member-insert_by z x (sort_by ltb xs), member-sort_by z xs)

member-dedup_from :
    (z x : ℕ) (xs : List ℕ)
    → (if eqb x z then true else member z (dedup_from x xs))
      ≡ (if eqb x z then true else member z xs)
member-dedup_from z x [] = refl
member-dedup_from z x (y ∷ ys) = ground (arith, member-dedup_from z x ys, member-dedup_from z y ys)

-- Sorting and removing repetitions keeps the members.
pub member-sort_dedup : (z : ℕ) (xs : List ℕ) → member z (sort_dedup xs) ≡ member z xs
unfolding sort_dedup
member-sort_dedup z xs = member_dedup (sort_by ltb xs) ∙ member-sort_by z xs
  where
    member_dedup : (ys : List ℕ) → member z (dedup ys) ≡ member z ys
    member_dedup [] = refl
    member_dedup (y ∷ ys) = member-dedup_from z y ys

ltb_trans : (x y z : ℕ) → ltb x y ≡ true → ltb y z ≡ true → ltb x z ≡ true
ltb_trans x y z h k = ground arith

All-above :
    (x y : ℕ) (ys : List ℕ)
    → ltb x y ≡ true
    → All (λ z. ltb y z ≡ true) ys
    → All (λ z. ltb x z ≡ true) ys
All-above x y [] h k = tt
All-above x y (z ∷ zs) h k = (ltb_trans x y z h k.0, All-above x y zs h k.1)

-- In an ascending list without the last value taken, what is left is above that value.
dedup_from-above :
    (x : ℕ) (xs : List ℕ)
    → All (λ y. ltb y x ≡ false) xs
    → IsAscending xs
    → All (λ y. ltb x y ≡ true) (dedup_from x xs) × IsIncreasing (dedup_from x xs)
dedup_from-above x [] h s = (tt, tt)
dedup_from-above x (y ∷ ys) h s = elim (Bool-cases (eqb x y)) [
  | inl same ↦ rw same (dedup_from-above x ys h.1 s.1)
  | inr apart ↦
      let (above, rest) = dedup_from-above y ys s.0 s.1 in
      let less : ltb x y ≡ true = ground arith in
      rw apart ((less, All-above x y (dedup_from y ys) less above), (above, rest))
]

-- The result ascends strictly, so no member is listed twice.
pub sort_dedup-IsIncreasing : (xs : List ℕ) → IsIncreasing (sort_dedup xs)
unfolding sort_dedup
sort_dedup-IsIncreasing xs = dedup-IsIncreasing (sort_by ltb xs) (sort_by-IsAscending xs)
  where
    dedup-IsIncreasing : (ys : List ℕ) → IsAscending ys → IsIncreasing (dedup ys)
    dedup-IsIncreasing [] h = tt
    dedup-IsIncreasing (y ∷ ys) h = dedup_from-above y ys h.0 h.1
