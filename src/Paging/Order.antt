-- ===== src/Paging/Order.antt =====
-- The order of the cursor keys, and the sort by it.
use mathlib.Core.Path.{◌≡◌, refl, sym, ap, ◌∙◌}
use mathlib.Core.Logic.{◌≢◌, inl, inr}
use mathlib.Core.Bool.{Bool, true, false}
use mathlib.Core.List.{List, [], ◌∷◌}
use native.Mathlib.Omega.{arith}
use galynx_api.Common.{All, filter, Bool-cases, All-map_pred, All-filter}
use galynx_api.Paging.{CursorKey, key_lt, insert_newest, newest_first}

pub key_lt_irrefl : (a : CursorKey) → key_lt a a ≡ false
key_lt_irrefl a = ground arith

pub key_lt_trans : (a b c : CursorKey) → key_lt a b ≡ true → key_lt b c ≡ true → key_lt a c ≡ true
key_lt_trans a b c h k = ground arith

pub key_lt_asymm : (a b : CursorKey) → key_lt a b ≡ true → key_lt b a ≡ false
key_lt_asymm a b h = ground arith

pub key_lt_total : (a b : CursorKey) → a ≢ b → key_lt a b ≡ false → key_lt b a ≡ true
key_lt_total a b h k = ground arith

key_lt_below : (a b c : CursorKey) → key_lt a b ≡ false → key_lt c b ≡ true → key_lt a c ≡ false
key_lt_below a b c h k = ground arith

module _ {A : Type 0} (key : A → CursorKey) where
  -- Each item is newer than all behind it.
  abbrev pub IsDescending : List A → Type 0
  IsDescending [] = Unit
  IsDescending (x ∷ xs) = All (λ y. key_lt (key y) (key x) ≡ true) xs × IsDescending xs

  abbrev pub HasDistinctKeys : List A → Type 0
  HasDistinctKeys [] = Unit
  HasDistinctKeys (x ∷ xs) = All (λ y. key x ≢ key y) xs × HasDistinctKeys xs

  insert_newest-All :
      (P : A → Type 0) (x : A) (xs : List A) → P x → All P xs → All P (insert_newest key x xs)
  insert_newest-All P x [] p h = (p, tt)
  insert_newest-All P x (y ∷ ys) p h = ground (arith, insert_newest-All P x ys p h.1)

  -- The sort keeps what holds of every item.
  pub newest_first-All : (P : A → Type 0) (xs : List A) → All P xs → All P (newest_first key xs)
  unfolding newest_first
  newest_first-All P [] h = tt
  newest_first-All P (x ∷ xs) h =
      insert_newest-All P x (newest_first key xs) h.0 (newest_first-All P xs h.1)

  insert_newest-IsDescending :
      (x : A) (xs : List A)
      → All (λ y. key x ≢ key y) xs
      → IsDescending xs
      → IsDescending (insert_newest key x xs)
  insert_newest-IsDescending x [] h d = (tt, tt)
  insert_newest-IsDescending x (y ∷ ys) h d = elim (Bool-cases (key_lt (key x) (key y))) [
    | inl older ↦ rw older (
      insert_newest-All (λ z. key_lt (key z) (key y) ≡ true) x ys older d.0,
      insert_newest-IsDescending x ys h.1 d.1,
    )
    | inr newer ↦
        let above = key_lt_total (key x) (key y) h.0 newer in
        rw newer (
          (
            above,
            All-map_pred
                (λ (z : A) (lt : key_lt (key z) (key y) ≡ true).
                  key_lt_trans (key z) (key y) (key x) lt above)
                ys d.0,
          ),
          d,
        )
  ]

  -- With no two keys alike the sorted list descends.
  pub newest_first-IsDescending :
      (xs : List A) → HasDistinctKeys xs → IsDescending (newest_first key xs)
  unfolding newest_first
  newest_first-IsDescending [] h = tt
  newest_first-IsDescending (x ∷ xs) h =
      insert_newest-IsDescending x (newest_first key xs)
        (newest_first-All (λ y. key x ≢ key y) xs h.0) (newest_first-IsDescending xs h.1)

  insert_newest_front :
      (x : A) (xs : List A)
      → All (λ z. key_lt (key x) (key z) ≡ false) xs
      → insert_newest key x xs ≡ x ∷ xs
  insert_newest_front x [] h = refl
  insert_newest_front x (y ∷ ys) h = rw h.0

  -- What is not newer than `y` has nothing newer among the items behind `y`.
  front_of_below :
      (x y : A) (ys : List A)
      → key_lt (key x) (key y) ≡ false
      → All (λ z. key_lt (key z) (key y) ≡ true) ys
      → All (λ z. key_lt (key x) (key z) ≡ false) ys
  front_of_below x y [] h d = tt
  front_of_below x y (z ∷ zs) h d =
      (key_lt_below (key x) (key y) (key z) h d.0, front_of_below x y zs h d.1)

  insert_newest-filter_in :
      (p : A → Bool) (x : A) (xs : List A)
      → p x ≡ true
      → IsDescending xs
      → filter p (insert_newest key x xs) ≡ insert_newest key x (filter p xs)
  insert_newest-filter_in p x [] h d = rw h
  insert_newest-filter_in p x (y ∷ ys) h d = elim (Bool-cases (key_lt (key x) (key y))) [
    | inl older ↦ elim (Bool-cases (p y)) [
      | inl kept ↦ rw (older, kept, older) (ap (◌∷◌ y) (insert_newest-filter_in p x ys h d.1))
      | inr gone ↦ rw (older, gone) (insert_newest-filter_in p x ys h d.1)
    ]
    | inr newer ↦ elim (Bool-cases (p y)) [
      | inl kept ↦ rw (newer, h, kept, newer)
      | inr gone ↦
          rw (newer, h, gone)
            (sym (
              insert_newest_front x (filter p ys)
                (All-filter _ p ys (front_of_below x y ys newer d.0))))
    ]
  ]

  insert_newest-filter_out :
      (p : A → Bool) (x : A) (xs : List A)
      → p x ≡ false
      → filter p (insert_newest key x xs) ≡ filter p xs
  insert_newest-filter_out p x [] h = rw h
  insert_newest-filter_out p x (y ∷ ys) h = ground (arith, insert_newest-filter_out p x ys h)

  -- Sorting and then filtering is filtering and then sorting.
  pub newest_first-filter :
      (p : A → Bool) (xs : List A)
      → HasDistinctKeys xs
      → filter p (newest_first key xs) ≡ newest_first key (filter p xs)
  unfolding newest_first
  newest_first-filter p [] h = refl
  newest_first-filter p (x ∷ xs) h = elim (Bool-cases (p x)) [
    | inl kept ↦ rw kept (
        insert_newest-filter_in p x (newest_first key xs) kept (newest_first-IsDescending xs h.1)
        ∙ ap (insert_newest key x) (newest_first-filter p xs h.1))
    | inr gone ↦
        rw gone
          (insert_newest-filter_out p x (newest_first key xs) gone ∙ newest_first-filter p xs h.1)
  ]

  pub HasDistinctKeys-filter :
      (p : A → Bool) (xs : List A) → HasDistinctKeys xs → HasDistinctKeys (filter p xs)
  HasDistinctKeys-filter p [] h = tt
  HasDistinctKeys-filter p (x ∷ xs) h = elim (Bool-cases (p x)) [
    | inl kept ↦ rw kept (All-filter _ p xs h.0, HasDistinctKeys-filter p xs h.1)
    | inr gone ↦ rw gone (HasDistinctKeys-filter p xs h.1)
  ]

  pub filter-IsDescending :
      (p : A → Bool) (xs : List A) → IsDescending xs → IsDescending (filter p xs)
  filter-IsDescending p [] d = tt
  filter-IsDescending p (x ∷ xs) d = elim (Bool-cases (p x)) [
    | inl kept ↦ rw kept (All-filter _ p xs d.0, filter-IsDescending p xs d.1)
    | inr gone ↦ rw gone (filter-IsDescending p xs d.1)
  ]
