-- ===== src/Paging/Size.antt =====
-- src/channels.rs and src/audit.rs: how many items a page holds, and when there is a next one.
use Prim.Native.Nat.{ℕ, zero, suc, ◌+◌, ◌≤◌}
use mathlib.Core.Path.{◌≡◌, refl, ◌∙◌}
use mathlib.Core.Logic.{inl, inr}
use mathlib.Core.Bool.{Bool, true}
use mathlib.Core.Option.{Option}
use mathlib.Core.List.{List, [], ◌∷◌}
use native.Mathlib.Omega.{arith}
use galynx_api.Common.{ltb, if◌then◌else◌, length, take, last, filter, is_some, Bool-cases}
use galynx_api.Paging.{CursorKey, newest_first, insert_newest, page, is_before, cursor_of}

-- The smaller of two numbers.
abbrev pub at_most : ℕ → ℕ → ℕ
at_most limit n = if ltb limit n then limit else n

module _ {A : Type 0} where
  length-take : (n : ℕ) (xs : List A) → length (take n xs) ≡ at_most n (length xs)
  length-take zero xs = ground arith
  length-take (suc n) [] = ground arith
  length-take (suc n) (x ∷ xs) = ground (arith, length-take n xs)

  module _ (key : A → CursorKey) where
    cursor_exists : (xs : List A) → 1 ≤ length xs → is_some (cursor_of key (last xs)) ≡ true
    cursor_exists [] h = ground arith
    cursor_exists (x ∷ []) h = refl
    cursor_exists (x ∷ y ∷ ys) h = cursor_exists (y ∷ ys) (omega arith)

    length-insert_newest :
        (p : A → Bool) (x : A) (xs : List A)
        → length (filter p (insert_newest key x xs)) ≡ length (filter p (x ∷ xs))
    length-insert_newest p x [] = refl
    length-insert_newest p x (y ∷ ys) = ground (arith, length-insert_newest p x ys)

    length-newest_first :
        (p : A → Bool) (xs : List A)
        → length (filter p (newest_first key xs)) ≡ length (filter p xs)
    unfolding newest_first
    length-newest_first p [] = refl
    length-newest_first p (x ∷ xs) =
        length-insert_newest p x (newest_first key xs) ∙ ground (arith, length-newest_first p xs)

    -- The items that a page has to show.
    abbrev pub matching : Option CursorKey → List A → ℕ
    matching before xs = length (filter (λ x. is_before before (key x)) xs)

    pub page-length :
        (limit : ℕ) (before : Option CursorKey) (xs : List A)
        → 1 ≤ limit
        → (length (page key limit before (newest_first key xs)).0
            ≡ at_most limit (matching before xs))
          × (is_some (page key limit before (newest_first key xs)).1
              ≡ ltb limit (matching before xs))
    unfolding page
    page-length limit before xs h =
        let p : A → Bool = λ x. is_before before (key x) in
        let found = filter p (newest_first key xs) in
        let count = length-newest_first p xs in
        let cut = length-take (limit + 1) found in
        let kept = length-take limit (take (limit + 1) found) in
        (
          ground (arith, count, cut, kept),
          elim (Bool-cases (ltb limit (length (take (limit + 1) found)))) [
            | inl more ↦ rw more (
                cursor_exists (take limit (take (limit + 1) found)) (ground (arith, more, kept, h))
                ∙ ground (arith, more, count, cut))
            | inr less ↦ rw less (ground (arith, less, count, cut))
          ],
        )
