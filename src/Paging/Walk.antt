-- ===== src/Paging/Walk.antt =====
-- Following the cursors from page to page, as a client does.
use Prim.Native.Nat.{ℕ, zero, suc, ◌+◌, ◌≤◌, ◌<◌}
use mathlib.Core.Path.{◌≡◌, refl, ap, ◌∙◌, sym, subst}
use mathlib.Core.Logic.{inl, inr}
use mathlib.Core.Bool.{true, false}
use mathlib.Core.Option.{Option, none, some}
use mathlib.Core.List.{List, [], ◌∷◌, ◌++◌}
use native.Mathlib.Omega.{arith}
use galynx_api.Common.{
  ltb, length, take, drop, last, filter, All, Bool-cases, filter-All, take_all, take-take_suc,
  take-append-drop, All-filter_self, All-filter,
}
use galynx_api.Text.{Str}
use galynx_api.Errors.{ApiError, ApiResult, ok, err}
use galynx_api.Paging.{CursorKey, key_lt, is_before, page, parse_before, format_cursor, page_limit}
use galynx_api.Paging.Order.{
  key_lt_irrefl, key_lt_trans, key_lt_asymm, IsDescending, filter-IsDescending,
}
use galynx_api.Paging.Cursor.{IsInRange, parse_before-format_cursor}

-- The limit of a page is between 1 and 100, whatever limit is asked for.
pub page_limit_bounds : (n : Option ℕ) → (1 ≤ page_limit n) × (page_limit n ≤ 100)
unfolding page_limit
page_limit_bounds none = omega arith
page_limit_bounds (some n) = ground arith

All-last_take :
    {A : Type 0} (P : A → Type 0) (n : ℕ) (xs : List A) {z : A}
    → All P xs
    → last (take n xs) ≡ some z
    → P z
All-last_take P zero xs h e = cc
All-last_take P (suc n) [] h e = cc
All-last_take P (suc zero) (x ∷ xs) h e = subst P (cc) h.0
All-last_take P (suc (suc n)) (x ∷ []) h e = subst P (cc) h.0
All-last_take P (suc (suc n)) (x ∷ y ∷ ys) h e = All-last_take P (suc n) (y ∷ ys) h.1 e

last-take-some :
    {A : Type 0} (n : ℕ) (xs : List A)
    → 1 ≤ n
    → 1 ≤ length xs
    → (z : A) × (last (take n xs) ≡ some z)
last-take-some zero xs h k = absurd (omega arith)
last-take-some (suc n) [] h k = absurd (omega arith)
last-take-some (suc zero) (x ∷ xs) h k = (x, refl)
last-take-some (suc (suc n)) (x ∷ []) h k = (x, refl)
last-take-some (suc (suc n)) (x ∷ y ∷ ys) h k =
    last-take-some (suc n) (y ∷ ys) (omega arith) (omega arith)

length-drop_lt :
    {A : Type 0} (n : ℕ) (xs : List A) → 1 ≤ n → 1 ≤ length xs → length (drop n xs) < length xs
length-drop_lt zero xs h k = absurd (omega arith)
length-drop_lt (suc n) [] h k = absurd (omega arith)
length-drop_lt (suc zero) (x ∷ xs) h k = omega arith
length-drop_lt (suc (suc n)) (x ∷ []) h k = omega arith
length-drop_lt (suc (suc n)) (x ∷ y ∷ ys) h k =
    omega (arith, length-drop_lt (suc n) (y ∷ ys) (omega arith) (omega arith))

ltb-length-take_suc :
    {A : Type 0} (n : ℕ) (xs : List A) → ltb n (length (take (n + 1) xs)) ≡ ltb n (length xs)
ltb-length-take_suc zero [] = refl
ltb-length-take_suc zero (x ∷ xs) = ground arith
ltb-length-take_suc (suc n) [] = ground arith
ltb-length-take_suc (suc n) (x ∷ xs) = ground (arith, ltb-length-take_suc n xs)

module _ {A : Type 0} (key : A → CursorKey) where
  -- The last item of a non-empty front of a list that descends splits the list by its key.
  filter-last-take :
      (n : ℕ) (xs : List A) (z : A)
      → IsDescending key xs
      → last (take (suc n) xs) ≡ some z
      → filter (λ x. key_lt (key x) (key z)) xs ≡ drop (suc n) xs
  filter-last-take n [] z d e = ground arith
  filter-last-take zero (x ∷ xs) z d e =
      let same : x ≡ z = cc in
      subst (λ w. filter (λ y. key_lt (key y) (key w)) (x ∷ xs) ≡ xs) same
        (rw (key_lt_irrefl (key x)) (filter-All _ xs d.0))
  filter-last-take (suc n) (x ∷ []) z d e =
      let same : x ≡ z = cc in
      subst (λ w. filter (λ y. key_lt (key y) (key w)) (x ∷ []) ≡ []) same
        (rw (key_lt_irrefl (key x)))
  filter-last-take (suc n) (x ∷ y ∷ ys) z d e =
      let below = All-last_take (λ w. key_lt (key w) (key x) ≡ true) (suc n) (y ∷ ys) d.0 e in
      rw (key_lt_asymm (key z) (key x) below) (filter-last-take n (y ∷ ys) z d.1 e)

  -- A later cursor asks for less than an earlier one.
  filter-later :
      (before : Option CursorKey) (z : A) (xs : List A)
      → is_before before (key z) ≡ true
      → filter (λ x. key_lt (key x) (key z)) (filter (λ x. is_before before (key x)) xs)
        ≡ filter (λ x. key_lt (key x) (key z)) xs
  filter-later none z [] h = refl
  filter-later none z (x ∷ xs) h = ground (arith, filter-later none z xs h)
  filter-later (some c) z [] h = refl
  filter-later (some c) z (x ∷ xs) h =
      ground (arith, filter-later (some c) z xs h, key_lt_trans (key x) (key z) c)

  -- The last page, and any other: with the items that a cursor leaves.
  abbrev rest_of : Option CursorKey → List A → List A
  rest_of before sorted = filter (λ x. is_before before (key x)) sorted

  page_last :
      (limit : ℕ) (before : Option CursorKey) (sorted : List A)
      → ltb limit (length (rest_of before sorted)) ≡ false
      → page key limit before sorted ≡ (rest_of before sorted, none)
  unfolding page
  page_last limit before sorted h =
      rw (ltb-length-take_suc limit (rest_of before sorted), h, take-take_suc)
        (ap (λ (items : List A). (items, none)) (take_all limit _ (ground arith)))

  page_more :
      (limit : ℕ) (before : Option CursorKey) (sorted : List A) {z : A}
      → ltb limit (length (rest_of before sorted)) ≡ true
      → last (take limit (rest_of before sorted)) ≡ some z
      → page key limit before sorted
        ≡ (take limit (rest_of before sorted), some (format_cursor (key z)))
  unfolding page
  page_more limit before sorted h e =
      rw (ltb-length-take_suc limit (rest_of before sorted), h, take-take_suc, e)

  -- What a client collects that asks for a page, and then for the next one until there is no
  -- cursor. A cursor that is refused ends the walk.
  abbrev resume : (Option CursorKey → List A) → ApiResult (Option CursorKey) → List A
  resume k (ok before) = k before
  resume k (err e) = []

  unfoldable pub walk : ℕ → ℕ → List A → Option CursorKey → List A
  walk zero limit sorted before = []
  walk (suc f) limit sorted before =
      let (items, next) = page key limit before sorted in
      elim next [
        | none ↦ items
        | some c ↦ items ++ resume (walk f limit sorted) (parse_before (some c))
      ]

  pub walk_last :
      (f limit : ℕ) (sorted : List A) (before : Option CursorKey) {items : List A}
      → page key limit before sorted ≡ (items, none)
      → walk (suc f) limit sorted before ≡ items
  unfolding walk
  walk_last f limit sorted before h = rw (h, walk) (ap (λ (p : List A × Option Str). p.0) h)

  pub walk_more :
      (f limit : ℕ) (sorted : List A) (before : Option CursorKey) {items : List A} {c : Str}
      {next : Option CursorKey}
      → page key limit before sorted ≡ (items, some c)
      → parse_before (some c) ≡ ok next
      → walk (suc f) limit sorted before ≡ items ++ walk f limit sorted next
  unfolding walk
  walk_more f limit sorted before {next = next} h k =
      rw (h, walk, k) (ap (λ (p : List A × Option Str). p.0 ++ walk f limit sorted next) h)

  pub walk_refused :
      (f limit : ℕ) (sorted : List A) (before : Option CursorKey) {items : List A} {c : Str}
      {e : ApiError}
      → page key limit before sorted ≡ (items, some c)
      → parse_before (some c) ≡ err e
      → walk (suc f) limit sorted before ≡ items ++ []
  unfolding walk
  walk_refused f limit sorted before h k =
      rw (h, walk, k) (ap (λ (p : List A × Option Str). p.0 ++ []) h)

  rest_of-last :
      (limit : ℕ) (before : Option CursorKey) (sorted : List A) {z : A}
      → 1 ≤ limit
      → IsDescending key sorted
      → last (take limit (rest_of before sorted)) ≡ some z
      → rest_of (some (key z)) sorted ≡ drop limit (rest_of before sorted)
  rest_of-last zero before sorted l d e = absurd (omega arith)
  rest_of-last (suc n) before sorted {z} l d e =
      let inside =
        All-last_take (λ x. is_before before (key x) ≡ true) (suc n) (rest_of before sorted)
          (All-filter_self (λ x. is_before before (key x)) sorted) e in
      sym (filter-later before z sorted inside)
      ∙ filter-last-take n (rest_of before sorted) z
          (filter-IsDescending key (λ x. is_before before (key x)) sorted d) e

  -- With one round for each item and one more, the walk collects every item behind the cursor
  -- that it starts with, once and in order.
  pub walk-filter :
      (f limit : ℕ) (sorted : List A) (before : Option CursorKey)
      → 1 ≤ limit
      → IsDescending key sorted
      → All (λ x. IsInRange (key x)) sorted
      → length (rest_of before sorted) < f
      → walk f limit sorted before ≡ rest_of before sorted
  unfolding walk
  walk-filter zero limit sorted before l d r h = absurd (omega arith)
  walk-filter (suc f) limit sorted before l d r h =
      elim (Bool-cases (ltb limit (length (rest_of before sorted)))) [
        | inr fits ↦ walk_last f limit sorted before (page_last limit before sorted fits)
        | inl more ↦
            let long : 1 ≤ length (rest_of before sorted) = ground arith in
            let (z, e) = last-take-some limit (rest_of before sorted) l long in
            let inside =
              All-last_take (λ x. IsInRange (key x)) limit (rest_of before sorted)
                (All-filter _ (λ x. is_before before (key x)) sorted r) e in
            let next = rest_of-last limit before sorted l d e in
            let shorter = length-drop_lt limit (rest_of before sorted) l long in
            let behind : walk f limit sorted (some (key z)) ≡ drop limit (rest_of before sorted) =
              walk-filter f limit sorted (some (key z)) l d r (rw next (omega arith)) ∙ next in
            walk_more f limit sorted before (page_more limit before sorted more e)
              (parse_before-format_cursor (key z) inside)
            ∙ ap (◌++◌ (take limit (rest_of before sorted))) behind
            ∙ take-append-drop limit (rest_of before sorted)
      ]
