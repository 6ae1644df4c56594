-- ===== src/Paging.antt =====
-- The cursor pagination that src/channels.rs (`list_messages`, `list_thread_replies`) and
-- src/audit.rs (`list`) share: newest first, a page limit between 1 and 100, and a cursor
-- `timestamp:id` that names the last item of the page before.
pub mod Order
pub mod Cursor
pub mod Walk
pub mod Size
use Prim.Native.Nat.{ℕ, ◌+◌}
use mathlib.Core.Bool.{Bool, true, false}
use mathlib.Core.Logic.{◌⊎◌, inl, inr}
use mathlib.Core.Option.{Option, none, some}
use mathlib.Core.List.{List, [], ◌∷◌, ◌++◌}
use galynx_api.Common.{ℤ, ltb, ltb_ℤ, if◌then◌else◌, length, take, last, filter}
use galynx_api.Text.{Str, text, split}
use galynx_api.Text.Decimal.{print_ℕ, print_ℤ, parse_i64, parse_u128}
use galynx_api.Errors.{ApiError, bad_request, ApiResult, ok, err}

-- The time and the identifier of an item, compared in that order.
abbrev pub CursorKey : Type 0
CursorKey = ℤ × ℕ

abbrev pub key_lt : CursorKey → CursorKey → Bool
key_lt a b = if ltb_ℤ a.0 b.0 then true else if ltb_ℤ b.0 a.0 then false else ltb a.1 b.1

-- `MessageQuery` and `AuditQuery`
pub record MessageQuery : Type 0 where
  pub cursor : Option Str
  pub limit : Option ℕ

-- `query.limit.unwrap_or(50).clamp(1, 100)`
unfoldable pub page_limit : Option ℕ → ℕ
page_limit none = 50
page_limit (some n) = if ltb n 1 then 1 else if ltb 100 n then 100 else n

-- `format!("{}:{}", created_at, id.as_u128())`
unfoldable pub format_cursor : CursorKey → Str
format_cursor k = print_ℤ k.0 ++ (b':' ∷ print_ℕ k.1)

abbrev id_segment : ℤ → List Str → Str ⊎ CursorKey
id_segment created_at [] = inl (text "missing id")
id_segment created_at (s ∷ rest) = elim (parse_u128 s) [
  | none ↦ inl (text "invalid id")
  | some id ↦ inr (created_at, id)
]

abbrev from_segments : List Str → Str ⊎ CursorKey
from_segments [] = inl (text "missing timestamp")
from_segments (s ∷ rest) = elim (parse_i64 s) [
  | none ↦ inl (text "invalid timestamp")
  | some created_at ↦ id_segment created_at rest
]

-- Segments behind the second one are ignored.
unfoldable pub parse_cursor : Str → Str ⊎ CursorKey
parse_cursor cursor = from_segments (split b':' cursor)

abbrev pub cursor_error : Str ⊎ CursorKey → ApiResult (Option CursorKey)
cursor_error (inl error) = err (bad_request (text "invalid cursor: " ++ error))
cursor_error (inr k) = ok (some k)

-- `.map(parse_cursor).transpose().map_err(…)`
unfoldable pub parse_before : Option Str → ApiResult (Option CursorKey)
parse_before none = ok none
parse_before (some c) = cursor_error (parse_cursor c)

-- `before.is_none_or(…)`
abbrev pub is_before : Option CursorKey → CursorKey → Bool
is_before none k = true
is_before (some c) k = key_lt k c

module _ {A : Type 0} (key : A → CursorKey) where
  -- One step of the stable sort: an item goes in front of those that are not newer.
  abbrev pub insert_newest : A → List A → List A
  insert_newest x [] = x ∷ []
  insert_newest x (y ∷ ys) = if key_lt (key x) (key y) then y ∷ insert_newest x ys else x ∷ y ∷ ys

  -- `sort_by(|a, b| b.created_at.cmp(&a.created_at).then_with(|| b.id.cmp(&a.id)))`
  unfoldable pub newest_first : List A → List A
  newest_first [] = []
  newest_first (x ∷ xs) = insert_newest x (newest_first xs)

  abbrev pub cursor_of : Option A → Option Str
  cursor_of none = none
  cursor_of (some x) = some (format_cursor (key x))

  -- The page and the cursor behind it, from the sorted items.
  unfoldable pub page : ℕ → Option CursorKey → List A → List A × Option Str
  page limit before sorted =
      let filtered = take (limit + 1) (filter (λ x. is_before before (key x)) sorted) in
      let items = take limit filtered in
      (items, if ltb limit (length filtered) then cursor_of (last items) else none)
