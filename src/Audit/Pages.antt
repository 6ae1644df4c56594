-- ===== src/Audit/Pages.antt =====
-- The pages of the audit log.
use Prim.Native.Nat.{ℕ, zero, suc, ◌+◌}
use mathlib.Core.Path.{◌≡◌, refl}
use mathlib.Core.Option.{Option}
use mathlib.Core.List.{List, [], ◌∷◌}
use native.Mathlib.Omega.{arith}
use galynx_api.Common.{filter, take, take-take_suc, length, ltb}
use galynx_api.Storage.{AuditEntryRecord}
use galynx_api.Paging.{CursorKey, is_before, newest_first, page}
use galynx_api.Paging.Order.{newest_first-filter, HasDistinctKeys}
use galynx_api.Audit.{audit_page, entry_key}

take_beyond :
    {A : Type 0} (n : ℕ) (xs : List A) → ltb n (length (take (n + 1) xs)) ≡ ltb n (length xs)
take_beyond n [] = ground arith
take_beyond zero (x ∷ xs) = ground arith
take_beyond (suc n) (x ∷ xs) = ground (arith, take_beyond n xs)

-- Where no two entries have the same time and identifier, a page of the audit log, which is
-- filtered first and sorted then, is the page that the channels would cut, sorting first: the
-- same entries and the same cursor.
pub audit_page-page :
    (limit : ℕ) (before : Option CursorKey) (entries : List AuditEntryRecord)
    → HasDistinctKeys entry_key entries
    → ((audit_page limit before entries).items, (audit_page limit before entries).next_cursor)
      ≡ page entry_key limit before (newest_first entry_key entries)
unfolding audit_page page
audit_page-page limit before entries distinct =
    rw
      (
        newest_first-filter entry_key (λ e. is_before before (entry_key e)) entries distinct,
        take-take_suc limit
            (newest_first entry_key (filter (λ e. is_before before (entry_key e)) entries)),
        take_beyond limit
            (newest_first entry_key (filter (λ e. is_before before (entry_key e)) entries)),
      )
      refl
