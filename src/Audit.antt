-- ===== src/Audit.antt =====
-- src/audit.rs, `AuditService`: the log of a workspace, written at its end and read in pages.
pub mod Pages
use Prim.Native.Nat.{ℕ}
use mathlib.Core.Bool.{Bool}
use mathlib.Core.Option.{Option, none, some}
use mathlib.Core.List.{List, [], ◌∷◌, map}
use galynx_api.Common.{ℤ, filter, take, last, length, ltb, if◌then◌else◌}
use galynx_api.Text.{Str}
use galynx_api.Errors.{ApiResult, Action, ◌>>=◌, ◌>>◌, pure, gets, lift, modify}
use galynx_api.Storage.{Storage, Uuid, Stamp, AuditEntryRecord, Metadata}
use galynx_api.Storage.Files.{append_audit_entry, list_audit_entries}
use galynx_api.Paging.{
  CursorKey, MessageQuery, page_limit, parse_before, is_before, newest_first, cursor_of,
}

pub record AuditListResponse : Type 0 where
  pub items : List AuditEntryRecord
  pub next_cursor : Option Str

abbrev pub entry_key : AuditEntryRecord → CursorKey
entry_key entry = (entry.created_at, entry.id)

-- `AuditService::write`
unfoldable pub write :
    Stamp → Uuid → Option Uuid → Str → Str → Option Str → Metadata → Action Storage (Unit {0})
write stamp workspace_id actor_id action target_type target_id metadata = modify (
    append_audit_entry (record {
      id = stamp.uuid;
      workspace_id = workspace_id;
      actor_id = actor_id;
      action = action;
      target_type = target_type;
      target_id = target_id;
      metadata = metadata;
      created_at = stamp.time;
    }))

-- The entries are filtered first, and sorted then; `AuditLogResponse::from` copies every field.
unfoldable pub audit_page : ℕ → Option CursorKey → List AuditEntryRecord → AuditListResponse
audit_page limit before entries =
    let filtered = newest_first entry_key (filter (λ e. is_before before (entry_key e)) entries) in
    let items = take limit filtered in
    record {
      items = items;
      next_cursor = if ltb limit (length filtered) then cursor_of entry_key (last items) else none;
    }

-- `AuditService::list`
unfoldable pub list_audit : Uuid → MessageQuery → Action Storage AuditListResponse
list_audit workspace_id query = do
  before ← lift (parse_before query.cursor)
  entries ← gets (list_audit_entries workspace_id)
  pure (audit_page (page_limit query.limit) before entries)
