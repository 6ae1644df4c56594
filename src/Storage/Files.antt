-- ===== src/Storage/Files.antt =====
-- src/storage.rs: the audit log, pending uploads and attachments in memory.
use mathlib.Core.Bool.{Bool, true, false}
use mathlib.Core.Option.{Option, none, some}
use mathlib.Core.List.{List, [], ◌∷◌, ◌++◌}
use galynx_api.Common.{
  lookup, insert, remove, values, contains, filter, nat_eq, ◌==◌, if◌then◌else◌, Map, is_empty,
  sort_by, ltb, ltb_ℤ,
}
use galynx_api.Storage.{Storage, Uuid, AuditEntryRecord, PendingUploadRecord, AttachmentRecordStore}

unfoldable pub append_audit_entry : AuditEntryRecord → Storage → Storage
append_audit_entry entry s = record s { audit_entries = s.audit_entries ++ entry ∷ [] }

unfoldable pub list_audit_entries : Uuid → Storage → List AuditEntryRecord
list_audit_entries workspace_id s =
    filter (λ (e : AuditEntryRecord). e.workspace_id == workspace_id) s.audit_entries

unfoldable pub put_pending_upload : Uuid → PendingUploadRecord → Storage → Storage
put_pending_upload upload_id pending s = record s {
  pending_uploads = insert upload_id pending s.pending_uploads;
}

-- The entry is taken out whoever asks for it.
unfoldable pub take_pending_upload : Uuid → Storage → Option PendingUploadRecord × Storage
take_pending_upload upload_id s = (
  lookup upload_id s.pending_uploads,
  record s { pending_uploads = remove upload_id s.pending_uploads },
)

unfoldable pub put_attachment : AttachmentRecordStore → Storage → Storage
put_attachment a s = record s { attachments = insert a.id a s.attachments }

unfoldable pub get_attachment : Uuid → Storage → Option AttachmentRecordStore
get_attachment attachment_id s = lookup attachment_id s.attachments

-- `created_at`, then `id`
abbrev oldest : AttachmentRecordStore → AttachmentRecordStore → Bool
oldest a b =
    if ltb_ℤ a.created_at b.created_at
    then true
    else if ltb_ℤ b.created_at a.created_at
    then false
    else ltb a.id b.id

-- `entry(m).or_default()`
abbrev group_of : Uuid → Map Uuid (List AttachmentRecordStore) → List AttachmentRecordStore
group_of m grouped = elim (lookup m grouped) [ none ↦ [] | some items ↦ items ]

abbrev listed : List Uuid → Option Uuid → Option Uuid
listed message_ids none = none
listed message_ids (some m) = if contains m message_ids then some m else none

-- An attachment is grouped under its message if it is one of those asked for.
abbrev wanted : Uuid → List Uuid → AttachmentRecordStore → Option Uuid
wanted workspace_id message_ids a =
    if a.workspace_id == workspace_id then listed message_ids a.message_id else none

abbrev push_group :
    Option Uuid
    → AttachmentRecordStore
    → Map Uuid (List AttachmentRecordStore)
    → Map Uuid (List AttachmentRecordStore)
push_group none a grouped = grouped
push_group (some m) a grouped = insert m (group_of m grouped ++ a ∷ []) grouped

abbrev group_loop :
    Uuid
    → List Uuid
    → List AttachmentRecordStore
    → Map Uuid (List AttachmentRecordStore)
    → Map Uuid (List AttachmentRecordStore)
group_loop workspace_id message_ids [] grouped = grouped
group_loop workspace_id message_ids (a ∷ rest) grouped =
    group_loop workspace_id message_ids rest
      (push_group (wanted workspace_id message_ids a) a grouped)

abbrev sort_groups : Map Uuid (List AttachmentRecordStore) → Map Uuid (List AttachmentRecordStore)
sort_groups [] = []
sort_groups ((m, items) ∷ grouped) = (m, sort_by oldest items) ∷ sort_groups grouped

unfoldable pub list_attachments_for_messages :
    Uuid → List Uuid → Storage → Map Uuid (List AttachmentRecordStore)
list_attachments_for_messages workspace_id message_ids s =
    if is_empty message_ids
    then []
    else sort_groups (group_loop workspace_id message_ids (values s.attachments) [])
