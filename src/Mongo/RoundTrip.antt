-- ===== src/Mongo/RoundTrip.antt =====
-- A document of the database gives back the record that it was made of.
use Prim.Native.Nat.{ℕ, ◌^◌, ◌<◌}
use mathlib.Core.Path.{◌≡◌, refl}
use mathlib.Core.Option.{Option, none, some}
use native.Mathlib.Omega.{arith}
use galynx_api.Common.{ℤ, lookup}
use galynx_api.Text.{text_tests}
use galynx_api.Storage.{
  Uuid, WorkspaceRecordStore, PendingUploadRecord, AttachmentRecordStore, MessageRecordStore,
}
use galynx_api.Mongo.{Driver, IsLawful, IsId, string_of, int64_of}
use galynx_api.Mongo.Records.{
  ◌>>=◌, optional_uuid, optional_int64, read_message, message_document, read_attachment,
  attachment_document, read_pending_upload, pending_upload_document, read_workspace,
  workspace_document, as_i64, as_u64,
}

-- All identifiers of a record are of 128 bits.
abbrev pub IsOptionalId : Option Uuid → Type 0
IsOptionalId none = Unit
IsOptionalId (some id) = IsId id

abbrev pub IsWorkspace : WorkspaceRecordStore → Type 0
IsWorkspace w = IsId w.id × IsId w.created_by

abbrev pub IsMessage : MessageRecordStore → Type 0
IsMessage r =
    (IsId r.id × IsId r.workspace_id)
    × ((IsId r.channel_id × IsId r.sender_id) × IsOptionalId r.thread_root_id)

-- And the size is a `u64`.
abbrev pub IsAttachment : AttachmentRecordStore → Type 0
IsAttachment r =
    (IsId r.id × IsId r.workspace_id)
    × ((IsId r.channel_id × IsId r.uploader_id)
        × (IsOptionalId r.message_id × (r.size_bytes < 2 ^ 64)))

abbrev pub IsPendingUpload : PendingUploadRecord → Type 0
IsPendingUpload r =
    IsId r.workspace_id × (IsId r.channel_id × (IsId r.uploader_id × (r.size_bytes < 2 ^ 64)))

-- A size that is a `u64` survives the cast to `i64` and back.
pub as_u64-as_i64 : (size : ℕ) → size < 2 ^ 64 → as_u64 (as_i64 size) ≡ size
unfolding as_u64 as_i64
as_u64-as_i64 size h = ground arith

optional_int64-read : (n : Option ℤ) → int64_of (some (optional_int64 n)) ≡ n
optional_int64-read none = refl
optional_int64-read (some n) = refl

module _ (m : Driver) (laws : IsLawful m) where
  optional_uuid-read :
      (id : Option Uuid)
      → IsOptionalId id
      → (string_of (some (optional_uuid m id)) >>= m.parse_str) ≡ id
  optional_uuid-read none h = refl
  optional_uuid-read (some id) h = laws.parse_str-show_uuid id h

  pub read_workspace-document :
      (w : WorkspaceRecordStore)
      → IsWorkspace w
      → read_workspace m (m.doc (workspace_document m w)) ≡ some w
  unfolding read_workspace workspace_document text_tests lookup
  read_workspace-document w (id, created_by) = simp (
    laws.get_str-doc (workspace_document m w) refl,
    laws.get_i64-doc (workspace_document m w) refl,
    laws.parse_str-show_uuid w.id id,
    laws.parse_str-show_uuid w.created_by created_by,
  )

  pub read_message-document :
      (r : MessageRecordStore)
      → IsMessage r
      → read_message m (m.doc (message_document m r)) ≡ some r
  unfolding read_message message_document text_tests lookup
  read_message-document r ((id, workspace), ((channel, sender), root)) = simp (
    laws.get_str-doc (message_document m r) refl,
    laws.parse_str-show_uuid r.id id,
    laws.parse_str-show_uuid r.workspace_id workspace,
    laws.parse_str-show_uuid r.channel_id channel,
    laws.parse_str-show_uuid r.sender_id sender,
    laws.get_i64-doc (message_document m r) refl,
    optional_uuid-read r.thread_root_id root,
    optional_int64-read,
  )

  pub read_attachment-document :
      (r : AttachmentRecordStore)
      → IsAttachment r
      → read_attachment m (m.doc (attachment_document m r)) ≡ some r
  unfolding read_attachment attachment_document text_tests lookup
  read_attachment-document r ((id, workspace), ((channel, uploader), (message, size))) = simp (
    laws.get_str-doc (attachment_document m r) refl,
    laws.get_i64-doc (attachment_document m r) refl,
    laws.parse_str-show_uuid r.id id,
    laws.parse_str-show_uuid r.workspace_id workspace,
    laws.parse_str-show_uuid r.channel_id channel,
    laws.parse_str-show_uuid r.uploader_id uploader,
    optional_uuid-read r.message_id message,
    as_u64-as_i64 r.size_bytes size,
  )

  pub read_pending_upload-document :
      (id : Uuid) (r : PendingUploadRecord)
      → IsPendingUpload r
      → read_pending_upload m (m.doc (pending_upload_document m id r)) ≡ some r
  unfolding read_pending_upload pending_upload_document text_tests lookup
  read_pending_upload-document id r (workspace, (channel, (uploader, size))) = simp (
    laws.get_str-doc (pending_upload_document m id r) refl,
    laws.get_i64-doc (pending_upload_document m id r) refl,
    laws.parse_str-show_uuid r.workspace_id workspace,
    laws.parse_str-show_uuid r.channel_id channel,
    laws.parse_str-show_uuid r.uploader_id uploader,
    as_u64-as_i64 r.size_bytes size,
  )
