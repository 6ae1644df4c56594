-- ===== src/Mongo/Records.antt =====
-- src/storage.rs: the document of each record, and the record that is read of a document.
use Prim.Native.Nat.{ℕ, ◌^◌, ◌-◌, ◌+◌, ◌*◌}
use mathlib.Core.Bool.{Bool, false}
use mathlib.Core.Option.{Option, none, some}
use mathlib.Core.List.{[], ◌∷◌}
use galynx_api.Common.{ℤ, pos, negsuc, ltb, if◌then◌else◌}
use galynx_api.Text.{Str, text, to_ascii_lowercase}
use galynx_api.Storage.{
  Uuid, WorkspaceRecordStore, PendingUploadRecord, AttachmentRecordStore, ChannelRecordStore,
  MessageRecordStore, RefreshSessionRecordStore,
}
use galynx_api.Mongo.{Driver, Fields, Value, string, int64, boolean, datetime, null}

-- `size as i64` of a `u64`, and `n as u64` of an `i64`
unfoldable pub as_i64 : ℕ → ℤ
as_i64 size = if ltb size (2 ^ 63) then pos size else negsuc (2 ^ 64 - size - 1)

unfoldable pub as_u64 : ℤ → ℕ
as_u64 (pos n) = n
as_u64 (negsuc n) = 2 ^ 64 - n - 1

-- `seconds * 1000`
abbrev seconds_in_millis : ℤ → ℤ
seconds_in_millis (pos n) = pos (1000 * n)
seconds_in_millis (negsuc n) = negsuc (1000 * n + 999)

-- `?` on an option.
infixl 5 ◌>>=◌
abbrev pub ◌>>=◌ : {A B : Type 0} → Option A → (A → Option B) → Option B
none >>= f = none
some a >>= f = f a

abbrev pub or_default : {A : Type 0} → A → Option A → A
or_default a none = a
or_default a (some b) = b

abbrev pub optional_string : Option Str → Value
optional_string none = null
optional_string (some s) = string s

abbrev pub optional_int64 : Option ℤ → Value
optional_int64 none = null
optional_int64 (some n) = int64 n

module _ (m : Driver) where
  unfoldable pub uuid_field : m.Document → Str → Option Uuid
  uuid_field document key = m.get_str key document >>= m.parse_str

  unfoldable pub optional_uuid_field : m.Document → Str → Option Uuid
  optional_uuid_field document key = m.get_str key document >>= m.parse_str

  unfoldable pub string_field : m.Document → Str → Option Str
  string_field document key = m.get_str key document

  unfoldable pub i64_field : m.Document → Str → Option ℤ
  i64_field document key = m.get_i64 key document

  unfoldable pub optional_i64_field : m.Document → Str → Option ℤ
  optional_i64_field document key = m.get_i64 key document

  unfoldable pub bool_field : m.Document → Str → Option Bool
  bool_field document key = m.get_bool key document

  -- `value.map(|value| value.to_string())`
  abbrev pub optional_uuid : Option Uuid → Value
  optional_uuid none = null
  optional_uuid (some id) = string (m.show_uuid id)

  unfoldable pub workspace_document : WorkspaceRecordStore → Fields
  workspace_document workspace =
      (text "_id", string (m.show_uuid workspace.id))
      ∷ (text "name", string workspace.name)
      ∷ (text "name_lc", string (to_ascii_lowercase workspace.name))
      ∷ (text "created_by", string (m.show_uuid workspace.created_by))
      ∷ (text "created_at", int64 workspace.created_at)
      ∷ []

  unfoldable pub read_workspace : m.Document → Option WorkspaceRecordStore
  unfolding uuid_field string_field i64_field
  read_workspace document = do
    id ← uuid_field document (text "_id")
    created_by ← uuid_field document (text "created_by")
    some (record {
      id = id;
      name = or_default [] (string_field document (text "name"));
      created_by = created_by;
      created_at = or_default (pos 0) (i64_field document (text "created_at"));
    })

  unfoldable pub pending_upload_document : Uuid → PendingUploadRecord → Fields
  unfolding as_i64
  pending_upload_document upload_id pending =
      (text "_id", string (m.show_uuid upload_id))
      ∷ (text "workspace_id", string (m.show_uuid pending.workspace_id))
      ∷ (text "channel_id", string (m.show_uuid pending.channel_id))
      ∷ (text "uploader_id", string (m.show_uuid pending.uploader_id))
      ∷ (text "filename", string pending.filename)
      ∷ (text "content_type", string pending.content_type)
      ∷ (text "size_bytes", int64 (as_i64 pending.size_bytes))
      ∷ (text "storage_key", string pending.storage_key)
      ∷ (text "expires_at", int64 pending.expires_at)
      ∷ (text "created_at", int64 pending.created_at)
      ∷ []

  unfoldable pub read_pending_upload : m.Document → Option PendingUploadRecord
  unfolding uuid_field string_field i64_field
  read_pending_upload document = do
    workspace_id ← uuid_field document (text "workspace_id")
    channel_id ← uuid_field document (text "channel_id")
    uploader_id ← uuid_field document (text "uploader_id")
    some (record {
      workspace_id = workspace_id;
      channel_id = channel_id;
      uploader_id = uploader_id;
      filename = or_default [] (string_field document (text "filename"));
      content_type = or_default [] (string_field document (text "content_type"));
      size_bytes = as_u64 (or_default (pos 0) (i64_field document (text "size_bytes")));
      storage_key = or_default [] (string_field document (text "storage_key"));
      expires_at = or_default (pos 0) (i64_field document (text "expires_at"));
      created_at = or_default (pos 0) (i64_field document (text "created_at"));
    })

  unfoldable pub attachment_document : AttachmentRecordStore → Fields
  unfolding as_i64
  attachment_document attachment =
      (text "_id", string (m.show_uuid attachment.id))
      ∷ (text "workspace_id", string (m.show_uuid attachment.workspace_id))
      ∷ (text "channel_id", string (m.show_uuid attachment.channel_id))
      ∷ (text "message_id", optional_uuid attachment.message_id)
      ∷ (text "uploader_id", string (m.show_uuid attachment.uploader_id))
      ∷ (text "filename", string attachment.filename)
      ∷ (text "content_type", string attachment.content_type)
      ∷ (text "size_bytes", int64 (as_i64 attachment.size_bytes))
      ∷ (text "bucket", string attachment.bucket)
      ∷ (text "key", string attachment.key)
      ∷ (text "region", string attachment.region)
      ∷ (text "created_at", int64 attachment.created_at)
      ∷ []

  unfoldable pub read_attachment : m.Document → Option AttachmentRecordStore
  unfolding uuid_field optional_uuid_field string_field i64_field
  read_attachment document = do
    id ← uuid_field document (text "_id")
    workspace_id ← uuid_field document (text "workspace_id")
    channel_id ← uuid_field document (text "channel_id")
    uploader_id ← uuid_field document (text "uploader_id")
    some (record {
      id = id;
      workspace_id = workspace_id;
      channel_id = channel_id;
      message_id = optional_uuid_field document (text "message_id");
      uploader_id = uploader_id;
      filename = or_default [] (string_field document (text "filename"));
      content_type = or_default [] (string_field document (text "content_type"));
      size_bytes = as_u64 (or_default (pos 0) (i64_field document (text "size_bytes")));
      bucket = or_default [] (string_field document (text "bucket"));
      key = or_default [] (string_field document (text "key"));
      region = or_default [] (string_field document (text "region"));
      created_at = or_default (pos 0) (i64_field document (text "created_at"));
    })

  unfoldable pub channel_document : ChannelRecordStore → Fields
  channel_document channel =
      (text "_id", string (m.show_uuid channel.id))
      ∷ (text "workspace_id", string (m.show_uuid channel.workspace_id))
      ∷ (text "name", string channel.name)
      ∷ (text "is_private", boolean channel.is_private)
      ∷ (text "created_by", string (m.show_uuid channel.created_by))
      ∷ (text "created_at", int64 channel.created_at)
      ∷ []

  unfoldable pub read_channel : m.Document → Option ChannelRecordStore
  unfolding uuid_field string_field i64_field bool_field
  read_channel document = do
    id ← uuid_field document (text "_id")
    workspace_id ← uuid_field document (text "workspace_id")
    created_by ← uuid_field document (text "created_by")
    some (record {
      id = id;
      workspace_id = workspace_id;
      name = or_default [] (string_field document (text "name"));
      is_private = or_default false (bool_field document (text "is_private"));
      created_by = created_by;
      created_at = or_default (pos 0) (i64_field document (text "created_at"));
    })

  unfoldable pub message_document : MessageRecordStore → Fields
  message_document message =
      (text "_id", string (m.show_uuid message.id))
      ∷ (text "workspace_id", string (m.show_uuid message.workspace_id))
      ∷ (text "channel_id", string (m.show_uuid message.channel_id))
      ∷ (text "sender_id", string (m.show_uuid message.sender_id))
      ∷ (text "body_md", string message.body_md)
      ∷ (text "thread_root_id", optional_uuid message.thread_root_id)
      ∷ (text "created_at", int64 message.created_at)
      ∷ (text "edited_at", optional_int64 message.edited_at)
      ∷ (text "deleted_at", optional_int64 message.deleted_at)
      ∷ []

  unfoldable pub read_message : m.Document → Option MessageRecordStore
  unfolding uuid_field optional_uuid_field string_field i64_field optional_i64_field
  read_message document = do
    id ← uuid_field document (text "_id")
    workspace_id ← uuid_field document (text "workspace_id")
    channel_id ← uuid_field document (text "channel_id")
    sender_id ← uuid_field document (text "sender_id")
    some (record {
      id = id;
      workspace_id = workspace_id;
      channel_id = channel_id;
      sender_id = sender_id;
      body_md = or_default [] (string_field document (text "body_md"));
      thread_root_id = optional_uuid_field document (text "thread_root_id");
      created_at = or_default (pos 0) (i64_field document (text "created_at"));
      edited_at = optional_i64_field document (text "edited_at");
      deleted_at = optional_i64_field document (text "deleted_at");
    })

  -- `expires_at_dt` is the time in milliseconds, which the index of the collection reads.
  unfoldable pub session_document : Str → RefreshSessionRecordStore → Fields
  session_document token_hash session =
      (text "_id", string token_hash)
      ∷ (text "user_id", string (m.show_uuid session.user_id))
      ∷ (text "workspace_id", string (m.show_uuid session.workspace_id))
      ∷ (text "expires_at", int64 session.expires_at)
      ∷ (text "expires_at_dt", datetime (seconds_in_millis session.expires_at))
      ∷ (text "revoked_at", optional_int64 session.revoked_at)
      ∷ (text "replaced_by_hash", optional_string session.replaced_by_hash)
      ∷ []

  unfoldable pub read_session : m.Document → Option RefreshSessionRecordStore
  unfolding uuid_field string_field i64_field optional_i64_field
  read_session document = do
    user_id ← uuid_field document (text "user_id")
    workspace_id ← uuid_field document (text "workspace_id")
    some (record {
      user_id = user_id;
      workspace_id = workspace_id;
      expires_at = or_default (pos 0) (i64_field document (text "expires_at"));
      revoked_at = optional_i64_field document (text "revoked_at");
      replaced_by_hash = string_field document (text "replaced_by_hash");
    })
