-- ===== src/Channels/Responses.antt =====
-- src/channels.rs and src/attachments.rs: what the services answer, and how it is made from what
-- is stored.
use Prim.Native.Nat.{ℕ}
use mathlib.Core.Bool.{Bool}
use mathlib.Core.Option.{Option, none, some}
use mathlib.Core.List.{List, [], ◌∷◌, map}
use galynx_api.Common.{ℤ, lookup, nat_eq, Map}
use galynx_api.Text.{Str}
use galynx_api.Storage.{
  Storage, Uuid, ChannelRecordStore, MessageRecordStore, AttachmentRecordStore,
}
use galynx_api.Storage.Files.{list_attachments_for_messages}

pub record ChannelResponse : Type 0 where
  pub id : Uuid
  pub workspace_id : Uuid
  pub name : Str
  pub is_private : Bool
  pub created_by : Uuid
  pub created_at : ℤ

-- `From<&ChannelRecordStore> for ChannelResponse`
abbrev pub channel_response : ChannelRecordStore → ChannelResponse
channel_response c = record {
  id = c.id;
  workspace_id = c.workspace_id;
  name = c.name;
  is_private = c.is_private;
  created_by = c.created_by;
  created_at = c.created_at;
}

pub record AttachmentResponse : Type 0 where
  pub id : Uuid
  pub workspace_id : Uuid
  pub channel_id : Uuid
  pub message_id : Option Uuid
  pub uploader_id : Uuid
  pub name : Str
  pub filename : Str
  pub content_type : Str
  pub size_bytes : ℕ
  pub storage_bucket : Str
  pub storage_key : Str
  pub storage_region : Str
  pub created_at : ℤ

-- `From<&AttachmentRecordStore> for AttachmentResponse`
abbrev pub attachment_response : AttachmentRecordStore → AttachmentResponse
attachment_response a = record {
  id = a.id;
  workspace_id = a.workspace_id;
  channel_id = a.channel_id;
  message_id = a.message_id;
  uploader_id = a.uploader_id;
  name = a.filename;
  filename = a.filename;
  content_type = a.content_type;
  size_bytes = a.size_bytes;
  storage_bucket = a.bucket;
  storage_key = a.key;
  storage_region = a.region;
  created_at = a.created_at;
}

pub record MessageResponse : Type 0 where
  pub id : Uuid
  pub workspace_id : Uuid
  pub channel_id : Uuid
  pub sender_id : Uuid
  pub body_md : Str
  pub thread_root_id : Option Uuid
  pub created_at : ℤ
  pub edited_at : Option ℤ
  pub deleted_at : Option ℤ
  pub attachments : List AttachmentResponse

-- The answer for a message with the attachments given.
abbrev pub message_response_with : List AttachmentResponse → MessageRecordStore → MessageResponse
message_response_with attachments m = record {
  id = m.id;
  workspace_id = m.workspace_id;
  channel_id = m.channel_id;
  sender_id = m.sender_id;
  body_md = m.body_md;
  thread_root_id = m.thread_root_id;
  created_at = m.created_at;
  edited_at = m.edited_at;
  deleted_at = m.deleted_at;
  attachments = attachments;
}

-- `From<&MessageRecordStore> for MessageResponse`
abbrev pub message_response : MessageRecordStore → MessageResponse
message_response m = message_response_with [] m

abbrev grouped_attachments :
    Map Uuid (List AttachmentRecordStore) → MessageRecordStore → List AttachmentResponse
grouped_attachments grouped m = elim (lookup m.id grouped) [
  | none ↦ []
  | some items ↦ map attachment_response items
]

unfoldable pub message_responses_with_attachments :
    Uuid → List MessageRecordStore → Storage → List MessageResponse
message_responses_with_attachments workspace_id messages s =
    let ids = map (λ (m : MessageRecordStore). m.id) messages in
    let grouped = list_attachments_for_messages workspace_id ids s in
    map (λ (m : MessageRecordStore). message_response_with (grouped_attachments grouped m) m)
      messages

abbrev first_or : List MessageResponse → MessageResponse → MessageResponse
first_or [] r = r
first_or (x ∷ xs) r = x

-- `message_responses_with_attachments(…, vec![message]).next().unwrap_or_else(…)`
unfoldable pub one_response : Uuid → MessageRecordStore → Storage → MessageResponse
unfolding message_responses_with_attachments
one_response workspace_id m s =
    first_or (message_responses_with_attachments workspace_id (m ∷ []) s) (message_response m)
