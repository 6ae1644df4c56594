-- ===== src/Attachments.antt =====
-- src/attachments.rs, `AttachmentService`: presigned uploads, their commit and the download links.
-- The object storage is a parameter: what its client answers when it signs a key.
pub mod Lifecycle
use Prim.Native.Nat.{ℕ, ◌≤◌}
use mathlib.Core.Logic.{◌⊎◌, inl, inr}
use mathlib.Core.Bool.{Bool, true, false, not, ◌&&◌, ◌||◌}
use mathlib.Core.Option.{Option, none, some}
use mathlib.Core.List.{List, [], ◌∷◌, ◌++◌, map}
use galynx_api.Common.{is_empty, leb, ltb, eqb, ltb_ℤ, ◌==◌, nat_eq, if◌then◌else◌, ℤ, pos, ◌+ℤ◌}
use galynx_api.Text.{Str, text, trim}
use galynx_api.Text.Decimal.{print_ℤ}
use galynx_api.Errors.{
  ApiResult, ok, err, bad_request, not_found, unauthorized, internal, Action, ◌>>=◌, ◌>>◌, pure,
  gets, lift, modify, or_fail, fail_if,
}
use galynx_api.Auth.Context.{AuthContext}
use galynx_api.Storage.{Storage, Uuid, PendingUploadRecord, AttachmentRecordStore}
use galynx_api.Storage.Files.{
  put_pending_upload, take_pending_upload, put_attachment, get_attachment as stored_attachment,
}
use galynx_api.Channels.Responses.{AttachmentResponse, attachment_response}

abbrev pub max_attachment_size_bytes : ℕ
max_attachment_size_bytes = 104857600

abbrev pub presign_ttl_seconds : ℤ
presign_ttl_seconds = pos 900

abbrev pub download_ttl_seconds : ℤ
download_ttl_seconds = pos 600

pub record PresignRequest : Type 0 where
  pub channel_id : Uuid
  pub filename : Str
  pub content_type : Str
  pub size_bytes : ℕ

pub record PresignResponse : Type 0 where
  pub upload_id : Uuid
  pub upload_url : Str
  pub bucket : Str
  pub key : Str
  pub expires_at : ℤ

pub record CommitRequest : Type 0 where
  pub upload_id : Uuid
  pub message_id : Option Uuid

pub record AttachmentGetResponse : Type 0 where
  pub attachment : AttachmentResponse
  pub download_url : Str
  pub expires_at : ℤ

-- What an upload link of the client is for a key: the text of the error, or the link; and the
-- same for a download link.
pub record ObjectStorage : Type 0 where
  pub bucket : Str
  pub region : Str
  pub presign_upload_url : Str → ApiResult Str
  pub presign_download_url : Str → Str ⊎ Str

-- `char::is_ascii_alphanumeric`, or one of `.`, `-` and `_`
abbrev pub is_safe : ℕ → Bool
is_safe c =
    (leb b'0' c && leb c b'9')
    || (leb b'A' c && leb c b'Z')
    || (leb b'a' c && leb c b'z')
    || eqb c b'.'
    || eqb c b'-'
    || eqb c b'_'

unfoldable pub sanitize_filename : Str → Str
sanitize_filename value = map (λ c. if is_safe c then c else b'_') value

module _ (show_uuid : Uuid → Str) (object_storage : Option ObjectStorage) where
  unfoldable pub storage_key : Uuid → Uuid → Uuid → Str → Str
  unfolding sanitize_filename
  storage_key workspace_id channel_id upload_id filename =
      text "workspace/"
      ++ show_uuid workspace_id
      ++ text "/channel/"
      ++ show_uuid channel_id
      ++ text "/uploads/"
      ++ show_uuid upload_id
      ++ text "-"
      ++ sanitize_filename filename

  abbrev upload_target : Uuid → Str → ApiResult (Str × Str)
  upload_target upload_id key = elim object_storage [
    | none ↦ ok (
      text "galynx-attachments",
      text "https://storage.galynx.local/upload/" ++ show_uuid upload_id,
    )
    | some client ↦ elim (client.presign_upload_url key) [
      | err e ↦ err e
      | ok url ↦ ok (client.bucket, url)
    ]
  ]

  unfoldable pub presign : ℤ → Uuid → AuthContext → PresignRequest → Action Storage PresignResponse
  presign now upload_id context payload = do
    let filename = trim payload.filename
    let content_type = trim payload.content_type
    fail_if (is_empty filename) (bad_request (text "filename is required"))
    fail_if (is_empty content_type) (bad_request (text "content_type is required"))
    fail_if (eqb payload.size_bytes 0) (bad_request (text "size_bytes must be > 0"))
    fail_if (ltb max_attachment_size_bytes payload.size_bytes)
        (bad_request (text "file size exceeds 100MB limit"))
    let key = storage_key context.workspace_id payload.channel_id upload_id filename
    target ← lift (upload_target upload_id key)
    let pending : PendingUploadRecord = record {
      workspace_id = context.workspace_id;
      channel_id = payload.channel_id;
      uploader_id = context.user_id;
      filename = filename;
      content_type = content_type;
      size_bytes = payload.size_bytes;
      storage_key = key;
      expires_at = now +ℤ presign_ttl_seconds;
      created_at = now;
    }
    modify (put_pending_upload upload_id pending)
    pure (record {
      upload_id = upload_id;
      upload_url = target.1;
      bucket = target.0;
      key = key;
      expires_at = now +ℤ presign_ttl_seconds;
    })

  abbrev place : Str × Str
  place = elim object_storage [
    | none ↦ (text "galynx-attachments", text "us-east-1")
    | some client ↦ (client.bucket, client.region)
  ]

  -- An attachment, from the upload that is committed.
  abbrev pub attachment_of : Uuid → Option Uuid → PendingUploadRecord → AttachmentRecordStore
  attachment_of id message_id pending = record {
    id = id;
    workspace_id = pending.workspace_id;
    channel_id = pending.channel_id;
    message_id = message_id;
    uploader_id = pending.uploader_id;
    filename = pending.filename;
    content_type = pending.content_type;
    size_bytes = pending.size_bytes;
    bucket = place.0;
    key = pending.storage_key;
    region = place.1;
    created_at = pending.created_at;
  }

  abbrev pub taken : Uuid → Action Storage (Option PendingUploadRecord)
  taken upload_id s = let (pending, s') = take_pending_upload upload_id s in (ok pending, s')

  -- The upload is taken out of the store before it is checked.
  unfoldable pub commit : ℤ → Uuid → AuthContext → CommitRequest → Action Storage AttachmentResponse
  commit now attachment_id context payload = do
    entry ← taken payload.upload_id
    pending ← or_fail entry (not_found (text "upload_id not found or already committed"))
    fail_if (not (pending.workspace_id == context.workspace_id))
        (not_found (text "upload_id not found"))
    fail_if (not (pending.uploader_id == context.user_id))
        (unauthorized (text "cannot commit upload from another user"))
    fail_if (ltb_ℤ pending.expires_at now) (bad_request (text "presigned upload has expired"))
    let attachment = attachment_of attachment_id payload.message_id pending
    modify (put_attachment attachment)
    pure (attachment_response attachment)

  abbrev download_target : ℤ → AttachmentRecordStore → ApiResult Str
  download_target expires_at attachment = elim object_storage [
    | none ↦ ok (
        text "https://storage.galynx.local/download/"
        ++ attachment.bucket
        ++ text "/"
        ++ show_uuid attachment.id
        ++ text "?exp="
        ++ print_ℤ expires_at)
    | some client ↦ elim (client.presign_download_url attachment.key) [
      | inl error ↦ err (internal (text "failed to presign download url: " ++ error))
      | inr url ↦ ok url
    ]
  ]

  unfoldable pub get_attachment : ℤ → Uuid → Uuid → Action Storage AttachmentGetResponse
  get_attachment now workspace_id attachment_id = do
    attachment ←
        or_fail (← gets (stored_attachment attachment_id)) (not_found (text "attachment not found"))
    fail_if (not (attachment.workspace_id == workspace_id))
        (not_found (text "attachment not found"))
    let expires_at = now +ℤ download_ttl_seconds
    url ← lift (download_target expires_at attachment)
    pure (record {
      attachment = attachment_response attachment;
      download_url = url;
      expires_at = expires_at;
    })
