-- ===== src/Attachments/Lifecycle.antt =====
-- An upload from its presigning to its download.
use Prim.Native.Nat.{◌≤◌}
use mathlib.Core.Path.{◌≡◌, refl, ap, sym}
use mathlib.Core.Bool.{false}
use mathlib.Core.Option.{Option, some}
use native.Mathlib.Omega.{arith}
use galynx_api.Common.{
  ℤ, ◌+ℤ◌, ltb_ℤ, ==_refl, nat_eq, lookup, lookup-insert, lookup-remove, is_empty,
}
use galynx_api.Text.{Str, text, trim}
use galynx_api.Errors.{ApiResult, ok, err, not_found}
use galynx_api.Auth.Context.{AuthContext}
use galynx_api.Storage.{Storage, Uuid, PendingUploadRecord, AttachmentRecordStore}
use galynx_api.Storage.Files.{
  put_pending_upload, take_pending_upload, put_attachment, get_attachment as stored_attachment,
}
use galynx_api.Channels.Responses.{AttachmentResponse, attachment_response}
use galynx_api.Attachments.{
  PresignRequest, PresignResponse, CommitRequest, ObjectStorage, presign, commit, attachment_of,
  max_attachment_size_bytes, presign_ttl_seconds, storage_key,
}

-- The pending upload of an identifier.
unfoldable pub pending_upload : Uuid → Storage → Option PendingUploadRecord
pending_upload upload_id s = lookup upload_id s.pending_uploads

module _ (show_uuid : Uuid → Str) (object_storage : Option ObjectStorage) where
  -- Whatever becomes of a commit, the upload is then gone: each one is committed once at most.
  pub commit-takes :
      (now later : ℤ) (id id' : Uuid) (context other : AuthContext) (payload : CommitRequest)
      (message_id : Option Uuid) (s : Storage)
      → (commit show_uuid object_storage later id' other
          (record { upload_id = payload.upload_id; message_id = message_id })
          (commit show_uuid object_storage now id context payload s).1).0
        ≡ err (not_found (text "upload_id not found or already committed"))
  unfolding commit take_pending_upload put_attachment
  commit-takes now later id id' context other payload message_id s = ground (
    arith,
    lookup-remove payload.upload_id payload.upload_id s.pending_uploads,
    ==_refl payload.upload_id,
  )

  module _ (now : ℤ) (upload_id : Uuid) (context : AuthContext) (payload : PresignRequest)
      (s : Storage) where
    -- The upload that is stored for a request.
    abbrev pending_of : PendingUploadRecord
    pending_of = record {
      workspace_id = context.workspace_id;
      channel_id = payload.channel_id;
      uploader_id = context.user_id;
      filename = trim payload.filename;
      content_type = trim payload.content_type;
      size_bytes = payload.size_bytes;
      storage_key =
          storage_key show_uuid object_storage context.workspace_id payload.channel_id upload_id
            (trim payload.filename);
      expires_at = now +ℤ presign_ttl_seconds;
      created_at = now;
    }

    abbrev after_presign : ApiResult PresignResponse × Storage
    after_presign = presign show_uuid object_storage now upload_id context payload s

    presign-ok :
        (response : PresignResponse)
        → after_presign.0 ≡ ok response
        → (after_presign.1 ≡ put_pending_upload upload_id pending_of s)
          × (response.key ≡ pending_of.storage_key)
          × (1 ≤ payload.size_bytes)
          × (payload.size_bytes ≤ max_attachment_size_bytes)
          × (is_empty (trim payload.filename) ≡ false)
          × (is_empty (trim payload.content_type) ≡ false)
    unfolding presign
    presign-ok response h = ground arith

    abbrev attachment : Uuid → Option Uuid → AttachmentRecordStore
    attachment id message_id = attachment_of show_uuid object_storage id message_id pending_of

    committed :
        (response : PresignResponse) (later : ℤ) (id : Uuid) (message_id : Option Uuid)
        → after_presign.0 ≡ ok response
        → ltb_ℤ (now +ℤ presign_ttl_seconds) later ≡ false
        → commit show_uuid object_storage later id context
            (record { upload_id = upload_id; message_id = message_id })
            after_presign.1
          ≡ (
            ok (attachment_response (attachment id message_id)),
            put_attachment
                (attachment id message_id)
                (take_pending_upload upload_id (put_pending_upload upload_id pending_of s)).1,
          )
    unfolding commit take_pending_upload put_pending_upload
    committed response later id message_id h early = rw ((presign-ok response h).0) (
        ground (
          arith,
          lookup-insert upload_id upload_id pending_of s.pending_uploads,
          ==_refl upload_id,
          ==_refl context.workspace_id,
          ==_refl context.user_id,
        ))

    stored_attachment-put :
        (a : AttachmentRecordStore) (t : Storage)
        → stored_attachment a.id (put_attachment a t) ≡ some a
    unfolding stored_attachment put_attachment
    stored_attachment-put a t = rw (lookup-insert a.id a.id a t.attachments, ==_refl a.id)

    -- An attachment of the sender's workspace and the channel asked for, under the key of the
    -- answer, with the name, content type and size of the request.
    pub record IsCommitted (response : PresignResponse) (message_id : Option Uuid)
        (a : AttachmentRecordStore) : Type 0 where
      pub workspace : a.workspace_id ≡ context.workspace_id
      pub channel : a.channel_id ≡ payload.channel_id
      pub uploader : a.uploader_id ≡ context.user_id
      pub message : a.message_id ≡ message_id
      pub key : a.key ≡ response.key
      pub filename : (a.filename ≡ trim payload.filename) × (is_empty a.filename ≡ false)
      pub content_type :
          (a.content_type ≡ trim payload.content_type) × (is_empty a.content_type ≡ false)
      pub size : a.size_bytes ≡ payload.size_bytes
      pub bounded : (1 ≤ a.size_bytes) × (a.size_bytes ≤ max_attachment_size_bytes)

    -- If a request is presigned and its sender commits it no later than 900 seconds after, the
    -- commit succeeds and stores an attachment of the sender's workspace and the channel asked
    -- for, under the key of the answer. Its name and content type are those of the request, their
    -- ends trimmed, and not empty; its size is that of the request, from 1 byte to 100 MiB.
    pub presign-commit :
        (response : PresignResponse) (later : ℤ) (id : Uuid) (message_id : Option Uuid)
        → after_presign.0 ≡ ok response
        → ltb_ℤ (now +ℤ presign_ttl_seconds) later ≡ false
        → let (r, t) =
            commit show_uuid object_storage later id context
              (record { upload_id = upload_id; message_id = message_id })
              after_presign.1 in
          (a : AttachmentRecordStore) × (r ≡ ok (attachment_response a))
          × (stored_attachment id t ≡ some a)
          × IsCommitted response message_id a
    presign-commit response later id message_id h early =
        let (stored, key, low, high, named, typed) = presign-ok response h in
        (
          attachment id message_id,
          ap (λ (r : ApiResult AttachmentResponse × Storage). r.0)
              (committed response later id message_id h early),
          rw (committed response later id message_id h early)
              (stored_attachment-put (attachment id message_id) _),
          record {
            workspace = refl;
            channel = refl;
            uploader = refl;
            message = refl;
            key = sym key;
            filename = (refl, named);
            content_type = (refl, typed);
            size = refl;
            bounded = (low, high);
          },
        )
