-- ===== src/Mongo/Steps.antt =====
-- src/storage.rs: each operation with the database refines the one on the memory.
use mathlib.Core.Path.{◌≡◌, refl}
use galynx_api.Common.{nat_eq, text_eq}
use galynx_api.Common.{lookup}
use galynx_api.Text.{text_tests}
use galynx_api.Storage.{
  Storage, Uuid, WorkspaceRecordStore, PendingUploadRecord, AttachmentRecordStore,
  MessageRecordStore,
}
use galynx_api.Storage.Accounts
use galynx_api.Storage.Rooms
use galynx_api.Storage.Files
use galynx_api.Mongo.{
  Driver, IsLawful, IsId, MongoStorage, workspaces, messages, attachments, pending_uploads,
}
use galynx_api.Mongo.Tables
use galynx_api.Mongo.Views.{replace-Sees, delete-Sees}
use galynx_api.Mongo.Records.{
  read_workspace, read_message, read_attachment, read_pending_upload, workspace_document,
  message_document, attachment_document, pending_upload_document,
}
use galynx_api.Mongo.RoundTrip.{
  read_workspace-document, read_message-document, read_attachment-document,
  read_pending_upload-document, IsWorkspace, IsMessage, IsAttachment, IsPendingUpload,
}
use galynx_api.Mongo.Refines.{Refines, written, deleted}

module _ (m : Driver) (laws : IsLawful m) (s : MongoStorage m) (t : Storage)
    (r : Refines m s t) where
  pub put_workspace-Refines :
      (w : WorkspaceRecordStore)
      → IsWorkspace w
      → Refines m (Tables.put_workspace m w s) (Accounts.put_workspace w t)
  unfolding Tables.put_workspace Accounts.put_workspace workspace_document text_tests lookup
  put_workspace-Refines w h = record {
    workspace =
        replace-Sees m workspaces (read_workspace m) laws refl s.memory.workspaces t.workspaces
          s.database r.workspace w.id _ w h.0 refl (read_workspace-document m laws w h);
    message = written m laws s t r messages workspaces _ _ refl (λ e. cc);
    attachment = written m laws s t r attachments workspaces _ _ refl (λ e. cc);
    pending_upload = written m laws s t r pending_uploads workspaces _ _ refl (λ e. cc);
  }

  pub insert_message-Refines :
      (a : MessageRecordStore)
      → IsMessage a
      → Refines m (Tables.insert_message m a s) (Rooms.insert_message a t)
  unfolding Tables.insert_message Rooms.insert_message message_document text_tests lookup
  insert_message-Refines a h = record {
    workspace = written m laws s t r workspaces messages _ _ refl (λ e. cc);
    message =
        replace-Sees m messages (read_message m) laws refl s.memory.messages t.messages s.database
          r.message a.id _ a h.0.0 refl (read_message-document m laws a h);
    attachment = written m laws s t r attachments messages _ _ refl (λ e. cc);
    pending_upload = written m laws s t r pending_uploads messages _ _ refl (λ e. cc);
  }

  pub put_attachment-Refines :
      (a : AttachmentRecordStore)
      → IsAttachment a
      → Refines m (Tables.put_attachment m a s) (Files.put_attachment a t)
  unfolding Tables.put_attachment Files.put_attachment attachment_document text_tests lookup
  put_attachment-Refines a h = record {
    workspace = written m laws s t r workspaces attachments _ _ refl (λ e. cc);
    message = written m laws s t r messages attachments _ _ refl (λ e. cc);
    attachment =
        replace-Sees m attachments (read_attachment m) laws refl s.memory.attachments t.attachments
          s.database r.attachment a.id _ a h.0.0 refl (read_attachment-document m laws a h);
    pending_upload = written m laws s t r pending_uploads attachments _ _ refl (λ e. cc);
  }

  pub put_pending_upload-Refines :
      (id : Uuid) (p : PendingUploadRecord)
      → IsId id
      → IsPendingUpload p
      → Refines m (Tables.put_pending_upload m id p s) (Files.put_pending_upload id p t)
  unfolding Tables.put_pending_upload Files.put_pending_upload pending_upload_document text_tests
      lookup
  put_pending_upload-Refines id p hid h = record {
    workspace = written m laws s t r workspaces pending_uploads _ _ refl (λ e. cc);
    message = written m laws s t r messages pending_uploads _ _ refl (λ e. cc);
    attachment = written m laws s t r attachments pending_uploads _ _ refl (λ e. cc);
    pending_upload =
        replace-Sees m pending_uploads (read_pending_upload m) laws refl s.memory.pending_uploads
          t.pending_uploads s.database r.pending_upload id _ p hid refl
          (read_pending_upload-document m laws id p h);
  }

  pub take_pending_upload-Refines :
      (id : Uuid)
      → IsId id
      → Refines m ((Tables.take_pending_upload m id s).1) ((Files.take_pending_upload id t).1)
  unfolding Tables.take_pending_upload Files.take_pending_upload
  take_pending_upload-Refines id hid =
      rw (laws.find_one_and_delete_lem pending_uploads (m.show_uuid id) s.database refl) (record {
        workspace = deleted m laws s t r workspaces pending_uploads _ refl (λ e. cc);
        message = deleted m laws s t r messages pending_uploads _ refl (λ e. cc);
        attachment = deleted m laws s t r attachments pending_uploads _ refl (λ e. cc);
        pending_upload =
            delete-Sees m pending_uploads (read_pending_upload m) laws refl s.memory.pending_uploads
              t.pending_uploads s.database r.pending_upload id hid;
      })

  pub taken_alike :
      (id : Uuid)
      → IsId id
      → (Tables.take_pending_upload m id s).0 ≡ (Files.take_pending_upload id t).0
  unfolding Tables.take_pending_upload Files.take_pending_upload
  taken_alike id hid =
      rw (laws.find_one_and_delete_lem pending_uploads (m.show_uuid id) s.database refl)
        (r.pending_upload id hid)
