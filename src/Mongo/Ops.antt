-- ===== src/Mongo/Ops.antt =====
-- src/storage.rs: the operations on the plain collections, as data, and what each does with the memory alone and with the database.
use mathlib.Core.Option.{Option}
use mathlib.Core.List.{List, [], ◌∷◌}
use galynx_api.Storage.{
  Storage, Uuid, WorkspaceRecordStore, PendingUploadRecord, AttachmentRecordStore,
  MessageRecordStore,
}
use galynx_api.Storage.Accounts
use galynx_api.Storage.Rooms
use galynx_api.Storage.Files
use galynx_api.Mongo.{Driver, MongoStorage, IsId}
use galynx_api.Mongo.RoundTrip.{IsWorkspace, IsMessage, IsAttachment, IsPendingUpload}
use galynx_api.Mongo.Tables

pub data Op : Type 0 where
  put_workspace : WorkspaceRecordStore → Op
  insert_message update_message : MessageRecordStore → Op
  put_attachment : AttachmentRecordStore → Op
  put_pending_upload : Uuid → PendingUploadRecord → Op
  take_pending_upload : Uuid → Op
  get_workspace get_message get_attachment : Uuid → Op

pub data Answer : Type 0 where
  done : Answer
  workspace : Option WorkspaceRecordStore → Answer
  message : Option MessageRecordStore → Answer
  attachment : Option AttachmentRecordStore → Answer
  upload : Option PendingUploadRecord → Answer

-- One operation on the storage in memory.
unfoldable pub in_memory : Op → Storage → Answer × Storage
in_memory (put_workspace w) t = (done, Accounts.put_workspace w t)
in_memory (insert_message r) t = (done, Rooms.insert_message r t)
in_memory (update_message r) t = (done, Rooms.update_message r t)
in_memory (put_attachment r) t = (done, Files.put_attachment r t)
in_memory (put_pending_upload id r) t = (done, Files.put_pending_upload id r t)
in_memory (take_pending_upload id) t =
    let (taken, t') = Files.take_pending_upload id t in (upload taken, t')
in_memory (get_workspace id) t = (workspace (Accounts.get_workspace id t), t)
in_memory (get_message id) t = (message (Rooms.get_message id t), t)
in_memory (get_attachment id) t = (attachment (Files.get_attachment id t), t)

-- Identifiers are of 128 bits, and sizes are `u64`.
abbrev pub IsStorable : Op → Type 0
IsStorable (put_workspace w) = IsWorkspace w
IsStorable (insert_message r) = IsMessage r
IsStorable (update_message r) = IsMessage r
IsStorable (put_attachment r) = IsAttachment r
IsStorable (put_pending_upload id r) = IsId id × IsPendingUpload r
IsStorable (take_pending_upload id) = IsId id
IsStorable (get_workspace id) = IsId id
IsStorable (get_message id) = IsId id
IsStorable (get_attachment id) = IsId id

module _ (m : Driver) where
  -- One operation on the storage with the database.
  unfoldable pub in_database : Op → MongoStorage m → Answer × MongoStorage m
  in_database (put_workspace w) s = (done, Tables.put_workspace m w s)
  in_database (insert_message r) s = (done, Tables.insert_message m r s)
  in_database (update_message r) s = (done, Tables.update_message m r s)
  in_database (put_attachment r) s = (done, Tables.put_attachment m r s)
  in_database (put_pending_upload id r) s = (done, Tables.put_pending_upload m id r s)
  in_database (take_pending_upload id) s =
      let (taken, s') = Tables.take_pending_upload m id s in (upload taken, s')
  in_database (get_workspace id) s = (workspace (Tables.get_workspace m id s), s)
  in_database (get_message id) s = (message (Tables.get_message m id s), s)
  in_database (get_attachment id) s = (attachment (Tables.get_attachment m id s), s)

-- A sequence of operations: the answers, in order, and the state after them.
unfoldable pub run : {S : Type 0} → (Op → S → Answer × S) → List Op → S → List Answer × S
run step [] s = ([], s)
run step (op ∷ ops) s =
    let (answer, s') = step op s in let (answers, s'') = run step ops s' in (answer ∷ answers, s'')
