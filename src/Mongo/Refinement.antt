-- ===== src/Mongo/Refinement.antt =====
-- src/storage.rs: the storage with a database answers as the storage in memory does, for any
-- sequence of operations on the plain collections.
use mathlib.Core.Path.{◌≡◌, refl, ap}
use mathlib.Core.List.{List, [], ◌∷◌}
use galynx_api.Common.{All}
use galynx_api.Storage.{Storage}
use galynx_api.Storage.Accounts
use galynx_api.Storage.Rooms
use galynx_api.Storage.Files
use galynx_api.Mongo.{Driver, IsLawful, MongoStorage}
use galynx_api.Mongo.Tables
use galynx_api.Mongo.Ops.{
  Op, IsStorable, in_memory, in_database, run, put_workspace, insert_message, update_message,
  put_attachment, put_pending_upload, take_pending_upload, get_workspace, get_message,
  get_attachment, workspace, message, attachment, upload,
}
use galynx_api.Mongo.Refines.{Refines}
use galynx_api.Mongo.Steps.{
  put_workspace-Refines, insert_message-Refines, put_attachment-Refines, put_pending_upload-Refines,
  take_pending_upload-Refines, taken_alike,
}

module _ (m : Driver) where
  -- The same answer, and states that read alike.
  abbrev pub Alike : {A : Type 0} → A × MongoStorage m → A × Storage → Type 0
  Alike (a, s) (b, t) = (a ≡ b) × Refines m s t

  module _ (laws : IsLawful m) where
    module _ (s : MongoStorage m) (t : Storage) (r : Refines m s t) where
      step-Refines : (op : Op) → IsStorable op → Alike (in_database m op s) (in_memory op t)
      unfolding in_database in_memory Tables.update_message Rooms.update_message
          Rooms.insert_message Tables.get_workspace Accounts.get_workspace Tables.get_message
          Rooms.get_message Tables.get_attachment Files.get_attachment
      step-Refines (put_workspace w) h = (refl, put_workspace-Refines m laws s t r w h)
      step-Refines (insert_message a) h = (refl, insert_message-Refines m laws s t r a h)
      step-Refines (update_message a) h = (refl, insert_message-Refines m laws s t r a h)
      step-Refines (put_attachment a) h = (refl, put_attachment-Refines m laws s t r a h)
      step-Refines (put_pending_upload id p) (hid, h) =
          (refl, put_pending_upload-Refines m laws s t r id p hid h)
      step-Refines (take_pending_upload id) h =
          (ap upload (taken_alike m laws s t r id h), take_pending_upload-Refines m laws s t r id h)
      step-Refines (get_workspace id) h = (ap workspace (r.workspace id h), r)
      step-Refines (get_message id) h = (ap message (r.message id h), r)
      step-Refines (get_attachment id) h = (ap attachment (r.attachment id h), r)

    -- A storage with a database and a storage in memory that read alike give the same answers to
    -- every sequence of operations, and read alike after it. The operations write and read
    -- workspaces, messages and attachments, and write and take pending uploads, by identifiers of
    -- 128 bits and with sizes below `2 ^ 64`: these collections have no index that is unique or
    -- that expires documents. The database does what the laws of the driver say: the calls
    -- succeed, and no other process writes.
    pub run-Refines :
        (ops : List Op) (s : MongoStorage m) (t : Storage)
        → Refines m s t
        → All IsStorable ops
        → Alike (run (in_database m) ops s) (run in_memory ops t)
    unfolding run
    run-Refines [] s t r h = (refl, r)
    run-Refines (op ∷ ops) s t r (h, hs) =
        let (same, after) = step-Refines s t r op h in
        let (rest, last) = run-Refines ops (in_database m op s).1 (in_memory op t).1 after hs in
        (cc, last)
