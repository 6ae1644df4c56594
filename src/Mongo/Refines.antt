-- ===== src/Mongo/Refines.antt =====
-- src/storage.rs: the relation of the storage with a database to the storage in memory, and what it
-- keeps of the collections that an operation does not write.
use mathlib.Core.Path.{◌≡◌}
use mathlib.Core.Logic.{◌≢◌}
use galynx_api.Common.{nat_eq, text_eq, pair_eq}
use galynx_api.Text.{Str}
use galynx_api.Storage.{Storage}
use galynx_api.Mongo.{
  Driver, IsLawful, IsPlain, MongoStorage, Collection, Fields, by_id, workspaces, messages,
  attachments, pending_uploads,
}
use galynx_api.Mongo.Tables
use galynx_api.Mongo.Views.{replace-apart, Sees, apart-Sees}
use galynx_api.Mongo.Records.{read_workspace, read_message, read_attachment, read_pending_upload}

module _ (m : Driver) where
  -- What is read under each identifier of a collection is what the table of the other storage has.
  -- Of the collections that are not plain, nothing is asked.
  abbrev pub SeesIn : Collection → Storage → m.Database → Storage → Type 0
  SeesIn workspaces memory database t =
      Sees m workspaces (read_workspace m) memory.workspaces database t.workspaces
  SeesIn messages memory database t =
      Sees m messages (read_message m) memory.messages database t.messages
  SeesIn attachments memory database t =
      Sees m attachments (read_attachment m) memory.attachments database t.attachments
  SeesIn pending_uploads memory database t =
      Sees m pending_uploads (read_pending_upload m) memory.pending_uploads database
        t.pending_uploads
  SeesIn _ memory database t = Unit

  -- What the storage with the database reads under each identifier is what the other has.
  pub record Refines (s : MongoStorage m) (t : Storage) : Type 0 where
    pub workspace : SeesIn workspaces s.memory s.database t
    pub message : SeesIn messages s.memory s.database t
    pub attachment : SeesIn attachments s.memory s.database t
    pub pending_upload : SeesIn pending_uploads s.memory s.database t

  module _ (laws : IsLawful m) (s : MongoStorage m) (t : Storage) (r : Refines s t) where
    -- A collection keeps what is read of it where another is written.
    kept :
        (c : Collection) (database : m.Database)
        → ((k : Str) → m.find_one c (by_id k) database ≡ m.find_one c (by_id k) s.database)
        → SeesIn c s.memory database t
    kept workspaces database h =
        apart-Sees m workspaces (read_workspace m) s.memory.workspaces t.workspaces s.database
          database r.workspace h
    kept messages database h =
        apart-Sees m messages (read_message m) s.memory.messages t.messages s.database database
          r.message h
    kept attachments database h =
        apart-Sees m attachments (read_attachment m) s.memory.attachments t.attachments s.database
          database r.attachment h
    kept pending_uploads database h =
        apart-Sees m pending_uploads (read_pending_upload m) s.memory.pending_uploads
          t.pending_uploads s.database database r.pending_upload h
    kept _ database h = tt

    pub written :
        (c d : Collection) (j : Str) (document : Fields)
        → IsPlain c
        → c ≢ d
        → SeesIn c s.memory (Tables.replace m d j document s.database) t
    written c d j document plain apart =
        kept c _ (λ k. replace-apart m laws c plain k s.database d j document apart)

    pub deleted :
        (c d : Collection) (filter : Fields)
        → IsPlain c
        → c ≢ d
        → SeesIn c s.memory (m.delete_one d filter s.database) t
    deleted c d filter plain apart =
        kept c _ (λ k. laws.delete_one-apart c d k filter s.database plain apart)
