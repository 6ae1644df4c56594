-- ===== src/Mongo/Tables.antt =====
-- src/storage.rs with MongoDB: each write goes to the memory of the process and to the database;
-- each read asks the database first, and takes what the memory has where the database fails or has
-- no such document.
use mathlib.Core.Option.{Option, none, some}
use galynx_api.Text.{Str}
use galynx_api.Storage.{
  Uuid, WorkspaceRecordStore, PendingUploadRecord, AttachmentRecordStore, ChannelRecordStore,
  MessageRecordStore, RefreshSessionRecordStore,
}
use galynx_api.Storage.Accounts
use galynx_api.Storage.Rooms
use galynx_api.Storage.Files
use galynx_api.Mongo.{
  Driver, MongoStorage, Collection, Fields, by_id, workspaces, channels, messages, attachments,
  pending_uploads, refresh_sessions,
}
use galynx_api.Mongo.Records.{
  read_workspace, workspace_document, read_channel, channel_document, read_message,
  message_document, read_session, session_document, read_attachment, attachment_document,
  read_pending_upload, pending_upload_document,
}

module _ (m : Driver) where
  -- `delete_one(..)`, then `insert_one(..)`
  unfoldable pub replace : Collection → Str → Fields → m.Database → m.Database
  replace c id document database = m.insert_one c document (m.delete_one c (by_id id) database)

  -- `if let Ok(Some(document)) = found { return .. }`, and the value of the memory.
  abbrev pub found_or :
      {A : Type 0} → (m.Document → Option A) → Option A → Option (Option m.Document) → Option A
  found_or read in_memory none = in_memory
  found_or read in_memory (some none) = in_memory
  found_or read in_memory (some (some document)) = read document

  unfoldable pub put_workspace : WorkspaceRecordStore → MongoStorage m → MongoStorage m
  unfolding replace
  put_workspace workspace s = record {
    memory = Accounts.put_workspace workspace s.memory;
    database =
        replace workspaces (m.show_uuid workspace.id) (workspace_document m workspace) s.database;
  }

  unfoldable pub get_workspace : Uuid → MongoStorage m → Option WorkspaceRecordStore
  get_workspace id s =
      found_or (read_workspace m) (Accounts.get_workspace id s.memory)
        (m.find_one workspaces (by_id (m.show_uuid id)) s.database)

  unfoldable pub insert_channel : ChannelRecordStore → MongoStorage m → MongoStorage m
  unfolding replace
  insert_channel channel s = record {
    memory = Rooms.insert_channel channel s.memory;
    database = replace channels (m.show_uuid channel.id) (channel_document m channel) s.database;
  }

  unfoldable pub get_channel : Uuid → MongoStorage m → Option ChannelRecordStore
  get_channel id s =
      found_or (read_channel m) (Rooms.get_channel id s.memory)
        (m.find_one channels (by_id (m.show_uuid id)) s.database)

  unfoldable pub remove_channel : Uuid → MongoStorage m → Option ChannelRecordStore × MongoStorage m
  remove_channel id s =
      let (found, database) = m.find_one_and_delete channels (by_id (m.show_uuid id)) s.database in
      (
        found_or (read_channel m) (Rooms.get_channel id s.memory) found,
        record { memory = Rooms.remove_channel id s.memory; database = database },
      )

  unfoldable pub insert_message : MessageRecordStore → MongoStorage m → MongoStorage m
  unfolding replace
  insert_message message s = record {
    memory = Rooms.insert_message message s.memory;
    database = replace messages (m.show_uuid message.id) (message_document m message) s.database;
  }

  unfoldable pub get_message : Uuid → MongoStorage m → Option MessageRecordStore
  get_message id s =
      found_or (read_message m) (Rooms.get_message id s.memory)
        (m.find_one messages (by_id (m.show_uuid id)) s.database)

  unfoldable pub update_message : MessageRecordStore → MongoStorage m → MongoStorage m
  unfolding insert_message
  update_message message s = insert_message message s

  unfoldable pub put_attachment : AttachmentRecordStore → MongoStorage m → MongoStorage m
  unfolding replace
  put_attachment attachment s = record {
    memory = Files.put_attachment attachment s.memory;
    database =
        replace attachments (m.show_uuid attachment.id) (attachment_document m attachment)
          s.database;
  }

  unfoldable pub get_attachment : Uuid → MongoStorage m → Option AttachmentRecordStore
  get_attachment id s =
      found_or (read_attachment m) (Files.get_attachment id s.memory)
        (m.find_one attachments (by_id (m.show_uuid id)) s.database)

  unfoldable pub put_pending_upload : Uuid → PendingUploadRecord → MongoStorage m → MongoStorage m
  unfolding replace
  put_pending_upload id pending s = record {
    memory = Files.put_pending_upload id pending s.memory;
    database =
        replace pending_uploads (m.show_uuid id) (pending_upload_document m id pending) s.database;
  }

  unfoldable pub take_pending_upload :
      Uuid → MongoStorage m → Option PendingUploadRecord × MongoStorage m
  take_pending_upload id s =
      let (in_memory, memory) = Files.take_pending_upload id s.memory in
      let (deleted, database) =
        m.find_one_and_delete pending_uploads (by_id (m.show_uuid id)) s.database in
      (
        found_or (read_pending_upload m) in_memory deleted,
        record { memory = memory; database = database },
      )

  unfoldable pub put_refresh_session :
      Str → RefreshSessionRecordStore → MongoStorage m → MongoStorage m
  unfolding replace
  put_refresh_session token_hash session s = record {
    memory = Accounts.put_refresh_session token_hash session s.memory;
    database =
        replace refresh_sessions token_hash (session_document m token_hash session) s.database;
  }

  unfoldable pub get_refresh_session : Str → MongoStorage m → Option RefreshSessionRecordStore
  get_refresh_session token_hash s =
      found_or (read_session m) (Accounts.get_refresh_session token_hash s.memory)
        (m.find_one refresh_sessions (by_id token_hash) s.database)

  abbrev pub updated :
      Str
      → (RefreshSessionRecordStore → RefreshSessionRecordStore)
      → Option RefreshSessionRecordStore
      → MongoStorage m
      → Option RefreshSessionRecordStore × MongoStorage m
  updated token_hash update_fn none s = (none, s)
  updated token_hash update_fn (some session) s =
      (some (update_fn session), put_refresh_session token_hash (update_fn session) s)

  unfoldable pub update_refresh_session :
      Str
      → (RefreshSessionRecordStore → RefreshSessionRecordStore)
      → MongoStorage m
      → Option RefreshSessionRecordStore × MongoStorage m
  unfolding get_refresh_session put_refresh_session
  update_refresh_session token_hash update_fn s =
      updated token_hash update_fn (get_refresh_session token_hash s) s
