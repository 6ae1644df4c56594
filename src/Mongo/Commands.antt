-- ===== src/Mongo/Commands.antt =====
-- src/storage.rs with MongoDB: the marks of websocket commands, under a key of their own.
use mathlib.Core.Bool.{Bool}
use mathlib.Core.Option.{Option, none, some}
use mathlib.Core.List.{[], ◌∷◌, ◌++◌}
use galynx_api.Common.{ℤ, is_some, text_eq, nat_eq, pair_eq}
use galynx_api.Text.{Str, text}
use galynx_api.Storage.{Uuid, WsDedupKey}
use galynx_api.Storage.Commands
use galynx_api.Mongo.{
  Driver, MongoStorage, Fields, by_id, string, int64, datetime, ws_command_dedup, ws_command_once,
}
use galynx_api.Mongo.Records.{uuid_field}
use galynx_api.Mongo.Tables.{replace, found_or}

module _ (m : Driver) where
  -- `format!("{}:{}:{}:{}", ..)`
  unfoldable pub mongo_id : WsDedupKey → Str
  mongo_id ((workspace_id, user_id), (channel_id, client_msg_id)) =
      m.show_uuid workspace_id
      ++ b':' ∷ (m.show_uuid user_id ++ b':' ∷ (m.show_uuid channel_id ++ b':' ∷ client_msg_id))

  unfoldable pub dedup_document : WsDedupKey → Uuid → ℤ → Fields
  unfolding mongo_id
  dedup_document ((workspace_id, user_id), (channel_id, client_msg_id)) message_id created_at =
      (text "_id", string (mongo_id ((workspace_id, user_id), (channel_id, client_msg_id))))
      ∷ (text "workspace_id", string (m.show_uuid workspace_id))
      ∷ (text "user_id", string (m.show_uuid user_id))
      ∷ (text "channel_id", string (m.show_uuid channel_id))
      ∷ (text "client_msg_id", string client_msg_id)
      ∷ (text "message_id", string (m.show_uuid message_id))
      ∷ (text "created_at", int64 created_at)
      ∷ []

  unfoldable pub read_message_id : m.Document → Option Uuid
  unfolding uuid_field
  read_message_id document = uuid_field m document (text "message_id")

  unfoldable pub put_ws_command_message_id :
      Uuid → Uuid → Uuid → Str → Uuid → ℤ → MongoStorage m → MongoStorage m
  unfolding replace Commands.dedup_key
  put_ws_command_message_id workspace_id user_id channel_id client_msg_id message_id created_at s =
      let key = Commands.dedup_key workspace_id user_id channel_id client_msg_id in
      record {
        memory =
            Commands.put_ws_command_message_id workspace_id user_id channel_id client_msg_id
              message_id s.memory;
        database =
            replace m ws_command_dedup (mongo_id key) (dedup_document key message_id created_at)
              s.database;
      }

  unfoldable pub get_ws_command_message_id : Uuid → Uuid → Uuid → Str → MongoStorage m → Option Uuid
  unfolding Commands.dedup_key
  get_ws_command_message_id workspace_id user_id channel_id client_msg_id s =
      let key = Commands.dedup_key workspace_id user_id channel_id client_msg_id in
      found_or m read_message_id
        (Commands.get_ws_command_message_id workspace_id user_id channel_id client_msg_id s.memory)
        (m.find_one ws_command_dedup (by_id (mongo_id key)) s.database)

  unfoldable pub once_document : Str → ℤ → Fields
  once_document key created_at =
      (text "_id", string key)
      ∷ (text "created_at", int64 created_at)
      ∷ (text "created_at_dt", datetime created_at)
      ∷ []

  -- `if let Ok(found) = .. { return found.is_some(); }`, and the test of the memory.
  abbrev pub seen_or : Bool → Option (Option m.Document) → Bool
  seen_or in_memory none = in_memory
  seen_or in_memory (some found) = is_some found

  unfoldable pub has_ws_command_once : Str → MongoStorage m → Bool
  has_ws_command_once key s =
      seen_or (Commands.has_ws_command_once key s.memory)
        (m.find_one ws_command_once (by_id key) s.database)

  unfoldable pub put_ws_command_once : Str → ℤ → MongoStorage m → MongoStorage m
  unfolding replace
  put_ws_command_once key created_at s = record {
    memory = Commands.put_ws_command_once key s.memory;
    database = replace m ws_command_once key (once_document key created_at) s.database;
  }
