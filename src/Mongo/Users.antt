-- ===== src/Mongo/Users.antt =====
-- src/storage.rs with MongoDB: users, which are written under their identifiers.
use mathlib.Core.Option.{Option, some}
use mathlib.Core.List.{[], ◌∷◌}
use galynx_api.Text.{text, to_ascii_lowercase}
use galynx_api.Storage.{Uuid, AuthUserRecordStore}
use galynx_api.Storage.Accounts
use galynx_api.Mongo.{Driver, MongoStorage, Fields, by_id, string, auth_users}
use galynx_api.Mongo.Records.{◌>>=◌, or_default, uuid_field, string_field}
use galynx_api.Mongo.Tables.{replace, found_or}

module _ (m : Driver) where
  unfoldable pub auth_user_document : AuthUserRecordStore → Fields
  auth_user_document user =
      (text "_id", string (m.show_uuid user.id))
      ∷ (text "email", string (to_ascii_lowercase user.email))
      ∷ (text "name", string user.name)
      ∷ (text "password_hash", string user.password_hash)
      ∷ []

  unfoldable pub read_auth_user : m.Document → Option AuthUserRecordStore
  unfolding uuid_field string_field
  read_auth_user document = do
    id ← uuid_field m document (text "_id")
    some (record {
      id = id;
      email = or_default [] (string_field m document (text "email"));
      name = or_default [] (string_field m document (text "name"));
      password_hash = or_default [] (string_field m document (text "password_hash"));
    })

  unfoldable pub put_auth_user : AuthUserRecordStore → MongoStorage m → MongoStorage m
  unfolding replace
  put_auth_user user s = record {
    memory = Accounts.put_auth_user user s.memory;
    database = replace m auth_users (m.show_uuid user.id) (auth_user_document user) s.database;
  }

  unfoldable pub get_auth_user_by_id : Uuid → MongoStorage m → Option AuthUserRecordStore
  get_auth_user_by_id id s =
      found_or m read_auth_user (Accounts.get_auth_user_by_id id s.memory)
        (m.find_one auth_users (by_id (m.show_uuid id)) s.database)
