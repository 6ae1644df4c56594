-- ===== src/Mongo.antt =====
-- src/storage.rs with the MongoDB backend (`mongo: Some(..)`): what is written to the memory of the
-- process and to the database, and what is read of the one or the other. The driver is a
-- parameter. The functions are in `Records`, `Tables`, `Users` and `Commands`; the other modules have
-- the theorems.
pub mod Records
pub mod Tables
pub mod Views
pub mod Users
pub mod Commands
pub mod Ops
pub mod Refines
pub mod Steps
pub mod Refinement
pub mod RoundTrip
use Prim.Native.Nat.{ℕ, ◌*◌, ◌^◌, ◌<◌}
use mathlib.Core.Path.{◌≡◌}
use mathlib.Core.Logic.{◌≢◌}
use mathlib.Core.Bool.{Bool, true, false}
use mathlib.Core.Option.{Option, none, some}
use mathlib.Core.List.{List, [], ◌∷◌}
use galynx_api.Common.{ℤ, pos, negsuc, is_none, lookup, text_eq, ◌==◌, if◌then◌else◌}
use galynx_api.Text.{Str, text}
use galynx_api.Storage.{Storage, Uuid}

-- The collections of `MongoState`.
pub data Collection : Type 0 where
  workspaces audit_entries pending_uploads attachments reactions channels channel_members :
      Collection
  messages auth_users auth_memberships refresh_sessions ws_command_dedup : Collection
  ws_command_once : Collection

-- The values that the program puts into a `doc!`.
pub data Value : Type 0 where
  string : Str → Value
  int64 : ℤ → Value
  boolean : Bool → Value
  datetime : ℤ → Value
  null : Value

-- What is given to a `doc!`.
abbrev pub Fields : Type 0
Fields = List (Str × Value)

abbrev pub string_of : Option Value → Option Str
string_of (some (string s)) = some s
string_of _ = none

abbrev pub int64_of : Option Value → Option ℤ
int64_of (some (int64 n)) = some n
int64_of _ = none

abbrev pub boolean_of : Option Value → Option Bool
boolean_of (some (boolean b)) = some b
boolean_of _ = none

-- `doc! { "_id": k }`
abbrev pub by_id : Str → Fields
by_id k = (text "_id", string k) ∷ []

-- No key is given twice.
abbrev pub has_distinct_keys : Fields → Bool
has_distinct_keys [] = true
has_distinct_keys ((key, value) ∷ fields) =
    if is_none (lookup key fields) then has_distinct_keys fields else false

-- The driver and the library of identifiers. A `find_one` that fails answers `none`; the results
-- of the writes are dropped by the program.
pub record Driver : Type 1 where
  pub Document : Type 0
  pub Database : Type 0
  pub doc : Fields → Document
  pub get_str : Str → Document → Option Str
  pub get_i64 : Str → Document → Option ℤ
  pub get_bool : Str → Document → Option Bool
  pub find_one : Collection → Fields → Database → Option (Option Document)
  pub find_one_and_delete : Collection → Fields → Database → Option (Option Document) × Database
  pub delete_one : Collection → Fields → Database → Database
  pub insert_one : Collection → Fields → Database → Database
  pub show_uuid : Uuid → Str
  pub parse_str : Str → Option Uuid

-- The identifiers are of 128 bits.
abbrev pub IsId : Uuid → Type 0
IsId id = id < 2 ^ 128

-- An index refuses a document that agrees on its keys with another, or deletes documents so many
-- seconds after the time under its key, or does neither.
pub data IndexOptions : Type 0 where
  ordinary unique : IndexOptions
  expire_after : ℕ → IndexOptions

pub record IndexModel : Type 0 where
  pub keys : List (Str × ℤ)
  pub options : IndexOptions

-- The indexes that are made on each collection.
abbrev pub ensure_mongo_indexes : Collection → List IndexModel
ensure_mongo_indexes workspaces =
    record { keys = (text "name_lc", pos 1) ∷ []; options = ordinary } ∷ []
ensure_mongo_indexes auth_users =
    record { keys = (text "email", pos 1) ∷ []; options = unique } ∷ []
ensure_mongo_indexes auth_memberships =
    record { keys = (text "workspace_id", pos 1) ∷ (text "user_id", pos 1) ∷ []; options = unique }
    ∷ record { keys = (text "user_id", pos 1) ∷ []; options = ordinary }
    ∷ []
ensure_mongo_indexes channels =
    record { keys = (text "workspace_id", pos 1) ∷ (text "name", pos 1) ∷ []; options = unique }
    ∷ []
ensure_mongo_indexes channel_members =
    record { keys = (text "channel_id", pos 1) ∷ (text "user_id", pos 1) ∷ []; options = unique }
    ∷ []
ensure_mongo_indexes messages =
    record {
      keys =
          (text "channel_id", pos 1) ∷ (text "created_at", negsuc 0) ∷ (text "_id", negsuc 0) ∷ [];
      options = ordinary;
    }
    ∷ record { keys = (text "workspace_id", pos 1) ∷ []; options = ordinary }
    ∷ []
ensure_mongo_indexes attachments =
    record {
      keys =
          (text "workspace_id", pos 1)
          ∷ (text "message_id", pos 1)
          ∷ (text "created_at", pos 1)
          ∷ [];
      options = ordinary;
    }
    ∷ []
ensure_mongo_indexes audit_entries =
    record {
      keys =
          (text "workspace_id", pos 1)
          ∷ (text "created_at", negsuc 0)
          ∷ (text "_id", negsuc 0)
          ∷ [];
      options = ordinary;
    }
    ∷ []
ensure_mongo_indexes refresh_sessions =
    record { keys = (text "user_id", pos 1) ∷ (text "expires_at", pos 1) ∷ []; options = ordinary }
    ∷ record { keys = (text "expires_at_dt", pos 1) ∷ []; options = expire_after 0 }
    ∷ []
ensure_mongo_indexes reactions =
    record {
      keys = (text "message_id", pos 1) ∷ (text "emoji", pos 1) ∷ (text "user_id", pos 1) ∷ [];
      options = unique;
    }
    ∷ []
ensure_mongo_indexes ws_command_dedup =
    record {
      keys =
          (text "workspace_id", pos 1)
          ∷ (text "user_id", pos 1)
          ∷ (text "channel_id", pos 1)
          ∷ (text "client_msg_id", pos 1)
          ∷ [];
      options = unique;
    }
    ∷ []
ensure_mongo_indexes ws_command_once =
    record { keys = (text "created_at_dt", pos 1) ∷ []; options = expire_after (7 * 24 * 60 * 60) }
    ∷ []
ensure_mongo_indexes pending_uploads = []

abbrev is_ordinary : IndexOptions → Bool
is_ordinary ordinary = true
is_ordinary unique = false
is_ordinary (expire_after seconds) = false

abbrev pub are_ordinary : List IndexModel → Bool
are_ordinary [] = true
are_ordinary (index ∷ indexes) = if is_ordinary index.options then are_ordinary indexes else false

-- A collection that has only ordinary indexes: nothing is refused but for its `_id`, and nothing
-- expires.
abbrev pub IsPlain : Collection → Type 0
IsPlain c = are_ordinary (ensure_mongo_indexes c) ≡ true

-- What the program relies on: a document gives back the values that it was made of, if no key is
-- given twice; in a plain collection a document is stored if no other has its `_id`, is found under
-- that, and stays until it is deleted there; and an identifier that was printed is read back.
pub record IsLawful (m : Driver) : Type 0 where
  pub get_str-doc :
      (fields : Fields)
      → has_distinct_keys fields ≡ true
      → (key : Str) → m.get_str key (m.doc fields) ≡ string_of (lookup key fields)
  pub get_i64-doc :
      (fields : Fields)
      → has_distinct_keys fields ≡ true
      → (key : Str) → m.get_i64 key (m.doc fields) ≡ int64_of (lookup key fields)
  pub get_bool-doc :
      (fields : Fields)
      → has_distinct_keys fields ≡ true
      → (key : Str) → m.get_bool key (m.doc fields) ≡ boolean_of (lookup key fields)
  pub find_one-delete_one :
      (c : Collection) (j k : Str) (db : m.Database)
      → IsPlain c
      → m.find_one c (by_id k) (m.delete_one c (by_id j) db)
        ≡ (if j == k then some none else m.find_one c (by_id k) db)
  pub find_one-insert_one :
      (c : Collection) (j k : Str) (fields : Fields) (db : m.Database)
      → IsPlain c
      → has_distinct_keys ((text "_id", string j) ∷ fields) ≡ true
      → m.find_one c (by_id j) db ≡ some none
      → m.find_one c (by_id k) (m.insert_one c ((text "_id", string j) ∷ fields) db) ≡ (
          if j == k
          then some (some (m.doc ((text "_id", string j) ∷ fields)))
          else m.find_one c (by_id k) db)
  pub find_one_and_delete_lem :
      (c : Collection) (k : Str) (db : m.Database)
      → IsPlain c
      → m.find_one_and_delete c (by_id k) db
        ≡ (m.find_one c (by_id k) db, m.delete_one c (by_id k) db)
  pub delete_one-apart :
      (c d : Collection) (k : Str) (filter : Fields) (db : m.Database)
      → IsPlain c
      → c ≢ d
      → m.find_one c (by_id k) (m.delete_one d filter db) ≡ m.find_one c (by_id k) db
  pub insert_one-apart :
      (c d : Collection) (k : Str) (fields : Fields) (db : m.Database)
      → IsPlain c
      → c ≢ d
      → m.find_one c (by_id k) (m.insert_one d fields db) ≡ m.find_one c (by_id k) db
  pub parse_str-show_uuid : (id : Uuid) → IsId id → m.parse_str (m.show_uuid id) ≡ some id

-- The storage: the memory of the process, and the database.
pub record MongoStorage (m : Driver) : Type 0 where
  pub memory : Storage
  pub database : m.Database
