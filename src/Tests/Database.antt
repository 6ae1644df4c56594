-- ===== src/Tests/Database.antt =====
-- A database as a function from collections and identifiers to documents, and a run of the storage
-- on it.
use Prim.Native.Nat.{ℕ}
use mathlib.Core.Path.{Path, ◌≡◌, refl, ap}
use mathlib.Core.Logic.{◌≢◌, inl, inr}
use mathlib.Core.Option.{Option, none, some}
use mathlib.Core.List.{List, [], ◌∷◌}
use native.Mathlib.Omega.{arith}
use galynx_api.Common.{
  contains, lookup, eqb, eqb_iff, nat_eq, text_eq, ◌==◌, if◌then◌else◌, pos, All, Bool-cases,
}
use galynx_api.Text.{Str, text}
use galynx_api.Storage.{Uuid, PendingUploadRecord, new}
use galynx_api.Mongo.{
  Driver, IsLawful, MongoStorage, Collection, Fields, string, string_of, int64_of, boolean_of,
  workspaces, audit_entries, pending_uploads, attachments, reactions, channels, channel_members,
  messages, auth_users, auth_memberships, refresh_sessions, ws_command_dedup, ws_command_once,
}
use galynx_api.Mongo.Ops.{
  Op, in_memory, in_database, run, put_pending_upload, take_pending_upload, insert_message,
  update_message, get_message,
}
use galynx_api.Mongo.Refines.{Refines}
use galynx_api.Mongo.Refinement.{Alike, run-Refines}
use galynx_api.Tests.Data.{note}

abbrev code : Collection → ℕ
code workspaces = 0
code audit_entries = 1
code pending_uploads = 2
code attachments = 3
code reactions = 4
code channels = 5
code channel_members = 6
code messages = 7
code auth_users = 8
code auth_memberships = 9
code refresh_sessions = 10
code ws_command_dedup = 11
code ws_command_once = 12

abbrev collection : ℕ → Collection
collection n =
    if eqb n 0
    then workspaces
    else if eqb n 1
    then audit_entries
    else if eqb n 2
    then pending_uploads
    else if eqb n 3
    then attachments
    else if eqb n 4
    then reactions
    else if eqb n 5
    then channels
    else if eqb n 6
    then channel_members
    else if eqb n 7
    then messages
    else if eqb n 8
    then auth_users
    else if eqb n 9
    then auth_memberships
    else if eqb n 10
    then refresh_sessions
    else if eqb n 11
    then ws_command_dedup
    else ws_command_once

collection-code : (c : Collection) → collection (code c) ≡ c
collection-code workspaces = refl
collection-code audit_entries = refl
collection-code pending_uploads = refl
collection-code attachments = refl
collection-code reactions = refl
collection-code channels = refl
collection-code channel_members = refl
collection-code messages = refl
collection-code auth_users = refl
collection-code auth_memberships = refl
collection-code refresh_sessions = refl
collection-code ws_command_dedup = refl
collection-code ws_command_once = refl

abbrev Tables : Type 0
Tables = Collection → Str → Option Fields

abbrev update : Collection → Str → Option Fields → Tables → Tables
update c j document tables d k =
    if eqb (code c) (code d) then (if j == k then document else tables d k) else tables d k

abbrev at_id : (Str → Tables → Tables) → Option Str → Tables → Tables
at_id f none tables = tables
at_id f (some k) tables = f k tables

abbrev find : Collection → Option Str → Tables → Option (Option Fields)
find c none tables = none
find c (some k) tables = some (tables c k)

abbrev id_of : Fields → Option Str
id_of fields = string_of (lookup (text "_id") fields)

abbrev parsed : Str → Option Uuid
parsed (n ∷ []) = some n
parsed _ = none

abbrev driver : Driver
driver = record {
  Document = Fields;
  Database = Tables;
  doc = λ fields. fields;
  get_str = λ key document. string_of (lookup key document);
  get_i64 = λ key document. int64_of (lookup key document);
  get_bool = λ key document. boolean_of (lookup key document);
  find_one = λ c filter tables. find c (id_of filter) tables;
  find_one_and_delete = λ c filter tables.
      (find c (id_of filter) tables, at_id (λ k. update c k none) (id_of filter) tables);
  delete_one = λ c filter tables. at_id (λ k. update c k none) (id_of filter) tables;
  insert_one = λ c fields tables. at_id (λ k. update c k (some fields)) (id_of fields) tables;
  show_uuid = λ id. id ∷ [];
  parse_str = parsed;
}

update-apart :
    (c d : Collection) (j k : Str) (document : Option Fields) (tables : Tables)
    → c ≢ d
    → update d j document tables c k ≡ tables c k
update-apart c d j k document tables apart =
    ground (arith, eqb_iff (code d) (code c), collection-code c, collection-code d, ap collection)

update-same :
    (c : Collection) (j k : Str) (document : Option Fields) (tables : Tables)
    → update c j document tables c k ≡ (if j == k then document else tables c k)
update-same c j k document tables = ground (arith, eqb_iff (code c) (code c))

found-update :
    (c : Collection) (j k : Str) (document : Option Fields) (tables : Tables)
    → Path
        (Option (Option Fields))
        (some (update c j document tables c k))
        (if j == k then some document else some (tables c k))
found-update c j k document tables =
    rw (update-same c j k document tables)
      (elim (Bool-cases (j == k)) [ inl same ↦ rw same refl | inr other ↦ rw other refl ])

at_id-apart :
    (c d : Collection) (k : Str) (document : Option Fields) (o : Option Str) (tables : Tables)
    → c ≢ d
    → at_id (λ j. update d j document) o tables c k ≡ tables c k
at_id-apart c d k document none tables apart = refl
at_id-apart c d k document (some j) tables apart = update-apart c d j k document tables apart

driver-IsLawful : IsLawful driver
unfolding lookup galynx_api.Common.text_beq text
driver-IsLawful = record {
  get_str-doc = λ fields keys key. refl;
  get_i64-doc = λ fields keys key. refl;
  get_bool-doc = λ fields keys key. refl;
  find_one-delete_one = λ c j k db plain. found-update c j k none db;
  find_one-insert_one = λ c j k fields db plain keys h.
      found-update c j k (some ((text "_id", string j) ∷ fields)) db;
  find_one_and_delete_lem = λ c k db plain. refl;
  delete_one-apart =
      λ c d k filter db plain apart. ap some (at_id-apart c d k none (id_of filter) db apart);
  insert_one-apart = λ c d k fields db plain apart.
      ap some (at_id-apart c d k (some fields) (id_of fields) db apart);
  parse_str-show_uuid = λ id h. refl;
}

abbrev empty : MongoStorage driver
empty = record { memory = new; database = λ c k. none }

abbrev pending : PendingUploadRecord
pending = record {
  workspace_id = 1;
  channel_id = 11;
  uploader_id = 4;
  filename = text "f";
  content_type = text "image/png";
  size_bytes = 5;
  storage_key = text "k";
  expires_at = pos 900;
  created_at = pos 1;
}

-- A message that is edited, and an upload that is taken twice.
abbrev ops : List Op
ops =
    insert_message (note 20 100)
    ∷ put_pending_upload 30 pending
    ∷ update_message (record (note 20 100) { body_md = text "new" })
    ∷ get_message 20
    ∷ take_pending_upload 30
    ∷ take_pending_upload 30
    ∷ []

empty-Refines : Refines driver empty new
unfolding new lookup galynx_api.Common.text_beq text
empty-Refines = record {
  workspace = λ k h. refl;
  message = λ k h. refl;
  attachment = λ k h. refl;
  pending_upload = λ k h. refl;
}

run-Refines_example : Alike driver (run (in_database driver) ops empty) (run in_memory ops new)
run-Refines_example = run-Refines driver driver-IsLawful ops empty new empty-Refines (ground arith)
