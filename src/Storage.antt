-- ===== src/Storage.antt =====
-- src/storage.rs with the memory backend (`mongo: None`): the records that the services store and
-- the state that holds them. Identifiers are 128-bit numbers, times are `i64`.
pub mod Accounts
pub mod Rooms
pub mod Files
pub mod Commands
pub mod Consistency
pub mod Lookups
use Prim.Native.Nat.{ℕ}
use mathlib.Core.Bool.{Bool}
use mathlib.Core.Option.{Option}
use mathlib.Core.List.{List, []}
use galynx_api.Common.{ℤ, Map}
use galynx_api.Text.{Str}

-- `Uuid`, by its value `as_u128`, which orders as the type does.
abbrev pub Uuid : Type 0
Uuid = ℕ

-- The identifier and the time that a call draws (`Uuid::new_v4` or `new_v7`, `Utc::now`).
pub record Stamp : Type 0 where
  pub uuid : Uuid
  pub time : ℤ

pub record WorkspaceRecordStore : Type 0 where
  pub id : Uuid
  pub name : Str
  pub created_by : Uuid
  pub created_at : ℤ

-- The shapes of the JSON values that the handlers of the program pass to `AuditService::write`.
pub data Metadata : Type 0 where
  empty : Metadata
  login : Str → Metadata
  reason : Str → Metadata
  transport : Str → Metadata
  channel : Str → Bool → Metadata
  member_user : Uuid → Metadata
  message : Uuid → Option Uuid → Metadata
  message_channel : Uuid → Metadata
  message_command : Uuid → Option Str → Metadata
  reaction_command : Str → Option Str → Metadata
  upload : Str → ℤ → Metadata
  attachment : Uuid → Option Uuid → Metadata
  attachment_url : ℤ → Metadata
  user : Str → Str → Metadata
  workspace : Str → Metadata
  reply : Uuid → Uuid → Metadata

pub record AuditEntryRecord : Type 0 where
  pub id : Uuid
  pub workspace_id : Uuid
  pub actor_id : Option Uuid
  pub action : Str
  pub target_type : Str
  pub target_id : Option Str
  pub metadata : Metadata
  pub created_at : ℤ

pub record PendingUploadRecord : Type 0 where
  pub workspace_id : Uuid
  pub channel_id : Uuid
  pub uploader_id : Uuid
  pub filename : Str
  pub content_type : Str
  pub size_bytes : ℕ
  pub storage_key : Str
  pub expires_at : ℤ
  pub created_at : ℤ

pub record AttachmentRecordStore : Type 0 where
  pub id : Uuid
  pub workspace_id : Uuid
  pub channel_id : Uuid
  pub message_id : Option Uuid
  pub uploader_id : Uuid
  pub filename : Str
  pub content_type : Str
  pub size_bytes : ℕ
  pub bucket : Str
  pub key : Str
  pub region : Str
  pub created_at : ℤ

pub record ChannelRecordStore : Type 0 where
  pub id : Uuid
  pub workspace_id : Uuid
  pub name : Str
  pub is_private : Bool
  pub created_by : Uuid
  pub created_at : ℤ

pub record MessageRecordStore : Type 0 where
  pub id : Uuid
  pub workspace_id : Uuid
  pub channel_id : Uuid
  pub sender_id : Uuid
  pub body_md : Str
  pub thread_root_id : Option Uuid
  pub created_at : ℤ
  pub edited_at : Option ℤ
  pub deleted_at : Option ℤ

pub record AuthUserRecordStore : Type 0 where
  pub id : Uuid
  pub email : Str
  pub name : Str
  pub password_hash : Str

pub record RefreshSessionRecordStore : Type 0 where
  pub user_id : Uuid
  pub workspace_id : Uuid
  pub expires_at : ℤ
  pub revoked_at : Option ℤ
  pub replaced_by_hash : Option Str

-- Workspace, user, channel and the trimmed `client_msg_id`.
abbrev pub WsDedupKey : Type 0
WsDedupKey = (Uuid × Uuid) × (Uuid × Str)

pub record Storage : Type 0 where
  pub workspaces : Map Uuid WorkspaceRecordStore
  pub audit_entries : List AuditEntryRecord
  pub pending_uploads : Map Uuid PendingUploadRecord
  pub attachments : Map Uuid AttachmentRecordStore
  pub reactions : List (Uuid × (Str × Uuid))
  pub channels : Map Uuid ChannelRecordStore
  pub channel_members : List (Uuid × Uuid)
  pub messages : Map Uuid MessageRecordStore
  pub auth_users : Map Uuid AuthUserRecordStore
  pub auth_users_by_email : Map Str Uuid
  pub auth_memberships : Map (Uuid × Uuid) Str
  pub refresh_sessions : Map Str RefreshSessionRecordStore
  pub ws_command_dedup : Map WsDedupKey Uuid
  pub ws_command_once : List Str

-- `Storage::new` with the memory backend.
unfoldable pub new : Storage
new = record {
  workspaces = [];
  audit_entries = [];
  pending_uploads = [];
  attachments = [];
  reactions = [];
  channels = [];
  channel_members = [];
  messages = [];
  auth_users = [];
  auth_users_by_email = [];
  auth_memberships = [];
  refresh_sessions = [];
  ws_command_dedup = [];
  ws_command_once = [];
}
