-- ===== src/Channels.antt =====
-- src/channels.rs, `ChannelService`: the seed, channels and their members. Messages and threads
-- are in the modules below, and the HTTP handlers in `Http`.
pub mod Responses
pub mod Messages
pub mod Threads
pub mod Access
pub mod Seed
pub mod Removal
use mathlib.Core.Bool.{Bool, true, false, not, ◌&&◌}
use mathlib.Core.Option.{Option, none, some}
use mathlib.Core.List.{List, [], ◌∷◌, map}
use galynx_api.Common.{
  ◌==◌, nat_eq, if◌then◌else◌, is_empty, is_none, ltb, ltb_ℤ, sort_by, sort_dedup, ℤ,
}
use galynx_api.Text.{Str, text, trim, to_ascii_lowercase}
use galynx_api.Errors.{
  ApiError, bad_request, not_found, unauthorized, Action, ◌>>=◌, ◌>>◌, pure, gets, modify, or_fail,
  fail_if,
}
use galynx_api.Auth.Context.{AuthContext, is_manager}
use galynx_api.Storage.{Storage, Uuid, Stamp, ChannelRecordStore}
use galynx_api.Storage.Rooms.{
  list_channels as stored_channels, channel_name_exists, insert_channel, get_channel,
  remove_channel, add_channel_member as store_member, remove_channel_member as unstore_member,
  remove_channel_members, remove_messages_for_channel, is_channel_member,
  list_channel_members as stored_members,
}
use galynx_api.Storage.Accounts.{get_membership_role}
use Responses.{ChannelResponse, channel_response}

-- The service's own fields; the storage is the state of its actions.
pub record ChannelService : Type 0 where
  pub bootstrap_workspace_id : Uuid
  pub bootstrap_creator_id : Uuid

pub record CreateChannelRequest : Type 0 where
  pub name : Str
  pub is_private : Bool

module _ (svc : ChannelService) (seed : Stamp) where
  abbrev pub general : ChannelRecordStore
  general = record {
    id = seed.uuid;
    workspace_id = svc.bootstrap_workspace_id;
    name = text "general";
    is_private = false;
    created_by = svc.bootstrap_creator_id;
    created_at = seed.time;
  }

  -- A channel `general` is made where the bootstrap workspace has none.
  unfoldable pub ensure_bootstrap_seed : Storage → Storage
  ensure_bootstrap_seed s =
      if is_empty (stored_channels svc.bootstrap_workspace_id s)
      then insert_channel general s
      else s

unfoldable pub assert_channel_access : AuthContext → Uuid → Action Storage (Unit {0})
assert_channel_access context channel_id = do
  channel ← or_fail (← gets (get_channel channel_id)) (not_found (text "channel not found"))
  fail_if (not (channel.workspace_id == context.workspace_id))
      (not_found (text "channel not found"))
  is_member ← gets (is_channel_member channel_id context.user_id)
  fail_if (channel.is_private && (not (is_manager context.role) && not is_member))
      (unauthorized (text "you do not have access to this private channel"))

unfoldable pub ensure_channel_access : AuthContext → Uuid → Action Storage (Unit {0})
unfolding assert_channel_access
ensure_channel_access context channel_id = assert_channel_access context channel_id

-- `created_at`, then `id`
abbrev older : ChannelResponse → ChannelResponse → Bool
older a b =
    if ltb_ℤ a.created_at b.created_at
    then true
    else if ltb_ℤ b.created_at a.created_at
    then false
    else ltb a.id b.id

module _ (svc : ChannelService) (seed : Stamp) where
  unfoldable pub list_channels : Uuid → Action Storage (List ChannelResponse)
  list_channels workspace_id = do
    modify (ensure_bootstrap_seed svc seed)
    channels ← gets (stored_channels workspace_id)
    pure (sort_by older (map channel_response channels))

  unfoldable pub create_channel :
      Stamp → Uuid → Uuid → CreateChannelRequest → Action Storage ChannelResponse
  create_channel stamp workspace_id created_by payload = do
    modify (ensure_bootstrap_seed svc seed)
    let name = to_ascii_lowercase (trim payload.name)
    fail_if (is_empty name) (bad_request (text "channel name is required"))
    fail_if (← gets (channel_name_exists workspace_id name))
        (bad_request (text "channel name already exists"))
    let channel : ChannelRecordStore = record {
      id = stamp.uuid;
      workspace_id = workspace_id;
      name = name;
      is_private = payload.is_private;
      created_by = created_by;
      created_at = stamp.time;
    }
    modify (insert_channel channel)
    modify (λ s. if payload.is_private then store_member stamp.uuid created_by s else s)
    pure (channel_response channel)

  -- The guard of the four methods that take a channel of a workspace.
  unfoldable pub channel_of_workspace : Uuid → Uuid → Action Storage ChannelRecordStore
  channel_of_workspace workspace_id channel_id = do
    channel ← or_fail (← gets (get_channel channel_id)) (not_found (text "channel not found"))
    fail_if (not (channel.workspace_id == workspace_id)) (not_found (text "channel not found"))
    pure channel

  unfoldable pub delete_channel : Uuid → Uuid → Action Storage (Unit {0})
  unfolding channel_of_workspace
  delete_channel workspace_id channel_id = do
    modify (ensure_bootstrap_seed svc seed)
    channel_of_workspace workspace_id channel_id
    modify (remove_channel channel_id)
    modify (remove_channel_members channel_id)
    modify (remove_messages_for_channel channel_id)

  unfoldable pub list_channel_members : Uuid → Uuid → Action Storage (List Uuid)
  unfolding channel_of_workspace
  list_channel_members workspace_id channel_id = do
    modify (ensure_bootstrap_seed svc seed)
    channel_of_workspace workspace_id channel_id
    users ← gets (stored_members channel_id)
    pure (sort_dedup users)

  unfoldable pub add_channel_member : Uuid → Uuid → Uuid → Action Storage (Unit {0})
  unfolding channel_of_workspace
  add_channel_member workspace_id channel_id user_id = do
    modify (ensure_bootstrap_seed svc seed)
    channel_of_workspace workspace_id channel_id
    membership ← gets (get_membership_role workspace_id user_id)
    fail_if (is_none membership) (bad_request (text "user does not belong to workspace"))
    modify (store_member channel_id user_id)

  unfoldable pub remove_channel_member : Uuid → Uuid → Uuid → Action Storage (Unit {0})
  unfolding channel_of_workspace
  remove_channel_member workspace_id channel_id user_id = do
    modify (ensure_bootstrap_seed svc seed)
    channel_of_workspace workspace_id channel_id
    modify (unstore_member channel_id user_id)
