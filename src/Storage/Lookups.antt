-- ===== src/Storage/Lookups.antt =====
-- Reading back what was written: one equation for each pair of operations that meet.
use mathlib.Core.Path.{◌≡◌}
use mathlib.Core.Bool.{true, false, not, ◌&&◌}
use mathlib.Core.Option.{Option, none, some}
use native.Mathlib.Omega.{arith}
use galynx_api.Common.{
  ◌==◌, nat_eq, text_eq, pair_eq, if◌then◌else◌, lookup-insert, lookup-remove, lookup-retain,
  contains-insert_member, contains-remove_member, contains-filter, IsTable-IsUnique,
}
use galynx_api.Text.{Str}
use galynx_api.Storage.{
  Storage, Uuid, MessageRecordStore, ChannelRecordStore, RefreshSessionRecordStore,
}
use galynx_api.Storage.Rooms.{
  get_message, update_message, insert_message, get_channel, remove_channel, insert_channel,
  is_channel_member, add_channel_member, remove_channel_member, remove_channel_members,
  remove_messages_for_channel,
}
use galynx_api.Storage.Accounts.{get_refresh_session, put_refresh_session}
use galynx_api.Storage.Commands.{has_ws_command_once, put_ws_command_once}
use galynx_api.Storage.Consistency.{IsConsistent}

-- What is left of a message once those of a channel are removed.
abbrev pub outside : Uuid → Option MessageRecordStore → Option MessageRecordStore
outside channel_id none = none
outside channel_id (some m) = if m.channel_id == channel_id then none else some m

module _ (id : Uuid) (s : Storage) where
  pub get_message-insert_message :
      (m : MessageRecordStore)
      → get_message id (insert_message m s) ≡ (if m.id == id then some m else get_message id s)
  unfolding get_message insert_message
  get_message-insert_message m = lookup-insert m.id id m s.messages

  pub get_message-update_message :
      (m : MessageRecordStore)
      → get_message id (update_message m s) ≡ (if m.id == id then some m else get_message id s)
  unfolding update_message
  get_message-update_message m = get_message-insert_message m

  pub get_channel-insert_channel :
      (c : ChannelRecordStore)
      → get_channel id (insert_channel c s) ≡ (if c.id == id then some c else get_channel id s)
  unfolding get_channel insert_channel
  get_channel-insert_channel c = lookup-insert c.id id c s.channels

  pub get_channel-remove_channel :
      (channel_id : Uuid)
      → get_channel id (remove_channel channel_id s)
        ≡ (if channel_id == id then none else get_channel id s)
  unfolding get_channel remove_channel
  get_channel-remove_channel channel_id = lookup-remove channel_id id s.channels

  pub get_message-remove_messages_for_channel :
      (channel_id : Uuid)
      → IsConsistent s
      → get_message id (remove_messages_for_channel channel_id s)
        ≡ outside channel_id (get_message id s)
  unfolding get_message remove_messages_for_channel
  get_message-remove_messages_for_channel channel_id h = ground (
    arith,
    lookup-retain (λ _ (m : MessageRecordStore). not (m.channel_id == channel_id)) id s.messages
        (IsTable-IsUnique _ s.messages h.messages),
  )

module _ (channel_id user_id : Uuid) (s : Storage) where
  pub is_channel_member-add_channel_member :
      (c u : Uuid)
      → is_channel_member channel_id user_id (add_channel_member c u s) ≡ (
          if (c == channel_id) && (u == user_id)
          then true
          else is_channel_member channel_id user_id s)
  unfolding is_channel_member add_channel_member
  is_channel_member-add_channel_member c u =
      contains-insert_member (c, u) (channel_id, user_id) s.channel_members

  pub is_channel_member-remove_channel_member :
      (c u : Uuid)
      → is_channel_member channel_id user_id (remove_channel_member c u s) ≡ (
          if (c == channel_id) && (u == user_id)
          then false
          else is_channel_member channel_id user_id s)
  unfolding is_channel_member remove_channel_member
  is_channel_member-remove_channel_member c u =
      contains-remove_member (c, u) (channel_id, user_id) s.channel_members

  pub is_channel_member-remove_channel_members :
      (c : Uuid)
      → is_channel_member channel_id user_id (remove_channel_members c s)
        ≡ (if channel_id == c then false else is_channel_member channel_id user_id s)
  unfolding is_channel_member remove_channel_members
  is_channel_member-remove_channel_members c = ground (
    arith,
    contains-filter (λ (m : Uuid × Uuid). not (m.0 == c)) (channel_id, user_id) s.channel_members,
  )

pub get_refresh_session-put_refresh_session :
    (hash other : Str) (r : RefreshSessionRecordStore) (s : Storage)
    → get_refresh_session other (put_refresh_session hash r s)
      ≡ (if hash == other then some r else get_refresh_session other s)
unfolding get_refresh_session put_refresh_session
get_refresh_session-put_refresh_session hash other r s =
    lookup-insert hash other r s.refresh_sessions

pub has_ws_command_once-put_ws_command_once :
    (key other : Str) (s : Storage)
    → has_ws_command_once other (put_ws_command_once key s)
      ≡ (if key == other then true else has_ws_command_once other s)
unfolding has_ws_command_once put_ws_command_once
has_ws_command_once-put_ws_command_once key other s =
    contains-insert_member key other s.ws_command_once
