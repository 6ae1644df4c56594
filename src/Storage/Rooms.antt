-- ===== src/Storage/Rooms.antt =====
-- src/storage.rs: channels, channel members, messages and reactions in memory.
use mathlib.Core.Bool.{Bool, ◌&&◌}
use mathlib.Core.Option.{Option}
use mathlib.Core.List.{List, [], ◌∷◌}
use galynx_api.Common.{
  lookup, insert, remove, retain, values, contains, insert_member, remove_member, filter, any,
  nat_eq, text_eq, pair_eq, ◌==◌, if◌then◌else◌,
}
use mathlib.Core.Bool.{not}
use galynx_api.Text.{Str, to_ascii_lowercase}
use galynx_api.Storage.{Storage, Uuid, ChannelRecordStore, MessageRecordStore}

unfoldable pub add_reaction : Uuid → Str → Uuid → Storage → Storage
add_reaction message_id emoji user_id s = record s {
  reactions = insert_member (message_id, (emoji, user_id)) s.reactions;
}

unfoldable pub remove_reaction : Uuid → Str → Uuid → Storage → Storage
remove_reaction message_id emoji user_id s = record s {
  reactions = remove_member (message_id, (emoji, user_id)) s.reactions;
}

abbrev pub reacting : Uuid → Str → List (Uuid × (Str × Uuid)) → List Uuid
reacting message_id emoji [] = []
reacting message_id emoji ((msg_id, (stored_emoji, user_id)) ∷ rs) =
    if (msg_id == message_id) && (stored_emoji == emoji)
    then user_id ∷ reacting message_id emoji rs
    else reacting message_id emoji rs

unfoldable pub list_reaction_users : Uuid → Str → Storage → List Uuid
list_reaction_users message_id emoji s = reacting message_id emoji s.reactions

unfoldable pub insert_channel : ChannelRecordStore → Storage → Storage
insert_channel c s = record s { channels = insert c.id c s.channels }

unfoldable pub list_channels : Uuid → Storage → List ChannelRecordStore
list_channels workspace_id s =
    filter (λ (c : ChannelRecordStore). c.workspace_id == workspace_id) (values s.channels)

unfoldable pub get_channel : Uuid → Storage → Option ChannelRecordStore
get_channel channel_id s = lookup channel_id s.channels

unfoldable pub remove_channel : Uuid → Storage → Storage
remove_channel channel_id s = record s { channels = remove channel_id s.channels }

unfoldable pub add_channel_member : Uuid → Uuid → Storage → Storage
add_channel_member channel_id user_id s = record s {
  channel_members = insert_member (channel_id, user_id) s.channel_members;
}

abbrev pub members_of : Uuid → List (Uuid × Uuid) → List Uuid
members_of channel_id [] = []
members_of channel_id ((stored_channel_id, user_id) ∷ ms) =
    if stored_channel_id == channel_id
    then user_id ∷ members_of channel_id ms
    else members_of channel_id ms

unfoldable pub list_channel_members : Uuid → Storage → List Uuid
list_channel_members channel_id s = members_of channel_id s.channel_members

unfoldable pub is_channel_member : Uuid → Uuid → Storage → Bool
is_channel_member channel_id user_id s = contains (channel_id, user_id) s.channel_members

unfoldable pub remove_channel_member : Uuid → Uuid → Storage → Storage
remove_channel_member channel_id user_id s = record s {
  channel_members = remove_member (channel_id, user_id) s.channel_members;
}

unfoldable pub remove_channel_members : Uuid → Storage → Storage
remove_channel_members channel_id s = record s {
  channel_members = filter (λ (m : Uuid × Uuid). not (m.0 == channel_id)) s.channel_members;
}

-- `eq_ignore_ascii_case` compares the lowered texts.
unfoldable pub channel_name_exists : Uuid → Str → Storage → Bool
channel_name_exists workspace_id name s =
    any
      (λ (c : ChannelRecordStore).
        (c.workspace_id == workspace_id) && (to_ascii_lowercase c.name == to_ascii_lowercase name))
      (values s.channels)

unfoldable pub insert_message : MessageRecordStore → Storage → Storage
insert_message m s = record s { messages = insert m.id m s.messages }

unfoldable pub get_message : Uuid → Storage → Option MessageRecordStore
get_message message_id s = lookup message_id s.messages

unfoldable pub list_messages : Uuid → Storage → List MessageRecordStore
list_messages workspace_id s =
    filter (λ (m : MessageRecordStore). m.workspace_id == workspace_id) (values s.messages)

unfoldable pub update_message : MessageRecordStore → Storage → Storage
unfolding insert_message
update_message m s = insert_message m s

unfoldable pub remove_messages_for_channel : Uuid → Storage → Storage
remove_messages_for_channel channel_id s = record s {
  messages = retain (λ _ (m : MessageRecordStore). not (m.channel_id == channel_id)) s.messages;
}
