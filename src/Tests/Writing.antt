-- ===== src/Tests/Writing.antt =====
-- Messages written and edited, channels removed, members changed.
use mathlib.Core.Path.{◌≡◌, refl}
use mathlib.Core.Logic.{◌≢◌, ◌↔◌}
use mathlib.Core.Bool.{true, false, ◌&&◌}
use mathlib.Core.Option.{none, some}
use mathlib.Core.List.{[], ◌∷◌}
use galynx_api.Common.{
  ℤ, pos, ◌==◌, nat_eq, lookup, if◌then◌else◌, is_empty, is_some, member, IsIncreasing,
}
use galynx_api.Text.{Str, text, text_tests, trim}
use galynx_api.Errors.{ok, is_ok}
use galynx_api.Storage.{Storage, Uuid, Stamp}
use galynx_api.Storage.Rooms.{get_message as stored_message, get_channel, is_channel_member}
use galynx_api.Storage.Accounts.{get_membership_role}
use galynx_api.Storage.Lookups.{outside}
use galynx_api.Channels.{
  ensure_bootstrap_seed, delete_channel, add_channel_member, remove_channel_member,
  list_channel_members,
}
use galynx_api.Channels.Responses.{MessageResponse}
use galynx_api.Channels.Messages.{create_message, update_message, get_message}
use galynx_api.Channels.Messages.Creation.{
  create_message-get, CanEdit, update_message_iff, update_message-stores,
}
use galynx_api.Channels.Removal.{
  delete_channel-removes, list_channel_members-members, channel_members-change,
}
use galynx_api.Tests.Data.{store, store-IsConsistent, channels, alice, stamp, note}

abbrev reply : MessageResponse
reply = record {
  id = 50;
  workspace_id = 1;
  channel_id = 11;
  sender_id = 4;
  body_md = text "yo";
  thread_root_id = none;
  created_at = pos 50;
  edited_at = none;
  deleted_at = none;
  attachments = [];
}

made : (create_message channels (stamp 90) (stamp 50) alice 11 (text " yo ") store).0 ≡ ok reply
unfolding store create_message trim galynx_api.Text.trim_end galynx_api.Text.trim_start text
    galynx_api.Text.is_whitespace galynx_api.Channels.assert_channel_access get_channel lookup
    ensure_bootstrap_seed galynx_api.Storage.Rooms.list_channels is_channel_member
    galynx_api.Common.contains galynx_api.Channels.Responses.one_response
    galynx_api.Storage.Files.list_attachments_for_messages
made = refl

create_message-get_example :
    let t = (create_message channels (stamp 90) (stamp 50) alice 11 (text " yo ") store).1 in
    ((later : Stamp) → (get_message channels later 1 50 t).0 ≡ ok reply)
    × (reply.id ≡ 50)
    × (reply.sender_id ≡ 4)
    × (reply.body_md ≡ trim (text " yo "))
    × (is_empty reply.body_md ≡ false)
    × ((other : Uuid) → 50 ≢ other → stored_message other t ≡ stored_message other store)
create_message-get_example =
    create_message-get channels (stamp 90) (stamp 50) alice 11 (text " yo ") store reply made

can_edit : CanEdit alice 20 (text "yo") store
unfolding store lookup stored_message text_tests
can_edit = record {
  message = note 20 100;
  found = refl;
  same_workspace = refl;
  own = refl;
  filled = refl;
}

update_message_iff_example :
    (is_ok (update_message channels (stamp 90) (pos 300) alice 20 (text "yo") store).0 ≡ true)
    ↔ CanEdit alice 20 (text "yo") store
update_message_iff_example =
    update_message_iff channels (stamp 90) (pos 300) alice 20 (text "yo") store

update_message-stores_example :
    let t = (update_message channels (stamp 90) (pos 300) alice 20 (text "yo") store).1 in
    (stored_message 20 t
      ≡ some (record (note 20 100) { body_md = trim (text "yo"); edited_at = some (pos 300) }))
    × ((other : Uuid) → 20 ≢ other → stored_message other t ≡ stored_message other store)
unfolding can_edit
update_message-stores_example =
    update_message-stores channels (stamp 90) (pos 300) alice 20 (text "yo") store
      store-IsConsistent can_edit

channel_deleted : (delete_channel channels (stamp 90) 1 11 store).0 ≡ ok tt
unfolding store delete_channel get_channel lookup ensure_bootstrap_seed
    galynx_api.Storage.Rooms.list_channels
channel_deleted = refl

delete_channel-removes_example :
    let t = (delete_channel channels (stamp 90) 1 11 store).1 in
    (get_channel 11 t ≡ none)
    × ((user_id : Uuid) → is_channel_member 11 user_id t ≡ false)
    × ((id : Uuid) → stored_message id t ≡ outside 11 (stored_message id store))
    × ((other : Uuid)
        → 11 ≢ other
        → (get_channel other t
            ≡ get_channel other (ensure_bootstrap_seed channels (stamp 90) store))
          × ((user_id : Uuid)
              → is_channel_member other user_id t ≡ is_channel_member other user_id store))
delete_channel-removes_example =
    delete_channel-removes channels (stamp 90) 1 11 store store-IsConsistent channel_deleted

members_listed : (list_channel_members channels (stamp 90) 1 11 store).0 ≡ ok (4 ∷ [])
unfolding store list_channel_members get_channel lookup ensure_bootstrap_seed
    galynx_api.Storage.Rooms.list_channels galynx_api.Common.sort_dedup
    galynx_api.Storage.Rooms.list_channel_members
members_listed = refl

list_channel_members-members_example :
    IsIncreasing (4 ∷ [])
    × ((user_id : Uuid) → member user_id (4 ∷ []) ≡ is_channel_member 11 user_id store)
list_channel_members-members_example =
    list_channel_members-members channels (stamp 90) 1 11 store (4 ∷ []) members_listed

channel_members-change_example :
    let added = add_channel_member channels (stamp 90) 1 10 4 store in
    let removed = remove_channel_member channels (stamp 90) 1 10 4 store in
    (added.0 ≡ ok tt
      → (is_some (get_membership_role 1 4 store) ≡ true)
        × ((c u : Uuid)
            → is_channel_member c u added.1
              ≡ (if (10 == c) && (4 == u) then true else is_channel_member c u store)))
    × (removed.0 ≡ ok tt
        → (c u : Uuid)
        → is_channel_member c u removed.1
          ≡ (if (10 == c) && (4 == u) then false else is_channel_member c u store))
channel_members-change_example = channel_members-change channels (stamp 90) 1 10 store 4
