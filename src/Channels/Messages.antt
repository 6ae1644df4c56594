-- ===== src/Channels/Messages.antt =====
-- src/channels.rs, `ChannelService`: messages.
pub mod Deletion
pub mod Pages
pub mod PageSize
pub mod Creation
use mathlib.Core.Bool.{Bool, true, false, not, ◌&&◌, ◌||◌}
use mathlib.Core.Option.{Option, none, some}
use mathlib.Core.List.{List, [], ◌∷◌, map}
use galynx_api.Common.{◌==◌, nat_eq, if◌then◌else◌, is_empty, is_none, is_some, filter, ℤ}
use galynx_api.Text.{Str, text, trim}
use galynx_api.Errors.{
  ApiError, bad_request, not_found, unauthorized, Action, ◌>>=◌, ◌>>◌, pure, gets, modify, or_fail,
  fail_if, lift,
}
use galynx_api.Auth.Context.{AuthContext, is_manager}
use galynx_api.Storage.{Storage, Uuid, Stamp, MessageRecordStore}
use galynx_api.Storage.Rooms.{
  get_message as stored_message, list_messages as stored_messages, insert_message,
  update_message as store_update,
}
use galynx_api.Paging.{CursorKey, MessageQuery, page_limit, parse_before, newest_first, page}
use galynx_api.Channels.{ChannelService, ensure_bootstrap_seed, assert_channel_access}
use galynx_api.Channels.Responses.{
  MessageResponse, one_response, message_responses_with_attachments,
}

-- The key by which messages are listed: `(created_at, id.as_u128())`.
abbrev pub message_key : MessageRecordStore → CursorKey
message_key m = (m.created_at, m.id)

pub record MessageListResponse : Type 0 where
  pub items : List MessageResponse
  pub next_cursor : Option Str

-- The tail that `list_messages` and `list_thread_replies` share: sort, cut, answer.
unfoldable pub message_page :
    Uuid → MessageQuery → Option CursorKey → List MessageRecordStore → Storage → MessageListResponse
message_page workspace_id query before messages s =
    let (items, next) =
      page message_key (page_limit query.limit) before (newest_first message_key messages) in
    record { items = message_responses_with_attachments workspace_id items s; next_cursor = next }

-- `message.channel_id == channel_id && message.deleted_at.is_none()`
abbrev pub in_channel : Uuid → MessageRecordStore → Bool
in_channel channel_id m = (m.channel_id == channel_id) && is_none m.deleted_at

module _ (svc : ChannelService) (seed : Stamp) where
  unfoldable pub create_message : Stamp → AuthContext → Uuid → Str → Action Storage MessageResponse
  create_message stamp context channel_id body_md = do
    modify (ensure_bootstrap_seed svc seed)
    let body = trim body_md
    fail_if (is_empty body) (bad_request (text "message body is required"))
    assert_channel_access context channel_id
    let message : MessageRecordStore = record {
      id = stamp.uuid;
      workspace_id = context.workspace_id;
      channel_id = channel_id;
      sender_id = context.user_id;
      body_md = body;
      thread_root_id = none;
      created_at = stamp.time;
      edited_at = none;
      deleted_at = none;
    }
    response ← gets (one_response context.workspace_id message)
    modify (insert_message message)
    pure response

  unfoldable pub list_messages :
      AuthContext → Uuid → MessageQuery → Action Storage MessageListResponse
  list_messages context channel_id query = do
    modify (ensure_bootstrap_seed svc seed)
    assert_channel_access context channel_id
    before ← lift (parse_before query.cursor)
    messages ← gets (stored_messages context.workspace_id)
    gets (message_page context.workspace_id query before (filter (in_channel channel_id) messages))

  unfoldable pub update_message : ℤ → AuthContext → Uuid → Str → Action Storage MessageResponse
  update_message now context message_id body_md = do
    modify (ensure_bootstrap_seed svc seed)
    let body = trim body_md
    fail_if (is_empty body) (bad_request (text "message body is required"))
    message ← or_fail (← gets (stored_message message_id)) (not_found (text "message not found"))
    fail_if (not (message.workspace_id == context.workspace_id))
        (not_found (text "message not found"))
    fail_if (not (message.sender_id == context.user_id))
        (unauthorized (text "you can only edit your own messages"))
    let edited = record message { body_md = body; edited_at = some now }
    modify (store_update edited)
    gets (one_response context.workspace_id edited)

  unfoldable pub delete_message : ℤ → AuthContext → Uuid → Action Storage (Unit {0})
  delete_message now context message_id = do
    modify (ensure_bootstrap_seed svc seed)
    message ← or_fail (← gets (stored_message message_id)) (not_found (text "message not found"))
    fail_if (not (message.workspace_id == context.workspace_id))
        (not_found (text "message not found"))
    fail_if (not (message.sender_id == context.user_id) && not (is_manager context.role))
        (unauthorized (text "you do not have permission to delete this message"))
    modify (store_update (record message { deleted_at = some now }))

  unfoldable pub get_message : Uuid → Uuid → Action Storage MessageResponse
  get_message workspace_id message_id = do
    modify (ensure_bootstrap_seed svc seed)
    message ← or_fail (← gets (stored_message message_id)) (not_found (text "message not found"))
    fail_if (not (message.workspace_id == workspace_id) || is_some message.deleted_at)
        (not_found (text "message not found"))
    gets (one_response workspace_id message)
