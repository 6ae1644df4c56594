-- ===== src/Channels/Threads.antt =====
-- src/channels.rs, `ChannelService`: threads. A reply names its root message.
use Prim.Native.Nat.{ℕ, ◌+◌}
use mathlib.Core.Bool.{Bool, false, not, ◌&&◌, ◌||◌}
use mathlib.Core.Option.{Option, none, some}
use mathlib.Core.List.{List, [], ◌∷◌, ◌++◌}
use galynx_api.Common.{
  ◌==◌, nat_eq, if◌then◌else◌, is_empty, is_none, is_some, filter, find, ℤ, ltb_ℤ, contains,
}
use galynx_api.Text.{Str, text, trim}
use galynx_api.Errors.{
  bad_request, not_found, Action, ◌>>=◌, ◌>>◌, pure, gets, modify, or_fail, fail_if, lift,
}
use galynx_api.Auth.Context.{AuthContext}
use galynx_api.Storage.{Storage, Uuid, Stamp, MessageRecordStore}
use galynx_api.Storage.Rooms.{
  get_message as stored_message, list_messages as stored_messages, insert_message,
}
use galynx_api.Paging.{MessageQuery, parse_before}
use galynx_api.Channels.{ChannelService, ensure_bootstrap_seed, assert_channel_access}
use galynx_api.Channels.Responses.{MessageResponse, one_response}
use galynx_api.Channels.Messages.{MessageListResponse, message_page}

pub record ThreadSummaryResponse : Type 0 where
  pub root_message : MessageResponse
  pub reply_count : ℕ
  pub last_reply_at : Option ℤ
  pub participants : List Uuid

-- `thread_root_id == Some(root_id)`
abbrev pub is_reply_to : Uuid → Option Uuid → Bool
is_reply_to root_id none = false
is_reply_to root_id (some r) = r == root_id

-- `message.thread_root_id == Some(root_id) && message.deleted_at.is_none()`
abbrev pub in_thread : Uuid → MessageRecordStore → Bool
in_thread root_id m = is_reply_to root_id m.thread_root_id && is_none m.deleted_at

-- What the loop of `thread_summary` carries.
pub record Tally : Type 0 where
  pub reply_count : ℕ
  pub last_reply_at : Option ℤ
  pub participants : List Uuid

-- `if last_reply_at.is_none_or(|last| created_at > last) { last_reply_at = Some(created_at) }`
abbrev latest : Option ℤ → ℤ → Option ℤ
latest none t = some t
latest (some last) t = if ltb_ℤ last t then some t else some last

unfoldable pub count_reply : Tally → MessageRecordStore → Tally
count_reply t m = record {
  reply_count = t.reply_count + 1;
  last_reply_at = latest t.last_reply_at m.created_at;
  participants =
      if contains m.sender_id t.participants
      then t.participants
      else t.participants ++ m.sender_id ∷ [];
}

unfoldable pub tally : Tally → List MessageRecordStore → Tally
tally t [] = t
tally t (m ∷ ms) = tally (count_reply t m) ms

unfoldable pub assert_thread_root : AuthContext → Uuid → Action Storage MessageRecordStore
assert_thread_root context root_id = do
  root ← or_fail (← gets (stored_message root_id)) (not_found (text "thread root not found"))
  fail_if (not (root.workspace_id == context.workspace_id) || is_some root.thread_root_id)
      (not_found (text "thread root not found"))
  assert_channel_access context root.channel_id
  pure root

module _ (svc : ChannelService) (seed : Stamp) where
  unfoldable pub thread_summary : AuthContext → Uuid → Action Storage ThreadSummaryResponse
  thread_summary context root_id = do
    modify (ensure_bootstrap_seed svc seed)
    root ← assert_thread_root context root_id
    messages ← gets (stored_messages context.workspace_id)
    let start : Tally = record {
      reply_count = 0;
      last_reply_at = none;
      participants = root.sender_id ∷ [];
    }
    let counted = tally start (filter (in_thread root_id) messages)
    response ← gets (one_response context.workspace_id root)
    pure (record {
      root_message = response;
      reply_count = counted.reply_count;
      last_reply_at = counted.last_reply_at;
      participants = counted.participants;
    })

  unfoldable pub list_thread_replies :
      AuthContext → Uuid → MessageQuery → Action Storage MessageListResponse
  list_thread_replies context root_id query = do
    modify (ensure_bootstrap_seed svc seed)
    assert_thread_root context root_id
    before ← lift (parse_before query.cursor)
    messages ← gets (stored_messages context.workspace_id)
    gets (message_page context.workspace_id query before (filter (in_thread root_id) messages))

  unfoldable pub create_thread_reply :
      Stamp → AuthContext → Uuid → Str → Action Storage MessageResponse
  create_thread_reply stamp context root_id body_md = do
    modify (ensure_bootstrap_seed svc seed)
    let body = trim body_md
    fail_if (is_empty body) (bad_request (text "message body is required"))
    messages ← gets (stored_messages context.workspace_id)
    root ←
        or_fail (find (λ (m : MessageRecordStore). m.id == root_id) messages)
          (not_found (text "thread root not found"))
    fail_if (is_some root.thread_root_id)
        (bad_request (text "thread replies must reference root message"))
    fail_if (not (root.workspace_id == context.workspace_id))
        (not_found (text "thread root not found"))
    assert_channel_access context root.channel_id
    let reply : MessageRecordStore = record {
      id = stamp.uuid;
      workspace_id = context.workspace_id;
      channel_id = root.channel_id;
      sender_id = context.user_id;
      body_md = body;
      thread_root_id = some root_id;
      created_at = stamp.time;
      edited_at = none;
      deleted_at = none;
    }
    response ← gets (one_response context.workspace_id reply)
    modify (insert_message reply)
    pure response
