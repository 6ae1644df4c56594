-- ===== src/Realtime/Commands.antt =====
-- src/realtime.rs, `handle_client_text`: the commands of a websocket. The parsing of JSON is a
-- parameter, and so are the clock and the identifiers that a command draws.
use Prim.Native.Nat.{ℕ}
use mathlib.Core.Bool.{Bool, true, false}
use mathlib.Core.Option.{Option, none, some}
use mathlib.Core.List.{◌++◌}
use galynx_api.Common.{ℤ, ◌==◌, text_eq, if◌then◌else◌, ℤ}
use galynx_api.Text.{Str, text, trim}
use galynx_api.Errors.{bad_request, Action, ◌>>=◌, ◌>>◌, pure, fail, gets, lift, or_fail, modify}
use galynx_api.Auth.Context.{AuthContext}
use galynx_api.Storage.{Uuid, Stamp, Metadata, message_command, reaction_command}
use galynx_api.Storage.Commands.{
  get_ws_command_message_id, put_ws_command_message_id, has_ws_command_once, put_ws_command_once,
}
use galynx_api.Channels.{ChannelService}
use galynx_api.Channels.Messages.{
  create_message, update_message, delete_message, get_message, list_messages,
}
use galynx_api.Channels.Threads.{thread_summary, list_thread_replies}
use galynx_api.Reactions.{add_reaction, remove_reaction, ReactionUpdateResponse}
use galynx_api.Audit.{write}
use galynx_api.RateLimit.{check_ws_command}
use galynx_api.Realtime.{
  Server, on_storage, on_rate_limit, on_realtime, attempt, send_ack, emit, make_event, EventPayload,
  message_payload, deleted_payload, reaction_payload, AckResult, message_ack, page_ack, thread_ack,
  ok_ack, normalize_client_msg_id, ws_command_once_key,
}

pub record SendMessagePayload : Type 0 where
  pub channel_id : Uuid
  pub body_md : Str

pub record EditMessagePayload : Type 0 where
  pub message_id : Uuid
  pub body_md : Str

pub record DeleteMessagePayload : Type 0 where
  pub message_id : Uuid

pub record FetchMorePayload : Type 0 where
  pub channel_id : Uuid
  pub cursor : Option Str
  pub limit : Option ℕ

pub record FetchThreadPayload : Type 0 where
  pub root_id : Uuid
  pub cursor : Option Str
  pub limit : Option ℕ

pub record ReactionPayload : Type 0 where
  pub message_id : Uuid
  pub emoji : Str

-- A command, its payload being a JSON value of type `J`.
pub record WsCommandEnvelope (J : Type 0) : Type 0 where
  pub command : Str
  pub payload : J
  pub client_msg_id : Option Str

-- What the library of JSON reads from a text and from a value.
pub record Json (J : Type 0) : Type 0 where
  pub from_str : Str → Option (WsCommandEnvelope J)
  pub send_message : J → Option SendMessagePayload
  pub edit_message : J → Option EditMessagePayload
  pub delete_message : J → Option DeleteMessagePayload
  pub fetch_more : J → Option FetchMorePayload
  pub fetch_thread : J → Option FetchThreadPayload
  pub reaction : J → Option ReactionPayload

-- What a command draws: the instant of the limiter, the stamps of a seed, of a new message and of
-- the audit entry, and the time, in milliseconds.
pub record WsDraw : Type 0 where
  pub instant : ℕ
  pub seed : Stamp
  pub message : Stamp
  pub audit : Stamp
  pub now : ℤ

module _ (show_uuid : Uuid → Str) (svc : ChannelService) (draw : WsDraw) (context : AuthContext)
    (client_msg_id : Option Str) where
  -- `emit`, then `write` to the audit log, which all commands that change something end with.
  abbrev pub publish : Str → Uuid → EventPayload → Str → Uuid → Metadata → Action Server (Unit {0})
  publish event_type channel_id payload action target_id metadata = do
    on_realtime (
        emit context.workspace_id (
          make_event draw.now event_type context.workspace_id (some channel_id) client_msg_id
            payload))
    on_storage (
        write draw.audit context.workspace_id (some context.user_id) action (text "message")
          (some (show_uuid target_id)) metadata)

  -- The message that an earlier SEND_MESSAGE with the same `client_msg_id` made.
  abbrev pub sent_before : Uuid → Option Str → Action Server (Option Uuid)
  sent_before channel_id none = pure none
  sent_before channel_id (some id) =
      on_storage
        (gets (get_ws_command_message_id context.workspace_id context.user_id channel_id id))

  abbrev pub still_there : Option Uuid → Action Server Bool
  still_there none = pure false
  still_there (some message_id) =
      attempt (get_message svc draw.seed context.workspace_id message_id)

  abbrev pub remember_sent : Uuid → Option Str → Uuid → Action Server (Unit {0})
  remember_sent channel_id none message_id = pure tt
  remember_sent channel_id (some id) message_id = on_storage (
      modify
        (put_ws_command_message_id context.workspace_id context.user_id channel_id id message_id))

  unfoldable pub send_new : SendMessagePayload → Option Str → Action Server (Unit {0})
  send_new payload dedup_id = do
    message ←
        on_storage
          (create_message svc draw.seed draw.message context payload.channel_id payload.body_md)
    remember_sent payload.channel_id dedup_id message.id
    publish (text "MESSAGE_CREATED") message.channel_id (message_payload message)
        (text "MESSAGE_CREATED_WS") message.id (message_command message.channel_id client_msg_id)
    send_ack draw.now (text "SEND_MESSAGE") client_msg_id (message_ack message.id false)

  abbrev pub send_or_ack :
      SendMessagePayload → Option Str → Option Uuid → Bool → Action Server (Unit {0})
  send_or_ack payload dedup_id (some message_id) true =
      send_ack draw.now (text "SEND_MESSAGE") client_msg_id (message_ack message_id true)
  send_or_ack payload dedup_id (some message_id) false = send_new payload dedup_id
  send_or_ack payload dedup_id none there = send_new payload dedup_id

  unfoldable pub handle_send_message : SendMessagePayload → Action Server (Unit {0})
  unfolding send_new
  handle_send_message payload = do
    dedup_id ← lift (normalize_client_msg_id client_msg_id)
    existing ← sent_before payload.channel_id dedup_id
    there ← still_there existing
    send_or_ack payload dedup_id existing there

  -- Whether a command was seen before; where it was not, it is marked as seen.
  unfoldable pub seen_before : Str → Str → Action Server Bool
  seen_before command target = do
    dedup_id ← lift (normalize_client_msg_id client_msg_id)
    elim dedup_id [
      | none ↦ pure false
      | some id ↦
          let key =
            ws_command_once_key show_uuid context.workspace_id context.user_id command target id in
          (on_storage (gets (has_ws_command_once key)) >>= λ seen.
          if seen then pure true else (on_storage (modify (put_ws_command_once key)) >> pure false))
    ]

  -- A command that is done once: it is acknowledged without being done where it was seen before.
  abbrev pub once : Str → Str → AckResult → Action Server (Unit {0}) → Action Server (Unit {0})
  once command target deduped action = do
    seen ← seen_before command target
    if seen then send_ack draw.now command client_msg_id deduped else action

  abbrev pub message_target : Uuid → Str
  message_target message_id = text "message:" ++ show_uuid message_id

  abbrev pub reaction_target : ReactionPayload → Str
  reaction_target payload =
      text "reaction:" ++ show_uuid payload.message_id ++ text ":" ++ trim payload.emoji

  unfoldable pub edit_new : EditMessagePayload → Action Server (Unit {0})
  edit_new payload = do
    message ←
        on_storage
          (update_message svc draw.seed draw.now context payload.message_id payload.body_md)
    publish (text "MESSAGE_UPDATED") message.channel_id (message_payload message)
        (text "MESSAGE_UPDATED_WS") message.id (message_command message.channel_id client_msg_id)
    send_ack draw.now (text "EDIT_MESSAGE") client_msg_id (message_ack message.id false)

  unfoldable pub handle_edit_message : EditMessagePayload → Action Server (Unit {0})
  unfolding seen_before edit_new
  handle_edit_message payload =
      once (text "EDIT_MESSAGE") (message_target payload.message_id)
        (message_ack payload.message_id true) (edit_new payload)

  unfoldable pub delete_new : DeleteMessagePayload → Action Server (Unit {0})
  delete_new payload = do
    target ← on_storage (get_message svc draw.seed context.workspace_id payload.message_id)
    on_storage (delete_message svc draw.seed draw.now context payload.message_id)
    publish (text "MESSAGE_DELETED") target.channel_id (deleted_payload payload.message_id)
        (text "MESSAGE_DELETED_WS") payload.message_id
        (message_command target.channel_id client_msg_id)
    send_ack draw.now (text "DELETE_MESSAGE") client_msg_id (message_ack payload.message_id false)

  unfoldable pub handle_delete_message : DeleteMessagePayload → Action Server (Unit {0})
  unfolding seen_before delete_new
  handle_delete_message payload =
      once (text "DELETE_MESSAGE") (message_target payload.message_id)
        (message_ack payload.message_id true) (delete_new payload)

  abbrev reacted : Str → Str → ReactionUpdateResponse → Action Server (Unit {0})
  reacted command action update = do
    publish (text "REACTION_UPDATED") update.channel_id (reaction_payload update) action
        update.message_id (reaction_command update.emoji client_msg_id)
    send_ack draw.now command client_msg_id (ok_ack false)

  unfoldable pub add_new : ReactionPayload → Action Server (Unit {0})
  add_new payload = do
    update ← on_storage (add_reaction svc draw.seed context payload.message_id payload.emoji)
    reacted (text "ADD_REACTION") (text "REACTION_ADDED_WS") update

  unfoldable pub handle_add_reaction : ReactionPayload → Action Server (Unit {0})
  unfolding seen_before add_new
  handle_add_reaction payload =
      once (text "ADD_REACTION") (reaction_target payload) (ok_ack true) (add_new payload)

  unfoldable pub remove_new : ReactionPayload → Action Server (Unit {0})
  remove_new payload = do
    update ← on_storage (remove_reaction svc draw.seed context payload.message_id payload.emoji)
    reacted (text "REMOVE_REACTION") (text "REACTION_REMOVED_WS") update

  unfoldable pub handle_remove_reaction : ReactionPayload → Action Server (Unit {0})
  unfolding seen_before remove_new
  handle_remove_reaction payload =
      once (text "REMOVE_REACTION") (reaction_target payload) (ok_ack true) (remove_new payload)

  unfoldable pub handle_fetch_more : FetchMorePayload → Action Server (Unit {0})
  handle_fetch_more payload = do
    page ← on_storage (
        list_messages svc draw.seed context payload.channel_id
          (record { cursor = payload.cursor; limit = payload.limit }))
    send_ack draw.now (text "FETCH_MORE") client_msg_id (page_ack page)

  unfoldable pub handle_fetch_thread : FetchThreadPayload → Action Server (Unit {0})
  handle_fetch_thread payload = do
    summary ← on_storage (thread_summary svc draw.seed context payload.root_id)
    replies ← on_storage (
        list_thread_replies svc draw.seed context payload.root_id
          (record { cursor = payload.cursor; limit = payload.limit }))
    send_ack draw.now (text "FETCH_THREAD") client_msg_id (thread_ack summary replies)

module _ {J : Type 0} (json : Json J) (show_uuid : Uuid → Str) (svc : ChannelService)
    (draw : WsDraw) (context : AuthContext) where
  -- A payload that cannot be read is a bad request; one that can is handed to its command.
  abbrev with_payload :
      {P : Type 0} → Option P → Str → (P → Action Server (Unit {0})) → Action Server (Unit {0})
  with_payload payload error handle = do value ← or_fail payload (bad_request error); handle value

  unfoldable pub dispatch : WsCommandEnvelope J → Action Server (Unit {0})
  dispatch c =
      if c.command == text "SEND_MESSAGE"
      then with_payload (json.send_message c.payload) (text "invalid SEND_MESSAGE payload")
          (handle_send_message show_uuid svc draw context c.client_msg_id)
      else if c.command == text "EDIT_MESSAGE"
      then with_payload (json.edit_message c.payload) (text "invalid EDIT_MESSAGE payload")
          (handle_edit_message show_uuid svc draw context c.client_msg_id)
      else if c.command == text "DELETE_MESSAGE"
      then with_payload (json.delete_message c.payload) (text "invalid DELETE_MESSAGE payload")
          (handle_delete_message show_uuid svc draw context c.client_msg_id)
      else if c.command == text "FETCH_MORE"
      then with_payload (json.fetch_more c.payload) (text "invalid FETCH_MORE payload")
          (handle_fetch_more show_uuid svc draw context c.client_msg_id)
      else if c.command == text "FETCH_THREAD"
      then with_payload (json.fetch_thread c.payload) (text "invalid FETCH_THREAD payload")
          (handle_fetch_thread show_uuid svc draw context c.client_msg_id)
      else if c.command == text "ADD_REACTION"
      then with_payload (json.reaction c.payload) (text "invalid ADD_REACTION payload")
          (handle_add_reaction show_uuid svc draw context c.client_msg_id)
      else if c.command == text "REMOVE_REACTION"
      then with_payload (json.reaction c.payload) (text "invalid REMOVE_REACTION payload")
          (handle_remove_reaction show_uuid svc draw context c.client_msg_id)
      else fail (bad_request (text "unsupported websocket command: " ++ c.command))

  unfoldable pub handle_client_text : Str → Action Server (Unit {0})
  unfolding dispatch
  handle_client_text input = do
    on_rate_limit (check_ws_command show_uuid draw.instant context.user_id)
    command ← or_fail (json.from_str input) (bad_request (text "invalid websocket command payload"))
    dispatch command
