-- ===== src/Realtime/Resend.antt =====
-- A repeated SEND_MESSAGE.
use mathlib.Core.Path.{◌≡◌, refl, ap, ◌∙◌, sym}
use mathlib.Core.Logic.{inl, inr}
use mathlib.Core.Bool.{true, false}
use mathlib.Core.Option.{Option, none, some}
use native.Mathlib.Omega.{arith}
use galynx_api.Common.{ℤ, text_eq, nat_eq, pair_eq}
use galynx_api.Text.{Str, text}
use galynx_api.Errors.{ApiError, ApiResult, ok, err, Action, is_ok, ApiResult-cases, ◌>>◌}
use galynx_api.Errors.Keeping.{IsKept, keeping}
use galynx_api.Auth.Context.{AuthContext}
use galynx_api.Storage.{Storage, Uuid, Stamp, MessageRecordStore, Metadata, message_command}
use galynx_api.Storage.Files.{append_audit_entry}
use galynx_api.Storage.Rooms.{get_message as stored_message}
use galynx_api.Storage.Commands.{
  get_ws_command_message_id-put_ws_command_message_id, get_ws_command_message_id,
  put_ws_command_message_id,
}
use galynx_api.Channels.{ChannelService, ensure_bootstrap_seed}
use galynx_api.Channels.Responses.{MessageResponse}
use galynx_api.Channels.Messages.{create_message, get_message}
use galynx_api.Channels.Messages.Creation.{written, create_message-stored, get_message-found}
use galynx_api.Audit.{write}
use galynx_api.Realtime.{
  Server, on_storage, on_realtime, send_ack, RealtimeHub, AckResult, message_ack, message_payload,
  normalize_client_msg_id,
}
use galynx_api.Realtime.Commands.{
  WsDraw, SendMessagePayload, handle_send_message, send_new, publish, remember_sent,
}

module _ (show_uuid : Uuid → Str) (svc : ChannelService) (context : AuthContext) (cid : Option Str)
    {id : Str} (valid : normalize_client_msg_id cid ≡ ok (some id)) where
  -- The message that the store remembers for the command.
  abbrev pub remembered : Uuid → Storage → Option Uuid
  remembered channel_id s =
      get_ws_command_message_id context.workspace_id context.user_id channel_id id s

  -- If a message is remembered for the `client_msg_id` and the channel, and `get_message` finds
  -- it, SEND_MESSAGE only acknowledges it as a duplicate; the storage is as `get_message` leaves
  -- it.
  pub handle_send_message-again :
      (draw : WsDraw) (payload : SendMessagePayload) (s : Server) (message_id : Uuid)
      → remembered payload.channel_id s.storage ≡ some message_id
      → is_ok (get_message svc draw.seed context.workspace_id message_id s.storage).0 ≡ true
      → handle_send_message show_uuid svc draw context cid payload s
        ≡ send_ack draw.now (text "SEND_MESSAGE") cid (message_ack message_id true) (record s {
          storage = (get_message svc draw.seed context.workspace_id message_id s.storage).1;
        })
  unfolding handle_send_message
  handle_send_message-again draw payload s message_id known there = ground arith

  -- If none is remembered, it is sent.
  handle_send_message-new :
      (draw : WsDraw) (payload : SendMessagePayload) (s : Server)
      → remembered payload.channel_id s.storage ≡ none
      → handle_send_message show_uuid svc draw context cid payload s
        ≡ send_new show_uuid svc draw context cid payload (some id) s
  unfolding handle_send_message
  handle_send_message-new draw payload s unknown = ground arith

send_ack-storage :
    (now : ℤ) (command : Str) (correlation : Option Str) (result : AckResult) (s : Server)
    → (send_ack now command correlation result s).1.storage ≡ s.storage
unfolding send_ack
send_ack-storage now command correlation result s = ground arith

get_message-state :
    (svc : ChannelService) (seed : Stamp) (workspace_id message_id : Uuid) (s : Storage)
    → (get_message svc seed workspace_id message_id s).1 ≡ ensure_bootstrap_seed svc seed s
unfolding get_message
get_message-state svc seed workspace_id message_id s = ground arith

module _ (show_uuid : Uuid → Str) (svc : ChannelService) (context : AuthContext) (cid : Option Str)
    {id : Str} (valid : normalize_client_msg_id cid ≡ ok (some id)) (channel_id message_id : Uuid)
    (m : MessageRecordStore) where
  -- The message is stored, and remembered for the command.
  IsSent : Storage → Type 0
  IsSent s =
      (remembered show_uuid svc context cid valid channel_id s ≡ some message_id)
      × (stored_message message_id s ≡ some m)

  write-IsKept :
      (stamp : Stamp) (workspace_id : Uuid) (actor : Option Uuid) (action target : Str)
      (target_id : Option Str) (metadata : Metadata)
      → IsKept IsSent (write stamp workspace_id actor action target target_id metadata)
  unfolding IsSent write append_audit_entry get_ws_command_message_id stored_message
  write-IsKept stamp workspace_id actor action target target_id metadata = record {
    after = λ s h. h;
  }

  on_storage-IsKept :
      {A : Type 0} (a : Action Storage A)
      → IsKept IsSent a
      → IsKept (λ (s : Server). IsSent s.storage) (on_storage a)
  on_storage-IsKept a k = record { after = λ s h. k.after s.storage h }

  on_realtime-IsKept :
      (f : RealtimeHub → RealtimeHub) → IsKept (λ (s : Server). IsSent s.storage) (on_realtime f)
  on_realtime-IsKept f = record { after = λ s h. h }

  send_ack-IsKept :
      (now : ℤ) (command : Str) (correlation : Option Str) (result : AckResult)
      → IsKept (λ (s : Server). IsSent s.storage) (send_ack now command correlation result)
  send_ack-IsKept now command correlation result = record {
    after = λ s h. rw (send_ack-storage now command correlation result s) h;
  }

  stored-IsSent :
      (s : Storage)
      → stored_message message_id s ≡ some m
      → IsSent (
          put_ws_command_message_id context.workspace_id context.user_id channel_id id message_id s)
  unfolding IsSent
  stored-IsSent s found = (
    get_ws_command_message_id-put_ws_command_message_id context.workspace_id context.user_id
        channel_id id message_id s,
    unfold put_ws_command_message_id stored_message in (unfold stored_message in found),
  )

  module _ (draw : WsDraw) (response : MessageResponse) where
    -- What SEND_MESSAGE does once the message is made.
    abbrev finish : Action Server (Unit {0})
    finish =
        remember_sent show_uuid svc draw context cid channel_id (some id) response.id
        >> (publish show_uuid svc draw context cid (text "MESSAGE_CREATED") response.channel_id
              (message_payload response) (text "MESSAGE_CREATED_WS") response.id
              (message_command response.channel_id cid)
            >> send_ack draw.now (text "SEND_MESSAGE") cid (message_ack response.id false))

    published-IsKept :
        IsKept
          (λ (s : Server). IsSent s.storage)
          (publish show_uuid svc draw context cid
              (text "MESSAGE_CREATED")
              response.channel_id
              (message_payload response)
              (text "MESSAGE_CREATED_WS")
              response.id
              (message_command response.channel_id cid)
            >> send_ack draw.now (text "SEND_MESSAGE") cid (message_ack response.id false))
    published-IsKept =
        search (keeping, write-IsKept, on_storage-IsKept, on_realtime-IsKept, send_ack-IsKept) depth
          24

    finish-IsSent :
        (s : Server)
        → response.id ≡ message_id
        → stored_message message_id s.storage ≡ some m
        → IsSent (finish s).1.storage
    finish-IsSent s same found =
        published-IsKept.after
          (record s {
            storage =
                put_ws_command_message_id context.workspace_id context.user_id channel_id id
                  response.id s.storage;
          })
          (rw same (stored-IsSent s.storage found))

module _ (show_uuid : Uuid → Str) (svc : ChannelService) (context : AuthContext) (cid : Option Str)
    {id : Str} (valid : normalize_client_msg_id cid ≡ ok (some id)) (first : WsDraw)
    (payload : SendMessagePayload) (s : Server) where
  abbrev made : ApiResult MessageResponse × Storage
  made =
      create_message svc first.seed first.message context payload.channel_id payload.body_md
        s.storage

  abbrev message : MessageRecordStore
  message =
      written svc first.seed first.message context payload.channel_id payload.body_md s.storage

  send_new-failed :
      {e : ApiError}
      → made.0 ≡ err e
      → (send_new show_uuid svc first context cid payload (some id) s).0 ≡ err e
  unfolding send_new
  send_new-failed h = ground arith

  send_new-made :
      {response : MessageResponse}
      → made.0 ≡ ok response
      → send_new show_uuid svc first context cid payload (some id) s
        ≡ finish show_uuid svc context cid valid payload.channel_id first.message.uuid message first
            response
            (record s { storage = made.1 })
  unfolding send_new
  send_new-made h = ground arith

  send_new-IsSent :
      (send_new show_uuid svc first context cid payload (some id) s).0 ≡ ok tt
      → IsSent show_uuid svc context cid valid payload.channel_id first.message.uuid message
          (send_new show_uuid svc first context cid payload (some id) s).1.storage
  send_new-IsSent h = elim (ApiResult-cases made.0) [
    | inr (e, failed) ↦ absurd (ground (arith, send_new-failed failed))
    | inl (response, done) ↦
        let (found, same) =
          create_message-stored svc first.seed first.message context payload.channel_id
            payload.body_md s.storage response done in
        rw (send_new-made done) (
          finish-IsSent show_uuid svc context cid valid payload.channel_id first.message.uuid
            message first response (record s { storage = made.1 }) same found)
  ]

  IsSent-again :
      (later : WsDraw) (again : SendMessagePayload) (t : Server)
      → again.channel_id ≡ payload.channel_id
      → IsSent show_uuid svc context cid valid payload.channel_id first.message.uuid message
          t.storage
      → handle_send_message show_uuid svc later context cid again t
        ≡ send_ack later.now
            (text "SEND_MESSAGE")
            cid
            (message_ack first.message.uuid true)
            (record t { storage = ensure_bootstrap_seed svc later.seed t.storage })
  unfolding IsSent
  IsSent-again later again t same sent =
      handle_send_message-again show_uuid svc context cid valid later again t first.message.uuid
        (rw same sent.0)
        (ap is_ok (
          get_message-found svc later.seed context.workspace_id first.message.uuid t.storage message
            sent.1 refl refl))
      ∙ rw (get_message-state svc later.seed context.workspace_id first.message.uuid t.storage) refl

  -- Where no message is remembered for the valid `client_msg_id` and the channel, let a
  -- SEND_MESSAGE succeed. When the same user sends another one with the same `client_msg_id` to
  -- the same channel, whatever its text, no second message is made: it is acknowledged as a
  -- duplicate, with the identifier of the first message, and the storage is only seeded.
  pub handle_send_message-twice :
      (later : WsDraw) (again : SendMessagePayload)
      → again.channel_id ≡ payload.channel_id
      → remembered show_uuid svc context cid valid payload.channel_id s.storage ≡ none
      → (handle_send_message show_uuid svc first context cid payload s).0 ≡ ok tt
      → let t = (handle_send_message show_uuid svc first context cid payload s).1 in
        handle_send_message show_uuid svc later context cid again t
        ≡ send_ack later.now
            (text "SEND_MESSAGE")
            cid
            (message_ack first.message.uuid true)
            (record t { storage = ensure_bootstrap_seed svc later.seed t.storage })
  handle_send_message-twice later again same unknown done =
      let new = handle_send_message-new show_uuid svc context cid valid first payload s unknown in
      IsSent-again later again (handle_send_message show_uuid svc first context cid payload s).1
        same
        (rw new
          (send_new-IsSent (ap (λ (r : ApiResult (Unit {0}) × Server). r.0) (sym new) ∙ done)))
