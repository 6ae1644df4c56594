-- ===== src/Tests/Sockets.antt =====
-- Websocket commands and the hub.
use Prim.Native.Nat.{ℕ, ◌+◌}
use mathlib.Core.Path.{◌≡◌, refl}
use mathlib.Core.Logic.{◌≢◌}
use mathlib.Core.Bool.{true}
use mathlib.Core.Option.{Option, none, some}
use mathlib.Core.List.{[], ◌∷◌}
use native.Mathlib.Omega.{arith}
use galynx_api.Common.{pos}
use galynx_api.Text.{Str, text, text_tests}
use galynx_api.Text.Decimal.{print_ℕ}
use galynx_api.Errors.{ok}
use galynx_api.RateLimit.{new_service}
use galynx_api.Realtime.{
  Server, RealtimeHub, WsEventEnvelope, RedisEventEnvelope, deleted_payload, emit, make_event,
  receive_remote, send_ack, message_ack, ok_ack, normalize_client_msg_id,
}
use galynx_api.Realtime.Commands.{
  WsDraw, handle_edit_message, handle_delete_message, handle_add_reaction,
}
use galynx_api.Realtime.Hub.{emit-bridged}
use galynx_api.Realtime.Once.{
  handle_edit_message-again, handle_delete_message-again, handle_add_reaction-again,
}
use galynx_api.Channels.{ensure_bootstrap_seed}
use galynx_api.Realtime.Commands.{SendMessagePayload, handle_send_message}
use galynx_api.Realtime.Resend.{remembered, handle_send_message-twice}
use galynx_api.Tests.Data.{store, channels, alice, stamp}

abbrev hub : Str → RealtimeHub
hub instance_id = record {
  instance_id = instance_id;
  has_outbox = true;
  delivered = [];
  outbox = [];
}

abbrev deletion : WsEventEnvelope
deletion = record {
  event_type = text "MESSAGE_DELETED";
  workspace_id = some 1;
  channel_id = some 11;
  correlation_id = none;
  server_ts = pos 5;
  payload = deleted_payload 20;
}

two_instances : text "a" ≢ text "b"
unfolding text
two_instances e = ground (arith, e)

emit-bridged_example :
    let event = make_event (pos 5) (text "MESSAGE_DELETED") 1 (some 11) none (deleted_payload 20) in
    let after = emit 1 event (hub (text "a")) in
    (sent : RedisEventEnvelope) × (after.outbox ≡ sent ∷ [])
    × (after.delivered ≡ (1, event) ∷ [])
    × (receive_remote sent after ≡ after)
    × ((receive_remote sent (hub (text "b"))).delivered ≡ (1, event) ∷ [])
    × ((receive_remote sent (hub (text "b"))).outbox ≡ [])
emit-bridged_example =
    emit-bridged (pos 5) (text "MESSAGE_DELETED") 1 (some 11) none (deleted_payload 20)
      (hub (text "a")) (hub (text "b")) refl two_instances

abbrev ws : ℕ → WsDraw
ws n = record {
  instant = n;
  seed = stamp (90 + n);
  message = stamp (190 + n);
  audit = stamp (290 + n);
  now = pos n;
}

abbrev pub server : Server
server = record {
  storage = store;
  rate_limit = new_service;
  realtime = hub (text "a");
  connected = true;
  acks = [];
}

abbrev cid : Option Str
cid = some (text " c1")

cid_valid : normalize_client_msg_id cid ≡ ok (some (text "c1"))
unfolding text_tests normalize_client_msg_id galynx_api.Text.byte_len
cid_valid = refl

-- The first command fails, for its text is empty, and the second is taken for a duplicate.
handle_edit_message-again_example :
    let t =
      (handle_edit_message print_ℕ channels
        (ws 1)
        alice
        cid
        (record { message_id = 20; body_md = text " " })
        server).1 in
    handle_edit_message print_ℕ channels
      (ws 2)
      alice
      cid
      (record { message_id = 20; body_md = text "better" })
      t
    ≡ send_ack (pos 2) (text "EDIT_MESSAGE") cid (message_ack 20 true) t
handle_edit_message-again_example =
    handle_edit_message-again print_ℕ channels alice cid cid_valid (ws 1) (ws 2)
      (record { message_id = 20; body_md = text " " })
      (record { message_id = 20; body_md = text "better" }) server refl

handle_delete_message-again_example :
    let t =
      (handle_delete_message print_ℕ channels
        (ws 1)
        alice
        cid
        (record { message_id = 20 })
        server).1 in
    handle_delete_message print_ℕ channels (ws 2) alice cid (record { message_id = 20 }) t
    ≡ send_ack (pos 2) (text "DELETE_MESSAGE") cid (message_ack 20 true) t
handle_delete_message-again_example =
    handle_delete_message-again print_ℕ channels alice cid cid_valid (ws 1) (ws 2)
      (record { message_id = 20 }) (record { message_id = 20 }) server refl

handle_add_reaction-again_example :
    let t =
      (handle_add_reaction print_ℕ channels
        (ws 1)
        alice
        cid
        (record { message_id = 20; emoji = text "up" })
        server).1 in
    handle_add_reaction print_ℕ channels
      (ws 2)
      alice
      cid
      (record { message_id = 20; emoji = text "up" })
      t
    ≡ send_ack (pos 2) (text "ADD_REACTION") cid (ok_ack true) t
handle_add_reaction-again_example =
    handle_add_reaction-again print_ℕ channels alice cid cid_valid (ws 1) (ws 2)
      (record { message_id = 20; emoji = text "up" }) server

abbrev hello : SendMessagePayload
hello = record { channel_id = 11; body_md = text "hello" }

nothing_sent : remembered print_ℕ channels alice cid cid_valid 11 store ≡ none
unfolding store galynx_api.Storage.Commands.get_ws_command_message_id galynx_api.Common.lookup
nothing_sent = refl

hello_sent : (handle_send_message print_ℕ channels (ws 1) alice cid hello server).0 ≡ ok tt
unfolding text_tests handle_send_message normalize_client_msg_id galynx_api.Text.byte_len
    galynx_api.Storage.Commands.get_ws_command_message_id galynx_api.Common.lookup store
    galynx_api.Channels.Messages.create_message galynx_api.Channels.assert_channel_access
    galynx_api.Storage.Rooms.get_channel ensure_bootstrap_seed
    galynx_api.Storage.Rooms.list_channels galynx_api.Storage.Rooms.is_channel_member
    galynx_api.Common.contains galynx_api.Audit.write send_ack
hello_sent = refl

handle_send_message-twice_example :
    let t = (handle_send_message print_ℕ channels (ws 1) alice cid hello server).1 in
    handle_send_message print_ℕ channels
      (ws 2)
      alice
      cid
      (record { channel_id = 11; body_md = text "again" })
      t
    ≡ send_ack
        (pos 2)
        (text "SEND_MESSAGE")
        cid
        (message_ack 191 true)
        (record t { storage = ensure_bootstrap_seed channels (stamp 92) t.storage })
handle_send_message-twice_example =
    handle_send_message-twice print_ℕ channels alice cid cid_valid (ws 1) hello server (ws 2)
      (record { channel_id = 11; body_md = text "again" }) refl nothing_sent hello_sent
