-- ===== src/Realtime.antt =====
-- src/realtime.rs: the hub of events, the bridge to the other instances and the idempotence keys
-- of websocket commands. The commands are in `Commands`.
pub mod Commands
pub mod Hub
pub mod Dedup
pub mod Once
pub mod Resend
use Prim.Native.Nat.{ℕ}
use mathlib.Core.Bool.{Bool, true, false}
use mathlib.Core.Option.{Option, none, some}
use mathlib.Core.List.{List, [], ◌∷◌, ◌++◌}
use galynx_api.Common.{ℤ, is_empty, ltb, if◌then◌else◌, ◌==◌, text_eq}
use galynx_api.Text.{Str, text, trim, byte_len}
use galynx_api.Errors.{
  ApiError, ApiResult, ok, err, bad_request, internal, unauthorized, too_many_requests, not_found,
  Action, is_ok,
}
use galynx_api.Storage.{Storage, Uuid}
use galynx_api.Channels.Responses.{MessageResponse, ChannelResponse}
use galynx_api.Channels.Messages.{MessageListResponse}
use galynx_api.Channels.Threads.{ThreadSummaryResponse}
use galynx_api.Reactions.{ReactionUpdateResponse}
use galynx_api.RateLimit.{RateLimitService}

-- The shapes of the JSON values that the hub sends as the payload of an event.
pub data EventPayload : Type 0 where
  message_payload : MessageResponse → EventPayload
  deleted_payload : Uuid → EventPayload
  reaction_payload : ReactionUpdateResponse → EventPayload
  channel_payload : ChannelResponse → EventPayload
  channel_deleted_payload : Uuid → EventPayload
  thread_payload : ThreadSummaryResponse → EventPayload

pub record WsEventEnvelope : Type 0 where
  pub event_type : Str
  pub workspace_id : Option Uuid
  pub channel_id : Option Uuid
  pub correlation_id : Option Str
  pub server_ts : ℤ
  pub payload : EventPayload

pub record RedisEventEnvelope : Type 0 where
  pub source_instance_id : Str
  pub event : WsEventEnvelope

-- The results that an acknowledgement carries; `Bool` says whether it is marked `deduped`.
pub data AckResult : Type 0 where
  message_ack : Uuid → Bool → AckResult
  page_ack : MessageListResponse → AckResult
  thread_ack : ThreadSummaryResponse → MessageListResponse → AckResult
  ok_ack : Bool → AckResult

pub record Ack : Type 0 where
  pub command : Str
  pub correlation_id : Option Str
  pub server_ts : ℤ
  pub result : AckResult

-- What is delivered to the subscribers, each event under its workspace, and what is put into the
-- outbox of the bridge where there is one.
pub record RealtimeHub : Type 0 where
  pub instance_id : Str
  pub has_outbox : Bool
  pub delivered : List (Uuid × WsEventEnvelope)
  pub outbox : List RedisEventEnvelope

-- `emit_local`, `emit_workspace_event`
unfoldable pub emit_local : Uuid → WsEventEnvelope → RealtimeHub → RealtimeHub
emit_local workspace_id event hub = record hub {
  delivered = hub.delivered ++ (workspace_id, event) ∷ [];
}

-- `RealtimeHub::emit`
unfoldable pub emit : Uuid → WsEventEnvelope → RealtimeHub → RealtimeHub
unfolding emit_local
emit workspace_id event hub =
    let hub' = emit_local workspace_id event hub in
    if hub.has_outbox
    then record hub' {
      outbox = hub.outbox ++ record { source_instance_id = hub.instance_id; event = event } ∷ [];
    }
    else hub'

-- One message of the bridge: its own events come back and are passed over, as are those of no
-- workspace.
unfoldable pub receive_remote : RedisEventEnvelope → RealtimeHub → RealtimeHub
receive_remote envelope hub =
    if envelope.source_instance_id == hub.instance_id
    then hub
    else elim envelope.event.workspace_id [
      | none ↦ hub
      | some workspace_id ↦ emit_local workspace_id envelope.event hub
    ]

-- `event` and `make_event`
unfoldable pub make_event :
    ℤ → Str → Uuid → Option Uuid → Option Str → EventPayload → WsEventEnvelope
make_event now event_type workspace_id channel_id correlation_id payload = record {
  event_type = event_type;
  workspace_id = some workspace_id;
  channel_id = channel_id;
  correlation_id = correlation_id;
  server_ts = now;
  payload = payload;
}

-- `status_from_error`
unfoldable pub status_from_error : ApiError → ℕ
status_from_error (unauthorized m) = 401
status_from_error (bad_request m) = 400
status_from_error (too_many_requests m) = 429
status_from_error (not_found m) = 404
status_from_error (internal m) = 500

-- The length is counted in bytes.
unfoldable pub normalize_client_msg_id : Option Str → ApiResult (Option Str)
normalize_client_msg_id none = ok none
normalize_client_msg_id (some value) =
    let normalized = trim value in
    if is_empty normalized
    then err (bad_request (text "client_msg_id must not be empty"))
    else if ltb 128 (byte_len normalized)
    then err (bad_request (text "client_msg_id is too long"))
    else ok (some normalized)

unfoldable pub ws_command_once_key : (Uuid → Str) → Uuid → Uuid → Str → Str → Str → Str
ws_command_once_key show_uuid workspace_id user_id command target client_msg_id =
    show_uuid workspace_id
    ++ text ":"
    ++ show_uuid user_id
    ++ text ":"
    ++ trim command
    ++ text ":"
    ++ trim target
    ++ text ":"
    ++ trim client_msg_id

-- What a websocket connection works on: the stores of the program, and the acknowledgements sent
-- while the socket is `connected`.
pub record Server : Type 0 where
  pub storage : Storage
  pub rate_limit : RateLimitService
  pub realtime : RealtimeHub
  pub connected : Bool
  pub acks : List Ack

-- A call of a service, on its own part of the state.
abbrev pub on_storage : {A : Type 0} → Action Storage A → Action Server A
on_storage m s = let (r, storage) = m s.storage in (r, record s { storage = storage })

abbrev pub on_rate_limit : {A : Type 0} → Action RateLimitService A → Action Server A
on_rate_limit m s = let (r, limits) = m s.rate_limit in (r, record s { rate_limit = limits })

abbrev pub on_realtime : (RealtimeHub → RealtimeHub) → Action Server (Unit {0})
on_realtime f s = (ok tt, record s { realtime = f s.realtime })

-- Whether a call succeeds, its error being dropped.
abbrev pub attempt : {A : Type 0} → Action Storage A → Action Server Bool
attempt m s = let (r, storage) = m s.storage in (ok (is_ok r), record s { storage = storage })

unfoldable pub send_ack : ℤ → Str → Option Str → AckResult → Action Server (Unit {0})
send_ack now command correlation_id result s =
    if s.connected
    then (
      ok tt,
      record s {
        acks =
            s.acks
            ++ record {
              command = command;
              correlation_id = correlation_id;
              server_ts = now;
              result = result;
            }
              ∷ [];
      },
    )
    else (err (internal (text "failed to send websocket ack")), s)
