-- ===== src/Realtime/Hub.antt =====
-- An event reaches the subscribers of every instance once.
use mathlib.Core.Path.{◌≡◌}
use mathlib.Core.Logic.{◌≢◌}
use mathlib.Core.Bool.{true}
use mathlib.Core.Option.{Option}
use mathlib.Core.List.{[], ◌∷◌, ◌++◌}
use native.Mathlib.Omega.{arith}
use galynx_api.Common.{ℤ, ==_refl, ==_iff, text_eq}
use galynx_api.Text.{Str}
use galynx_api.Storage.{Uuid}
use galynx_api.Realtime.{
  RealtimeHub, RedisEventEnvelope, EventPayload, emit, emit_local, make_event, receive_remote,
}

-- An instance with a bridge that emits an event puts one message into its outbox. When that
-- message comes back, the instance delivers nothing more; another instance delivers the event to
-- the subscribers of the event's workspace, as if it had been emitted there, and sends nothing
-- into its own outbox.
pub emit-bridged :
    (now : ℤ) (event_type : Str) (workspace_id : Uuid) (channel_id : Option Uuid)
    (correlation_id : Option Str) (payload : EventPayload) (here there : RealtimeHub)
    → here.has_outbox ≡ true
    → here.instance_id ≢ there.instance_id
    → let event = make_event now event_type workspace_id channel_id correlation_id payload in
      let after = emit workspace_id event here in
      (sent : RedisEventEnvelope) × (after.outbox ≡ here.outbox ++ sent ∷ [])
      × (after.delivered ≡ here.delivered ++ (workspace_id, event) ∷ [])
      × (receive_remote sent after ≡ after)
      × ((receive_remote sent there).delivered ≡ there.delivered ++ (workspace_id, event) ∷ [])
      × ((receive_remote sent there).outbox ≡ there.outbox)
unfolding emit emit_local make_event receive_remote
emit-bridged now event_type workspace_id channel_id correlation_id payload here there bridged ne =
    let event = make_event now event_type workspace_id channel_id correlation_id payload in
    let sent : RedisEventEnvelope = record {
      source_instance_id = here.instance_id;
      event = event;
    } in
    (
      sent,
      ground (arith, ==_refl here.instance_id),
      ground (arith, ==_refl here.instance_id),
      ground (arith, ==_refl here.instance_id),
      ground (arith, ==_iff here.instance_id there.instance_id),
      ground (arith, ==_iff here.instance_id there.instance_id),
    )
