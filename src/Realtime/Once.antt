-- ===== src/Realtime/Once.antt =====
-- What a repeated websocket command does.
use mathlib.Core.Path.{◌≡◌, refl, ap, sym, subst}
use mathlib.Core.Logic.{inl, inr}
use mathlib.Core.Bool.{Bool, true, false}
use mathlib.Core.Option.{Option, some}
use native.Mathlib.Omega.{arith}
use galynx_api.Common.{==_refl, text_eq, if◌then◌else◌, Bool-cases}
use galynx_api.Text.{Str, text}
use galynx_api.Errors.{ApiResult, ok, err, Action}
use galynx_api.Errors.Keeping.{IsKept}
use galynx_api.Auth.Context.{AuthContext}
use galynx_api.Storage.{Uuid}
use galynx_api.Storage.Commands.{has_ws_command_once, put_ws_command_once}
use galynx_api.Storage.Lookups.{has_ws_command_once-put_ws_command_once}
use galynx_api.Channels.{ChannelService}
use galynx_api.Realtime.{
  Server, send_ack, AckResult, message_ack, ok_ack, normalize_client_msg_id, ws_command_once_key,
}
use galynx_api.Realtime.Commands.{
  WsDraw, EditMessagePayload, DeleteMessagePayload, ReactionPayload, handle_edit_message,
  handle_delete_message, handle_add_reaction, once, seen_before, message_target, reaction_target,
}
use galynx_api.Realtime.Dedup.{
  send_ack-IsKept, IsSeen, edit_new-IsKept, delete_new-IsKept, add_new-IsKept,
}

module _ (show_uuid : Uuid → Str) (svc : ChannelService) (context : AuthContext) (cid : Option Str)
    {id : Str} (valid : normalize_client_msg_id cid ≡ ok (some id)) where
  abbrev key_of : Str → Str → Str
  key_of command target =
      ws_command_once_key show_uuid context.workspace_id context.user_id command target id

  mark : Str → Server → Server
  mark key s = record s { storage = put_ws_command_once key s.storage }

  mark-IsSeen : (key : Str) (s : Server) → IsSeen key (mark key s)
  unfolding mark
  mark-IsSeen key s =
      rw (has_ws_command_once-put_ws_command_once key key s.storage, ==_refl key) refl

  seen_before-seen :
      (draw : WsDraw) (command target : Str) (s : Server)
      → IsSeen (key_of command target) s
      → seen_before show_uuid svc draw context cid command target s ≡ (ok true, s)
  unfolding seen_before
  seen_before-seen draw command target s h = ground arith

  seen_before-new :
      (draw : WsDraw) (command target : Str) (s : Server)
      → has_ws_command_once (key_of command target) s.storage ≡ false
      → seen_before show_uuid svc draw context cid command target s
        ≡ (ok false, mark (key_of command target) s)
  unfolding seen_before mark
  seen_before-new draw command target s h = ground arith

  -- The rest of `once`, behind the test.
  abbrev resumed :
      WsDraw
      → Str
      → AckResult
      → Action Server (Unit {0})
      → ApiResult Bool × Server
      → ApiResult (Unit {0}) × Server
  resumed draw command deduped action (r, s) = elim r [
    | ok seen ↦ (if seen then send_ack draw.now command cid deduped else action) s
    | err e ↦ (err e, s)
  ]

  module _ (command target : Str) (deduped : AckResult) (action : Action Server (Unit {0}))
      (draw : WsDraw) (s : Server) where
    once-again :
        IsSeen (key_of command target) s
        → once show_uuid svc draw context cid command target deduped action s
          ≡ send_ack draw.now command cid deduped s
    once-again seen =
        ap (resumed draw command deduped action) (seen_before-seen draw command target s seen)

    once-new :
        has_ws_command_once (key_of command target) s.storage ≡ false
        → once show_uuid svc draw context cid command target deduped action s
          ≡ action (mark (key_of command target) s)
    once-new new =
        ap (resumed draw command deduped action) (seen_before-new draw command target s new)

    once-IsSeen :
        IsKept (IsSeen (key_of command target)) action
        → IsSeen
            (key_of command target)
            (once show_uuid svc draw context cid command target deduped action s).1
    once-IsSeen kept = elim (Bool-cases (has_ws_command_once (key_of command target) s.storage)) [
      | inl seen ↦
          subst (λ (r : ApiResult (Unit {0}) × Server). IsSeen (key_of command target) r.1)
            (sym (once-again seen))
            ((send_ack-IsKept (key_of command target) draw.now command cid deduped).after s seen)
      | inr new ↦
          subst (λ (r : ApiResult (Unit {0}) × Server). IsSeen (key_of command target) r.1)
            (sym (once-new new))
            (kept.after (mark (key_of command target) s) (mark-IsSeen (key_of command target) s))
    ]

  -- An EDIT_MESSAGE is tried once for a valid `client_msg_id`: whether or not the first one
  -- succeeded, a later one of the same user for the same message is only acknowledged as a
  -- duplicate, whatever its text, and changes nothing but the list of acknowledgements.
  pub handle_edit_message-again :
      (first later : WsDraw) (payload again : EditMessagePayload) (s : Server)
      → again.message_id ≡ payload.message_id
      → let t = (handle_edit_message show_uuid svc first context cid payload s).1 in
        handle_edit_message show_uuid svc later context cid again t
        ≡ send_ack later.now (text "EDIT_MESSAGE") cid (message_ack again.message_id true) t
  unfolding handle_edit_message
  handle_edit_message-again first later payload again s same =
      once-again (text "EDIT_MESSAGE") _ _ _ later _ (
        rw same (
          once-IsSeen (text "EDIT_MESSAGE")
            (message_target show_uuid svc first context cid payload.message_id) _ _ first s
            (edit_new-IsKept _ show_uuid svc first context cid payload)))

  -- A DELETE_MESSAGE is tried once for a valid `client_msg_id`: whether or not the first one
  -- succeeded, a later one of the same user for the same message is only acknowledged as a
  -- duplicate, and changes nothing but the list of acknowledgements.
  pub handle_delete_message-again :
      (first later : WsDraw) (payload again : DeleteMessagePayload) (s : Server)
      → again.message_id ≡ payload.message_id
      → let t = (handle_delete_message show_uuid svc first context cid payload s).1 in
        handle_delete_message show_uuid svc later context cid again t
        ≡ send_ack later.now (text "DELETE_MESSAGE") cid (message_ack again.message_id true) t
  unfolding handle_delete_message
  handle_delete_message-again first later payload again s same =
      once-again (text "DELETE_MESSAGE") _ _ _ later _ (
        rw same (
          once-IsSeen (text "DELETE_MESSAGE")
            (message_target show_uuid svc first context cid payload.message_id) _ _ first s
            (delete_new-IsKept _ show_uuid svc first context cid payload)))

  -- An ADD_REACTION is tried once for a valid `client_msg_id`: whether or not the first one
  -- succeeded, a later one of the same user for the same message and emoji is only acknowledged
  -- as a duplicate, and changes nothing but the list of acknowledgements.
  pub handle_add_reaction-again :
      (first later : WsDraw) (payload : ReactionPayload) (s : Server)
      → let t = (handle_add_reaction show_uuid svc first context cid payload s).1 in
        handle_add_reaction show_uuid svc later context cid payload t
        ≡ send_ack later.now (text "ADD_REACTION") cid (ok_ack true) t
  unfolding handle_add_reaction
  handle_add_reaction-again first later payload s = once-again (text "ADD_REACTION") _ _ _ later _ (
      once-IsSeen (text "ADD_REACTION") (reaction_target show_uuid svc first context cid payload) _
        _ first s (add_new-IsKept _ show_uuid svc first context cid payload))
