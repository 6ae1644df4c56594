-- ===== src/Realtime/Dedup.antt =====
-- A command with a `client_msg_id` is tried once.
use mathlib.Core.Path.{◌≡◌}
use mathlib.Core.Bool.{true}
use mathlib.Core.Option.{Option}
use native.Mathlib.Omega.{arith}
use galynx_api.Common.{ℤ, text_eq}
use galynx_api.Text.{Str}
use galynx_api.Errors.{Action, modify}
use galynx_api.Errors.Keeping.{IsKept, keeping}
use galynx_api.Auth.Context.{AuthContext}
use galynx_api.Storage.{Storage, Uuid, Stamp, MessageRecordStore, Metadata}
use galynx_api.Storage.Rooms.{
  update_message as store_update, add_reaction as store_reaction,
  remove_reaction as unstore_reaction,
}
use galynx_api.Storage.Files.{append_audit_entry}
use galynx_api.Storage.Commands.{has_ws_command_once}
use galynx_api.Channels.{ChannelService, ensure_bootstrap_seed}
use galynx_api.Channels.Seed.{seed-ws_command_once}
use galynx_api.Channels.Messages.{update_message, delete_message, get_message}
use galynx_api.Reactions.{add_reaction, remove_reaction}
use galynx_api.Audit.{write}
use galynx_api.Realtime.{Server, on_storage, on_realtime, send_ack, RealtimeHub, AckResult}
use galynx_api.Realtime.Commands.{
  WsDraw, EditMessagePayload, DeleteMessagePayload, ReactionPayload, edit_new, delete_new, add_new,
  remove_new,
}

module _ (key : Str) where
  -- The key of a command is marked.
  abbrev pub IsMarked : Storage → Type 0
  IsMarked s = has_ws_command_once key s ≡ true

  abbrev pub IsSeen : Server → Type 0
  IsSeen s = IsMarked s.storage

  seed-IsKept :
      (svc : ChannelService) (seed : Stamp)
      → IsKept IsMarked (modify (ensure_bootstrap_seed svc seed))
  unfolding has_ws_command_once
  seed-IsKept svc seed = record { after = λ s h. rw (seed-ws_command_once svc seed s) h }

  store_update-IsKept : (m : MessageRecordStore) → IsKept IsMarked (modify (store_update m))
  unfolding has_ws_command_once store_update
  store_update-IsKept m = record { after = λ s h. h }

  store_reaction-IsKept :
      (m : Uuid) (emoji : Str) (u : Uuid) → IsKept IsMarked (modify (store_reaction m emoji u))
  unfolding has_ws_command_once store_reaction
  store_reaction-IsKept m emoji u = record { after = λ s h. h }

  unstore_reaction-IsKept :
      (m : Uuid) (emoji : Str) (u : Uuid) → IsKept IsMarked (modify (unstore_reaction m emoji u))
  unfolding has_ws_command_once unstore_reaction
  unstore_reaction-IsKept m emoji u = record { after = λ s h. h }

  ruleset storing =
      (keeping, seed-IsKept, store_update-IsKept, store_reaction-IsKept, unstore_reaction-IsKept)

  update_message-IsKept :
      (svc : ChannelService) (seed : Stamp) (now : ℤ) (context : AuthContext) (id : Uuid)
      (body : Str)
      → IsKept IsMarked (update_message svc seed now context id body)
  unfolding update_message
  update_message-IsKept svc seed now context id body = search storing depth 24

  delete_message-IsKept :
      (svc : ChannelService) (seed : Stamp) (now : ℤ) (context : AuthContext) (id : Uuid)
      → IsKept IsMarked (delete_message svc seed now context id)
  unfolding delete_message
  delete_message-IsKept svc seed now context id = search storing depth 24

  get_message-IsKept :
      (svc : ChannelService) (seed : Stamp) (workspace_id id : Uuid)
      → IsKept IsMarked (get_message svc seed workspace_id id)
  unfolding get_message
  get_message-IsKept svc seed workspace_id id = search storing depth 24

  add_reaction-IsKept :
      (svc : ChannelService) (seed : Stamp) (context : AuthContext) (id : Uuid) (emoji : Str)
      → IsKept IsMarked (add_reaction svc seed context id emoji)
  unfolding add_reaction
  add_reaction-IsKept svc seed context id emoji = search (storing, get_message-IsKept) depth 24

  remove_reaction-IsKept :
      (svc : ChannelService) (seed : Stamp) (context : AuthContext) (id : Uuid) (emoji : Str)
      → IsKept IsMarked (remove_reaction svc seed context id emoji)
  unfolding remove_reaction
  remove_reaction-IsKept svc seed context id emoji = search (storing, get_message-IsKept) depth 24

  write-IsKept :
      (stamp : Stamp) (workspace_id : Uuid) (actor : Option Uuid) (action target : Str)
      (target_id : Option Str) (metadata : Metadata)
      → IsKept IsMarked (write stamp workspace_id actor action target target_id metadata)
  unfolding write has_ws_command_once append_audit_entry
  write-IsKept stamp workspace_id actor action target target_id metadata = record {
    after = λ s h. h;
  }

  on_storage-IsKept :
      {A : Type 0} (m : Action Storage A) → IsKept IsMarked m → IsKept IsSeen (on_storage m)
  on_storage-IsKept m k = record { after = λ s h. k.after s.storage h }

  on_realtime-IsKept : (f : RealtimeHub → RealtimeHub) → IsKept IsSeen (on_realtime f)
  on_realtime-IsKept f = record { after = λ s h. h }

  pub send_ack-IsKept :
      (now : ℤ) (command : Str) (id : Option Str) (result : AckResult)
      → IsKept IsSeen (send_ack now command id result)
  unfolding send_ack
  send_ack-IsKept now command id result = record { after = λ s h. ground arith }

  ruleset serving = (
    keeping, on_storage-IsKept, on_realtime-IsKept, send_ack-IsKept, write-IsKept,
    update_message-IsKept, delete_message-IsKept, get_message-IsKept, add_reaction-IsKept,
    remove_reaction-IsKept,
  )

  module _ (show_uuid : Uuid → Str) (svc : ChannelService) (draw : WsDraw) (context : AuthContext)
      (client_msg_id : Option Str) where
    pub edit_new-IsKept :
        (payload : EditMessagePayload)
        → IsKept IsSeen (edit_new show_uuid svc draw context client_msg_id payload)
    unfolding edit_new
    edit_new-IsKept payload = search serving depth 24

    pub delete_new-IsKept :
        (payload : DeleteMessagePayload)
        → IsKept IsSeen (delete_new show_uuid svc draw context client_msg_id payload)
    unfolding delete_new
    delete_new-IsKept payload = search serving depth 24

    pub add_new-IsKept :
        (payload : ReactionPayload)
        → IsKept IsSeen (add_new show_uuid svc draw context client_msg_id payload)
    unfolding add_new
    add_new-IsKept payload = search serving depth 24

    pub remove_new-IsKept :
        (payload : ReactionPayload)
        → IsKept IsSeen (remove_new show_uuid svc draw context client_msg_id payload)
    unfolding remove_new
    remove_new-IsKept payload = search serving depth 24
