-- ===== src/Storage/Commands.antt =====
-- src/storage.rs: the marks that make websocket commands idempotent.
use mathlib.Core.Path.{◌≡◌, refl}
use mathlib.Core.Bool.{Bool}
use mathlib.Core.Option.{Option, some}
use galynx_api.Common.{
  lookup-insert, ==_refl, lookup, insert, contains, insert_member, nat_eq, text_eq, pair_eq,
}
use galynx_api.Text.{Str, trim}
use galynx_api.Storage.{Storage, Uuid, WsDedupKey}

unfoldable pub dedup_key : Uuid → Uuid → Uuid → Str → WsDedupKey
dedup_key workspace_id user_id channel_id client_msg_id =
    ((workspace_id, user_id), (channel_id, trim client_msg_id))

unfoldable pub get_ws_command_message_id : Uuid → Uuid → Uuid → Str → Storage → Option Uuid
unfolding dedup_key
get_ws_command_message_id workspace_id user_id channel_id client_msg_id s =
    lookup (dedup_key workspace_id user_id channel_id client_msg_id) s.ws_command_dedup

unfoldable pub put_ws_command_message_id : Uuid → Uuid → Uuid → Str → Uuid → Storage → Storage
unfolding dedup_key
put_ws_command_message_id workspace_id user_id channel_id client_msg_id message_id s = record s {
  ws_command_dedup =
      insert (dedup_key workspace_id user_id channel_id client_msg_id) message_id
        s.ws_command_dedup;
}

unfoldable pub has_ws_command_once : Str → Storage → Bool
has_ws_command_once key s = contains key s.ws_command_once

unfoldable pub put_ws_command_once : Str → Storage → Storage
put_ws_command_once key s = record s { ws_command_once = insert_member key s.ws_command_once }

-- The message that is remembered for a command is the one that was put.
pub get_ws_command_message_id-put_ws_command_message_id :
    (workspace_id user_id channel_id : Uuid) (client_msg_id : Str) (message_id : Uuid) (s : Storage)
    → get_ws_command_message_id workspace_id user_id channel_id client_msg_id
        (put_ws_command_message_id workspace_id user_id channel_id client_msg_id message_id s)
      ≡ some message_id
unfolding get_ws_command_message_id put_ws_command_message_id
get_ws_command_message_id-put_ws_command_message_id workspace_id user_id channel_id client_msg_id
      message_id s =
    let key = dedup_key workspace_id user_id channel_id client_msg_id in
    rw (lookup-insert key key message_id s.ws_command_dedup, ==_refl key) refl
