-- ===== src/Reactions.antt =====
-- src/reactions.rs: adding and removing the reaction of a user to a message.
pub mod Users
use Prim.Native.Nat.{ℕ}
use mathlib.Core.Bool.{Bool, true, false}
use mathlib.Core.List.{List}
use galynx_api.Common.{is_empty, length, ltb, sort_dedup, if◌then◌else◌}
use galynx_api.Text.{Str, text, trim}
use galynx_api.Errors.{
  ApiResult, ok, err, bad_request, Action, ◌>>=◌, ◌>>◌, pure, gets, lift, modify,
}
use galynx_api.Auth.Context.{AuthContext}
use galynx_api.Storage.{Storage, Uuid, Stamp}
use galynx_api.Storage.Rooms.{
  add_reaction as store_reaction, remove_reaction as unstore_reaction, list_reaction_users,
}
use galynx_api.Channels.{ChannelService}
use galynx_api.Channels.Responses.{MessageResponse}
use galynx_api.Channels.Messages.{get_message}

pub record ReactionUpdateResponse : Type 0 where
  pub message_id : Uuid
  pub channel_id : Uuid
  pub workspace_id : Uuid
  pub emoji : Str
  pub count : ℕ
  pub user_ids : List Uuid
  pub op : Str

-- The length is counted in characters.
unfoldable pub normalize_emoji : Str → ApiResult Str
normalize_emoji emoji =
    let normalized = trim emoji in
    if is_empty normalized
    then err (bad_request (text "emoji is required"))
    else if ltb 32 (length normalized)
    then err (bad_request (text "emoji is too long"))
    else ok normalized

unfoldable pub build_update : List Uuid → Uuid → Uuid → Uuid → Str → Str → ReactionUpdateResponse
build_update user_ids message_id channel_id workspace_id emoji op =
    let user_ids = sort_dedup user_ids in
    record {
      message_id = message_id;
      channel_id = channel_id;
      workspace_id = workspace_id;
      emoji = emoji;
      count = length user_ids;
      user_ids = user_ids;
      op = op;
    }

module _ (svc : ChannelService) (seed : Stamp) (context : AuthContext) where
  unfoldable pub add_reaction : Uuid → Str → Action Storage ReactionUpdateResponse
  add_reaction message_id emoji = do
    emoji ← lift (normalize_emoji emoji)
    message ← get_message svc seed context.workspace_id message_id
    modify (store_reaction message_id emoji context.user_id)
    user_ids ← gets (list_reaction_users message_id emoji)
    pure (
        build_update user_ids message_id message.channel_id context.workspace_id emoji
          (text "added"))

  unfoldable pub remove_reaction : Uuid → Str → Action Storage ReactionUpdateResponse
  remove_reaction message_id emoji = do
    emoji ← lift (normalize_emoji emoji)
    message ← get_message svc seed context.workspace_id message_id
    modify (unstore_reaction message_id emoji context.user_id)
    user_ids ← gets (list_reaction_users message_id emoji)
    pure (
        build_update user_ids message_id message.channel_id context.workspace_id emoji
          (text "removed"))
