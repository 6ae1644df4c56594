-- ===== src/Http/Rooms.antt =====
-- The handlers of src/channels.rs for channels and their members.
use mathlib.Core.Option.{some}
use mathlib.Core.List.{List}
use galynx_api.Text.{text}
use galynx_api.Errors.{Action, ◌>>=◌, ◌>>◌, pure, lift}
use galynx_api.Auth.Context.{ensure_channel_admin}
use galynx_api.Storage.{Uuid, empty, channel, member_user}
use galynx_api.Channels as Service
use galynx_api.Channels.{CreateChannelRequest}
use galynx_api.Channels.Responses.{ChannelResponse}
use galynx_api.Realtime.{Server, on_storage, channel_payload, channel_deleted_payload}
use galynx_api.Http.{
  AppState, HttpDraw, Headers, HttpResponse, json, created, no_content, authenticated, log, send,
}

module _ (app : AppState) (draw : HttpDraw) (headers : Headers) where
  unfoldable pub list_channels : Action Server (HttpResponse (List ChannelResponse))
  list_channels = do
    context ← authenticated app draw headers
    items ← on_storage (Service.list_channels app.channels draw.seed context.workspace_id)
    pure (json items)

  unfoldable pub create_channel :
      CreateChannelRequest → Action Server (HttpResponse ChannelResponse)
  create_channel payload = do
    context ← authenticated app draw headers
    lift (ensure_channel_admin context)
    item ← on_storage (
        Service.create_channel app.channels draw.seed draw.item context.workspace_id context.user_id
          payload)
    log draw context.workspace_id context (text "CHANNEL_CREATED") (text "channel")
        (some (app.lib.show_uuid item.id)) (channel item.name item.is_private)
    send draw context (text "CHANNEL_CREATED") (some item.id) (channel_payload item)
    pure (created item)

  unfoldable pub delete_channel : Uuid → Action Server (HttpResponse (Unit {0}))
  delete_channel channel_id = do
    context ← authenticated app draw headers
    lift (ensure_channel_admin context)
    on_storage (Service.delete_channel app.channels draw.seed context.workspace_id channel_id)
    log draw context.workspace_id context (text "CHANNEL_DELETED") (text "channel")
        (some (app.lib.show_uuid channel_id)) empty
    send draw context (text "CHANNEL_DELETED") (some channel_id)
        (channel_deleted_payload channel_id)
    pure no_content

  unfoldable pub list_channel_members : Uuid → Action Server (HttpResponse (List Uuid))
  list_channel_members channel_id = do
    context ← authenticated app draw headers
    lift (ensure_channel_admin context)
    items ←
        on_storage
          (Service.list_channel_members app.channels draw.seed context.workspace_id channel_id)
    pure (json items)

  unfoldable pub add_channel_member : Uuid → Uuid → Action Server (HttpResponse (Unit {0}))
  add_channel_member channel_id user_id = do
    context ← authenticated app draw headers
    lift (ensure_channel_admin context)
    on_storage
        (Service.add_channel_member app.channels draw.seed context.workspace_id channel_id user_id)
    log draw context.workspace_id context (text "CHANNEL_MEMBER_ADDED") (text "channel")
        (some (app.lib.show_uuid channel_id)) (member_user user_id)
    pure no_content

  unfoldable pub remove_channel_member : Uuid → Uuid → Action Server (HttpResponse (Unit {0}))
  remove_channel_member channel_id user_id = do
    context ← authenticated app draw headers
    lift (ensure_channel_admin context)
    on_storage (
        Service.remove_channel_member app.channels draw.seed context.workspace_id channel_id
          user_id)
    log draw context.workspace_id context (text "CHANNEL_MEMBER_REMOVED") (text "channel")
        (some (app.lib.show_uuid channel_id)) (member_user user_id)
    pure no_content
