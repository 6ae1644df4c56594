-- ===== src/Http/Messages.antt =====
-- The handlers of src/channels.rs for messages, and those of src/threads.rs.
use mathlib.Core.Option.{none, some}
use galynx_api.Text.{Str, text}
use galynx_api.Errors.{Action, ◌>>=◌, ◌>>◌, pure}
use galynx_api.Storage.{Uuid, empty, message, message_channel, reply}
use galynx_api.Paging.{MessageQuery}
use galynx_api.Channels.Messages as Service
use galynx_api.Channels.Messages.{MessageListResponse}
use galynx_api.Channels.Threads.{
  ThreadSummaryResponse, thread_summary, list_thread_replies, create_thread_reply,
}
use galynx_api.Channels.Responses.{MessageResponse}
use galynx_api.Realtime.{Server, on_storage, message_payload, deleted_payload, thread_payload}
use galynx_api.Http.{
  AppState, HttpDraw, Headers, HttpResponse, json, created, no_content, authenticated, log, send,
}

module _ (app : AppState) (draw : HttpDraw) (headers : Headers) where
  unfoldable pub create_message : Uuid → Str → Action Server (HttpResponse MessageResponse)
  create_message channel_id body_md = do
    context ← authenticated app draw headers
    item ←
        on_storage
          (Service.create_message app.channels draw.seed draw.item context channel_id body_md)
    log draw context.workspace_id context (text "MESSAGE_CREATED") (text "message")
        (some (app.lib.show_uuid item.id)) (message item.channel_id item.thread_root_id)
    send draw context (text "MESSAGE_CREATED") (some item.channel_id) (message_payload item)
    pure (created item)

  unfoldable pub list_messages :
      Uuid → MessageQuery → Action Server (HttpResponse MessageListResponse)
  list_messages channel_id query = do
    context ← authenticated app draw headers
    page ← on_storage (Service.list_messages app.channels draw.seed context channel_id query)
    pure (json page)

  unfoldable pub update_message : Uuid → Str → Action Server (HttpResponse MessageResponse)
  update_message message_id body_md = do
    context ← authenticated app draw headers
    item ←
        on_storage
          (Service.update_message app.channels draw.seed draw.now context message_id body_md)
    log draw context.workspace_id context (text "MESSAGE_UPDATED") (text "message")
        (some (app.lib.show_uuid item.id)) (message_channel item.channel_id)
    send draw context (text "MESSAGE_UPDATED") (some item.channel_id) (message_payload item)
    pure (json item)

  unfoldable pub delete_message : Uuid → Action Server (HttpResponse (Unit {0}))
  delete_message message_id = do
    context ← authenticated app draw headers
    on_storage (Service.delete_message app.channels draw.seed draw.now context message_id)
    log draw context.workspace_id context (text "MESSAGE_DELETED") (text "message")
        (some (app.lib.show_uuid message_id)) empty
    send draw context (text "MESSAGE_DELETED") none (deleted_payload message_id)
    pure no_content

  unfoldable pub get_thread : Uuid → Action Server (HttpResponse ThreadSummaryResponse)
  get_thread root_id = do
    context ← authenticated app draw headers
    summary ← on_storage (thread_summary app.channels draw.seed context root_id)
    pure (json summary)

  unfoldable pub list_replies :
      Uuid → MessageQuery → Action Server (HttpResponse MessageListResponse)
  list_replies root_id query = do
    context ← authenticated app draw headers
    page ← on_storage (list_thread_replies app.channels draw.seed context root_id query)
    pure (json page)

  -- The summary is made after the entry of the log, and the reply is answered after both.
  unfoldable pub create_reply : Uuid → Str → Action Server (HttpResponse MessageResponse)
  create_reply root_id body_md = do
    context ← authenticated app draw headers
    item ← on_storage (create_thread_reply app.channels draw.seed draw.item context root_id body_md)
    log draw context.workspace_id context (text "THREAD_REPLY_CREATED") (text "message")
        (some (app.lib.show_uuid item.id)) (reply root_id item.channel_id)
    summary ← on_storage (thread_summary app.channels draw.summary_seed context root_id)
    send draw context (text "THREAD_UPDATED") (some item.channel_id) (thread_payload summary)
    pure (created item)
