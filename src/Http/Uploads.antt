-- ===== src/Http/Uploads.antt =====
-- The handlers of src/attachments.rs.
use mathlib.Core.Option.{some}
use galynx_api.Text.{text}
use galynx_api.Errors.{Action, ◌>>=◌, ◌>>◌, pure}
use galynx_api.Storage.{Uuid, upload, attachment}
use galynx_api.Channels.{ensure_channel_access}
use galynx_api.Channels.Responses.{AttachmentResponse}
use galynx_api.Attachments as Service
use galynx_api.Attachments.{PresignRequest, PresignResponse, CommitRequest, AttachmentGetResponse}
use galynx_api.Realtime.{Server, on_storage}
use galynx_api.Http.{AppState, HttpDraw, Headers, HttpResponse, json, authenticated, log}

module _ (app : AppState) (draw : HttpDraw) (headers : Headers) where
  unfoldable pub presign : PresignRequest → Action Server (HttpResponse PresignResponse)
  presign payload = do
    context ← authenticated app draw headers
    on_storage (ensure_channel_access context payload.channel_id)
    response ← on_storage (
        Service.presign app.lib.show_uuid app.object_storage draw.now draw.item.uuid context
          payload)
    log draw context.workspace_id context (text "ATTACHMENT_PRESIGN") (text "attachment")
        (some (app.lib.show_uuid response.upload_id)) (upload response.key response.expires_at)
    pure (json response)

  unfoldable pub commit : CommitRequest → Action Server (HttpResponse AttachmentResponse)
  commit payload = do
    context ← authenticated app draw headers
    response ← on_storage (
        Service.commit app.lib.show_uuid app.object_storage draw.now draw.item.uuid context payload)
    log draw context.workspace_id context (text "ATTACHMENT_COMMIT") (text "attachment")
        (some (app.lib.show_uuid response.id)) (attachment response.channel_id response.message_id)
    pure (json response)

  unfoldable pub get_attachment : Uuid → Action Server (HttpResponse AttachmentGetResponse)
  get_attachment attachment_id = do
    context ← authenticated app draw headers
    response ← on_storage (
        Service.get_attachment app.lib.show_uuid app.object_storage draw.now context.workspace_id
          attachment_id)
    pure (json response)
