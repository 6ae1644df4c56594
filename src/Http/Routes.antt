-- ===== src/Http/Routes.antt =====
-- The router of src/app.rs: each route of the interface, and the handler that serves it. The
-- parts of a request are given as the framework's extractors read them.
use mathlib.Core.List.{List}
use galynx_api.Text.{Str}
use galynx_api.Errors.{Action, ◌>>=◌, pure}
use galynx_api.Storage.{Uuid}
use galynx_api.Paging.{MessageQuery}
use galynx_api.Channels.{CreateChannelRequest}
use galynx_api.Channels.Messages.{MessageListResponse}
use galynx_api.Channels.Threads.{ThreadSummaryResponse}
use galynx_api.Channels.Responses.{ChannelResponse, MessageResponse, AttachmentResponse}
use galynx_api.Auth.Service.{AuthTokensResponse, MeResponse}
use galynx_api.Users.{CreateUserRequest, UserResponse}
use galynx_api.Workspaces.{
  WorkspaceResponse, CreateWorkspaceRequest, WorkspaceMemberResponse, OnboardWorkspaceMemberRequest,
}
use galynx_api.Audit.{AuditListResponse}
use galynx_api.Attachments.{PresignRequest, PresignResponse, CommitRequest, AttachmentGetResponse}
use galynx_api.Realtime.{Server}
use galynx_api.Http.{AppState, HttpDraw, Headers, HttpResponse}
use galynx_api.Http.Rooms
use galynx_api.Http.Messages
use galynx_api.Http.Sessions
use galynx_api.Http.Sessions.{LoginRequest}
use galynx_api.Http.Accounts
use galynx_api.Http.Uploads

pub data Request : Type 0 where
  login : LoginRequest → Request
  refresh logout : Str → Request
  me : Request
  list_channels : Request
  create_channel : CreateChannelRequest → Request
  delete_channel list_channel_members : Uuid → Request
  add_channel_member remove_channel_member : Uuid → Uuid → Request
  create_message : Uuid → Str → Request
  list_messages : Uuid → MessageQuery → Request
  update_message : Uuid → Str → Request
  delete_message : Uuid → Request
  get_thread : Uuid → Request
  list_replies : Uuid → MessageQuery → Request
  create_reply : Uuid → Str → Request
  presign : PresignRequest → Request
  commit : CommitRequest → Request
  get_attachment : Uuid → Request
  list_audit : MessageQuery → Request
  list_users : Request
  create_user : CreateUserRequest → Request
  list_workspaces : Request
  create_workspace : CreateWorkspaceRequest → Request
  list_workspace_members : Uuid → Request
  onboard_workspace_member : Uuid → OnboardWorkspaceMemberRequest → Request

-- The bodies of the answers.
pub data Body : Type 0 where
  nothing : Body
  tokens : AuthTokensResponse → Body
  account : MeResponse → Body
  channels : List ChannelResponse → Body
  channel : ChannelResponse → Body
  members : List Uuid → Body
  message : MessageResponse → Body
  messages : MessageListResponse → Body
  thread : ThreadSummaryResponse → Body
  upload : PresignResponse → Body
  attachment : AttachmentResponse → Body
  download : AttachmentGetResponse → Body
  audit_page : AuditListResponse → Body
  users : List UserResponse → Body
  user : UserResponse → Body
  workspaces : List WorkspaceResponse → Body
  workspace : WorkspaceResponse → Body
  workspace_members : List WorkspaceMemberResponse → Body
  workspace_member : WorkspaceMemberResponse → Body

abbrev pub sent : {A : Type 0} → (A → Body) → HttpResponse A → HttpResponse Body
sent f r = record { status = r.status; body = f r.body }

abbrev pub answered :
    {A : Type 0} → (A → Body) → Action Server (HttpResponse A) → Action Server (HttpResponse Body)
answered f m = m >>= λ r. pure (sent f r)

abbrev pub empty_body : Unit {0} → Body
empty_body u = nothing

-- `router`: which handler serves a request.
unfoldable pub serve : AppState → HttpDraw → Headers → Request → Action Server (HttpResponse Body)
serve app draw headers (login payload) = answered tokens (Sessions.login app draw headers payload)
serve app draw headers (refresh token) = answered tokens (Sessions.refresh app draw headers token)
serve app draw headers (logout token) = answered empty_body (Sessions.logout app draw headers token)
serve app draw headers me = answered account (Sessions.me app draw headers)
serve app draw headers list_channels = answered channels (Rooms.list_channels app draw headers)
serve app draw headers (create_channel payload) =
    answered channel (Rooms.create_channel app draw headers payload)
serve app draw headers (delete_channel id) =
    answered empty_body (Rooms.delete_channel app draw headers id)
serve app draw headers (list_channel_members id) =
    answered members (Rooms.list_channel_members app draw headers id)
serve app draw headers (add_channel_member id user_id) =
    answered empty_body (Rooms.add_channel_member app draw headers id user_id)
serve app draw headers (remove_channel_member id user_id) =
    answered empty_body (Rooms.remove_channel_member app draw headers id user_id)
serve app draw headers (create_message id body) =
    answered message (Messages.create_message app draw headers id body)
serve app draw headers (list_messages id query) =
    answered messages (Messages.list_messages app draw headers id query)
serve app draw headers (update_message id body) =
    answered message (Messages.update_message app draw headers id body)
serve app draw headers (delete_message id) =
    answered empty_body (Messages.delete_message app draw headers id)
serve app draw headers (get_thread id) = answered thread (Messages.get_thread app draw headers id)
serve app draw headers (list_replies id query) =
    answered messages (Messages.list_replies app draw headers id query)
serve app draw headers (create_reply id body) =
    answered message (Messages.create_reply app draw headers id body)
serve app draw headers (presign payload) =
    answered upload (Uploads.presign app draw headers payload)
serve app draw headers (commit payload) =
    answered attachment (Uploads.commit app draw headers payload)
serve app draw headers (get_attachment id) =
    answered download (Uploads.get_attachment app draw headers id)
serve app draw headers (list_audit query) =
    answered audit_page (Accounts.list_audit app draw headers query)
serve app draw headers list_users = answered users (Accounts.list_users app draw headers)
serve app draw headers (create_user payload) =
    answered user (Accounts.create_user app draw headers payload)
serve app draw headers list_workspaces =
    answered workspaces (Accounts.list_workspaces app draw headers)
serve app draw headers (create_workspace payload) =
    answered workspace (Accounts.create_workspace app draw headers payload)
serve app draw headers (list_workspace_members id) =
    answered workspace_members (Accounts.list_workspace_members app draw headers id)
serve app draw headers (onboard_workspace_member id payload) =
    answered workspace_member (Accounts.onboard_workspace_member app draw headers id payload)
