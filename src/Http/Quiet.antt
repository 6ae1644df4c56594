-- ===== src/Http/Quiet.antt =====
-- The methods of the services leave the audit log as it is; only the handlers write to it.
use mathlib.Core.Logic.{◌⊎◌}
use mathlib.Core.Bool.{Bool}
use mathlib.Core.Option.{Option, none, some}
use mathlib.Core.List.{List}
use native.Mathlib.Omega.{arith}
use galynx_api.Common.{ℤ, if◌then◌else◌}
use galynx_api.Text.{Str}
use galynx_api.Errors.{ApiResult, ok, modify}
use galynx_api.Errors.Keeping.{IsKept, keeping}
use galynx_api.Auth.Context.{AuthContext}
use galynx_api.Auth.Service.{Libraries, AuthService, AuthDraw, TokenConfig, HeaderValue}
use galynx_api.Auth.Service as Auth
use galynx_api.Storage.{
  Storage, Uuid, Stamp, AuditEntryRecord, RefreshSessionRecordStore, AuthUserRecordStore,
}
use galynx_api.Storage.Accounts
use galynx_api.Storage.Rooms
use galynx_api.Storage.Files
use galynx_api.Paging.{MessageQuery}
use galynx_api.Channels.{ChannelService, CreateChannelRequest}
use galynx_api.Channels
use galynx_api.Channels.Messages
use galynx_api.Channels.Threads
use galynx_api.Users.{CreateUserRequest}
use galynx_api.Users
use galynx_api.Workspaces.{CreateWorkspaceRequest, OnboardWorkspaceMemberRequest}
use galynx_api.Workspaces
use galynx_api.Audit
use galynx_api.Attachments.{ObjectStorage, PresignRequest, CommitRequest}
use galynx_api.Attachments
use galynx_api.Http.Trace.{UnchangedLog}

module _ (entries : List AuditEntryRecord) where
  abbrev Quiet : {A : Type 0} → (Storage → ApiResult A × Storage) → Type 0
  Quiet m = IsKept (UnchangedLog entries) m

  pub assert_channel_access-IsKept :
      (context : AuthContext) (channel_id : Uuid)
      → Quiet (Channels.assert_channel_access context channel_id)
  unfolding Channels.assert_channel_access
  assert_channel_access-IsKept context channel_id = search keeping depth 40

  pub ensure_channel_access-IsKept :
      (context : AuthContext) (channel_id : Uuid)
      → Quiet (Channels.ensure_channel_access context channel_id)
  unfolding Channels.ensure_channel_access
  ensure_channel_access-IsKept context channel_id = search keeping depth 40

  pub assert_thread_root-IsKept :
      (context : AuthContext) (root_id : Uuid) → Quiet (Threads.assert_thread_root context root_id)
  unfolding Threads.assert_thread_root
  assert_thread_root-IsKept context root_id =
      search (keeping, assert_channel_access-IsKept) depth 40

  module _ (svc : ChannelService) (seed : Stamp) where
    pub rooms_seed-IsKept : Quiet (modify (Channels.ensure_bootstrap_seed svc seed))
    unfolding Channels.ensure_bootstrap_seed galynx_api.Storage.Rooms.insert_channel
    rooms_seed-IsKept = record { after = λ s h. ground arith }

    pub list_channels-IsKept :
        (workspace_id : Uuid) → Quiet (Channels.list_channels svc seed workspace_id)
    unfolding Channels.list_channels
    list_channels-IsKept workspace_id = search (keeping, rooms_seed-IsKept) depth 24

    member_if-IsKept :
        (b : Bool) (channel_id user_id : Uuid)
        → Quiet (modify (λ s. if b then Rooms.add_channel_member channel_id user_id s else s))
    unfolding Rooms.add_channel_member
    member_if-IsKept b channel_id user_id = record { after = λ s h. ground arith }

    pub create_channel-IsKept :
        (stamp : Stamp) (workspace_id created_by : Uuid) (payload : CreateChannelRequest)
        → Quiet (Channels.create_channel svc seed stamp workspace_id created_by payload)
    unfolding Channels.create_channel Rooms.insert_channel
    create_channel-IsKept stamp workspace_id created_by payload =
        search (keeping, rooms_seed-IsKept, member_if-IsKept) depth 40

    pub channel_of_workspace-IsKept :
        (workspace_id channel_id : Uuid)
        → Quiet (Channels.channel_of_workspace svc seed workspace_id channel_id)
    unfolding Channels.channel_of_workspace
    channel_of_workspace-IsKept workspace_id channel_id = search keeping depth 40

    pub delete_channel-IsKept :
        (workspace_id channel_id : Uuid)
        → Quiet (Channels.delete_channel svc seed workspace_id channel_id)
    unfolding Channels.delete_channel Rooms.remove_channel Rooms.remove_channel_members
        Rooms.remove_messages_for_channel
    delete_channel-IsKept workspace_id channel_id =
        search (keeping, rooms_seed-IsKept, channel_of_workspace-IsKept) depth 40

    pub list_channel_members-IsKept :
        (workspace_id channel_id : Uuid)
        → Quiet (Channels.list_channel_members svc seed workspace_id channel_id)
    unfolding Channels.list_channel_members
    list_channel_members-IsKept workspace_id channel_id =
        search (keeping, rooms_seed-IsKept, channel_of_workspace-IsKept) depth 40

    pub add_channel_member-IsKept :
        (workspace_id channel_id user_id : Uuid)
        → Quiet (Channels.add_channel_member svc seed workspace_id channel_id user_id)
    unfolding Channels.add_channel_member Rooms.add_channel_member
    add_channel_member-IsKept workspace_id channel_id user_id =
        search (keeping, rooms_seed-IsKept, channel_of_workspace-IsKept) depth 40

    pub remove_channel_member-IsKept :
        (workspace_id channel_id user_id : Uuid)
        → Quiet (Channels.remove_channel_member svc seed workspace_id channel_id user_id)
    unfolding Channels.remove_channel_member Rooms.remove_channel_member
    remove_channel_member-IsKept workspace_id channel_id user_id =
        search (keeping, rooms_seed-IsKept, channel_of_workspace-IsKept) depth 40

    pub create_message-IsKept :
        (stamp : Stamp) (context : AuthContext) (channel_id : Uuid) (body_md : Str)
        → Quiet (Messages.create_message svc seed stamp context channel_id body_md)
    unfolding Messages.create_message Rooms.insert_message
    create_message-IsKept stamp context channel_id body_md =
        search (keeping, rooms_seed-IsKept, assert_channel_access-IsKept) depth 40

    pub list_messages-IsKept :
        (context : AuthContext) (channel_id : Uuid) (query : MessageQuery)
        → Quiet (Messages.list_messages svc seed context channel_id query)
    unfolding Messages.list_messages
    list_messages-IsKept context channel_id query =
        search (keeping, rooms_seed-IsKept, assert_channel_access-IsKept) depth 40

    pub update_message-IsKept :
        (now : ℤ) (context : AuthContext) (message_id : Uuid) (body_md : Str)
        → Quiet (Messages.update_message svc seed now context message_id body_md)
    unfolding Messages.update_message Rooms.update_message
    update_message-IsKept now context message_id body_md =
        search (keeping, rooms_seed-IsKept) depth 40

    pub delete_message-IsKept :
        (now : ℤ) (context : AuthContext) (message_id : Uuid)
        → Quiet (Messages.delete_message svc seed now context message_id)
    unfolding Messages.delete_message Rooms.update_message
    delete_message-IsKept now context message_id = search (keeping, rooms_seed-IsKept) depth 40

    pub thread_summary-IsKept :
        (context : AuthContext) (root_id : Uuid)
        → Quiet (Threads.thread_summary svc seed context root_id)
    unfolding Threads.thread_summary
    thread_summary-IsKept context root_id =
        search (keeping, rooms_seed-IsKept, assert_thread_root-IsKept) depth 40

    pub list_thread_replies-IsKept :
        (context : AuthContext) (root_id : Uuid) (query : MessageQuery)
        → Quiet (Threads.list_thread_replies svc seed context root_id query)
    unfolding Threads.list_thread_replies
    list_thread_replies-IsKept context root_id query =
        search (keeping, rooms_seed-IsKept, assert_thread_root-IsKept) depth 40

    pub create_thread_reply-IsKept :
        (stamp : Stamp) (context : AuthContext) (root_id : Uuid) (body_md : Str)
        → Quiet (Threads.create_thread_reply svc seed stamp context root_id body_md)
    unfolding Threads.create_thread_reply Rooms.insert_message
    create_thread_reply-IsKept stamp context root_id body_md =
        search (keeping, rooms_seed-IsKept, assert_channel_access-IsKept) depth 40

  module _ (lib : Libraries) (svc : AuthService) (draw : AuthDraw) where
    auth_seed-IsKept : (time : ℤ) → Quiet (modify (Auth.ensure_bootstrap_seed svc time))
    unfolding Auth.ensure_bootstrap_seed Accounts.put_workspace Accounts.put_membership_role
        Accounts.put_auth_user
    auth_seed-IsKept time = record { after = λ s h. ground arith }

    updated-IsKept :
        (hash : Str) (f : RefreshSessionRecordStore → RefreshSessionRecordStore)
        → Quiet (λ s. let (a, s') = Accounts.update_refresh_session hash f s in (ok a, s'))
    unfolding Accounts.update_refresh_session
    updated-IsKept hash f = record { after = λ s h. ground arith }

    pub authenticate_access_token-IsKept :
        (token secret : Str) → Quiet (Auth.authenticate_access_token lib svc draw token secret)
    unfolding Auth.authenticate_access_token
    authenticate_access_token-IsKept token secret = search (keeping, auth_seed-IsKept) depth 40

    pub authenticate_headers-IsKept :
        (header : HeaderValue) (secret : Str)
        → Quiet (Auth.authenticate_headers lib svc draw header secret)
    unfolding Auth.authenticate_headers
    authenticate_headers-IsKept header secret =
        search (keeping, authenticate_access_token-IsKept) depth 40

    pub logout-IsKept : (token : Str) → Quiet (Auth.logout lib svc draw token)
    unfolding Auth.logout
    logout-IsKept token = search (keeping, auth_seed-IsKept, updated-IsKept) depth 40

    pub me_from_context-IsKept :
        (time : ℤ) (context : AuthContext) → Quiet (Auth.me_from_context lib svc time context)
    unfolding Auth.me_from_context
    me_from_context-IsKept time context = search (keeping, auth_seed-IsKept) depth 40

  pub list_users-IsKept : (workspace_id : Uuid) → Quiet (Users.list_users workspace_id)
  unfolding Users.list_users
  list_users-IsKept workspace_id = search keeping depth 40

  pub create_user-IsKept :
      (argon : Str → Str → Str ⊎ Str) (salt : Str) (id workspace_id : Uuid)
      (payload : CreateUserRequest)
      → Quiet (Users.create_user argon salt id workspace_id payload)
  unfolding Users.create_user Accounts.put_auth_user Accounts.put_membership_role
  create_user-IsKept argon salt id workspace_id payload = search keeping depth 40

  pub list_workspaces_for_user-IsKept :
      (user_id : Uuid) → Quiet (Workspaces.list_workspaces_for_user user_id)
  unfolding Workspaces.list_workspaces_for_user
  list_workspaces_for_user-IsKept user_id = search keeping depth 40

  pub create_workspace-IsKept :
      (stamp : Stamp) (owner_id : Uuid) (payload : CreateWorkspaceRequest)
      → Quiet (Workspaces.create_workspace stamp owner_id payload)
  unfolding Workspaces.create_workspace Accounts.put_workspace Accounts.put_membership_role
  create_workspace-IsKept stamp owner_id payload = search keeping depth 40

  pub list_members-IsKept : (workspace_id : Uuid) → Quiet (Workspaces.list_members workspace_id)
  unfolding Workspaces.list_members
  list_members-IsKept workspace_id = search keeping depth 40

  pub list_audit-IsKept :
      (workspace_id : Uuid) (query : MessageQuery) → Quiet (Audit.list_audit workspace_id query)
  unfolding Audit.list_audit
  list_audit-IsKept workspace_id query = search keeping depth 40

  module _ (argon : Str → Str → Str ⊎ Str) (salt : Str) (id : Uuid) where
    new_member-IsKept :
        (email : Str) (payload : OnboardWorkspaceMemberRequest)
        → Quiet (Workspaces.new_member argon salt id email payload)
    unfolding Workspaces.new_member Accounts.put_auth_user
    new_member-IsKept email payload = search keeping depth 40

    existing_or_new-IsKept :
        (user : Option AuthUserRecordStore) (email : Str) (payload : OnboardWorkspaceMemberRequest)
        → Quiet (Workspaces.existing_or_new argon salt id user email payload)
    existing_or_new-IsKept none email payload = new_member-IsKept email payload
    existing_or_new-IsKept (some user) email payload = search keeping

    pub onboard_member-IsKept :
        (workspace_id : Uuid) (payload : OnboardWorkspaceMemberRequest)
        → Quiet (Workspaces.onboard_member argon salt id workspace_id payload)
    unfolding Workspaces.onboard_member Accounts.put_membership_role
    onboard_member-IsKept workspace_id payload = search (keeping, existing_or_new-IsKept) depth 40

  module _ (show_uuid : Uuid → Str) (client : Option ObjectStorage) (now : ℤ) (id : Uuid) where
    pub presign-IsKept :
        (context : AuthContext) (payload : PresignRequest)
        → Quiet (Attachments.presign show_uuid client now id context payload)
    unfolding Attachments.presign Files.put_pending_upload
    presign-IsKept context payload = search keeping depth 40

    taken-IsKept : (upload_id : Uuid) → Quiet (Attachments.taken show_uuid client upload_id)
    unfolding Files.take_pending_upload
    taken-IsKept upload_id = record { after = λ s h. h }

    pub commit-IsKept :
        (context : AuthContext) (payload : CommitRequest)
        → Quiet (Attachments.commit show_uuid client now id context payload)
    unfolding Attachments.commit Files.put_attachment
    commit-IsKept context payload = search (keeping, taken-IsKept) depth 40

  pub get_attachment-IsKept :
      (show_uuid : Uuid → Str) (client : Option ObjectStorage) (now : ℤ)
      (workspace_id attachment_id : Uuid)
      → Quiet (Attachments.get_attachment show_uuid client now workspace_id attachment_id)
  unfolding Attachments.get_attachment
  get_attachment-IsKept show_uuid client now workspace_id attachment_id = search keeping depth 40
