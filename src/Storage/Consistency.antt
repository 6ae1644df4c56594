-- ===== src/Storage/Consistency.antt =====
-- The well-formed states of the memory store: every record stands under its identifier, once.
use mathlib.Core.Path.{refl}
use galynx_api.Common.{IsTable, insert-IsTable, remove-IsTable, retain-IsTable, nat_eq}
use galynx_api.Storage.Rooms.{
  insert_channel, remove_channel, insert_message, remove_messages_for_channel,
  remove_channel_members,
}
use galynx_api.Storage.Accounts.{put_auth_user, put_workspace}
use galynx_api.Storage.Files.{put_attachment}
use galynx_api.Storage.{
  Storage, Uuid, new, MessageRecordStore, ChannelRecordStore, AttachmentRecordStore,
  AuthUserRecordStore, WorkspaceRecordStore,
}

pub record IsConsistent (s : Storage) : Type 0 where
  pub messages : IsTable (λ (m : MessageRecordStore). m.id) s.messages
  pub channels : IsTable (λ (c : ChannelRecordStore). c.id) s.channels
  pub attachments : IsTable (λ (a : AttachmentRecordStore). a.id) s.attachments
  pub auth_users : IsTable (λ (u : AuthUserRecordStore). u.id) s.auth_users
  pub workspaces : IsTable (λ (w : WorkspaceRecordStore). w.id) s.workspaces

pub new-IsConsistent : IsConsistent new
unfolding new
new-IsConsistent = record {
  messages = tt;
  channels = tt;
  attachments = tt;
  auth_users = tt;
  workspaces = tt;
}

module _ (s : Storage) (h : IsConsistent s) where
  pub insert_channel-IsConsistent : (c : ChannelRecordStore) → IsConsistent (insert_channel c s)
  unfolding insert_channel
  insert_channel-IsConsistent c = record {
    messages = h.messages;
    channels = insert-IsTable _ c.id c s.channels refl h.channels;
    attachments = h.attachments;
    auth_users = h.auth_users;
    workspaces = h.workspaces;
  }

  pub remove_channel-IsConsistent : (id : Uuid) → IsConsistent (remove_channel id s)
  unfolding remove_channel
  remove_channel-IsConsistent id = record {
    messages = h.messages;
    channels = remove-IsTable _ id s.channels h.channels;
    attachments = h.attachments;
    auth_users = h.auth_users;
    workspaces = h.workspaces;
  }

  pub insert_message-IsConsistent : (m : MessageRecordStore) → IsConsistent (insert_message m s)
  unfolding insert_message
  insert_message-IsConsistent m = record {
    messages = insert-IsTable _ m.id m s.messages refl h.messages;
    channels = h.channels;
    attachments = h.attachments;
    auth_users = h.auth_users;
    workspaces = h.workspaces;
  }

  pub remove_messages_for_channel-IsConsistent :
      (id : Uuid) → IsConsistent (remove_messages_for_channel id s)
  unfolding remove_messages_for_channel
  remove_messages_for_channel-IsConsistent id = record {
    messages = retain-IsTable _ _ s.messages h.messages;
    channels = h.channels;
    attachments = h.attachments;
    auth_users = h.auth_users;
    workspaces = h.workspaces;
  }

  pub remove_channel_members-IsConsistent : (id : Uuid) → IsConsistent (remove_channel_members id s)
  unfolding remove_channel_members
  remove_channel_members-IsConsistent id = record {
    messages = h.messages;
    channels = h.channels;
    attachments = h.attachments;
    auth_users = h.auth_users;
    workspaces = h.workspaces;
  }

  pub put_attachment-IsConsistent : (a : AttachmentRecordStore) → IsConsistent (put_attachment a s)
  unfolding put_attachment
  put_attachment-IsConsistent a = record {
    messages = h.messages;
    channels = h.channels;
    attachments = insert-IsTable _ a.id a s.attachments refl h.attachments;
    auth_users = h.auth_users;
    workspaces = h.workspaces;
  }

  pub put_auth_user-IsConsistent : (u : AuthUserRecordStore) → IsConsistent (put_auth_user u s)
  unfolding put_auth_user
  put_auth_user-IsConsistent u = record {
    messages = h.messages;
    channels = h.channels;
    attachments = h.attachments;
    auth_users = insert-IsTable _ u.id u s.auth_users refl h.auth_users;
    workspaces = h.workspaces;
  }

  pub put_workspace-IsConsistent : (w : WorkspaceRecordStore) → IsConsistent (put_workspace w s)
  unfolding put_workspace
  put_workspace-IsConsistent w = record {
    messages = h.messages;
    channels = h.channels;
    attachments = h.attachments;
    auth_users = h.auth_users;
    workspaces = insert-IsTable _ w.id w s.workspaces refl h.workspaces;
  }
