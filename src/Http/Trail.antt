-- ===== src/Http/Trail.antt =====
-- The trail of a request: the entry that it leaves in the audit log, and the event that it sends.
use mathlib.Core.Path.{◌≡◌, refl, sym, subst}
use native.Mathlib.Omega.{arith}
use mathlib.Core.Bool.{true}
use mathlib.Core.List.{List}
use galynx_api.Text.{Str}
use galynx_api.Errors.{ok, Action, ◌>>=◌}
use galynx_api.Errors.Keeping.{IsKept, IsKept-lift, IsKept-gets, IsKept-fail_if, IsKept-bind}
use galynx_api.Auth.Context.{AuthContext}
use galynx_api.Storage.{Uuid, AuditEntryRecord}
use galynx_api.Realtime.{Server, on_storage, on_storage, WsEventEnvelope}
use galynx_api.Http.{AppState, HttpDraw, Headers, HttpResponse, authenticated, log, send}
use galynx_api.Http.Routes.{Body, answered}
use galynx_api.Http.Routes.{
  Request, serve, add_channel_member, commit, create_channel, create_message, create_reply,
  create_user, create_workspace, delete_channel, delete_message, get_attachment, get_thread,
  list_audit, list_channel_members, list_channels, list_messages, list_replies, list_users,
  list_workspace_members, list_workspaces, login, logout, me, onboard_workspace_member, presign,
  refresh, remove_channel_member, update_message,
}
use galynx_api.Http.Guards.{needs_token}
use galynx_api.Http.Effects.{
  Effect, NoEffect, Entered, Logged-IsKept, kept_then, entry_at_home, entry_there, entry_somewhere,
  event_then, reply_then, summary_then, done,
}
use galynx_api.Http.Trace.{
  Ends, Ends-bind, Outcome, Unchanged, on_storage-IsKept, on_rate_limit-IsKept,
}
use galynx_api.Http.Quiet
use galynx_api.Channels.Threads.{thread_summary}

ruleset endings = (
  IsKept-lift, IsKept-gets, IsKept-fail_if, IsKept-bind, on_storage-IsKept, on_rate_limit-IsKept,
  kept_then, entry_at_home, event_then, done,
)

Ends-answered :
    {A : Type 0} {P E K : Server → Type 0} (f : A → Body) (m : Action Server (HttpResponse A))
    → Ends P E K m
    → Ends P E K (answered f m)
Ends-answered f m h = Ends-bind m _ h (λ r. done _)

module _ (app : AppState) (draw : HttpDraw) (headers : Headers) (s : Server) (context : AuthContext)
    (found : (authenticated app draw headers s).0 ≡ ok context) where
  abbrev entries_before : List AuditEntryRecord
  entries_before = s.storage.audit_entries

  abbrev events_before : List (Uuid × WsEventEnvelope)
  events_before = s.realtime.delivered

  authenticated-Unchanged :
      Unchanged entries_before events_before (authenticated app draw headers s).1
  unfolding authenticated
  authenticated-Unchanged =
      (on_storage-IsKept entries_before events_before _ (
          Quiet.authenticate_headers-IsKept entries_before app.lib app.auth draw.authenticate
            headers.authorization app.config.jwt_secret)).after
        s (refl, refl)

  At : Server → Type 0
  At t = t ≡ s

  module _ {A : Type 0} (k : AuthContext → Action Server A) where
    authenticated-found :
        (authenticated app draw headers >>= k) s ≡ k context (authenticated app draw headers s).1
    authenticated-found = ground arith

    -- The handler goes on with the caller's context.
    auth_then :
        {E K : Server → Type 0}
        → ((caller : AuthContext)
            → caller ≡ context
            → Ends (Unchanged entries_before events_before) E K (k caller))
        → Ends At E K (authenticated app draw headers >>= k)
    unfolding At
    auth_then {E} {K} h = record {
      after = λ t e.
          subst (λ t'. Outcome E K ((authenticated app draw headers >>= k) t')) (sym e)
            (subst (Outcome E K) (sym authenticated-found)
              ((h context refl).after _ authenticated-Unchanged));
    }

  ruleset serving = (endings, auth_then, Ends-answered)

  summary-IsKept :
      (caller : AuthContext) (id : Uuid)
      → IsKept
          (Entered entries_before events_before context)
          (on_storage (thread_summary app.channels draw.summary_seed caller id))
  summary-IsKept caller id =
      Logged-IsKept entries_before events_before context _ _ _
        (λ l. Quiet.thread_summary-IsKept l app.channels draw.summary_seed caller id)

  create_reply-Ends :
      (id : Uuid) (body : Str)
      → Ends At
          (NoEffect entries_before events_before context (create_reply id body))
          (Effect entries_before events_before context (create_reply id body))
          (serve app draw headers (create_reply id body))
  unfolding serve galynx_api.Http.Messages.create_reply
  create_reply-Ends id body =
      search
        (
          auth_then,
          Ends-answered,
          reply_then entries_before events_before context,
          summary_then entries_before events_before context,
          entry_at_home entries_before events_before context,
          event_then entries_before events_before context,
          done,
          on_storage-IsKept,
          Quiet.create_thread_reply-IsKept,
          summary-IsKept,
        )
        depth 40

  serve-Ends :
      (r : Request)
      → needs_token r ≡ true
      → Ends At
          (NoEffect entries_before events_before context r)
          (Effect entries_before events_before context r)
          (serve app draw headers r)
  unfolding serve galynx_api.Http.Sessions.logout galynx_api.Http.Sessions.me
      galynx_api.Http.Rooms.list_channels galynx_api.Http.Rooms.create_channel
      galynx_api.Http.Rooms.delete_channel galynx_api.Http.Rooms.list_channel_members
      galynx_api.Http.Rooms.add_channel_member galynx_api.Http.Rooms.remove_channel_member
      galynx_api.Http.Messages.create_message galynx_api.Http.Messages.list_messages
      galynx_api.Http.Messages.update_message galynx_api.Http.Messages.delete_message
      galynx_api.Http.Messages.get_thread galynx_api.Http.Messages.list_replies
      galynx_api.Http.Messages.create_reply galynx_api.Http.Uploads.presign
      galynx_api.Http.Uploads.commit galynx_api.Http.Uploads.get_attachment
      galynx_api.Http.Accounts.list_audit galynx_api.Http.Accounts.list_users
      galynx_api.Http.Accounts.create_user galynx_api.Http.Accounts.list_workspaces
      galynx_api.Http.Accounts.create_workspace galynx_api.Http.Accounts.list_workspace_members
      galynx_api.Http.Accounts.onboard_workspace_member
  serve-Ends (login payload) n = cc
  serve-Ends (refresh token) n = cc
  serve-Ends (logout token) n = search (serving, Quiet.logout-IsKept) depth 40
  serve-Ends me n = search (serving, Quiet.me_from_context-IsKept) depth 40
  serve-Ends list_channels n = search (serving, Quiet.list_channels-IsKept) depth 40
  serve-Ends (create_channel payload) n = search (serving, Quiet.create_channel-IsKept) depth 40
  serve-Ends (delete_channel id) n = search (serving, Quiet.delete_channel-IsKept) depth 40
  serve-Ends (list_channel_members id) n =
      search (serving, Quiet.list_channel_members-IsKept) depth 40
  serve-Ends (add_channel_member id user_id) n =
      search (serving, Quiet.add_channel_member-IsKept) depth 40
  serve-Ends (remove_channel_member id user_id) n =
      search (serving, Quiet.remove_channel_member-IsKept) depth 40
  serve-Ends (create_message id body) n = search (serving, Quiet.create_message-IsKept) depth 40
  serve-Ends (list_messages id query) n = search (serving, Quiet.list_messages-IsKept) depth 40
  serve-Ends (update_message id body) n = search (serving, Quiet.update_message-IsKept) depth 40
  serve-Ends (delete_message id) n = search (serving, Quiet.delete_message-IsKept) depth 40
  serve-Ends (get_thread id) n = search (serving, Quiet.thread_summary-IsKept) depth 40
  serve-Ends (list_replies id query) n = search (serving, Quiet.list_thread_replies-IsKept) depth 40
  serve-Ends (create_reply id body) n = create_reply-Ends id body
  serve-Ends (presign payload) n =
      search (serving, Quiet.presign-IsKept, Quiet.ensure_channel_access-IsKept) depth 40
  serve-Ends (commit payload) n = search (serving, Quiet.commit-IsKept) depth 40
  serve-Ends (get_attachment id) n = search (serving, Quiet.get_attachment-IsKept) depth 40
  serve-Ends (list_audit query) n = search (serving, Quiet.list_audit-IsKept) depth 40
  serve-Ends list_users n = search (serving, Quiet.list_users-IsKept) depth 40
  serve-Ends (create_user payload) n = search (serving, Quiet.create_user-IsKept) depth 40
  serve-Ends list_workspaces n = search (serving, Quiet.list_workspaces_for_user-IsKept) depth 40
  serve-Ends (create_workspace payload) n =
      search (serving, Quiet.create_workspace-IsKept, entry_somewhere) depth 40
  serve-Ends (list_workspace_members id) n = search (serving, Quiet.list_members-IsKept) depth 40
  serve-Ends (onboard_workspace_member id payload) n =
      search (serving, Quiet.onboard_member-IsKept, entry_there) depth 40

  -- Of a request whose caller is authenticated: where it is answered with an error, the audit log
  -- and the delivered events are as before, but for a reply, whose entry may be there. Where it
  -- succeeds, a request that changes something has added exactly one entry to the log, with its
  -- action, by its caller, in the caller's workspace (the path's for a new member, any for a new
  -- workspace); a change of channels, messages or threads has sent exactly one event of its type
  -- to the caller's workspace; and any other request has added neither.
  pub serve-trail :
      (r : Request)
      → needs_token r ≡ true
      → Outcome
          (NoEffect entries_before events_before context r)
          (Effect entries_before events_before context r)
          (serve app draw headers r s)
  unfolding At
  serve-trail r n = (serve-Ends r n).after s refl
