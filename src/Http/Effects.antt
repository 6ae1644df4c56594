-- ===== src/Http/Effects.antt =====
-- What each request is to leave in the audit log and among the events, and the steps by which
-- the handlers come to it.
use mathlib.Core.Path.{◌≡◌, refl, ap, sym, subst}
use mathlib.Core.Logic.{◌⊎◌, inl, inr}
use mathlib.Core.Option.{Option, none, some}
use mathlib.Core.List.{List}
use galynx_api.Text.{Str, text}
use galynx_api.Errors.{Action, ◌>>=◌, pure}
use galynx_api.Errors.Keeping.{IsKept}
use galynx_api.Auth.Context.{AuthContext}
use galynx_api.Storage.{Storage, Uuid, AuditEntryRecord, Metadata}
use galynx_api.Realtime.{Server, on_storage, on_storage, WsEventEnvelope, EventPayload}
use galynx_api.Http.{HttpDraw, log, send}
use galynx_api.Http.Routes.{
  Request, add_channel_member, commit, create_channel, create_message, create_reply, create_user,
  create_workspace, delete_channel, delete_message, logout, onboard_workspace_member, presign,
  remove_channel_member, update_message,
}
use galynx_api.Http.Trace.{
  Ends, Ends-bind, Ends-kept, Unchanged, UnchangedLog, Logged, Published, log-Ends, send-Ends,
}

module _ (entries : List AuditEntryRecord) (events : List (Uuid × WsEventEnvelope))
    (context : AuthContext) where
  abbrev pub home : Option Uuid
  home = some context.workspace_id

  -- What a request that is served does: it writes one entry or none, and sends one event or none.
  abbrev pub Effect : Request → Server → Type 0
  Effect (logout _) = Logged entries events home context (text "AUTH_LOGOUT")
  Effect (create_channel _) =
      Published entries events home context (text "CHANNEL_CREATED") (text "CHANNEL_CREATED")
  Effect (delete_channel _) =
      Published entries events home context (text "CHANNEL_DELETED") (text "CHANNEL_DELETED")
  Effect (add_channel_member _ _) = Logged entries events home context (text "CHANNEL_MEMBER_ADDED")
  Effect (remove_channel_member _ _) =
      Logged entries events home context (text "CHANNEL_MEMBER_REMOVED")
  Effect (create_message _ _) =
      Published entries events home context (text "MESSAGE_CREATED") (text "MESSAGE_CREATED")
  Effect (update_message _ _) =
      Published entries events home context (text "MESSAGE_UPDATED") (text "MESSAGE_UPDATED")
  Effect (delete_message _) =
      Published entries events home context (text "MESSAGE_DELETED") (text "MESSAGE_DELETED")
  Effect (create_reply _ _) =
      Published entries events home context (text "THREAD_REPLY_CREATED") (text "THREAD_UPDATED")
  Effect (presign _) = Logged entries events home context (text "ATTACHMENT_PRESIGN")
  Effect (commit _) = Logged entries events home context (text "ATTACHMENT_COMMIT")
  Effect (create_user _) = Logged entries events home context (text "USER_CREATED")
  Effect (create_workspace _) = Logged entries events none context (text "WORKSPACE_CREATED")
  Effect (onboard_workspace_member id payload) =
      Logged entries events (some id) context (text "WORKSPACE_MEMBER_ONBOARDED")
  Effect _ = Unchanged entries events

  -- A request that is refused leaves no trail; a reply is entered before its thread is read again.
  abbrev pub NoEffect : Request → Server → Type 0
  NoEffect (create_reply _ _) = λ s.
      Unchanged entries events s
      ⊎ Logged entries events home context (text "THREAD_REPLY_CREATED") s
  NoEffect _ = Unchanged entries events

  pub Logged-IsKept :
      {A : Type 0} (at : Option Uuid) (action : Str) (m : Action Storage A)
      → ((l : List AuditEntryRecord) → IsKept (UnchangedLog l) m)
      → IsKept (Logged entries events at context action) (on_storage m)
  Logged-IsKept at action m h = record {
    after = λ s (e, says, logged, quiet). (e, says, (h _).after s.storage logged, quiet);
  }

  module _ {K : Server → Type 0} {B : Type 0} where
    pub kept_then :
        {A : Type 0} (m : Action Server A) (k : A → Action Server B)
        → IsKept (Unchanged entries events) m
        → ((a : A) → Ends (Unchanged entries events) (Unchanged entries events) K (k a))
        → Ends (Unchanged entries events) (Unchanged entries events) K (m >>= k)
    kept_then m k h next = Ends-bind m k (Ends-kept m (λ s p. p) h) next

    module _ (draw : HttpDraw) {E : Server → Type 0} (caller : AuthContext)
        (same : caller ≡ context) where
      entry_then :
          (at : Option Uuid) (workspace_id : Uuid) (action target : Str) (target_id : Option Str)
          (metadata : Metadata) (k : Unit {0} → Action Server B)
          → ((at ≡ none) ⊎ (at ≡ some workspace_id))
          → ((u : Unit {0}) → Ends (Logged entries events at context action) E K (k u))
          → Ends
              (Unchanged entries events)
              E
              K
              (log draw workspace_id caller action target target_id metadata >>= k)
      entry_then at workspace_id action target target_id metadata k at_home next =
          subst
            (λ c.
              Ends (Unchanged entries events) E K
                (log draw workspace_id c action target target_id metadata >>= k))
            (sym same)
            (Ends-bind _ k
              (log-Ends entries events draw context at workspace_id action target target_id metadata
                at_home)
              next)

      pub entry_at_home :
          (action target : Str) (target_id : Option Str) (metadata : Metadata)
          (k : Unit {0} → Action Server B)
          → ((u : Unit {0}) → Ends (Logged entries events home context action) E K (k u))
          → Ends
              (Unchanged entries events)
              E
              K
              (log draw caller.workspace_id caller action target target_id metadata >>= k)
      entry_at_home action target target_id metadata k next =
          entry_then home caller.workspace_id action target target_id metadata k
            (inr (ap (λ (c : AuthContext). some c.workspace_id) (sym same))) next

      -- In the workspace that the handler names.
      pub entry_there :
          (workspace_id : Uuid) (action target : Str) (target_id : Option Str) (metadata : Metadata)
          (k : Unit {0} → Action Server B)
          → ((u : Unit {0})
              → Ends (Logged entries events (some workspace_id) context action) E K (k u))
          → Ends
              (Unchanged entries events)
              E
              K
              (log draw workspace_id caller action target target_id metadata >>= k)
      entry_there workspace_id action target target_id metadata k next =
          entry_then (some workspace_id) workspace_id action target target_id metadata k (inr refl)
            next

      pub entry_somewhere :
          (workspace_id : Uuid) (action target : Str) (target_id : Option Str) (metadata : Metadata)
          (k : Unit {0} → Action Server B)
          → ((u : Unit {0}) → Ends (Logged entries events none context action) E K (k u))
          → Ends
              (Unchanged entries events)
              E
              K
              (log draw workspace_id caller action target target_id metadata >>= k)
      entry_somewhere workspace_id action target target_id metadata k next =
          entry_then none workspace_id action target target_id metadata k (inl refl) next

      pub event_then :
          (at : Option Uuid) (action event_type : Str) (channel_id : Option Uuid)
          (payload : EventPayload) (k : Unit {0} → Action Server B)
          → ((u : Unit {0})
              → Ends (Published entries events at context action event_type) E K (k u))
          → Ends
              (Logged entries events at context action)
              E
              K
              (send draw caller event_type channel_id payload >>= k)
      event_then at action event_type channel_id payload k next =
          subst
            (λ c.
              Ends (Logged entries events at context action) E K
                (send draw c event_type channel_id payload >>= k))
            (sym same)
            (Ends-bind _ k
              (send-Ends entries events draw context at action event_type channel_id payload) next)

module _ (entries : List AuditEntryRecord) (events : List (Uuid × WsEventEnvelope))
    (context : AuthContext) where
  abbrev pub Entered : Server → Type 0
  Entered =
      Logged entries events (home entries events context) context (text "THREAD_REPLY_CREATED")

  abbrev Refused : Server → Type 0
  Refused s = Unchanged entries events s ⊎ Entered s

  pub reply_then :
      {K : Server → Type 0} {A B : Type 0} (m : Action Server A) (k : A → Action Server B)
      → IsKept (Unchanged entries events) m
      → ((a : A) → Ends (Unchanged entries events) Refused K (k a))
      → Ends (Unchanged entries events) Refused K (m >>= k)
  reply_then m k h next = Ends-bind m k (Ends-kept m (λ s p. inl p) h) next

  pub summary_then :
      {K : Server → Type 0} {A B : Type 0} (m : Action Server A) (k : A → Action Server B)
      → IsKept Entered m
      → ((a : A) → Ends Entered Refused K (k a))
      → Ends Entered Refused K (m >>= k)
  summary_then m k h next = Ends-bind m k (Ends-kept m (λ s p. inr p) h) next

pub done : {K E : Server → Type 0} {A : Type 0} (a : A) → Ends K E K (pure a)
done a = record { after = λ s h. h }
