-- ===== src/Http/Trace.antt =====
-- What an action of the interface leaves in the audit log and among the delivered events: rules
-- to read this from how the action is built.
use mathlib.Core.Path.{◌≡◌, refl, ap, ◌∙◌}
use mathlib.Core.Logic.{◌⊎◌}
use mathlib.Core.Option.{Option, none, some}
use mathlib.Core.List.{List, [], ◌∷◌, ◌++◌}
use native.Mathlib.Omega.{arith}
use galynx_api.Text.{Str}
use galynx_api.Errors.{ApiResult, ok, err, Action, ◌>>=◌}
use galynx_api.Errors.Keeping.{IsKept}
use galynx_api.Auth.Context.{AuthContext}
use galynx_api.Storage.{Storage, Uuid, AuditEntryRecord, Metadata}
use galynx_api.Storage.Files.{append_audit_entry}
use galynx_api.Audit.{write}
use galynx_api.RateLimit.{RateLimitService}
use galynx_api.Realtime.{
  Server, RealtimeHub, WsEventEnvelope, EventPayload, on_storage, on_rate_limit, emit, emit_local,
  make_event,
}
use galynx_api.Http.{HttpDraw, log, send}

-- The state after an action that failed, and after one that succeeded.
abbrev pub Outcome :
    {A : Type 0} → (Server → Type 0) → (Server → Type 0) → ApiResult A × Server → Type 0
Outcome E K (ok a, s) = K s
Outcome E K (err e, s) = E s

-- From a state with `P`, an action ends with `E` where it fails and with `K` where it succeeds.
pub record Ends {A : Type 0} (P E K : Server → Type 0) (m : Action Server A) : Type 0 where
  pub after : (s : Server) → P s → Outcome E K (m s)

abbrev followed :
    {A B : Type 0} → (A → Action Server B) → ApiResult A → Server → ApiResult B × Server
followed k r s = elim r [ ok a ↦ k a s | err e ↦ (err e, s) ]

module _ {E K M : Server → Type 0} {A B : Type 0} where
  followed-Outcome :
      (k : A → Action Server B) (r : ApiResult A) (s : Server)
      → ((a : A) → Ends M E K (k a))
      → Outcome E M (r, s)
      → Outcome E K (followed k r s)
  followed-Outcome k (ok a) s hk h = (hk a).after s h
  followed-Outcome k (err e) s hk h = h

  pub Ends-bind :
      {P : Server → Type 0} (m : Action Server A) (k : A → Action Server B)
      → Ends P E M m
      → ((a : A) → Ends M E K (k a))
      → Ends P E K (m >>= k)
  Ends-bind m k hm hk = record {
    after = λ s h. followed-Outcome k (m s).0 (m s).1 hk (hm.after s h);
  }

module _ {P E : Server → Type 0} {A : Type 0} where
  kept-Outcome :
      (r : ApiResult A) (s : Server) → ((s' : Server) → P s' → E s') → P s → Outcome E P (r, s)
  kept-Outcome (ok a) s weaker h = h
  kept-Outcome (err e) s weaker h = weaker s h

  pub Ends-kept : (m : Action Server A) → ((s : Server) → P s → E s) → IsKept P m → Ends P E P m
  Ends-kept m weaker h = record { after = λ s p. kept-Outcome (m s).0 (m s).1 weaker (h.after s p) }

emit-delivered :
    (workspace_id : Uuid) (event : WsEventEnvelope) (hub : RealtimeHub)
    → (emit workspace_id event hub).delivered ≡ hub.delivered ++ (workspace_id, event) ∷ []
unfolding emit emit_local
emit-delivered workspace_id event hub = ground arith

-- Entries by one caller: what they say is `action`, and the workspace is `home` where one is said.
pub record Says (home : Option Uuid) (context : AuthContext) (action : Str) (e : AuditEntryRecord)
    : Type 0 where
  pub actor : e.actor_id ≡ some context.user_id
  pub action_is : e.action ≡ action
  pub home_is : (home ≡ none) ⊎ (home ≡ some e.workspace_id)

abbrev pub UnchangedLog : List AuditEntryRecord → Storage → Type 0
UnchangedLog entries s = s.audit_entries ≡ entries

-- The state against the log and the events at the start of a request.
module _ (entries : List AuditEntryRecord) (events : List (Uuid × WsEventEnvelope)) where
  abbrev pub Unchanged : Server → Type 0
  Unchanged s = (s.storage.audit_entries ≡ entries) × (s.realtime.delivered ≡ events)

  -- One entry is added to the log.
  abbrev pub Logged : Option Uuid → AuthContext → Str → Server → Type 0
  Logged home context action s =
      (e : AuditEntryRecord) × Says home context action e
      × (s.storage.audit_entries ≡ entries ++ e ∷ [])
      × (s.realtime.delivered ≡ events)

  -- One entry is added to the log, and one event is delivered to the caller's workspace.
  abbrev pub Published : Option Uuid → AuthContext → Str → Str → Server → Type 0
  Published home context action event_type s =
      (e : AuditEntryRecord) × (event : WsEventEnvelope) × Says home context action e
      × (event.event_type ≡ event_type)
      × (s.storage.audit_entries ≡ entries ++ e ∷ [])
      × (s.realtime.delivered ≡ events ++ (context.workspace_id, event) ∷ [])

  pub on_storage-IsKept :
      {A : Type 0} (m : Action Storage A)
      → IsKept (UnchangedLog entries) m
      → IsKept Unchanged (on_storage m)
  on_storage-IsKept m h = record { after = λ s p. (h.after s.storage p.0, p.1) }

  pub on_rate_limit-IsKept :
      {A : Type 0} (m : Action RateLimitService A) → IsKept Unchanged (on_rate_limit m)
  on_rate_limit-IsKept m = record { after = λ s p. p }

  module _ (draw : HttpDraw) (context : AuthContext) where
    pub log-Ends :
        {E : Server → Type 0} (home : Option Uuid) (workspace_id : Uuid) (action target : Str)
        (target_id : Option Str) (metadata : Metadata)
        → ((home ≡ none) ⊎ (home ≡ some workspace_id))
        → Ends Unchanged E
            (Logged home context action)
            (log draw workspace_id context action target target_id metadata)
    unfolding log write append_audit_entry
    log-Ends home workspace_id action target target_id metadata at_home = record {
      after = λ s p.
          let e : AuditEntryRecord = record {
            id = draw.audit.uuid;
            workspace_id = workspace_id;
            actor_id = some context.user_id;
            action = action;
            target_type = target;
            target_id = target_id;
            metadata = metadata;
            created_at = draw.audit.time;
          } in
          (
            e,
            record { actor = refl; action_is = refl; home_is = at_home },
            ap (λ l. l ++ e ∷ []) p.0,
            p.1,
          );
    }

    pub send-Ends :
        {E : Server → Type 0} (home : Option Uuid) (action event_type : Str)
        (channel_id : Option Uuid) (payload : EventPayload)
        → Ends
            (Logged home context action)
            E
            (Published home context action event_type)
            (send draw context event_type channel_id payload)
    unfolding send make_event
    send-Ends home action event_type channel_id payload = record {
      after = λ s (e, says, logged, quiet).
          let event =
            make_event draw.event_time event_type context.workspace_id channel_id none payload in
          (
            e,
            event,
            says,
            refl,
            logged,
            emit-delivered context.workspace_id event s.realtime
                ∙ ap (λ l. l ++ (context.workspace_id, event) ∷ []) quiet,
          );
    }
