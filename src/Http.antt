-- ===== src/Http.antt =====
-- The HTTP interface of src/app.rs: what a request finds in `AppState`, and the steps that the
-- handlers share. The handlers are in the modules below, by the file of the source that has them;
-- `Routes` is the router.
pub mod Rooms
pub mod Messages
pub mod Sessions
pub mod Accounts
pub mod Uploads
pub mod Routes
pub mod Guards
pub mod Trace
pub mod Quiet
pub mod Effects
pub mod Trail
pub mod Roles
use Prim.Native.Nat.{ℕ}
use mathlib.Core.Logic.{◌⊎◌}
use mathlib.Core.Option.{Option, none, some}
use galynx_api.Common.{ℤ}
use galynx_api.Text.{Str}
use galynx_api.Errors.{Action}
use galynx_api.Auth.Context.{AuthContext}
use galynx_api.Auth.Service.{
  AuthService, Libraries, AuthDraw, TokenConfig, HeaderValue, authenticate_headers,
}
use galynx_api.Storage.{Uuid, Stamp, Metadata}
use galynx_api.Channels.{ChannelService}
use galynx_api.Attachments.{ObjectStorage}
use galynx_api.Audit.{write}
use galynx_api.RateLimit.{HeaderMap}
use galynx_api.Realtime.{Server, on_storage, on_realtime, emit, make_event, EventPayload}

-- `AppState`: the settings and the services' own fields, with the libraries that they call. What
-- the services store is the state of the actions, a `Server`.
pub record AppState : Type 0 where
  pub config : TokenConfig
  pub lib : Libraries
  pub auth : AuthService
  pub channels : ChannelService
  pub object_storage : Option ObjectStorage
  pub argon : Str → Str → Str ⊎ Str

-- What one request draws: the clocks and random values of the calls that authenticate it, that
-- serve it and that read the new token; the instant of the limiter; the stamps of the seeds, of
-- what is created and of the audit entry; the time of a change, that of the event, and the salt.
pub record HttpDraw : Type 0 where
  pub authenticate : AuthDraw
  pub session : AuthDraw
  pub token_check : AuthDraw
  pub instant : ℕ
  pub seed : Stamp
  pub summary_seed : Stamp
  pub item : Stamp
  pub audit : Stamp
  pub now : ℤ
  pub event_time : ℤ
  pub salt : Str

pub record Headers : Type 0 where
  pub authorization : HeaderValue
  pub others : HeaderMap

-- A status and a body.
pub record HttpResponse (A : Type 0) : Type 0 where
  pub status : ℕ
  pub body : A

-- `Json(a)`
abbrev pub json : {A : Type 0} → A → HttpResponse A
json a = record { status = 200; body = a }

-- `(StatusCode::CREATED, Json(a))`
abbrev pub created : {A : Type 0} → A → HttpResponse A
created a = record { status = 201; body = a }

-- `StatusCode::NO_CONTENT`
abbrev pub no_content : HttpResponse (Unit {0})
no_content = record { status = 204; body = tt }

unfoldable pub authenticated : AppState → HttpDraw → Headers → Action Server AuthContext
authenticated app draw headers = on_storage (
    authenticate_headers app.lib app.auth draw.authenticate headers.authorization
      app.config.jwt_secret)

module _ (draw : HttpDraw) where
  -- `state.audit.write(..)`
  unfoldable pub log :
      Uuid → AuthContext → Str → Str → Option Str → Metadata → Action Server (Unit {0})
  log workspace_id context action target_type target_id metadata =
      on_storage
        (write draw.audit workspace_id (some context.user_id) action target_type target_id metadata)

  -- `state.realtime.emit(.., make_event(..))`, with no correlation
  unfoldable pub send : AuthContext → Str → Option Uuid → EventPayload → Action Server (Unit {0})
  send context event_type channel_id payload = on_realtime (
      emit context.workspace_id
        (make_event draw.event_time event_type context.workspace_id channel_id none payload))
