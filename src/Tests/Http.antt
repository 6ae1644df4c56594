-- ===== src/Tests/Http.antt =====
-- Requests of a member of the small store, and one without a token.
use mathlib.Core.Path.{◌≡◌, refl}
use mathlib.Core.Logic.{◌⊎◌, inr}
use mathlib.Core.Option.{none, some}
use galynx_api.Common.{pos, ◌==◌, text_eq, if◌then◌else◌, lookup}
use galynx_api.Text.{Str, text, text_tests}
use galynx_api.Errors.{ApiError, ok, err, unauthorized, status_code}
use galynx_api.Auth.Context.{member}
use galynx_api.Auth.Service.{
  Libraries, AccessClaims, HeaderValue, missing, visible, ensure_bootstrap_seed,
}
use galynx_api.Http.{AppState, HttpDraw, Headers, authenticated}
use galynx_api.Http.Routes.{serve, create_message, delete_channel}
use galynx_api.Http.Guards.{serve-unauthenticated}
use galynx_api.Http.Roles.{serve-member}
use galynx_api.Http.Trace.{Outcome}
use galynx_api.Http.Effects.{NoEffect, Effect}
use galynx_api.Http.Trail.{serve-trail}
use galynx_api.Tests.Data.{store, auth, channels, libraries, draw, config, stamp, alice}
use galynx_api.Tests.Sockets.{server}

abbrev claims : AccessClaims
claims = record {
  sub = text "4";
  email = text "a@x";
  workspace_id = text "1";
  role = member;
  token_type = text "access";
  iat = pos 500;
  exp = pos 1400;
}

abbrev app : AppState
app = record {
  config = config;
  lib = record libraries {
    decode = λ now token secret. if token == text "good" then some claims else none;
  };
  auth = auth;
  channels = channels;
  object_storage = none;
  argon = λ salt password. inr password;
}

abbrev request : HttpDraw
request = record {
  authenticate = draw (text "a");
  session = draw (text "b");
  token_check = draw (text "c");
  instant = 7;
  seed = stamp 90;
  summary_seed = stamp 91;
  item = stamp 92;
  audit = stamp 93;
  now = pos 600;
  event_time = pos 601;
  salt = text "s";
}

abbrev headers : HeaderValue → Headers
headers value = record { authorization = value; others = λ name. none }

abbrev good : Headers
good = headers (visible (text "Bearer good "))

good_token : (authenticated app request good server).0 ≡ ok alice
unfolding authenticated galynx_api.Auth.Service.authenticate_headers
    galynx_api.Auth.Service.bearer_from_headers text_tests
    galynx_api.Auth.Service.authenticate_access_token galynx_api.Text.Decimal.parse_u128
    galynx_api.Storage.Accounts.get_membership_role lookup ensure_bootstrap_seed
    galynx_api.Storage.Accounts.get_auth_user_by_email store
    galynx_api.Auth.Context.from_storage_role galynx_api.Storage.Accounts.find_primary_membership
    galynx_api.Text.Decimal.digits_value galynx_api.Text.Decimal.is_digit
    galynx_api.Text.Decimal.parse_digits
good_token = refl

serve-trail_example :
    Outcome
      (NoEffect server.storage.audit_entries server.realtime.delivered alice
        (create_message 11 (text "hi")))
      (Effect server.storage.audit_entries server.realtime.delivered alice
        (create_message 11 (text "hi")))
      (serve app request good (create_message 11 (text "hi")) server)
serve-trail_example =
    serve-trail app request good server alice good_token (create_message 11 (text "hi")) refl

serve-member_example :
    (e : ApiError) × (status_code e ≡ 401)
    × (serve app request good (delete_channel 11) server
        ≡ (err e, (authenticated app request good server).1))
serve-member_example =
    serve-member app request good server alice good_token refl (delete_channel 11) refl

serve-unauthenticated_example :
    (status_code (unauthorized (text "missing authorization header")) ≡ 401)
    × ((serve app request (headers missing) (delete_channel 11) server
          ≡ (err (unauthorized (text "missing authorization header")), server))
        ⊎ (serve app request (headers missing) (delete_channel 11) server ≡ (
          err (unauthorized (text "missing authorization header")),
          record server { storage = ensure_bootstrap_seed app.auth (pos 500000) server.storage },
        )))
unfolding galynx_api.Auth.Service.authenticate_headers galynx_api.Auth.Service.bearer_from_headers
serve-unauthenticated_example =
    serve-unauthenticated app request (headers missing) server (delete_channel 11)
      (unauthorized (text "missing authorization header")) refl (unfold authenticated in refl)
