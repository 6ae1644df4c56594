-- ===== src/Tests/Accounts.antt =====
-- Sessions, limits, roles and addresses.
use Prim.Native.Nat.{◌+◌}
use mathlib.Core.Path.{◌≡◌, refl, ap}
use mathlib.Core.Logic.{◌≢◌, ◌↔◌, inr}
use mathlib.Core.Bool.{true, false}
use mathlib.Core.Option.{some}
use mathlib.Core.List.{[], ◌∷◌}
use native.Mathlib.Omega.{arith}
use galynx_api.Common.{ℤ, pos, text_beq, lookup, insert, length, is_empty}
use galynx_api.Text.{Str, text, text_tests, trim}
use galynx_api.Errors.{ok, is_ok}
use galynx_api.Storage.{new}
use galynx_api.Storage.Accounts.{
  get_refresh_session, get_auth_user_by_email, find_primary_membership,
}
use galynx_api.Auth.Service.{refresh, logout, ensure_bootstrap_seed}
use galynx_api.Auth.Lifecycle.{
  call_logout, call_refresh, run, refresh-rotates, IsRotated, refresh_once, logout_ends,
}
use galynx_api.Auth.Context.{from_storage_role, role_to_storage, parse_role, admin, owner}
use galynx_api.Client.{normalize_user_role, normalize_user_role-role_to_storage}
use galynx_api.Text.Trim.{normalize}
use galynx_api.Text.Decimal.{print_ℕ}
use galynx_api.Tests.Data.{live_session}
use mathlib.Core.Logic.{◌⊎◌}
use mathlib.Core.Option.{none}
use mathlib.Core.Bool.{◌&&◌}
use galynx_api.Common.{◌==◌, nat_eq, text_eq, if◌then◌else◌}
use galynx_api.Auth.Service.{revoke}
use galynx_api.Auth.Sessions.{map_session}
use galynx_api.Auth.Reuse.{names, refresh-reuse}
use galynx_api.Storage.Accounts.{get_membership_role}
use galynx_api.Users.{UserResponse, CreateUserRequest, create_user, hash_password}
use galynx_api.Users.Create.{created, create_user-found}
use galynx_api.Workspaces.{OnboardWorkspaceMemberRequest, onboard_member}
use galynx_api.Workspaces.Members.{IsOnboarded, onboard_member-IsOnboarded}
use galynx_api.Errors.{unauthorized, err}
use galynx_api.Storage.{Storage, Uuid}
use galynx_api.RateLimit.{
  FixedWindowLimiter, current_bucket, fresh_bucket, check_auth, new_service, HeaderMap,
  client_ip_from_headers,
}
use galynx_api.RateLimit.Window.{accepted, min, of_key, accepted_in_window, check_auth-normalize}
use galynx_api.RateLimit.ClientIp.{client_ip_from_headers-IsAddress}
use galynx_api.Tests.Data.{store, auth, libraries, draw, config}

refreshed :
    (refresh libraries auth (draw (text "new")) config (text "old") store).0
    ≡ ok (record {
      access_token = text "jwt";
      refresh_token = text "new";
      access_expires_at = pos 1400;
      refresh_expires_at = pos 2592500;
    })
unfolding text_tests refresh store ensure_bootstrap_seed get_auth_user_by_email lookup
    find_primary_membership get_refresh_session galynx_api.Storage.Accounts.update_refresh_session
    galynx_api.Storage.Accounts.get_auth_user_by_id insert
    galynx_api.Auth.Service.primary_membership galynx_api.Storage.Accounts.get_membership_role
    from_storage_role galynx_api.Auth.Service.sign galynx_api.Common.◌+ℤ◌
refreshed = refl

other_token : text "new" ≢ text "old"
unfolding text
other_token e = ground (arith, e)

other_token' : text "other" ≢ text "old"
unfolding text
other_token' e = ground (arith, e)

refresh-rotates_example :
    IsRotated libraries auth (draw (text "new")) config (text "old") store (record {
      access_token = text "jwt";
      refresh_token = text "new";
      access_expires_at = pos 1400;
      refresh_expires_at = pos 2592500;
    })
refresh-rotates_example =
    refresh-rotates libraries auth (draw (text "new")) config (text "old") store refreshed
      other_token

refreshed_ok : is_ok (refresh libraries auth (draw (text "new")) config (text "old") store).0 ≡ true
refreshed_ok = ap is_ok refreshed

refresh_once_example :
    is_ok
      (refresh libraries auth (draw (text "more")) config (text "old") (
        run libraries auth
          (call_refresh (draw (text "new")) config (text "old")
            ∷ call_logout (draw (text "other")) (text "new")
            ∷ [])
          store)).0
    ≡ false
refresh_once_example =
    refresh_once libraries auth (draw (text "new")) config (text "old") store
      (call_logout (draw (text "other")) (text "new") ∷ []) (draw (text "more")) config refreshed_ok
      (other_token, (other_token', tt))

logged_out : (logout libraries auth (draw (text "new")) (text "old") store).0 ≡ ok tt
unfolding text_tests logout store ensure_bootstrap_seed get_auth_user_by_email lookup
    find_primary_membership galynx_api.Storage.Accounts.update_refresh_session
logged_out = refl

logout_ends_example :
    is_ok
      (refresh libraries auth (draw (text "more")) config (text "old") (
        run libraries auth
          (call_logout (draw (text "other")) (text "old") ∷ [])
          (logout libraries auth (draw (text "new")) (text "old") store).1)).0
    ≡ false
logout_ends_example =
    logout_ends libraries auth (draw (text "new")) (text "old") store
      (call_logout (draw (text "other")) (text "old") ∷ []) (draw (text "more")) config logged_out
      (other_token', tt)

abbrev limiter : FixedWindowLimiter
limiter = record { max_requests = 2; window = 60; buckets = [] }

idle : current_bucket 5 (text "k") limiter ≡ fresh_bucket 5 limiter
unfolding current_bucket lookup
idle = refl

-- The limit is two requests, and the one of another key does not count.
accepted_in_window_example :
    accepted
      (text "k")
      (text "slow")
      ((text "k", 5) ∷ (text "k", 6) ∷ (text "j", 7) ∷ (text "k", 8) ∷ [])
      limiter
    ≡ min (1 + length (of_key (text "k") ((text "k", 6) ∷ (text "j", 7) ∷ (text "k", 8) ∷ []))) 2
accepted_in_window_example =
    accepted_in_window (text "k") (text "slow") 5
      ((text "k", 6) ∷ (text "j", 7) ∷ (text "k", 8) ∷ []) limiter idle
      (omega arith, (omega arith, (omega arith, tt)))

check_auth-normalize_example :
    check_auth print_ℕ 5 (normalize (text " Host")) (some (normalize (text "A@X "))) new_service
    ≡ check_auth print_ℕ 5 (text " Host") (some (text "A@X ")) new_service
check_auth-normalize_example =
    check_auth-normalize print_ℕ 5 (text " Host") (text "A@X ") new_service

abbrev headers : HeaderMap
headers name = some (text " 10.0.0.1 , proxy")

client_ip_from_headers-IsAddress_example :
    (is_empty (client_ip_from_headers headers) ≡ false)
    × (trim (client_ip_from_headers headers) ≡ client_ip_from_headers headers)
client_ip_from_headers-IsAddress_example = client_ip_from_headers-IsAddress headers

client_ip_test : client_ip_from_headers headers ≡ text "10.0.0.1"
unfolding client_ip_from_headers text_tests galynx_api.Text.split
client_ip_test = refl

normalize_user_role-role_to_storage_example :
    (normalize_user_role (text " ADMIN") ≡ inr (role_to_storage admin))
    ↔ (parse_role (text " ADMIN") ≡ ok admin)
normalize_user_role-role_to_storage_example =
    normalize_user_role-role_to_storage (text " ADMIN") admin

normalize_user_role_test : normalize_user_role (text " ADMIN") ≡ inr (text "admin")
unfolding normalize_user_role text_tests
normalize_user_role_test = refl

-- The token was used before, and its successor "two" is live.
abbrev reused : Storage
reused = record store {
  refresh_sessions =
      (
        text "one",
        record live_session { revoked_at = some (pos 400); replaced_by_hash = some (text "two") },
      )
      ∷ (text "two", live_session)
      ∷ [];
}

reused_found :
    get_refresh_session (text "one") reused
    ≡ some
        (record live_session { revoked_at = some (pos 400); replaced_by_hash = some (text "two") })
unfolding text_tests get_refresh_session lookup
reused_found = refl

refresh-reuse_example :
    let session = record live_session {
      revoked_at = some (pos 400);
      replaced_by_hash = some (text "two");
    } in
    let (r, t) = refresh libraries auth (draw (text "new")) config (text "one") reused in
    (r ≡ err (unauthorized (text "refresh token reuse detected")))
    × ((other : Str)
        → get_refresh_session other t ≡ (
            if names session.replaced_by_hash other
            then map_session (revoke (pos 500)) (get_refresh_session other reused)
            else get_refresh_session other reused))
refresh-reuse_example =
    refresh-reuse libraries auth (draw (text "new")) config (text "one") reused
      (record live_session { revoked_at = some (pos 400); replaced_by_hash = some (text "two") })
      reused_found refl refl

abbrev argon : Str → Str → Str ⊎ Str
argon salt password = inr password

abbrev bob : CreateUserRequest
bob = record { email = text " B@x"; name = text "Bob"; password = text "secret12 "; role = admin }

abbrev bob_response : UserResponse
bob_response = record {
  id = 8;
  email = text "b@x";
  name = text "Bob";
  workspace_id = 1;
  role = admin;
}

bob_created : (create_user argon (text "salt") 8 1 bob store).0 ≡ ok bob_response
unfolding text_tests create_user galynx_api.Text.byte_len get_auth_user_by_email lookup store
    hash_password
bob_created = refl

create_user-found_example :
    let t = (create_user argon (text "salt") 8 1 bob store).1 in
    (get_auth_user_by_email (text " B@x") store ≡ none)
    × (admin ≢ owner)
    × ((hash : Str) × (hash_password argon (text "salt") (trim (text "secret12 ")) ≡ ok hash)
        × ((spelling : Str)
            → normalize spelling ≡ normalize (text " B@x")
            → get_auth_user_by_email spelling t
              ≡ some (created argon (text "salt") 8 1 bob store hash)))
    × (get_membership_role 1 8 t ≡ some (role_to_storage admin))
    × ((w u : Uuid)
        → ((1 == w) && (8 == u)) ≡ false
        → get_membership_role w u t ≡ get_membership_role w u store)
create_user-found_example =
    create_user-found argon (text "salt") 8 1 bob store bob_response bob_created

abbrev invitation : OnboardWorkspaceMemberRequest
invitation = record { email = text "a@x"; name = none; password = none; role = admin }

onboarded :
    (onboard_member argon (text "salt") 8 2 invitation store).0
    ≡ ok (record { user_id = 4; email = text "a@x"; name = text "A"; role = admin })
unfolding text_tests onboard_member get_auth_user_by_email lookup store
onboarded = refl

onboard_member-IsOnboarded_example :
    IsOnboarded argon
      (text "salt")
      8
      2
      invitation
      store
      (record { user_id = 4; email = text "a@x"; name = text "A"; role = admin })
      (onboard_member argon (text "salt") 8 2 invitation store).1
onboard_member-IsOnboarded_example =
    onboard_member-IsOnboarded argon (text "salt") 8 2 invitation store
      (record { user_id = 4; email = text "a@x"; name = text "A"; role = admin }) onboarded
