-- ===== src/Tests/Data.antt =====
-- A small store: one workspace, two channels, two messages and three users.
use Prim.Native.Nat.{ℕ}
use mathlib.Core.Bool.{Bool, true, false}
use mathlib.Core.Option.{none}
use mathlib.Core.Logic.{inr}
use mathlib.Core.List.{[], ◌∷◌}
use mathlib.Core.Path.{refl}
use galynx_api.Storage.Consistency.{IsConsistent}
use galynx_api.Common.{lookup, nat_eq, pos, ◌==◌, text_eq}
use galynx_api.Text.{Str, text}
use galynx_api.Text.Decimal.{print_ℕ, parse_u128}
use galynx_api.Auth.Context.{AuthContext, owner, member}
use galynx_api.Auth.Service.{AuthService, Libraries, AuthDraw, TokenConfig}
use galynx_api.Channels.{ChannelService}
use galynx_api.Storage.{
  Storage, Uuid, Stamp, new, ChannelRecordStore, MessageRecordStore, AuthUserRecordStore,
  RefreshSessionRecordStore,
}

abbrev pub stamp : ℕ → Stamp
stamp n = record { uuid = n; time = pos n }

abbrev pub channels : ChannelService
channels = record { bootstrap_workspace_id = 1; bootstrap_creator_id = 3 }

-- User 4 is a member of the private channel 11, user 5 is not, and user 3 owns the workspace.
abbrev pub alice : AuthContext
alice = record { user_id = 4; workspace_id = 1; role = member }

abbrev pub the_owner : AuthContext
the_owner = record { user_id = 3; workspace_id = 1; role = owner }

abbrev room : Uuid → Bool → ChannelRecordStore
room id is_private = record {
  id = id;
  workspace_id = 1;
  name = text "room";
  is_private = is_private;
  created_by = 3;
  created_at = pos 7;
}

abbrev pub note : Uuid → ℕ → MessageRecordStore
note id time = record {
  id = id;
  workspace_id = 1;
  channel_id = 11;
  sender_id = 4;
  body_md = text "hi";
  thread_root_id = none;
  created_at = pos time;
  edited_at = none;
  deleted_at = none;
}

abbrev user : Uuid → AuthUserRecordStore
user id = record { id = id; email = text "a@x"; name = text "A"; password_hash = text "pw" }

abbrev pub live_session : RefreshSessionRecordStore
live_session = record {
  user_id = 4;
  workspace_id = 1;
  expires_at = pos 1000;
  revoked_at = none;
  replaced_by_hash = none;
}

unfoldable pub store : Storage
unfolding new
store = record new {
  channels = (10, room 10 false) ∷ (11, room 11 true) ∷ [];
  channel_members = (11, 4) ∷ [];
  messages = (20, note 20 100) ∷ (21, note 21 200) ∷ [];
  auth_users = (4, user 4) ∷ [];
  auth_users_by_email = (text "a@x", 4) ∷ [];
  auth_memberships = ((1, 4), text "member") ∷ [];
  refresh_sessions = (text "old", live_session) ∷ [];
}

abbrev pub auth : AuthService
auth = record {
  bootstrap_workspace_id = 1;
  bootstrap_workspace_name = text "w";
  bootstrap_user_id = 3;
  bootstrap_email = text "a@x";
  bootstrap_name = text "Owner";
  bootstrap_password_hash = text "h";
}

-- Libraries that hash nothing and sign every token alike.
abbrev pub libraries : Libraries
libraries = record {
  token_hash = λ t. t;
  is_password_hash = λ h. true;
  verify_password = λ p h. p == h;
  encode = λ c secret. inr (text "jwt");
  decode = λ now token secret. none;
  show_uuid = print_ℕ;
  parse_uuid = parse_u128;
}

abbrev pub draw : Str → AuthDraw
draw token = record {
  now = pos 500;
  refresh_now = pos 500;
  access_now = pos 500;
  iat_now = pos 500;
  seed_time = pos 500000;
  token = token;
}

abbrev pub config : TokenConfig
config = record { jwt_secret = text "s"; access_ttl_minutes = pos 15; refresh_ttl_days = pos 30 }

pub store-IsConsistent : IsConsistent store
unfolding store new lookup
store-IsConsistent = record {
  messages = (refl, refl, (refl, refl, tt));
  channels = (refl, refl, (refl, refl, tt));
  attachments = tt;
  auth_users = (refl, refl, tt);
  workspaces = tt;
}
