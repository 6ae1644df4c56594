-- ===== src/Channels/Access.antt =====
-- Who may use a channel: `assert_channel_access` against a statement of the policy.
use mathlib.Core.Path.{◌≡◌}
use mathlib.Core.Logic.{◌⊎◌, ◌↔◌, inl, inr}
use mathlib.Core.Bool.{true, false}
use mathlib.Core.Option.{some}
use native.Mathlib.Omega.{arith}
use galynx_api.Common.{nat_eq, Option-cases}
use galynx_api.Errors.{ok}
use galynx_api.Auth.Context.{AuthContext, is_manager}
use galynx_api.Storage.{Storage, Uuid, ChannelRecordStore}
use galynx_api.Storage.Rooms.{get_channel, is_channel_member}
use galynx_api.Channels.{assert_channel_access}

-- The channel is one of the caller's workspace, and it is public, or the caller manages the
-- workspace, or is a member of the channel.
pub record CanAccess (context : AuthContext) (channel_id : Uuid) (s : Storage) : Type 0 where
  pub channel : ChannelRecordStore
  pub found : get_channel channel_id s ≡ some channel
  pub same_workspace : channel.workspace_id ≡ context.workspace_id
  pub allowed :
      (channel.is_private ≡ false)
      ⊎ (is_manager context.role ≡ true)
      ⊎ (is_channel_member channel_id context.user_id s ≡ true)

module _ (context : AuthContext) (channel_id : Uuid) (s : Storage) where
  -- The check reads the storage and never writes it.
  pub assert_channel_access-state : (assert_channel_access context channel_id s).1 ≡ s
  unfolding assert_channel_access
  assert_channel_access-state = ground arith

  CanAccess-of_ok :
      (assert_channel_access context channel_id s).0 ≡ ok tt → CanAccess context channel_id s
  unfolding assert_channel_access
  CanAccess-of_ok h = elim (Option-cases (get_channel channel_id s)) [
    | inl missing ↦ absurd (ground arith)
    | inr (c, found) ↦ record {
      channel = c;
      found = found;
      same_workspace = ground arith;
      allowed = ground arith;
    }
  ]

  ok-of_CanAccess :
      CanAccess context channel_id s → (assert_channel_access context channel_id s).0 ≡ ok tt
  unfolding assert_channel_access
  ok-of_CanAccess a = ground arith

  -- Access is granted exactly where the policy allows it.
  pub assert_channel_access_iff :
      ((assert_channel_access context channel_id s).0 ≡ ok tt) ↔ CanAccess context channel_id s
  assert_channel_access_iff = (CanAccess-of_ok, ok-of_CanAccess)

  -- Where the policy allows it, the check passes and leaves the state alone.
  pub assert_channel_access-of_CanAccess :
      CanAccess context channel_id s → assert_channel_access context channel_id s ≡ (ok tt, s)
  unfolding assert_channel_access
  assert_channel_access-of_CanAccess a = ground arith
