-- ===== src/Channels/Seed.antt =====
-- The bootstrap seed adds one channel at most, and touches nothing else.
use mathlib.Core.Path.{◌≡◌, refl, sym, ap, ◌∙◌}
use mathlib.Core.Logic.{◌↔◌, inl, inr}
use mathlib.Core.Bool.{Bool, true, false}
use mathlib.Core.Option.{some}
use mathlib.Core.List.{[], ◌∷◌}
use native.Mathlib.Omega.{arith}
use galynx_api.Common.{
  lookup-insert, Bool-cases, ==_refl, values, insert, filter, Map, nat_eq, ◌==◌, is_empty,
}
use galynx_api.Storage.{Storage, Uuid, Stamp}
use galynx_api.Storage.Rooms.{
  insert_channel, get_channel, get_message, is_channel_member, list_channels,
}
use galynx_api.Storage.Accounts.{get_membership_role}
use galynx_api.Storage.Consistency.{IsConsistent, insert_channel-IsConsistent}
use galynx_api.Channels.{ChannelService, ensure_bootstrap_seed, general}

module _ (svc : ChannelService) (seed : Stamp) (s : Storage) where
  pub seed-messages : (ensure_bootstrap_seed svc seed s).messages ≡ s.messages
  unfolding ensure_bootstrap_seed insert_channel
  seed-messages = ground arith

  pub seed-get_message :
      (id : Uuid) → get_message id (ensure_bootstrap_seed svc seed s) ≡ get_message id s
  unfolding get_message
  seed-get_message id = rw seed-messages

  pub seed-is_channel_member :
      (channel_id user_id : Uuid)
      → is_channel_member channel_id user_id (ensure_bootstrap_seed svc seed s)
        ≡ is_channel_member channel_id user_id s
  unfolding is_channel_member ensure_bootstrap_seed insert_channel
  seed-is_channel_member channel_id user_id = ground arith

  pub seed-channel_members : (ensure_bootstrap_seed svc seed s).channel_members ≡ s.channel_members
  unfolding ensure_bootstrap_seed insert_channel
  seed-channel_members = ground arith

  pub seed-attachments : (ensure_bootstrap_seed svc seed s).attachments ≡ s.attachments
  unfolding ensure_bootstrap_seed insert_channel
  seed-attachments = ground arith

  pub seed-get_membership_role :
      (workspace_id user_id : Uuid)
      → get_membership_role workspace_id user_id (ensure_bootstrap_seed svc seed s)
        ≡ get_membership_role workspace_id user_id s
  unfolding ensure_bootstrap_seed insert_channel get_membership_role
  seed-get_membership_role workspace_id user_id = ground arith

  pub seed-reactions : (ensure_bootstrap_seed svc seed s).reactions ≡ s.reactions
  unfolding ensure_bootstrap_seed insert_channel
  seed-reactions = ground arith

  pub seed-ws_command_once : (ensure_bootstrap_seed svc seed s).ws_command_once ≡ s.ws_command_once
  unfolding ensure_bootstrap_seed insert_channel
  seed-ws_command_once = ground arith

  pub seed-IsConsistent : IsConsistent s → IsConsistent (ensure_bootstrap_seed svc seed s)
  unfolding ensure_bootstrap_seed
  seed-IsConsistent h = elim (Bool-cases (is_empty (list_channels svc.bootstrap_workspace_id s))) [
    | inl bare ↦ rw bare (insert_channel-IsConsistent s h _)
    | inr seeded ↦ rw seeded h
  ]

  -- A stored channel stays, where the identifier drawn for the seed is not its own.
  pub seed-get_channel :
      (id : Uuid)
      → (seed.uuid == id) ≡ false
      → get_channel id (ensure_bootstrap_seed svc seed s) ≡ get_channel id s
  unfolding ensure_bootstrap_seed insert_channel get_channel
  seed-get_channel id fresh =
      ground (arith, lookup-insert seed.uuid id (general svc seed) s.channels)

values-insert_some :
    {V : Type 0} (p : V → Bool) (k : Uuid) (v : V) (m : Map Uuid V)
    → p v ≡ true
    → is_empty (filter p (values (insert k v m))) ≡ false
unfolding insert
values-insert_some p k v [] h = ground arith
values-insert_some p k v ((j, w) ∷ m) h = ground (arith, values-insert_some p k v m h)

module _ (svc : ChannelService) (seed again : Stamp) (s : Storage) where
  seeded_has_channel :
      is_empty (list_channels svc.bootstrap_workspace_id (ensure_bootstrap_seed svc seed s)) ≡ false
  unfolding ensure_bootstrap_seed
  seeded_has_channel = elim (Bool-cases (is_empty (list_channels svc.bootstrap_workspace_id s))) [
    | inl bare ↦ rw bare (
        unfold list_channels insert_channel in
        values-insert_some _ seed.uuid (general svc seed) s.channels
          (==_refl svc.bootstrap_workspace_id))
    | inr seeded ↦ rw (seeded, seeded)
  ]

  seeded_stays :
      (t : Storage)
      → is_empty (list_channels svc.bootstrap_workspace_id t) ≡ false
      → ensure_bootstrap_seed svc again t ≡ t
  seeded_stays t h = unfold ensure_bootstrap_seed in rw h

  -- A second seed right after the first changes nothing.
  pub seed_idem :
      ensure_bootstrap_seed svc again (ensure_bootstrap_seed svc seed s)
      ≡ ensure_bootstrap_seed svc seed s
  seed_idem = seeded_stays (ensure_bootstrap_seed svc seed s) seeded_has_channel

module _ (svc : ChannelService) where
  -- The bootstrap workspace has a channel.
  abbrev pub IsSeeded : Storage → Type 0
  IsSeeded t = is_empty (list_channels svc.bootstrap_workspace_id t) ≡ false

module _ (svc : ChannelService) (seed : Stamp) (s : Storage) where
  seed_made :
      is_empty (list_channels svc.bootstrap_workspace_id s) ≡ true
      → get_channel seed.uuid (ensure_bootstrap_seed svc seed s) ≡ some (general svc seed)
  unfolding ensure_bootstrap_seed insert_channel get_channel
  seed_made bare =
      rw (bare, lookup-insert seed.uuid seed.uuid (general svc seed) s.channels, ==_refl seed.uuid)
        refl

  -- The seed leaves the store as it is exactly where the bootstrap workspace has a channel. Where
  -- it has none, also after its last one was deleted, the channel `general` is stored under the
  -- identifier that is drawn, and the workspace is seeded then.
  pub ensure_bootstrap_seed_iff :
      ((ensure_bootstrap_seed svc seed s ≡ s) ↔ IsSeeded svc s)
      × (IsSeeded svc (ensure_bootstrap_seed svc seed s)
          × (¬ IsSeeded svc s
              → get_channel seed.uuid (ensure_bootstrap_seed svc seed s) ≡ some (general svc seed)))
  ensure_bootstrap_seed_iff = (
    (
      λ same.
          ap (λ t. is_empty (list_channels svc.bootstrap_workspace_id t)) (sym same)
          ∙ seeded_has_channel svc seed seed s,
      seeded_stays svc seed seed s s,
    ),
    (seeded_has_channel svc seed seed s, λ bare. seed_made (ground (arith, bare))),
  )
