-- ===== src/Channels/Removal.antt =====
-- What is left of a channel that is deleted, and who is a member after a change.
use mathlib.Core.Path.{◌≡◌, refl, ap, ◌∙◌}
use mathlib.Core.Logic.{◌≢◌}
use mathlib.Core.Bool.{true, false, ◌&&◌}
use mathlib.Core.Option.{none}
use mathlib.Core.List.{List, [], ◌∷◌}
use native.Mathlib.Omega.{arith}
use galynx_api.Common.{
  ◌==◌, ==_refl, nat_eq, if◌then◌else◌, member, IsIncreasing, member-sort_dedup,
  sort_dedup-IsIncreasing, contains, is_some, sort_dedup, pair_eq,
}
use galynx_api.Errors.{ok}
use galynx_api.Storage.{Storage, Uuid, Stamp}
use galynx_api.Storage.Rooms.{
  get_channel, get_message as stored_message, is_channel_member, remove_channel,
  remove_channel_members, remove_messages_for_channel, add_channel_member as store_member,
  remove_channel_member as unstore_member, list_channel_members as stored_members, members_of,
}
use galynx_api.Storage.Accounts.{get_membership_role}
use galynx_api.Storage.Lookups.{
  get_channel-remove_channel, get_message-remove_messages_for_channel, outside,
  is_channel_member-remove_channel_members, is_channel_member-add_channel_member,
  is_channel_member-remove_channel_member,
}
use galynx_api.Storage.Consistency.{
  IsConsistent, remove_channel_members-IsConsistent, remove_channel-IsConsistent,
}
use galynx_api.Channels.{
  ChannelService, ensure_bootstrap_seed, channel_of_workspace, delete_channel, add_channel_member,
  remove_channel_member, list_channel_members,
}
use galynx_api.Channels.Seed.{
  seed-get_membership_role, seed-get_message, seed-is_channel_member, seed-IsConsistent,
}

module _ (svc : ChannelService) (seed : Stamp) (workspace_id channel_id : Uuid) (s : Storage) where
  abbrev seeded : Storage
  seeded = ensure_bootstrap_seed svc seed s

  abbrev emptied : Storage
  emptied =
      remove_messages_for_channel channel_id
        (remove_channel_members channel_id (remove_channel channel_id seeded))

  delete_channel-ok :
      (delete_channel svc seed workspace_id channel_id s).0 ≡ ok tt
      → (delete_channel svc seed workspace_id channel_id s).1 ≡ emptied
  unfolding delete_channel channel_of_workspace
  delete_channel-ok h = ground arith

  emptied-get_channel :
      (id : Uuid)
      → get_channel id emptied ≡ (if channel_id == id then none else get_channel id seeded)
  emptied-get_channel id =
      unfold get_channel remove_messages_for_channel remove_channel_members in
      (unfold get_channel in get_channel-remove_channel id seeded channel_id)

  emptied-is_channel_member :
      (id user_id : Uuid)
      → is_channel_member id user_id emptied
        ≡ (if id == channel_id then false else is_channel_member id user_id s)
  emptied-is_channel_member id user_id =
      same
      ∙ is_channel_member-remove_channel_members id user_id (remove_channel channel_id seeded)
          channel_id
      ∙ rw (same', seed-is_channel_member svc seed s id user_id) refl
    where
      same :
          is_channel_member id user_id emptied
          ≡ is_channel_member id user_id
              (remove_channel_members channel_id (remove_channel channel_id seeded))
      same = unfold is_channel_member remove_messages_for_channel in refl

      same' :
          is_channel_member id user_id (remove_channel channel_id seeded)
          ≡ is_channel_member id user_id seeded
      same' = unfold is_channel_member remove_channel in refl

  emptied-get_message :
      IsConsistent s
      → (id : Uuid) → stored_message id emptied ≡ outside channel_id (stored_message id s)
  emptied-get_message h id =
      get_message-remove_messages_for_channel id
        (remove_channel_members channel_id (remove_channel channel_id seeded)) channel_id
        (remove_channel_members-IsConsistent (remove_channel channel_id seeded)
          (remove_channel-IsConsistent seeded (seed-IsConsistent svc seed s h) channel_id)
          channel_id)
      ∙ ap (outside channel_id) (same ∙ seed-get_message svc seed s id)
    where
      same :
          stored_message id (remove_channel_members channel_id (remove_channel channel_id seeded))
          ≡ stored_message id seeded
      same = unfold stored_message remove_channel_members remove_channel in refl

  -- In a consistent store, after a `delete_channel` that succeeds, the channel is gone and has no
  -- members. A message is stored exactly if it was and is not one of the channel's. Every other
  -- channel is as the seed left it, and its members are as before.
  pub delete_channel-removes :
      IsConsistent s
      → (delete_channel svc seed workspace_id channel_id s).0 ≡ ok tt
      → let t = (delete_channel svc seed workspace_id channel_id s).1 in
        (get_channel channel_id t ≡ none)
        × ((user_id : Uuid) → is_channel_member channel_id user_id t ≡ false)
        × ((id : Uuid) → stored_message id t ≡ outside channel_id (stored_message id s))
        × ((other : Uuid)
            → channel_id ≢ other
            → (get_channel other t ≡ get_channel other (ensure_bootstrap_seed svc seed s))
              × ((user_id : Uuid)
                  → is_channel_member other user_id t ≡ is_channel_member other user_id s))
  delete_channel-removes h done = rw (delete_channel-ok done) (
    rw (emptied-get_channel channel_id, ==_refl channel_id) refl,
    λ user_id. rw (emptied-is_channel_member channel_id user_id, ==_refl channel_id) refl,
    λ id. emptied-get_message h id,
    λ other ne. (
      ground (arith, emptied-get_channel other),
      λ user_id. ground (arith, emptied-is_channel_member other user_id),
    ),
  )

member-members_of :
    (channel_id user_id : Uuid) (ms : List (Uuid × Uuid))
    → member user_id (members_of channel_id ms) ≡ contains (channel_id, user_id) ms
unfolding contains
member-members_of channel_id user_id [] = refl
member-members_of channel_id user_id ((c, u) ∷ ms) =
    ground (arith, member-members_of channel_id user_id ms)

module _ (svc : ChannelService) (seed : Stamp) (workspace_id channel_id : Uuid) (s : Storage) where
  -- A list of members that is answered is in increasing order, each user once, and holds exactly
  -- the users who are stored as members of the channel.
  pub list_channel_members-members :
      (users : List Uuid)
      → (list_channel_members svc seed workspace_id channel_id s).0 ≡ ok users
      → IsIncreasing users
        × ((user_id : Uuid) → member user_id users ≡ is_channel_member channel_id user_id s)
  list_channel_members-members users h = (
    rw listed
        (sort_dedup-IsIncreasing (stored_members channel_id (ensure_bootstrap_seed svc seed s))),
    λ user_id. rw listed (
        member-sort_dedup user_id (stored_members channel_id (ensure_bootstrap_seed svc seed s))
        ∙ members user_id
        ∙ seed-is_channel_member svc seed s channel_id user_id),
  )
    where
      listed : users ≡ sort_dedup (stored_members channel_id (ensure_bootstrap_seed svc seed s))
      listed = unfold list_channel_members channel_of_workspace in ground arith

      members :
          (user_id : Uuid)
          → member user_id (stored_members channel_id (ensure_bootstrap_seed svc seed s))
            ≡ is_channel_member channel_id user_id (ensure_bootstrap_seed svc seed s)
      members user_id =
          unfold stored_members is_channel_member in
          member-members_of channel_id user_id (ensure_bootstrap_seed svc seed s).channel_members

  -- If `add_channel_member` succeeds, the user belongs to the workspace, and is a member of the
  -- channel from then on; nobody else's membership changes. If `remove_channel_member` succeeds,
  -- the user is no member from then on, and nobody else's membership changes.
  pub channel_members-change :
      (user_id : Uuid)
      → let added = add_channel_member svc seed workspace_id channel_id user_id s in
        let removed = remove_channel_member svc seed workspace_id channel_id user_id s in
        (added.0 ≡ ok tt
          → (is_some (get_membership_role workspace_id user_id s) ≡ true)
            × ((c u : Uuid)
                → is_channel_member c u added.1 ≡ (
                    if (channel_id == c) && (user_id == u) then true else is_channel_member c u s)))
        × (removed.0 ≡ ok tt
            → (c u : Uuid)
            → is_channel_member c u removed.1
              ≡ (if (channel_id == c) && (user_id == u) then false else is_channel_member c u s))
  channel_members-change user_id = (
    λ h. (
      belongs h,
      λ c u. rw (added h) (
          is_channel_member-add_channel_member c u (ensure_bootstrap_seed svc seed s) channel_id
            user_id
          ∙ rw (seed-is_channel_member svc seed s c u) refl),
    ),
    λ h c u. rw (removed h) (
        is_channel_member-remove_channel_member c u (ensure_bootstrap_seed svc seed s) channel_id
          user_id
        ∙ rw (seed-is_channel_member svc seed s c u) refl),
  )
    where
      added :
          (add_channel_member svc seed workspace_id channel_id user_id s).0 ≡ ok tt
          → (add_channel_member svc seed workspace_id channel_id user_id s).1
            ≡ store_member channel_id user_id (ensure_bootstrap_seed svc seed s)
      added h = unfold add_channel_member channel_of_workspace in ground arith

      belongs :
          (add_channel_member svc seed workspace_id channel_id user_id s).0 ≡ ok tt
          → is_some (get_membership_role workspace_id user_id s) ≡ true
      belongs h =
          unfold add_channel_member channel_of_workspace in
          ground (arith, seed-get_membership_role svc seed s workspace_id user_id)

      removed :
          (remove_channel_member svc seed workspace_id channel_id user_id s).0 ≡ ok tt
          → (remove_channel_member svc seed workspace_id channel_id user_id s).1
            ≡ unstore_member channel_id user_id (ensure_bootstrap_seed svc seed s)
      removed h = unfold remove_channel_member channel_of_workspace in ground arith
