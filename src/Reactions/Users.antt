-- ===== src/Reactions/Users.antt =====
-- Who has reacted, after a reaction is added or removed.
use mathlib.Core.Path.{◌≡◌, refl, ◌∙◌}
use mathlib.Core.Logic.{inl, inr}
use mathlib.Core.Bool.{Bool, true, false}
use mathlib.Core.List.{List, [], ◌∷◌}
use native.Mathlib.Omega.{arith}
use galynx_api.Common.{
  ◌==◌, ==_refl, nat_eq, text_eq, pair_eq, if◌then◌else◌, contains, contains-insert_member,
  contains-remove_member, member, member-sort_dedup, sort_dedup, sort_dedup-IsIncreasing,
  IsIncreasing, length,
}
use galynx_api.Text.{Str}
use galynx_api.Errors.{ok, ApiResult-cases}
use galynx_api.Auth.Context.{AuthContext}
use galynx_api.Storage.{Storage, Uuid, Stamp}
use galynx_api.Storage.Rooms.{
  add_reaction as store_reaction, remove_reaction as unstore_reaction, list_reaction_users,
  reacting,
}
use galynx_api.Channels.{ChannelService}
use galynx_api.Channels.Messages.{get_message}
use galynx_api.Channels.Seed.{seed-reactions}
use galynx_api.Reactions.{
  add_reaction, remove_reaction, normalize_emoji, build_update, ReactionUpdateResponse,
}

-- Whether a user's reaction is stored.
unfoldable pub has_reacted : Uuid → Str → Uuid → Storage → Bool
has_reacted message_id emoji user_id s = contains (message_id, (emoji, user_id)) s.reactions

member-reacting :
    (message_id : Uuid) (emoji : Str) (user_id : Uuid) (rs : List (Uuid × (Str × Uuid)))
    → member user_id (reacting message_id emoji rs) ≡ contains (message_id, (emoji, user_id)) rs
unfolding contains
member-reacting message_id emoji user_id [] = refl
member-reacting message_id emoji user_id ((m, (e, u)) ∷ rs) =
    ground (arith, member-reacting message_id emoji user_id rs)

has_reacted-list :
    (message_id : Uuid) (emoji : Str) (user_id : Uuid) (s : Storage)
    → member user_id (sort_dedup (list_reaction_users message_id emoji s))
      ≡ has_reacted message_id emoji user_id s
unfolding list_reaction_users has_reacted
has_reacted-list message_id emoji user_id s =
    member-sort_dedup user_id (reacting message_id emoji s.reactions)
    ∙ member-reacting message_id emoji user_id s.reactions

has_reacted-add :
    (message_id : Uuid) (emoji : Str) (user_id other : Uuid) (s : Storage)
    → has_reacted message_id emoji other (store_reaction message_id emoji user_id s)
      ≡ (if user_id == other then true else has_reacted message_id emoji other s)
unfolding has_reacted store_reaction
has_reacted-add message_id emoji user_id other s = ground (
  arith,
  ==_refl message_id,
  ==_refl emoji,
  contains-insert_member (message_id, (emoji, user_id)) (message_id, (emoji, other)) s.reactions,
)

has_reacted-remove :
    (message_id : Uuid) (emoji : Str) (user_id other : Uuid) (s : Storage)
    → has_reacted message_id emoji other (unstore_reaction message_id emoji user_id s)
      ≡ (if user_id == other then false else has_reacted message_id emoji other s)
unfolding has_reacted unstore_reaction
has_reacted-remove message_id emoji user_id other s = ground (
  arith,
  ==_refl message_id,
  ==_refl emoji,
  contains-remove_member (message_id, (emoji, user_id)) (message_id, (emoji, other)) s.reactions,
)

module _ (svc : ChannelService) (seed : Stamp) (context : AuthContext) (message_id : Uuid)
    (input : Str) (s : Storage) where
  abbrev looked_up : Storage
  looked_up = (get_message svc seed context.workspace_id message_id s).1

  looked_up-reactions :
      (emoji : Str) (user_id : Uuid)
      → has_reacted message_id emoji user_id looked_up ≡ has_reacted message_id emoji user_id s
  unfolding has_reacted get_message
  looked_up-reactions emoji user_id = ground (arith, seed-reactions svc seed s)

  -- The users of an update, as a store would list them.
  abbrev IsListing : ReactionUpdateResponse → Storage → Type 0
  IsListing update t =
      (update.user_ids ≡ sort_dedup (list_reaction_users message_id update.emoji t))
      × (update.count ≡ length update.user_ids)

  listed :
      (update : ReactionUpdateResponse) (t : Storage)
      → IsListing update t
      → IsIncreasing update.user_ids
        × (update.count ≡ length update.user_ids)
        × ((user_id : Uuid)
            → member user_id update.user_ids ≡ has_reacted message_id update.emoji user_id t)
  listed update t l = (
    rw (l.0) (sort_dedup-IsIncreasing (list_reaction_users message_id update.emoji t)),
    l.1,
    λ user_id. rw (l.0) (has_reacted-list message_id update.emoji user_id t),
  )

  add_reaction-IsListing :
      (update : ReactionUpdateResponse)
      → (add_reaction svc seed context message_id input s).0 ≡ ok update
      → IsListing update (store_reaction message_id update.emoji context.user_id looked_up)
  unfolding add_reaction build_update
  add_reaction-IsListing update h = elim (ApiResult-cases (normalize_emoji input)) [
    | inr (e, bad) ↦ absurd (ground arith)
    | inl (emoji, good) ↦
        elim (ApiResult-cases (get_message svc seed context.workspace_id message_id s).0) [
          | inr (e, missing) ↦ absurd (ground arith)
          | inl (message, found) ↦ ground arith
        ]
  ]

  remove_reaction-IsListing :
      (update : ReactionUpdateResponse)
      → (remove_reaction svc seed context message_id input s).0 ≡ ok update
      → IsListing update (unstore_reaction message_id update.emoji context.user_id looked_up)
  unfolding remove_reaction build_update
  remove_reaction-IsListing update h = elim (ApiResult-cases (normalize_emoji input)) [
    | inr (e, bad) ↦ absurd (ground arith)
    | inl (emoji, good) ↦
        elim (ApiResult-cases (get_message svc seed context.workspace_id message_id s).0) [
          | inr (e, missing) ↦ absurd (ground arith)
          | inl (message, found) ↦ ground arith
        ]
  ]

  -- The update of a reaction that is added lists the users in increasing order, each once, and
  -- counts them. They are those whose reaction with this emoji was stored, and the caller.
  pub add_reaction-users :
      (update : ReactionUpdateResponse)
      → (add_reaction svc seed context message_id input s).0 ≡ ok update
      → IsIncreasing update.user_ids
        × (update.count ≡ length update.user_ids)
        × ((user_id : Uuid)
            → member user_id update.user_ids ≡ (
                if context.user_id == user_id
                then true
                else has_reacted message_id update.emoji user_id s))
  add_reaction-users update h =
      let (increasing, counted, members) = listed update _ (add_reaction-IsListing update h) in
      (
        increasing,
        counted,
        λ user_id.
            members user_id
            ∙ has_reacted-add message_id update.emoji context.user_id user_id looked_up
            ∙ rw (looked_up-reactions update.emoji user_id) refl,
      )

  -- The update of a reaction that is removed lists the users in increasing order, each once, and
  -- counts them. They are those whose reaction with this emoji was stored, without the caller.
  pub remove_reaction-users :
      (update : ReactionUpdateResponse)
      → (remove_reaction svc seed context message_id input s).0 ≡ ok update
      → IsIncreasing update.user_ids
        × (update.count ≡ length update.user_ids)
        × ((user_id : Uuid)
            → member user_id update.user_ids ≡ (
                if context.user_id == user_id
                then false
                else has_reacted message_id update.emoji user_id s))
  remove_reaction-users update h =
      let (increasing, counted, members) = listed update _ (remove_reaction-IsListing update h) in
      (
        increasing,
        counted,
        λ user_id.
            members user_id
            ∙ has_reacted-remove message_id update.emoji context.user_id user_id looked_up
            ∙ rw (looked_up-reactions update.emoji user_id) refl,
      )
