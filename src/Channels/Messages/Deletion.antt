-- ===== src/Channels/Messages/Deletion.antt =====
-- Deleting a message hides it, and only those whom the rules name can do it.
use mathlib.Core.Path.{◌≡◌, refl, ap}
use mathlib.Core.Logic.{◌⊎◌, ◌↔◌, ◌≢◌, inl, inr}
use mathlib.Core.Bool.{true}
use mathlib.Core.Option.{some}
use native.Mathlib.Omega.{arith}
use galynx_api.Common.{ℤ, ◌==◌, ==_refl, nat_eq, if◌then◌else◌, Option-cases, IsTable-lookup}
use galynx_api.Text.{text}
use galynx_api.Errors.{ApiResult, ok, err, not_found}
use galynx_api.Auth.Context.{AuthContext, is_manager}
use galynx_api.Storage.{Storage, Uuid, Stamp, MessageRecordStore}
use galynx_api.Storage.Rooms.{get_message as stored_message, update_message as store_update}
use galynx_api.Storage.Lookups.{get_message-update_message}
use galynx_api.Storage.Consistency.{IsConsistent}
use galynx_api.Channels.{ChannelService, ensure_bootstrap_seed}
use galynx_api.Channels.Seed.{seed-get_message}
use galynx_api.Channels.Messages.{delete_message, get_message}

-- The message is stored in the caller's workspace, and the caller wrote it or manages the
-- workspace.
pub record CanDelete (context : AuthContext) (message_id : Uuid) (s : Storage) : Type 0 where
  pub message : MessageRecordStore
  pub found : stored_message message_id s ≡ some message
  pub same_workspace : message.workspace_id ≡ context.workspace_id
  pub allowed : (message.sender_id ≡ context.user_id) ⊎ (is_manager context.role ≡ true)

abbrev deleted : ℤ → MessageRecordStore → MessageRecordStore
deleted now m = record m { deleted_at = some now }

-- A deleted message is answered as one that is not there.
get_message_of_deleted :
    (svc : ChannelService) (seed : Stamp) (workspace_id message_id : Uuid) (s : Storage)
    {m : MessageRecordStore} {t : ℤ}
    → stored_message message_id s ≡ some m
    → m.deleted_at ≡ some t
    → (get_message svc seed workspace_id message_id s).0
      ≡ err (not_found (text "message not found"))
unfolding get_message
get_message_of_deleted svc seed workspace_id message_id s found gone =
    ground (arith, seed-get_message svc seed s message_id)

stored_id :
    (id : Uuid) (s : Storage) {m : MessageRecordStore}
    → IsConsistent s
    → stored_message id s ≡ some m
    → m.id ≡ id
unfolding stored_message
stored_id id s h found = IsTable-lookup _ id s.messages h.messages found

module _ (svc : ChannelService) (seed : Stamp) (now : ℤ) (context : AuthContext) (message_id : Uuid)
    (s : Storage) where
  CanDelete-of_ok :
      (delete_message svc seed now context message_id s).0 ≡ ok tt → CanDelete context message_id s
  unfolding delete_message
  CanDelete-of_ok h = elim (Option-cases (stored_message message_id s)) [
    | inl missing ↦ absurd (ground (arith, seed-get_message svc seed s message_id))
    | inr (m, found) ↦ record {
      message = m;
      found = found;
      same_workspace = ground (arith, seed-get_message svc seed s message_id);
      allowed = ground (arith, seed-get_message svc seed s message_id);
    }
  ]

  -- What a deletion does where it is allowed.
  pub delete_message-of_CanDelete :
      (a : CanDelete context message_id s)
      → delete_message svc seed now context message_id s
        ≡ (ok tt, store_update (deleted now a.message) (ensure_bootstrap_seed svc seed s))
  unfolding delete_message
  delete_message-of_CanDelete a = ground (arith, seed-get_message svc seed s message_id)

  -- `delete_message` succeeds exactly for a stored message of the caller's workspace that the
  -- caller wrote, or for a caller who is owner or admin.
  pub delete_message_iff :
      ((delete_message svc seed now context message_id s).0 ≡ ok tt)
      ↔ CanDelete context message_id s
  delete_message_iff = (
    CanDelete-of_ok,
    λ a. ap (λ (r : ApiResult (Unit {0}) × Storage). r.0) (delete_message-of_CanDelete a),
  )

  deleted_stored :
      (other : Uuid)
      → IsConsistent s
      → (a : CanDelete context message_id s)
      → stored_message other (delete_message svc seed now context message_id s).1
        ≡ (if message_id == other then some (deleted now a.message) else stored_message other s)
  deleted_stored other h a = rw (
    delete_message-of_CanDelete a,
    get_message-update_message other (ensure_bootstrap_seed svc seed s) (deleted now a.message),
    seed-get_message svc seed s other,
    stored_id message_id s h a.found,
  )

  -- In a consistent store, after a deletion that succeeded, the message is stored with the time
  -- of deletion and nothing else changed in it, it is found no more by `get_message`, whatever
  -- the workspace asked for, and every other message is stored as before.
  pub delete_message-hides :
      IsConsistent s
      → (a : CanDelete context message_id s)
      → let s' = (delete_message svc seed now context message_id s).1 in
        (stored_message message_id s' ≡ some (record (a.message) { deleted_at = some now }))
        × ((seed' : Stamp) (workspace_id : Uuid)
            → (get_message svc seed' workspace_id message_id s').0
              ≡ err (not_found (text "message not found")))
        × ((other : Uuid) → other ≢ message_id → stored_message other s' ≡ stored_message other s)
  delete_message-hides h a =
      let s' = (delete_message svc seed now context message_id s).1 in
      let gone : stored_message message_id s' ≡ some (deleted now a.message) =
        rw (deleted_stored message_id h a, ==_refl message_id) in
      (
        gone,
        λ seed' workspace_id. get_message_of_deleted svc seed' workspace_id message_id s' gone refl,
        λ other ne. ground (arith, deleted_stored other h a),
      )
