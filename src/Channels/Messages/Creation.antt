-- ===== src/Channels/Messages/Creation.antt =====
-- A message that is written is read back, and only its sender can edit it.
use mathlib.Core.Path.{◌≡◌, refl, ap, ◌∙◌, sym}
use mathlib.Core.Logic.{◌↔◌, ◌≢◌, inl, inr}
use mathlib.Core.Bool.{true, false}
use mathlib.Core.Option.{none, some}
use native.Mathlib.Omega.{arith}
use galynx_api.Common.{
  ℤ, ◌==◌, ==_refl, nat_eq, if◌then◌else◌, Option-cases, is_empty, IsTable-lookup,
}
use galynx_api.Text.{Str, trim}
use galynx_api.Errors.{ApiResult, ok, is_ok, ApiResult-cases}
use galynx_api.Auth.Context.{AuthContext}
use galynx_api.Storage.{Storage, Uuid, Stamp, MessageRecordStore}
use galynx_api.Storage.Rooms.{
  get_message as stored_message, update_message as store_update, insert_message,
}
use galynx_api.Storage.Files.{list_attachments_for_messages}
use galynx_api.Storage.Lookups.{get_message-update_message, get_message-insert_message}
use galynx_api.Storage.Consistency.{IsConsistent}
use galynx_api.Channels.{ChannelService, ensure_bootstrap_seed, assert_channel_access}
use galynx_api.Channels.Access.{assert_channel_access-state}
use galynx_api.Channels.Seed.{seed-get_message, seed-attachments}
use galynx_api.Channels.Responses.{
  MessageResponse, one_response, message_responses_with_attachments,
}
use galynx_api.Channels.Messages.{create_message, update_message, get_message}

-- A response depends on the attachments alone.
one_response-attachments :
    (workspace_id : Uuid) (m : MessageRecordStore) (s t : Storage)
    → s.attachments ≡ t.attachments
    → one_response workspace_id m s ≡ one_response workspace_id m t
unfolding one_response message_responses_with_attachments list_attachments_for_messages
one_response-attachments workspace_id m s t same = rw same

insert_message-attachments :
    (m : MessageRecordStore) (s : Storage) → (insert_message m s).attachments ≡ s.attachments
unfolding insert_message
insert_message-attachments m s = refl

-- A live message of the workspace is answered.
pub get_message-found :
    (svc : ChannelService) (seed : Stamp) (workspace_id message_id : Uuid) (s : Storage)
    (m : MessageRecordStore)
    → stored_message message_id s ≡ some m
    → m.workspace_id ≡ workspace_id
    → m.deleted_at ≡ none
    → (get_message svc seed workspace_id message_id s).0 ≡ ok (one_response workspace_id m s)
unfolding get_message
get_message-found svc seed workspace_id message_id s m found here live = ground (
  arith,
  seed-get_message svc seed s message_id,
  one_response-attachments workspace_id m (ensure_bootstrap_seed svc seed s) s
      (seed-attachments svc seed s),
)

module _ (svc : ChannelService) (seed stamp : Stamp) (context : AuthContext) (channel_id : Uuid)
    (body_md : Str) (s : Storage) where
  -- The message that is stored.
  abbrev pub written : MessageRecordStore
  written = record {
    id = stamp.uuid;
    workspace_id = context.workspace_id;
    channel_id = channel_id;
    sender_id = context.user_id;
    body_md = trim body_md;
    thread_root_id = none;
    created_at = stamp.time;
    edited_at = none;
    deleted_at = none;
  }

  abbrev pub seeded : Storage
  seeded = ensure_bootstrap_seed svc seed s

  pub create_message-ok :
      (response : MessageResponse)
      → (create_message svc seed stamp context channel_id body_md s).0 ≡ ok response
      → ((create_message svc seed stamp context channel_id body_md s).1
          ≡ insert_message written seeded)
        × (response ≡ one_response context.workspace_id written seeded)
        × ((assert_channel_access context channel_id seeded).0 ≡ ok tt)
        × (is_empty (trim body_md) ≡ false)
  unfolding create_message
  create_message-ok response h =
      elim (ApiResult-cases (assert_channel_access context channel_id seeded).0) [
        | inl (u, passed) ↦ ground (arith, assert_channel_access-state context channel_id seeded)
        | inr (e, refused) ↦
            absurd (ground (arith, assert_channel_access-state context channel_id seeded))
      ]

  pub create_message-stored :
      (response : MessageResponse)
      → (create_message svc seed stamp context channel_id body_md s).0 ≡ ok response
      → (stored_message stamp.uuid (create_message svc seed stamp context channel_id body_md s).1
          ≡ some written)
        × (response.id ≡ stamp.uuid)
  create_message-stored response h =
      let (stored, answer, passed, filled) = create_message-ok response h in
      (
        rw (stored, get_message-insert_message stamp.uuid seeded written, ==_refl stamp.uuid) refl,
        rw answer (unfold one_response message_responses_with_attachments in refl),
      )

  -- After a `create_message` that succeeded, `get_message` answers the same response for the
  -- identifier that was drawn, in the caller's workspace and whatever a later seed draws. The
  -- response has that identifier, the caller as sender and the text with its ends trimmed, which is not empty.
  -- Every message with another identifier is stored as before.
  pub create_message-get :
      (response : MessageResponse)
      → (create_message svc seed stamp context channel_id body_md s).0 ≡ ok response
      → let t = (create_message svc seed stamp context channel_id body_md s).1 in
        ((later : Stamp)
          → (get_message svc later context.workspace_id stamp.uuid t).0 ≡ ok response)
        × (response.id ≡ stamp.uuid)
        × (response.sender_id ≡ context.user_id)
        × (response.body_md ≡ trim body_md)
        × (is_empty response.body_md ≡ false)
        × ((other : Uuid) → stamp.uuid ≢ other → stored_message other t ≡ stored_message other s)
  create_message-get response h =
      let (stored, answer, passed, filled) = create_message-ok response h in
      let t = (create_message svc seed stamp context channel_id body_md s).1 in
      let found : stored_message stamp.uuid t ≡ some written =
        (create_message-stored response h).0 in
      (
        λ later.
            get_message-found svc later context.workspace_id stamp.uuid t written found refl refl
            ∙ ap ok (
                one_response-attachments context.workspace_id written t seeded
                  (rw stored (insert_message-attachments written seeded))
                ∙ sym answer),
        rw answer (unfold one_response message_responses_with_attachments in refl),
        rw answer (unfold one_response message_responses_with_attachments in refl),
        rw answer (unfold one_response message_responses_with_attachments in refl),
        rw answer (unfold one_response message_responses_with_attachments in filled),
        λ other ne.
            rw (stored, get_message-insert_message other seeded written)
              (ground (arith, seed-get_message svc seed s other)),
      )

-- The message is stored in the caller's workspace, the caller wrote it, and the text is not blank.
pub record CanEdit (context : AuthContext) (message_id : Uuid) (body_md : Str) (s : Storage)
    : Type 0 where
  pub message : MessageRecordStore
  pub found : stored_message message_id s ≡ some message
  pub same_workspace : message.workspace_id ≡ context.workspace_id
  pub own : message.sender_id ≡ context.user_id
  pub filled : is_empty (trim body_md) ≡ false

module _ (svc : ChannelService) (seed : Stamp) (now : ℤ) (context : AuthContext) (message_id : Uuid)
    (body_md : Str) (s : Storage) where
  abbrev edited : MessageRecordStore → MessageRecordStore
  edited m = record m { body_md = trim body_md; edited_at = some now }

  CanEdit-of_ok :
      is_ok (update_message svc seed now context message_id body_md s).0 ≡ true
      → CanEdit context message_id body_md s
  unfolding update_message
  CanEdit-of_ok h = elim (Option-cases (stored_message message_id s)) [
    | inl missing ↦ absurd (ground (arith, seed-get_message svc seed s message_id))
    | inr (m, found) ↦ record {
      message = m;
      found = found;
      same_workspace = ground (arith, seed-get_message svc seed s message_id);
      own = ground (arith, seed-get_message svc seed s message_id);
      filled = ground arith;
    }
  ]

  update_message-of_CanEdit :
      (a : CanEdit context message_id body_md s)
      → update_message svc seed now context message_id body_md s ≡ (
        ok (
            one_response context.workspace_id
              (edited a.message)
              (store_update (edited a.message) (ensure_bootstrap_seed svc seed s))),
        store_update (edited a.message) (ensure_bootstrap_seed svc seed s),
      )
  unfolding update_message
  update_message-of_CanEdit a = ground (arith, seed-get_message svc seed s message_id)

  -- `update_message` succeeds exactly where the message is stored in the caller's workspace, the
  -- caller is its sender, and the text is not blank; a message that was deleted is no exception.
  pub update_message_iff :
      (is_ok (update_message svc seed now context message_id body_md s).0 ≡ true)
      ↔ CanEdit context message_id body_md s
  update_message_iff = (
    CanEdit-of_ok,
    λ a. ap (λ (r : ApiResult MessageResponse × Storage). is_ok r.0) (update_message-of_CanEdit a),
  )

  -- In a consistent store, an edit that succeeds stores the text with its ends trimmed and the
  -- time of the edit, keeps every other field of the message, its deletion included, and every
  -- other message.
  pub update_message-stores :
      IsConsistent s
      → (a : CanEdit context message_id body_md s)
      → let t = (update_message svc seed now context message_id body_md s).1 in
        (stored_message message_id t
          ≡ some (record (a.message) { body_md = trim body_md; edited_at = some now }))
        × ((other : Uuid) → message_id ≢ other → stored_message other t ≡ stored_message other s)
  update_message-stores h a =
      (stored message_id ∙ rw (==_refl message_id) refl, λ other ne. stored other ∙ ground arith)
    where
      stored :
          (other : Uuid)
          → stored_message other (update_message svc seed now context message_id body_md s).1
            ≡ (if message_id == other then some (edited a.message) else stored_message other s)
      stored other =
          rw
            (
              update_message-of_CanEdit a,
              get_message-update_message other (ensure_bootstrap_seed svc seed s)
                  (edited a.message),
              seed-get_message svc seed s other,
              IsTable-lookup _ message_id {v = a.message} s.messages h.messages
                  (unfold stored_message in a.found),
            )
            refl
