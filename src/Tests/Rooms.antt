-- ===== src/Tests/Rooms.antt =====
-- Channels, messages, reactions, uploads and the audit log.
use Prim.Native.Nat.{ℕ, ◌+◌, ◌≤◌, ◌<◌}
use mathlib.Core.Path.{◌≡◌, refl}
use mathlib.Core.Logic.{◌≢◌, ◌↔◌, inl, inr}
use mathlib.Core.Bool.{true, false}
use mathlib.Core.Option.{none, some}
use mathlib.Core.List.{List, [], ◌∷◌}
use native.Mathlib.Omega.{arith}
use galynx_api.Common.{
  ℤ, pos, ltb_ℤ, ◌+ℤ◌, ◌==◌, nat_eq, text_beq, lookup, insert, length, is_empty, if◌then◌else◌,
  member, IsIncreasing, is_some, ltb,
}
use galynx_api.Text.{Str, text, text_tests, trim}
use galynx_api.Text.Decimal.{print_ℕ}
use galynx_api.Errors.{ok, err, not_found}
use galynx_api.Storage.{
  Storage, Uuid, Stamp, MessageRecordStore, AuditEntryRecord, AttachmentRecordStore, Metadata,
  empty, new,
}
use galynx_api.Storage.Rooms.{get_message as stored_message, get_channel, is_channel_member}
use galynx_api.Storage.Files.{get_attachment as stored_attachment}
use galynx_api.Paging.{
  MessageQuery, CursorKey, page_limit, parse_cursor, format_cursor, page, newest_first,
}
use galynx_api.Paging.Cursor.{IsInRange, parse_cursor-format_cursor}
use galynx_api.Channels.{ensure_bootstrap_seed, assert_channel_access, general}
use galynx_api.Channels.Seed.{IsSeeded, ensure_bootstrap_seed_iff}
use galynx_api.Channels.Access.{CanAccess, assert_channel_access_iff}
use galynx_api.Channels.Messages.{
  delete_message, get_message, list_messages, message_page, message_key, MessageListResponse,
}
use galynx_api.Channels.Messages.PageSize.{live, list_messages-length}
use galynx_api.Paging.Size.{at_most, matching}
use galynx_api.Channels.Messages.Deletion.{CanDelete, delete_message_iff, delete_message-hides}
use galynx_api.Channels.Messages.Pages.{
  fetch_all, fetch_all_complete, live_messages, response_ids, message_ids,
}
use galynx_api.Channels.Responses.{attachment_response}
use galynx_api.Reactions.{add_reaction, remove_reaction, ReactionUpdateResponse}
use galynx_api.Reactions.Users.{has_reacted, add_reaction-users, remove_reaction-users}
use galynx_api.Audit.{audit_page, entry_key}
use galynx_api.Audit.Pages.{audit_page-page}
use galynx_api.Attachments.{PresignRequest, PresignResponse, CommitRequest, presign, commit}
use galynx_api.Attachments.Lifecycle.{IsCommitted, presign-commit, commit-takes}
use galynx_api.Tests.Data.{store, store-IsConsistent, channels, alice, the_owner, stamp, note}

member_access : CanAccess alice 11 (ensure_bootstrap_seed channels (stamp 90) store)
unfolding ensure_bootstrap_seed store lookup get_channel is_channel_member
    galynx_api.Storage.Rooms.list_channels galynx_api.Common.contains
member_access = record {
  channel = _;
  found = refl;
  same_workspace = refl;
  allowed = inr (inr refl);
}

assert_channel_access_iff_example :
    ((assert_channel_access alice 11 (ensure_bootstrap_seed channels (stamp 90) store)).0 ≡ ok tt)
    ↔ CanAccess alice 11 (ensure_bootstrap_seed channels (stamp 90) store)
assert_channel_access_iff_example =
    assert_channel_access_iff alice 11 (ensure_bootstrap_seed channels (stamp 90) store)

member_access_2 : CanAccess alice 11 (ensure_bootstrap_seed channels (stamp (90 + 2)) store)
unfolding ensure_bootstrap_seed store lookup get_channel is_channel_member
    galynx_api.Storage.Rooms.list_channels galynx_api.Common.contains
member_access_2 = record {
  channel = _;
  found = refl;
  same_workspace = refl;
  allowed = inr (inr refl);
}

in_range : (id n : ℕ) → id < 1000 → n < 1000 → IsInRange (pos n, id)
in_range id n h k = record {
  time_below = omega arith;
  time_above = omega arith;
  id_below = omega arith;
}

two_live : length (live_messages 1 11 store) ≤ 2
unfolding live_messages store newest_first galynx_api.Storage.Rooms.list_messages
two_live = omega arith

-- One message a page.
fetch_all_complete_example :
    response_ids (fetch_all channels (λ n. stamp (90 + n)) alice 11 (some 1) 3 none store)
    ≡ message_ids (live_messages 1 11 store)
unfolding store
fetch_all_complete_example =
    fetch_all_complete channels (λ n. stamp (90 + n)) alice 11 (some 1) 2 store store-IsConsistent
      (
        in_range 20 100 (omega arith) (omega arith),
        (in_range 21 200 (omega arith) (omega arith), tt),
      )
      member_access_2 two_live

abbrev one_a_page : MessageQuery
one_a_page = record { cursor = none; limit = some 1 }

abbrev first_page : MessageListResponse
first_page =
    message_page 1 one_a_page none (live channels (stamp 90) alice 11 one_a_page store)
      (ensure_bootstrap_seed channels (stamp 90) store)

listed : (list_messages channels (stamp 90) alice 11 one_a_page store).0 ≡ ok first_page
unfolding list_messages ensure_bootstrap_seed assert_channel_access store lookup get_channel
    is_channel_member galynx_api.Storage.Rooms.list_channels galynx_api.Common.contains
    galynx_api.Paging.parse_before
listed = refl

list_messages-length_example :
    let all = matching message_key none (live channels (stamp 90) alice 11 one_a_page store) in
    (length first_page.items ≡ at_most 1 all)
    × ((is_some first_page.next_cursor ≡ ltb (length first_page.items) all)
        × ((length first_page.items ≤ 100) × (1 ≤ all → 1 ≤ length first_page.items)))
unfolding galynx_api.Paging.parse_before galynx_api.Storage.Rooms.list_messages page_limit
list_messages-length_example =
    list_messages-length channels (stamp 90) alice 11 one_a_page store {before = none}
      {response = first_page} refl listed

can_delete : CanDelete alice 20 store
unfolding store lookup stored_message
can_delete = record {
  message = note 20 100;
  found = refl;
  same_workspace = refl;
  allowed = inl refl;
}

delete_message_iff_example :
    ((delete_message channels (stamp 90) (pos 300) alice 20 store).0 ≡ ok tt)
    ↔ CanDelete alice 20 store
delete_message_iff_example = delete_message_iff channels (stamp 90) (pos 300) alice 20 store

delete_message-hides_example :
    let s' = (delete_message channels (stamp 90) (pos 300) alice 20 store).1 in
    (stored_message 20 s' ≡ some (record (note 20 100) { deleted_at = some (pos 300) }))
    × ((seed' : Stamp) (workspace_id : Uuid)
        → (get_message channels seed' workspace_id 20 s').0
          ≡ err (not_found (text "message not found")))
    × ((other : Uuid) → other ≢ 20 → stored_message other s' ≡ stored_message other store)
unfolding can_delete text
delete_message-hides_example =
    delete_message-hides channels (stamp 90) (pos 300) alice 20 store store-IsConsistent can_delete

ensure_bootstrap_seed_iff_example :
    ((ensure_bootstrap_seed channels (stamp 90) new ≡ new) ↔ IsSeeded channels new)
    × (IsSeeded channels (ensure_bootstrap_seed channels (stamp 90) new)
        × (¬ IsSeeded channels new
            → get_channel 90 (ensure_bootstrap_seed channels (stamp 90) new)
              ≡ some (general channels (stamp 90))))
ensure_bootstrap_seed_iff_example = ensure_bootstrap_seed_iff channels (stamp 90) new

parse_cursor-format_cursor_example : parse_cursor (format_cursor (pos 100, 20)) ≡ inr (pos 100, 20)
parse_cursor-format_cursor_example =
    parse_cursor-format_cursor (pos 100, 20) (in_range 20 100 (omega arith) (omega arith))

abbrev thumbs : List Uuid → ReactionUpdateResponse
thumbs user_ids = record {
  message_id = 20;
  channel_id = 11;
  workspace_id = 1;
  emoji = text "up";
  count = length user_ids;
  user_ids = user_ids;
  op = text "added";
}

added : (add_reaction channels (stamp 90) alice 20 (text " up") store).0 ≡ ok (thumbs (4 ∷ []))
unfolding store add_reaction galynx_api.Storage.Rooms.add_reaction galynx_api.Common.insert_member
    text_tests galynx_api.Reactions.normalize_emoji get_message stored_message lookup
    ensure_bootstrap_seed galynx_api.Storage.Rooms.list_channels galynx_api.Reactions.build_update
    galynx_api.Channels.Responses.one_response galynx_api.Common.sort_dedup
    galynx_api.Storage.Rooms.list_reaction_users galynx_api.Common.contains galynx_api.Common.dedup
    galynx_api.Common.sort_by
added = refl

removed :
    (remove_reaction channels (stamp 90) alice 20 (text "up") store).0
    ≡ ok (record (thumbs []) { op = text "removed" })
unfolding store remove_reaction galynx_api.Storage.Rooms.remove_reaction
    galynx_api.Common.remove_member text_tests galynx_api.Reactions.normalize_emoji get_message
    stored_message lookup ensure_bootstrap_seed galynx_api.Storage.Rooms.list_channels
    galynx_api.Reactions.build_update galynx_api.Channels.Responses.one_response
    galynx_api.Common.sort_dedup galynx_api.Storage.Rooms.list_reaction_users
    galynx_api.Common.contains galynx_api.Common.dedup galynx_api.Common.sort_by
removed = refl

add_reaction-users_example :
    IsIncreasing (4 ∷ [])
    × ((thumbs (4 ∷ [])).count ≡ length (thumbs (4 ∷ [])).user_ids)
    × ((user_id : Uuid)
        → member user_id (4 ∷ [])
          ≡ (if 4 == user_id then true else has_reacted 20 (text "up") user_id store))
add_reaction-users_example =
    add_reaction-users channels (stamp 90) alice 20 (text " up") store (thumbs (4 ∷ [])) added

remove_reaction-users_example :
    IsIncreasing []
    × ((thumbs []).count ≡ length (thumbs []).user_ids)
    × ((user_id : Uuid)
        → member user_id []
          ≡ (if 4 == user_id then false else has_reacted 20 (text "up") user_id store))
remove_reaction-users_example =
    remove_reaction-users channels (stamp 90) alice 20 (text "up") store
      (record (thumbs []) { op = text "removed" }) removed

abbrev entry : Uuid → ℕ → AuditEntryRecord
entry id time = record {
  id = id;
  workspace_id = 1;
  actor_id = none;
  action = text "A";
  target_type = text "t";
  target_id = none;
  metadata = empty;
  created_at = pos time;
}

audit_page-page_example :
    (
      (audit_page 1 none (entry 30 5 ∷ entry 31 6 ∷ [])).items,
      (audit_page 1 none (entry 30 5 ∷ entry 31 6 ∷ [])).next_cursor,
    )
    ≡ page entry_key 1 none (newest_first entry_key (entry 30 5 ∷ entry 31 6 ∷ []))
audit_page-page_example =
    audit_page-page 1 none (entry 30 5 ∷ entry 31 6 ∷ []) ((λ e. ground (arith, e), tt), (tt, tt))

abbrev request : PresignRequest
request = record {
  channel_id = 11;
  filename = text " a b.txt";
  content_type = text "text/plain";
  size_bytes = 12;
}

abbrev presigned : PresignResponse
presigned = record {
  upload_id = 40;
  upload_url = text "https://storage.galynx.local/upload/40";
  bucket = text "galynx-attachments";
  key = text "workspace/1/channel/11/uploads/40-a_b.txt";
  expires_at = pos 1000;
}

presign_test : (presign print_ℕ none (pos 100) 40 alice request store).0 ≡ ok presigned
unfolding store presign trim galynx_api.Text.trim_end galynx_api.Text.trim_start text
    galynx_api.Text.is_whitespace print_ℕ galynx_api.Attachments.storage_key ◌+ℤ◌
presign_test = refl

in_time : ltb_ℤ (pos 100 +ℤ pos 900) (pos 1000) ≡ false
unfolding ◌+ℤ◌
in_time = refl

presign-commit_example :
    let (r, t) =
      commit print_ℕ none
        (pos 1000)
        41
        alice
        (record { upload_id = 40; message_id = some 20 })
        (presign print_ℕ none (pos 100) 40 alice request store).1 in
    (a : AttachmentRecordStore) × (r ≡ ok (attachment_response a))
    × (stored_attachment 41 t ≡ some a)
    × IsCommitted print_ℕ none (pos 100) 40 alice request store presigned (some 20) a
presign-commit_example =
    presign-commit print_ℕ none (pos 100) 40 alice request store presigned (pos 1000) 41 (some 20)
      presign_test in_time

-- The commit of another user fails, and takes the upload all the same.
commit-takes_example :
    (commit print_ℕ none
      (pos 120)
      43
      alice
      (record { upload_id = 40; message_id = none })
      (commit print_ℕ none
        (pos 110)
        42
        the_owner
        (record { upload_id = 40; message_id = none })
        (presign print_ℕ none (pos 100) 40 alice request store).1).1).0
    ≡ err (not_found (text "upload_id not found or already committed"))
commit-takes_example =
    commit-takes print_ℕ none (pos 110) (pos 120) 42 43 the_owner alice
      (record { upload_id = 40; message_id = none }) none
      (presign print_ℕ none (pos 100) 40 alice request store).1
