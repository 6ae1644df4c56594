-- ===== src/Channels/Messages/PageSize.antt =====
-- src/channels.rs: how many messages `list_messages` answers with.
use Prim.Native.Nat.{◌≤◌}
use mathlib.Core.Path.{◌≡◌, refl, sym, ap, ◌∙◌}
use mathlib.Core.Option.{Option}
use mathlib.Core.List.{List, [], ◌∷◌, map}
use native.Mathlib.Omega.{arith}
use galynx_api.Common.{ltb, length, filter, is_some}
use galynx_api.Errors.{ok}
use galynx_api.Auth.Context.{AuthContext}
use galynx_api.Storage.{Storage, Uuid, Stamp, MessageRecordStore}
use galynx_api.Storage.Rooms.{list_messages as stored_messages}
use galynx_api.Paging.{CursorKey, MessageQuery, page_limit, parse_before}
use galynx_api.Paging.Size.{at_most, matching, page-length}
use galynx_api.Paging.Walk.{page_limit_bounds}
use galynx_api.Channels.{ChannelService, ensure_bootstrap_seed}
use galynx_api.Channels.Responses.{message_responses_with_attachments}
use galynx_api.Channels.Access.{assert_channel_access-state}
use galynx_api.Channels.Messages.{
  MessageListResponse, message_key, message_page, in_channel, list_messages,
}

length-map : {A B : Type 0} (f : A → B) (xs : List A) → length (map f xs) ≡ length xs
length-map f [] = refl
length-map f (x ∷ xs) = ground (arith, length-map f xs)

message_page-length :
    (workspace_id : Uuid) (query : MessageQuery) (before : Option CursorKey)
    (messages : List MessageRecordStore) (s : Storage)
    → (length (message_page workspace_id query before messages s).items
        ≡ at_most (page_limit query.limit) (matching message_key before messages))
      × (is_some (message_page workspace_id query before messages s).next_cursor
          ≡ ltb (page_limit query.limit) (matching message_key before messages))
unfolding message_page message_responses_with_attachments
message_page-length workspace_id query before messages s =
    let (count, next) =
      page-length message_key (page_limit query.limit) before messages
        (page_limit_bounds query.limit).0 in
    (length-map _ _ ∙ count, next)

module _ (svc : ChannelService) (seed : Stamp) (context : AuthContext) (channel_id : Uuid)
    (query : MessageQuery) (s : Storage) where
  -- The messages of the channel that are not deleted.
  abbrev pub live : List MessageRecordStore
  live =
      filter (in_channel channel_id)
        (stored_messages context.workspace_id (ensure_bootstrap_seed svc seed s))

  -- What is answered is the page.
  answered :
      {before : Option CursorKey} {response : MessageListResponse}
      → parse_before query.cursor ≡ ok before
      → (list_messages svc seed context channel_id query s).0 ≡ ok response
      → message_page context.workspace_id query before live (ensure_bootstrap_seed svc seed s)
        ≡ response
  unfolding list_messages
  answered parsed h =
      ground
        (arith, assert_channel_access-state context channel_id (ensure_bootstrap_seed svc seed s))

  -- If `list_messages` succeeds, the answer has as many messages as there are to show before the
  -- cursor in the channel, up to the limit that is asked for, or 50, and up to 100, at least one
  -- where there are any, and a cursor for the next page exactly where there are more than it has.
  pub list_messages-length :
      {before : Option CursorKey} {response : MessageListResponse}
      → parse_before query.cursor ≡ ok before
      → (list_messages svc seed context channel_id query s).0 ≡ ok response
      → (length response.items
          ≡ at_most (page_limit query.limit) (matching message_key before live))
        × ((is_some response.next_cursor
              ≡ ltb (length response.items) (matching message_key before live))
            × ((length response.items ≤ 100)
                × (1 ≤ matching message_key before live → 1 ≤ length response.items)))
  list_messages-length {before} {response} parsed h =
      let (count, next) =
        message_page-length context.workspace_id query before live
          (ensure_bootstrap_seed svc seed s) in
      let (low, high) = page_limit_bounds query.limit in
      let count' : length response.items
          ≡ at_most (page_limit query.limit) (matching message_key before live) =
        ap (λ r. length r.items) (sym (answered parsed h)) ∙ count in
      let next' : is_some response.next_cursor
          ≡ ltb (page_limit query.limit) (matching message_key before live) =
        ap (λ r. is_some r.next_cursor) (sym (answered parsed h)) ∙ next in
      (
        count',
        (
          next' ∙ ground (arith, count'),
          (ground (arith, count', high), λ any. ground (arith, count', low, any)),
        ),
      )
