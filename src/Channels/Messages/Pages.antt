-- ===== src/Channels/Messages/Pages.antt =====
-- The pages of a channel put together are its live messages, newest first.
use Prim.Native.Nat.{ℕ, zero, suc, ◌≤◌}
use mathlib.Core.Path.{◌≡◌, refl, ap, ◌∙◌}
use mathlib.Core.Logic.{◌≢◌, inl, inr}
use mathlib.Core.Bool.{true}
use mathlib.Core.Option.{Option, none, some}
use mathlib.Core.List.{List, [], ◌∷◌, ◌++◌, map, map-append}
use native.Mathlib.Omega.{arith}
use galynx_api.Common.{
  nat_eq, Option-cases, filter, length, All, All-map_pred, All-filter, values, HasDistinctIds,
  values-HasDistinctIds,
}
use galynx_api.Text.{Str}
use galynx_api.Errors.{ApiError, ApiResult, ok, err, ApiResult-cases}
use galynx_api.Auth.Context.{AuthContext}
use galynx_api.Storage.{Storage, Uuid, Stamp, MessageRecordStore}
use galynx_api.Storage.Rooms.{list_messages as stored_messages}
use galynx_api.Storage.Consistency.{IsConsistent}
use galynx_api.Paging.{CursorKey, MessageQuery, page_limit, parse_before, newest_first, page}
use galynx_api.Paging.Order.{
  IsDescending, HasDistinctKeys, HasDistinctKeys-filter, newest_first-IsDescending,
  newest_first-All,
}
use galynx_api.Paging.Cursor.{IsInRange}
use galynx_api.Paging.Walk.{
  walk, walk_last, walk_more, walk_refused, walk-filter, page_limit_bounds,
}
use galynx_api.Channels.{ChannelService, ensure_bootstrap_seed}
use galynx_api.Channels.Access.{CanAccess, assert_channel_access-of_CanAccess}
use galynx_api.Channels.Seed.{seed-messages, seed_idem, seed-IsConsistent}
use galynx_api.Channels.Responses.{
  MessageResponse, AttachmentResponse, message_response_with, message_responses_with_attachments,
}
use galynx_api.Channels.Messages.{
  list_messages, MessageListResponse, message_page, message_key, in_channel,
}

abbrev pub response_ids : List MessageResponse → List Uuid
response_ids = map (λ (r : MessageResponse). r.id)

abbrev pub message_ids : List MessageRecordStore → List Uuid
message_ids = map (λ (m : MessageRecordStore). m.id)

-- The live messages of a channel, newest first.
unfoldable pub live_messages : Uuid → Uuid → Storage → List MessageRecordStore
live_messages workspace_id channel_id s =
    newest_first message_key (filter (in_channel channel_id) (stored_messages workspace_id s))

response_ids-map :
    (f : MessageRecordStore → List AttachmentResponse) (ms : List MessageRecordStore)
    → response_ids (map (λ (m : MessageRecordStore). message_response_with (f m) m) ms)
      ≡ message_ids ms
response_ids-map f [] = refl
response_ids-map f (m ∷ ms) = ap (◌∷◌ m.id) (response_ids-map f ms)

pair_of : {A B : Type 0} (p : A × B) {b : B} → p.1 ≡ b → p ≡ (p.0, b)
pair_of p h = cc

keys_of_ids :
    (ms : List MessageRecordStore)
    → HasDistinctIds (λ (m : MessageRecordStore). m.id) ms
    → HasDistinctKeys message_key ms
keys_of_ids [] h = tt
keys_of_ids (m ∷ ms) h = (
  All-map_pred {P = λ (w : MessageRecordStore). m.id ≢ w.id}
      {Q = λ (w : MessageRecordStore). message_key m ≢ message_key w}
      (λ w ne e. ne (ap (λ (k : CursorKey). k.1) e)) ms h.0,
  keys_of_ids ms h.1,
)

filter-true : {A : Type 0} (xs : List A) → filter (λ _. true) xs ≡ xs
filter-true [] = refl
filter-true (x ∷ xs) = ap (◌∷◌ x) (filter-true xs)

parse_before-none : parse_before none ≡ ok none
unfolding parse_before
parse_before-none = refl

module _ (workspace_id channel_id : Uuid) (s : Storage) where
  live_messages-IsDescending :
      IsConsistent s → IsDescending message_key (live_messages workspace_id channel_id s)
  unfolding live_messages stored_messages
  live_messages-IsDescending h = newest_first-IsDescending message_key _ (
      HasDistinctKeys-filter message_key (in_channel channel_id) _ (
        HasDistinctKeys-filter message_key _ (values s.messages)
          (keys_of_ids (values s.messages) (values-HasDistinctIds _ s.messages h.messages))))

  -- What holds of every stored message holds of those listed, and these are live messages of the
  -- channel and the workspace.
  live_messages-All :
      (P : MessageRecordStore → Type 0)
      → All P (values s.messages)
      → All P (live_messages workspace_id channel_id s)
  unfolding live_messages stored_messages
  live_messages-All P h =
      newest_first-All message_key P _
        (All-filter P (in_channel channel_id) _ (All-filter P _ (values s.messages) h))

live_messages-seed :
    (svc : ChannelService) (seed : Stamp) (workspace_id channel_id : Uuid) (s : Storage)
    → live_messages workspace_id channel_id (ensure_bootstrap_seed svc seed s)
      ≡ live_messages workspace_id channel_id s
unfolding live_messages stored_messages
live_messages-seed svc seed workspace_id channel_id s = rw (seed-messages svc seed s)

module _ (svc : ChannelService) (seeds : ℕ → Stamp) (context : AuthContext) (channel_id : Uuid)
    (limit : Option ℕ) where
  abbrev query : Option Str → MessageQuery
  query cursor = record { cursor = cursor; limit = limit }

  abbrev go_on :
      (Option Str → Storage → List MessageResponse)
      → ApiResult MessageListResponse × Storage
      → List MessageResponse
  go_on next (r, s') = elim r [
    | err e ↦ []
    | ok p ↦ elim p.next_cursor [ none ↦ p.items | some c ↦ p.items ++ next (some c) s' ]
  ]

  -- A client that asks for a page and follows `next_cursor` until there is none; a refusal ends
  -- it. Each call has its own draws, and the state that the call before it left.
  pub fetch_all : ℕ → Option Str → Storage → List MessageResponse
  fetch_all zero cursor s = []
  fetch_all (suc f) cursor s =
      go_on (fetch_all f) (list_messages svc (seeds f) context channel_id (query cursor) s)

  list_messages-granted :
      (seed : Stamp) (cursor : Option Str) {before : Option CursorKey} (s : Storage)
      → ensure_bootstrap_seed svc seed s ≡ s
      → CanAccess context channel_id s
      → parse_before cursor ≡ ok before
      → list_messages svc seed context channel_id (query cursor) s ≡ (
        ok (
            message_page context.workspace_id
              (query cursor)
              before
              (filter (in_channel channel_id) (stored_messages context.workspace_id s))
              s),
        s,
      )
  unfolding list_messages
  list_messages-granted seed cursor s seeded access parsed =
      ground (arith, assert_channel_access-of_CanAccess context channel_id s access)

  list_messages-refused :
      (seed : Stamp) (cursor : Option Str) (s : Storage) {e : ApiError}
      → ensure_bootstrap_seed svc seed s ≡ s
      → CanAccess context channel_id s
      → parse_before cursor ≡ err e
      → list_messages svc seed context channel_id (query cursor) s ≡ (err e, s)
  unfolding list_messages
  list_messages-refused seed cursor s seeded access parsed =
      ground (arith, assert_channel_access-of_CanAccess context channel_id s access)

  fetch_all-refused :
      (f : ℕ) (c : Str) (s : Storage) {e : ApiError}
      → ((seed : Stamp) → ensure_bootstrap_seed svc seed s ≡ s)
      → CanAccess context channel_id s
      → parse_before (some c) ≡ err e
      → fetch_all f (some c) s ≡ []
  unfolding fetch_all
  fetch_all-refused zero c s seeded access parsed = refl
  fetch_all-refused (suc f) c s seeded access parsed =
      ground (arith, list_messages-refused (seeds f) (some c) s (seeded (seeds f)) access parsed)

  response_ids-page :
      (messages : List MessageRecordStore) (s : Storage)
      → response_ids (message_responses_with_attachments context.workspace_id messages s)
        ≡ message_ids messages
  unfolding message_responses_with_attachments
  response_ids-page messages s = response_ids-map _ messages

  -- One call of the client, by how its page ends.
  abbrev page_of : Option CursorKey → Storage → List MessageRecordStore × Option Str
  page_of before s =
      page message_key (page_limit limit) before (live_messages context.workspace_id channel_id s)

  list_messages-page :
      (seed : Stamp) (cursor : Option Str) {before : Option CursorKey} (s : Storage)
      → ensure_bootstrap_seed svc seed s ≡ s
      → CanAccess context channel_id s
      → parse_before cursor ≡ ok before
      → list_messages svc seed context channel_id (query cursor) s ≡ (
        ok (record {
          items = message_responses_with_attachments context.workspace_id (page_of before s).0 s;
          next_cursor = (page_of before s).1;
        }),
        s,
      )
  unfolding message_page live_messages
  list_messages-page seed cursor s seeded access parsed =
      list_messages-granted seed cursor s seeded access parsed

  fetch_all-last :
      (f : ℕ) (cursor : Option Str) {before : Option CursorKey} (s : Storage)
      → ensure_bootstrap_seed svc (seeds f) s ≡ s
      → CanAccess context channel_id s
      → parse_before cursor ≡ ok before
      → (page_of before s).1 ≡ none
      → fetch_all (suc f) cursor s
        ≡ message_responses_with_attachments context.workspace_id (page_of before s).0 s
  unfolding fetch_all
  fetch_all-last f cursor s seeded access parsed last =
      ground (arith, list_messages-page (seeds f) cursor s seeded access parsed)

  fetch_all-more :
      (f : ℕ) (cursor : Option Str) {before : Option CursorKey} (s : Storage) {c : Str}
      → ensure_bootstrap_seed svc (seeds f) s ≡ s
      → CanAccess context channel_id s
      → parse_before cursor ≡ ok before
      → (page_of before s).1 ≡ some c
      → fetch_all (suc f) cursor s
        ≡ message_responses_with_attachments context.workspace_id (page_of before s).0 s
          ++ fetch_all f (some c) s
  unfolding fetch_all
  fetch_all-more f cursor s seeded access parsed more =
      ground (arith, list_messages-page (seeds f) cursor s seeded access parsed)

  -- The client's calls and the walk through the sorted list go in step.
  fetch_all-walk :
      (f : ℕ) (cursor : Option Str) {before : Option CursorKey} (s : Storage)
      → ((seed : Stamp) → ensure_bootstrap_seed svc seed s ≡ s)
      → CanAccess context channel_id s
      → parse_before cursor ≡ ok before
      → response_ids (fetch_all f cursor s)
        ≡ message_ids (
            walk message_key f
              (page_limit limit)
              (live_messages context.workspace_id channel_id s)
              before)
  fetch_all-walk zero cursor s seeded access parsed = unfold fetch_all walk in refl
  fetch_all-walk (suc f) cursor {before} s seeded access parsed =
      elim (Option-cases (page_of before s).1) [
        | inl last ↦ rw (
          fetch_all-last f cursor s (seeded (seeds f)) access parsed last,
          response_ids-page (page_of before s).0 s,
          walk_last message_key f (page_limit limit) _ before (pair_of (page_of before s) last),
        )
        | inr (c, more) ↦
            rw
              (
                fetch_all-more f cursor s (seeded (seeds f)) access parsed more,
                map-append,
                response_ids-page (page_of before s).0 s,
              )
              (elim (ApiResult-cases (parse_before (some c))) [
                | inl (next, e) ↦ rw (
                  fetch_all-walk f (some c) s seeded access e,
                  walk_more message_key f (page_limit limit) _ before
                      (pair_of (page_of before s) more) e,
                  map-append,
                )
                | inr (e, refused) ↦ rw (
                  fetch_all-refused f c s seeded access refused,
                  walk_refused message_key f (page_limit limit) _ before
                      (pair_of (page_of before s) more) refused,
                  map-append,
                )
              ])
      ]

  list_messages-seeded :
      (seed : Stamp) (cursor : Option Str) (s : Storage)
      → list_messages svc seed context channel_id (query cursor) s
        ≡ list_messages svc seed context channel_id
            (query cursor)
            (ensure_bootstrap_seed svc seed s)
  unfolding list_messages
  list_messages-seeded seed cursor s = rw (seed_idem svc seed seed s, list_messages)

  fetch_all-seeded :
      (f : ℕ) (cursor : Option Str) (s : Storage)
      → fetch_all (suc f) cursor s
        ≡ fetch_all (suc f) cursor (ensure_bootstrap_seed svc (seeds f) s)
  unfolding fetch_all
  fetch_all-seeded f cursor s = ap (go_on (fetch_all f)) (list_messages-seeded (seeds f) cursor s)

  -- Let a client follow the cursors of `list_messages` from the first page, at any limit, in a
  -- consistent store where all times and identifiers are in the range of their types, and let it
  -- have access to the channel. If it makes more calls than there are live messages in the
  -- channel, it receives each of them once, newest first, and nothing else.
  pub fetch_all_complete :
      (f : ℕ) (s : Storage)
      → IsConsistent s
      → All (λ (m : MessageRecordStore). IsInRange (message_key m)) (values s.messages)
      → CanAccess context channel_id (ensure_bootstrap_seed svc (seeds f) s)
      → length (live_messages context.workspace_id channel_id s) ≤ f
      → response_ids (fetch_all (suc f) none s)
        ≡ message_ids (live_messages context.workspace_id channel_id s)
  fetch_all_complete f s h range access enough =
      let s' = ensure_bootstrap_seed svc (seeds f) s in
      let all = live_messages context.workspace_id channel_id s' in
      let walked : walk message_key (suc f) (page_limit limit) all none ≡ all =
        walk-filter message_key (suc f) (page_limit limit) all none (page_limit_bounds limit).0
          (live_messages-IsDescending context.workspace_id channel_id s'
            (seed-IsConsistent svc (seeds f) s h))
          (live_messages-All context.workspace_id channel_id s' _
            (rw (seed-messages svc (seeds f) s) range))
          (rw (filter-true all, live_messages-seed svc (seeds f) context.workspace_id channel_id s)
            (omega arith))
        ∙ filter-true all in
      rw (
        fetch_all-seeded f none s,
        fetch_all-walk (suc f) none s' (λ again. seed_idem svc (seeds f) again s) access
            (parse_before-none),
        walked,
        live_messages-seed svc (seeds f) context.workspace_id channel_id s,
      )
