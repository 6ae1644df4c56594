-- ===== src/Lib.antt =====
-- galynx-api, the server of a team chat: workspaces with users, channels, messages with threads,
-- reactions and attachments, over HTTP and websockets.
--
-- The server is a set of services that share one storage. A request is authenticated by the
-- auth service (src/auth.rs), counted by the rate limiter (src/rate_limit.rs), handed to a
-- service, written to the audit log (src/audit.rs) and published by the hub (src/realtime.rs).
-- Each service is a set of functions of type `Action S A`: they take the state `S`, which is the
-- storage or the part of the server that the service owns, and answer with a result or an
-- `ApiError` and the state that is left. What a call draws (identifiers, random tokens, the clock)
-- is an argument, and so is what a library computes (hashes, signatures, the parsing of JSON, the
-- links of the object storage, the printing of identifiers). The driver of the database and the
-- server that the client talks to are arguments with laws.
--
-- The files, and what they model:
--   Common     lists, maps, sorting and Boolean tests of the standard library
--   Text       `str`: trimming, lowering, splitting, decimal numbers
--   Errors     src/errors.rs; `Action`; Errors/Keeping: what an action keeps of its state
--   Storage    src/storage.rs with the memory backend (`mongo: None`): one function for each
--              function there, in Accounts, Rooms, Files and Commands; Lookups and Consistency
--              are lemmas and the invariant that every record stands under its identifier
--   Mongo      src/storage.rs with the MongoDB backend: Records, Users and Commands: the documents,
--              and with Tables the functions on records that are read under a key; RoundTrip,
--              Views, Refines, Steps and Refinement: theorems on the collections whose indexes
--              are neither unique nor expire documents, and on their operations of Ops
--   Paging     the cursors and pages of src/channels.rs and src/audit.rs
--   Auth       Context: roles (src/auth.rs, src/users.rs, src/workspaces.rs, src/audit.rs);
--              Records and Service: `AuthService`; Sessions, Revocation, Lifecycle and Reuse:
--              refresh tokens; AccessToken: what the token of a login is accepted as
--   RateLimit  src/rate_limit.rs; Window and ClientIp: its theorems
--   Channels   src/channels.rs, `ChannelService`: channels and members; Messages, Threads,
--              Responses; Access, Seed, Removal, Messages/Creation, Messages/Deletion,
--              Messages/Pages and Messages/PageSize: theorems
--   Reactions, Attachments, Users, Workspaces, Audit   the service of src/reactions.rs,
--              src/attachments.rs, src/users.rs, src/workspaces.rs and src/audit.rs, and
--              theorems in a module below it
--   Realtime   src/realtime.rs: the hub and the idempotence keys; Commands:
--              `handle_client_text`; Dedup, Once and Resend: repeated commands; Hub: the
--              bridge
--   Client     the client of src/bin/galynx.rs: the role of a new user; Requests: what it sends;
--              Renewal: theorems
--   Http       the handlers: Rooms and Messages (src/channels.rs, src/threads.rs), Sessions
--              (src/auth.rs), Accounts (src/users.rs, src/workspaces.rs, src/audit.rs), Uploads
--              (src/attachments.rs); Routes: the router of src/app.rs; Guards and Roles: who is
--              refused; Trace, Quiet, Effects and Trail: what is logged and sent
--   Observability   src/observability.rs: the counters and their rendering; Counters and Histogram:
--              theorems
--   Tests      runs on a small store, and the theorems applied to them
--
-- Numbers: identifiers are natural numbers, by `Uuid::as_u128`; times are integers, and an
-- addition to a time does not overflow `i64`, which holds for all times of the calendar; counts
-- of requests stay below the limit of their limiter, so `u32` does not overflow; a size of a file
-- is below `2 ^ 64`, and goes through `i64` in a document; the counters of the metrics wrap at `2
-- ^ 64`. Hash tables are association lists, whose order is one of those in which a table may
-- iterate. No function runs on fuel; the client of `fetch_all`, which follows cursors, is given a
-- number of calls, and the theorem says how many are enough.
--
-- Not modelled: the redis connection; with the MongoDB backend the listings, memberships, users by
-- their email, reactions, members of channels, audit entries and removals by a query, and of the
-- indexes what they refuse and when documents expire; the paths and methods of the routes, the
-- extractors and the serving of the HTTP framework; configuration, start-up and tracing; the
-- command line tools in src/bin, but for how the client reads a role, sends its requests and
-- renews its session. Calls are modelled one after the other, each as a whole.
pub mod Common
pub mod Text
pub mod Errors
pub mod Storage
pub mod Paging
pub mod Auth
pub mod RateLimit
pub mod Channels
pub mod Client
pub mod Http
pub mod Mongo
pub mod Observability
pub mod Reactions
pub mod Attachments
pub mod Users
pub mod Workspaces
pub mod Audit
pub mod Realtime
pub mod Tests
