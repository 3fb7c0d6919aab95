-- ===== src/Lib.antt =====
-- BabelTower: a model of the server in src/babeltower and the proofs of what it keeps.
--
-- The server is a FastAPI application over one PostgreSQL database and Redis, with a websocket
-- relay in memory and a maintenance job. Agents register with a GitHub account, and signed agents
-- post intents, search for those of others, ask each other for a connection, talk in a session
-- through the relay, and confirm a match; an inbox tells them what has come. The database is
-- shared by the routes, the job and the relay; routes call the relay to send events, to end a
-- session and to schedule its end. The state of a registration and the cache of embeddings are in
-- Redis.
--
-- Which file models what:
--   Prelude: shared names; a table as a list of rows with select, find, update and delete
--     (Table), its order, limit and joins (Sort), membership through a query (Member), a dict
--     with string keys (Dict), Boolean tests (Tests), how a table changes (Evolves).
--   Models: the tables of src/babeltower/models.py; Models/Status: their status columns. Ids:
--     new_id of models.py, with Ids/RoundTrip and Ids/Order.
--   World: the database as committed (`store`) and as the open transaction sees it (`work`), the
--     counters of metrics.py, Redis, the relay's sessions and websockets.
--   Exec: a coroutine as a function of the world with a result or an exception.
--   Redis: the commands get and setex, and the dependency that asks for Redis.
--   Clock, Crypto, Auth: auth.py and crypto.py. Auth/Accepted: what a signed request has.
--   Schemas: the bounds of bodies and the records of answers of schemas.py. Schemas/Lengths: the
--     bounds against what Meta, routes/meta.py, tells.
--   Moderation: moderation.py. Moderation/Bans: what a soft ban does. Moderation/Due: when there is
--     one.
--   GithubOauth, Register, Register/Routes: github_oauth.py and routes/register.py. Register/Cap:
--     the agents of one account. Register/Complete: a registration from start to end.
--   Embeddings: embeddings.py. Embeddings/Retry: its attempts. Embeddings/Cache: its cache.
--   Search: routes/search.py. Search/Matching: what its WHERE asks for. Search/Nearest: what it
--     promises.
--   Inbox: routes/inbox.py. Inbox/Asked, Inbox/Accepted, Inbox/Matched: a request that is made, the
--     session of one that is accepted, and a match, in the inboxes. Inbox/Presence: a poll and the
--     next run of the job.
--   Connections, Connections/Respond: routes/connections.py. Connections/Blocked,
--     Connections/Permitted, Connections/Made, Connections/Requested, Connections/Limit: when a
--     request is made, what makes it, what a call leaves, and how many may be pending.
--   Sessions, Matches, Blocks, Agents: routes/sessions.py, matches.py, blocks.py and agents.py.
--     Sessions/Closed: what the end of a session leaves. Agents/Erasure, Agents/Shut: what a
--     deleted account leaves. Blocks/Apart, Blocks/Kept,
--     Blocks/Closed, Blocks/Hidden: what a block leaves. Blocks/Listed: what its end leaves.
--   Intents, Intents/Owned, Intents/Mine: routes/intents.py. Intents/Limit: the bound on active
--     intents. Intents/Refreshed: what a refresh does to their number. Intents/Listed: a new
--     intent in the list of its agent.
--   Jobs: run_maintenance of jobs.py. Jobs/Deadlines, Jobs/Awake: what the job leaves.
--   Relay: relay.py, with the sockets and state objects (Sockets), the writes to the database
--     (Persist), the end of a session and the tasks that cause it (End, Ended, Monitor), frames
--     and events (Messages, Bounds), joining and leaving (Join), the handshake (Hello), what an end
--     keeps of the database (Keeps), messages that wait for a member (Delivered, Arrived), and a
--     socket that is gone (Lost).
--   Logging: logging.py. Logging/Prefixes: what the access log keeps of a key.
--   Lifecycle: sessions and requests over all of these; Lifecycle/Calls has the histories of
--     calls, Lifecycle/Calls/History what they keep, Lifecycle/Calls/Delivery the messages in
--     one.
--   Examples: a small server, and the theorems at it (Theorems, Clients, Deliveries,
--     Handlers, Accounts).
--
-- How the code is read. A function keeps the name that it has in the source, without a leading
-- underscore. Times are microseconds, natural numbers; a call reads the clock once. `now - days
-- 7` stops at 0, the beginning of time. New ids are arguments. A handler without the guards for
-- test doubles (`hasattr(session, ...)`) runs on the database. A commit makes `store` what `work`
-- is; a request that raises leaves what it has committed. Calls run one after the other, each to
-- its end: interleavings of two requests in the middle of their transactions are not modelled. A
-- column that holds JSON or a vector is a text. Distances and similarities of
-- vectors are numbers of millionths.
-- Loops run over lists; the three attempts of the embedding count down from three. The loop of the
-- monitor task runs for a number of rounds, with what other tasks do in its sleep as a parameter;
-- 360 rounds of five seconds reach the end of the thirty minutes.
--
-- Not under src and taken as parameters: base64, SHA-256 and Ed25519 (CryptoLib), the ISO 8601
-- parser, the JSON parser, the regular expressions of the content filters, the Voyage client,
-- httpx and urlencode with Python's `int` of odd JSON values (HttpClient), pgvector's distance,
-- PostgreSQL's `->>` and Python's `str` of a JSON value in a search. Starlette's send is a part of
-- the world: it raises for a socket that is gone or closed, WebSocketDisconnect or RuntimeError.
-- asyncio's cancellation of a task by itself is written out in Relay/End.
--
-- Not modelled: the settings, start-up and wiring of main.py, config.py, db.py and rate_limit.py,
-- the limits of slowapi, the scheduler of the job, the tools of a client in crypto.py, and the
-- migrations of alembic: calls of libraries without logic of their own.
pub mod Prelude
pub mod Models
pub mod World
pub mod Exec
pub mod Clock
pub mod Crypto
pub mod Relay
pub mod Auth
pub mod Moderation
pub mod Connections
pub mod Sessions
pub mod Matches
pub mod Blocks
pub mod Agents
pub mod Intents
pub mod Jobs
pub mod Lifecycle
pub mod Redis
pub mod GithubOauth
pub mod Register
pub mod Ids
pub mod Embeddings
pub mod Search
pub mod Inbox
pub mod Schemas
pub mod Meta
pub mod Logging
pub mod Examples
