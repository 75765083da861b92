-- ===== src/Lib.antt =====
-- AgentAuth grants capabilities to software agents on behalf of people. The registry keeps agents,
-- grants and tokens in PostgreSQL and caches tokens and nonces in Redis; the verifier answers
-- service providers that ask whether a token is good, from the cache first and a read replica
-- otherwise; both stand on the types of the core crate, and the registry guards its dependencies
-- with circuit breakers. A client library asks for grants and tokens, and a job moves old audit
-- events to cold storage.
--
-- The files:
--   Prelude and below: shared names, tests, lists, results, integers and time.
--   Core and below: crates/core/src/types. Capability, Envelope, Token and Manifest have the data
--     types and the checks `validate`, one function each; Validity, Windows and Lifetime say what
--     the checks accept.
--   Core/Crypto and below: crates/core/src/crypto, the backends for keys, the signing of manifests and
--     tokens and its verification.
--   Circuit and below: crates/registry/src/services/circuit_breaker.rs, one breaker. Its inner state and
--     its counters are one record; `Call` lists its operations and `run` composes them. Collection has
--     the six breakers.
--   Registry/Tables: the SQL statements of crates/registry/src/db/queries.rs as functions on lists
--     of rows. A statement is atomic.
--   Registry/Db: the pools of crates/registry/src/db/pool.rs. A handler's state is the primary, the
--     replica and the fate of its next calls: each is answered, or fails before or after it took
--     effect.
--   Registry/Cache: crates/registry/src/services/cache.rs, over the interface `Redis`; Registry/Server
--     is a concrete instance of it.
--   Registry/RateLimit and below: the sliding window of cache.rs, over the interface `SortedSets`.
--   Registry/Signing and below: services/registry/src/signing.rs, the signing backends of the registry.
--   Registry/Grants and below: crates/registry/src/services/grant.rs; Overlap cuts its functions at
--     their statements, for calls that run at the same time. Registry/Tokens and below:
--     crates/registry/src/services/token.rs.
--   Registry/Audit and below: crates/registry/src/services/audit.rs and the verification of
--     crates/registry/src/handlers/audit.rs.
--   Registry/App: the state that the handlers share. Registry/AgentHandlers, Registry/GrantHandlers
--     and Registry/TokenHandler: crates/registry/src/handlers/agents.rs, grants.rs and tokens.rs, each
--     handler over the services, with its audit record.
--   Registry/Service and below: the requests of crates/registry/src/routes.rs and runs of them.
--     Authority is what the registry promises, as a transition system; Steps, Writes and Refinement
--     take the handlers to it, Chain and Otp follow the audit chain and the one-time passwords.
--   Registry/InFlight: the limit of crates/registry/src/middleware.rs, its atomic operations in any
--     order. Registry/Response: the HTTP responses of crates/registry/src/error.rs. Registry/Health
--     and Verifier/Health: the readiness probes and the marks that they read.
--   Verifier and below: services/verifier/src/handlers.rs. The handler `verify_token` is cut at its
--     numbered steps into `with_nonce`, `with_cached`, `check_binding`, `check_proof`, `check_expiry`.
--   Sdk and below: crates/sdk/src/error.rs, config.rs, retry.rs, cache.rs (TokenCache and RefreshGuard),
--     rate_limiter.rs, dpop.rs and client.rs.
--   Archiver and below: services/audit-archiver/src. Partition has the rules of partition.rs, Names the
--     names of partitions and the keys of their files, Lock the advisory lock of leader.rs for any number
--     of archivers, Pipeline the run of main.rs with the statements and calls that it makes.
--
-- Identifiers (UUIDs) are numbers, fresh ones are arguments. An instant is a number of nanoseconds;
-- each reading of a clock is an argument, so two readings need not agree; the columns of the database
-- keep microseconds. Machine integers are
-- natural numbers with their wrap-around written out where the code adds to them; the counters of a
-- breaker wrap at 2^32 and 2^64. The loop over months has the days of the advance window and one
-- more as its fuel, which is enough since each round starts a later month; every other function
-- recurs on a list, or on the number of attempts that are left.
--
-- Parameters: `Redis` and `SortedSets` with the documented behaviour of the commands that are sent, the
-- calendar and the dates of chrono, the constant-time comparison of subtle, SHA-256 with the bytes of
-- identifiers and texts, Ed25519, base64, the upper case of Unicode, the JSON of serde, the parser of addresses, floats, the replies of
-- Vault, the limiter of governor, the server that the client talks to, and the Parquet files of the
-- archiver. JSON columns are kept parsed, none where they do not parse.
--
-- Not modelled: HTTP, logs and metrics; the start of the services and their configuration; the mathematics
-- of signatures; the schema documents; the bindings for Python, the demo agent and the front ends; the check of a
-- proof of possession in crates/sdk/src/dpop.rs, which is compiled for its tests only. The
-- statements of calls that run at the same time are interleaved for the grant service and for the
-- archivers' lock; other requests to the registry come one after another.
pub mod Prelude
pub mod Core
pub mod Circuit
pub mod Registry
pub mod Verifier
pub mod Sdk
pub mod Archiver
