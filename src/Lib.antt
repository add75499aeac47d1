-- ===== src/Lib.antt =====
-- Verification of the C-Address Onboarding Bridge backend.
--
-- The bridge moves funds to Soroban contract addresses. The API (api/src, Express) admits a funding
-- request once per idempotency key, validates the signed transaction envelope, submits it through a pool
-- of Soroban RPC providers guarded by a circuit breaker, and writes what happened to a tamper-evident
-- audit log. The SDK (sdk/src) calls the API, with a cache of responses and a queue of operations made
-- while offline, whose replay relies on the idempotency of the API.
--
-- PARTS
--   CircuitBreaker   api/src/circuit-breaker.ts, the class CircuitBreaker. State: the record
--                    CircuitBreaker. execute is split at its await: admit (until the call starts), settle
--                    (onSuccess, onFailure). A sequence of arriving and ending calls is any interleaving.
--   RpcPool          api/src/services/rpcPool.ts, the class RpcPool: candidates, weighted and round-robin
--                    choice, latency average, health after calls and checks, failover. The calls of
--                    providers are an oracle: how each attempt ends is an argument.
--   Idempotency      api/src/middleware/idempotency.ts, over RedisCache (api/src/services/cache.ts: cacheGet,
--                    cacheSet, cacheSetNX, cacheDel), itself over an interface with the laws of Redis.
--                    The middleware is split at its awaits: enter, look_up, reserve, respond.
--   XdrValidator     api/src/services/xdrValidator.ts: the rules (checkSize to checkOperations) in the Result
--                    monad and validateXdr, which runs them in order. The SDK's decoder is a function
--                    from_xdr, the cache of seen hashes two functions has and set.
--   AuditLog, Json   api/src/services/auditLog.ts: stableStringify on JSON values (Json), entryHashMaterial and
--                    verifyAuditChain (AuditLog), and the class IntegrityAuditLogService (AuditLog.Service) as
--                    a step relation, in which a publication of a checkpoint is answered in a later step.
--   MigrationRunner  api/src/migrations/runner.ts, the class MigrationRunner. What migrations do to the database
--                    is a function; the table schema_migrations is a list of rows.
--   Health           api/src/services/health.ts: the checks, the overall status, its cache; over RpcPool.
--   AsyncPipeline    api/src/services/asyncPipeline.ts: backpressure, the buffer of counters, fallbacks.
--   SimpleCache      sdk/src/cache.ts, the class SimpleCache, over the ordered map JsMap.
--   OfflineQueue     sdk/src/offline.ts, the class OfflineQueue: enqueue with the duplicate test, replay with
--                    retries, the persisted copy.
--   BridgeClient     sdk/src/bridge.ts, the class BridgeClient, over SdkErrors (sdk/src/errors.ts): the headers of
--                    a request, the loop of attempts of request; getQuote, getStatus and health through
--                    SimpleCache with their background refreshes (BridgeClient.Cached). How a call of fetch
--                    ends, the clock and the random delay of each attempt are an oracle.
--   RedisCache       api/src/services/cache.ts: single values, stale-while-revalidate and getOrCompute
--                    (RedisCache.Swr), single flight with its lock and poll (RedisCache.SingleFlight).
--   ApiKeys, IpRange api/src/middleware/rbacAuth.ts: the records lie in a heap, since the two maps of the code
--                    hold the same objects; creation, revocation, update, the middleware rbacAuth with its
--                    audit trail, seeding (ApiKeys); addresses and ranges as texts (IpRange), over JsText.
--   TokenAmount      sdk/src/token.ts and the fees and addresses of sdk/src/utils.ts: texts of amounts as lists
--                    of UTF-16 units, with the padding and the regular expressions of the code.
--   CexWithdrawal    cex/withdrawal-router.ts: amounts and memos as texts, the router, and what the handlers
--                    make of the answers of the exchanges.
--   WebhookVerification  api/src/middleware/webhookVerification.ts: the verifiers, the middleware and its check
--                    of replays, split at its two commands, over the interface of Redis.
--   Pagination       sdk/src/pagination.ts, the class PaginationHelper: cursors and batches, with calls
--                    that are rejected; a page's data is the field data_of.
--   Telemetry        sdk/src/telemetry.ts, the class TelemetryClient: its bounded queue, flushes, the end.
--   LastEntries      The last entries of a list, for the trail of ApiKeys and the queue of Telemetry.
--   JsMap, Prelude   The insertion-ordered Map of the language, and lists, tests and results.
-- Below each part stand its properties, in modules named for what they prove, and a module Tests.
--
-- NUMBERS AND TIMES
--   Times are milliseconds as natural numbers, each clock reading an argument; numbers of the code that
--   are never negative are natural numbers without a bound (they stay far below 2^53 in use). Texts are
--   strings; those that a regular expression takes apart by code unit are lists of UTF-16 units.
--
-- LOOPS AND FUEL
--   Loops over arrays are structural. The failover loop of RpcPool runs on fuel, the number of providers,
--   which is enough since each round adds a provider to those tried (RpcPool.Exhaustive). The attempts of a
--   request of the SDK run on one more than the retries that are configured (BridgeClient.Runs), the poll of
--   single flight on one more than the pauses that fit into the time of the lock (RedisCache.Flights), the batches of pages on
--   one more than the cursors (Pagination.Collected).
--
-- PARAMETERS
--   SHA-256, the texts of JSON primitives and the order of sort, the Stellar SDK's decoder, node-cache, the
--   Redis server, HMAC, net.isIP, the storage of the offline queue, and the endings of calls over the network. What is
--   assumed of them stands as a hypothesis of the theorem or a law of the interface.
--
-- NOT MODELLED
--   Logs and metrics; the database copy of the audit log and its exports; HTTP headers of replies; timers
--   (what they call is an operation). The smart contract is Rust. Rate limiting, request signing,
--   the delivery of webhooks, jobs, routes and ramps have no model here.
pub mod Prelude
pub mod JsMap
pub mod ApiKeys
pub mod AsyncPipeline
pub mod AuditLog
pub mod BridgeClient
pub mod CexWithdrawal
pub mod CircuitBreaker
pub mod Health
pub mod Idempotency
pub mod IpRange
pub mod JsText
pub mod Json
pub mod LastEntries
pub mod MigrationRunner
pub mod OfflineQueue
pub mod Pagination
pub mod RedisCache
pub mod RpcPool
pub mod SdkErrors
pub mod SimpleCache
pub mod Telemetry
pub mod TokenAmount
pub mod WebhookVerification
pub mod XdrValidator
