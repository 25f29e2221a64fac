-- ===== src/Lib.antt =====
-- A verification library of guard-core-ts, the security engine behind its web framework adapters. All
-- paths below are under packages/core/src.
--
-- The engine runs each request through a pipeline of checks (core/checks/pipeline.ts). A check answers
-- null, a response or a throw; the pipeline decides what a throw means, calls the block hook for a
-- refusal, and stops at the first answer. Checks keep state between requests: the rate-limit manager
-- (handlers/rate-limit.ts), the ban manager (handlers/ip-ban.ts), the violation counters, whose
-- thresholds call the ban manager (core/checks/helpers.ts), and the capped stores of the rate-limit
-- primitive for a raw address (handlers/rate-limit-by-ip.ts), which goes through the same thresholds.
-- Paths are normalized and matched against exclusions before the pipeline runs
-- (core/validation/path-matching.ts).
--
--   Base: names that all modules share. JsMap: the `Map` of the language, in insertion order.
--   Activity: core/block-events.ts and logActivity of utils.ts: what a request leaves behind, which is
--   the block stash, the onBlock calls and the agent events. Response: protocols/response.ts.
--   Redis: the Redis handler (handlers/redis.ts over the ioredis package) as an interface: commands over
--   an abstract server state that answer or throw.
--   RateLimit: handlers/rate-limit.ts. Window is the splice of one list of timestamps, Redis the client,
--   Manager the class with one function per method, History the count over a history of calls, Decision
--   and Fallback the lemmas on one decision without and with Redis, Calls the decision after a history.
--   IpBan: handlers/ip-ban.ts, one function per method; Memory, Expiry, Capacity and Lasting prove. The
--   calls of a history are those of Capacity.
--   BanMigration: canonicalizeIp and the migration of legacy ban keys of handlers/ip-ban.ts.
--   Violations: incrementSuspiciousCounts, totalSuspiciousCount, resolveThresholdBan, tryThresholdBan.
--   ByIp: handlers/rate-limit-by-ip.ts, with its own stores.
--   Pipeline: core/checks/pipeline.ts and core/checks/base.ts, on an abstract state of the engine.
--   Paths: core/validation/path-matching.ts, on texts as lists of code units.
--   RateLimitCheck: core/checks/implementations/rate-limit.ts, the tiers over the manager, the counters and
--   the bans. Tiers is the induction over them.
--   IpAccess: core/checks/ip-access.ts, with checkIpCountry and isIpAllowed of utils.ts. Policy says apart
--   from the code what lets an address in; Tiers and Entry prove that the code decides by it.
--   IpSecurity: core/checks/implementations/ip-security.ts, the check of a request's address, with the lists
--   and countries of core/checks/helpers.ts (Lists). Policy says apart from the code what lets an address
--   in; Verdicts, Admission and Entry prove that the check decides by it.
--   RouteChecks: the authentication, required-headers, emergency-mode, HTTPS and time-window checks of
--   core/checks/implementations, with the parts of core/validation/validator.ts that they call. Credentials
--   says apart from the code which credential a header carries.
--   Routing: core/routing/resolver.ts, the configuration of a request's route.
--   Bypass: core/bypass/handler.ts, over Paths and Routing.
--   Behavior: handlers/behavior.ts, the usage windows and the actions of behavior rules.
--   Truncation: detection-engine/truncation.ts and truncateSafely of preprocessor.ts, contents cut to a
--   budget: Regions are the attack regions, Safely what is kept.
--   ScanPool: detection-engine/scan-pool.ts, the quarantine of slow patterns. Quarantine is
--   one step, Streaks a history of scans.
--   WorkerPool: detection-engine/scan-worker-pool.ts, the pool of worker threads, as a machine whose events
--   are the calls and callbacks between its awaits. Pump and Counts are the lemmas on its queue and slots.
--   BodyReader: core/bounded-body-reader.ts, the reads of bodies (Caps and Asks prove), and the
--   budget of reads in flight as a machine of events.
--   CloudStore: handlers/cloud-ip-stores.ts, the wire form of cloud ranges and the store in memory.
--   Base64: detection-engine/base64-decode.ts. Strict is the decoder, Shape and Exact what it accepts,
--   Gunzip the bounded decompression, Bounded and Prefix what it returns,
--   Ratios the tests on what was decoded, Candidates the search; the expressions that search are parameters.
--   Decoders: detection-engine/encoding-decoders.ts. Utf8 is the lenient UTF-8 decoder, Bits and Throws what
--   its bit operations come to; Escapes and Unquote the decoders of escapes, Overlong the hidden characters.
--   DynamicRules: handlers/dynamic-rules.ts (Manager) and models/dynamic-rule-snapshot.ts (Snapshot), the
--   rules that an agent sends and the snapshot that the next start hydrates.
--   Events: core/events/event-filter.ts and core/events/composite-handler.ts, over sinks from outside.
--
-- Stateful methods are functions from a state to an answer and a state. A promise that rejects is a
-- value of a sum type. The clock is an argument, in milliseconds: the source divides it by 1000 and
-- compares in seconds, which is the same comparison in exact arithmetic; the rounding of doubles is
-- not modelled. Calls that interleave at an await are modelled in the worker pool and in the budget of
-- the body reader, as orders of events; elsewhere a call is one step. Parameters stand for code
-- outside the repository: the Redis client, the sinks of events, the readers of a body, the verifiers,
-- the SHA-256 digest, the address parser, the UTF-8 decoder and the matches of regular expressions.
-- Fuel stands for the decimal digits of a number (the number plus one), and for the reads of a
-- decompression stream (the limit on its output plus one: each read but the last brings a byte), and
-- for the steps of the UTF-8 decoder (the bytes that are left). The four rounds of decoding are the
-- source's own bound.
--
-- Not modelled: log lines and their redaction, the framework adapters, the configuration schemas and the
-- telemetry handlers, which are I/O or glue; the pattern tables and the detection that runs them, whose
-- steps are the regular expressions of the JavaScript runtime; and, for the size of the library, the other
-- checks of the pipeline, the WebSocket guard, the security headers and the handlers of cloud and geo
-- addresses, which are calls of parts that are modelled here or records of settings.
pub mod BanMigration
pub mod Base
pub mod IpSecurity
pub mod JsMap
pub mod Activity
pub mod Response
pub mod Redis
pub mod IpBan
pub mod Violations
pub mod Pipeline
pub mod RateLimit
pub mod ByIp
pub mod Paths
pub mod RouteChecks
pub mod Routing
pub mod ScanPool
pub mod WorkerPool
pub mod RateLimitCheck
pub mod Bypass
pub mod CloudStore
pub mod Decoders
pub mod DynamicRules
pub mod Events
pub mod IpAccess
pub mod Truncation
pub mod Base64
pub mod Behavior
pub mod BodyReader
