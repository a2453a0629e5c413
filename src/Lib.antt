-- ===== src/Lib.antt =====
-- The verification library of chassis-go, a toolkit of packages for Go services.
--
-- The parts that are modelled, and where:
-- Prelude: what the others share: numbers, lists, maps as association lists, texts as lists,
--   their splitting at a byte, and decimal numerals as package strconv writes and reads them.
-- Recency: a map beside a container/list, with eviction of the least recently used key. The cache
--   and the rate limiter both keep their keys so.
-- Cache (cache/cache.go): every method of the LRU cache with expiry.
-- Call (call/): the HTTP client. Breaker and Registry are breaker.go: the state machine of one
--   circuit breaker, and the process-wide map of breakers by name. Retry is retry.go, Token is
--   token.go, and Client is Do of call.go, which runs its request through a retrier and a breaker.
--   The client takes any breaker as a record of its two operations; the circuit breaker is one.
-- Work (work/work.go): Map and All as a step relation of the loop, its workers and the context, and
--   Race.
-- Health (health/): All over Map of Work, so over every interleaving, and the answer of the handler.
-- Kafka (kafkakit/): Tenant is tenant.go, Publisher is publisher.go, and Pattern and Subscriber are
--   subscriber.go. The subscriber asks the tenant filter, then the first handler whose pattern
--   matches the subject.
-- Guard (guard/): Limiter is ratelimit.go; KeyFunc is keyfunc.go, with the IP filter of
--   ipfilter.go, which takes a key function; Timeout is the buffered writer of timeout.go as a state
--   machine of the handler's writes and the end of the request; Cors is cors.go.
-- Flagz (flagz/): feature flags, their rollout by percentage, and layered sources.
-- Errors (errors/errors.go): the service error and its decorators, over a store of detail maps;
--   Errors/Problem (errors/problem.go): the problem details that are sent for one.
-- Secval (secval/secval.go): the scan of parsed JSON, safe file names and SQL identifiers.
-- Seal (seal/seal.go): signatures, expiring tokens and encrypted envelopes.
-- Webhook (webhook/webhook.go): Send with its retries and its bounded log, and VerifyPayload, which
--   checks with Verify of Seal what Send signs.
-- Schemakit (schemakit/schemakit.go): the loading of schemas into a cache of pointers, the wire
--   format, and the registration that sets a schema's id.
-- Phasekit (phasekit/phasekit.go): Hydrate, from the defaults of its configuration to the variables
--   that it sets.
-- Deploy (deploy/deploy.go): the discovery of the directory; EnvFile its environment files, Content
--   what its other files say and its hooks, Runtime where the service runs and its status.
-- Tick (tick/tick.go): the loop of Every over what its selects receive.
-- Lifecycle (lifecycle/lifecycle.go): Run as the list of what it does to the other packages.
-- Chassis (chassis.go, freshness.go): ports, the comparison of versions, the decision to rebuild a
--   stale binary, RequireMajor.
-- Config (config/config.go): the fields of a struct, from variables and defaults, with constraints.
--
-- How the model reads the code. Stateful methods are functions from a state to a result and the
-- next state; a method under a mutex is one step, and code that runs beside other code is a step
-- relation, so that a theorem holds for every interleaving. Times are natural numbers of
-- nanoseconds on the monotonic clock, passed to the methods that read it. Errors are values. A Go
-- map is an association list of distinct keys; where the code ranges over one, the list stands in
-- the order of the loop, and the theorems hold for every order. int64 wraps at 2 ^ 64 in the delays
-- of the retrier, the expiry of tokens and the age of webhooks, uint32 at 2 ^ 32 in the wire format;
-- other integers stay far from their limits. Texts that the code walks are lists of bytes or code
-- points, as the file says. Where Go reads a variable that a call leaves nil, the panic is a value.
--
-- Fuel. The loop that evicts until there is room takes as many rounds as there are entries, which
-- is enough since each round drops one; that of the webhook log as many as there are ids. A numeral
-- has fewer digits than its number and one. The retry loops recur on the attempts left. Nothing else
-- needs fuel.
--
-- Parameters. The time, the context, the HTTP transport, the random jitter and bytes, the functions
-- that a caller hands in, the operations on float64, the parsers of package net, the primitives of
-- package crypto, base64, JSON, Avro, the file system, subprocesses, the setting of a variable, the
-- sorting and trimming of texts, the decoding of an envelope and the Kafka broker are arguments of
-- the definitions. What a theorem needs of one of them is a named hypothesis: IsCodec and IsCipher
-- in Seal, Decodes in Schemakit, IsSetter in Phasekit and in Deploy, Sorts, Trims.
--
-- Not modelled: spans, metrics and log lines, which only report; Batch of package call, Stream of
-- package work, the concurrent dispatch of the subscriber; the files of package registry,
-- which hold logic of their own; the clients of
-- remote services, which build requests and decode answers; and the glue to the HTTP, gRPC, logging
-- and telemetry libraries.
pub mod Prelude
pub mod Recency
pub mod Cache
pub mod Call
pub mod Work
pub mod Kafka
pub mod Guard
pub mod Flagz
pub mod Errors
pub mod Secval
pub mod Seal
pub mod Schemakit
pub mod Phasekit
pub mod Health
pub mod Deploy
pub mod Tick
pub mod Lifecycle
pub mod Chassis
pub mod Config
pub mod Webhook
