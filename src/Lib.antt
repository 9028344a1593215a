-- ===== src/Lib.antt =====
-- Verification library of the ANS resolution server: names, versions, the cache, the registry's
-- records, the verifier of records and the resolver that puts them together.
--
-- A request names an agent. The resolver parses the name, looks in the cache under the name's cache
-- key, asks the registry on a miss, has the verifier check the record, and caches what it serves for a
-- time that depends on the status. A request with a range first lists the versions of the agent and
-- negotiates one. Events of the registry and of the queue delete entries of the cache.
--
-- Prelude: tests on numbers, lists, texts as bytes, signed integers, results with an error.
-- Ansname: pkg/ansname. Patterns reads the regular expressions; Record is `ANSName` with `String`,
--   `FQDN`, `CacheKey`, `Validate` and `SameAgent`; Parse is `Parse` and `parseComponents`; Semver is
--   `VersionComponents` and `IsNewerThan`; Range is `ParseVersionRange` and `Matches`; Negotiate is
--   `NegotiateVersion`.
-- Cache: internal/cache. Table is the map, Recency the list and Memory the methods of memory.go, as
--   calls that come one after the other; a method takes the time that it reads. Redis is redis.go over
--   a client.
-- Models: the records of internal/models/types.go.
-- Registry: internal/registry. Record is interface.go, Mock is mock.go, with the records that it makes
--   up in Samples, and Godaddy is godaddy.go: the conversions, in Lookup the requests of the two
--   lookups, in Events the polling of events, in Stubs what is not made yet and `Healthy`.
-- Trust: internal/trust/verifier.go. Checks holds the single checks, Verifier is
--   `VerifyRegistryRecord`, Cached is `VerifyRecord`, Merkle is `VerifyMerkleProof`, Revocation is
--   `CheckRevocation`, Certificate is `VerifyCertificate`, and Stores holds the file provider and the
--   mock provider of trusted keys.
-- Resolver: internal/resolver/resolver.go. Store is the interface of the cache with the laws that the
--   resolver relies on, Judge the verification of a looked-up record and the TTL, Request is `Resolve`,
--   `ResolveRaw` and `ResolveWithRange`, Verify is `Verify` and `Stats`, Parallel is `ResolveBatch` and
--   what events do in the middle of a request, and Events is `Invalidate`, `ProcessEvent` and
--   `handleQueueEvent` of internal/server/http.go.
-- Queue: internal/queue. Event is interface.go; Memory is memory.go, the goroutines on one channel as a
--   step relation; Redis is redis.go, over the messages that are added and read.
-- Config: internal/config/config.go. Providers, Policies and Types are the settings, Environment is
--   `substituteEnvVars`, Defaults is `setDefaults`, and Loading is `validate` and `Load`.
-- Server: internal/server/http.go. Setup is `initProviders`, with the tables of factories of the
--   packages in Factories; Handlers are the handlers of requests, Consumer is `processQueueEvents` over
--   the Redis queue, Metered adds what `handleResolve` records, Routing is `routes` with its
--   middleware, Calls the server behind them, and Lifecycle is `New`, `Start` and `Shutdown`.
--   DefaultTrust and MockRegistry are about the default trust provider and the mock registry.
-- Telemetry: internal/telemetry. Metrics is metrics.go; Logging and Tracing are logging.go.
-- Command: `main` of cmd/resolver/main.go.
-- Tests: runs on concrete inputs.
--
-- Texts are lists of bytes. Times and durations are numbers of nanoseconds, without overflow; the
-- counters are natural numbers. An integer of a version is cut off at the greatest int64, as
-- `strconv.Atoi` does when its error is ignored. Of the loops that are not structural, the eviction
-- in `Set` runs on as much fuel as there are entries and one more, and the scan of Redis keys on fuel
-- that is given to it.
--
-- `ResolveBatch` and the memory queue are step relations: a step is what one goroutine does to the
-- shared state without another in between, and the steps of different goroutines come in any order.
-- The calls of the cache are among these steps: that `Get` of memory.go lets its lock go between the
-- read of the map and the move in the list, and reads the entry without it, is not modelled. `main`
-- and the goroutine of `Start` take turns in any order.
--
-- What the verifier says of a record is a function of the record and the time, for it reads the
-- clock, the trust store and the endpoint.
--
-- Parameters: the URL parser; the keys, signatures, TLS handshake, hashes and requests of the
-- verifier; the registry of the resolver; the HTTP client, JSON, PEM and hash functions of the
-- GoDaddy adapter; the client of Redis; whether a Redis server answers; the YAML parser, the
-- environment and the file that is read; the PEM decoder, the X.509 parser and the verifier of
-- chains; the router's matching of patterns, the rate limiter and the recoverer of panics; the client
-- libraries of metrics and traces, the former with its panic on invalid UTF-8; the flags and signals
-- of the process; the order in which a Go map is walked. Messages of errors and log lines are left
-- out, and a cancelled context is no more than a step that may come. The sample rate of the
-- configuration is in thousandths.
--
-- Not modelled: what other calls do inside one `Get` of the memory cache; the sockets, headers and
-- encodings of HTTP, which are I/O; the types for searches, which nothing uses; the simulated delay
-- of the mock registry and its `VerifyRecord`, which nothing calls; the help texts and buckets of
-- metrics; and the generated documentation.
pub mod Prelude
pub mod Ansname
pub mod Cache
pub mod Models
pub mod Registry
pub mod Trust
pub mod Resolver
pub mod Config
pub mod Queue
pub mod Telemetry
pub mod Server
pub mod Command
pub mod Tests
