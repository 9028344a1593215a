-- ===== src/Server/Setup.antt =====
-- `initProviders` of internal/server/http.go: which providers a configuration leads to. A factory is
-- looked up by its name, as `New` of each package does; whether a Redis server answers
-- the `Ping` of its client, and the two trust providers, are parameters.
pub mod Accepted
pub mod Factories
use route_ans.Prelude.{
  ℕ, ◌*◌, ◌>>=◌, ◌||◌, Bool, Option, none, some, List, [], ◌∷◌, ◌++◌, Text, codes, text_eq, Result,
  ok, err, if◌then◌else◌,
}
use route_ans.Prelude.Int.{ℤ, pos, pos_part, ◌==ℤ◌}
use route_ans.Cache.Table.{lookup}
use route_ans.Cache.Memory.{second, Options as MemoryOptions}
use route_ans.Cache.Redis.{RedisOptions, default_redis_options}
use route_ans.Config.Policies.{RegistryConfig}
use route_ans.Config.Types.{Config}
use route_ans.Queue.Event.{Options as QueueOptions, default_options}
use route_ans.Queue.Redis.{QueueSettings, RedisQueueOptions, redis_queue_options}
use route_ans.Trust.Checks.{VerifierConfig}
use route_ans.Resolver.Types.{Config as ResolverConfig}

-- `NewRedisCache` and `NewRedisQueue`, where no server answers.
abbrev pub unreachable_cache : Text
unreachable_cache = codes "failed to create cache: failed to connect to Redis"

abbrev pub unreachable_queue : Text
unreachable_queue = codes "failed to create queue: failed to connect to Redis"

-- `ErrUnknownProvider` of each package, as `initProviders` wraps it.
abbrev pub unknown_cache : Text → Text
unknown_cache name = codes "failed to create cache: unknown cache provider: " ++ name

abbrev pub unknown_queue : Text → Text
unknown_queue name = codes "failed to create queue: unknown queue provider: " ++ name

pub data CacheChoice : Type 0 where
  memory_cache : MemoryOptions → CacheChoice
  redis_cache : RedisOptions → CacheChoice

-- `cacheOpts`
abbrev pub cache_options : Config → MemoryOptions
cache_options c = record {
  default_ttl = c.cache.ttl.default;
  max_size = c.cache.memory.max_size;
  cleanup_interval = c.cache.memory.cleanup_interval;
  namespace = c.cache.redis.key_prefix;
}

-- The factory of the Redis cache, on `cacheOpts` and `cacheConfig`.
abbrev pub redis_cache_options : Config → RedisOptions
redis_cache_options c = record default_redis_options {
  default_ttl = c.cache.ttl.default;
  namespace = c.cache.redis.key_prefix;
  address = c.cache.redis.address;
  password = c.cache.redis.password;
  db = c.cache.redis.db;
  pool_size = c.cache.redis.pool_size;
  min_idle_conns = c.cache.redis.min_idle_conns;
  dial_timeout = c.cache.redis.dial_timeout;
  read_timeout = c.cache.redis.read_timeout;
  write_timeout = c.cache.redis.write_timeout;
}

-- `NewRedisCache`
abbrev pub connected_cache : (RedisOptions → Bool) → RedisOptions → Result Text CacheChoice
connected_cache ping o = if ping o then ok (redis_cache o) else err unreachable_cache

-- `cache.New`; `ping` is the `Ping` of `NewRedisCache`.
unfoldable pub new_cache : (RedisOptions → Bool) → Config → Result Text CacheChoice
new_cache ping c =
    if text_eq c.cache.provider (codes "memory")
    then ok (memory_cache (cache_options c))
    else if text_eq c.cache.provider (codes "redis")
    then connected_cache ping (redis_cache_options c)
    else err (unknown_cache c.cache.provider)

pub data QueueChoice : Type 0 where
  no_queue : QueueChoice
  memory_queue : ℤ → QueueChoice
  redis_queue : RedisQueueOptions → QueueChoice

-- `queueOpts`: the defaults, if the size of the buffer is zero.
unfoldable pub queue_options : Config → QueueOptions
queue_options c = if c.queue.buffer_size ==ℤ pos 0 then default_options else record {
  buffer_size = c.queue.buffer_size;
  consumer_group = c.queue.redis_streams.consumer_group;
  consumer_name = c.queue.redis_streams.consumer;
  block_timeout = c.queue.redis_streams.block_timeout;
  batch_size = c.queue.redis_streams.batch_size;
  retry_attempts = pos 0;
  retry_delay = pos 0;
}

-- `queueConfig`
abbrev pub queue_settings : Config → QueueSettings
queue_settings c = record {
  address = c.queue.redis_streams.address;
  password = c.queue.redis_streams.password;
  db = c.queue.redis_streams.db;
  stream = c.queue.redis_streams.stream;
}

-- `NewRedisQueue`
abbrev pub connected_queue :
    (RedisQueueOptions → Bool) → RedisQueueOptions → Result Text QueueChoice
connected_queue ping o = if ping o then ok (redis_queue o) else err unreachable_queue

-- `queue.New`; `ping` is the `Ping` of `NewRedisQueue`.
unfoldable pub enabled_queue : (RedisQueueOptions → Bool) → Config → Result Text QueueChoice
enabled_queue ping c =
    if text_eq c.queue.provider (codes "memory")
    then ok (memory_queue (queue_options c).buffer_size)
    else if text_eq c.queue.provider (codes "redis-streams")
    then connected_queue ping (redis_queue_options (queue_options c) (queue_settings c))
    else err (unknown_queue c.queue.provider)

-- The queue of the server, if it is enabled
unfoldable pub new_queue : (RedisQueueOptions → Bool) → Config → Result Text QueueChoice
new_queue ping c = if c.queue.enabled then enabled_queue ping c else ok no_queue

-- `godaddyAdapter`, without its client
pub record GodaddySettings : Type 0 where
  pub base_url : Text
  pub api_key : Text
  pub api_secret : Text
  pub timeout : ℤ
  pub priority : ℤ

pub data RegistryChoice : Type 0 where
  mock_registry : RegistryChoice
  godaddy_registry : GodaddySettings → RegistryChoice

abbrev pub setting : Text → RegistryConfig → Text
setting name r = elim (lookup name r.config) [ none ↦ [] | some v ↦ v ]

-- `NewGoDaddyAdapter`
unfoldable pub new_godaddy : RegistryConfig → Option RegistryChoice
new_godaddy r =
    if text_eq (setting (codes "apiKey") r) [] || text_eq (setting (codes "apiSecret") r) []
    then none
    else some (
        godaddy_registry (record {
          base_url =
              if text_eq (setting (codes "baseURL") r) []
              then codes "https://api.godaddy.com/v1"
              else setting (codes "baseURL") r;
          api_key = setting (codes "apiKey") r;
          api_secret = setting (codes "apiSecret") r;
          timeout = r.timeout;
          priority = r.priority;
        }))

-- `registry.New`
unfoldable pub new_registry : RegistryConfig → Option RegistryChoice
new_registry r =
    if text_eq r.kind (codes "mock")
    then some mock_registry
    else if text_eq r.kind (codes "godaddy")
    then new_godaddy r
    else none

-- The loop over the registries: the first enabled one that can be created, or else the mock registry.
unfoldable pub first_registry : List RegistryConfig → RegistryChoice
first_registry [] = mock_registry
first_registry (r ∷ others) =
    let further = first_registry others in
    if r.enabled then elim (new_registry r) [ none ↦ further | some choice ↦ choice ] else further

-- `verifierConfig`, for a grace period that is not negative.
abbrev pub verifier_config : Config → VerifierConfig
verifier_config c = record {
  require_signature = c.trust.verification.require_signature;
  require_merkle_proof = c.trust.verification.require_merkle_proof;
  check_revocation = c.trust.verification.check_revocation;
  grace_period = pos_part c.trust.verification.allow_expired_grace_period;
}

-- `trust.New`: only the file provider and the mock provider are registered, and neither fails;
-- `new_file` is `NewFileProvider`, which reads no files.
unfoldable pub new_trust : {T : Type 0} → (Text → Text → T) → T → Config → Option T
new_trust new_file mock c =
    if text_eq c.trust.provider (codes "file")
    then some (new_file c.trust.file.trusted_roots_file c.trust.file.trusted_registrars_file)
    else if text_eq c.trust.provider (codes "mock")
    then some mock
    else none

-- The timeout of a lookup is that of the first registry, be it enabled or not.
abbrev pub lookup_timeout : List RegistryConfig → ℤ
lookup_timeout [] = pos (10 * second)
lookup_timeout (r ∷ others) = r.timeout

-- `resolverCfg`, without the timeout and the number of parallel lookups
unfoldable pub resolver_config : Config → ResolverConfig
resolver_config c = record {
  default_ttl = c.cache.ttl.default;
  verified_ttl = c.cache.ttl.verified;
  revoked_ttl = c.cache.ttl.revoked;
  not_found_ttl = c.cache.ttl.not_found;
  verification_mode = if c.trust.verification.enabled then codes "strict" else codes "disabled";
}

-- What a server consists of.
pub record Providers (T : Type 0) : Type 0 where
  pub cache : CacheChoice
  pub queue : QueueChoice
  pub registry : RegistryChoice
  pub verifier : Option (T × VerifierConfig)
  pub resolver : ResolverConfig
  pub parallel_lookups : ℕ
  pub timeout : ℤ

-- `trust.NewVerifier`, if there is a trust provider.
abbrev pub verifier_of : {T : Type 0} → Config → Option T → Option (T × VerifierConfig)
verifier_of c none = none
verifier_of c (some t) = some (t, verifier_config c)

-- What is made of a configuration beside its cache and its queue.
unfoldable pub assembled :
    {T : Type 0} → Option T → Config → CacheChoice → QueueChoice → Providers T
assembled trust c cache queue = record {
  cache = cache;
  queue = queue;
  registry = first_registry c.registries;
  verifier = verifier_of c trust;
  resolver = resolver_config c;
  parallel_lookups = 10;
  timeout = lookup_timeout c.registries;
}

-- `initProviders`: an error of the cache or of the queue ends it; without a trust provider there is no
-- verifier.
unfoldable pub init_providers :
    {T : Type 0}
    → (RedisOptions → Bool)
    → (RedisQueueOptions → Bool)
    → (Text → Text → T)
    → T
    → Config
    → Result Text (Providers T)
init_providers ping_cache ping_queue new_file mock c = do
  cache ← new_cache ping_cache c
  queue ← new_queue ping_queue c
  ok (assembled (new_trust new_file mock c) c cache queue)
