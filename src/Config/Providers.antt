-- ===== src/Config/Providers.antt =====
-- The settings of the server, the caches and the queues. An integer and a duration, in nanoseconds,
-- may be negative.
use route_ans.Prelude.{Bool, List, Text}
use route_ans.Prelude.Int.{ℤ}

pub record ServerConfig : Type 0 where
  pub host : Text
  pub port : ℤ
  pub read_timeout : ℤ
  pub write_timeout : ℤ
  pub idle_timeout : ℤ
  pub max_header_bytes : ℤ
  pub graceful_shutdown_timeout : ℤ

pub record CacheTtlConfig : Type 0 where
  pub default : ℤ
  pub verified : ℤ
  pub revoked : ℤ
  pub not_found : ℤ

pub record MemoryCacheConfig : Type 0 where
  pub max_size : ℤ
  pub cleanup_interval : ℤ

pub record RedisTlsConfig : Type 0 where
  pub enabled : Bool
  pub insecure_skip_verify : Bool

pub record RedisCacheConfig : Type 0 where
  pub address : Text
  pub password : Text
  pub db : ℤ
  pub pool_size : ℤ
  pub min_idle_conns : ℤ
  pub dial_timeout : ℤ
  pub read_timeout : ℤ
  pub write_timeout : ℤ
  pub pool_timeout : ℤ
  pub idle_timeout : ℤ
  pub key_prefix : Text
  pub max_retries : ℤ
  pub tls : RedisTlsConfig

pub record MemcachedConfig : Type 0 where
  pub servers : List Text
  pub timeout : ℤ
  pub max_idle_conns : ℤ

pub record CacheConfig : Type 0 where
  pub provider : Text
  pub ttl : CacheTtlConfig
  pub memory : MemoryCacheConfig
  pub redis : RedisCacheConfig
  pub memcached : MemcachedConfig

pub record RedisStreamsConfig : Type 0 where
  pub address : Text
  pub password : Text
  pub db : ℤ
  pub stream : Text
  pub consumer_group : Text
  pub consumer : Text
  pub block_timeout : ℤ
  pub batch_size : ℤ

pub record KafkaTlsConfig : Type 0 where
  pub enabled : Bool

pub record KafkaSaslConfig : Type 0 where
  pub enabled : Bool
  pub mechanism : Text
  pub username : Text
  pub password : Text

pub record KafkaConfig : Type 0 where
  pub brokers : List Text
  pub topic : Text
  pub group_id : Text
  pub auto_offset_reset : Text
  pub session_timeout : ℤ
  pub tls : KafkaTlsConfig
  pub sasl : KafkaSaslConfig

pub record NatsTlsConfig : Type 0 where
  pub enabled : Bool

pub record NatsConfig : Type 0 where
  pub url : Text
  pub subject : Text
  pub queue : Text
  pub durable_name : Text
  pub tls : NatsTlsConfig

pub record QueueConfig : Type 0 where
  pub enabled : Bool
  pub provider : Text
  pub buffer_size : ℤ
  pub redis_streams : RedisStreamsConfig
  pub kafka : KafkaConfig
  pub nats : NatsConfig
