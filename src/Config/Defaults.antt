-- ===== src/Config/Defaults.antt =====
-- `setDefaults`: a setting that is zero gets its default.
use route_ans.Prelude.{
  ℕ, ◌*◌, ◌^◌, ◌≡◌, [], Text, codes, text_eq, text_eq_iff, if◌then◌else◌, arith,
}
use route_ans.Prelude.Int.{ℤ, pos, ◌==ℤ◌}
use route_ans.Config.Providers.{
  ServerConfig, CacheConfig, CacheTtlConfig, MemoryCacheConfig, QueueConfig,
}
use route_ans.Config.Policies.{TrustConfig, PolicyConfig, RateLimitConfig}
use route_ans.Config.Types.{LoggingConfig, MetricsConfig, TracingConfig, TelemetryConfig, Config}

unfoldable pub or_text : Text → Text → Text
or_text given default = if text_eq given [] then default else given

unfoldable pub or_int : ℤ → ℤ → ℤ
or_int given default = if given ==ℤ pos 0 then default else given

abbrev pub seconds : ℕ → ℤ
seconds n = pos (n * 1000000000)

unfoldable pub server_defaults : ServerConfig → ServerConfig
server_defaults c = record c {
  host = or_text c.host (codes "0.0.0.0");
  port = or_int c.port (pos 8080);
  read_timeout = or_int c.read_timeout (seconds 30);
  write_timeout = or_int c.write_timeout (seconds 30);
  idle_timeout = or_int c.idle_timeout (seconds 120);
  max_header_bytes = or_int c.max_header_bytes (pos (2 ^ 20));
  graceful_shutdown_timeout = or_int c.graceful_shutdown_timeout (seconds 30);
}

unfoldable pub ttl_defaults : CacheTtlConfig → CacheTtlConfig
ttl_defaults c = record c {
  default = or_int c.default (seconds 300);
  verified = or_int c.verified (seconds 600);
  revoked = or_int c.revoked (seconds 3600);
  not_found = or_int c.not_found (seconds 60);
}

unfoldable pub memory_defaults : MemoryCacheConfig → MemoryCacheConfig
memory_defaults c = record c {
  max_size = or_int c.max_size (pos 10000);
  cleanup_interval = or_int c.cleanup_interval (seconds 60);
}

unfoldable pub cache_defaults : CacheConfig → CacheConfig
cache_defaults c = record c {
  provider = or_text c.provider (codes "memory");
  ttl = ttl_defaults c.ttl;
  memory = memory_defaults c.memory;
}

unfoldable pub queue_defaults : QueueConfig → QueueConfig
queue_defaults c = record c {
  provider = or_text c.provider (codes "memory");
  buffer_size = or_int c.buffer_size (pos 1000);
}

unfoldable pub trust_defaults : TrustConfig → TrustConfig
trust_defaults c = record c { provider = or_text c.provider (codes "file") }

unfoldable pub policy_defaults : PolicyConfig → PolicyConfig
policy_defaults c = record c { default_action = or_text c.default_action (codes "allow") }

unfoldable pub rate_limit_defaults : RateLimitConfig → RateLimitConfig
rate_limit_defaults c = record c {
  provider = or_text c.provider (codes "memory");
  key_extractor = or_text c.key_extractor (codes "ip");
}

unfoldable pub logging_defaults : LoggingConfig → LoggingConfig
logging_defaults c = record c {
  level = or_text c.level (codes "info");
  format = or_text c.format (codes "json");
}

unfoldable pub metrics_defaults : MetricsConfig → MetricsConfig
metrics_defaults c = record c {
  port = or_int c.port (pos 9091);
  path = or_text c.path (codes "/metrics");
}

unfoldable pub tracing_defaults : TracingConfig → TracingConfig
tracing_defaults c = record c {
  sample_rate = or_int c.sample_rate (pos 100);
  service_name = or_text c.service_name (codes "ans-resolver");
}

unfoldable pub telemetry_defaults : TelemetryConfig → TelemetryConfig
telemetry_defaults c = record c {
  logging = logging_defaults c.logging;
  metrics = metrics_defaults c.metrics;
  tracing = tracing_defaults c.tracing;
}

unfoldable pub set_defaults : Config → Config
set_defaults c = record c {
  server = server_defaults c.server;
  cache = cache_defaults c.cache;
  queue = queue_defaults c.queue;
  trust = trust_defaults c.trust;
  policy = policy_defaults c.policy;
  rate_limit = rate_limit_defaults c.rate_limit;
  telemetry = telemetry_defaults c.telemetry;
}

or_text_twice : (t d : Text) → or_text (or_text t d) d ≡ or_text t d
unfolding or_text
or_text_twice t d = ground (arith, text_eq_iff t [])

or_int_twice : (n d : ℤ) → or_int (or_int n d) d ≡ or_int n d
unfolding or_int
or_int_twice n d = ground arith

-- The defaults set once are all that a second setting gives.
pub set_defaults-set_defaults : (c : Config) → set_defaults (set_defaults c) ≡ set_defaults c
unfolding set_defaults server_defaults ttl_defaults memory_defaults cache_defaults queue_defaults
    trust_defaults policy_defaults rate_limit_defaults logging_defaults metrics_defaults
    tracing_defaults telemetry_defaults
set_defaults-set_defaults c = simp (or_text_twice, or_int_twice)
