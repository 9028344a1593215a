-- ===== src/Tests/Settings.antt =====
-- A configuration in which nothing is set.
use route_ans.Prelude.{false, []}
use route_ans.Prelude.Int.{pos}
use route_ans.Config.Providers.{ServerConfig, CacheConfig, QueueConfig}
use route_ans.Config.Policies.{TrustConfig, PolicyConfig, RateLimitConfig}
use route_ans.Config.Types.{TelemetryConfig, Config}

abbrev pub zero_server_config : ServerConfig
zero_server_config = record {
  host = [];
  port = pos 0;
  read_timeout = pos 0;
  write_timeout = pos 0;
  idle_timeout = pos 0;
  max_header_bytes = pos 0;
  graceful_shutdown_timeout = pos 0;
}

abbrev pub zero_cache_config : CacheConfig
zero_cache_config = record {
  provider = [];
  ttl = record { default = pos 0; verified = pos 0; revoked = pos 0; not_found = pos 0 };
  memory = record { max_size = pos 0; cleanup_interval = pos 0 };
  redis = record {
    address = [];
    password = [];
    db = pos 0;
    pool_size = pos 0;
    min_idle_conns = pos 0;
    dial_timeout = pos 0;
    read_timeout = pos 0;
    write_timeout = pos 0;
    pool_timeout = pos 0;
    idle_timeout = pos 0;
    key_prefix = [];
    max_retries = pos 0;
    tls = record { enabled = false; insecure_skip_verify = false };
  };
  memcached = record { servers = []; timeout = pos 0; max_idle_conns = pos 0 };
}

abbrev pub zero_queue_config : QueueConfig
zero_queue_config = record {
  enabled = false;
  provider = [];
  buffer_size = pos 0;
  redis_streams = record {
    address = [];
    password = [];
    db = pos 0;
    stream = [];
    consumer_group = [];
    consumer = [];
    block_timeout = pos 0;
    batch_size = pos 0;
  };
  kafka = record {
    brokers = [];
    topic = [];
    group_id = [];
    auto_offset_reset = [];
    session_timeout = pos 0;
    tls = record { enabled = false };
    sasl = record { enabled = false; mechanism = []; username = []; password = [] };
  };
  nats = record {
    url = [];
    subject = [];
    queue = [];
    durable_name = [];
    tls = record { enabled = false };
  };
}

abbrev pub zero_trust_config : TrustConfig
zero_trust_config = record {
  provider = [];
  verification = record {
    enabled = false;
    require_signature = false;
    require_merkle_proof = false;
    check_revocation = false;
    allow_expired_grace_period = pos 0;
    ocsp = record { enabled = false; timeout = pos 0; cache_timeout = pos 0 };
    crl = record { enabled = false; cache_timeout = pos 0 };
  };
  file = record { trusted_roots_file = []; trusted_registrars_file = []; refresh_interval = pos 0 };
  vault = record {
    address = [];
    auth_method = [];
    token = [];
    role = [];
    secret_path = [];
    tls_skip_verify = false;
  };
  k8s_secret = record { namespace = []; secret_name = []; roots_key = []; registrars_key = [] };
}

abbrev pub zero_policy_config : PolicyConfig
zero_policy_config = record { enabled = false; default_action = []; rules = [] }

abbrev pub zero_rate_limit_config : RateLimitConfig
zero_rate_limit_config = record {
  enabled = false;
  provider = [];
  key_extractor = [];
  limits = [];
  redis = record { address = []; key_prefix = [] };
}

abbrev pub zero_telemetry_config : TelemetryConfig
zero_telemetry_config = record {
  logging = record {
    level = [];
    format = [];
    output = [];
    file = record {
      path = [];
      max_size = pos 0;
      max_backups = pos 0;
      max_age = pos 0;
      compress = false;
    };
  };
  metrics = record {
    enabled = false;
    host = [];
    port = pos 0;
    path = [];
    namespace = [];
    subsystem = [];
  };
  tracing = record {
    enabled = false;
    provider = [];
    sample_rate = pos 0;
    service_name = [];
    otlp = record { endpoint = []; insecure = false; headers = [] };
    jaeger = record { endpoint = []; agent_host = []; agent_port = pos 0 };
  };
}

abbrev pub zero_config : Config
zero_config = record {
  server = zero_server_config;
  cache = zero_cache_config;
  queue = zero_queue_config;
  registries = [];
  trust = zero_trust_config;
  policy = zero_policy_config;
  rate_limit = zero_rate_limit_config;
  telemetry = zero_telemetry_config;
}
