-- ===== src/Config/Types.antt =====
-- The settings of the telemetry, and `Config` itself.
use route_ans.Prelude.{Bool, List, Text}
use route_ans.Prelude.Int.{ℤ}
use route_ans.Config.Providers.{ServerConfig, CacheConfig, QueueConfig}
use route_ans.Config.Policies.{RegistryConfig, TrustConfig, PolicyConfig, RateLimitConfig}

pub record LogFileConfig : Type 0 where
  pub path : Text
  pub max_size : ℤ
  pub max_backups : ℤ
  pub max_age : ℤ
  pub compress : Bool

pub record LoggingConfig : Type 0 where
  pub level : Text
  pub format : Text
  pub output : Text
  pub file : LogFileConfig

pub record MetricsConfig : Type 0 where
  pub enabled : Bool
  pub host : Text
  pub port : ℤ
  pub path : Text
  pub namespace : Text
  pub subsystem : Text

pub record OtlpConfig : Type 0 where
  pub endpoint : Text
  pub insecure : Bool
  pub headers : Text

pub record JaegerConfig : Type 0 where
  pub endpoint : Text
  pub agent_host : Text
  pub agent_port : ℤ

pub record TracingConfig : Type 0 where
  pub enabled : Bool
  pub provider : Text
  -- in thousandths
  pub sample_rate : ℤ
  pub service_name : Text
  pub otlp : OtlpConfig
  pub jaeger : JaegerConfig

pub record TelemetryConfig : Type 0 where
  pub logging : LoggingConfig
  pub metrics : MetricsConfig
  pub tracing : TracingConfig

pub record Config : Type 0 where
  pub server : ServerConfig
  pub cache : CacheConfig
  pub queue : QueueConfig
  pub registries : List RegistryConfig
  pub trust : TrustConfig
  pub policy : PolicyConfig
  pub rate_limit : RateLimitConfig
  pub telemetry : TelemetryConfig
