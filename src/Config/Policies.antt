-- ===== src/Config/Policies.antt =====
-- The settings of the registries, the trust providers, the policies and the rate limits. A map of
-- YAML values holds each value as its text.
use route_ans.Prelude.{Bool, List, Text}
use route_ans.Prelude.Int.{ℤ}

pub record RegistryConfig : Type 0 where
  pub name : Text
  pub kind : Text
  pub enabled : Bool
  pub priority : ℤ
  pub timeout : ℤ
  pub retries : ℤ
  pub retry_backoff : ℤ
  pub config : List (Text × Text)

pub record OcspConfig : Type 0 where
  pub enabled : Bool
  pub timeout : ℤ
  pub cache_timeout : ℤ

pub record CrlConfig : Type 0 where
  pub enabled : Bool
  pub cache_timeout : ℤ

pub record VerificationConfig : Type 0 where
  pub enabled : Bool
  pub require_signature : Bool
  pub require_merkle_proof : Bool
  pub check_revocation : Bool
  pub allow_expired_grace_period : ℤ
  pub ocsp : OcspConfig
  pub crl : CrlConfig

pub record FileTrustConfig : Type 0 where
  pub trusted_roots_file : Text
  pub trusted_registrars_file : Text
  pub refresh_interval : ℤ

pub record VaultConfig : Type 0 where
  pub address : Text
  pub auth_method : Text
  pub token : Text
  pub role : Text
  pub secret_path : Text
  pub tls_skip_verify : Bool

pub record K8sSecretConfig : Type 0 where
  pub namespace : Text
  pub secret_name : Text
  pub roots_key : Text
  pub registrars_key : Text

pub record TrustConfig : Type 0 where
  pub provider : Text
  pub verification : VerificationConfig
  pub file : FileTrustConfig
  pub vault : VaultConfig
  pub k8s_secret : K8sSecretConfig

pub record PolicyRule : Type 0 where
  pub name : Text
  pub enabled : Bool
  pub kind : Text
  pub field : Text
  pub values : List Text

pub record PolicyConfig : Type 0 where
  pub enabled : Bool
  pub default_action : Text
  pub rules : List PolicyRule

pub record RateLimitEntry : Type 0 where
  pub requests : ℤ
  pub window : ℤ

pub record RateLimitRedisConfig : Type 0 where
  pub address : Text
  pub key_prefix : Text

pub record RateLimitConfig : Type 0 where
  pub enabled : Bool
  pub provider : Text
  pub key_extractor : Text
  pub limits : List (Text × RateLimitEntry)
  pub redis : RateLimitRedisConfig
