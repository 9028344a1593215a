-- ===== src/Resolver/Types.antt =====
-- The configuration, the state, the counters and the errors of the resolver:
-- internal/resolver/resolver.go.
use route_ans.Prelude.{ℕ, ◌+◌, ◌*◌, Text, codes}
use route_ans.Prelude.Int.{ℤ, pos}
use route_ans.Ansname.Record.{Error}
use route_ans.Cache.Memory.{second}
use route_ans.Trust.Verifier.{Status}

-- `Config`, with durations in nanoseconds and without the lookup timeout and the number of parallel
-- lookups.
pub record Config : Type 0 where
  pub default_ttl : ℤ
  pub verified_ttl : ℤ
  pub revoked_ttl : ℤ
  pub not_found_ttl : ℤ
  pub verification_mode : Text

-- `DefaultConfig`
abbrev pub default_config : Config
default_config = record {
  default_ttl = pos (300 * second);
  verified_ttl = pos (600 * second);
  revoked_ttl = pos (3600 * second);
  not_found_ttl = pos (60 * second);
  verification_mode = codes "strict";
}

-- `stats`
pub record Counters : Type 0 where
  pub total_requests : ℕ
  pub cache_hits : ℕ
  pub cache_misses : ℕ
  pub registry_lookups : ℕ
  pub verification_success : ℕ
  pub verification_failures : ℕ
  pub total_latency : ℕ
  pub request_count : ℕ

pub record State (S : Type 0) : Type 0 where
  pub cache : S
  pub stats : Counters

-- The times of one call: of the read, in the verifier, behind it, of the write, and its latency.
pub record Clock : Type 0 where
  pub read_at : ℕ
  pub checked_at : ℕ
  pub verified_at : ℕ
  pub stored_at : ℕ
  pub latency : ℕ

-- The errors of the resolver; a wrapped error keeps its cause.
pub data ResolveError : Type 0 where
  agent_not_found : Text → ResolveError
  lookup_failed : ResolveError
  verification_error : Text → ResolveError
  verification_failed : Text → Status → ResolveError
  invalid_name : Error → ResolveError
  no_valid_candidates : ResolveError
  negotiation_failed : Error → ResolveError

-- The request is counted when it starts, its latency when it ends.
abbrev pub started : Counters → Counters
started n = record n { total_requests = n.total_requests + 1 }

abbrev pub finished : ℕ → Counters → Counters
finished latency n = record n {
  total_latency = n.total_latency + latency;
  request_count = n.request_count + 1;
}

abbrev pub failure : Counters → Counters
failure n = record n { verification_failures = n.verification_failures + 1 }

abbrev pub success : Counters → Counters
success n = record n { verification_success = n.verification_success + 1 }

abbrev pub missed : Counters → Counters
missed n = record n { cache_misses = n.cache_misses + 1; registry_lookups = n.registry_lookups + 1 }

abbrev pub hit : Counters → Counters
hit n = record n { cache_hits = n.cache_hits + 1 }

abbrev pub searched : Counters → Counters
searched n = record n { registry_lookups = n.registry_lookups + 1 }

-- The start of `ResolveWithRange`, up to its lookup.
abbrev pub looking_up : {S : Type 0} → State S → State S
looking_up s = record s { stats = searched (started s.stats) }
