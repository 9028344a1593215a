-- ===== src/Tests/Requests.antt =====
-- Requests on the memory cache, the mock registry and the verifier: internal/resolver/resolver.go.
use route_ans.Prelude.{
  ◌+◌, ◌≡◌, ◌≤◌, refl, true, false, Option, none, some, List, [], ◌∷◌, Text, codes, text_eq, Result,
  ok, arith,
}
use route_ans.Models.{ResolutionRecord}
use route_ans.Ansname.Patterns.{
  version_pattern, provider_id_pattern, protocol_pattern, alphanumeric_suffix, all_bytes, skip_byte,
  read_triple, read_digits, read_byte, span,
}
use route_ans.Ansname.Record.{AnsName, string, cache_key, fqdn, to_lower}
use route_ans.Ansname.Dots.{split, join}
use route_ans.Ansname.Parse.{
  Url, find_version, parse_simplified, parse_full_at, parse_full, parse_components, parse_url,
  parse,
}
use route_ans.Ansname.Negotiate.Selection.{Selected}
use route_ans.Cache.Table.{lookup, insert, delete}
use route_ans.Cache.Recency.{remove, move_to_front, back, member}
use route_ans.Cache.Memory.{
  MemoryCache, get, set, delete_key, evict_oldest, evict_while_full, default_options,
  new_memory_cache,
}
use route_ans.Cache.Memory.Validity.{new_memory_cache-IsValid}
use route_ans.Cache.Memory.View.{view}
use route_ans.Registry.Record.{Record, Adapter, to_resolution_record}
use route_ans.Registry.Mock.{mock_adapter, lookup_record, records_of_fqdn}
use route_ans.Trust.Verifier.{verify_registry_record}
use route_ans.Resolver.Store.{memory_store, memory_store-StoreLaws}
use route_ans.Resolver.Types.{default_config, Counters, State, Clock, looking_up, ResolveError}
use route_ans.Resolver.Judge.{Verifier, verify_record, ttl_of, revocation_check}
use route_ans.Resolver.Events.{process_event, handle_queue_event}
use route_ans.Resolver.Request.{resolve, resolve_with_range, candidates_of, range_or_any}
use route_ans.Resolver.Request.Reads.{LastsFor, resolve-hit_after_miss}
use route_ans.Resolver.Judge.Vouched.{Vouched}
use route_ans.Resolver.Request.Strict.{Clean, Reaches, resolve-Vouched}
use route_ans.Resolver.Request.Negotiated.{resolve_with_range-Selected}
use route_ans.Resolver.Request.Counts.{resolve-counts}
use route_ans.Tests.Verdicts.{verdicts, config, keys, crypto, listed}
use route_ans.Tests.Versions.{versions, first}

unfoldable pub requests : Unit {0}
unfolding verdicts versions version_pattern provider_id_pattern protocol_pattern alphanumeric_suffix
    all_bytes skip_byte read_triple read_digits read_byte span string cache_key fqdn to_lower split
    join find_version parse_simplified parse_full_at parse_full parse_components parse_url parse
    lookup insert delete remove move_to_front back member get set delete_key evict_oldest
    evict_while_full new_memory_cache view to_resolution_record lookup_record records_of_fqdn
    verify_record ttl_of revocation_check process_event handle_queue_event resolve
    resolve_with_range candidates_of text_eq
requests = tt

abbrev no_counts : Counters
no_counts = record {
  total_requests = 0;
  cache_hits = 0;
  cache_misses = 0;
  registry_lookups = 0;
  verification_success = 0;
  verification_failures = 0;
  total_latency = 0;
  request_count = 0;
}

abbrev pub start : State (MemoryCache ResolutionRecord)
start = record { cache = new_memory_cache default_options; stats = no_counts }

abbrev pub clock : Clock
clock = record { read_at = 50; checked_at = 50; verified_at = 51; stored_at = 52; latency = 3 }

abbrev pub later : Clock
later = record { read_at = 70; checked_at = 70; verified_at = 71; stored_at = 72; latency = 1 }

abbrev pub registry : Adapter
registry = mock_adapter ((listed.ans_name, listed) ∷ [])

abbrev pub verifier : Verifier
verifier = λ now r. ok (verify_registry_record crypto (some keys) config (λ l. l) now r)

-- The record is listed as revoked, and served as active.
abbrev pub served : ResolutionRecord
served = record (to_resolution_record listed) {
  status = codes "active";
  verified_at = 51;
  verification = some (record {
    merkle_proof = none;
    signature_valid = true;
    certificate_valid = true;
    revocation_checked = false;
    not_revoked = false;
  });
}

abbrev pub run_first : State (MemoryCache ResolutionRecord) × Result ResolveError ResolutionRecord
run_first = resolve default_config (some verifier) memory_store registry clock first start

resolve_first : run_first.1 ≡ ok served
unfolding requests
resolve_first = refl

pub long : LastsFor 100 default_config
long = record {
  positive = omega arith;
  default_long = (_, refl, omega arith);
  verified_long = (_, refl, omega arith);
  revoked_long = (_, refl, omega arith);
}

pub strict_mode : default_config.verification_mode ≡ codes "strict"
strict_mode = refl

pub start-Clean :
    Clean default_config verifier strict_mode memory_store memory_store-StoreLaws start.cache
unfolding requests
start-Clean = record { good = new_memory_cache-IsValid default_options; vouched = λ t j {r} e. cc }

resolve-Vouched_example :
    Vouched verifier served
    × Clean default_config verifier strict_mode memory_store memory_store-StoreLaws
        run_first.0.cache
unfolding requests
resolve-Vouched_example =
    resolve-Vouched default_config verifier strict_mode memory_store memory_store-StoreLaws start
      start registry clock first {r = served} start-Clean Reaches.at_start refl

-- The later request finds the registry empty.
resolve-hit_after_miss_example :
    (let last =
        resolve default_config
          (some verifier)
          memory_store
          (mock_adapter [])
          later
          first
          run_first.0 in
      (last.1 ≡ ok served)
      × (last.0.stats.cache_hits ≡ 1)
      × (last.0.stats.registry_lookups ≡ run_first.0.stats.registry_lookups)
      × (last.0.stats.verification_success ≡ run_first.0.stats.verification_success)
      × (last.0.stats.verification_failures ≡ run_first.0.stats.verification_failures))
unfolding requests
resolve-hit_after_miss_example =
    resolve-hit_after_miss default_config (some verifier) memory_store memory_store-StoreLaws
      registry (mock_adapter []) clock later first first start 100 {r = served} long
      (new_memory_cache-IsValid default_options) refl refl refl (omega arith)

-- The text of `first`, read by a parser that knows this text.
abbrev pub url_parse : Text → Option Url
url_parse s = some (record {
  scheme = codes "mcp";
  host = codes "chat.text.PID-1.v1.2.3.example.com";
  opaque = [];
})

resolve-counts_example :
    (let n = start.stats in
      let m = run_first.0.stats in
      (m.total_requests ≡ n.total_requests + 1)
      × (m.request_count ≡ n.request_count + 1)
      × (m.total_latency ≡ n.total_latency + 3)
      × (m.cache_hits + m.cache_misses ≡ n.cache_hits + n.cache_misses + 1)
      × (m.registry_lookups + n.cache_misses ≡ n.registry_lookups + m.cache_misses)
      × (m.verification_success + m.verification_failures
          ≤ n.verification_success + n.verification_failures + 1))
resolve-counts_example =
    resolve-counts default_config (some verifier) memory_store registry clock first start

abbrev run_range : State (MemoryCache ResolutionRecord) × Result ResolveError ResolutionRecord
run_range =
    resolve_with_range default_config (some verifier) memory_store registry url_parse clock 4 first
      [] start

resolve_with_range-Selected_example :
    (best : AnsName) × (rs : List Record) × (registry.lookup_by_fqdn (fqdn first) ≡ ok rs)
    × Selected (range_or_any []) (candidates_of url_parse rs) best
    × ((resolve default_config
          (some verifier)
          memory_store
          registry
          clock
          best
          (looking_up start)).1
        ≡ ok served)
unfolding requests
resolve_with_range-Selected_example =
    resolve_with_range-Selected default_config (some verifier) memory_store registry url_parse clock
      4 first [] start {r = served} refl
