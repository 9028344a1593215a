-- ===== src/Resolver/Request/Counts.antt =====
-- What each request counts.
use route_ans.Prelude.{ℕ, ◌+◌, ◌≤◌, ◌≡◌, refl, Option, none, some, Text, Result, ok, err, arith}
use route_ans.Models.{ResolutionRecord}
use route_ans.Ansname.Record.{AnsName, string, cache_key, fqdn}
use route_ans.Ansname.Parse.{Url}
use route_ans.Registry.Record.{Record, Adapter, LookupError}
use route_ans.Resolver.Store.{Store}
use route_ans.Resolver.Types.{
  Config, Counters, State, Clock, ResolveError, started, missed, looking_up,
}
use route_ans.Resolver.Judge.{Verifier, verify_record}
use route_ans.Resolver.Request.{
  keep, answer, after_read, resolve, resolve_with_range, resolve_chosen, choose, range_or_any,
}

-- The second counters follow from the first by some verifications and nothing else.
abbrev pub OnlyVerified : ℕ → Counters → Counters → Type 0
OnlyVerified bound n m =
    (m.total_requests ≡ n.total_requests)
    × (m.cache_hits ≡ n.cache_hits)
    × (m.cache_misses ≡ n.cache_misses)
    × (m.registry_lookups ≡ n.registry_lookups)
    × (m.total_latency ≡ n.total_latency)
    × (m.request_count ≡ n.request_count)
    × (m.verification_success + m.verification_failures
        ≤ n.verification_success + n.verification_failures + bound)

verify_record-counts :
    (cfg : Config) (verifier : Option Verifier) (now : ℕ) (name : Text) (r : Record) (n : Counters)
    → OnlyVerified 1 n (verify_record cfg verifier now name r n).0
unfolding verify_record
verify_record-counts cfg verifier now name r n = ground arith

module _ (cfg : Config) (verifier : Option Verifier) {S : Type 0} (store : Store S)
    (registry : Adapter) where
  keep_stats :
      (clock : Clock) (name : AnsName) (c : S) (n : Counters)
      (m : Result ResolveError ResolutionRecord)
      → (keep cfg verifier store clock name c n m).0.stats ≡ n
  keep_stats clock name c n (ok r) = refl
  keep_stats clock name c n (err e) = refl

  pub answer-counts :
      (clock : Clock) (name : AnsName) (c : S) (n : Counters) (m : Result LookupError Record)
      → OnlyVerified 1 n (answer cfg verifier store clock name c n m).0.stats
  answer-counts clock name c n (ok r) =
      let judged = verify_record cfg verifier clock.checked_at (string name) r n in
      rw (keep_stats clock name c judged.0 judged.1)
        (verify_record-counts cfg verifier clock.checked_at (string name) r n)
  answer-counts clock name c n (err e) = ground arith

  -- What `Resolve` counts behind the read of the cache.
  after_read-counts :
      (clock : Clock) (name : AnsName) (c : S) (n : Counters) (found : Option ResolutionRecord)
      → (let m = (after_read cfg verifier store registry clock name c n found).0.stats in
          (m.total_requests ≡ n.total_requests)
          × (m.request_count ≡ n.request_count)
          × (m.total_latency ≡ n.total_latency)
          × (m.cache_hits + m.cache_misses ≡ n.cache_hits + n.cache_misses + 1)
          × (m.registry_lookups + n.cache_misses ≡ n.registry_lookups + m.cache_misses)
          × (m.verification_success + m.verification_failures
              ≤ n.verification_success + n.verification_failures + 1))
  after_read-counts clock name c n (some r) = ground arith
  after_read-counts clock name c n none =
      ground (arith, answer-counts clock name c (missed n) (registry.lookup name))

  -- What `Resolve` counts: every request once, with its latency, as a hit or as a miss; a lookup at
  -- the registry for every miss and for no hit; and at most one verification.
  pub resolve-counts :
      (clock : Clock) (name : AnsName) (s : State S)
      → (let n = s.stats in
          let m = (resolve cfg verifier store registry clock name s).0.stats in
          (m.total_requests ≡ n.total_requests + 1)
          × (m.request_count ≡ n.request_count + 1)
          × (m.total_latency ≡ n.total_latency + clock.latency)
          × (m.cache_hits + m.cache_misses ≡ n.cache_hits + n.cache_misses + 1)
          × (m.registry_lookups + n.cache_misses ≡ n.registry_lookups + m.cache_misses)
          × (m.verification_success + m.verification_failures
              ≤ n.verification_success + n.verification_failures + 1))
  unfolding resolve
  resolve-counts clock name s =
      let read = store.fetch clock.read_at (cache_key name) s.cache in
      ground (arith, after_read-counts clock name read.0 (started s.stats) read.1)

  resolve_chosen-counts :
      (url_parse : Text → Option Url) (clock : Clock) (chosen : Result ResolveError AnsName)
      (s : State S) {r : ResolutionRecord}
      → (let after = resolve_chosen cfg verifier store registry url_parse clock chosen s in
          after.1 ≡ ok r
          → (after.0.stats.total_requests ≡ s.stats.total_requests + 1)
            × (after.0.stats.request_count ≡ s.stats.request_count + 1))
  resolve_chosen-counts url_parse clock (err e) s = λ h. cc
  resolve_chosen-counts url_parse clock (ok best) s =
      λ h. ground (arith, resolve-counts clock best s)

  -- A negotiated request that succeeds is counted twice: by `ResolveWithRange`, which adds a lookup
  -- of its own, and by the `Resolve` that it ends in.
  pub resolve_with_range-counted_twice :
      (url_parse : Text → Option Url) (clock : Clock) (latency : ℕ) (name : AnsName) (range : Text)
      (s : State S) {r : ResolutionRecord}
      → (let after =
            resolve_with_range cfg verifier store registry url_parse clock latency name range s in
          after.1 ≡ ok r
          → (after.0.stats.total_requests ≡ s.stats.total_requests + 2)
            × (after.0.stats.request_count ≡ s.stats.request_count + 2))
  unfolding resolve_with_range
  resolve_with_range-counted_twice url_parse clock latency name range s {r} h =
      let chosen =
        choose url_parse (fqdn name) (range_or_any range) (registry.lookup_by_fqdn (fqdn name)) in
      let (total, count) = resolve_chosen-counts url_parse clock chosen (looking_up s) {r = r} h in
      (ground arith, ground arith)
