-- ===== src/Resolver/Store/Redis.antt =====
-- The resolver over the Redis cache of internal/cache/redis.go.
use route_ans.Prelude.{
  ℕ, ◌+◌, ◌++◌, ◌≡◌, refl, Option, none, some, Text, Result, ok, err, arith, Result-cases, inl, inr,
}
use route_ans.Models.{ResolutionRecord}
use route_ans.Ansname.Record.{AnsName, cache_key}
use route_ans.Registry.Record.{Adapter}
use route_ans.Cache.Redis.{
  Client, RedisCache, Cached, typed, decoded, decode, redis_get, redis_set, redis_delete,
}
use route_ans.Resolver.Store.{Store}
use route_ans.Resolver.Types.{Config, State, Clock, started, missed}
use route_ans.Resolver.Judge.{Verifier}
use route_ans.Resolver.Request.{answer, resolve}
use route_ans.Resolver.Request.Counts.{answer-counts}

-- The type assertion of `Resolve` on what the cache returned; an error is logged and is a miss.
abbrev pub asserted : {V J : Type 0} → Result Text (Option (Cached V J)) → Option V
asserted (ok (some (typed v))) = some v
asserted (ok (some (decoded j))) = none
asserted (ok none) = none
asserted (err e) = none

-- A state that a failed command leaves as it was.
abbrev pub or_same : {S : Type 0} → S → Result Text S → S
or_same s (ok s') = s'
or_same s (err e) = s

module _ {S J : Type 0} (client : Client S) (marshal : ResolutionRecord → Option Text)
    (unmarshal : Text → Option J) (c : RedisCache) where
  -- The Redis cache as the resolver sees it.
  abbrev pub redis_store : Store S
  redis_store = record {
    fetch = λ now k s.
        (s, asserted (redis_get client {V = ResolutionRecord} marshal unmarshal c now k s));
    put = λ now k v ttl s. or_same s (redis_set client marshal unmarshal c now k v ttl s);
    drop_key = λ k s. or_same s (redis_delete client c k s);
    in_view =
        λ now s k. asserted (redis_get client {V = ResolutionRecord} marshal unmarshal c now k s);
    Good = λ s. Unit;
  }

  decode-asserted :
      (found : Option Text)
      → asserted (decode client {V = ResolutionRecord} {J = J} marshal unmarshal found) ≡ none
  decode-asserted none = refl
  decode-asserted (some bytes) = ground arith

  -- Nothing that Redis returns passes the assertion.
  redis_get-asserted :
      (now : ℕ) (k : Text) (s : S)
      → asserted (redis_get client {V = ResolutionRecord} marshal unmarshal c now k s) ≡ none
  unfolding redis_get
  redis_get-asserted now k s = elim (Result-cases (client.get_bytes now (c.namespace ++ k) s)) [
    | inl (found, e) ↦ rw (e, redis_get) (decode-asserted found)
    | inr (x, e) ↦ rw (e, redis_get) refl
  ]

  -- Over the Redis cache no request is ever a hit, whatever the server holds, for what it returns is
  -- never a record: every request is a miss, asks the registry, and has the result that steps 2 to 5
  -- give on the registry's answer.
  pub resolve-redis_misses :
      (cfg : Config) (verifier : Option Verifier) (registry : Adapter) (clock : Clock)
      (name : AnsName) (s : State S)
      → (let after = resolve cfg verifier redis_store registry clock name s in
          (after.0.stats.cache_hits ≡ s.stats.cache_hits)
          × (after.0.stats.cache_misses ≡ s.stats.cache_misses + 1)
          × (after.0.stats.registry_lookups ≡ s.stats.registry_lookups + 1)
          × (after.1
              ≡ (answer cfg verifier redis_store clock name s.cache
                  (missed (started s.stats))
                  (registry.lookup name)).1))
  unfolding resolve
  resolve-redis_misses cfg verifier registry clock name s =
      let counted =
        answer-counts cfg verifier redis_store registry clock name s.cache
          (missed (started s.stats)) (registry.lookup name) in
      rw (resolve, redis_get-asserted clock.read_at (cache_key name) s.cache)
        (ground (arith, counted), ground (arith, counted), ground (arith, counted), refl)
