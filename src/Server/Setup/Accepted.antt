-- ===== src/Server/Setup/Accepted.antt =====
-- What `initProviders` makes of a configuration that `Load` returned.
use route_ans.Prelude.{
  ◌≡◌, ◌↔◌, ◌⊎◌, inl, inr, refl, sym, ap, subst, Bool, true, false, Option, none, some, Text, codes,
  text_eq, text_eq_iff, Result, ok, err, arith, Bool-cases, if◌then◌else◌,
}
use route_ans.Ansname.Record.{contains}
use route_ans.Config.Loading.{cache_providers, queue_providers, trust_providers}
use route_ans.Config.Loading.Validity.{Loaded}
use route_ans.Config.Types.{Config}
use route_ans.Cache.Redis.{RedisOptions}
use route_ans.Queue.Redis.{RedisQueueOptions, redis_queue_options}
use route_ans.Server.Setup.{
  redis_cache_options, queue_options, queue_settings, CacheChoice, QueueChoice, no_queue,
  enabled_queue, Providers, new_cache, new_queue, new_trust, assembled, init_providers,
}

eq_text : (s t : Text) → text_eq s t ≡ true → t ≡ s
eq_text s t h = sym ((text_eq_iff s t).0 h)

cache_cases :
    (p : Text)
    → contains cache_providers p ≡ true
    → (p ≡ codes "memory") ⊎ (p ≡ codes "redis") ⊎ (p ≡ codes "memcached")
unfolding contains
cache_cases p h =
    ground
      (arith, eq_text (codes "memory") p, eq_text (codes "redis") p, eq_text (codes "memcached") p)

queue_cases :
    (p : Text)
    → contains queue_providers p ≡ true
    → (p ≡ codes "memory") ⊎ (p ≡ codes "redis-streams") ⊎ (p ≡ codes "kafka") ⊎ (p ≡ codes "nats")
unfolding contains
queue_cases p h = ground (
  arith,
  eq_text (codes "memory") p,
  eq_text (codes "redis-streams") p,
  eq_text (codes "kafka") p,
  eq_text (codes "nats") p,
)

trust_cases :
    (p : Text)
    → contains trust_providers p ≡ true
    → (p ≡ codes "file") ⊎ (p ≡ codes "vault") ⊎ (p ≡ codes "k8s-secret") ⊎ (p ≡ codes "mock")
unfolding contains
trust_cases p h = ground (
  arith,
  eq_text (codes "file") p,
  eq_text (codes "vault") p,
  eq_text (codes "k8s-secret") p,
  eq_text (codes "mock") p,
)

-- A result is an error exactly under a condition.
abbrev pub FailsIf : {E A : Type 0} → Type 0 → Result E A → Type 0
FailsIf {E} {A} Bad r = (Bad × ((e : E) × (r ≡ err e))) ⊎ ((Bad → ⊥) × ((a : A) × (r ≡ ok a)))

-- The cache has no factory, or is at a Redis server that does not answer.
abbrev pub NoCache : (RedisOptions → Bool) → Config → Type 0
NoCache ping c =
    (c.cache.provider ≡ codes "memcached")
    ⊎ ((c.cache.provider ≡ codes "redis") × (ping (redis_cache_options c) ≡ false))

-- The queue is enabled, and has no factory or is at a Redis server that does not answer.
abbrev pub NoQueue : (RedisQueueOptions → Bool) → Config → Type 0
NoQueue ping c =
    (c.queue.enabled ≡ true)
    × ((c.queue.provider ≡ codes "kafka")
        ⊎ (c.queue.provider ≡ codes "nats")
        ⊎ ((c.queue.provider ≡ codes "redis-streams")
            × (ping (redis_queue_options (queue_options c) (queue_settings c)) ≡ false)))

new_cache-FailsIf :
    (ping : RedisOptions → Bool) (c : Config)
    → contains cache_providers c.cache.provider ≡ true
    → FailsIf (NoCache ping c) (new_cache ping c)
unfolding new_cache
new_cache-FailsIf ping c h =
    let is_memory = text_eq_iff c.cache.provider (codes "memory") in
    let is_redis = text_eq_iff c.cache.provider (codes "redis") in
    elim (Bool-cases (text_eq c.cache.provider (codes "memory"))) [
      | inl memory ↦ rw (memory, new_cache) (inr (λ bad. ground (arith, is_memory), (_, refl)))
      | inr other ↦ elim (Bool-cases (text_eq c.cache.provider (codes "redis"))) [
        | inl redis ↦ elim (Bool-cases (ping (redis_cache_options c))) [
          | inl there ↦
              rw (other, redis, new_cache, there)
                (inr (λ bad. ground (arith, is_redis, there), (_, refl)))
          | inr unreachable ↦
              rw (other, redis, new_cache, unreachable)
                (inl (inr (is_redis.0 redis, refl), (_, refl)))
        ]
        | inr neither ↦
            rw (other, neither, new_cache)
              (inl (
                inl (ground (arith, cache_cases c.cache.provider h, is_memory, is_redis)),
                (_, refl),
              ))
      ]
    ]

enabled_queue-FailsIf :
    (ping : RedisQueueOptions → Bool) (c : Config)
    → c.queue.enabled ≡ true
    → contains queue_providers c.queue.provider ≡ true
    → FailsIf (NoQueue ping c) (enabled_queue ping c)
unfolding enabled_queue
enabled_queue-FailsIf ping c on h =
    let is_memory = text_eq_iff c.queue.provider (codes "memory") in
    let is_redis = text_eq_iff c.queue.provider (codes "redis-streams") in
    elim (Bool-cases (text_eq c.queue.provider (codes "memory"))) [
      | inl memory ↦ rw (memory, enabled_queue) (inr (λ bad. ground (arith, is_memory), (_, refl)))
      | inr other ↦ elim (Bool-cases (text_eq c.queue.provider (codes "redis-streams"))) [
        | inl redis ↦
            elim (Bool-cases (ping (redis_queue_options (queue_options c) (queue_settings c)))) [
              | inl there ↦
                  rw (other, redis, enabled_queue, there)
                    (inr (λ bad. ground (arith, is_redis, there), (_, refl)))
              | inr unreachable ↦
                  rw (other, redis, enabled_queue, unreachable)
                    (inl ((on, inr (inr (is_redis.0 redis, refl))), (_, refl)))
            ]
        | inr neither ↦
            rw (other, neither, enabled_queue)
              (inl (
                (on, ground (arith, queue_cases c.queue.provider h, is_memory, is_redis)),
                (_, refl),
              ))
      ]
    ]

new_queue-FailsIf :
    (ping : RedisQueueOptions → Bool) (c : Config)
    → (c.queue.enabled ≡ true → contains queue_providers c.queue.provider ≡ true)
    → FailsIf (NoQueue ping c) (new_queue ping c)
unfolding new_queue
new_queue-FailsIf ping c h = elim (Bool-cases c.queue.enabled) [
  | inr off ↦
      inr (λ bad. cc, (no_queue, ap (λ b. if b then enabled_queue ping c else ok no_queue) off))
  | inl on ↦
      let whole : new_queue ping c ≡ enabled_queue ping c =
        ap (λ b. if b then enabled_queue ping c else ok no_queue) on in
      subst (FailsIf (NoQueue ping c)) (sym whole) (enabled_queue-FailsIf ping c on (h on))
]

module _ {T : Type 0} (ping_cache : RedisOptions → Bool) (ping_queue : RedisQueueOptions → Bool)
    (new_file : Text → Text → T) (mock : T) where
  -- The trust providers that are accepted and have no factory.
  abbrev pub NoTrust : Config → Type 0
  NoTrust c = (c.trust.provider ≡ codes "vault") ⊎ (c.trust.provider ≡ codes "k8s-secret")

  new_trust-none :
      (c : Config)
      → contains trust_providers c.trust.provider ≡ true
      → (new_trust new_file mock c ≡ none) ↔ NoTrust c
  unfolding new_trust
  new_trust-none c h = elim (Bool-cases (text_eq c.trust.provider (codes "file"))) [
    | inl file ↦
        rw (file, new_trust)
          (λ e. cc, λ bad. ground (arith, text_eq_iff c.trust.provider (codes "file")))
    | inr other ↦ elim (Bool-cases (text_eq c.trust.provider (codes "mock"))) [
      | inl mocked ↦
          rw (other, mocked, new_trust)
            (
              λ e. cc,
              λ bad. ground (
                arith,
                text_eq_iff c.trust.provider (codes "mock"),
                text_eq_iff c.trust.provider (codes "file"),
              ),
            )
      | inr neither ↦
          rw (other, neither, new_trust)
            (
              λ e. ground (
                arith,
                trust_cases c.trust.provider h,
                text_eq_iff c.trust.provider (codes "mock"),
                text_eq_iff c.trust.provider (codes "file"),
              ),
              λ bad. refl,
            )
    ]
  ]

  assembled-verifier :
      (trust : Option T) (c : Config) (k : CacheChoice) (q : QueueChoice)
      → ((assembled trust c k q).verifier ≡ none) ↔ (trust ≡ none)
  unfolding assembled
  assembled-verifier none c k q = (λ e. refl, λ e. refl)
  assembled-verifier (some t) c k q = (λ e. cc, λ e. cc)

  -- On a configuration that `Load` returned, `initProviders` fails exactly if the cache is "memcached", or
  -- the queue is enabled and is "kafka" or "nats", which `validate` accepts and nothing registers, or the
  -- cache is "redis" or the enabled queue is "redis-streams" and its server does not answer; and otherwise
  -- it goes on without a verifier exactly if the trust provider is "vault" or "k8s-secret", accepted and
  -- not registered either.
  pub init_providers-Made :
      (yaml : Text → Option Config) (env : Text → Option Text) (file : Option Text) (c : Config)
      → Loaded yaml env file c
      → ((NoCache ping_cache c ⊎ NoQueue ping_queue c)
          × ((e : Text) × (init_providers ping_cache ping_queue new_file mock c ≡ err e)))
        ⊎ (((NoCache ping_cache c ⊎ NoQueue ping_queue c) → ⊥)
            × ((p : Providers T) × (init_providers ping_cache ping_queue new_file mock c ≡ ok p)
                × ((p.verifier ≡ none) ↔ NoTrust c)))
  unfolding init_providers
  init_providers-Made yaml env file c l = elim (new_cache-FailsIf ping_cache c l.valid.cache) [
    | inl (bad, (e, failed)) ↦ inl (inl bad, (e, rw failed refl))
    | inr (good, (k, created)) ↦ elim (new_queue-FailsIf ping_queue c l.valid.queue) [
      | inl (bad, (e, failed)) ↦ inl (inr bad, (e, rw (created, failed) refl))
      | inr (fine, (q, queued)) ↦
          let trust = new_trust new_file mock c in
          let (to, from) = new_trust-none c l.valid.trust in
          let (bare, without) = assembled-verifier trust c k q in
          inr (
            elim [ inl bad ↦ good bad | inr bad ↦ fine bad ],
            (
              assembled trust c k q,
              rw (created, queued) refl,
              (λ e. to (bare e), λ bad. without (from bad)),
            ),
          )
    ]
  ]
