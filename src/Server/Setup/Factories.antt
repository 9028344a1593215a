-- ===== src/Server/Setup/Factories.antt =====
-- The tables of factories of internal/cache, internal/queue, internal/registry and internal/trust:
-- `Register`, `New` and `Available`, which are written alike in each package, with what the `init`
-- functions put into them. `init` functions of different files may run in either order.
use route_ans.Prelude.{
  ◌≡◌, refl, sym, Bool, true, false, Option, none, some, List, [], ◌∷◌, Text, codes, text_eq,
  text_eq_sym, text_eq_iff, Result, ok, err, if◌then◌else◌, arith, Bool-cases, inl, inr,
}
use route_ans.Cache.Table.{lookup, insert, lookup-insert}
use route_ans.Ansname.Record.{contains}
use route_ans.Config.Policies.{RegistryConfig}
use route_ans.Cache.Redis.{RedisOptions}
use route_ans.Config.Types.{Config}
use route_ans.Queue.Redis.{RedisQueueOptions, redis_queue_options}
use route_ans.Server.Setup.{
  CacheChoice, memory_cache, connected_cache, cache_options, redis_cache_options, unknown_cache,
  new_cache, QueueChoice, memory_queue, connected_queue, queue_options, queue_settings,
  unknown_queue, enabled_queue, RegistryChoice, mock_registry, new_godaddy, new_registry, new_trust,
}

-- `registry`, `adapterRegistry` and `providerRegistry`
abbrev Factories : Type 0 → Type 0
Factories F = List (Text × F)

module _ {F : Type 0} where
  -- `Register`
  unfoldable register : Text → F → Factories F → Factories F
  register name factory table = insert name factory table

  -- `New`, without the call of the factory: an unknown name is an error with the name.
  unfoldable find_factory : Text → Factories F → Result Text F
  find_factory name table = elim (lookup name table) [ none ↦ err name | some f ↦ ok f ]

  -- `Available`, in one order of the map.
  unfoldable available : Factories F → List Text
  available [] = []
  available ((name, f) ∷ others) = name ∷ available others

  -- `New` finds the factory that was registered last under the name, and no other registration
  -- changes what it finds.
  find_factory-register :
      (name other : Text) (f : F) (table : Factories F)
      → find_factory other (register name f table)
        ≡ (if text_eq name other then ok f else find_factory other table)
  unfolding find_factory register
  find_factory-register name other f table = ground (arith, lookup-insert name other f table)

  -- The names that are available are those that `New` knows.
  available-find_factory :
      (name : Text) (table : Factories F)
      → contains (available table) name
        ≡ (elim (find_factory name table) [ err n ↦ false | ok f ↦ true ])
  unfolding available contains find_factory lookup
  available-find_factory name [] = refl
  available-find_factory name ((first, f) ∷ others) =
      ground (arith, available-find_factory name others)

  -- Two names that are different may be registered in either order.
  register-either_order :
      (name one two : Text) (f g : F) (table : Factories F)
      → text_eq one two ≡ false
      → find_factory name (register one f (register two g table))
        ≡ find_factory name (register two g (register one f table))
  register-either_order name one two f g table h = ground (
    arith,
    find_factory-register one name f (register two g table),
    find_factory-register two name g table,
    find_factory-register two name g (register one f table),
    find_factory-register one name f table,
    text_eq_iff one name,
    text_eq_iff two name,
    text_eq_iff one two,
  )

module _ {F A : Type 0} where
  -- What comes of a name, on two factories and on none.
  two_factories :
      (name one two : Text) (f g : F) (found : F → A) (missing : Text → A)
      → (elim (find_factory name (register one f (register two g []))) [
        | err n ↦ missing n
        | ok h ↦ found h
      ])
        ≡ (if text_eq name one then found f else if text_eq name two then found g else missing name)
  unfolding find_factory lookup
  two_factories name one two f g found missing =
      rw (find_factory-register one name f (register two g []), text_eq_sym one name)
        elim (Bool-cases (text_eq name one)) [
          | inl is_one ↦ rw is_one refl
          | inr other ↦
              rw (other, find_factory-register two name g [], text_eq_sym two name)
                elim (Bool-cases (text_eq name two)) [
                  | inl is_two ↦ rw is_two refl
                  | inr neither ↦ rw neither refl
                ]
        ]

-- `cache.New` on a table: the factory that is found, or the error as `initProviders` wraps it.
abbrev created :
    {A : Type 0} → (Text → Text) → Result Text (Config → Result Text A) → Config → Result Text A
created wrap found c = elim found [ err name ↦ err (wrap name) | ok f ↦ f c ]

-- `init` of internal/cache/memory.go, and of internal/cache/redis.go
abbrev cache_factories : (RedisOptions → Bool) → Factories (Config → Result Text CacheChoice)
cache_factories ping =
    register (codes "memory") (λ c. ok (memory_cache (cache_options c)))
      (register (codes "redis") (λ c. connected_cache ping (redis_cache_options c)) [])

-- `init` of internal/queue/memory.go, and of internal/queue/redis.go
abbrev queue_factories : (RedisQueueOptions → Bool) → Factories (Config → Result Text QueueChoice)
queue_factories ping =
    register (codes "memory") (λ c. ok (memory_queue (queue_options c).buffer_size))
      (register (codes "redis-streams")
        (λ c. connected_queue ping (redis_queue_options (queue_options c) (queue_settings c))) [])

-- `init` of internal/registry/mock.go, and of internal/registry/godaddy.go
abbrev registry_factories : Factories (RegistryConfig → Option RegistryChoice)
registry_factories =
    register (codes "mock") (λ r. some mock_registry) (register (codes "godaddy") new_godaddy [])

abbrev file_factory : {T : Type 0} → (Text → Text → T) → Config → Option T
file_factory new_file c =
    some (new_file c.trust.file.trusted_roots_file c.trust.file.trusted_registrars_file)

-- The two `init` of internal/trust/verifier.go
abbrev trust_factories : {T : Type 0} → (Text → Text → T) → T → Factories (Config → Option T)
trust_factories new_file mock =
    register (codes "mock") (λ c. some mock) (register (codes "file") (file_factory new_file) [])

-- The cache that `initProviders` makes is that of the factory that `New` finds.
new_cache-created :
    (ping : RedisOptions → Bool) (c : Config)
    → new_cache ping c
      ≡ created unknown_cache (find_factory c.cache.provider (cache_factories ping)) c
unfolding new_cache
new_cache-created ping c = sym (
    two_factories c.cache.provider (codes "memory") (codes "redis") _ _ (λ f. f c)
      (λ name. err (unknown_cache name)))

-- The queue that `initProviders` makes is that of the factory that `New` finds.
enabled_queue-created :
    (ping : RedisQueueOptions → Bool) (c : Config)
    → enabled_queue ping c
      ≡ created unknown_queue (find_factory c.queue.provider (queue_factories ping)) c
unfolding enabled_queue
enabled_queue-created ping c = sym (
    two_factories c.queue.provider (codes "memory") (codes "redis-streams") _ _ (λ f. f c)
      (λ name. err (unknown_queue name)))

-- The adapter of a registry is that of the factory that `New` finds, if it finds one.
new_registry-found :
    (r : RegistryConfig)
    → new_registry r ≡ (elim (find_factory r.kind registry_factories) [ err n ↦ none | ok f ↦ f r ])
unfolding new_registry
new_registry-found r =
    sym (two_factories r.kind (codes "mock") (codes "godaddy") _ _ (λ f. f r) (λ name. none))

-- The trust provider is that of the factory that `New` finds, if it finds one.
new_trust-found :
    {T : Type 0} (new_file : Text → Text → T) (mock : T) (c : Config)
    → new_trust new_file mock c
      ≡ (elim (find_factory c.trust.provider (trust_factories new_file mock)) [
        | err n ↦ none
        | ok f ↦ f c
      ])
unfolding new_trust text_eq
new_trust-found {T} new_file mock c =
    let constant : Config → Option T = λ d. some mock in
    let swapped =
      register-either_order c.trust.provider (codes "mock") (codes "file") constant
        (file_factory new_file) [] refl in
    let found =
      two_factories {A = Option T} c.trust.provider (codes "file") (codes "mock")
        (file_factory new_file) constant (λ f. f c) (λ name. none) in
    rw swapped (sym found)
