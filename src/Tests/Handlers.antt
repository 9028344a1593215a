-- ===== src/Tests/Handlers.antt =====
-- The handlers of the server, and `Verify`: internal/server/http.go and internal/resolver/resolver.go.
use route_ans.Prelude.{ℕ, ◌≡◌, ◌↔◌, refl, true, false, none, some, List, [], ◌∷◌, Text, codes, ok}
use route_ans.Prelude.Int.{pos}
use route_ans.Models.{ResolutionRecord}
use route_ans.Cache.Redis.{Client, RedisCache}
use route_ans.Cache.Table.{lookup, insert}
use route_ans.Cache.Memory.{MemoryCache}
use route_ans.Queue.Event.{Event}
use route_ans.Queue.Redis.{RedisQueue, Message, no_messages, read, publish_values, empty_meta}
use route_ans.Queue.Redis.Transfer.{messages_of}
use route_ans.Resolver.Store.{memory_store, memory_store-StoreLaws}
use route_ans.Resolver.Store.Redis.{redis_store, resolve-redis_misses}
use route_ans.Resolver.Types.{default_config, State, started, missed}
use route_ans.Resolver.Request.{resolve, answer}
use route_ans.Resolver.Verify.{verify, verify-resolve}
use route_ans.Server.Handlers.{handle_resolve, handle_resolve_batch, Results, Response}
use route_ans.Server.Responses.{Answered, handle_resolve-Vouched}
use route_ans.Server.Batches.{Filled, handle_resolve_batch-Filled}
use route_ans.Server.Consumer.{process_queue_events, process_queue_events-drops}
use route_ans.Tests.Requests.{
  requests, start, clock, registry, verifier, run_first, url_parse, strict_mode, start-Clean,
}
use route_ans.Tests.Versions.{first}

handlers : Unit {0}
unfolding requests handle_resolve handle_resolve_batch messages_of
handlers = tt

verify-resolve_example : ((verify (some verifier) registry 50 first).0.valid ≡ true) ↔ (
    (x : ResolutionRecord) × ((resolve default_config
        (some verifier)
        memory_store
        registry
        clock
        first
        start).1
      ≡ ok x))
unfolding requests
verify-resolve_example =
    verify-resolve default_config verifier refl memory_store registry clock 50 first start refl
      λ r. refl

handle_resolve-Vouched_example :
    Answered default_config verifier strict_mode memory_store memory_store-StoreLaws registry
      url_parse
      (codes "mcp://x")
      (handle_resolve default_config
        (some verifier)
        memory_store
        registry
        url_parse
        clock
        4
        (codes "mcp://x")
        []
        start)
handle_resolve-Vouched_example =
    handle_resolve-Vouched default_config verifier strict_mode memory_store memory_store-StoreLaws
      registry url_parse clock 4 (codes "mcp://x") [] start start-Clean

abbrev batch : State (MemoryCache ResolutionRecord) × Response Results
batch =
    handle_resolve_batch default_config (some verifier) memory_store registry url_parse (λ i. clock)
      (some (codes "a" ∷ codes "b" ∷ [])) start

handle_resolve_batch-Filled_example :
    (results : Results) × (batch ≡ (batch.0, record { code = 200; body = some results }))
    × Filled default_config verifier strict_mode memory_store memory_store-StoreLaws registry
        url_parse
        (codes "a" ∷ codes "b" ∷ [])
        []
        (batch.0, results)
handle_resolve_batch-Filled_example =
    handle_resolve_batch-Filled default_config verifier strict_mode memory_store
      memory_store-StoreLaws registry url_parse (λ i. clock) (codes "a" ∷ codes "b" ∷ []) start
      start-Clean

-- A Redis server that holds texts and never expires them, and JSON of which every text is a value.
abbrev client : Client (List (Text × Text))
client = record {
  ping = λ s. ok tt;
  get_bytes = λ now k s. ok (lookup k s);
  set_bytes = λ now k v ttl s. ok (insert k v s);
  del = λ ks s. ok s;
  exists = λ now k s. ok 0;
  scan = λ cursor pattern s. ok ([], 0);
}

abbrev redis_cache : RedisCache
redis_cache = record { namespace = codes "ans:"; default_ttl = pos 300 }

abbrev redis_start : State (List (Text × Text))
redis_start = record { cache = []; stats = start.stats }

resolve-redis_misses_example :
    (let store = redis_store client (λ r. some r.ans_name) (λ t. some t) redis_cache in
      let after = resolve default_config (some verifier) store registry clock first redis_start in
      (after.0.stats.cache_hits ≡ 0)
      × (after.0.stats.cache_misses ≡ 1)
      × (after.0.stats.registry_lookups ≡ 1)
      × (after.1
          ≡ (answer default_config
              (some verifier)
              store
              clock
              first
              []
              (missed (started start.stats))
              (registry.lookup first)).1))
resolve-redis_misses_example =
    resolve-redis_misses client (λ r. some r.ans_name) (λ t. some t) redis_cache default_config
      (some verifier) registry clock first redis_start

abbrev pub published : Event
published = record {
  id = [];
  kind = codes "revoked";
  ans_name = codes "chat";
  fqdn = [];
  version = [];
  timestamp = 7;
  registrar_id = [];
  signature = [];
  meta = empty_meta;
  raw = [];
}

abbrev messages : List (ℕ × Message)
messages =
    (
      60,
      record { id = codes "1-0"; values = publish_values (λ m. m.description) (λ t. []) published },
    )
    ∷ []

abbrev queue : RedisQueue
queue = record { closed = false; processed = 2; failed = 1; last_event = 0; acked = [] }

process_queue_events-drops_example :
    (let end =
        process_queue_events memory_store
          (λ t. empty_meta)
          (no_messages ∷ read messages ∷ [])
          (queue, run_first.0) in
      (memory_store.in_view 70 end.1.cache (codes "chat") ≡ none)
      × (end.0.processed ≡ 3)
      × (end.0.failed ≡ 1))
unfolding handlers
process_queue_events-drops_example =
    process_queue_events-drops memory_store memory_store-StoreLaws (λ t. empty_meta)
      (λ m. m.description) (λ t. []) 60 (codes "1-0") published [] []
      (no_messages ∷ read messages ∷ []) queue run_first.0 70 refl refl
