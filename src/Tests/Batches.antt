-- ===== src/Tests/Batches.antt =====
-- Goroutines of a batch: internal/resolver/resolver.go.
use route_ans.Prelude.{
  ℕ, ◌+◌, ◌*◌, ◌≤◌, ◌≡◌, ◌⊎◌, refl, none, some, List, [], ◌∷◌, codes, ok, arith,
}
use route_ans.Models.{ResolutionRecord}
use route_ans.Ansname.Record.{AnsName, cache_key}
use route_ans.Registry.Record.{Adapter, to_resolution_record}
use route_ans.Cache.Memory.{MemoryCache}
use route_ans.Cache.Memory.View.{view}
use route_ans.Resolver.Store.{memory_store, memory_store-StoreLaws}
use route_ans.Resolver.Types.{Clock, default_config}
use route_ans.Resolver.Request.{resolve}
use route_ans.Resolver.Judge.Vouched.{Vouched}
use route_ans.Resolver.Parallel.{
  Outcome, Batch, batch_start, acquired, after_read, after_look, after_write, released, acquire,
  read, look, write, release, BatchStep, begun, stepped, looked_up,
}
use route_ans.Resolver.Parallel.Alone.{Ran, alone-resolve}
use route_ans.Resolver.Parallel.Finishing.{Run, mover, AllDone, Next, batch-ends}
use route_ans.Resolver.Parallel.Stale.{
  Heard, from_queue, heard, interrupted, Drops, early_event-stale,
}
use route_ans.Tests.Requests.{
  long, url_parse, requests, start, clock, registry, verifier, served, start-Clean,
}
use route_ans.Tests.Versions.{first}
use route_ans.Tests.Verdicts.{listed}

abbrev names : ℕ → AnsName
names = λ i. first

abbrev entered : Batch (MemoryCache ResolutionRecord)
entered = acquired default_config (some verifier) memory_store 2 names 0 (batch_start start)

abbrev missed : Batch (MemoryCache ResolutionRecord)
missed = after_read default_config (some verifier) memory_store 2 names 0 clock entered

abbrev found : Batch (MemoryCache ResolutionRecord)
found = after_look default_config (some verifier) memory_store 2 names 0 50 registry missed

abbrev outcome : Outcome
outcome =
    (looked_up default_config (some verifier) memory_store 2 names 50 registry first
      missed.shared).1

abbrev kept : Batch (MemoryCache ResolutionRecord)
kept = after_write default_config (some verifier) memory_store 2 names 0 clock outcome found

abbrev left : Batch (MemoryCache ResolutionRecord)
left = released default_config (some verifier) memory_store 2 names 0 3 (ok served) kept

alone-resolve_example :
    (b' : Batch (MemoryCache ResolutionRecord)) × Ran default_config
      (some verifier)
      memory_store
      2
      names
      start
      registry
      clock
      0
      (batch_start start)
      b'
alone-resolve_example =
    alone-resolve default_config (some verifier) memory_store 2 names start registry clock 0
      (batch_start start) begun refl (omega arith)

run_of_one : Run default_config (some verifier) memory_store 2 names 1 start 5 left
unfolding requests mover
run_of_one =
    Run.stepped
      (Run.stepped
        (Run.stepped
          (Run.stepped (Run.stepped Run.begun (acquire 0 refl (omega arith)) (omega arith))
            (read 0 clock refl) (omega arith))
          (look 0 50 registry refl) (omega arith))
        (write 0 clock outcome refl) (omega arith))
      (release 0 3 (ok served) refl) (omega arith)

batch-ends_example :
    (5 ≤ 5 * 1)
    × ((AllDone default_config (some verifier) memory_store 2 names 1 left × (left.in_flight ≡ 0))
        ⊎ Next default_config (some verifier) memory_store 2 names 1 left)
batch-ends_example =
    batch-ends default_config (some verifier) memory_store 2 names registry clock 1 start 5 left
      (omega arith) run_of_one

-- What the goroutine holds between the verification and the write.
abbrev verified : ResolutionRecord
verified = record served { verified_at = (to_resolution_record listed).verified_at }

-- The revocation comes before the write.
abbrev too_early : List Heard
too_early = from_queue (codes "revoked") (cache_key first) ∷ []

abbrev overtaken : Batch (MemoryCache ResolutionRecord)
overtaken = interrupted memory_store url_parse too_early found

abbrev overwritten : Batch (MemoryCache ResolutionRecord)
overwritten =
    after_write default_config (some verifier) memory_store 2 names 0 clock (ok verified) overtaken

early_event-stale_example :
    BatchStep default_config (some verifier) memory_store 2 names overtaken overwritten
    × ((last : Adapter) (next : Clock) (name : AnsName)
        → cache_key name ≡ cache_key first
        → next.read_at ≤ clock.stored_at + 100
        → (resolve default_config (some verifier) memory_store last next name overwritten.shared).1
          ≡ ok served)
    × ((e : Heard) (t : ℕ)
        → Drops memory_store url_parse e (cache_key first)
        → view t (heard memory_store url_parse e overwritten.shared).cache (cache_key first) ≡ none)
unfolding requests
early_event-stale_example =
    early_event-stale default_config (some verifier) memory_store memory_store-StoreLaws url_parse 2
      names found 0 clock too_early 100 {res = verified} long
      (memory_store-StoreLaws.fetch-Good 50 (cache_key first) start.cache start-Clean.good) refl
