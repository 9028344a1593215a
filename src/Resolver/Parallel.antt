-- ===== src/Resolver/Parallel.antt =====
-- `ResolveBatch` of internal/resolver/resolver.go: one goroutine for each name, at most
-- `parallelLookups` of them between the semaphore's `Acquire` and `Release`. A request reads the cache,
-- asks the registry with the verifier, and writes the cache; these parts of different goroutines come
-- in any order.
pub mod Safety
pub mod Alone
pub mod Slots
pub mod Finishing
pub mod Stale
use route_ans.Prelude.{
  ℕ, ◌+◌, ◌-◌, ◌<◌, ◌≡◌, Bool, Option, none, some, List, [], ◌∷◌, Text, Result, ok, err, ◌==◌,
  if◌then◌else◌,
}
use route_ans.Models.{ResolutionRecord}
use route_ans.Ansname.Record.{AnsName, string, cache_key}
use route_ans.Registry.Record.{Adapter, Record, LookupError}
use route_ans.Resolver.Store.{Store}
use route_ans.Resolver.Types.{
  Config, Counters, State, Clock, ResolveError, started, finished, missed, hit,
}
use route_ans.Resolver.Judge.{Verifier, verify_record, ttl_of}
use route_ans.Resolver.Request.{lookup_error, keep}

abbrev pub Outcome : Type 0
Outcome = Result ResolveError ResolutionRecord

-- Where a goroutine stands: before `Acquire`, at the start of `Resolve`, behind a miss, behind the
-- lookup and the verification, at the end of `Resolve`, and behind `Release`.
pub data Phase : Type 0 where
  queued : Phase
  admitted : Phase
  searching : Phase
  judged : Outcome → Phase
  resolved : Outcome → Phase
  done : Outcome → Phase

-- The state that the goroutines share, the slots of the semaphore in use, and the goroutines.
pub record Batch (S : Type 0) : Type 0 where
  pub shared : State S
  pub in_flight : ℕ
  pub phase : ℕ → Phase

abbrev pub update : (ℕ → Phase) → ℕ → Phase → ℕ → Phase
update f i p j = if i == j then p else f j

module _ {S : Type 0} where
  abbrev pub move : ℕ → Phase → State S → Batch S → Batch S
  move i p s b = record b { shared = s; phase = update b.phase i p }

  -- `ResolveBatch` before any goroutine runs.
  abbrev pub batch_start : State S → Batch S
  batch_start s = record { shared = s; in_flight = 0; phase = λ i. queued }

-- The first error in the order of the names.
unfoldable pub first_error : List Outcome → Option ResolveError
first_error [] = none
first_error (ok r ∷ rest) = first_error rest
first_error (err e ∷ rest) = some e

module _ (cfg : Config) (verifier : Option Verifier) {S : Type 0} (store : Store S) (limit : ℕ)
    (names : ℕ → AnsName) where
  -- The read of the cache.
  abbrev pub read_step : Clock → AnsName → State S → State S × Option ResolutionRecord
  read_step clock name s =
      let read = store.fetch clock.read_at (cache_key name) s.cache in
      (record { cache = read.0; stats = started s.stats }, read.1)

  abbrev pub phase_of : Option ResolutionRecord → Phase
  phase_of none = searching
  phase_of (some r) = resolved (ok r)

  abbrev pub count_read : Option ResolutionRecord → Counters → Counters
  count_read none n = missed n
  count_read (some r) n = hit n

  abbrev pub after_read_step : Clock → AnsName → State S → State S
  after_read_step clock name s =
      let read = read_step clock name s in record read.0 { stats = count_read read.1 read.0.stats }

  -- The lookup and the verification, which change the counters only.
  abbrev pub look_up : ℕ → AnsName → Counters → Result LookupError Record → Counters × Outcome
  look_up now name n (err e) = (n, err (lookup_error (string name) e))
  look_up now name n (ok r) = verify_record cfg verifier now (string name) r n

  abbrev pub looked_up : ℕ → Adapter → AnsName → State S → State S × Outcome
  looked_up now registry name s =
      let found = look_up now name s.stats (registry.lookup name) in
      (record s { stats = found.0 }, found.1)

  -- The write of the cache, if there is a record.
  abbrev pub written : Clock → AnsName → Outcome → State S → State S × Outcome
  written clock name m s = keep cfg verifier store clock name s.cache s.stats m

  -- The batch after each part of goroutine `i`.
  abbrev pub acquired : ℕ → Batch S → Batch S
  acquired i b = record (move i admitted b.shared b) { in_flight = b.in_flight + 1 }

  abbrev pub after_read : ℕ → Clock → Batch S → Batch S
  after_read i clock b =
      move i (phase_of (read_step clock (names i) b.shared).1)
        (after_read_step clock (names i) b.shared) b

  abbrev pub after_look : ℕ → ℕ → Adapter → Batch S → Batch S
  after_look i now registry b =
      let found = looked_up now registry (names i) b.shared in move i (judged found.1) found.0 b

  abbrev pub after_write : ℕ → Clock → Outcome → Batch S → Batch S
  after_write i clock m b =
      let kept = written clock (names i) m b.shared in move i (resolved kept.1) kept.0 b

  abbrev pub released : ℕ → ℕ → Outcome → Batch S → Batch S
  released i latency m b =
      record (move i (done m) (record b.shared { stats = finished latency b.shared.stats }) b) {
        in_flight = b.in_flight - 1;
      }

  -- A step of goroutine `i`. The registry may answer differently each time.
  pub data BatchStep (b : Batch S) : Batch S → Type 0 where
    acquire : (i : ℕ) → b.phase i ≡ queued → b.in_flight < limit → BatchStep b (acquired i b)
    read : (i : ℕ) (clock : Clock) → b.phase i ≡ admitted → BatchStep b (after_read i clock b)
    look :
        (i : ℕ) (now : ℕ) (registry : Adapter)
        → b.phase i ≡ searching
        → BatchStep b (after_look i now registry b)
    write :
        (i : ℕ) (clock : Clock) (m : Outcome)
        → b.phase i ≡ judged m
        → BatchStep b (after_write i clock m b)
    release :
        (i : ℕ) (latency : ℕ) (m : Outcome)
        → b.phase i ≡ resolved m
        → BatchStep b (released i latency m b)

  pub data BatchReach (s : State S) : Batch S → Type 0 where
    begun : BatchReach s (batch_start s)
    stepped : {b b' : Batch S} → BatchReach s b → BatchStep b b' → BatchReach s b'
