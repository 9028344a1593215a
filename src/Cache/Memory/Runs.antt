-- ===== src/Cache/Memory/Runs.antt =====
-- Any sequence of calls on a new cache.
use route_ans.Prelude.{ℕ, ◌≡◌, refl, Option, none, some, List, [], ◌∷◌, Text}
use route_ans.Prelude.Int.{ℤ}
use route_ans.Cache.Memory.{
  MemoryCache, Options, new_memory_cache, get, set, delete_key, clear, cleanup,
}
use route_ans.Cache.Memory.Validity.{
  IsValid, new_memory_cache-IsValid, get-IsValid, cleanup-IsValid, delete_key-IsValid,
  clear-IsValid,
}
use route_ans.Cache.Memory.Room.{after_set-IsValid, set-after_set, stored}

-- A call of a method that changes the cache, or a tick of `cleanupLoop`.
pub data Call (V : Type 0) : Type 0 where
  get_call : ℕ → Text → Call V
  set_call : ℕ → Text → V → ℤ → Call V
  delete_call : Text → Call V
  clear_call : Call V
  tick : ℕ → Call V

module _ {V : Type 0} where
  unfoldable pub step : Call V → MemoryCache V → Option (MemoryCache V)
  step (get_call now key) c = some (get now key c).0
  step (set_call now key v ttl) c = set now key v ttl c
  step (delete_call key) c = some (delete_key key c)
  step clear_call c = some (clear c)
  step (tick now) c = some (cleanup now c)

  unfoldable pub run : List (Call V) → MemoryCache V → Option (MemoryCache V)
  run [] c = some c
  run (call ∷ calls) c = elim (step call c) [ none ↦ none | some c' ↦ run calls c' ]

  step-IsValid :
      (call : Call V) (c : MemoryCache V)
      → IsValid c
      → (c' : MemoryCache V) × (step call c ≡ some c') × IsValid c'
  unfolding step
  step-IsValid (get_call now key) c v = (_, refl, get-IsValid now key c v)
  step-IsValid (set_call now key x ttl) c v =
      (_, set-after_set now key x ttl c v, after_set-IsValid key (stored now x ttl c) c v)
  step-IsValid (delete_call key) c v = (_, refl, delete_key-IsValid key c v)
  step-IsValid clear_call c v = (_, refl, clear-IsValid c v)
  step-IsValid (tick now) c v = (_, refl, cleanup-IsValid now c v)

  run-from :
      (calls : List (Call V)) (c : MemoryCache V)
      → IsValid c
      → (c' : MemoryCache V) × (run calls c ≡ some c') × IsValid c'
  unfolding run
  run-from [] c v = (c, refl, v)
  run-from (call ∷ calls) c v =
      let (next, e, w) = step-IsValid call c v in
      let (last, f, u) = run-from calls next w in (last, rw (e, run) f, u)

  -- Every sequence of calls of `Get`, `Set`, `Delete`, `Clear` and `cleanup` on a new cache, with any
  -- options, arguments and times, returns, and in the cache it leaves the map and the list hold the
  -- same keys, each once, and no more of them than the capacity.
  pub run-IsValid :
      (opts : Options) (calls : List (Call V))
      → (c : MemoryCache V) × (run calls (new_memory_cache opts) ≡ some c) × IsValid c
  run-IsValid opts calls = run-from calls (new_memory_cache opts) (new_memory_cache-IsValid opts)
