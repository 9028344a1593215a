-- ===== src/Tests/Caching.antt =====
-- The memory cache: internal/cache/memory.go.
use route_ans.Prelude.{
  if◌then◌else◌, ℕ, ◌+◌, ◌≡◌, refl, true, false, none, some, List, [], ◌∷◌, Text, codes, text_eq,
  arith,
}
use route_ans.Prelude.Int.{pos}
use route_ans.Cache.Table.{lookup, insert, delete}
use route_ans.Cache.Recency.{remove, move_to_front, back, member}
use route_ans.Cache.Memory.{
  MemoryCache, Options, default_options, new_memory_cache, get, set, delete_key, exists_key,
  cleanup, cleanup_entries, evict_oldest, evict_while_full, clear,
}
use route_ans.Cache.Memory.Validity.{IsValid}
use route_ans.Cache.Memory.Room.{stored}
use route_ans.Cache.Memory.View.{view, after_store, get-view, set-view}
use route_ans.Cache.Memory.Runs.{Call, run, step, run-IsValid}

caching : Unit {0}
unfolding lookup insert delete remove move_to_front back member new_memory_cache get set delete_key
    exists_key cleanup cleanup_entries evict_oldest evict_while_full clear view run step text_eq
caching = tt

-- Room for one entry, which lives for 5 ns unless it says otherwise.
abbrev small : Options
small = record default_options { max_size = pos 1; default_ttl = pos 5 }

abbrev empty : MemoryCache ℕ
empty = record {
  items = [];
  lru = [];
  max_size = 1;
  default_ttl = 5;
  hits = 0;
  misses = 0;
  evictions = 0;
}

abbrev key : Text
key = codes "a"

abbrev other : Text
other = codes "b"

abbrev held : MemoryCache ℕ
held = record empty { items = (key, record { value = 7; expires_at = 15 }) ∷ []; lru = key ∷ [] }

held-set : set 10 key 7 (pos 0) empty ≡ some held
unfolding caching
held-set = refl

-- The second key pushes out the first.
evicted :
    run (Call.set_call 10 key 7 (pos 0) ∷ Call.set_call 11 other 8 (pos 9) ∷ []) empty
    ≡ some (record empty {
      items = (other, record { value = 8; expires_at = 20 }) ∷ [];
      lru = other ∷ [];
      evictions = 1;
    })
unfolding caching
evicted = refl

held-IsValid : IsValid held
unfolding caching
held-IsValid = record {
  same = λ k. ground arith;
  unique = ground arith;
  distinct = ground arith;
  sizes = refl;
  bounded = omega arith;
  positive = omega arith;
}

abbrev calls : List (Call ℕ)
calls = Call.set_call 10 key 7 (pos 0) ∷ Call.get_call 12 key ∷ Call.tick 30 ∷ Call.clear_call ∷ []

run-IsValid_example :
    (c : MemoryCache ℕ) × (run calls (new_memory_cache small) ≡ some c) × IsValid c
run-IsValid_example = run-IsValid small calls

set-view_example :
    (c' : MemoryCache ℕ) × (set 11 other 8 (pos 9) held ≡ some c')
    × IsValid c'
    × ((t : ℕ) (j : Text) → view t c' j ≡ after_store t held other (stored 11 8 (pos 9) held) j)
set-view_example = set-view 11 other 8 (pos 9) held held-IsValid

get-view_example :
    ((get 12 key held).1 ≡ view 12 held key)
    × ((t : ℕ) (j : Text) → view t (get 12 key held).0 j ≡ view t held j)
    × (exists_key 12 key held ≡ elim (view 12 held key) [ none ↦ false | some v ↦ true ])
    × ((get 12 key held).0.hits ≡ held.hits + (if exists_key 12 key held then 1 else 0))
    × ((get 12 key held).0.misses ≡ held.misses + (if exists_key 12 key held then 0 else 1))
get-view_example = get-view 12 key held
