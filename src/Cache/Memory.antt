-- ===== src/Cache/Memory.antt =====
-- `memoryCache`: internal/cache/memory.go. A method takes the time of its `time.Now()` and returns
-- the new state, as a call with no other in between. Most methods hold the lock all the while; `Get`
-- lets it go between its two parts, and reads the entry without it.
pub mod Validity
pub mod Room
pub mod View
pub mod Runs
use route_ans.Prelude.{
  ℕ, zero, suc, ◌+◌, ◌*◌, Bool, true, false, not, Option, none, some, List, [], ◌∷◌, Text, ltb, leb,
  ◌==◌, if◌then◌else◌, length, codes,
}
use route_ans.Prelude.Int.{ℤ, pos, pos_part, ◌<ℤ◌}
use route_ans.Cache.Table.{lookup, delete, insert}
use route_ans.Cache.Recency.{remove, move_to_front, back}

-- `cacheEntry`; its key is the key of the map, and its element that of the key in the list.
pub record Entry (V : Type 0) : Type 0 where
  pub value : V
  pub expires_at : ℕ

pub record MemoryCache (V : Type 0) : Type 0 where
  pub items : List (Text × Entry V)
  pub lru : List Text
  pub max_size : ℕ
  pub default_ttl : ℕ
  pub hits : ℕ
  pub misses : ℕ
  pub evictions : ℕ

-- `Options`, with durations in nanoseconds.
pub record Options : Type 0 where
  pub default_ttl : ℤ
  pub max_size : ℤ
  pub cleanup_interval : ℤ
  pub namespace : Text

-- One second, in nanoseconds.
abbrev pub second : ℕ
second = 1000000000

-- `DefaultOptions`
abbrev pub default_options : Options
default_options = record {
  default_ttl = pos (300 * second);
  max_size = pos 10000;
  cleanup_interval = pos (60 * second);
  namespace = codes "ans:";
}

-- `if x <= 0 { x = d }`
abbrev pub positive_or : ℤ → ℕ → ℕ
positive_or x d = if pos 0 <ℤ x then pos_part x else d

-- `NewMemoryCache`
unfoldable pub new_memory_cache : {V : Type 0} → Options → MemoryCache V
new_memory_cache opts = record {
  items = [];
  lru = [];
  max_size = positive_or opts.max_size 10000;
  default_ttl = positive_or opts.default_ttl (300 * second);
  hits = 0;
  misses = 0;
  evictions = 0;
}

module _ {V : Type 0} where
  -- `now.After(e.expiresAt)`
  abbrev pub is_expired : ℕ → Entry V → Bool
  is_expired now e = ltb e.expires_at now

  -- Remove a key from both the list and the map, and count an eviction.
  abbrev pub evict : Text → MemoryCache V → MemoryCache V
  evict key c = record c {
    lru = remove key c.lru;
    items = delete key c.items;
    evictions = c.evictions + 1;
  }

  -- The loop of `cleanup` over the entries of the map.
  unfoldable pub cleanup_entries : ℕ → List (Text × Entry V) → MemoryCache V → MemoryCache V
  cleanup_entries now [] c = c
  cleanup_entries now ((key, e) ∷ rest) c =
      cleanup_entries now rest (if is_expired now e then evict key c else c)

  -- `cleanup`
  unfoldable pub cleanup : ℕ → MemoryCache V → MemoryCache V
  cleanup now c = cleanup_entries now c.items c

  -- `Get`: the read under the read lock, the test of the expiry, and the move to the front under the lock,
  -- with no other call between them.
  unfoldable pub get : ℕ → Text → MemoryCache V → MemoryCache V × Option V
  get now key c = elim (lookup key c.items) [
    | none ↦ (record c { misses = c.misses + 1 }, none)
    | some e ↦
        if is_expired now e
        then (record c { misses = c.misses + 1 }, none)
        else (record c { lru = move_to_front key c.lru; hits = c.hits + 1 }, some e.value)
  ]

  -- `evictOldest`
  unfoldable pub evict_oldest : MemoryCache V → MemoryCache V
  evict_oldest c = elim (back c.lru) [ none ↦ c | some key ↦ evict key c ]

  -- `for len(c.items) >= c.maxSize { c.evictOldest() }`; `none` means that the fuel ran out.
  unfoldable pub evict_while_full : ℕ → MemoryCache V → Option (MemoryCache V)
  evict_while_full zero c = none
  evict_while_full (suc fuel) c =
      let rest = evict_while_full fuel (evict_oldest c) in
      if leb c.max_size (length c.items) then rest else some c

  -- The part of `Set` for a key that is not there.
  abbrev pub add_entry : Text → Entry V → MemoryCache V → MemoryCache V
  add_entry key e c = record c { lru = key ∷ c.lru; items = insert key e c.items }

  -- `Set`; the loop gets as much fuel as there are entries, and one more.
  unfoldable pub set : ℕ → Text → V → ℤ → MemoryCache V → Option (MemoryCache V)
  set now key value ttl c =
      let e : Entry V = record {
        value = value;
        expires_at = now + positive_or ttl c.default_ttl;
      } in
      elim (lookup key c.items) [
        | some existing ↦
            some (record c { items = insert key e c.items; lru = move_to_front key c.lru })
        | none ↦ elim (evict_while_full (suc (length c.items)) c) [
          | none ↦ none
          | some roomy ↦ some (add_entry key e roomy)
        ]
      ]

  -- `Delete`
  unfoldable pub delete_key : Text → MemoryCache V → MemoryCache V
  delete_key key c = elim (lookup key c.items) [
    | none ↦ c
    | some e ↦ record c { lru = remove key c.lru; items = delete key c.items }
  ]

  -- `Exists`
  unfoldable pub exists_key : ℕ → Text → MemoryCache V → Bool
  exists_key now key c = elim (lookup key c.items) [
    | none ↦ false
    | some e ↦ not (is_expired now e)
  ]

  -- `Clear`: the counters stay.
  unfoldable pub clear : MemoryCache V → MemoryCache V
  clear c = record c { items = []; lru = [] }

-- `Stats`
pub record Stats : Type 0 where
  pub hits : ℕ
  pub misses : ℕ
  pub size : ℕ
  pub max_size : ℕ
  pub evictions : ℕ

unfoldable pub stats : {V : Type 0} → MemoryCache V → Stats
stats c = record {
  hits = c.hits;
  misses = c.misses;
  size = length c.items;
  max_size = c.max_size;
  evictions = c.evictions;
}
