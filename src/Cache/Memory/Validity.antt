-- ===== src/Cache/Memory/Validity.antt =====
-- The invariant that ties the map of the cache to its list, kept by every method.
use route_ans.Prelude.{
  ℕ, ◌+◌, ◌≤◌, ◌<◌, ◌≡◌, refl, inl, inr, List, [], ◌∷◌, Text, length, arith, Bool-cases,
}
use route_ans.Cache.Table.{
  lookup-eq-none_or_some, lookup, delete, has_key, Unique, lookup-delete, delete-Unique,
  length-delete-Unique,
}
use route_ans.Cache.Recency.{
  member, remove, move_to_front, Distinct, member-remove, remove-Distinct, length-remove,
  member-move_to_front, move_to_front-Distinct, length-move_to_front,
}
use route_ans.Cache.Memory.{
  Entry, MemoryCache, Options, new_memory_cache, evict, cleanup_entries, cleanup, get, delete_key,
  clear, is_expired,
}

module _ {V : Type 0} where
  -- The map and the list hold the same keys, each once, and no more than the capacity.
  pub record IsValid (c : MemoryCache V) : Type 0 where
    pub same : (k : Text) → has_key k c.items ≡ member k c.lru
    pub unique : Unique c.items
    pub distinct : Distinct c.lru
    pub sizes : length c.items ≡ length c.lru
    pub bounded : length c.items ≤ c.max_size
    pub positive : 0 < c.max_size

  pub new_memory_cache-IsValid : (opts : Options) → IsValid (new_memory_cache opts)
  unfolding new_memory_cache lookup member
  new_memory_cache-IsValid opts = record {
    same = λ k. refl;
    unique = tt;
    distinct = tt;
    sizes = refl;
    bounded = omega arith;
    positive = ground arith;
  }

  touch-IsValid :
      (key : Text) (c : MemoryCache V) (h m : ℕ)
      → IsValid c
      → IsValid (record c { lru = move_to_front key c.lru; hits = h; misses = m })
  touch-IsValid key c h m v = record {
    same = λ k. ground (arith, v.same k, member-move_to_front key k c.lru v.distinct);
    unique = v.unique;
    distinct = move_to_front-Distinct key c.lru v.distinct;
    sizes = omega (arith, v.sizes, length-move_to_front key c.lru);
    bounded = v.bounded;
    positive = v.positive;
  }

  removal-IsValid :
      (key : Text) (c : MemoryCache V) (n : ℕ)
      → IsValid c
      → IsValid (record c { lru = remove key c.lru; items = delete key c.items; evictions = n })
  removal-IsValid key c n v = record {
    same = λ k.
        ground (arith, v.same k, member-remove key k c.lru v.distinct, lookup-delete key k c.items);
    unique = delete-Unique key c.items v.unique;
    distinct = remove-Distinct key c.lru v.distinct;
    sizes = ground (
      arith,
      v.sizes,
      v.same key,
      length-delete-Unique key c.items v.unique,
      length-remove key c.lru,
    );
    bounded = ground (arith, v.bounded, length-delete-Unique key c.items v.unique);
    positive = v.positive;
  }

  pub evict-IsValid : (key : Text) (c : MemoryCache V) → IsValid c → IsValid (evict key c)
  evict-IsValid key c v = removal-IsValid key c (c.evictions + 1) v

  missed-IsValid : (c : MemoryCache V) → IsValid c → IsValid (record c { misses = c.misses + 1 })
  missed-IsValid c v = record {
    same = v.same;
    unique = v.unique;
    distinct = v.distinct;
    sizes = v.sizes;
    bounded = v.bounded;
    positive = v.positive;
  }

  -- `Get` keeps the invariant.
  pub get-IsValid :
      (now : ℕ) (key : Text) (c : MemoryCache V) → IsValid c → IsValid (get now key c).0
  unfolding get
  get-IsValid now key c v = elim (lookup-eq-none_or_some key c.items) [
    | inl miss ↦ rw (miss, get) (missed-IsValid c v)
    | inr (e, hit) ↦ elim (Bool-cases (is_expired now e)) [
      | inl old ↦ rw (hit, get, old) (missed-IsValid c v)
      | inr live ↦ rw (hit, get, live) (touch-IsValid key c (c.hits + 1) c.misses v)
    ]
  ]

  cleanup_entries-IsValid :
      (now : ℕ) (entries : List (Text × Entry V)) (c : MemoryCache V)
      → IsValid c
      → IsValid (cleanup_entries now entries c)
  unfolding cleanup_entries
  cleanup_entries-IsValid now [] c v = v
  cleanup_entries-IsValid now ((key, e) ∷ rest) c v = elim (Bool-cases (is_expired now e)) [
    | inl old ↦ rw old (cleanup_entries-IsValid now rest _ (evict-IsValid key c v))
    | inr live ↦ rw live (cleanup_entries-IsValid now rest c v)
  ]

  -- `cleanup` keeps the invariant.
  pub cleanup-IsValid : (now : ℕ) (c : MemoryCache V) → IsValid c → IsValid (cleanup now c)
  unfolding cleanup
  cleanup-IsValid now c v = cleanup_entries-IsValid now c.items c v

  -- `Delete` keeps the invariant.
  pub delete_key-IsValid : (key : Text) (c : MemoryCache V) → IsValid c → IsValid (delete_key key c)
  unfolding delete_key
  delete_key-IsValid key c v = elim (lookup-eq-none_or_some key c.items) [
    | inl absent ↦ rw (absent, delete_key) v
    | inr (e, found) ↦ rw (found, delete_key) (removal-IsValid key c c.evictions v)
  ]

  -- `Clear` keeps the invariant.
  pub clear-IsValid : (c : MemoryCache V) → IsValid c → IsValid (clear c)
  unfolding clear lookup member
  clear-IsValid c v = record {
    same = λ k. refl;
    unique = tt;
    distinct = tt;
    sizes = refl;
    bounded = omega arith;
    positive = v.positive;
  }
