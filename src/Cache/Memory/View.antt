-- ===== src/Cache/Memory/View.antt =====
-- What a client of the cache can read, before and after each method.
use route_ans.Prelude.{
  ℕ, ◌+◌, ◌≤◌, ◌≡◌, refl, inl, inr, Bool, true, false, ◌&&◌, ◌||◌, not, Option, none, some, List,
  [], ◌∷◌, Text, text_eq, text_eq_iff, if◌then◌else◌, arith, Bool-cases,
}
use route_ans.Prelude.Int.{ℤ}
use route_ans.Cache.Table.{
  lookup-eq-none_or_some, lookup, has_key, Unique, lookup-insert, lookup-delete,
}
use route_ans.Cache.Memory.{
  Entry, MemoryCache, evict, cleanup_entries, cleanup, get, set, delete_key, exists_key, is_expired,
}
use route_ans.Cache.Memory.Validity.{IsValid}
use route_ans.Cache.Memory.Room.{
  after_set, stored, set-after_set, after_set-IsValid, make_room, make_room-lookup, is_victim,
}

module _ {V : Type 0} where
  abbrev pub live : ℕ → Option (Entry V) → Option V
  live now none = none
  live now (some e) = if is_expired now e then none else some e.value

  -- The value that the cache holds for a key at a time.
  unfoldable pub view : ℕ → MemoryCache V → Text → Option V
  view now c key = live now (lookup key c.items)

  -- `Get` returns the value in view and changes no value in view, at any time, of any key; it
  -- counts one hit and no miss if it found a value, and one miss and no hit if not. `Exists` tells
  -- whether it finds one.
  pub get-view :
      (now : ℕ) (key : Text) (c : MemoryCache V)
      → ((get now key c).1 ≡ view now c key)
        × ((t : ℕ) (j : Text) → view t (get now key c).0 j ≡ view t c j)
        × (exists_key now key c ≡ elim (view now c key) [ none ↦ false | some v ↦ true ])
        × ((get now key c).0.hits ≡ c.hits + (if exists_key now key c then 1 else 0))
        × ((get now key c).0.misses ≡ c.misses + (if exists_key now key c then 0 else 1))
  unfolding get view exists_key
  get-view now key c = (ground arith, λ t j. ground arith, ground arith, ground arith, ground arith)

  -- What is read for `j` after a value was stored for `key`: the new value until it expires; for
  -- another key what was there, unless a new key came into a full cache and `j` was the least
  -- recently used.
  abbrev pub after_store : ℕ → MemoryCache V → Text → Entry V → Text → Option V
  after_store t c key e j =
      if text_eq key j
      then live t (some e)
      else if not (has_key key c.items) && is_victim c j
      then none
      else view t c j

  after_set-lookup :
      (key j : Text) (e : Entry V) (c : MemoryCache V)
      → lookup j (after_set key e c).items ≡ (
          if text_eq key j
          then some e
          else if not (has_key key c.items) && is_victim c j
          then none
          else lookup j c.items)
  unfolding after_set
  after_set-lookup key j e c = elim (lookup-eq-none_or_some key c.items) [
    | inl absent ↦ ground (arith, lookup-insert key j e (make_room c).items, make_room-lookup j c)
    | inr (old, present) ↦ ground (arith, lookup-insert key j e c.items)
  ]

  -- `Set` on a valid cache returns a valid cache, in which the key reads as the new value until that
  -- expires, and every other key as before, but for the least recently used one when a new key comes
  -- into a full cache, which reads as nothing.
  pub set-view :
      (now : ℕ) (key : Text) (value : V) (ttl : ℤ) (c : MemoryCache V)
      → IsValid c
      → (c' : MemoryCache V) × (set now key value ttl c ≡ some c')
        × IsValid c'
        × ((t : ℕ) (j : Text) → view t c' j ≡ after_store t c key (stored now value ttl c) j)
  unfolding view
  set-view now key value ttl c v =
      let e = stored now value ttl c in
      (
        after_set key e c,
        set-after_set now key value ttl c v,
        after_set-IsValid key e c v,
        λ t j. ground (arith, after_set-lookup key j e c),
      )

  -- `Delete` takes a key out of view, at every time, and leaves the other keys as they were.
  pub delete_key-view :
      (key : Text) (c : MemoryCache V) (t : ℕ) (j : Text)
      → view t (delete_key key c) j ≡ (if text_eq key j then none else view t c j)
  unfolding view delete_key
  delete_key-view key c t j = elim (lookup-eq-none_or_some key c.items) [
    | inl absent ↦ ground (arith, text_eq_iff key j)
    | inr (e, present) ↦ ground (arith, lookup-delete key j c.items)
  ]

  -- Some entry of the key has expired.
  unfoldable pub expired_in : ℕ → Text → List (Text × Entry V) → Bool
  expired_in now j [] = false
  expired_in now j ((k, e) ∷ m) = (text_eq k j && is_expired now e) || expired_in now j m

  cleanup_entries-lookup :
      (now : ℕ) (entries : List (Text × Entry V)) (c : MemoryCache V) (j : Text)
      → lookup j (cleanup_entries now entries c).items
        ≡ (if expired_in now j entries then none else lookup j c.items)
  unfolding cleanup_entries expired_in
  cleanup_entries-lookup now [] c j = refl
  cleanup_entries-lookup now ((k, e) ∷ m) c j = elim (Bool-cases (is_expired now e)) [
    | inl old ↦
        ground (arith, cleanup_entries-lookup now m (evict k c) j, lookup-delete k j c.items)
    | inr young ↦ ground (arith, cleanup_entries-lookup now m c j)
  ]

  expired_in-lookup :
      (now : ℕ) (j : Text) (m : List (Text × Entry V))
      → Unique m
      → expired_in now j m ≡ elim (lookup j m) [ none ↦ false | some e ↦ is_expired now e ]
  unfolding expired_in lookup
  expired_in-lookup now j [] u = refl
  expired_in-lookup now j ((k, e) ∷ m) u =
      ground (arith, expired_in-lookup now j m u.1, text_eq_iff k j)

  -- `cleanup` drops exactly the entries that have expired, so it changes no value in view from then
  -- on.
  pub cleanup-view :
      (now : ℕ) (c : MemoryCache V)
      → IsValid c
      → (j : Text)
      → (lookup j (cleanup now c).items ≡ elim (lookup j c.items) [
        | none ↦ none
        | some e ↦ if is_expired now e then none else some e
      ])
        × ((t : ℕ) → now ≤ t → view t (cleanup now c) j ≡ view t c j)
  unfolding cleanup view
  cleanup-view now c v j = (
    ground
        (arith, cleanup_entries-lookup now c.items c j, expired_in-lookup now j c.items v.unique),
    λ t late.
        ground
          (arith, cleanup_entries-lookup now c.items c j, expired_in-lookup now j c.items v.unique),
  )
