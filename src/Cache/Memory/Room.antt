-- ===== src/Cache/Memory/Room.antt =====
-- `Set` and the room that it makes: the loop ends, and the invariant is kept.
use route_ans.Prelude.{
  ℕ, zero, suc, ◌+◌, ◌<◌, ◌≡◌, inl, inr, Bool, false, Option, none, some, Text, text_eq,
  text_eq_iff, leb, if◌then◌else◌, length, arith, Bool-cases, Option-cases,
}
use route_ans.Prelude.Int.{ℤ}
use route_ans.Cache.Table.{
  lookup-eq-none_or_some, lookup, insert, lookup-insert, lookup-delete, length-insert,
  insert-Unique, length-delete-Unique,
}
use route_ans.Cache.Recency.{
  member, move_to_front, back, member-move_to_front, move_to_front-Distinct, length-move_to_front,
  back-member, back_of_length,
}
use route_ans.Cache.Memory.{
  Entry, MemoryCache, evict_oldest, evict_while_full, add_entry, set, positive_or,
}
use route_ans.Cache.Memory.Validity.{IsValid, evict-IsValid}

module _ {V : Type 0} where
  -- At most one entry has to go for a new one to fit.
  abbrev pub make_room : MemoryCache V → MemoryCache V
  make_room c = if leb c.max_size (length c.items) then evict_oldest c else c

  evict_oldest-IsValid : (c : MemoryCache V) → IsValid c → IsValid (evict_oldest c)
  unfolding evict_oldest
  evict_oldest-IsValid c v = elim (Option-cases (back c.lru)) [
    | inl empty ↦ rw (empty, evict_oldest) v
    | inr (key, last) ↦ rw (last, evict_oldest) (evict-IsValid key c v)
  ]

  -- The entry at the back exists, and goes.
  evict_oldest-length :
      (c : MemoryCache V)
      → IsValid c
      → 0 < length c.items
      → length (evict_oldest c).items + 1 ≡ length c.items
  unfolding evict_oldest
  evict_oldest-length c v h =
      let (key, last) = back_of_length c.lru (omega (arith, v.sizes)) in
      ground (
        arith,
        last,
        back-member c.lru {k = key} last,
        v.same key,
        length-delete-Unique key c.items v.unique,
      )

  evict_oldest-max_size : (c : MemoryCache V) → (evict_oldest c).max_size ≡ c.max_size
  unfolding evict_oldest
  evict_oldest-max_size c = ground arith

  evict_while_full_done :
      (fuel : ℕ) (c : MemoryCache V)
      → 0 < fuel
      → length c.items < c.max_size
      → evict_while_full fuel c ≡ some c
  unfolding evict_while_full
  evict_while_full_done zero c p h = absurd (omega arith)
  evict_while_full_done (suc fuel) c p h = ground arith

  -- The loop of `Set` ends, within the fuel that it is given, after one round at most.
  evict_while_full-make_room :
      (c : MemoryCache V)
      → IsValid c
      → evict_while_full (suc (length c.items)) c ≡ some (make_room c)
  unfolding evict_while_full
  evict_while_full-make_room c v = ground (
    arith,
    evict_while_full_done (length c.items) (evict_oldest c),
    evict_oldest-length c v,
    evict_oldest-max_size c,
  )

  -- After the loop the invariant holds and there is room for an entry.
  pub make_room-IsValid :
      (c : MemoryCache V)
      → IsValid c
      → IsValid (make_room c) × (length (make_room c).items < c.max_size)
  make_room-IsValid c v = elim (Bool-cases (leb c.max_size (length c.items))) [
    | inl full ↦ rw full (evict_oldest-IsValid c v, ground (arith, evict_oldest-length c v))
    | inr roomy ↦ rw roomy (v, ground arith)
  ]

  add_entry-IsValid :
      (key : Text) (e : Entry V) (c : MemoryCache V)
      → IsValid c
      → lookup key c.items ≡ none
      → length c.items < c.max_size
      → IsValid (add_entry key e c)
  unfolding member
  add_entry-IsValid key e c v absent room = record {
    same = λ k. ground (arith, v.same k, lookup-insert key k e c.items);
    unique = insert-Unique key e c.items v.unique;
    distinct = (ground (arith, v.same key), v.distinct);
    sizes = ground (arith, v.sizes, length-insert key e c.items);
    bounded = ground (arith, length-insert key e c.items);
    positive = v.positive;
  }

  update-IsValid :
      (key : Text) (e : Entry V) (c : MemoryCache V) {old : Entry V}
      → IsValid c
      → lookup key c.items ≡ some old
      → IsValid (record c { items = insert key e c.items; lru = move_to_front key c.lru })
  update-IsValid key e c v present = record {
    same = λ k. ground (
      arith,
      v.same k,
      v.same key,
      lookup-insert key k e c.items,
      member-move_to_front key k c.lru v.distinct,
      text_eq_iff key k,
    );
    unique = insert-Unique key e c.items v.unique;
    distinct = move_to_front-Distinct key c.lru v.distinct;
    sizes = ground (arith, v.sizes, length-insert key e c.items, length-move_to_front key c.lru);
    bounded = ground (arith, v.bounded, length-insert key e c.items);
    positive = v.positive;
  }

  -- The state after `Set`, without the loop.
  unfoldable pub after_set : Text → Entry V → MemoryCache V → MemoryCache V
  after_set key e c = elim (lookup key c.items) [
    | none ↦ add_entry key e (make_room c)
    | some old ↦ record c { items = insert key e c.items; lru = move_to_front key c.lru }
  ]

  abbrev pub stored : ℕ → V → ℤ → MemoryCache V → Entry V
  stored now value ttl c = record {
    value = value;
    expires_at = now + positive_or ttl c.default_ttl;
  }

  -- `Set` returns on every valid cache: the loop that makes room ends.
  pub set-after_set :
      (now : ℕ) (key : Text) (value : V) (ttl : ℤ) (c : MemoryCache V)
      → IsValid c
      → set now key value ttl c ≡ some (after_set key (stored now value ttl c) c)
  unfolding set after_set
  set-after_set now key value ttl c v = ground (arith, evict_while_full-make_room c v)

  -- The key that has to go: the least recently used one, if the cache is full.
  unfoldable pub victim : MemoryCache V → Option Text
  victim c = if leb c.max_size (length c.items) then back c.lru else none

  abbrev pub is_victim : MemoryCache V → Text → Bool
  is_victim c j = elim (victim c) [ none ↦ false | some k ↦ text_eq k j ]

  evict_oldest-lookup :
      (j : Text) (c : MemoryCache V)
      → lookup j (evict_oldest c).items ≡ elim (back c.lru) [
        | none ↦ lookup j c.items
        | some k ↦ if text_eq k j then none else lookup j c.items
      ]
  unfolding evict_oldest
  evict_oldest-lookup j c = elim (Option-cases (back c.lru)) [
    | inl empty ↦ ground arith
    | inr (k, last) ↦ ground (arith, lookup-delete k j c.items)
  ]

  -- Making room loses the victim and nothing else.
  pub make_room-lookup :
      (j : Text) (c : MemoryCache V)
      → lookup j (make_room c).items ≡ (if is_victim c j then none else lookup j c.items)
  unfolding victim
  make_room-lookup j c = ground (arith, evict_oldest-lookup j c)

  make_room_absent :
      (key : Text) (c : MemoryCache V)
      → lookup key c.items ≡ none
      → lookup key (make_room c).items ≡ none
  make_room_absent key c h = ground (arith, make_room-lookup key c)

  make_room-max_size : (c : MemoryCache V) → (make_room c).max_size ≡ c.max_size
  make_room-max_size c = ground (arith, evict_oldest-max_size c)

  -- `Set` keeps the invariant.
  pub after_set-IsValid :
      (key : Text) (e : Entry V) (c : MemoryCache V) → IsValid c → IsValid (after_set key e c)
  unfolding after_set
  after_set-IsValid key e c v = elim (lookup-eq-none_or_some key c.items) [
    | inl absent ↦
        let (valid, room) = make_room-IsValid c v in
        rw (absent, after_set)
          (add_entry-IsValid key e (make_room c) valid (make_room_absent key c absent)
            (omega (arith, make_room-max_size c)))
    | inr (old, present) ↦ rw (present, after_set) (update-IsValid key e c v present)
  ]
