-- ===== src/Resolver/Store.antt =====
-- `cache.Provider` of internal/cache/interface.go, as far as the resolver calls it: the operations on
-- a state, and what the resolver relies on. A value is in view of a key at a time when a read at
-- that time would return it.
pub mod Redis
use route_ans.Prelude.{
  ℕ, ◌+◌, ◌≤◌, ◌<◌, ◌≡◌, ◌⊎◌, Option, none, some, Text, text_eq, text_eq_refl, text_eq_iff,
  if◌then◌else◌, arith,
}
use route_ans.Prelude.Int.{ℤ, pos}
use route_ans.Models.{ResolutionRecord}
use route_ans.Cache.Memory.{MemoryCache, get, set, delete_key}
use route_ans.Cache.Memory.Validity.{IsValid, get-IsValid, delete_key-IsValid}
use route_ans.Cache.Memory.View.{view, get-view, set-view, delete_key-view}

pub record Store (S : Type 0) : Type 1 where
  pub fetch : ℕ → Text → S → S × Option ResolutionRecord
  pub put : ℕ → Text → ResolutionRecord → ℤ → S → S
  pub drop_key : Text → S → S
  pub in_view : ℕ → S → Text → Option ResolutionRecord
  pub Good : S → Type 0

-- The laws of a store.
pub record StoreLaws {S : Type 0} (store : Store S) : Type 0 where
  pub fetch-Good : (now : ℕ) (k : Text) (s : S) → store.Good s → store.Good (store.fetch now k s).0
  pub fetch_value : (now : ℕ) (k : Text) (s : S) → (store.fetch now k s).1 ≡ store.in_view now s k
  pub fetch_view :
      (now : ℕ) (k : Text) (s : S) (t : ℕ) (j : Text)
      → store.in_view t (store.fetch now k s).0 j ≡ store.in_view t s j
  pub put-Good :
      (now : ℕ) (k : Text) (v : ResolutionRecord) (ttl : ℤ) (s : S)
      → store.Good s
      → store.Good (store.put now k v ttl s)
  pub put_kept :
      (now : ℕ) (k : Text) (v : ResolutionRecord) (ttl : ℕ) (s : S) (t : ℕ)
      → store.Good s
      → 0 < ttl
      → t ≤ now + ttl
      → store.in_view t (store.put now k v (pos ttl) s) k ≡ some v
  pub put_only :
      (now : ℕ) (k : Text) (v : ResolutionRecord) (ttl : ℤ) (s : S) (t : ℕ) (j : Text)
      → store.Good s
      → {r : ResolutionRecord} → store.in_view t (store.put now k v ttl s) j ≡ some r
      → ((j ≡ k) × (r ≡ v)) ⊎ (store.in_view t s j ≡ some r)
  pub drop-Good : (k : Text) (s : S) → store.Good s → store.Good (store.drop_key k s)
  pub drop_view :
      (k : Text) (s : S) (t : ℕ) (j : Text)
      → store.in_view t (store.drop_key k s) j ≡ (if text_eq k j then none else store.in_view t s j)

-- The memory cache as a store; its `Set` returns on every valid cache.
abbrev pub memory_store : Store (MemoryCache ResolutionRecord)
memory_store = record {
  fetch = get;
  put = λ now k v ttl c. elim (set now k v ttl c) [ none ↦ c | some c' ↦ c' ];
  drop_key = delete_key;
  in_view = view;
  Good = IsValid;
}

-- The memory cache keeps the laws of a store.
pub memory_store-StoreLaws : StoreLaws memory_store
memory_store-StoreLaws = record {
  fetch-Good = get-IsValid;
  fetch_value = λ now k s. (get-view now k s).0;
  fetch_view = λ now k s. (get-view now k s).1;
  put-Good = λ now k v ttl s good.
      let (c, e, valid, read) = set-view now k v ttl s good in rw (memory_store, e) valid;
  put_kept = λ now k v ttl s t good p h.
      let (c, e, valid, read) = set-view now k v (pos ttl) s good in
      rw (memory_store, e, read t k, text_eq_refl k) (ground arith);
  put_only = λ now k v ttl s t j good h.
      let (c, e, valid, read) = set-view now k v ttl s good in
      ground (arith, read t j, text_eq_iff k j);
  drop-Good = delete_key-IsValid;
  drop_view = delete_key-view;
}
