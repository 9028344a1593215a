-- ===== src/Cache/Table.antt =====
-- A Go map with string keys as an association list: what `m[k]`, `m[k] = v` and `delete` do.
use route_ans.Prelude.{
  ◌+◌, ◌≤◌, ◌≡◌, refl, ◌⊎◌, Bool, true, false, Option, none, some, List, [], ◌∷◌, Text, text_eq,
  text_eq_iff, if◌then◌else◌, length, arith,
}

module _ {ℓ} {V : Type ℓ} where
  unfoldable pub lookup : Text → List (Text × V) → Option V
  lookup key ((first, value) ∷ others) =
      let further = lookup key others in if text_eq first key then some value else further
  lookup key [] = none

  unfoldable pub delete : Text → List (Text × V) → List (Text × V)
  delete k [] = []
  delete k ((j, v) ∷ m) = let rest = delete k m in if text_eq j k then rest else (j, v) ∷ rest

  -- A write replaces the value of a key that is there, and adds a key that is not.
  unfoldable pub insert : Text → V → List (Text × V) → List (Text × V)
  insert key value ((first, old) ∷ others) =
      let written = insert key value others in
      if text_eq first key then (key, value) ∷ others else (first, old) ∷ written
  insert key value [] = (key, value) ∷ []

  abbrev pub has_key : Text → List (Text × V) → Bool
  has_key k m = elim (lookup k m) [ none ↦ false | some v ↦ true ]

  pub lookup-insert :
      (written read : Text) (value : V) (table : List (Text × V))
      → lookup read (insert written value table)
        ≡ (if text_eq written read then some value else lookup read table)
  unfolding lookup insert
  lookup-insert written read value ((first, old) ∷ others) = ground (
    arith,
    lookup-insert written read value others,
    text_eq_iff first read,
    text_eq_iff first written,
    text_eq_iff written read,
  )
  lookup-insert written read value [] = refl

  pub lookup-delete :
      (k j : Text) (m : List (Text × V))
      → lookup j (delete k m) ≡ (if text_eq k j then none else lookup j m)
  unfolding lookup delete
  lookup-delete k j [] = ground arith
  lookup-delete k j ((i, w) ∷ m) =
      ground (arith, text_eq_iff k j, text_eq_iff i k, text_eq_iff i j, lookup-delete k j m)

  pub length-insert :
      (k : Text) (v : V) (m : List (Text × V))
      → length (insert k v m) ≡ (if has_key k m then length m else length m + 1)
  unfolding lookup insert
  length-insert k v [] = refl
  length-insert k v ((i, w) ∷ m) = ground (arith, length-insert k v m)

  pub length-delete : (k : Text) (m : List (Text × V)) → length (delete k m) ≤ length m
  unfolding delete
  length-delete k [] = omega arith
  length-delete k ((i, w) ∷ m) = ground (arith, length-delete k m)

  pub delete_absent : (k : Text) (m : List (Text × V)) → lookup k m ≡ none → delete k m ≡ m
  unfolding lookup delete
  delete_absent k [] h = refl
  delete_absent k ((i, w) ∷ m) h = ground (arith, delete_absent k m)

  pub lookup-eq-none_or_some :
      (k : Text) (m : List (Text × V)) → (lookup k m ≡ none) ⊎ ((v : V) × (lookup k m ≡ some v))
  lookup-eq-none_or_some k m = ground arith

module _ {ℓ} {V : Type ℓ} where
  -- No key twice, as in every Go map.
  abbrev pub Unique : List (Text × V) → Type 0
  Unique [] = Unit
  Unique ((k, v) ∷ m) = (has_key k m ≡ false) × Unique m

  pub insert-Unique : (k : Text) (v : V) (m : List (Text × V)) → Unique m → Unique (insert k v m)
  unfolding insert lookup
  insert-Unique k v [] u = (refl, tt)
  insert-Unique k v ((i, w) ∷ m) u =
      ground
        (arith, insert-Unique k v m u.1, lookup-insert k i v m, text_eq_iff i k, text_eq_iff k i)

  pub delete-Unique : (k : Text) (m : List (Text × V)) → Unique m → Unique (delete k m)
  unfolding delete lookup
  delete-Unique k [] u = tt
  delete-Unique k ((i, w) ∷ m) u = ground (arith, delete-Unique k m u.1, lookup-delete k i m)

  pub length-delete-Unique :
      (k : Text) (m : List (Text × V))
      → Unique m
      → length (delete k m) + (if has_key k m then 1 else 0) ≡ length m
  unfolding delete lookup
  length-delete-Unique k [] u = refl
  length-delete-Unique k ((i, w) ∷ m) u =
      ground (arith, length-delete-Unique k m u.1, delete_absent k m, text_eq_iff i k)
