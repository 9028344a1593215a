-- ===== src/Trust/Merkle/Trees.antt =====
-- The proofs of complete trees.
use route_ans.Prelude.{
  ℕ, zero, suc, ◌+◌, ◌-◌, ◌^◌, ◌/◌, ◌%◌, ◌<◌, ◌≡◌, refl, sym, ap, subst, ◌∙◌, inl, inr, ltb, ltb→lt,
  ◌==◌, Bool, true, false, not, some, List, [], ◌∷◌, ◌++◌, Text, text_eq, ok, if◌then◌else◌, length,
  length-append, arith, Bool-cases,
}
use route_ans.Prelude.Int.{pos, ◌<ℤ◌}
use route_ans.Trust.Merkle.{
  SignedTreeHead, half_up, combined, climb, compute_merkle_root, verify_merkle_proof,
}

-- A complete binary tree over the hashes of its leaves.
pub data Tree : ℕ → Type 0 where
  leaf : Text → Tree 0
  node : (d : ℕ) → Tree d → Tree d → Tree (suc d)

pow_pos : (n : ℕ) → 0 < 2 ^ n
pow_pos zero = omega arith
pow_pos (suc n) = let h = pow_pos n in omega arith

above_one : (n : ℕ) → (pos 1 <ℤ pos (2 ^ suc n)) ≡ true
above_one n = let h = pow_pos n in ground arith

halved : (n : ℕ) → half_up (pos (2 ^ suc n)) ≡ pos (2 ^ n)
halved n = let e : (2 ^ suc n + 1) / 2 ≡ 2 ^ n = omega arith in ap pos e

-- The highest bit of an index below 2 ^ (n + 1).
abbrev shift : Bool → ℕ → ℕ
shift true n = 2 ^ n
shift false n = 0

even_shift : (b : Bool) (j m : ℕ) → ((j + shift b (suc m)) % 2 == 0) ≡ (j % 2 == 0)
even_shift true j m = let e : (j + 2 ^ suc m) % 2 ≡ j % 2 = omega arith in ap (λ n. n == 0) e
even_shift false j m = let e : (j + 0) % 2 ≡ j % 2 = omega arith in ap (λ n. n == 0) e

half_shift : (b : Bool) (j m : ℕ) → (j + shift b (suc m)) / 2 ≡ j / 2 + shift b m
half_shift true j m = let e : (j + 2 ^ suc m) / 2 ≡ j / 2 + 2 ^ m = omega arith in e
half_shift false j m = let e : (j + 0) / 2 ≡ j / 2 + 0 = omega arith in e

plus_one : (d : ℕ) → d + 1 ≡ suc d
plus_one d = omega arith

plus_zero : (i : ℕ) → i ≡ i + 0
plus_zero i = omega arith

module _ (sha256 : Text → Text) where
  unfoldable pub root : (d : ℕ) → Tree d → Text
  root zero (leaf h) = h
  root (suc d) (node _ l r) = sha256 (root d l ++ root d r)

  -- The leaf at an index.
  unfoldable pub leaf_at : (d : ℕ) → Tree d → ℕ → Text
  leaf_at zero (leaf h) i = h
  leaf_at (suc d) (node _ l r) i =
      let left = leaf_at d l i in
      let right = leaf_at d r (i - 2 ^ d) in if ltb i (2 ^ d) then left else right

  -- The siblings on the way up from the leaf at an index.
  unfoldable pub audit_path : (d : ℕ) → Tree d → ℕ → List Text
  audit_path zero (leaf h) i = []
  audit_path (suc d) (node _ l r) i =
      let left = audit_path d l i in
      let right = audit_path d r (i - 2 ^ d) in
      if ltb i (2 ^ d) then left ++ root d r ∷ [] else right ++ root d l ∷ []

  -- The next step up, in a tree that is not a single leaf.
  climb_up :
      (current sibling : Text) (i n : ℕ) (siblings : List Text)
      → climb sha256 current (pos i) (pos (2 ^ suc n)) (sibling ∷ siblings)
        ≡ climb sha256
            (combined sha256 (i % 2 == 0) current sibling)
            (pos (i / 2))
            (pos (2 ^ n))
            siblings
  unfolding climb
  climb_up current sibling i n siblings = rw (climb, above_one n, halved n) refl

  -- The last step up takes the highest bit of the index, and the steps before it do not read that bit.
  climb-top :
      (b : Bool) (current : Text) (j : ℕ) (siblings : List Text) (top : Text)
      → j < 2 ^ length siblings
      → climb sha256 current
          (pos (j + shift b (length siblings)))
          (pos (2 ^ suc (length siblings)))
          (siblings ++ top ∷ [])
        ≡ combined sha256
            (not b)
            (climb sha256 current (pos j) (pos (2 ^ length siblings)) siblings)
            top
  climb-top true current zero [] top h = unfold climb in refl
  climb-top false current zero [] top h = unfold climb in refl
  climb-top b current (suc j) [] top h = let none_left : suc j < 1 = h in absurd (omega arith)
  climb-top b current j (x ∷ siblings) top h =
      let n = length siblings in
      let bound : j < 2 ^ suc n = h in
      let low : j / 2 < 2 ^ n = omega arith in
      climb_up current x (j + shift b (suc n)) (suc n) (siblings ++ top ∷ [])
      ∙ rw (even_shift b j n, half_shift b j n)
          (climb-top b (combined sha256 (j % 2 == 0) current x) (j / 2) siblings top low)
      ∙ ap (λ t. combined sha256 (not b) t top) (sym (climb_up current x j n siblings))

  climb-top_at :
      (n : ℕ) (b : Bool) (current : Text) (j : ℕ) (siblings : List Text) (top : Text)
      → length siblings ≡ n
      → j < 2 ^ n
      → climb sha256 current (pos (j + shift b n)) (pos (2 ^ suc n)) (siblings ++ top ∷ [])
        ≡ combined sha256 (not b) (climb sha256 current (pos j) (pos (2 ^ n)) siblings) top
  climb-top_at n b current j siblings top e =
      subst
        (λ m.
          j < 2 ^ m
          → climb sha256 current (pos (j + shift b m)) (pos (2 ^ suc m)) (siblings ++ top ∷ [])
            ≡ combined sha256 (not b) (climb sha256 current (pos j) (pos (2 ^ m)) siblings) top)
        e (climb-top b current j siblings top)

  length-audit_path : (d : ℕ) (t : Tree d) (i : ℕ) → length (audit_path d t i) ≡ d
  unfolding audit_path
  length-audit_path zero (leaf h) i = refl
  length-audit_path (suc d) (node _ l r) i = elim (Bool-cases (ltb i (2 ^ d))) [
    | inl low ↦
        rw (audit_path, low)
          (length-append (audit_path d l i) (root d r ∷ [])
            ∙ ap (λ n. n + 1) (length-audit_path d l i)
            ∙ plus_one d)
    | inr high ↦
        rw (audit_path, high)
          (length-append (audit_path d r (i - 2 ^ d)) (root d l ∷ [])
            ∙ ap (λ n. n + 1) (length-audit_path d r (i - 2 ^ d))
            ∙ plus_one d)
  ]

  climb-root :
      (d : ℕ) (t : Tree d) (i : ℕ)
      → i < 2 ^ d
      → climb sha256 (leaf_at d t i) (pos i) (pos (2 ^ d)) (audit_path d t i) ≡ root d t
  unfolding audit_path leaf_at root
  climb-root zero (leaf h) i low = unfold climb in refl
  climb-root (suc d) (node _ l r) i bound = elim (Bool-cases (ltb i (2 ^ d))) [
    | inl low ↦
        rw (leaf_at, audit_path, low)
          (ap
              (λ k.
                climb sha256 (leaf_at d l i) (pos k) (pos (2 ^ suc d))
                  (audit_path d l i ++ root d r ∷ []))
              (plus_zero i)
            ∙ climb-top_at d false (leaf_at d l i) i (audit_path d l i) (root d r)
                (length-audit_path d l i) (ltb→lt _ _ low)
            ∙ ap (λ t. sha256 (t ++ root d r)) (climb-root d l i (ltb→lt _ _ low)))
    | inr high ↦
        let above : 2 ^ d < i + 1 = ground arith in
        let j = i - 2 ^ d in
        let at : i ≡ j + 2 ^ d = omega arith in
        let rest : j < 2 ^ d = omega arith in
        rw (leaf_at, audit_path, high)
          (ap
              (λ k.
                climb sha256 (leaf_at d r j) (pos k) (pos (2 ^ suc d))
                  (audit_path d r j ++ root d l ∷ []))
              at
            ∙ climb-top_at d true (leaf_at d r j) j (audit_path d r j) (root d l)
                (length-audit_path d r j) rest
            ∙ ap (λ t. sha256 (root d l ++ t)) (climb-root d r j rest))
  ]

  -- For every leaf of a complete tree, the proof made of the leaf and the siblings on its way up
  -- verifies against the head of the tree, and against no head with another root.
  pub verify_merkle_proof-root :
      (d : ℕ) (t : Tree d) (i : ℕ) (head : SignedTreeHead)
      → i < 2 ^ d
      → verify_merkle_proof sha256
          (some (record {
            leaf_index = pos i;
            tree_size = pos (2 ^ d);
            hashes = leaf_at d t i ∷ audit_path d t i;
          }))
          (some head)
        ≡ ok (text_eq (root d t) head.root_hash)
  unfolding verify_merkle_proof compute_merkle_root
  verify_merkle_proof-root d t i head bound =
      ap (λ r. ok (text_eq r head.root_hash)) (climb-root d t i bound)
