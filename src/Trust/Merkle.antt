-- ===== src/Trust/Merkle.antt =====
-- `VerifyMerkleProof` and `computeMerkleRoot` of internal/trust/verifier.go; SHA-256 is a parameter.
pub mod Trees
use route_ans.Prelude.{
  ℕ, suc, ◌+◌, ◌/◌, ◌%◌, ◌==◌, Bool, true, false, Option, none, some, List, [], ◌∷◌, ◌++◌, Text,
  text_eq, Result, ok, err, if◌then◌else◌,
}
use route_ans.Prelude.Int.{ℤ, pos, negsuc, pos_part, ◌<ℤ◌, minus}

-- `MerkleProof` without its root and time, which are not read
pub record MerkleProof : Type 0 where
  pub leaf_index : ℤ
  pub tree_size : ℤ
  pub hashes : List Text

-- `SignedTreeHead`, as far as it is read
pub record SignedTreeHead : Type 0 where
  pub root_hash : Text

-- `idx % 2 == 0`, also for a negative index
abbrev pub is_even : ℤ → Bool
is_even (pos n) = n % 2 == 0
is_even (negsuc n) = (n + 1) % 2 == 0

-- `idx / 2`, which rounds towards zero
abbrev pub half : ℤ → ℤ
half (pos n) = pos (n / 2)
half (negsuc n) = minus 0 ((n + 1) / 2)

-- `(size + 1) / 2`, of a size above one
abbrev pub half_up : ℤ → ℤ
half_up size = pos ((pos_part size + 1) / 2)

module _ (sha256 : Text → Text) where
  abbrev pub combined : Bool → Text → Text → Text
  combined true current sibling = sha256 (current ++ sibling)
  combined false current sibling = sha256 (sibling ++ current)

  -- The loop of `computeMerkleRoot`
  unfoldable pub climb : Text → ℤ → ℤ → List Text → Text
  climb current index size [] = current
  climb current index size (sibling ∷ siblings) =
      let above =
        climb (combined (is_even index) current sibling) (half index) (half_up size) siblings in
      if pos 1 <ℤ size then above else current

  -- `computeMerkleRoot`; an empty text is the nil slice.
  unfoldable pub compute_merkle_root : ℤ → ℤ → List Text → Text
  compute_merkle_root index size [] = []
  compute_merkle_root index size (leaf ∷ siblings) = climb leaf index size siblings

  -- `VerifyMerkleProof`; the error is that of a nil argument.
  unfoldable pub verify_merkle_proof :
      Option MerkleProof → Option SignedTreeHead → Result (Unit {0}) Bool
  verify_merkle_proof none head = err tt
  verify_merkle_proof (some proof) none = err tt
  verify_merkle_proof (some proof) (some head) =
      ok
        (text_eq (compute_merkle_root proof.leaf_index proof.tree_size proof.hashes) head.root_hash)
