-- ===== src/Registry/Godaddy/Stubs.antt =====
-- The parts of internal/registry/godaddy.go that are not made yet, and `Healthy`.
use route_ans.Prelude.{Bool, true, none, some, [], ◌∷◌, Text, codes, Result, ok, err, ltb}
use route_ans.Registry.Record.{Record}
use route_ans.Registry.Godaddy.Lookup.{Service}
use route_ans.Registry.Mock.Samples.{RegistryVerdict}
use route_ans.Trust.Merkle.{MerkleProof, SignedTreeHead}

-- `GetMerkleProof`
unfoldable pub get_merkle_proof : Text → Result Text MerkleProof
get_merkle_proof ans_name = err (codes "merkle proof not yet implemented for GoDaddy adapter")

-- `GetSignedTreeHead`
unfoldable pub get_signed_tree_head : Result Text SignedTreeHead
get_signed_tree_head = err (codes "signed tree head not yet implemented for GoDaddy adapter")

-- `VerifyRecord`: it reads nothing of the record.
unfoldable pub verify_record : Record → RegistryVerdict
verify_record r = record {
  valid = true;
  checks = (codes "registry", true, codes "Record retrieved from GoDaddy registry") ∷ [];
}

-- `Healthy`: any answer below 500 will do.
unfoldable pub healthy : Service → Result Text Bool
healthy svc = elim (svc.client (codes "GET") svc.base_url []) [
  | none ↦ err (codes "unreachable")
  | some (code, body) ↦ ok (ltb code 500)
]
