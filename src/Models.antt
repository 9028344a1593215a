-- ===== src/Models.antt =====
-- The shared records of internal/models/types.go. A time is a number of nanoseconds, and zero is the
-- zero time; a map of JSON values holds each value as its text.
use route_ans.Prelude.{ℕ, Bool, Option, List, Text, codes}
use route_ans.Prelude.Int.{ℤ}

pub record MerkleProofData : Type 0 where
  pub tree_size : ℤ
  pub leaf_index : ℤ
  pub hashes : List Text
  pub root_hash : Text

pub record VerificationProof : Type 0 where
  pub merkle_proof : Option MerkleProofData
  pub signature_valid : Bool
  pub certificate_valid : Bool
  pub revocation_checked : Bool
  pub not_revoked : Bool

pub record ResolutionRecord : Type 0 where
  pub ans_name : Text
  pub fqdn : Text
  pub protocol : Text
  pub version : Text
  pub status : Text
  pub endpoint : Text
  pub cert_fingerprint : Text
  pub cert_expires_at : ℕ
  pub display_name : Text
  pub description : Text
  pub capabilities : List Text
  pub protocols : List Text
  pub protocol_extensions : List (Text × Text)
  pub registrar_id : Text
  pub ttl : ℤ
  pub registered_at : ℕ
  pub updated_at : ℕ
  pub expires_at : ℕ
  pub verified_at : ℕ
  pub verification : Option VerificationProof

-- The status constants.
abbrev pub status_active : Text
status_active = codes "active"

abbrev pub status_pending : Text
status_pending = codes "pending"

abbrev pub status_revoked : Text
status_revoked = codes "revoked"

abbrev pub status_expired : Text
status_expired = codes "expired"

abbrev pub status_deprecated : Text
status_deprecated = codes "deprecated"

abbrev pub status_invalid : Text
status_invalid = codes "invalid"

abbrev pub status_unknown : Text
status_unknown = codes "unknown"
