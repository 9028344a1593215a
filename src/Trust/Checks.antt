-- ===== src/Trust/Checks.antt =====
-- The single checks of internal/trust/verifier.go, without their messages and details.
use route_ans.Prelude.{
  ℕ, ◌+◌, Bool, true, false, ◌&&◌, ◌||◌, not, Option, none, some, List, [], ◌∷◌, ◌++◌, Text, codes,
  text_eq, Result, ok, err, ltb, ◌==◌, if◌then◌else◌,
}
use route_ans.Registry.Record.{Record}
use route_ans.Registry.Godaddy.{strip_prefix}

-- The names of the checks, as internal/trust/interface.go lists them.
pub data CheckName : Type 0 where
  signature merkle_proof certificate revocation expiry registrar : CheckName

pub record CheckResult : Type 0 where
  pub passed : Bool
  pub required : Bool

-- `VerifierConfig`, with the grace period in nanoseconds; the OCSP and CRL settings, which these
-- checks do not read, are left out.
pub record VerifierConfig : Type 0 where
  pub require_signature : Bool
  pub require_merkle_proof : Bool
  pub check_revocation : Bool
  pub grace_period : ℕ

-- `RegistrarInfo`, as far as it is read.
pub record RegistrarInfo : Type 0 where
  pub id : Text
  pub enabled : Bool

-- What the verifier calls and does not implement: the trust store with keys of a type `Key`, the
-- decoding and the checking of signatures, the TLS handshake, which yields the certificates of the
-- peer, and the SHA-256 hash of a certificate in hexadecimal digits.
pub record Provider (Key : Type 0) : Type 0 where
  pub all_registrars : Result (Unit {0}) (List RegistrarInfo)
  pub registrar_keys : Text → Result (Unit {0}) (List Key)

pub record Crypto (Key : Type 0) : Type 0 where
  pub decode_signature : Text → Option Text
  pub verify_key : Key → Text → Text → Bool
  pub dial : Text → Result (Unit {0}) (List Text)
  pub sha256_hex : Text → Text

-- `checkRecordExpiry` at a time `now`; a time of zero means that no expiry is set.
unfoldable pub check_record_expiry : ℕ → ℕ → ℕ → CheckResult
check_record_expiry grace now expires_at = record {
  passed =
      if expires_at == 0
      then true
      else if ltb expires_at now
      then ltb now (expires_at + grace)
      else true;
  required = true;
}

unfoldable pub trusted : List RegistrarInfo → Text → Bool
trusted [] id = false
trusted (r ∷ l) id = (text_eq r.id id && r.enabled) || trusted l id

-- `strings.Index(host, "/")` and the cut at it.
unfoldable pub before_slash : Text → Text
before_slash [] = []
before_slash (c ∷ s) = let rest = before_slash s in if c == b'/' then [] else c ∷ rest

unfoldable pub has_colon : Text → Bool
has_colon [] = false
has_colon (c ∷ s) = c == b':' || has_colon s

-- The address that is dialled for what stands behind `https://`.
unfoldable pub dial_address : Text → Text
unfolding before_slash has_colon
dial_address rest =
    let host = before_slash rest in if has_colon host then host else host ++ codes ":443"

module _ {Key : Type 0} where
  -- `checkRegistrar`; without a trust provider every registrar passes.
  unfoldable pub check_registrar : Option (Provider Key) → Text → CheckResult
  check_registrar provider id = record {
    passed = elim provider [
      | none ↦ true
      | some p ↦ elim p.all_registrars [ err _ ↦ false | ok l ↦ trusted l id ]
    ];
    required = true;
  }

  -- The loop of `VerifySignature` over the keys.
  unfoldable pub some_key_verifies : Crypto Key → Text → Text → List Key → Bool
  some_key_verifies crypto payload sig [] = false
  some_key_verifies crypto payload sig (k ∷ ks) =
      crypto.verify_key k payload sig || some_key_verifies crypto payload sig ks

  abbrev pub with_keys : Crypto Key → Text → Text → List Key → Result (Unit {0}) Bool
  with_keys crypto payload sig [] = err tt
  with_keys crypto payload sig (k ∷ ks) = elim (crypto.decode_signature sig) [
    | none ↦ err tt
    | some bytes ↦ ok (some_key_verifies crypto payload bytes (k ∷ ks))
  ]

  -- `VerifySignature`
  unfoldable pub verify_signature :
      Crypto Key → Option (Provider Key) → Text → Text → Text → Result (Unit {0}) Bool
  verify_signature crypto none payload sig id = err tt
  verify_signature crypto (some p) payload sig id = elim (p.registrar_keys id) [
    | err e ↦ err e
    | ok keys ↦ with_keys crypto payload sig keys
  ]

  -- `verifyRecordSignature`
  unfoldable pub verify_record_signature :
      Crypto Key → Option (Provider Key) → VerifierConfig → Record → CheckResult
  verify_record_signature crypto provider cfg r = record {
    passed =
        if text_eq r.registry_signature []
        then not cfg.require_signature
        else elim (verify_signature crypto provider (r.ans_name ++ (r.endpoint ++ r.registrar_id))
            r.registry_signature r.registrar_id) [ err _ ↦ false | ok valid ↦ valid ];
    required = cfg.require_signature;
  }

  abbrev pub leaf_matches : Crypto Key → Text → List Text → Bool
  leaf_matches crypto expected [] = false
  leaf_matches crypto expected (leaf ∷ chain) =
      text_eq (codes "SHA256:" ++ crypto.sha256_hex leaf) expected

  -- `VerifyEndpointFingerprint`; its error cases carry a failed required check, which is the check
  -- that the caller records for an error.
  unfoldable pub verify_endpoint_fingerprint : Crypto Key → Text → Text → CheckResult
  verify_endpoint_fingerprint crypto endpoint expected = record {
    passed =
        if text_eq expected [] then false else elim (strip_prefix (codes "https://") endpoint) [
          | none ↦ false
          | some rest ↦ elim (crypto.dial (dial_address rest)) [
            | err _ ↦ false
            | ok chain ↦ leaf_matches crypto expected chain
          ]
        ];
    required = true;
  }
