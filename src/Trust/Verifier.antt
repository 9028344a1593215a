-- ===== src/Trust/Verifier.antt =====
-- `VerifyRegistryRecord` of internal/trust/verifier.go. Its checks run at the same time and are added
-- under a lock; `Valid` does not depend on their order. The status does, for it is read off the
-- first failure that a walk over a Go map meets: the walk is the parameter `walk`.
pub mod Verdict
use route_ans.Prelude.{
  ℕ, zero, suc, ◌+◌, ◌≡◌, Bool, true, false, ◌&&◌, ◌||◌, not, Option, none, some, List, [], ◌∷◌,
  ◌++◌, Text, codes, text_eq, Result, ok, err, if◌then◌else◌,
}
use route_ans.Registry.Record.{Record}
use route_ans.Trust.Checks.{
  CheckName, signature, certificate, revocation, expiry, registrar, CheckResult, VerifierConfig,
  Provider, Crypto, check_record_expiry, check_registrar, verify_record_signature,
  verify_endpoint_fingerprint,
}

pub data Status : Type 0 where
  verified invalid revoked expired untrusted error : Status

-- `result.Checks`, each check under its name.
abbrev pub Checks : Type 0
Checks = List (CheckName × CheckResult)

pub record VerificationResult : Type 0 where
  pub valid : Bool
  pub status : Status
  pub checks : Checks

abbrev pub failed : CheckResult → Bool
failed c = not c.passed && c.required

-- `addCheck` for each check in turn: no required check failed.
unfoldable pub all_pass : Checks → Bool
all_pass [] = true
all_pass ((name, c) ∷ l) = not (failed c) && all_pass l

-- The status for the name of a failed check.
abbrev pub status_of : CheckName → Status
status_of expiry = expired
status_of revocation = revoked
status_of signature = untrusted
status_of registrar = untrusted
status_of _ = invalid

-- The loop that determines the final status.
unfoldable pub first_failure : Checks → Status
first_failure [] = verified
first_failure ((name, c) ∷ l) =
    let rest = first_failure l in if failed c then status_of name else rest

module _ {Key : Type 0} (crypto : Crypto Key) (provider : Option (Provider Key))
    (cfg : VerifierConfig) where
  abbrev pub signature_checks : Record → Checks
  signature_checks r =
      if cfg.require_signature && not (text_eq r.registry_signature [])
      then (signature, verify_record_signature crypto provider cfg r) ∷ []
      else []

  -- With a fingerprint and no endpoint there is no check.
  abbrev pub certificate_checks : Record → Checks
  certificate_checks r =
      let expected = r.certificates.public_cert.fingerprint in
      if not (text_eq r.endpoint []) && not (text_eq expected [])
      then (certificate, verify_endpoint_fingerprint crypto r.endpoint expected) ∷ []
      else if text_eq expected []
      then (certificate, record { passed = false; required = false }) ∷ []
      else []

  -- The checks of a record.
  unfoldable pub record_checks : ℕ → Record → Checks
  record_checks now r =
      (registrar, check_registrar provider r.registrar_id)
      ∷ (expiry, check_record_expiry cfg.grace_period now r.expires_at)
      ∷ (signature_checks r ++ certificate_checks r)

  -- `VerifyRegistryRecord`
  unfoldable pub verify_registry_record : (Checks → Checks) → ℕ → Record → VerificationResult
  verify_registry_record walk now r =
      let checks = record_checks now r in
      record {
        valid = all_pass checks;
        status = if all_pass checks then verified else first_failure (walk checks);
        checks = checks;
      }
