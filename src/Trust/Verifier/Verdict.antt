-- ===== src/Trust/Verifier/Verdict.antt =====
-- What a verdict of the verifier means.
use route_ans.Prelude.{
  ℕ, ◌+◌, ◌≤◌, ◌<◌, ◌≡◌, ◌≢◌, refl, ◌↔◌, ◌⊎◌, true, false, Option, [], ◌∷◌, Text, text_eq_iff,
  arith,
}
use route_ans.Registry.Record.{Record}
use route_ans.Trust.Checks.{
  CheckName, signature, certificate, merkle_proof, revocation, expiry, registrar, VerifierConfig,
  Provider, Crypto, check_record_expiry, check_registrar, verify_record_signature,
  verify_endpoint_fingerprint,
}
use route_ans.Trust.Verifier.{
  verified, Checks, status_of, all_pass, first_failure, record_checks, verify_registry_record,
}

status_of-ne-verified : (n : CheckName) → status_of n ≢ verified
status_of-ne-verified signature = λ e. cc
status_of-ne-verified certificate = λ e. cc
status_of-ne-verified revocation = λ e. cc
status_of-ne-verified merkle_proof = λ e. cc
status_of-ne-verified expiry = λ e. cc
status_of-ne-verified registrar = λ e. cc

first_failure-ne-verified : (l : Checks) → all_pass l ≡ false → first_failure l ≢ verified
unfolding all_pass first_failure
first_failure-ne-verified [] h = cc
first_failure-ne-verified ((name, c) ∷ l) h =
    ground (arith, status_of-ne-verified name, first_failure-ne-verified l)

module _ {Key : Type 0} (crypto : Crypto Key) (provider : Option (Provider Key))
    (cfg : VerifierConfig) (walk : Checks → Checks) (now : ℕ) (r : Record) where
  registrar_required : (check_registrar provider r.registrar_id).required ≡ true
  unfolding check_registrar
  registrar_required = refl

  signature_required :
      (verify_record_signature crypto provider cfg r).required ≡ cfg.require_signature
  unfolding verify_record_signature
  signature_required = refl

  fingerprint_required :
      (f : Text) → (verify_endpoint_fingerprint crypto r.endpoint f).required ≡ true
  unfolding verify_endpoint_fingerprint
  fingerprint_required f = refl

  -- A record is valid exactly when its registrar passes, it has not expired beyond the grace
  -- period, a signature that is present and required holds, and the certificate of an endpoint that
  -- comes with a fingerprint matches it. An absent signature is no obstacle, required or not.
  pub verify_registry_record-valid_iff :
      ((verify_registry_record crypto provider cfg walk now r).valid ≡ true) ↔ (
        ((check_registrar provider r.registrar_id).passed ≡ true)
        × ((r.expires_at ≡ 0) ⊎ (now ≤ r.expires_at) ⊎ (now < r.expires_at + cfg.grace_period))
        × (cfg.require_signature ≡ true
            → r.registry_signature ≢ []
            → (verify_record_signature crypto provider cfg r).passed ≡ true)
        × (r.endpoint ≢ []
            → r.certificates.public_cert.fingerprint ≢ []
            → (verify_endpoint_fingerprint crypto r.endpoint
                r.certificates.public_cert.fingerprint).passed
              ≡ true))
  unfolding verify_registry_record all_pass record_checks check_record_expiry
  verify_registry_record-valid_iff = (
    λ h. (
      ground (arith, registrar_required),
      ground (arith, registrar_required),
      λ p q. ground (arith, signature_required, text_eq_iff r.registry_signature []),
      λ p q. ground (
        arith,
        signature_required,
        fingerprint_required r.certificates.public_cert.fingerprint,
        text_eq_iff r.endpoint [],
        text_eq_iff r.certificates.public_cert.fingerprint [],
      ),
    ),
    λ h. ground (
      arith,
      registrar_required,
      signature_required,
      fingerprint_required r.certificates.public_cert.fingerprint,
      text_eq_iff r.registry_signature [],
      text_eq_iff r.endpoint [],
      text_eq_iff r.certificates.public_cert.fingerprint [],
      h.2,
      h.3,
    ),
  )

  -- Whatever order the walk over the map takes, as long as it keeps which checks there are, the
  -- status is `verified` exactly for a valid record.
  pub verify_registry_record-verified_iff :
      ((l : Checks) → all_pass (walk l) ≡ all_pass l)
      → ((verify_registry_record crypto provider cfg walk now r).status ≡ verified)
        ↔ ((verify_registry_record crypto provider cfg walk now r).valid ≡ true)
  unfolding verify_registry_record
  verify_registry_record-verified_iff keeps =
      let checks = record_checks crypto provider cfg now r in
      (
        λ h. ground (arith, keeps checks, first_failure-ne-verified (walk checks)),
        λ h. ground arith,
      )
