-- ===== src/Trust/Certificate/Chain.antt =====
-- What a verdict of `VerifyCertificate` means.
use route_ans.Prelude.{
  ℕ, ◌+◌, ◌≤◌, ◌≡◌, ◌≢◌, refl, subst, inl, inr, Option-cases, ◌++◌, ◌↔◌, true, Option, none, some,
  List, [], ◌∷◌, Text, Result, ok, err, arith, length,
}
use route_ans.Trust.Certificate.{
  X509, CertVerificationResult, Pki, check_period, check_chain, described, verify_certificate,
}

append-ne-nil {ℓ} : {A : Type ℓ} (xs : List A) (x : A) → xs ++ x ∷ [] ≢ []
append-ne-nil [] x e = cc
append-ne-nil (y ∷ ys) x e = cc

-- The period as the check reads it.
abbrev pub InPeriod : ℕ → ℕ → X509 → Type 0
InPeriod grace now cert = (cert.not_before ≤ now) × (now ≤ cert.not_after + grace)

module _ (pki : Pki) where
  -- The roots in use verify a chain; where there are none, nothing is asked.
  abbrev pub Trusted : Option (Result (Unit {0}) (List X509)) → ℕ → X509 → ℕ → Type 0
  Trusted none now cert len = len ≡ 0
  Trusted (some (err e)) now cert len = len ≡ 0
  Trusted (some (ok [])) now cert len = len ≡ 0
  Trusted (some (ok (root ∷ roots))) now cert len =
      (chain : List X509) × (chains : List (List X509)) × (pki.verify_chain (root ∷ roots) now cert
        ≡ some (chain, chains))
      × (len ≡ length chain)

  check_period-valid_iff :
      (grace now : ℕ) (cert : X509)
      → ((check_period grace now cert (described cert)).valid ≡ true) ↔ InPeriod grace now cert
  unfolding check_period
  check_period-valid_iff grace now cert = ground arith

  check_period-length :
      (grace now : ℕ) (cert : X509)
      → (check_period grace now cert (described cert)).chain_length ≡ 0
  unfolding check_period
  check_period-length grace now cert = ground arith

  -- Errors are added where the result is made invalid, and nowhere else.
  abbrev Consistent : CertVerificationResult → Type 0
  Consistent r = (r.valid ≡ true) ↔ (r.errors ≡ [])

  check_period-Consistent :
      (grace now : ℕ) (cert : X509) → Consistent (check_period grace now cert (described cert))
  unfolding check_period
  check_period-Consistent grace now cert = ground arith

  check_chain-Consistent :
      (roots : Option (Result (Unit {0}) (List X509))) (now : ℕ) (cert : X509)
      (r : CertVerificationResult)
      → Consistent r
      → Consistent (check_chain pki roots now cert r)
  unfolding check_chain
  check_chain-Consistent none now cert r c = c
  check_chain-Consistent (some (err e)) now cert r c = c
  check_chain-Consistent (some (ok [])) now cert r c = c
  check_chain-Consistent (some (ok (root ∷ roots))) now cert r c =
      elim (Option-cases (pki.verify_chain (root ∷ roots) now cert)) [
        | inl refused ↦
            rw (refused, check_chain) (λ e. cc, λ e. absurd (append-ne-nil r.errors _ e))
        | inr ((chain, chains), found) ↦ rw (found, check_chain) c
      ]

  check_chain-valid_iff :
      (roots : Option (Result (Unit {0}) (List X509))) (now : ℕ) (cert : X509)
      (r : CertVerificationResult)
      → r.chain_length ≡ 0
      → ((check_chain pki roots now cert r).valid ≡ true) ↔ (
          (r.valid ≡ true) × Trusted roots now cert (check_chain pki roots now cert r).chain_length)
  unfolding check_chain
  check_chain-valid_iff none now cert r z = (λ h. (h, z), λ h. h.0)
  check_chain-valid_iff (some (err e)) now cert r z = (λ h. (h, z), λ h. h.0)
  check_chain-valid_iff (some (ok [])) now cert r z = (λ h. (h, z), λ h. h.0)
  check_chain-valid_iff (some (ok (root ∷ roots))) now cert r z =
      elim (Option-cases (pki.verify_chain (root ∷ roots) now cert)) [
        | inl refused ↦ rw (refused, check_chain) (λ e. cc, λ h. cc)
        | inr ((chain, chains), found) ↦
            rw (found, check_chain) (λ h. (h, (chain, chains, refl, refl)), λ h. h.0)
      ]

  module _ (grace : ℕ) (roots : Option (Result (Unit {0}) (List X509))) (now : ℕ) (pem : Text) where
    -- The certificate in the text, read and within its period, with its chain.
    abbrev pub Accepted : CertVerificationResult → Type 0
    Accepted r =
        (block : Text) × (cert : X509) × (pki.decode_pem pem ≡ some block)
        × (pki.parse_certificate block ≡ some cert)
        × InPeriod grace now cert
        × Trusted roots now cert r.chain_length

    abbrev answer_for : X509 → CertVerificationResult
    answer_for cert = check_chain pki roots now cert (check_period grace now cert (described cert))

    read-Consistent : (cert : X509) → Consistent (answer_for cert)
    read-Consistent cert =
        check_chain-Consistent roots now cert _ (check_period-Consistent grace now cert)

    read_iff :
        (block : Text) (cert : X509)
        → pki.parse_certificate block ≡ some cert
        → ((answer_for cert).valid ≡ true) ↔ (
            (b : Text) × (c : X509) × (some block ≡ some b)
            × (pki.parse_certificate b ≡ some c)
            × InPeriod grace now c
            × Trusted roots now c (answer_for cert).chain_length)
    read_iff block cert parsed =
        let (to, from) =
          check_chain-valid_iff roots now cert (check_period grace now cert (described cert))
            (check_period-length grace now cert) in
        let (valid_to, valid_from) = check_period-valid_iff grace now cert in
        (
          λ h. (block, cert, refl, parsed, valid_to (to h).0, (to h).1),
          λ h.
              let (b, c, same_block, reads, fits, trusted) = h in
              let same : c ≡ cert = cc in
              from (
                valid_from (subst (InPeriod grace now) same fits),
                subst (λ x. Trusted roots now x (answer_for cert).chain_length) same trusted,
              ),
        )

    -- `VerifyCertificate` answers valid exactly if the text holds a certificate that can be parsed, the
    -- time is not before its start and not behind its end and the grace period, and, if the trust
    -- provider has roots, the certificate has a chain to them, the first of which gives the length; and
    -- the list of errors is empty exactly for a valid answer.
    pub verify_certificate-valid_iff :
        ((verify_certificate pki grace roots now pem).valid ≡ true
          ↔ Accepted (verify_certificate pki grace roots now pem))
        × Consistent (verify_certificate pki grace roots now pem)
    unfolding verify_certificate
    verify_certificate-valid_iff = elim (Option-cases (pki.decode_pem pem)) [
      | inl undecoded ↦ rw (undecoded, verify_certificate) ((λ h. cc, λ h. cc), (λ h. cc, λ h. cc))
      | inr (block, decoded) ↦ elim (Option-cases (pki.parse_certificate block)) [
        | inl unparsed ↦
            rw (decoded, unparsed, verify_certificate) ((λ h. cc, λ h. cc), (λ h. cc, λ h. cc))
        | inr (cert, parsed) ↦
            rw (decoded, parsed, verify_certificate)
              (read_iff block cert parsed, read-Consistent cert)
      ]
    ]

module _ (pki : Pki) (root : X509) (roots : List X509) (now : ℕ) (pem : Text) where
  abbrev judged : ℕ → CertVerificationResult
  judged grace = verify_certificate pki grace (some (ok (root ∷ roots))) now pem

  judged-length :
      (grace : ℕ) (block : Text) (cert : X509) (chain : List X509) (chains : List (List X509))
      → pki.decode_pem pem ≡ some block
      → pki.parse_certificate block ≡ some cert
      → pki.verify_chain (root ∷ roots) now cert ≡ some (chain, chains)
      → (judged grace).chain_length ≡ length chain
  unfolding verify_certificate check_chain
  judged-length grace block cert chain chains decoded parsed found =
      rw (decoded, parsed, verify_certificate) (rw (found, check_chain) refl)

  module _
      (expires : (given : List X509) (at : ℕ) (cert : X509) (found : List X509 × List (List X509))
        → pki.verify_chain given at cert ≡ some found
        → at ≤ cert.not_after) where
    judged-change : (g g' : ℕ) → (judged g).valid ≡ true → (judged g').valid ≡ true
    judged-change g g' h =
        let (block, cert, decoded, parsed, fits, trusted) =
          (verify_certificate-valid_iff pki g (some (ok (root ∷ roots))) now pem).0.0 h in
        let (chain, chains, found, len) = trusted in
        let in_time = expires (root ∷ roots) now cert (chain, chains) found in
        (verify_certificate-valid_iff pki g' (some (ok (root ∷ roots))) now pem).0.1 (
          block,
          cert,
          decoded,
          parsed,
          (fits.0, omega arith),
          (chain, chains, found, judged-length g' block cert chain chains decoded parsed found),
        )

    -- With trusted roots the grace period changes no verdict: if a chain is only ever verified at a
    -- time that is not behind the end of the certificate, as `x509.Verify` promises, then
    -- `VerifyCertificate` answers valid exactly if it does so without any grace.
    pub verify_certificate-grace_void :
        (grace : ℕ)
        → ((verify_certificate pki grace (some (ok (root ∷ roots))) now pem).valid ≡ true)
          ↔ ((verify_certificate pki 0 (some (ok (root ∷ roots))) now pem).valid ≡ true)
    verify_certificate-grace_void grace = (judged-change grace 0, judged-change 0 grace)
