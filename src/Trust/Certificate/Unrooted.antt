-- ===== src/Trust/Certificate/Unrooted.antt =====
-- `VerifyCertificate` over the file provider, which is the default of the configuration.
use route_ans.Prelude.{
  ℕ, ◌≡◌, ◌↔◌, refl, ap, subst, sym, inl, inr, Option-cases, arith, true, some, List, [], ◌∷◌, Text,
  ok,
}
use route_ans.Trust.Certificate.{X509, Pki, check_chain, check_period, verify_certificate}
use route_ans.Trust.Certificate.Chain.{InPeriod, verify_certificate-valid_iff}
use route_ans.Trust.Stores.{FileProvider, new_file_provider, refresh, refreshed, root_certificates}

refreshed-roots : (times : List ℕ) (p : FileProvider) → (refreshed times p).roots ≡ p.roots
unfolding refreshed refresh
refreshed-roots [] p = refl
refreshed-roots (now ∷ times) p = refreshed-roots times (refresh now p)

module _ (pki : Pki) (grace now opened : ℕ) (times : List ℕ) (pem : Text) where
  unrooted : root_certificates (refreshed times (new_file_provider opened)) ≡ ok []
  unfolding root_certificates new_file_provider refresh
  unrooted = ap ok (refreshed-roots times (new_file_provider opened))

  no_chain : (verify_certificate pki grace (some (ok [])) now pem).chain_length ≡ 0
  unfolding verify_certificate check_chain check_period
  no_chain = elim (Option-cases (pki.decode_pem pem)) [
    | inl undecoded ↦ rw (undecoded, verify_certificate) refl
    | inr (block, decoded) ↦ elim (Option-cases (pki.parse_certificate block)) [
      | inl unparsed ↦ rw (decoded, unparsed, verify_certificate) refl
      | inr (cert, parsed) ↦ rw (decoded, parsed, verify_certificate) (ground arith)
    ]
  ]

  -- Over the file provider, however often it is refreshed, no chain is ever verified:
  -- `VerifyCertificate` answers valid exactly if the text holds a certificate that can be parsed and is
  -- within its period and the grace period, whoever issued it, and the length of the chain is zero.
  pub verify_certificate-unrooted :
      (((verify_certificate pki grace
            (some (root_certificates (refreshed times (new_file_provider opened))))
            now
            pem).valid
          ≡ true)
        ↔ ((block : Text) × (cert : X509) × (pki.decode_pem pem ≡ some block)
            × (pki.parse_certificate block ≡ some cert)
            × InPeriod grace now cert))
      × ((verify_certificate pki grace
            (some (root_certificates (refreshed times (new_file_provider opened))))
            now
            pem).chain_length
          ≡ 0)
  verify_certificate-unrooted =
      let iff = verify_certificate-valid_iff pki grace (some (ok [])) now pem in
      subst
        (λ roots.
          (((verify_certificate pki grace (some roots) now pem).valid ≡ true) ↔ (
            (block : Text) × (cert : X509) × (pki.decode_pem pem ≡ some block)
            × (pki.parse_certificate block ≡ some cert)
            × InPeriod grace now cert))
          × ((verify_certificate pki grace (some roots) now pem).chain_length ≡ 0))
        (sym unrooted)
        (
          (
            λ h.
                let (block, cert, decoded, parsed, fits, len) = iff.0.0 h in
                (block, cert, decoded, parsed, fits),
            λ (block, cert, decoded, parsed, fits).
                iff.0.1 (block, cert, decoded, parsed, fits, no_chain),
          ),
          no_chain,
        )
