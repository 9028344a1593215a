-- ===== src/Trust/Certificate.antt =====
-- `VerifyCertificate` of internal/trust/verifier.go. Decoding PEM, parsing X.509 and verifying a chain
-- are parameters.
pub mod Chain
pub mod Unrooted
use route_ans.Prelude.{
  ℕ, ◌+◌, Bool, true, false, Option, none, some, List, [], ◌∷◌, ◌++◌, Text, Result, ok, err, ltb,
  if◌then◌else◌, length,
}

-- `x509.Certificate`, as far as it is read; `raw` stands for what a chain is verified on.
pub record X509 : Type 0 where
  pub subject : Text
  pub issuer : Text
  pub not_before : ℕ
  pub not_after : ℕ
  pub raw : Text

-- The errors that `VerifyCertificate` lists, without the text of their causes.
pub data CertError : Type 0 where
  undecodable unparsable not_yet_valid certificate_expired chain_failed : CertError

-- `CertVerificationResult`; a time that is not set is zero.
pub record CertVerificationResult : Type 0 where
  pub valid : Bool
  pub subject : Text
  pub issuer : Text
  pub not_before : ℕ
  pub not_after : ℕ
  pub chain_length : ℕ
  pub errors : List CertError

-- What is called: `pem.Decode`, `x509.ParseCertificate` and `Verify` of a certificate against roots at
-- a time, which yields one chain or more.
pub record Pki : Type 0 where
  pub decode_pem : Text → Option Text
  pub parse_certificate : Text → Option X509
  pub verify_chain : List X509 → ℕ → X509 → Option (List X509 × List (List X509))

abbrev empty_result : CertVerificationResult
empty_result = record {
  valid = true;
  subject = [];
  issuer = [];
  not_before = 0;
  not_after = 0;
  chain_length = 0;
  errors = [];
}

-- `result.Valid = false` with an error at the end of the list.
abbrev pub add_error : CertError → CertVerificationResult → CertVerificationResult
add_error e r = record r { valid = false; errors = r.errors ++ e ∷ [] }

abbrev pub add_error_if : Bool → CertError → CertVerificationResult → CertVerificationResult
add_error_if failed e r = if failed then add_error e r else r

-- The check of the validity period; the grace period comes behind its end.
unfoldable pub check_period : ℕ → ℕ → X509 → CertVerificationResult → CertVerificationResult
check_period grace now cert r =
    let early = add_error_if (ltb now cert.not_before) not_yet_valid r in
    if ltb cert.not_after now
    then add_error_if (ltb (cert.not_after + grace) now) certificate_expired early
    else early

-- The verification of the chain, on what `GetRootCertificates` returns; `none` is a verifier without a
-- trust provider. Without roots no chain is verified.
unfoldable pub check_chain :
    Pki
    → Option (Result (Unit {0}) (List X509))
    → ℕ
    → X509
    → CertVerificationResult
    → CertVerificationResult
check_chain pki none now cert r = r
check_chain pki (some (err e)) now cert r = r
check_chain pki (some (ok [])) now cert r = r
check_chain pki (some (ok (root ∷ roots))) now cert r =
    elim (pki.verify_chain (root ∷ roots) now cert) [
      | none ↦ add_error chain_failed r
      | some (chain, chains) ↦ record r { chain_length = length chain }
    ]

-- What is read off the certificate.
abbrev pub described : X509 → CertVerificationResult
described cert = record empty_result {
  subject = cert.subject;
  issuer = cert.issuer;
  not_before = cert.not_before;
  not_after = cert.not_after;
}

-- `VerifyCertificate` at a time.
unfoldable pub verify_certificate :
    Pki → ℕ → Option (Result (Unit {0}) (List X509)) → ℕ → Text → CertVerificationResult
unfolding check_period check_chain
verify_certificate pki grace roots now pem = elim (pki.decode_pem pem) [
  | none ↦ add_error undecodable empty_result
  | some block ↦ elim (pki.parse_certificate block) [
    | none ↦ add_error unparsable empty_result
    | some cert ↦ check_chain pki roots now cert (check_period grace now cert (described cert))
  ]
]
