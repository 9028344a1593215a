-- ===== src/Tests/Certificates.antt =====
-- Certificates: internal/trust/verifier.go.
use route_ans.Prelude.{
  ℕ, ◌≤◌, ◌≡◌, ◌↔◌, refl, true, false, Option, none, some, List, [], ◌∷◌, Text, codes, ok, leb,
  if◌then◌else◌, arith,
}
use route_ans.Trust.Certificate.{X509, Pki, check_period, check_chain, verify_certificate}
use route_ans.Trust.Certificate.Chain.{
  Accepted, verify_certificate-valid_iff, verify_certificate-grace_void,
}

abbrev root : X509
root = record {
  subject = codes "root";
  issuer = codes "root";
  not_before = 0;
  not_after = 90;
  raw = codes "R";
}

-- The certificate that a text stands for is valid from 10 to 50.
abbrev leaf : Text → X509
leaf block = record {
  subject = block;
  issuer = codes "root";
  not_before = 10;
  not_after = 50;
  raw = block;
}

-- Chains of two, as long as the certificate has not expired.
abbrev chain_of : List X509 → ℕ → X509 → Option (List X509 × List (List X509))
chain_of roots now cert = if leb now cert.not_after then some (cert ∷ root ∷ [], []) else none

abbrev pki : Pki
pki = record {
  decode_pem = λ t. some t;
  parse_certificate = λ block. some (leaf block);
  verify_chain = chain_of;
}

in_time : verify_certificate pki 5 (some (ok (root ∷ []))) 40 (codes "c") ≡ record {
  valid = true;
  subject = codes "c";
  issuer = codes "root";
  not_before = 10;
  not_after = 50;
  chain_length = 2;
  errors = [];
}
unfolding verify_certificate check_period check_chain
in_time = refl

in_grace : (verify_certificate pki 5 (some (ok (root ∷ []))) 53 (codes "c")).valid ≡ false
unfolding verify_certificate check_period check_chain
in_grace = refl

verify_certificate-valid_iff_example :
    (((verify_certificate pki 5 none 53 (codes "c")).valid ≡ true)
      ↔ Accepted pki 5 none 53 (codes "c") (verify_certificate pki 5 none 53 (codes "c")))
    × (((verify_certificate pki 5 none 53 (codes "c")).valid ≡ true)
        ↔ ((verify_certificate pki 5 none 53 (codes "c")).errors ≡ []))
verify_certificate-valid_iff_example = verify_certificate-valid_iff pki 5 none 53 (codes "c")

chain_expires :
    (given : List X509) (at : ℕ) (cert : X509) (found : List X509 × List (List X509))
    → chain_of given at cert ≡ some found
    → at ≤ cert.not_after
chain_expires given at cert found h = ground arith

verify_certificate-grace_void_example :
    ((verify_certificate pki 5 (some (ok (root ∷ []))) 53 (codes "c")).valid ≡ true)
    ↔ ((verify_certificate pki 0 (some (ok (root ∷ []))) 53 (codes "c")).valid ≡ true)
verify_certificate-grace_void_example =
    verify_certificate-grace_void pki root [] 53 (codes "c") chain_expires 5
