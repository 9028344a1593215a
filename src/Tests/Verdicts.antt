-- ===== src/Tests/Verdicts.antt =====
-- The verifier: internal/trust/verifier.go.
use route_ans.Prelude.{
  ◌+◌, ◌≡◌, ◌≢◌, ◌≤◌, ◌<◌, ◌⊎◌, ◌↔◌, refl, true, false, some, [], ◌∷◌, Text, codes, text_eq, ok,
}
use route_ans.Prelude.Int.{pos}
use route_ans.Registry.Record.{Record, AgentMetadata, empty_cert}
use route_ans.Registry.Godaddy.{strip_prefix}
use route_ans.Trust.Checks.{
  VerifierConfig, Provider, Crypto, check_record_expiry, trusted, before_slash, has_colon,
  dial_address, check_registrar, some_key_verifies, verify_signature, verify_record_signature,
  verify_endpoint_fingerprint,
}
use route_ans.Trust.Verifier.{
  expired, verify_registry_record, all_pass, first_failure, record_checks,
}
use route_ans.Trust.Verifier.Verdict.{verify_registry_record-valid_iff}

unfoldable pub verdicts : Unit {0}
unfolding strip_prefix check_record_expiry trusted before_slash has_colon dial_address
    check_registrar some_key_verifies verify_signature verify_record_signature
    verify_endpoint_fingerprint verify_registry_record all_pass first_failure record_checks text_eq
verdicts = tt

abbrev pub config : VerifierConfig
config = record {
  require_signature = true;
  require_merkle_proof = false;
  check_revocation = false;
  grace_period = 10;
}

abbrev pub keys : Provider Text
keys = record {
  all_registrars = ok (record { id = codes "reg"; enabled = true } ∷ []);
  registrar_keys = λ id. ok (codes "k" ∷ []);
}

-- A signature is good if it is the key itself, and a certificate is its own hash.
abbrev pub crypto : Crypto Text
crypto = record {
  decode_signature = λ s. some s;
  verify_key = λ k payload s. text_eq k s;
  dial = λ address. ok (address ∷ []);
  sha256_hex = λ c. c;
}

abbrev metadata : AgentMetadata
metadata = record {
  display_name = [];
  description = [];
  capabilities = [];
  tags = [];
  protocols = [];
  protocol_extensions = [];
  agent_card_url = [];
  agent_card_hash = [];
  organization = [];
  organization_domain = [];
}

abbrev pub listed : Record
listed = record {
  ans_name = codes "mcp://chat.text.PID-1.v1.2.3.example.com";
  fqdn = codes "chat.example.com";
  protocol = codes "mcp";
  version = codes "v1.2.3";
  status = codes "revoked";
  endpoint = codes "https://example.com/a";
  certificates = record {
    public_cert = record empty_cert { fingerprint = codes "SHA256:example.com:443" };
    private_cert = empty_cert;
  };
  metadata = metadata;
  registry_signature = codes "k";
  registrar_id = codes "reg";
  ttl = pos 0;
  registered_at = 0;
  updated_at = 0;
  expires_at = 100;
}

accepted : (verify_registry_record crypto (some keys) config (λ l. l) 105 listed).valid ≡ true
unfolding verdicts
accepted = refl

too_late : (verify_registry_record crypto (some keys) config (λ l. l) 110 listed).status ≡ expired
unfolding verdicts
too_late = refl

-- A signature is required and there is none.
unsigned :
    (verify_registry_record crypto
      (some keys)
      config
      (λ l. l)
      105
      (record listed { registry_signature = [] })).valid
    ≡ true
unfolding verdicts
unsigned = refl

verify_registry_record-valid_iff_example :
    ((verify_registry_record crypto (some keys) config (λ l. l) 105 listed).valid ≡ true) ↔ (
      ((check_registrar (some keys) listed.registrar_id).passed ≡ true)
      × ((listed.expires_at ≡ 0) ⊎ (105 ≤ listed.expires_at) ⊎ (105 < listed.expires_at + 10))
      × (true ≡ true
          → listed.registry_signature ≢ []
          → (verify_record_signature crypto (some keys) config listed).passed ≡ true)
      × (listed.endpoint ≢ []
          → listed.certificates.public_cert.fingerprint ≢ []
          → (verify_endpoint_fingerprint crypto listed.endpoint
              listed.certificates.public_cert.fingerprint).passed
            ≡ true))
verify_registry_record-valid_iff_example =
    verify_registry_record-valid_iff crypto (some keys) config (λ l. l) 105 listed
