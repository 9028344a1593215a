-- ===== src/Registry/Mock/Samples.antt =====
-- The records and proofs that internal/registry/mock.go makes up: `CreateMockRecord`, `GetMerkleProof`,
-- `GetSignedTreeHead` and `VerifyRecord`.
use route_ans.Prelude.{ℕ, ◌+◌, ◌-◌, ◌*◌, Bool, true, List, [], ◌∷◌, ◌++◌, Text, codes}
use route_ans.Prelude.Int.{pos}
use route_ans.Ansname.Record.{◌dot◌}
use route_ans.Cache.Memory.{second}
use route_ans.Registry.Record.{Record, CertificateInfo, AgentMetadata, empty_cert}
use route_ans.Trust.Merkle.{MerkleProof, SignedTreeHead}

abbrev hour : ℕ
hour = 3600 * second

abbrev day : ℕ
day = 24 * hour

module _ (clock : ℕ → ℕ) (protocol agent_name capability provider_id version extension : Text) where
  abbrev mock_fqdn : Text
  mock_fqdn = agent_name dot extension

  abbrev mock_certificates : CertificateInfo
  mock_certificates = record {
    public_cert = record empty_cert {
      fingerprint = codes "sha256:abcd1234";
      issued_at = clock 0 - day;
      expires_at = clock 1 + 90 * day;
      issuer = codes "Let's Encrypt";
    };
    private_cert = record empty_cert {
      fingerprint = codes "sha256:efgh5678";
      issued_at = clock 2 - day;
      expires_at = clock 3 + 365 * day;
      issuer = codes "ANS Private CA";
    };
  }

  abbrev mock_metadata : AgentMetadata
  mock_metadata = record {
    display_name = agent_name ++ codes " Agent";
    description = codes "A " ++ (capability ++ codes " agent for testing");
    capabilities = capability ∷ codes "testing" ∷ [];
    tags = [];
    protocols = protocol ∷ [];
    protocol_extensions = [];
    agent_card_url = [];
    agent_card_hash = [];
    organization = [];
    organization_domain = [];
  }

  -- `CreateMockRecord`; `clock` yields the times of its calls of `time.Now()`, in their order.
  unfoldable pub create_mock_record : Record
  create_mock_record = record {
    ans_name =
        protocol
        ++ (codes "://" ++ (agent_name dot capability dot provider_id dot version dot extension));
    fqdn = mock_fqdn;
    protocol = protocol;
    version = version;
    status = codes "active";
    endpoint = codes "https://" ++ (mock_fqdn ++ codes ":8443");
    certificates = mock_certificates;
    metadata = mock_metadata;
    registry_signature = [];
    registrar_id = codes "ra-mock";
    ttl = pos (300 * second);
    registered_at = clock 4 - 7 * day;
    updated_at = clock 5 - hour;
    expires_at = clock 6 + 90 * day;
  }

-- `GetMerkleProof`, without its root and time, for every name
unfoldable pub get_merkle_proof : Text → MerkleProof
get_merkle_proof ans_name = record {
  leaf_index = pos 12345;
  tree_size = pos 100000;
  hashes = (0x01 ∷ 0x02 ∷ []) ∷ (0x03 ∷ 0x04 ∷ []) ∷ [];
}

-- `GetSignedTreeHead`
unfoldable pub get_signed_tree_head : SignedTreeHead
get_signed_tree_head = record { root_hash = 0xab ∷ 0xcd ∷ 0xef ∷ [] }

-- `VerificationResult` of internal/registry/interface.go, without its time; a check has a name, its
-- outcome and its message.
pub record RegistryVerdict : Type 0 where
  pub valid : Bool
  pub checks : List (Text × Bool × Text)

-- `VerifyRecord` of the mock adapter: it reads nothing of the record.
unfoldable pub verify_record : Record → RegistryVerdict
verify_record r = record {
  valid = true;
  checks =
      (codes "signature", true, codes "mock signature valid")
      ∷ (codes "merkle_proof", true, codes "mock proof valid")
      ∷ (codes "certificate", true, codes "mock cert valid")
      ∷ [];
}
