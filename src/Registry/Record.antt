-- ===== src/Registry/Record.antt =====
-- The registry's record and its conversion: internal/registry/interface.go.
use route_ans.Prelude.{ℕ, none, List, [], Text, Result}
use route_ans.Prelude.Int.{ℤ}
use route_ans.Models.{ResolutionRecord}
use route_ans.Ansname.Record.{AnsName}

pub record CertDetails : Type 0 where
  pub fingerprint : Text
  pub issued_at : ℕ
  pub expires_at : ℕ
  pub issuer : Text
  pub serial_number : Text

pub record CertificateInfo : Type 0 where
  pub public_cert : CertDetails
  pub private_cert : CertDetails

pub record AgentMetadata : Type 0 where
  pub display_name : Text
  pub description : Text
  pub capabilities : List Text
  pub tags : List Text
  pub protocols : List Text
  pub protocol_extensions : List (Text × Text)
  pub agent_card_url : Text
  pub agent_card_hash : Text
  pub organization : Text
  pub organization_domain : Text

pub record Record : Type 0 where
  pub ans_name : Text
  pub fqdn : Text
  pub protocol : Text
  pub version : Text
  pub status : Text
  pub endpoint : Text
  pub certificates : CertificateInfo
  pub metadata : AgentMetadata
  pub registry_signature : Text
  pub registrar_id : Text
  pub ttl : ℤ
  pub registered_at : ℕ
  pub updated_at : ℕ
  pub expires_at : ℕ

-- The fields that a composite literal leaves out have their zero value.
abbrev pub empty_cert : CertDetails
empty_cert = record {
  fingerprint = [];
  issued_at = 0;
  expires_at = 0;
  issuer = [];
  serial_number = [];
}

-- `ToResolutionRecord`: the protocol extensions are not copied.
unfoldable pub to_resolution_record : Record → ResolutionRecord
to_resolution_record r = record {
  ans_name = r.ans_name;
  fqdn = r.fqdn;
  protocol = r.protocol;
  version = r.version;
  status = r.status;
  endpoint = r.endpoint;
  cert_fingerprint = r.certificates.public_cert.fingerprint;
  cert_expires_at = r.certificates.public_cert.expires_at;
  display_name = r.metadata.display_name;
  description = r.metadata.description;
  capabilities = r.metadata.capabilities;
  protocols = r.metadata.protocols;
  protocol_extensions = [];
  registrar_id = r.registrar_id;
  ttl = r.ttl;
  registered_at = r.registered_at;
  updated_at = r.updated_at;
  expires_at = r.expires_at;
  verified_at = 0;
  verification = none;
}

-- The errors of a lookup: `ErrNotFound`, or any other.
pub data LookupError : Type 0 where
  not_found : Text → LookupError
  unavailable : LookupError

-- The two lookups of `Adapter`, which the resolver calls.
pub record Adapter : Type 0 where
  pub lookup : AnsName → Result LookupError Record
  pub lookup_by_fqdn : Text → Result LookupError (List Record)

-- `Event`, without the data that no handler of the model reads.
pub record Event : Type 0 where
  pub id : Text
  pub kind : Text
  pub ans_name : Text
  pub fqdn : Text
  pub timestamp : ℕ
  pub signature : Text
