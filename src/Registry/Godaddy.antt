-- ===== src/Registry/Godaddy.antt =====
-- The conversions of the GoDaddy adapter: internal/registry/godaddy.go. Lookup models its lookups and
-- Events its events.
pub mod Lookup
pub mod Events
pub mod Stubs
use route_ans.Prelude.{
  ℕ, ◌+◌, ◌*◌, ◌==◌, Bool, false, ◌&&◌, ◌||◌, not, Option, none, some, List, [], ◌∷◌, ◌++◌, Text,
  codes, text_eq, if◌then◌else◌,
}
use route_ans.Prelude.Int.{pos}
use route_ans.Ansname.Record.{to_lower}
use route_ans.Models.{status_active, status_pending, status_revoked, status_expired, status_unknown}
use route_ans.Registry.Record.{Record, CertDetails, empty_cert}

-- The string literals of the API.
abbrev pub is_any : Text → List Text → Bool
is_any t [] = false
is_any t (s ∷ l) = text_eq t s || is_any t l

-- `mapStatus`
unfoldable pub map_status : Text → Text
map_status status =
    if is_any status (codes "ACTIVE" ∷ codes "VERIFIED" ∷ [])
    then status_active
    else if is_any status (codes "PENDING" ∷ codes "PENDING_VALIDATION" ∷ [])
    then status_pending
    else if text_eq status (codes "REVOKED")
    then status_revoked
    else if text_eq status (codes "EXPIRED")
    then status_expired
    else status_unknown

-- `strings.TrimPrefix`
unfoldable pub strip_prefix : Text → Text → Option Text
strip_prefix [] s = some s
strip_prefix (c ∷ p) [] = none
strip_prefix (c ∷ p) (d ∷ s) = if c == d then strip_prefix p s else none

abbrev pub trim_prefix : Text → Text → Text
trim_prefix p s = elim (strip_prefix p s) [ none ↦ s | some rest ↦ rest ]

-- `mapEventType`
unfoldable pub map_event_type : Text → Text
map_event_type kind =
    if text_eq kind (codes "AGENT_REGISTERED")
    then codes "registered"
    else if text_eq kind (codes "AGENT_RENEWED")
    then codes "renewed"
    else if text_eq kind (codes "AGENT_REVOKED")
    then codes "revoked"
    else if text_eq kind (codes "AGENT_DEPRECATED")
    then codes "deprecated"
    else if text_eq kind (codes "AGENT_EXPIRED")
    then codes "expired"
    else if text_eq kind (codes "AGENT_UPDATED")
    then codes "updated"
    else to_lower (trim_prefix (codes "AGENT_") kind)

pub record Endpoint : Type 0 where
  pub agent_url : Text
  pub protocol : Text
  -- the ids of its functions
  pub functions : List Text

-- `godaddyAgentDetails`, without the fields that `buildRecord` does not read.
pub record AgentDetails : Type 0 where
  pub agent_display_name : Text
  pub agent_host : Text
  pub version : Text
  pub protocol : Text
  pub ans_name : Text
  pub agent_status : Text
  pub agent_description : Text
  pub registration_timestamp : Text
  pub endpoints : List Endpoint

-- `godaddyCertificate`, without the fields that `buildRecord` does not read.
pub record Certificate : Type 0 where
  pub fingerprint : Text
  pub issuer : Text
  pub serial_number : Text
  pub not_before : ℕ
  pub not_after : ℕ

-- `parseCertDetails`
unfoldable pub parse_cert_details : Certificate → CertDetails
parse_cert_details cert = record {
  fingerprint = cert.fingerprint;
  issued_at = cert.not_before;
  expires_at = cert.not_after;
  issuer = cert.issuer;
  serial_number = cert.serial_number;
}

abbrev pub cert_or_empty : Option Certificate → CertDetails
cert_or_empty none = empty_cert
cert_or_empty (some cert) = parse_cert_details cert

abbrev pub first_url : List Endpoint → Text
first_url [] = []
first_url (e ∷ l) = e.agent_url

abbrev pub first_protocol : List Endpoint → Text
first_protocol [] = []
first_protocol (e ∷ l) = e.protocol

abbrev pub first_functions : List Endpoint → List Text
first_functions [] = []
first_functions (e ∷ l) = e.functions

abbrev pub first_protocols : List Endpoint → List Text
first_protocols [] = []
first_protocols (e ∷ l) = e.protocol ∷ []

-- 90 days, in nanoseconds.
abbrev pub ninety_days : ℕ
ninety_days = 90 * (24 * (3600 * 1000000000))

-- `ExpiresAt` of the record: the end of the identity certificate, if it has one that is not zero.
abbrev pub record_expiry : ℕ → Option Certificate → ℕ
record_expiry now none = now + ninety_days
record_expiry now (some cert) = if cert.not_after == 0 then now + ninety_days else cert.not_after

-- `RegisteredAt` of the record: the timestamp, if there is one that can be read.
abbrev pub registration : (Text → Option ℕ) → Text → ℕ
registration parse_time timestamp =
    if text_eq timestamp [] then 0 else elim (parse_time timestamp) [ none ↦ 0 | some t ↦ t ]

-- `buildRecord` at a time `now`; `parse_time` is `time.Parse` of an RFC 3339 time.
unfoldable pub build_record :
    (Text → Option ℕ) → ℕ → AgentDetails → Option Certificate → Option Certificate → Record
build_record parse_time now details server_cert identity_cert = record {
  ans_name = details.ans_name;
  fqdn = details.agent_host;
  protocol =
      if text_eq (first_protocol details.endpoints) []
      then details.protocol
      else first_protocol details.endpoints;
  version = details.version;
  status = map_status details.agent_status;
  endpoint =
      if text_eq (first_url details.endpoints) [] && not (text_eq details.agent_host [])
      then codes "https://" ++ details.agent_host
      else first_url details.endpoints;
  certificates = record {
    public_cert = cert_or_empty server_cert;
    private_cert = cert_or_empty identity_cert;
  };
  metadata = record {
    display_name = details.agent_display_name;
    description = details.agent_description;
    capabilities = first_functions details.endpoints;
    tags = [];
    protocols = first_protocols details.endpoints;
    protocol_extensions = [];
    agent_card_url = [];
    agent_card_hash = [];
    organization = [];
    organization_domain = [];
  };
  registry_signature = [];
  registrar_id = codes "godaddy";
  ttl = pos (300 * 1000000000);
  registered_at = registration parse_time details.registration_timestamp;
  updated_at = now;
  expires_at = record_expiry now identity_cert;
}
