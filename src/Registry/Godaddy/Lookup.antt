-- ===== src/Registry/Godaddy/Lookup.antt =====
-- The requests of the GoDaddy adapter: `makeRequest`, `Lookup` and `LookupByFQDN` of
-- internal/registry/godaddy.go. The HTTP client, the encoding of JSON, PEM and SHA-256 are parameters.
pub mod Served
use route_ans.Prelude.{
  ℕ, ◌+◌, ◌≡◌, ◌>>=◌, Bool, true, false, ◌||◌, not, ◌==◌, leb, Option, none, some, List, [], ◌∷◌,
  ◌++◌, Text, codes, text_eq, Result, ok, err, if◌then◌else◌,
}
use route_ans.Ansname.Record.{AnsName, string, fqdn}
use route_ans.Registry.Record.{Record, LookupError, not_found, unavailable, Adapter}
use route_ans.Registry.Godaddy.{
  AgentDetails, Certificate, strip_prefix, trim_prefix, is_any, build_record,
}

pub record Link : Type 0 where
  pub rel : Text
  pub href : Text

-- `godaddyCertificateResponse`, without the fields that `parseCertificate` does not read.
pub record CertificateResponse : Type 0 where
  pub certificate_pem : Text
  pub certificate_issuer : Text
  pub certificate_serial_number : Text
  pub certificate_valid_from : Text
  pub certificate_valid_to : Text

-- What the adapter calls and is set up with. `client` answers a method, an address and a body with a
-- status code and a body, or fails; a decoder returns `none` where `json.Unmarshal` fails.
pub record Service : Type 0 where
  pub base_url : Text
  pub client : Text → Text → Text → Option (ℕ × Text)
  pub encode_request : Text → Text → Text
  pub decode_resolution : Text → Option (List Link)
  pub decode_details : Text → Option (AgentDetails × List Link)
  pub decode_certificates : Text → Option (List CertificateResponse)
  pub parse_time : Text → Option ℕ
  pub pem_decode : Text → Option Text
  pub sha256 : Text → Text
  pub hex : Text → Text

-- `strings.Index` of a separator, with what is before it and behind it.
unfoldable pub cut : Text → Text → Option (Text × Text)
cut sep [] = elim (strip_prefix sep []) [ none ↦ none | some rest ↦ some ([], rest) ]
cut sep (c ∷ s) = elim (strip_prefix sep (c ∷ s)) [
  | some rest ↦ some ([], rest)
  | none ↦ elim (cut sep s) [ none ↦ none | some (front, rest) ↦ some (c ∷ front, rest) ]
]

-- `strings.Contains`
abbrev pub contains_text : Text → Text → Bool
contains_text s sep = elim (cut sep s) [ none ↦ false | some p ↦ true ]

-- The address of the details: an internal one becomes the public one, if there is one id in it.
unfoldable pub public_url : Text → Text → Text
public_url base url =
    if contains_text url (codes "ra.int.godaddy.com") || contains_text url (codes ".int.")
    then elim (cut (codes "/agents/") url) [
      | none ↦ url
      | some (front, agent_id) ↦
          if contains_text agent_id (codes "/agents/")
          then url
          else base ++ (codes "/agents/" ++ agent_id)
    ]
    else url

-- The address of the first link with a relation; empty if there is none.
unfoldable pub link_to : Text → List Link → Text
link_to rel [] = []
link_to rel (l ∷ links) =
    let further = link_to rel links in if text_eq l.rel rel then l.href else further

-- The address of the last link with a relation.
unfoldable pub last_link : Text → List Link → Text → Text
last_link rel [] found = found
last_link rel (l ∷ links) found = last_link rel links (if text_eq l.rel rel then l.href else found)

-- An error is `unavailable` where a decoder fails.
abbrev pub decoded {ℓ} : {A : Type ℓ} → Option A → Result LookupError A
decoded none = err unavailable
decoded (some a) = ok a

-- The status of an agent that is returned.
abbrev pub is_listed : AgentDetails → Bool
is_listed d = is_any d.agent_status (codes "ACTIVE" ∷ codes "VERIFIED" ∷ [])

module _ (g : Service) where
  -- `calculateFingerprint`
  unfoldable pub calculate_fingerprint : Text → Text
  calculate_fingerprint pem = elim (g.pem_decode pem) [
    | none ↦ []
    | some der ↦ codes "SHA256:" ++ g.hex (g.sha256 der)
  ]

  abbrev pub time_or_zero : Text → ℕ
  time_or_zero t = elim (g.parse_time t) [ none ↦ 0 | some n ↦ n ]

  -- `parseCertificate`
  unfoldable pub parse_certificate : CertificateResponse → Option Certificate
  parse_certificate c =
      if text_eq c.certificate_pem []
      then none
      else some (record {
        fingerprint = calculate_fingerprint c.certificate_pem;
        issuer = c.certificate_issuer;
        serial_number = c.certificate_serial_number;
        not_before = time_or_zero c.certificate_valid_from;
        not_after = time_or_zero c.certificate_valid_to;
      })

  -- The end of `makeRequest`; the code of a structured error changes the text of the error only.
  abbrev pub body_of : Text → Option (ℕ × Text) → Result LookupError Text
  body_of url none = err unavailable
  body_of url (some (code, body)) =
      if leb 400 code then if code == 404 then err (not_found url) else err unavailable else ok body

  -- `makeRequest`
  unfoldable pub make_request : Text → Text → Text → Result LookupError Text
  make_request method url body = body_of url (g.client method url body)

  abbrev pub first_certificate : List CertificateResponse → Option Certificate
  first_certificate [] = none
  first_certificate (c ∷ l) = parse_certificate c

  -- The certificate behind an address; every failure leaves it out.
  abbrev pub certificate_at : Text → Option Certificate
  certificate_at url = if text_eq url [] then none else elim (make_request (codes "GET") url []) [
    | err e ↦ none
    | ok body ↦ elim (g.decode_certificates body) [
      | none ↦ none
      | some certs ↦ first_certificate certs
    ]
  ]

  -- `getCertificates`
  unfoldable pub get_certificates : List Link → Option Certificate × Option Certificate
  get_certificates links = (
    certificate_at (last_link (codes "server-certificates") links []),
    certificate_at (last_link (codes "identity-certificates") links []),
  )

  -- From the details on.
  abbrev pub record_of : ℕ → Text → AgentDetails × List Link → Result LookupError Record
  record_of now shown p =
      if is_listed p.0
      then ok (build_record g.parse_time now p.0 (get_certificates p.1).0 (get_certificates p.1).1)
      else err (not_found shown)

  -- From the links of the resolution on.
  abbrev pub details_of : ℕ → Text → List Link → Result LookupError Record
  details_of now shown links =
      let url = link_to (codes "agent-details") links in
      if text_eq url []
      then err (not_found shown)
      else (make_request (codes "GET") (public_url g.base_url url) [] >>= λ body.
          decoded (g.decode_details body) >>= record_of now shown)

  -- The resolution of a host and a version; a not-found error shows the name `shown`.
  unfoldable pub find_agent : ℕ → Text → Text → Text → Result LookupError Record
  find_agent now shown host version =
      make_request (codes "POST") (g.base_url ++ codes "/agents/resolution")
        (g.encode_request host version)
      >>= λ body. decoded (g.decode_resolution body) >>= details_of now shown

  -- `Lookup` at a time `now`
  unfoldable pub lookup : ℕ → AnsName → Result LookupError Record
  lookup now name = find_agent now (string name) (fqdn name) (trim_prefix (codes "v") name.version)

  -- `LookupByFQDN` at a time `now`
  unfoldable pub lookup_by_fqdn : ℕ → Text → Result LookupError (List Record)
  lookup_by_fqdn now host = find_agent now host host (codes "*") >>= λ r. ok (r ∷ [])

  -- The adapter at a time `now`, as the resolver calls it.
  abbrev pub godaddy_adapter : ℕ → Adapter
  godaddy_adapter now = record { lookup = lookup now; lookup_by_fqdn = lookup_by_fqdn now }
