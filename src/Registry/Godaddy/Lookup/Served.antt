-- ===== src/Registry/Godaddy/Lookup/Served.antt =====
-- Which records the GoDaddy adapter returns.
use route_ans.Prelude.{
  ℕ, ◌≡◌, refl, ◌∙◌, inl, inr, true, false, Option, none, some, List, [], ◌∷◌, ◌++◌, Text, codes,
  text_eq, leb, arith, >>=-elim, same_ok, err-ne-ok, ok, err, Bool-cases,
}
use route_ans.Models.{status_active}
use route_ans.Ansname.Record.{AnsName, fqdn}
use route_ans.Registry.Record.{Record, not_found}
use route_ans.Registry.Godaddy.{AgentDetails, map_status, build_record, trim_prefix}
use route_ans.Registry.Godaddy.Lookup.{
  Link, Service, link_to, public_url, decoded, body_of, make_request, get_certificates, is_listed,
  record_of, details_of, find_agent, lookup, lookup_by_fqdn,
}

-- The client answered a request by a body, with no code from 400 on.
abbrev pub Gave : Service → Text → Text → Text → Text → Type 0
Gave g method url sent body =
    (code : ℕ) × (g.client method url sent ≡ some (code, body)) × (leb 400 code ≡ false)

-- A record that is made of details which the client gave for an active or verified agent, at the
-- address that the client gave for a host and a version, with the certificates that their links lead to.
pub record Served (g : Service) (now : ℕ) (host version : Text) (r : Record) : Type 0 where
  pub resolution : Text
  pub resolved :
      Gave g
        (codes "POST")
        (g.base_url ++ codes "/agents/resolution")
        (g.encode_request host version)
        resolution
  pub found : List Link
  pub decoded_resolution : g.decode_resolution resolution ≡ some found
  pub body : Text
  pub answered :
      Gave g (codes "GET") (public_url g.base_url (link_to (codes "agent-details") found)) [] body
  pub details : AgentDetails
  pub links : List Link
  pub decoded_details : g.decode_details body ≡ some (details, links)
  pub listed : is_listed details ≡ true
  pub built :
      r
      ≡ build_record g.parse_time now details
          (get_certificates g links).0
          (get_certificates g links).1
  pub active : r.status ≡ status_active
  pub registrar : r.registrar_id ≡ codes "godaddy"

listed-active : (d : AgentDetails) → is_listed d ≡ true → map_status d.agent_status ≡ status_active
unfolding map_status
listed-active d h = rw h refl

build_record-fields :
    (g : Service) (now : ℕ) (d : AgentDetails) (links : List Link) (r : Record)
    → r ≡ build_record g.parse_time now d (get_certificates g links).0 (get_certificates g links).1
    → (r.status ≡ map_status d.agent_status) × (r.registrar_id ≡ codes "godaddy")
unfolding build_record
build_record-fields g now d links r e = rw e (refl, refl)

decoded-some : {A : Type 0} (m : Option A) {a : A} → decoded m ≡ ok a → m ≡ some a
decoded-some none h = cc
decoded-some (some b) h = cc

record_of-listed :
    (g : Service) (now : ℕ) (shown : Text) (d : AgentDetails) (links : List Link)
    → is_listed d ≡ true
    → record_of g now shown (d, links)
      ≡ ok (
          build_record g.parse_time now d (get_certificates g links).0 (get_certificates g links).1)
record_of-listed g now shown d links h = rw (record_of, h) refl

record_of-unlisted :
    (g : Service) (now : ℕ) (shown : Text) (d : AgentDetails) (links : List Link)
    → is_listed d ≡ false
    → record_of g now shown (d, links) ≡ err (not_found shown)
record_of-unlisted g now shown d links h = rw (record_of, h) refl

body_of-Gave :
    (g : Service) (url : Text) (m : Option (ℕ × Text)) {body : Text}
    → body_of g url m ≡ ok body
    → (code : ℕ) × (m ≡ some (code, body)) × (leb 400 code ≡ false)
body_of-Gave g url none h = cc
body_of-Gave g url (some (code, sent)) h = elim (Bool-cases (leb 400 code)) [
  | inr fine ↦ (code, ground (arith, h, fine), fine)
  | inl bad ↦ absurd (ground (arith, h, bad))
]

make_request-Gave :
    (g : Service) (method url sent : Text) {body : Text}
    → make_request g method url sent ≡ ok body
    → Gave g method url sent body
unfolding make_request
make_request-Gave g method url sent h = body_of-Gave g url (g.client method url sent) h

record_of-Served :
    (g : Service) (now : ℕ) (shown host version resolution body : Text) (found : List Link)
    (p : AgentDetails × List Link) {r : Record}
    → Gave g
        (codes "POST")
        (g.base_url ++ codes "/agents/resolution")
        (g.encode_request host version)
        resolution
    → g.decode_resolution resolution ≡ some found
    → Gave g (codes "GET") (public_url g.base_url (link_to (codes "agent-details") found)) [] body
    → g.decode_details body ≡ some p
    → record_of g now shown p ≡ ok r
    → Served g now host version r
record_of-Served g now shown host version resolution body found (d, links) {r} first to got from h =
    elim (Bool-cases (is_listed d)) [
      | inl listed ↦
          let same = same_ok (record_of-listed g now shown d links listed) h in
          let (status, registrar) = build_record-fields g now d links r same in
          record {
            resolution = resolution;
            resolved = first;
            found = found;
            decoded_resolution = to;
            body = body;
            answered = got;
            details = d;
            links = links;
            decoded_details = from;
            listed = listed;
            built = same;
            active = status ∙ listed-active d listed;
            registrar = registrar;
          }
      | inr other ↦ absurd (err-ne-ok (record_of-unlisted g now shown d links other) h)
    ]

details_of-Served :
    (g : Service) (now : ℕ) (shown host version resolution : Text) (links : List Link) {r : Record}
    → Gave g
        (codes "POST")
        (g.base_url ++ codes "/agents/resolution")
        (g.encode_request host version)
        resolution
    → g.decode_resolution resolution ≡ some links
    → details_of g now shown links ≡ ok r
    → Served g now host version r
details_of-Served g now shown host version resolution links {r} first to h =
    let url = link_to (codes "agent-details") links in
    elim (Bool-cases (text_eq url [])) [
      | inl missing ↦ absurd (err-ne-ok {e = not_found shown} (rw (details_of, missing) refl) h)
      | inr there ↦
          >>=-elim (make_request g (codes "GET") (public_url g.base_url url) []) _
            (rw (details_of, there) at h)
            λ body made rest. >>=-elim (decoded (g.decode_details body)) _ rest λ p read found.
              record_of-Served g now shown host version resolution body links p first to
                (make_request-Gave g _ _ _ made) (decoded-some (g.decode_details body) read) found
    ]

find_agent-Served :
    (g : Service) (now : ℕ) (shown host version : Text) {r : Record}
    → find_agent g now shown host version ≡ ok r
    → Served g now host version r
unfolding find_agent
find_agent-Served g now shown host version {r} h =
    >>=-elim (make_request g _ _ _) _ h λ resolution made rest.
      >>=-elim (decoded (g.decode_resolution resolution)) _ rest λ links read found.
        details_of-Served g now shown host version resolution links (make_request-Gave g _ _ _ made)
          (decoded-some (g.decode_resolution resolution) read) found

-- The client resolved the FQDN of a name and its version, without the `v`, to an agent that is listed
-- as active or verified.
abbrev pub ServedName : Service → ℕ → AnsName → Record → Type 0
ServedName g now name r = Served g now (fqdn name) (trim_prefix (codes "v") name.version) r

-- A record that `Lookup` of the GoDaddy adapter returns is active, has the registrar "godaddy", and is
-- made of the details that the client answered, with no error code, at the address which it had
-- answered for the FQDN and the version of the name, and which list the agent as active or verified.
pub lookup-Served :
    (g : Service) (now : ℕ) (name : AnsName) {r : Record}
    → lookup g now name ≡ ok r
    → ServedName g now name r
unfolding lookup
lookup-Served g now name {r} h = find_agent-Served g now _ _ _ h

-- `LookupByFQDN` returns exactly one such record, that of any version, never several versions.
lookup_by_fqdn-Served :
    (g : Service) (now : ℕ) (host : Text) {rs : List Record}
    → lookup_by_fqdn g now host ≡ ok rs
    → (only : Record) × (rs ≡ only ∷ []) × Served g now host (codes "*") only
unfolding lookup_by_fqdn
lookup_by_fqdn-Served g now host {rs} h =
    >>=-elim (find_agent g now host host (codes "*")) _ h λ only found single.
      (only, same_ok refl single, find_agent-Served g now host host (codes "*") found)
