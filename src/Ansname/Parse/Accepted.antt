-- ===== src/Ansname/Parse/Accepted.antt =====
-- What `Parse` accepts, against `Validate`.
use route_ans.Prelude.{
  ℕ, ◌≡◌, ◌≢◌, refl, inl, inr, true, false, not, Option, none, some, List, [], ◌∷◌, Text, codes,
  text_eq, text_eq-nil_ne, Result, ok, err, require, if◌then◌else◌, arith, &&-eq-true, Bool-cases,
  >>=-elim, require-eq-ok,
}
use route_ans.Ansname.Patterns.{
  protocol_pattern, provider_id_pattern, version_pattern, read_byte, alphanumeric_suffix, all_bytes,
}
use route_ans.Ansname.Patterns.Digits.{AreDigits}
use route_ans.Ansname.Record.{
  AnsName, Error, invalid_format, missing_protocol, missing_agent_name, validate, ◌dot◌, to_lower,
}
use route_ans.Ansname.Dots.{split, split-dot, join-split}
use route_ans.Ansname.Parse.Windows.{split-version, VersionParts-version_pattern}
use route_ans.Ansname.Parse.{
  Url, starts_with_v, is_version, find_version, simplified_name, parse_simplified, parse_full_at,
  parse_full, parse_components, parse_url, parse,
}

protocol_present : (s : Text) → protocol_pattern s ≡ true → text_eq s [] ≡ false
unfolding protocol_pattern text_eq
protocol_present [] h = cc
protocol_present (c ∷ s) h = refl

provider_present : (s : Text) → provider_id_pattern s ≡ true → text_eq s [] ≡ false
unfolding provider_id_pattern read_byte text_eq
provider_present [] h = cc
provider_present (c ∷ s) h = refl

version_present : (s : Text) → version_pattern s ≡ true → text_eq s [] ≡ false
unfolding version_pattern read_byte text_eq
version_present [] h = cc
version_present (c ∷ s) h = refl

-- The verdict of `Validate` on a parsed name: an empty agent name is all that can be wrong.
abbrev pub verdict : AnsName → Result Error (Unit {0})
verdict a = if text_eq a.agent_name [] then err missing_agent_name else ok tt

module _ (protocol raw : Text) (good : protocol_pattern protocol ≡ true) where
  parse_full_at-validate :
      (parts : List Text) (i : ℕ) {a : AnsName}
      → parse_full_at protocol raw parts i ≡ ok a
      → (validate a ≡ verdict a) × (a.protocol ≡ protocol) × (a.raw ≡ raw)
  unfolding parse_full_at validate
  parse_full_at-validate parts i {a} h = ground (
    arith,
    protocol_present protocol good,
    provider_present a.provider_id,
    version_present a.version,
  )

  parse_full-validate :
      (parts : List Text) {a : AnsName}
      → parse_full protocol raw parts ≡ ok a
      → (validate a ≡ verdict a) × (a.protocol ≡ protocol) × (a.raw ≡ raw)
  unfolding parse_full
  parse_full-validate parts {a} h = go (find_version 0 parts) refl
    where
      go :
          (found : Option ℕ)
          → find_version 0 parts ≡ found
          → (validate a ≡ verdict a) × (a.protocol ≡ protocol) × (a.raw ≡ raw)
      go none e = absurd (ground arith)
      go (some i) e = parse_full_at-validate parts i (ground arith)

  simplified_name-verdict :
      (version : Text) (rest : List Text) {a : AnsName}
      → version_pattern version ≡ true
      → simplified_name protocol raw version rest ≡ ok a
      → (validate a ≡ verdict a) × (a.protocol ≡ protocol) × (a.raw ≡ raw)
  unfolding validate provider_id_pattern read_byte alphanumeric_suffix all_bytes text_eq
  simplified_name-verdict version [] v h = cc
  simplified_name-verdict version (agent ∷ domain) {a} v h =
      ground (arith, protocol_present protocol good, version_present version v)

  parse_simplified-verdict :
      (parts : List Text) {a : AnsName}
      → parse_simplified protocol raw parts ≡ some (ok a)
      → (validate a ≡ verdict a) × (a.protocol ≡ protocol) × (a.raw ≡ raw)
  unfolding parse_simplified
  parse_simplified-verdict [] h = cc
  parse_simplified-verdict (x ∷ []) h = cc
  parse_simplified-verdict (x ∷ y ∷ []) h = cc
  parse_simplified-verdict (x ∷ y ∷ z ∷ rest) {a} h = elim (Bool-cases (is_version x y z)) [
    | inl version ↦
        simplified_name-verdict (x dot y dot z) rest
          (&&-eq-true (starts_with_v x) (version_pattern (x dot y dot z)) version).1 (ground arith)
    | inr other ↦ absurd (ground arith)
  ]

  parse_components-verdict :
      (host : Text) {a : AnsName}
      → parse_components protocol host raw ≡ ok a
      → (validate a ≡ verdict a) × (a.protocol ≡ protocol) × (a.raw ≡ raw)
  unfolding parse_components
  parse_components-verdict host {a} h = go (parse_simplified protocol raw (split host)) refl
    where
      go :
          (m : Option (Result Error AnsName))
          → parse_simplified protocol raw (split host) ≡ m
          → (validate a ≡ verdict a) × (a.protocol ≡ protocol) × (a.raw ≡ raw)
      go none e = parse_full-validate (split host) (ground arith)
      go (some (ok b)) e = parse_simplified-verdict (split host) (ground arith)
      go (some (err b)) e = absurd (ground arith)

parse_url-verdict :
    (raw : Text) (u : Url) {a : AnsName}
    → parse_url raw u ≡ ok a
    → (validate a ≡ verdict a) × (a.protocol ≡ to_lower u.scheme) × (a.raw ≡ raw)
unfolding parse_url
parse_url-verdict raw u h =
    >>=-elim (require (not (text_eq (to_lower u.scheme) [])) missing_protocol) _ h λ _ _ h₁.
      >>=-elim (require (protocol_pattern (to_lower u.scheme)) invalid_format) _ h₁ λ _ good h₂.
        >>=-elim
          (require (not (text_eq (if text_eq u.host [] then u.opaque else u.host) []))
            invalid_format)
          _ h₂
          λ _ _ h₃. parse_components-verdict (to_lower u.scheme) raw (require-eq-ok _ _ good) _ h₃

-- A name that `Parse` accepts keeps the raw text, has a protocol in lower case, and is complete by
-- `Validate` unless its agent name is empty, the one gap, which `Validate` reports as such.
pub parse-verdict :
    (url_parse : Text → Option Url) (raw : Text) {a : AnsName}
    → parse url_parse raw ≡ ok a
    → (validate a ≡ verdict a)
      × (a.raw ≡ raw)
      × ((u : Url) × (url_parse raw ≡ some u) × (a.protocol ≡ to_lower u.scheme))
unfolding parse
parse-verdict url_parse raw {a} h = go (url_parse raw) refl
  where
    go :
        (m : Option Url)
        → url_parse raw ≡ m
        → (validate a ≡ verdict a)
          × (a.raw ≡ raw)
          × ((u : Url) × (url_parse raw ≡ some u) × (a.protocol ≡ to_lower u.scheme))
    go none e = absurd (ground arith)
    go (some u) e =
        let (valid, scheme, same) = parse_url-verdict raw u {a = a} (ground arith) in
        (valid, same, (u, e, scheme))

-- In the simplified format an empty part stands for the agent name: `v`, three runs of digits, two
-- dots and a domain are accepted, and `Validate` refuses the name that comes of them.
pub parse_components_empty_agent :
    (protocol raw x y z domain : Text)
    → protocol_pattern protocol ≡ true
    → AreDigits x
    → AreDigits y
    → AreDigits z
    → domain ≢ []
    → (a : AnsName) × (parse_components protocol (((b'v' ∷ x) dot y dot z) dot [] dot domain) raw
        ≡ ok a)
      × (a.agent_name ≡ [])
      × (a.extension ≡ domain)
      × (validate a ≡ err missing_agent_name)
unfolding text_eq
parse_components_empty_agent protocol raw x y z domain good dx dy dz present =
    (nameless, accepted, refl, refl, refused)
  where
    version : Text
    version = (b'v' ∷ x) dot y dot z

    matched : version_pattern version ≡ true
    matched = VersionParts-version_pattern x y z dx dy dz

    nameless : AnsName
    nameless = record {
      protocol = protocol;
      agent_name = [];
      capability = codes "default";
      provider_id = codes "PID-0000";
      version = version;
      extension = domain;
      raw = raw;
    }

    parts : split (version dot [] dot domain) ≡ (b'v' ∷ x) ∷ y ∷ z ∷ [] ∷ split domain
    parts = unfold split in cc (split-dot version ([] dot domain), split-version x y z dx dy dz)

    simplified :
        parse_simplified protocol raw (split (version dot [] dot domain)) ≡ some (ok nameless)
    simplified =
        unfold parse_simplified in
        rw (parts, matched, join-split domain, text_eq-nil_ne domain present)

    accepted : parse_components protocol (version dot [] dot domain) raw ≡ ok nameless
    accepted = unfold parse_components in rw (simplified, parse_components)

    refused : validate nameless ≡ err missing_agent_name
    refused = (parse_components-verdict protocol raw good _ accepted).0
