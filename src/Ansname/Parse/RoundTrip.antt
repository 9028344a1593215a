-- ===== src/Ansname/Parse/RoundTrip.antt =====
-- Parsing the canonical text of a name gives the name back.
use route_ans.Prelude.{
  ℕ, suc, ◌+◌, ◌-◌, ◌≡◌, ◌≢◌, refl, true, false, none, some, List, [], ◌∷◌, ◌++◌, Text,
  text_eq-nil_ne, ok, ltb, leb, if◌then◌else◌, length, length-append, get_or, get_or-append, take,
  take-length_append, drop, drop-append, arith,
}
use route_ans.Ansname.Patterns.{provider_id_pattern, version_pattern}
use route_ans.Ansname.Record.{AnsName, ◌dot◌}
use route_ans.Ansname.Dots.{split, join, NoDot, split-dot, split-last}
use route_ans.Ansname.Parse.{find_version, parse_simplified, parse_full_at, parse_full}
use route_ans.Ansname.Parse.Windows.{IsProvider, provider-NoDot}

-- Facts about the index right behind a prefix of the parts.
module _ (l : List Text) (p x y z : Text) (ext : List Text) where
  abbrev pub around : List Text
  around = l ++ p ∷ x ∷ y ∷ z ∷ ext

  provider_part : get_or around (length l + 1 - 1) [] ≡ p
  provider_part =
      let e : length l + 1 - 1 ≡ length l + 0 = omega arith in
      rw e (get_or-append l (p ∷ x ∷ y ∷ z ∷ ext) 0 [])

  major_part : get_or around (length l + 1) [] ≡ x
  major_part = get_or-append l (p ∷ x ∷ y ∷ z ∷ ext) 1 []

  minor_part : get_or around (length l + 1 + 1) [] ≡ y
  minor_part =
      let e : length l + 1 + 1 ≡ length l + 2 = omega arith in
      rw e (get_or-append l (p ∷ x ∷ y ∷ z ∷ ext) 2 [])

  patch_part : get_or around (length l + 1 + 2) [] ≡ z
  patch_part =
      let e : length l + 1 + 2 ≡ length l + 3 = omega arith in
      rw e (get_or-append l (p ∷ x ∷ y ∷ z ∷ ext) 3 [])

  extension_part : drop (length l + 1 + 2 + 1) around ≡ ext
  extension_part =
      let e : length l + 1 + 2 + 1 ≡ length l + 4 = omega arith in
      rw e (drop-append l (p ∷ x ∷ y ∷ z ∷ ext) 4)

  front_part : take (length l + 1 - 1) around ≡ l
  front_part =
      let e : length l + 1 - 1 ≡ length l = omega arith in
      rw e (take-length_append l (p ∷ x ∷ y ∷ z ∷ ext))

-- The capability is the join of its parts, be they one or more.
capability_part :
    (a c p x y z : Text) (more ext : List Text)
    → (let l = a ∷ c ∷ more in
        if ltb 3 (length l + 1)
        then join (drop 1 (take (length l + 1 - 1) (around l p x y z ext)))
        else get_or (around l p x y z ext) 1 [])
      ≡ join (c ∷ more)
capability_part a c p x y z [] ext = unfold join in refl
capability_part a c p x y z (d ∷ more) ext =
    let l = a ∷ c ∷ d ∷ more in
    let long : ltb 3 (length l + 1) ≡ true = ground arith in
    let front = front_part l p x y z ext in rw (long, front) refl

-- There are parts behind the version.
enough_parts :
    (l : List Text) (p x y z e : Text) (es : List Text)
    → leb (length (around l p x y z (e ∷ es)) - 1) (length l + 1 + 2) ≡ false
enough_parts l p x y z e es = ground (arith, length-append l (p ∷ x ∷ y ∷ z ∷ e ∷ es))

module _ (protocol raw agent c p x y z e : Text) (more es : List Text) (agent_ne : agent ≢ [])
    (capability_ne : join (c ∷ more) ≢ []) (provider : IsProvider p)
    (version : version_pattern (x dot y dot z) ≡ true) (extension_ne : join (e ∷ es) ≢ []) where
  abbrev pub l : List Text
  l = agent ∷ c ∷ more

  abbrev pub named : AnsName
  named = record {
    protocol = protocol;
    agent_name = agent;
    capability = join (c ∷ more);
    provider_id = p;
    version = x dot y dot z;
    extension = join (e ∷ es);
    raw = raw;
  }

  parse_full_at-around :
      parse_full_at protocol raw (around l p x y z (e ∷ es)) (length l + 1) ≡ ok named
  unfolding parse_full_at
  parse_full_at-around =
      let far : leb 3 (length l + 1) ≡ true = ground arith in
      rw (
        capability_part agent c p x y z more (e ∷ es),
        provider_part l p x y z (e ∷ es),
        major_part l p x y z (e ∷ es),
        minor_part l p x y z (e ∷ es),
        patch_part l p x y z (e ∷ es),
        extension_part l p x y z (e ∷ es),
        far,
        enough_parts l p x y z e es,
        text_eq-nil_ne agent agent_ne,
        text_eq-nil_ne (join (c ∷ more)) capability_ne,
        provider,
        version,
        text_eq-nil_ne (join (e ∷ es)) extension_ne,
      )

  pub parse_full-around :
      find_version 0 (around l p x y z (e ∷ es)) ≡ some (length l + 1)
      → parse_full protocol raw (around l p x y z (e ∷ es)) ≡ ok named
  unfolding parse_full
  parse_full-around found =
      let many : ltb (length (around l p x y z (e ∷ es))) 7 ≡ false =
        ground (arith, length-append more (p ∷ x ∷ y ∷ z ∷ e ∷ es)) in
      rw (many, found, parse_full) parse_full_at-around

-- A version further back means that the host is not in the simplified format.
pub not_simplified :
    (protocol raw : Text) (parts : List Text) (i : ℕ)
    → find_version 0 parts ≡ some (suc i)
    → parse_simplified protocol raw parts ≡ none
unfolding find_version parse_simplified
not_simplified protocol raw [] i h = refl
not_simplified protocol raw (a ∷ []) i h = refl
not_simplified protocol raw (a ∷ b ∷ []) i h = refl
not_simplified protocol raw (a ∷ b ∷ c ∷ rest) i h = ground arith

-- What a name must satisfy to be written and read back: the fields that the full format needs,
-- an agent name without a dot, and no version inside the agent name and the capability.
pub record Canonical (a : AnsName) : Type 0 where
  pub agent_present : a.agent_name ≢ []
  pub agent_plain : NoDot a.agent_name
  pub capability_present : a.capability ≢ []
  pub provider : provider_id_pattern a.provider_id ≡ true
  pub version : version_pattern a.version ≡ true
  pub extension_present : a.extension ≢ []
  pub version_first : find_version 0 (a.agent_name ∷ split a.capability) ≡ none

-- The part of the canonical text behind `://`.
abbrev pub host_text : AnsName → Text
host_text a = a.agent_name dot a.capability dot a.provider_id dot a.version dot a.extension

pub split-host_text :
    (a : AnsName) {x y z : Text}
    → Canonical a
    → split a.version ≡ x ∷ y ∷ z ∷ []
    → split (host_text a)
      ≡ a.agent_name ∷ (split a.capability ++ a.provider_id ∷ x ∷ y ∷ z ∷ split a.extension)
split-host_text a k e = rw (
  split-dot a.agent_name (a.capability dot a.provider_id dot a.version dot a.extension),
  split-dot a.capability (a.provider_id dot a.version dot a.extension),
  split-dot a.provider_id (a.version dot a.extension),
  split-dot a.version a.extension,
  split-last a.agent_name k.agent_plain,
  split-last a.provider_id (provider-NoDot a.provider_id k.provider),
  e,
)
