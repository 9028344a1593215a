-- ===== src/Ansname/Parse/Canonical.antt =====
-- The round trip of canonical names through `String` and `Parse`, and distinct cache keys.
use route_ans.Prelude.{
  ℕ, ◌+◌, ◌≡◌, ◌≢◌, refl, sym, ap, subst, ◌∙◌, true, false, Option, none, some, List, [], ◌∷◌, ◌++◌,
  Text, codes, text_eq-nil_ne, ok, length, All, arith, &&-eq-true,
}
use native.Mathlib.Numerals.{add-one}
use route_ans.Ansname.Patterns.{
  protocol_pattern, version_pattern, all_bytes, is_protocol_byte, is_upper,
}
use route_ans.Ansname.Record.{AnsName, ◌dot◌, string, cache_key, to_lower}
use route_ans.Ansname.Dots.{split, join, NoDot, split-ne-nil, join-split, split-NoDot}
use route_ans.Ansname.Parse.{
  Url, find_version, parse_components, parse_simplified, parse_url, parse,
}
use route_ans.Ansname.Parse.Windows.{
  VersionParts, version_pattern-VersionParts, VersionParts-version_pattern, digits-NoDot,
  split-version, find_version-append,
}
use route_ans.Ansname.Parse.RoundTrip.{
  around, Canonical, host_text, split-host_text, not_simplified, parse_full-around,
}

module _ (protocol raw : Text) (a : AnsName) (k : Canonical a) (v : VersionParts a.version)
    (c f : Text) (more fs : List Text) (caps : split a.capability ≡ c ∷ more)
    (exts : split a.extension ≡ f ∷ fs) where
  version_parts : split a.version ≡ (b'v' ∷ v.x) ∷ v.y ∷ v.z ∷ []
  version_parts =
      subst (λ t. split t ≡ (b'v' ∷ v.x) ∷ v.y ∷ v.z ∷ []) (sym v.whole)
        (split-version v.x v.y v.z v.digits_x v.digits_y v.digits_z)

  version_accepted : version_pattern ((b'v' ∷ v.x) dot v.y dot v.z) ≡ true
  version_accepted = VersionParts-version_pattern v.x v.y v.z v.digits_x v.digits_y v.digits_z

  abbrev front : List Text
  front = a.agent_name ∷ c ∷ more

  all_parts : split (host_text a) ≡ around front a.provider_id (b'v' ∷ v.x) v.y v.z (f ∷ fs)
  all_parts = cc (split-host_text a k version_parts, caps, exts)

  front-NoDot : All NoDot front
  front-NoDot = (k.agent_plain, subst (All NoDot) caps (split-NoDot a.capability))

  front_free : find_version 0 front ≡ none
  front_free = subst (λ cs. find_version 0 (a.agent_name ∷ cs) ≡ none) caps k.version_first

  found :
      find_version 0 (around front a.provider_id (b'v' ∷ v.x) v.y v.z (f ∷ fs))
      ≡ some (length front + 1)
  found =
      find_version-append a.provider_id v.x v.y v.z (f ∷ fs) k.provider
        ((λ e. omega arith, digits-NoDot v.x v.digits_x.1)) version_accepted front 0 front-NoDot
        front_free
      ∙ ap some (omega arith)

  full_format : parse_simplified protocol raw (split (host_text a)) ≡ none
  full_format =
      let later = found ∙ ap some (add-one (length front)) in
      subst (λ ps. parse_simplified protocol raw ps ≡ none) (sym all_parts)
        (not_simplified protocol raw _ (length front) later)

  capability_whole : join (c ∷ more) ≡ a.capability
  capability_whole = cc (caps, join-split a.capability)

  extension_whole : join (f ∷ fs) ≡ a.extension
  extension_whole = cc (exts, join-split a.extension)

  parse_around :
      parse_components protocol (host_text a) raw ≡ ok (record a { protocol = protocol; raw = raw })
  unfolding parse_components
  parse_around =
      let full =
        parse_full-around protocol raw a.agent_name c a.provider_id (b'v' ∷ v.x) v.y v.z f more fs
          k.agent_present (subst (λ t. t ≢ []) (sym capability_whole) k.capability_present)
          k.provider version_accepted
          (subst (λ t. t ≢ []) (sym extension_whole) k.extension_present) found in
      rw (full_format, all_parts, parse_components)
        (cc (full, capability_whole, extension_whole, v.whole))

-- The text of a canonical name, behind its scheme, is parsed to the name.
pub parse_components-host_text :
    (protocol raw : Text) (a : AnsName)
    → Canonical a
    → parse_components protocol (host_text a) raw ≡ ok (record a { protocol = protocol; raw = raw })
parse_components-host_text protocol raw a k =
    go (split a.capability) (split a.extension) refl refl (split-ne-nil a.capability)
      (split-ne-nil a.extension)
  where
    go :
        (cs fs : List Text)
        → split a.capability ≡ cs
        → split a.extension ≡ fs
        → cs ≢ []
        → fs ≢ []
        → parse_components protocol (host_text a) raw
          ≡ ok (record a { protocol = protocol; raw = raw })
    go [] fs e₁ e₂ n₁ n₂ = absurd (n₁ refl)
    go (c ∷ more) [] e₁ e₂ n₁ n₂ = absurd (n₂ refl)
    go (c ∷ more) (f ∷ fs) e₁ e₂ n₁ n₂ =
        parse_around protocol raw a k (version_pattern-VersionParts a.version k.version) c f more fs
          e₁ e₂

lower_byte : (c : ℕ) → is_protocol_byte c ≡ true → is_upper c ≡ false
lower_byte c h = ground arith

to_lower_of_protocol : (s : Text) → all_bytes is_protocol_byte s ≡ true → to_lower s ≡ s
unfolding to_lower all_bytes
to_lower_of_protocol [] h = refl
to_lower_of_protocol (c ∷ s) h =
    let (first, others) = &&-eq-true (is_protocol_byte c) (all_bytes is_protocol_byte s) h in
    rw (lower_byte c first, to_lower_of_protocol s others)

-- A protocol that `Validate` accepts is in lower case already, and is not empty.
protocol-to_lower : (s : Text) → protocol_pattern s ≡ true → (to_lower s ≡ s) × (s ≢ [])
unfolding protocol_pattern all_bytes
protocol-to_lower [] h = cc
protocol-to_lower (c ∷ s) h = (to_lower_of_protocol (c ∷ s) (ground arith), λ e. cc)

append-ne-nil : (s t : Text) → s ≢ [] → s ++ t ≢ []
append-ne-nil [] t n = absurd (n refl)
append-ne-nil (c ∷ s) t n = λ e. cc

string-ne-nil : (a : AnsName) → a.protocol ≢ [] → string a ≢ []
unfolding string
string-ne-nil a ne = append-ne-nil a.protocol (codes "://" ++ host_text a) ne

parse_url-Canonical :
    (raw : Text) (a : AnsName)
    → protocol_pattern a.protocol ≡ true
    → Canonical a
    → parse_url raw (record { scheme = a.protocol; host = host_text a; opaque = [] })
      ≡ ok (record a { raw = raw })
unfolding parse_url
parse_url-Canonical raw a p k =
    let (lower, present) = protocol-to_lower a.protocol p in
    rw
      (
        lower,
        text_eq-nil_ne a.protocol present,
        p,
        text_eq-nil_ne (host_text a) (append-ne-nil a.agent_name _ k.agent_present),
      )
      (rw (text_eq-nil_ne (host_text a) (append-ne-nil a.agent_name _ k.agent_present))
        (parse_components-host_text a.protocol raw a k))

-- `Parse` gives back a canonical name from the text that `String` writes, if the URL parser reads
-- from that text the scheme before `://` and the host behind it.
pub parse-string :
    (url_parse : Text → Option Url) (a : AnsName)
    → protocol_pattern a.protocol ≡ true
    → Canonical a
    → url_parse (string a) ≡ some (record { scheme = a.protocol; host = host_text a; opaque = [] })
    → parse url_parse (string a) ≡ ok (record a { raw = string a })
unfolding parse
parse-string url_parse a p k reads =
    let (_, present) = protocol-to_lower a.protocol p in
    rw (text_eq-nil_ne (string a) (string-ne-nil a present), reads, parse)
      (parse_url-Canonical (string a) a p k)

abbrev NoColon : Text → Type 0
NoColon = All (λ c. c ≢ b':')

protocol-NoColon : (s : Text) → all_bytes is_protocol_byte s ≡ true → NoColon s
unfolding all_bytes
protocol-NoColon [] h = tt
protocol-NoColon (c ∷ s) h =
    let (first, others) = &&-eq-true (is_protocol_byte c) (all_bytes is_protocol_byte s) h in
    (λ e. ground arith, protocol-NoColon s others)

pattern-NoColon : (s : Text) → protocol_pattern s ≡ true → NoColon s
unfolding protocol_pattern
pattern-NoColon [] h = cc
pattern-NoColon (c ∷ s) h = (λ e. ground arith, protocol-NoColon s (ground arith))

-- A text is cut at its first colon in one way.
cut_at_colon :
    (p q h k : Text) → NoColon p → NoColon q → p ++ b':' ∷ h ≡ q ++ b':' ∷ k → (p ≡ q) × (h ≡ k)
cut_at_colon [] [] h k np nq e = (refl, cc)
cut_at_colon [] (d ∷ q) h k np nq e = absurd (ground arith)
cut_at_colon (c ∷ p) [] h k np nq e = absurd (ground arith)
cut_at_colon (c ∷ p) (d ∷ q) h k np nq e =
    let (same, rest) = cut_at_colon p q h k np.1 nq.1 (ground arith) in (ground arith, rest)

-- Two canonical names with the same cache key are the same but for the raw text: no two agents and
-- no two versions of an agent share an entry of the cache.
pub cache_key-injective :
    (a b : AnsName)
    → protocol_pattern a.protocol ≡ true
    → protocol_pattern b.protocol ≡ true
    → Canonical a
    → Canonical b
    → cache_key a ≡ cache_key b
    → record a { raw = [] } ≡ record b { raw = [] }
unfolding cache_key string
cache_key-injective a b pa pb ka kb e =
    let (scheme, rest) =
      cut_at_colon a.protocol b.protocol (codes "//" ++ host_text a) (codes "//" ++ host_text b)
        (pattern-NoColon a.protocol pa) (pattern-NoColon b.protocol pb) e in
    let host : host_text a ≡ host_text b = ground arith in
    let read_a = parse_components-host_text a.protocol [] a ka in
    let read_b = parse_components-host_text b.protocol [] b kb in cc (read_a, read_b, host, scheme)
