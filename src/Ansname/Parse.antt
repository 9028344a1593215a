-- ===== src/Ansname/Parse.antt =====
-- `Parse` and `parseComponents` of pkg/ansname/ansname.go. `url.Parse` is not code of the
-- repository: it is the parameter `url_parse`, of which `Parse` reads three fields.
pub mod Windows
pub mod RoundTrip
pub mod Canonical
pub mod Accepted
use route_ans.Prelude.{
  ℕ, zero, suc, ◌+◌, ◌-◌, ◌≡◌, Bool, true, false, ◌&&◌, not, Option, none, some, List, [], ◌∷◌,
  ◌++◌, Text, codes, text_eq, Result, ok, err, ◌>>=◌, ◌>>◌, require, ltb, leb, ◌==◌, if◌then◌else◌,
  length, get_or, take, drop,
}
use route_ans.Ansname.Patterns.{protocol_pattern, provider_id_pattern, version_pattern}
use route_ans.Ansname.Record.{
  AnsName, Error, invalid_format, missing_protocol, missing_agent_name, missing_capability,
  missing_version, missing_extension, invalid_version, invalid_provider_id, to_lower, ◌dot◌,
}
use route_ans.Ansname.Dots.{split, join}

-- The fields of `url.URL` that `Parse` reads.
pub record Url : Type 0 where
  pub scheme : Text
  pub host : Text
  pub opaque : Text

-- `len(p) > 0 && p[0] == 'v'`
abbrev pub starts_with_v : Text → Bool
starts_with_v [] = false
starts_with_v (c ∷ p) = c == b'v'

-- `parts[i] + "." + parts[i+1] + "." + parts[i+2]` looks like a version.
abbrev pub is_version : Text → Text → Text → Bool
is_version a b c = starts_with_v a && version_pattern (a dot b dot c)

-- The loop that looks for the first index at which a version starts; `i` counts its rounds.
unfoldable pub find_version : ℕ → List Text → Option ℕ
find_version i [] = none
find_version i (a ∷ []) = none
find_version i (a ∷ b ∷ []) = none
find_version i (a ∷ b ∷ c ∷ parts) =
    let rest = find_version (i + 1) (b ∷ c ∷ parts) in if is_version a b c then some i else rest

-- What the block for the simplified format makes of the parts behind the version.
abbrev pub simplified_name : Text → Text → Text → List Text → Result Error AnsName
simplified_name protocol raw version [] = err invalid_format
simplified_name protocol raw version (agent_name ∷ domain) =
    if text_eq (join domain) []
    then err invalid_format
    else ok (record {
      protocol = protocol;
      agent_name = agent_name;
      capability = codes "default";
      provider_id = codes "PID-0000";
      version = version;
      extension = join domain;
      raw = raw;
    })

-- The block for the simplified format, `protocol://version.host.domain`: `none` where the code
-- goes on to the full format.
unfoldable pub parse_simplified : Text → Text → List Text → Option (Result Error AnsName)
parse_simplified protocol raw (a ∷ b ∷ c ∷ rest) =
    if is_version a b c then some (simplified_name protocol raw (a dot b dot c) rest) else none
parse_simplified protocol raw _ = none

-- The components around the version that starts at `i`, and their validation. The index of each
-- `get_or` is in range where the code reads it.
unfoldable pub parse_full_at : Text → Text → List Text → ℕ → Result Error AnsName
parse_full_at protocol raw parts i =
    let agent_name = get_or parts 0 [] in
    let capability = if ltb 3 i then join (drop 1 (take (i - 1) parts)) else get_or parts 1 [] in
    let provider_id = get_or parts (i - 1) [] in
    let version = get_or parts i [] dot get_or parts (i + 1) [] dot get_or parts (i + 2) [] in
    let extension = join (drop (i + 2 + 1) parts) in
    do
      require (leb 3 i) invalid_format
      require (not (leb (length parts - 1) (i + 2))) missing_extension
      require (not (text_eq agent_name [])) missing_agent_name
      require (not (text_eq capability [])) missing_capability
      require (provider_id_pattern provider_id) invalid_provider_id
      require (version_pattern version) invalid_version
      require (not (text_eq extension [])) missing_extension
      ok (record {
        protocol = protocol;
        agent_name = agent_name;
        capability = capability;
        provider_id = provider_id;
        version = version;
        extension = extension;
        raw = raw;
      })

-- The full format, `protocol://agentName.capability.providerID.version.extension`.
unfoldable pub parse_full : Text → Text → List Text → Result Error AnsName
parse_full protocol raw parts =
    if ltb (length parts) 7 then err invalid_format else elim (find_version 0 parts) [
      | none ↦ err missing_version
      | some i ↦ parse_full_at protocol raw parts i
    ]

-- `parseComponents`
unfoldable pub parse_components : Text → Text → Text → Result Error AnsName
parse_components protocol host raw = elim (parse_simplified protocol raw (split host)) [
  | none ↦ parse_full protocol raw (split host)
  | some result ↦ result
]

-- `Parse` on a URL that was read.
unfoldable pub parse_url : Text → Url → Result Error AnsName
parse_url raw u = do
  let protocol = to_lower u.scheme
  require (not (text_eq protocol [])) missing_protocol
  require (protocol_pattern protocol) invalid_format
  let host = if text_eq u.host [] then u.opaque else u.host
  require (not (text_eq host [])) invalid_format
  parse_components protocol host raw

module _ (url_parse : Text → Option Url) where
  -- `Parse`
  unfoldable pub parse : Text → Result Error AnsName
  parse raw =
      if text_eq raw []
      then err invalid_format
      else elim (url_parse raw) [ none ↦ err invalid_format | some u ↦ parse_url raw u ]
