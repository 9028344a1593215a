-- ===== src/Ansname/Record.antt =====
-- `ANSName` and its methods that do not read the version: pkg/ansname/ansname.go.
use route_ans.Prelude.{
  ◌+◌, Bool, false, ◌&&◌, ◌||◌, List, [], ◌∷◌, ◌++◌, Text, codes, text_eq, Result, ok, ◌>>◌,
  require, if◌then◌else◌, not,
}
use route_ans.Ansname.Patterns.{protocol_pattern, provider_id_pattern, version_pattern, is_upper}

-- The sentinel errors; a wrapped error keeps its sentinel, and its message is left out. The last
-- three are the unnamed errors of `VersionComponents`, `ParseVersionRange` and `Matches`, and the
-- two after them those of `NegotiateVersion`.
pub data Error : Type 0 where
  invalid_format missing_protocol missing_agent_name missing_capability missing_provider_id : Error
  missing_version missing_extension invalid_version invalid_provider_id : Error
  unreadable_version invalid_range unknown_operator no_candidates no_match : Error

pub record AnsName : Type 0 where
  pub protocol : Text
  pub agent_name : Text
  pub capability : Text
  pub provider_id : Text
  pub version : Text
  pub extension : Text
  pub raw : Text

-- `s + "." + t`
infixr 66 ◌dot◌
abbrev pub ◌dot◌ : Text → Text → Text
s dot t = s ++ b'.' ∷ t

-- `String`
unfoldable pub string : AnsName → Text
string a =
    a.protocol
    ++ (codes "://"
        ++ (a.agent_name dot a.capability dot a.provider_id dot a.version dot a.extension))

-- `FQDN`
unfoldable pub fqdn : AnsName → Text
fqdn a = a.agent_name dot a.extension

-- `CacheKey`
unfoldable pub cache_key : AnsName → Text
cache_key a = string a

-- `Validate`: the first check that fails, in the order of the code.
unfoldable pub validate : AnsName → Result Error (Unit {0})
validate a = do
  require (not (text_eq a.protocol [])) missing_protocol
  require (protocol_pattern a.protocol) invalid_format
  require (not (text_eq a.agent_name [])) missing_agent_name
  require (not (text_eq a.capability [])) missing_capability
  require (not (text_eq a.provider_id [])) missing_provider_id
  require (provider_id_pattern a.provider_id) invalid_provider_id
  require (not (text_eq a.version [])) missing_version
  require (version_pattern a.version) invalid_version
  require (not (text_eq a.extension [])) missing_extension
  ok tt

-- `SameAgent`: equal in all but the version and the raw text.
unfoldable pub same_agent : AnsName → AnsName → Bool
same_agent a b =
    text_eq a.protocol b.protocol
    && text_eq a.agent_name b.agent_name
    && text_eq a.capability b.capability
    && text_eq a.provider_id b.provider_id
    && text_eq a.extension b.extension

-- `ValidProtocols`
abbrev pub valid_protocols : List Text
valid_protocols = codes "a2a" ∷ codes "mcp" ∷ codes "acp" ∷ codes "https" ∷ codes "http" ∷ []

-- `strings.ToLower`, byte by byte.
unfoldable pub to_lower : Text → Text
to_lower [] = []
to_lower (c ∷ s) = (if is_upper c then c + 32 else c) ∷ to_lower s

unfoldable pub contains : List Text → Text → Bool
contains [] t = false
contains (s ∷ l) t = text_eq s t || contains l t

-- The keys of the map in `IsKnownProtocol`.
abbrev pub known_protocols : List Text
known_protocols = codes "a2a" ∷ codes "mcp" ∷ codes "acp" ∷ codes "https" ∷ codes "http" ∷ []

-- `IsKnownProtocol`
unfoldable pub is_known_protocol : Text → Bool
unfolding to_lower contains
is_known_protocol protocol = contains known_protocols (to_lower protocol)
