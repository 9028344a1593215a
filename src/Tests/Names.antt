-- ===== src/Tests/Names.antt =====
-- Names, versions and ranges: pkg/ansname.
use route_ans.Prelude.{◌≡◌, refl, Option, some, [], Text, codes, text_eq, ok, arith}
use route_ans.Ansname.Patterns.{
  version_pattern, provider_id_pattern, protocol_pattern, alphanumeric_suffix, all_bytes,
  read_triple, read_digits, read_byte, span,
}
use route_ans.Ansname.Patterns.Digits.{AreDigits}
use route_ans.Ansname.Record.{AnsName, string, cache_key, validate, to_lower}
use route_ans.Ansname.Dots.{split, join}
use route_ans.Ansname.Parse.{
  Url, find_version, parse_simplified, parse_full_at, parse_full, parse_components, parse_url,
  parse,
}
use route_ans.Ansname.Parse.RoundTrip.{Canonical, host_text}
use route_ans.Ansname.Parse.Canonical.{parse-string, cache_key-injective}
use route_ans.Ansname.Parse.Accepted.{parse-verdict}

program : Unit {0}
unfolding version_pattern provider_id_pattern protocol_pattern alphanumeric_suffix all_bytes
    read_triple read_digits read_byte span string cache_key validate to_lower split join
    find_version parse_simplified parse_full_at parse_full parse_components parse_url parse text_eq
program = tt

-- `mcp://chat.text.PID-1.v1.2.3.example.com`
abbrev agent : AnsName
agent = record {
  protocol = codes "mcp";
  agent_name = codes "chat";
  capability = codes "text";
  provider_id = codes "PID-1";
  version = codes "v1.2.3";
  extension = codes "example.com";
  raw = [];
}

abbrev newer_agent : AnsName
newer_agent = record agent { version = codes "v1.4.0" }

abbrev other_agent : AnsName
other_agent = record agent { version = codes "v2.0.0" }

agent-Canonical : Canonical agent
unfolding program
agent-Canonical = record {
  agent_present = λ e. cc;
  agent_plain = ground arith;
  capability_present = λ e. cc;
  provider = refl;
  version = refl;
  extension_present = λ e. cc;
  version_first = refl;
}

-- A parser that knows the one text.
abbrev url_parse : Text → Option Url
url_parse s = some (record { scheme = codes "mcp"; host = host_text agent; opaque = [] })

parse-string_example : parse url_parse (string agent) ≡ ok (record agent { raw = string agent })
unfolding program
parse-string_example = parse-string url_parse agent refl agent-Canonical refl

cache_key-injective_example :
    record agent { raw = [] } ≡ record (record agent { raw = codes "x" }) { raw = [] }
unfolding program
cache_key-injective_example =
    cache_key-injective agent (record agent { raw = codes "x" }) refl refl agent-Canonical
      (record {
        agent_present = λ e. cc;
        agent_plain = ground arith;
        capability_present = λ e. cc;
        provider = refl;
        version = refl;
        extension_present = λ e. cc;
        version_first = refl;
      })
      refl

parse-verdict_example :
    (validate (record agent { raw = string agent }) ≡ ok tt)
    × (string agent ≡ string agent)
    × ((u : Url) × (url_parse (string agent) ≡ some u) × (codes "mcp" ≡ to_lower u.scheme))
unfolding program
parse-verdict_example =
    parse-verdict url_parse (string agent) {a = record agent { raw = string agent }} refl

one : AreDigits (codes "1")
one = (λ e. cc, ground arith)
