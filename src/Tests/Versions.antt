-- ===== src/Tests/Versions.antt =====
-- Versions, ranges and their negotiation: pkg/ansname/version.go.
use route_ans.Prelude.{◌≡◌, ◌↔◌, refl, true, List, [], ◌∷◌, Text, codes, text_eq, ok, arith}
use route_ans.Ansname.Patterns.{skip_byte, read_triple, read_digits, read_byte, span}
use route_ans.Ansname.Record.{AnsName}
use route_ans.Ansname.Semver.{
  version_components, newer, is_newer_than, value, scan_int, scan_triple, skip_space,
}
use route_ans.Ansname.Range
use route_ans.Ansname.Range.Intervals.{
  AllowedBy, full, major_x, minor_x, range_at, range_for, matches-Allows,
}
use route_ans.Ansname.Patterns.Digits.{AreDigits}
use route_ans.Ansname.Range.Spaces.{AreSpaces}
use route_ans.Ansname.Range.Trimmed.{IsCutOff, parse_version_range-IsCutOff}
use route_ans.Ansname.Range.Syntax.{Prefix}
use route_ans.Ansname.Negotiate.{negotiate_version, matching, newest, holds}
use route_ans.Ansname.Negotiate.Selection.{Selected, negotiate_version-Selected}

unfoldable pub versions : Unit {0}
unfolding skip_byte read_triple read_digits read_byte span text_eq version_components newer
    is_newer_than value scan_int scan_triple skip_space negotiate_version matching newest holds
    Range.atoi Range.skip_blanks Range.trim_from Range.space_width Range.trim_right Range.trim_space
    Range.read_comparison Range.read_major_wildcard Range.read_minor_wildcard Range.try_comparison
    Range.try_marked Range.try_exact Range.try_major Range.try_minor Range.range_of_trimmed
    Range.parse_version_range Range.matches_caret Range.matches_at Range.matches
versions = tt

abbrev named : Text → AnsName
named v = record {
  protocol = codes "mcp";
  agent_name = codes "chat";
  capability = codes "text";
  provider_id = codes "PID-1";
  version = v;
  extension = codes "example.com";
  raw = [];
}

abbrev pub first : AnsName
first = named (codes "v1.2.3")

abbrev second : AnsName
second = named (codes "v1.4.0")

abbrev third : AnsName
third = named (codes "v2.0.0")

abbrev candidates : List AnsName
candidates = first ∷ third ∷ second ∷ []

caret_test : negotiate_version candidates (codes "^1.2.0") ≡ ok second
unfolding versions
caret_test = refl

negotiate_version-Selected_example : Selected (codes "^1.2.0") candidates second
unfolding versions
negotiate_version-Selected_example =
    negotiate_version-Selected candidates (codes "^1.2.0") {best = second} refl

abbrev caret_range : Range.VersionRange
caret_range = range_at Range.caret (codes "^1.2.0") (record { x = 1; y = 2; z = 0 })

matches-Allows_example :
    (Range.matches caret_range second ≡ ok true)
    ↔ AllowedBy (full Range.caret (record { x = 1; y = 2; z = 0 })) (record { x = 1; y = 4; z = 0 })
unfolding versions
matches-Allows_example =
    matches-Allows (full Range.caret (record { x = 1; y = 2; z = 0 })) (codes "^1.2.0")
      (record { x = 1; y = 4; z = 0 }) second refl

major_x_test : Range.parse_version_range (codes "1.x") ≡ ok (range_for (major_x 1) (codes "1.x"))
unfolding versions
major_x_test = refl

minor_x_test :
    Range.parse_version_range (codes "v1.2.x ") ≡ ok (range_for (minor_x 1 2) (codes "v1.2.x"))
unfolding versions
minor_x_test = refl

one : AreDigits (codes "1")
one = (λ e. cc, ground arith)

two : AreDigits (codes "20")
two = (λ e. cc, ground arith)

blank : AreSpaces (codes " ")
blank = ground arith

-- One more than the greatest int64.
beyond : AreDigits (codes "9223372036854775808")
beyond = (λ e. cc, ground arith)

parse_version_range-IsCutOff_example :
    (r : Range.VersionRange) × (Range.parse_version_range (codes " ^v1.20.9223372036854775808 ")
      ≡ ok r)
    × (r.operator ≡ Range.caret)
    × IsCutOff (codes "1") r.major
    × IsCutOff (codes "20") r.minor
    × IsCutOff (codes "9223372036854775808") r.patch
parse_version_range-IsCutOff_example =
    parse_version_range-IsCutOff Prefix.hat true (codes "1") (codes "20")
      (codes "9223372036854775808") (codes " ") (codes " ") one two beyond blank blank
