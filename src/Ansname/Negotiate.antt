-- ===== src/Ansname/Negotiate.antt =====
-- `NegotiateVersion` of pkg/ansname/version.go: filter the candidates by the range, and keep the
-- newest.
pub mod Order
pub mod Selection
use route_ans.Prelude.{
  ◌≡◌, Bool, true, false, List, [], ◌∷◌, Text, Result, ok, err, ◌>>=◌, if◌then◌else◌,
}
use route_ans.Ansname.Record.{AnsName, Error, no_candidates, no_match}
use route_ans.Ansname.Semver.{is_newer_than}
use route_ans.Ansname.Range.{VersionRange, parse_version_range, matches}

-- `err == nil && b`
unfoldable pub holds : Result Error Bool → Bool
holds (ok b) = b
holds (err e) = false

-- The candidates that the range matches; one whose version cannot be read is passed over.
unfoldable pub matching : VersionRange → List AnsName → List AnsName
matching r [] = []
matching r (c ∷ cs) = let rest = matching r cs in if holds (matches r c) then c ∷ rest else rest

-- The loop over `matches[1:]`.
unfoldable pub newest : AnsName → List AnsName → AnsName
newest best [] = best
newest best (c ∷ cs) = newest (if holds (is_newer_than c best) then c else best) cs

abbrev pub first_newest : List AnsName → Result Error AnsName
first_newest [] = err no_match
first_newest (c ∷ cs) = ok (newest c cs)

-- `NegotiateVersion`
unfoldable pub negotiate_version : List AnsName → Text → Result Error AnsName
negotiate_version [] range = err no_candidates
negotiate_version (c ∷ cs) range =
    parse_version_range range >>= λ r. first_newest (matching r (c ∷ cs))
