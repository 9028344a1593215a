-- ===== src/Ansname/Semver.antt =====
-- `VersionComponents` and `IsNewerThan` of pkg/ansname/ansname.go, with what they use of
-- `fmt.Sscanf`: blanks, an optional sign and digits for each `%d`, a number outside int64 refused,
-- and text behind the last number ignored.
use route_ans.Prelude.{
  ℕ, ◌+◌, ◌-◌, ◌*◌, ◌^◌, ◌≡◌, Bool, true, false, ◌&&◌, ◌||◌, not, Option, none, some, List, [], ◌∷◌,
  Text, Result, ok, err, ltb, leb, ◌==◌, if◌then◌else◌,
}
use route_ans.Prelude.Int.{ℤ, pos, negsuc, ◌<ℤ◌, ◌==ℤ◌}
use route_ans.Prelude.Options.{◌>>=◌}
use route_ans.Prelude as P
use route_ans.Ansname.Patterns.{read_digits, read_byte, skip_byte}
use route_ans.Ansname.Record.{AnsName, Error, unreadable_version}

pub record Semver : Type 0 where
  pub major : ℤ
  pub minor : ℤ
  pub patch : ℤ

-- The number that digits spell, behind the digits that spelt `n`.
unfoldable pub value : ℕ → Text → ℕ
value n [] = n
value n (c ∷ s) = value (n * 10 + (c - b'0')) s

abbrev pub max_int : ℕ
max_int = 2 ^ 63 - 1

abbrev is_blank : ℕ → Bool
is_blank c = c == 9 || c == 11 || c == 12 || c == 13 || c == 32

-- `SkipSpace`: a newline is an error.
unfoldable pub skip_space : Text → Option Text
skip_space [] = some []
skip_space (c ∷ s) =
    let rest = skip_space s in if c == 10 then none else if is_blank c then rest else some (c ∷ s)

-- An optional sign; `true` for a minus.
abbrev pub read_sign : Text → Bool × Text
read_sign [] = (false, [])
read_sign (c ∷ s) =
    if c == b'-' then (true, s) else if c == b'+' then (false, s) else (false, c ∷ s)

abbrev pub negate : ℕ → ℤ
negate ℕ.zero = pos 0
negate (ℕ.suc n) = negsuc n

-- `strconv.ParseInt` at 64 bits, of a sign and digits.
abbrev pub parse_int : Bool → Text → Option ℤ
parse_int true digits =
    let n = value 0 digits in if leb n (max_int + 1) then some (negate n) else none
parse_int false digits = let n = value 0 digits in if leb n max_int then some (pos n) else none

-- one `%d`
unfoldable pub scan_int : Text → Option (ℤ × Text)
unfolding skip_space value
scan_int s = do
  s₁ ← skip_space s
  let (minus, s₂) = read_sign s₁
  (digits, rest) ← read_digits s₂
  n ← parse_int minus digits
  some (n, rest)

-- `fmt.Sscanf(v, "%d.%d.%d", …)`
unfoldable pub scan_triple : Text → Option Semver
unfolding scan_int
scan_triple s = do
  (major, s₁) ← scan_int s
  s₂ ← read_byte b'.' s₁
  (minor, s₃) ← scan_int s₂
  s₄ ← read_byte b'.' s₃
  (patch, _) ← scan_int s₄
  some (record { major = major; minor = minor; patch = patch })

-- `VersionComponents`; `strings.TrimPrefix(a.Version, "v")` drops one leading `v`.
unfoldable pub version_components : AnsName → Result Error Semver
version_components a = elim (scan_triple (skip_byte b'v' a.version)) [
  | none ↦ err unreadable_version
  | some v ↦ ok v
]

-- The comparison of `IsNewerThan`: major, then minor, then patch.
unfoldable pub newer : Semver → Semver → Bool
newer a b =
    if not (a.major ==ℤ b.major)
    then b.major <ℤ a.major
    else if not (a.minor ==ℤ b.minor)
    then b.minor <ℤ a.minor
    else b.patch <ℤ a.patch

-- `IsNewerThan`
unfoldable pub is_newer_than : AnsName → AnsName → Result Error Bool
is_newer_than a other =
    P.◌>>=◌ (version_components a) λ v. P.◌>>=◌ (version_components other) λ w. ok (newer v w)
