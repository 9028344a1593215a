-- ===== src/Ansname/Range.antt =====
-- `VersionRange`, `ParseVersionRange` and `Matches`: pkg/ansname/version.go.
pub mod Intervals
pub mod Syntax
pub mod Spaces
pub mod Trimmed
use route_ans.Prelude.{
  ℕ, zero, suc, ◌+◌, ◌≡◌, Bool, true, false, ◌&&◌, ◌||◌, not, Option, none, some, List, [], ◌∷◌,
  ◌++◌, Text, codes, text_eq, Result, ok, err, leb, ◌==◌, if◌then◌else◌,
}
use route_ans.Prelude.Int.{ℤ, pos, negsuc, ◌<ℤ◌, ◌==ℤ◌}
use route_ans.Prelude as P
use route_ans.Prelude.Options.{◌>>=◌}
use route_ans.Ansname.Patterns.{read_digits, read_byte, skip_byte, at_end, read_triple}
use route_ans.Ansname.Record.{AnsName, Error, invalid_range, unknown_operator}
use route_ans.Ansname.Semver.{Semver, version_components, value, max_int}

-- The strings that the field `operator` can hold; `other` is any string but those above it.
pub data Operator : Type 0 where
  any equal greater greater_equal less less_equal caret tilde wildcard : Operator
  other : Text → Operator

pub record VersionRange : Type 0 where
  pub original : Text
  pub operator : Operator
  pub major : ℤ
  pub minor : ℤ
  pub patch : ℤ

-- The number of `strconv.Atoi`, whose error the code ignores: a number beyond int64 is cut off at
-- its greatest value.
unfoldable pub atoi : Text → ℤ
unfolding value
atoi digits = let n = value 0 digits in if leb n max_int then pos n else pos max_int

-- `\s*`: one of `\t \n \f \r` and the space, any number of times.
unfoldable pub skip_blanks : Text → Text
skip_blanks [] = []
skip_blanks (c ∷ s) =
    let rest = skip_blanks s in
    if c == 9 || c == 10 || c == 12 || c == 13 || c == 32 then rest else c ∷ s

-- The ASCII characters that `strings.TrimSpace` drops.
abbrev pub is_space : ℕ → Bool
is_space c = (leb 9 c && leb c 13) || c == 32

-- The others in UTF-8: U+0085 and U+00A0; and U+1680, U+2000 to U+200A, U+2028, U+2029, U+202F, U+205F
-- and U+3000.
abbrev pub is_space_of_two : ℕ → ℕ → Bool
is_space_of_two c d = c == 194 && (d == 133 || d == 160)

abbrev pub is_space_of_three : ℕ → ℕ → ℕ → Bool
is_space_of_three c d e =
    (c == 225 && d == 154 && e == 128)
    || (c == 226 && d == 128 && (leb 128 e && leb e 138 || e == 168 || e == 169 || e == 175))
    || (c == 226 && d == 129 && e == 159)
    || (c == 227 && d == 128 && e == 128)

-- How many bytes the space at the front of a text has; none if there is no space.
unfoldable pub space_width : Text → ℕ
space_width [] = 0
space_width (c ∷ []) = if is_space c then 1 else 0
space_width (c ∷ d ∷ []) = if is_space c then 1 else if is_space_of_two c d then 2 else 0
space_width (c ∷ d ∷ e ∷ s) =
    if is_space c
    then 1
    else if is_space_of_two c d
    then 2
    else if is_space_of_three c d e
    then 3
    else 0

-- The text without the spaces at its front, of which a number of bytes are still to be dropped.
unfoldable pub trim_from : ℕ → Text → Text
trim_from k [] = []
trim_from (suc k) (c ∷ s) = trim_from k s
trim_from zero (c ∷ s) = elim (space_width (c ∷ s)) [ zero ↦ c ∷ s | suc k ↦ trim_from k s ]

abbrev pub trim_left : Text → Text
trim_left s = trim_from 0 s

-- What is nothing but spaces from some byte on is dropped from there.
unfoldable pub trim_right : Text → Text
trim_right [] = []
trim_right (c ∷ s) =
    let rest = trim_right s in elim (trim_left (c ∷ s)) [ [] ↦ [] | d ∷ t ↦ c ∷ rest ]

-- `strings.TrimSpace`
unfoldable pub trim_space : Text → Text
unfolding trim_right
trim_space s = trim_right (trim_left s)

-- The alternatives `>=|>|<=|<|=` in their order, with the rest.
unfoldable pub read_comparison : Text → Option (Operator × Text)
read_comparison [] = none
read_comparison (c ∷ []) =
    if c == b'>'
    then some (greater, [])
    else if c == b'<'
    then some (less, [])
    else if c == b'='
    then some (equal, [])
    else none
read_comparison (c ∷ d ∷ s) =
    if c == b'>'
    then (if d == b'=' then some (greater_equal, s) else some (greater, d ∷ s))
    else if c == b'<'
    then (if d == b'=' then some (less_equal, s) else some (less, d ∷ s))
    else if c == b'='
    then some (equal, d ∷ s)
    else none

-- `\s*v?(\d+)\.(\d+)\.(\d+)$`
abbrev pub read_bound : Text → Option (Text × Text × Text)
read_bound s = read_triple (skip_byte b'v' (skip_blanks s))

-- `^v?(\d+)\.x$`
unfoldable pub read_major_wildcard : Text → Option Text
read_major_wildcard s = do
  (major, s₁) ← read_digits (skip_byte b'v' s)
  s₂ ← read_byte b'.' s₁
  s₃ ← read_byte b'x' s₂
  at_end major s₃

-- `^v?(\d+)\.(\d+)\.x$`
unfoldable pub read_minor_wildcard : Text → Option (Text × Text)
read_minor_wildcard s = do
  (major, s₁) ← read_digits (skip_byte b'v' s)
  s₂ ← read_byte b'.' s₁
  (minor, s₃) ← read_digits s₂
  s₄ ← read_byte b'.' s₃
  s₅ ← read_byte b'x' s₄
  at_end (major, minor) s₅

-- The range of three captured numbers.
abbrev pub bound_range : Text → Operator → Text × Text × Text → VersionRange
bound_range original operator (major, minor, patch) = record {
  original = original;
  operator = operator;
  major = atoi major;
  minor = atoi minor;
  patch = atoi patch;
}

-- `rangePattern`, `caretPattern` and `tildePattern`, each behind its own operator.
unfoldable pub try_comparison : Text → Option VersionRange
try_comparison s = do
  (operator, rest) ← read_comparison s
  numbers ← read_bound rest
  some (bound_range s operator numbers)

unfoldable pub try_marked : ℕ → Operator → Text → Option VersionRange
try_marked mark operator s = do
  rest ← read_byte mark s
  numbers ← read_bound rest
  some (bound_range s operator numbers)

unfoldable pub try_exact : Text → Option VersionRange
try_exact s = do numbers ← read_triple (skip_byte b'v' s); some (bound_range s equal numbers)

unfoldable pub try_major : Text → Option VersionRange
try_major s = do
  major ← read_major_wildcard s
  some (record {
    original = s;
    operator = wildcard;
    major = atoi major;
    minor = negsuc 0;
    patch = negsuc 0;
  })

unfoldable pub try_minor : Text → Option VersionRange
try_minor s = do
  (major, minor) ← read_minor_wildcard s
  some (record {
    original = s;
    operator = wildcard;
    major = atoi major;
    minor = atoi minor;
    patch = negsuc 0;
  })

-- The first pattern that matches, else the second.
infixr 20 ◌<|>◌
abbrev pub ◌<|>◌ {ℓ} : {A : Type ℓ} → Option A → Option A → Option A
none <|> y = y
some a <|> y = some a

-- The patterns that are tried in turn on the trimmed text.
unfoldable pub range_of_trimmed : Text → Result Error VersionRange
range_of_trimmed s =
    if text_eq s [] || text_eq s (codes "*")
    then ok (record { original = s; operator = any; major = pos 0; minor = pos 0; patch = pos 0 })
    else elim (try_exact s
        <|> try_comparison s
        <|> try_marked b'^' caret s
        <|> try_marked b'~' tilde s
        <|> try_major s
        <|> try_minor s) [ none ↦ err invalid_range | some r ↦ ok r ]

-- `ParseVersionRange`
unfoldable pub parse_version_range : Text → Result Error VersionRange
unfolding range_of_trimmed
parse_version_range text = range_of_trimmed (trim_space text)

-- The caret case of `Matches`.
unfoldable pub matches_caret : VersionRange → Semver → Bool
matches_caret r v =
    if pos 0 <ℤ r.major
    then (if not (v.major ==ℤ r.major)
        then false
        else if v.minor <ℤ r.minor
        then false
        else if v.minor ==ℤ r.minor
        then not (v.patch <ℤ r.patch)
        else true)
    else if pos 0 <ℤ r.minor
    then (if not (v.major ==ℤ pos 0) || not (v.minor ==ℤ r.minor)
        then false
        else not (v.patch <ℤ r.patch))
    else (v.major ==ℤ pos 0) && (v.minor ==ℤ pos 0) && (v.patch ==ℤ r.patch)

-- Lexicographic comparison by `last` on the patch and by `first` on what stands before it.
abbrev pub compare_by : (ℤ → ℤ → Bool) → (ℤ → ℤ → Bool) → VersionRange → Semver → Bool
compare_by first last r v =
    if not (v.major ==ℤ r.major)
    then first v.major r.major
    else if not (v.minor ==ℤ r.minor)
    then first v.minor r.minor
    else last v.patch r.patch

-- The `switch` of `Matches`, on the components of the name's version.
unfoldable pub matches_at : Operator → VersionRange → Semver → Result Error Bool
unfolding matches_caret
matches_at any r v = ok true
matches_at equal r v = ok ((v.major ==ℤ r.major) && (v.minor ==ℤ r.minor) && (v.patch ==ℤ r.patch))
matches_at greater r v = ok (compare_by (λ a b. b <ℤ a) (λ a b. b <ℤ a) r v)
matches_at greater_equal r v = ok (compare_by (λ a b. b <ℤ a) (λ a b. not (a <ℤ b)) r v)
matches_at less r v = ok (compare_by (λ a b. a <ℤ b) (λ a b. a <ℤ b) r v)
matches_at less_equal r v = ok (compare_by (λ a b. a <ℤ b) (λ a b. not (b <ℤ a)) r v)
matches_at caret r v = ok (matches_caret r v)
matches_at tilde r v = ok (
    if not (v.major ==ℤ r.major) || not (v.minor ==ℤ r.minor)
    then false
    else not (v.patch <ℤ r.patch))
matches_at wildcard r v = ok (
    if r.minor ==ℤ negsuc 0
    then v.major ==ℤ r.major
    else (v.major ==ℤ r.major) && (v.minor ==ℤ r.minor))
matches_at (other s) r v = err unknown_operator

-- `Matches`
unfoldable pub matches : VersionRange → AnsName → Result Error Bool
unfolding matches_at
matches r name = P.◌>>=◌ (version_components name) λ v. matches_at r.operator r v
