-- ===== src/Ansname/Range/Trimmed.antt =====
-- `ParseVersionRange` on each syntax, with blanks round it; numbers beyond int64; the operators that
-- it can return.
use route_ans.Prelude.{
  ◌≤◌, ◌<◌, ◌≡◌, ◌≢◌, refl, ap, ◌∙◌, ◌⊎◌, inl, inr, Bool, true, false, Option, none, some, [], ◌∷◌,
  ◌++◌, append-nil, Text, Result, ok, err, arith, All, leb, Bool-cases,
}
use route_ans.Prelude.Int.{ℤ, pos}
use route_ans.Ansname.Patterns.Digits.{AreDigits}
use route_ans.Ansname.Record.{AnsName, Error, unreadable_version, ◌dot◌}
use route_ans.Ansname.Semver.{Semver, version_components, value, max_int}
use route_ans.Ansname.Range
use route_ans.Ansname.Range.Syntax.{Prefix, prefix_text, operator_of, optional_v, range_of_prefix}
use route_ans.Ansname.Range.Spaces.{
  AreSpaces, IsInk, trim_left-append, trim_right_spaces, trim_right-append, append-AllInk,
  digits-AllInk, prefix_text-AllInk, AllInk-StartsInk, optional_v-AllInk, append-ne-empty,
}

module _ (x y z b b' : Text) (dx : AreDigits x) (dy : AreDigits y) (dz : AreDigits z)
    (hb : AreSpaces b) (hb' : AreSpaces b') where
  abbrev pub body : Prefix → Bool → Text
  body p v = prefix_text p ++ optional_v v (x dot y dot z)

  numbers-AllInk : All IsInk (x dot y dot z)
  numbers-AllInk =
      append-AllInk x _ (digits-AllInk x dx.1) (
        ground arith,
        append-AllInk y _ (digits-AllInk y dy.1) (ground arith, digits-AllInk z dz.1),
      )

  body-AllInk : (p : Prefix) (v : Bool) → All IsInk (body p v)
  body-AllInk p v =
      append-AllInk (prefix_text p) _ (prefix_text-AllInk p) (optional_v-AllInk v _ numbers-AllInk)

  body-ne-empty : (p : Prefix) (v : Bool) → body p v ≢ []
  body-ne-empty p true = append-ne-empty (prefix_text p) _ λ e. cc
  body-ne-empty p false = append-ne-empty (prefix_text p) _ (append-ne-empty x _ λ e. cc)

  trim_space-body : (p : Prefix) (v : Bool) → Range.trim_space (b ++ (body p v ++ b')) ≡ body p v
  unfolding Range.trim_space
  trim_space-body p v =
      let left =
        trim_left-append b (body p v ++ b') hb
          (AllInk-StartsInk (body p v) b' (body-ne-empty p v) (body-AllInk p v)) in
      let right = trim_right-append (body p v) b' (body-AllInk p v) in
      cc (left, right, trim_right_spaces b' hb', append-nil (body p v))

  -- Each of `1.2.3`, `>=1.2.3`, `>1.2.3`, `<=1.2.3`, `<1.2.3`, `=1.2.3`, `^1.2.3` and `~1.2.3`, for
  -- all runs of digits, with or without a `v` and with any blanks round the text, is read as its
  -- operator with the three numbers.
  pub parse_version_range-prefix :
      (p : Prefix) (v : Bool)
      → Range.parse_version_range (b ++ (body p v ++ b'))
        ≡ ok (Range.bound_range (body p v) (operator_of p) (x, y, z))
  unfolding Range.parse_version_range
  parse_version_range-prefix p v = rw (trim_space-body p v) (range_of_prefix x y z dx dy dz p v)

-- The number of a run of digits, if it fits int64, and else the greatest int64.
abbrev pub IsCutOff : Text → ℤ → Type 0
IsCutOff d n =
    ((value 0 d ≤ max_int) × (n ≡ pos (value 0 d))) ⊎ ((max_int < value 0 d) × (n ≡ pos max_int))

atoi-IsCutOff : (d : Text) → IsCutOff d (Range.atoi d)
unfolding Range.atoi
atoi-IsCutOff d = elim (Bool-cases (leb (value 0 d) max_int)) [
  | inl fits ↦ inl (ground arith, rw (fits, Range.atoi) refl)
  | inr beyond ↦ inr (ground arith, rw (beyond, Range.atoi) refl)
]

-- The texts `1.2.3`, `>=1.2.3`, `>1.2.3`, `<=1.2.3`, `<1.2.3`, `=1.2.3`, `^1.2.3` and `~1.2.3`, with any
-- runs of digits for the numbers, with or without a `v` and with any ASCII blanks round them, are
-- accepted; the range has the operator, and each of its three numbers is the one that is written if
-- that fits int64, and else is silently cut off at the greatest int64.
pub parse_version_range-IsCutOff :
    (p : Prefix) (v : Bool) (x y z b b' : Text) (dx : AreDigits x) (dy : AreDigits y)
    (dz : AreDigits z) (hb : AreSpaces b) (hb' : AreSpaces b')
    → (r : Range.VersionRange) × (Range.parse_version_range
          (b ++ ((prefix_text p ++ optional_v v (x dot y dot z)) ++ b'))
        ≡ ok r)
      × (r.operator ≡ operator_of p)
      × IsCutOff x r.major
      × IsCutOff y r.minor
      × IsCutOff z r.patch
parse_version_range-IsCutOff p v x y z b b' dx dy dz hb hb' = (
  _,
  parse_version_range-prefix x y z b b' dx dy dz hb hb' p v,
  refl,
  atoi-IsCutOff x,
  atoi-IsCutOff y,
  atoi-IsCutOff z,
)

-- The operator is one of those that `Matches` has a case for.
abbrev pub is_known : Range.Operator → Bool
is_known (Range.other s) = false
is_known _ = true

read_comparison_known :
    (s : Text) {p : Range.Operator × Text} → Range.read_comparison s ≡ some p → is_known p.0 ≡ true
unfolding Range.read_comparison
read_comparison_known [] h = cc
read_comparison_known (c ∷ []) h = ground arith
read_comparison_known (c ∷ d ∷ s) h = ground arith

try_comparison_known :
    (s : Text) {r : Range.VersionRange}
    → Range.try_comparison s ≡ some r
    → is_known r.operator ≡ true
unfolding Range.try_comparison
try_comparison_known s {r} h = go (Range.read_comparison s) refl
  where
    go :
        (m : Option (Range.Operator × Text))
        → Range.read_comparison s ≡ m
        → is_known r.operator ≡ true
    go none e = absurd (ground arith)
    go (some p) e = let known = read_comparison_known s {p = p} e in ground arith

range_of_trimmed_known :
    (s : Text) {r : Range.VersionRange}
    → Range.range_of_trimmed s ≡ ok r
    → is_known r.operator ≡ true
unfolding Range.range_of_trimmed Range.try_exact Range.try_marked Range.try_major Range.try_minor
range_of_trimmed_known s {r} h = ground (arith, try_comparison_known s {r = r})

matches_at_known :
    (o : Range.Operator) (r : Range.VersionRange) (v : Semver)
    → is_known o ≡ true
    → (b : Bool) × (Range.matches_at o r v ≡ ok b)
unfolding Range.matches_at
matches_at_known (Range.other s) r v h = cc
matches_at_known Range.any r v h = (_, refl)
matches_at_known _ r v h = (_, refl)

-- A range that was parsed never meets the error of an unknown operator: `Matches` fails on it only
-- for a name whose version cannot be read.
pub parse_version_range-matches :
    (text : Text) {r : Range.VersionRange} (name : AnsName)
    → Range.parse_version_range text ≡ ok r
    → ((v : Semver) × (version_components name ≡ ok v)
        × ((b : Bool) × (Range.matches r name ≡ ok b)))
      ⊎ ((version_components name ≡ err unreadable_version)
          × (Range.matches r name ≡ err unreadable_version))
unfolding Range.parse_version_range
parse_version_range-matches text {r} name h = go (version_components name) refl
  where
    known : is_known r.operator ≡ true
    known = range_of_trimmed_known (Range.trim_space text) h

    go :
        (m : Result Error Semver)
        → version_components name ≡ m
        → ((v : Semver) × (version_components name ≡ ok v)
            × ((b : Bool) × (Range.matches r name ≡ ok b)))
          ⊎ ((version_components name ≡ err unreadable_version)
              × (Range.matches r name ≡ err unreadable_version))
    go (ok v) e =
        let (b, result) = matches_at_known r.operator r v known in
        inl (v, e, (b, unfold Range.matches in rw e result))
    go (err x) e =
        let same : x ≡ unreadable_version = unfold version_components in ground arith in
        inr (e ∙ ap err same, unfold Range.matches in rw e (ap err same))
