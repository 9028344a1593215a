-- ===== src/Ansname/Range/Intervals.antt =====
-- `Matches` against the half-open intervals of versions that each operator stands for.
use route_ans.Prelude.{
  ℕ, ◌+◌, ◌≤◌, ◌<◌, ◌≡◌, refl, ◌⊎◌, ◌↔◌, true, Text, ok, arith, if◌then◌else◌, ltb,
}
use route_ans.Prelude.Int.{pos, negsuc}
use route_ans.Ansname.Record.{AnsName}
use route_ans.Ansname.Semver.{Semver, version_components}
use route_ans.Ansname.Range

abbrev pub semver : ℕ → ℕ → ℕ → Semver
semver a b c = record { major = pos a; minor = pos b; patch = pos c }

-- The lexicographic order of versions.
pub record Version : Type 0 where
  pub x : ℕ
  pub y : ℕ
  pub z : ℕ

abbrev pub Precedes : Version → Version → Type 0
Precedes v w = (v.x < w.x) ⊎ ((v.x ≡ w.x) × ((v.y < w.y) ⊎ ((v.y ≡ w.y) × (v.z < w.z))))

abbrev pub NotAfter : Version → Version → Type 0
NotAfter v w = (v.x < w.x) ⊎ ((v.x ≡ w.x) × ((v.y < w.y) ⊎ ((v.y ≡ w.y) × (v.z ≤ w.z))))

abbrev pub caret_end : Version → Version
caret_end r =
    if ltb 0 r.x
    then record { x = r.x + 1; y = 0; z = 0 }
    else if ltb 0 r.y
    then record { x = 0; y = r.y + 1; z = 0 }
    else record { x = 0; y = 0; z = r.z + 1 }

abbrev pub range_at : Range.Operator → Text → Version → Range.VersionRange
range_at o s r = record {
  original = s;
  operator = o;
  major = pos r.x;
  minor = pos r.y;
  patch = pos r.z;
}

abbrev pub of_version : Version → Semver
of_version v = semver v.x v.y v.z

-- The versions that an operator with a full version behind it is to allow.
abbrev pub Allows : Range.Operator → Version → Version → Type 0
Allows Range.any r v = Unit
Allows Range.equal r v = v ≡ r
Allows Range.greater r v = Precedes r v
Allows Range.greater_equal r v = NotAfter r v
Allows Range.less r v = Precedes v r
Allows Range.less_equal r v = NotAfter v r
Allows Range.caret r v = NotAfter r v × Precedes v (caret_end r)
Allows Range.tilde r v = NotAfter r v × Precedes v (record { x = r.x; y = r.y + 1; z = 0 })
Allows Range.wildcard r v =
    NotAfter (record { x = r.x; y = r.y; z = 0 }) v
    × Precedes v (record { x = r.x; y = r.y + 1; z = 0 })
Allows (Range.other o) r v = ⊥

matches_at-Allows :
    (o : Range.Operator) (s : Text) (r v : Version)
    → (Range.matches_at o (range_at o s r) (of_version v) ≡ ok true) ↔ Allows o r v
unfolding Range.matches_at
matches_at-Allows Range.any s r v = (λ _. tt, λ _. refl)
matches_at-Allows Range.equal s r v = (λ h. ground arith, λ h. ground arith)
matches_at-Allows Range.greater s r v = (λ h. ground arith, λ h. ground arith)
matches_at-Allows Range.greater_equal s r v = (λ h. ground arith, λ h. ground arith)
matches_at-Allows Range.less s r v = (λ h. ground arith, λ h. ground arith)
matches_at-Allows Range.less_equal s r v = (λ h. ground arith, λ h. ground arith)
matches_at-Allows Range.caret s r v = (λ h. ground arith, λ h. ground arith)
matches_at-Allows Range.tilde s r v = (λ h. ground arith, λ h. ground arith)
matches_at-Allows Range.wildcard s r v = (λ h. ground arith, λ h. ground arith)
matches_at-Allows (Range.other o) s r v = (λ h. cc, λ h. absurd h)

-- The ranges with their numbers: an operator with a full version behind it, `m.x` and `m.n.x`.
pub data Shape : Type 0 where
  full : Range.Operator → Version → Shape
  major_x : ℕ → Shape
  minor_x : ℕ → ℕ → Shape

-- The range of a shape, as `ParseVersionRange` leaves the numbers that are not there.
abbrev pub range_for : Shape → Text → Range.VersionRange
range_for (full o r) s = range_at o s r
range_for (major_x m) s = record {
  original = s;
  operator = Range.wildcard;
  major = pos m;
  minor = negsuc 0;
  patch = negsuc 0;
}
range_for (minor_x m n) s = record {
  original = s;
  operator = Range.wildcard;
  major = pos m;
  minor = pos n;
  patch = negsuc 0;
}

-- The versions that a range is to allow.
abbrev pub AllowedBy : Shape → Version → Type 0
AllowedBy (full o r) v = Allows o r v
AllowedBy (major_x m) v =
    NotAfter (record { x = m; y = 0; z = 0 }) v × Precedes v (record { x = m + 1; y = 0; z = 0 })
AllowedBy (minor_x m n) v =
    NotAfter (record { x = m; y = n; z = 0 }) v × Precedes v (record { x = m; y = n + 1; z = 0 })

-- For every operator with a full version behind it, for every range `m.x` and `m.n.x`, and for every
-- version that the name carries, `Matches` answers `true` exactly on the interval of the range: from
-- the bound for `^` and `~`, up to the next breaking and the next minor version; and from m.0.0 up to
-- the next major, and from m.n.0 up to the next minor version.
pub matches-Allows :
    (g : Shape) (s : Text) (v : Version) (name : AnsName)
    → version_components name ≡ ok (of_version v)
    → (Range.matches (range_for g s) name ≡ ok true) ↔ AllowedBy g v
unfolding Range.matches
matches-Allows (full o r) s v name e = rw e (unfold Range.matches_at in matches_at-Allows o s r v)
matches-Allows (major_x m) s v name e =
    rw e (unfold Range.matches_at in (λ h. ground arith, λ h. ground arith))
matches-Allows (minor_x m n) s v name e =
    rw e (unfold Range.matches_at in (λ h. ground arith, λ h. ground arith))
