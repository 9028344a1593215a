-- ===== src/Ansname/Parse/Windows.antt =====
-- Where the parser finds the version among the parts of a host.
use route_ans.Prelude.{
  ℕ, ◌+◌, ◌≡◌, refl, sym, ap, subst, inl, inr, true, false, Option, none, some, List, [], ◌∷◌, ◌++◌,
  Text, length, All, arith, Bool-cases, &&-eq-true,
}
use route_ans.Prelude.Options.{>>=-elim}
use route_ans.Ansname.Patterns.{
  provider_id_pattern, version_pattern, is_some, read_byte, read_triple, all_bytes, is_alphanumeric,
  alphanumeric_suffix,
}
use route_ans.Ansname.Patterns.Digits.{
  IsDigit, AreDigits, read_triple_sound, read_triple-dotted_triple, read_byte_sound, read_byte-cons,
}
use route_ans.Ansname.Record.{◌dot◌}
use route_ans.Ansname.Dots.{split, NoDot, split-dot, split-last}
use route_ans.Ansname.Parse.{is_version, starts_with_v, find_version}

-- The parts of a version: `v` and digits, digits, digits.
pub record VersionParts (version : Text) : Type 0 where
  pub x : Text
  pub y : Text
  pub z : Text
  pub whole : version ≡ (b'v' ∷ x) dot y dot z
  pub digits_x : AreDigits x
  pub digits_y : AreDigits y
  pub digits_z : AreDigits z

is_some-eq-true {ℓ} : {A : Type ℓ} (o : Option A) → is_some o ≡ true → (a : A) × (o ≡ some a)
is_some-eq-true none h = cc
is_some-eq-true (some a) h = (a, refl)

pub version_pattern-VersionParts : (s : Text) → version_pattern s ≡ true → VersionParts s
unfolding version_pattern
version_pattern-VersionParts s h =
    let (groups, found) = is_some-eq-true _ h in
    >>=-elim (read_byte b'v' s) read_triple found
      λ rest e k. parts_of rest (read_byte_sound _ s e) groups k
  where
    parts_of :
        (rest : Text)
        → s ≡ b'v' ∷ rest
        → (g : Text × Text × Text) → read_triple rest ≡ some g
        → VersionParts s
    parts_of rest e (x, y, z) k =
        let (whole, dx, dy, dz) = read_triple_sound rest k in
        record {
          x = x;
          y = y;
          z = z;
          whole = cc (e, whole);
          digits_x = dx;
          digits_y = dy;
          digits_z = dz;
        }

pub VersionParts-version_pattern :
    (x y z : Text)
    → AreDigits x
    → AreDigits y
    → AreDigits z
    → version_pattern ((b'v' ∷ x) dot y dot z) ≡ true
unfolding version_pattern
VersionParts-version_pattern x y z dx dy dz =
    rw (read_byte-cons, read_triple-dotted_triple x y z dx dy dz)

pub digits-NoDot : (s : Text) → All IsDigit s → NoDot s
digits-NoDot [] h = tt
digits-NoDot (c ∷ s) (d, h) = (λ e. omega arith, digits-NoDot s h)

pub split-triple :
    (a b c : Text) → NoDot a → NoDot b → NoDot c → split (a dot b dot c) ≡ a ∷ b ∷ c ∷ []
split-triple a b c ha hb hc =
    rw (split-dot a (b dot c), split-dot b c, split-last a ha, split-last b hb, split-last c hc)

pub split-version :
    (x y z : Text)
    → AreDigits x
    → AreDigits y
    → AreDigits z
    → split ((b'v' ∷ x) dot y dot z) ≡ (b'v' ∷ x) ∷ y ∷ z ∷ []
split-version x y z dx dy dz =
    split-triple (b'v' ∷ x) y z (λ e. omega arith, digits-NoDot x dx.1) (digits-NoDot y dy.1)
      (digits-NoDot z dz.1)

-- Behind the first part of a version stand two runs of digits.
window_digits :
    (a b c : Text)
    → NoDot a
    → NoDot b
    → NoDot c
    → is_version a b c ≡ true
    → AreDigits b × AreDigits c
window_digits a b c ha hb hc h =
    let v =
      version_pattern-VersionParts (a dot b dot c)
        (&&-eq-true (starts_with_v a) (version_pattern (a dot b dot c)) h).1 in
    let e = split-triple a b c ha hb hc in
    let f = split-version v.x v.y v.z v.digits_x v.digits_y v.digits_z in
    digits_of {x = b'v' ∷ v.x} v.digits_y v.digits_z (cc (e, f, v.whole))
  where
    digits_of :
        {x y z : Text}
        → AreDigits y
        → AreDigits z
        → ◌≡◌ {A = List Text} (a ∷ b ∷ c ∷ []) (x ∷ y ∷ z ∷ [])
        → AreDigits b × AreDigits c
    digits_of {x} {y} {z} dy dz same =
        let p : b ≡ y = cc in let q : c ≡ z = cc in (rw p dy, rw q dz)

-- A provider id is not a run of digits, does not start with `v` and holds no dot.
abbrev pub IsProvider : Text → Type 0
IsProvider p = provider_id_pattern p ≡ true

provider-head : (p : Text) → IsProvider p → (r : Text) × (p ≡ b'P' ∷ r)
unfolding provider_id_pattern read_byte
provider-head [] h = cc
provider-head (c ∷ r) h = (r, ground arith)

all_bytes-NoDot : (s : Text) → all_bytes is_alphanumeric s ≡ true → NoDot s
unfolding all_bytes
all_bytes-NoDot [] h = tt
all_bytes-NoDot (c ∷ s) h = (λ e. ground arith, all_bytes-NoDot s (ground arith))

suffix-NoDot : (s : Text) → alphanumeric_suffix s ≡ true → NoDot s
unfolding alphanumeric_suffix
suffix-NoDot [] h = cc
suffix-NoDot (c ∷ s) h = all_bytes-NoDot (c ∷ s) h

pub provider-NoDot : (p : Text) → IsProvider p → NoDot p
unfolding provider_id_pattern read_byte
provider-NoDot [] h = cc
provider-NoDot (a ∷ []) h = absurd (ground arith)
provider-NoDot (a ∷ b ∷ []) h = absurd (ground arith)
provider-NoDot (a ∷ b ∷ c ∷ []) h = absurd (ground arith)
provider-NoDot (a ∷ b ∷ c ∷ d ∷ s) h = (
  λ e. ground arith,
  (λ e. ground arith, (λ e. ground arith, (λ e. ground arith, suffix-NoDot s (ground arith)))),
)

not_version_first : (p b c : Text) → IsProvider p → is_version p b c ≡ false
not_version_first p b c h =
    let (r, e) = provider-head p h in subst (λ q. is_version q b c ≡ false) (sym e) refl

not_digits : (p : Text) → IsProvider p → ¬ AreDigits p
not_digits p h d =
    let (r, e) = provider-head p h in
    let digits : All IsDigit (b'P' ∷ r) = subst (All IsDigit) e d.1 in absurd (omega arith)

not_version_second : (a p c : Text) → NoDot a → NoDot c → IsProvider p → is_version a p c ≡ false
not_version_second a p c ha hc h = elim (Bool-cases (is_version a p c)) [
  | inl version ↦ absurd (not_digits p h (window_digits a p c ha (provider-NoDot p h) hc version).0)
  | inr no_version ↦ no_version
]

not_version_third : (a b p : Text) → NoDot a → NoDot b → IsProvider p → is_version a b p ≡ false
not_version_third a b p ha hb h = elim (Bool-cases (is_version a b p)) [
  | inl version ↦ absurd (not_digits p h (window_digits a b p ha hb (provider-NoDot p h) version).1)
  | inr no_version ↦ no_version
]

-- The first version stands right behind the provider, if none starts before it.
module _ (p x y z : Text) (rest : List Text) (provider : IsProvider p) (hx : NoDot (b'v' ∷ x))
    (version : is_version (b'v' ∷ x) y z ≡ true) where
  abbrev pub from_provider : List Text
  from_provider = p ∷ (b'v' ∷ x) ∷ y ∷ z ∷ rest

  find_provider : (i : ℕ) → find_version i from_provider ≡ some (i + 1)
  unfolding find_version
  find_provider i = rw (not_version_first p (b'v' ∷ x) y provider, version) refl

  pub find_version-append :
      (l : List Text) (i : ℕ)
      → All NoDot l
      → find_version i l ≡ none
      → find_version i (l ++ from_provider) ≡ some (i + length l + 1)
  unfolding find_version
  find_version-append [] i h k =
      rw (not_version_first p (b'v' ∷ x) y provider, version) (ap some (omega arith))
  find_version-append (a ∷ []) i (ha, _) k =
      rw
        (
          not_version_second a p (b'v' ∷ x) ha hx provider,
          not_version_first p (b'v' ∷ x) y provider,
          version,
        )
        (ap some (omega arith))
  find_version-append (a ∷ b ∷ []) i (ha, (hb, _)) k =
      rw
        (
          not_version_third a b p ha hb provider,
          not_version_second b p (b'v' ∷ x) hb hx provider,
          not_version_first p (b'v' ∷ x) y provider,
          version,
        )
        (ap some (omega arith))
  find_version-append (a ∷ b ∷ c ∷ l) i (ha, hs) k = elim (Bool-cases (is_version a b c)) [
    | inl early ↦ absurd (ground arith)
    | inr late ↦
        rw (late, find_version-append (b ∷ c ∷ l) (i + 1) hs (rw late at k)) (ap some (omega arith))
  ]
