-- ===== src/Ansname/Range/Syntax.antt =====
-- Which ranges the texts of each syntax stand for.
use route_ans.Prelude.{
  ℕ, ◌≡◌, ◌≢◌, refl, sym, subst, Bool, true, false, ◌||◌, none, some, [], ◌∷◌, ◌++◌, Text, codes,
  text_eq, ok, ◌==◌, arith,
}
use route_ans.Ansname.Patterns.{read_digits, read_byte, skip_byte, read_triple, is_digit, span}
use route_ans.Ansname.Patterns.Digits.{AreDigits, read_byte-cons, read_triple-dotted_triple}
use route_ans.Ansname.Record.{◌dot◌}
use route_ans.Ansname.Range

-- The texts of the five comparisons, of `^` and of `~`.
pub data Prefix : Type 0 where
  exact ge gt le lt eq hat squiggle : Prefix

abbrev pub prefix_text : Prefix → Text
prefix_text exact = []
prefix_text ge = codes ">="
prefix_text gt = codes ">"
prefix_text le = codes "<="
prefix_text lt = codes "<"
prefix_text eq = codes "="
prefix_text hat = codes "^"
prefix_text squiggle = codes "~"

abbrev pub operator_of : Prefix → Range.Operator
operator_of exact = Range.equal
operator_of ge = Range.greater_equal
operator_of gt = Range.greater
operator_of le = Range.less_equal
operator_of lt = Range.less
operator_of eq = Range.equal
operator_of hat = Range.caret
operator_of squiggle = Range.tilde

-- An optional `v` in front of the numbers.
abbrev pub optional_v : Bool → Text → Text
optional_v true s = b'v' ∷ s
optional_v false s = s

module _ (x y z : Text) (dx : AreDigits x) (dy : AreDigits y) (dz : AreDigits z) where
  abbrev pub numbers : Text
  numbers = x dot y dot z

  skip_optional : (v : Bool) → skip_byte b'v' (optional_v v numbers) ≡ numbers
  unfolding skip_byte
  skip_optional true = refl
  skip_optional false = go x dx
    where
      go : (t : Text) → AreDigits t → skip_byte b'v' (t dot y dot z) ≡ t dot y dot z
      go [] d = absurd (d.0 refl)
      go (c ∷ t) d = let h = d.1 in ground arith

  blanks_none : (v : Bool) → Range.skip_blanks (optional_v v numbers) ≡ optional_v v numbers
  unfolding Range.skip_blanks
  blanks_none true = refl
  blanks_none false = go x dx
    where
      go : (t : Text) → AreDigits t → Range.skip_blanks (t dot y dot z) ≡ t dot y dot z
      go [] d = absurd (d.0 refl)
      go (c ∷ t) d = let h = d.1 in ground arith

  bound_read : (v : Bool) → Range.read_bound (optional_v v numbers) ≡ some (x, y, z)
  bound_read v = rw (blanks_none v, skip_optional v) (read_triple-dotted_triple x y z dx dy dz)

  try_exact-fails :
      (b : ℕ) (s : Text) → b ≢ b'v' → is_digit b ≡ false → Range.try_exact (b ∷ s) ≡ none
  unfolding Range.try_exact skip_byte read_triple read_digits span
  try_exact-fails b s n d = ground arith

  starts_apart :
      (v : Bool) → (d : ℕ) × (r : Text) × (optional_v v numbers ≡ d ∷ r) × ((d == b'=') ≡ false)
  starts_apart true = (b'v', numbers, refl, refl)
  starts_apart false = go x dx
    where
      go :
          (t : Text)
          → AreDigits t
          → (d : ℕ) × (r : Text) × (t dot y dot z ≡ d ∷ r) × ((d == b'=') ≡ false)
      go [] d = absurd (d.0 refl)
      go (c ∷ t) d = let h = d.1 in (c, t dot y dot z, refl, ground arith)

  -- A comparison of one character, whose reader looks at the character behind it.
  read_single :
      (c : ℕ) (o : Range.Operator) (v : Bool)
      → ((d : ℕ) (r : Text)
          → (d == b'=') ≡ false
          → Range.read_comparison (c ∷ d ∷ r) ≡ some (o, d ∷ r))
      → Range.read_comparison (c ∷ optional_v v numbers) ≡ some (o, optional_v v numbers)
  read_single c o v h =
      let (d, r, e, apart) = starts_apart v in
      subst (λ t. Range.read_comparison (c ∷ t) ≡ some (o, t)) (sym e) (h d r apart)

  comparison_read :
      (s : Text) (o : Range.Operator) (v : Bool)
      → Range.read_comparison s ≡ some (o, optional_v v numbers)
      → Range.try_comparison s ≡ some (Range.bound_range s o (x, y, z))
  unfolding Range.try_comparison
  comparison_read s o v e = rw (e, bound_read v)

  by_comparison :
      (b : ℕ) (s : Text) (o : Range.Operator) (v : Bool)
      → b ≢ b'v'
      → b ≢ b'*'
      → is_digit b ≡ false
      → Range.read_comparison (b ∷ s) ≡ some (o, optional_v v numbers)
      → Range.range_of_trimmed (b ∷ s) ≡ ok (Range.bound_range (b ∷ s) o (x, y, z))
  unfolding Range.range_of_trimmed text_eq
  by_comparison b s o v n m d e =
      ground (arith, try_exact-fails b s n d, comparison_read (b ∷ s) o v e)

  by_mark :
      (b : ℕ) (o : Range.Operator) (v : Bool)
      → Range.try_marked b o (b ∷ optional_v v numbers)
        ≡ some (Range.bound_range (b ∷ optional_v v numbers) o (x, y, z))
  unfolding Range.try_marked
  by_mark b o v = rw (read_byte-cons, bound_read v)

  no_comparison :
      (b : ℕ) (s : Text) → b ≢ b'>' → b ≢ b'<' → b ≢ b'=' → Range.try_comparison (b ∷ s) ≡ none
  unfolding Range.try_comparison Range.read_comparison
  no_comparison b [] n m k = ground arith
  no_comparison b (c ∷ s) n m k = ground arith

  exact_read :
      (v : Bool)
      → Range.try_exact (optional_v v numbers)
        ≡ some (Range.bound_range (optional_v v numbers) Range.equal (x, y, z))
  unfolding Range.try_exact
  exact_read v = rw (skip_optional v, read_triple-dotted_triple x y z dx dy dz)

  not_any :
      (v : Bool)
      → (text_eq (optional_v v numbers) [] || text_eq (optional_v v numbers) (codes "*")) ≡ false
  unfolding text_eq
  not_any true = refl
  not_any false = go x dx
    where
      go :
          (t : Text)
          → AreDigits t
          → (text_eq (t dot y dot z) [] || text_eq (t dot y dot z) (codes "*")) ≡ false
      go [] d = absurd (d.0 refl)
      go (c ∷ t) d = let h = d.1 in ground arith

  pub range_of_prefix :
      (p : Prefix) (v : Bool)
      → Range.range_of_trimmed (prefix_text p ++ optional_v v numbers)
        ≡ ok (Range.bound_range (prefix_text p ++ optional_v v numbers) (operator_of p) (x, y, z))
  unfolding Range.read_comparison is_digit
  range_of_prefix exact v = unfold Range.range_of_trimmed in rw (not_any v, exact_read v)
  range_of_prefix ge v =
      by_comparison b'>' (b'=' ∷ optional_v v numbers) Range.greater_equal v (omega arith)
        (omega arith) refl refl
  range_of_prefix gt v =
      by_comparison b'>' (optional_v v numbers) Range.greater v (omega arith) (omega arith) refl
        (read_single b'>' Range.greater v (λ d r h. ground arith))
  range_of_prefix le v =
      by_comparison b'<' (b'=' ∷ optional_v v numbers) Range.less_equal v (omega arith)
        (omega arith) refl refl
  range_of_prefix lt v =
      by_comparison b'<' (optional_v v numbers) Range.less v (omega arith) (omega arith) refl
        (read_single b'<' Range.less v (λ d r h. ground arith))
  range_of_prefix eq v =
      by_comparison b'=' (optional_v v numbers) Range.equal v (omega arith) (omega arith) refl
        (read_single b'=' Range.equal v (λ d r h. ground arith))
  range_of_prefix hat v =
      unfold Range.range_of_trimmed text_eq in
      rw (
        try_exact-fails b'^' (optional_v v numbers) (omega arith) refl,
        no_comparison b'^' (optional_v v numbers) (omega arith) (omega arith) (omega arith),
        by_mark b'^' Range.caret v,
      )
  range_of_prefix squiggle v =
      unfold Range.range_of_trimmed Range.try_marked text_eq read_byte in
      rw
        (
          try_exact-fails b'~' (optional_v v numbers) (omega arith) refl,
          no_comparison b'~' (optional_v v numbers) (omega arith) (omega arith) (omega arith),
        )
        (rw (bound_read v))
