-- ===== src/Ansname/Patterns/Digits.antt =====
-- Which texts the digit patterns accept, and what they capture.
use route_ans.Prelude.{
  ℕ, ◌≤◌, ◌≡◌, ◌≢◌, refl, inl, inr, ap, subst, true, false, some, [], ◌∷◌, ◌++◌, append-nil, Text,
  All, arith, Bool-cases, ==_iff,
}
use route_ans.Prelude.Options.{>>=-elim}
use route_ans.Ansname.Patterns.{
  is_digit, span, nonempty, read_digits, read_byte, at_end, read_triple,
}

abbrev pub IsDigit : ℕ → Type 0
IsDigit c = (b'0' ≤ c) × (c ≤ b'9')

-- One or more digits, and nothing else.
abbrev pub AreDigits : Text → Type 0
AreDigits s = (s ≢ []) × All IsDigit s

-- A text that a run of digits cannot go on into.
abbrev pub StopsDigits : Text → Type 0
StopsDigits [] = Unit
StopsDigits (c ∷ s) = is_digit c ≡ false

span-append :
    (ds rest : Text) → All IsDigit ds → StopsDigits rest → span is_digit (ds ++ rest) ≡ (ds, rest)
unfolding span
span-append [] [] h k = refl
span-append [] (c ∷ rest) h k = rw k refl
span-append (d ∷ ds) rest (p, h) k =
    let e : is_digit d ≡ true = unfold is_digit in ground arith in
    rw (span-append ds rest h k, e) refl

pub read_digits-append :
    (ds rest : Text) → AreDigits ds → StopsDigits rest → read_digits (ds ++ rest) ≡ some (ds, rest)
unfolding read_digits
read_digits-append [] rest (ne, h) k = absurd (ne refl)
read_digits-append (d ∷ ds) rest (ne, h) k = rw (span-append (d ∷ ds) rest h k) refl

span_sound :
    (s : Text)
    → (s ≡ (span is_digit s).0 ++ (span is_digit s).1)
      × All IsDigit (span is_digit s).0
      × StopsDigits (span is_digit s).1
unfolding span
span_sound [] = (refl, tt, tt)
span_sound (c ∷ s) = elim (Bool-cases (is_digit c)) [
  | inl digit ↦
      let (whole, digits, stops) = span_sound s in
      rw digit (ap (◌∷◌ c) whole, (unfold is_digit in ground arith, digits), stops)
  | inr stop ↦ rw stop (refl, tt, stop)
]

pub read_digits_whole : (ds : Text) → AreDigits ds → read_digits ds ≡ some (ds, [])
read_digits_whole ds h = let e = read_digits-append ds [] h tt in rw append-nil at e

nonempty-eq-some : (q : Text × Text) {p : Text × Text} → nonempty q ≡ some p → (q ≡ p) × (p.0 ≢ [])
nonempty-eq-some ([], rest) h = cc
nonempty-eq-some (c ∷ front, rest) h = (ground arith, λ e. ground arith)

pub read_digits_sound :
    (s : Text) {p : Text × Text} → read_digits s ≡ some p → (s ≡ p.0 ++ p.1) × AreDigits p.0
unfolding read_digits
read_digits_sound s {p} h =
    let (same, ne) = nonempty-eq-some (span is_digit s) h in
    let (whole, digits, _) = span_sound s in
    (rw (← same) whole, (ne, subst (λ q. All IsDigit q.0) same digits))

pub read_byte_sound : (b : ℕ) (s : Text) {r : Text} → read_byte b s ≡ some r → s ≡ b ∷ r
unfolding read_byte
read_byte_sound b [] h = cc
read_byte_sound b (c ∷ s) h = ground (arith, ==_iff c b)

pub read_byte-cons : (b : ℕ) (s : Text) → read_byte b (b ∷ s) ≡ some s
unfolding read_byte
read_byte-cons b s = ground arith

at_end_sound {ℓ} :
    {A : Type ℓ} (a : A) (s : Text) {b : A} → at_end a s ≡ some b → (a ≡ b) × (s ≡ [])
at_end_sound a [] h = (ground arith, refl)
at_end_sound a (c ∷ s) h = cc

-- three runs of digits with dots between them
abbrev pub dotted_triple : Text → Text → Text → Text
dotted_triple a b c = a ++ b'.' ∷ b ++ b'.' ∷ c

pub read_triple-dotted_triple :
    (a b c : Text)
    → AreDigits a
    → AreDigits b
    → AreDigits c
    → read_triple (a ++ b'.' ∷ (b ++ b'.' ∷ c)) ≡ some (a, b, c)
unfolding read_triple is_digit
read_triple-dotted_triple a b c ha hb hc = rw (
  read_digits-append a (b'.' ∷ (b ++ b'.' ∷ c)) ha refl,
  read_byte-cons,
  read_digits-append b (b'.' ∷ c) hb refl,
  read_byte-cons,
  read_digits_whole c hc,
)

pub read_triple_sound :
    (s : Text) {a b c : Text}
    → read_triple s ≡ some (a, b, c)
    → (s ≡ a ++ b'.' ∷ (b ++ b'.' ∷ c)) × AreDigits a × AreDigits b × AreDigits c
unfolding read_triple
read_triple_sound s h = >>=-elim (read_digits s) _ h λ p₁ e₁ h₁.
    >>=-elim (read_byte b'.' p₁.1) _ h₁ λ s₂ e₂ h₂. >>=-elim (read_digits s₂) _ h₂ λ p₃ e₃ h₃.
      >>=-elim (read_byte b'.' p₃.1) _ h₃ λ s₄ e₄ h₄. >>=-elim (read_digits s₄) _ h₄ λ p₅ e₅ h₅.
        ground (
          arith,
          read_digits_sound s e₁,
          read_byte_sound b'.' p₁.1 e₂,
          read_digits_sound s₂ e₃,
          read_byte_sound b'.' p₃.1 e₄,
          read_digits_sound s₄ e₅,
          at_end_sound (p₁.0, p₃.0, p₅.0) p₅.1 h₅,
          append-nil p₅.0,
        )
