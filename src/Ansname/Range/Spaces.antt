-- ===== src/Ansname/Range/Spaces.antt =====
-- What `strings.TrimSpace` leaves of the texts that `ParseVersionRange` of pkg/ansname/version.go
-- reads.
use route_ans.Prelude.{
  ℕ, zero, suc, ◌<◌, ◌≡◌, ◌≢◌, refl, ap, subst, ◌∙◌, Bool, true, false, [], ◌∷◌, ◌++◌, append-nil,
  Text, arith, All,
}
use route_ans.Ansname.Patterns.Digits.{IsDigit}
use route_ans.Ansname.Range
use route_ans.Ansname.Range.Syntax.{Prefix, prefix_text, optional_v}

abbrev pub AreSpaces : Text → Type 0
AreSpaces = All (λ c. Range.is_space c ≡ true)

-- An ASCII character that is no space.
abbrev pub IsInk : ℕ → Type 0
IsInk c = (Range.is_space c ≡ false) × (c < 128)

ink_width : (c : ℕ) (s : Text) → IsInk c → Range.space_width (c ∷ s) ≡ 0
unfolding Range.space_width
ink_width c [] h = ground arith
ink_width c (d ∷ []) h = ground arith
ink_width c (d ∷ e ∷ s) h = ground arith

blank_width : (c : ℕ) (s : Text) → Range.is_space c ≡ true → Range.space_width (c ∷ s) ≡ 1
unfolding Range.space_width
blank_width c [] h = rw h refl
blank_width c (d ∷ []) h = rw h refl
blank_width c (d ∷ e ∷ s) h = rw h refl

-- The text is empty or starts with ink.
abbrev pub StartsInk : Text → Type 0
StartsInk [] = Unit
StartsInk (c ∷ s) = IsInk c

after_width : (c : ℕ) (s : Text) (n : ℕ) → Text
after_width c s zero = c ∷ s
after_width c s (suc k) = Range.trim_from k s

trim_left-ink : (c : ℕ) (s : Text) → IsInk c → Range.trim_left (c ∷ s) ≡ c ∷ s
unfolding Range.trim_from after_width
trim_left-ink c s h = ap (after_width c s) (ink_width c s h)

trim_left-blank :
    (c : ℕ) (s : Text) → Range.is_space c ≡ true → Range.trim_left (c ∷ s) ≡ Range.trim_left s
unfolding Range.trim_from after_width
trim_left-blank c s h = ap (after_width c s) (blank_width c s h)

pub trim_left-append : (b s : Text) → AreSpaces b → StartsInk s → Range.trim_left (b ++ s) ≡ s
unfolding Range.trim_from
trim_left-append [] [] h k = refl
trim_left-append [] (c ∷ s) h k = trim_left-ink c s k
trim_left-append (d ∷ b) s (p, h) k = trim_left-blank d (b ++ s) p ∙ trim_left-append b s h k

kept_or_dropped : (c : ℕ) (rest left : Text) → Text
kept_or_dropped c rest [] = []
kept_or_dropped c rest (d ∷ t) = c ∷ rest

pub trim_right_spaces : (b : Text) → AreSpaces b → Range.trim_right b ≡ []
unfolding Range.trim_right kept_or_dropped
trim_right_spaces [] h = refl
trim_right_spaces (c ∷ b) h =
    let none_left : Range.trim_left (c ∷ b) ≡ [] =
      subst (λ t. Range.trim_left t ≡ []) (append-nil (c ∷ b)) (trim_left-append (c ∷ b) [] h tt) in
    ap (kept_or_dropped c (Range.trim_right b)) none_left

trim_right-ink : (c : ℕ) (s : Text) → IsInk c → Range.trim_right (c ∷ s) ≡ c ∷ Range.trim_right s
unfolding Range.trim_right kept_or_dropped
trim_right-ink c s h = ap (kept_or_dropped c (Range.trim_right s)) (trim_left-ink c s h)

pub trim_right-append :
    (s t : Text) → All IsInk s → Range.trim_right (s ++ t) ≡ s ++ Range.trim_right t
unfolding Range.trim_right
trim_right-append [] t h = refl
trim_right-append (c ∷ s) t (p, h) =
    trim_right-ink c (s ++ t) p ∙ ap (λ r. c ∷ r) (trim_right-append s t h)

pub append-AllInk : (s t : Text) → All IsInk s → All IsInk t → All IsInk (s ++ t)
append-AllInk [] t h k = k
append-AllInk (c ∷ s) t (p, h) k = (p, append-AllInk s t h k)

pub digits-AllInk : (s : Text) → All IsDigit s → All IsInk s
digits-AllInk [] h = tt
digits-AllInk (c ∷ s) (p, h) = (ground arith, digits-AllInk s h)

pub prefix_text-AllInk : (p : Prefix) → All IsInk (prefix_text p)
prefix_text-AllInk Prefix.exact = tt
prefix_text-AllInk Prefix.ge = ground arith
prefix_text-AllInk Prefix.gt = ground arith
prefix_text-AllInk Prefix.le = ground arith
prefix_text-AllInk Prefix.lt = ground arith
prefix_text-AllInk Prefix.eq = ground arith
prefix_text-AllInk Prefix.hat = ground arith
prefix_text-AllInk Prefix.squiggle = ground arith

pub AllInk-StartsInk : (s t : Text) → s ≢ [] → All IsInk s → StartsInk (s ++ t)
AllInk-StartsInk [] t n h = absurd (n refl)
AllInk-StartsInk (c ∷ s) t n h = h.0

pub optional_v-AllInk : (v : Bool) (s : Text) → All IsInk s → All IsInk (optional_v v s)
optional_v-AllInk true s h = (ground arith, h)
optional_v-AllInk false s h = h

pub append-ne-empty : (s t : Text) → t ≢ [] → s ++ t ≢ []
append-ne-empty [] t n = n
append-ne-empty (c ∷ s) t n = λ e. cc
