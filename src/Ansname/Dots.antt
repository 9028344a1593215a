-- ===== src/Ansname/Dots.antt =====
-- `strings.Split(s, ".")` and `strings.Join(parts, ".")`.
use route_ans.Prelude.{
  ℕ, ◌≡◌, ◌≢◌, refl, List, [], ◌∷◌, ◌++◌, Text, ◌==◌, if◌then◌else◌, arith, All, Bool-cases, inl,
  inr,
}

-- A byte in front of the first part.
abbrev pub onto_first : ℕ → List Text → List Text
onto_first c [] = (c ∷ []) ∷ []
onto_first c (p ∷ ps) = (c ∷ p) ∷ ps

unfoldable pub split : Text → List Text
split [] = [] ∷ []
split (c ∷ s) = let rest = split s in if c == b'.' then [] ∷ rest else onto_first c rest

unfoldable pub join : List Text → Text
join [] = []
join (p ∷ []) = p
join (p ∷ q ∷ ps) = p ++ b'.' ∷ join (q ∷ ps)

-- No dot in the text.
abbrev pub NoDot : Text → Type 0
NoDot = All (λ c. c ≢ b'.')

onto_first-ne-nil : (c : ℕ) (ps : List Text) → onto_first c ps ≢ []
onto_first-ne-nil c [] h = cc
onto_first-ne-nil c (p ∷ ps) h = cc

pub split-ne-nil : (s : Text) → split s ≢ []
unfolding split
split-ne-nil [] h = cc
split-ne-nil (c ∷ s) h = ground (arith, onto_first-ne-nil c (split s))

pub join-onto_first : (c : ℕ) (ps : List Text) → ps ≢ [] → join (onto_first c ps) ≡ c ∷ join ps
unfolding join
join-onto_first c [] h = absurd (h refl)
join-onto_first c (p ∷ []) h = refl
join-onto_first c (p ∷ q ∷ ps) h = refl

pub join-cons : (p : Text) (ps : List Text) → ps ≢ [] → join (p ∷ ps) ≡ p ++ b'.' ∷ join ps
unfolding join
join-cons p [] h = absurd (h refl)
join-cons p (q ∷ ps) h = refl

-- Joining the parts of a text gives it back.
pub join-split : (s : Text) → join (split s) ≡ s
unfolding split
join-split [] = unfold join in refl
join-split (c ∷ s) = ground (
  arith,
  join-split s,
  split-ne-nil s,
  join-onto_first c (split s) (split-ne-nil s),
  join-cons [] (split s) (split-ne-nil s),
)

-- A part without a dot, and a dot behind it, are split off.
pub split-part : (p rest : Text) → NoDot p → split (p ++ b'.' ∷ rest) ≡ p ∷ split rest
unfolding split
split-part [] rest h = refl
split-part (c ∷ p) rest (ne, h) = ground (arith, split-part p rest h)

pub split-last : (p : Text) → NoDot p → split p ≡ p ∷ []
unfolding split
split-last [] h = refl
split-last (c ∷ p) (ne, h) = ground (arith, split-last p h)

onto_first-append :
    (c : ℕ) (ps qs : List Text) → ps ≢ [] → onto_first c (ps ++ qs) ≡ onto_first c ps ++ qs
onto_first-append c [] qs h = absurd (h refl)
onto_first-append c (p ∷ ps) qs h = refl

-- Splitting goes on behind a dot.
pub split-dot : (s t : Text) → split (s ++ b'.' ∷ t) ≡ split s ++ split t
unfolding split
split-dot [] t = refl
split-dot (c ∷ s) t =
    ground (arith, split-dot s t, onto_first-append c (split s) (split t) (split-ne-nil s))

onto_first-NoDot : (c : ℕ) (ps : List Text) → c ≢ b'.' → All NoDot ps → All NoDot (onto_first c ps)
onto_first-NoDot c [] ne h = ((ne, tt), tt)
onto_first-NoDot c (p ∷ ps) ne (h, hs) = ((ne, h), hs)

-- The parts hold no dot.
pub split-NoDot : (s : Text) → All NoDot (split s)
unfolding split
split-NoDot [] = (tt, tt)
split-NoDot (c ∷ s) = elim (Bool-cases (c == b'.')) [
  | inl dot ↦ rw dot (tt, split-NoDot s)
  | inr other ↦ rw other (onto_first-NoDot c (split s) (ground arith) (split-NoDot s))
]
