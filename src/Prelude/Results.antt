-- ===== src/Prelude/Results.antt =====
-- A Go pair `(value, error)` as a value or an error, with its bind.
use mathlib.Core.Path.{◌≡◌, refl}
use mathlib.Core.Logic.{◌⊎◌, inl, inr}
use mathlib.Core.Bool.{Bool, true, false}

pub data Result {ℓ κ} (E : Type ℓ) (A : Type κ) : Type (ℓ ⊔ κ) where
  err : E → Result E A
  ok : A → Result E A

module _ {ℓ κ} {E : Type ℓ} {A : Type κ} where
  -- A result is a value or an error.
  pub Result-cases :
      (outcome : Result E A) → ((a : A) × (outcome ≡ ok a)) ⊎ ((e : E) × (outcome ≡ err e))
  Result-cases (err problem) = inr (problem, refl)
  Result-cases (ok value) = inl (value, refl)

  -- A result has one value, and no value where it is an error.
  pub same_ok : {m : Result E A} {a b : A} → m ≡ ok a → m ≡ ok b → b ≡ a
  same_ok h k = cc

  pub err-ne-ok : {m : Result E A} {e : E} {a : A} → m ≡ err e → m ≡ ok a → ⊥
  err-ne-ok h k = cc

  -- What follows a call is reached with its value only.
  infixl 5 ◌>>=◌
  abbrev pub ◌>>=◌ {μ} : {B : Type μ} → Result E A → (A → Result E B) → Result E B
  err problem >>= next = err problem
  ok value >>= next = next value

  -- A chain that succeeds hands its parts on to the rest of a proof.
  pub >>=-elim {μ ν} :
      {B : Type μ} {C : Type ν} (outcome : Result E A) (next : A → Result E B) {b : B}
      → (outcome >>= next) ≡ ok b
      → ((a : A) → outcome ≡ ok a → next a ≡ ok b → C)
      → C
  >>=-elim (err problem) next h use_parts = cc
  >>=-elim (ok value) next h use_parts = use_parts value refl h

module _ {ℓ} {E : Type ℓ} where
  -- `if !b { return nil, e }`
  abbrev pub require : Bool → E → Result E (Unit {0})
  require false problem = err problem
  require true problem = ok tt

  -- A check with nothing to hand on.
  infixl 5 ◌>>◌
  abbrev pub ◌>>◌ {κ} : {B : Type κ} → Result E (Unit {0}) → Result E B → Result E B
  check >> next = check >>= λ done. next

  pub require-eq-ok : (b : Bool) (problem : E) {u : Unit {0}} → require b problem ≡ ok u → b ≡ true
  require-eq-ok false problem h = cc
  require-eq-ok true problem h = refl
