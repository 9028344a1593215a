-- ===== src/Config/Environment/Segments.antt =====
-- What the substitution does to a text of literals and variables.
use route_ans.Prelude.{
  ℕ, ◌+◌, ◌-◌, ◌≡◌, ◌≢◌, refl, ap, ◌∙◌, Bool, true, false, Option, none, some, List, [], ◌∷◌, ◌++◌,
  append_assoc, Text, ◌==◌, length, length-append, All, arith,
}
use route_ans.Ansname.Patterns.{span}
use route_ans.Config.Environment.{
  name_byte, default_byte, Placeholder, placeholder, replacement, replace_from, substitute_env_vars,
}

-- The parts of a text: bytes that are no dollar sign, and variables with or without a default.
pub data Segment : Type 0 where
  literal : Text → Segment
  variable : Text → Option Text → Segment

unfoldable pub render : Segment → Text
render (literal t) = t
render (variable name none) = b'$' ∷ b'{' ∷ (name ++ b'}' ∷ [])
render (variable name (some default)) = b'$' ∷ b'{' ∷ (name ++ (b':' ∷ (default ++ b'}' ∷ [])))

abbrev pub value_of : (Text → Option Text) → Text → Text → Text
value_of env name default = elim (env name) [ none ↦ default | some value ↦ value ]

unfoldable pub evaluate : (Text → Option Text) → Segment → Text
evaluate env (literal t) = t
evaluate env (variable name none) = value_of env name []
evaluate env (variable name (some default)) = value_of env name default

abbrev pub IsSegment : Segment → Type 0
IsSegment (literal t) = All (λ c. (c == b'$') ≡ false) t
IsSegment (variable name none) = (name ≢ []) × All (λ c. name_byte c ≡ true) name
IsSegment (variable name (some default)) =
    (name ≢ []) × All (λ c. name_byte c ≡ true) name × All (λ c. default_byte c ≡ true) default

unfoldable pub concat_map : (Segment → Text) → List Segment → Text
concat_map f [] = []
concat_map f (segment ∷ others) = f segment ++ concat_map f others

span-stop :
    (p : ℕ → Bool) (front rest : Text) (d : ℕ)
    → All (λ c. p c ≡ true) front
    → p d ≡ false
    → span p (front ++ d ∷ rest) ≡ (front, d ∷ rest)
unfolding span
span-stop p [] rest d h stop = rw stop refl
span-stop p (c ∷ front) rest d (first, h) stop = rw (span-stop p front rest d h stop, first) refl

replace-skip :
    (env : Text → Option Text) (front rest : Text)
    → replace_from env (length front) (front ++ rest) ≡ replace_from env 0 rest
unfolding replace_from
replace-skip env [] rest = refl
replace-skip env (c ∷ front) rest = replace-skip env front rest

placeholder-no_dollar : (c : ℕ) (rest : Text) → (c == b'$') ≡ false → placeholder (c ∷ rest) ≡ none
unfolding placeholder
placeholder-no_dollar c [] h = refl
placeholder-no_dollar c (d ∷ rest) h = rw h refl

replace-literal :
    (env : Text → Option Text) (t rest : Text)
    → All (λ c. (c == b'$') ≡ false) t
    → replace_from env 0 (t ++ rest) ≡ t ++ replace_from env 0 rest
unfolding replace_from
replace-literal env [] rest h = refl
replace-literal env (c ∷ t) rest (first, h) =
    rw (replace_from, placeholder-no_dollar c (t ++ rest) first)
      (ap (λ x. c ∷ x) (replace-literal env t rest h))

-- The bytes of a match behind its first are left out.
replace-rest :
    (env : Text → Option Text) (n : ℕ) (front rest : Text)
    → n ≡ length front
    → replace_from env n (front ++ rest) ≡ replace_from env 0 rest
replace-rest env n front rest e = rw e (replace-skip env front rest)

placeholder-bare :
    (name rest : Text)
    → name ≢ []
    → All (λ c. name_byte c ≡ true) name
    → placeholder (b'$' ∷ b'{' ∷ (name ++ b'}' ∷ rest))
      ≡ some (record { name = name; default = []; size = length name + 3 })
unfolding placeholder
placeholder-bare [] rest ne h = absurd (ne refl)
placeholder-bare (c ∷ name) rest ne h = rw (span-stop name_byte (c ∷ name) rest b'}' h refl) refl

placeholder-default :
    (name default rest : Text)
    → name ≢ []
    → All (λ c. name_byte c ≡ true) name
    → All (λ c. default_byte c ≡ true) default
    → placeholder (b'$' ∷ b'{' ∷ (name ++ (b':' ∷ (default ++ b'}' ∷ rest))))
      ≡ some (record { name = name; default = default; size = length name + length default + 4 })
unfolding placeholder
placeholder-default [] default rest ne h k = absurd (ne refl)
placeholder-default (c ∷ name) default rest ne h k =
    rw
      (
        span-stop name_byte (c ∷ name) (default ++ b'}' ∷ rest) b':' h refl,
        span-stop default_byte default rest b'}' k refl,
      )
      refl

-- A match at the start is replaced, and the substitution goes on behind it.
replace-match :
    (env : Text → Option Text) (c : ℕ) (front rest : Text) (found : Placeholder)
    → placeholder (c ∷ (front ++ rest)) ≡ some found
    → found.size ≡ length front + 1
    → replace_from env 0 (c ∷ (front ++ rest)) ≡ replacement env found ++ replace_from env 0 rest
unfolding replace_from
replace-match env c front rest found e size =
    rw (replace_from, e)
      (ap (λ t. replacement env found ++ t)
        (replace-rest env (found.size - 1) front rest (omega arith)))

replace-segment :
    (env : Text → Option Text) (segment : Segment) (rest : Text)
    → IsSegment segment
    → replace_from env 0 (render segment ++ rest) ≡ evaluate env segment ++ replace_from env 0 rest
unfolding render evaluate
replace-segment env (literal t) rest h = replace-literal env t rest h
replace-segment env (variable name none) rest (ne, h) =
    replace-match env b'$' (b'{' ∷ (name ++ b'}' ∷ [])) rest
      (record { name = name; default = []; size = length name + 3 })
      (rw (append_assoc name (b'}' ∷ []) rest) (placeholder-bare name rest ne h))
      (ground (arith, length-append name (b'}' ∷ [])))
replace-segment env (variable name (some default)) rest (ne, h, k) =
    replace-match env b'$' (b'{' ∷ (name ++ (b':' ∷ (default ++ b'}' ∷ [])))) rest
      (record { name = name; default = default; size = length name + length default + 4 })
      (rw
        (
          append_assoc name (b':' ∷ (default ++ b'}' ∷ [])) rest,
          append_assoc default (b'}' ∷ []) rest,
        )
        (placeholder-default name default rest ne h k))
      (ground (
        arith,
        length-append name (b':' ∷ (default ++ b'}' ∷ [])),
        length-append default (b'}' ∷ []),
      ))

-- In a text of literals without a dollar sign and of variables `${name}` and `${name:default}`, each
-- variable is replaced by its value in the environment, or by its default if it has no value there
-- (by nothing without a default), and everything else is kept.
pub substitute_env_vars-render :
    (env : Text → Option Text) (segments : List Segment)
    → All IsSegment segments
    → substitute_env_vars env (concat_map render segments) ≡ concat_map (evaluate env) segments
unfolding substitute_env_vars concat_map
substitute_env_vars-render env [] h = unfold replace_from in refl
substitute_env_vars-render env (segment ∷ others) (h, k) =
    replace-segment env segment (concat_map render others) h
    ∙ ap (λ t. evaluate env segment ++ t) (substitute_env_vars-render env others k)
