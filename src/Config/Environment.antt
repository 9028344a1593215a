-- ===== src/Config/Environment.antt =====
-- `substituteEnvVars`: the pattern `\$\{([^}:]+)(?::([^}]*))?\}` as a reader over bytes, in which the
-- byte behind each repetition is outside the repeated class, so that a greedy reader finds the same.
pub mod Segments
use route_ans.Prelude.{
  ℕ, zero, suc, ◌+◌, ◌-◌, ◌≡◌, ◌≢◌, refl, sym, ap, ◌∙◌, Bool, true, false, ◌&&◌, ◌||◌, not, Option,
  none, some, List, [], ◌∷◌, ◌++◌, append_assoc, append-nil, Text, codes, ◌==◌, if◌then◌else◌,
  length, length-append, All, arith, Bool-cases,
}
use route_ans.Ansname.Patterns.{span}

-- `[^}:]`
abbrev pub name_byte : ℕ → Bool
name_byte b = not ((b == b'}') || (b == b':'))

-- `[^}]`
abbrev pub default_byte : ℕ → Bool
default_byte b = not (b == b'}')

-- A match: the name of the variable, its default, and the length of the match.
pub record Placeholder : Type 0 where
  pub name : Text
  pub default : Text
  pub size : ℕ

-- What closes the default, behind a name and the colon.
abbrev pub closed_default : Text → Text × Text → Option Placeholder
closed_default name (default, []) = none
closed_default name (default, c ∷ rest) =
    some (record { name = name; default = default; size = length name + length default + 4 })

-- What follows the name: nothing, a brace, or a colon and a default.
abbrev pub closed_name : Text × Text → Option Placeholder
closed_name ([], rest) = none
closed_name (c ∷ name, []) = none
closed_name (c ∷ name, d ∷ rest) =
    if d == b'}'
    then some (record { name = c ∷ name; default = []; size = length (c ∷ name) + 3 })
    else closed_default (c ∷ name) (span default_byte rest)

-- A match at the start of a text.
unfoldable pub placeholder : Text → Option Placeholder
placeholder [] = none
placeholder (c ∷ []) = none
placeholder (c ∷ d ∷ rest) =
    if (c == b'$') && (d == b'{') then closed_name (span name_byte rest) else none

-- `os.LookupEnv` of the variable, or the default.
abbrev pub replacement : (Text → Option Text) → Placeholder → Text
replacement env found = elim (env found.name) [ none ↦ found.default | some value ↦ value ]

-- `ReplaceAllStringFunc` behind `skip` bytes of a match.
unfoldable pub replace_from : (Text → Option Text) → ℕ → Text → Text
replace_from env skip [] = []
replace_from env (suc n) (c ∷ text) = replace_from env n text
replace_from env zero (c ∷ text) = elim (placeholder (c ∷ text)) [
  | none ↦ c ∷ replace_from env 0 text
  | some found ↦ replacement env found ++ replace_from env (found.size - 1) text
]

unfoldable pub substitute_env_vars : (Text → Option Text) → Text → Text
substitute_env_vars env text = replace_from env 0 text
