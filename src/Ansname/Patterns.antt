-- ===== src/Ansname/Patterns.antt =====
-- The regular expressions of pkg/ansname, as readers over bytes. In each of them the character
-- behind a repetition is outside the repeated class, so a greedy reader accepts the same texts.
pub mod Digits
use route_ans.Prelude.{
  ℕ, ◌+◌, ◌-◌, ◌*◌, ◌≡◌, Bool, true, false, ◌&&◌, ◌||◌, Option, none, some, List, [], ◌∷◌, Text,
  ltb, leb, ◌==◌, if◌then◌else◌,
}
use route_ans.Prelude.Options.{◌>>=◌}

unfoldable pub is_digit : ℕ → Bool
is_digit c = leb b'0' c && leb c b'9'

abbrev pub is_lower : ℕ → Bool
is_lower c = leb b'a' c && leb c b'z'

abbrev pub is_upper : ℕ → Bool
is_upper c = leb b'A' c && leb c b'Z'

-- The longest prefix in a class of bytes, and the rest.
unfoldable pub span : (ℕ → Bool) → Text → Text × Text
span p [] = ([], [])
span p (c ∷ s) = let (front, rest) = span p s in if p c then (c ∷ front, rest) else ([], c ∷ s)

abbrev pub nonempty : Text × Text → Option (Text × Text)
nonempty ([], rest) = none
nonempty (c ∷ front, rest) = some (c ∷ front, rest)

-- `\d+`
unfoldable pub read_digits : Text → Option (Text × Text)
unfolding span is_digit
read_digits s = nonempty (span is_digit s)

-- one given byte
unfoldable pub read_byte : ℕ → Text → Option Text
read_byte b [] = none
read_byte b (c ∷ s) = if c == b then some s else none

-- a given byte or nothing, as in `v?`
unfoldable pub skip_byte : ℕ → Text → Text
skip_byte b [] = []
skip_byte b (c ∷ s) = if c == b then s else c ∷ s

-- `$`
abbrev pub at_end {ℓ} : {A : Type ℓ} → A → Text → Option A
at_end a [] = some a
at_end a (c ∷ s) = none

-- `(\d+)\.(\d+)\.(\d+)$`, with the three groups
unfoldable pub read_triple : Text → Option (Text × Text × Text)
read_triple s = do
  (major, s₁) ← read_digits s
  s₂ ← read_byte b'.' s₁
  (minor, s₃) ← read_digits s₂
  s₄ ← read_byte b'.' s₃
  (patch, s₅) ← read_digits s₄
  at_end (major, minor, patch) s₅

abbrev pub is_some {ℓ} : {A : Type ℓ} → Option A → Bool
is_some none = false
is_some (some a) = true

-- `^v\d+\.\d+\.\d+$`
unfoldable pub version_pattern : Text → Bool
version_pattern s = is_some (read_byte b'v' s >>= read_triple)

unfoldable pub all_bytes : (ℕ → Bool) → Text → Bool
all_bytes p [] = true
all_bytes p (c ∷ s) = p c && all_bytes p s

abbrev pub is_alphanumeric : ℕ → Bool
is_alphanumeric c = is_upper c || is_lower c || (leb b'0' c && leb c b'9')

-- `[A-Za-z0-9]+$`
unfoldable pub alphanumeric_suffix : Text → Bool
unfolding all_bytes
alphanumeric_suffix [] = false
alphanumeric_suffix (c ∷ s) = all_bytes is_alphanumeric (c ∷ s)

-- `^PID-[A-Za-z0-9]+$`
unfoldable pub provider_id_pattern : Text → Bool
provider_id_pattern s =
    elim (do
      s₁ ← read_byte b'P' s
      s₂ ← read_byte b'I' s₁
      s₃ ← read_byte b'D' s₂
      read_byte b'-' s₃) [ none ↦ false | some rest ↦ alphanumeric_suffix rest ]

abbrev pub is_protocol_byte : ℕ → Bool
is_protocol_byte c = is_lower c || (leb b'0' c && leb c b'9') || c == b'+' || c == b'.' || c == b'-'

-- `^[a-z][a-z0-9+.-]*$`
unfoldable pub protocol_pattern : Text → Bool
unfolding all_bytes
protocol_pattern [] = false
protocol_pattern (c ∷ s) = is_lower c && all_bytes is_protocol_byte s
