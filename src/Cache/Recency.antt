-- ===== src/Cache/Recency.antt =====
-- The list of `container/list` that orders the entries by recency, as the keys of its elements,
-- front first. Each element holds the entry of one key.
use route_ans.Prelude.{
  ◌+◌, ◌≡◌, ◌≢◌, refl, Bool, true, false, ◌||◌, Option, none, some, List, [], ◌∷◌, Text, text_eq,
  text_eq_iff, text_eq_refl, if◌then◌else◌, length, arith,
}

unfoldable pub member : Text → List Text → Bool
member k [] = false
member k (j ∷ l) = text_eq j k || member k l

-- `Remove` of the element that holds `k`.
unfoldable pub remove : Text → List Text → List Text
remove k [] = []
remove k (j ∷ l) = if text_eq j k then l else j ∷ remove k l

-- `MoveToFront` of the element that holds `k`: an element that is not in the list stays out.
unfoldable pub move_to_front : Text → List Text → List Text
move_to_front k l = if member k l then k ∷ remove k l else l

-- `Back`
unfoldable pub back : List Text → Option Text
back [] = none
back (j ∷ []) = some j
back (j ∷ i ∷ l) = back (i ∷ l)

-- No key twice.
abbrev pub Distinct : List Text → Type 0
Distinct [] = Unit
Distinct (j ∷ l) = (member j l ≡ false) × Distinct l

pub member-remove :
    (k j : Text) (l : List Text)
    → Distinct l
    → member j (remove k l) ≡ (if text_eq k j then false else member j l)
unfolding member remove
member-remove k j [] d = ground arith
member-remove k j (i ∷ l) d =
    ground (arith, text_eq_iff k j, text_eq_iff i k, text_eq_iff i j, member-remove k j l d.1)

pub remove-Distinct : (k : Text) (l : List Text) → Distinct l → Distinct (remove k l)
unfolding remove
remove-Distinct k [] d = tt
remove-Distinct k (i ∷ l) d =
    ground (arith, remove-Distinct k l d.1, member-remove k i l d.1, text_eq_iff k i)

pub length-remove :
    (k : Text) (l : List Text) → length (remove k l) + (if member k l then 1 else 0) ≡ length l
unfolding remove member
length-remove k [] = refl
length-remove k (i ∷ l) = ground (arith, length-remove k l)

pub member-move_to_front :
    (k j : Text) (l : List Text) → Distinct l → member j (move_to_front k l) ≡ member j l
unfolding move_to_front member
member-move_to_front k j l d = ground (arith, member-remove k j l d, text_eq_iff k j)

pub move_to_front-Distinct : (k : Text) (l : List Text) → Distinct l → Distinct (move_to_front k l)
unfolding move_to_front
move_to_front-Distinct k l d =
    ground (arith, remove-Distinct k l d, member-remove k k l d, text_eq_refl k)

pub length-move_to_front : (k : Text) (l : List Text) → length (move_to_front k l) ≡ length l
unfolding move_to_front
length-move_to_front k l = ground (arith, length-remove k l)

-- The back of a list that is not empty is in it.
pub back-member : (l : List Text) {k : Text} → back l ≡ some k → member k l ≡ true
unfolding back member
back-member [] h = cc
back-member (j ∷ []) {k} h = ground (arith, text_eq_refl k)
back-member (j ∷ i ∷ l) {k} h = ground (arith, back-member (i ∷ l) {k = k} h)

pub back_of_length : (l : List Text) → length l ≢ 0 → (k : Text) × (back l ≡ some k)
unfolding back
back_of_length [] h = absurd (h refl)
back_of_length (j ∷ []) h = (j, refl)
back_of_length (j ∷ i ∷ l) h = back_of_length (i ∷ l) (omega arith)
