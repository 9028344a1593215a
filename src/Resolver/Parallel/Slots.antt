-- ===== src/Resolver/Parallel/Slots.antt =====
-- How many parts the goroutines of `ResolveBatch` of internal/resolver/resolver.go have before them,
-- and how many slots of the semaphore they hold.
use route_ans.Prelude.{ℕ, zero, suc, ◌+◌, ◌≤◌, ◌<◌, ◌≡◌, ◌≢◌, ◌⊎◌, refl, arith, inl, inr}
use route_ans.Resolver.Parallel.{
  Outcome, Phase, queued, admitted, searching, judged, resolved, done, update,
}

-- The parts that a goroutine has before it, at most.
unfoldable pub parts_left : Phase → ℕ
parts_left queued = 5
parts_left admitted = 4
parts_left searching = 3
parts_left (judged m) = 2
parts_left (resolved m) = 1
parts_left (done m) = 0

-- The slots that a goroutine holds.
unfoldable pub slots : Phase → ℕ
slots queued = 0
slots admitted = 1
slots searching = 1
slots (judged m) = 1
slots (resolved m) = 1
slots (done m) = 0

pub slots-queued : slots queued ≡ 0
unfolding slots
slots-queued = refl

pub slots-done : (m : Outcome) → slots (done m) ≡ 0
unfolding slots
slots-done m = refl

pub slots-parts_left : (p : Phase) → 0 < slots p → 0 < parts_left p
unfolding slots parts_left
slots-parts_left queued h = omega arith
slots-parts_left admitted h = omega arith
slots-parts_left searching h = omega arith
slots-parts_left (judged m) h = omega arith
slots-parts_left (resolved m) h = omega arith
slots-parts_left (done m) h = omega arith

-- The sum over the goroutines below a number.
unfoldable pub total : (Phase → ℕ) → (ℕ → Phase) → ℕ → ℕ
total g phase zero = 0
total g phase (suc n) = total g phase n + g (phase n)

update_off : (phase : ℕ → Phase) (i : ℕ) (p : Phase) (j : ℕ) → i ≢ j → update phase i p j ≡ phase j
update_off phase i p j n = ground arith

update_at : (phase : ℕ → Phase) (i : ℕ) (p : Phase) → update phase i p i ≡ p
update_at phase i p = ground arith

less_or_last : (i n : ℕ) → i < suc n → (i < n) ⊎ (i ≡ n)
less_or_last i n h = ground arith

pub total-update_beyond :
    (g : Phase → ℕ) (phase : ℕ → Phase) (i : ℕ) (p : Phase) (n : ℕ)
    → n ≤ i
    → total g (update phase i p) n ≡ total g phase n
unfolding total
total-update_beyond g phase i p zero h = refl
total-update_beyond g phase i p (suc n) h =
    let before = total-update_beyond g phase i p n (omega arith) in
    rw (update_off phase i p n (λ e. omega arith), before) refl

pub total-update :
    (g : Phase → ℕ) (phase : ℕ → Phase) (i : ℕ) (p : Phase) (n : ℕ)
    → i < n
    → total g (update phase i p) n + g (phase i) ≡ total g phase n + g p
unfolding total
total-update g phase i p zero h = omega arith
total-update g phase i p (suc n) h = elim (less_or_last i n h) [
  | inl below ↦
      let before = total-update g phase i p n below in
      rw (update_off phase i p n λ e. omega arith) omega arith
  | inr last ↦
      let before = total-update_beyond g phase i p n (omega arith) in
      rw (before, last, update_at phase n p) omega arith
]

pub total-part :
    (g : Phase → ℕ) (phase : ℕ → Phase) (i n : ℕ) → i < n → g (phase i) ≤ total g phase n
unfolding total
total-part g phase i zero h = omega arith
total-part g phase i (suc n) h = elim (less_or_last i n h) [
  | inl below ↦ let before = total-part g phase i n below in omega arith
  | inr last ↦ rw last omega arith
]

zero_or_more : (n : ℕ) → (n ≡ 0) ⊎ (0 < n)
zero_or_more n = ground arith

-- Each goroutine has nothing of what is counted, or one of them has some.
pub none_or_some :
    (g : Phase → ℕ) (phase : ℕ → Phase) (n : ℕ)
    → ((i : ℕ) → i < n → g (phase i) ≡ 0) ⊎ ((i : ℕ) × (i < n) × (0 < g (phase i)))
none_or_some g phase zero = inl λ i h. omega arith
none_or_some g phase (suc n) = elim (none_or_some g phase n) [
  | inr (i, h, p) ↦ inr (i, omega arith, p)
  | inl none_below ↦ elim (zero_or_more (g (phase n))) [
    | inr more ↦ inr (n, omega arith, more)
    | inl nothing ↦ inl λ i h. elim (less_or_last i n h) [
      | inl below ↦ none_below i below
      | inr last ↦ rw last nothing
    ]
  ]
]

pub total-none :
    (g : Phase → ℕ) (phase : ℕ → Phase) (n : ℕ)
    → ((i : ℕ) → i < n → g (phase i) ≡ 0)
    → total g phase n ≡ 0
unfolding total
total-none g phase zero h = refl
total-none g phase (suc n) h =
    let before = total-none g phase n (λ i l. h i (omega arith)) in
    rw (before, h n (omega arith)) refl

total_monotone :
    (g : Phase → ℕ) (phase : ℕ → Phase) (n m : ℕ) → n ≤ m → total g phase n ≤ total g phase m
unfolding total
total_monotone g phase n zero h = let none : n ≡ 0 = omega arith in rw none omega arith
total_monotone g phase n (suc m) h = elim (less_or_last n (suc m) (omega arith)) [
  | inl below ↦ let before = total_monotone g phase n m (omega arith) in omega arith
  | inr last ↦ rw last omega arith
]

-- What is counted below a goroutine is counted up to it, beside its own.
pub total-beside :
    (g : Phase → ℕ) (phase : ℕ → Phase) (i n : ℕ)
    → n ≤ i
    → total g phase n + g (phase i) ≤ total g phase (suc i)
unfolding total
total-beside g phase i n h = let before = total_monotone g phase n i h in omega arith
