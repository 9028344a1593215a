-- ===== src/Resolver/Parallel/Finishing.antt =====
-- That `ResolveBatch` of internal/resolver/resolver.go comes to its end: its goroutines wait for a
-- slot of the semaphore only.
use route_ans.Prelude.{
  ℕ, zero, suc, ◌+◌, ◌*◌, ◌≤◌, ◌<◌, ◌≡◌, ◌⊎◌, refl, sym, ◌∙◌, Option, none, some, arith, inl, inr,
}
use route_ans.Models.{ResolutionRecord}
use route_ans.Ansname.Record.{AnsName}
use route_ans.Registry.Record.{Adapter}
use route_ans.Resolver.Store.{Store}
use route_ans.Resolver.Types.{Config, State, Clock}
use route_ans.Resolver.Judge.{Verifier}
use route_ans.Resolver.Parallel.{
  Outcome, Phase, queued, admitted, searching, judged, resolved, done, Batch, batch_start, update,
  phase_of, read_step, BatchStep, acquire, read, look, write, release,
}
use route_ans.Resolver.Parallel.Slots.{
  parts_left, slots, slots-queued, slots-done, slots-parts_left, total, total-update, total-part,
  none_or_some, total-none,
}

module _ (cfg : Config) (verifier : Option Verifier) {S : Type 0} (store : Store S) (limit : ℕ)
    (names : ℕ → AnsName) where
  -- The goroutine that takes a step.
  unfoldable pub mover : (b b' : Batch S) → BatchStep cfg verifier store limit names b b' → ℕ
  mover b _ (acquire i at room) = i
  mover b _ (read i clock at) = i
  mover b _ (look i now registry at) = i
  mover b _ (write i clock m at) = i
  mover b _ (release i latency m at) = i

  -- The runs of a batch of `count` names, with the number of their steps.
  pub data Run (count : ℕ) (s : State S) : ℕ → Batch S → Type 0 where
    begun : Run count s 0 (batch_start s)
    stepped :
        {k : ℕ} {b b' : Batch S}
        → Run count s k b
        → (st : BatchStep cfg verifier store limit names b b') → mover b b' st < count
        → Run count s (suc k) b'

  -- What a step changes: one phase, by a part at least, and the slots that are in use.
  pub record Moved (i : ℕ) (b b' : Batch S) : Type 0 where
    pub to : Phase
    pub phases : b'.phase ≡ update b.phase i to
    pub part : parts_left to < parts_left (b.phase i)
    pub freed :
        slots (b.phase i) ≤ b.in_flight → b'.in_flight + slots (b.phase i) ≡ b.in_flight + slots to
    pub room : b.in_flight ≤ limit → b'.in_flight ≤ limit

  parts_left-phase_of :
      (found : Option ResolutionRecord)
      → (parts_left (phase_of cfg verifier store limit names found) < 4)
        × (slots (phase_of cfg verifier store limit names found) ≡ 1)
  unfolding parts_left slots
  parts_left-phase_of none = (omega arith, refl)
  parts_left-phase_of (some r) = (omega arith, refl)

  pub step-Moved :
      (b b' : Batch S) (st : BatchStep cfg verifier store limit names b b')
      → Moved (mover b b' st) b b'
  unfolding mover parts_left slots
  step-Moved b _ (acquire i at free) = record {
    to = admitted;
    phases = refl;
    part = rw at omega arith;
    freed = rw at λ h. omega arith;
    room = λ h. omega arith;
  }
  step-Moved b _ (read i clock at) =
      let found =
        parts_left-phase_of (read_step cfg verifier store limit names clock (names i) b.shared).1 in
      record {
        to = _;
        phases = refl;
        part = rw at found.0;
        freed = rw (at, found.1) λ h. refl;
        room = λ h. h;
      }
  step-Moved b _ (look i now registry at) = record {
    to = _;
    phases = refl;
    part = rw at omega arith;
    freed = rw at λ h. refl;
    room = λ h. h;
  }
  step-Moved b _ (write i clock m at) = record {
    to = _;
    phases = refl;
    part = rw at omega arith;
    freed = rw at λ h. refl;
    room = λ h. h;
  }
  step-Moved b _ (release i latency m at) = record {
    to = _;
    phases = refl;
    part = rw at omega arith;
    freed = rw at λ h. omega arith;
    room = λ h. omega arith;
  }

  -- What holds along a run of `count` names.
  record Going (count k : ℕ) (b : Batch S) : Type 0 where
    used : b.in_flight ≡ total slots b.phase count
    bounded : b.in_flight ≤ limit
    budget : k + total parts_left b.phase count ≤ 5 * count

  total-queued : (n : ℕ) → total parts_left (λ i. queued) n ≤ 5 * n
  unfolding total parts_left
  total-queued zero = omega arith
  total-queued (suc n) = let before = total-queued n in omega arith

  run-Going : (count : ℕ) (s : State S) (k : ℕ) (b : Batch S) → Run count s k b → Going count k b
  run-Going count s _ _ begun = record {
    used = sym (total-none slots (λ i. queued) count λ i h. slots-queued);
    bounded = omega arith;
    budget = let all = total-queued count in omega arith;
  }
  run-Going count s _ b' (stepped {k} {b} run st below) =
      let going = run-Going count s k b run in
      let moved = step-Moved b b' st in
      let i = mover b b' st in
      let held = total-part slots b.phase i count below in
      let parts = total-update parts_left b.phase i moved.to count below in
      let in_use = total-update slots b.phase i moved.to count below in
      let lower = moved.part in
      let used = going.used in
      let budget = going.budget in
      let freed = moved.freed (omega arith) in
      record {
        used = rw moved.phases omega arith;
        bounded = moved.room going.bounded;
        budget = rw moved.phases omega arith;
      }

  -- A next step of a batch, by one of its goroutines.
  abbrev pub Next : ℕ → Batch S → Type 0
  Next count b =
      (b' : Batch S) × (st : BatchStep cfg verifier store limit names b b') × (mover b b' st
        < count)

  abbrev pub AllDone : ℕ → Batch S → Type 0
  AllDone count b = (i : ℕ) → i < count → (m : Outcome) × (b.phase i ≡ done m)

  module _ (registry : Adapter) (clock : Clock) (count : ℕ) (b : Batch S) where
    -- A goroutine that is not done and holds a slot, or finds one free, can go on.
    goes_on :
        (i : ℕ) (p : Phase)
        → i < count
        → b.phase i ≡ p
        → 0 < parts_left p
        → (0 < slots p) ⊎ (b.in_flight < limit)
        → Next count b
    unfolding mover parts_left slots
    goes_on i queued h at left (inl held) = absurd (omega arith)
    goes_on i queued h at left (inr free) = (_, acquire i at free, h)
    goes_on i admitted h at left free = (_, read i clock at, h)
    goes_on i searching h at left free = (_, look i 0 registry at, h)
    goes_on i (judged m) h at left free = (_, write i clock m at, h)
    goes_on i (resolved m) h at left free = (_, release i 0 m at, h)
    goes_on i (done m) h at left free = absurd (omega arith)

    no_parts_left : (p : Phase) → parts_left p ≡ 0 → (m : Outcome) × (p ≡ done m)
    unfolding parts_left
    no_parts_left queued h = absurd (omega arith)
    no_parts_left admitted h = absurd (omega arith)
    no_parts_left searching h = absurd (omega arith)
    no_parts_left (judged m) h = absurd (omega arith)
    no_parts_left (resolved m) h = absurd (omega arith)
    no_parts_left (done m) h = (m, refl)

    goes_on_or_done :
        0 < limit → b.in_flight ≡ total slots b.phase count → AllDone count b ⊎ Next count b
    goes_on_or_done room used = elim (none_or_some slots b.phase count) [
      | inr (i, h, held) ↦
          inr (goes_on i (b.phase i) h refl (slots-parts_left (b.phase i) held) (inl held))
      | inl free ↦ elim (none_or_some parts_left b.phase count) [
        | inl nothing ↦ inl λ i h. no_parts_left (b.phase i) (nothing i h)
        | inr (i, h, left) ↦
            let none_used = total-none slots b.phase count free in
            inr (goes_on i (b.phase i) h refl left (inr (omega arith)))
      ]
    ]

  -- Each run of a batch of `count` names has at most five steps for each name. If the semaphore has
  -- a slot at all, a goroutine can go on from wherever a run stands, with any answer of the registry,
  -- or all the names are done; and then every slot is free again.
  pub batch-ends :
      (registry : Adapter) (clock : Clock) (count : ℕ) (s : State S) (k : ℕ) (b : Batch S)
      → 0 < limit
      → Run count s k b
      → (k ≤ 5 * count) × ((AllDone count b × (b.in_flight ≡ 0)) ⊎ Next count b)
  batch-ends registry clock count s k b room run =
      let going = run-Going count s k b run in
      let budget = going.budget in
      let used = going.used in
      (
        omega arith,
        elim (goes_on_or_done registry clock count b room used) [
          | inr next ↦ inr next
          | inl finished ↦ inl (
            finished,
            used
                ∙ total-none slots b.phase count
                    λ i h. let (m, e) = finished i h in rw e (slots-done m),
          )
        ],
      )
