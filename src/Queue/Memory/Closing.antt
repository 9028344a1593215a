-- ===== src/Queue/Memory/Closing.antt =====
-- When `Publish` can run into the closed channel.
use route_ans.Prelude.{
  ◌≡◌, ◌≢◌, ◌↔◌, refl, sym, ◌∙◌, ◌⊎◌, inl, inr, true, false, List, [], ◌∷◌, ◌++◌, arith, Bool-cases,
}
use route_ans.Prelude.Int.{ℤ}
use route_ans.Queue.Event.{Event}
use route_ans.Queue.Memory.{
  new_memory_queue, Sent, panics, refused, accepted, send, System, system_start, after_send,
  flagged, shut, QueueStep, start_publish, select_send, select_done, subscribe, take, finish, leave,
  flag, close, QueueReach, here, stepped,
}

-- Once `closed` is set, the channel is closed, or is going to be.
abbrev Flagged : System → Type 0
Flagged s = s.queue.closed ≡ true → (s.closing ≡ true) ⊎ (s.queue.channel_closed ≡ true)

after_send-flags :
    (e : Event) (others : List Event) (s : System) (m : Sent)
    → m ≡ send e s.queue
    → ((after_send e others m s).queue.closed ≡ s.queue.closed)
      × ((after_send e others m s).queue.channel_closed ≡ s.queue.channel_closed)
      × ((after_send e others m s).closing ≡ s.closing)
unfolding send
after_send-flags e others s panics h = (refl, refl, refl)
after_send-flags e others s (refused x) h = (refl, refl, refl)
after_send-flags e others s (accepted q) h = ground arith

step-Flagged : (s t : System) → Flagged s → QueueStep s t → Flagged t
step-Flagged s _ v (start_publish e run unshut) = v
step-Flagged s _ v (select_send e before after run at) = λ h.
    let (a, b, d) = after_send-flags e (before ++ after) s (send e s.queue) refl in
    elim (v (sym a ∙ h)) [ inl x ↦ inl (d ∙ x) | inr x ↦ inr (b ∙ x) ]
step-Flagged s _ v (select_done e before after run at) = v
step-Flagged s _ v (subscribe run) = v
step-Flagged s _ v (take e later waiting run at room) = v
step-Flagged s _ v (finish e before after true now run at) = v
step-Flagged s _ v (finish e before after false now run at) = v
step-Flagged s _ v (leave waiting run at) = v
step-Flagged s _ v (flag run unshut) = λ h. inl refl
step-Flagged s _ v (close run at) = λ h. inr refl

reach-Flagged : (s t : System) → Flagged s → QueueReach s t → Flagged t
reach-Flagged s _ v here = v
reach-Flagged s u v (stepped {t} r st) = step-Flagged t u (reach-Flagged s t v r) st

-- The queue is closed, and no call of `Publish` is between its two statements.
abbrev Quiet : System → Type 0
Quiet s = (s.queue.closed ≡ true) × (s.publishing ≡ []) × (s.panicked ≡ false)

no_publisher :
    (e : Event) (before after : List Event) {l : List Event} → l ≡ [] → l ≡ before ++ e ∷ after → ⊥
no_publisher e [] after {l} empty at = cc
no_publisher e (x ∷ before) after {l} empty at = cc

step-Quiet : (s t : System) → Quiet s → QueueStep s t → Quiet t
step-Quiet s _ (c, p, n) (start_publish e run unshut) = absurd (ground arith)
step-Quiet s _ (c, p, n) (select_send e before after run at) =
    absurd (no_publisher e before after p at)
step-Quiet s _ (c, p, n) (select_done e before after run at) =
    absurd (no_publisher e before after p at)
step-Quiet s _ (c, p, n) (subscribe run) = (c, p, n)
step-Quiet s _ (c, p, n) (take e later waiting run at room) = (c, p, n)
step-Quiet s _ (c, p, n) (finish e before after true now run at) = (c, p, n)
step-Quiet s _ (c, p, n) (finish e before after false now run at) = (c, p, n)
step-Quiet s _ (c, p, n) (leave waiting run at) = (c, p, n)
step-Quiet s _ (c, p, n) (flag run unshut) = (refl, p, n)
step-Quiet s _ (c, p, n) (close run at) = (c, p, n)

reach-Quiet : (s t : System) → Quiet s → QueueReach s t → Quiet t
reach-Quiet s _ v here = v
reach-Quiet s u v (stepped {t} r st) = step-Quiet t u (reach-Quiet s t v r) st

-- A panic is still to come in some interleaving.
abbrev pub CanPanic : System → Type 0
CanPanic s = (t : System) × QueueReach s t × (t.panicked ≡ true)

sent_late :
    (e : Event) (before after : List Event) (s : System)
    → s.panicked ≡ false
    → s.publishing ≡ before ++ e ∷ after
    → s.queue.channel_closed ≡ true
    → CanPanic s
unfolding send
sent_late e before after s run at late =
    (_, stepped here (select_send e before after run at), rw (send, late) refl)

step_first : {s t u : System} → QueueStep s t → QueueReach t u → QueueReach s u
step_first st here = stepped here st
step_first st (stepped r last) = stepped (step_first st r) last

step_to : {s t : System} → QueueStep s t → CanPanic t → CanPanic s
step_to st (u, r, p) = (u, step_first st r, p)

-- In flight when the flag is set: the channel is closed before the send.
in_flight-CanPanic :
    (e : Event) (others : List Event) (s : System)
    → Flagged s
    → s.panicked ≡ false
    → s.publishing ≡ e ∷ others
    → s.queue.closed ≡ true
    → CanPanic s
in_flight-CanPanic e others s v run at closed = elim (v closed) [
  | inl now ↦ step_to (close run now) (sent_late e [] others (shut s) run at refl)
  | inr late ↦ sent_late e [] others s run at late
]

unclosed-CanPanic :
    (e : Event) (s : System) → s.panicked ≡ false → s.queue.closed ≡ false → CanPanic s
unclosed-CanPanic e s run unshut = step_to (start_publish e run unshut) (
    step_to (flag run unshut) (
      step_to (close run refl) (
        sent_late e [] s.publishing (shut (flagged (record s { publishing = e ∷ s.publishing })))
          run refl refl)))

some_in_flight :
    (s : System) (l : List Event)
    → s.publishing ≡ l
    → s.publishing ≢ []
    → Flagged s
    → s.panicked ≡ false
    → s.queue.closed ≡ true
    → CanPanic s
some_in_flight s [] at ne v run closed = absurd (ne at)
some_in_flight s (e ∷ others) at ne v run closed = in_flight-CanPanic e others s v run at closed

Quiet-ne-CanPanic : (s : System) → Quiet s → CanPanic s → ⊥
Quiet-ne-CanPanic s v (t, r, p) = let (c, e, n) = reach-Quiet s t v r in ground arith

in_flight_of :
    (s : System) (l : List Event)
    → s.publishing ≡ l
    → s.panicked ≡ false
    → CanPanic s
    → (s.queue.closed ≡ false) ⊎ (s.publishing ≢ [])
in_flight_of s (e ∷ others) at run p = inr λ none_left. cc
in_flight_of s [] at run p = elim (Bool-cases s.queue.closed) [
  | inl closed ↦ absurd (Quiet-ne-CanPanic s (closed, at, run) p)
  | inr unshut ↦ inl unshut
]

-- On a queue that no panic has stopped, some interleaving leads to a `Publish` that panics by sending on
-- the closed channel exactly if `Close` has not set its flag yet, or a call of `Publish` is between its
-- test of the flag and its send.
pub panics-if_in_flight :
    (size : ℤ) (s : System)
    → Event
    → QueueReach (system_start size) s
    → s.panicked ≡ false
    → CanPanic s ↔ ((s.queue.closed ≡ false) ⊎ (s.publishing ≢ []))
unfolding new_memory_queue
panics-if_in_flight size s e r run =
    let v = reach-Flagged (system_start size) s (λ h. absurd (ground arith)) r in
    (
      in_flight_of s s.publishing refl run,
      elim [
        | inl unshut ↦ unclosed-CanPanic e s run unshut
        | inr ne ↦ elim (Bool-cases s.queue.closed) [
          | inl closed ↦ some_in_flight s s.publishing refl ne v run closed
          | inr unshut ↦ unclosed-CanPanic e s run unshut
        ]
      ],
    )
