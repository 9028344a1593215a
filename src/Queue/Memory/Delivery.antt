-- ===== src/Queue/Memory/Delivery.antt =====
-- What reaches the consumers of a memory queue.
use route_ans.Prelude.{
  ℕ, ◌+◌, ◌<◌, ◌≤◌, ◌≡◌, refl, sym, ap, ◌∙◌, ◌⊎◌, inl, inr, Bool, true, false, List, [], ◌∷◌, ◌++◌,
  if◌then◌else◌, append_assoc, ltb, ltb→lt, length, length-append, arith, Bool-cases,
}
use route_ans.Prelude.Int.{ℤ, pos, pos_part, ◌<ℤ◌}
use route_ans.Queue.Event.{Event, queue_full}
use route_ans.Queue.Memory.{
  MemoryQueue, new_memory_queue, panics, refused, accepted, send, System, system_start, after_send,
  taken, handled, QueueStep, start_publish, select_send, select_done, subscribe, take, finish,
  leave, flag, close, QueueReach, here, stepped,
}

-- A send panics on a closed channel, is refused on a full one, and else is at the end of the buffer.
pub send_lem :
    (e : Event) (q : MemoryQueue)
    → ((q.channel_closed ≡ true) × (send e q ≡ panics))
      ⊎ ((q.channel_closed ≡ false)
          × (q.capacity ≤ length q.buffer)
          × (send e q ≡ refused queue_full))
      ⊎ ((q.channel_closed ≡ false)
          × (length q.buffer < q.capacity)
          × (send e q ≡ accepted (record q { buffer = q.buffer ++ e ∷ [] })))
unfolding send
send_lem e q = elim (Bool-cases q.channel_closed) [
  | inl shut_now ↦ inl (shut_now, rw (send, shut_now) refl)
  | inr unshut ↦ elim (Bool-cases (ltb (length q.buffer) q.capacity)) [
    | inl room ↦ inr (inr (unshut, ltb→lt _ _ room, rw (send, unshut, room) refl))
    | inr full ↦ inr (inl (unshut, ground arith, rw (send, unshut, full) refl))
  ]
]

-- What went into the channel is what came out of it, in this order, and what is in the buffer, which is
-- never longer than the capacity; and what came out is counted, or is with a handler.
pub record Delivered (capacity : ℕ) (s : System) : Type 0 where
  pub in_order : s.sent ≡ s.received ++ s.queue.buffer
  pub same_capacity : s.queue.capacity ≡ capacity
  pub bounded : length s.queue.buffer ≤ capacity
  pub counted : length s.received ≡ s.queue.processed + s.queue.failed + length s.handling

-- It says nothing of the flags, the publishers and the waiting consumers.
other-Delivered :
    (c : ℕ) (s : System) (closed channel_closed closing panicked : Bool) (waiting : ℕ)
    (publishing : List Event)
    → Delivered c s
    → Delivered c (record s {
      queue = record s.queue { closed = closed; channel_closed = channel_closed };
      publishing = publishing;
      waiting = waiting;
      closing = closing;
      panicked = panicked;
    })
other-Delivered c s closed channel_closed closing panicked waiting publishing v = record {
  in_order = v.in_order;
  same_capacity = v.same_capacity;
  bounded = v.bounded;
  counted = v.counted;
}

accepted-Delivered :
    (c : ℕ) (e : Event) (others : List Event) (s : System)
    → Delivered c s
    → length s.queue.buffer < s.queue.capacity
    → Delivered c
        (after_send e others (accepted (record s.queue { buffer = s.queue.buffer ++ e ∷ [] })) s)
accepted-Delivered c e others s v room = record {
  in_order = ap (λ l. l ++ e ∷ []) v.in_order ∙ append_assoc s.received s.queue.buffer (e ∷ []);
  same_capacity = v.same_capacity;
  bounded = let same = v.same_capacity in ground (arith, length-append s.queue.buffer (e ∷ []));
  counted = v.counted;
}

send-Delivered :
    (c : ℕ) (e : Event) (others : List Event) (s : System)
    → Delivered c s
    → Delivered c (after_send e others (send e s.queue) s)
send-Delivered c e others s v = elim (send_lem e s.queue) [
  | inl (shut_now, at) ↦ rw at (other-Delivered c s _ _ _ _ _ _ v)
  | inr (inl (unshut, full, at)) ↦ rw at (other-Delivered c s _ _ _ _ _ _ v)
  | inr (inr (unshut, room, at)) ↦ rw at (accepted-Delivered c e others s v room)
]

taken-Delivered :
    (c : ℕ) (e : Event) (later : List Event) (waiting : ℕ) (s : System)
    → s.queue.buffer ≡ e ∷ later
    → Delivered c s
    → Delivered c (taken e later waiting s)
taken-Delivered c e later waiting s at v = record {
  in_order =
      v.in_order ∙ ap (λ l. s.received ++ l) at ∙ sym (append_assoc s.received (e ∷ []) later);
  same_capacity = v.same_capacity;
  bounded = let n = ap length at in let m = v.bounded in ground arith;
  counted = let k = v.counted in ground (arith, length-append s.received (e ∷ []));
}

handled-Delivered :
    (c : ℕ) (e : Event) (before after : List Event) (fine : Bool) (now : ℕ) (s : System)
    → s.handling ≡ before ++ e ∷ after
    → Delivered c s
    → Delivered c (handled fine now (before ++ after) s)
handled-Delivered c e before after fine now s at v =
    let split : length s.handling ≡ length (before ++ after) + 1 =
      ap length at ∙ ground (arith, length-append before (e ∷ after), length-append before after) in
    fine_or_not fine (ground arith)
  where
    fine_or_not :
        (b : Bool)
        → length s.received ≡ s.queue.processed + s.queue.failed + length (before ++ after) + 1
        → Delivered c (handled b now (before ++ after) s)
    fine_or_not true n = record {
      in_order = v.in_order;
      same_capacity = v.same_capacity;
      bounded = v.bounded;
      counted = ground arith;
    }
    fine_or_not false n = record {
      in_order = v.in_order;
      same_capacity = v.same_capacity;
      bounded = v.bounded;
      counted = ground arith;
    }

step-Delivered : (c : ℕ) (s t : System) → Delivered c s → QueueStep s t → Delivered c t
step-Delivered c s _ v (start_publish e run unshut) = other-Delivered c s _ _ _ _ _ _ v
step-Delivered c s _ v (select_send e before after run at) =
    send-Delivered c e (before ++ after) s v
step-Delivered c s _ v (select_done e before after run at) = other-Delivered c s _ _ _ _ _ _ v
step-Delivered c s _ v (subscribe run) = other-Delivered c s _ _ _ _ _ _ v
step-Delivered c s _ v (take e later waiting run at room) =
    taken-Delivered c e later waiting s room v
step-Delivered c s _ v (finish e before after fine now run at) =
    handled-Delivered c e before after fine now s at v
step-Delivered c s _ v (leave waiting run at) = other-Delivered c s _ _ _ _ _ _ v
step-Delivered c s _ v (flag run unshut) = other-Delivered c s _ _ _ _ _ _ v
step-Delivered c s _ v (close run at) = other-Delivered c s _ _ _ _ _ _ v

reach-Delivered : (c : ℕ) (s t : System) → Delivered c s → QueueReach s t → Delivered c t
reach-Delivered c s _ v here = v
reach-Delivered c s u v (stepped {t} r st) = step-Delivered c t u (reach-Delivered c s t v r) st

-- However publishers, consumers and `Close` interleave on a new queue, the events that went into the
-- channel are, in this order, those that consumers took and those in the buffer, so that each is taken
-- at most once and none is lost; the buffer never exceeds the capacity, which is the option
-- `BufferSize`, or 1000 where that is not positive; and the taken events are as many as those counted
-- as processed or failed and those with a handler.
pub start-Delivered :
    (size : ℤ) (s : System)
    → QueueReach (system_start size) s
    → Delivered (if pos 0 <ℤ size then pos_part size else 1000) s
unfolding new_memory_queue
start-Delivered size s r =
    reach-Delivered _ (system_start size) s
      (record {
        in_order = refl;
        same_capacity = refl;
        bounded = omega arith;
        counted = omega arith;
      })
      r
