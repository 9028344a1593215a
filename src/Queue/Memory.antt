-- ===== src/Queue/Memory.antt =====
-- The memory queue, internal/queue/memory.go: publishers, consumers and `Close` as one system, in
-- which a step is what one goroutine does to the shared queue without another in between.
pub mod Delivery
pub mod Closing
use route_ans.Prelude.{
  ℕ, ◌+◌, ◌<◌, ◌≤◌, ◌≡◌, Bool, true, false, Option, none, some, List, [], ◌∷◌, ◌++◌, if◌then◌else◌,
  ltb, length,
}
use route_ans.Prelude.Int.{ℤ, pos, negsuc, pos_part, ◌<ℤ◌}
use route_ans.Queue.Event.{Event, QueueStats, QueueError, queue_closed, queue_full, canceled}

-- `memoryQueue`: the channel is its buffered events, its capacity and whether `close` was called on it.
pub record MemoryQueue : Type 0 where
  pub buffer : List Event
  pub capacity : ℕ
  pub channel_closed : Bool
  pub closed : Bool
  pub processed : ℕ
  pub failed : ℕ
  pub last_event : ℕ

-- `NewMemoryQueue` on `opts.BufferSize`
unfoldable pub new_memory_queue : ℤ → MemoryQueue
new_memory_queue size = record {
  buffer = [];
  capacity = if pos 0 <ℤ size then pos_part size else 1000;
  channel_closed = false;
  closed = false;
  processed = 0;
  failed = 0;
  last_event = 0;
}

-- What the `select` of `Publish` does: a send on a closed channel panics.
pub data Sent : Type 0 where
  panics : Sent
  refused : QueueError → Sent
  accepted : MemoryQueue → Sent

-- The `select` of `Publish` with a context that is not done.
unfoldable pub send : Event → MemoryQueue → Sent
send e q =
    if q.channel_closed
    then panics
    else if ltb (length q.buffer) q.capacity
    then accepted (record q { buffer = q.buffer ++ e ∷ [] })
    else refused queue_full

-- What the handler of a consumer returned, at the time `now`.
abbrev pub count_event : Bool → ℕ → MemoryQueue → MemoryQueue
count_event true now q = record q { processed = q.processed + 1; last_event = now }
count_event false now q = record q { failed = q.failed + 1; last_event = now }

-- `Stats`
unfoldable pub stats : MemoryQueue → QueueStats
stats q = record {
  pending = pos (length q.buffer);
  processed = pos q.processed;
  failed = pos q.failed;
  consumer_lag = pos 0;
  last_event_time = q.last_event;
}

-- The goroutines on one queue: the events of the calls of `Publish` that have read `closed` as false,
-- the consumers that wait in their `select`, and the events that handlers work on. Whether a call of
-- `Close` is between its two statements is `closing`; `sent` and `received` record, in order, what
-- went into the channel and what came out of it.
pub record System : Type 0 where
  pub queue : MemoryQueue
  pub publishing : List Event
  pub waiting : ℕ
  pub handling : List Event
  pub closing : Bool
  pub panicked : Bool
  pub sent : List Event
  pub received : List Event

abbrev pub system_start : ℤ → System
system_start size = record {
  queue = new_memory_queue size;
  publishing = [];
  waiting = 0;
  handling = [];
  closing = false;
  panicked = false;
  sent = [];
  received = [];
}

-- The system after the `select` of a `Publish`, the events of the others being `others`.
abbrev pub after_send : Event → List Event → Sent → System → System
after_send e others panics s = record s { publishing = others; panicked = true }
after_send e others (refused problem) s = record s { publishing = others }
after_send e others (accepted q) s = record s {
  publishing = others;
  queue = q;
  sent = s.sent ++ e ∷ [];
}

-- The first statement of `Close` sets the flag, once.
abbrev pub flagged : System → System
flagged s = record s { queue = record s.queue { closed = true }; closing = true }

-- `close(q.buffer)`
abbrev pub shut : System → System
shut s = record s { queue = record s.queue { channel_closed = true }; closing = false }

abbrev pub taken : Event → List Event → ℕ → System → System
taken e later waiting s = record s {
  queue = record s.queue { buffer = later };
  waiting = waiting;
  handling = e ∷ s.handling;
  received = s.received ++ e ∷ [];
}

abbrev pub handled : Bool → ℕ → List Event → System → System
handled fine now others s = record s {
  queue = count_event fine now s.queue;
  waiting = s.waiting + 1;
  handling = others;
}

-- A step of one goroutine. After a panic the program has ended.
pub data QueueStep (s : System) : System → Type 0 where
  -- `Publish` reads `closed`.
  start_publish :
      (e : Event)
      → s.panicked ≡ false
      → s.queue.closed ≡ false
      → QueueStep s (record s { publishing = e ∷ s.publishing })
  -- Its `select` takes the case of the channel, or the default case.
  select_send :
      (e : Event) (before after : List Event)
      → s.panicked ≡ false
      → s.publishing ≡ before ++ e ∷ after
      → QueueStep s (after_send e (before ++ after) (send e s.queue) s)
  -- Its `select` takes the case of a context that is done.
  select_done :
      (e : Event) (before after : List Event)
      → s.panicked ≡ false
      → s.publishing ≡ before ++ e ∷ after
      → QueueStep s (after_send e (before ++ after) (refused canceled) s)
  -- `Subscribe` starts a consumer.
  subscribe : s.panicked ≡ false → QueueStep s (record s { waiting = s.waiting + 1 })
  -- A consumer takes the first event of the channel, which may be closed by then.
  take :
      (e : Event) (later : List Event) (waiting : ℕ)
      → s.panicked ≡ false
      → s.waiting ≡ waiting + 1
      → s.queue.buffer ≡ e ∷ later
      → QueueStep s (taken e later waiting s)
  -- Its handler returns, and it waits again.
  finish :
      (e : Event) (before after : List Event) (fine : Bool) (now : ℕ)
      → s.panicked ≡ false
      → s.handling ≡ before ++ e ∷ after
      → QueueStep s (handled fine now (before ++ after) s)
  -- It ends, for its context is done, or the channel is closed and empty.
  leave :
      (waiting : ℕ)
      → s.panicked ≡ false
      → s.waiting ≡ waiting + 1
      → QueueStep s (record s { waiting = waiting })
  -- `Close` wins the swap of `closed`, and closes the channel.
  flag : s.panicked ≡ false → s.queue.closed ≡ false → QueueStep s (flagged s)
  close : s.panicked ≡ false → s.closing ≡ true → QueueStep s (shut s)

pub data QueueReach (s : System) : System → Type 0 where
  here : QueueReach s s
  stepped : {t u : System} → QueueReach s t → QueueStep t u → QueueReach s u
