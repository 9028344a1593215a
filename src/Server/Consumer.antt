-- ===== src/Server/Consumer.antt =====
-- `processQueueEvents` of internal/server/http.go over the Redis Streams queue.
use route_ans.Prelude.{
  ℕ, ◌+◌, ◌≡◌, refl, ap, ◌∙◌, Bool, true, none, List, [], ◌∷◌, ◌++◌, Text, text_eq, text_eq_refl,
  length, arith, Bool-cases, inl, inr,
}
use route_ans.Cache.Table.{lookup}
use route_ans.Queue.Event.{Event, EventMeta}
use route_ans.Queue.Redis.{
  Message, RedisQueue, publish_values, parse_message, handle_message, handle_messages, Round,
  subscribe,
}
use route_ans.Queue.Redis.Transfer.{messages_of, handle_messages-append, subscribe-messages_of}
use route_ans.Resolver.Store.{Store, StoreLaws}
use route_ans.Resolver.Types.{State}
use route_ans.Resolver.Events.{handle_queue_event, queue_drops_entry}

module _ {S : Type 0} (store : Store S) where
  -- The handler of `processQueueEvents`. `handleQueueEvent` returns no error, so the handler never
  -- rejects; its own acknowledgement of the event repeats the one of the loop.
  unfoldable pub queue_handler : Event → State S → State S × Bool
  queue_handler e s = (handle_queue_event store e.kind e.ans_name s, true)

  -- `processQueueEvents` on the rounds to come of the queue's loop.
  abbrev pub process_queue_events :
      (Text → EventMeta) → List Round → RedisQueue × State S → RedisQueue × State S
  process_queue_events unmarshal rounds p = subscribe unmarshal queue_handler rounds p

  module _ (laws : StoreLaws store) (unmarshal : Text → EventMeta) where
    handled-none :
        (kind key j : Text) (t : ℕ) (s : State S)
        → store.in_view t s.cache j ≡ none
        → store.in_view t (handle_queue_event store kind key s).cache j ≡ none
    unfolding handle_queue_event
    handled-none kind key j t s h = elim (Bool-cases (queue_drops_entry kind)) [
      | inl listed ↦
          rw (handle_queue_event, listed) (ground (arith, laws.drop_view key s.cache t j))
      | inr other ↦ rw (handle_queue_event, other) h
    ]

    messages-none :
        (messages : List (ℕ × Message)) (p : RedisQueue × State S) (t : ℕ) (j : Text)
        → store.in_view t p.1.cache j ≡ none
        → store.in_view t (handle_messages unmarshal queue_handler messages p).1.cache j ≡ none
    unfolding handle_messages queue_handler
    messages-none [] p t j h = h
    messages-none ((now, m) ∷ messages) p t j h = messages-none messages _ t j (
        handled-none (parse_message unmarshal now m).kind (parse_message unmarshal now m).ans_name j
          t p.1 h)

    drops-none :
        (kind key : Text) (t : ℕ) (s : State S)
        → queue_drops_entry kind ≡ true
        → store.in_view t (handle_queue_event store kind key s).cache key ≡ none
    unfolding handle_queue_event
    drops-none kind key t s listed =
        rw (handle_queue_event, listed)
          (ground (arith, laws.drop_view key s.cache t key, text_eq_refl key))

    counted :
        (messages : List (ℕ × Message)) (p : RedisQueue × State S)
        → ((handle_messages unmarshal queue_handler messages p).0.processed
            ≡ p.0.processed + length messages)
          × ((handle_messages unmarshal queue_handler messages p).0.failed ≡ p.0.failed)
    unfolding handle_messages queue_handler
    counted [] p = (omega arith, refl)
    counted ((now, m) ∷ messages) p =
        let (a, b) = counted messages (handle_message unmarshal queue_handler now m p) in
        (omega arith, b)

    parsed :
        (marshal : EventMeta → Text) (unix : ℕ → Text) (now : ℕ) (id : Text) (e : Event)
        → ((parse_message unmarshal now
              (record { id = id; values = publish_values marshal unix e })).kind
            ≡ e.kind)
          × ((parse_message unmarshal now
                (record { id = id; values = publish_values marshal unix e })).ans_name
              ≡ e.ans_name)
    unfolding parse_message publish_values lookup text_eq
    parsed marshal unix now id e = (refl, refl)

    event-none :
        (message : ℕ × Message) (kind key : Text) (after : List (ℕ × Message))
        (p : RedisQueue × State S) (t : ℕ)
        → (parse_message unmarshal message.0 message.1).kind ≡ kind
        → (parse_message unmarshal message.0 message.1).ans_name ≡ key
        → queue_drops_entry kind ≡ true
        → store.in_view t (handle_messages unmarshal queue_handler (message ∷ after) p).1.cache key
          ≡ none
    unfolding handle_messages queue_handler
    event-none (now, m) kind key after p t a b listed =
        messages-none after _ t key (rw (a, b) (drops-none kind key t p.1 listed))

    -- When the server's processor has gone through the messages that the loop reads, among them one
    -- that `Publish` made of an event of a kind that drops an entry, then at no time an entry can be
    -- read under the name that the event was published with, whatever the other messages were; and
    -- every message that was read is counted as processed, none as failed.
    pub process_queue_events-drops :
        (marshal : EventMeta → Text) (unix : ℕ → Text) (now : ℕ) (id : Text) (e : Event)
        (before after : List (ℕ × Message)) (rounds : List Round) (q : RedisQueue) (s : State S)
        (t : ℕ)
        → messages_of rounds
          ≡ before ++ (now, record { id = id; values = publish_values marshal unix e }) ∷ after
        → queue_drops_entry e.kind ≡ true
        → (store.in_view t (process_queue_events unmarshal rounds (q, s)).1.cache e.ans_name ≡ none)
          × ((process_queue_events unmarshal rounds (q, s)).0.processed
              ≡ q.processed + length (messages_of rounds))
          × ((process_queue_events unmarshal rounds (q, s)).0.failed ≡ q.failed)
    process_queue_events-drops marshal unix now id e before after rounds q s t at listed =
        let message : ℕ × Message =
          (now, record { id = id; values = publish_values marshal unix e }) in
        let flat = subscribe-messages_of unmarshal queue_handler rounds (q, s) in
        let split : subscribe unmarshal queue_handler rounds (q, s)
            ≡ handle_messages unmarshal queue_handler (message ∷ after)
                (handle_messages unmarshal queue_handler before (q, s)) =
          flat
          ∙ ap (λ l. handle_messages unmarshal queue_handler l (q, s)) at
          ∙ handle_messages-append unmarshal queue_handler before (message ∷ after) (q, s) in
        let (kind, key) = parsed marshal unix now id e in
        let (all, none_failed) = counted (messages_of rounds) (q, s) in
        (
          rw split (event-none message e.kind e.ans_name after _ t kind key listed),
          rw flat all,
          rw flat none_failed,
        )
