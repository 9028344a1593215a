-- ===== src/Queue/Redis/Transfer.antt =====
-- What a Redis Streams queue carries from a publisher to a consumer.
use route_ans.Prelude.{
  ℕ, ◌≡◌, refl, sym, ◌∙◌, Bool, List, [], ◌∷◌, ◌++◌, Text, text_eq, if◌then◌else◌, Bool-cases, inl,
  inr,
}
use route_ans.Cache.Table.{lookup}
use route_ans.Queue.Event.{Event, EventMeta}
use route_ans.Queue.Redis.{
  Message, RedisQueue, empty_meta, sends_meta, publish_values, parse_message, handle_messages,
  subscribe, Round, done, shut, no_messages, read_error, read,
}

-- An event that is published and read at a time `now` comes with the id of its message, the time at
-- which it was read and no raw text; its metadata comes through, where JSON decodes what it encodes, if
-- it has a description or a capability, and else is empty; every other field is the one published.
pub parse_message-publish_values :
    (marshal : EventMeta → Text) (unmarshal : Text → EventMeta) (unix : ℕ → Text) (now : ℕ)
    (id : Text) (e : Event)
    → unmarshal (marshal e.meta) ≡ e.meta
    → parse_message unmarshal now (record { id = id; values = publish_values marshal unix e })
      ≡ record e {
        id = id;
        timestamp = now;
        meta = if sends_meta e.meta then e.meta else empty_meta;
        raw = [];
      }
unfolding parse_message publish_values lookup text_eq
parse_message-publish_values marshal unmarshal unix now id e round =
    elim (Bool-cases (sends_meta e.meta)) [
      | inl sent ↦ rw (sent, round) refl
      | inr unsent ↦ rw unsent refl
    ]

-- The messages that the loop reads before it ends.
unfoldable pub messages_of : List Round → List (ℕ × Message)
messages_of [] = []
messages_of (done ∷ rounds) = []
messages_of (shut ∷ rounds) = []
messages_of (no_messages ∷ rounds) = messages_of rounds
messages_of (read_error ∷ rounds) = messages_of rounds
messages_of (read messages ∷ rounds) = messages ++ messages_of rounds

module _ {S : Type 0} (unmarshal : Text → EventMeta) (handler : Event → S → S × Bool) where
  pub handle_messages-append :
      (l m : List (ℕ × Message)) (p : RedisQueue × S)
      → handle_messages unmarshal handler (l ++ m) p
        ≡ handle_messages unmarshal handler m (handle_messages unmarshal handler l p)
  unfolding handle_messages
  handle_messages-append [] m p = refl
  handle_messages-append ((now, x) ∷ l) m p = handle_messages-append l m _

  -- The rounds of the loop do with the messages what one round with all of them does.
  pub subscribe-messages_of :
      (rounds : List Round) (p : RedisQueue × S)
      → subscribe unmarshal handler rounds p
        ≡ handle_messages unmarshal handler (messages_of rounds) p
  unfolding subscribe messages_of
  subscribe-messages_of [] p = unfold handle_messages in refl
  subscribe-messages_of (done ∷ rounds) p = unfold handle_messages in refl
  subscribe-messages_of (shut ∷ rounds) p = unfold handle_messages in refl
  subscribe-messages_of (no_messages ∷ rounds) p = subscribe-messages_of rounds p
  subscribe-messages_of (read_error ∷ rounds) p = subscribe-messages_of rounds p
  subscribe-messages_of (read messages ∷ rounds) p =
      subscribe-messages_of rounds (handle_messages unmarshal handler messages p)
      ∙ sym (handle_messages-append messages (messages_of rounds) p)
