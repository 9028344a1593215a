-- ===== src/Queue/Redis.antt =====
-- The Redis Streams queue, internal/queue/redis.go. The stream, its consumer group and the encoding of
-- JSON are parameters: a message is its id with its values, which Redis returns as texts.
pub mod Transfer
use route_ans.Prelude.{
  ℕ, ◌+◌, ◌*◌, ◌≡◌, Bool, true, false, ◌||◌, not, Option, none, some, List, [], ◌∷◌, ◌++◌, Text,
  codes, text_eq, Result, ok, err, if◌then◌else◌,
}
use route_ans.Prelude.Int.{ℤ, pos, ◌-ℤ◌}
use route_ans.Cache.Table.{lookup}
use route_ans.Queue.Event.{Event, EventMeta, Options, QueueStats}

pub record RedisQueueOptions : Type 0 where
  pub address : Text
  pub password : Text
  pub db : ℤ
  pub stream : Text
  pub consumer_group : Text
  pub consumer_name : Text
  pub block_timeout : ℤ
  pub batch_size : ℤ

-- `DefaultRedisQueueOptions`
unfoldable pub default_redis_queue_options : RedisQueueOptions
default_redis_queue_options = record {
  address = codes "localhost:6379";
  password = [];
  db = pos 0;
  stream = codes "ans:events";
  consumer_group = codes "resolver-group";
  consumer_name = codes "resolver-1";
  block_timeout = pos (5 * 1000000000);
  batch_size = pos 10;
}

-- The settings that `initProviders` puts into the map of the factory.
pub record QueueSettings : Type 0 where
  pub address : Text
  pub password : Text
  pub db : ℤ
  pub stream : Text

-- The factory that `init` registers: it keeps the stream and the group of the defaults.
unfoldable pub redis_queue_options : Options → QueueSettings → RedisQueueOptions
unfolding default_redis_queue_options
redis_queue_options opts settings = record default_redis_queue_options {
  address = settings.address;
  password = settings.password;
  db = settings.db;
  consumer_name = opts.consumer_name;
  block_timeout = opts.block_timeout;
  batch_size = opts.batch_size;
}

-- `redis.XMessage`
pub record Message : Type 0 where
  pub id : Text
  pub values : List (Text × Text)

abbrev pub empty_meta : EventMeta
empty_meta = record {
  description = [];
  capabilities = [];
  agent_card_url = [];
  capabilities_hash = [];
  protocols = [];
  endpoint = [];
}

abbrev pub is_nil {ℓ} : {A : Type ℓ} → List A → Bool
is_nil [] = true
is_nil (x ∷ l) = false

-- The metadata is sent if it has a description or a capability.
abbrev pub sends_meta : EventMeta → Bool
sends_meta m = not (is_nil m.description) || not (is_nil m.capabilities)

-- The values of `Publish`; `marshal` is `json.Marshal`, and `unix` prints the seconds of a time.
unfoldable pub publish_values : (EventMeta → Text) → (ℕ → Text) → Event → List (Text × Text)
publish_values marshal unix e =
    (codes "type", e.kind)
    ∷ (codes "ansName", e.ans_name)
    ∷ (codes "fqdn", e.fqdn)
    ∷ (codes "version", e.version)
    ∷ (codes "registrarId", e.registrar_id)
    ∷ (codes "signature", e.signature)
    ∷ (codes "timestamp", unix e.timestamp)
    ∷ (if sends_meta e.meta then (codes "meta", marshal e.meta) ∷ [] else [])

-- A field that is missing stays empty.
abbrev pub value_or_empty : Text → Message → Text
value_or_empty name m = elim (lookup name m.values) [ none ↦ [] | some v ↦ v ]

-- `parseMessage` at a time `now`; `unmarshal` is what `json.Unmarshal` leaves in an empty `EventMeta`.
unfoldable pub parse_message : (Text → EventMeta) → ℕ → Message → Event
parse_message unmarshal now m = record {
  id = m.id;
  kind = value_or_empty (codes "type") m;
  ans_name = value_or_empty (codes "ansName") m;
  fqdn = value_or_empty (codes "fqdn") m;
  version = value_or_empty (codes "version") m;
  timestamp = now;
  registrar_id = value_or_empty (codes "registrarId") m;
  signature = value_or_empty (codes "signature") m;
  meta = elim (lookup (codes "meta") m.values) [ none ↦ empty_meta | some v ↦ unmarshal v ];
  raw = [];
}

-- The errors of `Publish`.
pub data PublishError : Type 0 where
  queue_closed : PublishError
  not_added : PublishError

-- `redisQueue`, without its client and options; `acked` are the ids that `XAck` was called with.
pub record RedisQueue : Type 0 where
  pub closed : Bool
  pub processed : ℕ
  pub failed : ℕ
  pub last_event : ℕ
  pub acked : List Text

-- `NewRedisQueue`: a server that does not answer is an error, and a consumer group that cannot be made
-- is none. `create_group` is `XGroupCreateMkStream`, from the first message on.
unfoldable new_redis_queue :
    {R : Type 0}
    → (R → Bool)
    → (Text → Text → R → Option R)
    → RedisQueueOptions
    → R
    → R × Option RedisQueue
new_redis_queue ping create_group opts server =
    if ping server
    then (
      elim (create_group opts.stream opts.consumer_group server) [
        | none ↦ server
        | some created ↦ created
      ],
      some (record { closed = false; processed = 0; failed = 0; last_event = 0; acked = [] }),
    )
    else (server, none)

-- `Publish`; `xadd` is `XAdd` on the stream, which adds the values or fails.
unfoldable pub publish :
    {R : Type 0}
    → (EventMeta → Text)
    → (ℕ → Text)
    → (List (Text × Text) → R → Option R)
    → Event
    → RedisQueue
    → R
    → R × Option PublishError
publish marshal unix xadd e q stream =
    if q.closed
    then (stream, some queue_closed)
    else elim (xadd (publish_values marshal unix e) stream) [
      | none ↦ (stream, some not_added)
      | some added ↦ (added, none)
    ]

-- What the outer loop of `Subscribe` meets: a context that is done, a queue that was closed, or what
-- `XReadGroup` returned, each message with the time at which it is handled.
pub data Round : Type 0 where
  done : Round
  shut : Round
  no_messages : Round
  read_error : Round
  read : List (ℕ × Message) → Round

module _ {S : Type 0} (unmarshal : Text → EventMeta) (handler : Event → S → S × Bool) where
  -- What follows the handler.
  abbrev pub count_handled : ℕ → Text → RedisQueue → S × Bool → RedisQueue × S
  count_handled now id q (s, true) =
      (record q { processed = q.processed + 1; last_event = now; acked = q.acked ++ id ∷ [] }, s)
  count_handled now id q (s, false) = (record q { failed = q.failed + 1 }, s)

  -- A round of the inner loop of `Subscribe`.
  abbrev pub handle_message : ℕ → Message → RedisQueue × S → RedisQueue × S
  handle_message now m p = count_handled now m.id p.0 (handler (parse_message unmarshal now m) p.1)

  -- The inner loop.
  unfoldable pub handle_messages : List (ℕ × Message) → RedisQueue × S → RedisQueue × S
  handle_messages [] p = p
  handle_messages ((now, m) ∷ messages) p = handle_messages messages (handle_message now m p)

  -- `Subscribe` on the rounds to come; the loop has no other end than the first two.
  unfoldable pub subscribe : List Round → RedisQueue × S → RedisQueue × S
  subscribe [] p = p
  subscribe (done ∷ rounds) p = p
  subscribe (shut ∷ rounds) p = p
  subscribe (no_messages ∷ rounds) p = subscribe rounds p
  subscribe (read_error ∷ rounds) p = subscribe rounds p
  subscribe (read messages ∷ rounds) p = subscribe rounds (handle_messages messages p)

-- `Acknowledge`
abbrev acknowledge : Text → RedisQueue → RedisQueue
acknowledge id q = record q { acked = q.acked ++ id ∷ [] }

-- `Reject`
unfoldable pub reject : Text → Bool → RedisQueue → RedisQueue
reject id requeue q = if requeue then q else acknowledge id q

-- `Close`, and whether this call closes the client: the first one does, behind the last consumer.
unfoldable close : RedisQueue → RedisQueue × Bool
close q = if q.closed then (q, false) else (record q { closed = true }, true)

-- `Stats`, on the length of the stream and the number of pending messages, if Redis tells it.
unfoldable pub redis_stats : ℤ → Option ℤ → RedisQueue → QueueStats
redis_stats stream_length pending q = record {
  pending = elim pending [ none ↦ pos 0 | some n ↦ n ];
  processed = pos q.processed;
  failed = pos q.failed;
  consumer_lag = stream_length -ℤ pos q.processed;
  last_event_time = q.last_event;
}
