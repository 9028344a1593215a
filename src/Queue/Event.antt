-- ===== src/Queue/Event.antt =====
-- The events, options and statistics of a queue: internal/queue/interface.go.
use route_ans.Prelude.{ℕ, ◌*◌, List, Text, codes}
use route_ans.Prelude.Int.{ℤ, pos}

pub record EventMeta : Type 0 where
  pub description : Text
  pub capabilities : List Text
  pub agent_card_url : Text
  pub capabilities_hash : Text
  pub protocols : List Text
  pub endpoint : Text

-- `Event`; a time is a number of nanoseconds.
pub record Event : Type 0 where
  pub id : Text
  pub kind : Text
  pub ans_name : Text
  pub fqdn : Text
  pub version : Text
  pub timestamp : ℕ
  pub registrar_id : Text
  pub signature : Text
  pub meta : EventMeta
  pub raw : Text

-- `Stats`
pub record QueueStats : Type 0 where
  pub pending : ℤ
  pub processed : ℤ
  pub failed : ℤ
  pub consumer_lag : ℤ
  pub last_event_time : ℕ

-- `Options`
pub record Options : Type 0 where
  pub buffer_size : ℤ
  pub consumer_group : Text
  pub consumer_name : Text
  pub block_timeout : ℤ
  pub batch_size : ℤ
  pub retry_attempts : ℤ
  pub retry_delay : ℤ

-- `DefaultOptions`
unfoldable pub default_options : Options
default_options = record {
  buffer_size = pos 1000;
  consumer_group = codes "ans-resolver";
  consumer_name = codes "resolver-1";
  block_timeout = pos (5 * 1000000000);
  batch_size = pos 100;
  retry_attempts = pos 3;
  retry_delay = pos 1000000000;
}

-- The errors of `Publish`; `canceled` is the error of its context.
pub data QueueError : Type 0 where
  queue_closed : QueueError
  queue_full : QueueError
  canceled : QueueError
