-- ===== src/Tests/Queues.antt =====
-- The memory queue: internal/queue/memory.go.
use route_ans.Prelude.{◌≡◌, ◌≢◌, ◌↔◌, ◌⊎◌, refl, false, [], ◌∷◌}
use route_ans.Prelude.Int.{pos}
use route_ans.Queue.Memory.{
  send, new_memory_queue, System, system_start, after_send, taken, start_publish, select_send,
  subscribe, take, QueueReach, here, stepped,
}
use route_ans.Queue.Memory.Delivery.{Delivered, start-Delivered}
use route_ans.Queue.Memory.Closing.{CanPanic, panics-if_in_flight}
use route_ans.Tests.Handlers.{published}

queues : Unit {0}
unfolding send new_memory_queue
queues = tt

abbrev pending : System
pending = record (system_start (pos 4)) { publishing = published ∷ [] }

abbrev buffered : System
buffered = after_send published [] (send published pending.queue) pending

abbrev consumed : System
consumed = taken published [] 0 (record buffered { waiting = 1 })

run_consumed : QueueReach (system_start (pos 4)) consumed
unfolding queues
run_consumed =
    stepped
      (stepped
        (stepped (stepped here (start_publish published refl refl))
          (select_send published [] [] refl refl))
        (subscribe refl))
      (take published [] 0 refl refl refl)

start-Delivered_example : Delivered 4 consumed
unfolding queues
start-Delivered_example = start-Delivered (pos 4) consumed run_consumed

panics-if_in_flight_example :
    CanPanic consumed ↔ ((consumed.queue.closed ≡ false) ⊎ (consumed.publishing ≢ []))
unfolding queues
panics-if_in_flight_example = panics-if_in_flight (pos 4) consumed published run_consumed refl
