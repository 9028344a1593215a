-- ===== src/Server/Lifecycle.antt =====
-- `New`, `Start`, `startMetricsServer` and `Shutdown` of internal/server/http.go: what they start and
-- end, in the order of the code. Listening itself is I/O.
use route_ans.Prelude.{
  Bool, true, false, ◌&&◌, not, List, [], ◌∷◌, ◌++◌, Text, codes, Result, ok, err, if◌then◌else◌,
}
use route_ans.Prelude.Int.{ℤ, ◌==ℤ◌}
use route_ans.Config.Types.{Config}
use route_ans.Cache.Redis.{RedisOptions}
use route_ans.Queue.Redis.{RedisQueueOptions}
use route_ans.Server.Setup.{
  QueueChoice, no_queue, memory_queue, redis_queue, Providers, init_providers,
}
use route_ans.Telemetry.Metrics.{itoa}

pub data Part : Type 0 where
  cache_part queue_part registry_part : Part

pub data Action : Type 0 where
  serve_metrics : Text → Text → Action
  consume_queue : Action
  listen : Text → Action
  close : Part → Action
  stop_listening : ℤ → Action

-- `fmt.Sprintf("%s:%d", …)`
abbrev pub address : Text → ℤ → Text
address host port = host ++ b':' ∷ itoa port

abbrev pub has_queue : QueueChoice → Bool
has_queue no_queue = false
has_queue (memory_queue size) = true
has_queue (redis_queue options) = true

module _ {T : Type 0} where
  -- `New`, with the metrics of the server left out.
  unfoldable pub new_server :
      (RedisOptions → Bool)
      → (RedisQueueOptions → Bool)
      → (Text → Text → T)
      → T
      → Config
      → Result Text (Providers T)
  new_server ping_cache ping_queue new_file mock c =
      elim (init_providers ping_cache ping_queue new_file mock c) [
        | err e ↦ err (codes "failed to initialize providers: " ++ e)
        | ok p ↦ ok p
      ]

  -- `Start`; the two tasks before the listener run on their own.
  unfoldable pub start_server : Config → Providers T → List Action
  start_server c p =
      (if c.telemetry.metrics.enabled && not (c.telemetry.metrics.port ==ℤ c.server.port)
        then serve_metrics (address c.telemetry.metrics.host c.telemetry.metrics.port)
            c.telemetry.metrics.path
          ∷ []
        else [])
      ++ ((if has_queue p.queue then consume_queue ∷ [] else [])
          ++ listen (address c.server.host c.server.port) ∷ [])

  -- `Shutdown`, with the timeout of its context; an error of a `Close` is only logged.
  unfoldable pub shut_down : ℤ → Providers T → List Action
  shut_down timeout p =
      close cache_part
      ∷ ((if has_queue p.queue then close queue_part ∷ [] else [])
          ++ close registry_part ∷ stop_listening timeout ∷ [])
