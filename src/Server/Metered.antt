-- ===== src/Server/Metered.antt =====
-- What `handleResolve` and `handleQueueEvent` of internal/server/http.go record in the metrics.
pub mod Counting
use route_ans.Prelude.{
  ℕ, ◌+◌, Bool, true, false, Option, none, some, List, [], ◌∷◌, Text, codes, text_eq, Result, ok,
  err, if◌then◌else◌,
}
use route_ans.Models.{ResolutionRecord, status_revoked}
use route_ans.Ansname.Record.{AnsName}
use route_ans.Ansname.Parse.{Url, parse}
use route_ans.Registry.Record.{Adapter}
use route_ans.Resolver.Store.{Store}
use route_ans.Resolver.Types.{
  Config, State, Clock, ResolveError, agent_not_found, verification_failed,
}
use route_ans.Resolver.Judge.{Verifier}
use route_ans.Resolver.Events.{queue_drops_entry}
use route_ans.Server.Handlers.{ResolutionResponse, Response, error_response, respond, resolve_query}
use route_ans.Telemetry.Metrics.{Sample, record_resolution, record_queue_event}

-- The status that a resolution is recorded under.
abbrev pub outcome : Result ResolveError ResolutionRecord → Text
outcome (err (agent_not_found name)) = codes "not_found"
outcome (err (verification_failed name status)) = codes "verification_failed"
outcome (err e) = codes "error"
outcome (ok r) = if text_eq r.status status_revoked then codes "revoked" else codes "success"

-- What `handleQueueEvent` records of an event of a type.
unfoldable pub queue_event_samples : Text → List Sample
queue_event_samples kind =
    if queue_drops_entry kind
    then record_queue_event kind true
    else record_queue_event (codes "unknown") false

-- A request, with what it reads of the clock.
pub record Query : Type 0 where
  pub clock : Clock
  pub latency : ℕ
  pub name : Text
  pub version : Text
  pub duration : ℕ

-- A response with what was recorded on the way to it.
pub record Metered : Type 0 where
  pub response : Response ResolutionResponse
  pub samples : List Sample

module _ (cfg : Config) (verifier : Option Verifier) {S : Type 0} (store : Store S)
    (registry : Adapter) (url_parse : Text → Option Url) where
  -- `handleResolve` behind the call of the resolver: no recorded resolution is said to be a hit.
  abbrev pub metered_answer :
      Query → AnsName → State S × Result ResolveError ResolutionRecord → State S × Metered
  metered_answer q name p = (
    p.0,
    record {
      response = respond p.1;
      samples = record_resolution (outcome p.1) name.protocol q.duration false;
    },
  )

  -- `handleResolve`, with its metrics.
  unfoldable pub metered_resolve : Query → State S → State S × Metered
  metered_resolve q s =
      if text_eq q.name []
      then (s, record { response = error_response 400; samples = [] })
      else elim (parse url_parse q.name) [
        | err e ↦ (s, record { response = error_response 400; samples = [] })
        | ok name ↦
            metered_answer q name (
              resolve_query cfg verifier store registry url_parse q.clock q.latency name q.version
                s)
      ]

  -- Requests, one after the other.
  unfoldable pub metered_run : List Query → State S → State S × List Metered
  metered_run [] s = (s, [])
  metered_run (q ∷ queries) s =
      let first = metered_resolve q s in
      let others = metered_run queries first.0 in (others.0, first.1 ∷ others.1)
