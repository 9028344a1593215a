-- ===== src/Server/Calls.antt =====
-- The server behind its routes: the handlers of internal/server/http.go as `routes` mounts them. A
-- reply is its code and the number of its bytes, which stands in the call.
pub mod Counted
use route_ans.Prelude.{ℕ, Bool, Option, List, [], ◌∷◌, Text, Result}
use route_ans.Prelude.Int.{ℤ}
use route_ans.Ansname.Parse.{Url}
use route_ans.Config.Types.{Config}
use route_ans.Registry.Record.{Adapter}
use route_ans.Resolver.Judge.{Verifier}
use route_ans.Resolver.Store.{Store}
use route_ans.Resolver.Types.{State, Clock, Config as ResolverConfig}
use route_ans.Server.Handlers.{handle_health, handle_ready, handle_stats, handle_resolve_batch}
use route_ans.Server.Metered.{Query, metered_resolve}
use route_ans.Server.Routing.{
  Endpoint, health, ready, metrics, swagger, resolve, resolve_batch, stats, Route, Request,
  answered, Outcome, Behind, serve,
}
use route_ans.Telemetry.Metrics.{Sample}

-- A request with all that is read on the way: the query, the decoded body, the clocks, the answer of
-- the registry's `Healthy`, the number of bytes that are written, the code that a handler of a package
-- outside the repository answers with, and the registry and the limiter as they answer then.
pub record Call : Type 0 where
  pub request : Request
  pub query : Query
  pub body : Option (List Text)
  pub clocks : ℕ → Clock
  pub healthy : Result Text Bool
  pub bytes : ℕ
  pub foreign_code : ℕ
  pub registry : Adapter
  pub lets_through : ℤ → ℤ → Bool

abbrev pub replied : ℕ → ℕ → List Sample → Outcome
replied code bytes samples = record { reply = answered code bytes; samples = samples }

module _ (cfg : ResolverConfig) (verifier : Option Verifier) {S : Type 0} (store : Store S)
    (url_parse : Text → Option Url)
    (match_route : List Route → Text → Text → Result (ℕ × ℕ) Endpoint) (valid_utf8 : Text → Bool)
    (refusal : ℕ × ℕ) (recover : Bool → Outcome → Outcome) where
  -- The handler of an endpoint.
  unfoldable pub handler : Call → Endpoint → State S → State S × Outcome
  handler call health s = (s, replied handle_health call.bytes [])
  handler call ready s = (s, replied (handle_ready call.healthy) call.bytes [])
  handler call metrics s = (s, replied call.foreign_code call.bytes [])
  handler call swagger s = (s, replied call.foreign_code call.bytes [])
  handler call resolve s =
      let p = metered_resolve cfg verifier store call.registry url_parse call.query s in
      (p.0, replied p.1.response.code call.bytes p.1.samples)
  handler call resolve_batch s =
      let p =
        handle_resolve_batch cfg verifier store call.registry url_parse call.clocks call.body s in
      (p.0, replied p.1.code call.bytes [])
  handler call stats s = (s, replied (handle_stats s).code call.bytes [])

  abbrev pub behind : Call → Behind (State S)
  behind call = record {
    match_route = match_route;
    lets_through = call.lets_through;
    valid_utf8 = valid_utf8;
    refusal = refusal;
    recover = recover;
    handle = λ endpoint req s. handler call endpoint s;
  }

  unfoldable pub serve_call : Config → Call → State S → State S × Outcome
  serve_call c call s = serve (behind call) call.request c s

  -- Calls, one after the other.
  unfoldable pub serve_calls : Config → List Call → State S → State S × List Outcome
  serve_calls c [] s = (s, [])
  serve_calls c (call ∷ calls) s =
      let first = serve_call c call s in
      let others = serve_calls c calls first.0 in (others.0, first.1 ∷ others.1)
