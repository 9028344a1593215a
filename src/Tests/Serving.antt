-- ===== src/Tests/Serving.antt =====
-- The process, its routes and its metrics: cmd/resolver/main.go, internal/server/http.go and
-- internal/telemetry/metrics.go.
use route_ans.Prelude.{
  ℕ, ◌≡◌, refl, Bool, not, true, false, none, some, List, [], ◌∷◌, Text, codes, text_eq, Result, ok,
  err, All, if◌then◌else◌,
}
use route_ans.Prelude.Int.{pos, negsuc}
use route_ans.Cache.Table.{Unique}
use route_ans.Command.{World, parsed, signalled}
use route_ans.Command.Exits.{Exits}
use route_ans.Resolver.Store.{memory_store, memory_store-StoreLaws}
use route_ans.Resolver.Types.{default_config}
use route_ans.Server.Calls.{Call, serve_calls}
use route_ans.Server.Calls.Counted.{EachOnce, serve_calls-Clean}
use route_ans.Resolver.Request.Strict.{Clean}
use route_ans.Server.Metered.{Query, metered_run}
use route_ans.Server.Metered.Counting.{Counted, handled_run, metered_run-Counted}
use route_ans.Server.Routing.{
  Route, Endpoint, Request, panicked, Outcome, Behind, Recovers, recovered, resolve,
}
use route_ans.Server.Routing.Recorded.{counted_requests, Recorded, serve-Recorded}
use route_ans.Telemetry.Metrics.{
  new_metrics, itoa, digits, record_resolution, record_registry_lookup, record_verification,
  record_http_request, record_queue_event, performed,
}
use route_ans.Telemetry.Metrics.Labels.{Fits, named, new_metrics-Fits}
use route_ans.Tests.Requests.{start, clock, registry, verifier, url_parse, strict_mode, start-Clean}
use route_ans.Tests.Settings.{zero_config}

decimal : itoa (pos 404) ≡ codes "404"
unfolding digits
decimal = refl

new_metrics-Fits_example :
    Unique (named [] [] (new_metrics [] []))
    × All (Fits [] []) (record_resolution (codes "success") (codes "mcp") 7 true)
    × All (Fits [] []) (record_registry_lookup (codes "mock") (codes "success") 7)
    × All (Fits [] []) (record_verification (codes "expiry") (codes "passed") 7)
    × All
        (Fits [] [])
        (record_http_request (codes "GET") (codes "/ready") (pos 503) 7 (negsuc 0) (pos 40))
    × All (Fits [] []) (record_queue_event (codes "revoked") false)
    × ((performed
          (λ t. false)
          (record_http_request (codes "GET") (codes "/ready") (pos 503) 7 (negsuc 0) (pos 40))).1
        ≡ false)
    × ((performed
          (λ t. false)
          (record_http_request (codes "GET") (codes "/ready") (pos 503) 7 (negsuc 0) (pos 40))).0
        ≡ [])
new_metrics-Fits_example =
    new_metrics-Fits [] [] (λ t. false) (codes "success") (codes "mcp") (codes "mock")
      (codes "expiry") (codes "passed") (codes "GET") (codes "/ready") (codes "revoked") 7 (pos 503)
      (negsuc 0) (pos 40) true false

-- A name that cannot be parsed, and no name.
abbrev queries : List Query
queries =
    record { clock = clock; latency = 3; name = codes "mcp://x"; version = []; duration = 5 }
    ∷ record { clock = clock; latency = 3; name = []; version = []; duration = 1 }
    ∷ []

metered_run-Counted_example :
    Counted
      (metered_run default_config (some verifier) memory_store registry url_parse queries start).1
      (handled_run default_config (some verifier) memory_store registry url_parse queries start).1
metered_run-Counted_example =
    metered_run-Counted default_config (some verifier) memory_store registry url_parse queries start

abbrev recover : Bool → Outcome → Outcome
recover upgrade o = record o { reply = recovered upgrade o.reply }

recover-Recovers : Recovers recover
recover-Recovers = λ upgrade reply l. refl

-- Any text but one with the single byte 255 behind a slash.
abbrev valid_utf8 : Text → Bool
valid_utf8 t = not (text_eq t (b'/' ∷ 255 ∷ []))

-- A router whose handler panics.
abbrev behind : Behind ℕ
behind = record {
  match_route = λ table method path. ok resolve;
  lets_through = λ requests window. true;
  refusal = (429, 17);
  recover = recover;
  valid_utf8 = valid_utf8;
  handle = λ e req s. (s, record { reply = panicked; samples = [] });
}

abbrev request : Request
request = record {
  method = codes "GET";
  path = codes "/v1/resolve";
  upgrade = false;
  content_length = pos 0;
  duration = 9;
}

serve-Recorded_example : Recorded behind request zero_config 7
unfolding counted_requests
serve-Recorded_example = serve-Recorded behind request recover-Recovers (λ e s. refl) zero_config 7

-- The endpoint is found by the path.
abbrev match_route : List Route → Text → Text → Result (ℕ × ℕ) Endpoint
match_route table method path =
    if text_eq path (codes "/v1/resolve") then ok resolve else err (404, 19)

abbrev call : Text → Call
call path = record {
  request = record request { path = path };
  query = record { clock = clock; latency = 3; name = codes "mcp://x"; version = []; duration = 5 };
  body = none;
  clocks = λ i. clock;
  healthy = ok true;
  bytes = 40;
  foreign_code = 200;
  registry = registry;
  lets_through = λ requests window. true;
}

serve_calls-Clean_example :
    Clean default_config verifier strict_mode memory_store memory_store-StoreLaws
      (serve_calls default_config
        (some verifier)
        memory_store
        url_parse
        match_route
        valid_utf8
        (429, 17)
        recover
        zero_config
        (call (codes "/v1/resolve") ∷ call (b'/' ∷ 255 ∷ []) ∷ [])
        start).0.cache
    × EachOnce valid_utf8
        (call (codes "/v1/resolve") ∷ call (b'/' ∷ 255 ∷ []) ∷ [])
        (serve_calls default_config
          (some verifier)
          memory_store
          url_parse
          match_route
          valid_utf8
          (429, 17)
          recover
          zero_config
          (call (codes "/v1/resolve") ∷ call (b'/' ∷ 255 ∷ []) ∷ [])
          start).1
serve_calls-Clean_example =
    serve_calls-Clean default_config verifier strict_mode memory_store memory_store-StoreLaws
      url_parse match_route valid_utf8 (429, 17) recover zero_config recover-Recovers
      (call (codes "/v1/resolve") ∷ call (b'/' ∷ 255 ∷ []) ∷ []) start start-Clean

abbrev world : World Text
world = record {
  flags = parsed false;
  file = some [];
  yaml = λ t. some zero_config;
  env = λ name. none;
  ping_cache = λ o. true;
  ping_queue = λ o. true;
  new_file = λ roots registrars. roots;
  mock = [];
  make_resource = λ name. true;
  make_exporter = λ endpoint insecure. true;
  ending = signalled;
  turns = true ∷ false ∷ [];
  stops_within = λ timeout. true;
}
