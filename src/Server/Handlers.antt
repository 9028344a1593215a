-- ===== src/Server/Handlers.antt =====
-- The handlers of internal/server/http.go.
use route_ans.Prelude.{
  ℕ, ◌+◌, Bool, true, false, Option, none, some, List, [], ◌∷◌, Text, codes, text_eq, Result, ok,
  err, if◌then◌else◌,
}
use route_ans.Models.{ResolutionRecord, status_revoked}
use route_ans.Ansname.Record.{AnsName}
use route_ans.Ansname.Parse.{Url, parse}
use route_ans.Cache.Table.{insert}
use route_ans.Registry.Record.{Adapter}
use route_ans.Resolver.Store.{Store}
use route_ans.Resolver.Types.{
  Config, State, Clock, ResolveError, agent_not_found, verification_failed,
}
use route_ans.Resolver.Judge.{Verifier}
use route_ans.Resolver.Request.{resolve, resolve_with_range}
use route_ans.Resolver.Verify.{Snapshot, snapshot}

-- `ResolutionResponse`, with the expiry as a time and without the message of an error.
pub record ResolutionResponse : Type 0 where
  pub status : Text
  pub agent : Text
  pub protocol : Text
  pub endpoint : Text
  pub cert_fingerprint : Text
  pub expires_at : ℕ
  pub protocol_extensions : List (Text × Text)
  pub cached : Bool
  pub failed : Bool

-- A status code with the response that comes with it; `none` is an `ErrorResponse`.
pub record Response (A : Type 0) : Type 0 where
  pub code : ℕ
  pub body : Option A

abbrev pub error_response : {A : Type 0} → ℕ → Response A
error_response code = record { code = code; body = none }

abbrev pub success : ResolutionRecord → ResolutionResponse
success r = record {
  status = r.status;
  agent = r.ans_name;
  protocol = r.protocol;
  endpoint = r.endpoint;
  cert_fingerprint = r.cert_fingerprint;
  expires_at = r.expires_at;
  protocol_extensions = r.protocol_extensions;
  cached = false;
  failed = false;
}

-- The status code of a failed resolution.
abbrev pub error_code : ResolveError → ℕ
error_code (agent_not_found name) = 404
error_code (verification_failed name status) = 422
error_code _ = 500

-- The end of `handleResolve`, on what the resolver returned.
abbrev pub respond : Result ResolveError ResolutionRecord → Response ResolutionResponse
respond (err e) = error_response (error_code e)
respond (ok r) =
    if text_eq r.status status_revoked
    then error_response 422
    else record { code = 200; body = some (success r) }

-- The status of an entry of a batch that failed.
abbrev pub error_status : ResolveError → Text
error_status (agent_not_found name) = codes "not_found"
error_status (verification_failed name status) = codes "verification_failed"
error_status _ = codes "error"

abbrev pub failed_entry : Text → ResolutionResponse
failed_entry status = record {
  status = status;
  agent = [];
  protocol = [];
  endpoint = [];
  cert_fingerprint = [];
  expires_at = 0;
  protocol_extensions = [];
  cached = false;
  failed = true;
}

-- An entry of a batch: its status says verified, whatever the status of the record.
abbrev pub entry_of : Result ResolveError ResolutionRecord → ResolutionResponse
entry_of (err e) = failed_entry (error_status e)
entry_of (ok r) = record (success r) { status = codes "verified"; protocol_extensions = [] }

-- The map of a batch's results.
abbrev pub Results : Type 0
Results = List (Text × ResolutionResponse)

-- `handleHealth`
abbrev pub handle_health : ℕ
handle_health = 200

-- `handleReady`, on the answer of the adapter's `Healthy`.
unfoldable pub handle_ready : Result Text Bool → ℕ
handle_ready (err e) = 503
handle_ready (ok healthy) = if healthy then 200 else 503

-- `handleStats`
unfoldable pub handle_stats : {S : Type 0} → State S → Response Snapshot
handle_stats s = record { code = 200; body = some (snapshot s.stats) }

abbrev pub answered :
    {S : Type 0}
    → State S × Result ResolveError ResolutionRecord
    → State S × Response ResolutionResponse
answered p = (p.0, respond p.1)

module _ (cfg : Config) (verifier : Option Verifier) {S : Type 0} (store : Store S)
    (registry : Adapter) (url_parse : Text → Option Url) where
  abbrev pub resolve_query :
      Clock → ℕ → AnsName → Text → State S → State S × Result ResolveError ResolutionRecord
  resolve_query clock latency name range s =
      if text_eq range []
      then resolve cfg verifier store registry clock name s
      else resolve_with_range cfg verifier store registry url_parse clock latency name range s

  -- `handleResolve`, on the `name` and `version` of the query; a missing one is empty.
  unfoldable pub handle_resolve :
      Clock → ℕ → Text → Text → State S → State S × Response ResolutionResponse
  handle_resolve clock latency text range s =
      if text_eq text [] then (s, error_response 400) else elim (parse url_parse text) [
        | err e ↦ (s, error_response 400)
        | ok name ↦ answered (resolve_query clock latency name range s)
      ]

  -- One round of the loop of `handleResolveBatch`.
  unfoldable pub batch_entry : Clock → Text → State S → State S × ResolutionResponse
  batch_entry clock text s = elim (parse url_parse text) [
    | err e ↦ (s, failed_entry (codes "error"))
    | ok name ↦
        let resolved = resolve cfg verifier store registry clock name s in
        (resolved.0, entry_of resolved.1)
  ]

  -- The loop of `handleResolveBatch`; each round reads its own clock.
  unfoldable pub batch_entries : (ℕ → Clock) → ℕ → List Text → State S → Results → State S × Results
  batch_entries clocks round [] s results = (s, results)
  batch_entries clocks round (text ∷ texts) s results =
      let entry = batch_entry (clocks round) text s in
      batch_entries clocks (round + 1) texts entry.0 (insert text entry.1 results)

  -- `handleResolveBatch` on the decoded body; `none` is a body that cannot be decoded.
  unfoldable pub handle_resolve_batch :
      (ℕ → Clock) → Option (List Text) → State S → State S × Response Results
  handle_resolve_batch clocks none s = (s, error_response 400)
  handle_resolve_batch clocks (some texts) s =
      let all = batch_entries clocks 0 texts s [] in
      (all.0, record { code = 200; body = some all.1 })
