-- ===== src/Telemetry/Metrics.antt =====
-- internal/telemetry/metrics.go. A method is the list of the calls that it makes of the Prometheus
-- client: increments and observations of a metric under values for its labels. Of the client itself
-- only its panic on a value that is not valid UTF-8 is modelled, as the end of the calls.
pub mod Labels
use route_ans.Prelude.{
  ℕ, zero, suc, ◌+◌, ◌/◌, ◌%◌, Bool, true, false, ◌&&◌, List, [], ◌∷◌, ◌++◌, Text, codes, text_eq,
  ltb, if◌then◌else◌,
}
use route_ans.Prelude.Int.{ℤ, pos, negsuc}

-- The fields of `Metrics`
pub data Metric : Type 0 where
  resolution_total resolution_duration resolution_cache_hits resolution_cache_miss : Metric
  registry_lookups registry_duration registry_errors : Metric
  verification_total verification_duration : Metric
  cache_size cache_evictions : Metric
  http_requests_total http_request_duration http_request_size http_response_size : Metric
  queue_pending queue_processed queue_failed : Metric

pub data Kind : Type 0 where
  counter counter_vec histogram_vec gauge : Kind

-- `CounterOpts` and the like, without help texts and buckets.
pub record Opts : Type 0 where
  pub kind : Kind
  pub namespace : Text
  pub subsystem : Text
  pub name : Text
  pub labels : List Text

abbrev or_default : Text → Text → Text
or_default text default = if text_eq text [] then default else text

module _ (namespace subsystem : Text) where
  abbrev opts : Kind → Text → List Text → Opts
  opts kind name labels = record {
    kind = kind;
    namespace = or_default namespace (codes "ans");
    subsystem = or_default subsystem (codes "resolver");
    name = name;
    labels = labels;
  }

  -- The field that `NewMetrics` makes.
  unfoldable pub declared : Metric → Opts
  declared resolution_total =
      opts counter_vec (codes "resolution_total") (codes "status" ∷ codes "protocol" ∷ [])
  declared resolution_duration =
      opts histogram_vec (codes "resolution_duration_seconds")
        (codes "status" ∷ codes "cache_hit" ∷ [])
  declared resolution_cache_hits = opts counter (codes "resolution_cache_hits_total") []
  declared resolution_cache_miss = opts counter (codes "resolution_cache_misses_total") []
  declared registry_lookups =
      opts counter_vec (codes "registry_lookups_total") (codes "registry" ∷ codes "status" ∷ [])
  declared registry_duration =
      opts histogram_vec (codes "registry_lookup_duration_seconds") (codes "registry" ∷ [])
  declared registry_errors =
      opts counter_vec (codes "registry_errors_total") (codes "registry" ∷ codes "error_type" ∷ [])
  declared verification_total =
      opts counter_vec (codes "verification_total") (codes "check" ∷ codes "result" ∷ [])
  declared verification_duration =
      opts histogram_vec (codes "verification_duration_seconds") (codes "check" ∷ [])
  declared cache_size = opts gauge (codes "cache_size") []
  declared cache_evictions = opts counter (codes "cache_evictions_total") []
  declared http_requests_total =
      opts counter_vec (codes "http_requests_total")
        (codes "method" ∷ codes "path" ∷ codes "status" ∷ [])
  declared http_request_duration =
      opts histogram_vec (codes "http_request_duration_seconds")
        (codes "method" ∷ codes "path" ∷ [])
  declared http_request_size =
      opts histogram_vec (codes "http_request_size_bytes") (codes "method" ∷ codes "path" ∷ [])
  declared http_response_size =
      opts histogram_vec (codes "http_response_size_bytes") (codes "method" ∷ codes "path" ∷ [])
  declared queue_pending = opts gauge (codes "queue_pending") []
  declared queue_processed = opts counter (codes "queue_processed_total") []
  declared queue_failed = opts counter (codes "queue_failed_total") []

  abbrev declared_all : List Metric → List Opts
  declared_all [] = []
  declared_all (m ∷ metrics) = declared m ∷ declared_all metrics

  -- The registrations of `NewMetrics`, in their order.
  unfoldable pub new_metrics : List Opts
  new_metrics = declared_all (
      resolution_total ∷ resolution_duration ∷ resolution_cache_hits ∷ resolution_cache_miss
      ∷ registry_lookups ∷ registry_duration ∷ registry_errors ∷ verification_total
      ∷ verification_duration ∷ cache_size ∷ cache_evictions ∷ http_requests_total
      ∷ http_request_duration ∷ http_request_size ∷ http_response_size ∷ queue_pending
      ∷ queue_processed ∷ queue_failed ∷ [])

-- `WithLabelValues(…).Inc()` and `.Observe(…)`; a metric without labels has no values.
pub data Sample : Type 0 where
  increment : Metric → List Text → Sample
  observe : Metric → List Text → ℤ → Sample

-- The values that a call has for the labels.
abbrev pub label_values : Sample → List Text
label_values (increment m values) = values
label_values (observe m values x) = values

abbrev pub all_valid : (Text → Bool) → List Text → Bool
all_valid valid [] = true
all_valid valid (v ∷ values) = valid v && all_valid valid values

-- Calls of the client, one after the other: those that were made, and whether all of them were. A call
-- with a value that is not valid UTF-8 panics, and no further call is made; `valid` is
-- `utf8.ValidString`, which the client calls.
unfoldable pub performed : (Text → Bool) → List Sample → List Sample × Bool
performed valid [] = ([], true)
performed valid (s ∷ l) =
    let others = performed valid l in
    if all_valid valid (label_values s) then (s ∷ others.0, others.1) else ([], false)

-- `strconv.FormatBool`
abbrev pub format_bool : Bool → Text
format_bool b = if b then codes "true" else codes "false"

-- The decimal digits of a number, on fuel for its digits.
unfoldable pub digits : ℕ → ℕ → Text
digits zero n = []
digits (suc fuel) n =
    let higher = digits fuel (n / 10) in (if ltb n 10 then [] else higher) ++ (b'0' + n % 10) ∷ []

-- `strconv.Itoa`; a number has no more digits than its value and one.
abbrev pub itoa : ℤ → Text
itoa (pos n) = digits (suc n) n
itoa (negsuc n) = b'-' ∷ digits (suc (suc n)) (suc n)

-- `RecordResolution`; durations are in nanoseconds.
unfoldable pub record_resolution : Text → Text → ℕ → Bool → List Sample
record_resolution status protocol duration cache_hit =
    increment resolution_total (status ∷ protocol ∷ [])
    ∷ observe resolution_duration (status ∷ format_bool cache_hit ∷ []) (pos duration)
    ∷ increment (if cache_hit then resolution_cache_hits else resolution_cache_miss) []
    ∷ []

-- `RecordRegistryLookup`
unfoldable pub record_registry_lookup : Text → Text → ℕ → List Sample
record_registry_lookup registry status duration =
    increment registry_lookups (registry ∷ status ∷ [])
    ∷ observe registry_duration (registry ∷ []) (pos duration)
    ∷ []

-- `RecordVerification`
unfoldable pub record_verification : Text → Text → ℕ → List Sample
record_verification check outcome duration =
    increment verification_total (check ∷ outcome ∷ [])
    ∷ observe verification_duration (check ∷ []) (pos duration)
    ∷ []

-- `RecordHTTPRequest`
unfoldable pub record_http_request : Text → Text → ℤ → ℕ → ℤ → ℤ → List Sample
record_http_request method path status duration request_size response_size =
    increment http_requests_total (method ∷ path ∷ itoa status ∷ [])
    ∷ observe http_request_duration (method ∷ path ∷ []) (pos duration)
    ∷ observe http_request_size (method ∷ path ∷ []) request_size
    ∷ observe http_response_size (method ∷ path ∷ []) response_size
    ∷ []

-- `RecordQueueEvent`: the type of the event is not read.
unfoldable pub record_queue_event : Text → Bool → List Sample
record_queue_event event_type success =
    increment (if success then queue_processed else queue_failed) [] ∷ []
