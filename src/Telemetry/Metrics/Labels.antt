-- ===== src/Telemetry/Metrics/Labels.antt =====
-- What the Prometheus client checks of the metrics and of the calls of internal/telemetry/metrics.go.
use route_ans.Prelude.{
  ℕ, ◌≡◌, refl, ◌⊎◌, Bool, true, false, List, [], ◌∷◌, Text, text_eq, length, All, arith,
  Bool-cases, inl, inr, if◌then◌else◌,
}
use route_ans.Prelude.Int.{ℤ}
use route_ans.Cache.Table.{lookup, Unique}
use route_ans.Telemetry.Metrics.{
  counter, counter_vec, histogram_vec, Opts, Sample, increment, observe, declared, new_metrics,
  record_resolution, record_registry_lookup, record_verification, record_http_request,
  record_queue_event, performed, all_valid, itoa,
}

completes_http :
    (valid : Text → Bool) (method path : Text) (code request_size response_size : ℤ) (duration : ℕ)
    → (performed valid (record_http_request method path code duration request_size response_size)).1
      ≡ all_valid valid (method ∷ path ∷ itoa code ∷ [])
unfolding performed record_http_request
completes_http valid method path code request_size response_size duration =
    elim (Bool-cases (valid method)) [
      | inr bad ↦ rw bad refl
      | inl good ↦ elim (Bool-cases (valid path)) [
        | inr bad ↦ rw (good, bad) refl
        | inl fine ↦ elim (Bool-cases (valid (itoa code))) [
          | inr bad ↦ rw (good, fine, bad) refl
          | inl all ↦ rw (good, fine, all) refl
        ]
      ]
    ]

pub recorded_http :
    (valid : Text → Bool) (method path : Text) (code request_size response_size : ℤ) (duration : ℕ)
    → (performed valid (record_http_request method path code duration request_size response_size)).0
      ≡ (if all_valid valid (method ∷ path ∷ itoa code ∷ [])
          then record_http_request method path code duration request_size response_size
          else [])
unfolding performed record_http_request
recorded_http valid method path code request_size response_size duration =
    elim (Bool-cases (valid method)) [
      | inr bad ↦ rw bad refl
      | inl good ↦ elim (Bool-cases (valid path)) [
        | inr bad ↦ rw (good, bad) refl
        | inl fine ↦ elim (Bool-cases (valid (itoa code))) [
          | inr bad ↦ rw (good, fine, bad) refl
          | inl all ↦ rw (good, fine, all) refl
        ]
      ]
    ]

module _ (namespace subsystem : Text) where
  -- A metric that can do what the call does, and a value for each label.
  abbrev pub Fits : Sample → Type 0
  Fits (increment m values) =
      (((declared namespace subsystem m).kind ≡ counter)
        ⊎ ((declared namespace subsystem m).kind ≡ counter_vec))
      × (length values ≡ length (declared namespace subsystem m).labels)
  Fits (observe m values x) =
      ((declared namespace subsystem m).kind ≡ histogram_vec)
      × (length values ≡ length (declared namespace subsystem m).labels)

  abbrev pub named : List Opts → List (Text × Opts)
  named [] = []
  named (o ∷ l) = (o.name, o) ∷ named l

  names_distinct : Unique (named (new_metrics namespace subsystem))
  unfolding new_metrics lookup declared text_eq
  names_distinct = ground arith

  -- Both counters that a flag chooses between have no labels.
  resolution-Fits :
      (status protocol : Text) (duration : ℕ) (cache_hit : Bool)
      → All Fits (record_resolution status protocol duration cache_hit)
  unfolding record_resolution declared
  resolution-Fits status protocol duration true = ground arith
  resolution-Fits status protocol duration false = ground arith

  queue_event-Fits :
      (event_type : Text) (success : Bool) → All Fits (record_queue_event event_type success)
  unfolding record_queue_event declared
  queue_event-Fits event_type true = ground arith
  queue_event-Fits event_type false = ground arith

  -- The names that `NewMetrics` registers are distinct. Every call of a `Record` method increments a
  -- counter or observes a value of a histogram, with as many values as the metric was declared with
  -- labels. The calls of `RecordHTTPRequest` are all made exactly if the method, the path and the digits
  -- of the status are valid UTF-8; the path of a request need not be, and then the client panics on the
  -- first call, so that nothing of the request is recorded.
  pub new_metrics-Fits :
      (valid : Text → Bool) (status protocol registry check outcome method path event_type : Text)
      (duration : ℕ) (code request_size response_size : ℤ) (cache_hit success : Bool)
      → Unique (named (new_metrics namespace subsystem))
        × All Fits (record_resolution status protocol duration cache_hit)
        × All Fits (record_registry_lookup registry status duration)
        × All Fits (record_verification check outcome duration)
        × All Fits (record_http_request method path code duration request_size response_size)
        × All Fits (record_queue_event event_type success)
        × ((performed valid
              (record_http_request method path code duration request_size response_size)).1
            ≡ all_valid valid (method ∷ path ∷ itoa code ∷ []))
        × ((performed valid
              (record_http_request method path code duration request_size response_size)).0
            ≡ (if all_valid valid (method ∷ path ∷ itoa code ∷ [])
                then record_http_request method path code duration request_size response_size
                else []))
  unfolding record_registry_lookup record_verification record_http_request declared
  new_metrics-Fits valid status protocol registry check outcome method path event_type duration code
        request_size response_size cache_hit success =
      (
        names_distinct,
        resolution-Fits status protocol duration cache_hit,
        ground arith,
        ground arith,
        ground arith,
        queue_event-Fits event_type success,
        completes_http valid method path code request_size response_size duration,
        recorded_http valid method path code request_size response_size duration,
      )
