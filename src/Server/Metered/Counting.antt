-- ===== src/Server/Metered/Counting.antt =====
-- What the counters of resolutions say of the requests that were served.
use route_ans.Prelude.{
  ℕ, ◌+◌, ◌≡◌, refl, ap, ◌∙◌, inl, inr, Bool, true, false, Option, none, List, [], ◌∷◌, ◌++◌, Text,
  codes, text_eq, Result, ok, err, if◌then◌else◌, ◌==◌, not, arith, Bool-cases, Result-cases,
}
use route_ans.Models.{ResolutionRecord, status_revoked}
use route_ans.Ansname.Parse.{Url, parse}
use route_ans.Registry.Record.{Adapter}
use route_ans.Resolver.Store.{Store}
use route_ans.Resolver.Types.{
  Config, State, ResolveError, agent_not_found, lookup_failed, verification_error,
  verification_failed, invalid_name, no_valid_candidates, negotiation_failed,
}
use route_ans.Resolver.Judge.{Verifier}
use route_ans.Server.Handlers.{ResolutionResponse, Response, respond, resolve_query, handle_resolve}
use route_ans.Server.Metered.{Query, Metered, outcome, metered_resolve, metered_run}
use route_ans.Telemetry.Metrics.{
  Sample, increment, observe, Metric, resolution_total, resolution_cache_hits,
  resolution_cache_miss, record_resolution,
}

abbrev pub is_hit : Metric → Bool
is_hit resolution_cache_hits = true
is_hit _ = false

abbrev pub is_miss : Metric → Bool
is_miss resolution_cache_miss = true
is_miss _ = false

-- An increment of `resolution_total`.
abbrev pub is_total : Metric → Bool
is_total resolution_total = true
is_total _ = false

-- The value of the counters that a test selects, after some calls.
unfoldable pub counted : (Metric → Bool) → List Sample → ℕ
counted test [] = 0
counted test (increment m values ∷ l) = (if test m then 1 else 0) + counted test l
counted test (observe m values x ∷ l) = counted test l

-- The value of `resolution_total` under a status, for all protocols.
abbrev pub starts_with : Text → List Text → Bool
starts_with status [] = false
starts_with status (v ∷ values) = text_eq v status

unfoldable pub counted_as : Text → List Sample → ℕ
counted_as status [] = 0
counted_as status (increment m values ∷ l) =
    (if is_total m then (if starts_with status values then 1 else 0) else 0) + counted_as status l
counted_as status (observe m values x ∷ l) = counted_as status l

counted-append :
    (test : Metric → Bool) (l k : List Sample)
    → counted test (l ++ k) ≡ counted test l + counted test k
unfolding counted
counted-append test [] k = omega arith
counted-append test (increment m values ∷ l) k = omega (arith, counted-append test l k)
counted-append test (observe m values x ∷ l) k = counted-append test l k

counted_as-append :
    (status : Text) (l k : List Sample)
    → counted_as status (l ++ k) ≡ counted_as status l + counted_as status k
unfolding counted_as
counted_as-append status [] k = omega arith
counted_as-append status (increment m values ∷ l) k = omega (arith, counted_as-append status l k)
counted_as-append status (observe m values x ∷ l) k = counted_as-append status l k

-- All that was recorded, and the responses that a test selects.
unfoldable pub all_samples : List Metered → List Sample
all_samples [] = []
all_samples (m ∷ l) = m.samples ++ all_samples l

unfoldable pub responses : List Metered → List (Response ResolutionResponse)
responses [] = []
responses (m ∷ l) = m.response ∷ responses l

unfoldable pub responses_with : (ℕ → Bool) → List (Response ResolutionResponse) → ℕ
responses_with test [] = 0
responses_with test (r ∷ l) = (if test r.code then 1 else 0) + responses_with test l

abbrev pub is_ok : ℕ → Bool
is_ok code = code == 200

abbrev pub not_bad : ℕ → Bool
not_bad code = not (code == 400)

ap2 : {a b c d : ℕ} → a ≡ b → c ≡ d → a + c ≡ b + d
ap2 e f = omega arith

-- What the counters say of a run with given responses.
abbrev pub Counted : List Metered → List (Response ResolutionResponse) → Type 0
Counted answers handled =
    (responses answers ≡ handled)
    × (counted is_hit (all_samples answers) ≡ 0)
    × (counted is_miss (all_samples answers) ≡ responses_with not_bad handled)
    × (counted is_total (all_samples answers) ≡ responses_with not_bad handled)
    × (counted_as (codes "success") (all_samples answers) ≡ responses_with is_ok handled)

-- What is counted for one request.
record Counts (m : Metered) : Type 0 where
  no_hit : counted is_hit m.samples ≡ 0
  miss : counted is_miss m.samples ≡ (if not_bad m.response.code then 1 else 0)
  total : counted is_total m.samples ≡ (if not_bad m.response.code then 1 else 0)
  success : counted_as (codes "success") m.samples ≡ (if is_ok m.response.code then 1 else 0)

metered-Counts :
    (m : Result ResolveError ResolutionRecord) (protocol : Text) (duration : ℕ)
    → Counts (record {
      response = respond m;
      samples = record_resolution (outcome m) protocol duration false;
    })
unfolding counted counted_as record_resolution text_eq
metered-Counts (err (agent_not_found name)) protocol duration = record {
  no_hit = refl;
  miss = refl;
  total = refl;
  success = refl;
}
metered-Counts (err lookup_failed) protocol duration = record {
  no_hit = refl;
  miss = refl;
  total = refl;
  success = refl;
}
metered-Counts (err (verification_error name)) protocol duration = record {
  no_hit = refl;
  miss = refl;
  total = refl;
  success = refl;
}
metered-Counts (err (verification_failed name status)) protocol duration = record {
  no_hit = refl;
  miss = refl;
  total = refl;
  success = refl;
}
metered-Counts (err (invalid_name problem)) protocol duration = record {
  no_hit = refl;
  miss = refl;
  total = refl;
  success = refl;
}
metered-Counts (err no_valid_candidates) protocol duration = record {
  no_hit = refl;
  miss = refl;
  total = refl;
  success = refl;
}
metered-Counts (err (negotiation_failed problem)) protocol duration = record {
  no_hit = refl;
  miss = refl;
  total = refl;
  success = refl;
}
metered-Counts (ok r) protocol duration = elim (Bool-cases (text_eq r.status status_revoked)) [
  | inl revoked ↦ rw revoked (record { no_hit = refl; miss = refl; total = refl; success = refl })
  | inr other ↦ rw other (record { no_hit = refl; miss = refl; total = refl; success = refl })
]

module _ (cfg : Config) (verifier : Option Verifier) {S : Type 0} (store : Store S)
    (registry : Adapter) (url_parse : Text → Option Url) where
  -- The metrics change no answer and no state.
  pub metered_resolve-handle_resolve :
      (q : Query) (s : State S)
      → let served = metered_resolve cfg verifier store registry url_parse q s in
        (served.0, served.1.response)
        ≡ handle_resolve cfg verifier store registry url_parse q.clock q.latency q.name q.version s
  unfolding metered_resolve handle_resolve
  metered_resolve-handle_resolve q s = elim (Bool-cases (text_eq q.name [])) [
    | inl missing ↦ rw (missing, metered_resolve, handle_resolve) refl
    | inr given ↦ elim (Result-cases (parse url_parse q.name)) [
      | inl (name, read) ↦ rw (given, read, metered_resolve, handle_resolve) refl
      | inr (e, unread) ↦ rw (given, unread, metered_resolve, handle_resolve) refl
    ]
  ]

  refused-Counts : Counts (record { response = record { code = 400; body = none }; samples = [] })
  unfolding counted counted_as
  refused-Counts = record { no_hit = refl; miss = refl; total = refl; success = refl }

  metered_resolve-Counts :
      (q : Query) (s : State S)
      → Counts (metered_resolve cfg verifier store registry url_parse q s).1
  unfolding metered_resolve
  metered_resolve-Counts q s = elim (Bool-cases (text_eq q.name [])) [
    | inl missing ↦ rw (missing, metered_resolve) refused-Counts
    | inr given ↦ elim (Result-cases (parse url_parse q.name)) [
      | inl (name, read) ↦
          rw (given, read, metered_resolve)
            (metered-Counts
              (resolve_query cfg verifier store registry url_parse q.clock q.latency name q.version
                s).1
              name.protocol q.duration)
      | inr (e, unread) ↦ rw (given, unread, metered_resolve) refused-Counts
    ]
  ]

  sums :
      (queries : List Query) (s : State S)
      → let answers = (metered_run cfg verifier store registry url_parse queries s).1 in
        (counted is_hit (all_samples answers) ≡ 0)
        × (counted is_miss (all_samples answers) ≡ responses_with not_bad (responses answers))
        × (counted is_total (all_samples answers) ≡ responses_with not_bad (responses answers))
        × (counted_as (codes "success") (all_samples answers)
            ≡ responses_with is_ok (responses answers))
  unfolding metered_run all_samples responses responses_with counted counted_as
  sums [] s = (refl, refl, refl, refl)
  sums (q ∷ queries) s =
      let first = metered_resolve cfg verifier store registry url_parse q s in
      let c = metered_resolve-Counts q s in
      let later = (metered_run cfg verifier store registry url_parse queries first.0).1 in
      let (hits, misses, totals, successes) = sums queries first.0 in
      (
        counted-append is_hit first.1.samples (all_samples later) ∙ omega (arith, c.no_hit),
        counted-append is_miss first.1.samples (all_samples later) ∙ ap2 c.miss misses,
        counted-append is_total first.1.samples (all_samples later) ∙ ap2 c.total totals,
        counted_as-append (codes "success") first.1.samples (all_samples later)
            ∙ ap2 c.success successes,
      )

  -- The same requests, without metrics.
  unfoldable pub handled_run : List Query → State S → State S × List (Response ResolutionResponse)
  handled_run [] s = (s, [])
  handled_run (q ∷ queries) s =
      let first =
        handle_resolve cfg verifier store registry url_parse q.clock q.latency q.name q.version s in
      let others = handled_run queries first.0 in (others.0, first.1 ∷ others.1)

  -- The responses of a run are those of the handler.
  metered_run-handled_run :
      (queries : List Query) (s : State S)
      → ((metered_run cfg verifier store registry url_parse queries s).0
          ≡ (handled_run queries s).0)
        × (responses (metered_run cfg verifier store registry url_parse queries s).1
            ≡ (handled_run queries s).1)
  unfolding metered_run handled_run responses
  metered_run-handled_run [] s = (refl, refl)
  metered_run-handled_run (q ∷ queries) s =
      let same = metered_resolve-handle_resolve q s in
      let (state, answers) =
        metered_run-handled_run queries
          (metered_resolve cfg verifier store registry url_parse q s).0 in
      let later = answers ∙ ap (λ p. (handled_run queries p.0).1) same in
      let here = ap (λ p. p.1) same in
      (state ∙ ap (λ p. (handled_run queries p.0).0) same, λ i. here i ∷ later i)

  -- After any requests on `/v1/resolve`, `resolution_total` and the counter of misses are the number of
  -- the requests that were not answered 400, `resolution_total` under "success" is the number of those
  -- answered 200, and no cache hit was counted, however many the cache gave; the answers are those of
  -- the handler, and the metrics change none.
  pub metered_run-Counted :
      (queries : List Query) (s : State S)
      → Counted
          (metered_run cfg verifier store registry url_parse queries s).1
          (handled_run queries s).1
  metered_run-Counted queries s =
      let (state, same) = metered_run-handled_run queries s in
      let (hits, misses, totals, successes) = sums queries s in
      (
        same,
        hits,
        misses ∙ ap (responses_with not_bad) same,
        totals ∙ ap (responses_with not_bad) same,
        successes ∙ ap (responses_with is_ok) same,
      )
