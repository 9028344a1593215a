-- ===== src/Server/Routing/Recorded.antt =====
-- Which requests are recorded, and how.
use route_ans.Prelude.{
  ℕ, ◌≡◌, ◌⊎◌, inl, inr, refl, ◌∙◌, ap, sym, subst, Bool, true, false, not, Option, none, some,
  List, [], ◌∷◌, ◌++◌, Text, codes, if◌then◌else◌, arith, Bool-cases, Option-cases, Result-cases,
}
use route_ans.Prelude.Int.{pos}
use route_ans.Cache.Table.{lookup}
use route_ans.Config.Policies.{RateLimitEntry}
use route_ans.Config.Types.{Config}
use route_ans.Server.Routing.{
  Endpoint, Route, Request, Reply, answered, panicked, panicked_behind, aborted, Outcome, Behind,
  Recovers, recovered, refuse, recorded, logged, routes, middlewares, dispatch, through, serve,
}
use route_ans.Telemetry.Metrics.{
  Sample, increment, observe, Metric, http_requests_total, itoa, record_http_request, performed,
  all_valid,
}
use route_ans.Telemetry.Metrics.Labels.{recorded_http}

abbrev is_request : Metric → Bool
is_request http_requests_total = true
is_request _ = false

-- The labels under which requests were counted.
unfoldable pub counted_requests : List Sample → List (List Text)
counted_requests [] = []
counted_requests (increment m values ∷ l) =
    let others = counted_requests l in if is_request m then values ∷ others else others
counted_requests (observe m values x ∷ l) = counted_requests l

counted_requests-append :
    (l k : List Sample) → counted_requests (l ++ k) ≡ counted_requests l ++ counted_requests k
unfolding counted_requests
counted_requests-append [] k = refl
counted_requests-append (increment m values ∷ l) k = ground (arith, counted_requests-append l k)
counted_requests-append (observe m values x ∷ l) k = counted_requests-append l k

-- The rate limit of a configuration.
unfoldable pub limit_of : Config → Option RateLimitEntry
limit_of c = if c.rate_limit.enabled then lookup (codes "anonymous") c.rate_limit.limits else none

module _ {S : Type 0} (b : Behind S) (req : Request) where
  unfoldable pub refused : Config → Bool
  refused c = elim (limit_of c) [
    | none ↦ false
    | some anon ↦ not (b.lets_through anon.requests anon.window)
  ]

  -- What comes of the request behind the logging middleware: refused by the limiter, which is the
  -- innermost, or served by the router.
  unfoldable pub innermost : Config → S → S × Outcome
  innermost c s = if refused c then (s, refuse b.refusal) else dispatch b req (routes c) s

  serve-innermost :
      (c : Config) (s : S)
      → serve b req c s
        ≡ ((innermost c s).0, b.recover req.upgrade (logged b.valid_utf8 req (innermost c s).1))
  unfolding serve innermost refused limit_of through middlewares
  serve-innermost c s = elim (Bool-cases c.rate_limit.enabled) [
    | inr off ↦ rw (off, serve, innermost, refused, limit_of, middlewares, through) refl
    | inl on ↦ elim (Option-cases (lookup (codes "anonymous") c.rate_limit.limits)) [
      | inl unlimited ↦
          rw (on, unlimited, serve, innermost, refused, limit_of, middlewares, through) refl
      | inr (anon, limit) ↦ elim (Bool-cases (b.lets_through anon.requests anon.window)) [
        | inl free ↦
            rw (on, limit, free, serve, innermost, refused, limit_of, middlewares, through) refl
        | inr full ↦
            rw (on, limit, full, serve, innermost, refused, limit_of, middlewares, through) refl
      ]
    ]
  ]

  turned_away : (c : Config) (s : S) → refused c ≡ true → innermost c s ≡ (s, refuse b.refusal)
  unfolding innermost
  turned_away c s full = rw (full, innermost) refl

  -- The values under which an answer is counted.
  abbrev pub count_labels : ℕ → List Text
  count_labels code = req.method ∷ req.path ∷ itoa (pos code) ∷ []

  -- The answer to a request, and the labels under which it was counted, on how it ended behind the
  -- middleware.
  abbrev pub Served : Reply → Outcome → Type 0
  Served (answered code bytes) o =
      (o.reply ≡ answered code bytes)
      × (counted_requests o.samples
          ≡ (if all_valid b.valid_utf8 (count_labels code) then count_labels code ∷ [] else []))
  Served reply o = (o.reply ≡ recovered req.upgrade reply) × (counted_requests o.samples ≡ [])

  abbrev pub Recorded : Config → S → Type 0
  Recorded c s =
      ((serve b req c s).0 ≡ (innermost c s).0)
      × Served (innermost c s).1.reply (serve b req c s).1
      × ((refused c ≡ false)
          ⊎ (((serve b req c s).0 ≡ s)
              × ((serve b req c s).1.reply ≡ answered b.refusal.0 b.refusal.1)))

  -- An answer whose recording fails has been written all the same.
  recovered-recorded :
      (l : List Sample) (code bytes : ℕ) (p : List Sample × Bool)
      → recovered req.upgrade (recorded l code bytes p).reply ≡ answered code bytes
  recovered-recorded l code bytes (made, true) = refl
  recovered-recorded l code bytes (made, false) = refl

  recorded-counted :
      (l : List Sample) (code bytes : ℕ)
      → counted_requests l ≡ []
      → (let calls =
            record_http_request req.method req.path
              (pos code)
              req.duration
              req.content_length
              (pos bytes) in
          counted_requests (recorded l code bytes (performed b.valid_utf8 calls)).samples
          ≡ (if all_valid b.valid_utf8 (count_labels code) then count_labels code ∷ [] else []))
  unfolding counted_requests
  recorded-counted l code bytes quiet =
      let made =
        recorded_http b.valid_utf8 req.method req.path (pos code) req.content_length (pos bytes)
          req.duration in
      let calls =
        record_http_request req.method req.path (pos code) req.duration req.content_length
          (pos bytes) in
      counted_requests-append l (performed b.valid_utf8 calls).0
      ∙ rw (quiet, made)
          elim (Bool-cases (all_valid b.valid_utf8 (count_labels code))) [
            | inl good ↦ rw good (unfold record_http_request in refl)
            | inr bad ↦ rw bad refl
          ]

  finished-Served :
      Recovers b.recover
      → (reply : Reply) (l : List Sample) → counted_requests l ≡ []
      → Served reply
          (b.recover req.upgrade (logged b.valid_utf8 req (record { reply = reply; samples = l })))
  finished-Served safe panicked l quiet = rw (safe req.upgrade panicked l) (refl, quiet)
  finished-Served safe (panicked_behind code bytes) l quiet =
      rw (safe req.upgrade (panicked_behind code bytes) l) (refl, quiet)
  finished-Served safe aborted l quiet = rw (safe req.upgrade aborted l) (refl, quiet)
  finished-Served safe (answered code bytes) l quiet =
      let calls = performed b.valid_utf8 (
        record_http_request req.method req.path (pos code) req.duration req.content_length
          (pos bytes)) in
      let done = recorded l code bytes calls in
      rw (safe req.upgrade done.reply done.samples)
        (recovered-recorded l code bytes calls, recorded-counted l code bytes quiet)

  module _ (safe : Recovers b.recover)
      (quiet : (e : Endpoint) (s : S) → counted_requests (b.handle e req s).1.samples ≡ []) where
    none_counted : counted_requests [] ≡ []
    unfolding counted_requests
    none_counted = refl

    dispatch-quiet :
        (table : List Route) (s : S) → counted_requests (dispatch b req table s).1.samples ≡ []
    unfolding dispatch counted_requests
    dispatch-quiet table s = elim (Result-cases (b.match_route table req.method req.path)) [
      | inl (endpoint, found) ↦ rw (found, dispatch) (quiet endpoint s)
      | inr (codes_of, missing) ↦ rw (missing, dispatch) refl
    ]

    innermost-quiet : (c : Config) (s : S) → counted_requests (innermost c s).1.samples ≡ []
    unfolding innermost counted_requests
    innermost-quiet c s = elim (Bool-cases (refused c)) [
      | inl full ↦ rw (full, innermost) refl
      | inr free ↦ rw (free, innermost) (dispatch-quiet (routes c) s)
    ]

    -- If the recoverer behaves as documented, and the handlers themselves count no requests, then a
    -- request that was answered behind the middleware, at the limiter or at a handler, is answered so;
    -- and it is counted exactly once, under its method, its path and the code of the answer, if these
    -- are valid UTF-8, and not at all if they are not, for then the client of the metrics panics behind
    -- the answer. A request whose handler panicked is not counted; it is answered 500 if nothing was
    -- written, but for an upgrade, and as it was written otherwise, and it is aborted if the handler
    -- aborted it. A request that the limiter refuses changes nothing and has the limiter's answer.
    pub serve-Recorded : (c : Config) (s : S) → Recorded c s
    serve-Recorded c s =
        let whole = serve-innermost c s in
        let inner = innermost c s in
        (
          ap (λ p. p.0) whole,
          subst (Served inner.1.reply) (sym (ap (λ p. p.1) whole))
              (finished-Served safe inner.1.reply inner.1.samples (innermost-quiet c s)),
          elim (Bool-cases (refused c)) [
            | inr free ↦ inl free
            | inl full ↦ inr (
              ap (λ p. p.0) whole ∙ ap (λ p. p.0) (turned_away c s full),
              ap (λ p. p.1.reply) whole
                  ∙ ap (λ p. (b.recover req.upgrade (logged b.valid_utf8 req p.1)).reply)
                      (turned_away c s full)
                  ∙ (finished-Served safe (answered b.refusal.0 b.refusal.1) [] none_counted).0,
            )
          ],
        )
