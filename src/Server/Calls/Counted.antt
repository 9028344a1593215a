-- ===== src/Server/Calls/Counted.antt =====
-- What holds after any calls of a strict server.
use route_ans.Prelude.{
  ℕ, ◌≡◌, refl, ap, sym, subst, inl, inr, Bool, Option, none, some, List, [], ◌∷◌, Text, codes,
  text_eq, Result, Bool-cases, Result-cases, if◌then◌else◌,
}
use route_ans.Prelude.Int.{pos}
use route_ans.Ansname.Parse.{Url, parse}
use route_ans.Config.Types.{Config}
use route_ans.Registry.Record.{Adapter}
use route_ans.Resolver.Judge.{Verifier}
use route_ans.Resolver.Request.Strict.{Clean}
use route_ans.Resolver.Store.{Store, StoreLaws}
use route_ans.Resolver.Types.{State, Config as ResolverConfig}
use route_ans.Server.Batches.{handle_resolve_batch-Filled}
use route_ans.Server.Calls.{Call, handler, behind, serve_call, serve_calls}
use route_ans.Server.Handlers.{handle_resolve_batch}
use route_ans.Server.Metered.{Query, metered_resolve}
use route_ans.Server.Metered.Counting.{metered_resolve-handle_resolve}
use route_ans.Server.Responses.{handle_resolve-Vouched}
use route_ans.Server.Routing.{
  Endpoint, health, ready, metrics, swagger, resolve, resolve_batch, stats, Route, answered,
  Outcome, Behind, Recovers, dispatch, routes,
}
use route_ans.Server.Routing.Recorded.{counted_requests, refused, innermost, Served, serve-Recorded}
use route_ans.Telemetry.Metrics.{itoa, record_resolution, all_valid}

-- The labels of the count of an answer to a call.
abbrev pub call_labels : Call → ℕ → List Text
call_labels call code = call.request.method ∷ call.request.path ∷ itoa (pos code) ∷ []

-- The outcome of a call: answered, and counted once under these labels, if they are valid UTF-8.
abbrev pub CountedOnce : (Text → Bool) → Call → Outcome → Type 0
CountedOnce valid_utf8 call o =
    (code : ℕ) × (bytes : ℕ) × (o.reply ≡ answered code bytes)
    × (counted_requests o.samples
        ≡ (if all_valid valid_utf8 (call_labels call code) then call_labels call code ∷ [] else []))

abbrev pub EachOnce : (Text → Bool) → List Call → List Outcome → Type 0
EachOnce valid_utf8 [] [] = Unit
EachOnce valid_utf8 [] (o ∷ outcomes) = ⊥
EachOnce valid_utf8 (call ∷ calls) [] = ⊥
EachOnce valid_utf8 (call ∷ calls) (o ∷ outcomes) =
    CountedOnce valid_utf8 call o × EachOnce valid_utf8 calls outcomes

abbrev Answered : Outcome → Type 0
Answered o = (code : ℕ) × (bytes : ℕ) × (o.reply ≡ answered code bytes)

module _ (cfg : ResolverConfig) (f : Verifier) (strict : cfg.verification_mode ≡ codes "strict")
    {S : Type 0} (store : Store S) (laws : StoreLaws store) (url_parse : Text → Option Url)
    (match_route : List Route → Text → Text → Result (ℕ × ℕ) Endpoint) (valid_utf8 : Text → Bool)
    (refusal : ℕ × ℕ) (recover : Bool → Outcome → Outcome) (c : Config) where
  metered-quiet :
      (registry : Adapter) (q : Query) (s : State S)
      → counted_requests (metered_resolve cfg (some f) store registry url_parse q s).1.samples ≡ []
  unfolding metered_resolve record_resolution counted_requests
  metered-quiet registry q s = elim (Bool-cases (text_eq q.name [])) [
    | inl missing ↦ rw (missing, metered_resolve) refl
    | inr given ↦ elim (Result-cases (parse url_parse q.name)) [
      | inl (name, read) ↦ rw (given, read, metered_resolve) refl
      | inr (e, unread) ↦ rw (given, unread, metered_resolve) refl
    ]
  ]

  handler-quiet :
      (call : Call) (e : Endpoint) (s : State S)
      → counted_requests
          (handler cfg
            (some f)
            store
            url_parse
            match_route
            valid_utf8
            refusal
            recover
            call
            e
            s).1.samples
        ≡ []
  unfolding handler counted_requests
  handler-quiet call health s = refl
  handler-quiet call ready s = refl
  handler-quiet call metrics s = refl
  handler-quiet call swagger s = refl
  handler-quiet call resolve s = metered-quiet call.registry call.query s
  handler-quiet call resolve_batch s = refl
  handler-quiet call stats s = refl

  batch-Clean :
      (call : Call) (body : Option (List Text)) (s : State S)
      → Clean cfg f strict store laws s.cache
      → Clean cfg f strict store laws
          (handle_resolve_batch cfg
            (some f)
            store
            call.registry
            url_parse
            call.clocks
            body
            s).0.cache
  unfolding handle_resolve_batch
  batch-Clean call none s v = v
  batch-Clean call (some texts) s v =
      (handle_resolve_batch-Filled cfg f strict store laws call.registry url_parse call.clocks texts
        s v).2.clean

  handler-Clean :
      (call : Call) (e : Endpoint) (s : State S)
      → Clean cfg f strict store laws s.cache
      → let p =
          handler cfg (some f) store url_parse match_route valid_utf8 refusal recover call e s in
        Clean cfg f strict store laws p.0.cache × Answered p.1
  unfolding handler
  handler-Clean call health s v = (v, (_, _, refl))
  handler-Clean call ready s v = (v, (_, _, refl))
  handler-Clean call metrics s v = (v, (_, _, refl))
  handler-Clean call swagger s v = (v, (_, _, refl))
  handler-Clean call resolve s v =
      let q = call.query in
      let same = metered_resolve-handle_resolve cfg (some f) store call.registry url_parse q s in
      let clean =
        (handle_resolve-Vouched cfg f strict store laws call.registry url_parse q.clock q.latency
          q.name q.version s v).0 in
      (
        subst (λ (p : State S). Clean cfg f strict store laws p.cache) (sym (ap (λ p. p.0) same))
            clean,
        (_, _, refl),
      )
  handler-Clean call resolve_batch s v = (batch-Clean call call.body s v, (_, _, refl))
  handler-Clean call stats s v = (v, (_, _, refl))

  abbrev KeepsClean : State S × Outcome → Type 0
  KeepsClean p = Clean cfg f strict store laws p.0.cache × Answered p.1

  abbrev front : Call → Behind (State S)
  front call = behind cfg (some f) store url_parse match_route valid_utf8 refusal recover call

  dispatch-Clean :
      (call : Call) (s : State S)
      → Clean cfg f strict store laws s.cache
      → KeepsClean (dispatch (front call) call.request (routes c) s)
  unfolding dispatch
  dispatch-Clean call s v =
      elim (Result-cases (match_route (routes c) call.request.method call.request.path)) [
        | inl (e, found) ↦ rw (found, dispatch) (handler-Clean call e s v)
        | inr ((code, bytes), missing) ↦ rw (missing, dispatch) (v, (code, bytes, refl))
      ]

  innermost-Clean :
      (call : Call) (s : State S)
      → Clean cfg f strict store laws s.cache
      → KeepsClean (innermost (front call) call.request c s)
  unfolding innermost
  innermost-Clean call s v = elim (Bool-cases (refused (front call) call.request c)) [
    | inl full ↦ rw (full, innermost) (v, (refusal.0, refusal.1, refl))
    | inr free ↦ rw (free, innermost) (dispatch-Clean call s v)
  ]

  serve_call-Clean :
      Recovers recover
      → (call : Call) (s : State S) → Clean cfg f strict store laws s.cache
      → let p =
          serve_call cfg (some f) store url_parse match_route valid_utf8 refusal recover c call s in
        Clean cfg f strict store laws p.0.cache × CountedOnce valid_utf8 call p.1
  unfolding serve_call
  serve_call-Clean safe call s v =
      let (state, served, limited) =
        serve-Recorded (front call) call.request safe (λ e t. handler-quiet call e t) c s in
      let (clean, ended) = innermost-Clean call s v in
      let (code, bytes, replied) = ended in
      let out =
        (serve_call cfg (some f) store url_parse match_route valid_utf8 refusal recover c call
          s).1 in
      let once : Served (front call) call.request (answered code bytes) out =
        subst (λ reply. Served (front call) call.request reply out) replied served in
      (
        subst (λ (t : State S). Clean cfg f strict store laws t.cache) (sym state) clean,
        (code, bytes, once.0, once.1),
      )

  -- If the recoverer behaves as documented, then whatever calls a strict server with a verifier answers,
  -- on a clean cache, one after the other, to whatever routes they lead, whether the limiter lets them
  -- through and however the registry and the verifier answer then: each is answered; it is counted
  -- exactly once, under its method, its path and the code of its answer, if these are valid UTF-8, and
  -- not at all if they are not; and the cache stays clean, so that it holds only active records that
  -- are vouched for.
  pub serve_calls-Clean :
      Recovers recover
      → (calls : List Call) (s : State S) → Clean cfg f strict store laws s.cache
      → Clean cfg f strict store laws
          (serve_calls cfg
            (some f)
            store
            url_parse
            match_route
            valid_utf8
            refusal
            recover
            c
            calls
            s).0.cache
        × EachOnce valid_utf8 calls
            (serve_calls cfg
              (some f)
              store
              url_parse
              match_route
              valid_utf8
              refusal
              recover
              c
              calls
              s).1
  unfolding serve_calls
  serve_calls-Clean safe [] s v = (v, tt)
  serve_calls-Clean safe (call ∷ calls) s v =
      let (clean, once) = serve_call-Clean safe call s v in
      let (later, others) = serve_calls-Clean safe calls _ clean in (later, (once, others))
