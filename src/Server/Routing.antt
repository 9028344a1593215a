-- ===== src/Server/Routing.antt =====
-- `routes` and `loggingMiddleware` of internal/server/http.go. The router's matching of patterns and
-- the limiter's count of requests are parameters; the handlers behind them are a parameter as well.
pub mod Recorded
use route_ans.Prelude.{
  ℕ, ◌≡◌, Bool, Option, none, some, List, [], ◌∷◌, ◌++◌, Text, codes, Result, ok, err,
  if◌then◌else◌,
}
use route_ans.Prelude.Int.{ℤ, pos}
use route_ans.Cache.Table.{lookup}
use route_ans.Config.Policies.{RateLimitEntry}
use route_ans.Config.Types.{Config}
use route_ans.Telemetry.Metrics.{Sample, record_http_request, performed}

pub data Endpoint : Type 0 where
  health ready metrics swagger resolve resolve_batch stats : Endpoint

-- A pattern with its handler; `none` is a route for every method.
pub record Route : Type 0 where
  pub method : Option Text
  pub pattern : Text
  pub endpoint : Endpoint

pub data Middleware : Type 0 where
  request_id real_ip recoverer logging : Middleware
  limit_by_ip : ℤ → ℤ → Middleware

abbrev get_route : Text → Endpoint → Route
get_route pattern endpoint = record {
  method = some (codes "GET");
  pattern = pattern;
  endpoint = endpoint;
}

-- The routes of `routes`, those of `/v1` under their whole pattern.
unfoldable pub routes : Config → List Route
routes c =
    get_route (codes "/health") health
    ∷ get_route (codes "/ready") ready
    ∷ ((if c.telemetry.metrics.enabled
          then record { method = none; pattern = codes "/metrics"; endpoint = metrics } ∷ []
          else [])
        ++ get_route (codes "/swagger/*") swagger
          ∷ get_route (codes "/v1/resolve") resolve
          ∷ record {
            method = some (codes "POST");
            pattern = codes "/v1/resolve/batch";
            endpoint = resolve_batch;
          }
          ∷ get_route (codes "/v1/stats") stats
          ∷ [])

-- `r.Use`, the outermost first.
unfoldable pub middlewares : Config → List Middleware
middlewares c =
    request_id
    ∷ real_ip
    ∷ recoverer
    ∷ logging
    ∷ (if c.rate_limit.enabled
        then elim (lookup (codes "anonymous") c.rate_limit.limits) [
          | none ↦ []
          | some anon ↦ limit_by_ip anon.requests anon.window ∷ []
        ]
        else [])

-- What a request says to the server; the length is -1 if it is not known, and `upgrade` is whether its
-- header `Connection` is "Upgrade".
pub record Request : Type 0 where
  pub method : Text
  pub path : Text
  pub upgrade : Bool
  pub content_length : ℤ
  pub duration : ℕ

-- How a handler ends: with a status code and the number of bytes that were written; in a panic, before
-- or behind such an answer; or in a panic with `http.ErrAbortHandler`.
pub data Reply : Type 0 where
  answered : ℕ → ℕ → Reply
  panicked : Reply
  panicked_behind : ℕ → ℕ → Reply
  aborted : Reply

pub record Outcome : Type 0 where
  pub reply : Reply
  pub samples : List Sample

-- What is called of other packages, and the handlers on a state: the matching of the router, with its
-- code and the number of its bytes where no route fits; whether the limiter lets this request
-- through, and the code and bytes that it writes if not; `middleware.Recoverer`, on the header of a
-- request; and `utf8.ValidString`.
pub record Behind (S : Type 0) : Type 0 where
  pub match_route : List Route → Text → Text → Result (ℕ × ℕ) Endpoint
  pub lets_through : ℤ → ℤ → Bool
  pub refusal : ℕ × ℕ
  pub recover : Bool → Outcome → Outcome
  pub valid_utf8 : Text → Bool
  pub handle : Endpoint → Request → S → S × Outcome

-- What becomes of a reply in the recoverer: a panic with nothing written is answered 500, but for an
-- upgrade, where nothing is written, which net/http answers by 200; what was written stays; and
-- `http.ErrAbortHandler` is panicked with again.
abbrev pub recovered : Bool → Reply → Reply
recovered upgrade panicked = if upgrade then answered 200 0 else answered 500 0
recovered upgrade (panicked_behind code bytes) = answered code bytes
recovered upgrade (answered code bytes) = answered code bytes
recovered upgrade aborted = aborted

-- The documented behaviour of the recoverer.
abbrev pub Recovers : (Bool → Outcome → Outcome) → Type 0
Recovers recover =
    (upgrade : Bool) (reply : Reply) (l : List Sample)
    → recover upgrade (record { reply = reply; samples = l })
      ≡ record { reply = recovered upgrade reply; samples = l }

abbrev pub refuse : ℕ × ℕ → Outcome
refuse (code, bytes) = record { reply = answered code bytes; samples = [] }

-- The recording of an answer: if the client panics on a value, the answer has been written, and what
-- follows the call is left out.
abbrev pub recorded : List Sample → ℕ → ℕ → List Sample × Bool → Outcome
recorded before code bytes (made, all_made) = record {
  reply = if all_made then answered code bytes else panicked_behind code bytes;
  samples = before ++ made;
}

-- `loggingMiddleware` behind the call of the next handler, which a panic never reaches.
abbrev pub logged : (Text → Bool) → Request → Outcome → Outcome
logged valid_utf8 req o = elim o.reply [
  | panicked ↦ o
  | panicked_behind code bytes ↦ o
  | aborted ↦ o
  | answered code bytes ↦ recorded o.samples code bytes (
      performed valid_utf8 (
        record_http_request req.method req.path (pos code) req.duration req.content_length
          (pos bytes)))
]

module _ {S : Type 0} (b : Behind S) (req : Request) where
  -- The router behind all middleware.
  unfoldable pub dispatch : List Route → S → S × Outcome
  dispatch table s = elim (b.match_route table req.method req.path) [
    | err unmatched ↦ (s, refuse unmatched)
    | ok endpoint ↦ b.handle endpoint req s
  ]

  -- A chain of middleware round a handler.
  unfoldable pub through : List Middleware → (S → S × Outcome) → S → S × Outcome
  through [] next s = next s
  through (request_id ∷ l) next s = through l next s
  through (real_ip ∷ l) next s = through l next s
  through (recoverer ∷ l) next s = let p = through l next s in (p.0, b.recover req.upgrade p.1)
  through (logging ∷ l) next s = let p = through l next s in (p.0, logged b.valid_utf8 req p.1)
  through (limit_by_ip requests window ∷ l) next s =
      let p = through l next s in
      if b.lets_through requests window then p else (s, refuse b.refusal)

  -- The handler of the server.
  unfoldable pub serve : Config → S → S × Outcome
  serve c s = through (middlewares c) (dispatch (routes c)) s
