-- ===== src/Resolver/Request.antt =====
-- The requests of internal/resolver/resolver.go. A method takes the times that its calls of
-- `time.Now()` yield and returns the new state with its result. Here a request runs
-- without another in between; Parallel models the goroutines of `ResolveBatch`.
pub mod Reads
pub mod Counts
pub mod Strict
pub mod Negotiated
use route_ans.Prelude.{
  ℕ, zero, ◌+◌, ◌*◌, Bool, true, false, ◌&&◌, ◌||◌, not, Option, none, some, List, [], ◌∷◌, Text,
  codes, text_eq, Result, ok, err, if◌then◌else◌,
}
use route_ans.Models.{ResolutionRecord}
use route_ans.Ansname.Record.{AnsName, string, cache_key, fqdn}
use route_ans.Ansname.Parse.{Url, parse}
use route_ans.Ansname.Negotiate.{negotiate_version}
use route_ans.Registry.Record.{Record, Adapter, LookupError, not_found, unavailable}
use route_ans.Resolver.Store.{Store}
use route_ans.Resolver.Types.{
  Config, Counters, State, Clock, ResolveError, agent_not_found, lookup_failed, invalid_name,
  no_valid_candidates, negotiation_failed, started, finished, missed, hit, looking_up,
}
use route_ans.Resolver.Judge.{Verifier, verify_record, ttl_of}

abbrev pub lookup_error : Text → LookupError → ResolveError
lookup_error name (not_found n) = agent_not_found name
lookup_error name unavailable = lookup_failed

-- An empty range stands for any version.
abbrev pub range_or_any : Text → Text
range_or_any range = if text_eq range [] then codes "*" else range

module _ (url_parse : Text → Option Url) where
  -- Step 3 of `ResolveWithRange`: the names that can be parsed.
  unfoldable pub candidates_of : List Record → List AnsName
  candidates_of [] = []
  candidates_of (r ∷ rs) =
      let rest = candidates_of rs in
      elim (parse url_parse r.ans_name) [ err _ ↦ rest | ok name ↦ name ∷ rest ]

  -- Steps 2 to 4 of `ResolveWithRange`
  abbrev pub choose : Text → Text → Result LookupError (List Record) → Result ResolveError AnsName
  choose name range (err e) = err (lookup_error name e)
  choose name range (ok []) = err (agent_not_found name)
  choose name range (ok (r ∷ rs)) = elim (candidates_of (r ∷ rs)) [
    | [] ↦ err no_valid_candidates
    | c ∷ cs ↦ elim (negotiate_version (c ∷ cs) range) [
      | err e ↦ err (negotiation_failed e)
      | ok best ↦ ok best
    ]
  ]

module _ (cfg : Config) (verifier : Option Verifier) {S : Type 0} (store : Store S) where
  -- Steps 4 and 5 of `Resolve`, on what step 3 returned.
  abbrev pub keep :
      Clock
      → AnsName
      → S
      → Counters
      → Result ResolveError ResolutionRecord
      → State S × Result ResolveError ResolutionRecord
  keep clock name c n (err e) = (record { cache = c; stats = n }, err e)
  keep clock name c n (ok res) =
      let final = record res { verified_at = clock.verified_at } in
      (
        record {
          cache = store.put clock.stored_at (cache_key name) final (ttl_of cfg final.status) c;
          stats = n;
        },
        ok final,
      )

  -- Steps 3 to 5 of `Resolve`, on what the registry returned.
  abbrev pub answer :
      Clock
      → AnsName
      → S
      → Counters
      → Result LookupError Record
      → State S × Result ResolveError ResolutionRecord
  answer clock name c n (err e) =
      (record { cache = c; stats = n }, err (lookup_error (string name) e))
  answer clock name c n (ok r) =
      let judged = verify_record cfg verifier clock.checked_at (string name) r n in
      keep clock name c judged.0 judged.1

  -- The deferred part of a request.
  abbrev pub finish :
      {A : Type 0} → ℕ → State S × Result ResolveError A → State S × Result ResolveError A
  finish latency p = (record p.0 { stats = finished latency p.0.stats }, p.1)

  module _ (registry : Adapter) where
    -- The body of `Resolve`, behind the read of the cache.
    abbrev pub after_read :
        Clock
        → AnsName
        → S
        → Counters
        → Option ResolutionRecord
        → State S × Result ResolveError ResolutionRecord
    after_read clock name c n (some r) = (record { cache = c; stats = hit n }, ok r)
    after_read clock name c n none = answer clock name c (missed n) (registry.lookup name)

    -- `Resolve`
    unfoldable pub resolve :
        Clock → AnsName → State S → State S × Result ResolveError ResolutionRecord
    resolve clock name s =
        let read = store.fetch clock.read_at (cache_key name) s.cache in
        finish clock.latency (after_read clock name read.0 (started s.stats) read.1)

    module _ (url_parse : Text → Option Url) where
      -- `ResolveRaw`
      unfoldable pub resolve_raw :
          Clock → Text → State S → State S × Result ResolveError ResolutionRecord
      resolve_raw clock text s = elim (parse url_parse text) [
        | err e ↦ (s, err (invalid_name e))
        | ok name ↦ resolve clock name s
      ]

      abbrev pub resolve_chosen :
          Clock
          → Result ResolveError AnsName
          → State S
          → State S × Result ResolveError ResolutionRecord
      resolve_chosen clock (err e) s = (s, err e)
      resolve_chosen clock (ok best) s = resolve clock best s

      -- `ResolveWithRange`: the request that it hands to `Resolve` is counted there once more.
      unfoldable pub resolve_with_range :
          Clock → ℕ → AnsName → Text → State S → State S × Result ResolveError ResolutionRecord
      resolve_with_range clock latency name range s =
          let chosen =
            choose url_parse (fqdn name) (range_or_any range)
              (registry.lookup_by_fqdn (fqdn name)) in
          finish latency (resolve_chosen clock chosen (looking_up s))
