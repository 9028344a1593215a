-- ===== src/Resolver/Request/Negotiated.antt =====
-- The version that a request with a range ends in.
use route_ans.Prelude.{
  ℕ, ◌≡◌, refl, List, [], ◌∷◌, Text, Result, ok, err, Option, Result-cases, inl, inr, arith,
}
use route_ans.Models.{ResolutionRecord}
use route_ans.Ansname.Record.{AnsName, fqdn}
use route_ans.Ansname.Parse.{Url}
use route_ans.Ansname.Negotiate.{negotiate_version}
use route_ans.Ansname.Negotiate.Selection.{Selected, negotiate_version-Selected}
use route_ans.Registry.Record.{Record, Adapter, LookupError}
use route_ans.Resolver.Store.{Store}
use route_ans.Resolver.Types.{Config, State, Clock, ResolveError, looking_up}
use route_ans.Resolver.Judge.{Verifier}
use route_ans.Resolver.Request.{candidates_of, choose, range_or_any, resolve, resolve_with_range}

choose_among-Selected :
    (url_parse : Text → Option Url) (name range : Text) (rs : List Record) {best : AnsName}
    → choose url_parse name range (ok rs) ≡ ok best
    → Selected range (candidates_of url_parse rs) best
choose_among-Selected url_parse name range [] h = cc
choose_among-Selected url_parse name range (r ∷ rs) {best} h =
    go (candidates_of url_parse (r ∷ rs)) refl
  where
    go :
        (l : List AnsName)
        → candidates_of url_parse (r ∷ rs) ≡ l
        → Selected range (candidates_of url_parse (r ∷ rs)) best
    go [] e = cc
    go (c ∷ cs) e = elim (Result-cases (negotiate_version (c ∷ cs) range)) [
      | inl (b, picked) ↦ rw e (negotiate_version-Selected (c ∷ cs) range (ground arith))
      | inr (x, none_picked) ↦ cc
    ]

choose-Selected :
    (url_parse : Text → Option Url) (name range : Text) (m : Result LookupError (List Record))
    {best : AnsName}
    → choose url_parse name range m ≡ ok best
    → (rs : List Record) × (m ≡ ok rs) × Selected range (candidates_of url_parse rs) best
choose-Selected url_parse name range (err e) h = cc
choose-Selected url_parse name range (ok rs) h =
    (rs, refl, choose_among-Selected url_parse name range rs h)

-- A request with a range that succeeds has the answer of `Resolve` for a name which the registry
-- listed under the FQDN, which fits the range, and which no listed name that fits is newer than.
pub resolve_with_range-Selected :
    (cfg : Config) (verifier : Option Verifier) {S : Type 0} (store : Store S) (registry : Adapter)
    (url_parse : Text → Option Url) (clock : Clock) (latency : ℕ) (name : AnsName) (range : Text)
    (s : State S) {r : ResolutionRecord}
    → (resolve_with_range cfg verifier store registry url_parse clock latency name range s).1 ≡ ok r
    → (best : AnsName) × (rs : List Record) × (registry.lookup_by_fqdn (fqdn name) ≡ ok rs)
      × Selected (range_or_any range) (candidates_of url_parse rs) best
      × ((resolve cfg verifier store registry clock best (looking_up s)).1 ≡ ok r)
unfolding resolve_with_range
resolve_with_range-Selected cfg verifier store registry url_parse clock latency name range s {r} h =
    elim (Result-cases chosen) [
      | inl (best, e) ↦
          let (rs, listed, picked) =
            choose-Selected url_parse (fqdn name) (range_or_any range)
              (registry.lookup_by_fqdn (fqdn name)) e in
          (best, rs, listed, picked, cc (h, e))
      | inr (x, e) ↦ cc (h, e)
    ]
  where
    chosen : Result ResolveError AnsName
    chosen = choose url_parse (fqdn name) (range_or_any range) (registry.lookup_by_fqdn (fqdn name))
