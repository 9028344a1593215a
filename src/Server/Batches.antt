-- ===== src/Server/Batches.antt =====
-- What the batch handler answers, over a strict resolver.
use route_ans.Prelude.{
  ℕ, ◌+◌, ◌≡◌, ◌⊎◌, inl, inr, refl, subst, ap, ◌∙◌, Bool, ◌||◌, Option, some, List, [], ◌∷◌, Text,
  codes, text_eq, Result, ok, err, arith, Bool-cases, Result-cases,
}
use route_ans.Models.{ResolutionRecord}
use route_ans.Ansname.Record.{contains}
use route_ans.Ansname.Parse.{Url, parse}
use route_ans.Cache.Table.{lookup, insert, has_key, lookup-insert}
use route_ans.Registry.Record.{Adapter}
use route_ans.Resolver.Store.{Store, StoreLaws}
use route_ans.Resolver.Types.{Config, State, Clock, ResolveError}
use route_ans.Resolver.Judge.{Verifier}
use route_ans.Resolver.Judge.Vouched.{Vouched, ResultVouched}
use route_ans.Resolver.Request.Strict.{Clean, resolve-Clean}
use route_ans.Server.Handlers.{
  ResolutionResponse, failed_entry, entry_of, error_status, Results, batch_entry, batch_entries,
  handle_resolve_batch,
}

-- An entry of a batch is a failed one, or has the fields of a record that is vouched for.
abbrev pub EntryVouched : Verifier → ResolutionResponse → Type 0
EntryVouched f e =
    ((status : Text) × (e ≡ failed_entry status))
    ⊎ ((x : ResolutionRecord) × Vouched f x × (e ≡ entry_of (ok x)))

entry_of-Vouched :
    (f : Verifier) (m : Result ResolveError ResolutionRecord)
    → ResultVouched f m
    → EntryVouched f (entry_of m)
entry_of-Vouched f (err e) v = inl (error_status e, refl)
entry_of-Vouched f (ok r) v = inr (r, v, refl)

-- Every entry of the map is vouched for.
abbrev pub ResultsVouched : Verifier → Results → Type 0
ResultsVouched f m = (j : Text) (e : ResolutionResponse) → lookup j m ≡ some e → EntryVouched f e

has_key-insert :
    (k j : Text) (e : ResolutionResponse) (m : Results)
    → has_key j (insert k e m) ≡ (text_eq k j || has_key j m)
has_key-insert k j e m = rw (has_key, lookup-insert k j e m) (ground arith)

or_swap : (a b c : Bool) → (a || (b || c)) ≡ ((b || a) || c)
or_swap a b c = ground arith

insert-Vouched :
    (f : Verifier) (k : Text) (e : ResolutionResponse) (m : Results)
    → EntryVouched f e
    → ResultsVouched f m
    → ResultsVouched f (insert k e m)
insert-Vouched f k e m w v j x h = elim (Bool-cases (text_eq k j)) [
  | inl here ↦ subst (EntryVouched f) (ground (arith, lookup-insert k j e m)) w
  | inr other ↦ v j x (ground (arith, lookup-insert k j e m))
]

module _ (cfg : Config) (f : Verifier) (strict : cfg.verification_mode ≡ codes "strict")
    {S : Type 0} (store : Store S) (laws : StoreLaws store) (registry : Adapter)
    (url_parse : Text → Option Url) where
  batch_entry-Vouched :
      (clock : Clock) (text : Text) (s : State S)
      → Clean cfg f strict store laws s.cache
      → Clean cfg f strict store laws
          (batch_entry cfg (some f) store registry url_parse clock text s).0.cache
        × EntryVouched f (batch_entry cfg (some f) store registry url_parse clock text s).1
  unfolding batch_entry
  batch_entry-Vouched clock text s v = elim (Result-cases (parse url_parse text)) [
    | inr (x, unread) ↦ rw (unread, batch_entry) (v, inl (codes "error", refl))
    | inl (name, read) ↦
        let step = resolve-Clean cfg f strict store laws registry clock name s v in
        rw (read, batch_entry) (step.0, entry_of-Vouched f _ step.1)
  ]

  -- What is promised of the map that a batch for `texts` has made out of `results`.
  pub record Filled (texts : List Text) (results : Results) (p : State S × Results) : Type 0 where
    pub clean : Clean cfg f strict store laws p.0.cache
    pub keys : (j : Text) → has_key j p.1 ≡ (contains texts j || has_key j results)
    pub vouched : ResultsVouched f p.1

  batch_entries-Filled :
      (clocks : ℕ → Clock) (round : ℕ) (texts : List Text) (s : State S) (results : Results)
      → Clean cfg f strict store laws s.cache
      → ResultsVouched f results
      → Filled texts results
          (batch_entries cfg (some f) store registry url_parse clocks round texts s results)
  unfolding batch_entries contains
  batch_entries-Filled clocks round [] s results v w = record {
    clean = v;
    keys = λ j. ground arith;
    vouched = w;
  }
  batch_entries-Filled clocks round (text ∷ texts) s results v w =
      let entry = batch_entry cfg (some f) store registry url_parse (clocks round) text s in
      let step = batch_entry-Vouched (clocks round) text s v in
      let rest =
        batch_entries-Filled clocks (round + 1) texts entry.0 (insert text entry.1 results) step.0
          (insert-Vouched f text entry.1 results step.1 w) in
      record {
        clean = rest.clean;
        keys = λ j.
            rest.keys j
            ∙ ap (λ b. contains texts j || b) (has_key-insert text j entry.1 results)
            ∙ or_swap (contains texts j) (text_eq text j) (has_key j results);
        vouched = rest.vouched;
      }

  -- A strict server with a verifier on a clean cache answers `POST /v1/resolve/batch` with a map of
  -- exactly the names of the request; an entry is a failed one, or is made of a record that is vouched
  -- for; and the cache stays clean.
  pub handle_resolve_batch-Filled :
      (clocks : ℕ → Clock) (texts : List Text) (s : State S)
      → Clean cfg f strict store laws s.cache
      → (results : Results) × (handle_resolve_batch cfg
            (some f)
            store
            registry
            url_parse
            clocks
            (some texts)
            s
          ≡ (
            (handle_resolve_batch cfg (some f) store registry url_parse clocks (some texts) s).0,
            record { code = 200; body = some results },
          ))
        × Filled texts [] (
          (handle_resolve_batch cfg (some f) store registry url_parse clocks (some texts) s).0,
          results,
        )
  unfolding handle_resolve_batch lookup
  handle_resolve_batch-Filled clocks texts s v =
      let all = batch_entries cfg (some f) store registry url_parse clocks 0 texts s [] in
      (all.1, refl, batch_entries-Filled clocks 0 texts s [] v (λ j e h. cc))
