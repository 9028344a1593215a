-- ===== src/Resolver/Request/Strict.antt =====
-- Strict verification: what is served and what is cached.
use route_ans.Prelude.{
  ℕ, ◌≡◌, refl, sym, subst, ◌∙◌, inl, inr, Option, none, some, Text, codes, text_eq, Result, ok,
  err, arith, Bool-cases, Result-cases,
}
use route_ans.Prelude.Int.{ℤ}
use route_ans.Models.{ResolutionRecord}
use route_ans.Ansname.Record.{AnsName, string, cache_key, fqdn}
use route_ans.Ansname.Parse.{Url, parse}
use route_ans.Registry.Record.{Record, Adapter, Event, LookupError}
use route_ans.Resolver.Store.{Store, StoreLaws}
use route_ans.Resolver.Types.{
  Config, Counters, State, Clock, ResolveError, started, missed, looking_up,
}
use route_ans.Resolver.Judge.{Verifier, verify_record, ttl_of}
use route_ans.Resolver.Events.{
  process_event, handle_queue_event, invalidate, drops_entry, queue_drops_entry,
}
use route_ans.Resolver.Request.{
  keep, answer, after_read, resolve, resolve_chosen, resolve_with_range, choose, range_or_any,
}
use route_ans.Resolver.Judge.Vouched.{Vouched, ResultVouched, judge-Vouched, timed-Vouched}

module _ (cfg : Config) (f : Verifier) (strict : cfg.verification_mode ≡ codes "strict")
    {S : Type 0} (store : Store S) (laws : StoreLaws store) where
  -- A valid cache in which every value that can be read, at any time, is vouched for.
  pub record Clean (c : S) : Type 0 where
    pub good : store.Good c
    pub vouched :
        (t : ℕ) (j : Text) {r : ResolutionRecord} → store.in_view t c j ≡ some r → Vouched f r

  pub verify_record-Vouched :
      (now : ℕ) (name : Text) (source : Record) (n : Counters)
      → ResultVouched f (verify_record cfg (some f) now name source n).1
  unfolding verify_record text_eq
  verify_record-Vouched now name source n =
      rw (strict, verify_record) (judge-Vouched f now name source n (f now source) refl)

  pub fetch-Clean : (now : ℕ) (k : Text) (c : S) → Clean c → Clean (store.fetch now k c).0
  fetch-Clean now k c v = record {
    good = laws.fetch-Good now k c v.good;
    vouched = λ t j {r} e. v.vouched t j (sym (laws.fetch_view now k c t j) ∙ e);
  }

  drop-Clean : (k : Text) (c : S) → Clean c → Clean (store.drop_key k c)
  drop-Clean k c v = record {
    good = laws.drop-Good k c v.good;
    vouched = λ t j {r} e. v.vouched t j (ground (arith, laws.drop_view k c t j));
  }

  put-Clean :
      (now : ℕ) (k : Text) (x : ResolutionRecord) (ttl : ℤ) (c : S)
      → Vouched f x
      → Clean c
      → Clean (store.put now k x ttl c)
  put-Clean now k x ttl c w v = record {
    good = laws.put-Good now k x ttl c v.good;
    vouched = λ t j {r} e. elim (laws.put_only now k x ttl c t j v.good e) [
      | inl (here, same) ↦ subst (Vouched f) (sym same) w
      | inr old ↦ v.vouched t j old
    ];
  }

  -- A step keeps the cache clean and answers with what is vouched for.
  abbrev pub CleanStep : State S × Result ResolveError ResolutionRecord → Type 0
  CleanStep p = Clean p.0.cache × ResultVouched f p.1

  pub keep-Clean :
      (clock : Clock) (name : AnsName) (c : S) (n : Counters)
      (m : Result ResolveError ResolutionRecord)
      → Clean c
      → ResultVouched f m
      → CleanStep (keep cfg (some f) store clock name c n m)
  keep-Clean clock name c n (err e) v w = (v, tt)
  keep-Clean clock name c n (ok r) v w =
      let timed = timed-Vouched f clock.verified_at r w in
      (put-Clean clock.stored_at (cache_key name) _ (ttl_of cfg r.status) c timed v, timed)

  answer-Clean :
      (clock : Clock) (name : AnsName) (c : S) (n : Counters) (m : Result LookupError Record)
      → Clean c
      → CleanStep (answer cfg (some f) store clock name c n m)
  answer-Clean clock name c n (err e) v = (v, tt)
  answer-Clean clock name c n (ok source) v =
      let judged = verify_record cfg (some f) clock.checked_at (string name) source n in
      keep-Clean clock name c judged.0 judged.1 v
        (verify_record-Vouched clock.checked_at (string name) source n)

  after_read-Clean :
      (registry : Adapter) (clock : Clock) (name : AnsName) (c : S) (n : Counters)
      (found : Option ResolutionRecord)
      → Clean c
      → ((r : ResolutionRecord) → found ≡ some r → Vouched f r)
      → CleanStep (after_read cfg (some f) store registry clock name c n found)
  after_read-Clean registry clock name c n (some r) v w = (v, w r refl)
  after_read-Clean registry clock name c n none v w =
      answer-Clean clock name c (missed n) (registry.lookup name) v

  pub resolve-Clean :
      (registry : Adapter) (clock : Clock) (name : AnsName) (s : State S)
      → Clean s.cache
      → CleanStep (resolve cfg (some f) store registry clock name s)
  unfolding resolve
  resolve-Clean registry clock name s v =
      let read = store.fetch clock.read_at (cache_key name) s.cache in
      after_read-Clean registry clock name read.0 (started s.stats) read.1
        (fetch-Clean clock.read_at (cache_key name) s.cache v)
        λ r e.
          v.vouched clock.read_at (cache_key name)
            (sym (laws.fetch_value clock.read_at (cache_key name) s.cache) ∙ e)

  resolve_chosen-Clean :
      (registry : Adapter) (url_parse : Text → Option Url) (clock : Clock)
      (chosen : Result ResolveError AnsName) (s : State S)
      → Clean s.cache
      → CleanStep (resolve_chosen cfg (some f) store registry url_parse clock chosen s)
  resolve_chosen-Clean registry url_parse clock (err e) s v = (v, tt)
  resolve_chosen-Clean registry url_parse clock (ok best) s v =
      resolve-Clean registry clock best s v

  pub resolve_with_range-Clean :
      (registry : Adapter) (url_parse : Text → Option Url) (clock : Clock) (latency : ℕ)
      (name : AnsName) (range : Text) (s : State S)
      → Clean s.cache
      → CleanStep
          (resolve_with_range cfg (some f) store registry url_parse clock latency name range s)
  unfolding resolve_with_range
  resolve_with_range-Clean registry url_parse clock latency name range s v =
      resolve_chosen-Clean registry url_parse clock
        (choose url_parse (fqdn name) (range_or_any range) (registry.lookup_by_fqdn (fqdn name)))
        (looking_up s) v

  -- The states that requests and events lead to; the registry may answer differently each time.
  pub data Reaches (start : State S) : State S → Type 0 where
    at_start : Reaches start start
    resolved :
        (registry : Adapter) (clock : Clock) (name : AnsName) {s : State S}
        → Reaches start s
        → Reaches start (resolve cfg (some f) store registry clock name s).0
    ranged :
        (registry : Adapter) (url_parse : Text → Option Url) (clock : Clock) (latency : ℕ)
        (name : AnsName) (range : Text) {s : State S}
        → Reaches start s
        → Reaches start
            (resolve_with_range cfg (some f) store registry url_parse clock latency name range s).0
    registry_event :
        (url_parse : Text → Option Url) (e : Event) {s : State S}
        → Reaches start s
        → Reaches start (process_event store url_parse e s)
    queue_event :
        (kind text : Text) {s : State S}
        → Reaches start s
        → Reaches start (handle_queue_event store kind text s)

  process_event-Clean :
      (url_parse : Text → Option Url) (e : Event) (s : State S)
      → Clean s.cache
      → Clean (process_event store url_parse e s).cache
  unfolding process_event invalidate
  process_event-Clean url_parse e s v = elim (Bool-cases (drops_entry e.kind)) [
    | inr other ↦ rw (other, process_event) v
    | inl listed ↦ elim (Result-cases (parse url_parse e.ans_name)) [
      | inl (name, read) ↦ rw (listed, read, process_event) (drop-Clean (cache_key name) s.cache v)
      | inr (x, unread) ↦ rw (listed, unread, process_event) v
    ]
  ]

  handle_queue_event-Clean :
      (kind text : Text) (s : State S)
      → Clean s.cache
      → Clean (handle_queue_event store kind text s).cache
  unfolding handle_queue_event
  handle_queue_event-Clean kind text s v = elim (Bool-cases (queue_drops_entry kind)) [
    | inl listed ↦ rw (listed, handle_queue_event) (drop-Clean text s.cache v)
    | inr other ↦ rw (other, handle_queue_event) v
  ]

  Reaches-Clean : (start s : State S) → Clean start.cache → Reaches start s → Clean s.cache
  Reaches-Clean start s v at_start = v
  Reaches-Clean start _ v (resolved registry clock name {s} r) =
      (resolve-Clean registry clock name s (Reaches-Clean start s v r)).0
  Reaches-Clean start _ v (ranged registry url_parse clock latency name range {s} r) =
      (resolve_with_range-Clean registry url_parse clock latency name range s
        (Reaches-Clean start s v r)).0
  Reaches-Clean start _ v (registry_event url_parse e {s} r) =
      process_event-Clean url_parse e s (Reaches-Clean start s v r)
  Reaches-Clean start _ v (queue_event kind text {s} r) =
      handle_queue_event-Clean kind text s (Reaches-Clean start s v r)

  -- A strict resolver with a verifier, started on a clean cache, answers a request after any requests
  -- and events only with the whole conversion of a record that the verifier found valid at some time,
  -- made active, with the proof of that verdict and a time of verification, be it from the registry or
  -- from the cache; and the cache stays clean. The verifier may answer differently at each time.
  pub resolve-Vouched :
      (start s : State S) (registry : Adapter) (clock : Clock) (name : AnsName)
      {r : ResolutionRecord}
      → Clean start.cache
      → Reaches start s
      → (resolve cfg (some f) store registry clock name s).1 ≡ ok r
      → Vouched f r × Clean (resolve cfg (some f) store registry clock name s).0.cache
  resolve-Vouched start s registry clock name {r} v reach h =
      let (clean, vouched) = resolve-Clean registry clock name s (Reaches-Clean start s v reach) in
      (subst (ResultVouched f) h vouched, clean)
