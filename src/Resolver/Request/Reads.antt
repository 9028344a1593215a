-- ===== src/Resolver/Request/Reads.antt =====
-- What is read after a request or an event.
use route_ans.Prelude.{
  ℕ, ◌+◌, ◌≤◌, ◌<◌, ◌≡◌, ◌≢◌, refl, ◌∙◌, true, Option, none, some, Text, text_eq, text_eq_iff, inl,
  inr, Bool-cases, Result-cases, Result, ok, err, if◌then◌else◌, arith,
}
use route_ans.Prelude.Int.{ℤ, pos}
use route_ans.Models.{ResolutionRecord, status_active, status_revoked}
use route_ans.Ansname.Record.{AnsName, string, cache_key}
use route_ans.Ansname.Parse.{Url, parse}
use route_ans.Registry.Record.{Record, Adapter, Event, LookupError}
use route_ans.Resolver.Store.{Store, StoreLaws}
use route_ans.Resolver.Types.{Config, Counters, State, Clock, ResolveError, started, missed, hit}
use route_ans.Resolver.Judge.{Verifier, verify_record, ttl_of}
use route_ans.Resolver.Events.{
  process_event, handle_queue_event, drops_entry, queue_drops_entry, invalidate,
}
use route_ans.Resolver.Request.{keep, answer, after_read, resolve}
use route_ans.Resolver.Request.Counts.{answer-counts}

abbrev pub Long : ℕ → ℤ → Type 0
Long d ttl = (n : ℕ) × (ttl ≡ pos n) × (d ≤ n)

-- The TTLs of a resolver are at least `d`, which is not zero.
pub record LastsFor (d : ℕ) (cfg : Config) : Type 0 where
  pub positive : 0 < d
  pub default_long : Long d cfg.default_ttl
  pub verified_long : Long d cfg.verified_ttl
  pub revoked_long : Long d cfg.revoked_ttl

ttl_of-Long : (d : ℕ) (cfg : Config) → LastsFor d cfg → (status : Text) → Long d (ttl_of cfg status)
unfolding ttl_of
ttl_of-Long d cfg l status = elim (Bool-cases (text_eq status status_active)) [
  | inl active ↦ rw active l.verified_long
  | inr other ↦ elim (Bool-cases (text_eq status status_revoked)) [
    | inl revoked ↦ rw (other, revoked) l.revoked_long
    | inr neither ↦ rw (other, neither) l.default_long
  ]
]

module _ (cfg : Config) (verifier : Option Verifier) {S : Type 0} (store : Store S)
    (laws : StoreLaws store) where
  pub keep_view :
      (clock : Clock) (name : AnsName) (c : S) (n : Counters)
      (m : Result ResolveError ResolutionRecord) (d : ℕ) {r : ResolutionRecord}
      → LastsFor d cfg
      → store.Good c
      → (keep cfg verifier store clock name c n m).1 ≡ ok r
      → (t : ℕ) → t ≤ clock.stored_at + d
      → store.in_view t (keep cfg verifier store clock name c n m).0.cache (cache_key name) ≡ some r
  keep_view clock name c n (err e) d l good h t p = cc
  keep_view clock name c n (ok res) d l good h t p =
      let final = record res { verified_at = clock.verified_at } in
      let (k, e, long) = ttl_of-Long d cfg l final.status in
      cc (
        e,
        h,
        laws.put_kept clock.stored_at (cache_key name) final k c t good (omega (arith, l.positive))
            (omega arith),
      )

  answer_view :
      (clock : Clock) (name : AnsName) (c : S) (n : Counters) (m : Result LookupError Record)
      (d : ℕ) {r : ResolutionRecord}
      → LastsFor d cfg
      → store.Good c
      → (answer cfg verifier store clock name c n m).1 ≡ ok r
      → (t : ℕ) → t ≤ clock.stored_at + d
      → store.in_view t (answer cfg verifier store clock name c n m).0.cache (cache_key name)
        ≡ some r
  answer_view clock name c n (err e) d l good h t p = cc
  answer_view clock name c n (ok rec) d l good h t p =
      let judged = verify_record cfg verifier clock.checked_at (string name) rec n in
      keep_view clock name c judged.0 judged.1 d l good h t p

  -- A request that missed and succeeded leaves its result in view, and counts no hit.
  missed_view :
      (registry : Adapter) (clock : Clock) (name : AnsName) (c : S) (n : Counters)
      (found : Option ResolutionRecord) (d : ℕ) {r : ResolutionRecord}
      → LastsFor d cfg
      → store.Good c
      → found ≡ none
      → (after_read cfg verifier store registry clock name c n found).1 ≡ ok r
      → (let after = (after_read cfg verifier store registry clock name c n found).0 in
          (after.stats.cache_hits ≡ n.cache_hits)
          × ((t : ℕ)
              → t ≤ clock.stored_at + d
              → store.in_view t after.cache (cache_key name) ≡ some r))
  missed_view registry clock name c n (some r) d l good e h = cc
  missed_view registry clock name c n none d l good e h = (
    ground (
      arith,
      answer-counts cfg verifier store registry clock name c (missed n) (registry.lookup name),
    ),
    λ t p. answer_view clock name c (missed n) (registry.lookup name) d l good h t p,
  )

  -- A request that hits returns what was found, and counts the hit and nothing else.
  pub hit_answer :
      (registry : Adapter) (clock : Clock) (name : AnsName) (c : S) (n : Counters)
      (found : Option ResolutionRecord) {r : ResolutionRecord}
      → found ≡ some r
      → ((after_read cfg verifier store registry clock name c n found).1 ≡ ok r)
        × ((after_read cfg verifier store registry clock name c n found).0.stats ≡ hit n)
  hit_answer registry clock name c n (some r) e = (cc, refl)
  hit_answer registry clock name c n none e = (cc, cc)

  -- A name that was not in view in a valid cache and was resolved is then answered from the cache:
  -- the next request, if it has the same cache key and reads within the shortest TTL, gets the same
  -- record, makes no lookup and no verification and counts a hit, whatever the registry has become.
  pub resolve-hit_after_miss :
      (registry later : Adapter) (clock next : Clock) (name other : AnsName) (s : State S) (d : ℕ)
      {r : ResolutionRecord}
      → LastsFor d cfg
      → store.Good s.cache
      → store.in_view clock.read_at s.cache (cache_key name) ≡ none
      → (resolve cfg verifier store registry clock name s).1 ≡ ok r
      → cache_key other ≡ cache_key name
      → next.read_at ≤ clock.stored_at + d
      → (let middle = (resolve cfg verifier store registry clock name s).0 in
          let last = resolve cfg verifier store later next other middle in
          (last.1 ≡ ok r)
          × (last.0.stats.cache_hits ≡ s.stats.cache_hits + 1)
          × (last.0.stats.registry_lookups ≡ middle.stats.registry_lookups)
          × (last.0.stats.verification_success ≡ middle.stats.verification_success)
          × (last.0.stats.verification_failures ≡ middle.stats.verification_failures))
  unfolding resolve
  resolve-hit_after_miss registry later clock next name other s d {r} lasts good miss h same soon =
      let read = store.fetch clock.read_at (cache_key name) s.cache in
      let left =
        missed_view registry clock name read.0 (started s.stats) read.1 d lasts
          (laws.fetch-Good clock.read_at (cache_key name) s.cache good)
          (laws.fetch_value clock.read_at (cache_key name) s.cache ∙ miss) h in
      let middle = (resolve cfg verifier store registry clock name s).0 in
      let again = store.fetch next.read_at (cache_key other) middle.cache in
      let found : again.1 ≡ some r = cc (
        laws.fetch_value next.read_at (cache_key other) middle.cache,
        same,
        left.1 next.read_at soon,
      ) in
      let (answered, counted) =
        hit_answer later next other again.0 (started middle.stats) again.1 found in
      (
        answered,
        ground (arith, counted, left.0),
        ground (arith, counted),
        ground (arith, counted),
        ground (arith, counted),
      )

  -- An event of the registry that says revoked, deprecated or updated takes the entry of the name
  -- that its text is parsed to out of view, at every time, and no other; any other event and a text
  -- that cannot be parsed change nothing in view.
  pub process_event-view :
      (url_parse : Text → Option Url) (e : Event) (s : State S) (t : ℕ) (j : Text)
      → store.in_view t (process_event store url_parse e s).cache j ≡ (
          if drops_entry e.kind
          then elim (parse url_parse e.ans_name) [
            | err _ ↦ store.in_view t s.cache j
            | ok name ↦ if text_eq (cache_key name) j then none else store.in_view t s.cache j
          ]
          else store.in_view t s.cache j)
  unfolding process_event invalidate
  process_event-view url_parse e s t j = elim (Result-cases (parse url_parse e.ans_name)) [
    | inl (name, read) ↦ ground (arith, laws.drop_view (cache_key name) s.cache t j)
    | inr (x, unread) ↦ ground arith
  ]

  -- An event of the queue deletes under the name as it is written: the entry of the name that this
  -- text is parsed to goes out of view, for the five types of events that delete, if the text is its
  -- cache key, and stays as it was, for any type, if the text is another spelling.
  pub handle_queue_event-view :
      (url_parse : Text → Option Url) (kind text : Text) (s : State S) (t : ℕ) {name : AnsName}
      → parse url_parse text ≡ ok name
      → (cache_key name ≡ text
          → queue_drops_entry kind ≡ true
          → store.in_view t (handle_queue_event store kind text s).cache (cache_key name) ≡ none)
        × (cache_key name ≢ text
            → store.in_view t (handle_queue_event store kind text s).cache (cache_key name)
              ≡ store.in_view t s.cache (cache_key name))
  unfolding handle_queue_event
  handle_queue_event-view url_parse kind text s t {name} h = (
    λ e k.
        ground (
          arith,
          laws.drop_view text s.cache t (cache_key name),
          text_eq_iff text (cache_key name),
        ),
    λ n.
        ground (
          arith,
          laws.drop_view text s.cache t (cache_key name),
          text_eq_iff text (cache_key name),
        ),
  )
