-- ===== src/Resolver/Parallel/Stale.antt =====
-- Events that arrive while a request is under way: `Resolve` and `ProcessEvent` of
-- internal/resolver/resolver.go, and `handleQueueEvent` of internal/server/http.go.
use route_ans.Prelude.{
  ℕ, ◌+◌, ◌≤◌, ◌≡◌, refl, ◌∙◌, true, Option, none, some, List, [], ◌∷◌, Text, text_eq_refl, ok,
  Bool-cases, inl, inr, Result-cases,
}
use route_ans.Models.{ResolutionRecord}
use route_ans.Ansname.Record.{AnsName, cache_key}
use route_ans.Ansname.Parse.{Url, parse}
use route_ans.Registry.Record.{Adapter, Event}
use route_ans.Resolver.Store.{Store, StoreLaws}
use route_ans.Resolver.Types.{Config, State, Clock, started}
use route_ans.Resolver.Judge.{Verifier}
use route_ans.Resolver.Events.{
  process_event, handle_queue_event, invalidate, drops_entry, queue_drops_entry,
}
use route_ans.Resolver.Request.{resolve}
use route_ans.Resolver.Request.Reads.{LastsFor, keep_view, hit_answer, process_event-view}
use route_ans.Resolver.Parallel.{judged, Batch, BatchStep, write, after_write}

-- An event of the registry, or one of the queue with its type and name.
pub data Heard : Type 0 where
  from_registry : Event → Heard
  from_queue : Text → Text → Heard

module _ {S : Type 0} (store : Store S) (url_parse : Text → Option Url) where
  abbrev pub heard : Heard → State S → State S
  heard (from_registry e) s = process_event store url_parse e s
  heard (from_queue kind name) s = handle_queue_event store kind name s

  abbrev pub heard_all : List Heard → State S → State S
  heard_all [] s = s
  heard_all (e ∷ es) s = heard_all es (heard e s)

  -- Events between two parts of the goroutines.
  abbrev pub interrupted : List Heard → Batch S → Batch S
  interrupted es b = record b { shared = heard_all es b.shared }

  -- The events that drop the entry under a cache key.
  abbrev pub Drops : Heard → Text → Type 0
  Drops (from_registry e) k =
      (name : AnsName) × (drops_entry e.kind ≡ true)
      × (parse url_parse e.ans_name ≡ ok name)
      × (cache_key name ≡ k)
  Drops (from_queue kind name) k = (queue_drops_entry kind ≡ true) × (name ≡ k)

  heard-Good :
      (laws : StoreLaws store) (e : Heard) (s : State S)
      → store.Good s.cache
      → store.Good (heard e s).cache
  unfolding process_event handle_queue_event invalidate
  heard-Good laws (from_queue kind name) s good = elim (Bool-cases (queue_drops_entry kind)) [
    | inl drops ↦ rw drops (laws.drop-Good name s.cache good)
    | inr keeps ↦ rw keeps good
  ]
  heard-Good laws (from_registry e) s good = elim (Bool-cases (drops_entry e.kind)) [
    | inr keeps ↦ rw keeps good
    | inl drops ↦ elim (Result-cases (parse url_parse e.ans_name)) [
      | inl (name, read) ↦ rw (drops, read) (laws.drop-Good (cache_key name) s.cache good)
      | inr (x, unread) ↦ rw (drops, unread) good
    ]
  ]

  heard_all-Good :
      (laws : StoreLaws store) (es : List Heard) (s : State S)
      → store.Good s.cache
      → store.Good (heard_all es s).cache
  heard_all-Good laws [] s good = good
  heard_all-Good laws (e ∷ es) s good =
      heard_all-Good laws es (heard e s) (heard-Good laws e s good)

module _ (cfg : Config) (verifier : Option Verifier) {S : Type 0} (store : Store S)
    (laws : StoreLaws store) (url_parse : Text → Option Url) where
  heard-Drops :
      (e : Heard) (s : State S) (t : ℕ) (k : Text)
      → Drops store url_parse e k
      → store.in_view t (heard store url_parse e s).cache k ≡ none
  unfolding handle_queue_event
  heard-Drops (from_registry e) s t k (name, drops, read, same) =
      process_event-view cfg verifier store laws url_parse e s t k
      ∙ rw (drops, read, same, text_eq_refl k) refl
  heard-Drops (from_queue kind name) s t k (drops, same) =
      rw (drops, same, laws.drop_view k s.cache t k, text_eq_refl k) refl

  in_view-resolve :
      (registry : Adapter) (clock : Clock) (name : AnsName) (s : State S) {r : ResolutionRecord}
      → store.in_view clock.read_at s.cache (cache_key name) ≡ some r
      → (resolve cfg verifier store registry clock name s).1 ≡ ok r
  unfolding resolve
  in_view-resolve registry clock name s h =
      let read = store.fetch clock.read_at (cache_key name) s.cache in
      (hit_answer cfg verifier store laws registry clock name read.0 (started s.stats) read.1
        (laws.fetch_value clock.read_at (cache_key name) s.cache ∙ h)).0

  -- An event that arrives too early has no effect: whatever events of the registry and the queue come
  -- between the verification of a record by a goroutine and its write, they leave its step to it, and
  -- after it every request with its cache key that reads within the shortest TTL is answered with
  -- that record. An event that drops the entry under this cache key does so if it comes after the
  -- step.
  pub early_event-stale :
      (limit : ℕ) (names : ℕ → AnsName) (b : Batch S) (i : ℕ) (clock : Clock) (events : List Heard)
      (d : ℕ) {res : ResolutionRecord}
      → LastsFor d cfg
      → store.Good b.shared.cache
      → b.phase i ≡ judged (ok res)
      → (let b' = interrupted store url_parse events b in
          let after = after_write cfg verifier store limit names i clock (ok res) b' in
          let final = record res { verified_at = clock.verified_at } in
          BatchStep cfg verifier store limit names b' after
          × ((later : Adapter) (next : Clock) (name : AnsName)
              → cache_key name ≡ cache_key (names i)
              → next.read_at ≤ clock.stored_at + d
              → (resolve cfg verifier store later next name after.shared).1 ≡ ok final)
          × ((e : Heard) (t : ℕ)
              → Drops store url_parse e (cache_key (names i))
              → store.in_view t (heard store url_parse e after.shared).cache (cache_key (names i))
                ≡ none))
  early_event-stale limit names b i clock events d {res} lasts good at =
      let b' = interrupted store url_parse events b in
      let after = after_write cfg verifier store limit names i clock (ok res) b' in
      let kept =
        keep_view cfg verifier store laws clock (names i) b'.shared.cache b'.shared.stats (ok res) d
          lasts (heard_all-Good store url_parse laws events b.shared good) refl in
      (
        write i clock (ok res) at,
        λ later next name same soon.
            in_view-resolve later next name after.shared (rw same (kept next.read_at soon)),
        λ e t drops. heard-Drops e after.shared t (cache_key (names i)) drops,
      )
