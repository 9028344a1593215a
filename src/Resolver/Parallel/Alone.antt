-- ===== src/Resolver/Parallel/Alone.antt =====
-- A goroutine that runs while the others wait does what `Resolve` does.
use route_ans.Prelude.{
  ℕ, ◌<◌, ◌≡◌, ◌≢◌, refl, sym, ap, ◌∙◌, Option, none, some, Result, ok, err, arith, Option-cases,
  inl, inr,
}
use route_ans.Models.{ResolutionRecord}
use route_ans.Ansname.Record.{AnsName, cache_key}
use route_ans.Registry.Record.{Adapter, Record, LookupError}
use route_ans.Resolver.Store.{Store}
use route_ans.Resolver.Types.{Config, Counters, State, Clock, started, missed}
use route_ans.Resolver.Judge.{Verifier}
use route_ans.Resolver.Request.{resolve, answer, keep, finish}
use route_ans.Resolver.Parallel.{
  Outcome, Phase, queued, admitted, judged, resolved, done, Batch, update, look_up, looked_up,
  written, acquire, read, look, write, release, BatchReach, stepped, acquired, after_read,
  after_look, after_write, released,
}

at_update : (phase : ℕ → Phase) (i : ℕ) (p : Phase) → update phase i p i ≡ p
at_update phase i p = ground arith

module _ (cfg : Config) (verifier : Option Verifier) {S : Type 0} (store : Store S) (limit : ℕ)
    (names : ℕ → AnsName) (s : State S) where
  -- Steps 2 to 5 of `Resolve` in two parts.
  in_parts :
      (clock : Clock) (name : AnsName) (c : S) (n : Counters) (m : Result LookupError Record)
      → (let found = look_up cfg verifier store limit names clock.checked_at name n m in
          answer cfg verifier store clock name c n m
          ≡ keep cfg verifier store clock name c found.0 found.1)
  in_parts clock name c n (err e) = refl
  in_parts clock name c n (ok r) = refl

  -- The batch that a goroutine leaves behind.
  pub record Ran (registry : Adapter) (clock : Clock) (i : ℕ) (b b' : Batch S) : Type 0 where
    pub reached : BatchReach cfg verifier store limit names s b'
    pub shared : b'.shared ≡ (resolve cfg verifier store registry clock (names i) b.shared).0
    pub outcome : b'.phase i ≡ done (resolve cfg verifier store registry clock (names i) b.shared).1
    pub slots : b'.in_flight ≡ b.in_flight
    pub others : (j : ℕ) → j ≢ i → b'.phase j ≡ b.phase j

  module _ (registry : Adapter) (clock : Clock) (i : ℕ) (b : Batch S)
      (reach : BatchReach cfg verifier store limit names s b) (waiting : b.phase i ≡ queued)
      (room : b.in_flight < limit) where
    abbrev ready : Batch S
    ready = acquired cfg verifier store limit names i b

    abbrev opened : Batch S
    opened = after_read cfg verifier store limit names i clock ready

    on_hit :
        (r : ResolutionRecord)
        → (store.fetch clock.read_at (cache_key (names i)) b.shared.cache).1 ≡ some r
        → (b' : Batch S) × Ran registry clock i b b'
    unfolding resolve
    on_hit r found =
        let answered : (resolve cfg verifier store registry clock (names i) b.shared).1 ≡ ok r =
          rw (found, resolve) refl in
        (
          released cfg verifier store limit names i clock.latency (ok r) opened,
          record {
            reached =
                stepped
                  (stepped (stepped reach (acquire i waiting room))
                    (read i clock (at_update b.phase i admitted)))
                  (release i clock.latency (ok r) (ground (arith, found)));
            shared = rw (found, resolve) refl;
            outcome = at_update opened.phase i (done (ok r)) ∙ ap done (sym answered);
            slots = omega arith;
            others = λ j n. ground arith;
          },
        )

    abbrev asked : Batch S
    asked = after_look cfg verifier store limit names i clock.checked_at registry opened

    abbrev found_out : Outcome
    found_out =
        (looked_up cfg verifier store limit names clock.checked_at registry (names i)
          opened.shared).1

    abbrev stored : Batch S
    stored = after_write cfg verifier store limit names i clock found_out asked

    abbrev kept_out : Outcome
    kept_out = (written cfg verifier store limit names clock (names i) found_out asked.shared).1

    on_miss :
        (store.fetch clock.read_at (cache_key (names i)) b.shared.cache).1 ≡ none
        → (b' : Batch S) × Ran registry clock i b b'
    unfolding resolve
    on_miss missing =
        let counted : opened.shared.stats ≡ missed (started b.shared.stats) = rw missing refl in
        let parts =
          in_parts clock (names i) opened.shared.cache (missed (started b.shared.stats))
            (registry.lookup (names i)) in
        let whole : resolve cfg verifier store registry clock (names i) b.shared
            ≡ finish cfg verifier store clock.latency (
                answer cfg verifier store clock (names i) opened.shared.cache
                  (missed (started b.shared.stats)) (registry.lookup (names i))) =
          rw (missing, resolve) refl in
        (
          released cfg verifier store limit names i clock.latency kept_out stored,
          record {
            reached =
                stepped
                  (stepped
                    (stepped
                      (stepped (stepped reach (acquire i waiting room))
                        (read i clock (at_update b.phase i admitted)))
                      (look i clock.checked_at registry (ground (arith, missing))))
                    (write i clock found_out (at_update opened.phase i (judged found_out))))
                  (release i clock.latency kept_out (at_update asked.phase i (resolved kept_out)));
            shared = cc (counted, parts, whole);
            outcome =
                at_update stored.phase i (done kept_out) ∙ ap done (cc (counted, parts, whole));
            slots = omega arith;
            others = λ j n. ground arith;
          },
        )

    -- A goroutine that has a free slot and runs while the others wait leaves the cache, the counters
    -- and its outcome as one call of `Resolve` does, gives its slot back, and changes no other
    -- goroutine: the parts of the batch's goroutines put together are `Resolve`.
    pub alone-resolve : (b' : Batch S) × Ran registry clock i b b'
    alone-resolve =
        elim (Option-cases (store.fetch clock.read_at (cache_key (names i)) b.shared.cache).1) [
          | inl missing ↦ on_miss missing
          | inr (r, found) ↦ on_hit r found
        ]
