-- ===== src/Resolver/Verify.antt =====
-- `Verify` and `Stats` of internal/resolver/resolver.go.
use route_ans.Prelude.{
  ℕ, ◌≡◌, ◌↔◌, refl, Bool, true, false, Option, none, some, [], Text, codes, text_eq, Result, ok,
  err, ltb, if◌then◌else◌, arith, Bool-cases, inl, inr,
}
use route_ans.Models.{ResolutionRecord, status_active}
use route_ans.Ansname.Record.{AnsName, string, cache_key}
use route_ans.Registry.Record.{Record, Adapter, LookupError, to_resolution_record}
use route_ans.Trust.Verifier.{
  Status, verified, invalid, revoked, expired, untrusted, error, Checks, VerificationResult,
}
use route_ans.Resolver.Store.{Store}
use route_ans.Resolver.Types.{Config, Counters, State, Clock, ResolveError, started, missed}
use route_ans.Resolver.Judge.{Verifier, proof_of, judge, verify_record}
use route_ans.Resolver.Request.{keep, answer, resolve}

-- `VerifyResult`, without the message.
pub record VerifyResult : Type 0 where
  pub valid : Bool
  pub status : Text
  pub served : Option ResolutionRecord
  pub checks : Checks
  pub verified_at : ℕ

-- The values of the status constants of the verifier.
abbrev pub status_text : Status → Text
status_text verified = codes "verified"
status_text invalid = codes "invalid"
status_text revoked = codes "revoked"
status_text expired = codes "expired"
status_text untrusted = codes "untrusted"
status_text error = codes "error"

-- `VerificationError`
abbrev pub verification_error_status : Text
verification_error_status = codes "error"

-- What `Verify` returns beside its result.
pub data VerifyError : Type 0 where
  lookup_error : LookupError → VerifyError
  verifier_error : Text → VerifyError

abbrev pub error_result : ℕ → VerifyResult
error_result now = record {
  valid = false;
  status = verification_error_status;
  served = none;
  checks = [];
  verified_at = now;
}

abbrev pub verdict_result :
    ℕ → Record → Result Text VerificationResult → VerifyResult × Option VerifyError
verdict_result now r (err e) = (error_result now, some (verifier_error e))
verdict_result now r (ok v) = (
  record {
    valid = v.valid;
    status = status_text v.status;
    served = some (record (to_resolution_record r) { verified_at = now });
    checks = v.checks;
    verified_at = now;
  },
  none,
)

-- Without a verifier the result is valid and says so.
abbrev pub unverified_result : ℕ → Record → VerifyResult
unverified_result now r = record {
  valid = true;
  status = codes "unverified";
  served = some (to_resolution_record r);
  checks = [];
  verified_at = now;
}

abbrev pub looked_up :
    Option Verifier → ℕ → Result LookupError Record → VerifyResult × Option VerifyError
looked_up verifier now (err e) = (error_result now, some (lookup_error e))
looked_up none now (ok r) = (unverified_result now r, none)
looked_up (some f) now (ok r) = verdict_result now r (f now r)

-- `Verify` at a time `now`
unfoldable pub verify : Option Verifier → Adapter → ℕ → AnsName → VerifyResult × Option VerifyError
verify verifier registry now name = looked_up verifier now (registry.lookup name)

-- `Stats`; the average latency is left in its two parts, the sum in nanoseconds and the number of
-- requests by which it is divided.
pub record Snapshot : Type 0 where
  pub total_requests : ℕ
  pub cache_hits : ℕ
  pub cache_misses : ℕ
  pub registry_lookups : ℕ
  pub verification_success : ℕ
  pub verification_failures : ℕ
  pub average_latency : Option (ℕ × ℕ)

unfoldable pub snapshot : Counters → Snapshot
snapshot n = record {
  total_requests = n.total_requests;
  cache_hits = n.cache_hits;
  cache_misses = n.cache_misses;
  registry_lookups = n.registry_lookups;
  verification_success = n.verification_success;
  verification_failures = n.verification_failures;
  average_latency = if ltb 0 n.request_count then some (n.total_latency, n.request_count) else none;
}

module _ (cfg : Config) (f : Verifier) (strict : cfg.verification_mode ≡ codes "strict")
    {S : Type 0} (store : Store S) (registry : Adapter) where
  verify_record-judge :
      (now : ℕ) (name : Text) (r : Record) (n : Counters)
      → verify_record cfg (some f) now name r n
        ≡ judge true name (to_resolution_record r) (f now r) n
  unfolding verify_record text_eq
  verify_record-judge now name r n = rw (strict, verify_record) refl

  -- The verdict passes exactly when step 3 lets the record through.
  judged-valid :
      (name : Text) (res : ResolutionRecord) (n : Counters) (m : Result Text VerificationResult)
      (now : ℕ) (r : Record)
      → ((verdict_result now r m).0.valid ≡ true)
        ↔ ((x : ResolutionRecord) × ((judge true name res m n).1 ≡ ok x))
  judged-valid name res n (err e) now r = (λ h. cc, λ (x, h). cc)
  judged-valid name res n (ok v) now r = elim (Bool-cases v.valid) [
    | inl good ↦ (
      λ h. (
        record res { status = status_active; verification = some (proof_of v) },
        ground (arith, good),
      ),
      λ h. good,
    )
    | inr bad ↦ (λ h. cc (h, bad), λ (x, h). ground (arith, bad))
  ]

  kept-ok :
      (clock : Clock) (name : AnsName) (c : S) (n : Counters)
      (m : Result ResolveError ResolutionRecord)
      → ((x : ResolutionRecord) × (m ≡ ok x))
        ↔ ((x : ResolutionRecord) × ((keep cfg (some f) store clock name c n m).1 ≡ ok x))
  kept-ok clock name c n (err e) = (λ (x, h). cc, λ (x, h). cc)
  kept-ok clock name c n (ok r) = (λ h. (_, refl), λ h. (r, refl))

  answered-valid :
      (clock : Clock) (name : AnsName) (c : S) (n : Counters) (now : ℕ)
      (m : Result LookupError Record)
      → ((r : Record) → f now r ≡ f clock.checked_at r)
      → ((looked_up (some f) now m).0.valid ≡ true)
        ↔ ((x : ResolutionRecord) × ((answer cfg (some f) store clock name c n m).1 ≡ ok x))
  answered-valid clock name c n now (err e) same = (λ h. cc, λ (x, h). cc)
  answered-valid clock name c n now (ok r) same =
      let through =
        judged-valid (string name) (to_resolution_record r) n (f clock.checked_at r) now r in
      let judged = judge true (string name) (to_resolution_record r) (f clock.checked_at r) n in
      let kept = kept-ok clock name c judged.0 judged.1 in
      rw (verify_record-judge clock.checked_at (string name) r n, same r)
        (λ h. kept.0 (through.0 h), λ h. through.1 (kept.1 h))

  -- With a verifier and in strict mode, `Verify` says that a name is valid exactly when a `Resolve` of
  -- it that misses the cache, and gets the same answers of the registry and the verifier, succeeds.
  pub verify-resolve :
      (clock : Clock) (now : ℕ) (name : AnsName) (s : State S)
      → (store.fetch clock.read_at (cache_key name) s.cache).1 ≡ none
      → ((r : Record) → f now r ≡ f clock.checked_at r)
      → ((verify (some f) registry now name).0.valid ≡ true)
        ↔ ((x : ResolutionRecord) × ((resolve cfg (some f) store registry clock name s).1 ≡ ok x))
  unfolding verify resolve
  verify-resolve clock now name s miss same =
      let read = store.fetch clock.read_at (cache_key name) s.cache in
      rw (resolve, miss)
        (answered-valid clock name read.0 (missed (started s.stats)) now (registry.lookup name)
          same)
