-- ===== src/Resolver/Judge/Vouched.antt =====
-- What strict verification lets through.
use route_ans.Prelude.{ℕ, ◌≡◌, refl, ap, inl, inr, true, some, Text, Result, ok, err, Bool-cases}
use route_ans.Models.{ResolutionRecord, status_active}
use route_ans.Registry.Record.{Record, to_resolution_record}
use route_ans.Trust.Verifier.{VerificationResult}
use route_ans.Resolver.Types.{Counters, ResolveError}
use route_ans.Resolver.Judge.{Verifier, judge, proof_of}

-- The verifier found a record of the registry valid, at some time, and what is served is its whole
-- conversion, with the active status, the proof of this verdict and a time of verification.
pub record Vouched (f : Verifier) (r : ResolutionRecord) : Type 0 where
  pub source : Record
  pub verdict : VerificationResult
  pub checked_at : ℕ
  pub said : f checked_at source ≡ ok verdict
  pub valid : verdict.valid ≡ true
  pub whole : r ≡ record (to_resolution_record source) {
    status = status_active;
    verification = some (proof_of verdict);
    verified_at = r.verified_at;
  }

pub Vouched-active : (f : Verifier) (r : ResolutionRecord) → Vouched f r → r.status ≡ status_active
Vouched-active f r v = ap (λ (x : ResolutionRecord). x.status) v.whole

-- A result that is a record is vouched for.
abbrev pub ResultVouched : Verifier → Result ResolveError ResolutionRecord → Type 0
ResultVouched f (ok r) = Vouched f r
ResultVouched f (err e) = Unit

pub judge-Vouched :
    (f : Verifier) (now : ℕ) (name : Text) (source : Record) (n : Counters)
    (m : Result Text VerificationResult)
    → f now source ≡ m
    → ResultVouched f (judge true name (to_resolution_record source) m n).1
unfolding to_resolution_record
judge-Vouched f now name source n (err e) said = tt
judge-Vouched f now name source n (ok v) said = elim (Bool-cases v.valid) [
  | inr bad ↦ rw bad tt
  | inl good ↦ rw good (record {
    source = source;
    verdict = v;
    checked_at = now;
    said = said;
    valid = good;
    whole = refl;
  })
]

-- A change of the time of the verification changes nothing that is vouched for.
pub timed-Vouched :
    (f : Verifier) (t : ℕ) (r : ResolutionRecord)
    → Vouched f r
    → Vouched f (record r { verified_at = t })
timed-Vouched f t r v = record {
  source = v.source;
  verdict = v.verdict;
  checked_at = v.checked_at;
  said = v.said;
  valid = v.valid;
  whole = ap (λ (x : ResolutionRecord). record x { verified_at = t }) v.whole;
}
