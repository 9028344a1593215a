-- ===== src/Resolver/Judge.antt =====
-- Steps 3 and 4 of `Resolve` in internal/resolver/resolver.go: the verification of a record that was
-- looked up, and how long the result is cached.
pub mod Vouched
use route_ans.Prelude.{
  ℕ, Bool, true, false, not, Option, none, some, [], ◌∷◌, Text, codes, text_eq, Result, ok, err,
  if◌then◌else◌,
}
use route_ans.Prelude.Int.{ℤ}
use route_ans.Models.{
  ResolutionRecord, VerificationProof, status_active, status_revoked, status_invalid,
}
use route_ans.Registry.Record.{Record, to_resolution_record}
use route_ans.Trust.Checks.{CheckName, CheckResult, revocation}
use route_ans.Trust.Verifier.{Checks, VerificationResult}
use route_ans.Resolver.Types.{
  Config, Counters, ResolveError, verification_error, verification_failed, failure, success,
}

-- `trust.Verifier`, as far as the resolver calls it: `VerifyRegistryRecord` at a time. What it reads
-- beside the record, the clock, the trust store and the endpoint, may be different at each time.
abbrev pub Verifier : Type 0
Verifier = ℕ → Record → Result Text VerificationResult

abbrev pub is_revocation : CheckName → Bool
is_revocation revocation = true
is_revocation _ = false

-- `Checks[trust.CheckRevocation]`
unfoldable pub revocation_check : Checks → Option CheckResult
revocation_check [] = none
revocation_check ((n, c) ∷ l) =
    let rest = revocation_check l in if is_revocation n then some c else rest

abbrev pub proof_of : VerificationResult → VerificationProof
proof_of v = record {
  merkle_proof = none;
  signature_valid = true;
  certificate_valid = true;
  revocation_checked = elim (revocation_check v.checks) [ none ↦ false | some c ↦ true ];
  not_revoked = elim (revocation_check v.checks) [ none ↦ false | some c ↦ c.passed ];
}

-- Step 3 of `Resolve` on a verdict.
abbrev pub judge :
    Bool
    → Text
    → ResolutionRecord
    → Result Text VerificationResult
    → Counters
    → Counters × Result ResolveError ResolutionRecord
judge strict name res (err e) n =
    if strict then (failure n, err (verification_error e)) else (n, ok res)
judge strict name res (ok v) n =
    if not v.valid
    then (
      failure n,
      if strict
          then err (verification_failed name v.status)
          else ok (record res { status = status_invalid }),
    )
    else (success n, ok (record res { status = status_active; verification = some (proof_of v) }))

module _ (cfg : Config) where
  -- Step 3 of `Resolve`
  unfoldable pub verify_record :
      Option Verifier
      → ℕ
      → Text
      → Record
      → Counters
      → Counters × Result ResolveError ResolutionRecord
  verify_record verifier now name r n =
      if text_eq cfg.verification_mode (codes "disabled")
      then (n, ok (to_resolution_record r))
      else elim verifier [
        | none ↦ (n, ok (to_resolution_record r))
        | some f ↦
            judge (text_eq cfg.verification_mode (codes "strict")) name (to_resolution_record r)
              (f now r) n
      ]

  -- Step 4 of `Resolve`
  unfoldable pub ttl_of : Text → ℤ
  ttl_of status =
      if text_eq status status_active
      then cfg.verified_ttl
      else if text_eq status status_revoked
      then cfg.revoked_ttl
      else cfg.default_ttl
