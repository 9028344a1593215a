-- ===== src/Trust/Cached.antt =====
-- `VerifyRecord` and `checkExpiry` of internal/trust/verifier.go, on a record that was served.
use route_ans.Prelude.{ℕ, ◌+◌, ◌==◌, ltb, true, [], ◌∷◌, if◌then◌else◌}
use route_ans.Models.{ResolutionRecord}
use route_ans.Trust.Checks.{CheckName, CheckResult}
use route_ans.Trust.Verifier.{verified, expired, VerificationResult}

-- `checkExpiry` at a time `now`
unfoldable pub check_expiry : ℕ → ℕ → ResolutionRecord → CheckResult
check_expiry grace now r = record {
  passed =
      if r.expires_at == 0
      then true
      else if ltb r.expires_at now
      then ltb now (r.expires_at + grace)
      else true;
  required = true;
}

-- `VerifyRecord`
unfoldable pub verify_resolution_record : ℕ → ℕ → ResolutionRecord → VerificationResult
verify_resolution_record grace now r =
    let check = check_expiry grace now r in
    record {
      valid = check.passed;
      status = if check.passed then verified else expired;
      checks = (CheckName.expiry, check) ∷ [];
    }
