-- ===== src/Trust/Revocation/Listed.antt =====
-- Which certificates `CheckRevocation` finds revoked.
use route_ans.Prelude.{
  ℕ, ◌≡◌, Bool, true, false, ◌&&◌, Option, none, some, List, [], ◌∷◌, Text, arith,
}
use route_ans.Prelude.Int.{ℤ}
use route_ans.Cache.Table.{lookup}
use route_ans.Trust.Revocation.{
  RevocationResult, RevocableCert, RevocationList, RevocationState, RevocationConfig, unexpired,
  fingerprint, revoked_time,
}

-- The first distribution point whose list can be fetched has the serial number on it.
unfoldable pub first_lists : (Text → Option RevocationList) → ℤ → List Text → Bool
first_lists fetch serial [] = false
first_lists fetch serial (url ∷ urls) =
    let further = first_lists fetch serial urls in
    elim (fetch url) [
      | none ↦ further
      | some crl ↦ elim (revoked_time serial crl.revoked_entries) [ none ↦ false | some t ↦ true ]
    ]

abbrev revoked_or_not : Option RevocationResult → Bool
revoked_or_not none = false
revoked_or_not (some r) = r.is_revoked

and_false : (a b : Bool) → b ≡ false → (a && b) ≡ false
and_false a b h = ground arith

module _ (fetch : Text → Option RevocationList) (sha256 hex : Text → Text) (cfg : RevocationConfig)
    (now : ℕ) where
  -- A list that the verifier holds and that has not expired stands for what would be fetched.
  abbrev pub list_at : RevocationState → Text → Option RevocationList
  list_at s url = elim (unexpired (λ e. e.crl_expires_at) now (lookup url s.lists)) [
    | some entry ↦ some entry.crl
    | none ↦ fetch url
  ]

  -- The result that the verifier holds for a certificate, if it has not expired.
  abbrev pub held_for : RevocableCert → RevocationState → Option RevocationResult
  held_for cert s =
      unexpired (λ r. r.cached_until) now (lookup (fingerprint fetch sha256 hex cfg cert) s.results)
