-- ===== src/Trust/Revocation.antt =====
-- `CheckRevocation`, `checkOCSP` and `checkCRL` of internal/trust/verifier.go. Fetching a list, the
-- hash and the hexadecimal digits are parameters; a call reads one time.
pub mod Listed
use route_ans.Prelude.{
  ℕ, ◌+◌, ◌*◌, ◌==◌, ltb, Bool, true, false, ◌&&◌, ◌||◌, not, Option, none, some, List, [], ◌∷◌,
  ◌++◌, Text, codes, if◌then◌else◌,
}
use route_ans.Prelude.Options.{◌>>=◌}
use route_ans.Prelude.Int.{ℤ, ◌==ℤ◌}
use route_ans.Cache.Table.{lookup, insert}

-- `RevocationResult`, without its reason, which is never set
pub record RevocationResult : Type 0 where
  pub is_revoked : Bool
  pub revoked_at : Option ℕ
  pub check_method : Text
  pub cached_until : ℕ

-- A certificate, as far as the check reads it.
pub record RevocableCert : Type 0 where
  pub raw : Text
  pub serial_number : ℤ
  pub ocsp_server : List Text
  pub crl_distribution_points : List Text

-- A revocation list: serial numbers with the times of their revocation.
pub record RevocationList : Type 0 where
  pub revoked_entries : List (ℤ × ℕ)
  pub next_update : ℕ

-- `crlCacheEntry`
pub record CrlEntry : Type 0 where
  pub crl : RevocationList
  pub crl_expires_at : ℕ

-- `ocspCache` and `crlCache` of the verifier
pub record RevocationState : Type 0 where
  pub results : List (Text × RevocationResult)
  pub lists : List (Text × CrlEntry)

pub record RevocationConfig : Type 0 where
  pub ocsp_enabled : Bool
  pub crl_enabled : Bool
  pub crl_cache_timeout : ℕ

abbrev pub hour : ℕ
hour = 3600 * 1000000000

abbrev pub is_none_left : List Text → Bool
is_none_left [] = true
is_none_left (t ∷ l) = false

-- `checkOCSP`: no request is made, and the answer is that the certificate is not revoked.
unfoldable pub check_ocsp : ℕ → RevocableCert → Option RevocationResult
check_ocsp now cert =
    if is_none_left cert.ocsp_server
    then none
    else some (record {
      is_revoked = false;
      revoked_at = none;
      check_method = codes "ocsp";
      cached_until = now + hour;
    })

-- The time at which a serial number was revoked, if it is listed.
unfoldable pub revoked_time : ℤ → List (ℤ × ℕ) → Option ℕ
revoked_time serial [] = none
revoked_time serial ((n, t) ∷ entries) =
    let further = revoked_time serial entries in if n ==ℤ serial then some t else further

abbrev pub listed_result : ℕ → Option ℕ → RevocationResult
listed_result until none = record {
  is_revoked = false;
  revoked_at = none;
  check_method = codes "crl";
  cached_until = until;
}
listed_result until (some t) = record {
  is_revoked = true;
  revoked_at = some t;
  check_method = codes "crl";
  cached_until = until;
}

-- When a fetched list goes out of the cache.
abbrev pub list_expiry : RevocationConfig → ℕ → RevocationList → ℕ
list_expiry cfg now crl =
    if not (crl.next_update == 0) && ltb crl.next_update (now + cfg.crl_cache_timeout)
    then crl.next_update
    else now + cfg.crl_cache_timeout

-- A cached value that has not expired.
abbrev pub unexpired {ℓ} : {A : Type ℓ} → (A → ℕ) → ℕ → Option A → Option A
unexpired expiry now none = none
unexpired expiry now (some a) = if ltb now (expiry a) then some a else none

-- `fetchCRL`: `get` is a GET request with its status and its body, if it is answered and its body can
-- be read, and `parse` is `x509.ParseRevocationList`.
unfoldable fetch_crl :
    (Text → Option (ℕ × Text)) → (Text → Option RevocationList) → Text → Option RevocationList
fetch_crl get parse url = do (status, body) ← get url; if status == 200 then parse body else none

module _ (fetch_list : Text → Option RevocationList) (sha256 hex : Text → Text)
    (cfg : RevocationConfig) where
  -- The loop of `checkCRL` over the distribution points.
  unfoldable pub check_crl :
      ℕ → ℤ → List Text → RevocationState → RevocationState × Option RevocationResult
  check_crl now serial [] s = (s, none)
  check_crl now serial (url ∷ urls) s =
      let further = check_crl now serial urls s in
      elim (unexpired (λ e. e.crl_expires_at) now (lookup url s.lists)) [
        | some entry ↦ (
          s,
          some (listed_result entry.crl_expires_at (revoked_time serial entry.crl.revoked_entries)),
        )
        | none ↦ elim (fetch_list url) [
          | none ↦ further
          | some crl ↦
              let until = list_expiry cfg now crl in
              (
                record s {
                  lists = insert url (record { crl = crl; crl_expires_at = until }) s.lists;
                },
                some (listed_result until (revoked_time serial crl.revoked_entries)),
              )
        ]
      ]

  -- The key of a result: `Sum` appends the hash of nothing to the raw certificate.
  abbrev pub fingerprint : RevocableCert → Text
  fingerprint cert = hex (cert.raw ++ sha256 [])

  abbrev pub remembered :
      RevocableCert → RevocationState → RevocationResult → RevocationState × RevocationResult
  remembered cert s r = (record s { results = insert (fingerprint cert) r s.results }, r)

  -- The result when nothing could be checked, which is not remembered.
  abbrev pub unchecked : ℕ → RevocationResult
  unchecked now = record {
    is_revoked = false;
    revoked_at = none;
    check_method = codes "none";
    cached_until = now + hour;
  }

  -- The second step, on what `checkCRL` returned.
  abbrev pub after_crl :
      ℕ
      → RevocableCert
      → RevocationState × Option RevocationResult
      → RevocationState × RevocationResult
  after_crl now cert (s, none) = (s, unchecked now)
  after_crl now cert (s, some r) = remembered cert s r

  abbrev pub fall_back : ℕ → RevocableCert → RevocationState → RevocationState × RevocationResult
  fall_back now cert s =
      if cfg.crl_enabled && not (is_none_left cert.crl_distribution_points)
      then after_crl now cert (check_crl now cert.serial_number cert.crl_distribution_points s)
      else (s, unchecked now)

  -- The first step, on what `checkOCSP` returned.
  abbrev pub after_ocsp :
      ℕ
      → RevocableCert
      → RevocationState
      → Option RevocationResult
      → RevocationState × RevocationResult
  after_ocsp now cert s none = fall_back now cert s
  after_ocsp now cert s (some r) = remembered cert s r

  abbrev pub uncached : ℕ → RevocableCert → RevocationState → RevocationState × RevocationResult
  uncached now cert s =
      if cfg.ocsp_enabled && not (is_none_left cert.ocsp_server)
      then after_ocsp now cert s (check_ocsp now cert)
      else fall_back now cert s

  -- `CheckRevocation`
  unfoldable pub check_revocation :
      ℕ → RevocableCert → RevocationState → RevocationState × RevocationResult
  check_revocation now cert s =
      elim (unexpired (λ r. r.cached_until) now (lookup (fingerprint cert) s.results)) [
        | some r ↦ (s, r)
        | none ↦ uncached now cert s
      ]
