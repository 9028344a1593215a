-- ===== src/Server/DefaultTrust.antt =====
-- A strict server with the trust provider "file", which is the default of the configuration.
use route_ans.Prelude.{
  ℕ, ◌≡◌, ◌≢◌, refl, sym, ap, ◌∙◌, true, false, Option, some, List, [], ◌∷◌, Text, codes, ok,
  same_ok,
}
use route_ans.Models.{ResolutionRecord}
use route_ans.Ansname.Record.{AnsName}
use route_ans.Registry.Record.{Adapter}
use route_ans.Trust.Checks.{VerifierConfig, Crypto, check_registrar, trusted}
use route_ans.Trust.Verifier.{Checks, verify_registry_record}
use route_ans.Trust.Verifier.Verdict.{verify_registry_record-valid_iff}
use route_ans.Trust.Stores.{
  FileProvider, new_file_provider, refresh, refreshed, file_provider, infos,
}
use route_ans.Resolver.Store.{Store, StoreLaws}
use route_ans.Resolver.Types.{Config, State, Clock}
use route_ans.Resolver.Judge.{Verifier}
use route_ans.Resolver.Judge.Vouched.{Vouched}
use route_ans.Resolver.Request.{resolve}
use route_ans.Resolver.Request.Strict.{Clean, Reaches, resolve-Vouched}

refreshed-registrars :
    (times : List ℕ) (p : FileProvider) → (refreshed times p).registrars ≡ p.registrars
unfolding refreshed refresh
refreshed-registrars [] p = refl
refreshed-registrars (now ∷ times) p = refreshed-registrars times (refresh now p)

true_ne_false : true ≡ false → ⊥
true_ne_false h = cc

module _ {Key : Type 0} (parse_key : Text → Option Key) (crypto : Crypto Key)
    (checks : VerifierConfig) (walk : Checks → Checks) (opened : ℕ) (times : List ℕ) where
  -- The verifier over the file provider, refreshed at some times.
  abbrev pub file_verifier : Verifier
  file_verifier = λ now r. ok (
      verify_registry_record crypto
        (some (file_provider parse_key (refreshed times (new_file_provider opened)))) checks walk
        now r)

  untrusted :
      (id : Text)
      → (check_registrar
          (some (file_provider parse_key (refreshed times (new_file_provider opened))))
          id).passed
        ≡ false
  unfolding check_registrar trusted file_provider infos new_file_provider refresh
  untrusted id = rw (refreshed-registrars times (new_file_provider opened)) refl

  no_Vouched : (x : ResolutionRecord) → Vouched file_verifier x → ⊥
  no_Vouched x v =
      let said = same_ok v.said refl in
      let valid : (verify_registry_record crypto
            (some (file_provider parse_key (refreshed times (new_file_provider opened)))) checks
            walk v.checked_at v.source).valid
          ≡ true =
        ap (λ r. r.valid) said ∙ v.valid in
      let passed =
        ((verify_registry_record-valid_iff crypto
            (some (file_provider parse_key (refreshed times (new_file_provider opened)))) checks
            walk v.checked_at v.source).0
          valid).0 in
      true_ne_false (sym passed ∙ untrusted v.source.registrar_id)

  module _ (cfg : Config) (strict : cfg.verification_mode ≡ codes "strict") {S : Type 0}
      (store : Store S) (laws : StoreLaws store) where
    -- A strict resolver whose verifier stands on the file provider answers no request with a record:
    -- started on a clean cache, after any requests and events and whatever the registry returns, for
    -- the file provider has no registrars, however often it is refreshed.
    pub resolve-ne-ok :
        (start s : State S) (registry : Adapter) (clock : Clock) (name : AnsName)
        (x : ResolutionRecord)
        → Clean cfg file_verifier strict store laws start.cache
        → Reaches cfg file_verifier strict store laws start s
        → (resolve cfg (some file_verifier) store registry clock name s).1 ≢ ok x
    resolve-ne-ok start s registry clock name x clean reach h =
        no_Vouched x
          (resolve-Vouched cfg file_verifier strict store laws start s registry clock name {r = x}
            clean reach h).0
