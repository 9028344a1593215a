-- ===== src/Server/MockRegistry.antt =====
-- A strict resolver over the mock registry, which the server falls back to.
use route_ans.Prelude.{
  ℕ, ◌≡◌, refl, ap, ◌∙◌, true, false, Option, none, some, List, [], ◌∷◌, Text, codes, text_eq,
  text_eq_iff, Result, ok, err, inl, inr, if◌then◌else◌, Bool-cases,
}
use route_ans.Ansname.Record.{AnsName, string, cache_key}
use route_ans.Registry.Godaddy.{strip_prefix}
use route_ans.Registry.Mock.{Records, add_record, lookup_record, mock_adapter}
use route_ans.Registry.Mock.Samples.{create_mock_record}
use route_ans.Registry.Mock.Lookups.{created, created-ans_name, lookup-add_record}
use route_ans.Trust.Checks.{
  Provider, Crypto, VerifierConfig, leaf_matches, verify_endpoint_fingerprint,
}
use route_ans.Trust.Verifier.{Checks, verify_registry_record}
use route_ans.Trust.Verifier.Verdict.{verify_registry_record-valid_iff}
use route_ans.Resolver.Store.{Store}
use route_ans.Resolver.Types.{Config, Counters, State, Clock, verification_failed, missed, started}
use route_ans.Resolver.Judge.{Verifier, verify_record}
use route_ans.Resolver.Request.{answer, resolve}

module _ {Key : Type 0} (crypto : Crypto Key) (provider : Option (Provider Key))
    (checks : VerifierConfig) (walk : Checks → Checks) where
  -- The verifier of the server.
  abbrev pub registry_verifier : Verifier
  registry_verifier = λ now r. ok (verify_registry_record crypto provider checks walk now r)

  -- A fingerprint that starts in lower case matches no certificate.
  unmatched :
      (dialled : Result (Unit {0}) (List Text))
      → elim dialled [
        | err e ↦ false
        | ok chain ↦ leaf_matches crypto (codes "sha256:abcd1234") chain
      ]
        ≡ false
  unfolding text_eq
  unmatched (err e) = refl
  unmatched (ok []) = refl
  unmatched (ok (leaf ∷ chain)) = refl

  module _ (times : ℕ → ℕ) (a : AnsName) where
    created-refused :
        (verify_endpoint_fingerprint crypto
          (created times a).endpoint
          (created times a).certificates.public_cert.fingerprint).passed
        ≡ false
    unfolding create_mock_record verify_endpoint_fingerprint strip_prefix text_eq
    created-refused = unmatched _

    created-invalid :
        (now : ℕ)
        → (verify_registry_record crypto provider checks walk now (created times a)).valid ≡ false
    created-invalid now =
        elim (Bool-cases
          (verify_registry_record crypto provider checks walk now (created times a)).valid) [
            | inl accepted ↦
                let iff =
                  verify_registry_record-valid_iff crypto provider checks walk now
                    (created times a) in
                let passed =
                  (iff.0 accepted).3 (unfold create_mock_record in (λ e. cc))
                    (unfold create_mock_record in (λ e. cc)) in
                cc (passed, created-refused)
            | inr refused ↦ refused
          ]

    module _ (cfg : Config) (strict : cfg.verification_mode ≡ codes "strict") {S : Type 0}
        (store : Store S) where
      judged :
          (now : ℕ) (name : Text) (n : Counters)
          → (verify_record cfg (some registry_verifier) now name (created times a) n).1
            ≡ err (
                verification_failed name
                  (verify_registry_record crypto provider checks walk now (created times a)).status)
      unfolding verify_record text_eq
      judged now name n = rw (strict, created-invalid now) refl

      found :
          (m : Records) (name : AnsName)
          → string name ≡ string a
          → lookup_record (add_record (created times a) m) name ≡ ok (created times a)
      found m name same =
          let hit : text_eq (created times a).ans_name (string name) ≡ true =
            (text_eq_iff (created times a).ans_name (string name)).1
              (cc (created-ans_name times a, same)) in
          lookup-add_record (created times a) m name
          ∙ ap (λ b. if b then ok (created times a) else lookup_record m name) hit

      -- A strict resolver never serves a record of `CreateMockRecord`, whatever the trust provider, the
      -- signatures, the certificates, the settings and the times are: a request for its name, with any
      -- raw text, that misses the cache is answered by a failed verification, and stores nothing. The
      -- fingerprint of such a record starts with `sha256:`, which no certificate is ever shown with.
      pub resolve-created_refused :
          (m : Records) (clock : Clock) (name : AnsName) (s : State S)
          → string name ≡ string a
          → (store.fetch clock.read_at (cache_key name) s.cache).1 ≡ none
          → ((resolve cfg
                (some registry_verifier)
                store
                (mock_adapter (add_record (created times a) m))
                clock
                name
                s).1
              ≡ err (
                  verification_failed
                    (string name)
                    (verify_registry_record crypto provider checks walk clock.checked_at
                      (created times a)).status))
            × ((resolve cfg
                  (some registry_verifier)
                  store
                  (mock_adapter (add_record (created times a) m))
                  clock
                  name
                  s).0.cache
                ≡ (store.fetch clock.read_at (cache_key name) s.cache).0)
      unfolding resolve
      resolve-created_refused m clock name s same unseen =
          let said = judged clock.checked_at (string name) (missed (started s.stats)) in
          (
            rw (unseen, resolve) (rw (found m name same, answer) (rw said refl)),
            rw (unseen, resolve) (rw (found m name same, answer) (rw said refl)),
          )
