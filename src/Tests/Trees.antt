-- ===== src/Tests/Trees.antt =====
-- Merkle proofs, revocation and the file provider: internal/trust/verifier.go.
use route_ans.Prelude.{
  Option, none, if◌then◌else◌, true, ◌≡◌, ◌≢◌, some, [], ◌∷◌, Text, codes, text_eq, ok, arith,
}
use route_ans.Prelude.Int.{pos}
use route_ans.Cache.Memory.{default_options}
use route_ans.Cache.Memory.Validity.{new_memory_cache-IsValid}
use route_ans.Trust.Merkle.{SignedTreeHead, verify_merkle_proof}
use route_ans.Trust.Merkle.Trees.{
  Tree, leaf, node, root, leaf_at, audit_path, verify_merkle_proof-root,
}
use route_ans.Trust.Revocation.{RevocationState, RevocableCert, RevocationList, RevocationConfig}
use route_ans.Resolver.Judge.{Verifier}
use route_ans.Resolver.Request.{resolve}
use route_ans.Resolver.Request.Strict.{Clean, Reaches}
use route_ans.Resolver.Store.{memory_store, memory_store-StoreLaws}
use route_ans.Resolver.Types.{default_config}
use route_ans.Server.DefaultTrust.{file_verifier, resolve-ne-ok}
use route_ans.Tests.Requests.{requests, start, clock, registry, served, strict_mode}
use route_ans.Tests.Verdicts.{config, crypto}
use route_ans.Tests.Versions.{first}

-- A hash that marks its text.
abbrev marked : Text → Text
marked t = b'#' ∷ t

abbrev four : Tree 2
four =
    node 1 (node 0 (leaf (codes "a")) (leaf (codes "b")))
      (node 0 (leaf (codes "c")) (leaf (codes "d")))

abbrev head : SignedTreeHead
head = record { root_hash = codes "##ab#cd" }

verify_merkle_proof-root_example :
    verify_merkle_proof marked
      (some (record {
        leaf_index = pos 2;
        tree_size = pos 4;
        hashes = leaf_at marked 2 four 2 ∷ audit_path marked 2 four 2;
      }))
      (some head)
    ≡ ok (text_eq (root marked 2 four) (codes "##ab#cd"))
verify_merkle_proof-root_example = verify_merkle_proof-root marked 2 four 2 head (omega arith)

abbrev cert : RevocableCert
cert = record {
  raw = codes "c";
  serial_number = pos 7;
  ocsp_server = [];
  crl_distribution_points = codes "down" ∷ codes "up" ∷ [];
}

-- Only one of the distribution points can be reached.
abbrev fetch : Text → Option RevocationList
fetch url =
    if text_eq url (codes "up")
    then some (record { revoked_entries = (pos 7, 3) ∷ []; next_update = 0 })
    else none

abbrev revocation : RevocationConfig
revocation = record { ocsp_enabled = true; crl_enabled = true; crl_cache_timeout = 60 }

-- Nothing is held.
abbrev fresh : RevocationState
fresh = record { results = []; lists = [] }

abbrev verifier : Verifier
verifier = file_verifier (λ pem. some pem) crypto config (λ l. l) 1 (2 ∷ 3 ∷ [])

start-Clean :
    Clean default_config verifier strict_mode memory_store memory_store-StoreLaws start.cache
unfolding requests
start-Clean = record { good = new_memory_cache-IsValid default_options; vouched = λ t j {r} e. cc }

resolve-ne-ok_example :
    (resolve default_config (some verifier) memory_store registry clock first start).1 ≢ ok served
resolve-ne-ok_example =
    resolve-ne-ok (λ pem. some pem) crypto config (λ l. l) 1 (2 ∷ 3 ∷ []) default_config strict_mode
      memory_store memory_store-StoreLaws start start registry clock first served start-Clean
      Reaches.at_start
