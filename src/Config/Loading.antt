-- ===== src/Config/Loading.antt =====
-- `validate` and `Load`.
pub mod Validity
use route_ans.Prelude.{
  ℕ, ◌≡◌, ◌≤◌, ◌↔◌, refl, sym, ap, subst, ◌∙◌, Bool, true, false, ◌&&◌, ◌||◌, not, Option, none,
  some, List, [], ◌∷◌, ◌++◌, Text, codes, text_eq, Result, ok, err, Result-cases, if◌then◌else◌,
  arith, Bool-cases, Option-cases, inl, inr,
}
use route_ans.Prelude.Int.{ℤ, pos, negsuc, ◌<ℤ◌}
use route_ans.Ansname.Record.{contains}
use route_ans.Config.Types.{Config}
use route_ans.Config.Environment.{substitute_env_vars}
use route_ans.Config.Defaults.{set_defaults, set_defaults-set_defaults}

abbrev pub cache_providers : List Text
cache_providers = codes "memory" ∷ codes "redis" ∷ codes "memcached" ∷ []

abbrev pub queue_providers : List Text
queue_providers = codes "memory" ∷ codes "redis-streams" ∷ codes "kafka" ∷ codes "nats" ∷ []

abbrev pub trust_providers : List Text
trust_providers = codes "file" ∷ codes "vault" ∷ codes "k8s-secret" ∷ codes "mock" ∷ []

-- An error is listed under its condition.
abbrev pub when : Bool → Text → List Text
when failed problem = if failed then problem ∷ [] else []

-- The errors that `validate` collects.
unfoldable pub problems : Config → List Text
problems c =
    when ((c.server.port <ℤ pos 1) || (pos 65535 <ℤ c.server.port))
      (codes "server port must be between 1 and 65535")
    ++ (when (not (contains cache_providers c.cache.provider))
          (codes "invalid cache provider: " ++ c.cache.provider)
        ++ (when (c.queue.enabled && not (contains queue_providers c.queue.provider))
              (codes "invalid queue provider: " ++ c.queue.provider)
            ++ when (not (contains trust_providers c.trust.provider))
                (codes "invalid trust provider: " ++ c.trust.provider)))

-- `strings.Join(errors, "; ")`
unfoldable pub join_problems : List Text → Text
join_problems [] = []
join_problems (p ∷ []) = p
join_problems (p ∷ q ∷ others) = p ++ (codes "; " ++ join_problems (q ∷ others))

-- `validate`: the error, if there is one.
unfoldable pub validate : Config → Option Text
validate c = elim (problems c) [ [] ↦ none | p ∷ others ↦ some (join_problems (p ∷ others)) ]

pub data LoadError : Type 0 where
  unreadable : LoadError
  unparsable : LoadError
  invalid : Text → LoadError

abbrev pub checked : Config → Result LoadError Config
checked c = elim (validate c) [ none ↦ ok c | some problem ↦ err (invalid problem) ]

-- `Load` on what `os.ReadFile` returns; `yaml` is `yaml.Unmarshal` into an empty `Config`.
unfoldable pub load :
    (Text → Option Config) → (Text → Option Text) → Option Text → Result LoadError Config
load yaml env none = err unreadable
load yaml env (some data_read) = elim (yaml (substitute_env_vars env data_read)) [
  | none ↦ err unparsable
  | some raw ↦ checked (set_defaults raw)
]
