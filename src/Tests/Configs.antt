-- ===== src/Tests/Configs.antt =====
-- The configuration: internal/config/config.go.
use route_ans.Prelude.{
  false, ◌≡◌, ◌↔◌, ◌⊎◌, err, refl, Option, none, some, List, [], ◌∷◌, Text, codes, text_eq, ok,
  if◌then◌else◌,
}
use route_ans.Ansname.Record.{contains}
use route_ans.Ansname.Patterns.{span}
use route_ans.Config.Defaults.{
  set_defaults, server_defaults, cache_defaults, queue_defaults, trust_defaults, or_text, or_int,
}
use route_ans.Config.Environment.{substitute_env_vars, replace_from, placeholder}
use route_ans.Config.Environment.Segments.{
  Segment, literal, variable, render, evaluate, concat_map, substitute_env_vars-render,
}
use route_ans.Config.Loading.{load, validate, problems}
use route_ans.Server.Setup.{Providers, init_providers}
use route_ans.Server.Setup.Accepted.{NoCache, NoQueue, NoTrust, init_providers-Made}
use route_ans.Tests.Settings.{zero_config}
use route_ans.Config.Loading.Validity.{Loaded, load-Loaded}

loaded : load (λ t. some zero_config) (λ name. none) (some []) ≡ ok (set_defaults zero_config)
unfolding load substitute_env_vars replace_from validate problems set_defaults server_defaults
    cache_defaults queue_defaults trust_defaults or_text or_int contains text_eq
loaded = refl

-- A file that sets nothing gives the defaults.
load-Loaded_example :
    (load (λ t. some zero_config) (λ name. none) (some []) ≡ ok (set_defaults zero_config))
    ↔ Loaded (λ t. some zero_config) (λ name. none) (some []) (set_defaults zero_config)
load-Loaded_example =
    load-Loaded (λ t. some zero_config) (λ name. none) (some []) (set_defaults zero_config)

-- `port: ${PORT:8080} ${HOST}` with a value for HOST only.
abbrev parts : List Segment
parts =
    literal (codes "port: ")
    ∷ variable (codes "PORT") (some (codes "8080"))
    ∷ literal (codes " ")
    ∷ variable (codes "HOST") none
    ∷ []

abbrev environment : Text → Option Text
environment name = if text_eq name (codes "HOST") then some (codes "h") else none

text : substitute_env_vars environment (codes "port: ${PORT:8080} ${HOST}") ≡ codes "port: 8080 h"
unfolding substitute_env_vars replace_from placeholder span text_eq
text = refl

substitute_env_vars-render_example :
    substitute_env_vars environment (concat_map render parts)
    ≡ concat_map (evaluate environment) parts
substitute_env_vars-render_example = substitute_env_vars-render environment parts (
  (refl, (refl, (refl, (refl, (refl, (refl, tt)))))),
  (
    ((λ h. cc), (refl, (refl, (refl, (refl, tt)))), (refl, (refl, (refl, (refl, tt))))),
    ((refl, tt), (((λ h. cc), (refl, (refl, (refl, (refl, tt))))), tt)),
  ),
)

abbrev file_names : Text → Text → Text
file_names roots registrars = roots

-- The defaults, where no Redis server answers.
init_providers-Made_example :
    let c = set_defaults zero_config in
    ((NoCache (λ o. false) c ⊎ NoQueue (λ o. false) c)
      × ((e : Text) × (init_providers (λ o. false) (λ o. false) file_names (codes "mock") c
            ≡ err e)))
    ⊎ (((NoCache (λ o. false) c ⊎ NoQueue (λ o. false) c) → ⊥)
        × ((p : Providers Text) × (init_providers
                (λ o. false)
                (λ o. false)
                file_names
                (codes "mock")
                c
              ≡ ok p)
            × ((p.verifier ≡ none)
                ↔ NoTrust (λ o. false) (λ o. false) file_names (codes "mock") c)))
init_providers-Made_example =
    init_providers-Made (λ o. false) (λ o. false) file_names (codes "mock") (λ t. some zero_config)
      (λ name. none) (some []) (set_defaults zero_config)
      ((load-Loaded (λ t. some zero_config) (λ name. none) (some []) (set_defaults zero_config)).0
        loaded)
