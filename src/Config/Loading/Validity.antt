-- ===== src/Config/Loading/Validity.antt =====
-- Which configurations `Load` returns.
use route_ans.Prelude.{
  ℕ, ◌≡◌, ◌≤◌, ◌↔◌, refl, sym, ap, subst, ◌∙◌, Bool, true, false, ◌&&◌, ◌||◌, not, Option, none,
  some, List, [], ◌∷◌, ◌++◌, Text, ok, err, same_ok, err-ne-ok, arith, Option-cases, inl, inr,
}
use route_ans.Prelude.Int.{ℤ, pos, negsuc, ◌<ℤ◌}
use route_ans.Ansname.Record.{contains}
use route_ans.Config.Types.{Config}
use route_ans.Config.Environment.{substitute_env_vars}
use route_ans.Config.Defaults.{set_defaults, set_defaults-set_defaults}
use route_ans.Config.Loading.{
  cache_providers, queue_providers, trust_providers, when, problems, join_problems, validate,
  unreadable, unparsable, invalid, checked, load,
}

-- What a configuration must satisfy.
pub record IsValid (c : Config) : Type 0 where
  pub port : (p : ℕ) × (c.server.port ≡ pos p) × (1 ≤ p) × (p ≤ 65535)
  pub cache : contains cache_providers c.cache.provider ≡ true
  pub queue : c.queue.enabled ≡ true → contains queue_providers c.queue.provider ≡ true
  pub trust : contains trust_providers c.trust.provider ≡ true

in_range :
    (n : ℤ)
    → ((n <ℤ pos 1) || (pos 65535 <ℤ n)) ≡ false
    → (p : ℕ) × (n ≡ pos p) × (1 ≤ p) × (p ≤ 65535)
in_range (pos p) h = (p, refl, ground arith, ground arith)
in_range (negsuc p) h = ground arith

range_of :
    (n : ℤ) (p : ℕ) → n ≡ pos p → 1 ≤ p → p ≤ 65535 → ((n <ℤ pos 1) || (pos 65535 <ℤ n)) ≡ false
range_of n p e low high = rw e (ground arith)

when-nil :
    (a : Bool) (p : Text) (rest : List Text) → (when a p ++ rest ≡ []) ↔ ((a ≡ false) × (rest ≡ []))
when-nil true p rest = (λ h. cc, λ h. cc (h.0))
when-nil false p rest = (λ h. (refl, h), λ h. h.1)

when_last : (a : Bool) (p : Text) → (when a p ≡ []) ↔ (a ≡ false)
when_last true p = (λ h. cc, λ h. cc)
when_last false p = (λ h. refl, λ h. refl)

and_not : (a b : Bool) → (a ≡ true → b ≡ true) → (a && not b) ≡ false
and_not true b h = rw (h refl) refl
and_not false b h = refl

-- The four conditions of the errors.
abbrev Passed : Config → Type 0
Passed c =
    (((c.server.port <ℤ pos 1) || (pos 65535 <ℤ c.server.port)) ≡ false)
    × (not (contains cache_providers c.cache.provider) ≡ false)
    × ((c.queue.enabled && not (contains queue_providers c.queue.provider)) ≡ false)
    × (not (contains trust_providers c.trust.provider) ≡ false)

problems-Passed : (c : Config) → (problems c ≡ []) ↔ Passed c
unfolding problems
problems-Passed c = (
  λ h.
      let (a, h₁) = (when-nil _ _ _).0 h in
      let (b, h₂) = (when-nil _ _ _).0 h₁ in
      let (d, h₃) = (when-nil _ _ _).0 h₂ in (a, b, d, (when_last _ _).0 h₃),
  λ (a, b, d, e).
      (when-nil _ _ _).1 (a, (when-nil _ _ _).1 (b, (when-nil _ _ _).1 (d, (when_last _ _).1 e))),
)

Passed-IsValid : (c : Config) → Passed c ↔ IsValid c
Passed-IsValid c = (
  λ (a, b, d, e). record {
    port = in_range c.server.port a;
    cache = ground arith;
    queue = λ on. ground arith;
    trust = ground arith;
  },
  λ v.
      let (p, at, low, high) = v.port in
      (range_of c.server.port p at low high, ground arith, and_not _ _ v.queue, ground arith),
)

validate-none : (c : Config) → (validate c ≡ none) ↔ (problems c ≡ [])
unfolding validate
validate-none c = go (problems c)
  where
    go :
        (l : List Text)
        → (elim l as (λ x. Option Text) [
          | [] ↦ none
          | p ∷ others ↦ some (join_problems (p ∷ others))
        ]
            ≡ none)
          ↔ (l ≡ [])
    go [] = (λ h. refl, λ h. refl)
    go (p ∷ others) = (λ h. cc, λ h. cc)

validate-IsValid : (c : Config) → (validate c ≡ none) ↔ IsValid c
validate-IsValid c = (
  λ h. (Passed-IsValid c).0 ((problems-Passed c).0 ((validate-none c).0 h)),
  λ v. (validate-none c).1 ((problems-Passed c).1 ((Passed-IsValid c).1 v)),
)

-- What a loaded configuration comes from.
pub record Loaded (yaml : Text → Option Config) (env : Text → Option Text) (read : Option Text)
    (c : Config) : Type 0 where
  pub file : Text
  pub raw : Config
  pub is_read : read ≡ some file
  pub is_parsed : yaml (substitute_env_vars env file) ≡ some raw
  pub completed : c ≡ set_defaults raw
  pub stable : set_defaults c ≡ c
  pub valid : IsValid c

checked_fine : (d : Config) → validate d ≡ none → checked d ≡ ok d
checked_fine d fine = rw (checked, fine) refl

checked_bad :
    (d : Config) {problem : Text} → validate d ≡ some problem → checked d ≡ err (invalid problem)
checked_bad d bad = rw (checked, bad) refl

checked-eq-ok : (d : Config) {c : Config} → checked d ≡ ok c → (c ≡ d) × IsValid d
checked-eq-ok d {c} h = elim (Option-cases (validate d)) [
  | inl fine ↦ (same_ok (checked_fine d fine) h, (validate-IsValid d).0 fine)
  | inr (problem, bad) ↦ absurd (err-ne-ok (checked_bad d bad) h)
]

load_parsed :
    (yaml : Text → Option Config) (env : Text → Option Text) (file : Text) {raw : Config}
    → yaml (substitute_env_vars env file) ≡ some raw
    → load yaml env (some file) ≡ checked (set_defaults raw)
unfolding load
load_parsed yaml env file parsed = rw (load, parsed) refl

load_unread :
    (yaml : Text → Option Config) (env : Text → Option Text) → load yaml env none ≡ err unreadable
unfolding load
load_unread yaml env = refl

load_unparsed :
    (yaml : Text → Option Config) (env : Text → Option Text) (file : Text)
    → yaml (substitute_env_vars env file) ≡ none
    → load yaml env (some file) ≡ err unparsable
unfolding load
load_unparsed yaml env file h = rw (load, h) refl

load-eq-ok :
    (yaml : Text → Option Config) (env : Text → Option Text) (read : Option Text) {c : Config}
    → load yaml env read ≡ ok c
    → Loaded yaml env read c
load-eq-ok yaml env none {c} h = absurd (err-ne-ok (load_unread yaml env) h)
load-eq-ok yaml env (some file) {c} h = elim (Option-cases (yaml (substitute_env_vars env file))) [
  | inl unread ↦ absurd (err-ne-ok (load_unparsed yaml env file unread) h)
  | inr (raw, parsed) ↦
      let (same, v) =
        checked-eq-ok (set_defaults raw) (sym (load_parsed yaml env file parsed) ∙ h) in
      record {
        file = file;
        raw = raw;
        is_read = refl;
        is_parsed = parsed;
        completed = same;
        stable = ap set_defaults same ∙ set_defaults-set_defaults raw ∙ sym same;
        valid = subst IsValid (sym same) v;
      }
]

Loaded-load :
    (yaml : Text → Option Config) (env : Text → Option Text) (read : Option Text) (c : Config)
    → Loaded yaml env read c
    → load yaml env read ≡ ok c
Loaded-load yaml env read c l =
    ap (load yaml env) l.is_read
    ∙ load_parsed yaml env l.file l.is_parsed
    ∙ ap checked (sym l.completed)
    ∙ checked_fine c ((validate-IsValid c).1 l.valid)

-- `Load` returns a configuration exactly if the file can be read and parsed, and what was parsed, with
-- the defaults set, has a port from 1 to 65535 and known providers of the cache, of the trust store and,
-- if the queue is enabled, of the queue; it returns this configuration, to which the defaults add
-- nothing more.
pub load-Loaded :
    (yaml : Text → Option Config) (env : Text → Option Text) (read : Option Text) (c : Config)
    → (load yaml env read ≡ ok c) ↔ Loaded yaml env read c
load-Loaded yaml env read c = (load-eq-ok yaml env read, Loaded-load yaml env read c)
