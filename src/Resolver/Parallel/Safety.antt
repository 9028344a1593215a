-- ===== src/Resolver/Parallel/Safety.antt =====
-- What goroutines in any order keep.
use route_ans.Prelude.{ℕ, ◌≤◌, ◌≡◌, codes}
use route_ans.Ansname.Record.{AnsName}
use route_ans.Registry.Record.{Record}
use route_ans.Resolver.Store.{Store, StoreLaws}
use route_ans.Resolver.Types.{Config}
use route_ans.Resolver.Judge.{Verifier}
use route_ans.Resolver.Judge.Vouched.{Vouched, ResultVouched}
use route_ans.Resolver.Request.Strict.{Clean}
use route_ans.Resolver.Parallel.{Phase, queued, admitted, searching, judged, resolved, done, Batch}
use route_ans.Resolver.Parallel.Slots.{slots, total}

-- What a goroutine holds is vouched for.
abbrev pub PhaseVouched : Verifier → Phase → Type 0
PhaseVouched f (judged m) = ResultVouched f m
PhaseVouched f (resolved m) = ResultVouched f m
PhaseVouched f (done m) = ResultVouched f m
PhaseVouched f queued = Unit
PhaseVouched f admitted = Unit
PhaseVouched f searching = Unit

module _ (cfg : Config) (f : Verifier) (strict : cfg.verification_mode ≡ codes "strict")
    {S : Type 0} (store : Store S) (laws : StoreLaws store) (limit : ℕ) (names : ℕ → AnsName) where
  pub record Sound (b : Batch S) : Type 0 where
    pub clean : Clean cfg f strict store laws b.shared.cache
    pub held : (i : ℕ) → PhaseVouched f (b.phase i)
    pub bounded : b.in_flight ≤ limit
    pub counted : (n : ℕ) → total slots b.phase n ≤ b.in_flight
