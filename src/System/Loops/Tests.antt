-- ===== src/System/Loops/Tests.antt =====
-- app/application.cpp: the two loops on an interrupt.
use traffic_generator.Base.{ℕ, ◌+◌, ◌≡◌, ◌≢◌, none, some, List, [], ◌∷◌, ◌++◌, All, ◌⊎◌, arith}
use traffic_generator.Gen.Tests.{test_platform}
use traffic_generator.System.Tests.{test-Documented, read_a_cfg}
use traffic_generator.Gen.Manager.Settled.{IsFaulty}
use traffic_generator.System.Loops.Settled.{loops_settle}
use traffic_generator.System.Run.{Sane}
use traffic_generator.System.Loops.{
  sigint, finished, Loops, start_loops, runs_mgmt, runs_genr, Step, by, signalled, elapses, steps,
}
use traffic_generator.System.Loops.Ends.{IsSilent}

abbrev before : List (Step ℕ)
before = by runs_mgmt none ∷ by runs_genr none ∷ elapses (λ e. e + 1) ∷ by runs_genr none ∷ []

abbrev two_each : List (Step ℕ)
two_each = by runs_genr none ∷ by runs_mgmt none ∷ by runs_mgmt none ∷ by runs_genr none ∷ []

loops_settle_example :
    ((IsFaulty test_platform
        × (steps test_platform read_a_cfg (before ++ (signalled sigint ∷ two_each)) (start_loops 0)
            ≡ none))
      ⊎ ((l : Loops ℕ) × (steps test_platform read_a_cfg
              (before ++ (signalled sigint ∷ two_each))
              (start_loops 0)
            ≡ some l)
          × Sane test_platform.hosts l.system
          × (l.mgmt ≡ finished)
          × (l.genr ≡ finished)))
    × ((IsFaulty test_platform × (steps test_platform read_a_cfg before (start_loops 0) ≡ none))
        ⊎ ((l : Loops ℕ) × (steps test_platform read_a_cfg before (start_loops 0) ≡ some l)
            × (All IsSilent before → (l.mgmt ≢ finished) × (l.genr ≢ finished))))
loops_settle_example =
    loops_settle test_platform read_a_cfg before two_each sigint 0 test-Documented (omega arith)
      (omega arith) (omega arith) (omega arith)
