-- ===== src/System/Settled.antt =====
-- app/application.cpp with the assertion and the assignment of a handle as they are: every run comes
-- to its end, or stops at one of the two.
use Prim.Native.String.{String}
use traffic_generator.Base.{ℕ, ◌≡◌, refl, ◌∙◌, none, some, List, [], ◌∷◌, All, ◌⊎◌, inl, inr, arith}
use traffic_generator.Put.Assert.{Below, Below-bind, Below-along, both}
use traffic_generator.Gen.Manager.{Platform}
use traffic_generator.Gen.Manager.Below.{ideal, process_events-Below}
use traffic_generator.Gen.Manager.Settled.{Documented, IsFaulty, Works-or_faulty}
use traffic_generator.Mgmt.Config.{GenConfig}
use traffic_generator.Mgmt.Manager.Ledger.{settled}
use traffic_generator.Mgmt.Manager.Safe as Mgmt
use traffic_generator.System.{System, Turn, mgmt_turn, genr_turn, passes, turn, run, start_system}
use traffic_generator.System.Run.{Sane, TurnStartable, requests, run-Sane, start_system-Sane}

module _ {E : Type 0} (pf : Platform E) (parse : String → String ⊎ GenConfig) where
  pub turn-Below :
      (t : Turn E) (s : System E) → Below (turn pf parse t s) (turn (ideal pf) parse t s)
  unfolding turn
  turn-Below (mgmt_turn r) s =
      Below-bind _ _ _ _ (Mgmt.process_events-Below pf.aborts parse r s.mgmt s.genr.world.out_queue)
        (λ a. inr refl)
  turn-Below genr_turn s =
      Below-bind _ _ _ _ (process_events-Below pf s.genr s.mgmt.out_queue) (λ a. inr refl)
  turn-Below (passes f) s = inr refl

  pub run-Below :
      (ts : List (Turn E)) (s : System E) → Below (run pf parse ts s) (run (ideal pf) parse ts s)
  unfolding run
  run-Below [] s = inr refl
  run-Below (t ∷ ts) s = elim (both _ _ (turn-Below t s)) [
    | inl e ↦ inl (rw (e, run) refl)
    | inr (s', e, e') ↦ Below-along _ _ _ _ (rw (e, run) refl) (rw (e', run) refl) (run-Below ts s')
  ]

  -- What a run from the construction on ends with.
  pub record Settled (ts : List (Turn E)) (s : System E) : Type 0 where
    pub sane : Sane pf.hosts s
    pub answered : (c : ℕ) → settled c s.mgmt ≡ requests c ts

  -- However the two threads' turns interleave, whatever HTTP requests come and whatever DPDK does,
  -- from the managers' construction on every run comes to its end, or it stops, and only if
  -- assertions abort where their conditions hold, as the macro is written, or the assignment of a
  -- handle never returns, as it is written. Nothing else stops it: no condition of an assertion
  -- fails, nothing is read out of range, and no callback that is not set is called. At its end the
  -- generation counts a timer for each flow and has no packet to send, no more requests and
  -- responses of an exchange are under way than callbacks wait for them, and every HTTP request
  -- has been answered exactly once, or its callback is kept. It is relied on that the timers and
  -- the loader do as documented, and that what the requests' bodies are read as can be started.
  pub run_lem :
      (ts : List (Turn E)) (env : E)
      → Documented pf
      → All (TurnStartable pf.hosts parse) ts
      → (IsFaulty pf × (run pf parse ts (start_system env) ≡ none))
        ⊎ ((s : System E) × (run pf parse ts (start_system env) ≡ some s) × Settled ts s)
  run_lem ts env d asks = elim (Works-or_faulty pf d) [
    | inl works ↦
        let (s, e, k, b) =
          run-Sane pf works parse ts (start_system env) (start_system-Sane pf.hosts env) asks in
        inr (s, e, record { sane = k.sane; answered = λ c. omega (arith, b c) })
    | inr (faulty, works) ↦ elim (run-Below ts (start_system env)) [
      | inl e ↦ inl (faulty, e)
      | inr e ↦
          let (s, e', k, b) =
            run-Sane (ideal pf) works parse ts (start_system env) (start_system-Sane pf.hosts env)
              asks in
          inr (s, e ∙ e', record { sane = k.sane; answered = λ c. omega (arith, b c) })
    ]
  ]
