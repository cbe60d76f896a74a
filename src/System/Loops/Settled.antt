-- ===== src/System/Loops/Settled.antt =====
-- app/application.cpp with the assertion and the assignment of a handle as they are: the two loops end
-- after a stop, and not before.
use Prim.Native.String.{String}
use traffic_generator.Base.{
  ◌≤◌, ◌≡◌, ◌≢◌, refl, ◌∙◌, none, some, List, [], ◌∷◌, ◌++◌, All, ◌⊎◌, inl, inr, Bool,
}
use traffic_generator.Put.Assert.{Below, Below-bind, Below-along, both}
use traffic_generator.Gen.Manager.{Platform}
use traffic_generator.Gen.Manager.Below.{ideal}
use traffic_generator.Gen.Manager.Settled.{Documented, IsFaulty, Works-or_faulty}
use traffic_generator.Mgmt.Config.{GenConfig}
use traffic_generator.System.{System, Turn, turn, mgmt_turn, genr_turn, passes}
use traffic_generator.System.Run.{Sane}
use traffic_generator.System.Settled.{turn-Below}
use traffic_generator.System.Loops.{
  Signal, Pc, testing, serving, finished, Loops, start_loops, runs_mgmt, runs_genr, Step, by,
  signalled, elapses, run_loop, step, steps,
}
use traffic_generator.System.Loops.Ends.{IsHandled, IsSilent, steps_of, loops_end}

module _ {E : Type 0} (pf : Platform E) (parse : String → String ⊎ GenConfig) where
  run_loop-Below :
      (t : Turn E) (pc : Pc) (stop : Bool) (s : System E)
      → Below (run_loop (turn pf parse t) pc stop s) (run_loop (turn (ideal pf) parse t) pc stop s)
  unfolding run_loop
  run_loop-Below t testing stop s = inr refl
  run_loop-Below t serving stop s = Below-bind _ _ _ _ (turn-Below pf parse t s) (λ s'. inr refl)
  run_loop-Below t finished stop s = inr refl

  step-Below : (t : Step E) (l : Loops E) → Below (step pf parse t l) (step (ideal pf) parse t l)
  unfolding step
  step-Below (by runs_mgmt r) l =
      Below-bind _ _ _ _ (run_loop-Below (mgmt_turn r) l.mgmt l.stop_flag l.system) (λ a. inr refl)
  step-Below (by runs_genr r) l =
      Below-bind _ _ _ _ (run_loop-Below genr_turn l.genr l.stop_flag l.system) (λ a. inr refl)
  step-Below (signalled sig) l = inr refl
  step-Below (elapses f) l =
      Below-bind _ _ _ _ (turn-Below pf parse (passes f) l.system) (λ a. inr refl)

  steps-Below :
      (ts : List (Step E)) (l : Loops E) → Below (steps pf parse ts l) (steps (ideal pf) parse ts l)
  unfolding steps
  steps-Below [] l = inr refl
  steps-Below (t ∷ ts) l = elim (both _ _ (step-Below t l)) [
    | inl e ↦ inl (rw (e, steps) refl)
    | inr (l', e, e') ↦
        Below-along _ _ _ _ (rw (e, steps) refl) (rw (e', steps) refl) (steps-Below ts l')
  ]

  -- From the start on, whatever turns and signals come and however the two threads interleave, the
  -- steps come to their ends, or one stops, and only if assertions abort where their conditions
  -- hold, as the macro is written, or the assignment of a handle never returns, as it is written.
  -- After a signal to stop both loops have come to their ends once each thread has taken two steps
  -- more, and where no signal has come neither loop has ended. It is relied on that the timers and
  -- the loader do as documented, that what the requests' bodies are read as can be started, and
  -- that no signal comes but those that are subscribed to.
  pub loops_settle :
      (ts us : List (Step E)) (sig : Signal) (env : E)
      → Documented pf
      → All (IsHandled pf.hosts parse) ts
      → All (IsHandled pf.hosts parse) (signalled sig ∷ us)
      → 2 ≤ steps_of runs_mgmt us
      → 2 ≤ steps_of runs_genr us
      → ((IsFaulty pf × (steps pf parse (ts ++ (signalled sig ∷ us)) (start_loops env) ≡ none))
          ⊎ ((l : Loops E) × (steps pf parse (ts ++ (signalled sig ∷ us)) (start_loops env)
                ≡ some l)
              × Sane pf.hosts l.system
              × (l.mgmt ≡ finished)
              × (l.genr ≡ finished)))
        × ((IsFaulty pf × (steps pf parse ts (start_loops env) ≡ none))
            ⊎ ((l : Loops E) × (steps pf parse ts (start_loops env) ≡ some l)
                × (All IsSilent ts → (l.mgmt ≢ finished) × (l.genr ≢ finished))))
  loops_settle ts us sig env d h k m n = elim (Works-or_faulty pf d) [
    | inl works ↦
        let (ended, going) = loops_end pf works parse ts us sig env h k m n in
        (inr ended, inr going)
    | inr (faulty, works) ↦
        let ((l, e, g, ended, ended'), (l', e', going)) =
          loops_end (ideal pf) works parse ts us sig env h k m n in
        (
          elim (steps-Below (ts ++ (signalled sig ∷ us)) (start_loops env)) [
            | inl stops ↦ inl (faulty, stops)
            | inr same ↦ inr (l, same ∙ e, g, ended, ended')
          ],
          elim (steps-Below ts (start_loops env)) [
            | inl stops ↦ inl (faulty, stops)
            | inr same ↦ inr (l', same ∙ e', going)
          ],
        )
  ]
