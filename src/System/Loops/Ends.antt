-- ===== src/System/Loops/Ends.antt =====
-- app/application.cpp: the two loops end after a stop, and not before.
use Prim.Native.String.{String}
use traffic_generator.Base.{
  ℕ, ◌+◌, ◌-◌, ◌≤◌, ◌≡◌, ◌≢◌, refl, sym, ap, Bool, true, false, some, List, [], ◌∷◌, ◌++◌, ◌⊎◌, All,
  arith,
}
use mathlib.Core.Option.{some-injective}
use traffic_generator.Gen.Manager.{Platform}
use traffic_generator.Gen.Manager.Start.{Works}
use traffic_generator.Mgmt.Config.{GenConfig, Net}
use traffic_generator.Gen.Rotation.{Range}
use traffic_generator.System.{System, Turn, turn, mgmt_turn, genr_turn, passes}
use traffic_generator.System.Run.{Sane, AsksStartable, TurnStartable, turn-Sane, start_system-Sane}
use traffic_generator.System.Loops.{
  Signal, sigint, sigterm, other_signal, Pc, testing, serving, finished, Loops, start_loops, Role,
  runs_mgmt, runs_genr, Step, by, signalled, elapses, signal_handler, run_loop, step, steps,
}

-- How many steps a thread needs to its end once the flag is set.
abbrev pub left : Pc → ℕ
left testing = 1
left serving = 2
left finished = 0

abbrev pub steps_of : {E : Type 0} → Role → List (Step E) → ℕ
steps_of r [] = 0
steps_of runs_mgmt (by runs_mgmt r ∷ ts) = 1 + steps_of runs_mgmt ts
steps_of runs_genr (by runs_genr r ∷ ts) = 1 + steps_of runs_genr ts
steps_of r (t ∷ ts) = steps_of r ts

-- The signals that are subscribed to, and requests whose configurations can be started.
abbrev pub IsHandled :
    {E : Type 0} → (Net → Range) → (String → String ⊎ GenConfig) → Step E → Type 0
IsHandled hosts parse (signalled other_signal) = ⊥
IsHandled hosts parse (by runs_mgmt r) = AsksStartable hosts parse r
IsHandled hosts parse _ = Unit

abbrev pub IsSilent : {E : Type 0} → Step E → Type 0
IsSilent (signalled s) = ⊥
IsSilent _ = Unit

left_none : (pc : Pc) → left pc ≤ 0 → pc ≡ finished
left_none testing h = absurd (omega arith)
left_none serving h = absurd (omega arith)
left_none finished h = refl

left_le : (pc : Pc) → left pc ≤ 2
left_le testing = omega arith
left_le serving = omega arith
left_le finished = omega arith

not_ended : (pc : Pc) → 1 ≤ left pc → pc ≢ finished
not_ended pc h e = omega (arith, h, ap left e)

module _ {E : Type 0} (pf : Platform E) (works : Works pf)
    (parse : String → String ⊎ GenConfig) where
  -- A step of a loop: it goes on unless the flag is set, and comes nearer to its end where it is.
  run_loop_lem :
      (t : Turn E) (pc : Pc) (stop : Bool) (s : System E)
      → Sane pf.hosts s
      → TurnStartable pf.hosts parse t
      → (pc' : Pc) × (s' : System E) × (run_loop (turn pf parse t) pc stop s ≡ some (pc', s'))
        × Sane pf.hosts s'
        × (stop ≡ true → left pc' ≤ left pc - 1)
        × (stop ≡ false → 1 ≤ left pc → 1 ≤ left pc')
  unfolding run_loop
  run_loop_lem t testing true s g asks = (finished, s, refl, g, λ h. omega arith, λ h. cc)
  run_loop_lem t testing false s g asks = (serving, s, refl, g, λ h. cc, λ h k. omega arith)
  run_loop_lem t serving stop s g asks =
      let (s', e, k, _) = turn-Sane pf works parse t s g asks in
      (testing, s', rw e refl, k.sane, λ h. omega arith, λ h k'. omega arith)
  run_loop_lem t finished stop s g asks = (finished, s, refl, g, λ h. omega arith, λ h k. k)

  -- What a sequence of steps does to the loops.
  record Stepped (ts : List (Step E)) (l l' : Loops E) : Type 0 where
    sane : Sane pf.hosts l'.system
    stays : l.stop_flag ≡ true → l'.stop_flag ≡ true
    nearer_mgmt : l.stop_flag ≡ true → left l'.mgmt ≤ left l.mgmt - steps_of runs_mgmt ts
    nearer_genr : l.stop_flag ≡ true → left l'.genr ≤ left l.genr - steps_of runs_genr ts
    goes_on :
        All IsSilent ts
        → l.stop_flag ≡ false
        → (l'.stop_flag ≡ false)
          × (1 ≤ left l.mgmt → 1 ≤ left l'.mgmt)
          × (1 ≤ left l.genr → 1 ≤ left l'.genr)

  stopped-Stepped :
      (sig : Signal) (l : Loops E)
      → Sane pf.hosts l.system
      → Stepped (signalled sig ∷ []) l (record l { stop_flag = true })
  stopped-Stepped sig l g = record {
    sane = g;
    stays = λ k. refl;
    nearer_mgmt = λ k. omega arith;
    nearer_genr = λ k. omega arith;
    goes_on = λ u k. absurd u.0;
  }

  step-Stepped :
      (t : Step E) (l : Loops E)
      → IsHandled pf.hosts parse t
      → Sane pf.hosts l.system
      → (l' : Loops E) × (step pf parse t l ≡ some l') × Stepped (t ∷ []) l l'
  unfolding step signal_handler
  step-Stepped (by runs_mgmt r) l h g =
      let (pc, s, e, g', nearer, on) = run_loop_lem (mgmt_turn r) l.mgmt l.stop_flag l.system g h in
      (
        record l { system = s; mgmt = pc },
        rw e refl,
        record {
          sane = g';
          stays = λ k. k;
          nearer_mgmt = λ k. omega (arith, nearer k);
          nearer_genr = λ k. omega arith;
          goes_on = λ u k. (k, on k, λ k'. k');
        },
      )
  step-Stepped (by runs_genr r) l h g =
      let (pc, s, e, g', nearer, on) = run_loop_lem genr_turn l.genr l.stop_flag l.system g tt in
      (
        record l { system = s; genr = pc },
        rw e refl,
        record {
          sane = g';
          stays = λ k. k;
          nearer_mgmt = λ k. omega arith;
          nearer_genr = λ k. omega (arith, nearer k);
          goes_on = λ u k. (k, λ k'. k', on k);
        },
      )
  step-Stepped (signalled sigint) l h g =
      (record l { stop_flag = true }, refl, stopped-Stepped sigint l g)
  step-Stepped (signalled sigterm) l h g =
      (record l { stop_flag = true }, refl, stopped-Stepped sigterm l g)
  step-Stepped (signalled other_signal) l h g = absurd h
  step-Stepped (elapses f) l h g =
      let (s, e, k, _) = turn-Sane pf works parse (passes f) l.system g tt in
      (
        record l { system = s },
        rw e refl,
        record {
          sane = k.sane;
          stays = λ k. k;
          nearer_mgmt = λ k. omega arith;
          nearer_genr = λ k. omega arith;
          goes_on = λ u k. (k, λ k'. k', λ k'. k');
        },
      )

  steps_one :
      (r : Role) (t : Step E) (ts : List (Step E))
      → steps_of r (t ∷ ts) ≡ steps_of r (t ∷ []) + steps_of r ts
  steps_one runs_mgmt (by runs_mgmt q) ts = omega arith
  steps_one runs_mgmt (by runs_genr q) ts = omega arith
  steps_one runs_genr (by runs_mgmt q) ts = omega arith
  steps_one runs_genr (by runs_genr q) ts = omega arith
  steps_one runs_mgmt (signalled s) ts = omega arith
  steps_one runs_genr (signalled s) ts = omega arith
  steps_one runs_mgmt (elapses f) ts = omega arith
  steps_one runs_genr (elapses f) ts = omega arith

  steps-Stepped :
      (ts : List (Step E)) (l : Loops E)
      → All (IsHandled pf.hosts parse) ts
      → Sane pf.hosts l.system
      → (l' : Loops E) × (steps pf parse ts l ≡ some l') × Stepped ts l l'
  unfolding steps
  steps-Stepped [] l h g = (
    l,
    refl,
    record {
      sane = g;
      stays = λ k. k;
      nearer_mgmt = λ k. omega arith;
      nearer_genr = λ k. omega arith;
      goes_on = λ u k. (k, λ k'. k', λ k'. k');
    },
  )
  steps-Stepped (t ∷ ts) l h g =
      let (l', e, d) = step-Stepped t l h.0 g in
      let (l'', e', d') = steps-Stepped ts l' h.1 d.sane in
      (
        l'',
        rw (e, steps) e',
        record {
          sane = d'.sane;
          stays = λ k. d'.stays (d.stays k);
          nearer_mgmt = λ k.
              omega (arith, d.nearer_mgmt k, d'.nearer_mgmt (d.stays k), steps_one runs_mgmt t ts);
          nearer_genr = λ k.
              omega (arith, d.nearer_genr k, d'.nearer_genr (d.stays k), steps_one runs_genr t ts);
          goes_on = λ u k.
              let (k', m, n) = d.goes_on (u.0, tt) k in
              let (k'', m', n') = d'.goes_on u.1 k' in (k'', λ x. m' (m x), λ x. n' (n x));
        },
      )

  signal-stops :
      (sig : Signal) (l l' : Loops E)
      → IsHandled {E = E} pf.hosts parse (signalled sig)
      → step pf parse (signalled sig) l ≡ some l'
      → l'.stop_flag ≡ true
  unfolding step signal_handler
  signal-stops sigint l l' h e = sym (ap (λ (k : Loops E). k.stop_flag) (some-injective _ l' e))
  signal-stops sigterm l l' h e = sym (ap (λ (k : Loops E). k.stop_flag) (some-injective _ l' e))
  signal-stops other_signal l l' h e = absurd h

  -- From a state in order the loops end after a signal, each with its second step at the latest.
  pub signal-ends :
      (ts us : List (Step E)) (sig : Signal) (l : Loops E)
      → All (IsHandled pf.hosts parse) ts
      → All (IsHandled pf.hosts parse) (signalled sig ∷ us)
      → 2 ≤ steps_of runs_mgmt us
      → 2 ≤ steps_of runs_genr us
      → Sane pf.hosts l.system
      → (l' : Loops E) × (steps pf parse (ts ++ (signalled sig ∷ us)) l ≡ some l')
        × Sane pf.hosts l'.system
        × (l'.mgmt ≡ finished)
        × (l'.genr ≡ finished)
  unfolding steps
  signal-ends [] us sig l h k m n g =
      let (l', e, d) = step-Stepped (signalled sig) l k.0 g in
      let (l'', e', d') = steps-Stepped us l' k.1 d.sane in
      let stopped = signal-stops sig l l' k.0 e in
      (
        l'',
        rw (e, steps) e',
        d'.sane,
        left_none l''.mgmt (omega (arith, d'.nearer_mgmt stopped, left_le l'.mgmt)),
        left_none l''.genr (omega (arith, d'.nearer_genr stopped, left_le l'.genr)),
      )
  signal-ends (t ∷ ts) us sig l h k m n g =
      let (l', e, d) = step-Stepped t l h.0 g in
      let (l'', e', g', ended_mgmt, ended_genr) = signal-ends ts us sig l' h.1 k m n d.sane in
      (l'', rw (e, steps) e', g', ended_mgmt, ended_genr)

  -- From the start on, whatever turns and signals come and however the two threads interleave, no
  -- step aborts. After a signal to stop both loops have come to their ends once each thread has
  -- taken two steps more, and where no signal has come neither loop has ended. It is relied on what
  -- every run of the managers relies on, and that no signal comes but those that are subscribed to.
  pub loops_end :
      (ts us : List (Step E)) (sig : Signal) (env : E)
      → All (IsHandled pf.hosts parse) ts
      → All (IsHandled pf.hosts parse) (signalled sig ∷ us)
      → 2 ≤ steps_of runs_mgmt us
      → 2 ≤ steps_of runs_genr us
      → ((l : Loops E) × (steps pf parse (ts ++ (signalled sig ∷ us)) (start_loops env) ≡ some l)
          × Sane pf.hosts l.system
          × (l.mgmt ≡ finished)
          × (l.genr ≡ finished))
        × ((l : Loops E) × (steps pf parse ts (start_loops env) ≡ some l)
            × (All IsSilent ts → (l.mgmt ≢ finished) × (l.genr ≢ finished)))
  loops_end ts us sig env h k m n =
      let l = start_loops env in
      let g = start_system-Sane pf.hosts env in
      let (l', e, d) = steps-Stepped ts l h g in
      (
        signal-ends ts us sig l h k m n g,
        (
          l',
          e,
          λ u.
              let (_, more_mgmt, more_genr) = d.goes_on u refl in
              (
                not_ended l'.mgmt (more_mgmt (omega arith)),
                not_ended l'.genr (more_genr (omega arith)),
              ),
        ),
      )
