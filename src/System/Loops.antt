-- ===== src/System/Loops.antt =====
-- app/application.cpp: the loops of the two threads, `run`, with the flag that ends them and the
-- signals that set it. A test of the flag and a turn are steps of their own, so that a signal may
-- come between them.
pub mod Ends
pub mod Settled
mod Tests
use Prim.Native.String.{String}
use traffic_generator.Base.{
  ℕ, Bool, true, false, Option, none, some, List, [], ◌∷◌, ◌⊎◌, ◌==◌, if◌then◌else◌, ◌>>=◌,
}
use traffic_generator.Gen.Manager.{Platform}
use traffic_generator.Mgmt.Config.{GenConfig}
use traffic_generator.Mgmt.Manager.{Request}
use traffic_generator.System.{System, mgmt_turn, genr_turn, passes, turn, start_system}

pub data Signal : Type 0 where
  sigint sigterm other_signal : Signal

-- Where a thread stands: before a test of the flag, before a turn, or past its loop.
pub data Pc : Type 0 where
  testing serving finished : Pc

pub record Loops (E : Type 0) : Type 0 where
  pub system : System E
  pub stop_flag : Bool
  pub mgmt : Pc
  pub genr : Pc

abbrev pub start_loops : {E : Type 0} → E → Loops E
start_loops env = record {
  system = start_system env;
  stop_flag = false;
  mgmt = testing;
  genr = testing;
}

-- Which loop the thread of a processor runs; on any other than the two it is an abort.
pub data Role : Type 0 where
  runs_mgmt runs_genr : Role

unfoldable pub role_of : ℕ → ℕ → ℕ → Option Role
role_of cpu0 cpu1 lcore =
    if lcore == cpu0 then some runs_mgmt else if lcore == cpu1 then some runs_genr else none

-- A step of a thread, with the request that a turn of the management would get, a signal, and a
-- change of what DPDK works with.
pub data Step (E : Type 0) : Type 0 where
  by : Role → Option Request → Step E
  signalled : Signal → Step E
  elapses : (E → E) → Step E

-- `signal_handler`
signal_handler : {E : Type 0} → Signal → Loops E → Option (Loops E)
signal_handler sigint l = some (record l { stop_flag = true })
signal_handler sigterm l = some (record l { stop_flag = true })
signal_handler other_signal l = none

-- `run_loop`, the next step of a thread with its turn.
pub run_loop :
    {E : Type 0} → (System E → Option (System E)) → Pc → Bool → System E → Option (Pc × System E)
run_loop process testing stop s = some (if stop then finished else serving, s)
run_loop process serving stop s = do s' ← process s; some (testing, s')
run_loop process finished stop s = some (finished, s)

module _ {E : Type 0} (pf : Platform E) (parse : String → String ⊎ GenConfig) where
  pub step : Step E → Loops E → Option (Loops E)
  unfolding signal_handler run_loop
  step (by runs_mgmt r) l = do
    (pc, s) ← run_loop (turn pf parse (mgmt_turn r)) l.mgmt l.stop_flag l.system
    some (record l { system = s; mgmt = pc })
  step (by runs_genr r) l = do
    (pc, s) ← run_loop (turn pf parse genr_turn) l.genr l.stop_flag l.system
    some (record l { system = s; genr = pc })
  step (signalled sig) l = signal_handler sig l
  step (elapses f) l = do s ← turn pf parse (passes f) l.system; some (record l { system = s })

  -- The steps in the order in which they happen.
  pub steps : List (Step E) → Loops E → Option (Loops E)
  steps [] l = some l
  steps (t ∷ ts) l = elim (step t l) [ none ↦ none | some l' ↦ steps ts l' ]
