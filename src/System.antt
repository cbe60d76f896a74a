-- ===== src/System.antt =====
-- app/application.cpp: the two managers with the two queues between them. Each of its threads runs
-- turns of one manager; a run is a sequence of their turns in any order, with what DPDK does
-- between them. `none` is an abort or undefined behaviour in a turn.
pub mod Run
pub mod Settled
pub mod Reading
pub mod Http
pub mod Loops
mod Tests
use Prim.Native.String.{String}
use traffic_generator.Base.{ℕ, ◌+◌, Bool, Option, none, some, List, [], ◌∷◌, ◌⊎◌, inl, inr, ◌>>=◌}
use traffic_generator.Put.Ring.{init}
use traffic_generator.Gen.World.{World}
use traffic_generator.Gen.Manager.{Platform}
use traffic_generator.Gen.Manager as Gen
use traffic_generator.Mgmt.Config.{GenConfig}
use traffic_generator.Mgmt.Manager.{Request}
use traffic_generator.Mgmt.Manager as Mgmt

-- `application_impl`: `m2g_queue_` is the management's `out_queue`, `g2m_queue_` the generation's.
pub record System (E : Type 0) : Type 0 where
  pub mgmt : Mgmt.Manager
  pub genr : Gen.Manager E

-- The managers when they are constructed, DPDK being in the state `env`.
abbrev pub start_system : {E : Type 0} → E → System E
start_system env = record {
  mgmt = record {
    out_queue = init;
    start_cb = none;
    stop_cb = none;
    stats_cb = none;
    replies = [];
  };
  genr = record {
    world = record {
      env = env;
      out_queue = init;
      cnt_timers = 0;
      tx_pkts = [];
      cnt_tx_pkts_qfull = 0;
      cnt_tx_pkts_nombuf = 0;
    };
    generators = [];
    gen_cycles = none;
    prev_cycles = 0;
  };
}

-- A turn of the management with a request or none, a turn of the generation, and a change of what
-- DPDK works with: time that passes, packets that come.
pub data Turn (E : Type 0) : Type 0 where
  mgmt_turn : Option Request → Turn E
  genr_turn : Turn E
  passes : (E → E) → Turn E

module _ {E : Type 0} (pf : Platform E) (parse : String → String ⊎ GenConfig) where
  pub turn : Turn E → System E → Option (System E)
  turn (mgmt_turn r) s = do
    (m, q) ← Mgmt.process_events pf.aborts parse r s.mgmt s.genr.world.out_queue
    some (record {
      mgmt = m;
      genr = record s.genr { world = record s.genr.world { out_queue = q } };
    })
  turn genr_turn s = do
    (g, q) ← Gen.process_events pf s.genr s.mgmt.out_queue
    some (record { mgmt = record s.mgmt { out_queue = q }; genr = g })
  turn (passes f) s = some (record s {
    genr = record s.genr { world = record s.genr.world { env = f s.genr.world.env } };
  })

  -- The turns of the two threads, in the order in which they happen.
  pub run : List (Turn E) → System E → Option (System E)
  run [] s = some s
  run (t ∷ ts) s = elim (turn t s) [ none ↦ none | some s' ↦ run ts s' ]
