-- ===== src/Gen/Manager.antt =====
-- gen/manager.cpp: the generation's manager, its requests, and a turn of its loop. `none` is an
-- assertion (`TG_ENFORCE`) that aborts the program, or undefined behaviour.
pub mod Calm
pub mod Below
pub mod Fire
pub mod Turn
pub mod Start
pub mod Answer
pub mod Serve
pub mod Settled
pub use traffic_generator.Gen.Build.{Built, built, thrown, stuck, Platform}
unfoldable pub use traffic_generator.Gen.Build.{
  cnt_handles, shape, ether_num, ret_timers, free_pkts, destroy_generators, events_built,
  flows_built, pkts_built, load_config, make_generator, thrown_after, make_generators,
}
use Prim.Native.String.{String}
use traffic_generator.Base.{
  ℕ, zero, suc, ◌+◌, ◌*◌, ◌^◌, ◌-◌, ◌≤◌, Bool, true, false, Option, none, some, List, [], ◌∷◌, ◌++◌,
  map, length, get_elem?, set, ltb, ◌==◌, if◌then◌else◌, ◌>>=◌, ◌⊎◌, inl, inr, ◌&&◌,
}
use traffic_generator.Base.Words.{sub64}
use traffic_generator.Put.Cycles.{from_millis, from_micros}
use traffic_generator.Put.Ring.{Ring}
use traffic_generator.Put.Assert.{not, enforce}
use traffic_generator.Gen.Rotation.{Range}
use traffic_generator.Gen.World.{
  Dpdk, World, transmit_tx_pkts, manager_ops, cnt_burst_pkts, EthStats,
}
use traffic_generator.Gen.Flows.{
  Pkt, Flow, FlowsGenerator, setup_flows, setup_flow_events, scheduled, div_by_zero, too_many_flows,
  out_of_range, diverges, EventsResult, on_event,
}
use traffic_generator.Gen.Flows.Load.{Captured, LoadError, LoadConfig, load_pkts}
use traffic_generator.Mgmt.Config.{GenConfig, FlowsConfig, Net}
use traffic_generator.Mgmt.Messages.{
  OutMsg, IncMsg, Stats, Entry, SummaryStats, req_start_generation, req_stop_generation,
  req_stats_report, res_start_generation, res_stop_generation, res_stats_report, out_capacity,
  inc_capacity,
}
use traffic_generator.Mgmt.Queue.{enqueue, take_batch, visit_all}

-- `gen_cycles`
pub record GenCycles : Type 0 where
  pub begin : ℕ
  pub duration : ℕ

pub record Manager (E : Type 0) : Type 0 where
  pub world : World E
  pub generators : List FlowsGenerator
  pub gen_cycles : Option GenCycles
  -- `prev_cycles_` of the scheduler
  pub prev_cycles : ℕ

abbrev pub is_some : {A : Type 0} → Option A → Bool
is_some none = false
is_some (some a) = true

abbrev pub is_empty : {A : Type 0} → List A → Bool
is_empty [] = true
is_empty (x ∷ xs) = false

-- `generation_started`
abbrev pub generation_started : {E : Type 0} → Manager E → Bool
generation_started m = is_some m.gen_cycles

abbrev pub entries_of : FlowsGenerator → List Flow → List Entry
entries_of g [] = []
entries_of g (fl ∷ flows) =
    record {
      gen_idx = g.idx;
      flow_idx = fl.idx;
      cnt_pkts = fl.cnt_pkts;
      cnt_bytes = fl.cnt_bytes;
      duration = sub64 fl.tstamp_end fl.tstamp_beg;
    }
    ∷ entries_of g flows

-- The loops of `on_inc_msg(req_stop_generation)`.
abbrev pub detailed_of : List FlowsGenerator → List Entry
detailed_of [] = []
detailed_of (g ∷ gs) = entries_of g g.flows ++ detailed_of gs

module _ {E : Type 0} (pf : Platform E) where
  abbrev send : IncMsg → World E → World E
  send msg w = record w { out_queue = (enqueue inc_capacity w.out_queue msg).1 }

  reset_stats : World E → World E
  reset_stats w =
      let (reset, env) = pf.dpdk.eth_stats_reset w.env in
      if reset
      then record w { env = env; cnt_tx_pkts_qfull = 0; cnt_tx_pkts_nombuf = 0 }
      else record w { env = env }

  -- What a start does with generators that are built.
  start_built : GenConfig → List FlowsGenerator → World E → Manager E → Option (Manager E)
  unfolding reset_stats
  start_built cfg gens w m =
      let w' = reset_stats w in
      enforce pf.aborts (is_empty m.generators) (
        enforce pf.aborts (not (generation_started m)) (
          some (record m {
            world = send (res_start_generation none) w';
            generators = gens;
            gen_cycles = some (record {
              begin = pf.dpdk.timer_cycles w'.env;
              duration = from_millis pf.hz cfg.duration;
            });
          })))

  pub on_req_start : GenConfig → Manager E → Option (Manager E)
  unfolding start_built
  on_req_start cfg m =
      if generation_started m
      then some (record m { world = send (res_start_generation (some "Already started")) m.world })
      else elim (make_generators pf cfg 0 cfg.flows_cfgs [] m.world) [
        | built gens w ↦ start_built cfg gens w m
        | thrown what w ↦ some (record m { world = send (res_start_generation (some what)) w })
        | stuck ↦ none
      ]

  pub get_eth_stats : World E → Stats
  get_eth_stats w =
      let tmp = pf.dpdk.eth_stats_get w.env in
      record {
        cnt_rx_pkts = tmp.ipackets;
        cnt_tx_pkts = tmp.opackets;
        cnt_rx_bytes = tmp.ibytes;
        cnt_tx_bytes = tmp.obytes;
        cnt_rx_pkts_qfull = tmp.imissed;
        cnt_rx_pkts_nombuf = tmp.rx_nombuf;
        cnt_tx_pkts_qfull = w.cnt_tx_pkts_qfull;
        cnt_tx_pkts_nombuf = w.cnt_tx_pkts_nombuf;
        cnt_rx_pkts_err = tmp.ierrors;
        cnt_tx_pkts_err = tmp.oerrors;
      }

  pub stop_generation : Manager E → Option (Manager E)
  unfolding destroy_generators
  stop_generation m = do
    w ← destroy_generators pf m.generators m.world
    enforce pf.aborts (w.cnt_timers == 0)
        (some (record m { world = w; generators = []; gen_cycles = none }))

  pub on_req_stop : Manager E → Option (Manager E)
  unfolding get_eth_stats
  on_req_stop m = do
    let detailed = detailed_of m.generators
    m' ← stop_generation m
    let res : SummaryStats = record { summary = get_eth_stats m'.world; detailed = detailed }
    some (record m' { world = send (res_stop_generation res) m'.world })

  pub on_inc_msg : Manager E → OutMsg → Option (Manager E)
  on_inc_msg m (req_start_generation cfg) = on_req_start cfg m
  on_inc_msg m req_stop_generation = on_req_stop m
  on_inc_msg m req_stats_report =
      some (record m { world = send (res_stats_report (get_eth_stats m.world)) m.world })

  pub receive_rx_pkts : World E → World E
  receive_rx_pkts w =
      let (pkts, env) = pf.dpdk.eth_rx_burst cnt_burst_pkts w.env in
      if is_empty pkts
      then record w { env = env }
      else record w { env = pf.dpdk.pktmbuf_free_bulk pkts env }

  -- The callback of a generator's flow.
  pub fire_one : ℕ → ℕ → Manager E → Option (Manager E)
  fire_one gi fi m = do
    g ← get_elem? m.generators gi
    (g', w) ←
        on_event pf.native_to_big pf.tx_flags (manager_ops pf.dpdk g.idx pf.move_assign) g fi
          m.world
    some (record m { world = w; generators = set m.generators gi g' })

  -- The callbacks of the timers that expired, by their generators and flows.
  pub fire : List (ℕ × ℕ) → Manager E → Option (Manager E)
  fire [] m = some m
  fire ((gi, fi) ∷ due) m = elim (fire_one gi fi m) [ none ↦ none | some m' ↦ fire due m' ]

  -- `event_scheduler::process_events`
  pub scheduler_events : Manager E → Option (Manager E)
  scheduler_events m =
      let cycles = pf.dpdk.timer_cycles m.world.env in
      if ltb (sub64 cycles m.prev_cycles) (from_micros pf.hz 1)
      then some m
      else fire (pf.dpdk.timers_expired (shape m.generators) m.world.env)
          (record m { prev_cycles = cycles })

  transmit_any : Manager E → Manager E
  transmit_any m =
      if is_empty m.world.tx_pkts then m else record m { world = transmit_tx_pkts pf.dpdk m.world }

  -- The rest of a turn while a generation is started, and when its time is over.
  pub generate_started : GenCycles → Manager E → Option (Manager E)
  unfolding transmit_any
  generate_started c m =
      if ltb c.duration (sub64 (pf.dpdk.timer_cycles m.world.env) c.begin)
      then (stop_generation m >>= λ m'. some (transmit_any m'))
      else (scheduler_events m >>= λ m'. some (transmit_any m'))

  -- What a turn does after the messages and the received packets.
  pub generate : Manager E → Option (Manager E)
  unfolding generate_started
  generate m = elim m.gen_cycles [
    | none ↦
        enforce pf.aborts (is_empty m.world.tx_pkts)
          (enforce pf.aborts (m.world.cnt_timers == 0) (some m))
    | some c ↦ generate_started c m
  ]

  -- `process_events`, on the queue of incoming messages.
  pub process_events : Manager E → Ring OutMsg → Option (Manager E × Ring OutMsg)
  unfolding generate
  process_events m inc_queue = do
    (msgs, inc_queue') ← take_batch out_capacity inc_queue
    m' ← visit_all on_inc_msg m msgs
    m'' ← generate (record m' { world = receive_rx_pkts m'.world })
    some (m'', inc_queue')
