-- ===== src/Gen/Build.antt =====
-- gen/manager.cpp and the constructor of gen/priv/flows_generator.cpp: the construction and the
-- destruction of generators. `none` and `stuck` are an assertion that aborts the program, or
-- undefined behaviour.
use Prim.Native.String.{String}
use traffic_generator.Base.{
  ℕ, ◌+◌, ◌*◌, ◌^◌, ◌-◌, Bool, Option, none, some, List, [], ◌∷◌, ◌++◌, map, length, ◌⊎◌, inl, inr,
}
use traffic_generator.Put.Assert.{enforce}
use traffic_generator.Gen.Rotation.{Range}
use traffic_generator.Gen.World.{Dpdk, World, manager_ops}
use traffic_generator.Gen.Flows.{
  Pkt, Flow, FlowsGenerator, setup_flows, setup_flow_events, scheduled, div_by_zero, too_many_flows,
  out_of_range, diverges, EventsResult,
}
use traffic_generator.Gen.Flows.Load.{Captured, LoadError, LoadConfig, load_pkts}
use traffic_generator.Mgmt.Config.{GenConfig, FlowsConfig, Net}

-- How many timers the handles of the generators' flows hold.
abbrev pub cnt_handles : List FlowsGenerator → ℕ
cnt_handles [] = 0
cnt_handles (g ∷ gs) = length g.flows + cnt_handles gs

-- The number of flows of each generator.
abbrev pub shape : List FlowsGenerator → List ℕ
shape = map (λ g. length g.flows)

-- An Ethernet address of bytes as a number.
abbrev pub ether_num : List ℕ → ℕ
ether_num [] = 0
ether_num (b ∷ bs) = b * 256 ^ length bs + ether_num bs

-- How the construction of something ends, with the state after it unless it is stuck.
pub data Built (W : Type 0) (A : Type 0) : Type 0 where
  built : A → W → Built W A
  thrown : String → W → Built W A
  stuck : Built W A

-- What the manager works with: DPDK, the frequency of its timer, the order of bytes of 32 and 16
-- bits, the flags that ask for checksums, the move assignment of a handle, the hosts of a network,
-- what the capture loader reads, the texts of exceptions, and what an assertion aborts at.
pub record Platform (E : Type 0) : Type 0 where
  pub dpdk : Dpdk E
  pub hz : ℕ
  pub native_to_big : ℕ → ℕ
  pub native_to_big16 : ℕ → ℕ
  pub big_to_native16 : ℕ → ℕ
  pub tx_flags : ℕ
  pub move_assign : World E → Option (World E)
  pub hosts : Net → Range
  pub load_captured : String → World E → Built (World E) (List Captured)
  pub what_of : LoadError → String
  pub aborts : Bool → Bool

module _ {E : Type 0} (pf : Platform E) where
  -- `ret_timer` of every flow's handle.
  unfoldable pub ret_timers : ℕ → List Flow → World E → Option (World E)
  ret_timers gen [] w = some w
  ret_timers gen (fl ∷ flows) w =
      let (stopped, env) = pf.dpdk.timer_stop gen fl.idx w.env in
      let rest = ret_timers gen flows (record w { env = env; cnt_timers = w.cnt_timers - 1 }) in
      enforce pf.aborts stopped rest

  unfoldable pub free_pkts : FlowsGenerator → World E → World E
  free_pkts g w = record w {
    env = pf.dpdk.pktmbuf_free_bulk (map (λ (p : Pkt). p.mbuf) g.pkts) w.env;
  }

  -- The destruction of generators, of their flows before their packets.
  unfoldable pub destroy_generators : List FlowsGenerator → World E → Option (World E)
  unfolding ret_timers free_pkts
  destroy_generators [] w = some w
  destroy_generators (g ∷ gs) w = elim (ret_timers g.idx g.flows w) [
    | none ↦ none
    | some w' ↦ destroy_generators gs (free_pkts g w')
  ]

  -- The exception of `setup_flow_events` comes before any handle is assigned.
  unfoldable pub events_built :
      FlowsGenerator → World E → EventsResult (World E) → Built (World E) FlowsGenerator
  unfolding free_pkts
  events_built g w (scheduled w') = built g w'
  events_built g w too_many_flows =
      thrown "Can't work with so many flows per second" (free_pkts g w)
  events_built g w div_by_zero = stuck
  events_built g w out_of_range = stuck
  events_built g w diverges = stuck

  unfoldable pub flows_built : ℕ → FlowsConfig → List Pkt → World E → Built (World E) FlowsGenerator
  unfolding events_built
  flows_built idx cfg pkts w =
      elim (setup_flows (pf.hosts cfg.cln_ips) (pf.hosts cfg.srv_ips) cfg.burst pf.aborts
        cfg.flows_per_sec) [
          | none ↦ stuck
          | some (flows, place) ↦
              events_built
                (record {
                  pkts = pkts;
                  flows = flows;
                  cln_ip_addrs = pf.hosts cfg.cln_ips;
                  srv_ip_addrs = pf.hosts cfg.srv_ips;
                  idx = idx;
                  place = place;
                  burst_cnt = cfg.burst;
                })
                w (setup_flow_events (manager_ops pf.dpdk idx pf.move_assign) pkts pf.hz flows w)
        ]

  -- The packets that were read go when they are found to be no good.
  unfoldable pub pkts_built :
      ℕ
      → FlowsConfig
      → List Captured
      → LoadError ⊎ List Pkt
      → World E
      → Built (World E) FlowsGenerator
  unfolding flows_built
  pkts_built idx cfg captured (inl e) w =
      thrown (pf.what_of e) (record w {
        env = pf.dpdk.pktmbuf_free_bulk (map (λ (c : Captured). c.mbuf) captured) w.env;
      })
  pkts_built idx cfg captured (inr pkts) w = flows_built idx cfg pkts w

  abbrev pub load_config : GenConfig → FlowsConfig → World E → LoadConfig
  load_config gcfg cfg w = record {
    cln_ether_addr = pf.dpdk.mac_addr w.env;
    srv_ether_addr = ether_num gcfg.dut_addr;
    cln_port = cfg.cln_port;
  }

  -- The constructor of `flows_generator`.
  unfoldable pub make_generator :
      GenConfig → ℕ → FlowsConfig → World E → Built (World E) FlowsGenerator
  unfolding pkts_built
  make_generator gcfg idx cfg w = elim (pf.load_captured cfg.name w) [
    | thrown what w' ↦ thrown what w'
    | built captured w' ↦
        pkts_built idx cfg captured
          (load_pkts pf.hz pf.native_to_big16 pf.big_to_native16 (load_config gcfg cfg w)
            cfg.inter_pkts_gap captured)
          w'
    | stuck ↦ stuck
  ]

  -- The end of a construction that threw, once what was constructed is destroyed.
  abbrev pub thrown_after : String → Option (World E) → Built (World E) (List FlowsGenerator)
  thrown_after what none = stuck
  thrown_after what (some w) = thrown what w

  -- The loop that constructs the generators; those constructed go when a later one throws.
  unfoldable pub make_generators :
      GenConfig
      → ℕ
      → List FlowsConfig
      → List FlowsGenerator
      → World E
      → Built (World E) (List FlowsGenerator)
  make_generators gcfg idx [] gens w = built gens w
  make_generators gcfg idx (cfg ∷ cfgs) gens w = elim (make_generator gcfg idx cfg w) [
    | built g w' ↦ make_generators gcfg (idx + 1) cfgs (gens ++ (g ∷ [])) w'
    | thrown what w' ↦ thrown_after what (destroy_generators gens w')
    | stuck ↦ stuck
  ]
