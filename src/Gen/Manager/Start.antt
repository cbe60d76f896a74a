-- ===== src/Gen/Manager/Start.antt =====
-- The start of a generation: the construction of the generators, and what a start keeps.
use Prim.Native.String.{String}
use mathlib.Core.Path.{subst}
use traffic_generator.Base.{
  ℕ, ◌+◌, ◌/◌, ◌^◌, ◌<◌, ◌≡◌, refl, sym, ap, ◌∙◌, Bool-cases, some, List, [], ◌∷◌, ◌++◌, length,
  All, All-intro, All-get, All-append, lt_of_get_elem?, ◌==◌, ◌⊎◌, inl, inr, arith,
}
use mathlib.Core.Option.{some-injective}
use traffic_generator.Put.Assert.{IsIntended}
use traffic_generator.Put.Cycles.{from_micros}
use traffic_generator.Gen.Rotation.{Place, Range, IsRange, place_after}
use traffic_generator.Gen.World.{World, get_timer, manager_ops}
use traffic_generator.Gen.Flows.{Pkt, Flow, FlowsGenerator}
use traffic_generator.Gen.Flows.Setup.{
  setup_flows-Passed, Assigns, schedule_all, AtFirst, setup_flow_events-scheduled,
}
use traffic_generator.Gen.Flows.Load.{Captured, LoadError, LoadConfig, load_pkts}
use traffic_generator.Gen.Flows.Load.Checked.{load_pkts-length}
use traffic_generator.Mgmt.Config.{GenConfig, FlowsConfig, Net}
use traffic_generator.Gen.Manager.{
  Platform, Built, built, thrown, cnt_handles, events_built, flows_built, pkts_built,
  make_generator, make_generators, load_config, thrown_after, free_pkts,
}
use traffic_generator.Gen.Manager.Fire.{Runs, InShape}
use traffic_generator.Gen.Manager.Turn.{Stops, destroy_generators-Cleared}

-- The timers, the queue of responses and the packets to send, as they were.
pub record Quiet {E : Type 0} (v w : World E) : Type 0 where
  pub timers : w.cnt_timers ≡ v.cnt_timers
  pub queue : w.out_queue ≡ v.out_queue
  pub tx : w.tx_pkts ≡ v.tx_pkts

-- What a capture's loader may do: read packets, fewer than 32 bits count, or throw.
pub data Loads {E : Type 0} (w : World E) : Built (World E) (List Captured) → Type 0 where
  reads :
      (cs : List Captured) (w' : World E) → length cs < 2 ^ 32 → Quiet w w' → Loads w (built cs w')
  throws : (what : String) (w' : World E) → Quiet w w' → Loads w (thrown what w')

-- What the manager relies on: assertions that abort where they fail, timers that stop and expire as
-- DPDK documents it, a move assignment that returns, and a loader that returns or throws.
pub record Works {E : Type 0} (pf : Platform E) : Type 0 where
  pub intended : IsIntended pf.aborts
  pub stops : Stops pf
  pub expired : (ns : List ℕ) (e : E) → All (InShape ns) (pf.dpdk.timers_expired ns e)
  pub move : (w : World E) → (w' : World E) × (pf.move_assign w ≡ some w') × Quiet w w'
  pub loads : (name : String) (w : World E) → Loads w (pf.load_captured name w)

-- What a configuration must be for its flows to be set up: a burst, a flow, and hosts.
pub record IsStartable (hosts : Net → Range) (cfg : FlowsConfig) : Type 0 where
  pub some_burst : 0 < cfg.burst
  pub burst_word : cfg.burst < 2 ^ 32
  pub some_flow : 0 < cfg.flows_per_sec
  pub cln : IsRange (hosts cfg.cln_ips)
  pub srv : IsRange (hosts cfg.srv_ips)

cnt_handles-append :
    (gs : List FlowsGenerator) (g : FlowsGenerator)
    → cnt_handles (gs ++ (g ∷ [])) ≡ cnt_handles gs + length g.flows
cnt_handles-append [] g = omega arith
cnt_handles-append (x ∷ gs) g = omega (arith, cnt_handles-append gs g)

module _ {E : Type 0} (pf : Platform E) (works : Works pf) where
  -- More timers, and all else as it was.
  pub record Armed (n : ℕ) (v w : World E) : Type 0 where
    pub timers : w.cnt_timers ≡ v.cnt_timers + n
    pub queue : w.out_queue ≡ v.out_queue
    pub tx : w.tx_pkts ≡ v.tx_pkts

  abbrev assigned : ℕ → World E → World E
  assigned i w = (works.move (get_timer pf.dpdk w)).0

  assigns : (gen : ℕ) → Assigns (manager_ops pf.dpdk gen pf.move_assign) assigned
  assigns gen i w = (works.move (get_timer pf.dpdk w)).1

  schedule_all-Armed :
      (gen : ℕ) (first : Pkt) (others : List Pkt) (step k : ℕ) (flows : List Flow) (w : World E)
      → Armed (length flows) w (
          schedule_all
            (manager_ops pf.dpdk gen pf.move_assign)
            assigned
            (assigns gen)
            first
            others
            step
            k
            flows
            w)
  unfolding schedule_all get_timer
  schedule_all-Armed gen first others step k [] w = record {
    timers = omega arith;
    queue = refl;
    tx = refl;
  }
  schedule_all-Armed gen first others step k (fl ∷ flows) w =
      let q = (works.move (get_timer pf.dpdk w)).2 in
      let r = schedule_all-Armed gen first others step (k + 1) flows _ in
      record {
        timers = omega (arith, r.timers, q.timers);
        queue = r.queue ∙ q.queue;
        tx = r.tx ∙ q.tx;
      }

  -- How the construction of something ends: with as many timers more, or as it began.
  pub data Makes {A : Type 0} (P : A → Type 0) (cnt : A → ℕ) (w : World E)
      : Built (World E) A → Type 0 where
    makes : (a : A) (w' : World E) → P a → Armed (cnt a) w w' → Makes P cnt w (built a w')
    fails : (what : String) (w' : World E) → Quiet w w' → Makes P cnt w (thrown what w')

  abbrev cnt_flows : FlowsGenerator → ℕ
  cnt_flows g = length g.flows

  flows_built-Makes :
      (idx : ℕ) (cfg : FlowsConfig) (pkts : List Pkt) (w : World E)
      → IsStartable pf.hosts cfg
      → 0 < length pkts
      → length pkts < 2 ^ 32
      → Makes Runs cnt_flows w (flows_built pf idx cfg pkts w)
  unfolding flows_built events_built free_pkts
  flows_built-Makes idx cfg [] w s pos few = absurd (omega arith)
  flows_built-Makes idx cfg (first ∷ others) w s pos few =
      let cln = pf.hosts cfg.cln_ips in
      let srv = pf.hosts cfg.srv_ips in
      let (flows, e, count, each) =
        setup_flows-Passed cln srv cfg.burst s.cln s.srv s.some_burst s.burst_word pf.aborts
          cfg.flows_per_sec works.intended in
      let step = from_micros pf.hz (1_000_000 / length flows) in
      let at_first : AtFirst (manager_ops pf.dpdk idx pf.move_assign) assigned (assigns idx) first
          others step flows =
        All-intro (λ (fl : Flow). fl.pkt_idx ≡ 0) flows
          (λ i fl found.
            ap (λ (f : Flow). f.pkt_idx)
              (some-injective fl _
                (sym found ∙ each i (omega (arith, count, lt_of_get_elem? flows i fl found))))) in
      let at_pkt : All (λ (fl : Flow). fl.pkt_idx < length (first ∷ others)) flows =
        All-intro (λ (fl : Flow). fl.pkt_idx < length (first ∷ others)) flows
          (λ i fl found.
            let z : fl.pkt_idx ≡ 0 =
              All-get (λ (fl : Flow). fl.pkt_idx ≡ 0) flows i fl at_first found in
            omega (arith, z, pos)) in
      let sched =
        setup_flow_events-scheduled (manager_ops pf.dpdk idx pf.move_assign) assigned (assigns idx)
          first others step pf.hz flows w at_first (omega (arith, count, s.some_flow)) refl in
      let place : Place = place_after cln srv cfg.burst cfg.flows_per_sec in
      let g : FlowsGenerator = record {
        pkts = first ∷ others;
        flows = flows;
        cln_ip_addrs = cln;
        srv_ip_addrs = srv;
        idx = idx;
        place = place;
        burst_cnt = cfg.burst;
      } in
      let w' =
        schedule_all (manager_ops pf.dpdk idx pf.move_assign) assigned (assigns idx) first others
          step 0 flows w in
      let goal = Makes Runs cnt_flows w in
      elim (Bool-cases (step == 0)) [
        | inl many ↦ subst goal (sym (rw (e, flows_built, sched, many) refl)) (
            fails "Can't work with so many flows per second" (free_pkts pf g w)
              (record { timers = refl; queue = refl; tx = refl }))
        | inr whole ↦ subst goal (sym (rw (e, flows_built, sched, whole) refl)) (
            makes g w'
              (
                cfg.flows_per_sec,
                record {
                  built = record {
                    some_pkt = pos;
                    few_pkts = few;
                    cln = s.cln;
                    srv = s.srv;
                    some_burst = s.some_burst;
                    burst_word = s.burst_word;
                  };
                  at = at_pkt;
                  place = refl;
                },
              )
              (schedule_all-Armed idx first others step 0 flows w))
      ]

  after-Makes :
      {A : Type 0} {P : A → Type 0} {cnt : A → ℕ} {v w : World E} {b : Built (World E) A}
      → Quiet v w
      → Makes P cnt w b
      → Makes P cnt v b
  after-Makes q (makes a w' p r) = makes a w' p (record {
    timers = omega (arith, r.timers, q.timers);
    queue = r.queue ∙ q.queue;
    tx = r.tx ∙ q.tx;
  })
  after-Makes q (fails what w' r) =
      fails what w'
        (record { timers = r.timers ∙ q.timers; queue = r.queue ∙ q.queue; tx = r.tx ∙ q.tx })

  pkts_built-Makes :
      (idx : ℕ) (cfg : FlowsConfig) (lcfg : LoadConfig) (captured : List Captured)
      (r : LoadError ⊎ List Pkt) (w : World E)
      → IsStartable pf.hosts cfg
      → length captured < 2 ^ 32
      → load_pkts pf.hz pf.native_to_big16 pf.big_to_native16 lcfg cfg.inter_pkts_gap captured ≡ r
      → Makes Runs cnt_flows w (pkts_built pf idx cfg captured r w)
  unfolding pkts_built
  pkts_built-Makes idx cfg lcfg captured (inl e) w s few eq =
      fails _ _ (record { timers = refl; queue = refl; tx = refl })
  pkts_built-Makes idx cfg lcfg captured (inr pkts) w s few eq =
      let (len, pos) =
        load_pkts-length pf.hz pf.native_to_big16 pf.big_to_native16 lcfg cfg.inter_pkts_gap
          captured pkts eq in
      flows_built-Makes idx cfg pkts w s pos (omega (arith, len, few))

  loaded-Makes :
      (gcfg : GenConfig) (idx : ℕ) (cfg : FlowsConfig) (w : World E)
      (b : Built (World E) (List Captured))
      → IsStartable pf.hosts cfg
      → Loads w b
      → pf.load_captured cfg.name w ≡ b
      → Makes Runs cnt_flows w (make_generator pf gcfg idx cfg w)
  unfolding make_generator
  loaded-Makes gcfg idx cfg w _ s (reads cs w' few q) e =
      subst (Makes Runs cnt_flows w) (sym (rw (e, make_generator) refl))
        (after-Makes q (pkts_built-Makes idx cfg (load_config pf gcfg cfg w) cs _ w' s few refl))
  loaded-Makes gcfg idx cfg w _ s (throws what w' q) e =
      subst (Makes Runs cnt_flows w) (sym (rw (e, make_generator) refl)) (fails what w' q)

  make_generator-Makes :
      (gcfg : GenConfig) (idx : ℕ) (cfg : FlowsConfig) (w : World E)
      → IsStartable pf.hosts cfg
      → Makes Runs cnt_flows w (make_generator pf gcfg idx cfg w)
  make_generator-Makes gcfg idx cfg w s =
      loaded-Makes gcfg idx cfg w _ s (works.loads cfg.name w) refl

  -- A round of the loop, from how the rest of it ends.
  grown :
      (gcfg : GenConfig) (idx : ℕ) (cfg : FlowsConfig) (cfgs : List FlowsConfig)
      (gens : List FlowsGenerator) (v w : World E)
      → Armed (cnt_handles gens) v w
      → (b : Built (World E) FlowsGenerator) → Makes Runs cnt_flows w b
      → make_generator pf gcfg idx cfg w ≡ b
      → ((g : FlowsGenerator) (w' : World E)
          → Runs g
          → Armed (cnt_handles (gens ++ (g ∷ []))) v w'
          → Makes
              (All Runs)
              cnt_handles
              v
              (make_generators pf gcfg (idx + 1) cfgs (gens ++ (g ∷ [])) w'))
      → Makes (All Runs) cnt_handles v (make_generators pf gcfg idx (cfg ∷ cfgs) gens w)
  unfolding make_generators
  grown gcfg idx cfg cfgs gens v w a _ (makes g w' r more) e rest =
      subst (Makes (All Runs) cnt_handles v) (sym (rw (e, make_generators) refl)) (
        rest g w' r (record {
          timers = omega (arith, more.timers, a.timers, cnt_handles-append gens g);
          queue = more.queue ∙ a.queue;
          tx = more.tx ∙ a.tx;
        }))
  grown gcfg idx cfg cfgs gens v w a _ (fails what w' q) e rest =
      let (w'', e', c) = destroy_generators-Cleared pf works.intended works.stops gens w' in
      subst (Makes (All Runs) cnt_handles v) (sym (rw (e, make_generators, e', thrown_after) refl))
        (fails what w'' (record {
          timers = omega (arith, c.timers, q.timers, a.timers);
          queue = c.queue ∙ q.queue ∙ a.queue;
          tx = c.tx ∙ q.tx ∙ a.tx;
        }))

  -- The loop, with the generators `gens` constructed since the world was `v`.
  pub make_generators-Makes :
      (gcfg : GenConfig) (idx : ℕ) (cfgs : List FlowsConfig) (gens : List FlowsGenerator)
      (v w : World E)
      → All (IsStartable pf.hosts) cfgs
      → All Runs gens
      → Armed (cnt_handles gens) v w
      → Makes (All Runs) cnt_handles v (make_generators pf gcfg idx cfgs gens w)
  unfolding make_generators
  make_generators-Makes gcfg idx [] gens v w s runs a = makes gens w runs a
  make_generators-Makes gcfg idx (cfg ∷ cfgs) gens v w s runs a =
      grown gcfg idx cfg cfgs gens v w a (make_generator pf gcfg idx cfg w)
        (make_generator-Makes gcfg idx cfg w s.0) refl
        (λ g w' r b.
          make_generators-Makes gcfg (idx + 1) cfgs (gens ++ (g ∷ [])) v w' s.1
            (All-append Runs gens (g ∷ []) runs (r, tt)) b)
