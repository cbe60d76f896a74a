-- ===== src/Gen/Manager/Below.antt =====
-- gen/manager.cpp: a turn of the generation stops at an assertion or at an assignment of a handle,
-- or ends as it does where neither stops it.
use traffic_generator.Base.{
  ℕ, ◌+◌, ◌-◌, ◌≡◌, refl, sym, ◌∙◌, Bool, true, false, Bool-cases, Option, Option-cases, none, some,
  List, [], ◌∷◌, ◌++◌, ◌⊎◌, inl, inr, ◌==◌, ltb, get_elem?, length, leb, ◌/◌, if◌then◌else◌,
}
use traffic_generator.Put.Assert.{
  not, enforce, never, Below, Below-bind, enforce-Below, both, Below-along,
}
use traffic_generator.Put.Ring.{Ring}
use traffic_generator.Put.Cycles.{from_micros}
use traffic_generator.Base.Words.{add64, sub64}
use traffic_generator.Gen.World.{World, get_timer, manager_ops}
use traffic_generator.Gen.Flows.{
  Pkt, Flow, FlowsGenerator, setup_flows, setup_from, setup_event, setup_events, setup_flow_events,
  schedule_at, EventsResult, scheduled, div_by_zero, too_many_flows, out_of_range, diverges,
  on_event, on_flow_event, finish_event,
}
use traffic_generator.Gen.Flows.Load.{Captured, LoadError}
use traffic_generator.Gen.Rotation.{begin_place}
use traffic_generator.Mgmt.Config.{GenConfig, FlowsConfig}
use traffic_generator.Mgmt.Messages.{
  OutMsg, req_start_generation, req_stop_generation, req_stats_report, res_start_generation,
}
use traffic_generator.Mgmt.Queue.{visit_all-Below}
use traffic_generator.Gen.Manager.{
  Platform, Built, built, thrown, stuck, Manager, ret_timers, destroy_generators, free_pkts,
  events_built, flows_built, pkts_built, make_generator, make_generators, thrown_after, start_built,
  on_req_start, stop_generation, on_req_stop, on_inc_msg, fire_one, fire, scheduler_events,
  generate_started, generate, process_events, generation_started, is_empty, reset_stats,
  transmit_any, receive_rx_pkts, GenCycles, send, get_eth_stats,
}

abbrev pub or_same : {W : Type 0} → (W → Option W) → W → Option W
or_same move w = elim (move w) [ none ↦ some w | some w' ↦ some w' ]

-- The platform on which no assertion aborts, and every assignment returns.
abbrev pub ideal : {E : Type 0} → Platform E → Platform E
ideal pf = record pf { aborts = never; move_assign = or_same pf.move_assign }

or_same-Below : {W : Type 0} (move : W → Option W) (w : W) → Below (move w) (or_same move w)
or_same-Below move w = elim (Option-cases (move w)) [
  | inl e ↦ inl e
  | inr (w', e) ↦ inr (e ∙ sym (rw (e, or_same) refl))
]

-- The same of a construction, and of the events of flows.
abbrev BuiltBelow : {W A : Type 0} → Built W A → Built W A → Type 0
BuiltBelow b b' = (b ≡ stuck) ⊎ (b ≡ b')

abbrev EventsBelow : {W : Type 0} → EventsResult W → EventsResult W → Type 0
EventsBelow r r' = (r ≡ diverges) ⊎ (r ≡ r')

module _ {E : Type 0} (pf : Platform E) where
  ret_timers-Below :
      (gen : ℕ) (flows : List Flow) (w : World E)
      → Below (ret_timers pf gen flows w) (ret_timers (ideal pf) gen flows w)
  unfolding ret_timers
  ret_timers-Below gen [] w = inr refl
  ret_timers-Below gen (fl ∷ flows) w =
      let (stopped, env) = pf.dpdk.timer_stop gen fl.idx w.env in
      let w' = record w { env = env; cnt_timers = w.cnt_timers - 1 } in
      enforce-Below pf.aborts stopped _ _ (ret_timers-Below gen flows w')

  destroy_generators-Below :
      (gs : List FlowsGenerator) (w : World E)
      → Below (destroy_generators pf gs w) (destroy_generators (ideal pf) gs w)
  unfolding destroy_generators
  destroy_generators-Below [] w = inr refl
  destroy_generators-Below (g ∷ gs) w = elim (both _ _ (ret_timers-Below g.idx g.flows w)) [
    | inl e ↦ inl (rw (e, destroy_generators) refl)
    | inr (w', e, e') ↦
        Below-along _ _ _ _ (rw (e, destroy_generators) refl) (rw (e', destroy_generators) refl)
          (destroy_generators-Below gs (free_pkts pf g w'))
  ]

  stop_generation-Below :
      (m : Manager E) → Below (stop_generation pf m) (stop_generation (ideal pf) m)
  unfolding stop_generation
  stop_generation-Below m =
      Below-bind _ _ _ _ (destroy_generators-Below m.generators m.world)
        (λ w. enforce-Below pf.aborts (w.cnt_timers == 0) _ _ (inr refl))

  module _ (gen : ℕ) (pkts : List Pkt) where
    setup_event-Below :
        (fl : Flow) (tsc : ℕ) (w : World E)
        → EventsBelow
            (setup_event (manager_ops pf.dpdk gen pf.move_assign) pkts fl tsc w)
            (setup_event (manager_ops pf.dpdk gen (or_same pf.move_assign)) pkts fl tsc w)
    unfolding setup_event schedule_at
    setup_event-Below fl tsc w = elim (Option-cases (get_elem? pkts fl.pkt_idx)) [
      | inl e ↦ inr (rw (e, setup_event) refl)
      | inr (pkt, e) ↦ elim (Option-cases (pf.move_assign (get_timer pf.dpdk w))) [
        | inl stays ↦ inl (rw (e, setup_event, stays) refl)
        | inr (w', moved) ↦
            let done = scheduled (
              (manager_ops pf.dpdk gen pf.move_assign).schedule_single fl.idx
                (add64 tsc pkt.rel_tsc) w') in
            let left : setup_event (manager_ops pf.dpdk gen pf.move_assign) pkts fl tsc w ≡ done =
              rw (e, setup_event, moved) refl in
            let right : setup_event (manager_ops pf.dpdk gen (or_same pf.move_assign)) pkts fl tsc w
                ≡ done =
              rw (e, setup_event, schedule_at, or_same, moved) refl in
            inr (left ∙ sym right)
      ]
    ]

    setup_events-Below :
        (flows : List Flow) (tsc step : ℕ) (w : World E)
        → EventsBelow
            (setup_events (manager_ops pf.dpdk gen pf.move_assign) pkts flows tsc step w)
            (setup_events (manager_ops pf.dpdk gen (or_same pf.move_assign)) pkts flows tsc step w)
    unfolding setup_events
    setup_events-Below [] tsc step w = inr refl
    setup_events-Below (fl ∷ flows) tsc step w = elim (setup_event-Below fl tsc w) [
      | inl e ↦ inl (rw (e, setup_events) refl)
      | inr e ↦ next (λ w'. setup_events-Below flows (add64 tsc step) step w') _ e refl
    ]
      where
        next :
            ((w' : World E)
              → EventsBelow
                  (setup_events
                    (manager_ops pf.dpdk gen pf.move_assign)
                    pkts
                    flows
                    (add64 tsc step)
                    step
                    w')
                  (setup_events
                    (manager_ops pf.dpdk gen (or_same pf.move_assign))
                    pkts
                    flows
                    (add64 tsc step)
                    step
                    w'))
            → (r : EventsResult (World E))
            → setup_event (manager_ops pf.dpdk gen pf.move_assign) pkts fl tsc w ≡ r
            → r ≡ setup_event (manager_ops pf.dpdk gen (or_same pf.move_assign)) pkts fl tsc w
            → EventsBelow
                (setup_events (manager_ops pf.dpdk gen pf.move_assign) pkts (fl ∷ flows) tsc step w)
                (setup_events
                  (manager_ops pf.dpdk gen (or_same pf.move_assign))
                  pkts
                  (fl ∷ flows)
                  tsc
                  step
                  w)
        next rest (scheduled w') e e' = elim (rest w') [
          | inl h ↦ inl (rw (e, setup_events) h)
          | inr h ↦ inr (rw (e, sym e', setup_events) h)
        ]
        next rest div_by_zero e e' = inr (rw (e, sym e', setup_events) refl)
        next rest too_many_flows e e' = inr (rw (e, sym e', setup_events) refl)
        next rest out_of_range e e' = inr (rw (e, sym e', setup_events) refl)
        next rest diverges e e' = inl (rw (e, setup_events) refl)

    setup_flow_events-Below :
        (hz : ℕ) (flows : List Flow) (w : World E)
        → EventsBelow
            (setup_flow_events (manager_ops pf.dpdk gen pf.move_assign) pkts hz flows w)
            (setup_flow_events (manager_ops pf.dpdk gen (or_same pf.move_assign)) pkts hz flows w)
    unfolding setup_flow_events
    setup_flow_events-Below hz flows w =
        let step = from_micros hz (1_000_000 / length flows) in
        elim (Bool-cases (length flows == 0)) [
          | inl e ↦ inr (rw e refl)
          | inr e ↦ elim (Bool-cases (step == 0)) [
            | inl e' ↦ inr (rw (e, e') refl)
            | inr e' ↦ rw (e, e') (setup_events-Below flows 0 step w)
          ]
        ]

  flows_built-Below :
      (idx : ℕ) (cfg : FlowsConfig) (pkts : List Pkt) (w : World E)
      → BuiltBelow (flows_built pf idx cfg pkts w) (flows_built (ideal pf) idx cfg pkts w)
  unfolding flows_built events_built setup_flows
  flows_built-Below idx cfg pkts w = elim (Bool-cases (pf.aborts (leb 1 cfg.burst))) [
    | inl e ↦ inl (rw (e, flows_built) refl)
    | inr e ↦
        elim (setup_flow_events-Below idx pkts pf.hz
          (setup_from (pf.hosts cfg.cln_ips) (pf.hosts cfg.srv_ips) cfg.burst cfg.flows_per_sec 0
            (begin_place (pf.hosts cfg.cln_ips) (pf.hosts cfg.srv_ips) cfg.burst)).0
          w) [
            | inl h ↦ inl (rw (e, flows_built, h) refl)
            | inr h ↦ inr (rw (e, flows_built, h) refl)
          ]
  ]

  pkts_built-Below :
      (idx : ℕ) (cfg : FlowsConfig) (cs : List Captured) (r : LoadError ⊎ List Pkt) (w : World E)
      → BuiltBelow (pkts_built pf idx cfg cs r w) (pkts_built (ideal pf) idx cfg cs r w)
  unfolding pkts_built
  pkts_built-Below idx cfg cs (inl e) w = inr refl
  pkts_built-Below idx cfg cs (inr pkts) w = flows_built-Below idx cfg pkts w

  make_generator-Below :
      (gcfg : GenConfig) (idx : ℕ) (cfg : FlowsConfig) (w : World E)
      → BuiltBelow (make_generator pf gcfg idx cfg w) (make_generator (ideal pf) gcfg idx cfg w)
  unfolding make_generator
  make_generator-Below gcfg idx cfg w = by_loaded (pf.load_captured cfg.name w) refl
    where
      by_loaded :
          (b : Built (World E) (List Captured))
          → pf.load_captured cfg.name w ≡ b
          → BuiltBelow (make_generator pf gcfg idx cfg w) (make_generator (ideal pf) gcfg idx cfg w)
      by_loaded (built cs w') e = rw (e, make_generator) (pkts_built-Below idx cfg cs _ w')
      by_loaded (thrown what w') e = inr (rw (e, make_generator) refl)
      by_loaded stuck e = inl (rw (e, make_generator) refl)

  make_generators-Below :
      (gcfg : GenConfig) (idx : ℕ) (cfgs : List FlowsConfig) (gs : List FlowsGenerator)
      (w : World E)
      → BuiltBelow
          (make_generators pf gcfg idx cfgs gs w)
          (make_generators (ideal pf) gcfg idx cfgs gs w)
  unfolding make_generators
  make_generators-Below gcfg idx [] gs w = inr refl
  make_generators-Below gcfg idx (cfg ∷ cfgs) gs w = elim (make_generator-Below gcfg idx cfg w) [
    | inl e ↦ inl (rw (e, make_generators) refl)
    | inr e ↦ next (λ g w'. make_generators-Below gcfg (idx + 1) cfgs (gs ++ (g ∷ [])) w') _ e refl
  ]
    where
      next :
          ((g : FlowsGenerator) (w' : World E)
            → BuiltBelow
                (make_generators pf gcfg (idx + 1) cfgs (gs ++ (g ∷ [])) w')
                (make_generators (ideal pf) gcfg (idx + 1) cfgs (gs ++ (g ∷ [])) w'))
          → (b : Built (World E) FlowsGenerator) → make_generator pf gcfg idx cfg w ≡ b
          → b ≡ make_generator (ideal pf) gcfg idx cfg w
          → BuiltBelow
              (make_generators pf gcfg idx (cfg ∷ cfgs) gs w)
              (make_generators (ideal pf) gcfg idx (cfg ∷ cfgs) gs w)
      next rest (built g w') e e' = elim (rest g w') [
        | inl h ↦ inl (rw (e, make_generators) h)
        | inr h ↦ inr (rw (e, sym e', make_generators) h)
      ]
      next rest (thrown what w') e e' = elim (both _ _ (destroy_generators-Below gs w')) [
        | inl h ↦ inl (rw (e, make_generators, h, thrown_after) refl)
        | inr (w'', h, h') ↦ inr (rw (e, sym e', make_generators, h, h', thrown_after) refl)
      ]
      next rest stuck e e' = inl (rw (e, make_generators) refl)

  start_built-Below :
      (cfg : GenConfig) (gens : List FlowsGenerator) (w : World E) (m : Manager E)
      → Below (start_built pf cfg gens w m) (start_built (ideal pf) cfg gens w m)
  unfolding start_built reset_stats
  start_built-Below cfg gens w m =
      enforce-Below pf.aborts (is_empty m.generators) _ _
        (enforce-Below pf.aborts (not (generation_started m)) _ _ (inr refl))

  on_req_start-Below :
      (cfg : GenConfig) (m : Manager E)
      → Below (on_req_start pf cfg m) (on_req_start (ideal pf) cfg m)
  unfolding on_req_start
  on_req_start-Below cfg m = asked (generation_started m)
    where
      begun-Below :
          (b b' : Built (World E) (List FlowsGenerator))
          → BuiltBelow b b'
          → Below
              (elim b [
                | built gens w ↦ start_built pf cfg gens w m
                | thrown what w ↦
                    some (record m { world = send pf (res_start_generation (some what)) w })
                | stuck ↦ none
              ])
              (elim b' [
                | built gens w ↦ start_built (ideal pf) cfg gens w m
                | thrown what w ↦
                    some (record m { world = send (ideal pf) (res_start_generation (some what)) w })
                | stuck ↦ none
              ])
      begun-Below b b' (inl e) = inl (rw e refl)
      begun-Below (built gens w) b' (inr e) = rw (sym e) (start_built-Below cfg gens w m)
      begun-Below (thrown what w) b' (inr e) = rw (sym e) (inr refl)
      begun-Below stuck b' (inr e) = inl refl

      asked :
          (started : Bool)
          → Below
              (if started
                then some (record m {
                  world = send pf (res_start_generation (some "Already started")) m.world;
                })
                else elim (make_generators pf cfg 0 cfg.flows_cfgs [] m.world) [
                  | built gens w ↦ start_built pf cfg gens w m
                  | thrown what w ↦
                      some (record m { world = send pf (res_start_generation (some what)) w })
                  | stuck ↦ none
                ])
              (if started
                then some (record m {
                  world = send pf (res_start_generation (some "Already started")) m.world;
                })
                else elim (make_generators (ideal pf) cfg 0 cfg.flows_cfgs [] m.world) [
                  | built gens w ↦ start_built (ideal pf) cfg gens w m
                  | thrown what w ↦
                      some
                        (record m { world = send (ideal pf) (res_start_generation (some what)) w })
                  | stuck ↦ none
                ])
      asked true = inr refl
      asked false = begun-Below _ _ (make_generators-Below cfg 0 cfg.flows_cfgs [] m.world)

  on_req_stop-Below : (m : Manager E) → Below (on_req_stop pf m) (on_req_stop (ideal pf) m)
  unfolding on_req_stop get_eth_stats
  on_req_stop-Below m = Below-bind _ _ _ _ (stop_generation-Below m) (λ m'. inr refl)

  pub on_inc_msg-Below :
      (m : Manager E) (msg : OutMsg) → Below (on_inc_msg pf m msg) (on_inc_msg (ideal pf) m msg)
  unfolding on_inc_msg get_eth_stats
  on_inc_msg-Below m (req_start_generation cfg) = on_req_start-Below cfg m
  on_inc_msg-Below m req_stop_generation = on_req_stop-Below m
  on_inc_msg-Below m req_stats_report = inr refl

  fire_one-same : (gi fi : ℕ) (m : Manager E) → fire_one pf gi fi m ≡ fire_one (ideal pf) gi fi m
  unfolding fire_one on_event on_flow_event finish_event
  fire_one-same gi fi m = refl

  fire-same : (due : List (ℕ × ℕ)) (m : Manager E) → fire pf due m ≡ fire (ideal pf) due m
  unfolding fire
  fire-same [] m = refl
  fire-same ((gi, fi) ∷ due) m = elim (Option-cases (fire_one pf gi fi m)) [
    | inl e ↦ let e' = sym (fire_one-same gi fi m) ∙ e in rw (e, fire, e') refl
    | inr (m', e) ↦ let e' = sym (fire_one-same gi fi m) ∙ e in rw (e, fire, e') (fire-same due m')
  ]

  scheduler_events-same : (m : Manager E) → scheduler_events pf m ≡ scheduler_events (ideal pf) m
  unfolding scheduler_events
  scheduler_events-same m =
      let cycles = pf.dpdk.timer_cycles m.world.env in
      elim (Bool-cases (ltb (sub64 cycles m.prev_cycles) (from_micros pf.hz 1))) [
        | inl e ↦ rw e refl
        | inr e ↦ rw e (fire-same _ _)
      ]

  generate_started-Below :
      (c : GenCycles) (m : Manager E)
      → Below (generate_started pf c m) (generate_started (ideal pf) c m)
  unfolding generate_started transmit_any
  generate_started-Below c m =
      elim (Bool-cases (ltb c.duration (sub64 (pf.dpdk.timer_cycles m.world.env) c.begin))) [
        | inl e ↦ rw e (Below-bind _ _ _ _ (stop_generation-Below m) (λ m'. inr refl))
        | inr e ↦ rw e (Below-bind _ _ _ _ (inr (scheduler_events-same m)) (λ m'. inr refl))
      ]

  pub generate-Below : (m : Manager E) → Below (generate pf m) (generate (ideal pf) m)
  unfolding generate
  generate-Below m = phase m.gen_cycles
    where
      phase :
          (c? : Option GenCycles)
          → Below
              (elim c? [
                | none ↦
                    enforce pf.aborts
                      (is_empty m.world.tx_pkts)
                      (enforce pf.aborts (m.world.cnt_timers == 0) (some m))
                | some c ↦ generate_started pf c m
              ])
              (elim c? [ none ↦ some m | some c ↦ generate_started (ideal pf) c m ])
      phase none =
          enforce-Below pf.aborts (is_empty m.world.tx_pkts) _ _
            (enforce-Below pf.aborts (m.world.cnt_timers == 0) _ _ (inr refl))
      phase (some c) = generate_started-Below c m

  pub process_events-Below :
      (m : Manager E) (q : Ring OutMsg)
      → Below (process_events pf m q) (process_events (ideal pf) m q)
  unfolding process_events receive_rx_pkts
  process_events-Below m q = Below-bind _ _ _ _ (inr refl) (λ taken.
      Below-bind _ _ _ _
        (visit_all-Below (on_inc_msg pf) (on_inc_msg (ideal pf)) on_inc_msg-Below m taken.0)
        (λ m'. Below-bind _ _ _ _ (generate-Below _) (λ m''. inr refl)))
