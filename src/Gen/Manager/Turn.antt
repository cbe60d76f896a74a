-- ===== src/Gen/Manager/Turn.antt =====
-- The stop of a generation, and what a turn does after the messages: their assertions.
use traffic_generator.Base.{
  ◌==◌, ℕ, ◌-◌, ◌≡◌, refl, sym, ap, ◌∙◌, true, false, Bool-cases, none, some, Option-cases, List,
  [], ◌∷◌, length, All, ltb, ◌⊎◌, inl, inr, arith,
}
use mathlib.Core.Path.{subst}
use traffic_generator.Put.Assert.{IsIntended, goes_on}
use traffic_generator.Base.Words.{sub64}
use traffic_generator.Put.Ring.{Ring}
use traffic_generator.Put.Cycles.{from_micros}
use traffic_generator.Gen.World.{Dpdk, World, transmit_tx_pkts}
use traffic_generator.Gen.Flows.{Flow, FlowsGenerator}
use traffic_generator.Put.Ring.Holds.{Holds}
use traffic_generator.Mgmt.Messages.{IncMsg, inc_capacity}
use traffic_generator.Mgmt.Protocol.{Exchange, answered}
use traffic_generator.Gen.Manager.{
  shape, Manager, GenCycles, is_empty, cnt_handles, ret_timers, destroy_generators, stop_generation,
  scheduler_events, transmit_any, generate, free_pkts, Platform, generate_started,
}
use traffic_generator.Gen.Manager.Calm.{Calm, Calm-refl, transmit_tx_pkts-Calm}
use traffic_generator.Gen.Manager.Fire.{Runs, sum, cnt_handles-shape, InShape, fire-Fired}

no_shape : (gs : List FlowsGenerator) → shape gs ≡ [] → gs ≡ []
no_shape [] e = refl
no_shape (g ∷ gs) e = cc

nil_or_more : {A : Type 0} (xs : List A) → (xs ≡ []) ⊎ (is_empty xs ≡ false)
nil_or_more [] = inl refl
nil_or_more (x ∷ xs) = inr refl

transmitted : {E : Type 0} (dpdk : Dpdk E) (w : World E) → (transmit_tx_pkts dpdk w).tx_pkts ≡ []
unfolding transmit_tx_pkts
transmitted dpdk w =
    elim (Bool-cases (ltb (dpdk.eth_tx_burst w.tx_pkts w.env).0 (length w.tx_pkts))) [
      | inl some_left ↦ rw some_left refl
      | inr all ↦ rw all refl
    ]

-- As many responses of each exchange are under way in a queue before and after.
pub record KeepsAnswers (r r' : Ring IncMsg) : Type 0 where
  pub kept :
      (q : List IncMsg)
      → Holds inc_capacity r q
      → (q' : List IncMsg) × Holds inc_capacity r' q'
        × ((x : Exchange) → answered x q' ≡ answered x q)

KeepsAnswers-trans : {r s t : Ring IncMsg} → KeepsAnswers r s → KeepsAnswers s t → KeepsAnswers r t
KeepsAnswers-trans a b = record {
  kept = λ q h.
      let (q', h', e) = a.kept q h in
      let (q'', h'', e') = b.kept q' h' in (q'', h'', λ x. e' x ∙ e x);
}

KeepsAnswers-same : {r s : Ring IncMsg} → s ≡ r → KeepsAnswers r s
KeepsAnswers-same e = record { kept = λ q h. (q, rw e h, λ x. refl) }

-- The manager's invariant: a timer for each flow of its generators, which all run, and no
-- generators unless a generation is started.
pub record Orderly {E : Type 0} (m : Manager E) : Type 0 where
  pub timers : m.world.cnt_timers ≡ cnt_handles m.generators
  pub runs : All Runs m.generators
  pub idle : m.gen_cycles ≡ none → m.generators ≡ []

module _ {E : Type 0} (pf : Platform E) where
  -- DPDK stops the timers of this thread that are not running.
  abbrev pub Stops : Type 0
  Stops = (gen i : ℕ) (e : E) → (pf.dpdk.timer_stop gen i e).0 ≡ true

  -- What the destruction of generators with so many timers leaves.
  pub record Cleared (w : World E) (n : ℕ) (w' : World E) : Type 0 where
    pub timers : w'.cnt_timers ≡ w.cnt_timers - n
    pub queue : w'.out_queue ≡ w.out_queue
    pub tx : w'.tx_pkts ≡ w.tx_pkts

  module _ (intended : IsIntended pf.aborts) (stops : Stops) where
    ret_timers-Cleared :
        (gen : ℕ) (flows : List Flow) (w : World E)
        → (w' : World E) × (ret_timers pf gen flows w ≡ some w') × Cleared w (length flows) w'
    unfolding ret_timers
    ret_timers-Cleared gen [] w =
        (w, refl, record { timers = omega arith; queue = refl; tx = refl })
    ret_timers-Cleared gen (fl ∷ flows) w =
        let (w', e, c) = ret_timers-Cleared gen flows (record w {
          env = (pf.dpdk.timer_stop gen fl.idx w.env).1;
          cnt_timers = w.cnt_timers - 1;
        }) in
        let ok = goes_on pf.aborts _ intended (stops gen fl.idx w.env) in
        (w', rw ok e, record { timers = omega (arith, c.timers); queue = c.queue; tx = c.tx })

    pub destroy_generators-Cleared :
        (gs : List FlowsGenerator) (w : World E)
        → (w' : World E) × (destroy_generators pf gs w ≡ some w') × Cleared w (cnt_handles gs) w'
    unfolding destroy_generators free_pkts
    destroy_generators-Cleared [] w =
        (w, refl, record { timers = omega arith; queue = refl; tx = refl })
    destroy_generators-Cleared (g ∷ gs) w =
        let (w', e, r) = ret_timers-Cleared g.idx g.flows w in
        let (w'', e', c) = destroy_generators-Cleared gs (free_pkts pf g w') in
        (
          w'',
          rw (e, destroy_generators) e',
          record {
            timers = omega (arith, r.timers, c.timers);
            queue = c.queue ∙ r.queue;
            tx = c.tx ∙ r.tx;
          },
        )

    -- The stop of a generation does not abort, with timers that stop and assertions as intended:
    -- as many timers are returned as are counted. No generator is left, and neither the packets to
    -- send nor the queue are touched.
    pub stop_generation_lem :
        (m : Manager E)
        → Orderly m
        → (m' : Manager E) × (stop_generation pf m ≡ some m')
          × Orderly m'
          × (m'.gen_cycles ≡ none)
          × (m'.world.out_queue ≡ m.world.out_queue)
          × (m'.world.tx_pkts ≡ m.world.tx_pkts)
    unfolding stop_generation
    stop_generation_lem m o =
        let (w', e, c) = destroy_generators-Cleared m.generators m.world in
        let zero_left : w'.cnt_timers ≡ 0 = omega (arith, c.timers, o.timers) in
        let ok : pf.aborts (w'.cnt_timers == 0) ≡ false =
          goes_on pf.aborts (w'.cnt_timers == 0) intended (ground arith) in
        (
          record m { world = w'; generators = []; gen_cycles = none },
          rw (e, ok) refl,
          record { timers = zero_left; runs = tt; idle = λ e. refl },
          refl,
          c.queue,
          c.tx,
        )

  transmit_any_lem :
      (m : Manager E)
      → (m' : Manager E) × (transmit_any pf m ≡ m')
        × (m'.generators ≡ m.generators)
        × (m'.gen_cycles ≡ m.gen_cycles)
        × (m'.world.tx_pkts ≡ [])
        × Calm m.world m'.world
  unfolding transmit_any
  transmit_any_lem m = elim (nil_or_more m.world.tx_pkts) [
    | inl none_left ↦ (m, rw none_left refl, refl, refl, none_left, Calm-refl m.world)
    | inr some_left ↦ (
      record m { world = transmit_tx_pkts pf.dpdk m.world },
      rw some_left refl,
      refl,
      refl,
      transmitted pf.dpdk m.world,
      transmit_tx_pkts-Calm pf.dpdk m.world,
    )
  ]

  -- What the rest of a turn leaves: an orderly manager with no packet to send, and as many
  -- responses under way as before.
  pub record Turned (m m' : Manager E) : Type 0 where
    pub orderly : Orderly m'
    pub sent : m'.world.tx_pkts ≡ []
    pub answers : KeepsAnswers m.world.out_queue m'.world.out_queue

  -- The turn's last step, after `m'` came out of `m`.
  transmitted-Turned :
      (m m' : Manager E)
      → Orderly m'
      → KeepsAnswers m.world.out_queue m'.world.out_queue
      → Turned m (transmit_any pf m')
  transmitted-Turned m m' o k =
      let (m'', e, gens, cycles, sent, t) = transmit_any_lem m' in
      subst (Turned m) (sym e) (record {
        orderly = record {
          timers = t.timers ∙ o.timers ∙ ap cnt_handles (sym gens);
          runs = subst (All Runs) (sym gens) o.runs;
          idle = λ none_started. gens ∙ o.idle (sym cycles ∙ none_started);
        };
        sent = sent;
        answers = KeepsAnswers-trans k (record { kept = t.queue });
      })

  scheduler_events_lem :
      (m : Manager E)
      → Orderly m
      → All (InShape (shape m.generators)) (pf.dpdk.timers_expired (shape m.generators) m.world.env)
      → (m' : Manager E) × (scheduler_events pf m ≡ some m')
        × Orderly m'
        × KeepsAnswers m.world.out_queue m'.world.out_queue
  unfolding scheduler_events
  scheduler_events_lem m o due =
      let cycles = pf.dpdk.timer_cycles m.world.env in
      elim (Bool-cases (ltb (sub64 cycles m.prev_cycles) (from_micros pf.hz 1))) [
        | inl early ↦ (m, rw early refl, o, KeepsAnswers-same refl)
        | inr it_is_time ↦
            let m' = record m { prev_cycles = cycles } in
            let (m'', e, f) =
              fire-Fired pf (pf.dpdk.timers_expired (shape m.generators) m.world.env) m' o.runs
                due in
            (
              m'',
              rw it_is_time e,
              record {
                timers =
                    f.calm.timers
                    ∙ o.timers
                    ∙ cnt_handles-shape m.generators
                    ∙ ap sum (sym f.shape_kept)
                    ∙ sym (cnt_handles-shape m''.generators);
                runs = f.runs;
                idle = λ none_started.
                    no_shape m''.generators
                      (f.shape_kept ∙ ap shape (o.idle (sym f.cycles_kept ∙ none_started)));
              },
              record { kept = f.calm.queue },
            )
      ]

  module _ (intended : IsIntended pf.aborts) (stops : Stops) where
    generate_started-Turned :
        (c : GenCycles) (m : Manager E)
        → Orderly m
        → All
            (InShape (shape m.generators))
            (pf.dpdk.timers_expired (shape m.generators) m.world.env)
        → (m' : Manager E) × (generate_started pf c m ≡ some m') × Turned m m'
    unfolding generate_started
    generate_started-Turned c m o due =
        elim (Bool-cases (ltb c.duration (sub64 (pf.dpdk.timer_cycles m.world.env) c.begin))) [
          | inl over ↦
              let (m', e', o', _, k, _) = stop_generation_lem intended stops m o in
              (_, rw (over, e') refl, transmitted-Turned m m' o' (KeepsAnswers-same k))
          | inr running ↦
              let (m', e', o', k) = scheduler_events_lem m o due in
              (_, rw (running, e') refl, transmitted-Turned m m' o' k)
        ]

    -- What a turn does after the messages and the received packets comes to its end, for an
    -- orderly manager that has a packet to send only while a generation is started, timers that
    -- stop and expire for flows that there are, and assertions as intended: none of them fails and
    -- no packet is read out of range, whether no generation is started, the started one ends, or
    -- its expired timers fire. It leaves no packet unsent, a timer for each flow, no generator
    -- unless a generation is started, and as many responses under way as there were.
    pub generate-Turned :
        (m : Manager E)
        → Orderly m
        → (m.gen_cycles ≡ none → m.world.tx_pkts ≡ [])
        → All
            (InShape (shape m.generators))
            (pf.dpdk.timers_expired (shape m.generators) m.world.env)
        → (m' : Manager E) × (generate pf m ≡ some m') × Turned m m'
    unfolding generate
    generate-Turned m o sent due = elim (Option-cases m.gen_cycles) [
      | inl e ↦
          let no_tx = goes_on pf.aborts _ intended (ap is_empty (sent e)) in
          let no_timers : (m.world.cnt_timers == 0) ≡ true =
            ap (λ k. k == 0) (o.timers ∙ ap cnt_handles (o.idle e)) in
          let no_timer = goes_on pf.aborts _ intended no_timers in
          (
            m,
            rw (e, no_tx, no_timer) refl,
            record { orderly = o; sent = sent e; answers = KeepsAnswers-same refl },
          )
      | inr (c, e) ↦
          let started : generate pf m ≡ generate_started pf c m = rw e refl in
          let (m', e', t) = generate_started-Turned c m o due in (m', started ∙ e', t)
    ]
