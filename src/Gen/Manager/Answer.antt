-- ===== src/Gen/Manager/Answer.antt =====
-- gen/manager.cpp: the requests that the generation answers, and its whole turn.
use traffic_generator.Base.{
  ℕ, ◌+◌, ◌≤◌, ◌≡◌, refl, ap, ◌∙◌, false, Bool-cases, none, some, Option-cases, List, [], ◌∷◌, ◌++◌,
  length, All, inl, inr, arith,
}
use traffic_generator.Put.Assert.{IsIntended, goes_on, not}
use traffic_generator.Put.Ring.Holds.{Holds}
use traffic_generator.Gen.World.{World}
use traffic_generator.Gen.Flows.{FlowsGenerator}
use traffic_generator.Mgmt.Config.{GenConfig, Net}
use traffic_generator.Gen.Rotation.{Range}
use traffic_generator.Mgmt.Messages.{
  OutMsg, IncMsg, SummaryStats, req_start_generation, req_stop_generation, req_stats_report,
  res_start_generation, res_stop_generation, res_stats_report, inc_capacity,
}
use traffic_generator.Mgmt.Queue.{inc_pow2, enqueue_lem}
use traffic_generator.Mgmt.Protocol.{
  Exchange, start, stop, stats, asks, answers, answered, answered-append,
}
use traffic_generator.Put.Cycles.{from_millis}
use traffic_generator.Gen.Manager.{
  Platform, Manager, GenCycles, detailed_of, get_eth_stats, Built, cnt_handles, is_empty, is_some,
  generation_started, make_generators, start_built, reset_stats, on_req_start, on_req_stop,
  on_inc_msg, send,
}
use traffic_generator.Gen.Manager.Fire.{Runs}
use traffic_generator.Gen.Manager.Turn.{Stops, Orderly, stop_generation_lem}
use traffic_generator.Gen.Manager.Start.{
  Works, IsStartable, Armed, Makes, makes, fails, make_generators-Makes,
}

-- The response that a request asks for.
data IsAnswer : OutMsg → IncMsg → Type 0 where
  to_start :
      {cfg : GenConfig} → {r : _} → IsAnswer (req_start_generation cfg) (res_start_generation r)
  to_stop : {r : _} → IsAnswer req_stop_generation (res_stop_generation r)
  to_stats : {r : _} → IsAnswer req_stats_report (res_stats_report r)

answers-asks :
    {msg : OutMsg} {res : IncMsg} (x : Exchange) → IsAnswer msg res → answers x res ≡ asks x msg
answers-asks start to_start = refl
answers-asks start to_stop = refl
answers-asks start to_stats = refl
answers-asks stop to_start = refl
answers-asks stop to_stop = refl
answers-asks stop to_stats = refl
answers-asks stats to_start = refl
answers-asks stats to_stop = refl
answers-asks stats to_stats = refl

-- The requests that can be served: any but a start whose flows cannot be set up.
unfoldable pub CanServe : (Net → Range) → OutMsg → Type 0
CanServe hosts (req_start_generation cfg) = All (IsStartable hosts) cfg.flows_cfgs
CanServe hosts req_stop_generation = Unit
CanServe hosts req_stats_report = Unit

-- What a handled request leaves: an orderly manager, the packets to send as they were, and at most
-- as many responses more as the request asks for, none if the queue is full.
pub record Handled {E : Type 0} (m : Manager E) (asks_of : Exchange → ℕ) (m' : Manager E)
    : Type 0 where
  pub orderly : Orderly m'
  pub tx : m'.world.tx_pkts ≡ m.world.tx_pkts
  pub responses :
      (q : List IncMsg)
      → Holds inc_capacity m.world.out_queue q
      → (q' : List IncMsg) × Holds inc_capacity m'.world.out_queue q'
        × ((x : Exchange) → answered x q' ≤ answered x q + asks_of x)
        × (length q ≡ inc_capacity → q' ≡ q)

module _ {E : Type 0} (pf : Platform E) where
  -- A response goes to the end of the queue, unless that is full.
  send_lem :
      (w : World E) (msg : OutMsg) (res : IncMsg) (q : List IncMsg)
      → IsAnswer msg res
      → Holds inc_capacity w.out_queue q
      → (q' : List IncMsg) × Holds inc_capacity (send pf res w).out_queue q'
        × ((x : Exchange) → answered x q' ≤ answered x q + asks x msg)
        × (length q ≡ inc_capacity → q' ≡ q)
  send_lem w msg res q a h = elim (enqueue_lem inc_pow2 w.out_queue q res h) [
    | inl (full, refused, h') ↦ (q, h', λ x. omega arith, λ _. refl)
    | inr (free, taken, h') ↦ (
      q ++ (res ∷ []),
      h',
      λ x. omega (arith, answered-append x q (res ∷ []), answers-asks x a),
      λ full. absurd (omega (arith, full, free)),
    )
  ]

  reset_stats_lem :
      (w : World E)
      → (w' : World E) × (reset_stats pf w ≡ w')
        × (w'.cnt_timers ≡ w.cnt_timers)
        × (w'.out_queue ≡ w.out_queue)
        × (w'.tx_pkts ≡ w.tx_pkts)
  unfolding reset_stats
  reset_stats_lem w = elim (Bool-cases (pf.dpdk.eth_stats_reset w.env).0) [
    | inl done ↦ (
      record w {
        env = (pf.dpdk.eth_stats_reset w.env).1;
        cnt_tx_pkts_qfull = 0;
        cnt_tx_pkts_nombuf = 0;
      },
      rw done refl,
      refl,
      refl,
      refl,
    )
    | inr failed ↦
        (record w { env = (pf.dpdk.eth_stats_reset w.env).1 }, rw failed refl, refl, refl, refl)
  ]

  on_req_stop_lem :
      (intended : IsIntended pf.aborts) (m : Manager E)
      → Stops pf
      → Orderly m
      → (m' : Manager E) × (on_req_stop pf m ≡ some m')
        × Handled m (λ x. asks x req_stop_generation) m'
  unfolding on_req_stop
  on_req_stop_lem intended m stops o =
      let (m', e, o', _, queue, tx) = stop_generation_lem pf intended stops m o in
      let res : SummaryStats = record {
        summary = get_eth_stats pf m'.world;
        detailed = detailed_of m.generators;
      } in
      (
        record m' { world = send pf (res_stop_generation res) m'.world },
        rw e refl,
        record {
          orderly = record { timers = o'.timers; runs = o'.runs; idle = o'.idle };
          tx = tx;
          responses = λ q h.
              send_lem m'.world req_stop_generation (res_stop_generation res) q to_stop
                (rw queue h);
        },
      )

  module _ (works : Works pf) where
    -- A start with generators built since the world was `m`'s.
    start_built_lem :
        (cfg : GenConfig) (gens : List FlowsGenerator) (w : World E) (m : Manager E)
        → m.gen_cycles ≡ none
        → m.generators ≡ []
        → m.world.cnt_timers ≡ 0
        → All Runs gens
        → Armed pf works (cnt_handles gens) m.world w
        → (m' : Manager E) × (start_built pf cfg gens w m ≡ some m')
          × Handled m (λ x. asks x (req_start_generation cfg)) m'
    unfolding start_built
    start_built_lem cfg gens w m idle no_gens no_timers runs a =
        let empty = goes_on pf.aborts _ works.intended (ap is_empty no_gens) in
        let fresh : pf.aborts (not (generation_started m)) ≡ false =
          goes_on pf.aborts _ works.intended (ap (λ c. not (is_some c)) idle) in
        let (w', e, timers, queue, tx) = reset_stats_lem w in
        let c : GenCycles = record {
          begin = pf.dpdk.timer_cycles w'.env;
          duration = from_millis pf.hz cfg.duration;
        } in
        (
          record m {
            world = send pf (res_start_generation none) w';
            generators = gens;
            gen_cycles = some c;
          },
          rw (empty, fresh, e) refl,
          record {
            orderly = record {
              timers = omega (arith, timers, a.timers, no_timers);
              runs = runs;
              idle = λ (started : some c ≡ none). cc;
            };
            tx = tx ∙ a.tx;
            responses = λ q h.
                send_lem w' (req_start_generation cfg) (res_start_generation none) q to_start
                  (rw (queue ∙ a.queue) h);
          },
        )

    start_made_lem :
        (cfg : GenConfig) (m : Manager E) (b : Built (World E) (List FlowsGenerator))
        → Orderly m
        → m.gen_cycles ≡ none
        → Makes pf works (All Runs) cnt_handles m.world b
        → make_generators pf cfg 0 cfg.flows_cfgs [] m.world ≡ b
        → (m' : Manager E) × (on_req_start pf cfg m ≡ some m')
          × Handled m (λ x. asks x (req_start_generation cfg)) m'
    unfolding on_req_start
    start_made_lem cfg m _ o idle (makes gens w runs a) e =
        let no_gens = o.idle idle in
        let (m', e', h) =
          start_built_lem cfg gens w m idle no_gens (o.timers ∙ ap cnt_handles no_gens) runs a in
        let not_started : generation_started m ≡ false = ap is_some idle in
        (m', rw (not_started, e) e', h)
    start_made_lem cfg m _ o idle (fails what w q) e =
        let not_started : generation_started m ≡ false = ap is_some idle in
        (
          record m { world = send pf (res_start_generation (some what)) w },
          rw (not_started, e) refl,
          record {
            orderly = record { timers = q.timers ∙ o.timers; runs = o.runs; idle = o.idle };
            tx = q.tx;
            responses = λ r h. send_lem w (req_start_generation cfg) _ r to_start (rw q.queue h);
          },
        )

    on_req_start_lem :
        (cfg : GenConfig) (m : Manager E)
        → Orderly m
        → All (IsStartable pf.hosts) cfg.flows_cfgs
        → (m' : Manager E) × (on_req_start pf cfg m ≡ some m')
          × Handled m (λ x. asks x (req_start_generation cfg)) m'
    unfolding on_req_start
    on_req_start_lem cfg m o s = elim (Option-cases m.gen_cycles) [
      | inl idle ↦
          let no_gens = o.idle idle in
          start_made_lem cfg m _ o idle
            (make_generators-Makes pf works cfg 0 cfg.flows_cfgs [] m.world m.world s tt
              (record { timers = omega arith; queue = refl; tx = refl }))
            refl
      | inr (c, e) ↦ (
        record m { world = send pf (res_start_generation (some "Already started")) m.world },
        rw e refl,
        record {
          orderly = record { timers = o.timers; runs = o.runs; idle = o.idle };
          tx = refl;
          responses = λ q h. send_lem m.world (req_start_generation cfg) _ q to_start h;
        },
      )
    ]

    -- Every request's handler comes to its end, where the generation is orderly and a start can
    -- set its flows up: a start that constructs its generators, one that throws, one that is too
    -- late, a stop and a request for stats. The generation is orderly after it, and the packets to
    -- send are as they were. The queue gets one response at most, to that request; where the queue
    -- is full it gets none, and the response is lost. It is relied on that an assertion aborts
    -- where its condition fails, and that the timers, the loader and the move assignment do as
    -- documented.
    pub on_inc_msg-Handled :
        (m : Manager E) (msg : OutMsg)
        → Orderly m
        → CanServe pf.hosts msg
        → (m' : Manager E) × (on_inc_msg pf m msg ≡ some m') × Handled m (λ x. asks x msg) m'
    unfolding on_inc_msg CanServe
    on_inc_msg-Handled m (req_start_generation cfg) o s = on_req_start_lem cfg m o s
    on_inc_msg-Handled m req_stop_generation o s = on_req_stop_lem works.intended m works.stops o
    on_inc_msg-Handled m req_stats_report o s =
        let res = get_eth_stats pf m.world in
        (
          record m { world = send pf (res_stats_report res) m.world },
          refl,
          record {
            orderly = record { timers = o.timers; runs = o.runs; idle = o.idle };
            tx = refl;
            responses =
                λ q h. send_lem m.world req_stats_report (res_stats_report res) q to_stats h;
          },
        )
