-- ===== src/Gen/Flows/Setup.antt =====
-- What `setup_flows` sets up, and when the first events of the flows are due.
use traffic_generator.Base.{
  All, leb, Bool, ℕ, zero, suc, ◌+◌, ◌-◌, ◌*◌, ◌/◌, ◌%◌, ◌^◌, ◌<◌, ◌≡◌, ◌≢◌, refl, ap, ◌∙◌, false,
  none, some, List, [], ◌∷◌, length, get_elem?, get_elem?-of_lt, ◌==◌, if◌then◌else◌, arith,
}
use traffic_generator.Base.Words.{add64, word}
use traffic_generator.Put.Assert.{IsIntended, goes_on}
use traffic_generator.Put.Cycles.{from_micros}
use traffic_generator.Gen.Ops.{GenerationOps}
use traffic_generator.Gen.Rotation.{
  Range, Place, IsRange, place_after, advance-place_after, begin_place-place_after,
}
use traffic_generator.Gen.Flows.{
  Pkt, Flow, new_flow, setup_from, setup_flows, scheduled, diverges, too_many_flows, setup_event,
  setup_events, setup_flow_events,
}

module _ (cln srv : Range) (burst_cnt : ℕ) (c : IsRange cln) (s : IsRange srv) (b : 0 < burst_cnt)
    (w : burst_cnt < 2 ^ 32) where
  -- The flows number `i` to `i + n - 1`, and the place after them.
  record SetUp (i n : ℕ) (out : List Flow × Place) : Type 0 where
    count : length out.0 ≡ n
    each :
        (k : ℕ)
        → k < n
        → get_elem? out.0 k
          ≡ some (new_flow cln srv burst_cnt (i + k) (place_after cln srv burst_cnt (i + k)))
    last : out.1 ≡ place_after cln srv burst_cnt (i + n)

  setup_from-SetUp :
      (n i : ℕ) → SetUp i n (setup_from cln srv burst_cnt n i (place_after cln srv burst_cnt i))
  unfolding setup_from
  setup_from-SetUp zero i = record {
    count = refl;
    each = λ k h. absurd (omega arith);
    last = let e : i ≡ i + 0 = omega arith in ap (place_after cln srv burst_cnt) e;
  }
  setup_from-SetUp (suc n) i =
      let rest = setup_from-SetUp n (i + 1) in
      rw (advance-place_after cln srv burst_cnt c s b w i) (record {
        count = ap suc rest.count;
        each = each_flow rest.each;
        last =
            let e : i + 1 + n ≡ i + suc n = omega arith in
            rest.last ∙ ap (place_after cln srv burst_cnt) e;
      })
    where
      each_flow :
          ((k : ℕ)
            → k < n
            → get_elem?
                (setup_from cln srv burst_cnt n (i + 1) (place_after cln srv burst_cnt (i + 1))).0
                k
              ≡ some (
                  new_flow cln srv burst_cnt
                    (i + 1 + k)
                    (place_after cln srv burst_cnt (i + 1 + k))))
          → (k : ℕ) → k < suc n
          → get_elem?
              (new_flow cln srv burst_cnt i (place_after cln srv burst_cnt i)
                ∷ (setup_from cln srv burst_cnt n
                    (i + 1)
                    (place_after cln srv burst_cnt (i + 1))).0)
              k
            ≡ some (new_flow cln srv burst_cnt (i + k) (place_after cln srv burst_cnt (i + k)))
      each_flow f zero h =
          let e : i ≡ i + 0 = omega arith in
          ap (λ j. some (new_flow cln srv burst_cnt j (place_after cln srv burst_cnt j))) e
      each_flow f (suc k) h =
          let e : i + 1 + k ≡ i + suc k = omega arith in
          f k (omega arith)
          ∙ ap (λ j. some (new_flow cln srv burst_cnt j (place_after cln srv burst_cnt j))) e

  -- Where a condition that holds goes on.
  pub setup_flows-Passed :
      (aborts : Bool → Bool) (n : ℕ)
      → IsIntended aborts
      → (flows : List Flow) × (setup_flows cln srv burst_cnt aborts n
          ≡ some (flows, place_after cln srv burst_cnt n))
        × (length flows ≡ n)
        × ((k : ℕ)
            → k < n
            → get_elem? flows k
              ≡ some (record {
                idx = k;
                pkt_idx = 0;
                cln_ip_addr = cln.begin + k / burst_cnt % (cln.end - cln.begin);
                srv_ip_addr = srv.begin + k / burst_cnt % (srv.end - srv.begin);
                cnt_pkts = 0;
                cnt_bytes = 0;
                tstamp_beg = 0;
                tstamp_end = 0;
              }))
  unfolding setup_flows new_flow place_after
  setup_flows-Passed aborts n intended =
      let done = setup_from-SetUp n 0 in
      let some_burst : aborts (leb 1 burst_cnt) ≡ false =
        goes_on aborts (leb 1 burst_cnt) intended (ground arith) in
      let zero_n : 0 + n ≡ n = omega arith in
      rw (some_burst, begin_place-place_after cln srv burst_cnt c s b w)
        (
          (setup_from cln srv burst_cnt n 0 (place_after cln srv burst_cnt 0)).0,
          ap (λ q. some ((setup_from cln srv burst_cnt n 0 (place_after cln srv burst_cnt 0)).0, q))
              (done.last ∙ ap (place_after cln srv burst_cnt) zero_n),
          done.count,
          λ k h. done.each k h ∙ from_zero k,
        )
    where
      from_zero :
          (k : ℕ)
          → some (new_flow cln srv burst_cnt (0 + k) (place_after cln srv burst_cnt (0 + k)))
            ≡ some (new_flow cln srv burst_cnt k (place_after cln srv burst_cnt k))
      from_zero k =
          let e : 0 + k ≡ k = omega arith in
          ap (λ j. some (new_flow cln srv burst_cnt j (place_after cln srv burst_cnt j))) e

-- When `flow.event = create_scheduler_event()` returns, as a move assignment is documented to.
abbrev pub Assigns : {W : Type 0} → GenerationOps W → (ℕ → W → W) → Type 0
Assigns {W} ops assigned = (i : ℕ) (w : W) → ops.assign_event i w ≡ some (assigned i w)

module _ {W : Type 0} (ops : GenerationOps W) (assigned : ℕ → W → W) (a : Assigns ops assigned)
    (first : Pkt) (others : List Pkt) (step : ℕ) where
  -- The flows scheduled one after the other, the `k`-th `k` steps after now and as long after as
  -- the first packet is due in its flow.
  unfoldable pub schedule_all : ℕ → List Flow → W → W
  schedule_all k [] w = w
  schedule_all k (fl ∷ flows) w =
      schedule_all (k + 1) flows
        (ops.schedule_single fl.idx ((k * step + first.rel_tsc) % word) (assigned fl.idx w))

  abbrev pub AtFirst : List Flow → Type 0
  AtFirst = All (λ (fl : Flow). fl.pkt_idx ≡ 0)

  at_first :
      (fl : Flow) (t : ℕ) (w : W)
      → fl.pkt_idx ≡ 0
      → setup_event ops (first ∷ others) fl t w
        ≡ scheduled (ops.schedule_single fl.idx (add64 t first.rel_tsc) (assigned fl.idx w))
  unfolding setup_event
  at_first fl t w e = rw (e, a fl.idx w)

  setup_events-scheduled :
      (flows : List Flow) (k : ℕ) (w : W)
      → AtFirst flows
      → setup_events ops (first ∷ others) flows (k * step % word) step w
        ≡ scheduled (schedule_all k flows w)
  unfolding setup_events schedule_all
  setup_events-scheduled [] k w at = refl
  setup_events-scheduled (fl ∷ flows) k w at =
      let w' =
        ops.schedule_single fl.idx (add64 (k * step % word) first.rel_tsc) (assigned fl.idx w) in
      let next : add64 (k * step % word) step ≡ (k + 1) * step % word = omega arith in
      let due : add64 (k * step % word) first.rel_tsc ≡ (k * step + first.rel_tsc) % word =
        omega arith in
      rw (at_first fl (k * step % word) w at.0, setup_events)
        (ap (λ t. setup_events ops (first ∷ others) flows t step w') next
          ∙ setup_events-scheduled flows (k + 1) w' at.1
          ∙ ap
              (λ t.
                scheduled
                  (schedule_all (k + 1) flows (ops.schedule_single fl.idx t (assigned fl.idx w))))
              due)

  -- With flows at their first packet and event handles whose assignment returns,
  -- `setup_flow_events` schedules every flow, in order and once: flow number `k` is due `k` steps
  -- after now and the first packet's own time later, in 64-bit arithmetic, a step being a
  -- second divided by the number of flows. It fails exactly when a step is less than a cycle.
  pub setup_flow_events-scheduled :
      (hz : ℕ) (flows : List Flow) (w : W)
      → AtFirst flows
      → 0 < length flows
      → step ≡ from_micros hz (1_000_000 / length flows)
      → setup_flow_events ops (first ∷ others) hz flows w
        ≡ (if step == 0 then too_many_flows else scheduled (schedule_all 0 flows w))
  unfolding setup_flow_events
  setup_flow_events-scheduled hz flows w at some_flow e =
      let not_none : (length flows == 0) ≡ false = ground arith in
      let zero_eq : 0 ≡ 0 * step % word = omega arith in
      rw (not_none, ← e)
        (ap (λ t. if step == 0 then too_many_flows else t)
          (ap (λ t. setup_events ops (first ∷ others) flows t step w) zero_eq
            ∙ setup_events-scheduled flows 0 w at))

-- If the assignment of an event handle never returns, `setup_flow_events` never does for a flow
-- at a packet that is there, whatever the others, where a step is a cycle at least.
pub setup_flow_events-diverges :
    {W : Type 0} (ops : GenerationOps W) (pkts : List Pkt) (hz : ℕ) (fl : Flow) (flows : List Flow)
    (w : W)
    → ((i : ℕ) (v : W) → ops.assign_event i v ≡ none)
    → fl.pkt_idx < length pkts
    → from_micros hz (1_000_000 / length (fl ∷ flows)) ≢ 0
    → setup_flow_events ops pkts hz (fl ∷ flows) w ≡ diverges
unfolding setup_flow_events setup_events setup_event
setup_flow_events-diverges ops pkts hz fl flows w never there step =
    let not_none : (length (fl ∷ flows) == 0) ≡ false = ground arith in
    let whole : (from_micros hz (1_000_000 / length (fl ∷ flows)) == 0) ≡ false = ground arith in
    rw (not_none, whole) (first_diverges _)
  where
    event_diverges : (t : ℕ) → setup_event ops pkts fl t w ≡ diverges
    event_diverges t =
        let (pkt, e) = get_elem?-of_lt pkts fl.pkt_idx there in rw (e, never, setup_event)

    first_diverges : (step : ℕ) → setup_events ops pkts (fl ∷ flows) 0 step w ≡ diverges
    first_diverges step = rw (event_diverges 0, setup_events)
