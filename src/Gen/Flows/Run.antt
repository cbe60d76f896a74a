-- ===== src/Gen/Flows/Run.antt =====
-- Any sequence of events of a generator's flows.
use traffic_generator.Base.{
  ℕ, ◌+◌, ◌%◌, ◌≤◌, ◌<◌, ◌≡◌, refl, sym, ap, ap₂, ◌∙◌, some, List, [], ◌∷◌, length, All, All-get,
  All-set, length-set, set, get_elem?, get_elem?-of_lt, get_elem?-set_self, get_elem?-set_ne, ◌==◌,
  if◌then◌else◌, arith, inl, inr,
}
use mathlib.Core.Path.{subst}
use mathlib.Core.Option.{some-injective}
use native.Mathlib.Decide.{ℕ_discrete}
use native.Mathlib.Nat.{mod-lt, mod-eq_of_lt, mod-add-mod}
use traffic_generator.Gen.Ops.{GenerationOps}
use traffic_generator.Gen.Rotation.{Place}
use traffic_generator.Gen.Flows.{Pkt, Flow, FlowsGenerator, on_event, on_events}
use traffic_generator.Gen.Flows.Event.{IsBuilt, AtPkt, place_of, Fires, Asks, on_flow_event-Fires}

-- A generator whose place is the one after `n` flows, and whose flows are all at packets.
pub record IsRunning (g : FlowsGenerator) (n : ℕ) : Type 0 where
  pub built : IsBuilt g
  pub at : All (AtPkt g) g.flows
  pub place : g.place ≡ place_of g n

-- How often `i` is in a list.
abbrev pub count : ℕ → List ℕ → ℕ
count i [] = 0
count i (j ∷ js) = (if j == i then 1 else 0) + count i js

module _ (native_to_big : ℕ → ℕ) (tx_flags : ℕ) {W : Type 0} (ops : GenerationOps W) where
  -- What stays and what moves over the events of flows `is`.
  pub record Ran (g : FlowsGenerator) (n : ℕ) (is : List ℕ) (g' : FlowsGenerator) : Type 0 where
    pub started : ℕ
    pub running : IsRunning g' started
    pub started_le : n ≤ started
    pub started_few : started ≤ n + length is
    pub same_pkts : g'.pkts ≡ g.pkts
    pub same_count : length g'.flows ≡ length g.flows
    pub pkt_of :
        (i : ℕ) (fl : Flow)
        → get_elem? g.flows i ≡ some fl
        → (fl' : Flow) × (get_elem? g'.flows i ≡ some fl')
          × (fl'.pkt_idx ≡ (fl.pkt_idx + count i is) % length g.pkts)

  next_start :
      (g : FlowsGenerator) (fl : Flow) (n : ℕ) (w : W) (out : Flow × Place × W)
      → Fires native_to_big tx_flags ops g fl n w out
      → (s : ℕ) × (out.1 ≡ place_of g s) × (n ≤ s) × (s ≤ n + 1)
  next_start g fl n w out f = elim f.moves.addrs [
    | inl m ↦ (n, m.3, omega arith, omega arith)
    | inr m ↦ (n + 1, m.3, omega arith, omega arith)
  ]

  pkt_of_set :
      (g : FlowsGenerator) (i : ℕ) (fl : Flow)
      → get_elem? g.flows i ≡ some fl
      → (fl' : Flow) → i < length g.flows
      → fl'.pkt_idx ≡ (fl.pkt_idx + 1) % length g.pkts
      → All (AtPkt g) g.flows
      → (j : ℕ) (flj : Flow) → get_elem? g.flows j ≡ some flj
      → (out : Flow) × (get_elem? (set g.flows i fl') j ≡ some out)
        × (out.pkt_idx ≡ (flj.pkt_idx + count j (i ∷ [])) % length g.pkts)
  pkt_of_set g i fl found fl' h e at j flj foundj = elim (ℕ_discrete i j) [
    | yes same ↦
        let here : some fl ≡ some flj = sym found ∙ ap (get_elem? g.flows) same ∙ foundj in
        let idx : fl.pkt_idx ≡ flj.pkt_idx =
          ap (λ (f : Flow). f.pkt_idx) (some-injective fl flj here) in
        let one : count j (i ∷ []) ≡ 1 = ground arith in
        (
          fl',
          ap (get_elem? (set g.flows i fl')) (sym same) ∙ get_elem?-set_self g.flows i fl' h,
          e ∙ ap₂ (λ (a b : ℕ). (a + b) % length g.pkts) idx (sym one),
        )
    | no other ↦
        let inside : flj.pkt_idx < length g.pkts = All-get (AtPkt g) g.flows j flj at foundj in
        let none_of : flj.pkt_idx + count j (i ∷ []) ≡ flj.pkt_idx = ground arith in
        (
          flj,
          get_elem?-set_ne g.flows fl' other ∙ foundj,
          sym (ap (λ (a : ℕ). a % length g.pkts) none_of ∙ mod-eq_of_lt inside),
        )
  ]

  -- What an event asked of the manager, for some packet and flow.
  pub record Asked (g : FlowsGenerator) (w w' : W) : Type 0 where
    pub pkt : Pkt
    pub flow : Flow
    pub asks :
        Asks native_to_big tx_flags ops g pkt flow (ops.current w) (ops.copy_pkt pkt.mbuf w) w'

  pub on_event-Ran :
      (g : FlowsGenerator) (n i : ℕ) (w : W)
      → IsRunning g n
      → i < length g.flows
      → (g' : FlowsGenerator) × (w' : W) × (on_event native_to_big tx_flags ops g i w
          ≡ some (g', w'))
        × Ran g n (i ∷ []) g'
        × Asked g w w'
  unfolding on_event
  on_event-Ran g n i w r h =
      let (fl, found) = get_elem?-of_lt g.flows i h in
      let at = All-get (AtPkt g) g.flows i fl r.at found in
      let (out, e, f) =
        on_flow_event-Fires native_to_big tx_flags ops g fl n w r.built at r.place in
      let (s, place, ge, le) = next_start g fl n w out f in
      let b = r.built in
      rw (found, e)
        (
          _,
          _,
          refl,
          record {
            started = s;
            running = record {
              built = record {
                some_pkt = b.some_pkt;
                few_pkts = b.few_pkts;
                cln = b.cln;
                srv = b.srv;
                some_burst = b.some_burst;
                burst_word = b.burst_word;
              };
              at =
                  All-set (AtPkt g) g.flows i out.0 r.at
                    (omega (arith, f.moves.pkt, mod-lt (fl.pkt_idx + 1) b.some_pkt));
              place = place;
            };
            started_le = ge;
            started_few = le;
            same_pkts = refl;
            same_count = length-set g.flows i out.0;
            pkt_of = pkt_of_set g i fl found out.0 h f.moves.pkt r.at;
          },
          record { pkt = f.pkt; flow = out.0; asks = f.asks },
        )

  Ran-trans :
      (g : FlowsGenerator) (n i : ℕ) (is : List ℕ) (g' g'' : FlowsGenerator)
      (first : Ran g n (i ∷ []) g')
      → Ran g' first.started is g''
      → Ran g n (i ∷ is) g''
  Ran-trans g n i is g' g'' first rest = record {
    started = rest.started;
    running = rest.running;
    started_le = omega (arith, first.started_le, rest.started_le);
    started_few = omega (arith, first.started_few, rest.started_few);
    same_pkts = rest.same_pkts ∙ first.same_pkts;
    same_count = rest.same_count ∙ first.same_count;
    pkt_of = λ j fl e.
        let (fl', e', k) = first.pkt_of j fl e in
        let (fl'', e'', k') = rest.pkt_of j fl' e' in
        (
          fl'',
          e'',
          k'
              ∙ ap₂ (λ (a b : ℕ). (a + count j is) % b) k (ap length first.same_pkts)
              ∙ mod-add-mod (fl.pkt_idx + count j (i ∷ [])) (length g.pkts) (count j is)
              ∙ ap (λ (a : ℕ). a % length g.pkts) (omega arith),
        );
  }

  -- Any sequence of events of flows that a running generator has is handled to its end, with no
  -- read out of range. The generator stays running, with as many flows and the same packets, and
  -- starts no more flows than there are events. Whatever the order, each flow comes to the packet
  -- that is as many after its own as it had events, round the packets.
  pub on_events-Ran :
      (g : FlowsGenerator) (n : ℕ) (is : List ℕ) (w : W)
      → IsRunning g n
      → All (λ i. i < length g.flows) is
      → (g' : FlowsGenerator) × (w' : W) × (on_events native_to_big tx_flags ops g is w
          ≡ some (g', w'))
        × Ran g n is g'
  unfolding on_events
  on_events-Ran g n [] w r h = (
    g,
    w,
    refl,
    record {
      started = n;
      running = r;
      started_le = omega arith;
      started_few = omega arith;
      same_pkts = refl;
      same_count = refl;
      pkt_of = λ i fl e.
          let at : fl.pkt_idx < length g.pkts = All-get (AtPkt g) g.flows i fl r.at e in
          let z : fl.pkt_idx + 0 ≡ fl.pkt_idx = omega arith in
          (fl, e, sym (ap (λ (k : ℕ). k % length g.pkts) z ∙ mod-eq_of_lt at));
    },
  )
  on_events-Ran g n (i ∷ is) w r h =
      let (g', w', e, first, _) = on_event-Ran g n i w r h.0 in
      let inside = subst (λ (k : ℕ). All (λ j. j < k) is) (sym first.same_count) h.1 in
      let (g'', w'', e', rest) = on_events-Ran g' first.started is w' first.running inside in
      rw (e, on_events) (g'', w'', e', Ran-trans g n i is g' g'' first rest)
