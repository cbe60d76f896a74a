-- ===== src/Gen/Flows/Event.antt =====
-- What an event of a flow does: which packet it sends, with which addresses, and what it asks of
-- the generation manager.
use traffic_generator.Base.{
  ℕ, ◌+◌, ◌%◌, ◌^◌, ◌<◌, ◌≡◌, refl, sym, ap, ◌∙◌, Bool, true, false, Option, none, some, length,
  get_elem?, get_elem?-of_lt, ◌==◌, if◌then◌else◌, arith, Bool-cases, inl, inr, ◌⊎◌,
}
use native.Mathlib.Nat.{mod-lt, mod-eq_of_lt}
use traffic_generator.Base.Words.{add32, add64}
use traffic_generator.Gen.Ops.{Mbuf, GenerationReport, GenerationOps}
use traffic_generator.Gen.Rotation.{Place, IsRange, advance, place_after, advance-place_after}
use traffic_generator.Gen.Flows.{
  Pkt, Flow, FlowsGenerator, next_pkt, count_pkt, make_report, finish_event, on_flow_event,
}

-- A generator that the constructor made: packets that a 32-bit index counts, ranges and a burst.
pub record IsBuilt (g : FlowsGenerator) : Type 0 where
  pub some_pkt : 0 < length g.pkts
  pub few_pkts : length g.pkts < 2 ^ 32
  pub cln : IsRange g.cln_ip_addrs
  pub srv : IsRange g.srv_ip_addrs
  pub some_burst : 0 < g.burst_cnt
  pub burst_word : g.burst_cnt < 2 ^ 32

abbrev pub AtPkt : FlowsGenerator → Flow → Type 0
AtPkt g fl = fl.pkt_idx < length g.pkts

abbrev pub place_of : FlowsGenerator → ℕ → Place
place_of g = place_after g.cln_ip_addrs g.srv_ip_addrs g.burst_cnt

-- Where a flow goes at an event, when `n` flows were started before.
pub record Moves (g : FlowsGenerator) (fl : Flow) (n : ℕ) (out : Flow × Place) : Type 0 where
  pub pkt : out.0.pkt_idx ≡ (fl.pkt_idx + 1) % length g.pkts
  pub same_idx : out.0.idx ≡ fl.idx
  pub addrs :
      ((fl.pkt_idx + 1 < length g.pkts)
        × (out.0.cln_ip_addr ≡ fl.cln_ip_addr)
        × (out.0.srv_ip_addr ≡ fl.srv_ip_addr)
        × (out.1 ≡ place_of g n))
      ⊎ ((fl.pkt_idx + 1 ≡ length g.pkts)
          × (out.0.cln_ip_addr ≡ (place_of g n).cln_ip_addr)
          × (out.0.srv_ip_addr ≡ (place_of g n).srv_ip_addr)
          × (out.1 ≡ place_of g (n + 1)))

next_pkt-Moves :
    (g : FlowsGenerator) (fl : Flow) (n : ℕ)
    → IsBuilt g
    → AtPkt g fl
    → g.place ≡ place_of g n
    → Moves g fl n (next_pkt g fl)
unfolding next_pkt
next_pkt-Moves g fl n b at e = elim (Bool-cases (add32 fl.pkt_idx 1 == length g.pkts)) [
  | inl last ↦
      let all : fl.pkt_idx + 1 ≡ length g.pkts = ground (arith, b.few_pkts) in
      rw last (record {
        pkt = round (length g.pkts) ∙ sym (ap (λ (k : ℕ). k % length g.pkts) all);
        same_idx = refl;
        addrs = inr (
          all,
          ap (λ p. p.cln_ip_addr) e,
          ap (λ p. p.srv_ip_addr) e,
          ap (advance g.cln_ip_addrs g.srv_ip_addrs g.burst_cnt) e
              ∙ advance-place_after g.cln_ip_addrs g.srv_ip_addrs g.burst_cnt b.cln b.srv
                  b.some_burst b.burst_word n,
        );
      })
  | inr more ↦
      let left : fl.pkt_idx + 1 < length g.pkts = ground (arith, b.few_pkts) in
      rw more (record {
        pkt = omega (arith, mod-eq_of_lt left, b.few_pkts);
        same_idx = refl;
        addrs = inl (left, refl, refl, e);
      })
]
  where
    round : (k : ℕ) → 0 ≡ k % k
    round k = grind arith

module _ (native_to_big : ℕ → ℕ) (tx_flags : ℕ) {W : Type 0} (ops : GenerationOps W) where
  -- The report of an event on packet `pkt` of flow `fl`, with the addresses by the packet's
  -- direction.
  pub report_of : FlowsGenerator → Pkt → Flow → ℕ → Bool → GenerationReport
  report_of g pkt fl tstamp sent = record {
    tstamp = tstamp;
    gen_idx = g.idx;
    flow_idx = fl.idx;
    pkt_idx = fl.pkt_idx;
    pkt_len = pkt.mbuf.pkt_len;
    src_addr = native_to_big (if pkt.from_cln then fl.cln_ip_addr else fl.srv_ip_addr);
    dst_addr = native_to_big (if pkt.from_cln then fl.srv_ip_addr else fl.cln_ip_addr);
    from_cln = pkt.from_cln;
    is_ok = sent;
  }

  -- What an event asks of the manager on a packet and a flow that moved on to it: after a copy
  -- that failed one report, and else the packet, one report and the flow's next event.
  unfoldable pub Asks : FlowsGenerator → Pkt → Flow → ℕ → Option Mbuf × W → W → Type 0
  Asks g pkt fl tstamp (none, w) w' = w' ≡ ops.do_report (report_of g pkt fl tstamp false) w
  Asks g pkt fl tstamp (some m, w) w' =
      (m' : Mbuf) × (w'
        ≡ ops.schedule_single fl.idx pkt.rel_tsc
            (ops.do_report (report_of g pkt fl tstamp true) (ops.send_pkt m' w)))
      × (m'.src_addr ≡ native_to_big (if pkt.from_cln then fl.cln_ip_addr else fl.srv_ip_addr))
      × (m'.dst_addr ≡ native_to_big (if pkt.from_cln then fl.srv_ip_addr else fl.cln_ip_addr))
      × (m'.pkt_len ≡ m.pkt_len)
      × (m'.body ≡ m.body)

  finish_event-Asks :
      (g : FlowsGenerator) (pkt : Pkt) (fl : Flow) (tstamp : ℕ) (c : Option Mbuf × W)
      → Asks g pkt fl tstamp c (
          finish_event native_to_big tx_flags ops pkt fl
            (make_report native_to_big tx_flags ops g pkt fl tstamp)
            c)
  unfolding Asks finish_event make_report report_of
  finish_event-Asks g pkt fl tstamp (none, w) = elim (Bool-cases pkt.from_cln) [
    | inl c ↦ rw c
    | inr s ↦ rw s
  ]
  finish_event-Asks g pkt fl tstamp (some m, w) = elim (Bool-cases pkt.from_cln) [
    | inl c ↦ rw c (_, refl, refl, refl, refl, refl)
    | inr s ↦ rw s (_, refl, refl, refl, refl, refl)
  ]

  -- All that an event does.
  pub record Fires (g : FlowsGenerator) (fl : Flow) (n : ℕ) (w : W) (out : Flow × Place × W)
      : Type 0 where
    pub pkt : Pkt
    pub moves : Moves g fl n (out.0, out.1)
    pub pkt_at : get_elem? g.pkts out.0.pkt_idx ≡ some pkt
    pub cnt_pkts : out.0.cnt_pkts ≡ add64 fl.cnt_pkts 1
    pub cnt_bytes : out.0.cnt_bytes ≡ add64 fl.cnt_bytes pkt.mbuf.pkt_len
    pub tstamp_end : out.0.tstamp_end ≡ ops.current w
    pub tstamp_beg :
        out.0.tstamp_beg ≡ (if add64 fl.cnt_pkts 1 == 1 then ops.current w else fl.tstamp_beg)
    pub asks : Asks g pkt out.0 (ops.current w) (ops.copy_pkt pkt.mbuf w) out.2

  stats_kept :
      (g : FlowsGenerator) (fl : Flow)
      → ((next_pkt g fl).0.cnt_pkts ≡ fl.cnt_pkts)
        × ((next_pkt g fl).0.cnt_bytes ≡ fl.cnt_bytes)
        × ((next_pkt g fl).0.tstamp_beg ≡ fl.tstamp_beg)
  unfolding next_pkt
  stats_kept g fl = ground arith

  -- An event of a flow at one of the packets never reads past them. The flow moves to the packet
  -- after, round to the first; at the first it takes the generator's next addresses, the
  -- generator's place being that after `n` flows, and the place moves on by one flow, and else
  -- the addresses and the place stay. The flow's stats count the packet, and the manager is asked
  -- what `Asks` says.
  pub on_flow_event-Fires :
      (g : FlowsGenerator) (fl : Flow) (n : ℕ) (w : W)
      → IsBuilt g
      → AtPkt g fl
      → g.place ≡ place_of g n
      → (out : Flow × Place × W) × (on_flow_event native_to_big tx_flags ops g fl w ≡ some out)
        × Fires g fl n w out
  unfolding on_flow_event count_pkt
  on_flow_event-Fires g fl n w b at e =
      let m = next_pkt-Moves g fl n b at e in
      let inside : (next_pkt g fl).0.pkt_idx < length g.pkts =
        omega (arith, m.pkt, mod-lt (fl.pkt_idx + 1) b.some_pkt) in
      let (pkt, found) = get_elem?-of_lt g.pkts (next_pkt g fl).0.pkt_idx inside in
      let kept = stats_kept g fl in
      rw found (
        _,
        refl,
        record {
          pkt = pkt;
          moves = record { pkt = m.pkt; same_idx = m.same_idx; addrs = m.addrs };
          pkt_at = found;
          cnt_pkts = ap (λ k. add64 k 1) kept.0;
          cnt_bytes = ap (λ k. add64 k pkt.mbuf.pkt_len) kept.1;
          tstamp_end = refl;
          tstamp_beg = rw (kept.0, kept.2);
          asks = finish_event-Asks g pkt _ (ops.current w) (ops.copy_pkt pkt.mbuf w);
        },
      )
