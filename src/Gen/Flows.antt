-- ===== src/Gen/Flows.antt =====
-- gen/priv/flows_generator.h and .cpp: the generator's state, the flows that it sets up, their
-- first events, and what an event of a flow does. The packets are those that `load_pkts` gives.
pub mod Setup
pub mod Event
pub mod Run
pub mod Load
use Prim.Native.Nat.{bit_and, bit_or}
use traffic_generator.Base.{
  ℕ, zero, suc, ◌+◌, ◌-◌, ◌*◌, ◌/◌, ◌%◌, ◌^◌, Bool, true, false, Option, none, some, List, [], ◌∷◌,
  length, get_elem?, set, leb, ◌>>=◌, ◌==◌, if◌then◌else◌,
}
use traffic_generator.Base.Words.{add32, add64}
use traffic_generator.Put.Cycles.{from_micros}
use traffic_generator.Put.Assert.{enforce}
use traffic_generator.Gen.Ops.{Mbuf, GenerationReport, GenerationOps}
use traffic_generator.Gen.Rotation.{Range, Place, begin_place, advance}

-- `flows_generator::pkt`
pub record Pkt : Type 0 where
  pub rel_tsc : ℕ
  pub mbuf : Mbuf
  pub from_cln : Bool

-- `flows_generator::flow`, without its handle and its pointer to the generator.
pub record Flow : Type 0 where
  pub idx : ℕ
  pub pkt_idx : ℕ
  pub cln_ip_addr : ℕ
  pub srv_ip_addr : ℕ
  pub cnt_pkts : ℕ
  pub cnt_bytes : ℕ
  pub tstamp_beg : ℕ
  pub tstamp_end : ℕ

-- The members of `flows_generator`; `place` is its `cln_ip_addr_`, `srv_ip_addr_`, `burst_idx_`.
pub record FlowsGenerator : Type 0 where
  pub pkts : List Pkt
  pub flows : List Flow
  pub cln_ip_addrs : Range
  pub srv_ip_addrs : Range
  pub idx : ℕ
  pub place : Place
  pub burst_cnt : ℕ

module _ (cln srv : Range) (burst_cnt : ℕ) where
  unfoldable pub new_flow : ℕ → Place → Flow
  new_flow i p = record {
    idx = i;
    pkt_idx = 0;
    cln_ip_addr = p.cln_ip_addr;
    srv_ip_addr = p.srv_ip_addr;
    cnt_pkts = 0;
    cnt_bytes = 0;
    tstamp_beg = 0;
    tstamp_end = 0;
  }

  -- The loop of `setup_flows`, with `n` flows left to set up and `i` the next.
  pub setup_from : ℕ → ℕ → Place → List Flow × Place
  unfolding new_flow advance
  setup_from zero i p = ([], p)
  setup_from (suc n) i p =
      let (flows, p') = setup_from n (i + 1) (advance cln srv burst_cnt p) in
      (new_flow i p ∷ flows, p')

  -- `setup_flows`
  unfoldable pub setup_flows : (Bool → Bool) → ℕ → Option (List Flow × Place)
  unfolding setup_from begin_place
  setup_flows aborts flows_per_sec =
      enforce aborts (leb 1 burst_cnt)
        (some (setup_from flows_per_sec 0 (begin_place cln srv burst_cnt)))

-- How `setup_flow_events` ends.
pub data EventsResult (W : Type 0) : Type 0 where
  scheduled : W → EventsResult W
  -- a division by no flows
  div_by_zero : EventsResult W
  -- the exception of too many flows per second
  too_many_flows : EventsResult W
  -- a read past the packets
  out_of_range : EventsResult W
  -- the assignment of an event handle does not return
  diverges : EventsResult W

module _ {W : Type 0} (ops : GenerationOps W) (pkts : List Pkt) where
  unfoldable pub schedule_at : ℕ → ℕ → Option W → EventsResult W
  schedule_at i evtm none = diverges
  schedule_at i evtm (some w) = scheduled (ops.schedule_single i evtm w)

  -- One round of the loop of `setup_flow_events`.
  unfoldable pub setup_event : Flow → ℕ → W → EventsResult W
  unfolding schedule_at
  setup_event fl flow_tsc w = elim (get_elem? pkts fl.pkt_idx) [
    | none ↦ out_of_range
    | some pkt ↦ schedule_at fl.idx (add64 flow_tsc pkt.rel_tsc) (ops.assign_event fl.idx w)
  ]

  unfoldable pub setup_events : List Flow → ℕ → ℕ → W → EventsResult W
  setup_events [] flow_tsc step w = scheduled w
  setup_events (fl ∷ flows) flow_tsc step w = elim (setup_event fl flow_tsc w) [
    | scheduled w' ↦ setup_events flows (add64 flow_tsc step) step w'
    | div_by_zero ↦ div_by_zero
    | too_many_flows ↦ too_many_flows
    | out_of_range ↦ out_of_range
    | diverges ↦ diverges
  ]

  -- `setup_flow_events`; the step is 1'000'000 microseconds shared between the flows.
  unfoldable pub setup_flow_events : ℕ → List Flow → W → EventsResult W
  setup_flow_events hz flows w =
      let step = from_micros hz (1_000_000 / length flows) in
      if length flows == 0
      then div_by_zero
      else (if step == 0 then too_many_flows else setup_events flows 0 step w)

-- RTE_ETHER_HDR_LEN
abbrev pub ether_hdr_len : ℕ
ether_hdr_len = 14

-- `hdr_len(const rte_ipv4_hdr*)` of put/pkt_utils.h
unfoldable pub ipv4_hdr_len : ℕ → ℕ
ipv4_hdr_len version_ihl = bit_and version_ihl 0x0f * 4

-- The next packet of the flow, or the first one with new addresses.
unfoldable pub next_pkt : FlowsGenerator → Flow → Flow × Place
next_pkt g fl =
    let next = add32 fl.pkt_idx 1 in
    if next == length g.pkts
    then (
      record fl {
        pkt_idx = 0;
        cln_ip_addr = g.place.cln_ip_addr;
        srv_ip_addr = g.place.srv_ip_addr;
      },
      advance g.cln_ip_addrs g.srv_ip_addrs g.burst_cnt g.place,
    )
    else (record fl { pkt_idx = next }, g.place)

-- The stats of a flow when a packet of `len` bytes is generated at `tstamp`.
unfoldable pub count_pkt : ℕ → ℕ → Flow → Flow
count_pkt tstamp len fl =
    let cnt = add64 fl.cnt_pkts 1 in
    record fl {
      cnt_pkts = cnt;
      cnt_bytes = add64 fl.cnt_bytes len;
      tstamp_beg = if cnt == 1 then tstamp else fl.tstamp_beg;
      tstamp_end = tstamp;
    }

-- `native_to_big` of 32 bits, and the flags that ask for the checksums, are of other libraries.
module _ (native_to_big : ℕ → ℕ) (tx_flags : ℕ) {W : Type 0} (ops : GenerationOps W) where
  pub src_dst : Pkt → Flow → ℕ × ℕ
  src_dst pkt fl =
      if pkt.from_cln
      then (native_to_big fl.cln_ip_addr, native_to_big fl.srv_ip_addr)
      else (native_to_big fl.srv_ip_addr, native_to_big fl.cln_ip_addr)

  pub make_report : FlowsGenerator → Pkt → Flow → ℕ → GenerationReport
  unfolding src_dst
  make_report g pkt fl tstamp = record {
    tstamp = tstamp;
    gen_idx = g.idx;
    flow_idx = fl.idx;
    pkt_idx = fl.pkt_idx;
    pkt_len = pkt.mbuf.pkt_len;
    src_addr = (src_dst pkt fl).0;
    dst_addr = (src_dst pkt fl).1;
    from_cln = pkt.from_cln;
    is_ok = true;
  }

  -- The copy that goes out.
  pub address_pkt : Pkt → Flow → Mbuf → Mbuf
  unfolding src_dst ipv4_hdr_len
  address_pkt pkt fl m = record m {
    src_addr = (src_dst pkt fl).0;
    dst_addr = (src_dst pkt fl).1;
    ol_flags = bit_or m.ol_flags tx_flags;
    l2_len = ether_hdr_len;
    l3_len = ipv4_hdr_len m.version_ihl;
  }

  -- The rest of `on_flow_event` once the packet is copied, or is not.
  unfoldable pub finish_event : Pkt → Flow → GenerationReport → Option Mbuf × W → W
  unfolding address_pkt
  finish_event pkt fl report (none, w) = ops.do_report (record report { is_ok = false }) w
  finish_event pkt fl report (some m, w) =
      let w' = ops.do_report report (ops.send_pkt (address_pkt pkt fl m) w) in
      ops.schedule_single fl.idx pkt.rel_tsc w'

  -- `on_flow_event`: the flow, the generator's place and the manager's state after it; `none` is a
  -- read past the packets.
  unfoldable pub on_flow_event : FlowsGenerator → Flow → W → Option (Flow × Place × W)
  unfolding next_pkt count_pkt make_report finish_event
  on_flow_event g fl w = do
    let moved = next_pkt g fl
    pkt ← get_elem? g.pkts moved.0.pkt_idx
    let tstamp = ops.current w
    let fl' = count_pkt tstamp pkt.mbuf.pkt_len moved.0
    let report = make_report g pkt fl' tstamp
    some (fl', moved.1, finish_event pkt fl' report (ops.copy_pkt pkt.mbuf w))

  -- `on_event` for flow number `i`: the generator with the flow's state written back.
  unfoldable pub on_event : FlowsGenerator → ℕ → W → Option (FlowsGenerator × W)
  unfolding on_flow_event
  on_event g i w = do
    fl ← get_elem? g.flows i
    (fl', place, w') ← on_flow_event g fl w
    some (record g { flows = set g.flows i fl'; place = place }, w')

  -- Events of flows, one after the other.
  pub on_events : FlowsGenerator → List ℕ → W → Option (FlowsGenerator × W)
  on_events g [] w = some (g, w)
  on_events g (i ∷ is) w = elim (on_event g i w) [
    | none ↦ none
    | some (g', w') ↦ on_events g' is w'
  ]
