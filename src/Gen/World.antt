-- ===== src/Gen/World.antt =====
-- The part of gen/manager.cpp's `manager_impl` that the flows generators work on through
-- `generation_ops`, and that interface's implementation. DPDK's pool, device and timers, with
-- their state `E`, are a parameter.
use traffic_generator.Base.{
  ℕ, ◌+◌, ◌-◌, Bool, Option, none, some, List, [], ◌∷◌, ◌++◌, length, drop, ltb, ◌==◌,
  if◌then◌else◌,
}
use traffic_generator.Base.Words.{add64}
use traffic_generator.Put.Ring.{Ring}
use traffic_generator.Gen.Ops.{Mbuf, GenerationReport, GenerationOps}
use traffic_generator.Mgmt.Messages.{IncMsg, generation_report, inc_capacity}
use traffic_generator.Mgmt.Queue.{enqueue}

-- `rte_eth_stats`
pub record EthStats : Type 0 where
  pub ipackets : ℕ
  pub opackets : ℕ
  pub ibytes : ℕ
  pub obytes : ℕ
  pub imissed : ℕ
  pub ierrors : ℕ
  pub oerrors : ℕ
  pub rx_nombuf : ℕ

pub record Dpdk (E : Type 0) : Type 0 where
  pub pktmbuf_alloc : E → Option Mbuf × E
  pub pktmbuf_copy : Mbuf → E → Option Mbuf × E
  pub pktmbuf_free_bulk : List Mbuf → E → E
  pub eth_tx_burst : List Mbuf → E → ℕ × E
  pub eth_rx_burst : ℕ → E → List Mbuf × E
  pub eth_stats_get : E → EthStats
  -- true for success
  pub eth_stats_reset : E → Bool × E
  pub timer_cycles : E → ℕ
  -- of the timer of a generator's flow
  pub timer_reset : ℕ → ℕ → ℕ → E → E
  -- true for success
  pub timer_stop : ℕ → ℕ → E → Bool × E
  -- The timers that `rte_timer_manage` finds expired, by their generators and flows, among those
  -- of generators with so many flows each.
  pub timers_expired : List ℕ → E → List (ℕ × ℕ)
  pub mac_addr : E → ℕ

pub record World (E : Type 0) : Type 0 where
  pub env : E
  pub out_queue : Ring IncMsg
  -- `cnt_timers_` of the scheduler
  pub cnt_timers : ℕ
  pub tx_pkts : List Mbuf
  pub cnt_tx_pkts_qfull : ℕ
  pub cnt_tx_pkts_nombuf : ℕ

abbrev pub cnt_burst_pkts : ℕ
cnt_burst_pkts = 64

module _ {E : Type 0} (dpdk : Dpdk E) where
  -- `transmit_tx_pkts`
  unfoldable pub transmit_tx_pkts : World E → World E
  transmit_tx_pkts w =
      let (cnt, env) = dpdk.eth_tx_burst w.tx_pkts w.env in
      let cnt_all = length w.tx_pkts in
      if ltb cnt cnt_all
      then record w {
        env = dpdk.pktmbuf_free_bulk (drop cnt w.tx_pkts) env;
        cnt_tx_pkts_qfull = add64 w.cnt_tx_pkts_qfull (cnt_all - cnt);
        tx_pkts = [];
      }
      else record w { env = env; tx_pkts = [] }

  -- The count of the packets that the pool had no room for.
  abbrev pub or_count : Option Mbuf × E → World E → Option Mbuf × World E
  or_count (none, env) w =
      (none, record w { env = env; cnt_tx_pkts_nombuf = add64 w.cnt_tx_pkts_nombuf 1 })
  or_count (some m, env) w = (some m, record w { env = env })

  unfoldable pub alloc_mbuf : World E → Option Mbuf × World E
  alloc_mbuf w = or_count (dpdk.pktmbuf_alloc w.env) w

  unfoldable pub copy_pkt : Mbuf → World E → Option Mbuf × World E
  copy_pkt pkt w = or_count (dpdk.pktmbuf_copy pkt w.env) w

  unfoldable pub send_pkt : Mbuf → World E → World E
  send_pkt pkt w =
      let w' = record w { tx_pkts = w.tx_pkts ++ (pkt ∷ []) } in
      if length w'.tx_pkts == cnt_burst_pkts then transmit_tx_pkts w' else w'

  unfoldable pub do_report : GenerationReport → World E → World E
  do_report r w = record w {
    out_queue = (enqueue inc_capacity w.out_queue (generation_report r)).1;
  }

  -- `event_scheduler::get_timer`, behind the constructor of an event handle.
  unfoldable pub get_timer : World E → World E
  get_timer w = record w { cnt_timers = w.cnt_timers + 1 }

  -- `manager_impl` as a `generation_ops`; the move assignment of an event handle, to which the
  -- new handle goes, is given. The timers are told apart by their generator and flow.
  abbrev pub manager_ops : ℕ → (World E → Option (World E)) → GenerationOps (World E)
  manager_ops gen move_assign = record {
    alloc_mbuf = alloc_mbuf;
    copy_pkt = copy_pkt;
    send_pkt = send_pkt;
    do_report = do_report;
    current = λ w. dpdk.timer_cycles w.env;
    assign_event = λ i w. move_assign (get_timer w);
    schedule_single = λ i tm w. record w { env = dpdk.timer_reset gen i tm w.env };
  }
