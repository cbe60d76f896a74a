-- ===== src/Mgmt/Messages.antt =====
-- mgmt/messages.h and mgmt/stats.h: the messages between the two managers.
use Prim.Native.String.{String}
use traffic_generator.Base.{ℕ, Option, List}
use traffic_generator.Gen.Ops.{GenerationReport}
use traffic_generator.Mgmt.Config.{GenConfig}

pub record Stats : Type 0 where
  pub cnt_rx_pkts : ℕ
  pub cnt_tx_pkts : ℕ
  pub cnt_rx_bytes : ℕ
  pub cnt_tx_bytes : ℕ
  pub cnt_rx_pkts_qfull : ℕ
  pub cnt_rx_pkts_nombuf : ℕ
  pub cnt_tx_pkts_qfull : ℕ
  pub cnt_tx_pkts_nombuf : ℕ
  pub cnt_rx_pkts_err : ℕ
  pub cnt_tx_pkts_err : ℕ

-- `summary_stats::entry`
pub record Entry : Type 0 where
  pub gen_idx : ℕ
  pub flow_idx : ℕ
  pub cnt_pkts : ℕ
  pub cnt_bytes : ℕ
  pub duration : ℕ

pub record SummaryStats : Type 0 where
  pub summary : Stats
  pub detailed : List Entry

-- `out_messages_queue`: from the management to the generation.
pub data OutMsg : Type 0 where
  req_start_generation : GenConfig → OutMsg
  req_stop_generation : OutMsg
  req_stats_report : OutMsg

-- `inc_messages_queue`: the way back. A start has no error, or the text of one.
pub data IncMsg : Type 0 where
  res_start_generation : Option String → IncMsg
  res_stop_generation : SummaryStats → IncMsg
  res_stats_report : Stats → IncMsg
  generation_report : GenerationReport → IncMsg

abbrev pub out_capacity : ℕ
out_capacity = 32

abbrev pub inc_capacity : ℕ
inc_capacity = 256
