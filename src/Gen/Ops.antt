-- ===== src/Gen/Ops.antt =====
-- gen/priv/generation_ops.h: what a flows generator asks of the generation manager, over the
-- manager's state `W`, with the two other things that its events need, the timer's cycles and the
-- event handle of a flow. A flow's handle is known by the flow's index.
use traffic_generator.Base.{ℕ, Bool, Option}

-- What the code touches of a packet buffer, in the byte order of the network; `body` stands for
-- the bytes that it copies with no look at them.
pub record Mbuf : Type 0 where
  pub pkt_len : ℕ
  -- the length of the first segment
  pub data_len : ℕ
  pub ether_src : ℕ
  pub ether_dst : ℕ
  pub ether_type : ℕ
  pub version_ihl : ℕ
  pub next_proto_id : ℕ
  pub src_addr : ℕ
  pub dst_addr : ℕ
  pub src_port : ℕ
  pub dst_port : ℕ
  pub ol_flags : ℕ
  pub l2_len : ℕ
  pub l3_len : ℕ
  pub body : ℕ

-- `generation_report`
pub record GenerationReport : Type 0 where
  pub tstamp : ℕ
  pub gen_idx : ℕ
  pub flow_idx : ℕ
  pub pkt_idx : ℕ
  pub pkt_len : ℕ
  pub src_addr : ℕ
  pub dst_addr : ℕ
  pub from_cln : Bool
  pub is_ok : Bool

pub record GenerationOps (W : Type 0) : Type 0 where
  pub alloc_mbuf : W → Option Mbuf × W
  pub copy_pkt : Mbuf → W → Option Mbuf × W
  pub send_pkt : Mbuf → W → W
  pub do_report : GenerationReport → W → W
  -- `put::cycles::current`
  pub current : W → ℕ
  -- `flow.event = create_scheduler_event()`, `none` if it does not return
  pub assign_event : ℕ → W → Option W
  -- `flow.event.schedule_single`
  pub schedule_single : ℕ → ℕ → W → W
