-- ===== src/Mgmt/Config.antt =====
-- mgmt/gen_config.h: a test's configuration.
pub mod Parse
use Prim.Native.String.{String}
use traffic_generator.Base.{ℕ, Option, List}

-- `network_v4`
pub record Net : Type 0 where
  pub addr : ℕ
  pub prefix_len : ℕ

pub record FlowsConfig : Type 0 where
  pub name : String
  pub burst : ℕ
  pub flows_per_sec : ℕ
  pub inter_pkts_gap : Option ℕ
  pub cln_ips : Net
  pub srv_ips : Net
  pub cln_port : Option ℕ

-- The duration is in milliseconds; the address of the device is its six bytes.
pub record GenConfig : Type 0 where
  pub duration : ℕ
  pub dut_addr : List ℕ
  pub flows_cfgs : List FlowsConfig
