-- ===== src/Gen/Device.antt =====
-- gen/priv/eth_dev.cpp and eth_dev.h: the setup of the device, its moves and its destruction. DPDK,
-- with its state `D`, is a parameter: what a port offers, and how each call ends. The calls are
-- written down, the last one at the end.
pub mod Setup
pub mod Owner
mod Tests
use Prim.Native.Nat.{bit_and, bit_or}
use traffic_generator.Base.{
  ℕ, zero, suc, ◌+◌, Bool, true, false, Option, none, some, List, [], ◌∷◌, ◌++◌, ◌==◌,
  if◌then◌else◌,
}

-- The flags of the offloads that are asked for.
pub record Flags : Type 0 where
  pub rx_cksum : ℕ
  pub tx_ipv4_cksum : ℕ
  pub tx_tcp_udp_cksum : ℕ
  pub tx_fast_free : ℕ

-- `rte_eth_dev_info`, what is used of it.
pub record DevInfo : Type 0 where
  pub rx_offload_capa : ℕ
  pub tx_offload_capa : ℕ

-- `rte_eth_conf`, what is set of it.
pub record DevConf : Type 0 where
  pub rx_offloads : ℕ
  pub tx_offloads : ℕ

-- `eth_dev::config`, without the socket and the pool.
pub record Config : Type 0 where
  pub port_id : ℕ
  pub queue_size : ℕ

pub data Call : Type 0 where
  configure : ℕ → DevConf → Call
  rx_queue_setup : ℕ → ℕ → ℕ → Call
  tx_queue_setup : ℕ → ℕ → ℕ → Call
  dev_start : ℕ → Call
  dev_stop : ℕ → Call
  dev_close : ℕ → Call
  sleep : ℕ → Call
  link_get : ℕ → Call

-- The information of a port, which is not always got, and how a call ends: whether it succeeds, and
-- for the link whether it is up.
pub record Nic (D : Type 0) : Type 0 where
  pub dev_info : ℕ → D → Option DevInfo
  pub perform : Call → D → Bool × D

pub record Dev (D : Type 0) : Type 0 where
  pub env : D
  pub calls : List Call

-- The exceptions.
pub data SetupError : Type 0 where
  no_dev_info no_rx_cksum no_tx_ipv4_cksum no_tx_tcp_udp_cksum : SetupError
  configure_failed rx_queue_failed tx_queue_failed start_failed link_down : SetupError

-- UINT16_MAX
abbrev pub invalid_port_id : ℕ
invalid_port_id = 65_535

-- A result, or an exception.
pub data Ended (A : Type 0) : Type 0 where
  done : A → Ended A
  thrown : SetupError → Ended A

abbrev pub check_capa : ℕ → ℕ → Bool
check_capa capa flag = bit_and capa flag == flag

abbrev pub check_cnt : ℕ
check_cnt = 100

abbrev pub sleep_us : ℕ
sleep_us = 100_000

abbrev pub put_port : (ℕ → ℕ) → ℕ → ℕ → ℕ → ℕ
put_port ports i port k = if k == i then port else ports k

module _ {D : Type 0} (nic : Nic D) where
  abbrev pub call : Call → Dev D → Bool × Dev D
  call c d =
      let (ok, env) = nic.perform c d.env in (ok, record { env = env; calls = d.calls ++ (c ∷ []) })

  -- `set_capabilities`, once the information is got
  unfoldable pub offloads_of : Flags → DevInfo → Ended DevConf
  offloads_of flags info =
      if check_capa info.rx_offload_capa flags.rx_cksum
      then if check_capa info.tx_offload_capa flags.tx_ipv4_cksum
        then if check_capa info.tx_offload_capa flags.tx_tcp_udp_cksum
          then done (record {
            rx_offloads = bit_or 0 flags.rx_cksum;
            tx_offloads =
                let needed = bit_or (bit_or 0 flags.tx_ipv4_cksum) flags.tx_tcp_udp_cksum in
                if check_capa info.tx_offload_capa flags.tx_fast_free
                then bit_or needed flags.tx_fast_free
                else needed;
          })
          else thrown no_tx_tcp_udp_cksum
        else thrown no_tx_ipv4_cksum
      else thrown no_rx_cksum

  unfoldable pub set_capabilities : Flags → Config → Dev D → Ended DevConf
  set_capabilities flags cfg d = elim (nic.dev_info cfg.port_id d.env) [
    | none ↦ thrown no_dev_info
    | some info ↦ offloads_of flags info
  ]

  -- The calls up to the first that fails, and the exception of that.
  unfoldable pub calls_all : List (Call × SetupError) → Dev D → Ended Unit × Dev D
  calls_all [] d = (done tt, d)
  calls_all ((c, e) ∷ cs) d =
      let (ok, d') = call c d in let rest = calls_all cs d' in if ok then rest else (thrown e, d')

  abbrev pub setup_calls : Config → DevConf → List (Call × SetupError)
  setup_calls cfg conf =
      (configure cfg.port_id conf, configure_failed)
      ∷ (rx_queue_setup cfg.port_id cfg.queue_size conf.rx_offloads, rx_queue_failed)
      ∷ (tx_queue_setup cfg.port_id cfg.queue_size conf.tx_offloads, tx_queue_failed)
      ∷ []

  -- `configure`
  unfoldable pub configure_dev : Config → DevConf → Dev D → Ended Unit × Dev D
  configure_dev cfg conf = calls_all (setup_calls cfg conf)

  -- The loop of `start`, with `n` more rounds, while the link is not up.
  unfoldable pub wait_link : ℕ → ℕ → Dev D → Bool × Dev D
  wait_link zero port d = (false, d)
  wait_link (suc n) port d =
      let (up, d') = call (link_get port) (call (sleep sleep_us) d).1 in
      let rest = wait_link n port d' in if up then (true, d') else rest

  unfoldable pub start : Config → Dev D → Ended Unit × Dev D
  start cfg d =
      let (ok, d') = call (dev_start cfg.port_id) d in
      let (up, d'') = wait_link check_cnt cfg.port_id d' in
      if ok
      then (if up then (done tt, d'') else (thrown link_down, (call (dev_stop cfg.port_id) d'').1))
      else (thrown start_failed, d')

  -- The end of the constructor: the scope's guard closes the device where the start throws.
  abbrev pub started : Config → Ended Unit × Dev D → Ended ℕ × Dev D
  started cfg (done _, d) = (done cfg.port_id, d)
  started cfg (thrown e, d) = (thrown e, (call (dev_close cfg.port_id) d).1)

  abbrev pub configured : Config → Ended Unit × Dev D → Ended ℕ × Dev D
  configured cfg (done _, d) = started cfg (start cfg d)
  configured cfg (thrown e, d) = (thrown e, d)

  abbrev pub with_conf : Config → Ended DevConf → Dev D → Ended ℕ × Dev D
  with_conf cfg (done conf) d = configured cfg (configure_dev cfg conf d)
  with_conf cfg (thrown e) d = (thrown e, d)

  -- The constructor; the device's `port_id_` after it.
  unfoldable pub make_dev : Flags → Config → Dev D → Ended ℕ × Dev D
  make_dev flags cfg d = with_conf cfg (set_capabilities flags cfg d) d

  -- The destructor.
  unfoldable pub destroy_dev : ℕ → Dev D → Dev D
  destroy_dev port d =
      if port == invalid_port_id then d else (call (dev_close port) (call (dev_stop port) d).1).1

  -- The move assignment of device `j` to device `i`, of devices with the ports `ports`: a
  -- temporary takes the port of `j` and swaps it for that of `i`, which goes with the temporary.
  unfoldable pub assign_dev : ℕ → ℕ → (ℕ → ℕ) → Dev D → (ℕ → ℕ) × Dev D
  assign_dev i j ports d =
      let tmp = ports j in
      let ports' = put_port ports j invalid_port_id in
      (put_port ports' i tmp, destroy_dev (ports' i) d)
