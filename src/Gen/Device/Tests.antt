-- ===== src/Gen/Device/Tests.antt =====
-- A test of a device whose link comes up at the third look.
use traffic_generator.Base.{
  ℕ, suc, ◌+◌, ◌<◌, ◌≡◌, refl, Bool, true, false, some, [], ◌∷◌, ◌++◌, leb, ◌==◌, if◌then◌else◌,
  ◌⊎◌,
}
use traffic_generator.Gen.Device.{
  Flags, Config, Nic, Dev, Call, sleep, link_get, dev_stop, dev_close, wait_link, make_dev,
  assign_dev, invalid_port_id, calls_all, configure_dev, start, set_capabilities, offloads_of, done,
}
use traffic_generator.Gen.Device.Setup.{is_up_at, DownBefore, after, wait_link-first}
use traffic_generator.Gen.Device.Owner.{Made, make_dev-Made, assign_dev_lem}

-- The state is the number of sleeps.
abbrev outcome : Call → ℕ → Bool × ℕ
outcome (sleep us) n = (true, n + 1)
outcome (link_get p) n = (leb 3 n, n)
outcome _ n = (true, n)

abbrev slow_nic : Nic ℕ
slow_nic = record {
  dev_info = λ p n. some (record { rx_offload_capa = 0xff; tx_offload_capa = 0xff });
  perform = outcome;
}

abbrev fresh : Dev ℕ
fresh = record { env = 0; calls = [] }

abbrev some_flags : Flags
some_flags = record { rx_cksum = 14; tx_ipv4_cksum = 2; tx_tcp_udp_cksum = 12; tx_fast_free = 256 }

abbrev port_5 : Config
port_5 = record { port_id = 5; queue_size = 512 }

made : (make_dev slow_nic some_flags port_5 fresh).0 ≡ done 5
unfolding make_dev set_capabilities offloads_of configure_dev calls_all start wait_link
made = refl

make_dev_example : Made slow_nic port_5 fresh (make_dev slow_nic some_flags port_5 fresh)
make_dev_example = make_dev-Made slow_nic some_flags port_5 fresh

wait_link_example :
    ((k : ℕ) × (k < 100)
      × (is_up_at slow_nic 5 k fresh ≡ true)
      × DownBefore slow_nic 5 k fresh
      × (wait_link slow_nic 100 5 fresh ≡ (true, after slow_nic 5 (suc k) fresh)))
    ⊎ (DownBefore slow_nic 5 100 fresh
        × (wait_link slow_nic 100 5 fresh ≡ (false, after slow_nic 5 100 fresh)))
wait_link_example = wait_link-first slow_nic 5 100 fresh

abbrev two_ports : ℕ → ℕ
two_ports k = k + 1

assign_dev_example :
    ((k : ℕ)
      → (assign_dev slow_nic 0 1 two_ports fresh).0 k
        ≡ (if k == 0 then 2 else (if k == 1 then invalid_port_id else k + 1)))
    × ((assign_dev slow_nic 0 1 two_ports fresh).1.calls ≡ (dev_stop 1 ∷ []) ++ (dev_close 1 ∷ []))
assign_dev_example = assign_dev_lem slow_nic 0 1 two_ports fresh
