-- ===== src/Gen/Tests.antt =====
-- Tests of a generator of two packets, which serves two clients and one server in bursts of one
-- flow, alone and in a manager whose device takes every packet.
use Prim.Native.String.{String}
use traffic_generator.Base.{
  ltb, ℕ, ◌+◌, ◌*◌, ◌/◌, ◌≡◌, refl, true, false, Option, none, some, List, [], ◌∷◌, ◌++◌, length,
  All, ◌==◌, if◌then◌else◌, arith,
}
use traffic_generator.Put.Ring.{init}
use traffic_generator.Put.Assert.{not, IsIntended}
use traffic_generator.Put.Cycles.{from_micros}
use traffic_generator.Gen.Ops.{Mbuf, GenerationOps}
use traffic_generator.Gen.Rotation.{Range, Place, IsRange, place_after}
use traffic_generator.Gen.Handle.{Store, no_handle, assign_handle, assign_handle-diverges}
use traffic_generator.Gen.Flows.{
  Pkt, Flow, FlowsGenerator, setup_flow_events, scheduled, diverges, too_many_flows, on_flow_event,
  on_events,
}
use traffic_generator.Gen.Flows.Setup.{
  schedule_all, setup_flow_events-scheduled, setup_flow_events-diverges, Assigns,
}
use traffic_generator.Gen.Flows.Event.{IsBuilt, Fires, on_flow_event-Fires}
use traffic_generator.Gen.Flows.Run.{IsRunning, Ran, on_events-Ran}
use traffic_generator.Gen.World.{Dpdk, World}
use traffic_generator.Gen.Manager.{
  shape, built, Platform, Manager, Built, stop_generation, generate, fire,
}
use traffic_generator.Gen.Manager.Fire.{Fired, InShape, fire-Fired}
use traffic_generator.Gen.Manager.Turn.{
  Stops, Orderly, Turned, stop_generation_lem, generate-Turned,
}
use traffic_generator.Gen.Flows.Load.{Captured}
use traffic_generator.Mgmt.Config.{Net}

abbrev pub an_mbuf : Mbuf
an_mbuf = record {
  pkt_len = 60;
  data_len = 60;
  ether_src = 1;
  ether_dst = 2;
  ether_type = 0x0800;
  version_ihl = 0x45;
  next_proto_id = 17;
  src_addr = 0;
  dst_addr = 0;
  src_port = 0;
  dst_port = 0;
  ol_flags = 0;
  l2_len = 0;
  l3_len = 0;
  body = 0;
}

abbrev request_pkt : Pkt
request_pkt = record { rel_tsc = 10; mbuf = an_mbuf; from_cln = true }

abbrev answer_pkt : Pkt
answer_pkt = record { rel_tsc = 30; mbuf = an_mbuf; from_cln = false }

abbrev clients : Range
clients = record { begin = 100; end = 102 }

abbrev servers : Range
servers = record { begin = 200; end = 201 }

clients-IsRange : IsRange clients
clients-IsRange = record { nonempty = omega arith; word = omega arith }

servers-IsRange : IsRange servers
servers-IsRange = record { nonempty = omega arith; word = omega arith }

abbrev flow_at : ℕ → ℕ → Flow
flow_at i pkt_idx = record {
  idx = i;
  pkt_idx = pkt_idx;
  cln_ip_addr = 100 + i;
  srv_ip_addr = 200;
  cnt_pkts = 0;
  cnt_bytes = 0;
  tstamp_beg = 0;
  tstamp_end = 0;
}

abbrev two_flows : FlowsGenerator
two_flows = record {
  pkts = request_pkt ∷ answer_pkt ∷ [];
  flows = flow_at 0 0 ∷ flow_at 1 1 ∷ [];
  cln_ip_addrs = clients;
  srv_ip_addrs = servers;
  idx = 0;
  place = record { cln_ip_addr = 100; srv_ip_addr = 200; burst_idx = 0 };
  burst_cnt = 1;
}

two_flows-IsBuilt : IsBuilt two_flows
two_flows-IsBuilt = record {
  some_pkt = omega arith;
  few_pkts = omega arith;
  cln = clients-IsRange;
  srv = servers-IsRange;
  some_burst = omega arith;
  burst_word = omega arith;
}

two_flows-IsRunning : IsRunning two_flows 2
unfolding place_after
two_flows-IsRunning = record {
  built = two_flows-IsBuilt;
  at = (omega arith, (omega arith, tt));
  place = refl;
}

-- A manager that writes down when each flow is scheduled.
abbrev log_ops : GenerationOps (List (ℕ × ℕ))
log_ops = record {
  alloc_mbuf = λ w. (some an_mbuf, w);
  copy_pkt = λ m w. (some m, w);
  send_pkt = λ m w. w;
  do_report = λ r w. w;
  current = λ w. length w;
  assign_event = λ i w. some w;
  schedule_single = λ i tm w. w ++ ((i, tm) ∷ []);
}

abbrev same_log : ℕ → List (ℕ × ℕ) → List (ℕ × ℕ)
same_log i w = w

log_ops-Assigns : Assigns log_ops same_log
log_ops-Assigns i w = refl

-- Two flows a second on a timer of 1 MHz are half a million cycles apart.
setup_flow_events_example :
    setup_flow_events log_ops
      (request_pkt ∷ answer_pkt ∷ [])
      1_000_000
      (flow_at 0 0 ∷ flow_at 1 0 ∷ [])
      []
    ≡ (if 500_000 == 0
        then too_many_flows
        else scheduled (
            schedule_all log_ops same_log log_ops-Assigns request_pkt
              (answer_pkt ∷ [])
              500_000
              0
              (flow_at 0 0 ∷ flow_at 1 0 ∷ [])
              []))
unfolding from_micros
setup_flow_events_example =
    setup_flow_events-scheduled log_ops same_log log_ops-Assigns request_pkt (answer_pkt ∷ [])
      500_000 1_000_000 (flow_at 0 0 ∷ flow_at 1 0 ∷ []) [] (refl, (refl, tt)) (omega arith) step
  where
    step : 500_000 ≡ from_micros 1_000_000 (1_000_000 / 2)
    step = refl

on_flow_event_example :
    (out : Flow × Place × List (ℕ × ℕ)) × (on_flow_event
        (λ a. a)
        7
        log_ops
        two_flows
        (flow_at 1 1)
        []
      ≡ some out)
    × Fires (λ a. a) 7 log_ops two_flows (flow_at 1 1) 2 [] out
unfolding place_after
on_flow_event_example =
    on_flow_event-Fires (λ a. a) 7 log_ops two_flows (flow_at 1 1) 2 [] two_flows-IsBuilt
      (omega arith) refl

on_events_example :
    (g' : FlowsGenerator) × (w' : List (ℕ × ℕ)) × (on_events
        (λ a. a)
        7
        log_ops
        two_flows
        (0 ∷ 1 ∷ 0 ∷ [])
        []
      ≡ some (g', w'))
    × Ran (λ a. a) 7 log_ops two_flows 2 (0 ∷ 1 ∷ 0 ∷ []) g'
on_events_example =
    on_events-Ran (λ a. a) 7 log_ops two_flows 2 (0 ∷ 1 ∷ 0 ∷ []) [] two_flows-IsRunning
      (omega arith, (omega arith, (omega arith, tt)))

-- A device that sends and receives all at once, with a clock that stands at 5'000 cycles, on
-- which the timer of the generator's second flow expired.
abbrev test_dpdk : Dpdk ℕ
test_dpdk = record {
  pktmbuf_alloc = λ e. (some an_mbuf, e);
  pktmbuf_copy = λ m e. (some m, e);
  pktmbuf_free_bulk = λ ms e. e;
  eth_tx_burst = λ ms e. (length ms, e + length ms);
  eth_rx_burst = λ n e. ([], e);
  eth_stats_get = λ e. record {
    ipackets = 0;
    opackets = e;
    ibytes = 0;
    obytes = 60 * e;
    imissed = 0;
    ierrors = 0;
    oerrors = 0;
    rx_nombuf = 0;
  };
  eth_stats_reset = λ e. (true, 0);
  timer_cycles = λ e. 5_000;
  timer_reset = λ k i tm e. e;
  timer_stop = λ k i e. (true, e);
  timers_expired = λ ns e. elim ns [ [] ↦ [] | n ∷ ns' ↦ if ltb 1 n then (0, 1) ∷ [] else [] ];
  mac_addr = λ e. 10;
}

abbrev pub test_world : World ℕ
test_world = record {
  env = 0;
  out_queue = init;
  cnt_timers = 2;
  tx_pkts = [];
  cnt_tx_pkts_qfull = 0;
  cnt_tx_pkts_nombuf = 0;
}

-- A generation of a million cycles, just started.
abbrev running : Manager ℕ
running = record {
  world = test_world;
  generators = two_flows ∷ [];
  gen_cycles = some (record { begin = 4_000; duration = 1_000_000 });
  prev_cycles = 0;
}

running-Orderly : Orderly running
running-Orderly = record { timers = refl; runs = ((2, two_flows-IsRunning), tt); idle = λ e. cc }

abbrev test_move : World ℕ → Option (World ℕ)
test_move w = some w

abbrev test_hosts : Net → Range
test_hosts net = record { begin = net.addr; end = net.addr + 2 }

abbrev test_load : String → World ℕ → Built (World ℕ) (List Captured)
test_load name w = built (record { tstamp = 7; mbuf = an_mbuf } ∷ []) w

abbrev as_is : ℕ → ℕ
as_is a = a

abbrev pub test_platform : Platform ℕ
test_platform = record {
  dpdk = test_dpdk;
  hz = 1_000_000;
  native_to_big = as_is;
  tx_flags = 7;
  move_assign = test_move;
  hosts = test_hosts;
  load_captured = test_load;
  what_of = λ e. "no good";
  native_to_big16 = as_is;
  big_to_native16 = as_is;
  aborts = not;
}

pub not-IsIntended : IsIntended not
not-IsIntended = refl

pub test-Stops : Stops test_platform
test-Stops k i e = refl

expired-InShape :
    All (InShape (shape running.generators)) (test_dpdk.timers_expired (shape running.generators) 0)
expired-InShape = ((2, refl, omega arith), tt)

stop_generation_example :
    (m' : Manager ℕ) × (stop_generation test_platform running ≡ some m')
    × Orderly m'
    × (m'.gen_cycles ≡ none)
    × (m'.world.out_queue ≡ running.world.out_queue)
    × (m'.world.tx_pkts ≡ running.world.tx_pkts)
stop_generation_example =
    stop_generation_lem test_platform not-IsIntended test-Stops running running-Orderly

generate_example :
    (m' : Manager ℕ) × (generate test_platform running ≡ some m') × Turned test_platform running m'
generate_example =
    generate-Turned test_platform not-IsIntended test-Stops running running-Orderly (λ e. cc)
      expired-InShape

fire_example :
    (m' : Manager ℕ) × (fire test_platform ((0, 1) ∷ (0, 0) ∷ []) running ≡ some m')
    × Fired test_platform running m'
fire_example =
    fire-Fired test_platform ((0, 1) ∷ (0, 0) ∷ []) running ((2, two_flows-IsRunning), tt)
      ((2, refl, omega arith), ((2, refl, omega arith), tt))

-- A manager whose handles are never assigned.
abbrev stuck_ops : GenerationOps (List (ℕ × ℕ))
stuck_ops = record log_ops { assign_event = λ i w. none }

setup_flow_events-diverges_example :
    setup_flow_events stuck_ops (request_pkt ∷ []) 1_000_000 (flow_at 0 0 ∷ []) [] ≡ diverges
unfolding from_micros
setup_flow_events-diverges_example =
    setup_flow_events-diverges stuck_ops (request_pkt ∷ []) 1_000_000 (flow_at 0 0) [] []
      (λ i v. refl) (omega arith) (omega arith)

abbrev no_handles : Store
no_handles = record { handles = λ i. no_handle; next = 2; cnt_timers = 0 }

assign_handle_example : assign_handle 100 0 1 no_handles ≡ none
assign_handle_example = assign_handle-diverges 100 0 1 no_handles
