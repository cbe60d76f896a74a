-- ===== src/System/Tests.antt =====
-- A test of the two managers: a start, a turn of each and a stop, on a device that takes every
-- packet, with a request's body that is always read as the same configuration.
use Prim.Native.String.{String}
use traffic_generator.Mgmt.Queue.{out_pow2}
use traffic_generator.Base.{
  ℕ, ◌+◌, ◌≤◌, ◌≡◌, refl, ap, Bool-cases, ltb, none, some, List, [], ◌∷◌, drop, min, All, ◌⊎◌, inl,
  inr, arith,
}
use mathlib.Core.Path.{subst}
use traffic_generator.Put.Ring.{Ring, init}
use traffic_generator.Put.Ring.Holds.{Holds, init-Holds}
use traffic_generator.Gen.Tests.{test_platform, not-IsIntended, test-Stops, an_mbuf}
use traffic_generator.Gen.Manager.{Platform}
use traffic_generator.Gen.Manager as Gen
use traffic_generator.Gen.Manager.Fire.{InShape}
use traffic_generator.Gen.Manager.Turn.{Orderly}
use traffic_generator.Gen.Manager.Start.{Works, Loads, reads, IsStartable}
use traffic_generator.Gen.Manager.Answer.{CanServe, Handled}
use traffic_generator.Mgmt.Config.{GenConfig}
use traffic_generator.Mgmt.Config.Parse.Tests.{
  json_test, net_test, addr_test, millis_test, loaded, loaded_eq,
}
use traffic_generator.Mgmt.Messages.{
  OutMsg, IncMsg, req_start_generation, out_capacity, inc_capacity,
}
use traffic_generator.Mgmt.Protocol.{Exchange, asks, asked, answered}
use traffic_generator.System.{System, Turn, mgmt_turn, genr_turn, passes, run, start_system}
use traffic_generator.System.Run.{TurnStartable}
use traffic_generator.System.Settled.{Settled, run_lem}
use traffic_generator.System.Reading.{read_config, or_what, read_config-IsStartable}
use traffic_generator.Gen.Manager.Settled.{
  Documented, IsFaulty, on_inc_msg-Settled, process_events-Settled,
}
use traffic_generator.Put.Assert.{tg_enforce}
use traffic_generator.Gen.World.{World}

abbrev a_cfg : GenConfig
a_cfg = record {
  duration = 1;
  dut_addr = [];
  flows_cfgs =
      record {
        name = "a.tcap";
        burst = 1;
        flows_per_sec = 2;
        inter_pkts_gap = none;
        cln_ips = record { addr = 100; prefix_len = 30 };
        srv_ips = record { addr = 200; prefix_len = 30 };
        cln_port = none;
      }
      ∷ [];
}

abbrev pub read_a_cfg : String → String ⊎ GenConfig
read_a_cfg text = inr a_cfg

a_cfg-IsStartable : All (IsStartable test_platform.hosts) a_cfg.flows_cfgs
a_cfg-IsStartable = (
  record {
    some_burst = omega arith;
    burst_word = omega arith;
    some_flow = omega arith;
    cln = record { nonempty = omega arith; word = omega arith };
    srv = record { nonempty = omega arith; word = omega arith };
  },
  tt,
)

pub a_cfg-read :
    (text : String) (cfg : GenConfig)
    → read_a_cfg text ≡ inr cfg
    → All (IsStartable test_platform.hosts) cfg.flows_cfgs
a_cfg-read text cfg e =
    subst (λ (c : GenConfig). All (IsStartable test_platform.hosts) c.flows_cfgs)
      (ap (λ r. elim r [ inl _ ↦ a_cfg | inr c ↦ c ]) e) a_cfg-IsStartable

expired_lem : (ns : List ℕ) (e : ℕ) → All (InShape ns) (test_platform.dpdk.timers_expired ns e)
expired_lem [] e = tt
expired_lem (n ∷ ns) e = elim (Bool-cases (ltb 1 n)) [
  | inl more ↦ rw more ((n, refl, ground (arith, more)), tt)
  | inr one ↦ rw one tt
]

test-Loads : (name : String) (w : World ℕ) → Loads w (test_platform.load_captured name w)
test-Loads name w =
    reads (record { tstamp = 7; mbuf = an_mbuf } ∷ []) w (omega arith)
      (record { timers = refl; queue = refl; tx = refl })

pub test-Works : Works test_platform
test-Works = record {
  intended = not-IsIntended;
  stops = test-Stops;
  expired = expired_lem;
  move = λ w. (w, refl, record { timers = refl; queue = refl; tx = refl });
  loads = test-Loads;
}

pub test-Documented : Documented test_platform
test-Documented = record {
  stops = test-Stops;
  expired = expired_lem;
  move = inr (λ w. (w, refl, record { timers = refl; queue = refl; tx = refl }));
  loads = test-Loads;
}

-- The assertion and the assignment of a handle as they are written.
abbrev pub written : Platform ℕ
written = record test_platform { aborts = tg_enforce; move_assign = λ w. none }

pub written-Documented : Documented written
written-Documented = record {
  stops = test-Stops;
  expired = expired_lem;
  move = inl (λ w. refl);
  loads = test-Loads;
}

abbrev a_request : String → ℕ → Turn ℕ
a_request target cb = mgmt_turn (some (record { target = target; body = ""; cb = cb }))

abbrev some_turns : List (Turn ℕ)
some_turns =
    a_request "/start_gen" 1
    ∷ genr_turn
    ∷ a_request "/get_stats" 2
    ∷ passes (λ e. e + 1)
    ∷ genr_turn
    ∷ a_request "/stop_gen" 3
    ∷ genr_turn
    ∷ mgmt_turn none
    ∷ []

some_turns-Startable : All (TurnStartable test_platform.hosts read_a_cfg) some_turns
some_turns-Startable =
    (a_cfg-read "", (tt, (a_cfg-read "", (tt, (tt, (a_cfg-read "", (tt, (tt, tt))))))))

run_example :
    (IsFaulty test_platform × (run test_platform read_a_cfg some_turns (start_system 0) ≡ none))
    ⊎ ((s : System ℕ) × (run test_platform read_a_cfg some_turns (start_system 0) ≡ some s)
        × Settled test_platform read_a_cfg some_turns s)
run_example = run_lem test_platform read_a_cfg some_turns 0 test-Documented some_turns-Startable

-- The program as it is written.
run-written :
    (IsFaulty written × (run written read_a_cfg some_turns (start_system 0) ≡ none))
    ⊎ ((s : System ℕ) × (run written read_a_cfg some_turns (start_system 0) ≡ some s)
        × Settled written read_a_cfg some_turns s)
run-written = run_lem written read_a_cfg some_turns 0 written-Documented some_turns-Startable

abbrev fresh_system : System ℕ
fresh_system = start_system 0

idle-Orderly : Orderly fresh_system.genr
idle-Orderly = record { timers = refl; runs = tt; idle = λ e. refl }

on_inc_msg-Settled_example :
    (IsFaulty test_platform
      × (Gen.on_inc_msg test_platform fresh_system.genr (req_start_generation a_cfg) ≡ none))
    ⊎ ((m' : Gen.Manager ℕ) × (Gen.on_inc_msg test_platform fresh_system.genr
            (req_start_generation a_cfg)
          ≡ some m')
        × Handled fresh_system.genr (λ x. asks x (req_start_generation a_cfg)) m')
unfolding CanServe
on_inc_msg-Settled_example =
    on_inc_msg-Settled test_platform fresh_system.genr (req_start_generation a_cfg) test-Documented
      idle-Orderly a_cfg-IsStartable

process_events-Settled_example :
    (IsFaulty test_platform × (Gen.process_events test_platform fresh_system.genr init ≡ none))
    ⊎ ((m' : Gen.Manager ℕ) × (inc_queue' : Ring OutMsg) × (n : ℕ) × (Gen.process_events
            test_platform fresh_system.genr init
          ≡ some (m', inc_queue'))
        × (n ≤ 8)
        × (min 1 0 ≤ n)
        × Holds out_capacity inc_queue' (drop n [])
        × Orderly m'
        × (m'.world.tx_pkts ≡ [])
        × ((inc : List IncMsg)
            → Holds inc_capacity init inc
            → (inc' : List IncMsg) × Holds inc_capacity m'.world.out_queue inc'
              × ((x : Exchange)
                  → asked x (drop n []) + answered x inc' ≤ asked x [] + answered x inc)))
process_events-Settled_example =
    process_events-Settled test_platform fresh_system.genr init [] test-Documented idle-Orderly refl
      tt (init-Holds out_pow2)

read_config_example : All (IsStartable test_platform.hosts) loaded.flows_cfgs
unfolding read_config
read_config_example =
    read_config-IsStartable json_test net_test addr_test millis_test (λ e. "no good") test_platform
      "" loaded (ap (or_what json_test net_test addr_test millis_test (λ e. "no good")) loaded_eq)
      (record { nonempty = omega arith; word = omega arith }, tt)
