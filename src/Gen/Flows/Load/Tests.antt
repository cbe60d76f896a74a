-- ===== src/Gen/Flows/Load/Tests.antt =====
-- A test of the loading: a request from one side and the answer from the other, two milliseconds
-- later, on a timer of 1 MHz.
use traffic_generator.Base.{ℕ, true, false, some, List, [], ◌∷◌}
use traffic_generator.Gen.Ops.{Mbuf}
use traffic_generator.Gen.Flows.{Pkt}
use traffic_generator.Gen.Flows.Load.{Captured, LoadConfig}

abbrev mbuf_from : ℕ → ℕ → ℕ → Mbuf
mbuf_from src dst port = record {
  pkt_len = 60;
  data_len = 60;
  ether_src = src;
  ether_dst = dst;
  ether_type = 0x0800;
  version_ihl = 0x45;
  next_proto_id = 17;
  src_addr = 0;
  dst_addr = 0;
  src_port = port;
  dst_port = 53;
  ol_flags = 0;
  l2_len = 0;
  l3_len = 0;
  body = 0;
}

abbrev request : Captured
request = record { tstamp = 7_000; mbuf = mbuf_from 1 2 999 }

abbrev answer : Captured
answer = record { tstamp = 9_000; mbuf = mbuf_from 2 1 53 }

abbrev ports_config : LoadConfig
ports_config = record { cln_ether_addr = 10; srv_ether_addr = 20; cln_port = some 1_024 }

abbrev same : ℕ → ℕ
same n = n

abbrev loaded_pkts : List Pkt
loaded_pkts =
    record {
      rel_tsc = 100_000;
      mbuf = record (mbuf_from 10 20 1_024) { dst_port = 53 };
      from_cln = true;
    }
    ∷ record {
      rel_tsc = 102_000;
      mbuf = record (mbuf_from 20 10 53) { dst_port = 1_024 };
      from_cln = false;
    }
    ∷ []
