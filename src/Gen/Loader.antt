-- ===== src/Gen/Loader.antt =====
-- The capture loader (gen/priv/tcap_loader.cpp) where gen/priv/flows_generator.cpp uses it: it opens
-- the file of a configuration, and its mbufs are those of the generation's operations. The files,
-- what of an mbuf a packet shows, and the texts of the exceptions are a parameter.
pub mod Works
pub mod Contents
mod Tests
use Prim.Native.String.{String}
use traffic_generator.Base.{ℕ, suc, Option, none, some, List, [], map, length}
use traffic_generator.Gen.Ops.{Mbuf}
use traffic_generator.Gen.World.{Dpdk, World, alloc_mbuf}
use traffic_generator.Gen.Build.{Platform, Built, built, thrown, stuck}
use traffic_generator.Gen.Capture.{
  File, OpenError, open_tcap, Seg, Chain, TcapPkt, LoadFault, Loaded, loaded, failed, no_fuel,
  load_all,
}
use traffic_generator.Gen.Flows.Load.{Captured}

-- What the loader works with: the files that can be opened, the tailroom of an mbuf that is new,
-- `rte_pktmbuf_free` of a chain of mbufs, a packet as the generator reads it, and what the
-- exceptions say.
pub record Medium (E : Type 0) : Type 0 where
  pub file_of : String → Option File
  pub tailroom : Mbuf → ℕ
  pub pktmbuf_free : List Seg → E → E
  pub mbuf_of : Chain → Mbuf
  pub what_open : OpenError → String → String
  pub what_load : LoadFault → String → String

module _ {E : Type 0} (dpdk : Dpdk E) (md : Medium E) where
  abbrev pub room_of : Option Mbuf × World E → Option ℕ × World E
  room_of (none, w) = (none, w)
  room_of (some m, w) = (some (md.tailroom m), w)

  -- `alloc_mbuf` of the operations, as the loader sees it.
  unfoldable pub alloc_room : World E → Option ℕ × World E
  alloc_room w = room_of (alloc_mbuf dpdk w)

  unfoldable pub free_chain : List Seg → World E → World E
  free_chain ss w = record w { env = md.pktmbuf_free ss w.env }

  abbrev pub captured_of : TcapPkt → Captured
  captured_of p = record { tstamp = p.tstamp; mbuf = md.mbuf_of p.chain }

  -- The end of the loop; a failure that is not the end of the file is thrown.
  abbrev pub caught : String → Loaded (World E) (List TcapPkt) → Built (World E) (List Captured)
  caught name (loaded pkts f w) = built (map captured_of pkts) w
  caught name (failed e f w) = thrown (md.what_load e name) w
  caught name no_fuel = stuck

  -- The loop on what the constructor of the loader gives.
  abbrev pub read_opened :
      String → Option File × Option OpenError → World E → Built (World E) (List Captured)
  read_opened name (some f, e) w =
      caught name (load_all alloc_room free_chain (suc (length f.bytes)) [] f w)
  read_opened name (none, some e) w = thrown (md.what_open e name) w
  read_opened name (none, none) w = stuck

  -- The first part of `load_pkts`, which reads the capture.
  unfoldable pub load_captured : String → World E → Built (World E) (List Captured)
  load_captured name w = read_opened name (open_tcap (md.file_of name)) w

-- The platform whose captures the loader reads.
abbrev pub with_loader : {E : Type 0} → Medium E → Platform E → Platform E
with_loader md pf = record pf { load_captured = load_captured pf.dpdk md }
