-- ===== src/Gen/Flows/Load.antt =====
-- `load_pkts` of gen/priv/flows_generator.cpp, on the packets that the capture loader read up to
-- the end of the file. Ethernet addresses are numbers, and a header's fields are in the byte order
-- of the network, which `native_to_big` and `big_to_native` of 16 bits pass to and from.
pub mod Checked
mod Tests
use Prim.Native.Nat.{bit_and}
use traffic_generator.Base.{
  ℕ, zero, suc, ◌+◌, ◌*◌, ◌≤◌, ◌<◌, ◌≡◌, refl, sym, ap, ◌∙◌, Bool, true, false, Bool-cases, Option,
  none, some, List, [], ◌∷◌, length, get_elem?, leb, ◌==◌, if◌then◌else◌, ◌⊎◌, inl, inr, arith,
}
use traffic_generator.Base.Words.{add64, sub64}
use traffic_generator.Put.Cycles.{from_micros}
use traffic_generator.Gen.Ops.{Mbuf}
use traffic_generator.Gen.Flows.{Pkt, ipv4_hdr_len, ether_hdr_len}

-- `tcap_loader::pkt`, its time in microseconds.
pub record Captured : Type 0 where
  pub tstamp : ℕ
  pub mbuf : Mbuf

-- `if_gap`, in microseconds
abbrev pub if_gap : ℕ
if_gap = 100_000

abbrev pub or_first : Option ℕ → ℕ → ℕ
or_first none t = t
or_first (some first) t = first

-- The time that a packet gets, and the one that the next gets if a gap is asked for.
abbrev pub stamp_of : Option ℕ → ℕ → ℕ → ℕ
stamp_of none ipg_tstamp tstamp = tstamp
stamp_of (some gap) ipg_tstamp tstamp = ipg_tstamp

abbrev pub next_stamp : Option ℕ → ℕ → ℕ
next_stamp none ipg_tstamp = ipg_tstamp
next_stamp (some gap) ipg_tstamp = add64 ipg_tstamp gap

module _ (hz : ℕ) where
  -- The loop that loads the packets: the gap between packets that is asked for, if any, the time
  -- that it gives the next packet, and `prev_tstamp`.
  pub time_pkts : Option ℕ → ℕ → Option ℕ → List Captured → List Pkt
  time_pkts ipg ipg_tstamp prev [] = []
  time_pkts ipg ipg_tstamp prev (c ∷ cs) =
      let tstamp = stamp_of ipg ipg_tstamp c.tstamp in
      let next = next_stamp ipg ipg_tstamp in
      let first = or_first prev tstamp in
      let rest = time_pkts ipg next (some first) cs in
      record {
        rel_tsc = from_micros hz (sub64 (add64 if_gap tstamp) first);
        mbuf = c.mbuf;
        from_cln = false;
      }
      ∷ rest

-- The exceptions.
pub data LoadError : Type 0 where
  too_short no_pkts : LoadError
  non_ipv4 : ℕ → LoadError

-- What the loop asks of the configuration.
pub record LoadConfig : Type 0 where
  pub cln_ether_addr : ℕ
  pub srv_ether_addr : ℕ
  pub cln_port : Option ℕ

-- RTE_ETHER_TYPE_IPV4, and the sizes of the headers.
abbrev pub ether_type_ipv4 : ℕ
ether_type_ipv4 = 0x0800

abbrev pub ipv4_hdr_size : ℕ
ipv4_hdr_size = 20

module _ (native_to_big big_to_native : ℕ → ℕ) (cfg : LoadConfig) where
  -- The direction of a packet, and its new Ethernet addresses.
  abbrev pub direct : ℕ → Pkt → Pkt
  direct cln pkt =
      let fc = cln == pkt.mbuf.ether_src in
      record pkt {
        from_cln = fc;
        mbuf = record (pkt.mbuf) {
          ether_src = if fc then cfg.cln_ether_addr else cfg.srv_ether_addr;
          ether_dst = if fc then cfg.srv_ether_addr else cfg.cln_ether_addr;
        };
      }

  -- `set_cport`
  abbrev pub set_cport : ℕ → Pkt → Pkt
  set_cport port pkt = record pkt {
    mbuf = record (pkt.mbuf) {
      src_port = if pkt.from_cln then native_to_big port else pkt.mbuf.src_port;
      dst_port = if pkt.from_cln then pkt.mbuf.dst_port else native_to_big port;
    };
  }

  -- A transport header of so many bytes, after the IP header.
  pub set_cport_if : ℕ → ℕ → Pkt → LoadError ⊎ Pkt
  unfolding ipv4_hdr_len
  set_cport_if size port pkt =
      if leb (ether_hdr_len + ipv4_hdr_len pkt.mbuf.version_ihl + size) pkt.mbuf.data_len
      then inr (set_cport port pkt)
      else inl too_short

  -- The `switch` on the protocol.
  pub port_pkt : Option ℕ → Pkt → LoadError ⊎ Pkt
  unfolding set_cport_if
  port_pkt none pkt = inr pkt
  port_pkt (some port) pkt =
      if pkt.mbuf.next_proto_id == 6
      then set_cport_if 20 port pkt
      else (if pkt.mbuf.next_proto_id == 17 then set_cport_if 8 port pkt else inr pkt)

  -- A round of the loop that verifies the packets, `cln` being the client's address.
  pub check_pkt : ℕ → Pkt → LoadError ⊎ Pkt
  unfolding port_pkt
  check_pkt cln pkt =
      if leb ether_hdr_len pkt.mbuf.data_len
      then (if big_to_native pkt.mbuf.ether_type == ether_type_ipv4
          then (if leb (ether_hdr_len + ipv4_hdr_size) pkt.mbuf.data_len
              then port_pkt cfg.cln_port (direct cln pkt)
              else inl too_short)
          else inl (non_ipv4 (big_to_native pkt.mbuf.ether_type)))
      else inl too_short

  -- The loop; the first packet's source is the client.
  pub check_pkts : Option ℕ → List Pkt → LoadError ⊎ List Pkt
  check_pkts cln [] = inr []
  check_pkts cln (pkt ∷ pkts) =
      let addr = or_first cln pkt.mbuf.ether_src in
      let rest = check_pkts (some addr) pkts in
      elim (check_pkt addr pkt) [
        | inl e ↦ inl e
        | inr out ↦ elim rest [ inl e ↦ inl e | inr outs ↦ inr (out ∷ outs) ]
      ]

  -- The rest of `load_pkts`.
  pub load_checked : List Pkt → LoadError ⊎ List Pkt
  unfolding check_pkts
  load_checked [] = inl no_pkts
  load_checked (pkt ∷ pkts) = check_pkts none (pkt ∷ pkts)

-- `load_pkts`
pub load_pkts :
    (hz : ℕ) (native_to_big big_to_native : ℕ → ℕ)
    → LoadConfig
    → Option ℕ
    → List Captured
    → LoadError ⊎ List Pkt
unfolding time_pkts load_checked
load_pkts hz native_to_big big_to_native cfg ipg captured =
    load_checked native_to_big big_to_native cfg (time_pkts hz ipg 0 none captured)
