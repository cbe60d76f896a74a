-- ===== src/Gen/Capture.antt =====
-- gen/priv/tcap_loader.cpp: the loader of a capture's packets, and the loop of `load_pkts` in
-- gen/priv/flows_generator.cpp that calls it up to the end of the file. The words of a file are in
-- the little-endian order of the machine. DPDK's pool, with its state `W`, is a parameter: an
-- allocation gives the tailroom of a new mbuf.
pub mod Bytes
pub mod Reads
pub mod Whole
pub mod Pool
pub mod Ends
pub mod Keeps
pub mod Cut
mod Tests
use traffic_generator.Base.{
  ℕ, zero, suc, ◌+◌, ◌*◌, ◌-◌, ◌%◌, ◌^◌, Bool, true, false, Option, none, some, List, [], ◌∷◌, ◌++◌,
  length, take, drop, min, leb, ◌==◌, ◌&&◌, if◌then◌else◌,
}
use traffic_generator.Put.Assert.{not}

-- A file that is read with stdio: the bytes to come, whether a fault of the medium comes after them
-- in place of the end, and what `feof` says.
pub record File : Type 0 where
  pub bytes : List ℕ
  pub fault : Bool
  pub eof : Bool

abbrev pub file_with : List ℕ → Bool → Bool → File
file_with bytes fault eof = record { bytes = bytes; fault = fault; eof = eof }

-- `fread` of one object of so many bytes; one of no bytes is never read.
unfoldable pub fread : ℕ → File → Option (List ℕ) × File
fread n f =
    if n == 0
    then (none, f)
    else if leb n (length f.bytes)
    then (some (take n f.bytes), record f { bytes = drop n f.bytes })
    else (none, record f { bytes = []; eof = not f.fault })

-- A number of bytes, the least significant first.
abbrev pub le : List ℕ → ℕ
le [] = 0
le (b ∷ bs) = b + 256 * le bs

-- The words of 32 and 16 bits at an offset.
abbrev pub u32_at : ℕ → List ℕ → ℕ
u32_at i bs = le (take 4 (drop i bs))

abbrev pub u16_at : ℕ → List ℕ → ℕ
u16_at i bs = le (take 2 (drop i bs))

-- How a capture cannot be opened.
pub data OpenError : Type 0 where
  no_file no_header invalid_header : OpenError

abbrev pub pcap_magic : ℕ
pcap_magic = 0xa1b2c3d4

-- The constructor: the file after its header, whose magic and version (2.4) are looked at.
unfoldable pub open_tcap : Option File → Option File × Option OpenError
open_tcap none = (none, some no_file)
open_tcap (some f) =
    let (hdr?, f') = fread 24 f in
    elim hdr? [
      | none ↦ (none, some no_header)
      | some hdr ↦
          if (u32_at 0 hdr == pcap_magic) && ((u16_at 4 hdr == 2) && (u16_at 6 hdr == 4))
          then (some f', none)
          else (none, some invalid_header)
    ]

-- An mbuf of a packet: its tailroom when it was allocated, and its data.
pub record Seg : Type 0 where
  pub room : ℕ
  pub data_of : List ℕ

-- A packet that is loaded: `head_room` is of the mbuf allocated first, `filled` are the mbufs that
-- are filled, in order.
pub record Chain : Type 0 where
  pub head_room : ℕ
  pub filled : List Seg
  pub pkt_len : ℕ
  pub nb_segs : ℕ

-- `tcap_loader::pkt`, its time in microseconds
pub record TcapPkt : Type 0 where
  pub tstamp : ℕ
  pub chain : Chain

-- Why a packet is not loaded: a read that fails, EINVAL and ENOMEM.
pub data LoadFault : Type 0 where
  read_failed partial_capture no_mbuf : LoadFault

pub data Loaded (W A : Type 0) : Type 0 where
  loaded : A → File → W → Loaded W A
  failed : LoadFault → File → W → Loaded W A
  no_fuel : Loaded W A

abbrev pub is_nil : {A : Type 0} → List A → Bool
is_nil [] = true
is_nil (x ∷ xs) = false

-- The mbufs of a packet: the first one is there before it is filled.
abbrev pub mbufs : Chain → List Seg
mbufs ch = if is_nil ch.filled then record { room = ch.head_room; data_of = [] } ∷ [] else ch.filled

module _ {W : Type 0} (alloc : W → Option ℕ × W) (free : List Seg → W → W) where
  -- The mbuf that a round fills: the first one, or one that is allocated and linked.
  unfoldable pub next_mbuf : Chain → W → Option (ℕ × Chain) × W
  next_mbuf ch w =
      if is_nil ch.filled
      then (some (ch.head_room, ch), w)
      else let (room?, w') = alloc w in
        elim room? [
          | none ↦ (none, w')
          | some room ↦ (some (room, record ch { nb_segs = (ch.nb_segs + 1) % 2 ^ 16 }), w')
        ]

  abbrev pub filled_with : Chain → ℕ → List ℕ → Chain
  filled_with ch room bytes = record ch {
    filled = ch.filled ++ (record { room = room; data_of = bytes } ∷ []);
    pkt_len = (ch.pkt_len + length bytes) % 2 ^ 32;
  }

  -- The loop over the mbufs, with `left` bytes to read. The guard frees the packet on a failure.
  unfoldable pub read_segs : ℕ → ℕ → Chain → File → W → Loaded W Chain
  unfolding next_mbuf
  read_segs zero left ch f w = if left == 0 then loaded ch f w else no_fuel
  read_segs (suc fuel) left ch f w =
      let (next, w') = next_mbuf ch w in
      elim (left == 0) [
        | true ↦ loaded ch f w
        | false ↦ elim next [
          | none ↦ failed no_mbuf f (free (mbufs ch) w')
          | some (room, ch') ↦
              let (bytes?, f') = fread (min left room) f in
              elim bytes? [
                | none ↦ failed read_failed f' (free (mbufs (filled_with ch' room [])) w')
                | some bytes ↦
                    read_segs fuel (left - min left room) (filled_with ch' room bytes) f' w'
              ]
        ]
      ]

  abbrev stamped : List ℕ → Loaded W Chain → Loaded W TcapPkt
  stamped hdr (loaded ch f w) =
      loaded (record { tstamp = u32_at 0 hdr * 1_000_000 + u32_at 4 hdr; chain = ch }) f w
  stamped hdr (failed e f w) = failed e f w
  stamped hdr no_fuel = no_fuel

  -- What is done with the header of a packet.
  unfoldable pub load_body : List ℕ → File → W → Loaded W TcapPkt
  unfolding read_segs
  load_body hdr f w =
      let caplen = u32_at 8 hdr in
      if caplen == u32_at 12 hdr
      then (let (room?, w') = alloc w in
          elim room? [
            | none ↦ failed no_mbuf f w'
            | some room ↦ stamped hdr (
                read_segs caplen caplen
                  (record { head_room = room; filled = []; pkt_len = 0; nb_segs = 1 }) f w')
          ])
      else failed partial_capture f w

  -- `load_pkt`
  unfoldable pub load_pkt : File → W → Loaded W TcapPkt
  unfolding load_body
  load_pkt f w =
      let (hdr?, f') = fread 16 f in
      elim hdr? [ none ↦ failed read_failed f' w | some hdr ↦ load_body hdr f' w ]

  abbrev pub free_all : List TcapPkt → W → W
  free_all [] w = w
  free_all (p ∷ ps) w = free_all ps (free (mbufs p.chain) w)

  -- The loop of `load_pkts`: the packets up to the end of the file; any other failure throws, and
  -- the packets go.
  unfoldable pub load_all : ℕ → List TcapPkt → File → W → Loaded W (List TcapPkt)
  unfolding load_pkt
  load_all zero pkts f w = no_fuel
  load_all (suc fuel) pkts f w = elim (load_pkt f w) [
    | no_fuel ↦ no_fuel
    | loaded p f' w' ↦ load_all fuel (pkts ++ (p ∷ [])) f' w'
    | failed e f' w' ↦ if f'.eof then loaded pkts f' w' else failed e f' (free_all pkts w')
  ]
