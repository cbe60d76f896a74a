-- ===== src/Gen/Capture/Whole.antt =====
-- gen/priv/tcap_loader.cpp and the loop of `load_pkts` in gen/priv/flows_generator.cpp: a whole
-- capture.
use traffic_generator.Base.{
  append_assoc, append_nil, ℕ, zero, suc, ◌+◌, ◌*◌, ◌^◌, ◌<◌, ◌≡◌, refl, sym, ap, ◌∙◌, Bool, true,
  false, Option, none, some, List, [], ◌∷◌, ◌++◌, length, All, ◌==◌, ◌&&◌, arith,
}
use traffic_generator.Gen.Capture.{
  File, file_with, fread, u32_at, u16_at, Seg, Chain, TcapPkt, LoadFault, loaded, failed,
  read_failed, load_body, load_pkt, load_all, open_tcap, pcap_magic,
}
use traffic_generator.Gen.Capture.Bytes.{to_le, le-to_le, fread-append, fread-short}
use traffic_generator.Gen.Capture.Reads.{bytes_of, IsWhole, Gives, read_segs-Reads}

-- A packet as a capture records it.
pub record Record : Type 0 where
  pub sec : ℕ
  pub usec : ℕ
  pub data_of : List ℕ

pub record IsRecord (r : Record) : Type 0 where
  pub sec : r.sec < 2 ^ 32
  pub usec : r.usec < 2 ^ 32
  pub len : length r.data_of < 2 ^ 32

abbrev pub header : Record → List ℕ
header r =
    to_le 4 r.sec ++ (to_le 4 r.usec ++ (to_le 4 (length r.data_of) ++ to_le 4 (length r.data_of)))

abbrev pub encode : Record → List ℕ
encode r = header r ++ r.data_of

abbrev pub encode_all : List Record → List ℕ
encode_all [] = []
encode_all (r ∷ rs) = encode r ++ encode_all rs

-- A packet that is a record's: its time, and its bytes in mbufs that hold them.
pub record IsRead (r : Record) (p : TcapPkt) : Type 0 where
  pub tstamp : p.tstamp ≡ r.sec * 1_000_000 + r.usec
  pub bytes : bytes_of p.chain.filled ≡ r.data_of
  pub len : p.chain.pkt_len ≡ length r.data_of
  pub whole : IsWhole p.chain

abbrev pub AreRead : List Record → List TcapPkt → Type 0
AreRead [] [] = Unit
AreRead (r ∷ rs) (p ∷ ps) = IsRead r p × AreRead rs ps
AreRead [] (p ∷ ps) = ⊥
AreRead (r ∷ rs) [] = ⊥

-- The header of a capture: its magic, its version, and 16 bytes that are not looked at.
abbrev pub file_header : List ℕ → List ℕ
file_header others = to_le 4 pcap_magic ++ (to_le 2 2 ++ (to_le 2 4 ++ others))

open_tcap-header :
    (f f' : File) (hdr : List ℕ)
    → fread 24 f ≡ (some hdr, f')
    → ((u32_at 0 hdr == pcap_magic) && ((u16_at 4 hdr == 2) && (u16_at 6 hdr == 4))) ≡ true
    → open_tcap (some f) ≡ (some f', none)
unfolding open_tcap
open_tcap-header f f' hdr e valid =
    let e₀ = ap (λ q. q.0) e in let e₁ = ap (λ q. q.1) e in rw (e₀, open_tcap, valid, e₁) refl

-- What follows the header of a capture is left to be read.
pub open_tcap-file_header :
    (others rest : List ℕ)
    → length others ≡ 16
    → open_tcap (some (file_with (file_header others ++ rest) false false))
      ≡ (some (file_with rest false false), none)
open_tcap-file_header others rest len =
    open_tcap-header _ _ (file_header others)
      (fread-append 24 (file_header others) rest false false (omega arith) (omega (arith, len)))
      refl

module _ {W : Type 0} (alloc : W → Option ℕ × W) (free : List Seg → W → W)
    (gives : Gives alloc free) where
  load_body-IsRead :
      (r : Record) (rest : List ℕ) (fault eof : Bool) (w : W)
      → IsRecord r
      → (p : TcapPkt) × (w' : W) × (load_body alloc free
            (header r)
            (file_with (r.data_of ++ rest) fault eof)
            w
          ≡ loaded p (file_with rest fault eof) w')
        × IsRead r p
  unfolding load_body
  load_body-IsRead r rest fault eof w h =
      let n = length r.data_of in
      let caplen : u32_at 8 (header r) ≡ n = le-to_le 4 n (omega (arith, h.len)) in
      let len : u32_at 12 (header r) ≡ n = le-to_le 4 n (omega (arith, h.len)) in
      let sec : u32_at 0 (header r) ≡ r.sec = le-to_le 4 r.sec (omega (arith, h.sec)) in
      let usec : u32_at 4 (header r) ≡ r.usec = le-to_le 4 r.usec (omega (arith, h.usec)) in
      let same : (u32_at 8 (header r) == u32_at 12 (header r)) ≡ true =
        ground (arith, caplen, len) in
      let (room, a, pos) = gives w in
      let ch : Chain = record { head_room = room; filled = []; pkt_len = 0; nb_segs = 1 } in
      let (ch', w', e, got) =
        read_segs-Reads alloc free gives (u32_at 8 (header r)) (u32_at 8 (header r)) ch r.data_of
          rest fault eof (alloc w).1 caplen (omega arith) (omega (arith, caplen, h.len))
          (record { fits = tt; counted = refl; head = pos }) in
      (
        record { tstamp = u32_at 0 (header r) * 1_000_000 + u32_at 4 (header r); chain = ch' },
        w',
        rw (same, a, e) refl,
        record {
          tstamp = omega (arith, sec, usec);
          bytes = got.bytes;
          len = omega (arith, got.len);
          whole = got.whole;
        },
      )

  pub load_pkt-header :
      (f f' : File) (hdr : List ℕ) (w : W)
      → fread 16 f ≡ (some hdr, f')
      → load_pkt alloc free f w ≡ load_body alloc free hdr f' w
  unfolding load_pkt
  load_pkt-header f f' hdr w e =
      let e₀ = ap (λ q. q.0) e in rw (e₀, load_pkt) (ap (λ q. load_body alloc free hdr q.1 w) e)

  pub load_pkt-end :
      (f f' : File) (w : W)
      → fread 16 f ≡ (none, f')
      → load_pkt alloc free f w ≡ failed read_failed f' w
  unfolding load_pkt
  load_pkt-end f f' w e =
      let e₀ = ap (λ q. q.0) e in let e₁ = ap (λ q. q.1) e in rw (e₀, load_pkt, e₁) refl

  load_pkt-IsRead :
      (r : Record) (rest : List ℕ) (fault eof : Bool) (w : W)
      → IsRecord r
      → (p : TcapPkt) × (w' : W) × (load_pkt alloc free (file_with (encode r ++ rest) fault eof) w
          ≡ loaded p (file_with rest fault eof) w')
        × IsRead r p
  load_pkt-IsRead r rest fault eof w h =
      let split : encode r ++ rest ≡ header r ++ (r.data_of ++ rest) =
        append_assoc (header r) r.data_of rest in
      let got =
        ap (λ bs. fread 16 (file_with bs fault eof)) split
        ∙ fread-append 16 (header r) (r.data_of ++ rest) fault eof (omega arith) refl in
      let (p, w', e, read) = load_body-IsRead r rest fault eof w h in
      (p, w', load_pkt-header _ _ (header r) w got ∙ e, read)

  -- Where the next packet cannot be read, for the end of the file.
  abbrev pub AtEnd : List ℕ → Type 0
  AtEnd tail =
      (w : W)
      → (e : LoadFault) × (f' : File) × (w' : W) × (load_pkt alloc free (file_with tail false false)
            w
          ≡ failed e f' w')
        × (f'.eof ≡ true)

  pub short-AtEnd : (tail : List ℕ) → length tail < 16 → AtEnd tail
  short-AtEnd tail short w = (
    read_failed,
    file_with [] false true,
    w,
    load_pkt-end (file_with tail false false) (file_with [] false true) w
        (fread-short 16 (file_with tail false false) short),
    refl,
  )

  load_all-end :
      (fuel : ℕ) (pkts : List TcapPkt) (f f' : File) (w w' : W) (e : LoadFault)
      → load_pkt alloc free f w ≡ failed e f' w'
      → f'.eof ≡ true
      → load_all alloc free (suc fuel) pkts f w ≡ loaded pkts f' w'
  unfolding load_all
  load_all-end fuel pkts f f' w w' e at_end end = rw (at_end, load_all, end) refl

  -- The loop, after the packets `pkts`.
  pub load_all-AreRead :
      (fuel : ℕ) (rs : List Record) (pkts : List TcapPkt) (tail : List ℕ) (w : W)
      → length rs < fuel
      → AtEnd tail
      → All IsRecord rs
      → (ps : List TcapPkt) × (f' : File) × (w' : W) × (load_all alloc free fuel pkts
            (file_with (encode_all rs ++ tail) false false)
            w
          ≡ loaded (pkts ++ ps) f' w')
        × AreRead rs ps
  unfolding load_all
  load_all-AreRead zero rs pkts tail w enough ends h = absurd (omega arith)
  load_all-AreRead (suc fuel) [] pkts tail w enough ends h =
      let (e, f', w', at_end, end) = ends w in
      (
        [],
        f',
        w',
        load_all-end fuel pkts _ f' w w' e at_end end
            ∙ ap (λ qs. loaded qs f' w') (sym (append_nil pkts)),
        tt,
      )
  load_all-AreRead (suc fuel) (r ∷ rs) pkts tail w enough ends h =
      let (p, w₁, e, read) = load_pkt-IsRead r (encode_all rs ++ tail) false false w h.0 in
      let (ps, f', w', e', all_read) =
        load_all-AreRead fuel rs (pkts ++ (p ∷ [])) tail w₁ (omega arith) ends h.1 in
      let split : encode_all (r ∷ rs) ++ tail ≡ encode r ++ (encode_all rs ++ tail) =
        append_assoc (encode r) (encode_all rs) tail in
      (
        p ∷ ps,
        f',
        w',
        ap (λ bs. load_all alloc free (suc fuel) pkts (file_with bs false false) w) split
            ∙ rw (e, load_all) refl
            ∙ e'
            ∙ ap (λ qs. loaded qs f' w') (append_assoc pkts (p ∷ []) ps),
        (read, all_read),
      )

  -- A capture whose last bytes are no packet.
  pub load_capture-ends :
      (others : List ℕ) (rs : List Record) (tail : List ℕ) (fuel : ℕ) (w : W)
      → length others ≡ 16
      → length rs < fuel
      → AtEnd tail
      → All IsRecord rs
      → (f : File) × (open_tcap
            (some (file_with (file_header others ++ (encode_all rs ++ tail)) false false))
          ≡ (some f, none))
        × (ps : List TcapPkt) × (f' : File) × (w' : W) × (load_all alloc free fuel [] f w
            ≡ loaded ps f' w')
        × AreRead rs ps
  load_capture-ends others rs tail fuel w len enough ends h =
      let rest = encode_all rs ++ tail in
      let (ps, f', w', e, all_read) = load_all-AreRead fuel rs [] tail w enough ends h in
      (file_with rest false false, open_tcap-file_header others rest len, ps, f', w', e, all_read)

  -- A capture of any packets, each of times and a length of 32 bits, opens and is loaded whole: the
  -- packets are as many as the records, in order, with their times, their bytes spread over
  -- mbufs that have room for them, and their lengths. It takes a pool that always gives mbufs
  -- with some room. Fewer bytes than a record's header at the end are left out without an error.
  pub load_capture-AreRead :
      (others : List ℕ) (rs : List Record) (tail : List ℕ) (fuel : ℕ) (w : W)
      → length others ≡ 16
      → length rs < fuel
      → length tail < 16
      → All IsRecord rs
      → (f : File) × (open_tcap
            (some (file_with (file_header others ++ (encode_all rs ++ tail)) false false))
          ≡ (some f, none))
        × (ps : List TcapPkt) × (f' : File) × (w' : W) × (load_all alloc free fuel [] f w
            ≡ loaded ps f' w')
        × AreRead rs ps
  load_capture-AreRead others rs tail fuel w len enough short h =
      load_capture-ends others rs tail fuel w len enough (short-AtEnd tail short) h
