-- ===== src/Gen/Loader/Contents.antt =====
-- gen/priv/tcap_loader.cpp in gen/priv/flows_generator.cpp: what is read of a capture.
use Prim.Native.String.{String}
use traffic_generator.Base.{
  ℕ, suc, ◌<◌, ◌≤◌, ◌≡◌, refl, ap, ◌∙◌, false, some, List, [], ◌∷◌, ◌++◌, map, length,
  length-append, take, All, arith,
}
use traffic_generator.Gen.Ops.{Mbuf}
use traffic_generator.Gen.World.{Dpdk, World, alloc_mbuf}
use traffic_generator.Gen.Build.{built}
use traffic_generator.Gen.Capture.{file_with, TcapPkt, open_tcap}
use traffic_generator.Gen.Capture.Reads.{Gives}
use traffic_generator.Gen.Capture.Whole.{
  Record, IsRecord, header, encode, encode_all, AreRead, file_header, open_tcap-file_header,
  load_all-AreRead,
}
use traffic_generator.Gen.Capture.Cut.{encode-AtEnd}
use traffic_generator.Gen.Loader.{
  Medium, alloc_room, free_chain, captured_of, load_captured, read_opened, caught,
}

length-encode_all : (rs : List Record) → length rs ≤ length (encode_all rs)
length-encode_all [] = omega arith
length-encode_all (r ∷ rs) = omega (
  arith,
  length-encode_all rs,
  length-append (encode r) (encode_all rs),
  length-append (header r) r.data_of,
)

module _ {E : Type 0} (dpdk : Dpdk E) (md : Medium E) where
  -- The pool always gives an mbuf, with some tailroom.
  abbrev pub IsPlentiful : Type 0
  IsPlentiful = (e : E) → (m : Mbuf) × ((dpdk.pktmbuf_alloc e).0 ≡ some m) × (0 < md.tailroom m)

  alloc_room-Gives : IsPlentiful → Gives (alloc_room dpdk md) (free_chain dpdk md)
  unfolding alloc_room alloc_mbuf
  alloc_room-Gives plenty w = let (m, e, pos) = plenty w.env in (md.tailroom m, rw e refl, pos)

  -- The reading of a capture of any packets, each of times and a length of 32 bits, which ends at any
  -- place within one packet more, gives the packets before that one, without an error: as many, in
  -- order, with their times, and their bytes in mbufs that have room for them. It takes a pool
  -- that always gives an mbuf, with some tailroom.
  pub load_captured-AreRead :
      IsPlentiful
      → (name : String) (others : List ℕ) (rs : List Record) (r : Record) (k : ℕ) (w : World E)
      → length others ≡ 16
      → k < length (encode r)
      → IsRecord r
      → All IsRecord rs
      → md.file_of name
        ≡ some (file_with (file_header others ++ (encode_all rs ++ take k (encode r))) false false)
      → (ps : List TcapPkt) × (w' : World E) × (load_captured dpdk md name w
          ≡ built (map (captured_of dpdk md) ps) w')
        × AreRead rs ps
  unfolding load_captured
  load_captured-AreRead plenty name others rs r k w len cut h hs held =
      let tail = take k (encode r) in
      let rest = encode_all rs ++ tail in
      let alloc = alloc_room dpdk md in
      let free = free_chain dpdk md in
      let gives = alloc_room-Gives plenty in
      let (ps, f', w', e, all_read) =
        load_all-AreRead alloc free gives (suc (length rest)) rs [] tail w
          (omega (arith, length-encode_all rs, length-append (encode_all rs) tail))
          (encode-AtEnd alloc free gives r k h cut) hs in
      let opened = ap open_tcap held ∙ open_tcap-file_header others rest len in
      (ps, w', ap (λ o. read_opened dpdk md name o w) opened ∙ ap (caught dpdk md name) e, all_read)
