-- ===== src/Gen/Loader/Tests.antt =====
-- Tests of the capture loader on a pool of a thousand mbufs of four bytes each.
use traffic_generator.Base.{
  ℕ, ◌+◌, ◌-◌, ◌≡◌, refl, false, Bool-cases, none, some, List, [], ◌∷◌, ◌++◌, length, map, take,
  min, ltb, if◌then◌else◌, inl, inr, arith,
}
use traffic_generator.Gen.Ops.{Mbuf}
use traffic_generator.Gen.World.{Dpdk, World}
use traffic_generator.Gen.Build.{built}
use traffic_generator.Gen.Capture.{File, file_with, TcapPkt}
use traffic_generator.Gen.Tests.{test_platform, test_world, an_mbuf}
use traffic_generator.Gen.Loader.{Medium, load_captured, captured_of}
use traffic_generator.Gen.Capture.Whole.{Record, IsRecord, encode, encode_all, AreRead, file_header}
use traffic_generator.Gen.Loader.Contents.{IsPlentiful, load_captured-AreRead}
use traffic_generator.Gen.Loader.Works.{IsPool, Reads, load_captured-Reads}

abbrev pool_dpdk : Dpdk ℕ
pool_dpdk = record (test_platform.dpdk) {
  pktmbuf_alloc = λ e. if ltb e 1_000 then (some an_mbuf, e + 1) else (none, e);
}

-- A file with a header, and one packet of four bytes that is cut off after two.
abbrev cut_capture : File
cut_capture =
    file_with
      (0xd4 ∷ 0xc3 ∷ 0xb2 ∷ 0xa1 ∷ 2 ∷ 0 ∷ 4 ∷ 0 ∷ 0 ∷ 0 ∷ 0 ∷ 0 ∷ 0 ∷ 0 ∷ 0 ∷ 0 ∷ 0 ∷ 0 ∷ 0 ∷ 0 ∷ 0
        ∷ 0 ∷ 0 ∷ 0 ∷ 1 ∷ 0 ∷ 0 ∷ 0 ∷ 0 ∷ 0 ∷ 0 ∷ 0 ∷ 4 ∷ 0 ∷ 0 ∷ 0 ∷ 4 ∷ 0 ∷ 0 ∷ 0 ∷ 7 ∷ 7 ∷ [])
      false false

abbrev test_medium : Medium ℕ
test_medium = record {
  file_of = λ name. some cut_capture;
  tailroom = λ m. 4;
  pktmbuf_free = λ ss e. min e 1_000 - length ss;
  mbuf_of = λ ch. record an_mbuf { pkt_len = ch.pkt_len };
  what_open = λ e name. name;
  what_load = λ e name. name;
}

abbrev test_live : ℕ → ℕ
test_live e = min e 1_000

pool_dpdk-IsPool : IsPool pool_dpdk test_medium test_live
pool_dpdk-IsPool = record {
  gives = gives;
  refuses = refuses;
  takes = λ ss e. ground arith;
  bounded = λ e. ground arith;
}
  where
    gives :
        (e : ℕ) (m : Mbuf)
        → (pool_dpdk.pktmbuf_alloc e).0 ≡ some m
        → test_live (pool_dpdk.pktmbuf_alloc e).1 ≡ test_live e + 1
    gives e m got = elim (Bool-cases (ltb e 1_000)) [
      | inl room ↦ rw room (ground (arith, room))
      | inr full ↦ let refused : (pool_dpdk.pktmbuf_alloc e).0 ≡ none = rw full refl in cc
    ]

    refuses :
        (e : ℕ)
        → (pool_dpdk.pktmbuf_alloc e).0 ≡ none
        → test_live (pool_dpdk.pktmbuf_alloc e).1 ≡ test_live e
    refuses e refused = elim (Bool-cases (ltb e 1_000)) [
      | inl room ↦ let got : (pool_dpdk.pktmbuf_alloc e).0 ≡ some an_mbuf = rw room refl in cc
      | inr full ↦ rw full refl
    ]

load_captured-Reads_example :
    Reads pool_dpdk test_medium test_live test_world
      (load_captured pool_dpdk test_medium "a" test_world)
load_captured-Reads_example =
    load_captured-Reads pool_dpdk test_medium test_live pool_dpdk-IsPool "a" test_world

abbrev plenty : Dpdk ℕ
plenty = test_platform.dpdk

plenty-IsPlentiful : (md : Medium ℕ) → ((m : Mbuf) → md.tailroom m ≡ 4) → IsPlentiful plenty md
plenty-IsPlentiful md four e = (an_mbuf, refl, omega (arith, four an_mbuf))

abbrev one_record : Record
one_record = record { sec = 1; usec = 500; data_of = 10 ∷ 11 ∷ 12 ∷ 13 ∷ 14 ∷ [] }

one_record-IsRecord : IsRecord one_record
one_record-IsRecord = record { sec = omega arith; usec = omega arith; len = omega arith }

abbrev zeros : List ℕ
zeros = 0 ∷ 0 ∷ 0 ∷ 0 ∷ 0 ∷ 0 ∷ 0 ∷ 0 ∷ 0 ∷ 0 ∷ 0 ∷ 0 ∷ 0 ∷ 0 ∷ 0 ∷ 0 ∷ []

-- The record, and the same cut off in its third byte.
abbrev record_medium : Medium ℕ
record_medium = record test_medium {
  file_of = λ name. some (
      file_with (file_header zeros ++ (encode_all (one_record ∷ []) ++ take 18 (encode one_record)))
        false false);
}

load_captured-AreRead_example :
    (ps : List TcapPkt) × (w' : World ℕ) × (load_captured plenty record_medium "a" test_world
      ≡ built (map (captured_of plenty record_medium) ps) w')
    × AreRead (one_record ∷ []) ps
load_captured-AreRead_example =
    load_captured-AreRead plenty record_medium (plenty-IsPlentiful record_medium (λ m. refl)) "a"
      zeros (one_record ∷ []) one_record 18 test_world refl (omega arith) one_record-IsRecord
      (one_record-IsRecord, tt) refl
