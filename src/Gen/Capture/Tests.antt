-- ===== src/Gen/Capture/Tests.antt =====
-- A test of the loading of a capture with two packets, the first over two mbufs of three bytes, and
-- three bytes too many at its end.
use traffic_generator.Base.{
  ℕ, ◌+◌, ◌-◌, ◌≡◌, refl, false, true, Option, none, some, List, [], ◌∷◌, ◌++◌, length, take, All,
  arith,
}
use traffic_generator.Gen.Capture.{
  File, file_with, Seg, TcapPkt, loaded, fread, next_mbuf, read_segs, load_body, load_pkt, load_all,
  open_tcap,
}
use traffic_generator.Gen.Capture.Reads.{Gives}
use traffic_generator.Gen.Capture.Whole.{
  Record, IsRecord, encode_all, AreRead, file_header, load_capture-AreRead,
}
use traffic_generator.Gen.Capture.Pool.{Counts, Balanced}
use traffic_generator.Gen.Capture.Ends.{cnt_all, load_all-Balanced}

-- A pool that counts the mbufs in use.
abbrev pool_alloc : ℕ → Option ℕ × ℕ
pool_alloc w = (some 3, w + 1)

abbrev pool_free : List Seg → ℕ → ℕ
pool_free ss w = w - length ss

abbrev two_records : List Record
two_records =
    record { sec = 1; usec = 500; data_of = 10 ∷ 11 ∷ 12 ∷ 13 ∷ [] }
    ∷ record { sec = 2; usec = 0; data_of = 20 ∷ [] }
    ∷ []

abbrev more_bytes : List ℕ
more_bytes = 1 ∷ 2 ∷ 3 ∷ []

abbrev zeros : List ℕ
zeros = 0 ∷ 0 ∷ 0 ∷ 0 ∷ 0 ∷ 0 ∷ 0 ∷ 0 ∷ 0 ∷ 0 ∷ 0 ∷ 0 ∷ 0 ∷ 0 ∷ 0 ∷ 0 ∷ []

two_loaded :
    load_all pool_alloc pool_free 3 []
      (file_with (encode_all two_records ++ more_bytes) false false)
      0
    ≡ loaded
        (record {
          tstamp = 1_000_500;
          chain = record {
            head_room = 3;
            filled =
                record { room = 3; data_of = 10 ∷ 11 ∷ 12 ∷ [] }
                ∷ record { room = 3; data_of = 13 ∷ [] }
                ∷ [];
            pkt_len = 4;
            nb_segs = 2;
          };
        }
          ∷ record {
            tstamp = 2_000_000;
            chain = record {
              head_room = 3;
              filled = record { room = 3; data_of = 20 ∷ [] } ∷ [];
              pkt_len = 1;
              nb_segs = 1;
            };
          }
          ∷ [])
        (file_with [] false true)
        3
unfolding load_all load_pkt load_body read_segs next_mbuf fread
two_loaded = refl

pool-Gives : Gives pool_alloc pool_free
pool-Gives w = (3, refl, omega arith)

two_records-IsRecord : All IsRecord two_records
two_records-IsRecord = (
  record { sec = omega arith; usec = omega arith; len = omega arith },
  (record { sec = omega arith; usec = omega arith; len = omega arith }, tt),
)

load_capture_example :
    (f : File) × (open_tcap
        (some (file_with (file_header zeros ++ (encode_all two_records ++ more_bytes)) false false))
      ≡ (some f, none))
    × (ps : List TcapPkt) × (f' : File) × (w' : ℕ) × (load_all pool_alloc pool_free 3 [] f 0
        ≡ loaded ps f' w')
    × AreRead two_records ps
load_capture_example =
    load_capture-AreRead pool_alloc pool_free pool-Gives zeros two_records more_bytes 3 0 refl
      (omega arith) (omega arith) two_records-IsRecord

pool-Counts : Counts pool_alloc pool_free (λ w. w)
pool-Counts = record { gives = λ w room e. refl; refuses = λ w e. cc; takes = λ ss w. refl }

-- The same, cut off in the middle of the second packet.
abbrev cut_file : File
cut_file = file_with (take 37 (encode_all two_records)) false false

load_all_example :
    Balanced pool_alloc pool_free
      (λ w. w)
      cnt_all
      0
      (length cut_file.bytes)
      (load_all pool_alloc pool_free 100 [] cut_file 0)
load_all_example =
    load_all-Balanced pool_alloc pool_free (λ w. w) pool-Counts 100 cut_file 0 (omega arith)
