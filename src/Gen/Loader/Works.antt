-- ===== src/Gen/Loader/Works.antt =====
-- gen/priv/tcap_loader.cpp in gen/priv/flows_generator.cpp: what the reading of a capture does to
-- the pool and to the manager, and that the manager may rely on it.
use Prim.Native.String.{String}
use traffic_generator.Base.{
  ℕ, suc, ◌+◌, ◌-◌, ◌^◌, ◌≤◌, ◌<◌, ◌≡◌, refl, Option, Option-cases, Bool-cases, ◌==◌, ◌&&◌, none,
  some, List, [], ◌∷◌, map, length, ◌⊎◌, inl, inr, arith,
}
use traffic_generator.Gen.Ops.{Mbuf}
use traffic_generator.Gen.World.{World, Dpdk, alloc_mbuf}
use traffic_generator.Gen.Build.{Platform, Built, built, thrown}
use traffic_generator.Gen.Capture.{
  File, OpenError, Seg, Chain, TcapPkt, Loaded, open_tcap, fread, u32_at, u16_at, pcap_magic,
  no_file, no_header, invalid_header,
}
use traffic_generator.Gen.Capture.Pool.{Counts, Balanced, kept, freed, cnt_mbufs}
use traffic_generator.Gen.Capture.Ends.{cnt_all, load_all-Balanced}
use traffic_generator.Gen.Capture.Keeps.{Keeps, at_loaded, at_failed, load_all-Keeps}
use traffic_generator.Gen.Flows.Load.{Captured}
use traffic_generator.Gen.Manager.Start.{Quiet, Loads, reads, throws, Works}
use traffic_generator.Gen.Loader.{
  Medium, alloc_room, free_chain, captured_of, load_captured, with_loader, caught,
}

cnt_mbufs-positive : (ch : Chain) → 0 < cnt_mbufs ch
cnt_mbufs-positive ch = positive ch.filled refl
  where
    positive : (ss : List Seg) → ch.filled ≡ ss → 0 < cnt_mbufs ch
    positive [] e = rw e (omega arith)
    positive (s ∷ ss) e = rw e (omega arith)

-- A packet has an mbuf at least.
length-cnt_all : {A : Type 0} (g : TcapPkt → A) (ps : List TcapPkt) → length (map g ps) ≤ cnt_all ps
length-cnt_all g [] = omega arith
length-cnt_all g (p ∷ ps) = omega (arith, length-cnt_all g ps, cnt_mbufs-positive p.chain)

-- The constructor of the loader gives a file, or an error.
opened_or_not :
    (f? : Option File)
    → ((f : File) × (e : Option OpenError) × (open_tcap f? ≡ (some f, e)))
      ⊎ ((e : OpenError) × (open_tcap f? ≡ (none, some e)))
unfolding open_tcap
opened_or_not none = inr (no_file, refl)
opened_or_not (some f) = elim (Option-cases (fread 24 f).0) [
  | inl e ↦ inr (no_header, rw (e, open_tcap) refl)
  | inr (hdr, e) ↦
      elim (Bool-cases
        ((u32_at 0 hdr == pcap_magic) && ((u16_at 4 hdr == 2) && (u16_at 6 hdr == 4)))) [
          | inl good ↦ inl ((fread 24 f).1, none, rw (e, open_tcap, good) refl)
          | inr bad ↦ inr (invalid_header, rw (e, open_tcap, bad) refl)
        ]
]

module _ {E : Type 0} (dpdk : Dpdk E) (md : Medium E) (live : E → ℕ) where
  -- A pool of DPDK, whose mbufs in use are `live`: an allocation that succeeds adds one, one that
  -- does not changes nothing, a free takes those of the chain; there are fewer than 32 bits count.
  pub record IsPool : Type 0 where
    pub gives :
        (e : E) (m : Mbuf)
        → (dpdk.pktmbuf_alloc e).0 ≡ some m
        → live (dpdk.pktmbuf_alloc e).1 ≡ live e + 1
    pub refuses : (e : E) → (dpdk.pktmbuf_alloc e).0 ≡ none → live (dpdk.pktmbuf_alloc e).1 ≡ live e
    pub takes : (ss : List Seg) (e : E) → live (md.pktmbuf_free ss e) ≡ live e - length ss
    pub bounded : (e : E) → live e < 2 ^ 32

  abbrev in_use : World E → ℕ
  in_use w = live w.env

  -- How the reading of a capture ends: with packets, whose mbufs are all that is in use besides
  -- what was, or by an exception, with as many mbufs in use as before. The timers, the queue of
  -- responses and the packets to send are as they were; the count of failed allocations may grow.
  pub data Reads (w : World E) : Built (World E) (List Captured) → Type 0 where
    with_pkts :
        (ps : List TcapPkt) (w' : World E)
        → live w'.env ≡ live w.env + cnt_all ps
        → Quiet w w'
        → Reads w (built (map (captured_of dpdk md) ps) w')
    without :
        (what : String) (w' : World E)
        → live w'.env ≡ live w.env
        → Quiet w w'
        → Reads w (thrown what w')

  module _ (pool : IsPool) where
    alloc_room-gives :
        (w : World E) (room : ℕ)
        → (alloc_room dpdk md w).0 ≡ some room
        → in_use (alloc_room dpdk md w).1 ≡ in_use w + 1
    unfolding alloc_room alloc_mbuf
    alloc_room-gives w room got = elim (Option-cases (dpdk.pktmbuf_alloc w.env).0) [
      | inl e ↦ let no : (alloc_room dpdk md w).0 ≡ none = rw e refl in cc
      | inr (m, e) ↦ rw e (pool.gives w.env m e)
    ]

    alloc_room-refuses :
        (w : World E) → (alloc_room dpdk md w).0 ≡ none → in_use (alloc_room dpdk md w).1 ≡ in_use w
    unfolding alloc_room alloc_mbuf
    alloc_room-refuses w none_left = elim (Option-cases (dpdk.pktmbuf_alloc w.env).0) [
      | inl e ↦ rw e (pool.refuses w.env e)
      | inr (m, e) ↦ let got : (alloc_room dpdk md w).0 ≡ some (md.tailroom m) = rw e refl in cc
    ]

    alloc_room-Counts : Counts (alloc_room dpdk md) (free_chain dpdk md) in_use
    unfolding free_chain
    alloc_room-Counts = record {
      gives = alloc_room-gives;
      refuses = alloc_room-refuses;
      takes = λ ss w. pool.takes ss w.env;
    }

  alloc_room-Quiet : (v w : World E) → Quiet v w → Quiet v (alloc_room dpdk md w).1
  unfolding alloc_room alloc_mbuf
  alloc_room-Quiet v w q = elim (Option-cases (dpdk.pktmbuf_alloc w.env).0) [
    | inl e ↦ rw e (record { timers = q.timers; queue = q.queue; tx = q.tx })
    | inr (m, e) ↦ rw e (record { timers = q.timers; queue = q.queue; tx = q.tx })
  ]

  free_chain-Quiet :
      (v : World E) (ss : List Seg) (w : World E) → Quiet v w → Quiet v (free_chain dpdk md ss w)
  unfolding free_chain
  free_chain-Quiet v ss w q = record { timers = q.timers; queue = q.queue; tx = q.tx }

  caught-Reads :
      (name : String) (w : World E) (m : ℕ) (l : Loaded (World E) (List TcapPkt))
      → Balanced (alloc_room dpdk md) (free_chain dpdk md) in_use cnt_all (live w.env) m l
      → Keeps (Quiet w) l
      → Reads w (caught dpdk md name l)
  caught-Reads name w m _ (kept pkts f w' c le) (at_loaded _ _ _ q) = with_pkts pkts w' c q
  caught-Reads name w m _ (freed e f w' c le) (at_failed _ _ _ q) =
      without (md.what_load e name) w' c q

  -- The reading of the capture that a configuration names comes to its end, whatever the file
  -- holds and whether or not it is there, and never gets stuck: with packets, or by an exception.
  -- After packets, the mbufs in use are more by exactly those of the packets; after an exception
  -- they are as many as before. The timers, the queue of responses and the packets to send are as
  -- they were; the count of failed allocations may grow. It takes a pool whose allocations and frees count.
  pub load_captured-Reads :
      IsPool → (name : String) (w : World E) → Reads w (load_captured dpdk md name w)
  unfolding load_captured
  load_captured-Reads pool name w = elim (opened_or_not (md.file_of name)) [
    | inl (f, e, opened) ↦
        rw (opened, load_captured)
          (caught-Reads name w (length f.bytes) _
            (load_all-Balanced (alloc_room dpdk md) (free_chain dpdk md) in_use
              (alloc_room-Counts pool) (suc (length f.bytes)) f w (omega arith))
            (load_all-Keeps (alloc_room dpdk md) (free_chain dpdk md) (Quiet w) (alloc_room-Quiet w)
              (free_chain-Quiet w) (suc (length f.bytes)) [] f w
              (record { timers = refl; queue = refl; tx = refl })))
    | inr (e, closed) ↦
        rw (closed, load_captured)
          (without (md.what_open e name) w refl (record { timers = refl; queue = refl; tx = refl }))
  ]

  Reads-Loads : IsPool → (w : World E) (b : Built (World E) (List Captured)) → Reads w b → Loads w b
  Reads-Loads pool w _ (with_pkts ps w' exact q) =
      reads (map (captured_of dpdk md) ps) w'
        (omega (arith, pool.bounded w'.env, exact, length-cnt_all (captured_of dpdk md) ps)) q
  Reads-Loads pool w _ (without what w' same q) = throws what w' q

  pub load_captured-Loads :
      IsPool → (name : String) (w : World E) → Loads w (load_captured dpdk md name w)
  load_captured-Loads pool name w =
      Reads-Loads pool w (load_captured dpdk md name w) (load_captured-Reads pool name w)

-- The manager may rely on the loader as it relies on one that is given.
pub with_loader-Works :
    {E : Type 0} (md : Medium E) (live : E → ℕ) (pf : Platform E)
    → IsPool pf.dpdk md live
    → Works pf
    → Works (with_loader md pf)
with_loader-Works md live pf pool works = record {
  intended = works.intended;
  stops = works.stops;
  expired = works.expired;
  move = works.move;
  loads = load_captured-Loads pf.dpdk md live pool;
}
