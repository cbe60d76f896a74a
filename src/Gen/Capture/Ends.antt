-- ===== src/Gen/Capture/Ends.antt =====
-- gen/priv/flows_generator.cpp: the loop of `load_pkts` ends on every file, and no mbuf leaks.
use traffic_generator.Base.{
  ℕ, zero, suc, ◌+◌, ◌-◌, ◌≤◌, ◌<◌, ◌≡◌, refl, sym, Bool-cases, Option, Option-cases, List, [], ◌∷◌,
  ◌++◌, length, ◌⊎◌, inl, inr, arith,
}
use mathlib.Core.Path.{subst}
use traffic_generator.Gen.Capture.{
  File, fread, Seg, TcapPkt, Loaded, failed, mbufs, load_body, load_pkt, load_all, free_all,
  read_failed, LoadFault,
}
use traffic_generator.Gen.Capture.Pool.{
  fread-consumes, fread-le, cnt_mbufs, Counts, Balanced, kept, freed, wider, load_body-Balanced,
}

abbrev pub cnt_all : List TcapPkt → ℕ
cnt_all [] = 0
cnt_all (p ∷ ps) = cnt_mbufs p.chain + cnt_all ps

cnt_all-snoc :
    (ps : List TcapPkt) (p : TcapPkt) → cnt_all (ps ++ (p ∷ [])) ≡ cnt_all ps + cnt_mbufs p.chain
cnt_all-snoc [] p = omega arith
cnt_all-snoc (q ∷ ps) p = omega (arith, cnt_all-snoc ps p)

module _ {W : Type 0} (alloc : W → Option ℕ × W) (free : List Seg → W → W) (live : W → ℕ) where
  module _ (counts : Counts alloc free live) where
    free_all-live :
        (ps : List TcapPkt) (w : W) → live (free_all alloc free ps w) ≡ live w - cnt_all ps
    free_all-live [] w = omega arith
    free_all-live (p ∷ ps) w =
        omega (arith, free_all-live ps (free (mbufs p.chain) w), counts.takes (mbufs p.chain) w)

    -- What is read of a packet: nothing for want of a header, or a header and what comes of it.
    load_pkt-Balanced :
        (f : File) (w : W)
        → ((f' : File) × (load_pkt alloc free f w ≡ failed read_failed f' w)
            × (length f'.bytes ≤ length f.bytes))
          ⊎ ((r : Loaded W TcapPkt) × (load_pkt alloc free f w ≡ r)
              × (m : ℕ) × (m < length f.bytes)
              × Balanced alloc free live (λ (p : TcapPkt). cnt_mbufs p.chain) (live w) m r)
    unfolding load_pkt
    load_pkt-Balanced f w = elim (Option-cases (fread 16 f).0) [
      | inl e ↦ inl ((fread 16 f).1, rw (e, load_pkt) refl, fread-le 16 f)
      | inr (hdr, e) ↦
          let (taken, pos) = fread-consumes 16 f hdr e in
          inr (
            load_body alloc free hdr (fread 16 f).1 w,
            rw (e, load_pkt) refl,
            length (fread 16 f).1.bytes,
            omega (arith, taken),
            load_body-Balanced alloc free live counts hdr (fread 16 f).1 w,
          )
    ]

    -- The end of the loop on a failure.
    stop-Balanced :
        (fuel : ℕ) (pkts : List TcapPkt) (f f' : File) (w w' : W) (e : LoadFault) (n : ℕ)
        → load_pkt alloc free f w ≡ failed e f' w'
        → live w' ≡ n + cnt_all pkts
        → length f'.bytes ≤ length f.bytes
        → Balanced alloc free live cnt_all n
            (length f.bytes)
            (load_all alloc free (suc fuel) pkts f w)
    unfolding load_all
    stop-Balanced fuel pkts f f' w w' e n ends counted le =
        let goal = Balanced alloc free live cnt_all n (length f.bytes) in
        elim (Bool-cases f'.eof) [
          | inl at_end ↦
              subst goal (sym (rw (ends, load_all, at_end) refl)) (kept pkts f' w' counted le)
          | inr not_yet ↦ subst goal (sym (rw (ends, load_all, not_yet) refl)) (
              freed e f' (free_all alloc free pkts w')
                (omega (arith, free_all-live pkts w', counted)) le)
        ]

    -- A round of the loop, from how the rest of it ends.
    next-Balanced :
        (fuel : ℕ) (pkts : List TcapPkt) (f : File) (w : W) (n m : ℕ) (r : Loaded W TcapPkt)
        → load_pkt alloc free f w ≡ r
        → Balanced alloc free live (λ (p : TcapPkt). cnt_mbufs p.chain) (live w) m r
        → m < length f.bytes
        → live w ≡ n + cnt_all pkts
        → ((p : TcapPkt) (f' : File) (w' : W)
            → live w' ≡ n + cnt_all (pkts ++ (p ∷ []))
            → length f'.bytes < length f.bytes
            → Balanced alloc free live cnt_all n
                (length f.bytes)
                (load_all alloc free fuel (pkts ++ (p ∷ [])) f' w'))
        → Balanced alloc free live cnt_all n
            (length f.bytes)
            (load_all alloc free (suc fuel) pkts f w)
    unfolding load_all
    next-Balanced fuel pkts f w n m _ e (kept p f' w' c le) less counted rest =
        subst (Balanced alloc free live cnt_all n (length f.bytes)) (sym (rw (e, load_all) refl))
          (rest p f' w' (omega (arith, c, counted, cnt_all-snoc pkts p)) (omega (arith, le, less)))
    next-Balanced fuel pkts f w n m _ e (freed err f' w' c le) less counted rest =
        stop-Balanced fuel pkts f f' w w' err n e (omega (arith, c, counted))
          (omega (arith, le, less))

    load_all-within :
        (fuel : ℕ) (pkts : List TcapPkt) (f : File) (w : W) (n m : ℕ)
        → length f.bytes < fuel
        → length f.bytes ≤ m
        → live w ≡ n + cnt_all pkts
        → Balanced alloc free live cnt_all n m (load_all alloc free fuel pkts f w)
    load_all-within zero pkts f w n m enough le counted = absurd (omega arith)
    load_all-within (suc fuel) pkts f w n m enough le counted =
        wider alloc free live
          (elim (load_pkt-Balanced f w) [
            | inl (f', e, le') ↦ stop-Balanced fuel pkts f f' w w read_failed n e counted le'
            | inr (r, e, k, less, b) ↦
                next-Balanced fuel pkts f w n k r e b less counted (λ p f' w' c fewer.
                  load_all-within fuel (pkts ++ (p ∷ [])) f' w' n (length f.bytes) (omega arith)
                    (omega arith) c)
          ])
          le

    -- The loading of a capture ends on every file, with more rounds given than there are bytes, and
    -- no mbuf leaks. Either it gives the packets before the end, and as many mbufs more are in use as
    -- they have, or it fails, and every mbuf that it allocated is freed: those of the packet that it
    -- could not finish, and those of the packets before. It takes a pool that counts its mbufs.
    pub load_all-Balanced :
        (fuel : ℕ) (f : File) (w : W)
        → length f.bytes < fuel
        → Balanced alloc free live cnt_all
            (live w)
            (length f.bytes)
            (load_all alloc free fuel [] f w)
    load_all-Balanced fuel f w enough =
        load_all-within fuel [] f w (live w) (length f.bytes) enough (omega arith) (omega arith)
