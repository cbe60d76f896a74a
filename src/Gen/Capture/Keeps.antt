-- ===== src/Gen/Capture/Keeps.antt =====
-- gen/priv/tcap_loader.cpp: what the allocations and the frees of mbufs keep, a load keeps.
use traffic_generator.Base.{
  ℕ, zero, suc, ◌-◌, ◌≡◌, refl, sym, Bool-cases, Option, Option-cases, List, [], ◌∷◌, ◌++◌, min,
  ◌==◌, inl, inr,
}
use mathlib.Core.Path.{subst}
use traffic_generator.Gen.Capture.{
  File, fread, u32_at, Seg, Chain, TcapPkt, Loaded, loaded, failed, no_fuel, is_nil, mbufs,
  next_mbuf, filled_with, read_segs, load_body, load_pkt, load_all, free_all, no_mbuf, read_failed,
  stamped, LoadFault, partial_capture,
}

module _ {W : Type 0} (R : W → Type 0) where
  -- The state that a load ends in, if it ends.
  pub data Keeps {A : Type 0} : Loaded W A → Type 0 where
    at_loaded : (a : A) (f : File) (w : W) → R w → Keeps (loaded a f w)
    at_failed : (e : LoadFault) (f : File) (w : W) → R w → Keeps (failed e f w)
    at_no_fuel : Keeps no_fuel

module _ {W : Type 0} (alloc : W → Option ℕ × W) (free : List Seg → W → W) (R : W → Type 0)
    (allocs : (w : W) → R w → R (alloc w).1)
    (frees : (ss : List Seg) (w : W) → R w → R (free ss w)) where
  free_all-keeps : (ps : List TcapPkt) (w : W) → R w → R (free_all alloc free ps w)
  free_all-keeps [] w r = r
  free_all-keeps (p ∷ ps) w r =
      free_all-keeps ps (free (mbufs p.chain) w) (frees (mbufs p.chain) w r)

  next_mbuf-keeps : (ch : Chain) (w : W) → R w → R (next_mbuf alloc free ch w).1
  unfolding next_mbuf
  next_mbuf-keeps ch w r = elim (Bool-cases (is_nil ch.filled)) [
    | inl e ↦ rw e r
    | inr e ↦ elim (Option-cases (alloc w).0) [
      | inl refused ↦ rw (e, refused) (allocs w r)
      | inr (room, a) ↦ rw (e, a) (allocs w r)
    ]
  ]

  read_segs-Keeps :
      (fuel left : ℕ) (ch : Chain) (f : File) (w : W)
      → R w
      → Keeps R (read_segs alloc free fuel left ch f w)
  unfolding read_segs
  read_segs-Keeps zero left ch f w r = elim (Bool-cases (left == 0)) [
    | inl e ↦ subst (Keeps R) (sym (rw (e, read_segs) refl)) (at_loaded ch f w r)
    | inr e ↦ subst (Keeps R) (sym (rw (e, read_segs) refl)) at_no_fuel
  ]
  read_segs-Keeps (suc fuel) left ch f w r = elim (Bool-cases (left == 0)) [
    | inl e ↦ subst (Keeps R) (sym (rw (e, read_segs) refl)) (at_loaded ch f w r)
    | inr e ↦
        let r' = next_mbuf-keeps ch w r in
        elim (Option-cases (next_mbuf alloc free ch w).0) [
          | inl refused ↦ subst (Keeps R) (sym (rw (e, read_segs, refused) refl)) (
              at_failed no_mbuf f (free (mbufs ch) (next_mbuf alloc free ch w).1)
                (frees (mbufs ch) (next_mbuf alloc free ch w).1 r'))
          | inr ((room, ch'), got) ↦ elim (Option-cases (fread (min left room) f).0) [
            | inl unread ↦ subst (Keeps R) (sym (rw (e, read_segs, got, unread) refl)) (
                at_failed read_failed (fread (min left room) f).1
                  (free (mbufs (filled_with alloc free ch' room [])) (next_mbuf alloc free ch w).1)
                  (frees (mbufs (filled_with alloc free ch' room [])) (next_mbuf alloc free ch w).1
                    r'))
            | inr (bytes, taken) ↦ subst (Keeps R) (sym (rw (e, read_segs, got, taken) refl)) (
                read_segs-Keeps fuel (left - min left room) (filled_with alloc free ch' room bytes)
                  (fread (min left room) f).1 (next_mbuf alloc free ch w).1 r')
          ]
        ]
  ]

  stamped-Keeps :
      (hdr : List ℕ) (l : Loaded W Chain) → Keeps R l → Keeps R (stamped alloc free hdr l)
  stamped-Keeps hdr _ (at_loaded ch f w r) = at_loaded _ f w r
  stamped-Keeps hdr _ (at_failed e f w r) = at_failed e f w r
  stamped-Keeps hdr _ at_no_fuel = at_no_fuel

  load_body-Keeps : (hdr : List ℕ) (f : File) (w : W) → R w → Keeps R (load_body alloc free hdr f w)
  unfolding load_body
  load_body-Keeps hdr f w r =
      let first : ℕ → Chain =
        λ room. record { head_room = room; filled = []; pkt_len = 0; nb_segs = 1 } in
      let n = u32_at 8 hdr in
      elim (Bool-cases (u32_at 8 hdr == u32_at 12 hdr)) [
        | inr e ↦ subst (Keeps R) (sym (rw e refl)) (at_failed partial_capture f w r)
        | inl e ↦ elim (Option-cases (alloc w).0) [
          | inl refused ↦
              subst (Keeps R) (sym (rw (e, refused) refl))
                (at_failed no_mbuf f (alloc w).1 (allocs w r))
          | inr (room, a) ↦ subst (Keeps R) (sym (rw (e, a) refl)) (
              stamped-Keeps hdr (read_segs alloc free n n (first room) f (alloc w).1)
                (read_segs-Keeps n n (first room) f (alloc w).1 (allocs w r)))
        ]
      ]

  load_pkt-Keeps : (f : File) (w : W) → R w → Keeps R (load_pkt alloc free f w)
  unfolding load_pkt
  load_pkt-Keeps f w r = elim (Option-cases (fread 16 f).0) [
    | inl e ↦
        subst (Keeps R) (sym (rw (e, load_pkt) refl)) (at_failed read_failed (fread 16 f).1 w r)
    | inr (hdr, e) ↦
        subst (Keeps R) (sym (rw (e, load_pkt) refl)) (load_body-Keeps hdr (fread 16 f).1 w r)
  ]

  -- A round of the loop, from how the rest of it ends.
  next-Keeps :
      (fuel : ℕ) (pkts : List TcapPkt) (f : File) (w : W) (l : Loaded W TcapPkt)
      → load_pkt alloc free f w ≡ l
      → Keeps R l
      → ((p : TcapPkt) (f' : File) (w' : W)
          → R w'
          → Keeps R (load_all alloc free fuel (pkts ++ (p ∷ [])) f' w'))
      → Keeps R (load_all alloc free (suc fuel) pkts f w)
  unfolding load_all
  next-Keeps fuel pkts f w _ e (at_loaded p f' w' r) rest =
      subst (Keeps R) (sym (rw (e, load_all) refl)) (rest p f' w' r)
  next-Keeps fuel pkts f w _ e (at_failed err f' w' r) rest = elim (Bool-cases f'.eof) [
    | inl end ↦ subst (Keeps R) (sym (rw (e, load_all, end) refl)) (at_loaded pkts f' w' r)
    | inr more ↦
        subst (Keeps R) (sym (rw (e, load_all, more) refl))
          (at_failed err f' _ (free_all-keeps pkts w' r))
  ]
  next-Keeps fuel pkts f w _ e at_no_fuel rest =
      subst (Keeps R) (sym (rw (e, load_all) refl)) at_no_fuel

  pub load_all-Keeps :
      (fuel : ℕ) (pkts : List TcapPkt) (f : File) (w : W)
      → R w
      → Keeps R (load_all alloc free fuel pkts f w)
  unfolding load_all
  load_all-Keeps zero pkts f w r = at_no_fuel
  load_all-Keeps (suc fuel) pkts f w r =
      next-Keeps fuel pkts f w (load_pkt alloc free f w) refl (load_pkt-Keeps f w r)
        (λ p f' w' r'. load_all-Keeps fuel (pkts ++ (p ∷ [])) f' w' r')
