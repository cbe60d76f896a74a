-- ===== src/Gen/Capture/Cut.antt =====
-- gen/priv/tcap_loader.cpp and the loop of `load_pkts` in gen/priv/flows_generator.cpp: a capture
-- that ends within a packet.
use traffic_generator.Base.{
  ℕ, zero, suc, ◌+◌, ◌-◌, ◌^◌, ◌≤◌, ◌<◌, ◌≡◌, refl, ap, ◌∙◌, true, Bool-cases, false, Option, none,
  some, List, [], ◌∷◌, ◌++◌, length, take, drop, min, All, ◌==◌, arith, inl, inr, length-take,
  length-drop, length-append,
}
use traffic_generator.Base.{leb}
use traffic_generator.Gen.Capture.{
  File, file_with, fread, u32_at, Seg, Chain, TcapPkt, LoadFault, Loaded, loaded, failed,
  read_failed, filled_with, read_segs, load_body, load_all, open_tcap, mbufs, stamped,
}
use traffic_generator.Gen.Capture.Bytes.{le-to_le, fread-append, fread-short}
use traffic_generator.Gen.Capture.Reads.{IsWhole, Gives, next_mbuf_lem, filled_with-Reads}
use traffic_generator.Gen.Capture.Whole.{
  Record, IsRecord, header, encode, encode_all, AreRead, file_header, AtEnd, load_pkt-header,
  short-AtEnd, load_capture-ends,
}

-- Bytes that are there are read.
fread-there :
    (n : ℕ) (bs : List ℕ)
    → 0 < n
    → n ≤ length bs
    → fread n (file_with bs false false) ≡ (some (take n bs), file_with (drop n bs) false false)
unfolding fread
fread-there n bs pos le =
    let some_read : (n == 0) ≡ false = ground arith in
    let enough : leb n (length bs) ≡ true = ground arith in rw (some_read, enough) refl

take-beyond :
    {A : Type 0} (xs ys : List A) (k : ℕ)
    → length xs ≤ k
    → take k (xs ++ ys) ≡ xs ++ take (k - length xs) ys
take-beyond [] ys k le = let same : k ≡ k - 0 = omega arith in ap (λ n. take n ys) same
take-beyond (x ∷ xs) ys zero le = absurd (omega (arith, le))
take-beyond (x ∷ xs) ys (suc k) le =
    let same : k - length xs ≡ suc k - suc (length xs) = omega arith in
    ap (λ zs. x ∷ zs) (take-beyond xs ys k (omega (arith, le)) ∙ ap (λ n. xs ++ take n ys) same)

module _ {W : Type 0} (alloc : W → Option ℕ × W) (free : List Seg → W → W)
    (gives : Gives alloc free) where
  -- A read that fails, at the end of the file.
  abbrev IsCut : {A : Type 0} → Loaded W A → Type 0
  IsCut l = (e : LoadFault) × (f' : File) × (w' : W) × (l ≡ failed e f' w') × (f'.eof ≡ true)

  -- The loop over the mbufs, with fewer bytes in the file than it is to read.
  read_segs-short :
      (fuel left : ℕ) (ch : Chain) (bs : List ℕ) (w : W)
      → length bs < left
      → left ≤ fuel
      → ch.pkt_len + left < 2 ^ 32
      → IsWhole ch
      → IsCut (read_segs alloc free fuel left ch (file_with bs false false) w)
  unfolding read_segs
  read_segs-short zero left ch bs w short enough few h = absurd (omega arith)
  read_segs-short (suc fuel) left ch bs w short enough few h =
      let (room, ch₁, w₁, e, n) = next_mbuf_lem alloc free gives ch w h in
      let k = min left room in
      let e₀ = ap (λ p. p.0) e in
      let e₁ = ap (λ p. p.1) e in
      let not_done : (left == 0) ≡ false = ground arith in
      let some_read : 0 < k = ground (arith, n.some_room) in
      elim (Bool-cases (leb k (length bs))) [
        | inl le ↦
            let got = fread-there k bs some_read (ground (arith, le)) in
            let got₀ = ap (λ p. p.0) got in
            let got₁ = ap (λ p. p.1) got in
            let r =
              filled_with-Reads alloc free gives ch ch₁ room (take k bs) h n
                (ground (arith, length-take k bs, some_read, le)) (omega (arith, length-take k bs))
                (omega (arith, length-take k bs)) in
            let (err, f', w', cut, end) =
              read_segs-short fuel (left - k) (filled_with alloc free ch₁ room (take k bs))
                (drop k bs) w₁ (ground (arith, length-drop k bs, le)) (omega (arith, some_read))
                (omega (arith, r.len, length-take k bs)) r.whole in
            (err, f', w', rw (not_done, read_segs, e₀, got₀, got₁, e₁) refl ∙ cut, end)
        | inr gt ↦
            let got = fread-short k (file_with bs false false) (ground (arith, gt)) in
            let got₀ = ap (λ p. p.0) got in
            let got₁ = ap (λ p. p.1) got in
            (
              read_failed,
              file_with [] false true,
              free (mbufs (filled_with alloc free ch₁ room [])) w₁,
              rw (not_done, read_segs, e₀, got₀, got₁, e₁) refl,
              refl,
            )
      ]

  stamped-IsCut : (hdr : List ℕ) (l : Loaded W Chain) → IsCut l → IsCut (stamped alloc free hdr l)
  stamped-IsCut hdr l (e, f', w', cut, end) = (e, f', w', ap (stamped alloc free hdr) cut, end)

  load_body-IsCut :
      (r : Record) (bs : List ℕ) (w : W)
      → IsRecord r
      → length bs < length r.data_of
      → IsCut (load_body alloc free (header r) (file_with bs false false) w)
  unfolding load_body
  load_body-IsCut r bs w h short =
      let n = length r.data_of in
      let caplen : u32_at 8 (header r) ≡ n = le-to_le 4 n (omega (arith, h.len)) in
      let len : u32_at 12 (header r) ≡ n = le-to_le 4 n (omega (arith, h.len)) in
      let same : (u32_at 8 (header r) == u32_at 12 (header r)) ≡ true =
        ground (arith, caplen, len) in
      let (room, a, pos) = gives w in
      let ch : Chain = record { head_room = room; filled = []; pkt_len = 0; nb_segs = 1 } in
      let cap = u32_at 8 (header r) in
      let (e, f', w', cut, end) =
        stamped-IsCut (header r)
          (read_segs alloc free cap cap ch (file_with bs false false) (alloc w).1)
          (read_segs-short cap cap ch bs (alloc w).1 (omega (arith, caplen, short)) (omega arith)
            (omega (arith, caplen, h.len)) (record { fits = tt; counted = refl; head = pos })) in
      (e, f', w', rw (same, a) refl ∙ cut, end)

  -- A record that is cut off anywhere is the end of the file.
  pub encode-AtEnd :
      (r : Record) (k : ℕ)
      → IsRecord r
      → k < length (encode r)
      → AtEnd alloc free gives (take k (encode r))
  encode-AtEnd r k h cut = elim (Bool-cases (leb 16 k)) [
    | inr gt ↦
        short-AtEnd alloc free gives (take k (encode r))
          (ground (arith, length-take k (encode r), gt))
    | inl le ↦ λ w.
        let bs = take (k - 16) r.data_of in
        let split : take k (encode r) ≡ header r ++ bs =
          take-beyond (header r) r.data_of k (ground (arith, le)) in
        let got =
          ap (λ xs. fread 16 (file_with xs false false)) split
          ∙ fread-append 16 (header r) bs false false (omega arith) refl in
        let (e, f', w', ends, end) = load_body-IsCut r bs w h (
          ground
            (arith, le, cut, length-append (header r) r.data_of, length-take (k - 16) r.data_of)) in
        (e, f', w', load_pkt-header alloc free gives _ _ (header r) w got ∙ ends, end)
  ]

  -- A capture that ends within a packet, anywhere in its header or its bytes, opens and is loaded
  -- without an error: the packets before it are all read, with their times and bytes, and the one
  -- that is cut off is left out. It takes a pool that always gives mbufs with some room.
  pub load_capture-cut :
      (others : List ℕ) (rs : List Record) (r : Record) (k fuel : ℕ) (w : W)
      → length others ≡ 16
      → length rs < fuel
      → k < length (encode r)
      → IsRecord r
      → All IsRecord rs
      → (f : File) × (open_tcap (
            some
              (file_with (file_header others ++ (encode_all rs ++ take k (encode r))) false false))
          ≡ (some f, none))
        × (ps : List TcapPkt) × (f' : File) × (w' : W) × (load_all alloc free fuel [] f w
            ≡ loaded ps f' w')
        × AreRead rs ps
  load_capture-cut others rs r k fuel w len enough cut h hs =
      load_capture-ends alloc free gives others rs (take k (encode r)) fuel w len enough
        (encode-AtEnd r k h cut) hs
