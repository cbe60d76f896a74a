-- ===== src/Gen/Capture/Pool.antt =====
-- gen/priv/tcap_loader.cpp: the load of a packet ends, and leaks no mbuf.
use traffic_generator.Base.{
  ℕ, zero, suc, ◌+◌, ◌-◌, ◌%◌, ◌^◌, ◌≤◌, ◌<◌, ◌≡◌, refl, sym, ap, ◌∙◌, true, false, Bool-cases,
  Option, none, some, Option-cases, List, [], ◌∷◌, length, drop, min, length-drop, leb, ◌==◌,
  if◌then◌else◌, ◌⊎◌, inl, inr, arith,
}
use mathlib.Core.Path.{subst}
use traffic_generator.Gen.Capture.{
  File, fread, u32_at, Seg, Chain, TcapPkt, Loaded, loaded, failed, is_nil, mbufs, next_mbuf,
  filled_with, read_segs, load_body, no_mbuf, read_failed, stamped, LoadFault, partial_capture,
}
use traffic_generator.Gen.Capture.Reads.{mbufs-filled, length-snoc}

-- A read that gives bytes takes them from the file.
pub fread-consumes :
    (n : ℕ) (f : File) (bytes : List ℕ)
    → (fread n f).0 ≡ some bytes
    → (length (fread n f).1.bytes + n ≡ length f.bytes) × (0 < n)
unfolding fread
fread-consumes n f bytes h = elim (Bool-cases (n == 0)) [
  | inl e ↦ let no : (fread n f).0 ≡ none = rw e refl in cc
  | inr e ↦ elim (Bool-cases (leb n (length f.bytes))) [
    | inl e' ↦
        let rest : (fread n f).1.bytes ≡ drop n f.bytes = rw (e, e') refl in
        (ground (arith, ap length rest, length-drop n f.bytes, e'), ground (arith, e))
    | inr e' ↦ let no : (fread n f).0 ≡ none = rw (e, e') refl in cc
  ]
]

-- A read never adds to the file.
pub fread-le : (n : ℕ) (f : File) → length (fread n f).1.bytes ≤ length f.bytes
unfolding fread
fread-le n f = elim (Bool-cases (n == 0)) [
  | inl e ↦ rw e (omega arith)
  | inr e ↦ elim (Bool-cases (leb n (length f.bytes))) [
    | inl e' ↦
        let rest : (fread n f).1.bytes ≡ drop n f.bytes = rw (e, e') refl in
        omega (arith, ap length rest, length-drop n f.bytes)
    | inr e' ↦
        let rest : (fread n f).1.bytes ≡ [] = rw (e, e') refl in omega (arith, ap length rest)
  ]
]

abbrev pub cnt_mbufs : Chain → ℕ
cnt_mbufs ch = length (mbufs ch)

module _ {W : Type 0} (alloc : W → Option ℕ × W) (free : List Seg → W → W) (live : W → ℕ) where
  -- A pool that counts its mbufs: those of an allocation and of a freed packet.
  pub record Counts : Type 0 where
    pub gives : (w : W) (room : ℕ) → (alloc w).0 ≡ some room → live (alloc w).1 ≡ live w + 1
    pub refuses : (w : W) → (alloc w).0 ≡ none → live (alloc w).1 ≡ live w
    pub takes : (ss : List Seg) (w : W) → live (free ss w) ≡ live w - length ss

  -- How something ends that began with `n` mbufs in use and loads `cnt` of them: with so many more
  -- in use, or, if it fails, with as many as before; and with at most `m` bytes of the file left.
  pub data Balanced {A : Type 0} (cnt : A → ℕ) (n m : ℕ) : Loaded W A → Type 0 where
    kept :
        (a : A) (f : File) (w : W)
        → live w ≡ n + cnt a
        → length f.bytes ≤ m
        → Balanced cnt n m (loaded a f w)
    freed :
        (e : LoadFault) (f : File) (w : W)
        → live w ≡ n
        → length f.bytes ≤ m
        → Balanced cnt n m (failed e f w)

  pub wider :
      {A : Type 0} {cnt : A → ℕ} {n m k : ℕ} {r : Loaded W A}
      → Balanced cnt n m r
      → m ≤ k
      → Balanced cnt n k r
  wider (kept a f w c le) more = kept a f w c (omega (arith, le, more))
  wider (freed e f w c le) more = freed e f w c (omega (arith, le, more))

  module _ (counts : Counts) where
    -- The next mbuf is the first one, or one more of the pool.
    next_mbuf_lem :
        (ch : Chain) (w : W)
        → (((next_mbuf alloc free ch w).0 ≡ none) × (live (next_mbuf alloc free ch w).1 ≡ live w))
          ⊎ ((room : ℕ) × (ch' : Chain) × ((next_mbuf alloc free ch w).0 ≡ some (room, ch'))
              × ((bytes : List ℕ)
                  → live (next_mbuf alloc free ch w).1 + cnt_mbufs ch
                    ≡ live w + cnt_mbufs (filled_with alloc free ch' room bytes)))
    unfolding next_mbuf
    next_mbuf_lem ch w = elim (nil_or_more ch.filled) [
      | inl e ↦ inr (ch.head_room, ch, rw e refl, λ bytes. rw e refl)
      | inr e ↦ elim (Option-cases (alloc w).0) [
        | inl none_left ↦
            inl (rw (e, none_left) refl, rw (e, none_left) (counts.refuses w none_left))
        | inr (room, a) ↦
            let ch' = record ch { nb_segs = (ch.nb_segs + 1) % 2 ^ 16 } in
            inr (
              room,
              ch',
              rw (e, a) refl,
              λ bytes.
                  let s : Seg = record { room = room; data_of = bytes } in
                  let more : cnt_mbufs (filled_with alloc free ch' room bytes)
                      ≡ suc (length ch.filled) =
                    ap length
                      (mbufs-filled (filled_with alloc free ch' room bytes) s ch.filled refl)
                    ∙ length-snoc ch.filled s in
                  let same : cnt_mbufs ch ≡ length ch.filled =
                    ap
                      (λ b. length (
                        if b then record { room = ch.head_room; data_of = [] } ∷ [] else ch.filled))
                      e in
                  let gone : live (next_mbuf alloc free ch w).1 ≡ live w + 1 =
                    rw (e, a) (counts.gives w room a) in
                  omega (arith, more, same, gone),
            )
      ]
    ]
      where
        nil_or_more : (ss : List Seg) → (ss ≡ []) ⊎ (is_nil ss ≡ false)
        nil_or_more [] = inl refl
        nil_or_more (s ∷ ss) = inr refl

    read_segs-Balanced :
        (fuel left : ℕ) (ch : Chain) (f : File) (w : W) (n m : ℕ)
        → left ≤ fuel
        → live w ≡ n + cnt_mbufs ch
        → length f.bytes ≤ m
        → Balanced cnt_mbufs n m (read_segs alloc free fuel left ch f w)
    unfolding read_segs
    read_segs-Balanced zero left ch f w n m enough counted le =
        let done : (left == 0) ≡ true = ground arith in
        let ends : read_segs alloc free zero left ch f w ≡ loaded ch f w =
          rw (done, read_segs) refl in
        subst (Balanced cnt_mbufs n m) (sym ends) (kept ch f w counted le)
    read_segs-Balanced (suc fuel) left ch f w n m enough counted le =
        let goal = Balanced cnt_mbufs n m in
        elim (Bool-cases (left == 0)) [
          | inl done ↦
              let ends : read_segs alloc free (suc fuel) left ch f w ≡ loaded ch f w =
                rw (done, read_segs) refl in
              subst goal (sym ends) (kept ch f w counted le)
          | inr more ↦ elim (next_mbuf_lem ch w) [
            | inl (e, same) ↦
                let ends : read_segs alloc free (suc fuel) left ch f w
                    ≡ failed no_mbuf f (free (mbufs ch) (next_mbuf alloc free ch w).1) =
                  rw (more, read_segs, e) refl in
                subst goal (sym ends) (
                  freed no_mbuf f _
                    (omega
                      (arith, counts.takes (mbufs ch) (next_mbuf alloc free ch w).1, same, counted))
                    le)
            | inr (room, ch', e, grows) ↦ elim (Option-cases (fread (min left room) f).0) [
              | inl refused ↦
                  let ss = mbufs (filled_with alloc free ch' room []) in
                  let ends : read_segs alloc free (suc fuel) left ch f w
                      ≡ failed read_failed (fread (min left room) f).1
                          (free ss (next_mbuf alloc free ch w).1) =
                    rw (more, read_segs, e, refused) refl in
                  subst goal (sym ends) (
                    freed read_failed _ _
                      (omega
                        (arith, counts.takes ss (next_mbuf alloc free ch w).1, grows [], counted))
                      (omega (arith, fread-le (min left room) f, le)))
              | inr (bytes, got) ↦
                  let (taken, pos) = fread-consumes (min left room) f bytes got in
                  let goes_on : read_segs alloc free (suc fuel) left ch f w
                      ≡ read_segs alloc free fuel (left - min left room)
                          (filled_with alloc free ch' room bytes) (fread (min left room) f).1
                          (next_mbuf alloc free ch w).1 =
                    rw (more, read_segs, e, got) refl in
                  subst goal (sym goes_on) (
                    read_segs-Balanced fuel (left - min left room)
                      (filled_with alloc free ch' room bytes) (fread (min left room) f).1
                      (next_mbuf alloc free ch w).1 n m (omega arith)
                      (omega (arith, grows bytes, counted)) (omega (arith, taken, le)))
            ]
          ]
        ]

    stamped-Balanced :
        (hdr : List ℕ) (n m : ℕ) (r : Loaded W Chain)
        → Balanced cnt_mbufs n m r
        → Balanced (λ (p : TcapPkt). cnt_mbufs p.chain) n m (stamped alloc free hdr r)
    stamped-Balanced hdr n m _ (kept ch f w c le) = kept _ f w c le
    stamped-Balanced hdr n m _ (freed e f w c le) = freed e f w c le

    pub load_body-Balanced :
        (hdr : List ℕ) (f : File) (w : W)
        → Balanced
            (λ (p : TcapPkt). cnt_mbufs p.chain)
            (live w)
            (length f.bytes)
            (load_body alloc free hdr f w)
    unfolding load_body
    load_body-Balanced hdr f w =
        let n = u32_at 8 hdr in
        let goal = Balanced (λ (p : TcapPkt). cnt_mbufs p.chain) (live w) (length f.bytes) in
        elim (Bool-cases (n == u32_at 12 hdr)) [
          | inr partial ↦
              let ends : load_body alloc free hdr f w ≡ failed partial_capture f w =
                rw partial refl in
              subst goal (sym ends) (freed partial_capture f w refl (omega arith))
          | inl same ↦ elim (Option-cases (alloc w).0) [
            | inl refused ↦
                let ends : load_body alloc free hdr f w ≡ failed no_mbuf f (alloc w).1 =
                  rw (same, refused) refl in
                subst goal (sym ends)
                  (freed no_mbuf f (alloc w).1 (counts.refuses w refused) (omega arith))
            | inr (room, a) ↦
                let ch : Chain = record {
                  head_room = room;
                  filled = [];
                  pkt_len = 0;
                  nb_segs = 1;
                } in
                let goes_on : load_body alloc free hdr f w
                    ≡ stamped alloc free hdr (read_segs alloc free n n ch f (alloc w).1) =
                  rw (same, a) refl in
                subst goal (sym goes_on) (
                  stamped-Balanced hdr (live w) (length f.bytes) _ (
                    read_segs-Balanced n n ch f (alloc w).1 (live w) (length f.bytes) (omega arith)
                      (counts.gives w room a) (omega arith)))
          ]
        ]
