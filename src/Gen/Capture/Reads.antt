-- ===== src/Gen/Capture/Reads.antt =====
-- gen/priv/tcap_loader.cpp: a packet that is in a capture is read back as it was written.
use traffic_generator.Base.{
  append_assoc, append_nil, ℕ, zero, suc, ◌+◌, ◌-◌, ◌%◌, ◌^◌, ◌≤◌, ◌<◌, ◌≡◌, refl, sym, ap, ◌∙◌,
  Bool, true, false, Option, some, List, [], ◌∷◌, ◌++◌, length, take, drop, min, length-append,
  length-take, length-drop, take-append-drop, All, All-append, ◌==◌, if◌then◌else◌, ◌⊎◌, inl, inr,
  arith,
}
use mathlib.Core.Path.{subst}
use traffic_generator.Gen.Capture.{
  file_with, fread, le, Seg, Chain, loaded, is_nil, mbufs, next_mbuf, filled_with, read_segs,
}
use traffic_generator.Gen.Capture.Bytes.{fread-append}

-- The data of mbufs, one after the other.
abbrev pub bytes_of : List Seg → List ℕ
bytes_of [] = []
bytes_of (s ∷ ss) = s.data_of ++ bytes_of ss

bytes_of-append : (ss : List Seg) (s : Seg) → bytes_of (ss ++ (s ∷ [])) ≡ bytes_of ss ++ s.data_of
bytes_of-append [] s = append_nil s.data_of
bytes_of-append (t ∷ ss) s =
    ap (λ bs. t.data_of ++ bs) (bytes_of-append ss s)
    ∙ sym (append_assoc t.data_of (bytes_of ss) s.data_of)

-- Every mbuf has some data, in its room.
abbrev pub Fits : Seg → Type 0
Fits s = (0 < length s.data_of) × (length s.data_of ≤ s.room)

-- A packet under construction: its mbufs are filled and counted.
pub record IsWhole (ch : Chain) : Type 0 where
  pub fits : All Fits ch.filled
  pub counted : ch.nb_segs ≡ length (mbufs ch) % 2 ^ 16
  pub head : 0 < ch.head_room

-- What reading `d` into a packet makes of it.
pub record Reads (ch : Chain) (d : List ℕ) (ch' : Chain) : Type 0 where
  pub whole : IsWhole ch'
  pub bytes : bytes_of ch'.filled ≡ bytes_of ch.filled ++ d
  pub len : ch'.pkt_len ≡ ch.pkt_len + length d

pub length-snoc : {A : Type 0} (xs : List A) (x : A) → length (xs ++ (x ∷ [])) ≡ suc (length xs)
length-snoc xs x = omega (arith, length-append xs (x ∷ []))

pub mbufs-filled :
    (ch : Chain) (s : Seg) (ss : List Seg) → ch.filled ≡ ss ++ (s ∷ []) → mbufs ch ≡ ch.filled
mbufs-filled ch s [] e = rw e refl
mbufs-filled ch s (t ∷ ss) e = rw e refl

module _ {W : Type 0} (alloc : W → Option ℕ × W) (free : List Seg → W → W) where
  -- The pool gives mbufs with some room.
  abbrev pub Gives : Type 0
  Gives = (w : W) → (room : ℕ) × ((alloc w).0 ≡ some room) × (0 < room)

  module _ (gives : Gives) where
    -- The mbuf that is filled next.
    pub record Next (ch : Chain) (room : ℕ) (ch' : Chain) : Type 0 where
      pub some_room : 0 < room
      pub filled : ch'.filled ≡ ch.filled
      pub len : ch'.pkt_len ≡ ch.pkt_len
      pub head : ch'.head_room ≡ ch.head_room
      pub counted : ch'.nb_segs ≡ suc (length ch.filled) % 2 ^ 16

    pub next_mbuf_lem :
        (ch : Chain) (w : W)
        → IsWhole ch
        → (room : ℕ) × (ch' : Chain) × (w' : W) × (next_mbuf alloc free ch w
            ≡ (some (room, ch'), w'))
          × Next ch room ch'
    unfolding next_mbuf
    next_mbuf_lem ch w h = elim (nil_or_more ch.filled) [
      | inl e ↦ (
        ch.head_room,
        ch,
        w,
        rw e refl,
        record {
          some_room = h.head;
          filled = refl;
          len = refl;
          head = refl;
          counted =
              h.counted
              ∙ ap
                  (λ (ss : List Seg).
                    length
                      (if is_nil ss then record { room = ch.head_room; data_of = [] } ∷ [] else ss)
                    % 2 ^ 16)
                  e
              ∙ ap (λ (ss : List Seg). suc (length ss) % 2 ^ 16) (sym e);
        },
      )
      | inr e ↦
          let (room, a, pos) = gives w in
          let same : length (mbufs ch) ≡ length ch.filled =
            ap
              (λ b.
                length (if b then record { room = ch.head_room; data_of = [] } ∷ [] else ch.filled))
              e in
          (
            room,
            record ch { nb_segs = (ch.nb_segs + 1) % 2 ^ 16 },
            (alloc w).1,
            rw (e, a) refl,
            record {
              some_room = pos;
              filled = refl;
              len = refl;
              head = refl;
              counted = omega (arith, h.counted, same);
            },
          )
    ]
      where
        nil_or_more : (ss : List Seg) → (ss ≡ []) ⊎ (is_nil ss ≡ false)
        nil_or_more [] = inl refl
        nil_or_more (s ∷ ss) = inr refl

    pub filled_with-Reads :
        (ch ch' : Chain) (room : ℕ) (d : List ℕ)
        → IsWhole ch
        → Next ch room ch'
        → 0 < length d
        → length d ≤ room
        → ch.pkt_len + length d < 2 ^ 32
        → Reads ch d (filled_with alloc free ch' room d)
    filled_with-Reads ch ch' room d h n pos le few =
        let s : Seg = record { room = room; data_of = d } in
        let filled : (filled_with alloc free ch' room d).filled ≡ ch.filled ++ (s ∷ []) =
          ap (λ ss. ss ++ (s ∷ [])) n.filled in
        let whole = mbufs-filled (filled_with alloc free ch' room d) s ch.filled filled in
        record {
          whole = record {
            fits =
                subst (All Fits) (sym filled)
                  (All-append Fits ch.filled (s ∷ []) h.fits ((pos, le), tt));
            counted =
                n.counted
                ∙ ap (λ k. k % 2 ^ 16) (sym (length-snoc ch.filled s))
                ∙ ap (λ (ss : List Seg). length ss % 2 ^ 16) (sym (whole ∙ filled));
            head = subst (λ k. 0 < k) (sym n.head) h.head;
          };
          bytes = ap bytes_of filled ∙ bytes_of-append ch.filled s;
          len = omega (arith, n.len);
        }

    Reads-trans :
        (ch ch' ch'' : Chain) (d d' bytes : List ℕ)
        → d ++ d' ≡ bytes
        → Reads ch d ch'
        → Reads ch' d' ch''
        → Reads ch bytes ch''
    Reads-trans ch ch' ch'' d d' bytes e r r' = record {
      whole = r'.whole;
      bytes =
          r'.bytes
          ∙ ap (λ bs. bs ++ d') r.bytes
          ∙ append_assoc (bytes_of ch.filled) d d'
          ∙ ap (λ bs. bytes_of ch.filled ++ bs) e;
      len = omega (arith, r.len, r'.len, length-append d d', ap length e);
    }

    Reads-nil : (ch : Chain) (d : List ℕ) → length d ≡ 0 → IsWhole ch → Reads ch d ch
    Reads-nil ch [] e h = record {
      whole = h;
      bytes = sym (append_nil (bytes_of ch.filled));
      len = omega arith;
    }
    Reads-nil ch (x ∷ d) e h = absurd (omega (arith, e))

    -- One round that fills an mbuf.
    round :
        (fuel : ℕ) (ch ch' : Chain) (room left : ℕ) (d rest : List ℕ) (fault eof : Bool) (w w' : W)
        → next_mbuf alloc free ch w ≡ (some (room, ch'), w')
        → 0 < left
        → left ≡ length d
        → 0 < room
        → read_segs alloc free (suc fuel) left ch (file_with (d ++ rest) fault eof) w
          ≡ read_segs alloc free fuel
              (left - min left room)
              (filled_with alloc free ch' room (take (min left room) d))
              (file_with (drop (min left room) d ++ rest) fault eof)
              w'
    unfolding read_segs
    round fuel ch ch' room left d rest fault eof w w' e pos len some_room =
        let n = min left room in
        let not_done : (left == 0) ≡ false = ground arith in
        let split : d ++ rest ≡ take n d ++ (drop n d ++ rest) =
          ap (λ bs. bs ++ rest) (sym (take-append-drop n d))
          ∙ append_assoc (take n d) (drop n d) rest in
        let got : fread n (file_with (d ++ rest) fault eof)
            ≡ (some (take n d), file_with (drop n d ++ rest) fault eof) =
          ap (λ bs. fread n (file_with bs fault eof)) split
          ∙ fread-append n (take n d) (drop n d ++ rest) fault eof (omega arith)
              (omega (arith, length-take n d, len)) in
        let got₀ = ap (λ p. p.0) got in
        let got₁ = ap (λ p. p.1) got in
        let e₀ = ap (λ p. p.0) e in
        let e₁ = ap (λ p. p.1) e in rw (not_done, read_segs, e₀, got₀, got₁, e₁) refl

    -- The loop reads all the bytes it is to read, in at most as many rounds.
    pub read_segs-Reads :
        (fuel left : ℕ) (ch : Chain) (d rest : List ℕ) (fault eof : Bool) (w : W)
        → left ≡ length d
        → left ≤ fuel
        → ch.pkt_len + left < 2 ^ 32
        → IsWhole ch
        → (ch' : Chain) × (w' : W) × (read_segs alloc free fuel left ch
              (file_with (d ++ rest) fault eof)
              w
            ≡ loaded ch' (file_with rest fault eof) w')
          × Reads ch d ch'
    unfolding read_segs
    read_segs-Reads zero left ch [] rest fault eof w len enough few h =
        let done : (left == 0) ≡ true = ground arith in
        (ch, w, rw (done, read_segs) refl, Reads-nil ch [] refl h)
    read_segs-Reads zero left ch (x ∷ d) rest fault eof w len enough few h =
        absurd (omega (arith, len, enough))
    read_segs-Reads (suc fuel) left ch [] rest fault eof w len enough few h =
        let done : (left == 0) ≡ true = ground arith in
        (ch, w, rw (done, read_segs) refl, Reads-nil ch [] refl h)
    read_segs-Reads (suc fuel) left ch (x ∷ xs) rest fault eof w len enough few h =
        let d = x ∷ xs in
        let (room, ch₁, w₁, e, n) = next_mbuf_lem ch w h in
        let k = min left room in
        let r : Reads ch (take k d) (filled_with alloc free ch₁ room (take k d)) =
          filled_with-Reads ch ch₁ room (take k d) h n
            (omega (arith, length-take k d, n.some_room, len)) (omega (arith, length-take k d))
            (omega (arith, length-take k d)) in
        let (ch₂, w₂, e₂, r₂) =
          read_segs-Reads fuel (left - k) (filled_with alloc free ch₁ room (take k d)) (drop k d)
            rest fault eof w₁ (omega (arith, length-drop k d, len))
            (omega (arith, n.some_room, len)) (omega (arith, r.len, length-take k d, len))
            r.whole in
        (
          ch₂,
          w₂,
          round fuel ch ch₁ room left d rest fault eof w w₁ e (omega (arith, len)) len n.some_room
              ∙ e₂,
          Reads-trans ch _ ch₂ (take k d) (drop k d) d (take-append-drop k d) r r₂,
        )
