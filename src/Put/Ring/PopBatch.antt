-- ===== src/Put/Ring/PopBatch.antt =====
-- The consumer's calls on ranges of values against the queue, with the range split at the end of
-- the buffer.
use traffic_generator.Base.{
  ℕ, ◌+◌, ◌-◌, ◌%◌, ◌≤◌, ◌<◌, ◌≡◌, refl, sym, ap, ◌∙◌, Option, some, List, [], length, length-drop,
  length-take, drop-drop, arith, take, drop, true, false, Bool-cases, ◌⊎◌, inl, inr, ◌==◌, ltb,
  lt→ltb, if◌then◌else◌,
}
use native.Mathlib.Nat.{mod-lt, mod-add-mod}
use traffic_generator.Base.Words.{add64, add64_pos, sub64, IsPow2, IsPow2-pos, mask_pos}
use traffic_generator.Put.Ring.{
  Ring, slot, destroy, offer, wrap_around, consume_wrapped, consume_avail, consume_batch_reloaded,
  try_consume_batch,
}
use traffic_generator.Put.Ring.Cells.{Cells, read-Cells, Cells-destroy, add_wrap}
use traffic_generator.Put.Ring.Holds.{
  Holds, sub64-tail, sub64-cons_head, slot-tail, visible, reload_head-Holds, length-le-size,
}
use traffic_generator.Put.Ring.Pop.{popped-Holds}

module _ {A : Type 0} {size : ℕ} (p : IsPow2 size) {S : Type 0} (fn : S → List A → ℕ × S) where
  -- A callback consumes no more than it is offered.
  abbrev pub IsModest : Type 0
  IsModest = (s : S) (vs : List A) → (fn s vs).0 ≤ length vs

  -- What a callback does that is offered `m` values, and `n` more if it took them all.
  unfoldable pub served : S → ℕ → ℕ → List A → ℕ × S
  served s m n q =
      let first = fn s (take m q) in
      let second = fn first.1 (take n (drop first.0 q)) in
      if m == first.0 then (first.0 + second.0, second.1) else first

  offer-Cells :
      (s : S) (buff : ℕ → Option A) (t : ℕ) (q : List A) (i n : ℕ)
      → length q ≤ size
      → n ≤ length q
      → i + n ≤ size
      → (0 < n → i ≡ t % size)
      → Cells size buff t q
      → offer fn s buff i n
        ≡ some ((fn s (take n q)).0, (fn s (take n q)).1, destroy buff i (fn s (take n q)).0)
  unfolding offer
  offer-Cells s buff t q i n fits le row at c =
      let e : t + 0 ≡ t = omega arith in
      rw (
        read-Cells size buff t q n i 0 fits (omega arith) row
          (λ pos. at pos ∙ ap (λ (k : ℕ). k % size) (sym e)) c)

  module _ (modest : IsModest) where
    -- The part of a range at the begin of the buffer.
    restart-Cells :
        (s : S) (buff : ℕ → Option A) (t : ℕ) (q : List A) (n c : ℕ)
        → length q ≤ size
        → n ≤ length q
        → t % size ≡ 0
        → Cells size buff t q
        → let out = fn s (take n q) in
          (buff' : ℕ → Option A) × (wrap_around size fn n (c, s, buff)
            ≡ some (c + out.0, out.1, buff'))
          × (out.0 ≤ n)
          × Cells size buff' (t + out.0) (drop out.0 q)
    unfolding wrap_around
    restart-Cells s buff t q n c fits le at cells =
        let few : (fn s (take n q)).0 ≤ n = omega (arith, modest s (take n q), length-take n q) in
        rw (offer-Cells s buff t q 0 n fits le (omega arith) (λ pos. sym at) cells) (
          _,
          refl,
          few,
          Cells-destroy size buff t q _ 0 fits (omega (arith, few)) (omega (arith, few))
              (λ pos. sym at) cells,
        )

    -- A range that wraps, or ends at the end of the buffer.
    wrapped-Cells :
        (s : S) (buff : ℕ → Option A) (t : ℕ) (q : List A) (m n : ℕ)
        → length q ≤ size
        → m + n ≤ length q
        → t % size + m ≡ size
        → Cells size buff t q
        → let out = served s m n q in
          (buff' : ℕ → Option A) × (consume_wrapped size fn s buff (t % size) n
            ≡ some (out.0, out.1, buff'))
          × (out.0 ≤ m + n)
          × Cells size buff' (t + out.0) (drop out.0 q)
    unfolding consume_wrapped served
    wrapped-Cells s buff t q m n fits le row c = elim (Bool-cases (m == taken)) [
      | inr part ↦ rw (first, left, part) (_, refl, omega (arith, few), destroyed)
      | inl whole ↦
          let (buff', e, le', c') =
            restart-Cells (fn s (take m q)).1 (destroy buff (t % size) taken) (t + taken)
              (drop taken q) n taken (omega (arith, length-drop taken q))
              (omega (arith, length-drop taken q, few)) (round (ground arith)) destroyed in
          rw (first, left, whole) (buff', e, omega (arith, few, le'), moved _ buff' c')
    ]
      where
        taken : ℕ
        taken = (fn s (take m q)).0

        few : taken ≤ m
        few = omega (arith, modest s (take m q), length-take m q)

        left : size - t % size ≡ m
        left = omega arith

        first :
            offer fn s buff (t % size) (size - t % size)
            ≡ some (taken, (fn s (take m q)).1, destroy buff (t % size) taken)
        first =
            ap (offer fn s buff (t % size)) left
            ∙ offer-Cells s buff t q (t % size) m fits (omega arith) (omega arith) (λ pos. refl) c

        destroyed : Cells size (destroy buff (t % size) taken) (t + taken) (drop taken q)
        destroyed =
            Cells-destroy size buff t q taken (t % size) fits (omega (arith, few))
              (omega (arith, few)) (λ pos. refl) c

        round : m ≡ taken → (t + taken) % size ≡ 0
        round e =
            let w : t % size + taken ≡ size = omega arith in
            sym (mod-add-mod t size taken) ∙ ap (λ (k : ℕ). k % size) w ∙ grind arith

        moved :
            (d : ℕ) (b : ℕ → Option A)
            → Cells size b (t + taken + d) (drop d (drop taken q))
            → Cells size b (t + (taken + d)) (drop (taken + d) q)
        moved d b c' =
            let e : t + (taken + d) ≡ t + taken + d = omega arith in
            rw (e, ← drop-drop taken d q) c'

    -- How the callback came to its result, offered `avail` values in all.
    abbrev pub Serves : S → ℕ → List A → ℕ × S → Type 0
    Serves s avail q cs =
        (cs ≡ fn s (take avail q)) ⊎ ((m : ℕ) × (n : ℕ) × (m + n ≡ avail) × (cs ≡ served s m n q))

    abbrev pub ConsumesMany : S → ℕ → List A → Option (ℕ × S × Ring A) → Type 0
    ConsumesMany s avail q out =
        (cs : ℕ × S) × (r : Ring A) × (out ≡ some (cs.0, cs.1, r))
        × Serves s avail q cs
        × (cs.0 ≤ avail)
        × Holds size r (drop cs.0 q)

    end_place :
        (r : Ring A) (q : List A) (h : Holds size r q) (avail : ℕ)
        → slot size (add64 r.tail avail) ≡ (h.popped % size + avail) % size
    end_place r q h avail =
        ap (slot size) (ap (λ (k : ℕ). add64 k avail) h.tail_at ∙ add64_pos h.popped avail)
        ∙ mask_pos p (h.popped + avail)
        ∙ sym (mod-add-mod h.popped size avail)

    consume_avail-ConsumesMany :
        (s : S) (r : Ring A) (q : List A) (avail : ℕ) (h : Holds size r q)
        → 0 < avail
        → h.popped + avail ≤ h.seen
        → ConsumesMany s avail q (consume_avail size fn s r avail)
    unfolding consume_avail
    consume_avail-ConsumesMany s r q avail h pos known =
        elim (add_wrap (h.popped % size) avail size below (omega (arith, fits, h.seen_le))) [
          | inl line ↦
              let row : h.popped % size + avail ≤ size =
                omega (arith, mod-lt (h.popped % size + avail) (IsPow2-pos p)) in
              rw
                (
                  slot-tail p h,
                  end_place r q h avail,
                  lt→ltb (h.popped % size) ((h.popped % size + avail) % size) (omega arith),
                  offer-Cells s r.buff h.popped q (h.popped % size) avail fits le row (λ _. refl)
                      h.cells,
                )
                (
                  fn s (take avail q),
                  _,
                  refl,
                  inl refl,
                  few,
                  popped-Holds p r q _ _ h (omega (arith, few)) (
                      Cells-destroy size r.buff h.popped q _ _ fits (omega (arith, few, le))
                        (omega (arith, few, row)) (λ _. refl) h.cells),
                )
          | inr wraps ↦
              let end = (h.popped % size + avail) % size in
              let (buff, e, le', cells) =
                wrapped-Cells s r.buff h.popped q (size - h.popped % size) end fits
                  (omega (arith, below, le)) (omega (arith, below)) h.cells in
              rw
                (
                  slot-tail p h,
                  end_place r q h avail,
                  not_before (h.popped % size) end (omega (arith, fits, le)),
                  e,
                )
                (
                  served s (size - h.popped % size) end q,
                  _,
                  refl,
                  inr (_, _, omega (arith, below), refl),
                  omega (arith, le', below),
                  popped-Holds p r q _ buff h (omega (arith, le', below)) cells,
                )
        ]
      where
        fits : length q ≤ size
        fits = length-le-size p h

        le : avail ≤ length q
        le = omega (arith, h.seen_le)

        below : h.popped % size < size
        below = mod-lt h.popped (IsPow2-pos p)

        few : (fn s (take avail q)).0 ≤ avail
        few = omega (arith, modest s (take avail q), length-take avail q)

        not_before : (a b : ℕ) → b ≤ a → ltb a b ≡ false
        not_before a b k = ground arith

    -- A consume of a range, on a ring that holds a queue with a value in it, never reads a slot
    -- with no object. For a callback that consumes no more than it is offered, it is called on the
    -- visible values in order: on all of them, or, where they go round the buffer's end, on a
    -- first part and, if it took that whole, on the others. What it took leaves the queue.
    pub try_consume_batch-ConsumesMany :
        (s : S) (r : Ring A) (q : List A)
        → Holds size r q
        → 0 < length q
        → ConsumesMany s (visible r) q (try_consume_batch size fn s r)
    unfolding try_consume_batch consume_batch_reloaded reload_head-Holds
    try_consume_batch-ConsumesMany s r q h some_there =
        elim (Bool-cases (sub64 r.cons_head r.tail == 0)) [
          | inr known ↦ rw known (
              consume_avail-ConsumesMany s r q _ h (ground arith)
                (omega (arith, sub64-cons_head p h, h.popped_le)))
          | inl unknown ↦
              let not_empty : (sub64 r.head r.tail == 0) ≡ false = ground (arith, sub64-tail p h) in
              rw (unknown, not_empty)
                (consume_avail-ConsumesMany s (record r { cons_head = r.head }) q _
                  (reload_head-Holds p h) (omega (arith, sub64-tail p h))
                  (omega (arith, sub64-tail p h)))
        ]

    -- On the empty queue the callback is not called.
    pub try_consume_batch-empty :
        (s : S) (r : Ring A)
        → Holds size r []
        → (r' : Ring A) × (try_consume_batch size fn s r ≡ some (0, s, r')) × Holds size r' []
    unfolding try_consume_batch consume_batch_reloaded reload_head-Holds
    try_consume_batch-empty s r h =
        let none_known : (sub64 r.cons_head r.tail == 0) ≡ true =
          ground (arith, sub64-cons_head p h, h.seen_le) in
        let none_there : (sub64 r.head r.tail == 0) ≡ true = ground (arith, sub64-tail p h) in
        rw (none_known, none_there) (_, refl, reload_head-Holds p h)
