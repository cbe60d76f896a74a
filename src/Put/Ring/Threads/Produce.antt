-- ===== src/Put/Ring/Threads/Produce.antt =====
-- put/spsc_ring.h: the producer's accesses keep the invariant.
use traffic_generator.Base.{
  ℕ, ◌+◌, ◌-◌, ◌%◌, ◌≤◌, ◌<◌, ◌≡◌, refl, sym, ap, ◌∙◌, none, some, [], ◌∷◌, ◌++◌, length,
  length-append, length-drop, drop, get_elem?-eq_none, arith, Bool-cases, ◌==◌, inl, inr, min,
}
use mathlib.Core.Path.{subst}
use mathlib.Core.List.{append_assoc, append-nil}
use traffic_generator.Base.Words.{sub64, word, IsPow2, IsPow2-le, mask_pos}
use traffic_generator.Put.Ring.{slot, write}
use traffic_generator.Put.Ring.Cells.{Cells, Cells-snoc}
use traffic_generator.Put.Ring.Threads.{
  Threads, Producer, full, room, constructed, load, produce_at,
}
use traffic_generator.Put.Ring.Threads.Invariant.{
  Inv, ProducerKnows, unpublished, cnt_destroyed, cnt_taken, drop_first, destroyed_le, taken_le,
}

module _ {A : Type 0} {size : ℕ} (p : IsPow2 size) where
  -- The producer moves on with what it knows of the tail, which may be more than before.
  looked-Inv :
      (s : Threads A) (pc pc' : Producer A) (i : Inv size (record s { prod = pc }))
      (freed' tail' : ℕ)
      → i.freed ≤ freed'
      → freed' ≤ i.popped
      → tail' ≡ freed' % word
      → unpublished pc' ≡ unpublished pc
      → ProducerKnows pc' s.ring.head (i.popped + length i.q < freed' + size)
      → Inv size (record s { ring = record s.ring { prod_tail = tail' }; prod = pc' })
  looked-Inv s pc pc' i freed' tail' more le at e knows = record {
    freed = freed';
    popped = i.popped;
    seen = i.seen;
    q = i.q;
    freed_le = le;
    popped_le = i.popped_le;
    seen_le = i.seen_le;
    fits = omega (arith, i.fits, ap length e);
    head_at = i.head_at;
    prod_tail_at = at;
    tail_at = i.tail_at;
    cons_head_at = i.cons_head_at;
    cells = rw e i.cells;
    producer = knows;
    consumer = i.consumer;
    order = i.order;
  }

  module _ (s : Threads A) (x : A) (later : ℕ) where
    start-Inv :
        Inv size (record s { prod = Producer.idle })
        → Inv size (produce_at size Producer.idle x later (record s { prod = Producer.idle }))
    unfolding produce_at
    start-Inv i = elim (Bool-cases (sub64 s.ring.head s.ring.prod_tail == size)) [
      | inl e ↦ rw e (
          looked-Inv s Producer.idle (full x s.ring.head) i i.freed s.ring.prod_tail (omega arith)
            i.freed_le i.prod_tail_at refl refl)
      | inr e ↦
          let free : i.popped + length i.q < i.freed + size =
            ground (arith, IsPow2-le p, i.head_at, i.prod_tail_at, i.fits, i.freed_le) in
          rw e (
            looked-Inv s Producer.idle (room x s.ring.head) i i.freed s.ring.prod_tail (omega arith)
              i.freed_le i.prod_tail_at refl (refl, free))
    ]

    load_tail-Inv :
        (head : ℕ)
        → Inv size (record s { prod = full x head })
        → Inv size (produce_at size (full x head) x later (record s { prod = full x head }))
    unfolding produce_at
    load_tail-Inv head i =
        let tail' = load s.ring.prod_tail s.ring.tail later in
        let freed' = i.freed + min later (i.popped - i.freed) in
        let at : tail' ≡ freed' % word =
          omega (arith, i.prod_tail_at, i.tail_at, i.freed_le, i.fits, IsPow2-le p) in
        let le : freed' ≤ i.popped = omega (arith, i.freed_le) in
        elim (Bool-cases (sub64 head tail' == size)) [
          | inl e ↦
              rw e (
                looked-Inv s (full x head) Producer.idle i freed' tail' (omega arith) le at refl tt)
          | inr e ↦
              let free : i.popped + length i.q < freed' + size =
                ground (arith, IsPow2-le p, i.producer, i.head_at, at, i.fits, le) in
              rw e (
                looked-Inv s (full x head) (room x head) i freed' tail' (omega arith) le at refl
                  (i.producer, free))
        ]

    -- The values that are still there, and the place of the one to come after them.
    left-Cells :
        (head : ℕ) (i : Inv size (record s { prod = room x head }))
        → (cnt_destroyed s.cons ≤ length i.q)
          × (slot size head
              ≡ (i.popped + cnt_destroyed s.cons + length (drop (cnt_destroyed s.cons) i.q)) % size)
          × Cells size s.ring.buff
              (i.popped + cnt_destroyed s.cons)
              (drop (cnt_destroyed s.cons) i.q)
          × (length (drop (cnt_destroyed s.cons) i.q) < size)
    left-Cells head i =
        let gone = cnt_destroyed s.cons in
        let le : gone ≤ length i.q =
          destroyed_le s.cons s.ring.tail i.popped i.seen i.q i.consumer i.seen_le in
        (
          le,
          ap (slot size) (i.producer.0 ∙ i.head_at)
              ∙ mask_pos p (i.popped + length i.q)
              ∙ ap (λ (k : ℕ). k % size) (omega (arith, length-drop gone i.q, le)),
          subst (Cells size s.ring.buff (i.popped + gone)) (ap (drop gone) (append-nil i.q))
              i.cells,
          omega (arith, length-drop gone i.q, i.producer.1, i.freed_le),
        )

    pub room-free :
        (head : ℕ)
        → Inv size (record s { prod = room x head })
        → s.ring.buff (slot size head) ≡ none
    room-free head i =
        let (_, place, cells, lt) = left-Cells head i in
        let left = drop (cnt_destroyed s.cons) i.q in
        ap s.ring.buff place
        ∙ cells (length left) lt
        ∙ get_elem?-eq_none left (length left) (omega arith)

    construct-Inv :
        (head : ℕ)
        → Inv size (record s { prod = room x head })
        → Inv size (produce_at size (room x head) x later (record s { prod = room x head }))
    unfolding produce_at
    construct-Inv head i =
        let gone = cnt_destroyed s.cons in
        let left = drop gone i.q in
        let (le, place, before, lt) = left-Cells head i in
        let after : Cells size (write s.ring.buff (slot size head) (some x)) (i.popped + gone)
            (drop gone (i.q ++ (x ∷ []))) =
          rw (place, drop_first i.q (x ∷ []) gone le)
            (Cells-snoc size s.ring.buff (i.popped + gone) left x lt before) in
        record {
          freed = i.freed;
          popped = i.popped;
          seen = i.seen;
          q = i.q;
          freed_le = i.freed_le;
          popped_le = i.popped_le;
          seen_le = i.seen_le;
          fits = omega (arith, i.producer.1);
          head_at = i.head_at;
          prod_tail_at = i.prod_tail_at;
          tail_at = i.tail_at;
          cons_head_at = i.cons_head_at;
          cells = after;
          producer = i.producer.0;
          consumer = i.consumer;
          order = i.order;
        }

    publish-Inv :
        (head : ℕ)
        → Inv size (record s { prod = constructed x head })
        → Inv size
            (produce_at size (constructed x head) x later (record s { prod = constructed x head }))
    unfolding produce_at
    publish-Inv head i =
        let more = length-append i.q (x ∷ []) in
        let le : cnt_taken s.cons ≤ length i.q =
          taken_le s.cons s.ring.tail i.popped i.seen i.q i.consumer i.seen_le in
        record {
          freed = i.freed;
          popped = i.popped;
          seen = i.seen;
          q = i.q ++ (x ∷ []);
          freed_le = i.freed_le;
          popped_le = i.popped_le;
          seen_le = omega (arith, more, i.seen_le);
          fits = omega (arith, more, i.fits);
          head_at = omega (arith, more, i.producer, i.head_at);
          prod_tail_at = i.prod_tail_at;
          tail_at = i.tail_at;
          cons_head_at = i.cons_head_at;
          cells = rw append-nil i.cells;
          producer = tt;
          consumer = i.consumer;
          order =
              ap (λ l. l ++ (x ∷ [])) i.order
              ∙ append_assoc s.consumed (drop (cnt_taken s.cons) i.q) (x ∷ [])
              ∙ ap (λ l. s.consumed ++ l) (sym (drop_first i.q (x ∷ []) (cnt_taken s.cons) le));
        }

  pub produce_at-Inv :
      (s : Threads A) (x : A) (later : ℕ) (pc : Producer A)
      → Inv size (record s { prod = pc })
      → Inv size (produce_at size pc x later (record s { prod = pc }))
  unfolding produce_at
  produce_at-Inv s x later Producer.idle i = start-Inv s x later i
  produce_at-Inv s x later (full y head) i = load_tail-Inv s y later head i
  produce_at-Inv s x later (room y head) i = construct-Inv s y later head i
  produce_at-Inv s x later (constructed y head) i = publish-Inv s y later head i
