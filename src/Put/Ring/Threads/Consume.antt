-- ===== src/Put/Ring/Threads/Consume.antt =====
-- put/spsc_ring.h: the consumer's accesses come to their ends and keep the invariant.
use traffic_generator.Base.{
  ℕ, ◌+◌, ◌-◌, ◌%◌, ◌≤◌, ◌<◌, ◌≡◌, refl, sym, ap, ◌∙◌, Option, none, some, List, [], ◌∷◌, ◌++◌,
  length, length-append, length-drop, drop, get_elem?, arith, Bool, Bool-cases, ◌==◌, inl, inr, min,
}
use mathlib.Core.Path.{subst}
use mathlib.Core.List.{append_assoc}
use traffic_generator.Base.Words.{sub64, word, IsPow2, IsPow2-le, IsPow2-pos, mask_pos}
use traffic_generator.Put.Ring.{slot, write}
use traffic_generator.Put.Ring.Cells.{Cells, Cells-tail}
use traffic_generator.Put.Ring.Threads.{
  Threads, Producer, Consumer, full, room, constructed, empty, there, taken, destroyed, load,
  consume_at, call_back,
}
use traffic_generator.Put.Ring.Threads.Invariant.{
  Inv, ProducerKnows, ConsumerKnows, unpublished, cnt_destroyed, cnt_taken, drop_first,
}

-- An access comes to its end, and keeps the invariant.
abbrev pub Goes : {A : Type 0} → ℕ → Option (Threads A) → Type 0
Goes {A} size out = (s' : Threads A) × (out ≡ some s') × Inv size s'

module _ {A : Type 0} {size : ℕ} (p : IsPow2 size) where
  -- The consumer moves on with what it knows of the head, which may be more than before.
  seen-Inv :
      (s : Threads A) (pc pc' : Consumer) (i : Inv size (record s { cons = pc })) (seen' head' : ℕ)
      → i.seen ≤ seen'
      → seen' ≤ i.popped + length i.q
      → head' ≡ seen' % word
      → cnt_destroyed pc' ≡ cnt_destroyed pc
      → cnt_taken pc' ≡ cnt_taken pc
      → ConsumerKnows pc' s.ring.tail (i.popped < seen')
      → Inv size (record s { ring = record s.ring { cons_head = head' }; cons = pc' })
  seen-Inv s pc pc' i seen' head' more le at e e' knows = record {
    freed = i.freed;
    popped = i.popped;
    seen = seen';
    q = i.q;
    freed_le = i.freed_le;
    popped_le = omega (arith, i.popped_le);
    seen_le = le;
    fits = i.fits;
    head_at = i.head_at;
    prod_tail_at = i.prod_tail_at;
    tail_at = i.tail_at;
    cons_head_at = at;
    cells = rw e i.cells;
    producer = i.producer;
    consumer = knows;
    order = rw e' i.order;
  }

  first_of : (q : List A) → 0 < length q → (v : A) × (get_elem? q 0 ≡ some v) × (q ≡ v ∷ drop 1 q)
  first_of [] h = absurd (omega arith)
  first_of (v ∷ q) h = (v, refl, refl)

  Cells-drop :
      (buff : ℕ → Option A) (t : ℕ) (l : List A)
      → 0 < length l
      → length l ≤ size
      → Cells size buff t l
      → Cells size (write buff (t % size) none) (t + 1) (drop 1 l)
  Cells-drop buff t [] pos le c = absurd (omega arith)
  Cells-drop buff t (v ∷ l) pos le c = Cells-tail size buff t v l le c

  module _ (s : Threads A) (takes : A → Bool) (later : ℕ) where
    begin-Goes :
        Inv size (record s { cons = Consumer.idle })
        → Goes size (consume_at size Consumer.idle takes later (record s { cons = Consumer.idle }))
    unfolding consume_at
    begin-Goes i = elim (Bool-cases (sub64 s.ring.cons_head s.ring.tail == 0)) [
      | inl e ↦ (
        _,
        rw e refl,
        seen-Inv s Consumer.idle (empty s.ring.tail) i i.seen s.ring.cons_head (omega arith)
            i.seen_le i.cons_head_at refl refl refl,
      )
      | inr e ↦
          let some_there : i.popped < i.seen = ground (
            arith,
            IsPow2-le p,
            i.cons_head_at,
            i.tail_at,
            i.popped_le,
            i.seen_le,
            i.fits,
            i.freed_le,
          ) in
          (
            _,
            rw e refl,
            seen-Inv s Consumer.idle (there s.ring.tail) i i.seen s.ring.cons_head (omega arith)
                i.seen_le i.cons_head_at refl refl (refl, some_there),
          )
    ]

    load_head-Goes :
        (tail : ℕ)
        → Inv size (record s { cons = empty tail })
        → Goes size (consume_at size (empty tail) takes later (record s { cons = empty tail }))
    unfolding consume_at
    load_head-Goes tail i =
        let head' = load s.ring.cons_head s.ring.head later in
        let seen' = i.seen + min later (i.popped + length i.q - i.seen) in
        let at : head' ≡ seen' % word = omega (
          arith,
          i.cons_head_at,
          i.head_at,
          i.popped_le,
          i.seen_le,
          i.freed_le,
          i.fits,
          IsPow2-le p,
        ) in
        let le : seen' ≤ i.popped + length i.q = omega (arith, i.seen_le) in
        elim (Bool-cases (sub64 head' tail == 0)) [
          | inl e ↦ (
            _,
            rw e refl,
            seen-Inv s (empty tail) Consumer.idle i seen' head' (omega arith) le at refl refl tt,
          )
          | inr e ↦
              let some_there : i.popped < seen' = ground (
                arith,
                IsPow2-le p,
                i.consumer,
                i.tail_at,
                at,
                i.popped_le,
                le,
                i.fits,
                i.freed_le,
              ) in
              (
                _,
                rw e refl,
                seen-Inv s (empty tail) (there tail) i seen' head' (omega arith) le at refl refl
                    (i.consumer, some_there),
              )
        ]

    took-Inv :
        (tail : ℕ) (v : A) (i : Inv size (record s { cons = there tail }))
        → i.q ≡ v ∷ drop 1 i.q
        → Inv size (record s { cons = taken tail; consumed = s.consumed ++ (v ∷ []) })
    took-Inv tail v i e = record {
      freed = i.freed;
      popped = i.popped;
      seen = i.seen;
      q = i.q;
      freed_le = i.freed_le;
      popped_le = i.popped_le;
      seen_le = i.seen_le;
      fits = i.fits;
      head_at = i.head_at;
      prod_tail_at = i.prod_tail_at;
      tail_at = i.tail_at;
      cons_head_at = i.cons_head_at;
      cells = i.cells;
      producer = i.producer;
      consumer = i.consumer;
      order =
          i.order
          ∙ ap (λ l. s.consumed ++ l) e
          ∙ sym (append_assoc s.consumed (v ∷ []) (drop 1 i.q));
    }

    get-append : (q u : List A) → 0 < length q → get_elem? (q ++ u) 0 ≡ get_elem? q 0
    get-append [] u h = absurd (omega arith)
    get-append (v ∷ q) u h = refl

    call_back-Goes :
        (tail : ℕ)
        → Inv size (record s { cons = there tail })
        → Goes size (consume_at size (there tail) takes later (record s { cons = there tail }))
    unfolding consume_at call_back
    call_back-Goes tail i =
        let some_there : 0 < length i.q = omega (arith, i.consumer.1, i.seen_le) in
        let (v, first, e) = first_of i.q some_there in
        let place : slot size tail ≡ (i.popped + 0 + 0) % size =
          ap (slot size) (i.consumer.0 ∙ i.tail_at)
          ∙ mask_pos p i.popped
          ∙ ap (λ (k : ℕ). k % size) (omega arith) in
        let here : s.ring.buff (slot size tail) ≡ some v =
          ap s.ring.buff place
          ∙ i.cells 0 (IsPow2-pos p)
          ∙ get-append i.q (unpublished s.prod) some_there
          ∙ first in
        elim (Bool-cases (takes v)) [
          | inl t ↦ (_, rw (here, call_back, t) refl, took-Inv tail v i e)
          | inr t ↦ (
            _,
            rw (here, call_back, t) refl,
            seen-Inv s (there tail) Consumer.idle i i.seen s.ring.cons_head (omega arith) i.seen_le
                i.cons_head_at refl refl tt,
          )
        ]

    destroy-Goes :
        (tail : ℕ)
        → Inv size (record s { cons = taken tail })
        → Goes size (consume_at size (taken tail) takes later (record s { cons = taken tail }))
    unfolding consume_at
    destroy-Goes tail i =
        let u = unpublished s.prod in
        let all_of = length-append i.q u in
        let same : i.popped + 0 ≡ i.popped = omega arith in
        let place : slot size tail ≡ i.popped % size =
          ap (slot size) (i.consumer.0 ∙ i.tail_at) ∙ mask_pos p i.popped in
        let before : Cells size s.ring.buff i.popped (i.q ++ u) =
          subst (λ (k : ℕ). Cells size s.ring.buff k (i.q ++ u)) same i.cells in
        let after : Cells size (write s.ring.buff (slot size tail) none) (i.popped + 1)
            (drop 1 (i.q ++ u)) =
          rw place (
            Cells-drop s.ring.buff i.popped (i.q ++ u)
              (omega (arith, all_of, i.consumer.1, i.seen_le))
              (omega (arith, all_of, i.fits, i.freed_le)) before) in
        (
          _,
          refl,
          record {
            freed = i.freed;
            popped = i.popped;
            seen = i.seen;
            q = i.q;
            freed_le = i.freed_le;
            popped_le = i.popped_le;
            seen_le = i.seen_le;
            fits = i.fits;
            head_at = i.head_at;
            prod_tail_at = i.prod_tail_at;
            tail_at = i.tail_at;
            cons_head_at = i.cons_head_at;
            cells = after;
            producer = i.producer;
            consumer = i.consumer;
            order = i.order;
          },
        )

    give_back-Goes :
        (tail : ℕ)
        → Inv size (record s { cons = destroyed tail })
        → Goes size
            (consume_at size (destroyed tail) takes later (record s { cons = destroyed tail }))
    unfolding consume_at
    give_back-Goes tail i =
        let left = length-drop 1 i.q in
        let some_there : 0 < length i.q = omega (arith, i.consumer.1, i.seen_le) in
        let same : i.popped + 1 ≡ i.popped + 1 + 0 = omega arith in
        let place : i.popped + length i.q ≡ i.popped + 1 + length (drop 1 i.q) =
          omega (arith, left) in
        (
          _,
          refl,
          record {
            freed = i.freed;
            popped = i.popped + 1;
            seen = i.seen;
            q = drop 1 i.q;
            freed_le = omega (arith, i.freed_le);
            popped_le = omega (arith, i.consumer.1);
            seen_le = omega (arith, left, i.seen_le);
            fits = omega (arith, left, i.fits);
            head_at = omega (arith, left, i.head_at);
            prod_tail_at = i.prod_tail_at;
            tail_at = omega (arith, i.consumer.0, i.tail_at);
            cons_head_at = i.cons_head_at;
            cells =
                subst (λ (k : ℕ). Cells size s.ring.buff k (drop 1 i.q ++ unpublished s.prod)) same
                  (subst (Cells size s.ring.buff (i.popped + 1))
                    (drop_first i.q (unpublished s.prod) 1 some_there) i.cells);
            producer = knows_free _ _ _ _ s.prod place i.producer;
            consumer = tt;
            order = i.order;
          },
        )
      where
        knows_free :
            (m n k head : ℕ) (pc : Producer A)
            → m ≡ n
            → ProducerKnows pc head (m < k)
            → ProducerKnows pc head (n < k)
        knows_free m n k head Producer.idle e k' = tt
        knows_free m n k head (full x h) e k' = k'
        knows_free m n k head (room x h) e k' = (k'.0, omega (arith, k'.1))
        knows_free m n k head (constructed x h) e k' = k'

  pub consume_at-Goes :
      (s : Threads A) (takes : A → Bool) (later : ℕ) (pc : Consumer)
      → Inv size (record s { cons = pc })
      → Goes size (consume_at size pc takes later (record s { cons = pc }))
  consume_at-Goes s takes later Consumer.idle i = begin-Goes s takes later i
  consume_at-Goes s takes later (empty tail) i = load_head-Goes s takes later tail i
  consume_at-Goes s takes later (there tail) i = call_back-Goes s takes later tail i
  consume_at-Goes s takes later (taken tail) i = destroy-Goes s takes later tail i
  consume_at-Goes s takes later (destroyed tail) i = give_back-Goes s takes later tail i
