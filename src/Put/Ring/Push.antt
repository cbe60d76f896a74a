-- ===== src/Put/Ring/Push.antt =====
-- The producer's calls against the queue.
use traffic_generator.Base.{
  ℕ, ◌+◌, ◌-◌, ◌%◌, ◌≤◌, ◌<◌, ◌≡◌, refl, sym, ap, ◌∙◌, Option, some, List, [], ◌∷◌, ◌++◌, length,
  length-append, length-take, arith, min, take, Bool, true, false, Bool-cases, ◌⊎◌, inl, inr, ◌==◌,
  ltb,
}
use mathlib.Core.Path.{subst}
use mathlib.Core.List.{append_assoc, append-nil}
use traffic_generator.Base.Words.{add64, sub64, word, IsPow2, IsPow2-le, mask_pos}
use traffic_generator.Put.Ring.{
  Ring, slot, write, construct, push_reloaded, try_push, fill, push_avail, push_batch_reloaded,
  try_push_batch,
}
use traffic_generator.Put.Ring.Cells.{Cells, Cells-snoc}
use traffic_generator.Put.Ring.Holds.{
  Holds, sub64-prod_tail, sub64-tail, slot-head, reload_tail-Holds, length-le-size,
}

module _ {A : Type 0} {size : ℕ} (p : IsPow2 size) where
  construct-Holds :
      (r : Ring A) (q : List A) (x : A) (h : Holds size r q)
      → h.popped + length q < h.freed + size
      → Holds size (construct size r x).1 (q ++ (x ∷ []))
  unfolding construct
  construct-Holds r q x h room = record {
    freed = h.freed;
    popped = h.popped;
    seen = h.seen;
    freed_le = h.freed_le;
    popped_le = h.popped_le;
    seen_le = omega (arith, length-append q (x ∷ []), h.seen_le);
    fits = omega (arith, length-append q (x ∷ []));
    head_at = omega (arith, length-append q (x ∷ []), h.head_at);
    prod_tail_at = h.prod_tail_at;
    tail_at = h.tail_at;
    cons_head_at = h.cons_head_at;
    cells =
        subst (λ i. Cells size (write r.buff i (some x)) h.popped (q ++ (x ∷ [])))
          (sym (slot-head p h))
          (Cells-snoc size r.buff h.popped q x (omega (arith, h.freed_le)) h.cells);
  }

  -- What a push of one value returns and leaves: refused exactly when the queue is full.
  abbrev pub Pushes : List A → A → Bool × Ring A → Type 0
  Pushes q x out =
      ((length q ≡ size) × (out.0 ≡ false) × Holds size out.1 q)
      ⊎ ((length q < size) × (out.0 ≡ true) × Holds size out.1 (q ++ (x ∷ [])))

  construct-Pushes :
      (r : Ring A) (q : List A) (x : A) (h : Holds size r q)
      → (sub64 r.head r.prod_tail == size) ≡ false
      → Pushes q x (construct size r x)
  unfolding construct
  construct-Pushes r q x h e =
      let room : h.popped + length q < h.freed + size =
        ground (arith, sub64-prod_tail p h, h.fits) in
      inr (omega (arith, h.freed_le), refl, construct-Holds r q x h room)

  -- A push on a ring that holds a queue is refused exactly when the queue has as many values as
  -- the ring has slots, and else appends the value; a refusal leaves the queue as it was.
  pub try_push-Pushes :
      (r : Ring A) (q : List A) (x : A) → Holds size r q → Pushes q x (try_push size r x)
  unfolding try_push push_reloaded
  try_push-Pushes r q x h = elim (Bool-cases (sub64 r.head r.prod_tail == size)) [
    | inr room ↦ rw room (construct-Pushes r q x h room)
    | inl full ↦ rw full (elim (Bool-cases (sub64 r.head r.tail == size)) [
      | inr room ↦
          rw room
            (construct-Pushes (record r { prod_tail = r.tail }) q x (reload_tail-Holds p h) room)
      | inl still ↦ rw still (inl (ground (arith, sub64-tail p h), refl, reload_tail-Holds p h))
    ])
  ]

  fill-Cells :
      (buff : ℕ → Option A) (t head : ℕ) (q xs : List A)
      → length q + length xs ≤ size
      → head ≡ (t + length q) % word
      → Cells size buff t q
      → Cells size (fill size buff head xs).0 t (q ++ xs)
        × ((fill size buff head xs).1 ≡ (t + length q + length xs) % word)
  unfolding fill
  fill-Cells buff t head q [] room at c = (rw append-nil c, omega arith)
  fill-Cells buff t head q (x ∷ xs) room at c =
      let more : length (q ++ (x ∷ [])) ≡ length q + 1 = length-append q (x ∷ []) ∙ omega arith in
      let written : Cells size (write buff (slot size head) (some x)) t (q ++ (x ∷ [])) =
        subst (λ i. Cells size (write buff i (some x)) t (q ++ (x ∷ []))) (sym place)
          (Cells-snoc size buff t q x (omega arith) c) in
      let (c', e) =
        fill-Cells (write buff (slot size head) (some x)) t (add64 head 1) (q ++ (x ∷ [])) xs
          (omega arith) (omega arith) written in
      (rw append_assoc at c', omega arith)
    where
      place : slot size head ≡ (t + length q) % size
      place = ap (slot size) at ∙ mask_pos p (t + length q)

  push_avail-Holds :
      (r : Ring A) (q from : List A) (avail : ℕ) (h : Holds size r q)
      → h.popped + length q + avail ≤ h.freed + size
      → Holds size (push_avail size r from avail).1 (q ++ take (min (length from) avail) from)
  unfolding push_avail
  push_avail-Holds r q from avail h room =
      let xs = take (min (length from) avail) from in
      let count : length xs ≡ min (length from) avail = length-take _ from ∙ omega arith in
      let filled =
        fill-Cells r.buff h.popped r.head q xs (omega (arith, h.freed_le)) h.head_at h.cells in
      record {
        freed = h.freed;
        popped = h.popped;
        seen = h.seen;
        freed_le = h.freed_le;
        popped_le = h.popped_le;
        seen_le = omega (arith, length-append q xs, h.seen_le);
        fits = omega (arith, length-append q xs);
        head_at = omega (arith, length-append q xs, filled.1);
        prod_tail_at = h.prod_tail_at;
        tail_at = h.tail_at;
        cons_head_at = h.cons_head_at;
        cells = filled.0;
      }

  -- What a push of many values returns and leaves.
  abbrev pub PushesMany : List A → List A → ℕ × Ring A → Type 0
  PushesMany q from out =
      (out.0 ≡ min (length from) (size - length q)) × Holds size out.1 (q ++ take out.0 from)

  push_avail-PushesMany :
      (r : Ring A) (q from : List A) (avail : ℕ) (h : Holds size r q)
      → avail ≡ sub64 size (sub64 r.head r.prod_tail)
      → (length from ≤ avail) ⊎ (h.freed ≡ h.popped)
      → PushesMany q from (push_avail size r from avail)
  unfolding push_avail
  push_avail-PushesMany r q from avail h e enough =
      let room : avail ≡ h.freed + size - (h.popped + length q) =
        omega (arith, e, sub64-prod_tail p h, h.fits, h.freed_le, IsPow2-le p) in
      (omega (arith, h.fits, h.freed_le), push_avail-Holds r q from avail h (omega (arith, h.fits)))

  -- A push of many values appends as many as there are free slots, in order, and no other, and
  -- returns their number.
  pub try_push_batch-PushesMany :
      (r : Ring A) (q from : List A)
      → Holds size r q
      → PushesMany q from (try_push_batch size r from)
  unfolding try_push_batch push_batch_reloaded reload_tail-Holds
  try_push_batch-PushesMany r q from h =
      elim (Bool-cases (ltb (sub64 size (sub64 r.head r.prod_tail)) (length from))) [
        | inr enough ↦ rw enough (push_avail-PushesMany r q from _ h refl (inl (ground arith)))
        | inl few ↦ rw few (elim (Bool-cases (sub64 size (sub64 r.head r.tail) == 0)) [
          | inl full ↦ rw full (
            ground (arith, sub64-tail p h, length-le-size p h, IsPow2-le p),
            rw append-nil (reload_tail-Holds p h),
          )
          | inr room ↦ rw room (
              push_avail-PushesMany (record r { prod_tail = r.tail }) q from _
                (reload_tail-Holds p h) refl (inr refl))
        ])
      ]
