-- ===== src/Put/Ring/Pop.antt =====
-- The consumer's calls against the queue.
use traffic_generator.Base.{
  ℕ, ◌+◌, ◌%◌, ◌≤◌, ◌<◌, ◌≡◌, refl, sym, ap, ◌∙◌, Option, none, some, List, [], ◌∷◌, length-drop,
  arith, drop, Bool, true, false, Bool-cases, inl, inr, ◌==◌, if◌then◌else◌,
}
use mathlib.Core.Path.{subst}
use traffic_generator.Base.Words.{add64, sub64, IsPow2, IsPow2-pos}
use traffic_generator.Put.Ring.{
  Ring, slot, write, consume_one, consume_reloaded, try_consume, try_pop,
}
use traffic_generator.Put.Ring.Cells.{Cells, Cells-tail}
use traffic_generator.Put.Ring.Holds.{
  Holds, sub64-tail, sub64-cons_head, slot-tail, reload_head-Holds, length-le-size,
}

module _ {A : Type 0} {size : ℕ} (p : IsPow2 size) where
  -- The ring after `c` of the values that the consumer knows of are gone.
  pub popped-Holds :
      (r : Ring A) (q : List A) (c : ℕ) (buff : ℕ → Option A) (h : Holds size r q)
      → h.popped + c ≤ h.seen
      → Cells size buff (h.popped + c) (drop c q)
      → Holds size (record r { buff = buff; tail = add64 r.tail c }) (drop c q)
  popped-Holds r q c buff h known cells = record {
    freed = h.freed;
    popped = h.popped + c;
    seen = h.seen;
    freed_le = omega (arith, h.freed_le);
    popped_le = known;
    seen_le = omega (arith, length-drop c q, h.seen_le);
    fits = omega (arith, length-drop c q, h.fits, h.seen_le);
    head_at = omega (arith, length-drop c q, h.head_at, h.seen_le);
    prod_tail_at = h.prod_tail_at;
    tail_at = omega (arith, h.tail_at);
    cons_head_at = h.cons_head_at;
    cells = cells;
  }

  module _ {S : Type 0} (fn : S → A → Bool × S) where
    -- What a consume of one value does: nothing on an empty queue, and else the callback's will.
    abbrev pub Consumes : S → List A → Option (Bool × S × Ring A) → Type 0
    Consumes s [] out = (r : Ring A) × (out ≡ some (false, s, r)) × Holds size r []
    Consumes s (x ∷ q) out =
        (r : Ring A) × (out ≡ some ((fn s x).0, (fn s x).1, r))
        × Holds size r (if (fn s x).0 then q else x ∷ q)

    consume_one-Consumes :
        (s : S) (r : Ring A) (x : A) (q : List A) (h : Holds size r (x ∷ q))
        → h.popped < h.seen
        → Consumes s (x ∷ q) (consume_one size fn s r)
    unfolding consume_one
    consume_one-Consumes s r x q h known = elim (Bool-cases (fn s x).0) [
      | inl took ↦ rw (here, took) (_, refl, popped-Holds r (x ∷ q) 1 _ h (omega arith) gone)
      | inr left ↦ rw (here, left) (r, refl, h)
    ]
      where
        here : r.buff (slot size r.tail) ≡ some x
        here =
            let e : h.popped ≡ h.popped + 0 = omega arith in
            ap r.buff (slot-tail p h ∙ ap (λ (k : ℕ). k % size) e) ∙ h.cells 0 (IsPow2-pos p)

        gone : Cells size (write r.buff (slot size r.tail) none) (h.popped + 1) q
        gone =
            subst (λ i. Cells size (write r.buff i none) (h.popped + 1) q) (sym (slot-tail p h))
              (Cells-tail size r.buff h.popped x q (length-le-size p h) h.cells)

    -- A consume on a ring that holds a queue never reads a slot with no object. It calls nothing
    -- and fails on an empty queue, and else hands the oldest value over, which leaves the queue
    -- exactly when the callback takes it.
    pub try_consume-Consumes :
        (s : S) (r : Ring A) (q : List A) → Holds size r q → Consumes s q (try_consume size fn s r)
    unfolding try_consume consume_reloaded reload_head-Holds
    try_consume-Consumes s r [] h =
        let none_known : (sub64 r.cons_head r.tail == 0) ≡ true =
          ground (arith, sub64-cons_head p h, h.seen_le) in
        let none_there : (sub64 r.head r.tail == 0) ≡ true = ground (arith, sub64-tail p h) in
        rw (none_known, none_there) (_, refl, reload_head-Holds p h)
    try_consume-Consumes s r (x ∷ q) h = elim (Bool-cases (sub64 r.cons_head r.tail == 0)) [
      | inr known ↦ rw known (consume_one-Consumes s r x q h (ground (arith, sub64-cons_head p h)))
      | inl unknown ↦
          let some_there : (sub64 r.head r.tail == 0) ≡ false = ground (arith, sub64-tail p h) in
          rw (unknown, some_there)
            (consume_one-Consumes s _ x q (reload_head-Holds p h) (omega arith))
    ]

  -- What a pop of one value assigns and leaves.
  abbrev pub Pops : List A → Option (Bool × Option A × Ring A) → Type 0
  Pops [] out = (r : Ring A) × (out ≡ some (false, none, r)) × Holds size r []
  Pops (x ∷ q) out = (r : Ring A) × (out ≡ some (true, some x, r)) × Holds size r q

  -- A pop on a ring that holds a queue gives the oldest value and leaves the rest, or fails on the
  -- empty queue; it never reads a slot with no object.
  pub try_pop-Pops : (r : Ring A) (q : List A) → Holds size r q → Pops q (try_pop size r)
  unfolding try_pop
  try_pop-Pops r [] h = try_consume-Consumes (λ to v. (true, some v)) none r [] h
  try_pop-Pops r (x ∷ q) h = try_consume-Consumes (λ to v. (true, some v)) none r (x ∷ q) h
