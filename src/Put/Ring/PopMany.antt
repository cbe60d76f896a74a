-- ===== src/Put/Ring/PopMany.antt =====
-- `try_pop(U*, size_type)`, the ring's destructor and the counts of slots against the queue.
use native.Mathlib.Decide.{dec_lt}
use native.Mathlib.Nat.{mod-add-mod, mod-lt, mod-eq_of_lt}
use traffic_generator.Base.{
  ℕ, zero, suc, ◌+◌, ◌-◌, ◌%◌, ◌≤◌, ◌<◌, ◌≡◌, refl, sym, ap, ◌∙◌, Option, none, some, List, [], ◌∷◌,
  ◌++◌, length, length-drop, length-take, take-take, take-drop-append, arith, min, take, drop,
  Bool-cases, inl, inr, ◌==◌,
}
use traffic_generator.Base.Words.{IsPow2, IsPow2-pos, IsPow2-le}
use traffic_generator.Put.Ring.{
  Ring, pop_into, try_pop_batch, destruct, count_pop_slots, count_push_slots,
}
use traffic_generator.Put.Ring.Holds.{
  Holds, sub64-tail, length-le-size, visible, visible-le, visible-pos,
}
use traffic_generator.Put.Ring.PopBatch.{
  IsModest, served, Serves, try_consume_batch-ConsumesMany, try_consume_batch-empty,
}

module _ {A : Type 0} {size : ℕ} (p : IsPow2 size) where
  -- The callback's state and count once `n` values are written.
  abbrev popped : ℕ → ℕ → List A → ℕ × (List A × ℕ)
  popped sz n q = (n, (take n q, sz - n))

  popped_path :
      {c d k l : ℕ} {xs ys : List A}
      → c ≡ d
      → xs ≡ ys
      → k ≡ l
      → ◌≡◌ {A = ℕ × (List A × ℕ)} (c, (xs, k)) (d, (ys, l))
  popped_path a b c i = (a i, (b i, c i))

  -- A range of at most `n` values after `m` that are written already.
  pop_into-take :
      (room m n : ℕ) (q : List A)
      → m + n ≤ length q
      → pop_into (take m q, room) (take n (drop m q))
        ≡ (min room n, (take (m + min room n) q, room - min room n))
  unfolding pop_into
  pop_into-take room m n q h =
      let rest = drop m q in
      let e : min room (length (take n rest)) ≡ min room n =
        omega (arith, length-take n rest, length-drop m q) in
      let f : min (min room n) n ≡ min room n = omega arith in
      let t : take (min room (length (take n rest))) (take n rest) ≡ take (min room n) rest =
        ap (λ k. take k (take n rest)) e
        ∙ take-take (min room n) n rest
        ∙ ap (λ k. take k rest) f in
      popped_path e (ap (λ xs. take m q ++ xs) t ∙ take-drop-append m (min room n) q)
        (omega (arith, e))

  pop_into-first :
      (sz n : ℕ) (q : List A) → n ≤ length q → pop_into ([], sz) (take n q) ≡ popped sz (min sz n) q
  pop_into-first sz n q h =
      let e : 0 + min sz n ≡ min sz n = omega arith in
      pop_into-take sz 0 n q (omega arith) ∙ popped_path refl (ap (λ k. take k q) e) refl

  pop_into-IsModest : IsModest {A = A} p pop_into
  unfolding pop_into
  pop_into-IsModest (to, sz) vs = omega arith

  Serves-pop :
      (sz avail : ℕ) (q : List A) (cs : ℕ × (List A × ℕ))
      → avail ≤ length q
      → Serves p pop_into pop_into-IsModest ([], sz) avail q cs
      → cs ≡ popped sz (min sz avail) q
  unfolding served
  Serves-pop sz avail q cs h (inl e) = e ∙ pop_into-first sz avail q h
  Serves-pop sz avail q cs h (inr (m, n, e, f)) = f ∙ two
    where
      first : pop_into ([], sz) (take m q) ≡ popped sz (min sz m) q
      first = pop_into-first sz m q (omega arith)

      two : served p pop_into ([], sz) m n q ≡ popped sz (min sz avail) q
      two = rw first (elim (Bool-cases (m == min sz m)) [
        | inr part ↦
            let k : min sz m ≡ min sz avail = ground arith in rw part (ap (λ i. popped sz i q) k)
        | inl whole ↦
            let k : min sz m + min (sz - min sz m) n ≡ min sz avail = ground arith in
            rw (whole, pop_into-take (sz - min sz m) (min sz m) n q (omega arith))
              (popped_path k (ap (λ i. take i q) k) (omega (arith, k)))
      ])

  -- What a pop of many values returns, writes and leaves, if it takes `n`.
  abbrev pub PopsMany : ℕ → List A → ℕ → Option (ℕ × (List A × ℕ) × Ring A) → Type 0
  PopsMany sz q n out =
      (r : Ring A) × (out ≡ some (n, (take n q, sz - n), r)) × Holds size r (drop n q)

  pop_taken :
      (r : Ring A) (q : List A) (sz : ℕ)
      → Holds size r q
      → PopsMany sz q (min sz (visible r)) (try_pop_batch size r sz)
  unfolding try_pop_batch
  pop_taken r [] sz h =
      let e : min sz (visible r) ≡ 0 = omega (arith, visible-le p h) in
      let (r', e', h') = try_consume_batch-empty p pop_into pop_into-IsModest ([], sz) r h in
      let k : sz ≡ sz - 0 = omega arith in
      rw e (r', e' ∙ ap (λ (room : ℕ). some (0, ([], room), r')) k, h')
  pop_taken r (x ∷ q) sz h =
      let (cs, r', e, served_by, le, h') =
        try_consume_batch-ConsumesMany p pop_into pop_into-IsModest ([], sz) r (x ∷ q) h
          (omega arith) in
      let is = Serves-pop sz (visible r) (x ∷ q) cs (visible-le p h) served_by in
      (
        r',
        e ∙ ap (λ (k : ℕ × (List A × ℕ)). some (k.0, k.1, r')) is,
        rw (ap (λ (k : ℕ × (List A × ℕ)). k.0) is) at h',
      )

  -- A pop of at most `sz` values from a ring that holds a queue never reads a slot with no object:
  -- it writes the first values of the queue in order, as many as fit of those visible to the
  -- consumer, and leaves the others in the ring. No more values are visible than the queue has,
  -- and some are unless it is empty.
  pub try_pop_batch-PopsMany :
      (r : Ring A) (q : List A) (sz : ℕ)
      → Holds size r q
      → PopsMany sz q (min sz (visible r)) (try_pop_batch size r sz)
        × (visible r ≤ length q)
        × (min 1 (length q) ≤ visible r)
  try_pop_batch-PopsMany r q sz h = (pop_taken r q sz h, visible-le p h, some_seen)
    where
      some_seen : min 1 (length q) ≤ visible r
      some_seen = ground (arith, visible-pos p h)

  -- `count_pop_slots` and `count_push_slots` are the numbers of values and of free slots.
  pub counts_lem :
      (r : Ring A) (q : List A)
      → Holds size r q
      → (count_pop_slots size r ≡ length q) × (count_push_slots size r ≡ size - length q)
  unfolding count_pop_slots count_push_slots
  counts_lem r q h = omega (arith, sub64-tail p h, length-le-size p h, IsPow2-le p)

  -- The ring that the destructor leaves.
  abbrev Emptied : Option (Ring A) → Type 0
  Emptied out = (r : Ring A) × (out ≡ some r) × Holds size r []

  nil_of_length : (q : List A) → length q ≡ 0 → q ≡ []
  nil_of_length [] e = refl
  nil_of_length (x ∷ q) e = absurd (omega arith)

  destruct-Emptied :
      (fuel : ℕ) (r : Ring A) (q : List A)
      → length q < fuel
      → Holds size r q
      → Emptied (destruct size fuel r)
  unfolding destruct
  destruct-Emptied zero r q f h = absurd (omega arith)
  destruct-Emptied (suc fuel) r q f h =
      let (r', e, h') = pop_taken r q (min 16 size) h in
      rw (e, destruct) (round (destruct-Emptied fuel) (min (min 16 size) (visible r)) r' refl h')
    where
      round :
          ((r : Ring A) (q : List A)
            → length q < fuel
            → Holds size r q
            → Emptied (destruct size fuel r))
          → (n : ℕ) (r' : Ring A) → n ≡ min (min 16 size) (visible r)
          → Holds size r' (drop n q)
          → Emptied
              (elim n as (λ _. Option (Ring A)) [ zero ↦ some r' | suc k ↦ destruct size fuel r' ])
      round rest zero r' e h' =
          (r', refl, rw (nil_of_length q (ground (arith, visible-pos p h, IsPow2-pos p))) at h')
      round rest (suc n) r' e h' =
          rest r' (drop (suc n) q) (omega (arith, length-drop (suc n) q, visible-le p h)) h'

  -- Every slot of an emptied ring is without an object.
  Holds-nil : (r : Ring A) (j : ℕ) → Holds size r [] → j < size → r.buff j ≡ none
  Holds-nil r j h hj = elim (dec_lt j (h.popped % size)) [
    | yes before ↦
        ap r.buff (sym (place (j + size - h.popped % size) (round before)))
        ∙ h.cells _ (omega arith)
    | no after ↦
        ap r.buff (sym (place (j - h.popped % size) (back after))) ∙ h.cells _ (omega arith)
  ]
    where
      place : (i : ℕ) → (h.popped % size + i) % size ≡ j → (h.popped + i) % size ≡ j
      place i e = sym (mod-add-mod h.popped size i) ∙ e

      round : j < h.popped % size → (h.popped % size + (j + size - h.popped % size)) % size ≡ j
      round before =
          let w : h.popped % size + (j + size - h.popped % size) ≡ j + size =
            omega (arith, mod-lt h.popped (IsPow2-pos p)) in
          ap (λ (k : ℕ). k % size) w ∙ grind arith

      back : ¬ (j < h.popped % size) → (h.popped % size + (j - h.popped % size)) % size ≡ j
      back after =
          let w : h.popped % size + (j - h.popped % size) ≡ j = omega arith in
          ap (λ (k : ℕ). k % size) w ∙ mod-eq_of_lt hj

  -- The destructor's loop ends, in fewer rounds than there are values and one more: it leaves no
  -- object alive in any slot, and never reads a slot that has none.
  pub destruct_lem :
      (fuel : ℕ) (r : Ring A) (q : List A)
      → length q < fuel
      → Holds size r q
      → (r' : Ring A) × (destruct size fuel r ≡ some r') × ((j : ℕ) → j < size → r'.buff j ≡ none)
  destruct_lem fuel r q f h =
      let (r', e, h') = destruct-Emptied fuel r q f h in (r', e, λ j. Holds-nil r' j h')
