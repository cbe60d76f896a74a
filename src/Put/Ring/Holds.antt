-- ===== src/Put/Ring/Holds.antt =====
-- The representation of a queue by a ring: four unbounded positions that the ring's words stand
-- for, and slots that hold the queue's values and nothing else.
use traffic_generator.Base.{
  ℕ, ◌+◌, ◌-◌, ◌%◌, ◌≤◌, ◌≡◌, refl, ap, ◌∙◌, List, [], length, arith, ◌==◌, if◌then◌else◌, ◌<◌,
}
use traffic_generator.Base.Words.{sub64, word, IsPow2, IsPow2-le, mask_pos}
use traffic_generator.Put.Ring.{Ring, init, slot}
use traffic_generator.Put.Ring.Cells.{Cells}

-- `popped` is the consumer's position, `seen` the head that it knows of, and `freed` the tail that
-- the producer knows of.
pub record Holds {A : Type 0} (size : ℕ) (r : Ring A) (q : List A) : Type 0 where
  pub freed : ℕ
  pub popped : ℕ
  pub seen : ℕ
  pub freed_le : freed ≤ popped
  pub popped_le : popped ≤ seen
  pub seen_le : seen ≤ popped + length q
  pub fits : popped + length q ≤ freed + size
  pub head_at : r.head ≡ (popped + length q) % word
  pub prod_tail_at : r.prod_tail ≡ freed % word
  pub tail_at : r.tail ≡ popped % word
  pub cons_head_at : r.cons_head ≡ seen % word
  pub cells : Cells size r.buff popped q

-- The values that the consumer may be offered: those that it knows of, or if it knows of none
-- those that are there.
abbrev pub visible : {A : Type 0} → Ring A → ℕ
visible r = if sub64 r.cons_head r.tail == 0 then sub64 r.head r.tail else sub64 r.cons_head r.tail

module _ {A : Type 0} {size : ℕ} (p : IsPow2 size) where
  pub init-Holds : Holds {A = A} size init []
  unfolding init
  init-Holds = record {
    freed = 0;
    popped = 0;
    seen = 0;
    freed_le = omega arith;
    popped_le = omega arith;
    seen_le = omega arith;
    fits = omega arith;
    head_at = refl;
    prod_tail_at = refl;
    tail_at = refl;
    cons_head_at = refl;
    cells = λ i hi. refl;
  }

  module _ {r : Ring A} {q : List A} (h : Holds size r q) where
    -- What the differences of the words are.
    pub length-le-size : length q ≤ size
    length-le-size = omega (arith, h.fits, h.freed_le)

    pub sub64-prod_tail : sub64 r.head r.prod_tail ≡ h.popped + length q - h.freed
    sub64-prod_tail = omega (arith, h.head_at, h.prod_tail_at, h.fits, h.freed_le, IsPow2-le p)

    pub sub64-tail : sub64 r.head r.tail ≡ length q
    sub64-tail = omega (arith, h.head_at, h.tail_at, length-le-size, IsPow2-le p)

    pub sub64-cons_head : sub64 r.cons_head r.tail ≡ h.seen - h.popped
    sub64-cons_head =
        omega
          (arith, h.cons_head_at, h.tail_at, h.popped_le, h.seen_le, length-le-size, IsPow2-le p)

    pub slot-head : slot size r.head ≡ (h.popped + length q) % size
    slot-head = ap (slot size) h.head_at ∙ mask_pos p (h.popped + length q)

    pub slot-tail : slot size r.tail ≡ h.popped % size
    slot-tail = ap (slot size) h.tail_at ∙ mask_pos p h.popped

    -- A thread's reload of the other's position.
    unfoldable pub reload_tail-Holds : Holds size (record r { prod_tail = r.tail }) q
    reload_tail-Holds = record {
      freed = h.popped;
      popped = h.popped;
      seen = h.seen;
      freed_le = omega arith;
      popped_le = h.popped_le;
      seen_le = h.seen_le;
      fits = omega (arith, length-le-size);
      head_at = h.head_at;
      prod_tail_at = h.tail_at;
      tail_at = h.tail_at;
      cons_head_at = h.cons_head_at;
      cells = h.cells;
    }

    unfoldable pub reload_head-Holds : Holds size (record r { cons_head = r.head }) q
    reload_head-Holds = record {
      freed = h.freed;
      popped = h.popped;
      seen = h.popped + length q;
      freed_le = h.freed_le;
      popped_le = omega arith;
      seen_le = omega arith;
      fits = h.fits;
      head_at = h.head_at;
      prod_tail_at = h.prod_tail_at;
      tail_at = h.tail_at;
      cons_head_at = h.head_at;
      cells = h.cells;
    }

    visible-eq : visible r ≡ (if h.seen - h.popped == 0 then length q else h.seen - h.popped)
    visible-eq = rw (sub64-cons_head, sub64-tail)

    -- The consumer may be offered no value that is not there, and one at least if any is there.
    pub visible-le : visible r ≤ length q
    visible-le = ground (arith, visible-eq, h.seen_le)

    pub visible-pos : 0 < length q → 0 < visible r
    visible-pos some_there = ground (arith, visible-eq)
