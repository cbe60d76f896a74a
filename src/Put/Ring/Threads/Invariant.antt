-- ===== src/Put/Ring/Threads/Invariant.antt =====
-- put/spsc_ring.h: what the two threads know of the ring between any two accesses.
use traffic_generator.Base.{
  ℕ, zero, suc, ◌+◌, ◌%◌, ◌≤◌, ◌<◌, ◌≡◌, refl, List, [], ◌∷◌, ◌++◌, length, drop, arith,
}
use traffic_generator.Base.Words.{word, IsPow2}
use traffic_generator.Put.Ring.{Ring, slot, write}
use traffic_generator.Put.Ring as Ring
use traffic_generator.Put.Ring.Cells.{Cells}
use traffic_generator.Put.Ring.Threads.{
  Threads, Producer, Consumer, full, room, constructed, empty, there, taken, destroyed, init,
}

-- The value that is constructed and not yet published, and whether the oldest one is destroyed or
-- taken and its slot not yet given back.
abbrev pub unpublished : {A : Type 0} → Producer A → List A
unpublished (constructed x head) = x ∷ []
unpublished _ = []

abbrev pub cnt_destroyed : Consumer → ℕ
cnt_destroyed (destroyed tail) = 1
cnt_destroyed _ = 0

abbrev pub cnt_taken : Consumer → ℕ
cnt_taken (taken tail) = 1
cnt_taken (destroyed tail) = 1
cnt_taken _ = 0

-- What the producer has found of the head and of free slots, and the consumer of the tail and of
-- values.
abbrev pub ProducerKnows : {A : Type 0} → Producer A → ℕ → Type 0 → Type 0
ProducerKnows Producer.idle head Free = Unit
ProducerKnows (full x h) head Free = h ≡ head
ProducerKnows (room x h) head Free = (h ≡ head) × Free
ProducerKnows (constructed x h) head Free = h ≡ head

abbrev pub ConsumerKnows : Consumer → ℕ → Type 0 → Type 0
ConsumerKnows Consumer.idle tail Some = Unit
ConsumerKnows (empty t) tail Some = t ≡ tail
ConsumerKnows (there t) tail Some = (t ≡ tail) × Some
ConsumerKnows (taken t) tail Some = (t ≡ tail) × Some
ConsumerKnows (destroyed t) tail Some = (t ≡ tail) × Some

-- The positions as unbounded numbers, and `q` the values between the tail and the head. The slots
-- hold these values and no other, but for the one that is constructed and not yet published and the
-- one that is destroyed. The values pushed are those consumed and then those left, in order.
pub record Inv {A : Type 0} (size : ℕ) (s : Threads A) : Type 0 where
  pub freed : ℕ
  pub popped : ℕ
  pub seen : ℕ
  pub q : List A
  pub freed_le : freed ≤ popped
  pub popped_le : popped ≤ seen
  pub seen_le : seen ≤ popped + length q
  pub fits : popped + length q + length (unpublished s.prod) ≤ freed + size
  pub head_at : s.ring.head ≡ (popped + length q) % word
  pub prod_tail_at : s.ring.prod_tail ≡ freed % word
  pub tail_at : s.ring.tail ≡ popped % word
  pub cons_head_at : s.ring.cons_head ≡ seen % word
  pub cells :
      Cells size s.ring.buff
        (popped + cnt_destroyed s.cons)
        (drop (cnt_destroyed s.cons) (q ++ unpublished s.prod))
  pub producer : ProducerKnows s.prod s.ring.head (popped + length q < freed + size)
  pub consumer : ConsumerKnows s.cons s.ring.tail (popped < seen)
  pub order : s.pushed ≡ s.consumed ++ drop (cnt_taken s.cons) q

pub drop_first :
    {A : Type 0} (q u : List A) (n : ℕ) → n ≤ length q → drop n (q ++ u) ≡ drop n q ++ u
drop_first q u zero h = refl
drop_first [] u (suc n) h = absurd (omega arith)
drop_first (x ∷ q) u (suc n) h = drop_first q u n (omega arith)

pub destroyed_le :
    {A : Type 0} (pc : Consumer) (tail : ℕ) (popped seen : ℕ) (q : List A)
    → ConsumerKnows pc tail (popped < seen)
    → seen ≤ popped + length q
    → cnt_destroyed pc ≤ length q
destroyed_le (destroyed t) tail popped seen q k h = omega (arith, k.1)
destroyed_le Consumer.idle tail popped seen q k h = omega arith
destroyed_le (empty t) tail popped seen q k h = omega arith
destroyed_le (there t) tail popped seen q k h = omega arith
destroyed_le (taken t) tail popped seen q k h = omega arith

pub taken_le :
    {A : Type 0} (pc : Consumer) (tail : ℕ) (popped seen : ℕ) (q : List A)
    → ConsumerKnows pc tail (popped < seen)
    → seen ≤ popped + length q
    → cnt_taken pc ≤ length q
taken_le (destroyed t) tail popped seen q k h = omega (arith, k.1)
taken_le Consumer.idle tail popped seen q k h = omega arith
taken_le (empty t) tail popped seen q k h = omega arith
taken_le (there t) tail popped seen q k h = omega arith
taken_le (taken t) tail popped seen q k h = omega (arith, k.1)

module _ {A : Type 0} {size : ℕ} (p : IsPow2 size) where
  pub init-Inv : Inv {A = A} size init
  unfolding Ring.init
  init-Inv = record {
    freed = 0;
    popped = 0;
    seen = 0;
    q = [];
    freed_le = omega arith;
    popped_le = omega arith;
    seen_le = omega arith;
    fits = omega arith;
    head_at = refl;
    prod_tail_at = refl;
    tail_at = refl;
    cons_head_at = refl;
    cells = λ i h. refl;
    producer = tt;
    consumer = tt;
    order = refl;
  }
