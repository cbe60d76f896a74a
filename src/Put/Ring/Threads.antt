-- ===== src/Put/Ring/Threads.antt =====
-- put/spsc_ring.h: `try_push` and `try_consume` of one value, an access to the shared memory at a
-- time, so that the two threads may be interleaved within them. A load of the other thread's
-- position sees any store from the one that it last saw on, as acquire and release allow.
pub mod Invariant
pub mod Produce
pub mod Consume
pub mod Safe
mod Tests
use traffic_generator.Base.{
  ℕ, Bool, Option, none, some, List, [], ◌∷◌, ◌++◌, min, ◌==◌, if◌then◌else◌,
}
use traffic_generator.Base.Words.{add64, sub64}
use traffic_generator.Put.Ring.{Ring, slot, write}
use traffic_generator.Put.Ring as Ring

-- Where the producer stands: outside of a call, before the load of the tail, before the value is
-- constructed and before the store of the head; `head` is its local `prod_head`.
pub data Producer (A : Type 0) : Type 0 where
  idle : Producer A
  full : (x : A) (head : ℕ) → Producer A
  room : (x : A) (head : ℕ) → Producer A
  constructed : (x : A) (head : ℕ) → Producer A

-- Where the consumer stands: outside of a call, before the load of the head, before the callback,
-- before the destructor and before the store of the tail; `tail` is its local `cons_tail`.
pub data Consumer : Type 0 where
  idle : Consumer
  empty : (tail : ℕ) → Consumer
  there : (tail : ℕ) → Consumer
  taken : (tail : ℕ) → Consumer
  destroyed : (tail : ℕ) → Consumer

-- The ring and the two threads, with the values whose push has returned true and those that the
-- callback has taken, the oldest first.
pub record Threads (A : Type 0) : Type 0 where
  pub ring : Ring A
  pub prod : Producer A
  pub cons : Consumer
  pub pushed : List A
  pub consumed : List A

abbrev pub init : {A : Type 0} → Threads A
init = record {
  ring = Ring.init;
  prod = Producer.idle;
  cons = Consumer.idle;
  pushed = [];
  consumed = [];
}

-- What a load sees of a position that was `known` and is now `current`, `later` stores on.
abbrev pub load : (known current later : ℕ) → ℕ
load known current later = add64 known (min later (sub64 current known))

module _ {A : Type 0} (size : ℕ) where
  -- The next access of the producer. At the start of a call `x` is its value, and the head is the
  -- producer's own.
  pub produce_at : Producer A → A → ℕ → Threads A → Threads A
  produce_at Producer.idle x later s =
      let head = s.ring.head in
      record s { prod = if sub64 head s.ring.prod_tail == size then full x head else room x head }
  produce_at (full x head) _ later s =
      let prod_tail = load s.ring.prod_tail s.ring.tail later in
      record s {
        ring = record s.ring { prod_tail = prod_tail };
        prod = if sub64 head prod_tail == size then Producer.idle else room x head;
      }
  produce_at (room x head) _ later s = record s {
    ring = record s.ring { buff = write s.ring.buff (slot size head) (some x) };
    prod = constructed x head;
  }
  produce_at (constructed x head) _ later s = record s {
    ring = record s.ring { head = add64 head 1 };
    prod = Producer.idle;
    pushed = s.pushed ++ (x ∷ []);
  }

  pub produce : A → ℕ → Threads A → Threads A
  unfolding produce_at
  produce x later s = produce_at s.prod x later s

  -- The callback on the value of a slot; `none` where there is no object.
  call_back : (A → Bool) → ℕ → Option A → Threads A → Option (Threads A)
  call_back takes tail none s = none
  call_back takes tail (some v) s = some (
      if takes v
      then record s { cons = taken tail; consumed = s.consumed ++ (v ∷ []) }
      else record s { cons = Consumer.idle })

  -- The next access of the consumer, with a callback that takes some values.
  pub consume_at : Consumer → (A → Bool) → ℕ → Threads A → Option (Threads A)
  unfolding call_back
  consume_at Consumer.idle takes later s =
      let tail = s.ring.tail in
      some (record s { cons = if sub64 s.ring.cons_head tail == 0 then empty tail else there tail })
  consume_at (empty tail) takes later s =
      let cons_head = load s.ring.cons_head s.ring.head later in
      some (record s {
        ring = record s.ring { cons_head = cons_head };
        cons = if sub64 cons_head tail == 0 then Consumer.idle else there tail;
      })
  consume_at (there tail) takes later s = call_back takes tail (s.ring.buff (slot size tail)) s
  consume_at (taken tail) takes later s = some (record s {
    ring = record s.ring { buff = write s.ring.buff (slot size tail) none };
    cons = destroyed tail;
  })
  consume_at (destroyed tail) takes later s =
      some (record s { ring = record s.ring { tail = add64 tail 1 }; cons = Consumer.idle })

  pub consume : (A → Bool) → ℕ → Threads A → Option (Threads A)
  unfolding consume_at
  consume takes later s = consume_at s.cons takes later s

-- An access of one thread, with what it needs if it starts a call or loads a position.
pub data Access (A : Type 0) : Type 0 where
  by_producer : (x : A) (later : ℕ) → Access A
  by_consumer : (takes : A → Bool) (later : ℕ) → Access A

module _ {A : Type 0} (size : ℕ) where
  pub access : Access A → Threads A → Option (Threads A)
  unfolding produce consume
  access (by_producer x later) s = some (produce size x later s)
  access (by_consumer takes later) s = consume size takes later s

  -- The accesses of the two threads, in the order in which they happen.
  pub interleave : List (Access A) → Threads A → Option (Threads A)
  unfolding access
  interleave [] s = some s
  interleave (a ∷ as') s = elim (access a s) [ none ↦ none | some s' ↦ interleave as' s' ]
