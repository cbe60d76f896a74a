-- ===== src/Mgmt/Queue.antt =====
-- `messages_queue` of mgmt/messages.h over the ring, with what a whole `dequeue` does.
use traffic_generator.Base.{
  ℕ, ◌≤◌, ◌<◌, ◌≡◌, refl, Bool, true, false, Option, none, some, List, [], ◌∷◌, ◌++◌, length, take,
  drop, min, ◌>>=◌, ◌⊎◌, inl, inr, arith,
}
use traffic_generator.Base.Words.{IsPow2}
use traffic_generator.Put.Assert.{Below, Below-along, both}
use traffic_generator.Put.Ring.{Ring, try_push, try_pop_batch}
use traffic_generator.Mgmt.Messages.{out_capacity, inc_capacity}
use traffic_generator.Put.Ring.Holds.{Holds, visible}
use traffic_generator.Put.Ring.Push.{try_push-Pushes}
use traffic_generator.Put.Ring.PopMany.{try_pop_batch-PopsMany}

-- A handler that may fail an assertion, on one message after the other.
unfoldable pub visit_all : {S Msg : Type 0} → (S → Msg → Option S) → S → List Msg → Option S
visit_all visit s [] = some s
visit_all visit s (m ∷ ms) = elim (visit s m) [ none ↦ none | some s' ↦ visit_all visit s' ms ]

-- A handler that stops or does as another one.
pub visit_all-Below :
    {S Msg : Type 0} (f g : S → Msg → Option S)
    → ((s : S) (m : Msg) → Below (f s m) (g s m))
    → (s : S) (ms : List Msg) → Below (visit_all f s ms) (visit_all g s ms)
unfolding visit_all
visit_all-Below f g h s [] = inr refl
visit_all-Below f g h s (m ∷ ms) = elim (both _ _ (h s m)) [
  | inl e ↦ inl (rw (e, visit_all) refl)
  | inr (s', e, e') ↦
      Below-along _ _ _ _ (rw (e, visit_all) refl) (rw (e', visit_all) refl)
        (visit_all-Below f g h s' ms)
]

pub out_pow2 : IsPow2 out_capacity
out_pow2 = (5, omega arith, refl)

pub inc_pow2 : IsPow2 inc_capacity
inc_pow2 = (8, omega arith, refl)

module _ {Msg : Type 0} (capacity : ℕ) where
  pub enqueue : Ring Msg → Msg → Bool × Ring Msg
  enqueue q msg = try_push capacity q msg

  -- `dequeue`: at most eight messages are taken out at once, and then visited in order.
  pub take_batch : Ring Msg → Option (List Msg × Ring Msg)
  take_batch q = do (cnt, to, q') ← try_pop_batch capacity q (min capacity 8); some (to.0, q')

module _ {Msg : Type 0} {capacity : ℕ} (p : IsPow2 capacity) where
  -- A message is enqueued at the end exactly when the queue is not full.
  pub enqueue_lem :
      (r : Ring Msg) (q : List Msg) (m : Msg)
      → Holds capacity r q
      → ((length q ≡ capacity)
          × ((enqueue capacity r m).0 ≡ false)
          × Holds capacity (enqueue capacity r m).1 q)
        ⊎ ((length q < capacity)
            × ((enqueue capacity r m).0 ≡ true)
            × Holds capacity (enqueue capacity r m).1 (q ++ (m ∷ [])))
  unfolding enqueue
  enqueue_lem r q m h = try_push-Pushes p r q m h

  -- A batch is a first part of the queue, of eight messages at most, and of one at least unless
  -- the queue is empty; the rest stays in it.
  pub take_batch_lem :
      (r : Ring Msg) (q : List Msg)
      → 0 < capacity
      → Holds capacity r q
      → (n : ℕ) × (r' : Ring Msg) × (take_batch capacity r ≡ some (take n q, r'))
        × (n ≤ 8)
        × (n ≤ length q)
        × (min 1 (length q) ≤ n)
        × Holds capacity r' (drop n q)
  unfolding take_batch
  take_batch_lem r q pos h =
      let ((r', e, h'), le, some_seen) = try_pop_batch-PopsMany p r q (min capacity 8) h in
      (
        min (min capacity 8) (visible r),
        r',
        rw e refl,
        omega arith,
        omega (arith, le),
        omega (arith, some_seen),
        h',
      )
