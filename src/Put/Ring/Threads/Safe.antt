-- ===== src/Put/Ring/Threads/Safe.antt =====
-- put/spsc_ring.h: what holds at every access of the two threads.
use traffic_generator.Base.{
  ℕ, ◌≤◌, ◌≡◌, refl, none, some, List, [], ◌∷◌, ◌++◌, length, length-drop, drop, arith,
}
use mathlib.Core.Path.{subst}
use traffic_generator.Base.Words.{IsPow2}
use traffic_generator.Put.Ring.{slot}
use traffic_generator.Put.Ring.Threads.{
  Threads, room, init, produce, consume, Access, by_producer, by_consumer, access, interleave,
}
use traffic_generator.Put.Ring.Threads.Invariant.{Inv, cnt_taken, init-Inv}
use traffic_generator.Put.Ring.Threads.Produce.{produce_at-Inv, room-free}
use traffic_generator.Put.Ring.Threads.Consume.{Goes, consume_at-Goes}

module _ {A : Type 0} {size : ℕ} (p : IsPow2 size) where
  access-Goes : (a : Access A) (s : Threads A) → Inv size s → Goes size (access size a s)
  unfolding access produce consume
  access-Goes (by_producer x later) s i =
      (produce size x later s, refl, produce_at-Inv p s x later s.prod i)
  access-Goes (by_consumer takes later) s i = consume_at-Goes p s takes later s.cons i

  interleave-Goes :
      (as' : List (Access A)) (s : Threads A) → Inv size s → Goes size (interleave size as' s)
  unfolding interleave
  interleave-Goes [] s i = (s, refl, i)
  interleave-Goes (a ∷ as') s i =
      let (s', e, i') = access-Goes a s i in
      let (s'', e', i'') = interleave-Goes as' s' i' in (s'', rw (e, interleave) e', i'')

  -- However the accesses of the two threads interleave, and however late a thread sees the
  -- other's stores, the consumer never reads a slot with no object. The values whose push has
  -- returned true are those that the callback has taken and then at most as many as the ring has
  -- slots, so that every value is taken once, and in the order of the pushes. Where the producer is
  -- about to construct a value its slot has no object.
  pub interleave_lem :
      (as' : List (Access A))
      → (s : Threads A) × (interleave size as' init ≡ some s)
        × (left : List A) × (s.pushed ≡ s.consumed ++ left)
        × (length left ≤ size)
        × ((x : A) (head : ℕ) → s.prod ≡ room x head → s.ring.buff (slot size head) ≡ none)
  interleave_lem as' =
      let (s, e, i) = interleave-Goes as' init (init-Inv p) in
      (
        s,
        e,
        drop (cnt_taken s.cons) i.q,
        i.order,
        omega (arith, length-drop (cnt_taken s.cons) i.q, i.fits, i.freed_le),
        λ x head at. room-free p s x 0 head (subst (λ pc. Inv size (record s { prod = pc })) at i),
      )
