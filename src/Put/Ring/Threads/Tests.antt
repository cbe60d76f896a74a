-- ===== src/Put/Ring/Threads/Tests.antt =====
-- put/spsc_ring.h: two threads on a ring of two slots.
use traffic_generator.Base.{
  ℕ, ◌≤◌, ◌≡◌, refl, Option, none, some, List, [], ◌∷◌, ◌++◌, length, arith, true,
}
use traffic_generator.Base.Words.{IsPow2}
use traffic_generator.Put.Ring as Ring
use traffic_generator.Put.Ring.{slot, try_push, try_consume}
use traffic_generator.Put.Ring.Threads.{
  Threads, room, Access, by_producer, by_consumer, interleave, init,
}
use traffic_generator.Put.Ring.Threads.Safe.{interleave_lem}

abbrev fresh : Threads ℕ
fresh = init

two_slots : IsPow2 2
two_slots = (1, omega arith, refl)

abbrev p : ℕ → Access ℕ
p x = by_producer x 0

abbrev c : Access ℕ
c = by_consumer (λ v. true) 9

-- Three pushes, of which the last finds the ring full with an old tail, while the first value is
-- taken.
abbrev some_accesses : List (Access ℕ)
some_accesses =
    p 7
    ∷ p 7
    ∷ c
    ∷ p 7
    ∷ c
    ∷ p 8
    ∷ c
    ∷ p 8
    ∷ c
    ∷ p 8
    ∷ c
    ∷ p 9
    ∷ p 9
    ∷ p 9
    ∷ by_producer 9 5
    ∷ p 9
    ∷ p 9
    ∷ []

abbrev ends : Option (Threads ℕ) → List ℕ × List ℕ
ends none = ([], [])
ends (some s) = (s.pushed, s.consumed)

interleave_test : ends (interleave 2 some_accesses init) ≡ (7 ∷ 8 ∷ 9 ∷ [], 7 ∷ [])
unfolding interleave Ring.init
interleave_test = refl

interleave_example :
    (s : Threads ℕ) × (interleave 2 some_accesses init ≡ some s)
    × (left : List ℕ) × (s.pushed ≡ s.consumed ++ left)
    × (length left ≤ 2)
    × ((x : ℕ) (head : ℕ) → s.prod ≡ room x head → s.ring.buff (slot 2 head) ≡ none)
interleave_example = interleave_lem two_slots some_accesses
