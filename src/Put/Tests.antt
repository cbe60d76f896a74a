-- ===== src/Put/Tests.antt =====
-- Tests of the ring and of the cycles, on a ring of four slots whose queue wraps round the end of
-- the buffer, and on a timer of 2 GHz.
use traffic_generator.Base.{
  ℕ, zero, suc, ◌+◌, ◌-◌, ◌≤◌, ◌<◌, ◌≡◌, refl, Bool, true, false, Option, none, some, List, [], ◌∷◌,
  ◌++◌, min, length, take, ltb, get_elem?, if◌then◌else◌, ◌==◌, ◌%◌, arith,
}
use traffic_generator.Base.Words.{IsPow2}
use traffic_generator.Put.Ring.{
  Ring, try_push, try_push_batch, try_consume, try_consume_batch, try_pop, try_pop_batch,
  count_pop_slots, count_push_slots, destruct,
}
use traffic_generator.Put.Ring.Holds.{Holds, visible}
use traffic_generator.Put.Ring.Push.{Pushes, PushesMany, try_push-Pushes, try_push_batch-PushesMany}
use traffic_generator.Put.Ring.Pop.{Consumes, Pops, try_consume-Consumes, try_pop-Pops}
use traffic_generator.Put.Ring.PopBatch.{IsModest, ConsumesMany, try_consume_batch-ConsumesMany}
use traffic_generator.Put.Ring.PopMany.{PopsMany, try_pop_batch-PopsMany, counts_lem, destruct_lem}
use traffic_generator.Put.Cycles.{from_micros, to_micros, to_micros-from_micros}
use traffic_generator.Put.Text.{Text}
use traffic_generator.Put.Text.Number.{number_from}
use traffic_generator.Put.Stacktrace.{
  u32_to_dec, u64_to_hex, hex_number, u32_to_dec_lem, u64_to_hex_lem,
}

four : IsPow2 4
four = (2, omega arith, refl)

abbrev wrapped_buff : ℕ → Option ℕ
wrapped_buff j = if j == 3 then some 7 else (if j == 0 then some 8 else none)

-- The consumer took three values, and knows of one of the two that are there.
abbrev wrapped : Ring ℕ
wrapped = record { head = 5; prod_tail = 3; tail = 3; cons_head = 4; buff = wrapped_buff }

abbrev wrapped_queue : List ℕ
wrapped_queue = 7 ∷ 8 ∷ []

wrapped-Holds : Holds 4 wrapped wrapped_queue
wrapped-Holds = record {
  freed = 3;
  popped = 3;
  seen = 4;
  freed_le = omega arith;
  popped_le = omega arith;
  seen_le = omega arith;
  fits = omega arith;
  head_at = refl;
  prod_tail_at = refl;
  tail_at = refl;
  cons_head_at = refl;
  cells = λ i hi. cell i hi;
}
  where
    cell : (i : ℕ) → i < 4 → wrapped_buff ((3 + i) % 4) ≡ get_elem? wrapped_queue i
    cell zero hi = refl
    cell (suc zero) hi = refl
    cell (suc (suc zero)) hi = refl
    cell (suc (suc (suc zero))) hi = refl
    cell (suc (suc (suc (suc i)))) hi = absurd (omega arith)

try_push_example : Pushes four wrapped_queue 9 (try_push 4 wrapped 9)
try_push_example = try_push-Pushes four wrapped wrapped_queue 9 wrapped-Holds

-- Two of three values fit.
try_push_batch_example :
    PushesMany four wrapped_queue (1 ∷ 2 ∷ 3 ∷ []) (try_push_batch 4 wrapped (1 ∷ 2 ∷ 3 ∷ []))
try_push_batch_example =
    try_push_batch-PushesMany four wrapped wrapped_queue (1 ∷ 2 ∷ 3 ∷ []) wrapped-Holds

-- A callback that keeps the sum of the values below eight, and leaves the others.
abbrev small_sum : ℕ → ℕ → Bool × ℕ
small_sum s v = if ltb v 8 then (true, s + v) else (false, s)

try_consume_example : Consumes four small_sum 0 wrapped_queue (try_consume 4 small_sum 0 wrapped)
try_consume_example = try_consume-Consumes four small_sum 0 wrapped wrapped_queue wrapped-Holds

try_pop_example : Pops four wrapped_queue (try_pop 4 wrapped)
try_pop_example = try_pop-Pops four wrapped wrapped_queue wrapped-Holds

-- A callback that takes one value of what it is offered.
abbrev take_one : List ℕ → List ℕ → ℕ × List ℕ
take_one s vs = (min 1 (length vs), s ++ take 1 vs)

take_one-IsModest : IsModest four take_one
take_one-IsModest s vs = omega arith

try_consume_batch_example :
    ConsumesMany four take_one take_one-IsModest []
      (visible wrapped)
      wrapped_queue
      (try_consume_batch 4 take_one [] wrapped)
try_consume_batch_example =
    try_consume_batch-ConsumesMany four take_one take_one-IsModest [] wrapped wrapped_queue
      wrapped-Holds (omega arith)

try_pop_batch_example :
    PopsMany four 3 wrapped_queue (min 3 (visible wrapped)) (try_pop_batch 4 wrapped 3)
    × (visible wrapped ≤ length wrapped_queue)
    × (min 1 (length wrapped_queue) ≤ visible wrapped)
try_pop_batch_example = try_pop_batch-PopsMany four wrapped wrapped_queue 3 wrapped-Holds

counts_example :
    (count_pop_slots 4 wrapped ≡ length wrapped_queue)
    × (count_push_slots 4 wrapped ≡ 4 - length wrapped_queue)
counts_example = counts_lem four wrapped wrapped_queue wrapped-Holds

destruct_example :
    (r : Ring ℕ) × (destruct 4 3 wrapped ≡ some r) × ((j : ℕ) → j < 4 → r.buff j ≡ none)
destruct_example = destruct_lem four 3 wrapped wrapped_queue (omega arith) wrapped-Holds

micros_example :
    (to_micros 2_000_000_000 (from_micros 2_000_000_000 1_500) ≤ 1_500)
    × (1_500 ≤ to_micros 2_000_000_000 (from_micros 2_000_000_000 1_500) + 1)
micros_example = to_micros-from_micros 2_000_000_000 1_500 (omega arith) (omega arith)

u32_to_dec_example :
    (s : Text) × (u32_to_dec 4_294_967_295 ≡ some s)
    × (number_from 0 s ≡ 4_294_967_295)
    × (length s ≤ 10)
u32_to_dec_example = u32_to_dec_lem 4_294_967_295 (omega arith)

u64_to_hex_example :
    (s : Text) × (u64_to_hex 48_879 ≡ 48 ∷ 120 ∷ s) × (hex_number 0 s ≡ 48_879) × (length s ≡ 16)
u64_to_hex_example = u64_to_hex_lem 48_879 (omega arith)
