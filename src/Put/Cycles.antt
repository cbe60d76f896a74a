-- ===== src/Put/Cycles.antt =====
-- put/time_utils.h: timer cycles and their conversions. The frequency is that of DPDK's timer.
use native.Mathlib.Nat.{div-le_of_le-mul, le-div_iff_mul-le, add-div_right}
use traffic_generator.Base.{ℕ, ◌+◌, ◌*◌, ◌/◌, ◌%◌, ◌≤◌, ◌<◌, ◌≡◌, arith}
use traffic_generator.Base.Words.{word}

-- `uint64_t` multiplication.
abbrev pub mul64 : ℕ → ℕ → ℕ
mul64 a b = a * b % word

module _ (hz : ℕ) where
  -- `from_duration` of seconds, milliseconds, microseconds and nanoseconds.
  pub from_secs : ℕ → ℕ
  from_secs dur = mul64 dur hz

  pub from_millis : ℕ → ℕ
  from_millis dur = mul64 dur hz / 1_000

  unfoldable pub from_micros : ℕ → ℕ
  from_micros dur = mul64 dur hz / 1_000_000

  pub from_nanos : ℕ → ℕ
  from_nanos dur = mul64 dur hz / 1_000_000_000

  -- `to<Dur>`; the division is by a frequency that is not 0.
  pub to_secs : ℕ → ℕ
  to_secs num = num / hz

  pub to_millis : ℕ → ℕ
  to_millis num = mul64 num 1_000 / hz

  unfoldable pub to_micros : ℕ → ℕ
  to_micros num = mul64 num 1_000_000 / hz

  pub to_nanos : ℕ → ℕ
  to_nanos num = mul64 num 1_000_000_000 / hz

  -- Cycles of a longer duration are at least as many, where neither product passes 64 bits.
  pub from_micros_mono : (a b : ℕ) → a ≤ b → b * hz < word → from_micros a ≤ from_micros b
  unfolding from_micros
  from_micros_mono a b h fits = let le : a * hz ≤ b * hz = grind arith in omega arith

  -- A duration in microseconds comes back from cycles no longer, and shorter by one unit at most,
  -- if the product passes no 64 bits and the timer ticks at least once a microsecond.
  pub to_micros-from_micros :
      (dur : ℕ)
      → dur * hz < word
      → 1_000_000 ≤ hz
      → (to_micros (from_micros dur) ≤ dur) × (dur ≤ to_micros (from_micros dur) + 1)
  unfolding to_micros from_micros
  to_micros-from_micros dur fits fast =
      let cycles = dur * hz % word / 1_000_000 * 1_000_000 in
      let pos : 0 < hz = omega arith in
      let whole : cycles % word ≡ cycles = omega arith in
      let under : cycles ≤ dur * hz = omega arith in
      let near : dur * hz ≤ cycles + hz = omega arith in
      rw whole (
        div-le_of_le-mul hz (omega (arith, under)),
        omega (
          arith,
          (le-div_iff_mul-le {x = dur} {y = cycles + hz} pos).1 near,
          add-div_right cycles pos,
        ),
      )
