-- ===== src/Put/Stacktrace.antt =====
-- put/stacktrace.cpp: the conversions of numbers that a signal handler may use. A buffer's
-- characters are codes; `none` is a write before the buffer.
pub mod Dump
use traffic_generator.Base.{
  ℕ, zero, suc, ◌+◌, ◌*◌, ◌-◌, ◌/◌, ◌%◌, ◌^◌, ◌≤◌, ◌<◌, ◌≡◌, refl, ap, ◌∙◌, false, Bool-cases,
  Option, none, some, [], ◌∷◌, length, ltb, ◌==◌, if◌then◌else◌, inl, inr, arith,
}
use traffic_generator.Put.Text.{Text}
use traffic_generator.Put.Text.Number.{number_from}

-- The loop of `u32_to_dec`, with `i` the index of the last character written, the characters from
-- it on in `buf`.
pub dec_digits : ℕ → ℕ → Text → Option Text
dec_digits zero val buf = none
dec_digits (suc i) val buf =
    let buf' = (val % 10 + 48) ∷ buf in
    let rest = dec_digits i (val / 10) buf' in if val / 10 == 0 then some buf' else rest

-- The text of `u32_to_dec`, which has room for ten digits.
unfoldable pub u32_to_dec : ℕ → Option Text
unfolding dec_digits
u32_to_dec val = dec_digits 10 val []

-- "0123456789ABCDEF"
abbrev pub hex_digit : ℕ → ℕ
hex_digit d = if ltb d 10 then d + 48 else d + 55

-- The loop of `u64_to_hex`, with `k` characters left to write.
pub hex_digits : ℕ → ℕ → Text → Text
hex_digits zero val buf = buf
hex_digits (suc k) val buf = hex_digits k (val / 16) (hex_digit (val % 16) ∷ buf)

unfoldable pub u64_to_hex : ℕ → Text
unfolding hex_digits
u64_to_hex val = 48 ∷ 120 ∷ hex_digits 16 val []

dec_digits_lem :
    (i val : ℕ) (buf : Text)
    → 0 < i
    → val < 10 ^ i
    → (s : Text) × (dec_digits i val buf ≡ some s)
      × (number_from 0 s ≡ number_from val buf)
      × (length s ≤ length buf + i)
unfolding dec_digits
dec_digits_lem zero val buf pos h = absurd (omega (arith, pos))
dec_digits_lem (suc i) val buf pos h = elim (Bool-cases (val / 10 == 0)) [
  | inl last ↦
      let e : 0 * 10 + (val % 10 + 48 - 48) ≡ val = ground (arith, last) in
      ((val % 10 + 48) ∷ buf, rw last refl, ap (λ n. number_from n buf) e, omega arith)
  | inr more ↦
      let (s, e, v, len) =
        dec_digits_lem i (val / 10) ((val % 10 + 48) ∷ buf) (some_left i more h)
          (omega (arith, h)) in
      let n : val / 10 * 10 + (val % 10 + 48 - 48) ≡ val = omega arith in
      (s, rw more e, v ∙ ap (λ k. number_from k buf) n, omega (arith, len))
]
  where
    some_left : (i : ℕ) → (val / 10 == 0) ≡ false → val < 10 ^ suc i → 0 < i
    some_left zero more h = absurd (ground (arith, more, h))
    some_left (suc i) more h = omega arith

-- Every number of 32 bits is converted within the buffer, to its decimal digits, ten at most.
pub u32_to_dec_lem :
    (val : ℕ)
    → val < 2 ^ 32
    → (s : Text) × (u32_to_dec val ≡ some s) × (number_from 0 s ≡ val) × (length s ≤ 10)
unfolding u32_to_dec
u32_to_dec_lem val h =
    let (s, e, v, len) = dec_digits_lem 10 val [] (omega arith) (omega (arith, h)) in
    (s, e, v, omega (arith, len))

-- The number of a hexadecimal digit, and of digits.
abbrev pub hex_value : ℕ → ℕ
hex_value c = if ltb c 58 then c - 48 else c - 55

abbrev pub hex_number : ℕ → Text → ℕ
hex_number n [] = n
hex_number n (c ∷ cs) = hex_number (n * 16 + hex_value c) cs

hex_digit_lem : (d : ℕ) → d < 16 → hex_value (hex_digit d) ≡ d
hex_digit_lem d h = ground (arith, h)

hex_digits_lem :
    (k val : ℕ) (buf : Text)
    → val < 16 ^ k
    → (hex_number 0 (hex_digits k val buf) ≡ hex_number val buf)
      × (length (hex_digits k val buf) ≡ k + length buf)
unfolding hex_digits
hex_digits_lem zero val buf h =
    let e : 0 ≡ val = omega (arith, h) in (ap (λ n. hex_number n buf) e, omega arith)
hex_digits_lem (suc k) val buf h =
    let (v, len) = hex_digits_lem k (val / 16) (hex_digit (val % 16) ∷ buf) (omega (arith, h)) in
    let d = hex_digit_lem (val % 16) (omega arith) in
    let e : val / 16 * 16 + hex_value (hex_digit (val % 16)) ≡ val = omega (arith, d) in
    (v ∙ ap (λ n. hex_number n buf) e, omega (arith, len))

-- Every number of 64 bits is converted to 16 hexadecimal digits after "0x", which write it.
pub u64_to_hex_lem :
    (val : ℕ)
    → val < 2 ^ 64
    → (s : Text) × (u64_to_hex val ≡ 48 ∷ 120 ∷ s) × (hex_number 0 s ≡ val) × (length s ≡ 16)
unfolding u64_to_hex
u64_to_hex_lem val h =
    let (v, len) = hex_digits_lem 16 val [] (omega (arith, h)) in
    (hex_digits 16 val [], refl, v, omega (arith, len))
