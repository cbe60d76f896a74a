-- ===== src/Base/Words.antt =====
-- Machine words as native numbers with their wrap-around written out, and how a word that stands
-- for an unbounded position adds, subtracts and is masked.
use Prim.Native.Nat.{bit_and, ◌∣◌ as Divides}
use Prim.Native.Nat.{ℕ, zero, suc, ◌+◌, ◌-◌, ◌*◌, ◌%◌, ◌^◌, ◌≤◌, ◌<◌}
use mathlib.Core.Path.{◌≡◌, ◌∙◌, sym, ap}
use native.Mathlib.Nat.{one-le-pow, pow-le-pow_right, mod-mod_of_dvd, pow-suc, mul_assoc}
use native.Mathlib.Omega.{arith}
use traffic_generator.Base.Bits.{bit_and_mask}

abbrev pub word : ℕ
word = 2 ^ 64

-- `a + b` and `a - b` of `size_t` and `uint64_t`.
abbrev pub add64 : ℕ → ℕ → ℕ
add64 a b = (a + b) % word

abbrev pub sub64 : ℕ → ℕ → ℕ
sub64 a b = (a + word - b) % word

-- `a + b`, `++a` of `uint32_t`.
abbrev pub add32 : ℕ → ℕ → ℕ
add32 a b = (a + b) % 2 ^ 32

pub add64_pos : (h n : ℕ) → add64 (h % word) n ≡ (h + n) % word
add64_pos h n = omega arith

pub sub64_pos : (h t : ℕ) → t ≤ h → h < t + word → sub64 (h % word) (t % word) ≡ h - t
sub64_pos h t p q = omega arith

-- What `static_assert((Size > 0) && ((Size & (Size - 1)) == 0))` grants of a `size_t` constant.
abbrev pub IsPow2 : ℕ → Type 0
IsPow2 size = (k : ℕ) × (k < 64) × (size ≡ 2 ^ k)

pub IsPow2-pos : {size : ℕ} → IsPow2 size → 0 < size
IsPow2-pos (k, s, e) = omega (arith, one-le-pow k 2, e)

pub IsPow2-le : {size : ℕ} → IsPow2 size → size ≤ 2 ^ 63
IsPow2-le (k, s, e) =
    omega (arith, pow-le-pow_right {n = 2} (omega arith) {i = k} {j = 63} (omega arith), e)

-- Any smaller power of two divides a larger one.
pow_factor : (d k n : ℕ) → k + d ≡ n → (c : ℕ) × (2 ^ n ≡ 2 ^ k * c)
pow_factor zero k n e = let n-eq : n ≡ k = omega arith in (1, rw n-eq (omega arith))
pow_factor (suc d) k zero e = absurd (omega arith)
pow_factor (suc d) k (suc n) e =
    let (c, h) = pow_factor d k n (omega arith) in
    (c * 2, pow-suc 2 n ∙ ap (λ (t : ℕ). t * 2) h ∙ mul_assoc (2 ^ k) c 2)

pub IsPow2-dvd : {size : ℕ} → IsPow2 size → Divides size word
IsPow2-dvd (k, s, e) = let (c, h) = pow_factor (64 - k) k 64 (omega arith) in rw e (∣ (c, h) ∣₁)

-- Masking a wrapped position gives the position's place in the ring.
pub mask_pos : {size : ℕ} → IsPow2 size → (h : ℕ) → bit_and (h % word) (size - 1) ≡ h % size
mask_pos {size} (k, s, e) h =
    ap (λ (t : ℕ). bit_and (h % word) (t - 1)) e
    ∙ bit_and_mask k (h % word)
    ∙ ap (λ (t : ℕ). h % word % t) (sym e)
    ∙ mod-mod_of_dvd size h (IsPow2-dvd (k, s, e))
