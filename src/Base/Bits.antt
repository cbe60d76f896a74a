-- ===== src/Base/Bits.antt =====
-- `x & m` at variables: a mask of `k` low bits is the remainder by `2 ^ k`. The native operation
-- is known by its definition only, a recursion on binary digits with fuel.
use Prim.Native.Nat.{bit_and, digits, bit_and-bitwise}
use Prim.Native.Nat.{ℕ, zero, suc, ◌+◌, ◌-◌, ◌*◌, ◌/◌, ◌%◌, ◌^◌, ◌≤◌, ◌<◌, min}
use mathlib.Core.Path.{◌≡◌, refl, ap, ◌∙◌}
use native.Mathlib.Nat.{
  pow-suc, one-le-pow, mul-add-mod_self_left, div-add-mod, mod-lt, mod-eq_of_lt,
}
use native.Mathlib.Omega.{arith}

abbrev masked : ℕ → ℕ → ℕ → ℕ
masked = digits (λ y. zero) min

-- Fuel beyond the number itself changes nothing.
enough_fuel : (n m a b : ℕ) → a ≤ n → a ≤ m → masked n a b ≡ masked m a b
enough_fuel zero zero a b p q = refl
enough_fuel zero (suc m) zero b p q = refl
enough_fuel zero (suc m) (suc a) b p q = absurd (omega arith)
enough_fuel (suc n) zero zero b p q = refl
enough_fuel (suc n) zero (suc a) b p q = absurd (omega arith)
enough_fuel (suc n) (suc m) zero b p q = refl
enough_fuel (suc n) (suc m) (suc a) b p q =
    ap (λ t. t * 2 + min (suc a % 2) (b % 2))
      (enough_fuel n m (suc a / 2) (b / 2) (omega arith) (omega arith))

pub bit_and_lowest : (a b : ℕ) → bit_and a b ≡ bit_and (a / 2) (b / 2) * 2 + min (a % 2) (b % 2)
bit_and_lowest zero b = omega (arith, bit_and-bitwise 0 b, bit_and-bitwise 0 (b / 2))
bit_and_lowest (suc a) b = omega (
  arith,
  bit_and-bitwise (suc a) b,
  bit_and-bitwise (suc a / 2) (b / 2),
  enough_fuel a (suc a / 2) (suc a / 2) (b / 2) (omega arith) (omega arith),
)

zero_mask : (n a : ℕ) → a ≤ n → bit_and a 0 ≡ 0
zero_mask zero zero h = refl
zero_mask zero (suc a) h = absurd (omega arith)
zero_mask (suc n) zero h = refl
zero_mask (suc n) (suc a) h =
    omega (arith, bit_and_lowest (suc a) 0, zero_mask n (suc a / 2) (omega arith))

-- The lowest digit of a remainder by an even number.
mod-double : (a p : ℕ) → 0 < p → a % (2 * p) ≡ (a / 2) % p * 2 + a % 2
mod-double a p h =
    ap (λ (t : ℕ). t % (2 * p)) split
    ∙ mul-add-mod_self_left (2 * p) (a / 2 / p) ((a / 2) % p * 2 + a % 2)
    ∙ mod-eq_of_lt (omega (arith, mod-lt (a / 2) h))
  where
    split : a ≡ 2 * p * (a / 2 / p) + ((a / 2) % p * 2 + a % 2)
    split = omega (arith, div-add-mod (a / 2) p)

pub bit_and_mask : (k a : ℕ) → bit_and a (2 ^ k - 1) ≡ a % 2 ^ k
bit_and_mask zero a = omega (arith, zero_mask a a (omega arith))
bit_and_mask (suc k) a = omega (
  arith,
  bit_and_lowest a (2 ^ suc k - 1),
  ap (bit_and (a / 2)) halved,
  ap (λ (t : ℕ). a % t) double',
  mod-double a (2 ^ k) pos,
  bit_and_mask k (a / 2),
  double,
  pos,
)
  where
    pos : 0 < 2 ^ k
    pos = one-le-pow k 2 (omega arith)

    double : 2 ^ suc k ≡ 2 ^ k * 2
    double = pow-suc 2 k

    double' : 2 ^ suc k ≡ 2 * 2 ^ k
    double' = omega (arith, double)

    halved : (2 ^ suc k - 1) / 2 ≡ 2 ^ k - 1
    halved = omega (arith, double, pos)
