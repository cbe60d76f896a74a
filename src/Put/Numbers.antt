-- ===== src/Put/Numbers.antt =====
-- `in_range_inclusive` of put/num_utils.h, on numbers that are not negative.
use traffic_generator.Base.{ℕ, Bool, true, ◌≤◌, ◌≡◌, ◌&&◌, leb, arith}

unfoldable pub in_range_inclusive : ℕ → ℕ → ℕ → Bool
in_range_inclusive x x1 x2 = leb x1 x && leb x x2

-- Both ends belong to the range.
pub in_range_inclusive_lem : (x x1 x2 : ℕ) → in_range_inclusive x x1 x2 ≡ true → (x1 ≤ x) × (x ≤ x2)
unfolding in_range_inclusive
in_range_inclusive_lem x x1 x2 e = ground arith
