-- ===== src/Put/Ring/Cells.antt =====
-- What the slots hold, by unbounded positions: a queue of values from position `t` on, and no
-- object in any other slot.
use native.Mathlib.Nat.{mod-add-mod, mod-eq_of_lt, mod-eq-sub-mod, mod-lt}
use native.Mathlib.Decide.{dec_lt}
use traffic_generator.Base.{
  ℕ, zero, suc, ◌+◌, ◌-◌, ◌%◌, ◌≤◌, ◌<◌, ◌≡◌, ◌≢◌, refl, sym, ap, ◌∙◌, Option, none, some, List, [],
  ◌∷◌, ◌++◌, length, get_elem?, get_elem?-eq_none, take, drop, arith, ◌==◌, ◌⊎◌, inl, inr,
  if◌then◌else◌,
}
use mathlib.Core.Path.{subst}
use traffic_generator.Put.Ring.{write, read, destroy}

-- A sum of two places in the ring wraps at most once.
pub add_wrap :
    (u i size : ℕ)
    → u < size
    → i ≤ size
    → ((u + i) % size ≡ u + i) ⊎ ((u + i) % size + size ≡ u + i)
add_wrap u i size hu hi = elim (dec_lt (u + i) size) [
  | yes p ↦ inl (mod-eq_of_lt p)
  | no p ↦ inr (
      omega (
        arith,
        mod-eq-sub-mod {n = u + i} {m = size} (omega arith),
        mod-eq_of_lt {n = u + i - size} {m = size} (omega arith),
      ))
]

-- Positions less than a round apart have different slots.
pub mod_injective : (size t i j : ℕ) → i < size → j < size → (t + i) % size ≡ (t + j) % size → i ≡ j
mod_injective size t i j hi hj e = omega (
  arith,
  mod-lt t {m = size} (omega arith),
  add_wrap (t % size) i size (mod-lt t (omega arith)) (omega arith),
  add_wrap (t % size) j size (mod-lt t (omega arith)) (omega arith),
  mod-add-mod t size i,
  mod-add-mod t size j,
  e,
)

-- A whole round comes back to the same slot.
mod_round : (size t i : ℕ) → suc i ≡ size → (t + 1 + i) % size ≡ t % size
mod_round size t i e =
    let h : t + 1 + i ≡ t + size = omega arith in ap (λ (k : ℕ). k % size) h ∙ grind arith

module _ {A : Type 0} (size : ℕ) where
  abbrev pub Cells : (ℕ → Option A) → ℕ → List A → Type 0
  Cells buff t q = (i : ℕ) → i < size → buff ((t + i) % size) ≡ get_elem? q i

pub get_elem?-snoc :
    {A : Type 0} (q : List A) (x : A) (i : ℕ)
    → get_elem? (q ++ (x ∷ [])) i ≡ (if i == length q then some x else get_elem? q i)
get_elem?-snoc [] x zero = refl
get_elem?-snoc [] x (suc i) = ground arith
get_elem?-snoc (y ∷ q) x zero = ground arith
get_elem?-snoc (y ∷ q) x (suc i) = ground (arith, get_elem?-snoc q x i)

module _ {A : Type 0} (size : ℕ) where
  -- Constructing a value past the last one.
  pub Cells-snoc :
      (buff : ℕ → Option A) (t : ℕ) (q : List A) (x : A)
      → length q < size
      → Cells size buff t q
      → Cells size (write buff ((t + length q) % size) (some x)) t (q ++ (x ∷ []))
  Cells-snoc buff t q x room c i hi =
      ground (arith, get_elem?-snoc q x i, mod_injective size t i (length q) hi room, c i hi)

  -- Destroying the first value.
  pub Cells-tail :
      (buff : ℕ → Option A) (t : ℕ) (x : A) (q : List A)
      → suc (length q) ≤ size
      → Cells size buff t (x ∷ q)
      → Cells size (write buff (t % size) none) (t + 1) q
  Cells-tail buff t x q fits c i hi = elim (dec_lt (suc i) size) [
    | yes p ↦
        let e : t + 1 + i ≡ t + suc i = omega arith in
        ground (arith, ap (λ (k : ℕ). k % size) e, c (suc i) p, other p)
    | no p ↦ ground (arith, mod_round size t i (omega arith), get_elem?-eq_none q i (omega arith))
  ]
    where
      add_zero' : (n : ℕ) → n ≡ n + 0
      add_zero' n = omega arith

      other : suc i < size → (t + suc i) % size ≢ t % size
      other p e =
          let z : t % size ≡ (t + 0) % size = ap (λ (k : ℕ). k % size) (add_zero' t) in
          let w : suc i ≡ 0 = mod_injective size t (suc i) 0 p (omega arith) (e ∙ z) in omega arith

drop-of_lt :
    {A : Type 0} (q : List A) (m : ℕ)
    → m < length q
    → (v : A) × (get_elem? q m ≡ some v) × (drop m q ≡ v ∷ drop (suc m) q)
drop-of_lt [] m h = absurd (omega arith)
drop-of_lt (x ∷ q) zero h = (x, refl, refl)
drop-of_lt (x ∷ q) (suc m) h = drop-of_lt q m (omega arith)

-- The place after one that is not the ring's last.
next_place : (size t i : ℕ) → i ≡ t % size → i + 1 < size → i + 1 ≡ (t + 1) % size
next_place size t i e h =
    let w : (t % size + 1) % size ≡ t % size + 1 = mod-eq_of_lt (omega arith) in
    omega (arith, mod-add-mod t size 1, w)

module _ {A : Type 0} (size : ℕ) where
  -- A row of slots from the place of the value number `m` on.
  pub read-Cells :
      (buff : ℕ → Option A) (t : ℕ) (q : List A) (n i m : ℕ)
      → length q ≤ size
      → m + n ≤ length q
      → i + n ≤ size
      → (0 < n → i ≡ (t + m) % size)
      → Cells size buff t q
      → read buff i n ≡ some (take n (drop m q))
  unfolding read
  read-Cells buff t q zero i m fits inside row at c = refl
  read-Cells buff t q (suc n) i m fits inside row at c =
      let (v, e, d) = drop-of_lt q m (omega arith) in
      let here : buff i ≡ some v = ap buff (at (omega arith)) ∙ c m (omega arith) ∙ e in
      let rest : read buff (i + 1) n ≡ some (take n (drop (suc m) q)) =
        read-Cells buff t q n (i + 1) (suc m) fits (omega arith) (omega arith) next c in
      rw (here, rest, d)
    where
      next : 0 < n → i + 1 ≡ (t + suc m) % size
      next pos =
          let e : t + m + 1 ≡ t + suc m = omega arith in
          next_place size (t + m) i (at (omega arith)) (omega arith) ∙ ap (λ (k : ℕ). k % size) e

  -- Destroying the first `n` values, which stand in a row.
  pub Cells-destroy :
      (buff : ℕ → Option A) (t : ℕ) (q : List A) (n i : ℕ)
      → length q ≤ size
      → n ≤ length q
      → i + n ≤ size
      → (0 < n → i ≡ t % size)
      → Cells size buff t q
      → Cells size (destroy buff i n) (t + n) (drop n q)
  unfolding destroy
  Cells-destroy buff t q zero i fits le row at c = let e : t + 0 ≡ t = omega arith in rw e c
  Cells-destroy buff t [] (suc n) i fits le row at c = absurd (omega arith)
  Cells-destroy buff t (x ∷ q) (suc n) i fits le row at c =
      let e : t + suc n ≡ t + 1 + n = omega arith in
      let first : Cells size (write buff i none) (t + 1) q =
        subst (λ (k : ℕ). Cells size (write buff k none) (t + 1) q) (sym (at (omega arith)))
          (Cells-tail size buff t x q fits c) in
      rw e (
        Cells-destroy (write buff i none) (t + 1) q n (i + 1) (omega arith) (omega arith)
          (omega arith) (λ pos. next_place size t i (at (omega arith)) (omega arith)) first)
