-- ===== src/Put/Ring.antt =====
-- put/spsc_ring.h: a ring with one producer and one consumer. The atomic head and tail and the two
-- cached copies are 64-bit words, never reduced to the ring's size; `buff` says of each slot
-- whether an object lives in it. A read of a slot with no object is undefined in the source, and
-- `none` here.
pub mod Cells
pub mod Holds
pub mod Push
pub mod Pop
pub mod PopBatch
pub mod PopMany
pub mod Threads
use Prim.Native.Nat.{bit_and}
use traffic_generator.Base.{
  ℕ, zero, suc, ◌+◌, ◌-◌, Bool, true, false, Option, none, some, List, [], ◌∷◌, ◌++◌, min, ltb,
  ◌==◌, if◌then◌else◌, length, take, ◌>>=◌,
}
use traffic_generator.Base.Words.{add64, sub64}

-- The members of `spsc_ring`.
pub record Ring {ℓ} (A : Type ℓ) : Type ℓ where
  pub head : ℕ
  pub prod_tail : ℕ
  pub tail : ℕ
  pub cons_head : ℕ
  pub buff : ℕ → Option A

-- `pos & size_mask`
abbrev pub slot : ℕ → ℕ → ℕ
slot size pos = bit_and pos (size - 1)

module _ {ℓ} {A : Type ℓ} where
  abbrev pub write : (ℕ → Option A) → ℕ → Option A → ℕ → Option A
  write buff i v j = if j == i then v else buff j

  -- The values of `n` slots in a row.
  pub read : (ℕ → Option A) → ℕ → ℕ → Option (List A)
  read buff i zero = some []
  read buff i (suc n) = do v ← buff i; vs ← read buff (i + 1) n; some (v ∷ vs)

  -- `destroy_consumed`
  pub destroy : (ℕ → Option A) → ℕ → ℕ → ℕ → Option A
  destroy buff i zero = buff
  destroy buff i (suc n) = destroy (write buff i none) (i + 1) n

  pub init : Ring A
  init = record { head = 0; prod_tail = 0; tail = 0; cons_head = 0; buff = λ i. none }

  -- `fn(v, n)` on a row of slots, and the destruction of what it consumed.
  pub offer {κ} :
      {S : Type κ}
      → (S → List A → ℕ × S)
      → S
      → (ℕ → Option A)
      → ℕ
      → ℕ
      → Option (ℕ × S × (ℕ → Option A))
  unfolding read destroy
  offer fn s buff i n = do vs ← read buff i n; let r = fn s vs; some (r.0, r.1, destroy buff i r.0)

  -- The callback of `try_pop(U*, size_type)`: what is written so far, and the room left.
  pub pop_into : List A × ℕ → List A → ℕ × (List A × ℕ)
  pop_into (to, sz) vs = let cnt = min sz (length vs) in (cnt, (to ++ take cnt vs, sz - cnt))

module _ {ℓ} {A : Type ℓ} (size : ℕ) where
  pub construct : Ring A → A → Bool × Ring A
  construct r x =
      (true, record r { buff = write r.buff (slot size r.head) (some x); head = add64 r.head 1 })

  push_reloaded : Ring A → A → Bool × Ring A
  unfolding construct
  push_reloaded r x = if sub64 r.head r.prod_tail == size then (false, r) else construct r x

  -- `try_push(Args&&...)`
  pub try_push : Ring A → A → Bool × Ring A
  unfolding construct push_reloaded
  try_push r x =
      if sub64 r.head r.prod_tail == size
      then push_reloaded (record r { prod_tail = r.tail }) x
      else construct r x

  -- The loop of `try_push(U*, size_type)`: the slots and the head after it.
  pub fill : (ℕ → Option A) → ℕ → List A → (ℕ → Option A) × ℕ
  fill buff head [] = (buff, head)
  fill buff head (x ∷ xs) = fill (write buff (slot size head) (some x)) (add64 head 1) xs

  pub push_avail : Ring A → List A → ℕ → ℕ × Ring A
  unfolding fill
  push_avail r from avail =
      let sz = min (length from) avail in
      let (buff, head) = fill r.buff r.head (take sz from) in
      (sz, record r { buff = buff; head = head })

  push_batch_reloaded : Ring A → List A → ℕ × Ring A
  unfolding push_avail
  push_batch_reloaded r from =
      let avail = sub64 size (sub64 r.head r.prod_tail) in
      if avail == 0 then (0, r) else push_avail r from avail

  -- `try_push(U*, size_type)`: how many values were taken, and the ring.
  pub try_push_batch : Ring A → List A → ℕ × Ring A
  unfolding push_avail push_batch_reloaded
  try_push_batch r from =
      let avail = sub64 size (sub64 r.head r.prod_tail) in
      if ltb avail (length from)
      then push_batch_reloaded (record r { prod_tail = r.tail }) from
      else push_avail r from avail

  module _ {κ} {S : Type κ} where
    -- A callback takes the value or leaves it in place.
    pub consume_one : (S → A → Bool × S) → S → Ring A → Option (Bool × S × Ring A)
    consume_one fn s r = do
      v ← r.buff (slot size r.tail)
      let taken = fn s v
      some (
          if taken.0
          then (
            true,
            taken.1,
            record r { buff = write r.buff (slot size r.tail) none; tail = add64 r.tail 1 },
          )
          else (false, taken.1, r))

    consume_reloaded : (S → A → Bool × S) → S → Ring A → Option (Bool × S × Ring A)
    unfolding consume_one
    consume_reloaded fn s r =
        if sub64 r.cons_head r.tail == 0 then some (false, s, r) else consume_one fn s r

    -- `try_consume` of a callback on one value.
    pub try_consume : (S → A → Bool × S) → S → Ring A → Option (Bool × S × Ring A)
    unfolding consume_one consume_reloaded
    try_consume fn s r =
        if sub64 r.cons_head r.tail == 0
        then consume_reloaded fn s (record r { cons_head = r.head })
        else consume_one fn s r

    -- The store of the new tail.
    abbrev commit : Ring A → ℕ × S × (ℕ → Option A) → Option (ℕ × S × Ring A)
    commit r (consumed, s, buff) =
        some (consumed, s, record r { buff = buff; tail = add64 r.tail consumed })

    -- The rest of the range, from the buffer's begin.
    pub wrap_around :
        (S → List A → ℕ × S) → ℕ → ℕ × S × (ℕ → Option A) → Option (ℕ × S × (ℕ → Option A))
    unfolding offer
    wrap_around fn end (c, s, buff) = do
      (c', s', buff') ← offer fn s buff 0 end
      some (c + c', s', buff')

    -- One range up to the end of the buffer, and from its begin if the callback took all of it.
    pub consume_wrapped :
        (S → List A → ℕ × S) → S → (ℕ → Option A) → ℕ → ℕ → Option (ℕ × S × (ℕ → Option A))
    unfolding offer wrap_around
    consume_wrapped fn s buff beg end = offer fn s buff beg (size - beg) >>= λ r.
        if size - beg == r.0 then wrap_around fn end r else some r

    pub consume_avail : (S → List A → ℕ × S) → S → Ring A → ℕ → Option (ℕ × S × Ring A)
    unfolding consume_wrapped offer
    consume_avail fn s r avail =
        let beg = slot size r.tail in
        let end = slot size (add64 r.tail avail) in
        (if ltb beg end then offer fn s r.buff beg avail else consume_wrapped fn s r.buff beg end)
        >>= commit r

    consume_batch_reloaded : (S → List A → ℕ × S) → S → Ring A → Option (ℕ × S × Ring A)
    unfolding consume_avail
    consume_batch_reloaded fn s r =
        let avail = sub64 r.cons_head r.tail in
        if avail == 0 then some (0, s, r) else consume_avail fn s r avail

    -- `try_consume` of a callback on a range of values.
    pub try_consume_batch : (S → List A → ℕ × S) → S → Ring A → Option (ℕ × S × Ring A)
    unfolding consume_avail consume_batch_reloaded
    try_consume_batch fn s r =
        let avail = sub64 r.cons_head r.tail in
        if avail == 0
        then consume_batch_reloaded fn s (record r { cons_head = r.head })
        else consume_avail fn s r avail

  -- `try_pop(U&)`: what is assigned to `to`, if anything.
  pub try_pop : Ring A → Option (Bool × Option A × Ring A)
  unfolding try_consume
  try_pop r = try_consume (λ to v. (true, some v)) none r

  -- `try_pop(U*, size_type)`
  pub try_pop_batch : Ring A → ℕ → Option (ℕ × (List A × ℕ) × Ring A)
  unfolding try_consume_batch pop_into
  try_pop_batch r sz = try_consume_batch pop_into ([], sz) r

  -- `count_pop_slots`, `count_push_slots`
  pub count_pop_slots : Ring A → ℕ
  count_pop_slots r = sub64 r.head r.tail

  pub count_push_slots : Ring A → ℕ
  unfolding count_pop_slots
  count_push_slots r = sub64 size (count_pop_slots r)

  -- `~spsc_ring`: the loop on fuel, `none` if it runs out or reads a slot with no object.
  pub destruct : ℕ → Ring A → Option (Ring A)
  destruct zero r = none
  destruct (suc fuel) r = elim (try_pop_batch r (min 16 size)) [
    | none ↦ none
    | some (cnt, to, r') ↦ elim cnt [ zero ↦ some r' | suc n ↦ destruct fuel r' ]
  ]
