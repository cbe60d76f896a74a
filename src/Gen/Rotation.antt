-- ===== src/Gen/Rotation.antt =====
-- gen/priv/flows_generator.cpp: `inc_reset`, and the three members that it moves on, the burst
-- index and the two addresses. An iterator of a range of addresses is the address as a number;
-- the ranges are those that `hosts()` gives of the configured networks.
use native.Mathlib.Nat.{
  div-add-mod, mod-lt, mod-eq_of_lt, div-eq_of_lt, div_self, mul-add-div, mul-add-mod_self_left,
  zero-div,
}
use native.Mathlib.Decide.{dec_lt}
use traffic_generator.Base.{
  ℕ, ◌+◌, ◌-◌, ◌*◌, ◌/◌, ◌%◌, ◌^◌, ◌<◌, ◌≡◌, ap, ◌∙◌, Bool, true, false, ◌⊎◌, inl, inr, ◌==◌,
  if◌then◌else◌, arith,
}
use traffic_generator.Base.Words.{add32}

pub record Range : Type 0 where
  pub begin : ℕ
  pub end : ℕ

-- `inc_reset`: the new value, and whether it went round.
unfoldable pub inc_reset : ℕ → ℕ → ℕ → ℕ × Bool
inc_reset val beg end = let next = add32 val 1 in if next == end then (beg, true) else (next, false)

-- What `setup_flows` and the generator keep of where they are in the ranges.
pub record Place : Type 0 where
  pub cln_ip_addr : ℕ
  pub srv_ip_addr : ℕ
  pub burst_idx : ℕ

module _ (cln srv : Range) (burst_cnt : ℕ) where
  unfoldable pub begin_place : Place
  begin_place = record { cln_ip_addr = cln.begin; srv_ip_addr = srv.begin; burst_idx = 0 }

  -- The code after a flow took its addresses, in `setup_flows` and in `on_flow_event`.
  unfoldable pub advance : Place → Place
  unfolding inc_reset
  advance p =
      let (idx, round) = inc_reset p.burst_idx 0 burst_cnt in
      if round
      then record {
        cln_ip_addr = (inc_reset p.cln_ip_addr cln.begin cln.end).0;
        srv_ip_addr = (inc_reset p.srv_ip_addr srv.begin srv.end).0;
        burst_idx = idx;
      }
      else record p { burst_idx = idx }

  -- The place after `n` flows, in closed form: a burst of flows shares its two addresses, and
  -- each range starts again when it is used up.
  unfoldable pub place_after : ℕ → Place
  place_after n = record {
    cln_ip_addr = cln.begin + n / burst_cnt % (cln.end - cln.begin);
    srv_ip_addr = srv.begin + n / burst_cnt % (srv.end - srv.begin);
    burst_idx = n % burst_cnt;
  }

-- A range with an address in it, of addresses of 32 bits; its end is an address too.
pub record IsRange (r : Range) : Type 0 where
  pub nonempty : r.begin < r.end
  pub word : r.end < 2 ^ 32

-- One more flow: either the burst goes on, or the next begins.
next_div-mod :
    (n b : ℕ)
    → 0 < b
    → ((n % b + 1 < b) × ((n + 1) / b ≡ n / b) × ((n + 1) % b ≡ n % b + 1))
      ⊎ ((n % b + 1 ≡ b) × ((n + 1) / b ≡ n / b + 1) × ((n + 1) % b ≡ 0))
next_div-mod n b pos = elim (dec_lt (n % b + 1) b) [
  | yes p ↦ inl (
    p,
    quotient ∙ ap (λ (k : ℕ). n / b + k) (div-eq_of_lt p) ∙ omega arith,
    remainder ∙ mod-eq_of_lt p,
  )
  | no p ↦
      let e : n % b + 1 ≡ b = omega (arith, mod-lt n pos) in
      inr (
        e,
        quotient ∙ ap (λ (k : ℕ). n / b + k / b) e ∙ ap (λ (k : ℕ). n / b + k) (div_self pos),
        remainder ∙ ap (λ (k : ℕ). k % b) e ∙ grind arith,
      )
]
  where
    sum : n + 1 ≡ b * (n / b) + (n % b + 1)
    sum = omega (arith, div-add-mod n b)

    quotient : (n + 1) / b ≡ n / b + (n % b + 1) / b
    quotient = ap (λ (k : ℕ). k / b) sum ∙ mul-add-div pos (n / b) (n % b + 1)

    remainder : (n + 1) % b ≡ (n % b + 1) % b
    remainder = ap (λ (k : ℕ). k % b) sum ∙ mul-add-mod_self_left b (n / b) (n % b + 1)

-- One more step in a range.
inc_reset-mod :
    (r : Range) (m : ℕ)
    → IsRange r
    → (inc_reset (r.begin + m % (r.end - r.begin)) r.begin r.end).0
      ≡ r.begin + (m + 1) % (r.end - r.begin)
unfolding inc_reset
inc_reset-mod r m v = ground (arith, v.nonempty, v.word, next_div-mod m (r.end - r.begin))

module _ (cln srv : Range) (burst_cnt : ℕ) (c : IsRange cln) (s : IsRange srv) (b : 0 < burst_cnt)
    (w : burst_cnt < 2 ^ 32) where
  pub advance-place_after :
      (n : ℕ)
      → advance cln srv burst_cnt (place_after cln srv burst_cnt n)
        ≡ place_after cln srv burst_cnt (n + 1)
  unfolding advance place_after inc_reset
  advance-place_after n = ground (
    arith,
    next_div-mod n burst_cnt b,
    inc_reset-mod cln (n / burst_cnt) c,
    inc_reset-mod srv (n / burst_cnt) s,
  )

  pub begin_place-place_after : begin_place cln srv burst_cnt ≡ place_after cln srv burst_cnt 0
  unfolding begin_place place_after
  begin_place-place_after = ground (arith, zero-div burst_cnt)
