-- ===== src/Gen/Pool/Made.antt =====
-- gen/priv/mbuf_pool.cpp and put/file_utils.h: the limits and the pools that a construction leaves.
use native.Mathlib.Nat.{mul-le-mul}
use mathlib.Core.Path.{subst}
use traffic_generator.Base.{
  ℕ, ◌+◌, ◌-◌, ◌*◌, ◌/◌, ◌%◌, ◌^◌, ◌≤◌, ◌<◌, ◌≡◌, max, refl, sym, ap, ◌∙◌, true, false, Bool-cases,
  none, some, Option-cases, ltb, ◌⊎◌, inl, inr, arith,
}
use traffic_generator.Put.Cycles.{mul64}
use traffic_generator.Gen.Pool.{
  Limits, PoolConfig, PoolOps, PoolMade, made, no_fds, no_pool, new_limits, set_max_count_fds,
  cnt_fds, make_pool, destroy_pool,
}

module _ {E : Type 0} (ops : PoolOps E) (limits : E → Limits) (pools : E → ℕ) where
  -- What the manuals say of the calls, for the limits and the number of pools: the limits are read
  -- as they are; they are set, or stay; a pool is added, or none; a free takes one.
  pub record IsDocumented : Type 0 where
    pub got : (e : E) (l : Limits) → (ops.getrlimit e).0 ≡ some l → l ≡ limits e
    pub get_limits : (e : E) → limits (ops.getrlimit e).1 ≡ limits e
    pub get_pools : (e : E) → pools (ops.getrlimit e).1 ≡ pools e
    pub set : (l : Limits) (e : E) → (ops.setrlimit l e).0 ≡ true → limits (ops.setrlimit l e).1 ≡ l
    pub not_set :
        (l : Limits) (e : E)
        → (ops.setrlimit l e).0 ≡ false
        → limits (ops.setrlimit l e).1 ≡ limits e
    pub set_pools : (l : Limits) (e : E) → pools (ops.setrlimit l e).1 ≡ pools e
    pub create_limits :
        (cnt cache priv size socket : ℕ) (e : E)
        → limits (ops.pktmbuf_pool_create cnt cache priv size socket e).1 ≡ limits e
    pub create :
        (cnt cache priv size socket : ℕ) (e : E) (p : ℕ)
        → (ops.pktmbuf_pool_create cnt cache priv size socket e).0 ≡ some p
        → pools (ops.pktmbuf_pool_create cnt cache priv size socket e).1 ≡ pools e + 1
    pub no_create :
        (cnt cache priv size socket : ℕ) (e : E)
        → (ops.pktmbuf_pool_create cnt cache priv size socket e).0 ≡ none
        → pools (ops.pktmbuf_pool_create cnt cache priv size socket e).1 ≡ pools e
    pub free : (p : ℕ) (e : E) → pools (ops.mempool_free p e) ≡ pools e - 1

  -- The descriptors that a pool of so many mbufs needs, in numbers without a bound.
  abbrev pub needed : PoolConfig → ℕ
  needed cfg = 1024 + max 1 (cfg.cnt_mbufs * ops.mbuf_size / (2 * 1024 * 1024))

  -- The limits that let a process have so many descriptors.
  pub record Allows (cnt : ℕ) (l l' : Limits) : Type 0 where
    pub soft : l'.soft ≡ cnt
    pub hard : l'.hard ≡ max l.hard cnt

  -- How a construction ends.
  pub data Ends (cfg : PoolConfig) (e : E) : PoolMade E → Type 0 where
    with_pool :
        (p : ℕ) (e' : E)
        → Allows (needed cfg) (limits e) (limits e')
        → pools e' ≡ pools e + 1
        → pools (destroy_pool ops (some p) e') ≡ pools e
        → Ends cfg e (made p e')
    without_fds :
        (err : ℕ) (e' : E)
        → limits e' ≡ limits e
        → pools e' ≡ pools e
        → Ends cfg e (no_fds err (needed cfg) e')
    without_pool :
        (err : ℕ) (e' : E)
        → Allows (needed cfg) (limits e) (limits e')
        → pools e' ≡ pools e
        → Ends cfg e (no_pool err e')

  -- Nothing wraps round, nor is cut to 32 bits.
  cnt_fds_lem :
      (cfg : PoolConfig)
      → cfg.cnt_mbufs < 2 ^ 32
      → ops.mbuf_size < 2 ^ 16
      → (cnt_fds ops cfg ≡ needed cfg) × (cnt_fds ops cfg < 2 ^ 32)
  unfolding cnt_fds
  cnt_fds_lem cfg few small =
      let bound : cfg.cnt_mbufs * ops.mbuf_size ≤ 2 ^ 32 * 2 ^ 16 =
        mul-le-mul {n₂ = 2 ^ 32} {m₂ = 2 ^ 16} (omega (arith, few)) (omega (arith, small)) in
      let whole : mul64 cfg.cnt_mbufs ops.mbuf_size ≡ cfg.cnt_mbufs * ops.mbuf_size =
        omega (arith, bound) in
      let halved = ap (λ n. n / (2 * 1024 * 1024)) whole in
      (omega (arith, halved, bound), omega (arith, halved, bound))

  allowed : (cnt : ℕ) (l : Limits) → cnt < 2 ^ 32 → Allows cnt l (new_limits (cnt % 2 ^ 32) l)
  unfolding new_limits
  allowed cnt l small = elim (Bool-cases (ltb l.hard (cnt % 2 ^ 32))) [
    | inl low ↦ record { soft = omega arith; hard = rw low (ground (arith, low)) }
    | inr high ↦ record { soft = omega arith; hard = rw high (ground (arith, high)) }
  ]

  module _ (doc : IsDocumented) where
    -- `set_max_count_fds`: the limits are set, or stay as they were.
    pub set_max_count_fds_lem :
        (cnt : ℕ) (e : E)
        → cnt < 2 ^ 32
        → (((set_max_count_fds ops cnt e).0 ≡ none)
            × Allows cnt (limits e) (limits (set_max_count_fds ops cnt e).1)
            × (pools (set_max_count_fds ops cnt e).1 ≡ pools e))
          ⊎ ((err : ℕ) × ((set_max_count_fds ops cnt e).0 ≡ some err)
              × (limits (set_max_count_fds ops cnt e).1 ≡ limits e)
              × (pools (set_max_count_fds ops cnt e).1 ≡ pools e))
    unfolding set_max_count_fds
    set_max_count_fds_lem cnt e small =
        let e₁ = (ops.getrlimit e).1 in
        elim (Option-cases (ops.getrlimit e).0) [
          | inl unread ↦ inr (
            ops.errno e₁,
            rw (unread, set_max_count_fds) refl,
            rw (unread, set_max_count_fds) (doc.get_limits e),
            rw (unread, set_max_count_fds) (doc.get_pools e),
          )
          | inr (cur, got) ↦
              let l = new_limits (cnt % 2 ^ 32) cur in
              let pools_same = doc.set_pools l e₁ ∙ doc.get_pools e in
              elim (Bool-cases (ops.setrlimit l e₁).0) [
                | inl done ↦ inl (
                  rw (got, set_max_count_fds, done) refl,
                  rw (got, set_max_count_fds, done)
                      (subst (Allows cnt (limits e)) (sym (doc.set l e₁ done))
                        (subst (λ k. Allows cnt k l) (doc.got e cur got) (allowed cnt cur small))),
                  rw (got, set_max_count_fds, done) pools_same,
                )
                | inr failed ↦ inr (
                  ops.errno (ops.setrlimit l e₁).1,
                  rw (got, set_max_count_fds, failed) refl,
                  rw (got, set_max_count_fds, failed) (doc.not_set l e₁ failed ∙ doc.get_limits e),
                  rw (got, set_max_count_fds, failed) pools_same,
                )
              ]
        ]

    -- The construction of a pool ends in one of three ways. With a pool: there is one more, until it is
    -- destroyed, and the limits allow a descriptor for each huge page of the mbufs, one at least, and
    -- 1'024 more: the soft limit is that number, and the hard one is raised to it if it is lower.
    -- With limits that could not be set: they are as they were, and there is no new pool. With
    -- limits that are set, and no new pool. For a count of 32 bits and a size of 16 bits nothing
    -- wraps round. It takes calls of the system and of DPDK that do what their manuals say.
    pub make_pool-Ends :
        (cfg : PoolConfig) (e : E)
        → cfg.cnt_mbufs < 2 ^ 32
        → ops.mbuf_size < 2 ^ 16
        → Ends cfg e (make_pool ops cfg e)
    unfolding make_pool destroy_pool
    make_pool-Ends cfg e few small =
        let (exact, word) = cnt_fds_lem cfg few small in
        let cnt = cnt_fds ops cfg in
        let e₁ = (set_max_count_fds ops cnt e).1 in
        let goal = Ends cfg e in
        elim (set_max_count_fds_lem cnt e word) [
          | inr (err, failed, lims, same) ↦
              let ends : make_pool ops cfg e ≡ no_fds err (needed cfg) e₁ =
                rw (failed, make_pool) (ap (λ n. no_fds err n e₁) exact) in
              subst goal (sym ends) (without_fds err e₁ lims same)
          | inl (done, allows, same) ↦
              let c =
                ops.pktmbuf_pool_create cfg.cnt_mbufs ops.cache_size 0 ops.mbuf_size cfg.socket_id
                  e₁ in
              let lims : Allows (needed cfg) (limits e) (limits c.1) =
                subst (λ n. Allows n (limits e) (limits c.1)) exact
                  (subst (Allows cnt (limits e))
                    (sym (
                      doc.create_limits cfg.cnt_mbufs ops.cache_size 0 ops.mbuf_size cfg.socket_id
                        e₁))
                    allows) in
              elim (Option-cases c.0) [
                | inl none_made ↦
                    let ends : make_pool ops cfg e ≡ no_pool (ops.rte_errno c.1) c.1 =
                      rw (done, make_pool, none_made) refl in
                    subst goal (sym ends) (
                      without_pool (ops.rte_errno c.1) c.1 lims (
                        doc.no_create cfg.cnt_mbufs ops.cache_size 0 ops.mbuf_size cfg.socket_id e₁
                          none_made
                        ∙ same))
                | inr (p, is_made) ↦
                    let ends : make_pool ops cfg e ≡ made p c.1 =
                      rw (done, make_pool, is_made) refl in
                    let one_more =
                      doc.create cfg.cnt_mbufs ops.cache_size 0 ops.mbuf_size cfg.socket_id e₁ p
                        is_made in
                    subst goal (sym ends) (
                      with_pool p c.1 lims (omega (arith, one_more, same))
                        (omega (arith, doc.free p c.1, one_more, same)))
              ]
        ]
