-- ===== src/Gen/Pool.antt =====
-- gen/priv/mbuf_pool.cpp and put/file_utils.h: the pool of packets, and the limit of the file
-- descriptors that it needs. The calls of the system and of DPDK, with their state `E`, are a
-- parameter, and so are DPDK's constants.
pub mod Made
mod Tests
use traffic_generator.Base.{
  ℕ, ◌+◌, ◌*◌, ◌/◌, ◌%◌, ◌^◌, max, Bool, true, false, Option, none, some, ltb, if◌then◌else◌,
}
use traffic_generator.Base.Words.{add64}
use traffic_generator.Put.Cycles.{mul64}

-- `rlimit`
pub record Limits : Type 0 where
  pub soft : ℕ
  pub hard : ℕ

-- `mbuf_pool::config`
pub record PoolConfig : Type 0 where
  pub cnt_mbufs : ℕ
  pub socket_id : ℕ

-- The calls on the descriptors' limits (true for success) and on pools, and the sizes of an mbuf
-- and of a pool's cache.
pub record PoolOps (E : Type 0) : Type 0 where
  pub getrlimit : E → Option Limits × E
  pub setrlimit : Limits → E → Bool × E
  pub errno : E → ℕ
  pub pktmbuf_pool_create : ℕ → ℕ → ℕ → ℕ → ℕ → E → Option ℕ × E
  pub rte_errno : E → ℕ
  pub mempool_free : ℕ → E → E
  pub mbuf_size : ℕ
  pub cache_size : ℕ

-- How the construction ends: with a pool, with a limit that could not be set, or with no pool; the
-- errors with their codes.
pub data PoolMade (E : Type 0) : Type 0 where
  made : ℕ → E → PoolMade E
  no_fds : ℕ → ℕ → E → PoolMade E
  no_pool : ℕ → E → PoolMade E

abbrev pub huge_page_size : ℕ
huge_page_size = 2 * 1024 * 1024

abbrev pub other_fds : ℕ
other_fds = 1024

-- The soft limit is set, and the hard one raised if it is too low.
unfoldable pub new_limits : ℕ → Limits → Limits
new_limits cnt cur = record { soft = cnt; hard = if ltb cur.hard cnt then cnt else cur.hard }

module _ {E : Type 0} (ops : PoolOps E) where
  abbrev pub set_result : Bool × E → Option ℕ × E
  set_result (true, e) = (none, e)
  set_result (false, e) = (some (ops.errno e), e)

  -- The code of the error, if any. The count is of 32 bits.
  unfoldable pub set_max_count_fds : ℕ → E → Option ℕ × E
  unfolding new_limits
  set_max_count_fds cnt e =
      let (lims?, e') = ops.getrlimit e in
      elim lims? [
        | none ↦ (some (ops.errno e'), e')
        | some cur ↦ set_result (ops.setrlimit (new_limits (cnt % 2 ^ 32) cur) e')
      ]

  -- A descriptor for each huge page of the pool, and some more.
  unfoldable pub cnt_fds : PoolConfig → ℕ
  cnt_fds cfg = add64 other_fds (max 1 (mul64 cfg.cnt_mbufs ops.mbuf_size / huge_page_size))

  abbrev pub created : Option ℕ × E → PoolMade E
  created (none, e) = no_pool (ops.rte_errno e) e
  created (some p, e) = made p e

  -- The constructor
  unfoldable pub make_pool : PoolConfig → E → PoolMade E
  unfolding set_max_count_fds cnt_fds
  make_pool cfg e =
      let (err?, e') = set_max_count_fds (cnt_fds cfg) e in
      elim err? [
        | some err ↦ no_fds err (cnt_fds cfg) e'
        | none ↦
            created (
              ops.pktmbuf_pool_create cfg.cnt_mbufs ops.cache_size 0 ops.mbuf_size cfg.socket_id e')
      ]

  -- The destructor, of a pool or of what a move left.
  unfoldable pub destroy_pool : Option ℕ → E → E
  destroy_pool none e = e
  destroy_pool (some p) e = ops.mempool_free p e
