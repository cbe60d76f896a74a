-- ===== src/Gen/Pool/Tests.antt =====
-- Tests of the pool of packets, for a process that may raise its hard limit to 100'000 at most.
use traffic_generator.Base.{
  ℕ, ◌+◌, ◌-◌, ◌≡◌, refl, Bool, true, false, Bool-cases, some, leb, if◌then◌else◌, inl, inr, arith,
}
use traffic_generator.Gen.Pool.{
  Limits, PoolConfig, PoolOps, make_pool, set_max_count_fds, new_limits, cnt_fds, made,
}
use traffic_generator.Gen.Pool.Made.{IsDocumented, Ends, make_pool-Ends}

-- The limits and the number of pools.
abbrev Sys : Type 0
Sys = Limits × ℕ

abbrev set_to : Limits → Sys → Bool × Sys
set_to l (lims, n) = if leb l.hard 100_000 then (true, (l, n)) else (false, (lims, n))

abbrev pool_ops : PoolOps Sys
pool_ops = record {
  getrlimit = λ e. (some e.0, e);
  setrlimit = set_to;
  errno = λ e. 1;
  pktmbuf_pool_create = λ cnt cache priv size socket e. (some 7, (e.0, e.1 + 1));
  rte_errno = λ e. 12;
  mempool_free = λ p e. (e.0, e.1 - 1);
  mbuf_size = 2_176;
  cache_size = 512;
}

abbrev at_first : Sys
at_first = (record { soft = 1_024; hard = 4_096 }, 0)

abbrev million : PoolConfig
million = record { cnt_mbufs = 4_000_000; socket_id = 0 }

-- 4'150 huge pages
large_pool : make_pool pool_ops million at_first ≡ made 7 (record { soft = 5_174; hard = 5_174 }, 1)
unfolding make_pool set_max_count_fds new_limits cnt_fds
large_pool = refl

pool_ops-IsDocumented : IsDocumented pool_ops (λ e. e.0) (λ e. e.1)
pool_ops-IsDocumented = record {
  got = got;
  get_limits = λ e. refl;
  get_pools = λ e. refl;
  set = set;
  not_set = not_set;
  set_pools = set_pools;
  create_limits = λ cnt cache priv size socket e. refl;
  create = λ cnt cache priv size socket e p is. refl;
  no_create = λ cnt cache priv size socket e is. cc;
  free = λ p e. refl;
}
  where
    got : (e : Sys) (l : Limits) → (pool_ops.getrlimit e).0 ≡ some l → l ≡ e.0
    got e l is = cc

    set :
        (l : Limits) (e : Sys)
        → (pool_ops.setrlimit l e).0 ≡ true
        → (pool_ops.setrlimit l e).1.0 ≡ l
    set l e done = elim (Bool-cases (leb l.hard 100_000)) [
      | inl low ↦ rw low refl
      | inr high ↦ let failed : (pool_ops.setrlimit l e).0 ≡ false = rw high refl in cc
    ]

    not_set :
        (l : Limits) (e : Sys)
        → (pool_ops.setrlimit l e).0 ≡ false
        → (pool_ops.setrlimit l e).1.0 ≡ e.0
    not_set l e failed = elim (Bool-cases (leb l.hard 100_000)) [
      | inl low ↦ let done : (pool_ops.setrlimit l e).0 ≡ true = rw low refl in cc
      | inr high ↦ rw high refl
    ]

    set_pools : (l : Limits) (e : Sys) → (pool_ops.setrlimit l e).1.1 ≡ e.1
    set_pools l e = elim (Bool-cases (leb l.hard 100_000)) [
      | inl low ↦ rw low refl
      | inr high ↦ rw high refl
    ]

make_pool-Ends_example :
    Ends pool_ops (λ e. e.0) (λ e. e.1) million at_first (make_pool pool_ops million at_first)
make_pool-Ends_example =
    make_pool-Ends pool_ops (λ e. e.0) (λ e. e.1) pool_ops-IsDocumented million at_first
      (omega arith) (omega arith)
