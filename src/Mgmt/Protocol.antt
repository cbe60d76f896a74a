-- ===== src/Mgmt/Protocol.antt =====
-- The three exchanges between the managers, and how many requests and responses of each are under
-- way in a queue.
use traffic_generator.Base.{ℕ, ◌+◌, ◌≡◌, List, [], ◌∷◌, ◌++◌, arith}
use traffic_generator.Mgmt.Messages.{
  OutMsg, IncMsg, req_start_generation, req_stop_generation, req_stats_report, res_start_generation,
  res_stop_generation, res_stats_report,
}

pub data Exchange : Type 0 where
  start stop stats : Exchange

abbrev pub asks : Exchange → OutMsg → ℕ
asks start (req_start_generation c) = 1
asks stop req_stop_generation = 1
asks stats req_stats_report = 1
asks _ _ = 0

abbrev pub answers : Exchange → IncMsg → ℕ
answers start (res_start_generation r) = 1
answers stop (res_stop_generation r) = 1
answers stats (res_stats_report r) = 1
answers _ _ = 0

abbrev pub asked : Exchange → List OutMsg → ℕ
asked x [] = 0
asked x (m ∷ ms) = asks x m + asked x ms

abbrev pub answered : Exchange → List IncMsg → ℕ
answered x [] = 0
answered x (m ∷ ms) = answers x m + answered x ms

pub asked-append :
    (x : Exchange) (ms ns : List OutMsg) → asked x (ms ++ ns) ≡ asked x ms + asked x ns
asked-append x [] ns = omega arith
asked-append x (m ∷ ms) ns = omega (arith, asked-append x ms ns)

pub answered-append :
    (x : Exchange) (ms ns : List IncMsg) → answered x (ms ++ ns) ≡ answered x ms + answered x ns
answered-append x [] ns = omega arith
answered-append x (m ∷ ms) ns = omega (arith, answered-append x ms ns)
