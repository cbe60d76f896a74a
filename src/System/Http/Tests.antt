-- ===== src/System/Http/Tests.antt =====
-- The managers with the HTTP server: a connection is accepted and asks for a start.
use traffic_generator.Base.{ℕ, ◌≡◌, refl, none, some, ◌++◌, ◌⊎◌, inr}
use traffic_generator.Gen.Tests.{test_platform}
use traffic_generator.Mgmt.Server.{accepted, received, reading, react}
use traffic_generator.Mgmt.Server.Sessions.{handles, told}
use traffic_generator.System.Tests.{test-Works, test-Documented, read_a_cfg, a_cfg-read}
use traffic_generator.Gen.Manager.Settled.{IsFaulty}
use traffic_generator.System.Http.Settled.{Reach-served}
use traffic_generator.System.Http.{
  App, start_app, Event, serves, completion, app_turn, Reach, started, after,
}
use traffic_generator.System.Http.Served.{Tied, app_turn-Tied, Reach-Tied}

abbrev accepting : Event ℕ
accepting = serves (some (accepted none))

abbrev asking : Event ℕ
asking =
    serves (some (received 0 (inr (record { target = "/start_gen"; body = ""; version = 11 }))))

-- The state after the connection is accepted.
one_connection :
    (a : App ℕ) × Reach test_platform read_a_cfg 0 a
    × (a.server.phase 0 ≡ reading)
    × Tied test_platform.hosts a
unfolding react
one_connection =
    let (a, e, t, _, others) =
      app_turn-Tied test_platform test-Works read_a_cfg accepting (start_app 0)
        (Reach-Tied test_platform test-Works read_a_cfg started) tt tt in
    (a, after accepting started tt tt e, others 0 refl, t)

Reach-served_example :
    (IsFaulty test_platform × (app_turn test_platform read_a_cfg asking one_connection.0 ≡ none))
    ⊎ ((a' : App ℕ) × (app_turn test_platform read_a_cfg asking one_connection.0 ≡ some a')
        × Tied test_platform.hosts a'
        × (told a'.server.sends ≡ a'.system.mgmt.replies ++ told one_connection.0.server.sends)
        × ((c : ℕ)
            → handles ((react (completion asking) one_connection.0.server).phase c) ≡ 0
            → a'.server.phase c ≡ (react (completion asking) one_connection.0.server).phase c))
Reach-served_example =
    Reach-served test_platform read_a_cfg test-Documented one_connection.1 asking one_connection.2
      (a_cfg-read "")
