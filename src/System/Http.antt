-- ===== src/System/Http.antt =====
-- app/application.cpp with mgmt/priv/http_server.cpp: the two managers and the HTTP server that is
-- embedded in the management, as turns of the two threads in any order, with what the network and
-- DPDK do between them.
pub mod Served
pub mod Settled
mod Tests
use Prim.Native.String.{String}
use traffic_generator.Base.{◌≡◌, Option, none, some, List, [], ◌⊎◌, ◌>>=◌}
use traffic_generator.Gen.Manager.{Platform}
use traffic_generator.Mgmt.Config.{GenConfig}
use traffic_generator.Mgmt.Server.{Server, Completion, requested, react, resume_all}
use traffic_generator.Mgmt.Server.Sessions.{IsDue}
use traffic_generator.Mgmt.Server as HttpServer
use traffic_generator.System.Run.{TurnStartable}
use traffic_generator.System.{System, Turn, mgmt_turn, genr_turn, passes, turn, start_system}

pub record App (E : Type 0) : Type 0 where
  pub system : System E
  pub server : Server

abbrev pub start_app : {E : Type 0} → E → App E
start_app env = record { system = start_system env; server = HttpServer.init }

-- A turn of the management after the end of an operation of the server or after none, a turn of the
-- generation, and a change of what DPDK works with.
pub data Event (E : Type 0) : Type 0 where
  serves : Option Completion → Event E
  generates : Event E
  elapses : (E → E) → Event E

abbrev pub turn_of : {E : Type 0} → Event E → Turn E
turn_of (serves ev) = mgmt_turn (requested ev)
turn_of generates = genr_turn
turn_of (elapses f) = passes f

abbrev pub completion : {E : Type 0} → Event E → Option Completion
completion (serves ev) = ev
completion generates = none
completion (elapses f) = none

-- The state before a turn: the calls of callbacks are counted anew.
abbrev pub no_calls : {E : Type 0} → System E → System E
no_calls s = record s { mgmt = record s.mgmt { replies = [] } }

module _ {E : Type 0} (pf : Platform E) (parse : String → String ⊎ GenConfig) where
  -- A turn of a thread. The coroutines that a callback's call resumes touch nothing of the managers,
  -- so that they may run after the rest of the turn.
  pub app_turn : Event E → App E → Option (App E)
  app_turn ev a = do
    s ← turn pf parse (turn_of ev) (no_calls a.system)
    server' ← resume_all s.mgmt.replies (react (completion ev) a.server)
    some (record { system = s; server = server' })

  -- The states that runs come to: each turn is after the end of an operation that some coroutine
  -- waits for, or after none, and a request's configuration can be started.
  pub data Reach (env : E) : App E → Type 0 where
    started : Reach env (start_app env)
    after :
        {a a' : App E} (ev : Event E)
        → Reach env a
        → IsDue a.server (completion ev)
        → TurnStartable pf.hosts parse (turn_of ev)
        → app_turn ev a ≡ some a'
        → Reach env a'
