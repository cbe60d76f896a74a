-- ===== src/App/Main/Tests.antt =====
-- Tests of the command line, with an application that throws.
use Prim.Native.String.{String}
use traffic_generator.Base.{ℕ, ◌+◌, Bool, true, false, Option, none, some, List, [], ◌∷◌, ◌⊎◌, inr}
use traffic_generator.Put.Stacktrace.Dump.Tests.{linux, not_yet}
use traffic_generator.App.Main.{Vars, Process, main}
use traffic_generator.App.Main.Ends.{Outcome, main-Outcome}

abbrev parse_one : List String → String ⊎ Vars
parse_one [] = inr (record { help = false; version = false; config = none })
parse_one (path ∷ rest) = inr (record { help = false; version = false; config = some path })

abbrev all_set : ℕ → Bool
all_set sig = true

abbrev no_memory : String → ℕ → Option String × ℕ
no_memory path n = (some "no memory", n + 1)

abbrev a_process : Process ℕ
a_process = record { installed = not_yet; said = []; env = 0 }

main-Outcome_example :
    Outcome parse_one linux all_set none no_memory
      ("a.cfg" ∷ [])
      a_process
      (main parse_one linux all_set none no_memory ("a.cfg" ∷ []) a_process)
main-Outcome_example = main-Outcome parse_one linux all_set none no_memory ("a.cfg" ∷ []) a_process
