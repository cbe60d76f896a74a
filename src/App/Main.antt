-- ===== src/App/Main.antt =====
-- main.cpp: the command line. The parse of the arguments is Boost's, and it and the application, by
-- the path of its configuration, are parameters.
pub mod Ends
mod Tests
use Prim.Native.String.{String}
use traffic_generator.Base.{
  ℕ, Bool, true, false, Option, none, some, List, [], ◌∷◌, ◌⊎◌, inl, inr, if◌then◌else◌,
}
use traffic_generator.Put.Stacktrace.Dump.{Signals}
use traffic_generator.Put.Stacktrace.Dump.Handler.{Installed, dump_on_fatal_signal}

-- The options that are given.
pub record Vars : Type 0 where
  pub help : Bool
  pub version : Bool
  pub config : Option String

-- What is printed, or logged as an error.
pub data Said : Type 0 where
  usage build_info : Said
  failure : String → Said

-- The process: the handler of fatal signals, what was said, the latest first, and all else.
pub record Process (E : Type 0) : Type 0 where
  pub installed : Installed
  pub said : List Said
  pub env : E

abbrev pub say : {E : Type 0} → Said → Process E → Process E
say s p = record p { said = s ∷ p.said }

abbrev pub stderr_fileno : ℕ
stderr_fileno = 2

module _ {E : Type 0} (parse : List String → String ⊎ Vars) (c : Signals) (sigaction : ℕ → Bool)
    (missed : Option ℕ) (application : String → E → Option String × E) where
  -- The application, constructed and run; with what an exception says, if there is one.
  abbrev pub run_app : String → Process E → Option String × Process E
  run_app path p = let (what?, env) = application path p.env in (what?, record p { env = env })

  -- The crash information goes to the standard error.
  abbrev pub run_config : String → Bool × Installed → Process E → Option String × Process E
  run_config path (true, i) p = run_app path (record p { installed = i })
  run_config path (false, i) p =
      (some "Unable to setup the stacktrace dumper", record p { installed = i })

  -- The body of the `try`, by the options.
  unfoldable pub run_vars : Vars → Process E → Option String × Process E
  run_vars vm p =
      if vm.help
      then (none, say usage p)
      else if vm.version
      then (none, say build_info p)
      else elim vm.config [
        | none ↦ (some "No options provided.", p)
        | some path ↦
            run_config path (dump_on_fatal_signal sigaction c missed stderr_fileno p.installed) p
      ]

  -- EXIT_SUCCESS and EXIT_FAILURE.
  abbrev pub exit_with : Option String × Process E → ℕ × Process E
  exit_with (none, p) = (0, p)
  exit_with (some what, p) = (1, say (failure what) p)

  abbrev pub run_parsed : String ⊎ Vars → Process E → Option String × Process E
  run_parsed (inl what) p = (some what, p)
  run_parsed (inr vm) p = run_vars vm p

  -- `main`
  unfoldable pub main : List String → Process E → ℕ × Process E
  main args p = exit_with (run_parsed (parse args) p)
