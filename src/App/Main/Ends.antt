-- ===== src/App/Main/Ends.antt =====
-- main.cpp: how the program ends, and under what handler the application runs.
use Prim.Native.String.{String}
use traffic_generator.Base.{
  ℕ, ◌≡◌, refl, ap, ◌∙◌, Bool, true, false, Bool-cases, Option, none, some, Option-cases, List, ◌∷◌,
  ◌⊎◌, inl, inr, ◌==◌, arith,
}
use traffic_generator.Put.Stacktrace.Dump.{Signals, fatal_signals}
use traffic_generator.Put.Stacktrace.Dump.Handler.{Installed, dump_on_fatal_signal_lem, AllOk, back}
use traffic_generator.App.Main.{
  Vars, Said, usage, build_info, failure, Process, say, stderr_fileno, run_config, run_vars,
  exit_with, run_parsed, main,
}

module _ {E : Type 0} (parse : List String → String ⊎ Vars) (c : Signals) (sigaction : ℕ → Bool)
    (missed : Option ℕ) (application : String → E → Option String × E) where
  -- The handler is set for every fatal signal, and its output is the standard error, unless
  -- `backtrace` finds no frame and leaves `errno` 0.
  pub record HasHandler (i i' : Installed) : Type 0 where
    pub handled : i'.handled ≡ back sigaction (fatal_signals c) i.handled
    pub output :
        (i'.output_fd ≡ some stderr_fileno) ⊎ ((missed ≡ some 0) × (i'.output_fd ≡ i.output_fd))

  -- The application ran: as it was asked to by the path of a configuration, and neither for help nor
  -- for the version, with the handler set for every fatal signal; the program succeeds if it returned, and otherwise fails with what it threw as the only error.
  pub record Ran (args : List String) (p p' : Process E) (code : ℕ) : Type 0 where
    pub path : String
    pub asked :
        (vm : Vars) × (parse args ≡ inr vm)
        × (vm.help ≡ false)
        × (vm.version ≡ false)
        × (vm.config ≡ some path)
    pub handled : AllOk sigaction (fatal_signals c)
    pub installed : HasHandler p.installed p'.installed
    pub env : p'.env ≡ (application path p.env).1
    pub ended :
        ((code ≡ 0) × ((application path p.env).0 ≡ none) × (p'.said ≡ p.said))
        ⊎ ((what : String) × (code ≡ 1)
            × ((application path p.env).0 ≡ some what)
            × (p'.said ≡ failure what ∷ p.said))

  -- The application did not run, and no output is set for the handler. One thing is said: the usage
  -- or the version, and then the program succeeds, or an error, and then it fails.
  pub record Answered (p p' : Process E) (code : ℕ) : Type 0 where
    pub env : p'.env ≡ p.env
    pub fd : p'.installed.output_fd ≡ p.installed.output_fd
    pub said :
        (s : Said) × (p'.said ≡ s ∷ p.said)
        × (((code ≡ 0) × ((s ≡ usage) ⊎ (s ≡ build_info)))
            ⊎ ((what : String) × (code ≡ 1) × (s ≡ failure what)))

  answered :
      (what : String) (p p' : Process E)
      → p'.env ≡ p.env
      → p'.installed.output_fd ≡ p.installed.output_fd
      → p'.said ≡ p.said
      → Answered p (say (failure what) p') 1
  answered what p p' e f s = record {
    env = e;
    fd = f;
    said = (failure what, ap (λ ss. failure what ∷ ss) s, inr (what, refl, refl));
  }

  abbrev pub Outcome : List String → Process E → ℕ × Process E → Type 0
  Outcome args p r = Answered p r.1 r.0 ⊎ Ran args p r.1 r.0

  abbrev exits : Option String × Process E → ℕ × Process E
  exits = exit_with parse c sigaction missed application

  abbrev after_install : String → Bool × Installed → Process E → Option String × Process E
  after_install = run_config parse c sigaction missed application

  abbrev Asks : List String → String → Type 0
  Asks args path =
      (vm : Vars) × (parse args ≡ inr vm)
      × (vm.help ≡ false)
      × (vm.version ≡ false)
      × (vm.config ≡ some path)

  ran :
      (args : List String) (p : Process E) (path : String) (i : Installed)
      → Asks args path
      → AllOk sigaction (fatal_signals c)
      → HasHandler p.installed i
      → Ran args p
          (exits (after_install path (true, i) p)).1
          (exits (after_install path (true, i) p)).0
  ran args p path i asks ok is = elim (Option-cases (application path p.env).0) [
    | inl e ↦ rw e (record {
      path = path;
      asked = asks;
      handled = ok;
      installed = is;
      env = refl;
      ended = inl (refl, e, refl);
    })
    | inr (what, e) ↦ rw e (record {
      path = path;
      asked = asks;
      handled = ok;
      installed = is;
      env = refl;
      ended = inr (what, refl, e, refl);
    })
  ]

  -- The installation of the handler succeeds, and the application runs, or nothing does.
  run_config-Outcome :
      (args : List String) (p : Process E) (path : String) (r : Bool × Installed)
      → Asks args path
      → ((r.0 ≡ true) × AllOk sigaction (fatal_signals c) × HasHandler p.installed r.1)
        ⊎ ((r.0 ≡ false) × (r.1.output_fd ≡ p.installed.output_fd))
      → Outcome args p (exits (after_install path r p))
  run_config-Outcome args p path (true, i) asks (inl (_, ok, is)) =
      inr (ran args p path i asks ok is)
  run_config-Outcome args p path (true, i) asks (inr (no_way, _)) = cc
  run_config-Outcome args p path (false, i) asks (inl (no_way, _, _)) = cc
  run_config-Outcome args p path (false, i) asks (inr (_, fd)) =
      inl (answered _ p (record p { installed = i }) refl fd refl)

  vars-Outcome :
      (args : List String) (p : Process E) (vm : Vars)
      → parse args ≡ inr vm
      → Outcome args p (exits (run_vars parse c sigaction missed application vm p))
  unfolding run_vars
  vars-Outcome args p vm e = elim (Bool-cases vm.help) [
    | inl h ↦
        rw h (inl (record { env = refl; fd = refl; said = (usage, refl, inl (refl, inl refl)) }))
    | inr h ↦ elim (Bool-cases vm.version) [
      | inl v ↦
          rw (h, v)
            (inl
              (record { env = refl; fd = refl; said = (build_info, refl, inl (refl, inr refl)) }))
      | inr v ↦ elim (Option-cases vm.config) [
        | inl none_given ↦ rw (h, v, none_given) (inl (answered _ p p refl refl refl))
        | inr (path, given) ↦
            rw (h, v, given)
              (run_config-Outcome args p path _ (vm, e, h, v, given)
                (elim (dump_on_fatal_signal_lem sigaction c missed stderr_fileno p.installed) [
                  | inl (done, ok, _, is) ↦ inl (
                    done,
                    ok,
                    record {
                      handled = ap (λ (i : Installed). i.handled) is;
                      output = inl (ap (λ (i : Installed). i.output_fd) is);
                    },
                  )
                  | inr (inl (errno, returned, ok, lost, is)) ↦
                      let fd = ap (λ (i : Installed). i.output_fd) is in
                      elim (Bool-cases (errno == 0)) [
                        | inl zero ↦ inl (
                          returned ∙ zero,
                          ok,
                          record {
                            handled = ap (λ (i : Installed). i.handled) is;
                            output = inr (lost ∙ ap some (ground (arith, zero)), fd);
                          },
                        )
                        | inr other ↦ inr (returned ∙ other, fd)
                      ]
                  | inr (inr (n, failed, _, _, is)) ↦
                      inr (failed, ap (λ (i : Installed). i.output_fd) is)
                ]))
      ]
    ]
  ]

  -- The program answers or runs the application, never both, whatever the arguments: it never starts
  -- the application but with the handler set for every fatal signal, whose output is the standard
  -- error unless `backtrace` finds no frame and `errno` is 0, and it fails exactly if it
  -- logged an error, once.
  pub main-Outcome :
      (args : List String) (p : Process E)
      → Outcome args p (main parse c sigaction missed application args p)
  unfolding main
  main-Outcome args p = parsed (parse args) refl
    where
      parsed :
          (vm? : String ⊎ Vars)
          → parse args ≡ vm?
          → Outcome args p (exits (run_parsed parse c sigaction missed application vm? p))
      parsed (inl what) e = inl (answered what p p refl refl refl)
      parsed (inr vm) e = vars-Outcome args p vm e
