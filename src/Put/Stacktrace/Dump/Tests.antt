-- ===== src/Put/Stacktrace/Dump/Tests.antt =====
-- put/stacktrace.cpp: a dump on Linux's numbers of signals, with an output that fails at the end.
use traffic_generator.Base.{
  ℕ, ◌+◌, ◌<◌, ◌≡◌, refl, Bool, true, false, none, some, List, [], ◌∷◌, ◌++◌, length, ltb, ◌⊎◌,
  arith,
}
use traffic_generator.Put.Stacktrace.Dump.{
  Piece, lit, Out, Signals, SigInfo, signal_info, fatal_signals, Reg, dump_registers,
}
use traffic_generator.Put.Stacktrace.Dump.Read.{onto, dump_pieces, FirstFailed, dump_registers_lem}
use traffic_generator.Put.Stacktrace.Dump.Handler.{
  Installed, handle_signals, killed, all_pause, back, dump_on_fatal_signal, install_all,
  handle_signals_lem,
}

abbrev pub linux : Signals
linux = record {
  sigabrt = 6;
  sigbus = 7;
  sigfpe = 8;
  sigill = 4;
  sigsegv = 11;
  sigsys = 31;
  sigtrap = 5;
  bus_adraln = 1;
  bus_adrerr = 2;
  bus_objerr = 3;
  bus_mceerr_ar = 4;
  bus_mceerr_ao = 5;
  fpe_intdiv = 1;
  fpe_intovf = 2;
  fpe_fltdiv = 3;
  fpe_fltovf = 4;
  fpe_fltund = 5;
  fpe_fltres = 6;
  fpe_fltinv = 7;
  fpe_fltsub = 8;
  ill_illopc = 1;
  ill_illopn = 2;
  ill_illadr = 3;
  ill_illtrp = 4;
  ill_prvopc = 5;
  ill_prvreg = 6;
  ill_coproc = 7;
  ill_badstk = 8;
  segv_maperr = 1;
  segv_accerr = 2;
  segv_bnderr = 3;
  segv_pkuerr = 4;
  trap_brkpt = 1;
  trap_trace = 2;
  si_user = 0;
  si_kernel = 128;
  sys_seccomp = some 1;
  trap_branch = some 3;
  trap_hwpkpt = none;
}

abbrev a_fault : SigInfo
a_fault = record { signo = 11; code = 1; pid = 4242; uid = 1000; addr = 48879 }

-- The first 40 writes are taken whole.
abbrev takes_40 : ℕ → Bool
takes_40 n = ltb n 40

abbrev zeros : Reg → ℕ
zeros name = 0

handle_signals_example :
    (out' : Out) × (pieces : List Piece) × (later : List Piece) × (handle_signals linux takes_40 []
        zeros
        (a_fault ∷ a_fault ∷ [])
        (record { called = false; out = [] })
      ≡ some (killed 11 ∷ all_pause (a_fault ∷ []), record { called = true; out = out' }))
    × (signal_info linux a_fault ≡ some pieces)
    × (out' ≡ later ++ onto pieces [])
handle_signals_example =
    handle_signals_lem linux takes_40 [] zeros a_fault (a_fault ∷ []) [] (omega arith)

dump_registers_example :
    (((dump_registers takes_40 zeros []).0 ≡ true)
      × ((dump_registers takes_40 zeros []).1
          ≡ lit "\n--- CPU REGISTERS END ---\n" ∷ onto (dump_pieces zeros) [])
      × ((i : ℕ) → i < length (dump_pieces zeros) → takes_40 (length {A = Piece} [] + i) ≡ true))
    ⊎ FirstFailed takes_40 (dump_pieces zeros) [] (dump_registers takes_40 zeros [])
dump_registers_example = dump_registers_lem takes_40 zeros []

abbrev all_signals : ℕ → Bool
all_signals sig = true

abbrev pub not_yet : Installed
not_yet = record { handled = []; output_fd = none }

-- Where no frame is found and `errno` is 0, the installation seems to succeed.
not_found :
    dump_on_fatal_signal all_signals linux (some 0) 2 not_yet
    ≡ (true, record { handled = back all_signals (fatal_signals linux) []; output_fd = none })
unfolding dump_on_fatal_signal install_all fatal_signals
not_found = refl
