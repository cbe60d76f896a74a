-- ===== src/Put/Stacktrace/Dump.antt =====
-- put/stacktrace.cpp: what the handler of a fatal signal writes. The numbers of the signals and of
-- their codes, and whether a call of `write` takes a whole text, are the platform's. A text is as it
-- stands in the source, or the digits of a number; the output is the texts in the order in which
-- they were given to `write`, the newest first.
pub mod Read
pub mod Handler
pub mod Tests
use Prim.Native.String.{String}
use traffic_generator.Base.{
  ℕ, ◌+◌, Bool, true, false, Option, none, some, List, [], ◌∷◌, ◌++◌, length, ◌==◌, if◌then◌else◌,
  ◌>>=◌,
}
use traffic_generator.Put.Text.{Text}
use traffic_generator.Put.Stacktrace.{u32_to_dec, u64_to_hex}

pub data Piece : Type 0 where
  lit : String → Piece
  digits : Text → Piece

abbrev pub Out : Type 0
Out = List Piece

-- The constants of the system's headers; `none` is one that is not defined.
pub record Signals : Type 0 where
  pub sigabrt : ℕ
  pub sigbus : ℕ
  pub sigfpe : ℕ
  pub sigill : ℕ
  pub sigsegv : ℕ
  pub sigsys : ℕ
  pub sigtrap : ℕ
  pub bus_adraln : ℕ
  pub bus_adrerr : ℕ
  pub bus_objerr : ℕ
  pub bus_mceerr_ar : ℕ
  pub bus_mceerr_ao : ℕ
  pub fpe_intdiv : ℕ
  pub fpe_intovf : ℕ
  pub fpe_fltdiv : ℕ
  pub fpe_fltovf : ℕ
  pub fpe_fltund : ℕ
  pub fpe_fltres : ℕ
  pub fpe_fltinv : ℕ
  pub fpe_fltsub : ℕ
  pub ill_illopc : ℕ
  pub ill_illopn : ℕ
  pub ill_illadr : ℕ
  pub ill_illtrp : ℕ
  pub ill_prvopc : ℕ
  pub ill_prvreg : ℕ
  pub ill_coproc : ℕ
  pub ill_badstk : ℕ
  pub segv_maperr : ℕ
  pub segv_accerr : ℕ
  pub segv_bnderr : ℕ
  pub segv_pkuerr : ℕ
  pub trap_brkpt : ℕ
  pub trap_trace : ℕ
  pub si_user : ℕ
  pub si_kernel : ℕ
  pub sys_seccomp : Option ℕ
  pub trap_branch : Option ℕ
  -- `TRAP_HWBKPT` where `TRAP_HWPKPT` is defined, as the source asks
  pub trap_hwpkpt : Option ℕ

-- The members of `siginfo_t` that are read.
pub record SigInfo : Type 0 where
  pub signo : ℕ
  pub code : ℕ
  pub pid : ℕ
  pub uid : ℕ
  pub addr : ℕ

-- A `switch` whose cases write a text each.
pub switch : List (ℕ × String) → ℕ → List Piece
switch [] v = []
switch ((n, text) ∷ rest) v = let others = switch rest v in if n == v then lit text ∷ [] else others

-- A case under `#if defined`.
abbrev pub if_defined : Option ℕ → String → List (ℕ × String)
if_defined none text = []
if_defined (some n) text = (n, text) ∷ []

-- `dump_u32_info` and `dump_faulty_addr`
pub u32_info : String → ℕ → Option (List Piece)
u32_info lbl u32 = do buf ← u32_to_dec u32; some (lit lbl ∷ digits buf ∷ lit "\n" ∷ [])

pub faulty_addr : ℕ → List Piece
faulty_addr addr = lit "Fault memory address: " ∷ digits (u64_to_hex addr) ∷ lit "\n" ∷ []

module _ (c : Signals) where
  bus_codes : List (ℕ × String)
  bus_codes =
      (c.bus_adraln, "Additional info: Invalid address alignment\n")
      ∷ (c.bus_adrerr, "Additional info: Nonexistent physical address\n")
      ∷ (c.bus_objerr, "Additional info: Object specific hardware error\n")
      ∷ (
        c.bus_mceerr_ar,
        "Additional info: Hardware memory error consumed on a machine check; action required\n",
      )
      ∷ (
        c.bus_mceerr_ao,
        "Additional info: Hardware memory error detected in process but not consumed; action optional\n",
      )
      ∷ []

  fpe_codes : List (ℕ × String)
  fpe_codes =
      (c.fpe_intdiv, "Additional info: Integer divide by zero\n")
      ∷ (c.fpe_intovf, "Additional info: Integer overflow\n")
      ∷ (c.fpe_fltdiv, "Additional info: Floating-point divide by zero\n")
      ∷ (c.fpe_fltovf, "Additional info: Floating-point overflow\n")
      ∷ (c.fpe_fltund, "Additional info: Floating-point underflow\n")
      ∷ (c.fpe_fltres, "Additional info: Floating-point inexact result\n")
      ∷ (c.fpe_fltinv, "Additional info: Floating-point invalid operation\n")
      ∷ (c.fpe_fltsub, "Additional info: Subscript out of range\n")
      ∷ []

  ill_codes : List (ℕ × String)
  ill_codes =
      (c.ill_illopc, "Additional info: Illegal opcode\n")
      ∷ (c.ill_illopn, "Additional info: Illegal operand\n")
      ∷ (c.ill_illadr, "Additional info: Illegal addressing mode\n")
      ∷ (c.ill_illtrp, "Additional info: Illegal trap\n")
      ∷ (c.ill_prvopc, "Additional info: Privileged opcode\n")
      ∷ (c.ill_prvreg, "Additional info: Privileged register\n")
      ∷ (c.ill_coproc, "Additional info: Coprocessor error\n")
      ∷ (c.ill_badstk, "Additional info: Internal stack error\n")
      ∷ []

  segv_codes : List (ℕ × String)
  segv_codes =
      (c.segv_maperr, "Additional info: Address not mapped to object\n")
      ∷ (c.segv_accerr, "Additional info: Invalid permissions for mapped object\n")
      ∷ (c.segv_bnderr, "Additional info: Failed address bound checks\n")
      ∷ (c.segv_pkuerr, "Additional info: Access was denied by memory protection keys\n")
      ∷ []

  sys_codes : List (ℕ × String)
  sys_codes = if_defined c.sys_seccomp "Additional info: Triggered by a seccomp(2) filter rule\n"

  trap_codes : List (ℕ × String)
  trap_codes =
      (c.trap_brkpt, "Additional info: Process breakpoint\n")
      ∷ (c.trap_trace, "Additional info: Process trace trap\n")
      ∷ (if_defined c.trap_branch "Additional info: Process taken branch trap\n"
          ++ if_defined c.trap_hwpkpt "Additional info: Hardware breakpoint/watchpoint\n")

  signal_names : List (ℕ × String)
  signal_names =
      (c.sigabrt, "Signal: SIGABRT\n")
      ∷ (c.sigbus, "Signal: SIGBUS\n")
      ∷ (c.sigfpe, "Signal: SIGFPE\n")
      ∷ (c.sigill, "Signal: SIGILL\n")
      ∷ (c.sigsegv, "Signal: SIGSEGV\n")
      ∷ (c.sigsys, "Signal: SIGSYS\n")
      ∷ (c.sigtrap, "Signal: SIGTRAP\n")
      ∷ []

  -- `X3ME_FATAL_SIGNALS`
  pub fatal_signals : List ℕ
  fatal_signals = c.sigabrt ∷ c.sigbus ∷ c.sigfpe ∷ c.sigill ∷ c.sigsegv ∷ c.sigsys ∷ c.sigtrap ∷ []

  -- The first `switch`, with its default.
  name_pieces : List Piece → ℕ → Option (List Piece)
  name_pieces [] signo = u32_info "Signal: " signo
  name_pieces (p ∷ ps) signo = some (p ∷ ps)

  -- The second `switch`.
  pub info_pieces : SigInfo → List Piece
  unfolding faulty_addr
  info_pieces inf =
      if inf.signo == c.sigabrt
      then lit "Info: Abort signal from abort(3)\n" ∷ []
      else if inf.signo == c.sigbus
      then lit "Info: Bus error (bad memory access)\n"
        ∷ (faulty_addr inf.addr ++ switch bus_codes inf.code)
      else if inf.signo == c.sigfpe
      then lit "Info: Floating-point exception\n"
        ∷ (faulty_addr inf.addr ++ switch fpe_codes inf.code)
      else if inf.signo == c.sigill
      then lit "Info: Illegal Instruction\n" ∷ (faulty_addr inf.addr ++ switch ill_codes inf.code)
      else if inf.signo == c.sigsegv
      then lit "Info: Invalid memory reference\n"
        ∷ (faulty_addr inf.addr ++ switch segv_codes inf.code)
      else if inf.signo == c.sigsys
      then lit "Info: Bad system call\n" ∷ switch sys_codes inf.code
      else if inf.signo == c.sigtrap
      then lit "Info: Trace/breakpoint trap\n"
        ∷ (faulty_addr inf.addr ++ switch trap_codes inf.code)
      else []

  sent_pieces : ℕ → List Piece
  sent_pieces code =
      if code == c.si_user
      then lit "Additional info: Sent by user\n" ∷ []
      else if code == c.si_kernel
      then lit "Additional info: Sent by the kernel\n" ∷ []
      else []

  -- `dump_signal_info`, whose writes are not looked at; `none` is a number that its buffer has no
  -- room for.
  pub signal_info : SigInfo → Option (List Piece)
  unfolding name_pieces u32_info info_pieces sent_pieces
  signal_info inf = do
    name ← name_pieces (switch signal_names inf.signo) inf.signo
    pid ← u32_info "Sending PID: " inf.pid
    uid ← u32_info "Sending UID: " inf.uid
    some (
        lit "--- SIGNAL INFO BEG ---\n"
        ∷ (name
            ++ (pid
                ++ (uid
                    ++ (info_pieces inf
                        ++ (sent_pieces inf.code ++ (lit "--- SIGNAL INFO END ---\n" ∷ [])))))))

-- The places of the registers in `gregs`, the platform's `REG_RAX` and so on.
pub data Reg : Type 0 where
  reg_rax : Reg
  reg_rdi : Reg
  reg_rsi : Reg
  reg_rdx : Reg
  reg_rcx : Reg
  reg_r8 : Reg
  reg_r9 : Reg
  reg_r10 : Reg
  reg_r11 : Reg
  reg_r12 : Reg
  reg_r13 : Reg
  reg_r14 : Reg
  reg_r15 : Reg
  reg_rbp : Reg
  reg_rbx : Reg
  reg_rsp : Reg
  reg_rip : Reg
  reg_efl : Reg
  reg_csgsfs : Reg
  reg_err : Reg
  reg_trapno : Reg
  reg_oldmask : Reg
  reg_cr2 : Reg

-- The registers with their places in `gregs`, and whether a line ends after each.
abbrev pub registers : List (String × Reg × Bool)
registers =
    ("RAX:", reg_rax, false)
    ∷ ("RDI:", reg_rdi, false)
    ∷ ("RSI:", reg_rsi, false)
    ∷ ("RDX:", reg_rdx, true)
    ∷ ("RCX:", reg_rcx, false)
    ∷ ("R8:", reg_r8, false)
    ∷ ("R9:", reg_r9, false)
    ∷ ("R10:", reg_r10, true)
    ∷ ("R11:", reg_r11, false)
    ∷ ("R12:", reg_r12, false)
    ∷ ("R13:", reg_r13, false)
    ∷ ("R14:", reg_r14, true)
    ∷ ("R15:", reg_r15, false)
    ∷ ("RBP:", reg_rbp, false)
    ∷ ("RBX:", reg_rbx, false)
    ∷ ("RSP:", reg_rsp, true)
    ∷ ("RIP:", reg_rip, false)
    ∷ ("EFL:", reg_efl, false)
    ∷ ("CSGSFS:", reg_csgsfs, false)
    ∷ ("ERR:", reg_err, true)
    ∷ ("TRAPNO:", reg_trapno, false)
    ∷ ("OLDMASK:", reg_oldmask, false)
    ∷ ("CR2:", reg_cr2, false)
    ∷ []

-- What comes after a write, unless that has failed.
abbrev pub if_written : Bool × Out → (Out → Bool × Out) → Bool × Out
if_written (true, out) next = next out
if_written (false, out) next = (false, out)

-- Whether the call of `write` takes a whole text, by the calls before it.
module _ (takes : ℕ → Bool) where
  -- `write_str`
  pub write_str : Piece → Out → Bool × Out
  write_str p out = (takes (length out), p ∷ out)

  -- Writes whose results are not looked at.
  pub write_all : List Piece → Out → Out
  unfolding write_str
  write_all [] out = out
  write_all (p ∷ ps) out = write_all ps (write_str p out).1

  -- `write_reg_info`
  reg_info : String → ℕ → Bool → Out → Bool × Out
  unfolding write_str
  reg_info name reg new_line out = if_written (write_str (lit name) out) λ out1.
      if_written (write_str (digits (u64_to_hex reg)) out1)
        λ out2. if new_line then write_str (lit "\n") out2 else write_str (lit " ") out2

  write_regs : List (String × Reg × Bool) → (Reg → ℕ) → Out → Bool × Out
  unfolding reg_info
  write_regs [] gregs out = (true, out)
  write_regs ((name, reg, new_line) ∷ rs) gregs out =
      if_written (reg_info name (gregs reg) new_line out) (write_regs rs gregs)

  -- `dump_registers`, with the values of the registers by their places.
  pub dump_registers : (Reg → ℕ) → Out → Bool × Out
  unfolding write_str write_regs
  dump_registers gregs out = if_written (write_str (lit "--- CPU REGISTERS BEG ---\n") out) λ out1.
      if_written (write_regs registers gregs out1)
        λ out2. (true, (write_str (lit "\n--- CPU REGISTERS END ---\n") out2).1)

  dump_frames : List Piece → Out → Bool × Out
  unfolding write_str write_all
  dump_frames [] out1 = (false, out1)
  dump_frames (f ∷ fs) out1 =
      (true, (write_str (lit "--- STACK TRACE END ---\n") (write_all (f ∷ fs) out1)).1)

  -- `dump_stacktrace`, with the frames that `backtrace` finds and `backtrace_symbols_fd` writes, and
  -- whether it returns 0.
  pub dump_stacktrace : List Piece → Out → Bool × Out
  unfolding write_str dump_frames
  dump_stacktrace frames out =
      if_written (write_str (lit "--- STACK TRACE BEG ---\n") out) (dump_frames frames)
