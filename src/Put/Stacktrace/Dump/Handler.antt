-- ===== src/Put/Stacktrace/Dump/Handler.antt =====
-- put/stacktrace.cpp: the handler of a fatal signal and its installation.
use traffic_generator.Base.{
  ℕ, suc, ◌^◌, ◌<◌, ◌≡◌, refl, sym, ap, ◌∙◌, Bool, true, false, Bool-cases, Option, some, List, [],
  ◌∷◌, ◌++◌, length, take, All, none, ◌==◌, if◌then◌else◌, ◌>>=◌, ◌⊎◌, inl, inr, arith,
}
use traffic_generator.Put.Stacktrace.Dump.Read.{
  onto, dump_pieces, dump_registers_lem, signal_info_lem,
}
use mathlib.Core.List.{append_assoc}
use traffic_generator.Put.Stacktrace.Dump.{
  Piece, lit, write_str, dump_frames, Out, Signals, SigInfo, signal_info, fatal_signals, write_all,
  Reg, dump_registers, dump_stacktrace,
}

-- How a thread's handler ends: it waits, or the process is killed by the signal.
pub data Ended : Type 0 where
  pauses : Ended
  killed : ℕ → Ended

-- The flag `called`, and the output.
pub record Dumper : Type 0 where
  pub called : Bool
  pub out : Out

module _ (c : Signals) (takes : ℕ → Bool) (frames : List Piece) (gregs : Reg → ℕ) where
  -- `fatal_signal_handler`, whose `raise` is that of a signal with its default action.
  pub fatal_signal_handler : SigInfo → Dumper → Option (Ended × Dumper)
  fatal_signal_handler inf d = if d.called then some (pauses, d) else do
    pieces ← signal_info c inf
    let info = write_all takes pieces d.out
    let trace = (dump_stacktrace takes frames info).1
    some (killed inf.signo, record { called = true; out = (dump_registers takes gregs trace).1 })

  -- Threads that get fatal signals, in the order in which they set the flag.
  pub handle_signals : List SigInfo → Dumper → Option (List Ended × Dumper)
  unfolding fatal_signal_handler
  handle_signals [] d = some ([], d)
  handle_signals (inf ∷ infs) d = do
    (e, d') ← fatal_signal_handler inf d
    (es, d'') ← handle_signals infs d'
    some (e ∷ es, d'')

-- What `dump_stacktrace_on_fatal_signal` changes: the signals that have the handler, and the
-- descriptor in the context, `none` being invalid.
pub record Installed : Type 0 where
  pub handled : List ℕ
  pub output_fd : Option ℕ

module _ (sigaction : ℕ → Bool) where
  unfoldable pub install_all : List ℕ → Installed → Bool × Installed
  install_all [] i = (true, i)
  install_all (sig ∷ sigs) i =
      let rest = install_all sigs (record i { handled = sig ∷ i.handled }) in
      if sigaction sig then rest else (false, i)

  -- Whether it returns 0. `backtrace` finds a frame, or it does not and `errno` is what it was: it is
  -- not said to set it.
  unfoldable pub dump_on_fatal_signal : Signals → Option ℕ → ℕ → Installed → Bool × Installed
  unfolding install_all
  dump_on_fatal_signal c missed fd i =
      let (done, i') = install_all (fatal_signals c) i in
      if done
      then elim missed [
        | none ↦ (true, record i' { output_fd = some fd })
        | some errno ↦ (errno == 0, i')
      ]
      else (false, i')

abbrev pub IsWord : SigInfo → Type 0
IsWord inf = (inf.signo < 2 ^ 32) × (inf.pid < 2 ^ 32) × (inf.uid < 2 ^ 32)

abbrev pub all_pause : {A : Type 0} → List A → List Ended
all_pause [] = []
all_pause (x ∷ xs) = pauses ∷ all_pause xs

module _ (c : Signals) (takes : ℕ → Bool) (frames : List Piece) (gregs : Reg → ℕ) where
  pausing_lem :
      (infs : List SigInfo) (out : Out)
      → handle_signals c takes frames gregs infs (record { called = true; out = out })
        ≡ some (all_pause infs, record { called = true; out = out })
  unfolding handle_signals fatal_signal_handler
  pausing_lem [] out = refl
  pausing_lem (inf ∷ infs) out = let later = pausing_lem infs out in rw later refl

  -- A dump that begins with some output ends with it and more.
  abbrev Adds : Out → Out → Type 0
  Adds out out' = (later : List Piece) × (out' ≡ later ++ out)

  onto-Adds : (ps : List Piece) (out : Out) → Adds out (onto ps out)
  onto-Adds [] out = ([], refl)
  onto-Adds (p ∷ ps) out =
      let (later, e) = onto-Adds ps (p ∷ out) in
      (later ++ (p ∷ []), e ∙ sym (append_assoc later (p ∷ []) out))

  write_all-onto : (ps : List Piece) (out : Out) → write_all takes ps out ≡ onto ps out
  unfolding write_all write_str
  write_all-onto [] out = refl
  write_all-onto (p ∷ ps) out = write_all-onto ps (p ∷ out)

  dump_stacktrace-Adds : (out : Out) → Adds out (dump_stacktrace takes frames out).1
  unfolding dump_stacktrace
  dump_stacktrace-Adds out = elim (Bool-cases (takes (length out))) [
    | inr e ↦ (lit "--- STACK TRACE BEG ---\n" ∷ [], rw e refl)
    | inl e ↦ rw e (dump_frames-Adds frames)
  ]
    where
      dump_frames-Adds :
          (fs : List Piece)
          → Adds out (dump_frames takes fs (lit "--- STACK TRACE BEG ---\n" ∷ out)).1
      dump_frames-Adds [] = (lit "--- STACK TRACE BEG ---\n" ∷ [], refl)
      dump_frames-Adds (f ∷ fs) =
          let (later, e) = onto-Adds (lit "--- STACK TRACE BEG ---\n" ∷ f ∷ fs) out in
          (
            lit "--- STACK TRACE END ---\n" ∷ later,
            ap (λ o. lit "--- STACK TRACE END ---\n" ∷ o)
                (write_all-onto fs (f ∷ lit "--- STACK TRACE BEG ---\n" ∷ out) ∙ e),
          )

  dump_registers-Adds : (out : Out) → Adds out (dump_registers takes gregs out).1
  dump_registers-Adds out = elim (dump_registers_lem takes gregs out) [
    | inl (_, outs, _) ↦
        let (later, e) = onto-Adds (dump_pieces gregs) out in
        (
          lit "\n--- CPU REGISTERS END ---\n" ∷ later,
          outs ∙ ap (λ o. lit "\n--- CPU REGISTERS END ---\n" ∷ o) e,
        )
    | inr (n, _, _, outs, _, _) ↦
        let (later, e) = onto-Adds (take (suc n) (dump_pieces gregs)) out in (later, outs ∙ e)
  ]

  -- However many threads get a fatal signal, the first to set the flag dumps, whichever of the
  -- writes fail, and has the process killed by its own signal, and every other one only waits. The
  -- dump begins with the whole information on the signal, of which the numbers are of 32 bits.
  pub handle_signals_lem :
      (inf : SigInfo) (infs : List SigInfo) (out : Out)
      → IsWord inf
      → (out' : Out) × (pieces : List Piece) × (later : List Piece) × (handle_signals c takes frames
            gregs
            (inf ∷ infs)
            (record { called = false; out = out })
          ≡ some (killed inf.signo ∷ all_pause infs, record { called = true; out = out' }))
        × (signal_info c inf ≡ some pieces)
        × (out' ≡ later ++ onto pieces out)
  unfolding handle_signals fatal_signal_handler
  handle_signals_lem inf infs out (h, k, m) =
      let (pieces, whole) = signal_info_lem c inf h k m in
      let info = write_all takes pieces out in
      let trace = (dump_stacktrace takes frames info).1 in
      let out' = (dump_registers takes gregs trace).1 in
      let waiting = pausing_lem infs out' in
      let (l, e) = dump_stacktrace-Adds info in
      let (l', e') = dump_registers-Adds trace in
      (
        out',
        pieces,
        l' ++ l,
        rw (whole, waiting) refl,
        whole,
        e'
            ∙ ap (λ o. l' ++ o) (e ∙ ap (λ o. l ++ o) (write_all-onto pieces out))
            ∙ sym (append_assoc l' l (onto pieces out)),
      )

module _ (sigaction : ℕ → Bool) where
  abbrev pub AllOk : List ℕ → Type 0
  AllOk sigs = All (λ s. sigaction s ≡ true) sigs

  abbrev pub back : List ℕ → List ℕ → List ℕ
  back [] done = done
  back (s ∷ sigs) done = back sigs (s ∷ done)

  install_all_lem :
      (sigs : List ℕ) (i : Installed)
      → (((install_all sigaction sigs i).0 ≡ true)
          × AllOk sigs
          × ((install_all sigaction sigs i).1 ≡ record i { handled = back sigs i.handled }))
        ⊎ ((n : ℕ) × ((install_all sigaction sigs i).0 ≡ false)
            × (n < length sigs)
            × AllOk (take n sigs)
            × ((install_all sigaction sigs i).1
                ≡ record i { handled = back (take n sigs) i.handled }))
  unfolding install_all
  install_all_lem [] i = inl (refl, tt, refl)
  install_all_lem (sig ∷ sigs) i = elim (Bool-cases (sigaction sig)) [
    | inr e ↦ rw e (inr (0, refl, omega arith, tt, refl))
    | inl e ↦ rw e (elim (install_all_lem sigs (record i { handled = sig ∷ i.handled })) [
      | inl (d, all, s) ↦ inl (d, (refl, all), s)
      | inr (n, d, lt, all, s) ↦ inr (suc n, d, omega arith, (e, all), s)
    ])
  ]

  -- The installation ends in one of three ways. It returns 0, the handler is set for every one of the
  -- seven signals, `backtrace` finds a frame, and the descriptor is in the context. Or the handler
  -- is set for every one, but `backtrace` finds no frame: no descriptor is in the context, and yet 0
  -- is returned if that is what `errno` is. Or it fails at some signal: those before it have the
  -- handler already, none after it has, and no descriptor is in the context.
  pub dump_on_fatal_signal_lem :
      (c : Signals) (missed : Option ℕ) (fd : ℕ) (i : Installed)
      → (((dump_on_fatal_signal sigaction c missed fd i).0 ≡ true)
          × AllOk (fatal_signals c)
          × (missed ≡ none)
          × ((dump_on_fatal_signal sigaction c missed fd i).1
              ≡ record { handled = back (fatal_signals c) i.handled; output_fd = some fd }))
        ⊎ (((errno : ℕ) × ((dump_on_fatal_signal sigaction c missed fd i).0 ≡ (errno == 0))
              × AllOk (fatal_signals c)
              × (missed ≡ some errno)
              × ((dump_on_fatal_signal sigaction c missed fd i).1
                  ≡ record i { handled = back (fatal_signals c) i.handled }))
            ⊎ ((n : ℕ) × ((dump_on_fatal_signal sigaction c missed fd i).0 ≡ false)
                × (n < 7)
                × AllOk (take n (fatal_signals c))
                × ((dump_on_fatal_signal sigaction c missed fd i).1
                    ≡ record i { handled = back (take n (fatal_signals c)) i.handled })))
  unfolding dump_on_fatal_signal fatal_signals
  dump_on_fatal_signal_lem c none fd i = elim (install_all_lem (fatal_signals c) i) [
    | inl (d, all, s) ↦ rw (d, s) (inl (refl, all, refl, refl))
    | inr (n, d, lt, all, s) ↦ rw (d, s) (inr (inr (n, refl, lt, all, refl)))
  ]
  dump_on_fatal_signal_lem c (some errno) fd i = elim (install_all_lem (fatal_signals c) i) [
    | inl (d, all, s) ↦ rw (d, s) (inr (inl (errno, refl, all, refl, refl)))
    | inr (n, d, lt, all, s) ↦ rw (d, s) (inr (inr (n, refl, lt, all, refl)))
  ]
