-- ===== src/Put/Stacktrace/Dump/Read.antt =====
-- put/stacktrace.cpp: what can be read of a dump of the registers and of a signal's information.
use Prim.Native.String.{String}
use traffic_generator.Base.{
  ℕ, zero, suc, ◌+◌, ◌^◌, ◌<◌, ◌≡◌, refl, ap, ◌∙◌, Bool, true, false, Bool-cases, some, List, [],
  ◌∷◌, ◌++◌, length, take, if◌then◌else◌, ◌⊎◌, inl, inr, arith,
}
use traffic_generator.Put.Stacktrace.{u32_to_dec_lem}
use traffic_generator.Put.Stacktrace.{u64_to_hex}
use traffic_generator.Put.Stacktrace.Dump.{
  Piece, lit, digits, Out, Signals, SigInfo, signal_info, name_pieces, u32_info, info_pieces,
  sent_pieces, signal_names, switch, Reg, registers, if_written, write_str, reg_info, write_regs,
  dump_registers,
}

-- Texts given to `write` after others.
abbrev pub onto : List Piece → Out → Out
onto [] out = out
onto (p ∷ ps) out = onto ps (p ∷ out)

-- A register's line or part of it, and those of all.
abbrev pub reg_pieces : List (String × Reg × Bool) → (Reg → ℕ) → List Piece
reg_pieces [] gregs = []
reg_pieces ((name, reg, new_line) ∷ rs) gregs =
    lit name
    ∷ digits (u64_to_hex (gregs reg))
    ∷ (if new_line then lit "\n" else lit " ")
    ∷ reg_pieces rs gregs

abbrev pub dump_pieces : (Reg → ℕ) → List Piece
dump_pieces gregs = lit "--- CPU REGISTERS BEG ---\n" ∷ reg_pieces registers gregs

module _ (takes : ℕ → Bool) where
  -- Writes in order, up to the first that fails.
  write_until : List Piece → Out → Bool × Out
  unfolding write_str
  write_until [] out = (true, out)
  write_until (p ∷ ps) out = if_written (write_str takes p out) (write_until ps)

  if_written-write_until :
      (ps qs : List Piece) (out : Out)
      → if_written (write_until ps out) (write_until qs) ≡ write_until (ps ++ qs) out
  unfolding write_until
  if_written-write_until [] qs out = refl
  if_written-write_until (p ∷ ps) qs out = elim (Bool-cases (takes (length out))) [
    | inl e ↦ rw e (if_written-write_until ps qs (p ∷ out))
    | inr e ↦ rw e refl
  ]

  write_regs_lem :
      (rs : List (String × Reg × Bool)) (gregs : Reg → ℕ) (out : Out)
      → write_regs takes rs gregs out ≡ write_until (reg_pieces rs gregs) out
  unfolding write_regs write_until reg_info
  write_regs_lem [] gregs out = refl
  write_regs_lem ((name, reg, true) ∷ rs) gregs out =
      let v = digits (u64_to_hex (gregs reg)) in
      elim (Bool-cases (takes (length out))) [
        | inr e ↦ rw e refl
        | inl e ↦ rw e (elim (Bool-cases (takes (suc (length out)))) [
          | inr e' ↦ rw e' refl
          | inl e' ↦ rw e' (elim (Bool-cases (takes (suc (suc (length out))))) [
            | inr e'' ↦ rw e'' refl
            | inl e'' ↦ rw e'' (write_regs_lem rs gregs (lit "\n" ∷ v ∷ lit name ∷ out))
          ])
        ])
      ]
  write_regs_lem ((name, reg, false) ∷ rs) gregs out =
      let v = digits (u64_to_hex (gregs reg)) in
      elim (Bool-cases (takes (length out))) [
        | inr e ↦ rw e refl
        | inl e ↦ rw e (elim (Bool-cases (takes (suc (length out)))) [
          | inr e' ↦ rw e' refl
          | inl e' ↦ rw e' (elim (Bool-cases (takes (suc (suc (length out))))) [
            | inr e'' ↦ rw e'' refl
            | inl e'' ↦ rw e'' (write_regs_lem rs gregs (lit " " ∷ v ∷ lit name ∷ out))
          ])
        ])
      ]

  -- Every text was taken whole, or all before some text were and that one not.
  abbrev pub AllTaken : List Piece → Out → Bool × Out → Type 0
  AllTaken ps out (done, out') =
      (done ≡ true)
      × (out' ≡ onto ps out)
      × ((i : ℕ) → i < length ps → takes (length out + i) ≡ true)

  abbrev pub FirstFailed : List Piece → Out → Bool × Out → Type 0
  FirstFailed ps out (done, out') =
      (n : ℕ) × (done ≡ false)
      × (n < length ps)
      × (out' ≡ onto (take (suc n) ps) out)
      × (takes (length out + n) ≡ false)
      × ((i : ℕ) → i < n → takes (length out + i) ≡ true)

  later_taken :
      (n m : ℕ)
      → takes n ≡ true
      → ((i : ℕ) → i < m → takes (suc n + i) ≡ true)
      → (i : ℕ) → i < suc m
      → takes (n + i) ≡ true
  later_taken n m e h zero lt = ap takes (omega arith) ∙ e
  later_taken n m e h (suc i) lt = ap takes (omega arith) ∙ h i (omega arith)

  write_until_lem :
      (ps : List Piece) (out : Out)
      → AllTaken ps out (write_until ps out) ⊎ FirstFailed ps out (write_until ps out)
  unfolding write_until
  write_until_lem [] out = inl (refl, refl, λ i lt. absurd (omega arith))
  write_until_lem (p ∷ ps) out = elim (Bool-cases (takes (length out))) [
    | inr e ↦
        rw e (
          inr
            (0, refl, omega arith, refl, ap takes (omega arith) ∙ e, λ i lt. absurd (omega arith)))
    | inl e ↦ rw e (elim (write_until_lem ps (p ∷ out)) [
      | inl (done, outs, all) ↦ inl (done, outs, later_taken (length out) (length ps) e all)
      | inr (n, done, lt, outs, fails, before) ↦ inr (
        suc n,
        done,
        omega arith,
        outs,
        ap takes (omega arith) ∙ fails,
        later_taken (length out) n e before,
      )
    ])
  ]

  dumped_lem :
      (gregs : Reg → ℕ) (out : Out)
      → dump_registers takes gregs out
        ≡ if_written
            (write_until (dump_pieces gregs) out)
            (λ out2. (true, lit "\n--- CPU REGISTERS END ---\n" ∷ out2))
  unfolding dump_registers write_until
  dumped_lem gregs out = elim (Bool-cases (takes (length out))) [
    | inl e ↦ rw (e, write_regs_lem registers gregs (lit "--- CPU REGISTERS BEG ---\n" ∷ out)) refl
    | inr e ↦ rw e refl
  ]

  abbrev finish : Bool × Out → Bool × Out
  finish r = if_written r (λ out2. (true, lit "\n--- CPU REGISTERS END ---\n" ∷ out2))

  ended :
      (r res : Bool × Out) (out : Out)
      → res ≡ finish r
      → r.0 ≡ true
      → r.1 ≡ out
      → (res.0 ≡ true) × (res.1 ≡ lit "\n--- CPU REGISTERS END ---\n" ∷ out)
  ended (true, o) res out e d h =
      (ap (λ x. x.0) e, ap (λ x. x.1) e ∙ ap (λ x. lit "\n--- CPU REGISTERS END ---\n" ∷ x) h)
  ended (false, o) res out e d h = cc

  failed :
      (r res : Bool × Out) (out : Out)
      → res ≡ finish r
      → r.0 ≡ false
      → r.1 ≡ out
      → (res.0 ≡ false) × (res.1 ≡ out)
  failed (true, o) res out e d h = cc
  failed (false, o) res out e d h = (ap (λ x. x.0) e, ap (λ x. x.1) e ∙ h)

  -- The dump of the registers writes its heading and then for each of the 23 registers its name, the
  -- hexadecimal digits of its value and a space or a line break. If `write` takes them all whole, the
  -- dump goes on to its last line and succeeds; otherwise it fails, and the first text that is not
  -- taken is the last one that is written.
  pub dump_registers_lem :
      (gregs : Reg → ℕ) (out : Out)
      → (((dump_registers takes gregs out).0 ≡ true)
          × ((dump_registers takes gregs out).1
              ≡ lit "\n--- CPU REGISTERS END ---\n" ∷ onto (dump_pieces gregs) out)
          × ((i : ℕ) → i < length (dump_pieces gregs) → takes (length out + i) ≡ true))
        ⊎ FirstFailed (dump_pieces gregs) out (dump_registers takes gregs out)
  dump_registers_lem gregs out =
      let e = dumped_lem gregs out in
      elim (write_until_lem (dump_pieces gregs) out) [
        | inl (done, outs, all) ↦ let (d, o) = ended _ _ _ e done outs in inl (d, o, all)
        | inr (n, done, lt, outs, fails, before) ↦
            let (d, o) = failed _ _ _ e done outs in inr (n, d, lt, o, fails, before)
      ]

-- A number of 32 bits has room in its buffer.
u32_info_lem : (lbl : String) (n : ℕ) → n < 2 ^ 32 → (ps : List Piece) × (u32_info lbl n ≡ some ps)
unfolding u32_info
u32_info_lem lbl n h =
    let (s, e, _, _) = u32_to_dec_lem n h in (lit lbl ∷ digits s ∷ lit "\n" ∷ [], rw e refl)

name_lem :
    (c : Signals) (found : List Piece) (signo : ℕ)
    → signo < 2 ^ 32
    → (ps : List Piece) × (name_pieces c found signo ≡ some ps)
unfolding name_pieces
name_lem c [] signo h = u32_info_lem "Signal: " signo h
name_lem c (p ∷ ps) signo h = (p ∷ ps, refl)

-- The information on a signal is written whole, whatever signal it is.
pub signal_info_lem :
    (c : Signals) (inf : SigInfo)
    → inf.signo < 2 ^ 32
    → inf.pid < 2 ^ 32
    → inf.uid < 2 ^ 32
    → (ps : List Piece) × (signal_info c inf ≡ some ps)
unfolding signal_info
signal_info_lem c inf h k m =
    let (name, e) = name_lem c (switch (signal_names c) inf.signo) inf.signo h in
    let (pid, e') = u32_info_lem "Sending PID: " inf.pid k in
    let (uid, e'') = u32_info_lem "Sending UID: " inf.uid m in
    (
      lit "--- SIGNAL INFO BEG ---\n"
          ∷ (name
              ++ (pid
                  ++ (uid
                      ++ (info_pieces c inf
                          ++ (sent_pieces c inf.code ++ (lit "--- SIGNAL INFO END ---\n" ∷ [])))))),
      rw (e, e', e'') refl,
    )
