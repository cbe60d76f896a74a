-- ===== src/Gen/Handle.antt =====
-- gen/priv/event_handle.cpp: the handles of timers, in a store of the handles that there are, with
-- the count of timers of their scheduler.
use traffic_generator.Base.{
  ℕ, zero, suc, ◌+◌, ◌-◌, ◌≡◌, refl, Bool, true, false, Option, none, some, ◌==◌, if◌then◌else◌,
}

-- `event_handle`: its timer, and whether it points to the scheduler.
pub record Handle : Type 0 where
  pub tmr : Option ℕ
  pub scheduler : Bool

-- The handles by their addresses, the next address, and `cnt_timers_`.
pub record Store : Type 0 where
  pub handles : ℕ → Handle
  pub next : ℕ
  pub cnt_timers : ℕ

abbrev pub put_handle : ℕ → Handle → Store → Store
put_handle at h st = record st { handles = λ j. if j == at then h else st.handles j }

abbrev pub no_handle : Handle
no_handle = record { tmr = none; scheduler = false }

-- A handle at a new address.
abbrev pub place_handle : Handle → Store → ℕ × Store
place_handle h st = (st.next, record (put_handle st.next h st) { next = st.next + 1 })

-- `event_handle(event_scheduler*)`, with a timer of number `tmr`.
pub scheduler_handle : ℕ → Store → ℕ × Store
scheduler_handle tmr st =
    place_handle (record { tmr = some tmr; scheduler = true })
      (record st { cnt_timers = st.cnt_timers + 1 })

-- `event_handle(event_handle&&)`
unfoldable pub move_handle : ℕ → Store → ℕ × Store
move_handle rhs st = place_handle (st.handles rhs) (put_handle rhs no_handle st)

-- `~event_handle`
pub drop_handle : ℕ → Store → Store
drop_handle at st = elim ((st.handles at).tmr) [
  | none ↦ put_handle at no_handle st
  | some tmr ↦ put_handle at no_handle (record st { cnt_timers = st.cnt_timers - 1 })
]

-- `operator=(event_handle&&)` on so many nested calls. No `swap` of handles is declared, so the
-- one it calls is that of the standard library: a move to a new handle and two move assignments.
pub assign_handle : ℕ → ℕ → ℕ → Store → Option Store
unfolding move_handle drop_handle
assign_handle zero self rhs st = none
assign_handle (suc fuel) self rhs st =
    let (tmp, st1) = move_handle rhs st in
    let (other, st2) = move_handle tmp st1 in
    elim (assign_handle fuel tmp self st2) [
      | none ↦ none
      | some st3 ↦ elim (assign_handle fuel self other st3) [
        | none ↦ none
        | some st4 ↦ some (drop_handle tmp (drop_handle other st4))
      ]
    ]

-- The assignment of a handle never returns: with any number of nested calls, of any two handles
-- in any store, it is still calling itself.
pub assign_handle-diverges :
    (fuel self rhs : ℕ) (st : Store) → assign_handle fuel self rhs st ≡ none
unfolding assign_handle
assign_handle-diverges zero self rhs st = refl
assign_handle-diverges (suc fuel) self rhs st =
    let (tmp, st1) = move_handle rhs st in
    let (other, st2) = move_handle tmp st1 in rw (assign_handle-diverges fuel tmp self st2) refl
