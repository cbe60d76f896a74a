-- ===== src/Gen/Manager/Settled.antt =====
-- gen/manager.cpp with the assertion and the assignment of a handle as they are: a turn of the
-- generation and the handling of a request come to their ends, or stop at one of the two.
use traffic_generator.Base.{
  ℕ, ◌+◌, ◌≤◌, ◌≡◌, refl, ◌∙◌, true, Bool-cases, none, some, List, [], length, drop, min, All, ◌⊎◌,
  inl, inr,
}
use Prim.Native.String.{String}
use traffic_generator.Put.Ring.{Ring}
use traffic_generator.Put.Ring.Holds.{Holds}
use traffic_generator.Gen.World.{World}
use traffic_generator.Mgmt.Messages.{OutMsg, IncMsg, inc_capacity, out_capacity}
use traffic_generator.Mgmt.Protocol.{Exchange, asked, answered, asks}
use traffic_generator.Gen.Manager.{Platform, Manager, on_inc_msg, process_events}
use traffic_generator.Gen.Manager.Fire.{InShape}
use traffic_generator.Gen.Manager.Turn.{Orderly, Stops}
use traffic_generator.Gen.Manager.Start.{Works, Quiet, Loads}
use traffic_generator.Gen.Manager.Answer.{CanServe, Handled, on_inc_msg-Handled}
use traffic_generator.Gen.Manager.Serve.{process_events-Served}
use traffic_generator.Gen.Manager.Below.{ideal, or_same, on_inc_msg-Below, process_events-Below}

module _ {E : Type 0} (pf : Platform E) where
  -- What the manuals say of DPDK's timers and of the files, and that the assignment of a handle
  -- never returns, as `assign_handle` never does, or always returns with the manager as it was.
  pub record Documented : Type 0 where
    pub stops : Stops pf
    pub expired : (ns : List ℕ) (e : E) → All (InShape ns) (pf.dpdk.timers_expired ns e)
    pub move :
        ((w : World E) → pf.move_assign w ≡ none)
        ⊎ ((w : World E) → (w' : World E) × (pf.move_assign w ≡ some w') × Quiet w w')
    pub loads : (name : String) (w : World E) → Loads w (pf.load_captured name w)

  -- Why a turn may stop: assertions abort where their conditions hold, as the macro is written, or
  -- an assignment of a handle never returns.
  pub data IsFaulty : Type 0 where
    asserts : pf.aborts true ≡ true → IsFaulty
    assigns : ((w : World E) → pf.move_assign w ≡ none) → IsFaulty

  -- On a platform that is not faulty everything works, and on one that is all but the two does.
  pub Works-or_faulty : Documented → Works pf ⊎ (IsFaulty × Works (ideal pf))
  Works-or_faulty d = elim (d.move) [
    | inl never ↦ inr (
      assigns never,
      ideal_works
          (λ w. (w, rw (never w, or_same) refl, record { timers = refl; queue = refl; tx = refl })),
    )
    | inr moves ↦ elim (Bool-cases (pf.aborts true)) [
      | inr passes ↦ inl (record {
        intended = passes;
        stops = d.stops;
        expired = d.expired;
        move = moves;
        loads = d.loads;
      })
      | inl aborts ↦ inr (
        asserts aborts,
        ideal_works (λ w. let (w', e, q) = moves w in (w', rw (e, or_same) refl, q)),
      )
    ]
  ]
    where
      ideal_works :
          ((w : World E) → (w' : World E) × (or_same pf.move_assign w ≡ some w') × Quiet w w')
          → Works (ideal pf)
      ideal_works moves = record {
        intended = refl;
        stops = d.stops;
        expired = d.expired;
        move = moves;
        loads = d.loads;
      }

  -- Every request's handler comes to its end, where the generation is orderly and a start can set
  -- its flows up: a start that constructs its generators, one that throws, one that is too late, a
  -- stop and a request for stats. Otherwise it stops, and only if assertions abort where their
  -- conditions hold, as the macro is written, or the assignment of a handle never returns, as it
  -- is written. The generation is orderly after it, and the packets to send are as they were. The
  -- queue gets one response at most, to that request; where the queue is full it gets none, and
  -- the response is lost. It is relied on that the timers and the loader do as documented.
  pub on_inc_msg-Settled :
      (m : Manager E) (msg : OutMsg)
      → Documented
      → Orderly m
      → CanServe pf.hosts msg
      → (IsFaulty × (on_inc_msg pf m msg ≡ none))
        ⊎ ((m' : Manager E) × (on_inc_msg pf m msg ≡ some m') × Handled m (λ x. asks x msg) m')
  on_inc_msg-Settled m msg d o s = elim (Works-or_faulty d) [
    | inl works ↦ inr (on_inc_msg-Handled pf works m msg o s)
    | inr (faulty, works) ↦ elim (on_inc_msg-Below pf m msg) [
      | inl e ↦ inl (faulty, e)
      | inr e ↦
          let (m', e', h) = on_inc_msg-Handled (ideal pf) works m msg o s in inr (m', e ∙ e', h)
    ]
  ]

  -- A turn of the generation comes to its end, or it stops, and only if assertions abort where their
  -- conditions hold, as the macro is written, or the assignment of a handle never returns, as it
  -- is written. So it is whatever requests it takes, whether their starts construct generators or
  -- throw, and whatever timers expired. It needs an orderly manager with no packet to send and
  -- starts whose flows can be set up, and leaves them so. It takes a first part of the requests,
  -- one at least where there is one, of eight at most, and adds no more responses to an exchange
  -- than it took requests of it. It is relied on that the timers and the loader do as documented.
  pub process_events-Settled :
      (m : Manager E) (inc_queue : Ring OutMsg) (out : List OutMsg)
      → Documented
      → Orderly m
      → m.world.tx_pkts ≡ []
      → All (CanServe pf.hosts) out
      → Holds out_capacity inc_queue out
      → (IsFaulty × (process_events pf m inc_queue ≡ none))
        ⊎ ((m' : Manager E) × (inc_queue' : Ring OutMsg) × (n : ℕ) × (process_events pf m inc_queue
              ≡ some (m', inc_queue'))
            × (n ≤ 8)
            × (min 1 (length out) ≤ n)
            × Holds out_capacity inc_queue' (drop n out)
            × Orderly m'
            × (m'.world.tx_pkts ≡ [])
            × ((inc : List IncMsg)
                → Holds inc_capacity m.world.out_queue inc
                → (inc' : List IncMsg) × Holds inc_capacity m'.world.out_queue inc'
                  × ((x : Exchange)
                      → asked x (drop n out) + answered x inc' ≤ asked x out + answered x inc)))
  process_events-Settled m q out d o sent serves h = elim (Works-or_faulty d) [
    | inl works ↦ inr (process_events-Served pf works m q out o sent serves h)
    | inr (faulty, works) ↦ elim (process_events-Below pf m q) [
      | inl e ↦ inl (faulty, e)
      | inr e ↦
          let (m', q', n, e', le, some_seen, h', o', sent', kept) =
            process_events-Served (ideal pf) works m q out o sent serves h in
          inr (m', q', n, e ∙ e', le, some_seen, h', o', sent', kept)
    ]
  ]
