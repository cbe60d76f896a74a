-- ===== src/Gen/Manager/Serve.antt =====
-- gen/manager.cpp: the generation's whole turn.
use traffic_generator.Mgmt.Queue.{out_pow2}
use traffic_generator.Base.{
  ℕ, ◌+◌, ◌≤◌, ◌≡◌, refl, sym, ap, ◌∙◌, Bool-cases, some, List, [], ◌∷◌, length, take, drop, min,
  take-append-drop, All, All-take, inl, inr, arith,
}
use traffic_generator.Put.Ring.{Ring}
use traffic_generator.Put.Ring.Holds.{Holds}
use traffic_generator.Gen.World.{World, cnt_burst_pkts}
use traffic_generator.Mgmt.Messages.{OutMsg, IncMsg, inc_capacity, out_capacity}
use traffic_generator.Mgmt.Queue.{take_batch_lem, visit_all}
use traffic_generator.Mgmt.Protocol.{Exchange, asked, answered, asked-append}
use traffic_generator.Gen.Manager.{
  Platform, Manager, shape, is_empty, on_inc_msg, receive_rx_pkts, process_events,
}
use traffic_generator.Gen.Manager.Turn.{Orderly, generate-Turned}
use traffic_generator.Gen.Manager.Start.{Works}
use traffic_generator.Gen.Manager.Answer.{CanServe, Handled, on_inc_msg-Handled}

module _ {E : Type 0} (pf : Platform E) where
  module _ (works : Works pf) where
    next-visit_all :
        (m m' : Manager E) (msg : OutMsg) (msgs : List OutMsg)
        → on_inc_msg pf m msg ≡ some m'
        → visit_all (on_inc_msg pf) m (msg ∷ msgs) ≡ visit_all (on_inc_msg pf) m' msgs
    unfolding visit_all
    next-visit_all m m' msg msgs e = rw (e, visit_all) refl

    visit_all-Handled :
        (m : Manager E) (msgs : List OutMsg)
        → Orderly m
        → All (CanServe pf.hosts) msgs
        → (m' : Manager E) × (visit_all (on_inc_msg pf) m msgs ≡ some m')
          × Handled m (λ x. asked x msgs) m'
    unfolding visit_all
    visit_all-Handled m [] o s = (
      m,
      refl,
      record { orderly = o; tx = refl; responses = λ q h. (q, h, λ x. omega arith, λ _. refl) },
    )
    visit_all-Handled m (msg ∷ msgs) o s =
        let (m', e, h) = on_inc_msg-Handled pf works m msg o s.0 in
        let (m'', e', h') = visit_all-Handled m' msgs h.orderly s.1 in
        (
          m'',
          next-visit_all m m' msg msgs e ∙ e',
          record {
            orderly = h'.orderly;
            tx = h'.tx ∙ h.tx;
            responses = λ q r.
                let (q', r', b, lost) = h.responses q r in
                let (q'', r'', b', lost') = h'.responses q' r' in
                (
                  q'',
                  r'',
                  λ x. omega (arith, b x, b' x),
                  λ full. lost' (ap length (lost full) ∙ full) ∙ lost full,
                );
          },
        )

  receive_rx_pkts_lem :
      (w : World E)
      → (w' : World E) × (receive_rx_pkts pf w ≡ w')
        × (w'.cnt_timers ≡ w.cnt_timers)
        × (w'.out_queue ≡ w.out_queue)
        × (w'.tx_pkts ≡ w.tx_pkts)
  unfolding receive_rx_pkts
  receive_rx_pkts_lem w =
      let (pkts, env) = pf.dpdk.eth_rx_burst cnt_burst_pkts w.env in
      elim (Bool-cases (is_empty pkts)) [
        | inl e ↦ (record w { env = env }, rw e refl, refl, refl, refl)
        | inr e ↦
            (record w { env = pf.dpdk.pktmbuf_free_bulk pkts env }, rw e refl, refl, refl, refl)
      ]

  module _ (works : Works pf) where
    -- A turn of the generation comes to its end: whatever requests it takes, whether their starts
    -- construct generators or throw, and whatever timers expired, no assertion of it fails and
    -- nothing is read out of range. It needs an orderly manager with no packet to send and starts
    -- whose flows can be set up, and leaves them so. It takes a first part of the requests, one at
    -- least where there is one, of eight at most, and adds no more responses to an exchange than
    -- it took requests of it. It is relied on that an assertion aborts where its condition fails,
    -- and that the timers, the loader and the move assignment do as documented.
    pub process_events-Served :
        (m : Manager E) (inc_queue : Ring OutMsg) (out : List OutMsg)
        → Orderly m
        → m.world.tx_pkts ≡ []
        → All (CanServe pf.hosts) out
        → Holds out_capacity inc_queue out
        → (m' : Manager E) × (inc_queue' : Ring OutMsg) × (n : ℕ) × (process_events pf m inc_queue
            ≡ some (m', inc_queue'))
          × (n ≤ 8)
          × (min 1 (length out) ≤ n)
          × Holds out_capacity inc_queue' (drop n out)
          × Orderly m'
          × (m'.world.tx_pkts ≡ [])
          × ((inc : List IncMsg)
              → Holds inc_capacity m.world.out_queue inc
              → (inc' : List IncMsg) × Holds inc_capacity m'.world.out_queue inc'
                × ((x : Exchange)
                    → asked x (drop n out) + answered x inc' ≤ asked x out + answered x inc))
    unfolding process_events
    process_events-Served m inc_queue out o sent serves h =
        let (n, q', e, le, le', some_seen, h') =
          take_batch_lem out_pow2 inc_queue out (omega arith) h in
        let (m₁, e₁, h₁) =
          visit_all-Handled works m (take n out) o (All-take (CanServe pf.hosts) n out serves) in
        let (w, ew, timers, queue, tx) = receive_rx_pkts_lem m₁.world in
        let m₂ = record m₁ { world = w } in
        let o₂ : Orderly m₂ = record {
          timers = timers ∙ h₁.orderly.timers;
          runs = h₁.orderly.runs;
          idle = h₁.orderly.idle;
        } in
        let (m₃, e₃, t) =
          generate-Turned pf works.intended works.stops m₂ o₂ (λ started. tx ∙ h₁.tx ∙ sent)
            (works.expired (shape m₂.generators) w.env) in
        let split : (x : Exchange) → asked x out ≡ asked x (take n out) + asked x (drop n out) =
          λ x.
            ap (asked x) (sym (take-append-drop n out))
            ∙ asked-append x (take n out) (drop n out) in
        (
          m₃,
          q',
          n,
          rw (e, e₁, ew, e₃) refl,
          le,
          some_seen,
          h',
          t.orderly,
          t.sent,
          λ inc k.
              let (inc₁, k₁, b₁, _) = h₁.responses inc k in
              let (inc₃, k₃, b₃) = t.answers.kept inc₁ (rw queue k₁) in
              (inc₃, k₃, λ x. omega (arith, split x, b₁ x, b₃ x)),
        )
