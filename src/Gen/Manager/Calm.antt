-- ===== src/Gen/Manager/Calm.antt =====
-- What the generators' work on the manager's state leaves alone: the count of timers, and the
-- responses under way.
use traffic_generator.Mgmt.Queue.{inc_pow2}
use traffic_generator.Base.{
  ◌<◌, ◌≡◌, refl, ◌∙◌, true, false, Bool-cases, Option, none, some, List, [], ◌∷◌, ◌++◌, length,
  ◌==◌, ltb, ◌⊎◌, inl, inr, arith,
}
use traffic_generator.Put.Ring.Holds.{Holds}
use traffic_generator.Gen.Ops.{Mbuf, GenerationReport}
use traffic_generator.Gen.World.{
  Dpdk, World, transmit_tx_pkts, or_count, copy_pkt, send_pkt, do_report, cnt_burst_pkts,
}
use traffic_generator.Mgmt.Messages.{IncMsg, generation_report, inc_capacity}
use traffic_generator.Mgmt.Queue.{enqueue, enqueue_lem}
use traffic_generator.Mgmt.Protocol.{Exchange, start, stop, stats, answered, answered-append}

module _ {E : Type 0} where
  -- From one state to another no response is added or lost, nor a timer.
  pub record Calm (v w : World E) : Type 0 where
    pub timers : w.cnt_timers ≡ v.cnt_timers
    pub queue :
        (q : List IncMsg)
        → Holds inc_capacity v.out_queue q
        → (q' : List IncMsg) × Holds inc_capacity w.out_queue q'
          × ((x : Exchange) → answered x q' ≡ answered x q)

  pub Calm-refl : (w : World E) → Calm w w
  Calm-refl w = record { timers = refl; queue = λ q h. (q, h, λ x. refl) }

  pub Calm-trans : {u v w : World E} → Calm u v → Calm v w → Calm u w
  Calm-trans a b = record {
    timers = b.timers ∙ a.timers;
    queue = λ q h.
        let (q', h', e) = a.queue q h in
        let (q'', h'', e') = b.queue q' h' in (q'', h'', λ x. e' x ∙ e x);
  }

  -- The same queue and timers.
  pub Calm-same :
      {v w : World E} → w.out_queue ≡ v.out_queue → w.cnt_timers ≡ v.cnt_timers → Calm v w
  Calm-same e t = record { timers = t; queue = λ q h. (q, rw e h, λ x. refl) }

  module _ (dpdk : Dpdk E) where
    pub transmit_tx_pkts-Calm : (w : World E) → Calm w (transmit_tx_pkts dpdk w)
    unfolding transmit_tx_pkts
    transmit_tx_pkts-Calm w =
        elim (Bool-cases (ltb (dpdk.eth_tx_burst w.tx_pkts w.env).0 (length w.tx_pkts))) [
          | inl some_left ↦ rw some_left (Calm-same refl refl)
          | inr all ↦ rw all (Calm-same refl refl)
        ]

    pub copy_pkt-Calm : (pkt : Mbuf) (w : World E) → Calm w (copy_pkt dpdk pkt w).1
    unfolding copy_pkt
    copy_pkt-Calm pkt w = counted (dpdk.pktmbuf_copy pkt w.env) w
      where
        counted : (c : Option Mbuf × E) (w : World E) → Calm w (or_count dpdk c w).1
        counted (none, env) w = Calm-same refl refl
        counted (some m, env) w = Calm-same refl refl

    pub send_pkt-Calm : (pkt : Mbuf) (w : World E) → Calm w (send_pkt dpdk pkt w)
    unfolding send_pkt
    send_pkt-Calm pkt w =
        let w' = record w { tx_pkts = w.tx_pkts ++ (pkt ∷ []) } in
        elim (Bool-cases (length w'.tx_pkts == cnt_burst_pkts)) [
          | inl full ↦ rw full (Calm-trans (Calm-same refl refl) (transmit_tx_pkts-Calm w'))
          | inr room ↦ rw room (Calm-same refl refl)
        ]

    pub do_report-Calm : (r : GenerationReport) (w : World E) → Calm w (do_report dpdk r w)
    unfolding do_report
    do_report-Calm r w = record {
      timers = refl;
      queue = λ q h. reported q (enqueue_lem inc_pow2 w.out_queue q (generation_report r) h);
    }
      where
        no_answer : (x : Exchange) → answered x (generation_report r ∷ []) ≡ 0
        no_answer start = refl
        no_answer stop = refl
        no_answer stats = refl

        reported :
            (q : List IncMsg)
            → ((length q ≡ inc_capacity)
                × ((enqueue inc_capacity w.out_queue (generation_report r)).0 ≡ false)
                × Holds inc_capacity (enqueue inc_capacity w.out_queue (generation_report r)).1 q)
              ⊎ ((length q < inc_capacity)
                  × ((enqueue inc_capacity w.out_queue (generation_report r)).0 ≡ true)
                  × Holds inc_capacity
                      (enqueue inc_capacity w.out_queue (generation_report r)).1
                      (q ++ (generation_report r ∷ [])))
            → (q' : List IncMsg) × Holds inc_capacity
                (enqueue inc_capacity w.out_queue (generation_report r)).1
                q'
              × ((x : Exchange) → answered x q' ≡ answered x q)
        reported q (inl (full, e, h)) = (q, h, λ x. refl)
        reported q (inr (room, e, h)) =
            (_, h, λ x. answered-append x q (generation_report r ∷ []) ∙ omega (arith, no_answer x))
