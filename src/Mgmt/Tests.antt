-- ===== src/Mgmt/Tests.antt =====
-- Tests of the management: a request, a response under way with the request's callback kept, and
-- the queue of messages.
use Prim.Native.String.{String}
use traffic_generator.Mgmt.Queue.{out_pow2, inc_pow2}
use traffic_generator.Base.{
  ℕ, ◌+◌, ◌≤◌, ◌<◌, ◌≡◌, refl, Option, none, some, List, [], ◌∷◌, map, min, length, take, drop, ◌⊎◌,
  inl, zero, suc, true, false, get_elem?, ◌==◌, ◌%◌, ◌++◌, if◌then◌else◌, arith,
}
use traffic_generator.Put.Assert.{not, tg_enforce, IsIntended, IsWritten}
use traffic_generator.Put.Ring.{Ring, init}
use traffic_generator.Put.Ring.Holds.{Holds, init-Holds}
use traffic_generator.Mgmt.Config.{GenConfig}
use traffic_generator.Mgmt.Messages.{
  OutMsg, IncMsg, Stats, SummaryStats, res_start_generation, inc_capacity,
}
use traffic_generator.Mgmt.Protocol.{Exchange, start, stop, stats, asked, answered, answers}
use traffic_generator.Mgmt.Manager.Text.{
  text, join, member, visit_stats, summary_text, summary_text_lem,
}
use traffic_generator.Mgmt.Queue.{enqueue, enqueue_lem, take_batch, take_batch_lem}
use traffic_generator.Mgmt.Manager.{Manager, Request, on_http_request, on_inc_msg, process_events}
use traffic_generator.Mgmt.Manager.Ledger.{
  Grows, Posts, Posted, settled, is_cb, on_http_request-Posted, waiting,
}
use traffic_generator.Mgmt.Manager.Safe.{
  Offers, Sound, Taken, request_cb, process_events-Sound, on_inc_msg-Taken, on_inc_msg-aborts,
}

not-IsIntended : IsIntended not
not-IsIntended = refl

-- No body is a configuration.
abbrev no_cfg : String → String ⊎ GenConfig
no_cfg body = inl "Invalid JSON"

-- One start response in a queue of a ring of many slots.
abbrev one_queue : Ring IncMsg
one_queue = record {
  head = 1;
  prod_tail = 0;
  tail = 0;
  cons_head = 0;
  buff = λ j. if j == 0 then some (res_start_generation none) else none;
}

one_queue-Holds : Holds inc_capacity one_queue (res_start_generation none ∷ [])
one_queue-Holds = record {
  freed = 0;
  popped = 0;
  seen = 0;
  freed_le = omega arith;
  popped_le = omega arith;
  seen_le = omega arith;
  fits = omega arith;
  head_at = refl;
  prod_tail_at = refl;
  tail_at = refl;
  cons_head_at = refl;
  cells = λ i hi. cell i hi;
}
  where
    cell :
        (i : ℕ)
        → i < inc_capacity
        → one_queue.buff ((0 + i) % inc_capacity) ≡ get_elem? (res_start_generation none ∷ []) i
    cell zero hi = refl
    cell (suc i) hi = ground arith

-- The callback of a start is kept, and no request is in the queue any more.
abbrev started : Manager
started = record {
  out_queue = init;
  start_cb = some 5;
  stop_cb = none;
  stats_cb = none;
  replies = [];
}

started-Sound : Sound started [] (res_start_generation none ∷ [])
started-Sound = record { holds = init-Holds out_pow2; books = λ x. book x }
  where
    book :
        (x : Exchange)
        → asked x [] + answered x (res_start_generation none ∷ []) ≤ waiting x started
    book start = omega arith
    book stop = omega arith
    book stats = omega arith

on_http_request_example :
    Posted (Posts no_cfg "") started [] 6 (on_http_request no_cfg "/stop_gen" "" 6 started)
on_http_request_example =
    on_http_request-Posted no_cfg "/stop_gen" "" 6 started [] (init-Holds out_pow2)

abbrev stop_request : Option Request
stop_request = some (record { target = "/stop_gen"; body = ""; cb = 6 })

process_events_example :
    ((not true ≡ true) × (process_events not no_cfg stop_request started one_queue ≡ none))
    ⊎ ((m' : Manager) × (inc_queue' : Ring IncMsg) × (out' : List OutMsg) × (n : ℕ)
        × (process_events not no_cfg stop_request started one_queue ≡ some (m', inc_queue'))
        × (n ≤ 8)
        × (min 1 (length (res_start_generation none ∷ [])) ≤ n)
        × Holds inc_capacity inc_queue' (drop n (res_start_generation none ∷ []))
        × Sound m' out' (drop n (res_start_generation none ∷ []))
        × ((c : ℕ) → settled c m' ≡ settled c started + is_cb c (request_cb stop_request))
        × Grows (Offers no_cfg stop_request) [] out'
        × ((x : Exchange)
            → asked x out'
                + answered x (drop n (res_start_generation none ∷ []))
                + waiting x started
              ≡ asked x [] + answered x (res_start_generation none ∷ []) + waiting x m'))
process_events_example =
    process_events-Sound not no_cfg stop_request started one_queue []
      (res_start_generation none ∷ []) started-Sound one_queue-Holds

on_inc_msg_example :
    (m' : Manager) × (on_inc_msg not started (res_start_generation none) ≡ some m')
    × Taken started (res_start_generation none) m'
on_inc_msg_example = on_inc_msg-Taken not not-IsIntended started (res_start_generation none) (λ x.
    elim x as (λ k. answers k (res_start_generation none) ≤ waiting k started) [
      | start ↦ omega arith
      | stop ↦ omega arith
      | stats ↦ omega arith
    ])

enqueue_example :
    ((length (res_start_generation none ∷ []) ≡ inc_capacity)
      × ((enqueue inc_capacity one_queue (res_start_generation none)).0 ≡ false)
      × Holds inc_capacity
          (enqueue inc_capacity one_queue (res_start_generation none)).1
          (res_start_generation none ∷ []))
    ⊎ ((length (res_start_generation none ∷ []) < inc_capacity)
        × ((enqueue inc_capacity one_queue (res_start_generation none)).0 ≡ true)
        × Holds inc_capacity
            (enqueue inc_capacity one_queue (res_start_generation none)).1
            ((res_start_generation none ∷ []) ++ (res_start_generation none ∷ [])))
enqueue_example =
    enqueue_lem inc_pow2 one_queue (res_start_generation none ∷ []) (res_start_generation none)
      one_queue-Holds

take_batch_example :
    (n : ℕ) × (r' : Ring IncMsg) × (take_batch inc_capacity one_queue
      ≡ some (take n (res_start_generation none ∷ []), r'))
    × (n ≤ 8)
    × (n ≤ length (res_start_generation none ∷ []))
    × (min 1 (length (res_start_generation none ∷ [])) ≤ n)
    × Holds inc_capacity r' (drop n (res_start_generation none ∷ []))
take_batch_example =
    take_batch_lem inc_pow2 one_queue (res_start_generation none ∷ []) (omega arith) one_queue-Holds

tg_enforce-IsWritten : IsWritten tg_enforce
tg_enforce-IsWritten c = refl

on_inc_msg-aborts_example : on_inc_msg tg_enforce started (res_start_generation none) ≡ none
on_inc_msg-aborts_example =
    on_inc_msg-aborts tg_enforce start started (res_start_generation none) tg_enforce-IsWritten refl
      refl

abbrev some_stats : Stats
some_stats = record {
  cnt_rx_pkts = 1;
  cnt_tx_pkts = 2;
  cnt_rx_bytes = 3;
  cnt_tx_bytes = 4;
  cnt_rx_pkts_qfull = 5;
  cnt_rx_pkts_nombuf = 6;
  cnt_tx_pkts_qfull = 7;
  cnt_tx_pkts_nombuf = 8;
  cnt_rx_pkts_err = 9;
  cnt_tx_pkts_err = 10;
}

abbrev no_flows : SummaryStats
no_flows = record { summary = some_stats; detailed = [] }

summary_text_example :
    summary_text 1_000_000 no_flows
    ≡ ((((text "{\"result\": {" ∷ []) ++ join (map member (visit_stats some_stats)))
          ++ (text "}, \"detailed\": [" ∷ []))
        ++ [])
      ++ (text "]}" ∷ [])
summary_text_example = summary_text_lem 1_000_000 no_flows
