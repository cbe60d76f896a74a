-- ===== src/Mgmt/Manager/Safe.antt =====
-- The responses that the management takes, and its whole turn: no assertion of it fails.
use Prim.Native.String.{String}
use traffic_generator.Base.{
  Bool, true, ℕ, ◌+◌, ◌≤◌, ◌≡◌, refl, sym, ap, ◌∙◌, Option, none, some, List, [], ◌∷◌, length, take,
  drop, min, take-append-drop, ◌⊎◌, inl, inr, Bool-cases, arith,
}
use traffic_generator.Put.Ring.{Ring}
use traffic_generator.Put.Assert.{IsIntended, IsWritten, never, Below, Below-bind, enforce-Below}
use traffic_generator.Put.Ring.Holds.{Holds}
use traffic_generator.Mgmt.Config.{GenConfig}
use traffic_generator.Mgmt.Messages.{
  OutMsg, IncMsg, Stats, SummaryStats, res_start_generation, res_stop_generation, res_stats_report,
  generation_report, out_capacity, inc_capacity,
}
use traffic_generator.Mgmt.Queue.{inc_pow2, take_batch_lem, visit_all, visit_all-Below}
use traffic_generator.Mgmt.Protocol.{
  Exchange, start, stop, stats, answers, asked, answered, answered-append,
}
use traffic_generator.Mgmt.Manager.{
  Manager, Request, Reply, Status, Body, http_ok, precondition_failed, generation_started,
  start_failed, summary_body, stats_body, reply, on_res_start, on_res_stop, on_res_stats,
  on_inc_msg, poll_one, process_events,
}
use traffic_generator.Mgmt.Manager.Ledger.{
  waits, waiting, cb_of, is_cb, settled, Posts, Grows, on_http_request-Posted,
}

-- The response of each exchange.
data IsRes : Exchange → IncMsg → Type 0 where
  is_start : {res : Option String} → IsRes start (res_start_generation res)
  is_stop : {res : SummaryStats} → IsRes stop (res_stop_generation res)
  is_stats : {res : Stats} → IsRes stats (res_stats_report res)

-- After a response: one callback less is waiting if the message answers one, it is answered
-- now, and the queue of requests is as it was.
pub record Taken (m : Manager) (msg : IncMsg) (m' : Manager) : Type 0 where
  pub queue : m'.out_queue ≡ m.out_queue
  pub books : (x : Exchange) → answers x msg + waiting x m' ≡ waiting x m
  pub settles : (c : ℕ) → settled c m' ≡ settled c m

kept_cb : (o : Option ℕ) → 1 ≤ waits o → (cb : ℕ) × (o ≡ some cb)
kept_cb none h = absurd (omega (arith, h))
kept_cb (some cb) h = (cb, refl)

abbrev drop_cb : Exchange → Manager → Manager
drop_cb start m = record m { start_cb = none }
drop_cb stop m = record m { stop_cb = none }
drop_cb stats m = record m { stats_cb = none }

dropped :
    (x y : Exchange) (msg : IncMsg) (m : Manager) (cb : ℕ) (rs : List Reply)
    → IsRes x msg
    → cb_of x m ≡ some cb
    → answers y msg + waiting y (drop_cb x (record m { replies = rs })) ≡ waiting y m
dropped _ start _ m cb rs is_start e = omega (arith, ap waits e)
dropped _ stop _ m cb rs is_start e = omega (arith, ap waits e)
dropped _ stats _ m cb rs is_start e = omega (arith, ap waits e)
dropped _ start _ m cb rs is_stop e = omega (arith, ap waits e)
dropped _ stop _ m cb rs is_stop e = omega (arith, ap waits e)
dropped _ stats _ m cb rs is_stop e = omega (arith, ap waits e)
dropped _ start _ m cb rs is_stats e = omega (arith, ap waits e)
dropped _ stop _ m cb rs is_stats e = omega (arith, ap waits e)
dropped _ stats _ m cb rs is_stats e = omega (arith, ap waits e)

drop_cb-settled :
    (x : Exchange) (c cb : ℕ) (m : Manager) (status : Status) (body : Body)
    → cb_of x m ≡ some cb
    → settled c (drop_cb x (reply m cb status body)) ≡ settled c m
drop_cb-settled start c cb m status body e = omega (arith, ap (is_cb c) e)
drop_cb-settled stop c cb m status body e = omega (arith, ap (is_cb c) e)
drop_cb-settled stats c cb m status body e = omega (arith, ap (is_cb c) e)

drop_queue : (x : Exchange) (m : Manager) → (drop_cb x m).out_queue ≡ m.out_queue
drop_queue start m = refl
drop_queue stop m = refl
drop_queue stats m = refl

drop_cb-Taken :
    (x : Exchange) (msg : IncMsg) (m : Manager) (cb : ℕ) (status : Status) (body : Body)
    → IsRes x msg
    → cb_of x m ≡ some cb
    → Taken m msg (drop_cb x (reply m cb status body))
drop_cb-Taken x msg m cb status body r e = record {
  queue = drop_queue x (reply m cb status body);
  books =
      λ y. dropped x y msg m cb (record { cb = cb; status = status; body = body } ∷ m.replies) r e;
  settles = λ c. drop_cb-settled x c cb m status body e;
}

module _ (aborts : Bool → Bool) (intended : IsIntended aborts) where
  -- With an assertion that aborts where its condition fails, every response is taken where its
  -- exchange waits for one, and every report at any time: the handler comes to its end, answers
  -- the callback that was kept, and keeps it no more.
  pub on_inc_msg-Taken :
      (m : Manager) (msg : IncMsg)
      → ((x : Exchange) → answers x msg ≤ waiting x m)
      → (m' : Manager) × (on_inc_msg aborts m msg ≡ some m') × Taken m msg m'
  unfolding on_inc_msg on_res_start on_res_stop on_res_stats
  on_inc_msg-Taken m (res_start_generation none) h =
      let (cb, e) = kept_cb m.start_cb (h start) in
      (
        drop_cb start (reply m cb http_ok generation_started),
        rw (e, intended) refl,
        drop_cb-Taken start _ m cb http_ok generation_started is_start e,
      )
  on_inc_msg-Taken m (res_start_generation (some what)) h =
      let (cb, e) = kept_cb m.start_cb (h start) in
      (
        drop_cb start (reply m cb precondition_failed (start_failed what)),
        rw (e, intended) refl,
        drop_cb-Taken start _ m cb precondition_failed (start_failed what) is_start e,
      )
  on_inc_msg-Taken m (res_stop_generation res) h =
      let (cb, e) = kept_cb m.stop_cb (h stop) in
      (
        drop_cb stop (reply m cb http_ok (summary_body res)),
        rw (e, intended) refl,
        drop_cb-Taken stop _ m cb http_ok (summary_body res) is_stop e,
      )
  on_inc_msg-Taken m (res_stats_report res) h =
      let (cb, e) = kept_cb m.stats_cb (h stats) in
      (
        drop_cb stats (reply m cb http_ok (stats_body res)),
        rw (e, intended) refl,
        drop_cb-Taken stats _ m cb http_ok (stats_body res) is_stats e,
      )
  on_inc_msg-Taken m (generation_report r) h =
      (m, refl, record { queue = refl; books = none_answered; settles = λ c. refl })
    where
      none_answered : (x : Exchange) → answers x (generation_report r) + waiting x m ≡ waiting x m
      none_answered start = omega arith
      none_answered stop = omega arith
      none_answered stats = omega arith

  next-visit_all :
      (m m' : Manager) (msg : IncMsg) (msgs : List IncMsg)
      → on_inc_msg aborts m msg ≡ some m'
      → visit_all (on_inc_msg aborts) m (msg ∷ msgs) ≡ visit_all (on_inc_msg aborts) m' msgs
  unfolding visit_all
  next-visit_all m m' msg msgs e = rw (e, visit_all) refl

  visit_all-Taken :
      (m : Manager) (msgs : List IncMsg)
      → ((x : Exchange) → answered x msgs ≤ waiting x m)
      → (m' : Manager) × (visit_all (on_inc_msg aborts) m msgs ≡ some m')
        × (m'.out_queue ≡ m.out_queue)
        × ((x : Exchange) → answered x msgs + waiting x m' ≡ waiting x m)
        × ((c : ℕ) → settled c m' ≡ settled c m)
  unfolding visit_all
  visit_all-Taken m [] h = (m, refl, refl, λ x. omega arith, λ c. refl)
  visit_all-Taken m (msg ∷ msgs) h =
      let (m', e, t) = on_inc_msg-Taken m msg (λ x. omega (arith, h x)) in
      let (m'', e', q, b, s) = visit_all-Taken m' msgs (λ x. omega (arith, h x, t.books x)) in
      (
        m'',
        next-visit_all m m' msg msgs e ∙ e',
        q ∙ t.queue,
        λ x. omega (arith, t.books x, b x),
        λ c. s c ∙ t.settles c,
      )

-- The messages that a turn may put in the queue of requests.
abbrev pub Offers : (String → String ⊎ GenConfig) → Option Request → OutMsg → Type 0
Offers parse none msg = ⊥
Offers parse (some r) msg = Posts parse r.body msg

abbrev pub request_cb : Option Request → Option ℕ
request_cb none = none
request_cb (some r) = some r.cb

-- The management's books: what is in its queue of requests, and that no more requests and
-- responses of an exchange are under way than callbacks wait for them.
pub record Sound (m : Manager) (out : List OutMsg) (inc : List IncMsg) : Type 0 where
  pub holds : Holds out_capacity m.out_queue out
  pub books : (x : Exchange) → asked x out + answered x inc ≤ waiting x m

module _ (aborts : Bool → Bool) (parse : String → String ⊎ GenConfig) where
  poll_one-Sound :
      (r : Option Request) (m : Manager) (out : List OutMsg) (inc : List IncMsg)
      → Sound m out inc
      → (out' : List OutMsg) × Sound (poll_one aborts parse r m) out' inc
        × ((c : ℕ) → settled c (poll_one aborts parse r m) ≡ settled c m + is_cb c (request_cb r))
        × Grows (Offers parse r) out out'
        × ((x : Exchange)
            → asked x out' + waiting x m ≡ asked x out + waiting x (poll_one aborts parse r m))
  unfolding poll_one
  poll_one-Sound none m out inc s = (out, s, λ c. omega arith, inl refl, λ x. refl)
  poll_one-Sound (some r) m out inc s =
      let p = on_http_request-Posted parse r.target r.body r.cb m out s.holds in
      (
        p.out',
        record { holds = p.holds; books = λ x. omega (arith, p.books x, s.books x) },
        p.settles,
        p.grows,
        p.books,
      )

  -- Where a condition that holds goes on.
  pub process_events-Passed :
      (r : Option Request) (m : Manager) (inc_queue : Ring IncMsg) (out : List OutMsg)
      (inc : List IncMsg)
      → IsIntended aborts
      → Sound m out inc
      → Holds inc_capacity inc_queue inc
      → (m' : Manager) × (inc_queue' : Ring IncMsg) × (out' : List OutMsg) × (n : ℕ)
        × (process_events aborts parse r m inc_queue ≡ some (m', inc_queue'))
        × (n ≤ 8)
        × (min 1 (length inc) ≤ n)
        × Holds inc_capacity inc_queue' (drop n inc)
        × Sound m' out' (drop n inc)
        × ((c : ℕ) → settled c m' ≡ settled c m + is_cb c (request_cb r))
        × Grows (Offers parse r) out out'
        × ((x : Exchange)
            → asked x out' + answered x (drop n inc) + waiting x m
              ≡ asked x out + answered x inc + waiting x m')
  unfolding process_events
  process_events-Passed r m inc_queue out inc intended s h =
      let (n, q', e, le, le', some_seen, h') =
        take_batch_lem inc_pow2 inc_queue inc (omega arith) h in
      let (out', s', settles, grows, posts) = poll_one-Sound r m out inc s in
      let split : (x : Exchange)
          → answered x inc ≡ answered x (take n inc) + answered x (drop n inc) =
        λ x.
          ap (answered x) (sym (take-append-drop n inc))
          ∙ answered-append x (take n inc) (drop n inc) in
      let (m', e', q, b, t) =
        visit_all-Taken aborts intended (poll_one aborts parse r m) (take n inc)
          (λ x. omega (arith, s'.books x, split x)) in
      (
        m',
        q',
        out',
        n,
        rw (e, e') refl,
        le,
        some_seen,
        h',
        record { holds = rw q s'.holds; books = λ x. omega (arith, s'.books x, split x, b x) },
        λ c. t c ∙ settles c,
        grows,
        λ x. omega (arith, posts x, split x, b x),
      )

  on_inc_msg-Below :
      (m : Manager) (msg : IncMsg) → Below (on_inc_msg aborts m msg) (on_inc_msg never m msg)
  unfolding on_inc_msg on_res_start on_res_stop on_res_stats
  on_inc_msg-Below m (res_start_generation r) = enforce-Below aborts _ _ _ (inr refl)
  on_inc_msg-Below m (res_stop_generation r) = enforce-Below aborts _ _ _ (inr refl)
  on_inc_msg-Below m (res_stats_report r) = enforce-Below aborts _ _ _ (inr refl)
  on_inc_msg-Below m (generation_report r) = inr refl

  pub process_events-Below :
      (r : Option Request) (m : Manager) (q : Ring IncMsg)
      → Below (process_events aborts parse r m q) (process_events never parse r m q)
  unfolding process_events poll_one
  process_events-Below r m q = Below-bind _ _ _ _ (inr refl) (λ taken.
      Below-bind _ _ _ _
        (visit_all-Below (on_inc_msg aborts) (on_inc_msg never) on_inc_msg-Below
          (poll_one aborts parse r m) taken.0)
        (λ m'. inr refl))

-- With the assertion as the macro is written, the response to a start, a stop or a request for
-- stats aborts the program where its callback is kept, which is where it is waited for.
pub on_inc_msg-aborts :
    (aborts : Bool → Bool) (x : Exchange) (m : Manager) (msg : IncMsg)
    → IsWritten aborts
    → answers x msg ≡ 1
    → waiting x m ≡ 1
    → on_inc_msg aborts m msg ≡ none
unfolding on_inc_msg on_res_start on_res_stop on_res_stats
on_inc_msg-aborts aborts start m (res_start_generation r) written a w =
    let (cb, e) = kept_cb m.start_cb (omega arith) in rw (e, written true) refl
on_inc_msg-aborts aborts stop m (res_stop_generation r) written a w =
    let (cb, e) = kept_cb m.stop_cb (omega arith) in rw (e, written true) refl
on_inc_msg-aborts aborts stats m (res_stats_report r) written a w =
    let (cb, e) = kept_cb m.stats_cb (omega arith) in rw (e, written true) refl
on_inc_msg-aborts aborts _ m msg written a w = absurd (omega (arith, a))

module _ (aborts : Bool → Bool) (parse : String → String ⊎ GenConfig) where
  -- Whatever an assertion aborts at, a turn of the management, with whatever request, stops at an
  -- assertion whose condition holds, and only if such an assertion aborts, as it does with the
  -- macro as it is written; or it comes to its end. It takes a state in which no more requests and
  -- responses of an exchange are under way than callbacks wait for them, and that holds after it
  -- too. It takes a first part of the responses, of eight at most. The request's callback is
  -- answered or kept once more, and every other one as often as before, so that no callback is
  -- ever answered twice or dropped. The queue of requests has one more at the end or is as it was;
  -- a start in it has the configuration that the request's body is read as. The callbacks that
  -- wait grow and shrink with the requests and responses of their exchange under way.
  pub process_events-Sound :
      (r : Option Request) (m : Manager) (inc_queue : Ring IncMsg) (out : List OutMsg)
      (inc : List IncMsg)
      → Sound m out inc
      → Holds inc_capacity inc_queue inc
      → ((aborts true ≡ true) × (process_events aborts parse r m inc_queue ≡ none))
        ⊎ ((m' : Manager) × (inc_queue' : Ring IncMsg) × (out' : List OutMsg) × (n : ℕ)
            × (process_events aborts parse r m inc_queue ≡ some (m', inc_queue'))
            × (n ≤ 8)
            × (min 1 (length inc) ≤ n)
            × Holds inc_capacity inc_queue' (drop n inc)
            × Sound m' out' (drop n inc)
            × ((c : ℕ) → settled c m' ≡ settled c m + is_cb c (request_cb r))
            × Grows (Offers parse r) out out'
            × ((x : Exchange)
                → asked x out' + answered x (drop n inc) + waiting x m
                  ≡ asked x out + answered x inc + waiting x m'))
  process_events-Sound r m inc_queue out inc s h = elim (Bool-cases (aborts true)) [
    | inr passes ↦ inr (process_events-Passed aborts parse r m inc_queue out inc passes s h)
    | inl faulty ↦ elim (process_events-Below aborts parse r m inc_queue) [
      | inl e ↦ inl (faulty, e)
      | inr e ↦
          let (m', q', out', n, e', le, some_seen, h', s', settles, grows, books) =
            process_events-Passed never parse r m inc_queue out inc refl s h in
          inr (m', q', out', n, e ∙ e', le, some_seen, h', s', settles, grows, books)
    ]
  ]
