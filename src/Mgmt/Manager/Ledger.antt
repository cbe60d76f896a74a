-- ===== src/Mgmt/Manager/Ledger.antt =====
-- What the management owes: the callbacks that it keeps, the responses it waits for, and that
-- every request is answered once or kept.
use Prim.Native.String.{String}
use text.Mathlib.Text.{◌==◌ as str_eq}
use traffic_generator.Base.{
  ℕ, ◌+◌, ◌≡◌, refl, sym, ap, Bool-cases, Option, none, some, Option-cases, List, [], ◌∷◌, ◌++◌,
  ◌==◌, if◌then◌else◌, ◌⊎◌, inl, inr, arith,
}
use mathlib.Core.Path.{subst}
use traffic_generator.Put.Ring.{Ring}
use traffic_generator.Put.Ring.Holds.{Holds}
use traffic_generator.Mgmt.Config.{GenConfig}
use traffic_generator.Mgmt.Messages.{
  OutMsg, req_start_generation, req_stop_generation, req_stats_report, out_capacity,
}
use traffic_generator.Mgmt.Queue.{out_pow2, enqueue, enqueue_lem}
use traffic_generator.Mgmt.Protocol.{Exchange, start, stop, stats, asks, asked, asked-append}
use traffic_generator.Mgmt.Manager.{
  Manager, Reply, reply, Status, Body, enqueue_req, on_req_stop_gen, on_req_get_stats, start_with,
  on_req_start_gen, on_http_request, enqueue_failed, internal_server_error, precondition_failed,
  in_progress, bad_request, invalid_config, not_found, invalid_target,
}

abbrev pub cb_of : Exchange → Manager → Option ℕ
cb_of start m = m.start_cb
cb_of stop m = m.stop_cb
cb_of stats m = m.stats_cb

abbrev pub keep_cb : Exchange → ℕ → Manager → Manager
keep_cb start cb m = record m { start_cb = some cb }
keep_cb stop cb m = record m { stop_cb = some cb }
keep_cb stats cb m = record m { stats_cb = some cb }

abbrev pub waits : Option ℕ → ℕ
waits none = 0
waits (some cb) = 1

-- How many responses the management is ready to take.
abbrev pub waiting : Exchange → Manager → ℕ
waiting x m = waits (cb_of x m)

abbrev pub is_cb : ℕ → Option ℕ → ℕ
is_cb c none = 0
is_cb c (some cb) = if cb == c then 1 else 0

abbrev pub replied : ℕ → List Reply → ℕ
replied c [] = 0
replied c (r ∷ rs) = is_cb c (some r.cb) + replied c rs

-- How often a callback has been answered or is kept to be answered.
abbrev pub settled : ℕ → Manager → ℕ
settled c m = replied c m.replies + (is_cb c m.start_cb + (is_cb c m.stop_cb + is_cb c m.stats_cb))

-- The messages of a queue are those of another, or those and one of some kind after them.
abbrev pub Grows : (OutMsg → Type 0) → List OutMsg → List OutMsg → Type 0
Grows may out out' = (out' ≡ out) ⊎ ((msg : OutMsg) × (out' ≡ out ++ (msg ∷ [])) × may msg)

-- The message that an HTTP request of some body may put in the queue: one that starts a
-- generation has the configuration that the body is read as.
pub data Posts (parse : String → String ⊎ GenConfig) (body : String) : OutMsg → Type 0 where
  posts_start :
      (cfg : GenConfig) → parse body ≡ inr cfg → Posts parse body (req_start_generation cfg)
  posts_stop : Posts parse body req_stop_generation
  posts_stats : Posts parse body req_stats_report

-- After a request with callback `cb`: as many callbacks more are kept as requests are enqueued,
-- and `cb` is answered or kept once more, every other callback as before.
pub record Posted (may : OutMsg → Type 0) (m : Manager) (out : List OutMsg) (cb : ℕ) (m' : Manager)
    : Type 0 where
  pub out' : List OutMsg
  pub holds : Holds out_capacity m'.out_queue out'
  pub books : (x : Exchange) → asked x out' + waiting x m ≡ asked x out + waiting x m'
  pub settles : (c : ℕ) → settled c m' ≡ settled c m + is_cb c (some cb)
  pub grows : Grows may out out'

same-waiting :
    (x : Exchange) (m : Manager) (q : Ring OutMsg) (rs : List Reply)
    → waiting x (record m { out_queue = q; replies = rs }) ≡ waiting x m
same-waiting start m q rs = refl
same-waiting stop m q rs = refl
same-waiting stats m q rs = refl

reply-Posted :
    (may : OutMsg → Type 0) (m : Manager) (out : List OutMsg) (q : Ring OutMsg) (cb : ℕ)
    (status : Status) (body : Body)
    → Holds out_capacity q out
    → Posted may m out cb (reply (record m { out_queue = q }) cb status body)
reply-Posted may m out q cb status body h = record {
  out' = out;
  holds = h;
  books = λ x.
      omega
        (arith, same-waiting x m q (record { cb = cb; status = status; body = body } ∷ m.replies));
  settles = λ c. omega arith;
  grows = inl refl;
}

-- The request of each exchange.
data IsReq : Exchange → OutMsg → Type 0 where
  is_start : {cfg : GenConfig} → IsReq start (req_start_generation cfg)
  is_stop : IsReq stop req_stop_generation
  is_stats : IsReq stats req_stats_report

kept-waiting :
    (x y : Exchange) (req : OutMsg) (cb : ℕ) (m : Manager) (q : Ring OutMsg)
    → IsReq x req
    → cb_of x m ≡ none
    → asks y req + waiting y m ≡ waiting y (keep_cb x cb (record m { out_queue = q }))
kept-waiting _ start _ cb m q is_start e = omega (arith, ap waits e)
kept-waiting _ stop _ cb m q is_start e = omega (arith, ap waits e)
kept-waiting _ stats _ cb m q is_start e = omega (arith, ap waits e)
kept-waiting _ start _ cb m q is_stop e = omega (arith, ap waits e)
kept-waiting _ stop _ cb m q is_stop e = omega (arith, ap waits e)
kept-waiting _ stats _ cb m q is_stop e = omega (arith, ap waits e)
kept-waiting _ start _ cb m q is_stats e = omega (arith, ap waits e)
kept-waiting _ stop _ cb m q is_stats e = omega (arith, ap waits e)
kept-waiting _ stats _ cb m q is_stats e = omega (arith, ap waits e)

kept-settled :
    (x : Exchange) (c cb : ℕ) (m : Manager) (q : Ring OutMsg)
    → cb_of x m ≡ none
    → settled c (keep_cb x cb (record m { out_queue = q })) ≡ settled c m + is_cb c (some cb)
kept-settled start c cb m q e = omega (arith, ap (is_cb c) e)
kept-settled stop c cb m q e = omega (arith, ap (is_cb c) e)
kept-settled stats c cb m q e = omega (arith, ap (is_cb c) e)

keep_queue : (x : Exchange) (cb : ℕ) (m : Manager) → (keep_cb x cb m).out_queue ≡ m.out_queue
keep_queue start cb m = refl
keep_queue stop cb m = refl
keep_queue stats cb m = refl

enqueue_req-Posted :
    (may : OutMsg → Type 0) (x : Exchange) (req : OutMsg) (cb : ℕ) (m : Manager) (out : List OutMsg)
    → IsReq x req
    → may req
    → cb_of x m ≡ none
    → Holds out_capacity m.out_queue out
    → Posted may m out cb (enqueue_req (keep_cb x cb) req cb m)
unfolding enqueue_req
enqueue_req-Posted may x req cb m out r offered e h =
    let q = (enqueue out_capacity m.out_queue req).1 in
    elim (enqueue_lem out_pow2 m.out_queue out req h) [
      | inl (full, failed, h') ↦
          rw failed (reply-Posted may m out q cb internal_server_error enqueue_failed h')
      | inr (room, done, h') ↦ rw done (record {
        out' = out ++ (req ∷ []);
        holds = rw (keep_queue x cb (record m { out_queue = q })) h';
        books = λ y. omega (arith, asked-append y out (req ∷ []), kept-waiting x y req cb m q r e);
        settles = λ c. kept-settled x c cb m q e;
        grows = inr (req, refl, offered);
      })
    ]

module _ (parse : String → String ⊎ GenConfig) where
  on_req_stop_gen-Posted :
      (body : String) (cb : ℕ) (m : Manager) (out : List OutMsg)
      → Holds out_capacity m.out_queue out
      → Posted (Posts parse body) m out cb (on_req_stop_gen cb m)
  unfolding on_req_stop_gen
  on_req_stop_gen-Posted body cb m out h = elim (Option-cases m.stop_cb) [
    | inl e ↦
        let same : on_req_stop_gen cb m ≡ enqueue_req (keep_cb stop cb) req_stop_generation cb m =
          rw e refl in
        subst (Posted (Posts parse body) m out cb) (sym same) (
          enqueue_req-Posted (Posts parse body) stop req_stop_generation cb m out is_stop posts_stop
            e h)
    | inr (c, e) ↦
        let same : on_req_stop_gen cb m ≡ reply m cb precondition_failed in_progress = rw e refl in
        subst (Posted (Posts parse body) m out cb) (sym same)
          (reply-Posted (Posts parse body) m out m.out_queue cb precondition_failed in_progress h)
  ]

  on_req_get_stats-Posted :
      (body : String) (cb : ℕ) (m : Manager) (out : List OutMsg)
      → Holds out_capacity m.out_queue out
      → Posted (Posts parse body) m out cb (on_req_get_stats cb m)
  unfolding on_req_get_stats
  on_req_get_stats-Posted body cb m out h = elim (Option-cases m.stats_cb) [
    | inl e ↦
        let same : on_req_get_stats cb m ≡ enqueue_req (keep_cb stats cb) req_stats_report cb m =
          rw e refl in
        subst (Posted (Posts parse body) m out cb) (sym same) (
          enqueue_req-Posted (Posts parse body) stats req_stats_report cb m out is_stats posts_stats
            e h)
    | inr (c, e) ↦
        let same : on_req_get_stats cb m ≡ reply m cb precondition_failed in_progress = rw e refl in
        subst (Posted (Posts parse body) m out cb) (sym same)
          (reply-Posted (Posts parse body) m out m.out_queue cb precondition_failed in_progress h)
  ]

  start_with-Posted :
      (body : String) (read : String ⊎ GenConfig) (cb : ℕ) (m : Manager) (out : List OutMsg)
      → parse body ≡ read
      → m.start_cb ≡ none
      → Holds out_capacity m.out_queue out
      → Posted (Posts parse body) m out cb (start_with parse read cb m)
  unfolding start_with
  start_with-Posted body (inl what) cb m out from e h =
      reply-Posted (Posts parse body) m out m.out_queue cb bad_request (invalid_config what) h
  start_with-Posted body (inr cfg) cb m out from e h =
      enqueue_req-Posted (Posts parse body) start (req_start_generation cfg) cb m out is_start
        (posts_start cfg from) e h

  on_req_start_gen-Posted :
      (body : String) (cb : ℕ) (m : Manager) (out : List OutMsg)
      → Holds out_capacity m.out_queue out
      → Posted (Posts parse body) m out cb (on_req_start_gen parse body cb m)
  unfolding on_req_start_gen
  on_req_start_gen-Posted body cb m out h = elim (Option-cases m.start_cb) [
    | inl e ↦
        let same : on_req_start_gen parse body cb m ≡ start_with parse (parse body) cb m =
          rw e refl in
        subst (Posted (Posts parse body) m out cb) (sym same)
          (start_with-Posted body (parse body) cb m out refl e h)
    | inr (c, e) ↦
        let same : on_req_start_gen parse body cb m ≡ reply m cb precondition_failed in_progress =
          rw e refl in
        subst (Posted (Posts parse body) m out cb) (sym same)
          (reply-Posted (Posts parse body) m out m.out_queue cb precondition_failed in_progress h)
  ]

  -- An HTTP request, whatever its target and its body, is either answered at once or its callback
  -- kept, never both and never neither, and no other callback is touched. A callback more is kept
  -- exactly when a request of that exchange is put in the queue to the generation, at its end.
  pub on_http_request-Posted :
      (target body : String) (cb : ℕ) (m : Manager) (out : List OutMsg)
      → Holds out_capacity m.out_queue out
      → Posted (Posts parse body) m out cb (on_http_request parse target body cb m)
  unfolding on_http_request
  on_http_request-Posted target body cb m out h = elim (Bool-cases (str_eq target "/start_gen")) [
    | inl e ↦ rw e (on_req_start_gen-Posted body cb m out h)
    | inr e ↦ rw e (elim (Bool-cases (str_eq target "/stop_gen")) [
      | inl e' ↦ rw e' (on_req_stop_gen-Posted body cb m out h)
      | inr e' ↦ rw e' (elim (Bool-cases (str_eq target "/get_stats")) [
        | inl e'' ↦ rw e'' (on_req_get_stats-Posted body cb m out h)
        | inr e'' ↦ rw e'' (
            reply-Posted (Posts parse body) m out m.out_queue cb not_found (invalid_target target)
              h)
      ])
    ])
  ]
