-- ===== src/Mgmt/Manager.antt =====
-- mgmt/manager.cpp: the management's state, its HTTP requests and the generation's responses.
-- A callback that answers a request is known by a number, and an answer by what it says; the
-- configuration in a request's body is read by a function that may fail with a text.
pub mod Ledger
pub mod Safe
pub mod Text
use Prim.Native.String.{String}
use text.Mathlib.Text.{◌==◌ as str_eq}
use traffic_generator.Base.{
  ℕ, Bool, true, false, Option, none, some, List, [], ◌∷◌, ◌++◌, ◌⊎◌, inl, inr, if◌then◌else◌,
  ◌>>=◌,
}
use traffic_generator.Put.Ring.{Ring}
use traffic_generator.Put.Assert.{enforce}
use traffic_generator.Mgmt.Config.{GenConfig}
use traffic_generator.Mgmt.Messages.{
  OutMsg, IncMsg, Stats, SummaryStats, req_start_generation, req_stop_generation, req_stats_report,
  res_start_generation, res_stop_generation, res_stats_report, generation_report, out_capacity,
  inc_capacity,
}
use traffic_generator.Mgmt.Queue.{enqueue, take_batch, visit_all}

pub data Status : Type 0 where
  http_ok not_found precondition_failed bad_request internal_server_error : Status

-- What a response's body says.
pub data Body : Type 0 where
  invalid_target : String → Body
  in_progress : Body
  enqueue_failed : Body
  invalid_config : String → Body
  generation_started : Body
  start_failed : String → Body
  summary_body : SummaryStats → Body
  stats_body : Stats → Body

pub record Reply : Type 0 where
  pub cb : ℕ
  pub status : Status
  pub body : Body

-- The members of `manager_impl`, with the answers given so far, the newest first.
pub record Manager : Type 0 where
  pub out_queue : Ring OutMsg
  pub start_cb : Option ℕ
  pub stop_cb : Option ℕ
  pub stats_cb : Option ℕ
  pub replies : List Reply

abbrev pub reply : Manager → ℕ → Status → Body → Manager
reply m cb status body = record m {
  replies = record { cb = cb; status = status; body = body } ∷ m.replies;
}

-- The part of a request's handler that enqueues it, `keep` being the store of the callback.
pub enqueue_req : (Manager → Manager) → OutMsg → ℕ → Manager → Manager
enqueue_req keep req cb m =
    let (done, q) = enqueue out_capacity m.out_queue req in
    let m' = record m { out_queue = q } in
    if done then keep m' else reply m' cb internal_server_error enqueue_failed

pub on_req_stop_gen : ℕ → Manager → Manager
unfolding enqueue_req
on_req_stop_gen cb m = elim m.stop_cb [
  | some _ ↦ reply m cb precondition_failed in_progress
  | none ↦ enqueue_req (λ m'. record m' { stop_cb = some cb }) req_stop_generation cb m
]

pub on_req_get_stats : ℕ → Manager → Manager
unfolding enqueue_req
on_req_get_stats cb m = elim m.stats_cb [
  | some _ ↦ reply m cb precondition_failed in_progress
  | none ↦ enqueue_req (λ m'. record m' { stats_cb = some cb }) req_stats_report cb m
]

module _ (parse : String → String ⊎ GenConfig) where
  pub start_with : String ⊎ GenConfig → ℕ → Manager → Manager
  unfolding enqueue_req
  start_with (inl what) cb m = reply m cb bad_request (invalid_config what)
  start_with (inr cfg) cb m =
      enqueue_req (λ m'. record m' { start_cb = some cb }) (req_start_generation cfg) cb m

  pub on_req_start_gen : String → ℕ → Manager → Manager
  unfolding start_with
  on_req_start_gen req cb m = elim m.start_cb [
    | some _ ↦ reply m cb precondition_failed in_progress
    | none ↦ start_with (parse req) cb m
  ]

  -- `on_http_request`, with the table of `init_req_handlers`.
  pub on_http_request : String → String → ℕ → Manager → Manager
  unfolding on_req_start_gen on_req_stop_gen on_req_get_stats
  on_http_request target req_body cb m =
      if str_eq target "/start_gen"
      then on_req_start_gen req_body cb m
      else if str_eq target "/stop_gen"
      then on_req_stop_gen cb m
      else if str_eq target "/get_stats"
      then on_req_get_stats cb m
      else reply m cb not_found (invalid_target target)

abbrev is_some : {A : Type 0} → Option A → Bool
is_some none = false
is_some (some a) = true

-- The handlers of the generation's messages, with what `TG_ENFORCE` aborts at. A call of a callback
-- that is not set is undefined.
module _ (aborts : Bool → Bool) where
  abbrev respond : Option ℕ → (Manager → Manager) → (Status × Body) → Manager → Option Manager
  respond cb reset (status, body) m =
      enforce aborts (is_some cb)
        (elim cb [ none ↦ none | some c ↦ some (reset (reply m c status body)) ])

  pub on_res_start : Option String → Manager → Option Manager
  on_res_start res m =
      respond m.start_cb (λ m'. record m' { start_cb = none })
        (elim res [
          | none ↦ (http_ok, generation_started)
          | some what ↦ (precondition_failed, start_failed what)
        ])
        m

  pub on_res_stop : SummaryStats → Manager → Option Manager
  on_res_stop res m =
      respond m.stop_cb (λ m'. record m' { stop_cb = none }) (http_ok, summary_body res) m

  pub on_res_stats : Stats → Manager → Option Manager
  on_res_stats res m =
      respond m.stats_cb (λ m'. record m' { stats_cb = none }) (http_ok, stats_body res) m

  -- `on_inc_msg`; a generation report is thrown away.
  pub on_inc_msg : Manager → IncMsg → Option Manager
  unfolding on_res_start on_res_stop on_res_stats
  on_inc_msg m (res_start_generation res) = on_res_start res m
  on_inc_msg m (res_stop_generation res) = on_res_stop res m
  on_inc_msg m (res_stats_report res) = on_res_stats res m
  on_inc_msg m (generation_report r) = some m

-- An HTTP request: its target, its body and its callback.
pub record Request : Type 0 where
  pub target : String
  pub body : String
  pub cb : ℕ

module _ (aborts : Bool → Bool) (parse : String → String ⊎ GenConfig) where
  -- `io_ctx_.poll_one()`: at most one request.
  pub poll_one : Option Request → Manager → Manager
  unfolding on_http_request
  poll_one none m = m
  poll_one (some r) m = on_http_request parse r.target r.body r.cb m

  -- `process_events`, on the queue of incoming messages.
  pub process_events : Option Request → Manager → Ring IncMsg → Option (Manager × Ring IncMsg)
  unfolding poll_one on_inc_msg
  process_events request m inc_queue = do
    (msgs, inc_queue') ← take_batch inc_capacity inc_queue
    m' ← visit_all (on_inc_msg aborts) (poll_one request m) msgs
    some (m', inc_queue')
