-- ===== src/Mgmt/Server.antt =====
-- mgmt/priv/http_server.cpp: the coroutines of the HTTP server. What the network does is an event,
-- the end of one of its operations. A connection is known by a number, which is also that of the
-- callback that `get_response` gives to the user's handler, and an error code is a text.
pub mod Sessions
use Prim.Native.String.{String}
use traffic_generator.Base.{
  ℕ, ◌+◌, ◌≡◌, Option, none, some, List, [], ◌∷◌, ◌⊎◌, inl, inr, ◌==◌, if◌then◌else◌, ◌>>=◌,
}
use traffic_generator.Mgmt.Manager.{Status, Body, Reply, Request}

-- What is read of a request, and the fields that are set of a response.
pub record HttpRequest : Type 0 where
  pub target : String
  pub body : String
  pub version : ℕ

pub record HttpResponse : Type 0 where
  pub status : Status
  pub version : ℕ
  pub content_type : String
  pub body : Body

-- Where the coroutine of a connection waits, if it has been started: for the request, for the
-- user's answer to it, or for the end of the write; and how it came to its end, without a response
-- or after one.
pub data Phase : Type 0 where
  unborn : Phase
  reading : Phase
  handling : (version : ℕ) → Phase
  writing : HttpResponse → Phase
  unanswered : Phase
  finished : Phase

-- The coroutines, the calls of the error handler and the responses whose writes have been started
-- with their connections, the newest first.
pub record Server : Type 0 where
  pub cnt_accepted : ℕ
  pub phase : ℕ → Phase
  pub errors : List (String × String)
  pub sends : List (ℕ × HttpResponse)

abbrev pub init : Server
init = record { cnt_accepted = 0; phase = λ c. unborn; errors = []; sends = [] }

-- The end of an `async_accept`, of an `async_read` and of an `async_write`.
pub data Completion : Type 0 where
  accepted : Option String → Completion
  received : ℕ → String ⊎ HttpRequest → Completion
  sent : ℕ → Option String → Completion

abbrev pub go_to : ℕ → Phase → Server → Server
go_to c p s = record s { phase = λ d. if c == d then p else s.phase d }

abbrev pub report : String → String → Server → Server
report info code s = record s { errors = (info, code) ∷ s.errors }

-- `accept_connections`, one round of its loop.
accept_connection : Option String → Server → Server
accept_connection none s =
    go_to s.cnt_accepted reading (record s { cnt_accepted = s.cnt_accepted + 1 })
accept_connection (some code) s = report "accept failed" code s

-- `process_request` up to the call of the user's handler.
receive_request : ℕ → String ⊎ HttpRequest → Server → Server
receive_request c (inl code) s = report "receive failed" code (go_to c unanswered s)
receive_request c (inr req) s = go_to c (handling req.version) s

-- `process_request` from the user's answer on, up to the start of the write.
abbrev pub make_response : ℕ → Reply → HttpResponse
make_response version r = record {
  status = r.status;
  version = version;
  content_type = "text/json";
  body = r.body;
}

-- A callback's call resumes the coroutine that waits for it. It is undefined where none does.
resume_with : Phase → Reply → Server → Option Server
resume_with (handling version) r s =
    let res = make_response version r in
    some (record (go_to r.cb (writing res) s) { sends = (r.cb, res) ∷ s.sends })
resume_with _ r s = none

pub resume : Reply → Server → Option Server
unfolding resume_with
resume r s = resume_with (s.phase r.cb) r s

-- The calls of a turn, of which the newest is the first.
pub resume_all : List Reply → Server → Option Server
unfolding resume
resume_all [] s = some s
resume_all (r ∷ rs) s = do s' ← resume_all rs s; resume r s'

-- `process_request` after the write.
finish_request : ℕ → Option String → Server → Server
finish_request c none s = go_to c finished s
finish_request c (some code) s = report "send failed" code (go_to c finished s)

-- What `poll_one` runs in the server for the end of an operation, or for none.
unfoldable pub react : Option Completion → Server → Server
unfolding accept_connection receive_request finish_request
react none s = s
react (some (accepted e)) s = accept_connection e s
react (some (received c r)) s = receive_request c r s
react (some (sent c e)) s = finish_request c e s

-- The call of the user's handler by `get_response`.
abbrev pub requested : Option Completion → Option Request
requested (some (received c (inr req))) =
    some (record { target = req.target; body = req.body; cb = c })
requested _ = none
