-- ===== src/Mgmt/Server/Sessions.antt =====
-- mgmt/priv/http_server.cpp: what a round of each coroutine does to the connections.
use Prim.Native.String.{String}
use traffic_generator.Base.{
  ℕ, ◌+◌, ◌≤◌, ◌<◌, ◌≡◌, refl, ap, ◌∙◌, sym, Option, none, some, List, [], ◌∷◌, ◌++◌, inl, inr,
  ◌==◌, if◌then◌else◌, Bool-cases, ==_iff, ◌≢◌, arith,
}
use native.Mathlib.Decide.{dec_lt}
use traffic_generator.Mgmt.Manager.{Reply}
use traffic_generator.Mgmt.Manager.Ledger.{is_cb, replied}
use traffic_generator.Mgmt.Manager.Safe.{request_cb}
use traffic_generator.Mgmt.Server.{
  Server, Phase, unborn, reading, handling, writing, unanswered, finished, Completion, accepted,
  received, sent, HttpResponse, go_to, report, resume_with, resume, resume_all, make_response,
  react, requested,
}

-- How many callbacks are out for a connection, and how many responses it has been sent.
abbrev pub handles : Phase → ℕ
handles (handling v) = 1
handles _ = 0

abbrev pub responded : Phase → ℕ
responded (writing r) = 1
responded finished = 1
responded _ = 0

-- The responses, as the answers that the user gave.
abbrev pub told : List (ℕ × HttpResponse) → List Reply
told [] = []
told ((c, res) ∷ rest) = record { cb = c; status = res.status; body = res.body } ∷ told rest

-- The end of an operation that a coroutine waits for.
abbrev pub IsDue : Server → Option Completion → Type 0
IsDue s none = Unit
IsDue s (some (accepted e)) = Unit
IsDue s (some (received c r)) = s.phase c ≡ reading
IsDue s (some (sent c e)) = (res : HttpResponse) × (s.phase c ≡ writing res)

-- Each connection has been sent a response exactly when its coroutine is past the start of the
-- write, and none of those not accepted has a coroutine.
pub record Tidy (s : Server) : Type 0 where
  pub sent_once : (c : ℕ) → replied c (told s.sends) ≡ responded (s.phase c)
  pub fresh : (c : ℕ) → s.cnt_accepted ≤ c → s.phase c ≡ unborn

-- A number read of a phase, after the coroutine of one connection has moved.
module _ (f : Phase → ℕ) (phase : ℕ → Phase) (c : ℕ) (p : Phase) where
  same_after : f p ≡ f (phase c) → (d : ℕ) → f (if c == d then p else phase d) ≡ f (phase d)
  same_after e d = elim (Bool-cases (c == d)) [
    | inl h ↦ rw h (e ∙ ap (λ x. f (phase x)) ((==_iff c d).0 h))
    | inr h ↦ rw h refl
  ]

  more_after :
      (k : ℕ)
      → f p ≡ f (phase c) + k
      → (d : ℕ) → f (if c == d then p else phase d) ≡ f (phase d) + (if c == d then k else 0)
  more_after k e d = elim (Bool-cases (c == d)) [
    | inl h ↦ rw h (e ∙ ap (λ x. f (phase x) + k) ((==_iff c d).0 h))
    | inr h ↦ rw h (omega arith)
  ]

  less_after :
      (k : ℕ)
      → f p + k ≡ f (phase c)
      → (d : ℕ) → f (if c == d then p else phase d) + (if c == d then k else 0) ≡ f (phase d)
  less_after k e d = elim (Bool-cases (c == d)) [
    | inl h ↦ rw h (e ∙ ap (λ x. f (phase x)) ((==_iff c d).0 h))
    | inr h ↦ rw h (omega arith)
  ]

fresh_after :
    (phase : ℕ → Phase) (c n : ℕ) (p : Phase)
    → c < n
    → ((d : ℕ) → n ≤ d → phase d ≡ unborn)
    → (d : ℕ) → n ≤ d
    → (if c == d then p else phase d) ≡ unborn
fresh_after phase c n p lt h d le = elim (Bool-cases (c == d)) [
  | inl e ↦ absurd (omega (arith, (==_iff c d).0 e))
  | inr e ↦ rw e (h d le)
]

-- A connection whose coroutine waits has been accepted.
accepted_lt :
    (s : Server) (c : ℕ)
    → ((d : ℕ) → s.cnt_accepted ≤ d → s.phase d ≡ unborn)
    → s.phase c ≢ unborn
    → c < s.cnt_accepted
accepted_lt s c h ne = elim (dec_lt c s.cnt_accepted) [
  | yes lt ↦ lt
  | no ge ↦ absurd (ne (h c (omega arith)))
]

moved-Tidy :
    (s : Server) (c : ℕ) (p : Phase)
    → Tidy s
    → responded p ≡ responded (s.phase c)
    → s.phase c ≢ unborn
    → Tidy (go_to c p s)
moved-Tidy s c p t e ne = record {
  sent_once = λ d. t.sent_once d ∙ sym (same_after responded s.phase c p e d);
  fresh = fresh_after s.phase c s.cnt_accepted p (accepted_lt s c t.fresh ne) t.fresh;
}

reported-Tidy : (s : Server) (info code : String) → Tidy s → Tidy (report info code s)
reported-Tidy s info code t = record { sent_once = t.sent_once; fresh = t.fresh }

-- After the end of an operation: one callback more is out exactly for the connection whose request
-- is given to the user's handler.
pub record Reacted (ev : Option Completion) (s s' : Server) : Type 0 where
  pub tidy : Tidy s'
  pub asks :
      (c : ℕ) → handles (s'.phase c) ≡ handles (s.phase c) + is_cb c (request_cb (requested ev))
  pub silent : s'.sends ≡ s.sends

finish-Reacted :
    (c : ℕ) (e : Option String) (res : HttpResponse) (s : Server)
    → Tidy s
    → s.phase c ≡ writing res
    → Reacted (some (sent c e)) s (go_to c finished s)
finish-Reacted c e res s t d = record {
  tidy = moved-Tidy s c finished t (rw d refl) (λ u. cc);
  asks = λ x. same_after handles s.phase c finished (rw d refl) x ∙ omega arith;
  silent = refl;
}

pub react-Reacted :
    (ev : Option Completion) (s : Server) → Tidy s → IsDue s ev → Reacted ev s (react ev s)
unfolding react
react-Reacted none s t d = record { tidy = t; asks = λ c. omega arith; silent = refl }
react-Reacted (some (accepted none)) s t d = record {
  tidy = record {
    sent_once = λ c.
        t.sent_once c
        ∙ sym (
            same_after responded s.phase s.cnt_accepted reading
              (rw (t.fresh s.cnt_accepted (omega arith)) refl) c);
    fresh =
        fresh_after s.phase s.cnt_accepted (s.cnt_accepted + 1) reading (omega arith)
          (λ c h. t.fresh c (omega arith));
  };
  asks = λ c.
      same_after handles s.phase s.cnt_accepted reading
        (rw (t.fresh s.cnt_accepted (omega arith)) refl) c
      ∙ omega arith;
  silent = refl;
}
react-Reacted (some (accepted (some e))) s t d = record {
  tidy = reported-Tidy s "accept failed" e t;
  asks = λ c. omega arith;
  silent = refl;
}
react-Reacted (some (received c (inl e))) s t d = record {
  tidy = reported-Tidy _ "receive failed" e (moved-Tidy s c unanswered t (rw d refl) (λ u. cc));
  asks = λ x. same_after handles s.phase c unanswered (rw d refl) x ∙ omega arith;
  silent = refl;
}
react-Reacted (some (received c (inr req))) s t d = record {
  tidy = moved-Tidy s c (handling req.version) t (rw d refl) (λ u. cc);
  asks = more_after handles s.phase c (handling req.version) 1 (rw d refl);
  silent = refl;
}
react-Reacted (some (sent c none)) s t (res, d) = finish-Reacted c none res s t d
react-Reacted (some (sent c (some e))) s t (res, d) =
    let r = finish-Reacted c (some e) res s t d in
    record { tidy = reported-Tidy _ "send failed" e r.tidy; asks = r.asks; silent = r.silent }

-- After the calls of callbacks: each has resumed the coroutine that waited for it, which has
-- started the write of the answer, with its status and its body.
pub record Resumed (rs : List Reply) (s s' : Server) : Type 0 where
  pub tidy : Tidy s'
  pub takes : (c : ℕ) → handles (s'.phase c) + replied c rs ≡ handles (s.phase c)
  pub answers : told s'.sends ≡ rs ++ told s.sends
  pub others : (c : ℕ) → handles (s.phase c) ≡ 0 → s'.phase c ≡ s.phase c

handling_of : (p : Phase) → 1 ≤ handles p → (v : ℕ) × (p ≡ handling v)
handling_of (handling v) h = (v, refl)
handling_of unborn h = absurd (omega arith)
handling_of reading h = absurd (omega arith)
handling_of (writing r) h = absurd (omega arith)
handling_of unanswered h = absurd (omega arith)
handling_of finished h = absurd (omega arith)

others_after :
    (phase : ℕ → Phase) (c : ℕ) (p : Phase)
    → 1 ≤ handles (phase c)
    → (d : ℕ) → handles (phase d) ≡ 0
    → (if c == d then p else phase d) ≡ phase d
others_after phase c p h d z = elim (Bool-cases (c == d)) [
  | inl e ↦ absurd (omega (arith, ap (λ x. handles (phase x)) ((==_iff c d).0 e)))
  | inr e ↦ rw e refl
]

pub resume-Resumed :
    (r : Reply) (s : Server)
    → Tidy s
    → 1 ≤ handles (s.phase r.cb)
    → (s' : Server) × (resume r s ≡ some s') × Resumed (r ∷ []) s s'
unfolding resume resume_with
resume-Resumed r s t h =
    let (v, e) = handling_of (s.phase r.cb) h in
    let res = make_response v r in
    let s' = record (go_to r.cb (writing res) s) { sends = (r.cb, res) ∷ s.sends } in
    (
      s',
      rw e refl,
      record {
        tidy = record {
          sent_once = λ c.
              let before = t.sent_once c in
              let after = more_after responded s.phase r.cb (writing res) 1 (rw e refl) c in
              omega arith;
          fresh =
              fresh_after s.phase r.cb s.cnt_accepted (writing res)
                (accepted_lt s r.cb t.fresh (λ u. cc)) t.fresh;
        };
        takes = λ c.
            let after = less_after handles s.phase r.cb (writing res) 1 (rw e refl) c in
            omega arith;
        answers = refl;
        others = others_after s.phase r.cb (writing res) h;
      },
    )

pub resume_all-Resumed :
    (rs : List Reply) (s : Server)
    → Tidy s
    → ((c : ℕ) → replied c rs ≤ handles (s.phase c))
    → (s' : Server) × (resume_all rs s ≡ some s') × Resumed rs s s'
unfolding resume_all
resume_all-Resumed [] s t h =
    (s, refl, record { tidy = t; takes = λ c. omega arith; answers = refl; others = λ c z. refl })
resume_all-Resumed (r ∷ rs) s t h =
    let (s', e, a) = resume_all-Resumed rs s t (λ c. omega (arith, h c)) in
    let out : 1 ≤ handles (s'.phase r.cb) = omega (arith, h r.cb, a.takes r.cb, own_cb r.cb) in
    let (s'', e', b) = resume-Resumed r s' a.tidy out in
    (
      s'',
      rw (e, resume_all) e',
      record {
        tidy = b.tidy;
        takes = λ c. omega (arith, a.takes c, b.takes c);
        answers = b.answers ∙ ap (λ x. r ∷ x) a.answers;
        others = λ c z. b.others c (omega (arith, a.takes c)) ∙ a.others c z;
      },
    )
  where
    own_cb : (c : ℕ) → is_cb c (some c) ≡ 1
    own_cb c = ground arith
