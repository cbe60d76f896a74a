-- ===== src/System/Http/Served.antt =====
-- app/application.cpp with mgmt/priv/http_server.cpp: every connection's request is answered once.
use Prim.Native.String.{String}
use traffic_generator.Base.{
  ℕ, zero, suc, ◌+◌, ◌≤◌, ◌≡◌, refl, ap, ◌∙◌, sym, Option, none, some, ◌++◌, ◌⊎◌, inl, inr, ◌==◌,
  Bool-cases, ==_iff, arith,
}
use mathlib.Core.Option.{some-injective}
use mathlib.Core.Path.{subst}
use traffic_generator.Gen.Manager.{Platform}
use traffic_generator.Gen.Manager.Start.{Works}
use traffic_generator.Mgmt.Config.{GenConfig, Net}
use traffic_generator.Gen.Rotation.{Range}
use traffic_generator.Mgmt.Protocol.{Exchange, start, stop, stats}
use traffic_generator.Mgmt.Manager as Mgmt
use traffic_generator.Mgmt.Manager.Ledger.{is_cb, waiting}
use traffic_generator.Mgmt.Manager.Safe.{request_cb}
use traffic_generator.Mgmt.Server.{Phase, requested, react}
use traffic_generator.Mgmt.Server.Sessions.{
  handles, told, IsDue, Tidy, react-Reacted, resume_all-Resumed,
}
use traffic_generator.System.{System}
use traffic_generator.System.Run.{Sane, TurnStartable, brings, turn-Sane, start_system-Sane}
use traffic_generator.System.Http.{
  App, start_app, Event, serves, generates, elapses, turn_of, completion, no_calls, app_turn, Reach,
  started, after,
}

-- How often the management keeps a callback.
abbrev pub kept : ℕ → Mgmt.Manager → ℕ
kept c m = is_cb c m.start_cb + (is_cb c m.stop_cb + is_cb c m.stats_cb)

brings_of :
    {E : Type 0} (c : ℕ) (ev : Event E)
    → brings c (turn_of ev) ≡ is_cb c (request_cb (requested (completion ev)))
brings_of c (serves ev) = refl
brings_of c generates = refl
brings_of c (elapses f) = refl

waiting-no_calls :
    {E : Type 0} (x : Exchange) (s : System E) → waiting x (no_calls s).mgmt ≡ waiting x s.mgmt
waiting-no_calls start s = refl
waiting-no_calls stop s = refl
waiting-no_calls stats s = refl

-- How many of the first connections wait for the user's answer.
abbrev pub cnt_handled : ℕ → (ℕ → Phase) → ℕ
cnt_handled zero phase = 0
cnt_handled (suc n) phase = cnt_handled n phase + handles (phase n)

-- How many of the first connections a callback is kept for.
pub cnt_kept : ℕ → Option ℕ → ℕ
cnt_kept zero o = 0
cnt_kept (suc n) o = cnt_kept n o + is_cb n o

cnt_kept-none : (n : ℕ) → cnt_kept n none ≡ 0
unfolding cnt_kept
cnt_kept-none zero = refl
cnt_kept-none (suc n) = omega (arith, cnt_kept-none n)

cnt_kept-some : (n c : ℕ) → (cnt_kept n (some c) ≤ 1) × (n ≤ c → cnt_kept n (some c) ≡ 0)
unfolding cnt_kept
cnt_kept-some zero c = (omega arith, λ h. refl)
cnt_kept-some (suc n) c =
    let (le, none_yet) = cnt_kept-some n c in
    elim (Bool-cases (c == n)) [
      | inl e ↦ (
        rw e (omega (arith, none_yet (omega (arith, (==_iff c n).0 e)))),
        λ h. absurd (omega (arith, (==_iff c n).0 e)),
      )
      | inr e ↦ (rw e (omega arith), λ h. rw e (omega (arith, none_yet (omega arith))))
    ]

pub cnt_kept_le : (n : ℕ) (o : Option ℕ) → cnt_kept n o ≤ 1
cnt_kept_le n none = omega (arith, cnt_kept-none n)
cnt_kept_le n (some c) = (cnt_kept-some n c).0

module _ {E : Type 0} (hosts : Net → Range) where
  -- The two managers are in order. A callback is kept exactly once for every connection whose
  -- coroutine waits for the user's answer, and for no other. A connection has been sent one response
  -- if its coroutine is past that, and none otherwise.
  pub record Tied (a : App E) : Type 0 where
    pub sane : Sane hosts a.system
    pub tidy : Tidy a.server
    pub callbacks : (c : ℕ) → kept c a.system.mgmt ≡ handles (a.server.phase c)

  no_calls-Sane : (s : System E) → Sane hosts s → Sane hosts (no_calls s)
  no_calls-Sane s g = record {
    out = g.out;
    inc = g.inc;
    sound = record {
      holds = g.sound.holds;
      books = λ x. omega (arith, waiting-no_calls x s, g.sound.books x);
    };
    holds = g.holds;
    serves = g.serves;
    orderly = g.orderly;
    sent = g.sent;
  }

  start_app-Tied : (env : E) → Tied (start_app env)
  start_app-Tied env = record {
    sane = start_system-Sane hosts env;
    tidy = record { sent_once = λ c. refl; fresh = λ c h. refl };
    callbacks = λ c. refl;
  }

  pub cnt_handled-kept :
      (n : ℕ) (a : App E)
      → Tied a
      → cnt_handled n a.server.phase
        ≡ cnt_kept n a.system.mgmt.start_cb
          + (cnt_kept n a.system.mgmt.stop_cb + cnt_kept n a.system.mgmt.stats_cb)
  unfolding cnt_kept
  cnt_handled-kept zero a t = refl
  cnt_handled-kept (suc n) a t = omega (arith, cnt_handled-kept n a t, t.callbacks n)

module _ {E : Type 0} (pf : Platform E) where
  module _ (works : Works pf) (parse : String → String ⊎ GenConfig) where
    pub app_turn-Tied :
        (ev : Event E) (a : App E)
        → Tied pf.hosts a
        → IsDue a.server (completion ev)
        → TurnStartable pf.hosts parse (turn_of ev)
        → (a' : App E) × (app_turn pf parse ev a ≡ some a')
          × Tied pf.hosts a'
          × (told a'.server.sends ≡ a'.system.mgmt.replies ++ told a.server.sends)
          × ((c : ℕ)
              → handles ((react (completion ev) a.server).phase c) ≡ 0
              → a'.server.phase c ≡ (react (completion ev) a.server).phase c)
    unfolding app_turn
    app_turn-Tied ev a t due asks =
        let (s, e, k, b) =
          turn-Sane pf works parse (turn_of ev) (no_calls a.system)
            (no_calls-Sane pf.hosts a.system t.sane) asks in
        let r = react-Reacted (completion ev) a.server t.tidy due in
        let (server', e', d) =
          resume_all-Resumed s.mgmt.replies (react (completion ev) a.server) r.tidy
            (λ c. omega (arith, b c, brings_of c ev, t.callbacks c, r.asks c)) in
        (
          record { system = s; server = server' },
          rw (e, e') refl,
          record {
            sane = k.sane;
            tidy = d.tidy;
            callbacks = λ c. omega (arith, b c, brings_of c ev, t.callbacks c, r.asks c, d.takes c);
          },
          d.answers ∙ ap (λ x. s.mgmt.replies ++ told x) r.silent,
          d.others,
        )

    pub Reach-Tied : {env : E} {a : App E} → Reach pf parse env a → Tied pf.hosts a
    Reach-Tied {env} started = start_app-Tied pf.hosts env
    Reach-Tied (after {a = b} {a' = a} ev r due asks e) =
        let (a', e', t, _, _) = app_turn-Tied ev b (Reach-Tied r) due asks in
        subst (Tied pf.hosts) (some-injective a' a (sym e' ∙ e)) t
