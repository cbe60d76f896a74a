-- ===== src/System/Run.antt =====
-- app/application.cpp: what holds in every run of the two managers.
use Prim.Native.String.{String}
use traffic_generator.Mgmt.Queue.{out_pow2, inc_pow2}
use traffic_generator.Base.{
  ℕ, ◌+◌, ◌≤◌, ◌≡◌, refl, sym, ◌∙◌, true, Option, none, some, List, [], ◌∷◌, length, drop, All,
  All-append, All-drop, ◌⊎◌, inl, inr, arith,
}
use mathlib.Core.Path.{subst}
use traffic_generator.Put.Ring.{Ring}
use traffic_generator.Put.Ring.Holds.{Holds, init-Holds}
use traffic_generator.Gen.World.{World}
use traffic_generator.Gen.Manager.{Platform}
use traffic_generator.Gen.Manager as Gen
use traffic_generator.Gen.Manager.Turn.{Orderly}
use traffic_generator.Gen.Manager.Start.{Works, IsStartable}
use traffic_generator.Gen.Manager.Answer.{CanServe}
use traffic_generator.Gen.Manager.Serve.{process_events-Served}
use traffic_generator.Mgmt.Config.{GenConfig, Net}
use traffic_generator.Gen.Rotation.{Range}
use traffic_generator.Mgmt.Messages.{
  OutMsg, IncMsg, req_start_generation, req_stop_generation, req_stats_report, out_capacity,
  inc_capacity,
}
use traffic_generator.Mgmt.Queue.{enqueue, enqueue_lem}
use traffic_generator.Mgmt.Protocol.{Exchange, start, stop, stats, asked, answered}
use traffic_generator.Mgmt.Manager.{Request}
use traffic_generator.Mgmt.Manager as Mgmt
use traffic_generator.Mgmt.Manager.Ledger.{
  waits, waiting, settled, is_cb, Grows, Posts, posts_start, posts_stop, posts_stats,
}
use traffic_generator.Mgmt.Manager.Safe.{Offers, Sound, request_cb, process_events-Passed}
use traffic_generator.System.{System, Turn, mgmt_turn, genr_turn, passes, turn, run, start_system}

-- How many requests with a callback a turn brings, and those of a run.
abbrev pub brings : {E : Type 0} → ℕ → Turn E → ℕ
brings c (mgmt_turn r) = is_cb c (request_cb r)
brings c genr_turn = 0
brings c (passes f) = 0

abbrev pub requests : {E : Type 0} → ℕ → List (Turn E) → ℕ
requests c [] = 0
requests c (t ∷ ts) = brings c t + requests c ts

-- What a request's body is read as, if it is a configuration, can be started.
abbrev pub AsksStartable : (Net → Range) → (String → String ⊎ GenConfig) → Option Request → Type 0
AsksStartable hosts parse none = Unit
AsksStartable hosts parse (some r) =
    (cfg : GenConfig) → parse r.body ≡ inr cfg → All (IsStartable hosts) cfg.flows_cfgs

abbrev pub TurnStartable :
    {E : Type 0} → (Net → Range) → (String → String ⊎ GenConfig) → Turn E → Type 0
TurnStartable hosts parse (mgmt_turn r) = AsksStartable hosts parse r
TurnStartable hosts parse genr_turn = Unit
TurnStartable hosts parse (passes f) = Unit

pub waits_le : (o : Option ℕ) → waits o ≤ 1
waits_le none = omega arith
waits_le (some c) = omega arith

pub waiting_le : (x : Exchange) (m : Mgmt.Manager) → waiting x m ≤ 1
waiting_le start m = waits_le m.start_cb
waiting_le stop m = waits_le m.stop_cb
waiting_le stats m = waits_le m.stats_cb

length-asked : (out : List OutMsg) → length out ≡ asked start out + asked stop out + asked stats out
length-asked [] = refl
length-asked (req_start_generation cfg ∷ out) = omega (arith, length-asked out)
length-asked (req_stop_generation ∷ out) = omega (arith, length-asked out)
length-asked (req_stats_report ∷ out) = omega (arith, length-asked out)

-- A turn of the generation leaves the management's callbacks as they are.
waiting_same :
    {E : Type 0} (x : Exchange) (s : System E) (q : Ring OutMsg)
    → waiting x (record s.mgmt { out_queue = q }) ≡ waiting x s.mgmt
waiting_same start s q = refl
waiting_same stop s q = refl
waiting_same stats s q = refl

module _ {E : Type 0} (hosts : Net → Range) where
  -- The invariant of the two managers: what is under way between them, the management's books on
  -- it, and the generation's order.
  pub record Sane (s : System E) : Type 0 where
    pub out : List OutMsg
    pub inc : List IncMsg
    pub sound : Sound s.mgmt out inc
    pub holds : Holds inc_capacity s.genr.world.out_queue inc
    pub serves : All (CanServe hosts) out
    pub orderly : Orderly s.genr
    pub sent : s.genr.world.tx_pkts ≡ []

  pub start_system-Sane : (env : E) → Sane (start_system env)
  start_system-Sane env = record {
    out = [];
    inc = [];
    sound = record { holds = init-Holds out_pow2; books = λ x. omega arith };
    holds = init-Holds inc_pow2;
    serves = tt;
    orderly = record { timers = refl; runs = tt; idle = λ e. refl };
    sent = refl;
  }

  moved-Orderly :
      (m : Gen.Manager E) (w : World E)
      → w.cnt_timers ≡ m.world.cnt_timers
      → Orderly m
      → Orderly (record m { world = w })
  moved-Orderly m w e o = record { timers = e ∙ o.timers; runs = o.runs; idle = o.idle }

  -- A state that is sane again, in which no exchange that has lost a request or its response has
  -- got it back: its waiting callbacks are as many more than the messages under way, at least.
  pub record Keeps (s : System E) (g : Sane s) (s' : System E) : Type 0 where
    pub sane : Sane s'
    pub lost :
        (x : Exchange)
        → asked x sane.out + answered x sane.inc + waiting x s.mgmt
          ≤ asked x g.out + answered x g.inc + waiting x s'.mgmt

  -- At most three requests are in the management's queue in a sane state, one of each kind, so
  -- that whatever is enqueued next finds room: no request is answered with an internal error for
  -- a full queue.
  pub three_requests :
      (s : System E) (g : Sane s) (msg : OutMsg)
      → (length g.out ≤ 3) × ((enqueue out_capacity s.mgmt.out_queue msg).0 ≡ true)
  three_requests s g msg =
      let few : length g.out ≤ 3 = omega (
        arith,
        length-asked g.out,
        g.sound.books start,
        g.sound.books stop,
        g.sound.books stats,
        waiting_le start s.mgmt,
        waiting_le stop s.mgmt,
        waiting_le stats s.mgmt,
      ) in
      (
        few,
        elim (enqueue_lem out_pow2 s.mgmt.out_queue g.out msg g.sound.holds) [
          | inl (full, refused, h) ↦ absurd (omega (arith, full, few))
          | inr (free, taken, h) ↦ taken
        ],
      )

module _ {E : Type 0} (pf : Platform E) where
  module _ (works : Works pf) (parse : String → String ⊎ GenConfig) where
    Posts-CanServe :
        (r : Request) (msg : OutMsg)
        → AsksStartable pf.hosts parse (some r)
        → Posts parse r.body msg
        → CanServe pf.hosts msg
    unfolding CanServe
    Posts-CanServe r _ asks (posts_start cfg e) = asks cfg e
    Posts-CanServe r _ asks posts_stop = tt
    Posts-CanServe r _ asks posts_stats = tt

    Offers-CanServe :
        (r : Option Request) (msg : OutMsg)
        → AsksStartable pf.hosts parse r
        → Offers parse r msg
        → CanServe pf.hosts msg
    Offers-CanServe none msg asks o = absurd o
    Offers-CanServe (some r) msg asks o = Posts-CanServe r msg asks o

    Grows-CanServe :
        (r : Option Request) (out out' : List OutMsg)
        → AsksStartable pf.hosts parse r
        → Grows (Offers parse r) out out'
        → All (CanServe pf.hosts) out
        → All (CanServe pf.hosts) out'
    Grows-CanServe r out out' asks (inl e) a = subst (All (CanServe pf.hosts)) (sym e) a
    Grows-CanServe r out out' asks (inr (msg, e, o)) a =
        subst (All (CanServe pf.hosts)) (sym e)
          (All-append (CanServe pf.hosts) out (msg ∷ []) a (Offers-CanServe r msg asks o, tt))

    pub turn-Sane :
        (t : Turn E) (s : System E) (g : Sane pf.hosts s)
        → TurnStartable pf.hosts parse t
        → (s' : System E) × (turn pf parse t s ≡ some s')
          × Keeps pf.hosts s g s'
          × ((c : ℕ) → settled c s'.mgmt ≡ settled c s.mgmt + brings c t)
    unfolding turn
    turn-Sane (mgmt_turn r) s g asks =
        let (m, q, out', n, e, _, _, h, sound, settles, grows, books) =
          process_events-Passed pf.aborts parse r s.mgmt s.genr.world.out_queue g.out g.inc
            works.intended g.sound g.holds in
        let world' = record s.genr.world { out_queue = q } in
        (
          record { mgmt = m; genr = record s.genr { world = world' } },
          rw e refl,
          record {
            sane = record {
              out = out';
              inc = drop n g.inc;
              sound = sound;
              holds = h;
              serves = Grows-CanServe r g.out out' asks grows g.serves;
              orderly = moved-Orderly pf.hosts s.genr world' refl g.orderly;
              sent = g.sent;
            };
            lost = λ x. omega (arith, books x);
          },
          settles,
        )
    turn-Sane genr_turn s g asks =
        let (m, q, n, e, _, _, h, orderly, sent, answers) =
          process_events-Served pf works s.genr s.mgmt.out_queue g.out g.orderly g.sent g.serves
            g.sound.holds in
        let (inc', h', under_way) = answers g.inc g.holds in
        (
          record { mgmt = record s.mgmt { out_queue = q }; genr = m },
          rw e refl,
          record {
            sane = record {
              out = drop n g.out;
              inc = inc';
              sound = record {
                holds = h;
                books = λ x. omega (arith, waiting_same x s q, under_way x, g.sound.books x);
              };
              holds = h';
              serves = All-drop (CanServe pf.hosts) n g.out g.serves;
              orderly = orderly;
              sent = sent;
            };
            lost = λ x. omega (arith, waiting_same x s q, under_way x);
          },
          λ c. omega arith,
        )
    turn-Sane (passes f) s g asks =
        let world' = record s.genr.world { env = f s.genr.world.env } in
        (
          record s { genr = record s.genr { world = world' } },
          refl,
          record {
            sane = record {
              out = g.out;
              inc = g.inc;
              sound = g.sound;
              holds = g.holds;
              serves = g.serves;
              orderly = moved-Orderly pf.hosts s.genr world' refl g.orderly;
              sent = g.sent;
            };
            lost = λ x. omega arith;
          },
          λ c. omega arith,
        )

    -- From a state that is sane every run comes to its end, sane again.
    pub run-Sane :
        (ts : List (Turn E)) (s : System E) (g : Sane pf.hosts s)
        → All (TurnStartable pf.hosts parse) ts
        → (s' : System E) × (run pf parse ts s ≡ some s')
          × Keeps pf.hosts s g s'
          × ((c : ℕ) → settled c s'.mgmt ≡ settled c s.mgmt + requests c ts)
    unfolding run
    run-Sane [] s g asks = (s, refl, record { sane = g; lost = λ x. omega arith }, λ c. omega arith)
    run-Sane (t ∷ ts) s g asks =
        let (s', e, k, b) = turn-Sane t s g asks.0 in
        let (s'', e', k', b') = run-Sane ts s' k.sane asks.1 in
        (
          s'',
          rw (e, run) e',
          record { sane = k'.sane; lost = λ x. omega (arith, k.lost x, k'.lost x) },
          λ c. omega (arith, b c, b' c),
        )
