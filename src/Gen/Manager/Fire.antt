-- ===== src/Gen/Manager/Fire.antt =====
-- The callbacks of the expired timers, on all the generators.
use traffic_generator.Base.{
  ℕ, zero, suc, ◌+◌, ◌<◌, ◌≡◌, refl, sym, ap, ◌∙◌, Option, none, some, List, [], ◌∷◌, length,
  get_elem?, set, All, All-get, All-set, arith,
}
use mathlib.Core.Path.{subst}
use mathlib.Core.Option.{some-injective}
use traffic_generator.Gen.Ops.{Mbuf}
use traffic_generator.Gen.World.{World, manager_ops, copy_pkt}
use traffic_generator.Gen.Flows.{Flow, FlowsGenerator, on_event}
use traffic_generator.Gen.Flows.Run.{IsRunning, Asked, on_event-Ran}
use traffic_generator.Gen.Flows.Event.{Asks}
use traffic_generator.Gen.Manager.{shape, Platform, Manager, cnt_handles, fire, fire_one}
use traffic_generator.Gen.Manager.Calm.{
  Calm, Calm-refl, Calm-trans, Calm-same, copy_pkt-Calm, send_pkt-Calm, do_report-Calm,
}

abbrev pub sum : List ℕ → ℕ
sum [] = 0
sum (n ∷ ns) = n + sum ns

pub cnt_handles-shape : (gs : List FlowsGenerator) → cnt_handles gs ≡ sum (shape gs)
cnt_handles-shape [] = refl
cnt_handles-shape (g ∷ gs) = omega (arith, cnt_handles-shape gs)

shape-set :
    (gs : List FlowsGenerator) (i : ℕ) (g g' : FlowsGenerator)
    → get_elem? gs i ≡ some g
    → length g'.flows ≡ length g.flows
    → shape (set gs i g') ≡ shape gs
shape-set [] i g g' at e = refl
shape-set (x ∷ gs) zero g g' at e =
    ap (λ n. n ∷ shape gs)
      (e ∙ ap (λ (k : FlowsGenerator). length k.flows) (sym (some-injective x g at)))
shape-set (x ∷ gs) (suc i) g g' at e = ap (λ ns. length x.flows ∷ ns) (shape-set gs i g g' at e)

-- A timer of a flow that there is.
abbrev pub InShape : List ℕ → ℕ × ℕ → Type 0
InShape ns (gi, fi) = (n : ℕ) × (get_elem? ns gi ≡ some n) × (fi < n)

get_elem?-shape :
    (gs : List FlowsGenerator) (i n : ℕ)
    → get_elem? (shape gs) i ≡ some n
    → (g : FlowsGenerator) × (get_elem? gs i ≡ some g) × (length g.flows ≡ n)
get_elem?-shape [] i n e = cc
get_elem?-shape (g ∷ gs) zero n e = (g, refl, some-injective (length g.flows) n e)
get_elem?-shape (g ∷ gs) (suc i) n e = get_elem?-shape gs i n e

abbrev pub Runs : FlowsGenerator → Type 0
Runs g = (n : ℕ) × IsRunning g n

module _ {E : Type 0} (pf : Platform E) where
  Asked-Calm :
      (g : FlowsGenerator) (w w' : World E)
      → Asked pf.native_to_big pf.tx_flags (manager_ops pf.dpdk g.idx pf.move_assign) g w w'
      → Calm w w'
  unfolding Asks
  Asked-Calm g w w' a =
      go a.flow (copy_pkt pf.dpdk a.pkt.mbuf w) (copy_pkt-Calm pf.dpdk a.pkt.mbuf w) a.asks
    where
      go :
          (fl : Flow) (c : Option Mbuf × World E)
          → Calm w c.1
          → Asks pf.native_to_big pf.tx_flags
              (manager_ops pf.dpdk g.idx pf.move_assign)
              g
              a.pkt
              fl
              (pf.dpdk.timer_cycles w.env)
              c
              w'
          → Calm w w'
      go fl (none, v) k e = rw e (Calm-trans k (do_report-Calm pf.dpdk _ v))
      go fl (some m, v) k (m', e, _, _, _, _) = rw e (
          Calm-trans (Calm-trans k (send_pkt-Calm pf.dpdk m' v))
            (Calm-trans (do_report-Calm pf.dpdk _ _) (Calm-same refl refl)))

  -- What the callbacks leave: the generators run on, no timer comes or goes, no response either.
  pub record Fired (m m' : Manager E) : Type 0 where
    pub calm : Calm m.world m'.world
    pub runs : All Runs m'.generators
    pub shape_kept : shape m'.generators ≡ shape m.generators
    pub cycles_kept : m'.gen_cycles ≡ m.gen_cycles

  fire_one_lem :
      (gi fi : ℕ) (m : Manager E) (g g' : FlowsGenerator) (w' : World E)
      → get_elem? m.generators gi ≡ some g
      → on_event pf.native_to_big pf.tx_flags
          (manager_ops pf.dpdk g.idx pf.move_assign)
          g
          fi
          m.world
        ≡ some (g', w')
      → fire_one pf gi fi m ≡ some (record m { world = w'; generators = set m.generators gi g' })
  unfolding fire_one
  fire_one_lem gi fi m g g' w' found e = rw (found, e) refl

  fire-next :
      (gi fi : ℕ) (due : List (ℕ × ℕ)) (m m' : Manager E)
      → fire_one pf gi fi m ≡ some m'
      → fire pf ((gi, fi) ∷ due) m ≡ fire pf due m'
  unfolding fire
  fire-next gi fi due m m' e = rw (e, fire) refl

  -- Where every generator has been set up and every expired timer is of one of their flows, all
  -- the callbacks run to their ends: every packet index stays in its generator's packets, the
  -- generators keep their flows and run on, no timer comes or goes, no assertion fails, and the
  -- start and the responses to the management are untouched.
  pub fire-Fired :
      (due : List (ℕ × ℕ)) (m : Manager E)
      → All Runs m.generators
      → All (InShape (shape m.generators)) due
      → (m' : Manager E) × (fire pf due m ≡ some m') × Fired m m'
  unfolding fire
  fire-Fired [] m r s = (
    m,
    refl,
    record { calm = Calm-refl m.world; runs = r; shape_kept = refl; cycles_kept = refl },
  )
  fire-Fired ((gi, fi) ∷ due) m r s =
      let (n, at, lt) = s.0 in
      let (g, found, e) = get_elem?-shape m.generators gi n at in
      let (k, running) = All-get Runs m.generators gi g r found in
      let (g', w', e', ran, asked) =
        on_event-Ran pf.native_to_big pf.tx_flags (manager_ops pf.dpdk g.idx pf.move_assign) g k fi
          m.world running (omega arith) in
      let m' = record m { world = w'; generators = set m.generators gi g' } in
      let kept = shape-set m.generators gi g g' found ran.same_count in
      let (m'', e'', f) =
        fire-Fired due m' (All-set Runs m.generators gi g' r (ran.started, ran.running))
          (subst (λ ns. All (InShape ns) due) (sym kept) s.1) in
      (
        m'',
        fire-next gi fi due m m' (fire_one_lem gi fi m g g' w' found e') ∙ e'',
        record {
          calm = Calm-trans (Asked-Calm g m.world w' asked) f.calm;
          runs = f.runs;
          shape_kept = f.shape_kept ∙ kept;
          cycles_kept = f.cycles_kept;
        },
      )
