-- ===== src/System/Http/Settled.antt =====
-- app/application.cpp with mgmt/priv/http_server.cpp, with the assertion and the assignment of a handle
-- as they are: every connection's request is answered once.
use Prim.Native.String.{String}
use traffic_generator.Base.{ℕ, ◌≡◌, refl, sym, ◌∙◌, none, some, ◌++◌, ◌⊎◌, inl, inr}
use traffic_generator.Put.Assert.{Below, Below-bind}
use traffic_generator.Gen.Manager.{Platform}
use traffic_generator.Gen.Manager.Below.{ideal}
use traffic_generator.Gen.Manager.Settled.{Documented, IsFaulty, Works-or_faulty}
use traffic_generator.Mgmt.Config.{GenConfig}
use traffic_generator.Mgmt.Server.{react}
use traffic_generator.Mgmt.Server.Sessions.{handles, told, IsDue}
use traffic_generator.System.Run.{TurnStartable}
use traffic_generator.System.Settled.{turn-Below}
use traffic_generator.System.Http.{
  App, Event, turn_of, completion, no_calls, app_turn, Reach, started, after,
}
use traffic_generator.System.Http.Served.{Tied, app_turn-Tied, Reach-Tied}

module _ {E : Type 0} (pf : Platform E) (parse : String → String ⊎ GenConfig) where
  app_turn-Below :
      (ev : Event E) (a : App E) → Below (app_turn pf parse ev a) (app_turn (ideal pf) parse ev a)
  unfolding app_turn
  app_turn-Below ev a =
      Below-bind _ _ _ _ (turn-Below pf parse (turn_of ev) (no_calls a.system)) (λ s. inr refl)

  -- What is reached is reached where nothing stops a turn.
  Reach-ideal : {env : E} {a : App E} → Reach pf parse env a → Reach (ideal pf) parse env a
  Reach-ideal started = started
  Reach-ideal (after {a = b} {a' = a} ev r due asks e) =
      after ev (Reach-ideal r) due asks (elim (app_turn-Below ev b) [
        | inl stops ↦ let never : none ≡ some a = sym stops ∙ e in absurd (none_some never)
        | inr same ↦ sym same ∙ e
      ])
    where
      none_some : {a : App E} → none ≡ some a → ⊥
      none_some h = cc

  reached-Tied : {env : E} {a : App E} → Documented pf → Reach pf parse env a → Tied pf.hosts a
  reached-Tied d r = elim (Works-or_faulty pf d) [
    | inl works ↦ Reach-Tied pf works parse r
    | inr (faulty, works) ↦ Reach-Tied (ideal pf) works parse (Reach-ideal r)
  ]

  -- From every state that a run comes to, and after whatever end of an operation that a coroutine
  -- waits for, every turn comes to its end, or it stops, and only if assertions abort where their
  -- conditions hold, as the macro is written, or the assignment of a handle never returns, as it
  -- is written: no callback is called twice or without a coroutine that waits for it. After the
  -- turn too the managers are in order, a callback is kept exactly once for each connection whose
  -- coroutine waits for the user's answer and for no other, and a connection has been sent one
  -- response if its coroutine is past the start of the write and none otherwise. The writes that
  -- the turn starts are those of the answers that the management gave in it, with their
  -- connections, status and bodies; every coroutine that does not wait for one stands where the
  -- operation's end has brought it. It is relied on that the timers and the loader do as
  -- documented, and that what the requests' bodies are read as can be started.
  pub Reach-served :
      {env : E} {a : App E}
      → Documented pf
      → Reach pf parse env a
      → (ev : Event E) → IsDue a.server (completion ev)
      → TurnStartable pf.hosts parse (turn_of ev)
      → (IsFaulty pf × (app_turn pf parse ev a ≡ none))
        ⊎ ((a' : App E) × (app_turn pf parse ev a ≡ some a')
            × Tied pf.hosts a'
            × (told a'.server.sends ≡ a'.system.mgmt.replies ++ told a.server.sends)
            × ((c : ℕ)
                → handles ((react (completion ev) a.server).phase c) ≡ 0
                → a'.server.phase c ≡ (react (completion ev) a.server).phase c))
  Reach-served {a} d r ev due asks = elim (Works-or_faulty pf d) [
    | inl works ↦ inr (app_turn-Tied pf works parse ev a (reached-Tied d r) due asks)
    | inr (faulty, works) ↦ elim (app_turn-Below ev a) [
      | inl e ↦ inl (faulty, e)
      | inr e ↦
          let (a', e', t, sends, others) =
            app_turn-Tied (ideal pf) works parse ev a (reached-Tied d r) due asks in
          inr (a', e ∙ e', t, sends, others)
    ]
  ]
