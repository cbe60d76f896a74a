-- ===== src/Gen/Device/Owner.antt =====
-- gen/priv/eth_dev.cpp: every device that is started is closed once.
use traffic_generator.Base.{
  ℕ, zero, suc, ◌+◌, ◌≤◌, ◌≡◌, refl, ◌∙◌, Bool-cases, List, [], ◌∷◌, ◌++◌, All, ◌==◌, if◌then◌else◌,
  ◌⊎◌, inl, inr, arith,
}
use traffic_generator.Gen.Device.{
  Flags, DevConf, Config, Nic, Dev, Call, dev_start, dev_stop, dev_close, sleep, link_get, call,
  calls_all, configure_dev, setup_calls, started, configured, wait_link, check_cnt, sleep_us, start,
  set_capabilities, make_dev, destroy_dev, assign_dev, Ended, done, thrown, SetupError, link_down,
  start_failed, invalid_port_id,
}

-- How many calls of a kind there are.
abbrev pub cnt : (Call → ℕ) → List Call → ℕ
cnt weight [] = 0
cnt weight (c ∷ cs) = weight c + cnt weight cs

pub cnt-append :
    (weight : Call → ℕ) (cs ds : List Call) → cnt weight (cs ++ ds) ≡ cnt weight cs + cnt weight ds
cnt-append weight [] ds = omega arith
cnt-append weight (c ∷ cs) ds = omega (arith, cnt-append weight cs ds)

abbrev pub is_start : Call → ℕ
is_start (dev_start p) = 1
is_start _ = 0

abbrev pub is_stop : Call → ℕ
is_stop (dev_stop p) = 1
is_stop _ = 0

abbrev pub is_close : Call → ℕ
is_close (dev_close p) = 1
is_close _ = 0

module _ {D : Type 0} (nic : Nic D) where
  -- A call more is one more of its kind.
  call_lem :
      (weight : Call → ℕ) (c : Call) (d : Dev D)
      → cnt weight (call nic c d).1.calls ≡ cnt weight d.calls + weight c
  call_lem weight c d = omega (arith, cnt-append weight d.calls (c ∷ []))

  wait_link-cnt :
      (weight : Call → ℕ) (n port : ℕ) (d : Dev D)
      → weight (sleep sleep_us) ≡ 0
      → weight (link_get port) ≡ 0
      → cnt weight (wait_link nic n port d).1.calls ≡ cnt weight d.calls
  unfolding wait_link
  wait_link-cnt weight zero port d s l = refl
  wait_link-cnt weight (suc n) port d s l =
      let d₁ = (call nic (sleep sleep_us) d).1 in
      let d₂ = (call nic (link_get port) d₁).1 in
      let same : cnt weight d₂.calls ≡ cnt weight d.calls =
        omega
          (arith, call_lem weight (sleep sleep_us) d, call_lem weight (link_get port) d₁, s, l) in
      elim (Bool-cases (call nic (link_get port) d₁).0) [
        | inl up ↦ rw up same
        | inr down ↦ rw down (wait_link-cnt weight n port d₂ s l ∙ same)
      ]

  -- So many starts, stops and closes more.
  pub record Counted (d d' : Dev D) (starts stops closes : ℕ) : Type 0 where
    pub starts_eq : cnt is_start d'.calls ≡ cnt is_start d.calls + starts
    pub stops_eq : cnt is_stop d'.calls ≡ cnt is_stop d.calls + stops
    pub closes_eq : cnt is_close d'.calls ≡ cnt is_close d.calls + closes

  calls_all-cnt :
      (weight : Call → ℕ) (cs : List (Call × SetupError)) (d : Dev D)
      → All (λ (q : Call × SetupError). weight q.0 ≡ 0) cs
      → cnt weight (calls_all nic cs d).1.calls ≡ cnt weight d.calls
  unfolding calls_all
  calls_all-cnt weight [] d none_counted = refl
  calls_all-cnt weight ((c, e) ∷ cs) d none_counted =
      let d' = (call nic c d).1 in
      let same : cnt weight d'.calls ≡ cnt weight d.calls =
        omega (arith, call_lem weight c d, none_counted.0) in
      elim (Bool-cases (call nic c d).0) [
        | inl ok ↦ rw ok (calls_all-cnt weight cs d' none_counted.1 ∙ same)
        | inr failed ↦ rw failed same
      ]

  configure_dev-Counted :
      (cfg : Config) (conf : DevConf) (d : Dev D) → Counted d (configure_dev nic cfg conf d).1 0 0 0
  unfolding configure_dev
  configure_dev-Counted cfg conf d = record {
    starts_eq =
        omega
          (arith, calls_all-cnt is_start (setup_calls nic cfg conf) d (refl, (refl, (refl, tt))));
    stops_eq =
        omega
          (arith, calls_all-cnt is_stop (setup_calls nic cfg conf) d (refl, (refl, (refl, tt))));
    closes_eq =
        omega
          (arith, calls_all-cnt is_close (setup_calls nic cfg conf) d (refl, (refl, (refl, tt))));
  }

  -- `start` starts the device once. If it throws, it stopped it where it had started it.
  start_lem :
      (cfg : Config) (d : Dev D)
      → (((start nic cfg d).0 ≡ done tt) × Counted d (start nic cfg d).1 1 0 0)
        ⊎ ((e : SetupError) × ((start nic cfg d).0 ≡ thrown e)
            × (stops : ℕ) × Counted d (start nic cfg d).1 1 stops 0)
  unfolding start
  start_lem cfg d =
      let p = cfg.port_id in
      let d₁ = (call nic (dev_start p) d).1 in
      let d₂ = (wait_link nic check_cnt p d₁).1 in
      let d₃ = (call nic (dev_stop p) d₂).1 in
      let first : Counted d d₁ 1 0 0 = record {
        starts_eq = call_lem is_start (dev_start p) d;
        stops_eq = call_lem is_stop (dev_start p) d;
        closes_eq = call_lem is_close (dev_start p) d;
      } in
      let waited : Counted d d₂ 1 0 0 = record {
        starts_eq = wait_link-cnt is_start check_cnt p d₁ refl refl ∙ first.starts_eq;
        stops_eq = wait_link-cnt is_stop check_cnt p d₁ refl refl ∙ first.stops_eq;
        closes_eq = wait_link-cnt is_close check_cnt p d₁ refl refl ∙ first.closes_eq;
      } in
      let stopped : Counted d d₃ 1 1 0 = record {
        starts_eq = omega (arith, call_lem is_start (dev_stop p) d₂, waited.starts_eq);
        stops_eq = omega (arith, call_lem is_stop (dev_stop p) d₂, waited.stops_eq);
        closes_eq = omega (arith, call_lem is_close (dev_stop p) d₂, waited.closes_eq);
      } in
      elim (Bool-cases (call nic (dev_start p) d).0) [
        | inr failed ↦ rw failed (inr (start_failed, refl, 0, first))
        | inl ok ↦ elim (Bool-cases (wait_link nic check_cnt p d₁).0) [
          | inl up ↦ rw (ok, up) (inl (refl, waited))
          | inr down ↦ rw (ok, down) (inr (link_down, refl, 1, stopped))
        ]
      ]

  -- What a constructor leaves: the device's port and one start more, or an exception and as many
  -- closes more as starts, one at most.
  abbrev pub Made : Config → Dev D → Ended ℕ × Dev D → Type 0
  Made cfg d r =
      ((r.0 ≡ done cfg.port_id) × Counted d r.1 1 0 0)
      ⊎ ((e : SetupError) × (r.0 ≡ thrown e)
          × (n : ℕ) × (stops : ℕ) × (n ≤ 1)
          × Counted d r.1 n stops n)

  started-Made :
      (cfg : Config) (d d' : Dev D)
      → Counted d d' 0 0 0
      → Made cfg d (started nic cfg (start nic cfg d'))
  started-Made cfg d d' c = elim (start_lem cfg d') [
    | inl (e, s) ↦ rw e (
        inl (
          refl,
          record {
            starts_eq = omega (arith, s.starts_eq, c.starts_eq);
            stops_eq = omega (arith, s.stops_eq, c.stops_eq);
            closes_eq = omega (arith, s.closes_eq, c.closes_eq);
          },
        ))
    | inr (err, e, stops, s) ↦
        let d'' = (start nic cfg d').1 in
        let close = dev_close cfg.port_id in
        rw e (
          inr (
            err,
            refl,
            1,
            stops,
            omega arith,
            record {
              starts_eq = omega (arith, call_lem is_start close d'', s.starts_eq, c.starts_eq);
              stops_eq = omega (arith, call_lem is_stop close d'', s.stops_eq, c.stops_eq);
              closes_eq = omega (arith, call_lem is_close close d'', s.closes_eq, c.closes_eq);
            },
          ))
  ]

  ended :
      {A : Type 0} (r : Ended A) → ((a : A) × (r ≡ done a)) ⊎ ((e : SetupError) × (r ≡ thrown e))
  ended (done a) = inl (a, refl)
  ended (thrown e) = inr (e, refl)

  none-Counted : (d : Dev D) → Counted d d 0 0 0
  none-Counted d = record {
    starts_eq = omega arith;
    stops_eq = omega arith;
    closes_eq = omega arith;
  }

  with_conf-Made :
      (cfg : Config) (conf : DevConf) (d : Dev D)
      → Made cfg d (configured nic cfg (configure_dev nic cfg conf d))
  with_conf-Made cfg conf d =
      let c = configure_dev-Counted cfg conf d in
      elim (ended (configure_dev nic cfg conf d).0) [
        | inl (u, e) ↦ rw e (started-Made cfg d (configure_dev nic cfg conf d).1 c)
        | inr (err, e) ↦ rw e (inr (err, refl, 0, 0, omega arith, c))
      ]

  -- The constructor, on every device: it gives the port it was asked for and has started the device
  -- once, with no stop or close, or it throws, and has then closed the device as often as it
  -- started it, once at most.
  pub make_dev-Made :
      (flags : Flags) (cfg : Config) (d : Dev D) → Made cfg d (make_dev nic flags cfg d)
  unfolding make_dev
  make_dev-Made flags cfg d = elim (ended (set_capabilities nic flags cfg d)) [
    | inl (conf, e) ↦ rw e (with_conf-Made cfg conf d)
    | inr (err, e) ↦ rw e (inr (err, refl, 0, 0, omega arith, none-Counted d))
  ]

  -- A move assignment, of a device to itself too: device `i` has the port of `j`, `j` has none
  -- unless it is `i`, and the others are as they were. The device that `i` had, if any, is
  -- stopped and then closed, once; one that is assigned to itself is left alone.
  pub assign_dev_lem :
      (i j : ℕ) (ports : ℕ → ℕ) (d : Dev D)
      → ((k : ℕ)
          → (assign_dev nic i j ports d).0 k
            ≡ (if k == i then ports j else (if k == j then invalid_port_id else ports k)))
        × ((assign_dev nic i j ports d).1.calls ≡ (
            if i == j
            then d.calls
            else (if ports i == invalid_port_id
                then d.calls
                else (d.calls ++ (dev_stop (ports i) ∷ [])) ++ (dev_close (ports i) ∷ []))))
  unfolding assign_dev destroy_dev
  assign_dev_lem i j ports d = (
    λ k. refl,
    elim (Bool-cases (i == j)) [
      | inl same ↦ rw same refl
      | inr other ↦ elim (Bool-cases (ports i == invalid_port_id)) [
        | inl moved ↦ rw (other, moved) refl
        | inr valid ↦ rw (other, valid) refl
      ]
    ],
  )
