-- ===== src/Mgmt/Config/Parse/Limits.antt =====
-- What a configuration that is loaded satisfies.
use Prim.Native.String.{String}
use traffic_generator.Base.{
  ℕ, ◌%◌, ◌^◌, Bool, true, false, Option, none, some, List, [], ◌∷◌, inl, inr, ◌≡◌, ◌≤◌, refl, sym,
  ap, ◌∙◌, All, arith,
}
use mathlib.Core.Path.{subst}
use mathlib.Core.Option.{some-injective}
use traffic_generator.Put.Numbers.{in_range_inclusive, in_range_inclusive_lem}
use traffic_generator.Mgmt.Config.{Net, FlowsConfig, GenConfig}
use traffic_generator.Mgmt.Config.Parse.{
  JsonApi, Result, ◌>>=◌, guard, or_error, in_opt_range, invalid_burst, invalid_fps, invalid_ipg,
  invalid_cln_port, invalid_cln_ips, invalid_srv_ips, check_cap, load_cap, load_caps, load_config,
}

-- The limits of a capture's configuration.
pub record IsLimited (make_network : String → Option Net) (cfg : FlowsConfig) : Type 0 where
  pub some_burst : 1 ≤ cfg.burst
  pub few_bursts : cfg.burst ≤ 5
  pub some_flow : 1 ≤ cfg.flows_per_sec
  pub few_flows : cfg.flows_per_sec ≤ 1_000_000
  pub ipg : in_opt_range cfg.inter_pkts_gap 1 1_000_000 ≡ true
  pub cln_port : in_opt_range cfg.cln_port 1_024 65_535 ≡ true
  -- The networks are always the same, since the servers' is read from the clients' key.
  pub same_ips : cfg.srv_ips ≡ cfg.cln_ips
  pub parsed_ips : (text : String) × (make_network text ≡ some cfg.cln_ips)

inr-injective : {A : Type 0} (a b : A) → ◌≡◌ {A = Result A} (inr a) (inr b) → a ≡ b
inr-injective a b e = ap (λ r. elim r [ inl _ ↦ a | inr c ↦ c ]) e

-- What holds of a result that is no exception.
abbrev pub Ensures : {A : Type 0} → (A → Type 0) → Result A → Type 0
Ensures {A} P r = (a : A) → r ≡ inr a → P a

bind-Ensures :
    {A B : Type 0} {P : B → Type 0} (r : Result A) (f : A → Result B)
    → ((a : A) → r ≡ inr a → Ensures P (f a))
    → Ensures P (r >>= f)
unfolding ◌>>=◌
bind-Ensures (inl e) f k = λ b h. cc
bind-Ensures (inr a) f k = k a refl

-- The checks of a capture, one after the other.
abbrev checks :
    Bool
    → Bool
    → Bool
    → Bool
    → Option Net
    → Option Net
    → (Net → Net → FlowsConfig)
    → Result FlowsConfig
checks t1 t2 t3 t4 c s make = do
  _ ← guard t1 invalid_burst
  _ ← guard t2 invalid_fps
  _ ← guard t3 invalid_ipg
  _ ← guard t4 invalid_cln_port
  cln_ips ← or_error c invalid_cln_ips
  srv_ips ← or_error s invalid_srv_ips
  inr (make cln_ips srv_ips)

-- Checks that let a configuration through all hold.
checks-inr :
    (t1 t2 t3 t4 : Bool) (c s : Option Net) (make : Net → Net → FlowsConfig) (cfg : FlowsConfig)
    → checks t1 t2 t3 t4 c s make ≡ inr cfg
    → (t1 ≡ true)
      × (t2 ≡ true)
      × (t3 ≡ true)
      × (t4 ≡ true)
      × (cln : Net) × (srv : Net) × (c ≡ some cln)
      × (s ≡ some srv)
      × (make cln srv ≡ cfg)
unfolding ◌>>=◌
checks-inr false t2 t3 t4 c s make cfg h = cc
checks-inr true false t3 t4 c s make cfg h = cc
checks-inr true true false t4 c s make cfg h = cc
checks-inr true true true false c s make cfg h = cc
checks-inr true true true true none s make cfg h = cc
checks-inr true true true true (some c) none make cfg h = cc
checks-inr true true true true (some c) (some s) make cfg h =
    (refl, refl, refl, refl, c, s, refl, refl, inr-injective _ _ h)

module _ {V O D : Type 0} (json : JsonApi V O D) (make_network : String → Option Net)
    (parse_ether_addr : String → Option (List ℕ)) (to_millis : D → ℕ) where
  -- What a capture's configuration that is let through is.
  pub check_cap-IsLimited :
      (name : String) (burst fps : ℕ) (ipg : Option ℕ) (cln srv : String) (port : Option ℕ)
      (cfg : FlowsConfig)
      → srv ≡ cln
      → check_cap json make_network parse_ether_addr to_millis name burst fps ipg cln srv port
        ≡ inr cfg
      → IsLimited make_network cfg
  unfolding check_cap
  check_cap-IsLimited name burst fps ipg cln srv port cfg same_str h =
      let (e1, e2, e3, e4, c, s, ec, es, same) =
        checks-inr (in_range_inclusive burst 1 5) (in_range_inclusive fps 1 1_000_000)
          (in_opt_range ipg 1 1_000_000) (in_opt_range port 1_024 65_535) (make_network cln)
          (make_network srv) _ cfg h in
      let (lo, hi) = in_range_inclusive_lem burst 1 5 e1 in
      let (flo, fhi) = in_range_inclusive_lem fps 1 1_000_000 e2 in
      let b : cfg.burst ≡ burst % 2 ^ 32 = ap (λ (k : FlowsConfig). k.burst) (sym same) in
      let f : cfg.flows_per_sec ≡ fps % 2 ^ 32 =
        ap (λ (k : FlowsConfig). k.flows_per_sec) (sym same) in
      record {
        some_burst = omega arith;
        few_bursts = omega arith;
        some_flow = omega arith;
        few_flows = omega arith;
        ipg = ap (λ (k : FlowsConfig). in_opt_range k.inter_pkts_gap 1 1_000_000) (sym same) ∙ e3;
        cln_port = ap (λ (k : FlowsConfig). in_opt_range k.cln_port 1_024 65_535) (sym same) ∙ e4;
        same_ips =
            ap (λ (k : FlowsConfig). k.srv_ips) (sym same)
            ∙ some-injective s c (sym es ∙ ap make_network same_str ∙ ec)
            ∙ ap (λ (k : FlowsConfig). k.cln_ips) same;
        parsed_ips = (cln, ec ∙ ap (λ (k : FlowsConfig). some k.cln_ips) same);
      }

  -- The configuration of a capture that is loaded.
  load_cap-IsLimited :
      (v : V)
      → Ensures (IsLimited make_network) (load_cap json make_network parse_ether_addr to_millis v)
  unfolding load_cap
  load_cap-IsLimited v = bind-Ensures _ _ (λ fields _. bind-Ensures _ _ (λ name _.
      bind-Ensures _ _ (λ burst _. bind-Ensures _ _ (λ fps _. bind-Ensures _ _ (λ ipg _.
        bind-Ensures _ _ (λ cln from_cln. bind-Ensures _ _ (λ srv from_srv.
          bind-Ensures _ _ (λ port _. λ cfg h.
            check_cap-IsLimited name burst fps ipg cln srv port cfg
              (inr-injective srv cln (sym from_srv ∙ from_cln)) h))))))))

  load_caps-IsLimited :
      (vs : List V)
      → Ensures
          (All (IsLimited make_network))
          (load_caps json make_network parse_ether_addr to_millis vs)
  unfolding load_caps
  load_caps-IsLimited [] =
      λ cfgs h. subst (All (IsLimited make_network)) (inr-injective [] cfgs h) tt
  load_caps-IsLimited (v ∷ vs) = bind-Ensures _ _ (λ cfg e. bind-Ensures _ _ (λ rest e'. λ cfgs h.
      subst (All (IsLimited make_network)) (inr-injective (cfg ∷ rest) cfgs h)
        (load_cap-IsLimited v cfg e, load_caps-IsLimited vs rest e')))

  -- A configuration that is loaded has no capture outside the limits: a burst of 1 to 5 flows, 1
  -- to 1'000'000 flows a second, and gaps and ports in their ranges where they are given. In each
  -- of its captures the network of the servers is that of the clients, which the text of a network
  -- was parsed as.
  pub load_config-IsLimited :
      (cfg_info : String) (cfg : GenConfig)
      → load_config json make_network parse_ether_addr to_millis cfg_info ≡ inr cfg
      → All (IsLimited make_network) cfg.flows_cfgs
  unfolding load_config
  load_config-IsLimited cfg_info = bind-Ensures _ _ (λ v _. bind-Ensures _ _ (λ fields _.
      bind-Ensures _ _ (λ dur _. bind-Ensures _ _ (λ ether _. bind-Ensures _ _ (λ captures _.
        bind-Ensures _ _ (λ dut _. bind-Ensures _ _ (λ cfgs e. λ cfg h.
          subst (λ (k : GenConfig). All (IsLimited make_network) k.flows_cfgs)
            (inr-injective _ cfg h) (load_caps-IsLimited captures cfgs e))))))))
