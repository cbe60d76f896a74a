-- ===== src/System/Reading.antt =====
-- mgmt/manager.cpp's reading of a start's configuration, and what the generation can start of it.
use Prim.Native.String.{String}
use traffic_generator.Base.{ℕ, ◌≡◌, sym, Option, List, [], ◌∷◌, All, ◌⊎◌, inl, inr, arith}
use mathlib.Core.Path.{subst}
use traffic_generator.Gen.Rotation.{IsRange}
use traffic_generator.Gen.Manager.{Platform}
use traffic_generator.Gen.Manager.Start.{IsStartable}
use traffic_generator.Mgmt.Config.{GenConfig, FlowsConfig, Net}
use traffic_generator.Mgmt.Config.Parse.{JsonApi, ConfigError, load_config}
use traffic_generator.Mgmt.Config.Parse.Limits.{IsLimited, load_config-IsLimited}

module _ {V O D : Type 0} (json : JsonApi V O D) (make_network : String → Option Net)
    (parse_ether_addr : String → Option (List ℕ)) (to_millis : D → ℕ)
    (what_of : ConfigError → String) where
  -- A configuration, or the text of the exception.
  abbrev pub or_what : ConfigError ⊎ GenConfig → String ⊎ GenConfig
  or_what (inl e) = inl (what_of e)
  or_what (inr cfg) = inr cfg

  or_what-inr : (r : ConfigError ⊎ GenConfig) (cfg : GenConfig) → or_what r ≡ inr cfg → r ≡ inr cfg
  or_what-inr (inl e) cfg h = cc
  or_what-inr (inr c) cfg h = cc

  -- The construction of the configuration in `on_req_start_gen`.
  unfoldable pub read_config : String → String ⊎ GenConfig
  read_config text = or_what (load_config json make_network parse_ether_addr to_millis text)

  module _ {E : Type 0} (pf : Platform E) where
    limited-IsStartable :
        (cfgs : List FlowsConfig)
        → All (λ c. IsRange (pf.hosts c.cln_ips)) cfgs
        → All (IsLimited make_network) cfgs
        → All (IsStartable pf.hosts) cfgs
    limited-IsStartable [] ranges a = tt
    limited-IsStartable (cfg ∷ cfgs) ranges a = (
      record {
        some_burst = omega (arith, a.0.some_burst);
        burst_word = omega (arith, a.0.few_bursts);
        some_flow = omega (arith, a.0.some_flow);
        cln = ranges.0;
        srv = subst (λ net. IsRange (pf.hosts net)) (sym a.0.same_ips) ranges.0;
      },
      limited-IsStartable cfgs ranges.1 a.1,
    )

    -- A configuration that is read of a request's body can be started if its clients' networks have
    -- hosts, which nothing checks: all else that the generation relies on, the hosts of the servers'
    -- networks included, is in the limits that the configuration's constructor checks.
    pub read_config-IsStartable :
        (text : String) (cfg : GenConfig)
        → read_config text ≡ inr cfg
        → All (λ c. IsRange (pf.hosts c.cln_ips)) cfg.flows_cfgs
        → All (IsStartable pf.hosts) cfg.flows_cfgs
    unfolding read_config
    read_config-IsStartable text cfg e ranges =
        let r = load_config json make_network parse_ether_addr to_millis text in
        limited-IsStartable cfg.flows_cfgs ranges (
          load_config-IsLimited json make_network parse_ether_addr to_millis text cfg
            (or_what-inr r cfg e))
