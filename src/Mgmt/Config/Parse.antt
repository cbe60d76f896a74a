-- ===== src/Mgmt/Config/Parse.antt =====
-- mgmt/gen_config.cpp: a configuration over the JSON library's values. That library, the numbers of
-- type `double`, and the parsers of addresses and networks are given.
pub mod Limits
pub mod Tests
use Prim.Native.String.{String}
use text.Mathlib.Text.{◌==◌ as str_eq}
use traffic_generator.Base.{
  ℕ, ◌%◌, ◌^◌, Bool, true, false, Bool-cases, Option, none, some, Option-cases, List, [], ◌∷◌,
  length, ◌⊎◌, inl, inr, ◌≡◌, ◌≤◌, refl, sym, ap, ◌∙◌, if◌then◌else◌, All, arith,
}
use mathlib.Core.Path.{subst}
use mathlib.Core.Option.{some-injective}
use traffic_generator.Put.Numbers.{in_range_inclusive, in_range_inclusive_lem}
use traffic_generator.Mgmt.Config.{Net, FlowsConfig, GenConfig}

-- The exceptions that the constructor leaves by.
pub data ConfigError : Type 0 where
  -- `at` of a key that is not there, and a value of another kind
  missing : String → ConfigError
  wrong_kind : ConfigError
  invalid_text : ConfigError
  invalid_dut_addr : ConfigError
  invalid_burst : ConfigError
  invalid_fps : ConfigError
  invalid_ipg : ConfigError
  invalid_cln_port : ConfigError
  invalid_cln_ips : ConfigError
  invalid_srv_ips : ConfigError

-- A result or an exception.
abbrev pub Result : Type 0 → Type 0
Result A = ConfigError ⊎ A

infixl 20 ◌>>=◌
unfoldable pub ◌>>=◌ : {A B : Type 0} → Result A → (A → Result B) → Result B
◌>>=◌ (inl e) f = inl e
◌>>=◌ (inr a) f = f a

abbrev pub guard : Bool → ConfigError → Result (Unit {0})
guard true e = inr tt
guard false e = inl e

-- What is used of the JSON library, on its values, objects and numbers of type `double`: the
-- parser, the accesses that throw, and `if_uint64`, which does not.
pub record JsonApi (V O D : Type 0) : Type 0 where
  pub parse : String → Option V
  pub as_object : V → Result O
  pub as_array : V → Result (List V)
  pub as_string : V → Result String
  pub as_uint64 : V → Result ℕ
  pub as_double : V → Result D
  pub if_uint64 : V → Option ℕ
  pub at : O → String → Result V

module _ {V O D : Type 0} (json : JsonApi V O D) where
  -- `load_opt_u64`
  pub load_opt_u64 : O → String → Result (Option ℕ)
  load_opt_u64 fields name = do p ← json.at fields name; inr (json.if_uint64 p)

-- A range test on a value that may be left out.
abbrev pub in_opt_range : Option ℕ → ℕ → ℕ → Bool
in_opt_range none a b = true
in_opt_range (some n) a b = in_range_inclusive n a b

abbrev pub or_error : {A : Type 0} → Option A → ConfigError → Result A
or_error none e = inl e
or_error (some a) e = inr a

module _ {V O D : Type 0} (json : JsonApi V O D) (make_network : String → Option Net)
    (parse_ether_addr : String → Option (List ℕ)) (to_millis : D → ℕ) where
  -- The limits, and the networks, of the values of a capture.
  pub check_cap : String → ℕ → ℕ → Option ℕ → String → String → Option ℕ → Result FlowsConfig
  check_cap name burst fps ipg cln_ips_str srv_ips_str cln_port = do
    _ ← guard (in_range_inclusive burst 1 5) invalid_burst
    _ ← guard (in_range_inclusive fps 1 1_000_000) invalid_fps
    _ ← guard (in_opt_range ipg 1 1_000_000) invalid_ipg
    _ ← guard (in_opt_range cln_port 1_024 65_535) invalid_cln_port
    cln_ips ← or_error (make_network cln_ips_str) invalid_cln_ips
    srv_ips ← or_error (make_network srv_ips_str) invalid_srv_ips
    inr (record {
      name = name;
      burst = burst % 2 ^ 32;
      flows_per_sec = fps % 2 ^ 32;
      inter_pkts_gap = ipg;
      cln_ips = cln_ips;
      srv_ips = srv_ips;
      cln_port = cln_port;
    })

  -- A round of the loop over the captures.
  pub load_cap : V → Result FlowsConfig
  unfolding check_cap load_opt_u64
  load_cap v = do
    fields ← json.as_object v
    name ← json.at fields "name" >>= json.as_string
    burst ← json.at fields "burst" >>= json.as_uint64
    fps ← json.at fields "fps" >>= json.as_uint64
    ipg ← load_opt_u64 json fields "ipg"
    cln_ips ← json.at fields "cln_ips" >>= json.as_string
    srv_ips ← json.at fields "cln_ips" >>= json.as_string
    cln_port ← load_opt_u64 json fields "cln_port"
    check_cap name burst fps ipg cln_ips srv_ips cln_port

  pub load_caps : List V → Result (List FlowsConfig)
  load_caps [] = inr []
  load_caps (v ∷ vs) = do cfg ← load_cap v; rest ← load_caps vs; inr (cfg ∷ rest)

  -- `gen_config::gen_config`
  pub load_config : String → Result GenConfig
  unfolding load_caps
  load_config cfg_info = do
    json_val ← or_error (json.parse cfg_info) invalid_text
    json_obj ← json.as_object json_val
    dur ← json.at json_obj "duration_secs" >>= json.as_double
    ether_str ← json.at json_obj "dut_ether_addr" >>= json.as_string
    captures ← json.at json_obj "captures" >>= json.as_array
    dut_addr ← or_error (parse_ether_addr ether_str) invalid_dut_addr
    flows_cfgs ← load_caps captures
    inr (record { duration = to_millis dur; dut_addr = dut_addr; flows_cfgs = flows_cfgs })
