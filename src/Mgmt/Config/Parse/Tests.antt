-- ===== src/Mgmt/Config/Parse/Tests.antt =====
-- A test of the configuration: one capture, with the keys of the documentation.
use Prim.Native.String.{String}
use text.Mathlib.Text.{◌==◌ as str_eq}
use traffic_generator.Base.{
  none, inl, Bool, if◌then◌else◌, ℕ, ◌*◌, Option, some, List, [], ◌∷◌, All, ◌≡◌, refl, inr,
}
use traffic_generator.Put.Numbers.{in_range_inclusive}
use traffic_generator.Mgmt.Config.{Net, GenConfig}
use traffic_generator.Mgmt.Config.Parse.{
  JsonApi, Result, missing, wrong_kind, ◌>>=◌, load_opt_u64, check_cap, load_cap, load_caps,
  load_config,
}
use traffic_generator.Mgmt.Config.Parse.Limits.{IsLimited, load_config-IsLimited}

-- A JSON value of each kind, with numbers of type `double` in `D`.
mutual
  pub data Json (D : Type 0) : Type 0 where
    null : Json D
    boolean : Bool → Json D
    -- whether it is negative, and its size
    int64 : Bool → ℕ → Json D
    uint64 : ℕ → Json D
    double : D → Json D
    string : String → Json D
    array : JsonList D → Json D
    object : JsonFields D → Json D

  pub data JsonList (D : Type 0) : Type 0 where
    nil : JsonList D
    cons : Json D → JsonList D → JsonList D

  pub data JsonFields (D : Type 0) : Type 0 where
    no_field : JsonFields D
    field : String → Json D → JsonFields D → JsonFields D

module _ {D : Type 0} where
  abbrev at : JsonFields D → String → Result (Json D)
  at no_field key = inl (missing key)
  at (field k v rest) key = let found = at rest key in if str_eq k key then inr v else found

  abbrev as_object : Json D → Result (JsonFields D)
  as_object (object fields) = inr fields
  as_object _ = inl wrong_kind

  abbrev to_list : JsonList D → List (Json D)
  to_list nil = []
  to_list (cons v vs) = v ∷ to_list vs

  abbrev as_array : Json D → Result (List (Json D))
  as_array (array values) = inr (to_list values)
  as_array _ = inl wrong_kind

  abbrev as_string : Json D → Result String
  as_string (string s) = inr s
  as_string _ = inl wrong_kind

  abbrev as_uint64 : Json D → Result ℕ
  as_uint64 (uint64 n) = inr n
  as_uint64 _ = inl wrong_kind

  abbrev as_double : Json D → Result D
  as_double (double d) = inr d
  as_double _ = inl wrong_kind

  abbrev if_uint64 : Json D → Option ℕ
  if_uint64 (uint64 n) = some n
  if_uint64 _ = none

abbrev a_capture : JsonFields ℕ
a_capture = field "name" (string "test.pcap") (
    field "burst" (uint64 1) (
      field "fps" (uint64 10) (
        field "ipg" (uint64 10_000) (
          field "cln_ips" (string "16.0.0.1/29")
            (field "srv_ips" (string "48.0.0.1/29") (field "cln_port" (uint64 1_024) no_field))))))

abbrev a_config : JsonFields ℕ
a_config = field "duration_secs" (double 10) (
    field "dut_ether_addr" (string "e4:8d:8c:20:fb:bc")
      (field "captures" (array (cons (object a_capture) nil)) no_field))

abbrev pub json_test : JsonApi (Json ℕ) (JsonFields ℕ) ℕ
json_test = record {
  parse = λ s. some (object a_config);
  as_object = as_object;
  as_array = as_array;
  as_string = as_string;
  as_uint64 = as_uint64;
  as_double = as_double;
  if_uint64 = if_uint64;
  at = at;
}

abbrev pub net_test : String → Option Net
net_test s = some (record { addr = 268435456; prefix_len = 29 })

abbrev pub addr_test : String → Option (List ℕ)
addr_test s = some (0xe4 ∷ 0x8d ∷ 0x8c ∷ 0x20 ∷ 0xfb ∷ 0xbc ∷ [])

abbrev pub millis_test : ℕ → ℕ
millis_test secs = secs * 1_000

abbrev pub loaded : GenConfig
loaded = record {
  duration = 10_000;
  dut_addr = 0xe4 ∷ 0x8d ∷ 0x8c ∷ 0x20 ∷ 0xfb ∷ 0xbc ∷ [];
  flows_cfgs =
      record {
        name = "test.pcap";
        burst = 1;
        flows_per_sec = 10;
        inter_pkts_gap = some 10_000;
        cln_ips = record { addr = 268435456; prefix_len = 29 };
        srv_ips = record { addr = 268435456; prefix_len = 29 };
        cln_port = some 1_024;
      }
      ∷ [];
}

pub loaded_eq : load_config json_test net_test addr_test millis_test "" ≡ inr loaded
unfolding load_config load_caps load_cap check_cap load_opt_u64 ◌>>=◌ in_range_inclusive
loaded_eq = refl

load_config_example : All (IsLimited net_test) loaded.flows_cfgs
load_config_example =
    load_config-IsLimited json_test net_test addr_test millis_test "" loaded loaded_eq
