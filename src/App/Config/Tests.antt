-- ===== src/App/Config/Tests.antt =====
-- A test of the options: the processors "1, 2", an endpoint, and a file without one option.
use Prim.Native.String.{String}
use text.Mathlib.Text.{◌==◌ as str_eq}
use traffic_generator.Base.{
  ℕ, ◌≡◌, ◌≢◌, refl, Option, none, some, [], ◌∷◌, if◌then◌else◌, ◌⊎◌, inl, inr, arith, true, false,
}
use traffic_generator.Put.Text.{
  Text, str_trim, str_trim_left, str_trim_right, first_not_blank, last_not_blank,
}
use traffic_generator.App.Config.{
  Split, accepted, out_of_range, validate_endpoint, validate_endpoint_lem, validate_cpus,
  missing_option, option_names, visit_opts, load_opts, no_file, invalid_file,
}
use traffic_generator.App.Config.Options.{validate_cpus_lem, IsLoadedFrom, load_opts_lem}

-- "1" and " 2"
abbrev two_parts : Split
two_parts sep compress s = (49 ∷ []) ∷ (32 ∷ 50 ∷ []) ∷ []

abbrev any_address : Text → Option ℕ
any_address s = some 1

reads_third : validate_endpoint two_parts any_address [] ≡ out_of_range
unfolding validate_endpoint
reads_third = refl

validate_endpoint_example : validate_endpoint two_parts any_address [] ≢ accepted (1, 2)
validate_endpoint_example = validate_endpoint_lem two_parts any_address [] (1, 2)

validate_cpus_example : validate_cpus two_parts [] ≡ some (1 ∷ 2 ∷ [])
unfolding str_trim str_trim_left str_trim_right first_not_blank last_not_blank
validate_cpus_example =
    validate_cpus_lem two_parts [] (49 ∷ []) (32 ∷ 50 ∷ []) 1 2 65_536 refl refl refl (omega arith)
      (omega arith) (omega arith)

-- Every option but the processors.
abbrev no_cpus : String → Option (Option ℕ)
no_cpus name = if str_eq name "cpus" then none else some (some 7)

no_cpus_errors : (visit_opts no_cpus option_names).1 ≡ missing_option "cpus" ∷ []
unfolding visit_opts
no_cpus_errors = refl

load_opts_example :
    ((true ≡ false) × (load_opts true (inr no_cpus) ≡ inl no_file))
    ⊎ ((true ≡ true)
        × (((what : String) × (◌≡◌ {A = String ⊎ (String → Option (Option ℕ))}
                (inr no_cpus)
                (inl what))
              × (load_opts true (inr no_cpus) ≡ inl (invalid_file what)))
            ⊎ ((vm : String → Option (Option ℕ)) × (◌≡◌ {A = String ⊎ (String → Option (Option ℕ))}
                  (inr no_cpus)
                  (inr vm))
                × IsLoadedFrom vm (load_opts true (inr no_cpus)))))
load_opts_example = load_opts_lem true (inr no_cpus)
