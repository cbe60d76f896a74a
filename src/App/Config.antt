-- ===== src/App/Config.antt =====
-- app/priv/config.cpp: the formats of two of the options, and what is made of a file's options.
-- Boost's `split` and its parser of addresses are given. So is what the options' library does with
-- the file: it throws at the first value that is not of its option's type, or stores of each option
-- nothing, a value of another type, or a value.
pub mod Options
mod Tests
use Prim.Native.String.{String}
use traffic_generator.Base.{
  ℕ, zero, suc, ◌<◌, ◌≡◌, ◌≢◌, refl, sym, ap, ◌∙◌, Bool, true, false, Bool-cases, Option, none,
  some, Option-cases, List, [], ◌∷◌, length, get_elem?, ◌==◌, if◌then◌else◌, ◌>>=◌, arith,
  get_elem?-eq_none, inl, inr, ◌⊎◌,
}
use traffic_generator.Put.Text.{Text, str_trim, str_to_int}

-- How a validator ends: with a value, by an exception, or with a read out of range.
pub data Validated (A : Type 0) : Type 0 where
  accepted : A → Validated A
  refused : Validated A
  out_of_range : Validated A

abbrev pub colon : ℕ
colon = 58

abbrev pub comma : ℕ
comma = 44

abbrev pub uint16_max : ℕ
uint16_max = 65_535

-- The parts of a string between separators, and whether adjacent ones count as one.
abbrev pub Split : Type 0
Split = ℕ → Bool → Text → List Text

-- A value, or what comes in place of one.
abbrev pub or_else : {A B : Type 0} → Option A → Validated B → (A → Validated B) → Validated B
or_else none e f = e
or_else (some a) e f = f a

module _ (split : Split) (make_address_v4 : Text → Option ℕ) where
  -- The validator of `baio_tcp_endpoint`: the address and the port.
  unfoldable pub validate_endpoint : Text → Validated (ℕ × ℕ)
  validate_endpoint s =
      let parts = split colon false s in
      if length parts == 2
      then or_else (get_elem? parts 0) out_of_range (λ host.
        or_else (make_address_v4 host) refused (λ addr.
          or_else (get_elem? parts 2) out_of_range (λ digits.
            or_else (str_to_int uint16_max digits) refused (λ port. accepted (addr, port)))))
      else refused

  -- An endpoint is never accepted: a string with a host and a port has two parts, and the port is
  -- read from the third.
  pub validate_endpoint_lem : (s : Text) (ep : ℕ × ℕ) → validate_endpoint s ≢ accepted ep
  unfolding validate_endpoint
  validate_endpoint_lem s ep = λ e. elim (Bool-cases (length (split colon false s) == 2)) [
    | inr other ↦ let r : validate_endpoint s ≡ refused = rw other refl in cc
    | inl two ↦
        let none_left : get_elem? (split colon false s) 2 ≡ none =
          get_elem?-eq_none (split colon false s) 2 (ground (arith, two)) in
        elim (Option-cases (get_elem? (split colon false s) 0)) [
          | inl no_host ↦ let r : validate_endpoint s ≡ out_of_range = rw (two, no_host) refl in cc
          | inr (host, h) ↦ elim (Option-cases (make_address_v4 host)) [
            | inl no_addr ↦ let r : validate_endpoint s ≡ refused = rw (two, h, no_addr) refl in cc
            | inr (addr, a) ↦
                let r : validate_endpoint s ≡ out_of_range = rw (two, h, a, none_left) refl in cc
          ]
        ]
  ]

module _ (split : Split) where
  -- The loop over the parts.
  unfoldable pub all_cpus : List Text → Option (List ℕ)
  all_cpus [] = some []
  all_cpus (p ∷ ps) = do
    cpu ← str_to_int uint16_max (str_trim p)
    rest ← all_cpus ps
    some (cpu ∷ rest)

  -- The validator of `cpu_idxs`, which leaves its output unset on every exception.
  unfoldable pub validate_cpus : Text → Option (List ℕ)
  validate_cpus s =
      let parts = split comma true s in if length parts == 2 then all_cpus parts else none

pub data OptError : Type 0 where
  invalid_option : String → OptError
  missing_option : String → OptError

-- What the constructor throws: the file is not there, the options' library refuses it, or the errors
-- of the visit.
pub data LoadFailure : Type 0 where
  no_file : LoadFailure
  invalid_file : String → LoadFailure
  invalid_opts : List OptError → LoadFailure

-- `TGN_CONFIG_SETTINGS`
abbrev pub option_names : List String
option_names =
    "working_dir" ∷ "mgmt_endpoint" ∷ "cpus" ∷ "max_cnt_mbufs" ∷ "num_memory_channels"
    ∷ "nic_queue_size" ∷ []

module _ {V : Type 0} (vm : String → Option (Option V)) where
  -- What is made of one option, before the rest.
  abbrev pub visit_one :
      String → Option (Option V) → List V × List OptError → List V × List OptError
  visit_one name none (vals, errs) = (vals, missing_option name ∷ errs)
  visit_one name (some none) (vals, errs) = (vals, invalid_option name ∷ errs)
  visit_one name (some (some v)) (vals, errs) = (v ∷ vals, errs)

  unfoldable pub visit_opts : List String → List V × List OptError
  visit_opts [] = ([], [])
  visit_opts (name ∷ names) = visit_one name (vm name) (visit_opts names)

  abbrev no_errors : List V × List OptError → LoadFailure ⊎ List V
  no_errors (vals, []) = inr vals
  no_errors (vals, e ∷ errs) = inl (invalid_opts (e ∷ errs))

-- The constructor: whether the file opens, and the exception of the parse and of the store of its
-- options, where either throws, or what is stored.
unfoldable pub load_opts :
    {V : Type 0} → Bool → String ⊎ (String → Option (Option V)) → LoadFailure ⊎ List V
load_opts false stored = inl no_file
load_opts true (inl what) = inl (invalid_file what)
load_opts true (inr vm) = no_errors vm (visit_opts vm option_names)
