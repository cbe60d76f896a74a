-- ===== src/App/Config/Options.antt =====
-- app/priv/config.cpp: which options a file must have, and the processors that are read.
use Prim.Native.String.{String}
use traffic_generator.Base.{
  ℕ, ◌≤◌, ◌<◌, ◌≡◌, ◌≢◌, refl, sym, ap, ◌∙◌, true, Option, none, some, List, [], ◌∷◌, ◌++◌, ◌⊎◌,
  inl, inr, arith, Bool, false,
}
use traffic_generator.Put.Text.{Text, str_trim, str_to_int}
use traffic_generator.Put.Text.Number.{to_dec, str_to_int-to_dec}
use traffic_generator.App.Config.{
  Split, comma, uint16_max, all_cpus, validate_cpus, OptError, invalid_option, missing_option,
  option_names, visit_one, visit_opts, load_opts, LoadFailure, no_file, invalid_file, invalid_opts,
}

-- Two processors, each by its number with blanks round it, are read as they are written, whatever
-- they are, if the string is split where the comma is.
pub validate_cpus_lem :
    (split : Split) (s a b : Text) (m n fuel : ℕ)
    → split comma true s ≡ a ∷ b ∷ []
    → str_trim a ≡ to_dec fuel m
    → str_trim b ≡ to_dec fuel n
    → m ≤ uint16_max
    → n ≤ uint16_max
    → uint16_max < fuel
    → validate_cpus split s ≡ some (m ∷ n ∷ [])
unfolding validate_cpus all_cpus
validate_cpus_lem split s a b m n fuel e ea eb hm hn enough =
    let first : str_to_int uint16_max (str_trim a) ≡ some m =
      ap (str_to_int uint16_max) ea ∙ str_to_int-to_dec uint16_max fuel m hm (omega arith) in
    let second : str_to_int uint16_max (str_trim b) ≡ some n =
      ap (str_to_int uint16_max) eb ∙ str_to_int-to_dec uint16_max fuel n hn (omega arith) in
    rw (e, first, second) refl

cons_not_nil : (x : OptError) (xs : List OptError) → x ∷ xs ≢ []
cons_not_nil x xs = λ h. cc

module _ {V : Type 0} (vm : String → Option (Option V)) where
  -- The error of an option that is not there, or not of its type.
  abbrev pub error_of : String → Option (Option V) → List OptError
  error_of name none = missing_option name ∷ []
  error_of name (some none) = invalid_option name ∷ []
  error_of name (some (some v)) = []

  abbrev pub errors_of : List String → List OptError
  errors_of [] = []
  errors_of (name ∷ names) = error_of name (vm name) ++ errors_of names

  -- The value of every option, in order.
  abbrev pub AreSet : List String → List V → Type 0
  AreSet [] [] = Unit
  AreSet (name ∷ names) (v ∷ vs) = (vm name ≡ some (some v)) × AreSet names vs
  AreSet [] (v ∷ vs) = ⊥
  AreSet (name ∷ names) [] = ⊥

  visit_one-errors :
      (name : String) (found : Option (Option V)) (r : List V × List OptError)
      → (visit_one vm name found r).1 ≡ error_of name found ++ r.1
  visit_one-errors name none (vals, errs) = refl
  visit_one-errors name (some none) (vals, errs) = refl
  visit_one-errors name (some (some v)) (vals, errs) = refl

  visit_opts-errors : (names : List String) → (visit_opts vm names).1 ≡ errors_of names
  unfolding visit_opts
  visit_opts-errors [] = refl
  visit_opts-errors (name ∷ names) =
      visit_one-errors name (vm name) (visit_opts vm names)
      ∙ ap (λ es. error_of name (vm name) ++ es) (visit_opts-errors names)

  visit_one-AreSet :
      (name : String) (names : List String) (found : Option (Option V)) (r : List V × List OptError)
      → vm name ≡ found
      → (visit_one vm name found r).1 ≡ []
      → (r.1 ≡ [] → AreSet names r.0)
      → AreSet (name ∷ names) (visit_one vm name found r).0
  visit_one-AreSet name names none (vals, errs) e h rest = absurd (cons_not_nil _ errs h)
  visit_one-AreSet name names (some none) (vals, errs) e h rest = absurd (cons_not_nil _ errs h)
  visit_one-AreSet name names (some (some v)) (vals, errs) e h rest = (e, rest h)

  visit_opts-AreSet :
      (names : List String) → (visit_opts vm names).1 ≡ [] → AreSet names (visit_opts vm names).0
  unfolding visit_opts
  visit_opts-AreSet [] h = tt
  visit_opts-AreSet (name ∷ names) h =
      visit_one-AreSet name names (vm name) (visit_opts vm names) refl h (visit_opts-AreSet names)

-- What a file whose options are stored gives: their values, or the exception with their errors.
abbrev pub IsLoadedFrom :
    {V : Type 0} → (String → Option (Option V)) → LoadFailure ⊎ List V → Type 0
IsLoadedFrom vm r =
    ((vals : List _) × (r ≡ inr vals)
      × AreSet vm option_names vals
      × (errors_of vm option_names ≡ []))
    ⊎ ((r ≡ inl (invalid_opts (errors_of vm option_names))) × (errors_of vm option_names ≢ []))

-- What the constructor of the settings ends with. Where the file does not open, or the options'
-- library throws as it parses and stores the options, it throws at once, and no option is visited.
-- Otherwise the settings are loaded exactly if every option is there with a value of its type, and
-- are then those values, each for its option; or the exception names every option that is missing
-- or of another type, once and in order, and no other.
pub load_opts_lem :
    {V : Type 0} (opens : Bool) (stored : String ⊎ (String → Option (Option V)))
    → ((opens ≡ false) × (load_opts opens stored ≡ inl no_file))
      ⊎ ((opens ≡ true)
          × (((what : String) × (stored ≡ inl what)
                × (load_opts opens stored ≡ inl (invalid_file what)))
              ⊎ ((vm : String → Option (Option V)) × (stored ≡ inr vm)
                  × IsLoadedFrom vm (load_opts opens stored))))
unfolding load_opts
load_opts_lem false stored = inl (refl, refl)
load_opts_lem true (inl what) = inr (refl, inl (what, refl, refl))
load_opts_lem true (inr vm) =
    let same = visit_opts-errors vm option_names in
    inr (
      refl,
      inr (
        vm,
        refl,
        elim (nil_or_more (visit_opts vm option_names).1) [
          | inl e ↦ inl (
            (visit_opts vm option_names).0,
            rw e refl,
            visit_opts-AreSet vm option_names e,
            sym same ∙ e,
          )
          | inr (err, errs, e) ↦
              inr (
                rw (sym same, e) refl,
                λ none_left. cons_not_nil err errs (sym e ∙ same ∙ none_left),
              )
        ],
      ),
    )
  where
    nil_or_more :
        (es : List OptError) → (es ≡ []) ⊎ ((e : OptError) × (es' : List OptError) × (es ≡ e ∷ es'))
    nil_or_more [] = inl refl
    nil_or_more (e ∷ es) = inr (e, es, refl)
