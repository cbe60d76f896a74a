-- ===== src/Put/Text/Trim.antt =====
-- put/string_utils.h: what is left of a string that is trimmed.
use traffic_generator.Base.{
  ℕ, suc, ◌-◌, ◌<◌, ◌≡◌, refl, sym, ap, ◌∙◌, true, false, Bool-cases, Option, none, some,
  Option-cases, [], ◌∷◌, ◌++◌, length, take, All, inl, inr, arith,
}
use mathlib.Core.Path.{subst}
use mathlib.Core.Option.{some-injective}
use traffic_generator.Put.Text.{
  Text, is_blank, first_not_blank, last_not_blank, str_trim_left, str_trim_right, str_trim,
}

abbrev pub Blank : Text → Type 0
Blank = All (λ c. is_blank c ≡ true)

-- The first character of a string, if there is one, is not blank.
abbrev pub Tight : Text → Type 0
Tight [] = Unit
Tight (c ∷ cs) = is_blank c ≡ false

trim_left_lem :
    (sv : Text)
    → (pre : Text) × (sv ≡ pre ++ str_trim_left sv) × Blank pre × Tight (str_trim_left sv)
unfolding str_trim_left first_not_blank
trim_left_lem [] = ([], refl, tt, tt)
trim_left_lem (c ∷ cs) = elim (Bool-cases (is_blank c)) [
  | inl blank ↦
      let (pre, e, b, t) = trim_left_lem cs in rw blank (c ∷ pre, ap (λ s. c ∷ s) e, (blank, b), t)
  | inr tight ↦ rw tight ([], refl, tt, tight)
]

-- The last character of a string, if there is one, is not blank.
abbrev pub TightEnd : Text → Type 0
TightEnd [] = Unit
TightEnd (c ∷ []) = is_blank c ≡ false
TightEnd (c ∷ d ∷ s) = TightEnd (d ∷ s)

-- The part of a string up to its last character that is not blank, and what comes after it.
record Ends (sv kept rest : Text) : Type 0 where
  parts : sv ≡ kept ++ rest
  blank : Blank rest
  tight : TightEnd kept
  head : Tight sv → Tight kept

take_to : Option ℕ → Text → Text
take_to none sv = []
take_to (some pos) sv = take (suc pos) sv

last_not_blank-within : (sv : Text) (pos : ℕ) → last_not_blank sv ≡ some pos → pos < length sv
unfolding last_not_blank
last_not_blank-within [] pos e = cc
last_not_blank-within (c ∷ cs) pos e = elim (Option-cases (last_not_blank cs)) [
  | inr (i, found) ↦
      let here : some (suc i) ≡ some pos = sym (rw found refl) ∙ e in
      omega (arith, some-injective (suc i) pos here, last_not_blank-within cs i found)
  | inl none_found ↦ elim (Bool-cases (is_blank c)) [
    | inl blank ↦ let nothing : last_not_blank (c ∷ cs) ≡ none = rw (none_found, blank) refl in cc
    | inr tight ↦
        let here : last_not_blank (c ∷ cs) ≡ some 0 = rw (none_found, tight) refl in
        omega (arith, some-injective 0 pos (sym here ∙ e))
  ]
]

longer :
    (c : ℕ) (cs : Text) (i : ℕ) (rest : Text)
    → i < length cs
    → Ends cs (take_to (some i) cs) rest
    → Ends (c ∷ cs) (take_to (some (suc i)) (c ∷ cs)) rest
unfolding take_to
longer c [] i rest h r = absurd (omega (arith, h))
longer c (d ∷ cs) i rest h r = record {
  parts = ap (λ s. c ∷ s) r.parts;
  blank = r.blank;
  tight = r.tight;
  head = λ t. t;
}

-- What is left where the last character that is not blank is found, or is not.
last_not_blank-Ends : (sv : Text) → (rest : Text) × Ends sv (take_to (last_not_blank sv) sv) rest
unfolding last_not_blank take_to
last_not_blank-Ends [] = ([], record { parts = refl; blank = tt; tight = tt; head = λ t. tt })
last_not_blank-Ends (c ∷ cs) =
    let (rest, r) = last_not_blank-Ends cs in
    elim (Option-cases (last_not_blank cs)) [
      | inr (i, found) ↦
          rw found (rest, longer c cs i rest (last_not_blank-within cs i found) (rw found at r))
      | inl none_found ↦ elim (Bool-cases (is_blank c)) [
        | inl blank ↦ rw (none_found, blank) (c ∷ rest, all_blank blank rest (rw none_found at r))
        | inr tight ↦ rw (none_found, tight) (rest, only tight rest (rw none_found at r))
      ]
    ]
  where
    all_blank : is_blank c ≡ true → (rest : Text) → Ends cs [] rest → Ends (c ∷ cs) [] (c ∷ rest)
    all_blank b rest r = record {
      parts = ap (λ s. c ∷ s) r.parts;
      blank = (b, r.blank);
      tight = tt;
      head = λ t. tt;
    }

    only : is_blank c ≡ false → (rest : Text) → Ends cs [] rest → Ends (c ∷ cs) (c ∷ []) rest
    only t rest r = record {
      parts = ap (λ s. c ∷ s) r.parts;
      blank = r.blank;
      tight = t;
      head = λ h. h;
    }

trim_right_eq : (sv : Text) → str_trim_right sv ≡ take_to (last_not_blank sv) sv
unfolding str_trim_right take_to
trim_right_eq sv = elim (Option-cases (last_not_blank sv)) [
  | inl none_found ↦ rw (none_found, str_trim_right, take_to) refl
  | inr (pos, found) ↦
      let h = last_not_blank-within sv pos found in
      let e : length sv - (length sv - pos - 1) ≡ suc pos = omega (arith, h) in
      rw (found, str_trim_right, take_to) (ap (λ k. take k sv) e)
]

trim_right-Ends : (sv : Text) → (rest : Text) × Ends sv (str_trim_right sv) rest
trim_right-Ends sv =
    let (rest, r) = last_not_blank-Ends sv in
    (rest, subst (λ s. Ends sv s rest) (sym (trim_right_eq sv)) r)

-- Trimming takes spaces and tabs off both ends of a string, and nothing else: the string is its
-- trimmed part with blanks before and after it, and that part neither starts nor ends with one.
pub str_trim_lem :
    (sv : Text)
    → (pre : Text) × (post : Text) × (sv ≡ pre ++ (str_trim sv ++ post))
      × Blank pre
      × Blank post
      × Tight (str_trim sv)
      × TightEnd (str_trim sv)
unfolding str_trim
str_trim_lem sv =
    let (pre, e, b, t) = trim_left_lem sv in
    let (post, r) = trim_right-Ends (str_trim_left sv) in
    (pre, post, e ∙ ap (λ s. pre ++ s) r.parts, b, r.blank, r.head t, r.tight)
