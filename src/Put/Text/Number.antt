-- ===== src/Put/Text/Number.antt =====
-- put/string_utils.h: which strings are numbers.
use traffic_generator.Base.{
  ℕ, zero, suc, ◌+◌, ◌*◌, ◌-◌, ◌/◌, ◌%◌, ◌≤◌, ◌<◌, ◌≡◌, refl, ap, ◌∙◌, true, false, Bool-cases,
  none, some, [], ◌∷◌, ◌++◌, length, All, leb, ◌==◌, if◌then◌else◌, ◌⊎◌, inl, inr, arith,
}
use traffic_generator.Put.Text.{Text, is_digit, digits_of, str_to_int}

abbrev pub AllDigits : Text → Type 0
AllDigits = All (λ c. is_digit c ≡ true)

-- The number that digits write, the first one the most significant.
abbrev pub number_from : ℕ → Text → ℕ
number_from n [] = n
number_from n (c ∷ cs) = number_from (n * 10 + (c - 48)) cs

digits_of-AllDigits :
    (n : ℕ) (s : Text)
    → (AllDigits s × (digits_of n s ≡ (number_from n s, length s)))
      ⊎ ((AllDigits s → ⊥) × ((digits_of n s).1 < length s))
unfolding digits_of
digits_of-AllDigits n [] = inl (tt, refl)
digits_of-AllDigits n (c ∷ cs) = elim (Bool-cases (is_digit c)) [
  | inl digit ↦ elim (digits_of-AllDigits (n * 10 + (c - 48)) cs) [
    | inl (all, e) ↦ inl ((digit, all), rw digit (ap (λ p. (p.0, suc p.1)) e))
    | inr (not_all, less) ↦ inr (λ a. not_all a.1, rw digit (omega (arith, less)))
  ]
  | inr other ↦ inr (λ a. let t = a.0 in cc, rw other (omega arith))
]

-- A string is taken for a number exactly if all its characters are digits: for the number that they
-- write, or for 0 if that is greater than the type's greatest. So is the empty string, for 0.
pub str_to_int_lem :
    (max : ℕ) (s : Text)
    → (AllDigits s
        × (str_to_int max s ≡ some (if leb (number_from 0 s) max then number_from 0 s else 0)))
      ⊎ ((AllDigits s → ⊥) × (str_to_int max s ≡ none))
unfolding str_to_int
str_to_int_lem max s = elim (digits_of-AllDigits 0 s) [
  | inl (all, e) ↦
      let e₀ = ap (λ p. p.0) e in
      let e₁ = ap (λ p. p.1) e in
      let whole : ((digits_of 0 s).1 == length s) ≡ true = ground (arith, e₁) in
      inl (all, rw (whole, e₀) refl)
  | inr (not_all, less) ↦
      let part : ((digits_of 0 s).1 == length s) ≡ false = ground (arith, less) in
      inr (not_all, rw part refl)
]

-- A number's decimal digits, with enough fuel.
abbrev pub to_dec : ℕ → ℕ → Text
to_dec zero n = []
to_dec (suc fuel) n =
    let rest = to_dec fuel (n / 10) in (if leb 10 n then rest else []) ++ ((n % 10 + 48) ∷ [])

number_from-snoc :
    (n : ℕ) (s : Text) (c : ℕ) → number_from n (s ++ (c ∷ [])) ≡ number_from n s * 10 + (c - 48)
number_from-snoc n [] c = refl
number_from-snoc n (d ∷ s) c = number_from-snoc (n * 10 + (d - 48)) s c

AllDigits-snoc : (s : Text) (c : ℕ) → AllDigits s → is_digit c ≡ true → AllDigits (s ++ (c ∷ []))
AllDigits-snoc [] c a h = (h, tt)
AllDigits-snoc (d ∷ s) c a h = (a.0, AllDigits-snoc s c a.1 h)

to_dec_lem :
    (fuel n : ℕ) → n < fuel → AllDigits (to_dec fuel n) × (number_from 0 (to_dec fuel n) ≡ n)
to_dec_lem zero n h = absurd (omega (arith, h))
to_dec_lem (suc fuel) n h =
    let digit : is_digit (n % 10 + 48) ≡ true = ground arith in
    elim (Bool-cases (leb 10 n)) [
      | inl more ↦
          let (all, e) = to_dec_lem fuel (n / 10) (ground (arith, more, h)) in
          rw more (
            AllDigits-snoc (to_dec fuel (n / 10)) (n % 10 + 48) all digit,
            number_from-snoc 0 (to_dec fuel (n / 10)) (n % 10 + 48) ∙ omega (arith, e),
          )
      | inr less ↦ rw less ((digit, tt), ground (arith, less))
    ]

-- A number that the type has room for is read back from its decimal digits.
pub str_to_int-to_dec :
    (max fuel n : ℕ) → n ≤ max → n < fuel → str_to_int max (to_dec fuel n) ≡ some n
str_to_int-to_dec max fuel n le enough =
    let (all, e) = to_dec_lem fuel n enough in
    elim (str_to_int_lem max (to_dec fuel n)) [
      | inl (_, r) ↦
          let room : leb n max ≡ true = ground (arith, le) in
          r ∙ ap (λ v. some (if leb v max then v else 0)) e ∙ rw room refl
      | inr (not_all, _) ↦ absurd (not_all all)
    ]
