-- ===== src/Put/Assert.antt =====
-- put/tg_assert.h: `TG_ENFORCE`. Its uses state what they expect to hold; the macro aborts the
-- program where its argument holds. The code that uses it takes which values abort as a parameter,
-- `aborts`: `tg_enforce` is the macro as it is written, and `IsIntended` says what it is used for.
use traffic_generator.Base.{
  Bool, true, false, Option, none, ◌≡◌, if◌then◌else◌, ◌∙◌, ap, ◌⊎◌, inl, inr, refl, sym,
  Bool-cases, some, ◌>>=◌,
}

-- Whether `TG_ENFORCE` of a condition aborts.
abbrev pub tg_enforce : Bool → Bool
tg_enforce c = c

abbrev pub not : Bool → Bool
not true = false
not false = true

-- A condition that must hold, and what comes after it.
abbrev pub enforce : {A : Type 0} → (Bool → Bool) → Bool → Option A → Option A
enforce aborts c rest = if aborts c then none else rest

-- A condition that holds goes on: what the uses of the macro take for granted.
abbrev pub IsIntended : (Bool → Bool) → Type 0
IsIntended aborts = aborts true ≡ false

-- The macro aborts where its condition holds, as it is written.
abbrev pub IsWritten : (Bool → Bool) → Type 0
IsWritten aborts = (c : Bool) → aborts c ≡ tg_enforce c

pub goes_on : (aborts : Bool → Bool) (c : Bool) → IsIntended aborts → c ≡ true → aborts c ≡ false
goes_on aborts c i e = ap aborts e ∙ i

pub stops : (aborts : Bool → Bool) (c : Bool) → IsWritten aborts → c ≡ true → aborts c ≡ true
stops aborts c i e = i c ∙ e

-- No assertion aborts.
abbrev pub never : Bool → Bool
never c = false

-- A computation that stops, or ends as another one does.
abbrev pub Below : {A : Type 0} → Option A → Option A → Type 0
Below r r' = (r ≡ none) ⊎ (r ≡ r')

-- It stops, or both give a value.
pub both :
    {A : Type 0} (r r' : Option A)
    → Below r r'
    → (r ≡ none) ⊎ ((a : A) × (r ≡ some a) × (r' ≡ some a))
both r r' (inl e) = inl e
both none r' (inr e) = inl refl
both (some a) r' (inr e) = inr (a, refl, sym e)

pub Below-bind :
    {A B : Type 0} (r r' : Option A) (k k' : A → Option B)
    → Below r r'
    → ((a : A) → Below (k a) (k' a))
    → Below (r >>= k) (r' >>= k')
Below-bind r r' k k' (inl e) h = inl (rw e refl)
Below-bind none r' k k' (inr e) h = inl refl
Below-bind (some a) r' k k' (inr e) h = rw (sym e) (h a)

pub enforce-Below :
    {A : Type 0} (aborts : Bool → Bool) (c : Bool) (r r' : Option A)
    → Below r r'
    → Below (enforce aborts c r) r'
enforce-Below aborts c r r' h = elim (Bool-cases (aborts c)) [
  | inl e ↦ inl (rw e refl)
  | inr e ↦ rw e h
]

pub Below-along :
    {A : Type 0} (r₁ r₂ r₁' r₂' : Option A) → r₁ ≡ r₂ → r₁' ≡ r₂' → Below r₂ r₂' → Below r₁ r₁'
Below-along r₁ r₂ r₁' r₂' e e' (inl h) = inl (e ∙ h)
Below-along r₁ r₂ r₁' r₂' e e' (inr h) = inr (e ∙ h ∙ sym e')
