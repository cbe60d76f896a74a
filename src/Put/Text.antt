-- ===== src/Put/Text.antt =====
-- put/string_utils.h: trimming, and the parse of a number. A string is the list of its characters'
-- codes. `X3ME_ENFORCE`, which `int_to_str` uses, is defined nowhere, and it is not called.
pub mod Trim
pub mod Number
mod Tests
use traffic_generator.Base.{
  ℕ, zero, suc, ◌+◌, ◌*◌, ◌-◌, Bool, true, false, Option, none, some, List, [], ◌∷◌, ◌++◌, length,
  take, drop, leb, ◌==◌, ◌&&◌, if◌then◌else◌,
}

abbrev pub Text : Type 0
Text = List ℕ

-- A space or a tab.
abbrev pub is_blank : ℕ → Bool
is_blank c = if c == 32 then true else c == 9

-- `find_first_not_of(" \t")`, the size of the string if there is none
unfoldable pub first_not_blank : Text → ℕ
first_not_blank [] = 0
first_not_blank (c ∷ cs) = let rest = first_not_blank cs in if is_blank c then suc rest else 0

-- `find_last_not_of(" \t")`
unfoldable pub last_not_blank : Text → Option ℕ
last_not_blank [] = none
last_not_blank (c ∷ cs) = elim (last_not_blank cs) [
  | some i ↦ some (suc i)
  | none ↦ if is_blank c then none else some 0
]

unfoldable pub str_trim_left : Text → Text
str_trim_left sv = drop (first_not_blank sv) sv

unfoldable pub str_trim_right : Text → Text
str_trim_right sv = elim (last_not_blank sv) [
  | none ↦ []
  | some pos ↦ take (length sv - (length sv - pos - 1)) sv
]

unfoldable pub str_trim : Text → Text
str_trim sv = str_trim_right (str_trim_left sv)

abbrev pub is_digit : ℕ → Bool
is_digit c = leb 48 c && leb c 57

-- `std::from_chars` of an unsigned number: the number of the digits at the start, and how many
-- there are.
unfoldable pub digits_of : ℕ → Text → ℕ × ℕ
digits_of n [] = (n, 0)
digits_of n (c ∷ cs) =
    let (v, k) = digits_of (n * 10 + (c - 48)) cs in if is_digit c then (v, suc k) else (n, 0)

-- `str_to_int` of an unsigned type with the greatest number `max`: only where the parse ended is
-- looked at, and a number that is too great leaves the result at 0.
unfoldable pub str_to_int : ℕ → Text → Option ℕ
str_to_int max str =
    let (v, k) = digits_of 0 str in
    if k == length str then some (if leb v max then v else 0) else none
