-- ===== src/Put/Text/Tests.antt =====
-- Tests of strings: " 1\t", and the numbers 258 and 70000 for 16 bits.
use traffic_generator.Base.{◌≡◌, refl, none, some, [], ◌∷◌, ◌++◌, leb, if◌then◌else◌, ◌⊎◌, arith}
use traffic_generator.Put.Text.{
  Text, str_trim, str_trim_left, str_trim_right, first_not_blank, last_not_blank, digits_of,
  str_to_int,
}
use traffic_generator.Put.Text.Trim.{Blank, Tight, TightEnd, str_trim_lem}
use traffic_generator.Put.Text.Number.{
  AllDigits, number_from, to_dec, str_to_int_lem, str_to_int-to_dec,
}

abbrev padded : Text
padded = 32 ∷ 49 ∷ 9 ∷ []

trimmed : str_trim padded ≡ 49 ∷ []
unfolding str_trim str_trim_left str_trim_right first_not_blank last_not_blank
trimmed = refl

str_trim_example :
    (pre : Text) × (post : Text) × (padded ≡ pre ++ (str_trim padded ++ post))
    × Blank pre
    × Blank post
    × Tight (str_trim padded)
    × TightEnd (str_trim padded)
str_trim_example = str_trim_lem padded

too_great : str_to_int 65_535 (55 ∷ 48 ∷ 48 ∷ 48 ∷ 48 ∷ []) ≡ some 0
unfolding str_to_int digits_of
too_great = refl

str_to_int_example :
    (AllDigits padded
      × (str_to_int 65_535 padded
          ≡ some (if leb (number_from 0 padded) 65_535 then number_from 0 padded else 0)))
    ⊎ ((AllDigits padded → ⊥) × (str_to_int 65_535 padded ≡ none))
str_to_int_example = str_to_int_lem 65_535 padded

str_to_int-to_dec_example : str_to_int 65_535 (to_dec 300 258) ≡ some 258
str_to_int-to_dec_example = str_to_int-to_dec 65_535 300 258 (omega arith) (omega arith)
