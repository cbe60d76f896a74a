-- ===== src/Put/EtherAddr/Tests.antt =====
-- put/ether_addr.cpp: addresses with a reader and a printer of hexadecimal digits.
use traffic_generator.Base.{
  ℕ, ◌+◌, ◌*◌, ◌-◌, ◌/◌, ◌%◌, ◌<◌, ◌≡◌, refl, ap, ◌∙◌, Option, none, some, List, [], ◌∷◌, length,
  ltb, if◌then◌else◌, arith,
}
use traffic_generator.Put.Text.{Text}
use traffic_generator.Put.EtherAddr.{
  NoDigit, ReadsBack, AreBytes, parse_ether_addr, print_ether_addr, parse-print,
  parse_ether_addr-AreBytes,
}

abbrev digit : ℕ → ℕ
digit d = if ltb d 10 then d + 48 else d + 87

value : ℕ → Option ℕ
value c =
    if ltb c 48
    then none
    else if ltb c 58
    then some (c - 48)
    else if ltb c 97
    then none
    else if ltb c 103
    then some (c - 87)
    else none

-- A number of one digit at least.
go : ℕ → Text → ℕ × Text
go acc [] = (acc, [])
go acc (c ∷ cs) = elim (value c) [ some d ↦ go (acc * 16 + d) cs | none ↦ (acc, c ∷ cs) ]

hex : Text → Option (ℕ × Text)
unfolding go
hex [] = none
hex (c ∷ cs) = elim (value c) [ some d ↦ some (go d cs) | none ↦ none ]

abbrev hex2 : ℕ → Text
hex2 b = digit (b / 16) ∷ digit (b % 16) ∷ []

value-digit : (d : ℕ) → d < 16 → value (digit d) ≡ some d
unfolding value
value-digit d h = ground arith

go_end : (acc : ℕ) (rest : Text) → NoDigit rest → go acc rest ≡ (acc, rest)
unfolding go value
go_end acc [] n = refl
go_end acc (c ∷ cs) n = rw n refl

go_next : (acc c d : ℕ) (cs : Text) → value c ≡ some d → go acc (c ∷ cs) ≡ go (acc * 16 + d) cs
unfolding go
go_next acc c d cs e = rw (e, go) refl

hex-ReadsBack : ReadsBack hex hex2
unfolding hex
hex-ReadsBack b rest h n =
    let first = value-digit (b / 16) (omega (arith, h)) in
    let second =
      go_next (b / 16) (digit (b % 16)) (b % 16) rest (value-digit (b % 16) (omega arith)) in
    let whole : b / 16 * 16 + b % 16 ≡ b = omega arith in
    let all_of : go (b / 16) (digit (b % 16) ∷ rest) ≡ (b, rest) =
      second ∙ ap (λ k. go k rest) whole ∙ go_end b rest n in
    rw (first, hex) (ap some all_of)

abbrev some_bytes : List ℕ
some_bytes = 1 ∷ 255 ∷ 0 ∷ 0 ∷ 0 ∷ 10 ∷ []

abbrev some_text : Text
some_text = b'1' ∷ b':' ∷ b'f' ∷ b'f' ∷ b':' ∷ b'0' ∷ b':' ∷ b'0' ∷ b':' ∷ b'0' ∷ b':' ∷ b'a' ∷ []

some_text-read : parse_ether_addr hex some_text ≡ some some_bytes
unfolding parse_ether_addr hex go value
some_text-read = refl

parse-print_example :
    parse_ether_addr hex (print_ether_addr hex2 (2 ∷ 255 ∷ 16 ∷ 0 ∷ 9 ∷ 171 ∷ []))
    ≡ some (2 ∷ 255 ∷ 16 ∷ 0 ∷ 9 ∷ 171 ∷ [])
parse-print_example =
    parse-print hex hex2 hex-ReadsBack 2 (255 ∷ 16 ∷ 0 ∷ 9 ∷ 171 ∷ []) refl (omega arith)

parse_ether_addr-AreBytes_example : (length some_bytes ≡ 6) × AreBytes some_bytes
parse_ether_addr-AreBytes_example =
    parse_ether_addr-AreBytes hex some_text some_bytes some_text-read
