-- ===== src/Put/EtherAddr.antt =====
-- put/ether_addr.cpp: the parse and the print of an Ethernet address, on texts as lists of
-- characters' codes. The reader of a hexadecimal number is that of Boost.Spirit, which gives the
-- number and the text after it, and the two digits of a byte are those of the fmt library.
mod Tests
use traffic_generator.Base.{
  ℕ, zero, suc, ◌+◌, ◌%◌, ◌<◌, ◌≡◌, refl, sym, ap, ◌∙◌, Bool, true, false, Bool-cases, Option, none,
  some, Option-cases, List, [], ◌∷◌, ◌++◌, length, All, leb, ◌==◌, if◌then◌else◌, ◌>>=◌, inl, inr,
  arith,
}
use mathlib.Core.Option.{some-injective}
use mathlib.Core.Path.{subst}
use traffic_generator.Put.Text.{Text}

-- `':'`
unfoldable pub colon : Text → Option Text
colon [] = none
colon (c ∷ cs) = if c == b':' then some cs else none

-- `bx3::eoi`
unfoldable pub end_of_input : List ℕ → Text → Option (List ℕ)
end_of_input bytes [] = some bytes
end_of_input bytes (c ∷ cs) = none

module _ (hex : Text → Option (ℕ × Text)) where
  -- `bx3::hex[fill]`: the byte that is stored, unless the number is none of a byte.
  pub hex_fill : Text → Option (ℕ × Text)
  hex_fill str = do (val, rest) ← hex str; if leb val 255 then some (val % 256, rest) else none

  -- The `n` bytes after a first one, each after its colon.
  pub more_bytes : ℕ → Text → Option (List ℕ × Text)
  unfolding colon hex_fill
  more_bytes zero str = some ([], str)
  more_bytes (suc n) str = do
    after ← colon str
    (b, rest) ← hex_fill after
    (bs, rest') ← more_bytes n rest
    some (b ∷ bs, rest')

  unfoldable pub parse_ether_addr : Text → Option (List ℕ)
  unfolding hex_fill more_bytes end_of_input
  parse_ether_addr str = do
    (b, rest) ← hex_fill str
    (bs, rest') ← more_bytes 5 rest
    end_of_input (b ∷ bs) rest'

-- The rest of a text after its first byte, and `format`.
module _ (hex2 : ℕ → Text) where
  pub print_more : List ℕ → Text
  print_more [] = []
  print_more (b ∷ bs) = b':' ∷ (hex2 b ++ print_more bs)

  unfoldable pub print_ether_addr : List ℕ → Text
  unfolding print_more
  print_ether_addr [] = []
  print_ether_addr (b ∷ bs) = hex2 b ++ print_more bs

-- A text that no hexadecimal digit begins.
abbrev pub NoDigit : Text → Type 0
NoDigit [] = Unit
NoDigit (c ∷ cs) = c ≡ b':'

-- What is relied on: the two digits of a byte are read back as that byte, and no more than them
-- where a colon follows or the text ends.
abbrev pub ReadsBack : (Text → Option (ℕ × Text)) → (ℕ → Text) → Type 0
ReadsBack hex hex2 =
    (b : ℕ) (rest : Text) → b < 256 → NoDigit rest → hex (hex2 b ++ rest) ≡ some (b, rest)

abbrev pub AreBytes : List ℕ → Type 0
AreBytes = All (λ b. b < 256)

module _ (hex : Text → Option (ℕ × Text)) (hex2 : ℕ → Text) (reads : ReadsBack hex hex2) where
  hex_fill_lem :
      (b : ℕ) (rest : Text)
      → b < 256
      → NoDigit rest
      → hex_fill hex (hex2 b ++ rest) ≡ some (b, rest)
  unfolding hex_fill
  hex_fill_lem b rest h n =
      let byte : leb b 255 ≡ true = ground (arith, h) in
      let same : b % 256 ≡ b = omega (arith, h) in rw (reads b rest h n, byte, same) refl

  print_more-NoDigit : (bs : List ℕ) → NoDigit (print_more hex2 bs)
  unfolding print_more
  print_more-NoDigit [] = tt
  print_more-NoDigit (b ∷ bs) = refl

  more_bytes_lem :
      (bs : List ℕ) → AreBytes bs → more_bytes hex (length bs) (print_more hex2 bs) ≡ some (bs, [])
  unfolding more_bytes print_more colon
  more_bytes_lem [] a = refl
  more_bytes_lem (b ∷ bs) a =
      let first = hex_fill_lem b (print_more hex2 bs) a.0 (print_more-NoDigit bs) in
      let others = more_bytes_lem bs a.1 in rw (first, others) refl

  -- An address of six bytes that is printed is read back as itself. It is relied on that the two
  -- digits of a byte are read back as that byte.
  pub parse-print :
      (b : ℕ) (bs : List ℕ)
      → length bs ≡ 5
      → AreBytes (b ∷ bs)
      → parse_ether_addr hex (print_ether_addr hex2 (b ∷ bs)) ≡ some (b ∷ bs)
  unfolding parse_ether_addr print_ether_addr
  parse-print b bs five a =
      let first = hex_fill_lem b (print_more hex2 bs) a.0 (print_more-NoDigit bs) in
      let others =
        ap (λ n. more_bytes hex n (print_more hex2 bs)) (sym five) ∙ more_bytes_lem bs a.1 in
      rw (first, others) refl

bind_some :
    {A B : Type 0} (m : Option A) (f : A → Option B) {b : B}
    → (m >>= f) ≡ some b
    → (a : A) × (m ≡ some a) × (f a ≡ some b)
bind_some none f h = cc
bind_some (some a) f h = (a, refl, h)

module _ (hex : Text → Option (ℕ × Text)) where
  hex_fill_lt : (str : Text) (r : ℕ × Text) → hex_fill hex str ≡ some r → r.0 < 256
  unfolding hex_fill
  hex_fill_lt str r h = let ((val, rest), e, e') = bind_some (hex str) _ h in byte val rest e'
    where
      byte :
          (val : ℕ) (rest : Text)
          → (if leb val 255 then some (val % 256, rest) else none) ≡ some r
          → r.0 < 256
      byte val rest k = elim (Bool-cases (leb val 255)) [
        | inl le ↦
            let k' : some (val % 256, rest) ≡ some r = rw le at k in
            let same : val % 256 ≡ r.0 = ap (λ x. x.0) (some-injective (val % 256, rest) r k') in
            omega arith
        | inr gt ↦ let k' : none ≡ some r = rw gt at k in cc
      ]

  more_bytes-AreBytes :
      (n : ℕ) (str : Text) (r : List ℕ × Text)
      → more_bytes hex n str ≡ some r
      → (length r.0 ≡ n) × AreBytes r.0
  unfolding more_bytes
  more_bytes-AreBytes zero str r h =
      let e : [] ≡ r.0 = ap (λ x. x.0) (some-injective ([], str) r h) in
      subst (λ bs. (length bs ≡ 0) × AreBytes bs) e (refl, tt)
  more_bytes-AreBytes (suc n) str r h =
      let (after, e, h') = bind_some (colon str) _ h in
      let ((b, rest), e', h'') = bind_some (hex_fill hex after) _ h' in
      let ((bs, rest'), e'', h''') = bind_some (more_bytes hex n rest) _ h'' in
      let (len, are) = more_bytes-AreBytes n rest (bs, rest') e'' in
      let same : b ∷ bs ≡ r.0 = ap (λ x. x.0) (some-injective (b ∷ bs, rest') r h''') in
      subst (λ l. (length l ≡ suc n) × AreBytes l) same
        (omega (arith, len), (hex_fill_lt after (b, rest) e', are))

  -- Whatever text is taken for an address, six bytes are read of it.
  pub parse_ether_addr-AreBytes :
      (str : Text) (bytes : List ℕ)
      → parse_ether_addr hex str ≡ some bytes
      → (length bytes ≡ 6) × AreBytes bytes
  unfolding parse_ether_addr end_of_input
  parse_ether_addr-AreBytes str bytes h =
      let ((b, rest), e, h') = bind_some (hex_fill hex str) _ h in
      let ((bs, rest'), e', h'') = bind_some (more_bytes hex 5 rest) _ h' in
      let (len, are) = more_bytes-AreBytes 5 rest (bs, rest') e' in
      let same = whole (b ∷ bs) rest' h'' in
      subst (λ l. (length l ≡ 6) × AreBytes l) same
        (omega (arith, len), (hex_fill_lt str (b, rest) e, are))
    where
      whole : (bs : List ℕ) (rest : Text) → end_of_input bs rest ≡ some bytes → bs ≡ bytes
      whole bs [] k = some-injective bs bytes k
      whole bs (c ∷ cs) k = cc
