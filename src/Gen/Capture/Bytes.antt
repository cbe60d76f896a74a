-- ===== src/Gen/Capture/Bytes.antt =====
-- gen/priv/tcap_loader.cpp: numbers as bytes, and reads of bytes that are there.
use traffic_generator.Base.{
  ℕ, zero, suc, ◌/◌, ◌%◌, ◌^◌, ◌<◌, ◌≡◌, refl, ap, Bool, true, false, none, some, List, [], ◌∷◌,
  ◌++◌, length, take, drop, length-append, leb, ◌==◌, arith,
}
use traffic_generator.Put.Assert.{not}
use traffic_generator.Gen.Capture.{File, fread, le}

-- The low `k` bytes of a number, the least significant first.
abbrev pub to_le : ℕ → ℕ → List ℕ
to_le zero n = []
to_le (suc k) n = n % 256 ∷ to_le k (n / 256)

pub length-to_le : (k n : ℕ) → length (to_le k n) ≡ k
length-to_le zero n = refl
length-to_le (suc k) n = ap suc (length-to_le k (n / 256))

-- A number that is less than `256 ^ k` comes back from its `k` bytes.
pub le-to_le : (k n : ℕ) → n < 256 ^ k → le (to_le k n) ≡ n
le-to_le zero n h = omega arith
le-to_le (suc k) n h = let rest = le-to_le k (n / 256) (omega arith) in omega (arith, rest)

module _ {A : Type 0} where
  pub take-append : (xs ys : List A) (n : ℕ) → n ≡ length xs → take n (xs ++ ys) ≡ xs
  take-append [] ys n e = rw e refl
  take-append (x ∷ xs) ys n e = rw e (ap (λ t. x ∷ t) (take-append xs ys (length xs) refl))

  pub drop-append : (xs ys : List A) (n : ℕ) → n ≡ length xs → drop n (xs ++ ys) ≡ ys
  drop-append [] ys n e = rw e refl
  drop-append (x ∷ xs) ys n e = rw e (drop-append xs ys (length xs) refl)

-- Bytes that are at the start of the file are read.
pub fread-append :
    (n : ℕ) (xs ys : List ℕ) (fault eof : Bool)
    → 0 < n
    → n ≡ length xs
    → fread n (record { bytes = xs ++ ys; fault = fault; eof = eof })
      ≡ (some xs, record { bytes = ys; fault = fault; eof = eof })
unfolding fread
fread-append n xs ys fault eof pos e =
    let not_none : (n == 0) ≡ false = ground arith in
    let enough : leb n (length (xs ++ ys)) ≡ true = ground (arith, length-append xs ys) in
    rw (not_none, enough, take-append xs ys n e, drop-append xs ys n e) refl

-- More bytes than there are are not, and the end of the file is seen unless the medium is faulty.
pub fread-short :
    (n : ℕ) (f : File)
    → length f.bytes < n
    → fread n f ≡ (none, record f { bytes = []; eof = not f.fault })
unfolding fread
fread-short n f short =
    let not_none : (n == 0) ≡ false = ground arith in
    let too_few : leb n (length f.bytes) ≡ false = ground arith in rw (not_none, too_few) refl
