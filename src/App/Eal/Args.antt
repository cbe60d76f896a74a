-- ===== src/App/Eal/Args.antt =====
-- app/application.cpp: the arguments for DPDK fit in their memory and are read back from it.
use traffic_generator.Base.{
  ℕ, zero, suc, ◌+◌, ◌-◌, ◌^◌, ◌≤◌, ◌<◌, ◌≡◌, refl, sym, ap₂, ◌∙◌, Bool, true, Option, some, List,
  [], ◌∷◌, ◌++◌, length, length-append, take, ltb, ◌==◌, if◌then◌else◌, All, All-append, arith,
}
use mathlib.Core.Path.{subst}
use traffic_generator.Put.Assert.{IsIntended, goes_on}
use traffic_generator.Put.Text.{Text}
use traffic_generator.App.Eal.{
  Span, put_char, put_text, make_arg, make_args, arg_texts, started, start_eal,
}

-- The text that a pointer is read as, of so many characters at most.
pub c_str : ℕ → (ℕ → ℕ) → ℕ → Text
c_str zero mem arg = []
c_str (suc n) mem arg =
    let rest = c_str n mem (arg + 1) in if mem arg == 0 then [] else mem arg ∷ rest

abbrev pub IsText : Text → Type 0
IsText = All (λ c. 0 < c)

-- A text that ends with a zero stands in the memory.
abbrev pub Stands : (ℕ → ℕ) → ℕ → Text → Type 0
Stands mem at [] = mem at ≡ 0
Stands mem at (c ∷ cs) = (mem at ≡ c) × Stands mem (at + 1) cs

abbrev pub AllStand : (ℕ → ℕ) → List ℕ → List Text → Type 0
AllStand mem [] [] = Unit
AllStand mem (arg ∷ args) (text ∷ texts) = Stands mem arg text × AllStand mem args texts
AllStand mem _ _ = ⊥

abbrev pub total : List Text → ℕ
total [] = 0
total (text ∷ texts) = length text + 1 + total texts

c_str-Stands :
    (n : ℕ) (mem : ℕ → ℕ) (at : ℕ) (text : Text)
    → length text < n
    → IsText text
    → Stands mem at text
    → c_str n mem at ≡ text
unfolding c_str
c_str-Stands zero mem at text h t s = absurd (omega arith)
c_str-Stands (suc n) mem at [] h t s = rw s refl
c_str-Stands (suc n) mem at (c ∷ cs) h t s =
    ground (arith, c_str-Stands n mem (at + 1) cs (omega arith) t.1 s.1)

Stands-agree :
    (mem mem' : ℕ → ℕ) (b at : ℕ) (text : Text)
    → at + length text < b
    → ((i : ℕ) → i < b → mem' i ≡ mem i)
    → Stands mem at text
    → Stands mem' at text
Stands-agree mem mem' b at [] h same s = same at (omega arith) ∙ s
Stands-agree mem mem' b at (c ∷ cs) h same s =
    (same at (omega arith) ∙ s.0, Stands-agree mem mem' b (at + 1) cs (omega arith) same s.1)

put_text_below :
    (mem : ℕ → ℕ) (at : ℕ) (text : Text) (i : ℕ) → i < at → put_text mem at text i ≡ mem i
unfolding put_text
put_text_below mem at [] i h = refl
put_text_below mem at (c ∷ cs) i h =
    put_text_below (put_char mem at c) (at + 1) cs i (omega arith) ∙ ground arith

put_text-Stands :
    (mem : ℕ → ℕ) (at : ℕ) (text : Text)
    → Stands (put_char (put_text mem at text) (at + length text) 0) at text
unfolding put_text
put_text-Stands mem at [] = ground arith
put_text-Stands mem at (c ∷ cs) =
    let e : at + suc (length cs) ≡ at + 1 + length cs = omega arith in
    (
      ground (arith, put_text_below (put_char mem at c) (at + 1) cs at (omega arith)),
      subst
          (λ (k : ℕ). Stands (put_char (put_text (put_char mem at c) (at + 1) cs) k 0) (at + 1) cs)
          (sym e) (put_text-Stands (put_char mem at c) (at + 1) cs),
    )

take_all : {A : Type 0} (n : ℕ) (xs : List A) → length xs ≤ n → take n xs ≡ xs
take_all zero [] h = refl
take_all zero (x ∷ xs) h = absurd (omega arith)
take_all (suc n) [] h = refl
take_all (suc n) (x ∷ xs) h = let e = take_all n xs (omega arith) in rw e refl

abbrev span_after : Text → Span → Span
span_after text buf = record {
  mem = put_char (put_text buf.mem buf.beg text) (buf.beg + length text) 0;
  beg = buf.beg + (length text + 1);
  size = buf.size - (length text + 1);
}

module _ (aborts : Bool → Bool) (intended : IsIntended aborts) where
  make_arg_lem :
      (text : Text) (buf : Span)
      → length text < buf.size
      → make_arg aborts text buf ≡ some (buf.beg, span_after text buf)
  unfolding make_arg
  make_arg_lem text buf h =
      let room : ltb (length text) buf.size ≡ true = ground (arith, h) in
      let whole = take_all buf.size text (omega arith) in
      rw (whole, goes_on aborts (ltb (length text) buf.size) intended room) refl

  make_args_lem :
      (texts : List Text) (buf : Span)
      → All IsText texts
      → total texts ≤ buf.size
      → (args : List ℕ) × (buf' : Span) × (make_args aborts texts buf ≡ some (args, buf'))
        × AllStand buf'.mem args texts
        × ((i : ℕ) → i < buf.beg → buf'.mem i ≡ buf.mem i)
        × (buf'.beg ≡ buf.beg + total texts)
  unfolding make_args
  make_args_lem [] buf t h = ([], buf, refl, tt, λ i lt. refl, omega arith)
  make_args_lem (text ∷ texts) buf t h =
      let buf1 = span_after text buf in
      let (args, buf', e, stand, same, ends) = make_args_lem texts buf1 t.1 (omega arith) in
      (
        buf.beg ∷ args,
        buf',
        rw (make_arg_lem text buf (omega arith), e) refl,
        (
          Stands-agree buf1.mem buf'.mem buf1.beg buf.beg text (omega arith) same
              (put_text-Stands buf.mem buf.beg text),
          stand,
        ),
        λ i lt. same i (omega arith) ∙ not_written i lt ∙ put_text_below buf.mem buf.beg text i lt,
        omega (arith, ends),
      )
    where
      not_written :
          (i : ℕ) → i < buf.beg → (span_after text buf).mem i ≡ put_text buf.mem buf.beg text i
      not_written i lt = ground arith

-- The pointers are read as the texts, one after the other.
abbrev pub reads_as : (ℕ → ℕ) → List ℕ → List Text
reads_as mem [] = []
reads_as mem (arg ∷ args) = c_str 1024 mem arg ∷ reads_as mem args

reads_as_lem :
    (mem : ℕ → ℕ) (args : List ℕ) (texts : List Text)
    → All IsText texts
    → total texts ≤ 1024
    → AllStand mem args texts
    → reads_as mem args ≡ texts
reads_as_lem mem [] [] t h s = refl
reads_as_lem mem [] (text ∷ texts) t h s = absurd s
reads_as_lem mem (arg ∷ args) [] t h s = absurd s
reads_as_lem mem (arg ∷ args) (text ∷ texts) t h s =
    let e = c_str-Stands 1024 mem arg text (omega arith) t.0 s.0 in
    let e' = reads_as_lem mem args texts t.1 (omega arith) s.1 in ap₂ (λ x xs. x ∷ xs) e e'

-- What is relied on of a printed number of 32 bits: ten characters at most, none of them zero.
abbrev pub IsDecimal : (ℕ → Text) → Type 0
IsDecimal dec = (n : ℕ) → n < 2 ^ 32 → (length (dec n) ≤ 10) × IsText (dec n)

module _ (dec : ℕ → Text) (decimal : IsDecimal dec) (aborts : Bool → Bool)
    (intended : IsIntended aborts) where
  arg_texts-IsText :
      (cpu0 cpu1 num_channels : ℕ)
      → cpu0 < 2 ^ 32
      → cpu1 < 2 ^ 32
      → num_channels < 2 ^ 32
      → All IsText (arg_texts dec cpu0 cpu1 num_channels)
        × (total (arg_texts dec cpu0 cpu1 num_channels) ≤ 1024)
  unfolding arg_texts
  arg_texts-IsText cpu0 cpu1 num_channels h0 h1 h2 =
      let (l0, t0) = decimal cpu0 h0 in
      let (l1, t1) = decimal cpu1 h1 in
      let (l2, t2) = decimal num_channels h2 in
      let cpus : IsText (dec cpu0 ++ (b',' ∷ dec cpu1)) =
        All-append (λ c. 0 < c) (dec cpu0) (b',' ∷ dec cpu1) t0 (omega arith, t1) in
      (
        (
          omega arith,
          (
            omega arith,
            (
              (omega arith, (omega arith, (omega arith, cpus))),
              ((omega arith, (omega arith, (omega arith, t2))), tt),
            ),
          ),
        ),
        omega (arith, length-append (dec cpu0) (b',' ∷ dec cpu1)),
      )

  -- Where a condition that holds goes on.
  pub start_eal-Passed :
      (eal_init : List ℕ → (ℕ → ℕ) → Option Bool) (mem_buf : ℕ → ℕ) (cpu0 cpu1 num_channels : ℕ)
      → cpu0 < 2 ^ 32
      → cpu1 < 2 ^ 32
      → num_channels < 2 ^ 32
      → (args : List ℕ) × (buf : Span) × (start_eal dec aborts eal_init mem_buf cpu0 cpu1
            num_channels
          ≡ started aborts buf (eal_init args buf.mem))
        × (reads_as buf.mem args ≡ arg_texts dec cpu0 cpu1 num_channels)
        × (buf.beg ≤ 1024)
  unfolding start_eal
  start_eal-Passed eal_init mem_buf cpu0 cpu1 num_channels h0 h1 h2 =
      let texts = arg_texts dec cpu0 cpu1 num_channels in
      let (t, fits) = arg_texts-IsText cpu0 cpu1 num_channels h0 h1 h2 in
      let (args, buf, e, stand, _, ends) =
        make_args_lem aborts intended texts (record { mem = mem_buf; beg = 0; size = 1024 }) t
          fits in
      (args, buf, rw e refl, reads_as_lem buf.mem args texts t fits stand, omega (arith, ends))
