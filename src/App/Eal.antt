-- ===== src/App/Eal.antt =====
-- app/application.cpp: the arguments that DPDK is started with, in the memory of `mem_buf`, and the
-- start. A text is a list of its characters' codes; the texts of numbers are those of the fmt
-- library, a parameter.
pub mod Args
mod Tests
use traffic_generator.Base.{
  ℕ, zero, suc, ◌+◌, ◌-◌, Bool, true, false, Option, none, some, List, [], ◌∷◌, ◌++◌, length, take,
  ltb, ◌==◌, if◌then◌else◌, ◌>>=◌, ◌⊎◌, inl, inr,
}
use traffic_generator.Put.Assert.{enforce}
use traffic_generator.Put.Text.{Text}

-- The memory by its offsets, and the rest of it that `buf` spans.
pub record Span : Type 0 where
  pub mem : ℕ → ℕ
  pub beg : ℕ
  pub size : ℕ

abbrev pub put_char : (ℕ → ℕ) → ℕ → ℕ → ℕ → ℕ
put_char mem at c i = if i == at then c else mem i

-- `format_to_n`: the characters are written up to the end of the span.
pub put_text : (ℕ → ℕ) → ℕ → Text → ℕ → ℕ
put_text mem at [] = mem
put_text mem at (c ∷ cs) = put_text (put_char mem at c) (at + 1) cs

module _ (aborts : Bool → Bool) where
  -- The pointer to an argument's text, which ends with a zero, and what is left of the memory.
  pub make_arg : Text → Span → Option (ℕ × Span)
  unfolding put_text
  make_arg text buf =
      let mem = put_text buf.mem buf.beg (take buf.size text) in
      enforce aborts (ltb (length text) buf.size) (
        some (
          buf.beg,
          record {
            mem = put_char mem (buf.beg + length text) 0;
            beg = buf.beg + (length text + 1);
            size = buf.size - (length text + 1);
          },
        ))

  pub make_args : List Text → Span → Option (List ℕ × Span)
  unfolding make_arg
  make_args [] buf = some ([], buf)
  make_args (text ∷ texts) buf = do
    (arg, buf') ← make_arg text buf
    (args, buf'') ← make_args texts buf'
    some (arg ∷ args, buf'')

-- The constructor of `dpdk_eal`: `eal_init` is given the arguments and the memory, and fails or
-- tells whether this is the primary process. A start that fails is an exception, `false` here.
pub started : (Bool → Bool) → Span → Option Bool → Option (Bool × Span)
started aborts buf none = some (false, buf)
started aborts buf (some primary) = enforce aborts primary (some (true, buf))

module _ (dec : ℕ → Text) where
  -- "xproxy", "--no-telemetry", "-l {},{}" and "-n {}"
  pub arg_texts : ℕ → ℕ → ℕ → List Text
  arg_texts cpu0 cpu1 num_channels =
      (b'x' ∷ b'p' ∷ b'r' ∷ b'o' ∷ b'x' ∷ b'y' ∷ [])
      ∷ (b'-' ∷ b'-' ∷ b'n' ∷ b'o' ∷ b'-' ∷ b't' ∷ b'e' ∷ b'l' ∷ b'e' ∷ b'm' ∷ b'e' ∷ b't' ∷ b'r'
          ∷ b'y' ∷ [])
      ∷ (b'-' ∷ b'l' ∷ b' ' ∷ (dec cpu0 ++ (b',' ∷ dec cpu1)))
      ∷ (b'-' ∷ b'n' ∷ b' ' ∷ dec num_channels)
      ∷ []

  pub start_eal :
      (Bool → Bool) → (List ℕ → (ℕ → ℕ) → Option Bool) → (ℕ → ℕ) → ℕ → ℕ → ℕ → Option (Bool × Span)
  unfolding arg_texts make_args started
  start_eal aborts eal_init mem_buf cpu0 cpu1 num_channels = do
    (args, buf) ←
        make_args aborts (arg_texts cpu0 cpu1 num_channels)
          (record { mem = mem_buf; beg = 0; size = 1024 })
    started aborts buf (eal_init args buf.mem)
