-- ===== src/Ir/Machine.antt =====
-- A block at work. Values are 64-bit words; what the calls and loads of a block give is an oracle's.
use ephippion.Prelude.{
  ℕ, ◌+◌, ◌-◌, ◌*◌, ◌%◌, ◌^◌, Bool, true, false, List, [], ◌∷◌, ltb, leb, ◌==◌, if◌then◌else◌,
}
use ephippion.Llvm.{
  Block, Value, result, const, Predicate, eq, slt, sge, Inst, add, sub, mul, icmp, phi, br, cond_br,
  ret, unreachable, Trace,
}
use ephippion.Ir.Blocks.{Placed, incoming}

abbrev pub word : ℕ
word = 2 ^ 64

-- What each instruction computed.
abbrev pub Values : Type 0
Values = ℕ → ℕ

abbrev pub assign : ℕ → ℕ → Values → Values
assign n x vs m = if n == m then x else vs m

abbrev pub value_of : Values → Value → ℕ
value_of vs (result n) = vs n
value_of vs (const w x) = x

abbrev pub of_bool : Bool → ℕ
of_bool true = 1
of_bool false = 0

-- Signed order on 64-bit words: exchange the halves, then compare.
abbrev pub signed : ℕ → ℕ
signed x = (x + 2 ^ 63) % word

unfoldable pub compare_words : Predicate → ℕ → ℕ → Bool
compare_words eq x y = x == y
compare_words slt x y = ltb (signed x) (signed y)
compare_words sge x y = leb (signed y) (signed x)

unfoldable pub from_block : Values → Block → List (Block × Value) → ℕ
from_block vs b [] = 0
from_block vs b ((c, v) ∷ is) = if c == b then value_of vs v else from_block vs b is

-- What an instruction computes, in a block that was entered from `prev`.
abbrev pub compute : (oracle : ℕ → Values → ℕ) → Trace → Block → Values → ℕ → Inst → ℕ
compute oracle t prev vs n (phi ty k name) = from_block vs prev (incoming t n)
compute oracle t prev vs n (add a b) = (value_of vs a + value_of vs b) % word
compute oracle t prev vs n (sub a b) = (value_of vs a + word - value_of vs b) % word
compute oracle t prev vs n (mul a b) = value_of vs a * value_of vs b % word
compute oracle t prev vs n (icmp p a b) = of_bool (compare_words p (value_of vs a) (value_of vs b))
compute oracle t prev vs n i = oracle n vs

-- How a block is left.
pub data Exit : Type 0 where
  jump : Block → Exit
  returned : Exit
  -- at `unreachable`
  stuck : Exit
  -- at the end of a block that has no terminator
  unfinished : Exit

pub record Left : Type 0 where
  pub exit : Exit
  pub values : Values

abbrev pub left : Exit → Values → Left
left e vs = record { exit = e; values = vs }

unfoldable pub run_block : (oracle : ℕ → Values → ℕ) → Trace → Block → List Placed → Values → Left
run_block oracle t prev [] vs = left unfinished vs
run_block oracle t prev ((n, br b) ∷ is) vs = left (jump b) vs
run_block oracle t prev ((n, cond_br v a b) ∷ is) vs =
    left (jump (if value_of vs v == 0 then b else a)) vs
run_block oracle t prev ((n, ret v) ∷ is) vs = left returned vs
run_block oracle t prev ((n, unreachable) ∷ is) vs = left stuck vs
run_block oracle t prev ((n, i) ∷ is) vs =
    run_block oracle t prev is (assign n (compute oracle t prev vs n i) vs)
