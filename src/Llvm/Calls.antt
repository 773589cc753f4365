-- ===== src/Llvm/Calls.antt =====
-- The calls into LLVM that change a module, as data.
use ephippion.Prelude.{
  ℕ, Bool, true, false, Option, none, some, List, [], ◌∷◌, length, ◌==◌, if◌then◌else◌, Text,
}
use ephippion.Llvm.Types.{Ty, FunctionType, Callee}

-- A block is named by the position of the call that created it.
abbrev pub Block : Type 0
Block = ℕ

-- `result n` is what the call at position `n` returned; `const w n` is `getIntN(w, n)`.
pub data Value : Type 0 where
  result : ℕ → Value
  const : ℕ → ℕ → Value

pub data Predicate : Type 0 where
  eq slt sge : Predicate

-- The instructions that the builder is asked for, and its unreachable, branch and return.
pub data Inst : Type 0 where
  alloca : Ty → Text → Inst
  call : Callee → List Value → Inst
  add sub mul : Value → Value → Inst
  icmp : Predicate → Value → Value → Inst
  phi : Ty → ℕ → Text → Inst
  load : Value → Inst
  bit_cast : Value → Ty → Inst
  br : Block → Inst
  cond_br : Value → Block → Block → Inst
  ret : Value → Inst
  unreachable : Inst

-- An `IRBuilder`'s insertion point: the end of a block, or in front of an instruction.
pub data Point : Type 0 where
  end_of : Block → Point
  before : ℕ → Point

pub data Call : Type 0 where
  get_or_insert_function : Text → FunctionType → Call
  create_block : Text → Text → Call
  insert : Point → Inst → Call
  global_string_ptr : Text → Call
  -- `CastInst::CreateZExtOrBitCast(v, ty)`: no insertion point is given
  zext_or_bit_cast : Value → Ty → Call
  add_incoming : ℕ → Value → Block → Call
  set_successor : ℕ → ℕ → Block → Call

-- The calls made so far, the last one first.
abbrev pub Trace : Type 0
Trace = List Call

-- The call at a position.
unfoldable pub call_at : Trace → ℕ → Option Call
call_at [] n = none
call_at (c ∷ t) n = if n == length t then some c else call_at t n

abbrev pub is_terminator : Inst → Bool
is_terminator (br b) = true
is_terminator (cond_br v a b) = true
is_terminator (ret v) = true
is_terminator unreachable = true
is_terminator _ = false

-- A call that gives block `b` a terminator.
abbrev pub terminates : Block → Call → Bool
terminates b (insert (end_of c) i) = if c == b then is_terminator i else false
terminates b _ = false
