-- ===== src/Llvm/Queries.antt =====
-- What the code asks of LLVM, as functions of the calls made so far, and what it relies on.
use ephippion.Prelude.{ℕ, ◌<◌, ◌≡◌, Bool, true, false, Option, none, some, List, ◌∷◌, length, Text}
use ephippion.Llvm.Types.{Ty, int, ptr, FunctionType, Callee}
use ephippion.Llvm.Calls.{
  Block, Value, result, const, alloca, call, phi, cond_br, Point, Call, insert, create_block, Trace,
  call_at, terminates,
}

pub record Llvm : Type 0 where
  -- `DataLayout::getTypeAllocSize`
  pub alloc_size : Ty → ℕ
  -- `Value::getType`, `Value::getName`, `isa<AllocaInst>`
  pub type_of : Trace → Value → Ty
  pub name_of : Trace → Value → Text
  pub is_alloca : Trace → Value → Bool
  -- `BasicBlock::getTerminator`, `dyn_cast<BranchInst>` of it, `BasicBlock::getParent`
  pub terminator : Trace → Block → Option ℕ
  pub is_branch : Trace → ℕ → Bool
  pub parent : Trace → Block → Text
  -- whether `getOrInsertFunction` gives a function of this type, and not a cast of another one
  pub declares : Trace → Text → FunctionType → Bool

-- What the LLVM documentation says of these questions.
pub record IsLlvm (llvm : Llvm) : Type 0 where
  pub type_of-const : (t : Trace) (w n : ℕ) → llvm.type_of t (const w n) ≡ int w
  pub type_of-alloca :
      (t : Trace) (n : ℕ) (p : Point) (ty : Ty) (name : Text)
      → call_at t n ≡ some (insert p (alloca ty name))
      → llvm.type_of t (result n) ≡ ptr ty
  pub type_of-call :
      (t : Trace) (n : ℕ) (p : Point) (f : Callee) (vs : List Value)
      → call_at t n ≡ some (insert p (call f vs))
      → llvm.type_of t (result n) ≡ f.type.result_type
  pub type_of-phi :
      (t : Trace) (n k : ℕ) (p : Point) (ty : Ty) (name : Text)
      → call_at t n ≡ some (insert p (phi ty k name))
      → llvm.type_of t (result n) ≡ ty
  pub is_alloca-alloca :
      (t : Trace) (n : ℕ) (p : Point) (ty : Ty) (name : Text)
      → call_at t n ≡ some (insert p (alloca ty name))
      → llvm.is_alloca t (result n) ≡ true
  pub is_alloca-call :
      (t : Trace) (n : ℕ) (p : Point) (f : Callee) (vs : List Value)
      → call_at t n ≡ some (insert p (call f vs))
      → llvm.is_alloca t (result n) ≡ false
  pub terminator-new :
      (t : Trace) (name func : Text)
      → llvm.terminator (create_block name func ∷ t) (length t) ≡ none
  pub terminator-set :
      (t : Trace) (b : Block) (c : Call)
      → terminates b c ≡ true
      → llvm.terminator (c ∷ t) b ≡ some (length t)
  -- an existing block keeps its terminator over any other call
  pub terminator-keep :
      (t : Trace) (b : Block) (c : Call)
      → terminates b c ≡ false
      → b < length t
      → llvm.terminator (c ∷ t) b ≡ llvm.terminator t b
  pub is_branch-cond :
      (t : Trace) (n : ℕ) (p : Point) (v : Value) (a b : Block)
      → call_at t n ≡ some (insert p (cond_br v a b))
      → llvm.is_branch t n ≡ true
