-- ===== src/Encapsulation/Calls/Keeps.antt =====
-- What the arguments of `createCall` of SymbolicEncapsulation.cpp are passed by: instructions at one
-- place, and casts that have none.
use ephippion.Prelude.{ℕ, suc, ◌≡◌, Bool, true, false, List, [], ◌∷◌}
use ephippion.Llvm.{
  Ty, Function, Value, Point, Inst, call, insert, zext_or_bit_cast, is_terminator, Llvm, Trace,
  build, emit,
}
use ephippion.Llvm.Keeps.{Keeps, IsMonotone, Keeps-pure, Keeps-bind, work_rules}
use ephippion.Encapsulation.Calls.{pass_argument, pass_arguments, pass_pointer, pass_value}

abbrev pub makes_call : Inst → Bool
makes_call (call f vs) = true
makes_call _ = false

-- `P` survives an instruction at `p` that neither leaves the block nor calls a function, and a cast
-- in no block.
pub record MayPlace (P : Trace → Type 0) (p : Point) : Type 0 where
  pub work :
      (i : Inst) (t : Trace)
      → is_terminator i ≡ false
      → makes_call i ≡ false
      → P t
      → P (insert p i ∷ t)
  pub cast : (v : Value) (type : Ty) (t : Trace) → P t → P (zext_or_bit_cast v type ∷ t)

pub IsMonotone-MayPlace : {P : Trace → Type 0} (p : Point) → IsMonotone P → MayPlace P p
IsMonotone-MayPlace p mono = record {
  work = λ i t e e' h. mono _ t h;
  cast = λ v type t h. mono _ t h;
}

module _ {P : Trace → Type 0} {p : Point} (may : MayPlace P p) where
  Keeps-place : (i : Inst) → is_terminator i ≡ false → makes_call i ≡ false → Keeps P (build p i)
  Keeps-place i e e' = record { at = λ t h. may.work i t e e' h }

  Keeps-cast : (v : Value) (type : Ty) → Keeps P (emit (zext_or_bit_cast v type))
  Keeps-cast v type = record { at = λ t h. may.cast v type t h }

  module _ (llvm : Llvm) (func : Function) where
    pass_argument-Keeps : (v : Value) (i : ℕ) → Keeps P (pass_argument llvm func p v i)
    unfolding pass_argument pass_pointer pass_value
    pass_argument-Keeps v i = search (work_rules, Keeps-place, Keeps-cast) depth 20

    pub pass_arguments-Keeps :
        (vs : List Value) (i : ℕ) (actual : List Value)
        → Keeps P (pass_arguments llvm func p vs i actual)
    unfolding pass_arguments
    pass_arguments-Keeps [] i actual = Keeps-pure actual
    pass_arguments-Keeps (v ∷ vs) i actual =
        Keeps-bind _ _ (pass_argument-Keeps v i) (λ a. pass_arguments-Keeps vs (suc i) _)
