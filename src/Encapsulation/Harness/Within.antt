-- ===== src/Encapsulation/Harness/Within.antt =====
-- The sizes that a whole harness of SymbolicEncapsulation.cpp passes on.
use ephippion.Prelude.{
  ℕ, ◌^◌, ◌<◌, ◌≤◌, ◌≡◌, false, Bool, List, ◌∷◌, Text, ap, ◌+◌, get_elem?, arith, All,
}
use ephippion.Direction.{ArgSpec}
use ephippion.Llvm.{int, Argument, Function, Value, Llvm, IsLlvm, Trace, Succeeds, Succeeds-map}
use ephippion.Llvm.Scope.{InScope}
use ephippion.Ir.{Values, word}
use ephippion.Encapsulation.Memory.{AreWithin, AreDeclared-AreWithin}
use ephippion.Encapsulation.Harness.{encapsulate_with}
use ephippion.Encapsulation.Harness.Created.{blocks_at}
use ephippion.Encapsulation.Harness.Prepared.{IsSuited}
use ephippion.Encapsulation.Harness.Made.{IsHarness}
use ephippion.Encapsulation.Harness.Stages.{HasName}
use ephippion.Encapsulation.Harness.Correct.{MakesHarness, completed, encapsulate_with-MakesHarness}

from_zero : (vs : List Value) (j : ℕ) → get_elem? vs (0 + j) ≡ get_elem? vs j
from_zero vs j = let same : 0 + j ≡ j = omega arith in ap (λ n. get_elem? vs n) same

module _ {llvm : Llvm} (laws : IsLlvm llvm) (ndebug : Bool) (mod_name : Text) (iterations : ℕ)
    (oracle : ℕ → Values → ℕ) (func : Function) (arg : Argument) (rest : List Argument)
    (specs : List ArgSpec) where
  -- The harness passes to `klee_make_symbolic` and `memcpy` the sizes of its arguments' memory.
  abbrev pub IsContained : Bool → Trace → Type 0
  IsContained changed t' =
      (h : IsHarness laws ndebug mod_name iterations oracle func arg rest
        (completed laws ndebug mod_name iterations oracle func arg rest specs) t')
      × AreWithin llvm ndebug iterations
          (completed laws ndebug mod_name iterations oracle func arg rest specs)
          (blocks_at h.n).se_setup h.values.call_args1 h.values.call_args2 t' h.undeclared 0
          h.values.call_args1 h.values.call_args2 h.declared

  -- For a function with a body, whose first parameter is a number of 64 bits, at least two iterations in 32 bits, a module where the
  -- names that the harness declares have no other type, types whose size is not zero (or without
  -- assertions), and parameters of types whose size is
  -- below 2 ^ 64: `encapsulateImpl` returns, and its harness passes to
  -- `klee_make_symbolic` and `memcpy`, for each argument, exactly the number of bytes that the
  -- argument's memory has, on the stack or on the heap, for both calls; for an argument that is
  -- only an output its declarations make no call at all.
  pub encapsulate_with-IsContained :
      (t : Trace)
      → InScope t
      → func.is_declaration ≡ false
      → func.args ≡ arg ∷ rest
      → arg.type ≡ int 64
      → IsSuited llvm ndebug (arg ∷ rest)
      → HasName llvm func
      → 2 ≤ iterations
      → iterations < 2 ^ 32
      → All (λ a. llvm.alloc_size a.type < word) (arg ∷ rest)
      → Succeeds (encapsulate_with llvm ndebug mod_name iterations func specs t) IsContained
  encapsulate_with-IsContained t s body args_eq number suited named two small sizes =
      Succeeds-map (MakesHarness laws ndebug mod_name iterations oracle func arg rest specs t)
        IsContained _
        (λ changed t' (e, f, d, behind, (h, same)). (
          h,
          AreDeclared-AreWithin laws ndebug iterations _ (blocks_at h.n).setup
              (blocks_at h.n).se_setup h.values.call_args1 h.values.call_args2 t' h.undeclared
              h.declared 0 (arg ∷ rest) h.values.call_args1 h.values.call_args2 h.values.heap_allocs
              sizes h.stored (λ j. from_zero h.values.call_args1 j)
              (λ j. from_zero h.values.call_args2 j) h.declared-Extends h.declarations,
        ))
        (encapsulate_with-MakesHarness laws ndebug mod_name iterations oracle func arg rest specs t
          s body args_eq number suited named two small)
