-- ===== src/Encapsulation/Harness/Tests.antt =====
-- The harness of a function with a number and a pointer.
use ephippion.Prelude.{refl, true, false, List, [], ◌∷◌, bytes, arith}
use ephippion.Direction.{ArgSpec, arg_spec}
use ephippion.Llvm.{int, ptr, void, Argument, Function, call_at, Succeeds}
use ephippion.Llvm.Concrete.{concrete, concrete-IsLlvm}
use ephippion.Encapsulation.Harness.{encapsulate_with}
use ephippion.Encapsulation.Harness.Prepared.{IsSuited}
use ephippion.Encapsulation.Harness.Within.{IsContained, encapsulate_with-IsContained}
use ephippion.Encapsulation.Harness.Correct.{MakesHarness, IsEntered, encapsulate_with-IsHarness}

abbrev number : Argument
number = record { name = bytes "i"; type = int 64 }

abbrev pointer : Argument
pointer = record { name = bytes "p"; type = ptr (int 32) }

-- void f(i64 i, i32* p), with `p` an output that depends on the iterator
abbrev sample : Function
sample = record {
  name = bytes "f";
  result_type = void;
  args = number ∷ pointer ∷ [];
  is_declaration = false;
}

-- The number is an input, and the pointer is an input and an output that depends on the iterator.
abbrev given : List ArgSpec
given = arg_spec [] 1 false ∷ arg_spec [] 3 true ∷ []

sample-IsSuited : IsSuited concrete false (number ∷ pointer ∷ [])
unfolding concrete
sample-IsSuited = record {
  heap = ((λ u. refl), (λ u. refl));
  symbolic = ((λ u. refl), (λ u. refl));
  assertions = ((λ u. refl), (λ u. refl));
  byte = refl;
  usable = (refl, (refl, tt));
}

encapsulate_with-IsHarness_example :
    Succeeds (encapsulate_with concrete false (bytes "m") 4 sample given []) (λ changed t'.
      MakesHarness concrete-IsLlvm false
        (bytes "m")
        4
        (λ n vs. n)
        sample
        number
        (pointer ∷ [])
        given
        []
        changed
        t'
      × IsEntered concrete-IsLlvm false
          (bytes "m")
          4
          (λ n vs. n)
          sample
          number
          (pointer ∷ [])
          given
          t'
          1)
unfolding concrete call_at
encapsulate_with-IsHarness_example =
    encapsulate_with-IsHarness concrete-IsLlvm false (bytes "m") 4 (λ n vs. n) sample number
      (pointer ∷ []) given [] tt refl refl refl sample-IsSuited (λ u. refl) (λ k name e. cc)
      (omega arith) (omega arith)

encapsulate_with-IsContained_example :
    Succeeds (encapsulate_with concrete false (bytes "m") 4 sample given []) (
      IsContained concrete-IsLlvm false
        (bytes "m")
        4
        (λ n vs. n)
        sample
        number
        (pointer ∷ [])
        given)
unfolding concrete
encapsulate_with-IsContained_example =
    encapsulate_with-IsContained concrete-IsLlvm false (bytes "m") 4 (λ n vs. n) sample number
      (pointer ∷ []) given [] tt refl refl refl sample-IsSuited (λ u. refl) (omega arith)
      (omega arith) (omega arith, (omega arith, tt))
