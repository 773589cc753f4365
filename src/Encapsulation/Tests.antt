-- ===== src/Encapsulation/Tests.antt =====
-- Runs of the harness builder, and its theorems at concrete inputs.
use ephippion.Prelude.{
  ℕ, ◌≡◌, ◌⊎◌, some, refl, true, false, Bool, List, [], ◌∷◌, bytes, length, arith, replicate, ◌-◌,
}
use ephippion.Direction.{ArgSpec, arg_spec, is_outbound, is_only_outbound}
use ephippion.Options.{default_options}
use ephippion.Llvm.{
  ty_eq, int, ptr, const, result, void, Function, Run, ok, fault, IsFault, Trace, create_block,
  Succeeds,
}
use ephippion.Llvm.Keeps.{Post}
use ephippion.Llvm.Concrete.{concrete}
use ephippion.Encapsulation.Harness.{encapsulate_with, fill_specs, default_spec}
use ephippion.Encapsulation.Filling.{fill_specs_lem}
use ephippion.Encapsulation.Arguments.{setup_harness_args}
use ephippion.Encapsulation.Arguments.Counts.{IsCounted, setup_harness_args-IsCounted}
use ephippion.Encapsulation.Arguments.Released.{IsReleased, setup_harness_args-IsReleased}
use ephippion.Encapsulation.WholeModule.{
  encapsulate_module, HasNoBody, encapsulate_module-few_iterations,
}
use ephippion.Encapsulation.Calls.{create_call, insert_point}
use ephippion.Encapsulation.Calls.Passed.{IsCalled, create_call-IsCalled}
use ephippion.Encapsulation.Defaults.{few_iterations-Fails, no_arguments-Fails}

-- void f(i64 i, i32* p), with `p` an output that depends on the iterator
abbrev sample : Function
sample = record {
  name = bytes "f";
  result_type = void;
  args =
      (record { name = bytes "i"; type = int 64 })
      ∷ (record { name = bytes "p"; type = ptr (int 32) })
      ∷ [];
  is_declaration = false;
}

abbrev sample_specs : List ArgSpec
sample_specs = arg_spec [] 1 false ∷ arg_spec [] 3 true ∷ []

size_of_run : Run Bool → ℕ
size_of_run (ok b t) = length t
size_of_run (fault f) = 0

runs : size_of_run (encapsulate_with concrete false (bytes "m") 4 sample sample_specs []) ≡ 84
unfolding encapsulate_with concrete size_of_run is_outbound is_only_outbound ty_eq
runs = refl

few_iterations-Fails_example : IsFault (
    encapsulate_with concrete false
      (bytes "m")
      default_options.iterations_num
      sample
      sample_specs
      [])
few_iterations-Fails_example =
    few_iterations-Fails concrete (bytes "m") sample default_options.iterations_num sample_specs []
      (omega arith) refl

no_arguments-Fails_example :
    IsFault (encapsulate_with concrete true (bytes "m") 4 (record sample { args = [] }) [] [])
no_arguments-Fails_example =
    no_arguments-Fails concrete (bytes "m") (record sample { args = [] }) true 4 [] [] refl refl

-- Blocks before a loop, of its body, and after it.
abbrev three_blocks : Trace
three_blocks =
    create_block (bytes "after") (bytes "h")
    ∷ create_block (bytes "body") (bytes "h")
    ∷ create_block (bytes "before") (bytes "h")
    ∷ []

fill_specs_lem_example :
    fill_specs 2 2 (arg_spec [] 3 true ∷ [])
    ≡ arg_spec [] 3 true ∷ replicate (2 - length (arg_spec [] 3 true ∷ [])) default_spec
fill_specs_lem_example = fill_specs_lem 2 2 (arg_spec [] 3 true ∷ []) (omega arith)

-- The arguments of `sample`: the first is shared, the second has two blocks on the heap.
setup_harness_args-IsReleased_example :
    Succeeds
      (setup_harness_args concrete false 4 sample.args sample_specs 0 1 three_blocks)
      (IsReleased concrete false 4 sample_specs 0 1 three_blocks sample.args)
unfolding concrete
setup_harness_args-IsReleased_example =
    setup_harness_args-IsReleased concrete false 4 sample_specs 0 1
      (record { name = bytes "i"; type = int 64 })
      ((record { name = bytes "p"; type = ptr (int 32) }) ∷ []) three_blocks (λ t. refl, λ t. refl)
      (tt, (refl, tt)) (omega arith)

encapsulate_module-few_iterations_example :
    ((encapsulate_module concrete false (bytes "m") 1 (λ t. sample ∷ []) 2 [] ≡ ok (some false) [])
      × HasNoBody (λ t. sample ∷ []) 0 [])
    ⊎ IsFault (encapsulate_module concrete false (bytes "m") 1 (λ t. sample ∷ []) 2 [])
encapsulate_module-few_iterations_example =
    encapsulate_module-few_iterations concrete (bytes "m") 1 (λ t. sample ∷ []) [] (omega arith)

-- A number for the first parameter of `sample`, and the first block on the heap for the second.
create_call-IsCalled_example :
    Succeeds (create_call concrete sample 1 (const 64 0 ∷ result 0 ∷ []) three_blocks) (λ _.
      IsCalled concrete sample three_blocks
        (insert_point 1 (concrete.terminator three_blocks 1))
        (const 64 0 ∷ result 0 ∷ []))
create_call-IsCalled_example =
    create_call-IsCalled concrete sample 1 (const 64 0 ∷ result 0 ∷ []) three_blocks (omega arith)

setup_harness_args-IsCounted_example :
    Post
      (λ s _. IsCounted (length sample.args) s)
      (setup_harness_args concrete false 4 sample.args sample_specs 0 1 three_blocks)
setup_harness_args-IsCounted_example =
    setup_harness_args-IsCounted concrete false 4 sample.args sample_specs 0 1 three_blocks
