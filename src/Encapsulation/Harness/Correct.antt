-- ===== src/Encapsulation/Harness/Correct.antt =====
-- `encapsulateImpl` of SymbolicEncapsulation.cpp from end to end: it makes a harness.
use ephippion.Prelude.{
  ℕ, suc, ◌-◌, ◌^◌, ◌<◌, ◌≤◌, ◌≡◌, refl, sym, ◌∙◌, ap, subst, Bool, true, false, if◌then◌else◌,
  List, [], ◌∷◌, ◌++◌, ◌≢◌, ◌==◌, ==_iff, Bool-cases, inl, inr, some, ltb, ◌⊎◌, length,
  length-replicate, replicate, length-append, arith, Text,
}
use ephippion.Direction.{ArgSpec}
use ephippion.Llvm.{
  int, function_type, Function, Argument, Call, get_or_insert_function, create_block, call_at, Llvm,
  IsLlvm, Trace, pure, ◌>>◌, Succeeds, Succeeds-and_then, Succeeds-map,
}
use ephippion.Llvm.Scope.{InScope}
use ephippion.Ir.{Values}
use ephippion.Ir.Positions.{Extends}
use ephippion.Ir.Frame.{Frame}
use ephippion.Encapsulation.Filling.{fill_specs_lem}
use ephippion.Encapsulation.Harness.{
  harness_name_prefix, default_spec, create_harness, fill_specs, encapsulate_with, encapsulate_impl,
}
use ephippion.Encapsulation.Harness.Prepared.{IsSuited}
use ephippion.Encapsulation.Harness.Made.{IsHarness}
use ephippion.Encapsulation.Harness.Stages.{HasName, Added, create_harness-IsHarness}

different : (k n : ℕ) → (k == n) ≡ false → k ≢ n
different k n e same = cc (e, (==_iff k n).1 same)

call_at-some : (t : Trace) (k : ℕ) → k < length t → (c : Call) × (call_at t k ≡ some c)
unfolding call_at
call_at-some [] k h = absurd (omega arith)
call_at-some (x ∷ t) k h = elim (Bool-cases (k == length t)) [
  | inl e ↦ (x, rw e refl)
  | inr e ↦
      let (c, old) = call_at-some t k (omega (arith, different k (length t) e)) in (c, rw e old)
]

module _ {llvm : Llvm} (laws : IsLlvm llvm) (ndebug : Bool) (mod_name : Text) (iterations : ℕ)
    (oracle : ℕ → Values → ℕ) (func : Function) (arg : Argument) (rest : List Argument)
    (specs : List ArgSpec) where
  -- The descriptions that were given, and an input that does not depend on the iterator for each
  -- parameter that has none.
  abbrev pub completed : List ArgSpec
  completed = specs ++ replicate (suc (length rest) - length specs) default_spec

  abbrev pub harness_name : Text
  harness_name = harness_name_prefix ++ func.name

  -- A block of the harness's function was there before, or is a later one than those up to `t`.
  abbrev pub AreBehind : Trace → Trace → Type 0
  AreBehind t t' =
      (k : ℕ) (name : Text)
      → call_at t' k ≡ some (create_block name harness_name)
      → (suc (length t) ≤ k) ⊎ (call_at t k ≡ some (create_block name harness_name))

  declared-AreBehind :
      (t t' : Trace)
      → Extends t t'
      → call_at t' (length t)
        ≡ some (get_or_insert_function harness_name (function_type (int 32) [] false))
      → AreBehind t t'
  declared-AreBehind t t' x declared k name at = elim (Bool-cases (ltb (length t) k)) [
    | inl above ↦ inl (ground arith)
    | inr below ↦ elim (Bool-cases (k == length t)) [
      | inl e ↦ let same : k ≡ length t = (==_iff k (length t)).0 e in cc (rw same at at, declared)
      | inr e ↦
          let least : k ≤ length t = ground arith in
          let earlier : k < length t = omega (arith, least, different k (length t) e) in
          let (c, old) = call_at-some t k earlier in inr (old ∙ sym (x k c old) ∙ at)
    ]
  ]

  -- The function of the harness was declared, and its blocks were created there straight afterwards,
  -- behind those that were there before, beside what was in the module.
  abbrev pub MakesHarness : Trace → Bool → Trace → Type 0
  MakesHarness t changed t' =
      (changed ≡ true)
      × Frame llvm (λ b. Unit) t t'
      × (call_at t' (length t)
          ≡ some (get_or_insert_function harness_name (function_type (int 32) [] false)))
      × AreBehind t t'
      × ((h : IsHarness laws ndebug mod_name iterations oracle func arg rest completed t') × (h.n
            ≡ suc (length t)))

  pub encapsulate_with-MakesHarness :
      (t : Trace)
      → InScope t
      → func.is_declaration ≡ false
      → func.args ≡ arg ∷ rest
      → arg.type ≡ int 64
      → IsSuited llvm ndebug (arg ∷ rest)
      → HasName llvm func
      → 2 ≤ iterations
      → iterations < 2 ^ 32
      → Succeeds (encapsulate_with llvm ndebug mod_name iterations func specs t) (MakesHarness t)
  unfolding encapsulate_with encapsulate_impl
  encapsulate_with-MakesHarness t s body args_eq number suited named two small =
      let count : length func.args ≡ suc (length rest) = ap (λ xs. length xs) args_eq in
      let filled : fill_specs (length func.args) (length func.args) specs ≡ completed =
        fill_specs_lem (length func.args) (length func.args) specs (omega arith)
        ∙ ap (λ k. specs ++ replicate (k - length specs) default_spec) count in
      let enough : suc (length rest) ≤ length completed = omega (
        arith,
        length-append specs (replicate (suc (length rest) - length specs) default_spec),
        length-replicate (suc (length rest) - length specs) default_spec,
      ) in
      subst
        (λ b.
          Succeeds
            ((if b
                then pure false
                else (create_harness llvm ndebug mod_name iterations func
                      (fill_specs (length func.args) (length func.args) specs)
                    >> pure true))
              t)
            (MakesHarness t))
        (sym body)
        (Succeeds-and_then (Added laws ndebug mod_name iterations oracle func arg rest completed t)
          (MakesHarness t) _ (λ _. pure true)
          (subst
            (λ xs.
              Succeeds (create_harness llvm ndebug mod_name iterations func xs t)
                (Added laws ndebug mod_name iterations oracle func arg rest completed t))
            (sym filled)
            (create_harness-IsHarness laws ndebug mod_name iterations oracle func arg rest completed
              t s args_eq number suited named enough two small))
          (λ _ t' (f, d, h). (refl, f, d, declared-AreBehind t t' f.extends d, h)))

  -- No block was created in the function of the harness before.
  abbrev pub IsNew : Trace → Type 0
  IsNew t = (k : ℕ) (name : Text) → call_at t k ≢ some (create_block name harness_name)

  -- The first block that was created in the function of the harness is `setup` of this harness: it is
  -- where a call of the function starts.
  abbrev pub IsEntered : Trace → ℕ → Type 0
  IsEntered t' setup =
      (k : ℕ) (name : Text) → call_at t' k ≡ some (create_block name harness_name) → setup ≤ k

  -- For a function with a body, whose first parameter is a number of 64 bits, at least two iterations
  -- in 32 bits, a module where the names that the harness declares have no other type and where no
  -- block was created in `symenc_` and the function's name, and types whose size is not zero (or
  -- without assertions): `encapsulateImpl` returns true, and all that was in the module is left as it
  -- was. It has declared the function of that name and created its twelve blocks in it, of which
  -- `setup` is the first that was created there. The arguments have storage, with the inputs made
  -- symbolic. Each of the two loops has a body that calls the function once; it hands on the induction
  -- variable for the first argument, and for each other what is loaded from its place on the stack, or
  -- the address of its block on the heap cast to the parameter's type. There is a check for each output
  -- and for no other value, which compares the two values. Control that enters `setup`, whatever the
  -- called functions do, calls the function with every number from 0 to one below the iterations in
  -- order, then with the same numbers in the reverse order, and comes to the checks; it stops in the
  -- failure block of the first that does not hold, and if all hold the harness returns 0.
  pub encapsulate_with-IsHarness :
      (t : Trace)
      → InScope t
      → func.is_declaration ≡ false
      → func.args ≡ arg ∷ rest
      → arg.type ≡ int 64
      → IsSuited llvm ndebug (arg ∷ rest)
      → HasName llvm func
      → IsNew t
      → 2 ≤ iterations
      → iterations < 2 ^ 32
      → Succeeds
          (encapsulate_with llvm ndebug mod_name iterations func specs t)
          (λ changed t'. MakesHarness t changed t' × IsEntered t' (suc (length t)))
  encapsulate_with-IsHarness t s body args_eq number suited named new two small =
      Succeeds-map (MakesHarness t)
        (λ changed t'. MakesHarness t changed t' × IsEntered t' (suc (length t))) _
        (λ changed t' (e, f, d, behind, h). (
          (e, f, d, behind, h),
          λ k name at. elim (behind k name at) [ inl le ↦ le | inr old ↦ absurd (new k name old) ],
        ))
        (encapsulate_with-MakesHarness t s body args_eq number suited named two small)
