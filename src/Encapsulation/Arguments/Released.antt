-- ===== src/Encapsulation/Arguments/Released.antt =====
-- `setupHarnessArgs` of SymbolicEncapsulation.cpp from end to end: storage for every argument, and
-- its release in the reverse order.
use ephippion.Prelude.{
  ℕ, suc, ◌+◌, ◌≤◌, ◌≡◌, refl, sym, ap, subst, ◌∙◌, Bool, true, false, List, [], ◌∷◌, ◌++◌,
  append_assoc, append-nil, reverse, map, length, get_elem?-below, All, arith,
}
use mathlib.Core.List.{reverse_aux}
use ephippion.Direction.{ArgSpec}
use ephippion.Llvm.{
  int, void, Argument, FunctionType, function_type, Callee, callee, Block, Value, call, Call,
  insert, end_of, get_or_insert_function, Llvm, Trace, ok, Succeeds, Succeeds-map,
  Succeeds-and_then,
}
use ephippion.FuncUtils.{
  int8_ptr, declare_malloc_like_func, declare_free_like_func, declare_func, get_function,
}
use ephippion.Encapsulation.Arguments.{
  Pushed, pushed, push, nothing_pushed, heap_alloc_func_name, heap_dealloc_func_name,
  setup_arguments, release_all, setup_harness_args,
}
use ephippion.Ir.Positions.{Extends, Extends-cons}
use ephippion.Encapsulation.Arguments.Storage.{IsStored, IsStored-Extends, Stores}
use ephippion.Encapsulation.Arguments.Rounds.{IsSized, setup_argument-Stores}

pushed_eq :
    {a a' b b' h h' : List Value} → a ≡ a' → b ≡ b' → h ≡ h' → pushed a b h ≡ pushed a' b' h'
pushed_eq ea eb eh = rw (ea, eb, eh) refl

push-append :
    (s s₁ : Pushed) (v w : Value) (hs vs ws hs' : List Value)
    → s₁ ≡ push s v w hs
    → pushed (s₁.call_args1 ++ vs) (s₁.call_args2 ++ ws) (s₁.heap_allocs ++ hs')
      ≡ pushed (s.call_args1 ++ v ∷ vs) (s.call_args2 ++ w ∷ ws) (s.heap_allocs ++ (hs ++ hs'))
push-append s s₁ v w hs vs ws hs' e =
    ap (λ (x : Pushed). pushed (x.call_args1 ++ vs) (x.call_args2 ++ ws) (x.heap_allocs ++ hs')) e
    ∙ pushed_eq (append_assoc s.call_args1 (v ∷ []) vs) (append_assoc s.call_args2 (w ∷ []) ws)
        (append_assoc s.heap_allocs hs hs')

module _ (llvm : Llvm) (iterations_num : ℕ) (specs : List ArgSpec) (setup : Block)
    (heap_alloc : Callee) where
  -- The values for the arguments from position `i` on, in order, with what is to be freed.
  pub data AreStored (t : Trace)
      : ℕ → List Argument → List Value → List Value → List Value → Type 0 where
    none_left : {i : ℕ} → AreStored t i [] [] [] []
    one_more :
        {i : ℕ} {arg : Argument} {args : List Argument} {v w : Value} {vs ws hs hs' : List Value}
        → IsStored llvm iterations_num specs setup heap_alloc t i arg v w hs
        → AreStored t (suc i) args vs ws hs'
        → AreStored t i (arg ∷ args) (v ∷ vs) (w ∷ ws) (hs ++ hs')

  Leaves : Trace → ℕ → List Argument → Pushed → Pushed → Trace → Type 0
  Leaves t i args s s' t' =
      (vs ws hs : List Value) × (s'
        ≡ pushed (s.call_args1 ++ vs) (s.call_args2 ++ ws) (s.heap_allocs ++ hs))
      × AreStored t' i args vs ws hs
      × Extends t t'

  module _ (ndebug : Bool) where
    setup_arguments-Leaves :
        (args : List Argument) (i : ℕ) (s : Pushed) (t : Trace)
        → All (λ arg. IsSized llvm iterations_num specs setup heap_alloc ndebug arg.type) args
        → i + length args ≤ length specs
        → Succeeds
            (setup_arguments llvm ndebug iterations_num specs setup heap_alloc args i s t)
            (Leaves t i args s)
    unfolding setup_arguments Leaves
    setup_arguments-Leaves [] i s t sized enough = (
      [],
      [],
      [],
      pushed_eq (sym (append-nil _)) (sym (append-nil _)) (sym (append-nil _)),
      none_left,
      λ k c h. h,
    )
    setup_arguments-Leaves (arg ∷ args) i s t sized enough =
        let (spec, found) = get_elem?-below specs i (omega arith) in
        Succeeds-and_then (Stores llvm iterations_num specs setup heap_alloc t i arg s) _ _ _
          (setup_argument-Stores llvm iterations_num specs setup heap_alloc ndebug arg spec i s t
            sized.0 found)
          (λ s₁ t₁ (v, w, hs, e, stored, before).
            Succeeds-map (Leaves t₁ (suc i) args s₁) (Leaves t i (arg ∷ args) s) _
              (λ s' t' (vs, ws, hs', e', others, after). (
                v ∷ vs,
                w ∷ ws,
                hs ++ hs',
                e' ∙ push-append s s₁ v w hs vs ws hs' e,
                one_more
                    (IsStored-Extends llvm iterations_num specs setup heap_alloc t₁ t' i arg v w hs
                      after stored)
                    others,
                λ k c h. after k c (before k c h),
              ))
              (setup_arguments-Leaves args (suc i) s₁ t₁ sized.1 (omega arith)))

-- A call of the function that frees memory, at the end of a block.
abbrev pub free_call : Block → Callee → Value → Call
free_call teardown heap_dealloc a = insert (end_of teardown) (call heap_dealloc (a ∷ []))

-- the calls of the loop over a list, the last one first
release_all-trace :
    (teardown : Block) (heap_dealloc : Callee) (allocs : List Value) (t : Trace)
    → release_all teardown heap_dealloc allocs t
      ≡ ok tt (reverse_aux (map (free_call teardown heap_dealloc) allocs) t)
unfolding release_all
release_all-trace teardown heap_dealloc [] t = refl
release_all-trace teardown heap_dealloc (a ∷ allocs) t =
    release_all-trace teardown heap_dealloc allocs (free_call teardown heap_dealloc a ∷ t)

reverse_aux-map :
    (f : Value → Call) (xs acc : List Value) (t : Trace)
    → reverse_aux (map f (reverse_aux xs acc)) t ≡ reverse_aux (map f acc) (map f xs ++ t)
reverse_aux-map f [] acc t = refl
reverse_aux-map f (x ∷ xs) acc t = reverse_aux-map f xs (x ∷ acc) t

abbrev pub malloc_type : FunctionType
malloc_type = function_type int8_ptr (int 64 ∷ []) false

abbrev pub free_type : FunctionType
free_type = function_type void (int8_ptr ∷ []) false

abbrev pub malloc_func : Callee
malloc_func = callee heap_alloc_func_name malloc_type

abbrev pub free_func : Callee
free_func = callee heap_dealloc_func_name free_type

module _ (llvm : Llvm) where
  -- No function of the module has the name of one of the two and another type.
  abbrev pub HasHeap : Type 0
  HasHeap =
      ((t : Trace) → llvm.declares t heap_alloc_func_name malloc_type ≡ true)
      × ((t : Trace) → llvm.declares t heap_dealloc_func_name free_type ≡ true)

  malloc-declared :
      HasHeap
      → (t : Trace)
      → declare_malloc_like_func llvm heap_alloc_func_name t
        ≡ ok malloc_func (get_or_insert_function heap_alloc_func_name malloc_type ∷ t)
  unfolding declare_malloc_like_func declare_func get_function
  malloc-declared heap t = rw (heap.0) refl

  free-declared :
      HasHeap
      → (t : Trace)
      → declare_free_like_func llvm heap_dealloc_func_name t
        ≡ ok free_func (get_or_insert_function heap_dealloc_func_name free_type ∷ t)
  unfolding declare_free_like_func declare_func get_function
  free-declared heap t = rw (heap.1) refl

  module _ (ndebug : Bool) (iterations_num : ℕ) (specs : List ArgSpec)
      (setup teardown : Block) where
    -- All arguments have their storage, and then all of the heap's is freed, the last made first.
    abbrev pub IsReleased : Trace → List Argument → Pushed → Trace → Type 0
    IsReleased t args s t' =
        (t₁ : Trace) × AreStored llvm iterations_num specs setup malloc_func t₁ 0 args s.call_args1
          s.call_args2 s.heap_allocs
        × (t' ≡ map (free_call teardown free_func) s.heap_allocs ++ t₁)
        × Extends t t₁

    -- For a function with parameters, descriptions for all of them, pointers to types whose size is not
    -- zero (or without assertions), and a module where `malloc` and `free` have no other type:
    -- `setupHarnessArgs` returns; each argument has storage for both calls, of its own for the second
    -- exactly if it is an output; and every block that was taken from the heap is freed at the end of
    -- the teardown block once, the last one first. (The calls are listed with the last one first.)
    pub setup_harness_args-IsReleased :
        (arg : Argument) (args : List Argument) (t : Trace)
        → HasHeap
        → All (λ a. IsSized llvm iterations_num specs setup malloc_func ndebug a.type) (arg ∷ args)
        → length (arg ∷ args) ≤ length specs
        → Succeeds
            (setup_harness_args llvm ndebug iterations_num (arg ∷ args) specs setup teardown t)
            (IsReleased t (arg ∷ args))
    unfolding setup_harness_args Leaves
    setup_harness_args-IsReleased arg args t heap sized enough =
        rw
          (
            malloc-declared heap t,
            free-declared heap (get_or_insert_function heap_alloc_func_name malloc_type ∷ t),
          )
          (Succeeds-and_then
            (Leaves llvm iterations_num specs setup malloc_func t₀ 0 (arg ∷ args) nothing_pushed)
            (IsReleased t (arg ∷ args))
            (setup_arguments llvm ndebug iterations_num specs setup malloc_func (arg ∷ args) 0
              nothing_pushed t₀)
            _
            (setup_arguments-Leaves llvm iterations_num specs setup malloc_func ndebug (arg ∷ args)
              0 nothing_pushed t₀ sized (omega arith))
            (λ s t₁ (vs, ws, hs, e, stored, after).
              rw (release_all-trace teardown free_func (reverse s.heap_allocs) t₁) (
                t₁,
                subst
                    (λ (x : Pushed).
                      AreStored llvm iterations_num specs setup malloc_func t₁ 0 (arg ∷ args)
                        x.call_args1 x.call_args2 x.heap_allocs)
                    (sym e) stored,
                reverse_aux-map (free_call teardown free_func) s.heap_allocs [] t₁,
                λ k c h. after k c (Extends-cons t _ _ (Extends-cons t t _ (λ j x g. g)) k c h),
              )))
      where
        t₀ : Trace
        t₀ =
            get_or_insert_function heap_dealloc_func_name free_type
            ∷ get_or_insert_function heap_alloc_func_name malloc_type
            ∷ t
