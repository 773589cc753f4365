-- ===== src/Encapsulation/WholeModule/Growing.antt =====
-- `encapsulate` of a module, in SymbolicEncapsulation.cpp, comes to the harnesses that it has made.
use ephippion.Prelude.{
  ℕ, zero, suc, ◌+◌, ◌≤◌, ◌<◌, ◌≡◌, ◌≢◌, ◌⊎◌, inl, inr, ◌∙◌, ◌==◌, ==_iff, Bool-cases, Option-cases,
  refl, sym, subst, Bool, true, false, ◌||◌, Option, some, List, [], ◌∷◌, ◌++◌, length, get_elem?,
  Text, bytes, All, arith,
}
use ephippion.Direction.{ArgSpec}
use ephippion.Llvm.{
  int, function_type, Function, FunctionType, Call, create_block, get_or_insert_function, Llvm,
  Trace, Run, M, pure, ok, fault, and_then, IsFault,
}
use ephippion.Llvm.Keeps.{Post, IsMonotone, Post-and_then}
use ephippion.FuncUtils.{declare_func_no_args, get_function}
use ephippion.Encapsulation.Harness.{
  encapsulate, encapsulate_impl, encapsulate_with, create_harness, harness_name_prefix,
}
use ephippion.Encapsulation.Harness.Created.{after_blocks, create_blocks-ok, with_blocks-monotone}
use ephippion.Encapsulation.Keeps.Whole.{after_blocks-Keeps, encapsulate-Keeps}
use ephippion.Encapsulation.Defaults.{and_then-IsFault_first, no_arguments-Fails}
use ephippion.Encapsulation.WholeModule.{
  encapsulate_from, encapsulate_module, HasNoBody, get_elem?-none, get_elem?-some, Stops,
  encapsulate_from-IsIdleOrFault,
}

abbrev pub IsNew : Text → List Function → Type 0
IsNew name = All (λ f. f.name ≢ name)

-- The second is the first later on: with its name, its parameters, and its body if it had one.
abbrev pub IsLater : Function → Function → Type 0
IsLater f f' =
    (f'.name ≡ f.name) × (f'.args ≡ f.args) × (f.is_declaration ≡ false → f'.is_declaration ≡ false)

-- What is relied on of the list of a module's functions: it only grows, and a function keeps its name,
-- its parameters and its body; a declaration of a new name appends a function with the parameters of
-- the type; and a function in which a block is created has a body.
pub record IsFunctionList (functions : Trace → List Function) : Type 0 where
  pub kept :
      (t : Trace) (i : ℕ) (f : Function)
      → get_elem? (functions t) i ≡ some f
      → (c : Call) → (f' : Function) × (get_elem? (functions (c ∷ t)) i ≡ some f') × IsLater f f'
  pub declared :
      (t : Trace) (name : Text) (type : FunctionType)
      → IsNew name (functions t)
      → (f : Function) × (get_elem?
            (functions (get_or_insert_function name type ∷ t))
            (length (functions t))
          ≡ some f)
        × (f.name ≡ name)
        × (length f.args ≡ length type.params)
  pub block :
      (t : Trace) (i : ℕ) (f : Function) (name : Text)
      → get_elem? (functions t) i ≡ some f
      → (f' : Function) × (get_elem? (functions (create_block name f.name ∷ t)) i ≡ some f')
        × (f'.args ≡ f.args)
        × (f'.is_declaration ≡ false)

-- No function has the name of the harness of another.
abbrev pub AreFree : List Function → Type 0
AreFree fs =
    (i : ℕ) (f : Function) → get_elem? fs i ≡ some f → IsNew (harness_name_prefix ++ f.name) fs

module _ (llvm : Llvm) (ndebug : Bool) (mod_name : Text) (iterations_num : ℕ)
    (functions : Trace → List Function) (laws : IsFunctionList functions) where
  -- The function at position `j` is like a harness: it has a body and no parameters.
  abbrev IsLikeHarness : ℕ → Trace → Type 0
  IsLikeHarness j t =
      (f : Function) × (get_elem? (functions t) j ≡ some f)
      × (f.args ≡ [])
      × (f.is_declaration ≡ false)

  IsLikeHarness-IsMonotone : (j : ℕ) → IsMonotone (IsLikeHarness j)
  IsLikeHarness-IsMonotone j c t (f, found, empty, body) =
      let (f', found', (name, args, keeps)) = laws.kept t j f found c in
      (f', found', args ∙ empty, keeps body)

  harness_of : Function → Text
  harness_of func = harness_name_prefix ++ func.name

  create_harness-IsLikeHarness :
      (func : Function) (specs : List ArgSpec) (t : Trace)
      → IsNew (harness_name_prefix ++ func.name) (functions t)
      → Post
          (λ _. IsLikeHarness (length (functions t)))
          (create_harness llvm ndebug mod_name iterations_num func specs t)
  unfolding create_harness declare_func_no_args get_function after_blocks harness_of
  create_harness-IsLikeHarness func specs t new =
      let name : Text = harness_of func in
      let t₁ : Trace = get_or_insert_function name (function_type (int 32) [] false) ∷ t in
      let mono = IsLikeHarness-IsMonotone (length (functions t)) in
      let (f, found, named, same) = laws.declared t name (function_type (int 32) [] false) new in
      let (f', found', args, body) = laws.block t₁ (length (functions t)) f (bytes "setup") found in
      let first : IsLikeHarness (length (functions t)) (create_block (bytes "setup") name ∷ t₁) =
        (f', rw named at found', args ∙ no_elements f.args same, body) in
      elim (Bool-cases (llvm.declares t₁ name (function_type (int 32) [] false))) [
        | inr taken ↦ rw taken tt
        | inl free ↦ rw free (
            subst
              (λ r.
                Post (λ _. IsLikeHarness (length (functions t)))
                  (and_then r (after_blocks llvm ndebug mod_name iterations_num func specs)))
              (sym (create_blocks-ok name t₁))
              ((after_blocks-Keeps llvm ndebug iterations_num mono mod_name func specs _).at _
                (with_blocks-monotone name t₁ mono first)))
      ]
    where
      no_elements : {A : Type 0} (xs : List A) → length xs ≡ 0 → xs ≡ []
      no_elements [] e = refl
      no_elements (x ∷ xs) e = absurd (omega (arith, e))

  encapsulate-IsLikeHarness :
      (func : Function) (t : Trace)
      → func.is_declaration ≡ false
      → IsNew (harness_name_prefix ++ func.name) (functions t)
      → Post
          (λ _. IsLikeHarness (length (functions t)))
          (encapsulate llvm ndebug mod_name iterations_num func t)
  unfolding encapsulate encapsulate_impl
  encapsulate-IsLikeHarness func t body new = rw body (
      Post-and_then (λ _. IsLikeHarness (length (functions t)))
        (λ _. IsLikeHarness (length (functions t))) _ (λ _. pure true)
        (create_harness-IsLikeHarness func _ t new) (λ _ t' h. h))

  like_harness-Fails :
      (f : Function) (t : Trace)
      → f.args ≡ []
      → f.is_declaration ≡ false
      → IsFault (encapsulate llvm ndebug mod_name iterations_num f t)
  unfolding encapsulate encapsulate_with
  like_harness-Fails f t empty body =
      no_arguments-Fails llvm mod_name f ndebug iterations_num [] t empty body

  Post-IsFault :
      {A B : Type 0} (j : ℕ) (r : Run A) (k : A → M B)
      → Post (λ _. IsLikeHarness j) r
      → ((a : A) (t' : Trace) → IsLikeHarness j t' → IsFault (k a t'))
      → IsFault (and_then r k)
  Post-IsFault j (ok a t') k h next = next a t' h
  Post-IsFault j (fault e) k h next = tt

  -- From any position up to that of a function that is like a harness, the loop stops at a fault.
  reaches-IsFault :
      (rounds i j : ℕ) (changed : Bool) (t : Trace)
      → IsLikeHarness j t
      → i ≤ j
      → j < i + rounds
      → IsFault (encapsulate_from llvm ndebug mod_name iterations_num functions rounds i changed t)
  unfolding encapsulate_from
  reaches-IsFault zero i j changed t h le enough = absurd (omega arith)
  reaches-IsFault (suc rounds) i j changed t (f, found, empty, body) le enough =
      let others : Bool → M (Option Bool) =
        encapsulate_from llvm ndebug mod_name iterations_num functions rounds (suc i) in
      elim (Option-cases (get_elem? (functions t) i)) [
        | inl done ↦ absurd (
            omega (
              arith,
              get_elem?-none (functions t) i done,
              get_elem?-some (functions t) j f found,
              le,
            ))
        | inr (g, there) ↦ elim (Bool-cases (i == j)) [
          | inl same ↦
              let here : i ≡ j = (==_iff i j).0 same in
              let alike : g ≡ f = first g here there in
              rw there (
                and_then-IsFault_first (encapsulate llvm ndebug mod_name iterations_num g t)
                  (λ done. others (changed || done)) (rw alike (like_harness-Fails f t empty body)))
          | inr apart ↦ rw there (
              Post-IsFault j (encapsulate llvm ndebug mod_name iterations_num g t)
                (λ done. others (changed || done))
                ((encapsulate-Keeps llvm ndebug iterations_num (IsLikeHarness-IsMonotone j) mod_name
                    g).at
                  t (f, found, empty, body))
                (λ done t' h.
                  reaches-IsFault rounds (suc i) j (changed || done) t' h (next apart)
                    (omega arith)))
        ]
      ]
    where
      first : (g : Function) → i ≡ j → get_elem? (functions t) i ≡ some g → g ≡ f
      first g e there = cc

      next : (i == j) ≡ false → suc i ≤ j
      next apart = ground arith

  body-Stops :
      (t : Trace) → AreFree (functions t) → Stops llvm ndebug mod_name iterations_num functions t
  unfolding encapsulate_from
  body-Stops t free rounds i f found body enough = rw found (
      Post-IsFault (length (functions t)) (encapsulate llvm ndebug mod_name iterations_num f t)
        (λ done.
          encapsulate_from llvm ndebug mod_name iterations_num functions rounds (suc i)
            (false || done))
        (encapsulate-IsLikeHarness f t body (free i f found))
        (λ done t' h.
          reaches-IsFault rounds (suc i) (length (functions t)) (false || done) t' h
            (omega (arith, get_elem?-some (functions t) i f found)) (omega (arith, enough))))

  -- Where the list of functions grows as LLVM's does, no function has the name of the harness of
  -- another, and the rounds are one more than the functions: `encapsulate` of a module, with any number
  -- of iterations and with assertions or without, returns only if no function has a body, and then
  -- nothing has changed; otherwise it stops at a fault, at the latest at the harness of the first
  -- function with a body.
  pub encapsulate_module-ends :
      (t : Trace)
      → AreFree (functions t)
      → ((encapsulate_module llvm ndebug mod_name iterations_num functions
              (suc (length (functions t)))
              t
            ≡ ok (some false) t)
          × HasNoBody functions 0 t)
        ⊎ IsFault (
            encapsulate_module llvm ndebug mod_name iterations_num functions
              (suc (length (functions t)))
              t)
  unfolding encapsulate_module
  encapsulate_module-ends t free =
      encapsulate_from-IsIdleOrFault llvm ndebug mod_name iterations_num functions
        (suc (length (functions t))) 0 t (body-Stops t free) (omega arith) (omega arith)
