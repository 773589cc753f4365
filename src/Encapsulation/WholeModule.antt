-- ===== src/Encapsulation/WholeModule.antt =====
-- `encapsulate` of a module, in SymbolicEncapsulation.cpp: its loop over the functions.
pub mod Growing
mod Tests
use ephippion.Prelude.{
  ℕ, zero, suc, ◌+◌, ◌≤◌, ◌<◌, ◌≡◌, ◌≢◌, ◌⊎◌, inl, inr, ◌∙◌, ◌==◌, ==_iff, Bool-cases, Option-cases,
  refl, sym, subst, Bool, true, false, ◌||◌, Option, none, some, List, [], ◌∷◌, length, get_elem?,
  Text, arith,
}
use ephippion.Llvm.{Function, Llvm, Trace, M, ok, pure, ask, ◌>>=◌, IsFault}
use ephippion.Encapsulation.Harness.{encapsulate, encapsulate_impl, encapsulate_with}
use ephippion.Encapsulation.Defaults.{and_then-IsFault_first, few_iterations-Fails}

-- The loop walks the module's own list of functions, to which `encapsulate` adds: the round for
-- position `i` sees the list as it is then. It is `none` if the rounds do not suffice.
module _ (llvm : Llvm) (ndebug : Bool) (mod_name : Text) (iterations_num : ℕ)
    (functions : Trace → List Function) where
  abbrev visit : (Bool → M (Option Bool)) → Bool → Option Function → M (Option Bool)
  visit others changed none = pure (some changed)
  visit others changed (some func) =
      encapsulate llvm ndebug mod_name iterations_num func >>= λ done. others (changed || done)

  unfoldable pub encapsulate_from : ℕ → ℕ → Bool → M (Option Bool)
  encapsulate_from zero i changed = pure none
  encapsulate_from (suc rounds) i changed =
      let others = encapsulate_from rounds (suc i) in
      ask (λ t. get_elem? (functions t) i) >>= visit others changed

  unfoldable pub encapsulate_module : ℕ → M (Option Bool)
  unfolding encapsulate_from
  encapsulate_module rounds = encapsulate_from rounds 0 false

pub get_elem?-none : {A : Type 0} (xs : List A) (i : ℕ) → get_elem? xs i ≡ none → length xs ≤ i
get_elem?-none [] i h = omega arith
get_elem?-none (x ∷ xs) zero h = cc
get_elem?-none (x ∷ xs) (suc i) h = omega (arith, get_elem?-none xs i h)

pub get_elem?-some :
    {A : Type 0} (xs : List A) (i : ℕ) (x : A) → get_elem? xs i ≡ some x → i < length xs
get_elem?-some [] i x h = cc
get_elem?-some (y ∷ xs) zero x h = omega arith
get_elem?-some (y ∷ xs) (suc i) x h = omega (arith, get_elem?-some xs i x h)

-- No function of the module from position `i` on has a body.
abbrev pub HasNoBody : (Trace → List Function) → ℕ → Trace → Type 0
HasNoBody functions i t =
    (j : ℕ) (f : Function) → i ≤ j → get_elem? (functions t) j ≡ some f → f.is_declaration ≡ true

module _ (llvm : Llvm) (ndebug : Bool) (mod_name : Text) (iterations_num : ℕ)
    (functions : Trace → List Function) where
  -- From position `i` on nothing is done, or a run stops at a fault.
  abbrev pub IsIdleOrFault : ℕ → ℕ → Trace → Type 0
  IsIdleOrFault rounds i t =
      ((encapsulate_from llvm ndebug mod_name iterations_num functions rounds i false t
          ≡ ok (some false) t)
        × HasNoBody functions i t)
      ⊎ IsFault (encapsulate_from llvm ndebug mod_name iterations_num functions rounds i false t)

  declaration_round :
      (rounds i : ℕ) (f : Function) (t : Trace)
      → get_elem? (functions t) i ≡ some f
      → f.is_declaration ≡ true
      → encapsulate_from llvm ndebug mod_name iterations_num functions (suc rounds) i false t
        ≡ encapsulate_from llvm ndebug mod_name iterations_num functions rounds (suc i) false t
  unfolding encapsulate_from encapsulate encapsulate_impl
  declaration_round rounds i f t found decl = rw (found, decl) refl

  finished :
      (rounds i : ℕ) (t : Trace)
      → get_elem? (functions t) i ≡ none
      → encapsulate_from llvm ndebug mod_name iterations_num functions (suc rounds) i false t
        ≡ ok (some false) t
  unfolding encapsulate_from
  finished rounds i t done = rw done refl

  pub body_round :
      (rounds i : ℕ) (f : Function) (t : Trace)
      → get_elem? (functions t) i ≡ some f
      → IsFault (encapsulate llvm ndebug mod_name iterations_num f t)
      → IsFault
          (encapsulate_from llvm ndebug mod_name iterations_num functions (suc rounds) i false t)
  unfolding encapsulate_from
  body_round rounds i f t found stop = rw found (
      and_then-IsFault_first (encapsulate llvm ndebug mod_name iterations_num f t)
        (λ done.
          encapsulate_from llvm ndebug mod_name iterations_num functions rounds (suc i)
            (false || done))
        stop)

  -- The loop stops at a fault from a function with a body on, if the rounds suffice.
  abbrev pub Stops : Trace → Type 0
  Stops t =
      (rounds i : ℕ) (f : Function)
      → get_elem? (functions t) i ≡ some f
      → f.is_declaration ≡ false
      → length (functions t) < i + suc rounds
      → IsFault
          (encapsulate_from llvm ndebug mod_name iterations_num functions (suc rounds) i false t)

  pub encapsulate_from-IsIdleOrFault :
      (rounds i : ℕ) (t : Trace)
      → Stops t
      → length (functions t) < i + rounds
      → i ≤ length (functions t)
      → IsIdleOrFault rounds i t
  encapsulate_from-IsIdleOrFault zero i t stops enough inside = absurd (omega arith)
  encapsulate_from-IsIdleOrFault (suc rounds) i t stops enough inside =
      elim (Option-cases (get_elem? (functions t) i)) [
        | inl done ↦ inl (
          finished rounds i t done,
          λ j f le found. absurd (
              past (get_elem?-none (functions t) i done) (get_elem?-some (functions t) j f found)
                le),
        )
        | inr (f, found) ↦ elim (Bool-cases f.is_declaration) [
          | inr body ↦ inr (stops rounds i f found body enough)
          | inl decl ↦
              let step = declaration_round rounds i f t found decl in
              elim (encapsulate_from-IsIdleOrFault rounds (suc i) t stops (omega arith)
                (omega (arith, get_elem?-some (functions t) i f found))) [
                  | inl (idle, others) ↦ inl (
                    step ∙ idle,
                    λ j g le there. elim (Bool-cases (j == i)) [
                      | inl here ↦ first f g j i found there decl ((==_iff j i).0 here)
                      | inr later ↦
                          others j g (after j i le (λ e. cc (later, (==_iff j i).1 e))) there
                    ],
                  )
                  | inr stop ↦ inr (subst (λ r. IsFault r) (sym step) stop)
                ]
        ]
      ]
    where
      past : {m j k : ℕ} → m ≤ k → j < m → k ≤ j → ⊥
      past a b c = omega arith

      after : (j k : ℕ) → k ≤ j → j ≢ k → suc k ≤ j
      after j k le ne = omega arith

      first :
          (f g : Function) (j k : ℕ)
          → get_elem? (functions t) k ≡ some f
          → get_elem? (functions t) j ≡ some g
          → f.is_declaration ≡ true
          → j ≡ k
          → g.is_declaration ≡ true
      first f g j k a b decl e = cc

module _ (llvm : Llvm) (mod_name : Text) (iterations_num : ℕ)
    (functions : Trace → List Function) where
  encapsulate-few_iterations :
      (f : Function) (t : Trace)
      → iterations_num ≤ 1
      → f.is_declaration ≡ false
      → IsFault (encapsulate llvm false mod_name iterations_num f t)
  unfolding encapsulate encapsulate_with
  encapsulate-few_iterations f t few body =
      few_iterations-Fails llvm mod_name f iterations_num [] t few body

  -- With its assertions on and `IterationsNum` at 0 or 1, and rounds for one more than the functions of
  -- the module, `encapsulate` of a module ends: it returns that nothing has changed, and nothing has
  -- and no function of the module has a body, or it stops at a fault.
  pub encapsulate_module-few_iterations :
      (t : Trace)
      → iterations_num ≤ 1
      → ((encapsulate_module llvm false mod_name iterations_num functions
              (suc (length (functions t)))
              t
            ≡ ok (some false) t)
          × HasNoBody functions 0 t)
        ⊎ IsFault (
            encapsulate_module llvm false mod_name iterations_num functions
              (suc (length (functions t)))
              t)
  unfolding encapsulate_module
  encapsulate_module-few_iterations t few =
      encapsulate_from-IsIdleOrFault llvm false mod_name iterations_num functions
        (suc (length (functions t))) 0 t
        (λ rounds i f found body enough.
          body_round llvm false mod_name iterations_num functions rounds i f t found
            (encapsulate-few_iterations f t few body))
        (omega arith) (omega arith)
