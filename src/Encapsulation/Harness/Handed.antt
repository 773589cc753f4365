-- ===== src/Encapsulation/Harness/Handed.antt =====
-- What the calls in a harness of SymbolicEncapsulation.cpp hand to the function: `createCall` on the
-- values that `setupHarnessArgs` made.
use ephippion.Prelude.{
  ℕ, suc, ◌+◌, ◌≡◌, ◌≢◌, inl, inr, refl, sym, ◌∙◌, ap, true, false, Option, some, List, [], ◌∷◌,
  ◌++◌, map, get_elem?, All, Text, arith,
}
use ephippion.Direction.{ArgSpec}
use ephippion.Llvm.{
  Ty, ty_eq, int, is_pointer, Argument, Function, type_of_function, callee, Block, Value, result,
  call, load, bit_cast, phi, br, Point, insert, before, call_at, Llvm, IsLlvm, Trace,
}
use ephippion.Ir.{Placed, body_of}
use ephippion.Ir.Positions.{Extends}
use ephippion.Encapsulation.Harness.Places.{IsPlace, ArePlaces, no_places, one_place}
use ephippion.Encapsulation.Calls.Passed.{
  IsPassed, loaded, pointer_cast, value_itself, value_cast, ArePassed, none_left, one_more,
}
use ephippion.Encapsulation.Calls.Placed.{IsCallBody, IsPreparing}

sixty_four : ty_eq (int 64) (int 64) ≢ false
unfolding ty_eq
sixty_four e = cc

-- For an argument that is no pointer the value at its place on the stack is loaded, and for a pointer
-- the address of its block on the heap is cast to the parameter's type.
pub data IsHanded (t : Trace) (p : Point) (arg : Argument) (v : Value) : Value → Type 0 where
  value_loaded :
      (k : ℕ)
      → is_pointer arg.type ≡ false
      → call_at t k ≡ some (insert p (load v))
      → IsHanded t p arg v (result k)
  address_cast :
      (k : ℕ)
      → is_pointer arg.type ≡ true
      → call_at t k ≡ some (insert p (bit_cast v arg.type))
      → IsHanded t p arg v (result k)

pub data AreHanded (t : Trace) (p : Point) : List Argument → List Value → List Value → Type 0 where
  all_handed : AreHanded t p [] [] []
  one_handed :
      {arg : Argument} {v a : Value} {args : List Argument} {vs bs : List Value}
      → IsHanded t p arg v a
      → AreHanded t p args vs bs
      → AreHanded t p (arg ∷ args) (v ∷ vs) (a ∷ bs)

-- The block calls the function once, with the induction variable and what is handed for the others,
-- and goes to the latch.
pub record IsCall (func : Function) (rest : List Argument) (others : List Value) (ind : ℕ)
    (c latch : Block) (k : ℕ) (t : Trace) : Type 0 where
  pub preparation : List Placed
  pub is_preparation : All (IsPreparing ind) preparation
  pub position : ℕ
  pub handed : List Value
  pub body :
      body_of t c
      ≡ preparation
        ++ (position, call (callee func.name (type_of_function func)) (result ind ∷ handed))
          ∷ (k, br latch)
          ∷ []
  pub are_handed : AreHanded t (before k) rest others handed

module _ {llvm : Llvm} (laws : IsLlvm llvm) (iterations : ℕ) (specs : List ArgSpec) (setup : Block)
    (func : Function) where
  IsPassed-IsHanded :
      (s t₀ t : Trace) (p : Point) (i : ℕ) (arg : Argument) (v a : Value)
      → Extends s t₀
      → IsPlace llvm iterations specs setup s arg v
      → get_elem? (type_of_function func).params i ≡ some arg.type
      → IsPassed llvm func t₀ t p i v a
      → IsHanded t p arg v a
  IsPassed-IsHanded s t₀ t p i arg v a x (inl (j, e, q, at)) f (loaded u k y z b c h) =
      value_loaded k q h
  IsPassed-IsHanded s t₀ t p i arg v a x (inl (j, e, q, at)) f (pointer_cast u k ty y z b c g h) =
      let typed = laws.is_alloca-alloca u j _ _ _ (y _ _ (x _ _ at)) in cc (rw e at c, typed)
  IsPassed-IsHanded s t₀ t p i arg v a x (inl (j, e, q, at)) f (value_itself u ty y z b g h) =
      let typed = laws.type_of-alloca u j _ _ _ (y _ _ (x _ _ at)) in cc (rw (e, typed) at b)
  IsPassed-IsHanded s t₀ t p i arg v a x (inl (j, e, q, at)) f (value_cast u k ty y z b g h c) =
      let typed = laws.type_of-alloca u j _ _ _ (y _ _ (x _ _ at)) in cc (rw (e, typed) at b)
  IsPassed-IsHanded s t₀ t p i arg v a x (inr (size, j, e, q, at)) f (loaded u k y z b c h) =
      let typed = laws.is_alloca-call u j _ _ _ (y _ _ (x _ _ at)) in cc (rw e at c, typed)
  IsPassed-IsHanded s t₀ t p i arg v a x (inr (size, j, e, q, at)) f
        (pointer_cast u k ty y z b c g h) =
      let same : ty ≡ arg.type = cc (f, g) in address_cast k q (rw same at h)
  IsPassed-IsHanded s t₀ t p i arg v a x (inr (size, j, e, q, at)) f (value_itself u ty y z b g h) =
      let typed = laws.type_of-call u j _ _ _ (y _ _ (x _ _ at)) in cc (rw (e, typed) at b)
  IsPassed-IsHanded s t₀ t p i arg v a x (inr (size, j, e, q, at)) f
        (value_cast u k ty y z b g h c) =
      let typed = laws.type_of-call u j _ _ _ (y _ _ (x _ _ at)) in cc (rw (e, typed) at b)

  ArePassed-AreHanded :
      (s t₀ t : Trace) (p : Point) (i : ℕ) (args : List Argument) (vs bs : List Value)
      → Extends s t₀
      → ArePlaces llvm iterations specs setup s args vs
      → ((j : ℕ)
          → get_elem? (type_of_function func).params (i + j)
            ≡ get_elem? (map (λ (a : Argument). a.type) args) j)
      → ArePassed llvm func t₀ t p i vs bs
      → AreHanded t p args vs bs
  ArePassed-AreHanded s t₀ t p i args vs bs x no_places f none_left = all_handed
  ArePassed-AreHanded s t₀ t p i args vs bs x (one_place first others) f (one_more passed later) =
      one_handed (IsPassed-IsHanded s t₀ t p i _ _ _ x first (here (f 0)) passed)
        (ArePassed-AreHanded s t₀ t p (suc i) _ _ _ x others (λ j. next j ∙ f (suc j)) later)
    where
      here :
          {o : Option Ty}
          → get_elem? (type_of_function func).params (i + 0) ≡ o
          → get_elem? (type_of_function func).params i ≡ o
      here e =
          let same : i + 0 ≡ i = omega arith in
          ap (λ n. get_elem? (type_of_function func).params n) (sym same) ∙ e

      next :
          (j : ℕ)
          → get_elem? (type_of_function func).params (suc i + j)
            ≡ get_elem? (type_of_function func).params (i + suc j)
      next j =
          let same : suc i + j ≡ i + suc j = omega arith in
          ap (λ n. get_elem? (type_of_function func).params n) same

  module _ (arg : Argument) (rest : List Argument) (args_eq : func.args ≡ arg ∷ rest)
      (number : arg.type ≡ int 64) where
    params_eq :
        (j : ℕ)
        → get_elem? (type_of_function func).params (0 + j)
          ≡ get_elem? (map (λ (a : Argument). a.type) (arg ∷ rest)) j
    params_eq j =
        let same : 0 + j ≡ j = omega arith in
        ap (λ n. get_elem? (type_of_function func).params n) same
        ∙ ap (λ xs. get_elem? (map (λ (a : Argument). a.type) xs) j) args_eq

    params_rest :
        (j : ℕ)
        → get_elem? (type_of_function func).params (1 + j)
          ≡ get_elem? (map (λ (a : Argument). a.type) rest) j
    params_rest j =
        let same : 1 + j ≡ 0 + suc j = omega arith in
        ap (λ n. get_elem? (type_of_function func).params n) same ∙ params_eq (suc j)

    -- A number of 64 bits is passed as it is.
    IsPassed-number :
        (t₀ t : Trace) (p q : Point) (ind k : ℕ) (name : Text) (a : Value)
        → call_at t₀ ind ≡ some (insert q (phi (int 64) k name))
        → IsPassed llvm func t₀ t p 0 (result ind) a
        → a ≡ result ind
    IsPassed-number t₀ t p q ind k name a at (loaded u j y z b c h) =
        let typed = laws.type_of-phi u ind _ _ _ _ (y _ _ at) in cc (rw typed at b)
    IsPassed-number t₀ t p q ind k name a at (pointer_cast u j ty y z b c f h) =
        let typed = laws.type_of-phi u ind _ _ _ _ (y _ _ at) in cc (rw typed at b)
    IsPassed-number t₀ t p q ind k name a at (value_itself u ty y z b f e) = refl
    IsPassed-number t₀ t p q ind k name a at (value_cast u j ty y z b f e h) =
        let typed = laws.type_of-phi u ind _ _ _ _ (y _ _ at) in
        let same : ty ≡ int 64 = cc (f, params_eq 0, number) in
        absurd (sixty_four (rw (same, typed) at e))

    pub IsCallBody-IsCall :
        (s base t : Trace) (q : Point) (ind m : ℕ) (name : Text) (vs : List Value) (c latch : Block)
        (k : ℕ)
        → Extends s base
        → ArePlaces llvm iterations specs setup s rest vs
        → call_at base ind ≡ some (insert q (phi (int 64) m name))
        → IsCallBody llvm base func (result ind ∷ vs) ind c latch k t
        → IsCall func rest vs ind c latch k t
    IsCallBody-IsCall s base t q ind m name vs c latch k x places at b =
        passed_on b.actual b.passed b.body
      where
        passed_on :
            (actual : List Value)
            → ArePassed llvm func base t (before k) 0 (result ind ∷ vs) actual
            → body_of t c
              ≡ b.preparation
                ++ (b.position, call (callee func.name (type_of_function func)) actual)
                  ∷ (k, br latch)
                  ∷ []
            → IsCall func rest vs ind c latch k t
        passed_on actual (one_more {a} {bs} first others) body = record {
          preparation = b.preparation;
          is_preparation = b.is_preparation;
          position = b.position;
          handed = bs;
          body = rw (IsPassed-number base t (before k) q ind m name a at first) at body;
          are_handed =
              ArePassed-AreHanded s base t (before k) 1 rest vs bs x places params_rest others;
        }
