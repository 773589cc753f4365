-- ===== src/Encapsulation/WholeModule/Tests.antt =====
-- A module whose list of functions is computed from the calls, with one function that has a body.
use ephippion.Prelude.{
  ℕ, zero, suc, ◌≡◌, ◌⊎◌, refl, Bool, true, false, some, List, [], ◌∷◌, ◌++◌, map, length,
  length-map, get_elem?, Text, text_eq, text_eq_iff, bytes, if◌then◌else◌, Bool-cases, inl, inr,
  ◌||◌,
}
use ephippion.Llvm.{
  int, void, Ty, Argument, Function, FunctionType, Call, create_block, get_or_insert_function,
  insert, global_string_ptr, zext_or_bit_cast, add_incoming, set_successor, Trace, ok, IsFault,
}
use ephippion.Llvm.Concrete.{concrete}
use ephippion.Encapsulation.WholeModule.{encapsulate_module, HasNoBody}
use ephippion.Encapsulation.WholeModule.Growing.{
  IsNew, IsLater, IsFunctionList, AreFree, encapsulate_module-ends,
}

abbrev unnamed : Ty → Argument
unnamed type = record { name = []; type = type }

abbrev declaration : Text → FunctionType → Function
declaration name type = record {
  name = name;
  result_type = type.result_type;
  args = map unnamed type.params;
  is_declaration = true;
}

abbrev is_known : Text → List Function → Bool
is_known name [] = false
is_known name (f ∷ fs) = text_eq f.name name || is_known name fs

abbrev declare : Text → FunctionType → List Function → List Function
declare name type fs = if is_known name fs then fs else fs ++ declaration name type ∷ []

abbrev opened : Text → Function → Function
opened name f = if text_eq f.name name then record f { is_declaration = false } else f

abbrev functions_of : List Function → Trace → List Function
functions_of base [] = base
functions_of base (get_or_insert_function name type ∷ t) = declare name type (functions_of base t)
functions_of base (create_block b name ∷ t) = map (opened name) (functions_of base t)
functions_of base (insert p i ∷ t) = functions_of base t
functions_of base (global_string_ptr s ∷ t) = functions_of base t
functions_of base (zext_or_bit_cast v ty ∷ t) = functions_of base t
functions_of base (add_incoming n v b ∷ t) = functions_of base t
functions_of base (set_successor n k b ∷ t) = functions_of base t

get_elem?-append :
    {A : Type 0} (xs ys : List A) (i : ℕ) (x : A)
    → get_elem? xs i ≡ some x
    → get_elem? (xs ++ ys) i ≡ some x
get_elem?-append [] ys i x h = cc
get_elem?-append (y ∷ xs) ys zero x h = h
get_elem?-append (y ∷ xs) ys (suc i) x h = get_elem?-append xs ys i x h

get_elem?-last : {A : Type 0} (xs : List A) (x : A) → get_elem? (xs ++ x ∷ []) (length xs) ≡ some x
get_elem?-last [] x = refl
get_elem?-last (y ∷ xs) x = get_elem?-last xs x

get_elem?-map :
    {A B : Type 0} (f : A → B) (xs : List A) (i : ℕ) (x : A)
    → get_elem? xs i ≡ some x
    → get_elem? (map f xs) i ≡ some (f x)
get_elem?-map f [] i x h = cc
get_elem?-map f (y ∷ xs) zero x h = let same : y ≡ x = cc in rw same refl
get_elem?-map f (y ∷ xs) (suc i) x h = get_elem?-map f xs i x h

opened-IsLater : (name : Text) (f : Function) → IsLater f (opened name f)
opened-IsLater name f = elim (Bool-cases (text_eq f.name name)) [
  | inl same ↦ rw same (refl, refl, λ h. refl)
  | inr other ↦ rw other (refl, refl, λ h. h)
]

declare-kept :
    (b : Bool) (fs more : List Function) (i : ℕ) (f : Function)
    → get_elem? fs i ≡ some f
    → get_elem? (if b then fs else fs ++ more) i ≡ some f
declare-kept true fs more i f h = h
declare-kept false fs more i f h = get_elem?-append fs more i f h

is_known-IsNew : (name : Text) (fs : List Function) → IsNew name fs → is_known name fs ≡ false
is_known-IsNew name [] h = refl
is_known-IsNew name (f ∷ fs) (ne, h) = elim (Bool-cases (text_eq f.name name)) [
  | inl same ↦ absurd (ne ((text_eq_iff f.name name).0 same))
  | inr other ↦ rw other (is_known-IsNew name fs h)
]

functions_of-kept :
    (base : List Function) (t : Trace) (i : ℕ) (f : Function)
    → get_elem? (functions_of base t) i ≡ some f
    → (c : Call)
    → (f' : Function) × (get_elem? (functions_of base (c ∷ t)) i ≡ some f') × IsLater f f'
functions_of-kept base t i f h (get_or_insert_function name type) =
    (f, declare-kept (is_known name (functions_of base t)) _ _ i f h, (refl, refl, λ b. b))
functions_of-kept base t i f h (create_block b name) =
    (opened name f, get_elem?-map (opened name) (functions_of base t) i f h, opened-IsLater name f)
functions_of-kept base t i f h (insert p x) = (f, h, (refl, refl, λ b. b))
functions_of-kept base t i f h (global_string_ptr s) = (f, h, (refl, refl, λ b. b))
functions_of-kept base t i f h (zext_or_bit_cast v ty) = (f, h, (refl, refl, λ b. b))
functions_of-kept base t i f h (add_incoming n v b) = (f, h, (refl, refl, λ k. k))
functions_of-kept base t i f h (set_successor n k b) = (f, h, (refl, refl, λ j. j))

declare-new :
    (name : Text) (type : FunctionType) (fs : List Function)
    → is_known name fs ≡ false
    → get_elem? (declare name type fs) (length fs) ≡ some (declaration name type)
declare-new name type fs new = rw new (get_elem?-last fs (declaration name type))

functions_of-IsFunctionList : (base : List Function) → IsFunctionList (functions_of base)
functions_of-IsFunctionList base = record {
  kept = λ t i f h c. functions_of-kept base t i f h c;
  declared = λ t name type new. (
    declaration name type,
    declare-new name type (functions_of base t) (is_known-IsNew name (functions_of base t) new),
    refl,
    length-map unnamed type.params,
  );
  block = λ t i f name h.
      let is_own : text_eq f.name f.name ≡ true = (text_eq_iff f.name f.name).1 refl in
      (
        opened f.name f,
        get_elem?-map (opened f.name) (functions_of base t) i f h,
        (opened-IsLater f.name f).1,
        rw is_own refl,
      );
}

-- void f(i64 i), and a declaration of g.
abbrev two_functions : List Function
two_functions =
    (record { name = bytes "g"; result_type = void; args = []; is_declaration = true })
    ∷ (record {
      name = bytes "f";
      result_type = void;
      args = unnamed (int 64) ∷ [];
      is_declaration = false;
    })
    ∷ []

two_functions-AreFree : AreFree two_functions
two_functions-AreFree zero f h = ((λ e. cc), ((λ e. cc), tt))
two_functions-AreFree (suc i) f h = ((λ e. cc), ((λ e. cc), tt))

encapsulate_module-ends_example :
    ((encapsulate_module concrete false (bytes "m") 4 (functions_of two_functions) 3 []
        ≡ ok (some false) [])
      × HasNoBody (functions_of two_functions) 0 [])
    ⊎ IsFault (encapsulate_module concrete false (bytes "m") 4 (functions_of two_functions) 3 [])
encapsulate_module-ends_example =
    encapsulate_module-ends concrete false (bytes "m") 4 (functions_of two_functions)
      (functions_of-IsFunctionList two_functions) [] two_functions-AreFree
