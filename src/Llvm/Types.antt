-- ===== src/Llvm/Types.antt =====
-- The types and functions of the IR that the code names.
use ephippion.Prelude.{ℕ, Bool, true, false, List, map, ◌==◌, Text}

-- `other` numbers the types that the code never names: structures, arrays, floats.
pub data Ty : Type 0 where
  int : ℕ → Ty
  ptr : Ty → Ty
  void : Ty
  other : ℕ → Ty

-- `isPointerTy`
abbrev pub is_pointer : Ty → Bool
is_pointer (ptr t) = true
is_pointer _ = false

-- Types are unique in their context, so `==` on pointers to them is equality.
unfoldable pub ty_eq : Ty → Ty → Bool
ty_eq (int v) (int w) = v == w
ty_eq (ptr s) (ptr t) = ty_eq s t
ty_eq void void = true
ty_eq (other i) (other j) = i == j
ty_eq _ _ = false

pub record FunctionType : Type 0 where
  pub result_type : Ty
  pub params : List Ty
  pub is_var_arg : Bool

abbrev pub function_type : Ty → List Ty → Bool → FunctionType
function_type r ps v = record { result_type = r; params = ps; is_var_arg = v }

-- `llvm::Argument`
pub record Argument : Type 0 where
  pub name : Text
  pub type : Ty

-- `llvm::Function`: a name, the arguments, and whether it has a body.
pub record Function : Type 0 where
  pub name : Text
  pub result_type : Ty
  pub args : List Argument
  pub is_declaration : Bool

abbrev pub type_of_function : Function → FunctionType
type_of_function f = function_type f.result_type (map (λ a. a.type) f.args) false

-- What a call instruction calls: a function and its type.
pub record Callee : Type 0 where
  pub name : Text
  pub type : FunctionType

abbrev pub callee : Text → FunctionType → Callee
callee n t = record { name = n; type = t }
