-- ===== src/Llvm/Keeps.antt =====
-- What holds after every run that returns: rules for each way in which the code is put together.
use ephippion.Prelude.{
  ℕ, ◌<◌, ◌≡◌, refl, length, arith, Text, Bool, true, false, Option, none, some, ◌∷◌, if◌then◌else◌,
}
use ephippion.Llvm.Calls.{
  Call, get_or_insert_function, global_string_ptr, insert, end_of, Block, Inst, is_terminator,
  Trace,
}
use ephippion.Llvm.Types.{FunctionType}
use ephippion.Llvm.Monad.{
  build, Fault, Run, ok, fault, M, pure, and_then, ◌>>=◌, ◌>>◌, emit, ask, fail, check_that,
  in_range, out_of_range,
}

-- `P` holds of the value and the calls, if the run returns.
abbrev pub Post : {A : Type 0} → (A → Trace → Type 0) → Run A → Type 0
Post P (ok a t) = P a t
Post P (fault f) = Unit

-- `m` keeps `P`, a property that no further call can break.
pub record Keeps {A : Type 0} (P : Trace → Type 0) (m : M A) : Type 0 where
  pub at : (t : Trace) → P t → Post (λ _. P) (m t)

abbrev pub IsMonotone : (Trace → Type 0) → Type 0
IsMonotone P = (c : Call) (t : Trace) → P t → P (c ∷ t)

-- `P` survives a declaration and a new text,
pub record MayDeclare (P : Trace → Type 0) : Type 0 where
  pub function :
      (name : Text) (type : FunctionType) (t : Trace)
      → P t
      → P (get_or_insert_function name type ∷ t)
  pub text : (s : Text) (t : Trace) → P t → P (global_string_ptr s ∷ t)

-- and an instruction at the end of block `b` that does not leave it.
pub record MayFill (P : Trace → Type 0) (b : Block) : Type 0 where
  pub work : (i : Inst) (t : Trace) → is_terminator i ≡ false → P t → P (insert (end_of b) i ∷ t)

pub IsMonotone-MayDeclare : {P : Trace → Type 0} → IsMonotone P → MayDeclare P
IsMonotone-MayDeclare mono = record {
  function = λ name type t p. mono _ t p;
  text = λ s t p. mono _ t p;
}

pub IsMonotone-MayFill : {P : Trace → Type 0} (b : Block) → IsMonotone P → MayFill P b
IsMonotone-MayFill b mono = record { work = λ i t e p. mono _ t p }

pub Post-and_then :
    {A B : Type 0} (P : A → Trace → Type 0) (Q : B → Trace → Type 0) (r : Run A) (k : A → M B)
    → Post P r
    → ((a : A) (t : Trace) → P a t → Post Q (k a t))
    → Post Q (and_then r k)
Post-and_then P Q (ok a t) k p next = next a t p
Post-and_then P Q (fault f) k p next = tt

module _ {A : Type 0} {P : Trace → Type 0} where
  pub Keeps-pure : (a : A) → Keeps P (pure a)
  Keeps-pure a = record { at = λ t p. p }

  pub Keeps-fail : (f : Fault) → Keeps P (fail {A = A} f)
  Keeps-fail f = record { at = λ t p. tt }

  pub Keeps-ask : (q : Trace → A) → Keeps P (ask q)
  Keeps-ask q = record { at = λ t p. p }

  pub Keeps-if : (b : Bool) (m n : M A) → Keeps P m → Keeps P n → Keeps P (if b then m else n)
  Keeps-if true m n km kn = km
  Keeps-if false m n km kn = kn

module _ {P : Trace → Type 0} where
  pub Keeps-emit : (c : Call) → IsMonotone P → Keeps P (emit c)
  Keeps-emit c mono = record { at = λ t p. mono c t p }

  pub Keeps-function :
      (name : Text) (type : FunctionType)
      → MayDeclare P
      → Keeps P (emit (get_or_insert_function name type))
  Keeps-function name type may = record { at = λ t p. may.function name type t p }

  pub Keeps-text : (s : Text) → MayDeclare P → Keeps P (emit (global_string_ptr s))
  Keeps-text s may = record { at = λ t p. may.text s t p }

  pub Keeps-work :
      (b : Block) (i : Inst) → is_terminator i ≡ false → MayFill P b → Keeps P (build (end_of b) i)
  Keeps-work b i e may = record { at = λ t p. may.work i t e p }

module _ {A B : Type 0} {P : Trace → Type 0} where
  pub Keeps-bind :
      (m : M A) (k : A → M B) → Keeps P m → ((a : A) → Keeps P (k a)) → Keeps P (m >>= k)
  Keeps-bind m k km kk = record {
    at = λ t p. Post-and_then (λ _. P) (λ _. P) (m t) k (km.at t p) (λ a t' p'. (kk a).at t' p');
  }

  pub Keeps-then : (m : M A) (n : M B) → Keeps P m → Keeps P n → Keeps P (m >> n)
  Keeps-then m n km kn = record {
    at = λ t p. Post-and_then (λ _. P) (λ _. P) (m t) (λ _. n) (km.at t p) (λ a t' p'. kn.at t' p');
  }

-- `m` makes a call in every run that returns.
pub record Emits {A : Type 0} (m : M A) : Type 0 where
  pub at : (t : Trace) → Post (λ _ t'. length t < length t') (m t)

pub longer-IsMonotone : (n : ℕ) → IsMonotone (λ t. n < length t)
longer-IsMonotone n c t h = omega arith

pub Emits-emit : (c : Call) → Emits (emit c)
Emits-emit c = record { at = λ t. omega arith }

module _ {A B : Type 0} where
  pub Emits-bind :
      (m : M A) (k : A → M B)
      → Emits m
      → ((n : ℕ) (a : A) → Keeps (λ t. n < length t) (k a))
      → Emits (m >>= k)
  Emits-bind m k em kk = record {
    at = λ t.
        Post-and_then (λ _ t'. length t < length t') (λ _ t'. length t < length t') (m t) k
          (em.at t) (λ a t' p. (kk (length t) a).at t' p);
  }

  pub Emits-then :
      (m : M A) (n : M B) → Emits m → ((k : ℕ) → Keeps (λ t. k < length t) n) → Emits (m >> n)
  Emits-then m n em kn = record {
    at = λ t.
        Post-and_then (λ _ t'. length t < length t') (λ _ t'. length t < length t') (m t) (λ _. n)
          (em.at t) (λ a t' p. (kn (length t)).at t' p);
  }

pub Keeps-check_that : {P : Trace → Type 0} (ndebug c : Bool) → Keeps P (check_that ndebug c)
Keeps-check_that ndebug c = Keeps-if _ _ _ (Keeps-pure tt) (Keeps-fail _)

pub Keeps-in_range : {A : Type 0} {P : Trace → Type 0} (o : Option A) → Keeps P (in_range o)
Keeps-in_range none = Keeps-fail out_of_range
Keeps-in_range (some x) = Keeps-pure x

pub ruleset work_rules = (
  Keeps-pure, Keeps-fail, Keeps-ask, Keeps-if, Keeps-bind, Keeps-then, Keeps-in_range,
  Keeps-function, Keeps-text, Keeps-work, refl,
)

pub ruleset keeps_rules = (
  Keeps-pure, Keeps-fail, Keeps-ask, Keeps-if, Keeps-emit, Keeps-bind, Keeps-then, Keeps-in_range,
)
