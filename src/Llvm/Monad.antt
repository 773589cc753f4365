-- ===== src/Llvm/Monad.antt =====
-- Runs of the code: calls are appended to the sequence, and a run may stop at a fault.
use ephippion.Prelude.{
  ℕ, Bool, ◌||◌, if◌then◌else◌, Option, none, some, List, ◌∷◌, length, get_elem?,
}
use ephippion.Llvm.Calls.{Inst, Point, Call, insert, Trace}

-- `assertion`: an `assert` that failed. The others are undefined behaviour: a `cast` of a value of
-- another class, an index out of range, a null pointer.
pub data Fault : Type 0 where
  assertion bad_cast out_of_range null_pointer : Fault

pub data Run (A : Type 0) : Type 0 where
  ok : A → Trace → Run A
  fault : Fault → Run A

abbrev pub M : Type 0 → Type 0
M A = Trace → Run A

abbrev pub pure : {A : Type 0} → A → M A
pure = ok

module _ {A B : Type 0} where
  abbrev pub and_then : Run A → (A → M B) → Run B
  and_then (ok a t) k = k a t
  and_then (fault f) k = fault f

  infixl 5 ◌>>=◌ ◌>>◌
  abbrev pub ◌>>=◌ : M A → (A → M B) → M B
  ◌>>=◌ m k t = and_then (m t) k

  abbrev pub ◌>>◌ : M A → M B → M B
  ◌>>◌ m k t = and_then (m t) (λ _. k)

-- One call into LLVM; what it returned is named by its position.
abbrev pub emit : Call → M ℕ
emit c t = ok (length t) (c ∷ t)

-- A call of the builder at its insertion point.
abbrev pub build : Point → Inst → M ℕ
build p i = emit (insert p i)

-- A question about the module as it is.
abbrev pub ask : {A : Type 0} → (Trace → A) → M A
ask q t = ok (q t) t

abbrev pub fail : {A : Type 0} → Fault → M A
fail f t = fault f

-- `assert(condition)`, which a build with `NDEBUG` leaves out.
abbrev pub check_that : (ndebug condition : Bool) → M (Unit {0})
check_that ndebug c = if c || ndebug then pure tt else fail assertion

-- `xs[i]` of an `ArrayRef` or a `SmallVector`.
abbrev pub in_range : {A : Type 0} → Option A → M A
in_range none = fail out_of_range
in_range (some x) = pure x

abbrev pub at_index : {A : Type 0} → List A → ℕ → M A
at_index xs i = in_range (get_elem? xs i)

abbrev pub Succeeds : {A : Type 0} → Run A → (A → Trace → Type 0) → Type 0
Succeeds (ok a t) P = P a t
Succeeds (fault f) P = ⊥

pub Succeeds-map :
    {A : Type 0} (P Q : A → Trace → Type 0) (r : Run A)
    → ((a : A) (t : Trace) → P a t → Q a t)
    → Succeeds r P
    → Succeeds r Q
Succeeds-map P Q (ok a t) f h = f a t h
Succeeds-map P Q (fault e) f h = h

pub Succeeds-and_then :
    {A B : Type 0} (P : A → Trace → Type 0) (Q : B → Trace → Type 0) (r : Run A) (k : A → M B)
    → Succeeds r P
    → ((a : A) (t : Trace) → P a t → Succeeds (k a t) Q)
    → Succeeds (and_then r k) Q
Succeeds-and_then P Q (ok a t) k p next = next a t p
Succeeds-and_then P Q (fault f) k p next = absurd p

-- A run that stops at a fault.
abbrev pub IsFault : {A : Type 0} → Run A → Type 0
IsFault (ok a t) = ⊥
IsFault (fault f) = Unit
