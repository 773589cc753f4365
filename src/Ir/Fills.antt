-- ===== src/Ir/Fills.antt =====
-- Calls that fill some blocks with instructions that do not leave them.
use ephippion.Prelude.{
  ℕ, ◌<◌, ◌≡◌, ◌≢◌, false, List, [], ◌∷◌, ◌++◌, length, All, All-append, arith, ◌==◌, if◌then◌else◌,
  Bool, true,
}
use ephippion.Llvm.{Block, Inst, is_terminator, Llvm, IsLlvm, Trace, Run, ok, fault, Succeeds}
use ephippion.Llvm.Keeps.{MayDeclare, MayFill, Post}
use ephippion.Llvm.Scope.{InScope}
use ephippion.Ir.Blocks.{body_of, Placed}
use ephippion.Ir.Frame.{Frame, Frame-refl, Frame-trans, Frame-insert, Frame-quiet, Frame-weaken}

-- Nothing leaves the block.
abbrev pub IsStraight : List Placed → Type 0
IsStraight = All (λ p. is_terminator p.1 ≡ false)

module _ (llvm : Llvm) (W : Block → Type 0) (t : Trace) where
  pub record Fills (t' : Trace) : Type 0 where
    pub frame : Frame llvm W t t'
    pub straight : (b : Block) → b < length t → IsStraight (body_of t b) → IsStraight (body_of t' b)

module _ {llvm : Llvm} (laws : IsLlvm llvm) (W : Block → Type 0) (t : Trace) where
  pub Fills-refl : InScope t → Fills llvm W t t
  Fills-refl s = record {
    frame = Frame-weaken llvm (λ b h a. tt) (Frame-refl llvm t s);
    straight = λ b h w. w;
  }

  appended-IsStraight :
      (x : Bool) (is : List Placed) (n : ℕ) (i : Inst)
      → is_terminator i ≡ false
      → IsStraight is
      → IsStraight (if x then is ++ (n, i) ∷ [] else is)
  appended-IsStraight true is n i e w = All-append _ is _ w (e, tt)
  appended-IsStraight false is n i e w = w

  pub Fills-MayDeclare : MayDeclare (Fills llvm W t)
  unfolding body_of
  Fills-MayDeclare = record {
    function = λ name type t' f. record {
      frame =
          Frame-trans llvm f.frame
            (Frame-weaken llvm (λ b h a. tt) (Frame-quiet laws _ t' f.frame.scope tt));
      straight = f.straight;
    };
    text = λ s t' f. record {
      frame =
          Frame-trans llvm f.frame
            (Frame-weaken llvm (λ b h a. tt) (Frame-quiet laws _ t' f.frame.scope tt));
      straight = f.straight;
    };
  }

  pub Fills-MayFill :
      (c : Block) → c < length t → ((b : Block) → W b → c ≢ b) → MayFill (Fills llvm W t) c
  unfolding body_of
  Fills-MayFill c below among = record {
    work = λ i t' e f. record {
      frame = Frame-trans llvm f.frame (
          Frame-weaken llvm (λ b h a. among b a)
            (Frame-insert laws c i t' f.frame.scope (omega (arith, f.frame.longer))));
      straight =
          λ b h w. appended-IsStraight (c == b) (body_of t' b) (length t') i e (f.straight b h w);
    };
  }

-- What a run leaves if it returns, and that it returns.
pub Succeeds-Post :
    {A : Type 0} (P Q : A → Trace → Type 0) (r : Run A)
    → Succeeds r P
    → Post Q r
    → Succeeds r (λ a t. P a t × Q a t)
Succeeds-Post P Q (ok a t) p q = (p, q)
Succeeds-Post P Q (fault f) p q = p
