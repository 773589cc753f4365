-- ===== src/Ir/Frame.antt =====
-- Calls that leave all blocks but some alone.
use ephippion.Prelude.{ℕ, ◌<◌, ◌≤◌, ◌≡◌, ◌≢◌, refl, ◌∙◌, ◌∷◌, length, arith, ==_ne}
use ephippion.Llvm.{
  Block, Value, add_incoming, Inst, Call, insert, end_of, Llvm, IsLlvm, Trace, create_block,
  get_or_insert_function, global_string_ptr, zext_or_bit_cast,
}
use ephippion.Llvm.Scope.{InScope}
use ephippion.Ir.Blocks.{body_of, incoming}
use ephippion.Ir.Positions.{Extends, Extends-cons}

module _ (llvm : Llvm) where
  -- From `t` to `t'` calls are added that leave the blocks of `t` alone for which `W` holds.
  pub record Frame (W : Block → Type 0) (t t' : Trace) : Type 0 where
    pub scope : InScope t'
    pub longer : length t ≤ length t'
    pub kept : (b : Block) → b < length t → W b → body_of t' b ≡ body_of t b
    pub terminator : (b : Block) → b < length t → W b → llvm.terminator t' b ≡ llvm.terminator t b
    pub phis : (n : ℕ) → n < length t → incoming t' n ≡ incoming t n
    pub extends : Extends t t'

  pub Frame-refl : (t : Trace) → InScope t → Frame (λ b. Unit) t t
  Frame-refl t s = record {
    scope = s;
    longer = omega arith;
    kept = λ b h a. refl;
    terminator = λ b h a. refl;
    phis = λ n h. refl;
    extends = λ k c h. h;
  }

  pub Frame-trans :
      {W : Block → Type 0} {t t₁ t' : Trace} → Frame W t t₁ → Frame W t₁ t' → Frame W t t'
  Frame-trans f g = record {
    scope = g.scope;
    longer = omega (arith, f.longer, g.longer);
    kept = λ b h a. g.kept b (omega (arith, f.longer)) a ∙ f.kept b h a;
    terminator = λ b h a. g.terminator b (omega (arith, f.longer)) a ∙ f.terminator b h a;
    phis = λ n h. g.phis n (omega (arith, f.longer)) ∙ f.phis n h;
    extends = λ k c h. g.extends k c (f.extends k c h);
  }

  pub Frame-weaken :
      {V W : Block → Type 0} {t t' : Trace}
      → ((b : Block) → b < length t → W b → V b)
      → Frame V t t'
      → Frame W t t'
  Frame-weaken among f = record {
    scope = f.scope;
    longer = f.longer;
    kept = λ b h a. f.kept b h (among b h a);
    terminator = λ b h a. f.terminator b h (among b h a);
    phis = f.phis;
    extends = f.extends;
  }

  -- What happens to blocks that are not in `t` does not matter to it.
  pub Frame-trans_below :
      {V W : Block → Type 0} {t t₁ t' : Trace}
      → Frame W t t₁
      → Frame V t₁ t'
      → ((b : Block) → b < length t → W b → V b)
      → Frame W t t'
  Frame-trans_below f g new = record {
    scope = g.scope;
    longer = omega (arith, f.longer, g.longer);
    kept = λ b h a. g.kept b (omega (arith, f.longer)) (new b h a) ∙ f.kept b h a;
    terminator = λ b h a. g.terminator b (omega (arith, f.longer)) (new b h a) ∙ f.terminator b h a;
    phis = λ n h. g.phis n (omega (arith, f.longer)) ∙ f.phis n h;
    extends = λ k c h. g.extends k c (f.extends k c h);
  }

-- An instruction at the end of a block.
pub Frame-insert :
    {llvm : Llvm} (laws : IsLlvm llvm) (c : Block) (i : Inst) (t : Trace)
    → InScope t
    → c < length t
    → Frame llvm (λ b. c ≢ b) t (insert (end_of c) i ∷ t)
unfolding body_of incoming
Frame-insert laws c i t s below = record {
  scope = (below, s);
  longer = omega arith;
  kept = λ b h a. rw (==_ne c b a) refl;
  terminator = λ b h a. laws.terminator-keep t b _ (rw (==_ne c b a) refl) h;
  phis = λ n h. refl;
  extends = Extends-cons t t _ (λ k x g. g);
}

-- A call that is about no block.
abbrev pub IsQuiet : Call → Type 0
IsQuiet (create_block x f) = Unit
IsQuiet (get_or_insert_function x f) = Unit
IsQuiet (global_string_ptr x) = Unit
IsQuiet (zext_or_bit_cast v ty) = Unit
IsQuiet _ = ⊥

pub Frame-quiet :
    {llvm : Llvm} (laws : IsLlvm llvm) (c : Call) (t : Trace)
    → InScope t
    → IsQuiet c
    → Frame llvm (λ b. Unit) t (c ∷ t)
unfolding body_of incoming
Frame-quiet laws (create_block x f) t s q = record {
  scope = (tt, s);
  longer = omega arith;
  kept = λ b h a. refl;
  terminator = λ b h a. laws.terminator-keep t b _ refl h;
  phis = λ n h. refl;
  extends = Extends-cons t t _ (λ k x g. g);
}
Frame-quiet laws (get_or_insert_function x f) t s q = record {
  scope = (tt, s);
  longer = omega arith;
  kept = λ b h a. refl;
  terminator = λ b h a. laws.terminator-keep t b _ refl h;
  phis = λ n h. refl;
  extends = Extends-cons t t _ (λ k x g. g);
}
Frame-quiet laws (global_string_ptr x) t s q = record {
  scope = (tt, s);
  longer = omega arith;
  kept = λ b h a. refl;
  terminator = λ b h a. laws.terminator-keep t b _ refl h;
  phis = λ n h. refl;
  extends = Extends-cons t t _ (λ k x g. g);
}
Frame-quiet laws (zext_or_bit_cast v ty) t s q = record {
  scope = (tt, s);
  longer = omega arith;
  kept = λ b h a. refl;
  terminator = λ b h a. laws.terminator-keep t b _ refl h;
  phis = λ n h. refl;
  extends = Extends-cons t t _ (λ k x g. g);
}
Frame-quiet laws c t s q = absurd q

-- Steps behind calls that are in a frame: an instruction in a block that is new, or may be changed,
-- and an incoming value for a new phi.
module _ {llvm : Llvm} (laws : IsLlvm llvm) {W : Block → Type 0} {t t₁ : Trace}
    (f : Frame llvm W t t₁) where
  pub Frame-insert_new :
      (c : Block) (i : Inst)
      → length t ≤ c
      → c < length t₁
      → Frame llvm W t (insert (end_of c) i ∷ t₁)
  Frame-insert_new c i le below =
      Frame-trans_below llvm f (Frame-insert laws c i t₁ f.scope below)
        (λ b h a e. omega (arith, e))

  pub Frame-insert_at :
      (c : Block) (i : Inst)
      → c < length t
      → ((b : Block) → W b → c ≢ b)
      → Frame llvm W t (insert (end_of c) i ∷ t₁)
  Frame-insert_at c i below among =
      Frame-trans_below llvm f (Frame-insert laws c i t₁ f.scope (omega (arith, f.longer)))
        (λ b h a. among b a)

  pub Frame-call : (c : Call) → IsQuiet c → Frame llvm W t (c ∷ t₁)
  Frame-call c q = Frame-trans_below llvm f (Frame-quiet laws c t₁ f.scope q) (λ b h a. tt)

  pub Frame-incoming :
      (m : ℕ) (v : Value) (c : Block)
      → length t ≤ m
      → m < length t₁
      → Frame llvm W t (add_incoming m v c ∷ t₁)
  unfolding body_of incoming
  Frame-incoming m v c le below = record {
    scope = (below, f.scope);
    longer = omega (arith, f.longer);
    kept = f.kept;
    terminator =
        λ b h a. laws.terminator-keep t₁ b _ refl (omega (arith, f.longer)) ∙ f.terminator b h a;
    phis = λ n h. rw (==_ne m n (λ e. omega (arith, e))) (f.phis n h);
    extends = Extends-cons t t₁ _ f.extends;
  }
