-- ===== src/Encapsulation/Calls/Placed.antt =====
-- Where the call that `createCall` of SymbolicEncapsulation.cpp makes stands in the body of a loop.
use ephippion.Prelude.{
  ℕ, ◌<◌, ◌≤◌, ◌≡◌, ◌≢◌, refl, sym, ◌∙◌, ap, subst, false, some, List, [], ◌∷◌, ◌++◌, append_assoc,
  length, All, All-map, All-append, arith,
}
use ephippion.Llvm.{
  Function, type_of_function, callee, Block, Value, Inst, call, br, Call, insert, before, end_of,
  is_terminator, call_at, Llvm, IsLlvm, Trace, build, pure, ◌>>◌, Succeeds, Succeeds-and_then,
}
use ephippion.Ir.{Placed, insert_before, body_of, incoming}
use ephippion.Ir.Positions.{
  Extends-cons, Lacks, insert_before-Lacks_id, insert_before-last, body_of-Lacks,
}
use ephippion.Ir.Frame.{Frame, Frame-call}
use ephippion.Ir.Fills.{Succeeds-Post}
use ephippion.LoopBuilder.Shape.{Parts, IsLoop, IsWork}
use ephippion.LoopBuilder.{LoopDirection}
use ephippion.Encapsulation.Calls.{pass_arguments, create_call}
use ephippion.Encapsulation.Calls.Keeps.{makes_call, MayPlace, pass_arguments-Keeps}
use ephippion.Encapsulation.Calls.Passed.{
  ArePassed, PassesAll, pass_arguments-PassesAll, ArePassed-Extends,
}

-- Work that calls no function.
abbrev pub IsPreparing : ℕ → Placed → Type 0
IsPreparing ind p = IsWork ind p × (makes_call p.1 ≡ false)

-- The block prepares the arguments, calls the function, and goes to the latch; nothing else in it
-- calls a function.
pub record IsCallBody (llvm : Llvm) (base : Trace) (func : Function) (args : List Value) (ind : ℕ)
    (c latch : Block) (k : ℕ) (t : Trace) : Type 0 where
  pub preparation : List Placed
  pub is_preparation : All (IsPreparing ind) preparation
  pub position : ℕ
  pub position-ne-ind : position ≢ ind
  pub actual : List Value
  pub body :
      body_of t c
      ≡ preparation
        ++ (position, call (callee func.name (type_of_function func)) actual) ∷ (k, br latch) ∷ []
  pub passed : ArePassed llvm func base t (before k) 0 args actual

pub IsCallBody-Frame :
    {llvm : Llvm} {base : Trace} {func : Function} {args : List Value} {ind : ℕ} {c latch : Block}
    {k : ℕ} {W : Block → Type 0} {t t' : Trace}
    → Frame llvm W t t'
    → c < length t
    → W c
    → IsCallBody llvm base func args ind c latch k t
    → IsCallBody llvm base func args ind c latch k t'
IsCallBody-Frame {llvm} {base} {func} {args} {k} {t} {t'} f below w b = record {
  preparation = b.preparation;
  is_preparation = b.is_preparation;
  position = b.position;
  position-ne-ind = b.position-ne-ind;
  actual = b.actual;
  body = f.kept _ below w ∙ b.body;
  passed =
      ArePassed-Extends llvm func base base t t' (before k) 0 args b.actual (λ j x h. h) f.extends
        b.passed;
}

module _ {llvm : Llvm} (laws : IsLlvm llvm) (ind : ℕ) (c latch : Block) (k : ℕ) (t₀ : Trace)
    (placed : call_at t₀ k ≡ some (insert (end_of c) (br latch))) where
  -- The block prepares and then goes to the latch, and all other blocks are left alone.
  pub record Works (t : Trace) : Type 0 where
    pub frame : Frame llvm (λ b. c ≢ b) t₀ t
    pub work : List Placed
    pub body : body_of t c ≡ work ++ (k, br latch) ∷ []
    pub is_new : Lacks k work
    pub is_work : All (IsPreparing ind) work

  module _ (ind_below : ind < length t₀) (k_below : k < length t₀) where
    Frame-before :
        (i : Inst) (t : Trace)
        → Frame llvm (λ b. c ≢ b) t₀ t
        → Frame llvm (λ b. c ≢ b) t₀ (insert (before k) i ∷ t)
    unfolding body_of incoming
    Frame-before i t f = record {
      scope = (omega (arith, f.longer), f.scope);
      longer = omega (arith, f.longer);
      kept = λ b h ne.
          insert_before-Lacks_id k (length t, i) (body_of t b)
            (body_of-Lacks t k c b (br latch) (f.extends k _ placed) ne)
          ∙ f.kept b h ne;
      terminator =
          λ b h ne. laws.terminator-keep t b _ refl (omega (arith, f.longer)) ∙ f.terminator b h ne;
      phis = f.phis;
      extends = Extends-cons t₀ t _ f.extends;
    }

    Works-insert :
        (i : Inst) (t : Trace)
        → is_terminator i ≡ false
        → makes_call i ≡ false
        → Works t
        → Works (insert (before k) i ∷ t)
    unfolding body_of incoming
    Works-insert i t e e' w = record {
      frame = Frame-before i t w.frame;
      work = w.work ++ (length t, i) ∷ [];
      body =
          ap (λ is. insert_before k (length t, i) is) w.body
          ∙ insert_before-last k (length t, i) w.work (br latch) w.is_new
          ∙ sym (append_assoc w.work _ _);
      is_new = All-append _ w.work _ w.is_new ((λ q. omega (arith, w.frame.longer, q)), tt);
      is_work =
          All-append _ w.work _ w.is_work (((e, λ q. omega (arith, w.frame.longer, q)), e'), tt);
    }

    Works-MayPlace : MayPlace Works (before k)
    unfolding body_of
    Works-MayPlace = record {
      work = Works-insert;
      cast = λ v type t w. record {
        frame = Frame-call laws w.frame _ tt;
        work = w.work;
        body = w.body;
        is_new = w.is_new;
        is_work = w.is_work;
      };
    }

    abbrev pub HoldsCall : Function → List Value → Trace → Type 0
    HoldsCall func args t =
        Frame llvm (λ b. c ≢ b) t₀ t × IsCallBody llvm t₀ func args ind c latch k t

    module _ (func : Function) (args : List Value) where
      last_call : List Value → Call
      last_call actual = insert (before k) (call (callee func.name (type_of_function func)) actual)

      Works-HoldsCall :
          (actual new : List Value) (t : Trace)
          → Works t
          → actual ≡ new
          → ArePassed llvm func t₀ t (before k) 0 args new
          → HoldsCall func args (last_call actual ∷ t)
      unfolding body_of incoming last_call
      Works-HoldsCall actual new t w e passed = (
        Frame-before _ t w.frame,
        record {
          preparation = w.work;
          is_preparation = w.is_work;
          position = length t;
          position-ne-ind = λ q. omega (arith, w.frame.longer, q);
          actual = actual;
          body =
              ap
                (λ is.
                  insert_before k (length t, call (callee func.name (type_of_function func)) actual)
                    is)
                w.body
              ∙ insert_before-last k _ w.work (br latch) w.is_new;
          passed =
              ArePassed-Extends llvm func t₀ t₀ t _ (before k) 0 args actual (λ j x h. h)
                (Extends-cons t t _ (λ j x h. h))
                (subst (λ bs. ArePassed llvm func t₀ t (before k) 0 args bs) (sym e) passed);
        },
      )

      pub create_call-HoldsCall :
          llvm.terminator t₀ c ≡ some k
          → length args ≤ length (type_of_function func).params
          → Works t₀
          → Succeeds (create_call llvm func c args t₀) (λ _. HoldsCall func args)
      unfolding create_call last_call
      create_call-HoldsCall found enough w = rw found (
          Succeeds-and_then
            (λ actual t. PassesAll llvm func (before k) 0 args [] t₀ actual t × Works t)
            (λ _. HoldsCall func args) (pass_arguments llvm func (before k) args 0 [] t₀)
            (λ actual.
              build (before k) (call (callee func.name (type_of_function func)) actual) >> pure tt)
            (Succeeds-Post _ (λ _. Works) _
              (pass_arguments-PassesAll llvm func (before k) args 0 [] t₀ (omega (arith, enough)))
              ((pass_arguments-Keeps Works-MayPlace llvm func args 0 []).at t₀ w))
            (λ actual t ((new, e, passed, after), works).
              Works-HoldsCall actual new t works e passed))

-- A loop whose body has been given its call is a loop.
pub HoldsCall-IsLoop :
    {llvm : Llvm} {base : Trace} {func : Function} {args : List Value} {t t' : Trace} {p : Parts}
    {d : LoopDirection} {body pre post : Block} {start end step : ℕ}
    → Frame llvm (λ b. body ≢ b) t t'
    → IsCallBody llvm base func args p.ind body p.latch p.again t'
    → (p.hdr < length t) × (p.latch < length t) × (p.exit < length t) × (p.ind < length t)
    → (body ≢ p.hdr) × (body ≢ p.latch) × (body ≢ p.exit)
    → IsLoop t p d body pre post start end step
    → IsLoop t' p d body pre post start end step
HoldsCall-IsLoop {func} f b below w l = record {
  name = l.name;
  work =
      b.preparation ++ (b.position, call (callee func.name (type_of_function func)) b.actual) ∷ [];
  is_work =
      All-append _ b.preparation _ (All-map _ _ b.preparation (λ q h. h.0) b.is_preparation)
        ((refl, b.position-ne-ind), tt);
  hdr_body = f.kept _ below.0 w.0 ∙ l.hdr_body;
  latch_body = f.kept _ below.1 w.1 ∙ l.latch_body;
  exit_body = f.kept _ below.2 w.2 ∙ l.exit_body;
  body_body = b.body ∙ sym (append_assoc b.preparation _ _);
  phi_values = f.phis _ below.3 ∙ l.phi_values;
  test-ne-ind = l.test-ne-ind;
  next-ne-ind = l.next-ne-ind;
  pre-ne-latch = l.pre-ne-latch;
}
