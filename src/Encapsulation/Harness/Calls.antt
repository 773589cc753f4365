-- ===== src/Encapsulation/Harness/Calls.antt =====
-- The two loops and the two calls in them that `encapsulateImpl` of SymbolicEncapsulation.cpp makes.
use ephippion.Prelude.{
  ℕ, suc, ◌+◌, ◌^◌, ◌<◌, ◌≤◌, ◌≡◌, ◌≢◌, refl, ◌∙◌, ap, Bool, ==_ne, none, List, [], ◌∷◌, ◌++◌,
  length, some, bytes, arith, Text,
}
use ephippion.Llvm.{
  int, phi, Function, type_of_function, Block, Value, result, br, insert, end_of, call_at, Llvm,
  IsLlvm, Trace, Succeeds, Succeeds-and_then, Succeeds-map,
}
use ephippion.Llvm.Scope.{InScope}
use ephippion.Ir.{body_of}
use ephippion.Ir.Positions.{Extends}
use ephippion.Ir.Frame.{Frame, Frame-refl, Frame-trans, Frame-weaken}
use ephippion.LoopBuilder.{direction_of, ind_bit_width}
use ephippion.LoopBuilder.Shape.{IsLoop}
use ephippion.LoopBuilder.Built.{parts_at}
use ephippion.LoopBuilder.Framed.{IsBuilt, create_loop-IsBuilt}
use ephippion.LoopBuilder.Watched.{IsLoop-Frame}
use ephippion.Encapsulation.Arguments.{Pushed}
use ephippion.Encapsulation.Calls.{create_call}
use ephippion.Encapsulation.Calls.Placed.{
  IsCallBody, IsCallBody-Frame, HoldsCall-IsLoop, create_call-HoldsCall,
}
use ephippion.Encapsulation.Harness.{pred32, create_calls}
use ephippion.Encapsulation.Harness.Created.{blocks_at}

-- What the harness holds once its two loops are built from the positions `m₁` and `m₂` on.
pub record HasCalls (llvm : Llvm) (func : Function) (n iterations m₁ m₂ : ℕ)
    (args1 args2 : List Value) (t t' : Trace) : Type 0 where
  pub apart : m₁ + 13 ≤ m₂
  pub below : m₂ + 13 ≤ length t'
  pub loop1 :
      IsLoop t'
        (parts_at m₁)
        (direction_of 0 iterations)
        (blocks_at n).call1_body
        (blocks_at n).call1_setup
        (blocks_at n).call1_teardown
        0
        iterations
        1
  pub loop2 :
      IsLoop t'
        (parts_at m₂)
        (direction_of (pred32 iterations) 0)
        (blocks_at n).call2_body
        (blocks_at n).call2_setup
        (blocks_at n).call2_teardown
        (pred32 iterations)
        0
        1
  -- the runs that the two calls are made in, from the points where the loops are there
  pub base1 : Trace
  pub base2 : Trace
  pub base1-Extends : Extends t base1
  pub base2-Extends : Extends t base2
  pub ind1 :
      call_at base1 (parts_at m₁).ind
      ≡ some (insert (end_of m₁) (phi (int ind_bit_width) 2 (bytes "i")))
  pub ind2 :
      call_at base2 (parts_at m₂).ind
      ≡ some (insert (end_of m₂) (phi (int ind_bit_width) 2 (bytes "i")))
  pub call1 :
      IsCallBody llvm base1 func args1
        (parts_at m₁).ind
        (blocks_at n).call1_body
        (parts_at m₁).latch
        (parts_at m₁).again
        t'
  pub call2 :
      IsCallBody llvm base2 func args2
        (parts_at m₂).ind
        (blocks_at n).call2_body
        (parts_at m₂).latch
        (parts_at m₂).again
        t'
  pub setup1 :
      body_of t' (blocks_at n).call1_setup
      ≡ body_of t (blocks_at n).call1_setup ++ ((parts_at m₁).enter, br m₁) ∷ []
  pub setup2 :
      body_of t' (blocks_at n).call2_setup
      ≡ body_of t (blocks_at n).call2_setup ++ ((parts_at m₂).enter, br m₂) ∷ []
  pub frame :
      Frame llvm
        (λ b.
          ((blocks_at n).call1_body ≢ b)
          × ((blocks_at n).call2_body ≢ b)
          × ((blocks_at n).call1_setup ≢ b)
          × ((blocks_at n).call2_setup ≢ b))
        t
        t'

module _ {llvm : Llvm} (laws : IsLlvm llvm) (ndebug : Bool) (name : Text) (iterations : ℕ)
    (func : Function) (n : ℕ) (t : Trace) where
  -- The call in the body of a loop that was built around an empty block.
  loop_call :
      {body pre post : Block} {start end step : ℕ} {t₀ t₁ : Trace} {W : Block → Type 0} (t₂ : Trace)
      (args : List Value)
      → IsBuilt llvm body pre post start end step t₀ t₁
      → body_of t₀ body ≡ []
      → Frame llvm W t₁ t₂
      → W body
      → body < length t₁
      → length args ≤ length (type_of_function func).params
      → Succeeds (create_call llvm func body args t₂) (λ _ t₃.
        Frame llvm (λ b. body ≢ b) t₂ t₃
        × IsCallBody llvm t₂ func args
            (parts_at (length t₀)).ind
            body
            (parts_at (length t₀)).latch
            (parts_at (length t₀)).again
            t₃)
  loop_call {body} {t₀} t₂ args built empty f w below enough =
      let p = parts_at (length t₀) in
      let again = f.extends _ _ built.again in
      create_call-HoldsCall laws p.ind body p.latch p.again t₂ again
        (omega (arith, built.grown, f.longer)) (omega (arith, built.grown, f.longer)) func args
        (f.terminator body below w ∙ built.terminator) enough
        (record {
          frame = Frame-weaken llvm (λ b h a. tt) (Frame-refl llvm t₂ f.scope);
          work = [];
          body =
              f.kept body below w
              ∙ built.body_body
              ∙ ap (λ is. is ++ (p.again, br p.latch) ∷ []) empty;
          is_new = tt;
          is_work = tt;
        })

  abbrev pub IsEmpty : Type 0
  IsEmpty =
      InScope t
      × (n + 12 ≤ length t)
      × (body_of t (blocks_at n).call1_body ≡ [])
      × (body_of t (blocks_at n).call2_body ≡ [])
      × (llvm.terminator t (blocks_at n).call1_body ≡ none)
      × (llvm.terminator t (blocks_at n).call2_body ≡ none)

  module _ (v w : Value) (vs ws : List Value) where
    abbrev pub Calls : Trace → Type 0
    Calls t' =
        (m₂ : ℕ) × HasCalls llvm func n iterations (length t) m₂
          (result (parts_at (length t)).ind ∷ vs) (result (parts_at m₂).ind ∷ ws) t t'

    abbrev Built1 : ℕ → Trace → Type 0
    Built1 ind t₁ =
        (ind ≡ (parts_at (length t)).ind)
        × IsBuilt llvm (blocks_at n).call1_body (blocks_at n).call1_setup
            (blocks_at n).call1_teardown 0 iterations 1 t t₁

    abbrev Built2 : Trace → ℕ → Trace → Type 0
    Built2 t₁ ind t₂ =
        (ind ≡ (parts_at (length t₁)).ind)
        × IsBuilt llvm (blocks_at n).call2_body (blocks_at n).call2_setup
            (blocks_at n).call2_teardown (pred32 iterations) 0 1 t₁ t₂

    abbrev Called1 : Trace → Trace → Type 0
    Called1 t₂ t₃ =
        Frame llvm (λ b. (blocks_at n).call1_body ≢ b) t₂ t₃
        × IsCallBody llvm t₂ func (result (parts_at (length t)).ind ∷ vs) (parts_at (length t)).ind
            (blocks_at n).call1_body (parts_at (length t)).latch (parts_at (length t)).again t₃

    abbrev Called2 : Trace → Trace → Trace → Type 0
    Called2 t₁ t₃ t₄ =
        Frame llvm (λ b. (blocks_at n).call2_body ≢ b) t₃ t₄
        × IsCallBody llvm t₃ func (result (parts_at (length t₁)).ind ∷ ws)
            (parts_at (length t₁)).ind (blocks_at n).call2_body (parts_at (length t₁)).latch
            (parts_at (length t₁)).again t₄

    built-HasCalls :
        (t₁ t₂ t₃ t₄ : Trace)
        → n + 12 ≤ length t
        → Built1 (parts_at (length t)).ind t₁
        → Built2 t₁ (parts_at (length t₁)).ind t₂
        → Called1 t₂ t₃
        → Called2 t₁ t₃ t₄
        → Calls t₄
    built-HasCalls t₁ t₂ t₃ t₄ room (_, b₁) (_, b₂) (f₁, c₁) (f₂, c₂) = (
      length t₁,
      record {
        apart = omega (arith, b₁.grown);
        below = omega (arith, b₂.grown, f₁.longer, f₂.longer);
        loop1 =
            IsLoop-Frame f₂ (omega (arith, b₁.grown, b₂.grown, f₁.longer))
              (
                (λ e. omega (arith, e)),
                (λ e. omega (arith, e)),
                (λ e. omega (arith, e)),
                (λ e. omega (arith, e)),
              )
              (HoldsCall-IsLoop f₁ c₁ (omega (arith, b₁.grown, b₂.grown))
                ((λ e. omega (arith, e)), (λ e. omega (arith, e)), (λ e. omega (arith, e)))
                (IsLoop-Frame b₂.frame (omega (arith, b₁.grown))
                  (
                    ((λ e. omega (arith, e)), (λ e. omega (arith, e))),
                    ((λ e. omega (arith, e)), (λ e. omega (arith, e))),
                    ((λ e. omega (arith, e)), (λ e. omega (arith, e))),
                    ((λ e. omega (arith, e)), (λ e. omega (arith, e))),
                  )
                  b₁.loop));
        loop2 =
            HoldsCall-IsLoop f₂ c₂ (omega (arith, b₁.grown, b₂.grown, f₁.longer))
              (
                (λ e. omega (arith, e, b₁.grown)),
                (λ e. omega (arith, e, b₁.grown)),
                (λ e. omega (arith, e, b₁.grown)),
              )
              (IsLoop-Frame f₁ (omega (arith, b₁.grown, b₂.grown))
                (
                  (λ e. omega (arith, e, b₁.grown)),
                  (λ e. omega (arith, e, b₁.grown)),
                  (λ e. omega (arith, e, b₁.grown)),
                  (λ e. omega (arith, e)),
                )
                b₂.loop);
        base1 = t₂;
        base2 = t₃;
        base1-Extends = λ k c h. b₂.frame.extends k c (b₁.frame.extends k c h);
        base2-Extends = λ k c h. f₁.extends k c (b₂.frame.extends k c (b₁.frame.extends k c h));
        ind1 = b₂.frame.extends _ _ b₁.phi_at;
        ind2 = f₁.extends _ _ b₂.phi_at;
        call1 =
            IsCallBody-Frame f₂ (omega (arith, b₁.grown, b₂.grown, f₁.longer))
              (λ e. omega (arith, e)) c₁;
        call2 = c₂;
        setup1 =
            f₂.kept _ (omega (arith, b₁.grown, b₂.grown, f₁.longer)) (λ e. omega (arith, e))
            ∙ f₁.kept _ (omega (arith, b₁.grown, b₂.grown)) (λ e. omega (arith, e))
            ∙ b₂.frame.kept _ (omega (arith, b₁.grown))
                ((λ e. omega (arith, e)), (λ e. omega (arith, e)))
            ∙ b₁.pre_body;
        setup2 =
            f₂.kept _ (omega (arith, b₁.grown, b₂.grown, f₁.longer)) (λ e. omega (arith, e))
            ∙ f₁.kept _ (omega (arith, b₁.grown, b₂.grown)) (λ e. omega (arith, e))
            ∙ b₂.pre_body
            ∙ ap (λ is. is ++ ((parts_at (length t₁)).enter, br (length t₁)) ∷ [])
                (b₁.frame.kept _ (omega arith) ((λ e. omega (arith, e)), (λ e. omega (arith, e))));
        frame = Frame-trans llvm (Frame-weaken llvm (λ b h a. (a.0, a.2)) b₁.frame) (
            Frame-trans llvm (Frame-weaken llvm (λ b h a. (a.1, a.3)) b₂.frame) (
              Frame-trans llvm (Frame-weaken llvm (λ b h a. a.0) f₁)
                (Frame-weaken llvm (λ b h a. a.1) f₂)));
      },
    )

    -- Around two empty blocks, for at least two iterations in 32 bits, and no more values than
    -- parameters.
    pub create_calls-HasCalls :
        (args : Pushed)
        → IsEmpty
        → args.call_args1 ≡ v ∷ vs
        → args.call_args2 ≡ w ∷ ws
        → 2 ≤ iterations
        → iterations < 2 ^ 32
        → suc (length vs) ≤ length (type_of_function func).params
        → suc (length ws) ≤ length (type_of_function func).params
        → Succeeds (create_calls llvm ndebug name iterations func (blocks_at n) args t) (λ _. Calls)
    unfolding create_calls
    create_calls-HasCalls args (s, room, empty1, empty2, open1, open2) e1 e2 two small enough1
          enough2 =
        Succeeds-and_then Built1 (λ _. Calls) _ _
          (create_loop-IsBuilt laws ndebug (blocks_at n).call1_body (blocks_at n).call1_setup
            (blocks_at n).call1_teardown 0 iterations 1 t s
            (rw (==_ne 0 iterations (omega arith)) refl) (omega arith) (omega arith)
            (λ e. omega (arith, e)) open1 (rw empty1 tt))
          (λ ind₁ t₁ (i₁, b₁).
            Succeeds-and_then (Built2 t₁) (λ _. Calls) _ _
              (create_loop-IsBuilt laws ndebug (blocks_at n).call2_body (blocks_at n).call2_setup
                (blocks_at n).call2_teardown (pred32 iterations) 0 1 t₁ b₁.frame.scope
                (rw (==_ne (pred32 iterations) 0 (omega arith)) refl) (omega (arith, b₁.grown))
                (omega (arith, b₁.grown)) (λ e. omega (arith, e))
                (b₁.frame.terminator _ (omega arith)
                    ((λ e. omega (arith, e)), (λ e. omega (arith, e)))
                  ∙ open2)
                (rw (kept2 t₁ b₁.frame) (rw empty2 tt)))
              (λ ind₂ t₂ (i₂, b₂).
                rw (e1, e2, i₁, i₂)
                  (Succeeds-and_then (λ _. Called1 t₂) (λ _. Calls) _ _
                    (loop_call t₂ (result (parts_at (length t)).ind ∷ vs) b₁ empty1 b₂.frame
                      ((λ e. omega (arith, e)), (λ e. omega (arith, e))) (omega (arith, b₁.grown))
                      enough1)
                    (λ _ t₃ c₁.
                      Succeeds-map (λ _. Called2 t₁ t₃) (λ _. Calls) _
                        (λ _ t₄ c₂. built-HasCalls t₁ t₂ t₃ t₄ room (refl, b₁) (refl, b₂) c₁ c₂)
                        (loop_call t₃ (result (parts_at (length t₁)).ind ∷ ws) b₂
                          (kept2 t₁ b₁.frame ∙ empty2) c₁.0 (λ e. omega (arith, e))
                          (omega (arith, b₁.grown, b₂.grown)) enough2)))))
      where
        kept2 :
            (t₁ : Trace)
            → Frame llvm
                (λ b. ((blocks_at n).call1_body ≢ b) × ((blocks_at n).call1_setup ≢ b))
                t
                t₁
            → body_of t₁ (blocks_at n).call2_body ≡ body_of t (blocks_at n).call2_body
        kept2 t₁ f = f.kept _ (omega arith) ((λ e. omega (arith, e)), (λ e. omega (arith, e)))
