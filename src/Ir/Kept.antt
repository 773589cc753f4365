-- ===== src/Ir/Kept.antt =====
-- A block that further calls leave alone does what it did.
use ephippion.Prelude.{ℕ, ◌<◌, ◌≡◌, refl, ap, ◌∙◌, List, [], ◌∷◌, length}
use ephippion.Llvm.{Block, Inst, alloca, phi, br, cond_br, ret, unreachable, Llvm, Trace}
use ephippion.Ir.Blocks.{Placed, body_of, incoming}
use ephippion.Ir.Machine.{Values, from_block, compute, assign, run_block}
use ephippion.Ir.Laws.{IsBelow, body_of-IsBelow}
use ephippion.Ir.Visits.{enter}
use ephippion.Ir.Frame.{Frame}

module _ (oracle : ℕ → Values → ℕ) (t t' : Trace)
    (phis : (n : ℕ) → n < length t → incoming t' n ≡ incoming t n) where
  compute-kept :
      (prev : Block) (vs : Values) (n : ℕ) (i : Inst)
      → n < length t
      → compute oracle t' prev vs n i ≡ compute oracle t prev vs n i
  compute-kept prev vs n (phi ty k name) h = ap (λ is. from_block vs prev is) (phis n h)
  compute-kept prev vs n (alloca ty name) h = refl
  compute-kept prev vs n i h = refl

  run_block-kept :
      (prev : Block) (is : List Placed) (vs : Values)
      → IsBelow (length t) is
      → run_block oracle t' prev is vs ≡ run_block oracle t prev is vs
  unfolding run_block
  run_block-kept prev [] vs b = refl
  run_block-kept prev ((n, br c) ∷ is) vs b = refl
  run_block-kept prev ((n, cond_br v c d) ∷ is) vs b = refl
  run_block-kept prev ((n, ret v) ∷ is) vs b = refl
  run_block-kept prev ((n, unreachable) ∷ is) vs b = refl
  run_block-kept prev ((n, i) ∷ is) vs b =
      run_block-kept prev is _ b.1
      ∙ ap (λ x. run_block oracle t prev is (assign n x vs)) (compute-kept prev vs n i b.0)

pub enter-kept :
    {llvm : Llvm} {W : Block → Type 0} {t t' : Trace} (oracle : ℕ → Values → ℕ)
    → Frame llvm W t t'
    → (prev b : Block) (vs : Values) → b < length t
    → W b
    → enter oracle t' prev b vs ≡ enter oracle t prev b vs
enter-kept {t} {t'} oracle f prev b vs h w =
    ap (λ is. run_block oracle t' prev is vs) (f.kept b h w)
    ∙ run_block-kept oracle t t' f.phis prev (body_of t b) vs (body_of-IsBelow t b)
