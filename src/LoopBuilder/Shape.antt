-- ===== src/LoopBuilder/Shape.antt =====
-- What the blocks of a counted loop hold: the contract between the builder of LoopIRBuilder.cpp and
-- what its loops do when they run.
use ephippion.Prelude.{ℕ, ◌≡◌, ◌≢◌, false, List, [], ◌∷◌, ◌++◌, All, Text}
use ephippion.Llvm.{Block, result, const, icmp, br, cond_br, is_terminator, Trace, int, phi}
use ephippion.Ir.{Placed, body_of, incoming}
use ephippion.LoopBuilder.{LoopDirection, compare_with, step_by, ind_bit_width}

-- The positions of a loop's blocks and instructions.
pub record Parts : Type 0 where
  pub hdr : Block
  pub latch : Block
  pub exit : Block
  pub ind : ℕ
  pub test : ℕ
  pub branch : ℕ
  pub next : ℕ
  pub back : ℕ
  pub leave : ℕ
  pub again : ℕ
  pub enter : ℕ

-- The work of a body: an instruction that neither leaves the block nor is the induction variable.
abbrev pub IsWork : ℕ → Placed → Type 0
IsWork ind p = (is_terminator p.1 ≡ false) × (p.0 ≢ ind)

-- The header tests, the body works, the latch steps, and the exit leads on.
pub record IsLoop (t : Trace) (p : Parts) (d : LoopDirection) (body pre post : Block)
    (start end step : ℕ) : Type 0 where
  pub name : Text
  pub work : List Placed
  pub is_work : All (IsWork p.ind) work
  pub hdr_body :
      body_of t p.hdr
      ≡ (p.ind, phi (int ind_bit_width) 2 name)
        ∷ (p.test, icmp (compare_with d) (result p.ind) (const ind_bit_width end))
        ∷ (p.branch, cond_br (result p.test) body p.exit)
        ∷ []
  pub latch_body :
      body_of t p.latch
      ≡ (p.next, step_by d (result p.ind) (const ind_bit_width step)) ∷ (p.back, br p.hdr) ∷ []
  pub exit_body : body_of t p.exit ≡ (p.leave, br post) ∷ []
  pub body_body : body_of t body ≡ work ++ (p.again, br p.latch) ∷ []
  pub phi_values :
      incoming t p.ind ≡ (p.latch, result p.next) ∷ (pre, const ind_bit_width start) ∷ []
  pub test-ne-ind : p.test ≢ p.ind
  pub next-ne-ind : p.next ≢ p.ind
  pub pre-ne-latch : pre ≢ p.latch

-- The blocks that a run of the loop must tell apart.
pub record IsApart (p : Parts) (body post : Block) : Type 0 where
  pub body-ne-post : body ≢ post
  pub hdr-ne-post : p.hdr ≢ post
  pub latch-ne-post : p.latch ≢ post
  pub exit-ne-post : p.exit ≢ post
  pub hdr-ne-body : p.hdr ≢ body
  pub latch-ne-body : p.latch ≢ body
  pub exit-ne-body : p.exit ≢ body
