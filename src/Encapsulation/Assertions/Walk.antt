-- ===== src/Encapsulation/Assertions/Walk.antt =====
-- What the chain of checks of `createSymbolicAssertions` does when it runs.
use ephippion.Prelude.{
  ℕ, ◌<◌, ◌≡◌, ◌≢◌, refl, sym, subst, ◌∙◌, false, List, [], ◌∷◌, ◌++◌, length, All, ◌==◌, ==_iff,
  if◌then◌else◌, Bool-cases, inl, inr,
}
use ephippion.Llvm.{Block, br, is_terminator, Llvm, IsLlvm, Trace, Succeeds, Succeeds-map}
use ephippion.Llvm.Scope.{InScope}
use ephippion.Ir.Frame.{Frame}
use ephippion.Ir.Kept.{enter-kept}
use ephippion.Ir.{Placed, Values, value_of, left, jump, stuck, body_of}
use ephippion.Ir.Visits.{enter, run_block-cond_br, run_block-unreachable}
use ephippion.Encapsulation.Assertions.{Check, link_checks}
use ephippion.Encapsulation.Assertions.Chain.{NotCond, NotFail, AreApart, target_of, Ended, Chained}
use ephippion.Encapsulation.Assertions.Linking.{IsLinked, link_checks-IsLinked}

-- Control at `cur`, entered from `prev`, with the checks still to come: it evaluates each condition
-- in turn and goes on while they hold; at the first that is 0 it enters the failure block of that
-- check and gets no further; if all hold it reaches the end.
pub data Walks (oracle : ℕ → Values → ℕ) (t : Trace) (end : Block)
    : Block → Block → Values → List Check → Type 0 where
  reaches_end : {prev cur : Block} {vs : Values} → cur ≡ end → Walks oracle t end prev cur vs []
  fails :
      {prev cur : Block} {vs : Values} {c : Check} {cs : List Check} (vs' vs'' : Values)
      → cur ≡ c.cond_block
      → enter oracle t prev cur vs ≡ left (jump c.fail_block) vs'
      → value_of vs' c.condition ≡ 0
      → enter oracle t cur c.fail_block vs' ≡ left stuck vs''
      → Walks oracle t end prev cur vs (c ∷ cs)
  passes :
      {prev cur : Block} {vs : Values} {c : Check} {cs : List Check} (next : Block) (vs' : Values)
      → cur ≡ c.cond_block
      → enter oracle t prev cur vs ≡ left (jump next) vs'
      → value_of vs' c.condition ≢ 0
      → Walks oracle t end cur next vs' cs
      → Walks oracle t end prev cur vs (c ∷ cs)

-- The condition and failure blocks hold no terminator yet.
abbrev pub AreOpen : Trace → List Check → Type 0
AreOpen t = All λ c.
    All (λ p. is_terminator p.1 ≡ false) (body_of t c.cond_block)
    × All (λ p. is_terminator p.1 ≡ false) (body_of t c.fail_block)

-- The condition blocks hold what they held at `t₀`, and the instruction by which they are left.
abbrev pub AreExtended : Trace → Trace → List Check → Type 0
AreExtended t₀ t =
    All λ c. (p : Placed) × (body_of t c.cond_block ≡ body_of t₀ c.cond_block ++ p ∷ [])

module _ {llvm : Llvm} (laws : IsLlvm llvm) (t₀ : Trace) (end : Block)
    (oracle : ℕ → Values → ℕ) where
  Chained-Walks :
      (t : Trace) (cs : List Check) (prev : Block) (vs : Values)
      → AreOpen t₀ cs
      → Chained laws t₀ end t cs
      → All (Ended t₀ t) cs
      → Walks oracle t end prev (target_of end cs) vs cs
  Chained-Walks t [] prev vs o ch fs = reaches_end refl
  Chained-Walks t (c ∷ cs) prev vs o ch fs =
      let l = ch.0 in
      let (vs', ran) =
        run_block-cond_br oracle t prev (body_of t₀ c.cond_block) l.branch c.condition
          (target_of end cs) c.fail_block vs o.0.0 in
      let entered : enter oracle t prev c.cond_block vs
          ≡ left (jump (if value_of vs' c.condition == 0 then c.fail_block else target_of end cs))
              vs' =
        rw (l.body) ran in
      elim (Bool-cases (value_of vs' c.condition == 0)) [
        | inl zero ↦
            let (k, e) = fs.0 in
            let (vs'', ended) =
              run_block-unreachable oracle t c.cond_block (body_of t₀ c.fail_block) k vs' o.0.1 in
            fails vs' vs'' refl (rw zero at entered) ((==_iff _ 0).0 zero) (rw e ended)
        | inr other ↦
            passes (target_of end cs) vs' refl (rw other at entered)
              (λ z. cc (other, (==_iff (value_of vs' c.condition) 0).1 z))
              (Chained-Walks t cs c.cond_block vs' o.1 ch.1 fs.1)
      ]

  Chained-AreExtended :
      (t : Trace) (cs : List Check) → Chained laws t₀ end t cs → AreExtended t₀ t cs
  Chained-AreExtended t [] ch = tt
  Chained-AreExtended t (c ∷ cs) ch = ((_, ch.0.body), Chained-AreExtended t cs ch.1)

  -- The start block exists, and the checks' blocks are all different, exist, and are neither the
  -- start nor ended yet. Then the linking loops succeed; the start block ends in a branch to the
  -- first check, or to the end if there is none; from there, whatever the compared memory holds,
  -- control evaluates the conditions in order, stops in the failure block of the first that is 0,
  -- and reaches the end exactly when none is; the condition blocks hold what they held before, and
  -- how they are left; and all other blocks are left alone.
  pub link_checks-Walks :
      (start : Block) (cs : List Check)
      → InScope t₀
      → start < length t₀
      → AreApart cs
      → All (λ c. (c.cond_block < length t₀) × (c.fail_block < length t₀)) cs
      → NotCond start cs
      → NotFail start cs
      → AreOpen t₀ cs
      → Succeeds (link_checks llvm start end cs t₀) λ _ t.
        ((k : ℕ) × (body_of t start ≡ body_of t₀ start ++ (k, br (target_of end cs)) ∷ []))
        × ((prev : Block) (vs : Values) → Walks oracle t end prev (target_of end cs) vs cs)
        × Frame llvm (λ b. NotCond b cs × NotFail b cs × (start ≢ b)) t₀ t
        × AreExtended t₀ t cs
  link_checks-Walks start cs s start_below apart below nc nf o =
      Succeeds-map _ _ (link_checks llvm start end cs t₀)
        (λ _ t (i : IsLinked laws t₀ end start cs t). (
          i.start_body,
          (λ prev vs. Chained-Walks t cs prev vs o i.chain i.failures),
          i.frame,
          Chained-AreExtended t cs i.chain,
        ))
        (link_checks-IsLinked laws t₀ end start cs s start_below apart below nc nf)

-- Checks whose blocks are left alone are walked as before.
pub Walks-Frame :
    {llvm : Llvm} {W : Block → Type 0} {t t' : Trace} {end : Block} {oracle : ℕ → Values → ℕ}
    {prev cur : Block} {vs : Values} {cs : List Check}
    → Frame llvm W t t'
    → All
        (λ c.
          ((c.cond_block < length t) × W c.cond_block) × (c.fail_block < length t) × W c.fail_block)
        cs
    → Walks oracle t end prev cur vs cs
    → Walks oracle t' end prev cur vs cs
Walks-Frame f ws (reaches_end e) = reaches_end e
Walks-Frame {t} {t'} {oracle} {prev} {cur} {vs} f ws (fails {c} vs' vs'' e ran zero ended) =
    fails vs' vs'' e
      (subst (λ b. enter oracle t' prev b vs ≡ enter oracle t prev b vs) (sym e)
          (enter-kept oracle f prev c.cond_block vs ws.0.0.0 ws.0.0.1)
        ∙ ran)
      zero (enter-kept oracle f cur c.fail_block vs' ws.0.1 ws.0.2 ∙ ended)
Walks-Frame {t} {t'} {oracle} {prev} {cur} {vs} f ws (passes {c} next vs' e ran one rest) =
    passes next vs' e
      (subst (λ b. enter oracle t' prev b vs ≡ enter oracle t prev b vs) (sym e)
          (enter-kept oracle f prev c.cond_block vs ws.0.0.0 ws.0.0.1)
        ∙ ran)
      one (Walks-Frame f ws.1 rest)

pub AreExtended-Frame :
    {llvm : Llvm} {W : Block → Type 0} {t t' : Trace} (t₀ : Trace) (cs : List Check)
    → Frame llvm W t t'
    → All
        (λ c.
          ((c.cond_block < length t) × W c.cond_block) × (c.fail_block < length t) × W c.fail_block)
        cs
    → AreExtended t₀ t cs
    → AreExtended t₀ t' cs
AreExtended-Frame t₀ [] f ws x = tt
AreExtended-Frame t₀ (c ∷ cs) f ws x =
    ((x.0.0, f.kept c.cond_block ws.0.0.0 ws.0.0.1 ∙ x.0.1), AreExtended-Frame t₀ cs f ws.1 x.1)
