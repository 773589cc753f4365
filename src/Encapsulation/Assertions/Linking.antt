-- ===== src/Encapsulation/Assertions/Linking.antt =====
-- The linking loops of `createSymbolicAssertions` from end to end.
use ephippion.Prelude.{
  ℕ, ◌<◌, ◌≡◌, ◌≢◌, refl, sym, ◌∙◌, List, [], ◌∷◌, ◌++◌, length, All, All-map, All-map₂, arith,
  ==_ne,
}
use ephippion.Llvm.{Block, br, unreachable, insert, end_of, Llvm, IsLlvm, Trace, ok, Succeeds}
use ephippion.Llvm.Scope.{InScope}
use ephippion.Ir.{body_of}
use ephippion.Ir.Frame.{Frame, Frame-trans, Frame-weaken, Frame-insert}
use ephippion.Encapsulation.Assertions.{Check, set_true_successor, last_block, hook_up, link_checks}
use ephippion.Encapsulation.Assertions.Links.{
  Linked, Linked-cons, set_true_successor-ok, Linked-redirected, body_of-redirected, redirected,
  redirected-Frame,
}
use ephippion.Encapsulation.Assertions.Chain.{
  NotCond, NotFail, AreApart, target_of, ended, branched, end_failures-ok, link_failures-ok,
  body_of-ended_ne, ended-Frame, branched-Frame, body_of-insert_ne, body_of-insert_self, Ended,
  Chained, branched-Linked, link_successes-Chained,
}

-- the failure blocks behind the first loop
ended-Ended :
    (cs : List Check) (t₀ t : Trace)
    → AreApart cs
    → All (λ c. body_of t c.fail_block ≡ body_of t₀ c.fail_block) cs
    → All (Ended t₀ (ended cs t)) cs
unfolding ended
ended-Ended [] t₀ t apart same = tt
ended-Ended (c ∷ cs) t₀ t apart same = (
  (
    length t,
    body_of-ended_ne cs _ c.fail_block apart.0.1
        ∙ (body_of-insert_self t c.fail_block unreachable ∙ rw (same.0) refl),
  ),
  ended-Ended cs t₀ _ apart.2 (
      All-map₂ _ _ _ cs
        (λ d ne e. body_of-insert_ne t c.fail_block d.fail_block _ (λ p. ne (sym p)) ∙ e) apart.0.1
        same.1),
)

-- each failure block against all condition blocks, and the other way round
fails-NotCond : (cs : List Check) → AreApart cs → All (λ d. NotCond d.fail_block cs) cs
fails-NotCond [] apart = tt
fails-NotCond (c ∷ cs) apart = (
  apart.1.1,
  All-map₂ _ _ _ cs (λ d ne rest. ((λ p. ne (sym p)), rest)) apart.1.0.1 (fails-NotCond cs apart.2),
)

conds-NotFail : (cs : List Check) → AreApart cs → All (λ d. NotFail d.cond_block cs) cs
conds-NotFail [] apart = tt
conds-NotFail (c ∷ cs) apart = (
  apart.1.0,
  All-map₂ _ _ _ cs (λ d ne rest. ((λ p. ne (sym p)), rest)) apart.1.1.1 (conds-NotFail cs apart.2),
)

Ended-keep :
    (t₀ t t' : Trace) (all cs : List Check)
    → ((b : Block) → b < length t₀ → NotCond b all → body_of t' b ≡ body_of t b)
    → All (λ d. d.fail_block < length t₀) cs
    → All (λ d. NotCond d.fail_block all) cs
    → All (Ended t₀ t) cs
    → All (Ended t₀ t') cs
Ended-keep t₀ t t' all [] same below ne es = tt
Ended-keep t₀ t t' all (d ∷ cs) same below ne es = (
  (es.0.0, same d.fail_block below.0 ne.0 ∙ es.0.1),
  Ended-keep t₀ t t' all cs same below.1 ne.1 es.1,
)

module _ {llvm : Llvm} (laws : IsLlvm llvm) (t₀ : Trace) (end : Block) where
  -- Any call about other blocks leaves a chain a chain.
  Chained-cons_br :
      (cs : List Check) (t : Trace) (start target : Block)
      → NotCond start cs
      → Chained laws t₀ end t cs
      → Chained laws t₀ end (insert (end_of start) (br target) ∷ t) cs
  Chained-cons_br [] t start target ne ch = tt
  Chained-cons_br (c ∷ cs) t start target ne ch = (
    Linked-cons laws t₀ end _ (body_of-insert_ne t start c.cond_block _ (λ p. ne.0 (sym p)))
        (rw (==_ne start c.cond_block (λ p. ne.0 (sym p)))) ch.0,
    Chained-cons_br cs t start target ne.1 ch.1,
  )

  -- The last redirection points the last check where it points already.
  hook_last :
      (c : Check) (cs : List Check) (t : Trace)
      → InScope t
      → AreApart (c ∷ cs)
      → Chained laws t₀ end t (c ∷ cs)
      → (t' : Trace) × (set_true_successor llvm (last_block llvm c cs) end t ≡ ok tt t')
        × Chained laws t₀ end t' (c ∷ cs)
        × Frame llvm (λ b. NotCond b (c ∷ cs)) t t'
        × ((d : Check) (target : Block)
            → NotCond d.cond_block (c ∷ cs)
            → Linked laws t₀ end t d target
            → Linked laws t₀ end t' d target)
  hook_last c [] t s apart ch = (
    redirected laws t₀ end ch.0 end,
    set_true_successor-ok laws t₀ end ch.0 end,
    (Linked-redirected laws t₀ end ch.0 end, tt),
    Frame-weaken llvm (λ b h ne. ne.0) (redirected-Frame laws t₀ end ch.0 end s),
    λ d target ne l.
        Linked-cons laws t₀ end _ (body_of-redirected laws t₀ end ch.0 end d.cond_block ne.0) refl
          l,
  )
  hook_last c (d ∷ cs) t s apart ch =
      let (t', ran, chained, same, kept) = hook_last d cs t s apart.2 ch.1 in
      (
        t',
        ran,
        (kept c d.cond_block apart.0.0 ch.0, chained),
        Frame-weaken llvm (λ b h ne. ne.1) same,
        λ e target ne l. kept e target ne.1 l,
      )

  -- What the linking loops leave: the start leads to the first check or to the end, each check to
  -- the next or to its failure, and each failure ends unreachable.
  pub record IsLinked (start : Block) (cs : List Check) (t : Trace) : Type 0 where
    pub chain : Chained laws t₀ end t cs
    pub failures : All (Ended t₀ t) cs
    pub frame : Frame llvm (λ b. NotCond b cs × NotFail b cs × (start ≢ b)) t₀ t
    pub start_body :
        (k : ℕ) × (body_of t start ≡ body_of t₀ start ++ (k, br (target_of end cs)) ∷ [])

  module _ (start : Block) where
    hook_up-IsLinked :
        (cs : List Check) (t : Trace)
        → Frame llvm (λ b. NotCond b cs × NotFail b cs) t₀ t
        → start < length t₀
        → AreApart cs
        → All (λ c. c.fail_block < length t₀) cs
        → NotCond start cs
        → NotFail start cs
        → Chained laws t₀ end t cs
        → All (Ended t₀ t) cs
        → Succeeds (hook_up llvm start end cs t) (λ _ t'. IsLinked start cs t')
    unfolding hook_up
    hook_up-IsLinked [] t f below apart fbelow nc nf ch fs =
        let branch = Frame-insert laws start (br end) t f.scope (omega (arith, f.longer)) in
        record {
          chain = tt;
          failures = tt;
          frame =
              Frame-trans llvm (Frame-weaken llvm (λ b h a. (a.0, a.1)) f)
                (Frame-weaken llvm (λ b h a. a.2) branch);
          start_body =
              (length t, body_of-insert_self t start _ ∙ rw (f.kept start below (nc, nf)) refl);
        }
    hook_up-IsLinked (c ∷ cs) t f below apart fbelow nc nf ch fs =
        let t₁ : Trace = insert (end_of start) (br c.cond_block) ∷ t in
        let branch =
          Frame-insert laws start (br c.cond_block) t f.scope (omega (arith, f.longer)) in
        let (t', ran, chained, last, _) =
          hook_last c cs t₁ branch.scope apart
            (Chained-cons_br (c ∷ cs) t start c.cond_block nc ch) in
        rw ran (record {
          chain = chained;
          failures =
              Ended-keep t₀ t₁ t' (c ∷ cs) (c ∷ cs)
                (λ b h ne. last.kept b (omega (arith, f.longer)) ne) fbelow
                (fails-NotCond (c ∷ cs) apart)
                (All-map₂ _ _ _ (c ∷ cs)
                  (λ d ne (k, e).
                    (k, body_of-insert_ne t start d.fail_block _ (λ p. ne (sym p)) ∙ e))
                  nf fs);
          frame = Frame-trans llvm (Frame-weaken llvm (λ b h a. (a.0, a.1)) f) (
              Frame-trans llvm (Frame-weaken llvm (λ b h a. a.2) branch)
                (Frame-weaken llvm (λ b h a. a.0) last));
          start_body = (
            length t,
            last.kept start (omega (arith, f.longer)) nc
                ∙ (body_of-insert_self t start _ ∙ rw (f.kept start below (nc, nf)) refl),
          );
        })

    -- Over checks whose blocks are all different, exist, and are not the start, the loops succeed
    -- and link them.
    pub link_checks-IsLinked :
        (cs : List Check)
        → InScope t₀
        → start < length t₀
        → AreApart cs
        → All (λ c. (c.cond_block < length t₀) × (c.fail_block < length t₀)) cs
        → NotCond start cs
        → NotFail start cs
        → Succeeds (link_checks llvm start end cs t₀) (λ _ t'. IsLinked start cs t')
    unfolding link_checks
    link_checks-IsLinked cs s start_below apart below nc nf =
        let t₁ = ended cs t₀ in
        let t₂ = branched end cs t₁ in
        let fbelow : All (λ c. c.fail_block < length t₀) cs = All-map _ _ cs (λ c b. b.1) below in
        let f₁ = ended-Frame laws cs t₀ s fbelow in
        let below₁ : All (λ c. c.cond_block < length t₁) cs =
          All-map _ _ cs
            (λ c (h : (c.cond_block < length t₀) × (c.fail_block < length t₀)).
              omega (arith, h.0, f₁.longer))
            below in
        let f₂ = branched-Frame laws end cs t₁ f₁.scope below₁ in
        let linked : All (λ c. Linked laws t₀ end t₂ c end) cs =
          branched-Linked laws t₀ end cs t₁ apart f₁.longer below₁ (
            All-map _ _ cs (λ c ne. body_of-ended_ne cs t₀ c.cond_block ne)
              (conds-NotFail cs apart)) in
        let (t₃, ran, chained, f₃, _) =
          link_successes-Chained laws t₀ end cs t₂ f₂.scope apart linked in
        let g = Frame-trans llvm f₂ f₃ in
        rw (end_failures-ok cs t₀) (
          rw (link_failures-ok end cs t₁) (
            rw ran (
              hook_up-IsLinked cs t₃
                (Frame-trans llvm (Frame-weaken llvm (λ b h a. a.1) f₁)
                  (Frame-weaken llvm (λ b h a. a.0) g))
                start_below apart fbelow nc nf chained
                (Ended-keep t₀ t₁ t₃ cs cs (λ b h ne. g.kept b (omega (arith, f₁.longer)) ne) fbelow
                  (fails-NotCond cs apart)
                  (ended-Ended cs t₀ t₀ apart
                    (All-map _ _ cs (λ c ne. refl) (fails-NotCond cs apart)))))))
