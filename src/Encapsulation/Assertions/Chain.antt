-- ===== src/Encapsulation/Assertions/Chain.antt =====
-- The blocks that the four linking loops of `createSymbolicAssertions` leave behind.
use ephippion.Prelude.{
  ℕ, ◌<◌, ◌≤◌, ◌≡◌, ◌≢◌, refl, sym, ◌∙◌, List, [], ◌∷◌, ◌++◌, length, All, All-map, All-map₂, arith,
  ==_ne, ==_refl,
}
use ephippion.Llvm.{Block, Inst, cond_br, unreachable, insert, end_of, Llvm, IsLlvm, Trace, ok}
use ephippion.Llvm.Scope.{InScope}
use ephippion.Ir.{body_of}
use ephippion.Ir.Frame.{Frame, Frame-refl, Frame-trans, Frame-weaken, Frame-insert}
use ephippion.Ir.Laws.{body_of-IsBelow}
use ephippion.Ir.Positions.{Lacks-above, call_at-new}
use ephippion.Encapsulation.Assertions.{Check, end_failures, link_failures, link_successes}
use ephippion.Encapsulation.Assertions.Links.{
  Linked, Linked-cons, set_true_successor-ok, Linked-redirected, body_of-redirected, redirected,
  redirected-Frame,
}

abbrev pub NotCond : Block → List Check → Type 0
NotCond b = All (λ d. d.cond_block ≢ b)

abbrev pub NotFail : Block → List Check → Type 0
NotFail b = All (λ d. d.fail_block ≢ b)

-- All condition and failure blocks are different blocks.
abbrev pub AreApart : List Check → Type 0
AreApart [] = Unit
AreApart (c ∷ cs) =
    (NotCond c.cond_block cs × NotFail c.fail_block cs)
    × (NotFail c.cond_block (c ∷ cs) × NotCond c.fail_block (c ∷ cs))
    × AreApart cs

-- Where a passed check leads: to the next one, or to the end.
abbrev pub target_of : Block → List Check → Block
target_of end [] = end
target_of end (c ∷ cs) = c.cond_block

-- an appended instruction is seen in its block only
pub body_of-insert_ne :
    (t : Trace) (c b : Block) (i : Inst) → c ≢ b → body_of (insert (end_of c) i ∷ t) b ≡ body_of t b
unfolding body_of
body_of-insert_ne t c b i ne = rw (==_ne c b ne)

pub body_of-insert_self :
    (t : Trace) (c : Block) (i : Inst)
    → body_of (insert (end_of c) i ∷ t) c ≡ body_of t c ++ (length t, i) ∷ []
unfolding body_of
body_of-insert_self t c i = rw (==_refl c)

-- What `end_failures` and `link_failures` append.
unfoldable pub ended : List Check → Trace → Trace
ended [] t = t
ended (c ∷ cs) t = ended cs (insert (end_of c.fail_block) unreachable ∷ t)

pub branched : Block → List Check → Trace → Trace
branched end [] t = t
branched end (c ∷ cs) t =
    branched end cs (insert (end_of c.cond_block) (cond_br c.condition end c.fail_block) ∷ t)

pub end_failures-ok : (cs : List Check) (t : Trace) → end_failures cs t ≡ ok tt (ended cs t)
unfolding end_failures ended
end_failures-ok [] t = refl
end_failures-ok (c ∷ cs) t = end_failures-ok cs _

pub link_failures-ok :
    (end : Block) (cs : List Check) (t : Trace) → link_failures end cs t ≡ ok tt (branched end cs t)
unfolding link_failures branched
link_failures-ok end [] t = refl
link_failures-ok end (c ∷ cs) t = link_failures-ok end cs _

pub body_of-ended_ne :
    (cs : List Check) (t : Trace) (b : Block) → NotFail b cs → body_of (ended cs t) b ≡ body_of t b
unfolding ended
body_of-ended_ne [] t b ne = refl
body_of-ended_ne (c ∷ cs) t b ne =
    body_of-ended_ne cs _ b ne.1 ∙ body_of-insert_ne t c.fail_block b _ ne.0

-- They touch the failure blocks, and the condition blocks.
module _ {llvm : Llvm} (laws : IsLlvm llvm) where
  pub ended-Frame :
      (cs : List Check) (t : Trace)
      → InScope t
      → All (λ c. c.fail_block < length t) cs
      → Frame llvm (λ b. NotFail b cs) t (ended cs t)
  unfolding ended
  ended-Frame [] t s below = Frame-refl llvm t s
  ended-Frame (c ∷ cs) t s below =
      let first = Frame-insert laws c.fail_block unreachable t s below.0 in
      Frame-trans llvm (Frame-weaken llvm (λ b h ne. ne.0) first) (
        Frame-weaken llvm (λ b h ne. ne.1)
          (ended-Frame cs _ first.scope
            (All-map _ _ cs (λ d (h : d.fail_block < length t). omega arith) below.1)))

  pub branched-Frame :
      (end : Block) (cs : List Check) (t : Trace)
      → InScope t
      → All (λ c. c.cond_block < length t) cs
      → Frame llvm (λ b. NotCond b cs) t (branched end cs t)
  unfolding branched
  branched-Frame end [] t s below = Frame-refl llvm t s
  branched-Frame end (c ∷ cs) t s below =
      let first =
        Frame-insert laws c.cond_block (cond_br c.condition end c.fail_block) t s below.0 in
      Frame-trans llvm (Frame-weaken llvm (λ b h ne. ne.0) first) (
        Frame-weaken llvm (λ b h ne. ne.1)
          (branched-Frame end cs _ first.scope
            (All-map _ _ cs (λ d (h : d.cond_block < length t). omega arith) below.1)))

-- A failure block ends unreachable behind what it held.
abbrev pub Ended : Trace → Trace → Check → Type 0
Ended t₀ t c = (k : ℕ) × (body_of t c.fail_block ≡ body_of t₀ c.fail_block ++ (k, unreachable) ∷ [])

module _ {llvm : Llvm} (laws : IsLlvm llvm) (t₀ : Trace) (end : Block) where
  -- A chain of linked checks, each leading to the next and the last one to the end.
  abbrev pub Chained : Trace → List Check → Type 0
  Chained t [] = Unit
  Chained t (c ∷ cs) = Linked laws t₀ end t c (target_of end cs) × Chained t cs

  pub Linked-branched :
      (cs : List Check) {t : Trace} {c : Check} {target : Block}
      → NotCond c.cond_block cs
      → Linked laws t₀ end t c target
      → Linked laws t₀ end (branched end cs t) c target
  unfolding branched
  Linked-branched [] ne l = l
  Linked-branched (d ∷ cs) {t} {c} ne l = Linked-branched cs ne.1 (
      Linked-cons laws t₀ end _ (body_of-insert_ne t d.cond_block c.cond_block _ ne.0)
        (rw (==_ne d.cond_block c.cond_block ne.0)) l)

  -- Right behind its branch a check is linked to the end.
  pub Linked-new :
      (c : Check) (t : Trace)
      → length t₀ ≤ length t
      → c.cond_block < length t
      → body_of t c.cond_block ≡ body_of t₀ c.cond_block
      → Linked laws t₀ end
          (insert (end_of c.cond_block) (cond_br c.condition end c.fail_block) ∷ t)
          c
          end
  Linked-new c t le below same = record {
    branch = length t;
    body = body_of-insert_self t c.cond_block _ ∙ rw same refl;
    is_new = Lacks-above (length t₀) (length t) _ le (body_of-IsBelow t₀ c.cond_block);
    terminator = laws.terminator-set t c.cond_block _ (rw (==_refl c.cond_block));
    call = call_at-new _ t;
    below = omega arith;
    block_below = omega arith;
  }

  pub branched-Linked :
      (cs : List Check) (t : Trace)
      → AreApart cs
      → length t₀ ≤ length t
      → All (λ c. c.cond_block < length t) cs
      → All (λ c. body_of t c.cond_block ≡ body_of t₀ c.cond_block) cs
      → All (λ c. Linked laws t₀ end (branched end cs t) c end) cs
  unfolding branched
  branched-Linked [] t apart le below same = tt
  branched-Linked (c ∷ cs) t apart le below same = (
    Linked-branched cs apart.0.0 (Linked-new c t le below.0 same.0),
    branched-Linked cs _ apart.2 (omega arith)
        (All-map _ _ cs (λ d (h : d.cond_block < length t). omega arith) below.1)
        (All-map₂ _ _ _ cs
          (λ d ne e. body_of-insert_ne t c.cond_block d.cond_block _ (λ p. ne (sym p)) ∙ e)
          apart.0.0 same.1),
  )

  -- Linking on success: each check of a list is linked to the next.
  pub link_successes-Chained :
      (cs : List Check) (t : Trace)
      → InScope t
      → AreApart cs
      → All (λ c. Linked laws t₀ end t c end) cs
      → (t' : Trace) × (link_successes llvm cs t ≡ ok tt t')
        × Chained t' cs
        × Frame llvm (λ b. NotCond b cs) t t'
        × ((c : Check) (target : Block)
            → NotCond c.cond_block cs
            → Linked laws t₀ end t c target
            → Linked laws t₀ end t' c target)
  unfolding link_successes
  link_successes-Chained [] t s apart ls = (t, refl, tt, Frame-refl llvm t s, λ c target ne l. l)
  link_successes-Chained (c ∷ []) t s apart ls = (
    t,
    refl,
    (ls.0, tt),
    Frame-weaken llvm (λ b h ne. tt) (Frame-refl llvm t s),
    λ d target ne l. l,
  )
  link_successes-Chained (c ∷ d ∷ cs) t s apart ls =
      let target = d.cond_block in
      let t₁ = redirected laws t₀ end ls.0 target in
      let keep : (e : Check) (old : Block)
          → c.cond_block ≢ e.cond_block
          → Linked laws t₀ end t e old
          → Linked laws t₀ end t₁ e old =
        λ e old ne l.
          Linked-cons laws t₀ end _ (body_of-redirected laws t₀ end ls.0 target e.cond_block ne)
            refl l in
      let first = redirected-Frame laws t₀ end ls.0 target s in
      let (t', ran, chained, same, kept) =
        link_successes-Chained (d ∷ cs) t₁ first.scope apart.2
          (All-map₂ _ _ _ (d ∷ cs) (λ e ne l. keep e end (λ p. ne (sym p)) l) apart.0.0 ls.1) in
      (
        t',
        rw (set_true_successor-ok laws t₀ end ls.0 target) ran,
        (kept c target apart.0.0 (Linked-redirected laws t₀ end ls.0 target), chained),
        Frame-trans llvm (Frame-weaken llvm (λ b h ne. ne.0) first)
            (Frame-weaken llvm (λ b h ne. ne.1) same),
        λ e old ne l. kept e old ne.1 (keep e old ne.0 l),
      )
