-- ===== src/Ir/Reaches.antt =====
-- Control that passes from block to block, with a log of the entries of watched blocks.
use ephippion.Prelude.{
  ℕ, ◌≡◌, sym, ◌∙◌, ap, subst, Option, none, some, List, [], ◌∷◌, ◌++◌, append_assoc, All, false,
}
use ephippion.Llvm.{Block, br, is_terminator, Trace}
use ephippion.Ir.Machine.{Values, left, jump, run_block}
use ephippion.Ir.Visits.{enter, run_block-append}
use ephippion.Ir.Blocks.{Placed, body_of}

-- A watched block is logged with the value of its variable at each entry.
abbrev pub Log : Type 0
Log = List (Block × ℕ)

abbrev pub noted : Block → Option ℕ → Values → Log
noted b none vs = []
noted b (some ind) vs = (b, vs ind) ∷ []

module _ (oracle : ℕ → Values → ℕ) (t : Trace) (watch : Block → Option ℕ) where
  abbrev pub note : Block → Values → Log
  note b vs = noted b (watch b) vs

  -- From `cur`, entered from `prev`, control reaches `post`; the log holds the entries of watched
  -- blocks on the way, that of `post` left out.
  pub data Reaches (post : Block) : Block → Block → Values → Log → Type 0 where
    here : {prev cur : Block} {vs : Values} → cur ≡ post → Reaches post prev cur vs []
    goes :
        {prev cur : Block} {vs : Values} {log log' : Log} (next : Block) (vs' : Values)
        → enter oracle t prev cur vs ≡ left (jump next) vs'
        → log' ≡ note cur vs ++ log
        → Reaches post cur next vs' log
        → Reaches post prev cur vs log'

  -- One run behind the other.
  pub Reaches-trans :
      (mid post : Block) (prev cur : Block) (vs : Values) (log log' : Log)
      → Reaches mid prev cur vs log
      → ((prev' : Block) (vs' : Values) → Reaches post prev' mid vs' log')
      → Reaches post prev cur vs (log ++ log')
  Reaches-trans mid post prev cur vs log log' (here e) k =
      subst (λ b. Reaches post prev b vs log') (sym e) (k prev vs)
  Reaches-trans mid post prev cur vs log log' (goes {log = first} next vs' ran e r) k =
      goes next vs' ran (ap (λ l. l ++ log') e ∙ append_assoc (note cur vs) first log')
        (Reaches-trans mid post cur next vs' first log' r k)

  -- An unwatched block that runs straight to a branch hands control on.
  pub Reaches-straight :
      {post : Block} {log : Log} (is : List Placed) (k : ℕ) (prev b next : Block) (vs : Values)
      → body_of t b ≡ is ++ (k, br next) ∷ []
      → All (λ p. is_terminator p.1 ≡ false) is
      → watch b ≡ none
      → ((vs' : Values) → Reaches post b next vs' log)
      → Reaches post prev b vs log
  unfolding run_block
  Reaches-straight {log} is k prev b next vs body straight unwatched rest =
      let (vs', ran) = run_block-append oracle t prev is ((k, br next) ∷ []) vs straight in
      goes next vs' (ap (λ js. run_block oracle t prev js vs) body ∙ ran)
        (ap (λ o. noted b o vs ++ log) (sym unwatched)) (rest vs')
