-- ===== src/Llvm/Scope.antt =====
-- Sequences of calls that name only what stands before them, and blocks that keep their state.
use ephippion.Prelude.{
  ℕ, ◌<◌, ◌≡◌, refl, ◌∙◌, false, List, [], ◌∷◌, ◌++◌, length, length-append, All, arith,
}
use ephippion.Llvm.Calls.{
  Block, Call, insert, end_of, before, add_incoming, set_successor, terminates, Trace,
}
use ephippion.Llvm.Queries.{Llvm, IsLlvm}

abbrev pub Refers : ℕ → Call → Type 0
Refers n (insert (end_of b) i) = b < n
Refers n (insert (before k) i) = k < n
Refers n (add_incoming m v b) = m < n
Refers n (set_successor m k d) = m < n
Refers n _ = Unit

abbrev pub InScope : Trace → Type 0
InScope [] = Unit
InScope (c ∷ t) = Refers (length t) c × InScope t

module _ {llvm : Llvm} (laws : IsLlvm llvm) where
  -- Calls that do not terminate a block leave its terminator.
  pub terminator-append :
      (cs : List Call) (t : Trace) (b : Block)
      → b < length t
      → All (λ c. terminates b c ≡ false) cs
      → llvm.terminator (cs ++ t) b ≡ llvm.terminator t b
  terminator-append [] t b h quiet = refl
  terminator-append (c ∷ cs) t b h quiet =
      laws.terminator-keep (cs ++ t) b c quiet.0 (omega (arith, length-append cs t))
      ∙ terminator-append cs t b h quiet.1
