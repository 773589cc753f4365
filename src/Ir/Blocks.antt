-- ===== src/Ir/Blocks.antt =====
-- The instructions of a block and the incoming values of a phi.
use ephippion.Prelude.{ℕ, zero, suc, List, [], ◌∷◌, ◌++◌, length, ◌==◌, if◌then◌else◌}
use ephippion.Llvm.{
  Block, Value, Inst, cond_br, br, end_of, before, insert, add_incoming, set_successor, Trace,
}

-- An instruction and the position of the call that asked for it.
abbrev pub Placed : Type 0
Placed = ℕ × Inst

unfoldable pub insert_before : ℕ → Placed → List Placed → List Placed
insert_before n p [] = []
insert_before n p ((m, i) ∷ is) = if m == n then p ∷ (m, i) ∷ is else (m, i) ∷ insert_before n p is

-- `setSuccessor` on a branch
abbrev pub redirect : ℕ → Block → Inst → Inst
redirect k d (br a) = br d
redirect zero d (cond_br v a b) = cond_br v d b
redirect (suc k) d (cond_br v a b) = cond_br v a d
redirect k d i = i

unfoldable pub redirect_in : ℕ → ℕ → Block → List Placed → List Placed
redirect_in n k d [] = []
redirect_in n k d ((m, i) ∷ is) = (m, if m == n then redirect k d i else i) ∷ redirect_in n k d is

-- The instructions of a block, in order.
unfoldable pub body_of : Trace → Block → List Placed
body_of [] b = []
body_of (insert (end_of c) i ∷ t) b =
    if c == b then body_of t b ++ (length t, i) ∷ [] else body_of t b
body_of (insert (before n) i ∷ t) b = insert_before n (length t, i) (body_of t b)
body_of (set_successor n k d ∷ t) b = redirect_in n k d (body_of t b)
body_of (_ ∷ t) b = body_of t b

-- The incoming values of a phi, the last one first.
unfoldable pub incoming : Trace → ℕ → List (Block × Value)
incoming [] n = []
incoming (add_incoming m v b ∷ t) n = if m == n then (b, v) ∷ incoming t n else incoming t n
incoming (_ ∷ t) n = incoming t n
