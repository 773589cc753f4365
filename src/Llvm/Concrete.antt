-- ===== src/Llvm/Concrete.antt =====
-- An instance of the questions that meets what is relied on: each is answered by a look at the calls
-- made so far. It serves runs at concrete inputs.
use ephippion.Prelude.{
  ℕ, ◌+◌, ◌/◌, refl, Bool, true, false, Option, none, some, [], ◌∷◌, length, arith, ◌==◌, ==_refl,
  ==_ne, if◌then◌else◌, Text,
}
use ephippion.Llvm.Types.{Ty, int, ptr, void, other}
use ephippion.Llvm.Calls.{
  Block, Value, result, const, Inst, alloca, call, icmp, phi, bit_cast, br, cond_br, Call, insert,
  create_block, global_string_ptr, zext_or_bit_cast, Trace, call_at, terminates,
}
use ephippion.Llvm.Queries.{Llvm, IsLlvm}

size_of : Ty → ℕ
size_of (int w) = (w + 7) / 8
size_of (ptr t) = 8
size_of void = 0
size_of (other n) = n

inst_type : Inst → Ty
inst_type (alloca ty name) = ptr ty
inst_type (call f vs) = f.type.result_type
inst_type (phi ty k name) = ty
inst_type (icmp p a b) = int 1
inst_type (bit_cast v ty) = ty
inst_type _ = int 64

call_type : Option Call → Ty
unfolding inst_type
call_type (some (insert p i)) = inst_type i
call_type (some (global_string_ptr s)) = ptr (int 8)
call_type (some (zext_or_bit_cast v ty)) = ty
call_type _ = void

value_type : Trace → Value → Ty
unfolding call_type call_at
value_type t (const w n) = int w
value_type t (result n) = call_type (call_at t n)

alloca_name : Option Call → Text
alloca_name (some (insert p (alloca ty name))) = name
alloca_name _ = []

value_name : Trace → Value → Text
unfolding alloca_name call_at
value_name t (const w n) = []
value_name t (result n) = alloca_name (call_at t n)

is_alloca_call : Option Call → Bool
is_alloca_call (some (insert p (alloca ty name))) = true
is_alloca_call _ = false

value_is_alloca : Trace → Value → Bool
unfolding is_alloca_call call_at
value_is_alloca t (const w n) = false
value_is_alloca t (result n) = is_alloca_call (call_at t n)

block_terminator : Trace → Block → Option ℕ
block_terminator [] b = none
block_terminator (c ∷ t) b =
    if terminates b c then some (length t) else if b == length t then none else block_terminator t b

is_branch_call : Option Call → Bool
is_branch_call (some (insert p (br b))) = true
is_branch_call (some (insert p (cond_br v a b))) = true
is_branch_call _ = false

block_function : Option Call → Text
block_function (some (create_block name func)) = func
block_function _ = []

-- A module in which no other function has a name that the code asks for.
unfoldable pub concrete : Llvm
unfolding size_of value_type value_name value_is_alloca block_terminator is_branch_call call_at
    block_function
concrete = record {
  alloc_size = size_of;
  type_of = value_type;
  name_of = value_name;
  is_alloca = value_is_alloca;
  terminator = block_terminator;
  is_branch = λ t n. is_branch_call (call_at t n);
  parent = λ t b. block_function (call_at t b);
  declares = λ t name type. true;
}

pub concrete-IsLlvm : IsLlvm concrete
unfolding concrete
concrete-IsLlvm = record {
  type_of-const = λ t w n. refl;
  type_of-alloca = λ t n p ty name h. rw h;
  type_of-call = λ t n p f vs h. rw h;
  type_of-phi = λ t n k p ty name h. rw h;
  is_alloca-alloca = λ t n p ty name h. rw h;
  is_alloca-call = λ t n p f vs h. rw h;
  terminator-new = λ t name func. rw (==_refl (length t));
  terminator-set = λ t b c h. rw h;
  terminator-keep = λ t b c h lt. rw h (rw (==_ne b (length t) (omega arith)));
  is_branch-cond = λ t n p v a b h. rw h;
}
