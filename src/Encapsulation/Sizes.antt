-- ===== src/Encapsulation/Sizes.antt =====
-- The sizes that SymbolicEncapsulation.cpp computes in three places in the same words.
use ephippion.Prelude.{ℕ, Bool, not, ◌==◌, if◌then◌else◌}
use ephippion.Llvm.{Ty, ptr, Value, const, mul, Point, M, pure, build, check_that, fail, bad_cast}

-- `getPointerElementType`
abbrev pub pointer_element : Ty → M Ty
pointer_element (ptr t) = pure t
pointer_element _ = fail bad_cast

-- `builder.getInt64(n)`
abbrev pub get_int64 : ℕ → Value
get_int64 n = const 64 n

-- `IteratorDependent ? getInt64(IterationsNum) : getInt64(1)`
abbrev pub multiplier : Bool → ℕ → Value
multiplier iterator_dependent iterations_num =
    if iterator_dependent then get_int64 iterations_num else get_int64 1

-- `assert(typeSize && "type size cannot be zero!")`
abbrev pub check_size : (ndebug : Bool) → ℕ → M (Unit {0})
check_size ndebug type_size = check_that ndebug (not (type_size == 0))

-- `builder.CreateMul(multiplier, builder.getInt64(typeSize))`
abbrev pub build_size : Point → Value → ℕ → M ℕ
build_size p times type_size = build p (mul times (get_int64 type_size))
