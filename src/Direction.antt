-- ===== src/Direction.antt =====
-- include/Ephippion/Support/IR/ArgDirection.hpp and ArgSpec.hpp: the direction of an argument, an
-- enum over `uint8_t`, and the description of one argument.
pub mod Bits
mod Tests
use ephippion.Prelude.{ℕ, Bool, not, ◌&&◌, ◌==◌, bit_and, bit_or, Text}

-- An `enum : uint8_t` holds any byte, and the code makes one by a cast from `int`.
abbrev pub ArgDirection : Type 0
ArgDirection = ℕ

abbrev pub ad_inbound : ArgDirection
ad_inbound = 1

abbrev pub ad_outbound : ArgDirection
ad_outbound = 2

abbrev pub ad_both : ArgDirection
ad_both = bit_or ad_inbound ad_outbound

-- An `int` used as a condition.
abbrev truthy : ℕ → Bool
truthy n = not (n == 0)

unfoldable pub to_int : ArgDirection → ℕ
to_int ad = ad

unfoldable pub is_inbound : ArgDirection → Bool
unfolding to_int
is_inbound ad = truthy (bit_and (to_int ad) (to_int ad_inbound))

unfoldable pub is_outbound : ArgDirection → Bool
unfolding to_int
is_outbound ad = truthy (bit_and (to_int ad) (to_int ad_outbound))

unfoldable pub is_only_inbound : ArgDirection → Bool
unfolding to_int
is_only_inbound ad =
    truthy (bit_and (to_int ad) (to_int ad_inbound))
    && not (truthy (bit_and (to_int ad) (to_int ad_outbound)))

unfoldable pub is_only_outbound : ArgDirection → Bool
unfolding to_int
is_only_outbound ad =
    truthy (bit_and (to_int ad) (to_int ad_outbound))
    && not (truthy (bit_and (to_int ad) (to_int ad_inbound)))

pub record ArgSpec : Type 0 where
  pub name : Text
  pub direction : ArgDirection
  pub iterator_dependent : Bool

abbrev pub arg_spec : Text → ArgDirection → Bool → ArgSpec
arg_spec n d i = record { name = n; direction = d; iterator_dependent = i }
