-- ===== src/Direction/Bits.antt =====
-- The direction tests of ArgDirection.hpp as arithmetic on the byte.
use ephippion.Prelude.{
  ◌+◌, ◌≢◌, inl, inr, Bool-cases, ==_iff, if◌then◌else◌, ℕ, zero, suc, ◌/◌, ◌%◌, ◌<◌, ◌≡◌, refl,
  Bool, true, false, not, ◌&&◌, ◌==◌, arith,
}
use ephippion.Direction.{ArgDirection, is_inbound, is_outbound, is_only_inbound, is_only_outbound}

-- The two low bits of a direction, by division.
abbrev pub inbound_bit : ArgDirection → Bool
inbound_bit ad = ad % 2 == 1

abbrev pub outbound_bit : ArgDirection → Bool
outbound_bit ad = ad / 2 % 2 == 1

same : Bool → Bool → Bool
same true b = b
same false b = not b

agrees : ArgDirection → Bool
unfolding same is_inbound is_outbound is_only_inbound is_only_outbound
agrees ad =
    (same (is_inbound ad) (inbound_bit ad) && same (is_outbound ad) (outbound_bit ad))
    && (same (is_only_inbound ad) (inbound_bit ad && not (outbound_bit ad))
        && same (is_only_outbound ad) (outbound_bit ad && not (inbound_bit ad)))

same_sound : (a b : Bool) → same a b ≡ true → a ≡ b
unfolding same
same_sound true true h = refl
same_sound true false h = cc
same_sound false true h = cc
same_sound false false h = refl

-- How many numbers below `bound` fail a test.
failures : (test : ℕ → Bool) (bound : ℕ) → ℕ
failures test zero = 0
failures test (suc bound) = failures test bound + (if test bound then 0 else 1)

failures_none :
    (test : ℕ → Bool) (bound : ℕ) → failures test bound ≡ 0 → (x : ℕ) → x < bound → test x ≡ true
unfolding failures
failures_none test zero none_fails x lt = absurd (omega arith)
failures_none test (suc bound) none_fails x lt = elim (Bool-cases (test bound)) [
  | inr failed ↦ absurd (zero_ne (rw failed at none_fails))
  | inl passed ↦ elim (Bool-cases (x == bound)) [
    | inl last ↦ rw ((==_iff x bound).0 last) passed
    | inr before ↦
        failures_none test bound (fewer (rw passed at none_fails)) x
          (below (λ e. cc (before, (==_iff x bound).1 e)))
  ]
]
  where
    zero_ne : failures test bound + 1 ≢ 0
    zero_ne e = omega arith

    fewer : failures test bound + 0 ≡ 0 → failures test bound ≡ 0
    fewer e = omega arith

    below : x ≢ bound → x < bound
    below ne = omega arith

agrees_everywhere : failures agrees 256 ≡ 0
unfolding failures agrees
agrees_everywhere = refl

and_left : (a b : Bool) → (a && b) ≡ true → a ≡ true
and_left true b h = refl
and_left false b h = cc

and_right : (a b : Bool) → (a && b) ≡ true → b ≡ true
and_right true b h = h
and_right false b h = cc

-- On every byte, a direction the code can make included that no enumerator names, `is_inbound` is
-- the lowest bit, `is_outbound` the next one, and the two `only` tests are one bit without the other.
pub direction_tests :
    (ad : ArgDirection)
    → ad < 256
    → (is_inbound ad ≡ inbound_bit ad)
      × (is_outbound ad ≡ outbound_bit ad)
      × (is_only_inbound ad ≡ (inbound_bit ad && not (outbound_bit ad)))
      × (is_only_outbound ad ≡ (outbound_bit ad && not (inbound_bit ad)))
unfolding agrees
direction_tests ad h =
    let table = failures_none agrees 256 agrees_everywhere ad h in
    let first = and_left _ _ table in
    let second = and_right _ _ table in
    (
      same_sound _ _ (and_left _ _ first),
      same_sound _ _ (and_right _ _ first),
      same_sound _ _ (and_left _ _ second),
      same_sound _ _ (and_right _ _ second),
    )
