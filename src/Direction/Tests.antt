-- ===== src/Direction/Tests.antt =====
-- The direction tests at a concrete byte.
use ephippion.Prelude.{◌≡◌, not, ◌&&◌, arith}
use ephippion.Direction.{is_inbound, is_outbound, is_only_inbound, is_only_outbound}
use ephippion.Direction.Bits.{inbound_bit, outbound_bit, direction_tests}

-- 6 is no enumerator; it counts as an output.
direction_tests_example :
    (is_inbound 6 ≡ inbound_bit 6)
    × (is_outbound 6 ≡ outbound_bit 6)
    × (is_only_inbound 6 ≡ (inbound_bit 6 && not (outbound_bit 6)))
    × (is_only_outbound 6 ≡ (outbound_bit 6 && not (inbound_bit 6)))
direction_tests_example = direction_tests 6 (omega arith)
