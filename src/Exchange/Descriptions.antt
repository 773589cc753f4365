-- ===== src/Exchange/Descriptions.antt =====
-- What `fromJSON` leaves in a description.
use ephippion.Prelude.{
  ℕ, ◌%◌, ◌≡◌, refl, ◌∙◌, ap, ◌==◌, Bool, true, false, none, some, Option, bytes, arith,
}
use ephippion.Direction.{ArgSpec, arg_spec, is_outbound}
use ephippion.Direction.Bits.{outbound_bit, direction_tests}
use ephippion.Exchange.{Json, cast_direction, store_spec, map_members, from_json}

outbound_bit-cast : (d : ℕ) → outbound_bit (d % 256) ≡ outbound_bit d
outbound_bit-cast d = ap (λ (n : ℕ). n == 1) (omega arith)

is_outbound-cast : (d : ℕ) → is_outbound (cast_direction d) ≡ outbound_bit d
is_outbound-cast d = (direction_tests (d % 256) (omega arith)).1 ∙ outbound_bit-cast d

module _ {V : Type 0} (json : Json V) where
  -- What a read of `e` leaves of the description `r`. It fails where `e` is no object, or has no
  -- "direction" that is a number or no "iterator dependent" that is a flag, and leaves the description
  -- as it was; otherwise it sets the number, cut to a byte, and the flag of these two members.
  pub data Reads (e : V) (r : ArgSpec) : Bool × ArgSpec → Type 0 where
    no_object : json.as_object e ≡ none → Reads e r (false, r)
    no_direction :
        (o : V)
        → json.as_object e ≡ some o
        → json.map_int o (bytes "direction") ≡ none
        → Reads e r (false, r)
    no_flag :
        (o : V)
        → json.as_object e ≡ some o
        → json.map_bool o (bytes "iterator dependent") ≡ none
        → Reads e r (false, r)
    members :
        (o : V) (d : ℕ) (i : Bool)
        → json.as_object e ≡ some o
        → json.map_int o (bytes "direction") ≡ some d
        → json.map_bool o (bytes "iterator dependent") ≡ some i
        → is_outbound (d % 256) ≡ outbound_bit d
        → Reads e r (true, arg_spec r.name (d % 256) i)

  store_spec-Reads :
      (e o : V) (d : Option ℕ) (i : Option Bool) (r : ArgSpec)
      → json.as_object e ≡ some o
      → json.map_int o (bytes "direction") ≡ d
      → json.map_bool o (bytes "iterator dependent") ≡ i
      → Reads e r (store_spec json d i r)
  store_spec-Reads e o none i r h hd hi = no_direction o h hd
  store_spec-Reads e o (some d) none r h hd hi = no_flag o h hi
  store_spec-Reads e o (some d) (some i) r h hd hi = members o d i h hd hi (is_outbound-cast d)

  map_members-Reads :
      (e : V) (o : Option V) (r : ArgSpec) → json.as_object e ≡ o → Reads e r (map_members json o r)
  map_members-Reads e none r h = no_object h
  map_members-Reads e (some o) r h = store_spec-Reads e o _ _ r h refl refl

  -- `fromJSON` fails and leaves the description as it was exactly where the value is no object, has no
  -- number "direction" or no flag "iterator dependent"; otherwise it keeps the name, and sets the
  -- direction to the number cut to a byte and the flag to the flag; the direction then counts as an
  -- output exactly if bit 1 of the number is set, also where the number is no enumerator.
  pub from_json-Reads : (e : V) (r : ArgSpec) → Reads e r (from_json json e r)
  unfolding from_json
  from_json-Reads e r = map_members-Reads e (json.as_object e) r refl
