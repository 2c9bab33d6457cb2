-- ===== src/Yaff/Tests.antt =====
-- A frame with one packet through the model of
-- src/fptn-protocol-lib/protocol/yaff/yaff_serializer.cpp.
use fptn_keenetic.Base.{ℕ, ◌+◌, ◌≡◌, ◌≤◌, refl, List, [], ◌∷◌, true, arith, length}
use fptn_keenetic.Packet.Reader.{checked, read, slice, IsSafe}
use fptn_keenetic.Yaff.{
  Field, Format, read_u16, read_u32, flat_typed_limit, in_bounds, resolve_field, resolve_string,
  follow, validate_inner, check_element, validate_elements, validate_packet_array, validate_batch,
  has_valid_root_offset,
}
use fptn_keenetic.Yaff.Safety.{format, validate-IsSafe}
use fptn_keenetic.Yaff.Inside.{IsFlat, PacketPath, PayloadPath, text, validate_batch-inside}

program : Unit {0}
unfolding read slice read_u16 read_u32 flat_typed_limit in_bounds resolve_field resolve_string
    follow validate_inner check_element validate_elements validate_packet_array validate_batch
    has_valid_root_offset
program = tt

-- The first field of a message, by its number.
abbrev first : ℕ → Field
first id = record { id = id; offset = 0 }

abbrev places : Format
places = format (first 6) (first 4) (first 1) (first 1)

abbrev packet : List ℕ
packet =
    4 ∷ 0 ∷ 0 ∷ 0 ∷ 255 ∷ 255 ∷ 6 ∷ 0 ∷ 0 ∷ 0 ∷ 255 ∷ 255 ∷ 6 ∷ 0 ∷ 0 ∷ 0 ∷ 2 ∷ 0 ∷ 0 ∷ 0 ∷ 69 ∷ 0
    ∷ []

abbrev frame : List ℕ
frame =
    4 ∷ 0 ∷ 0 ∷ 0 ∷ 255 ∷ 255 ∷ 6 ∷ 0 ∷ 0 ∷ 0 ∷ 255 ∷ 255 ∷ 6 ∷ 0 ∷ 0 ∷ 0 ∷ 1 ∷ 0 ∷ 0 ∷ 0 ∷ 4 ∷ 0
    ∷ 0 ∷ 0 ∷ 22 ∷ 0 ∷ 0 ∷ 0 ∷ packet

frame_good : validate_batch places frame ≡ checked true
unfolding program
frame_good = refl

abbrev to_packet : PacketPath places frame
unfolding program
to_packet = record {
  root = 4;
  batch = 10;
  array = 16;
  count = 1;
  index = 0;
  element = 4;
  at_root = refl;
  to_batch = record {
    typed_limit = 65535;
    pointer = 6;
    announced = refl;
    present = omega arith;
    offset = refl;
    not_null = omega arith;
    leads = refl;
  };
  to_array = record {
    typed_limit = 65535;
    pointer = 6;
    announced = refl;
    present = omega arith;
    offset = refl;
    not_null = omega arith;
    leads = refl;
  };
  to_count = refl;
  below = omega arith;
  to_element = refl;
  has_element = λ e. omega arith;
}

abbrev to_payload : PayloadPath places (text frame 24)
unfolding program
to_payload = record {
  root = 4;
  packet = 10;
  payload = 16;
  at_root = refl;
  to_packet = record {
    typed_limit = 65535;
    pointer = 6;
    announced = refl;
    present = omega arith;
    offset = refl;
    not_null = omega arith;
    leads = refl;
  };
  to_payload = record {
    typed_limit = 65535;
    pointer = 6;
    announced = refl;
    present = omega arith;
    offset = refl;
    not_null = omega arith;
    leads = refl;
  };
}

validate-IsSafe_example :
    IsSafe (has_valid_root_offset places frame) × IsSafe (validate_batch places frame)
validate-IsSafe_example =
    validate-IsSafe (first 6) (first 4) (first 1) (first 1) frame (omega arith)

validate_batch-inside_example :
    (len : ℕ) × (read_u32 frame 24 ≡ checked len)
    × (28 + len ≤ length frame)
    × ((n : ℕ) × (read_u32 (text frame 24) 16 ≡ checked n) × (20 + n ≤ len))
    × ((IsFlat to_packet.to_batch × IsFlat to_packet.to_array)
        × (IsFlat to_payload.to_packet × IsFlat to_payload.to_payload))
unfolding to_packet to_payload
validate_batch-inside_example =
    validate_batch-inside (first 6) (first 4) (first 1) (first 1) frame (omega arith) frame_good
      to_packet to_payload
