-- ===== src/Yaff.antt =====
-- The check of a received frame in src/fptn-protocol-lib/protocol/yaff/yaff_serializer.cpp, before
-- the Yaff library follows the offsets in it. Offsets are 32-bit numbers, little-endian as on the
-- machines it is built for, and wrap. What the library and the code that it generates say of the
-- format, sizes, field numbers and places, is the parameter `Format`; its readers are `Library`. A
-- function with an out parameter returns it, `none` where the code returns false.
pub mod Safety
pub mod Inverse
pub mod Inside
mod Tests
use fptn_keenetic.Base.{
  ℕ, zero, suc, ◌+◌, ◌-◌, ◌*◌, ◌/◌, ◌%◌, ◌^◌, List, [], ◌∷◌, Option, none, some, Bool, true, false,
  not, ◌&&◌, ◌==◌, ltb, leb, length, take, drop, bit_and, bit_or, if◌then◌else◌,
}
use fptn_keenetic.Packet.Reader.{Checked, checked, ◌>>=◌, read, slice}

abbrev pub u32_mod : ℕ
u32_mod = 2 ^ 32

-- A field of a flat message: its number, and its place behind the header.
pub record Field : Type 0 where
  pub id : ℕ
  pub offset : ℕ

pub record Format : Type 0 where
  pub header_size : ℕ
  pub offset_size : ℕ
  pub message_batch : Field
  pub message_packet : Field
  pub batch_packets : Field
  pub packet_payload : Field

unfoldable pub read_u16 : List ℕ → ℕ → Checked ℕ
read_u16 bytes i = do low ← read bytes i; high ← read bytes (i + 1); checked (low + high * 2 ^ 8)

unfoldable pub read_u32 : List ℕ → ℕ → Checked ℕ
read_u32 bytes i = do
  low ← read_u16 bytes i
  high ← read_u16 bytes (i + 2)
  checked (low + high * 2 ^ 16)

-- `FlatTypedLimit`.
unfoldable pub flat_typed_limit : ℕ → ℕ
flat_typed_limit id = bit_or (id * 2 ^ 2) 0x8003 % 2 ^ 16

-- `InBounds`, with the size first.
unfoldable pub in_bounds : ℕ → ℕ → ℕ → Bool
in_bounds size pos len = leb pos size && leb len (size - pos)

-- What follows on a field: nothing if it is bad, and no more if it is absent.
unfoldable pub follow : Checked (Option ℕ) → (ℕ → Checked Bool) → Checked Bool
follow field next = field >>= λ target. elim target [
  | none ↦ checked false
  | some at ↦ elim (at == 0) [ true ↦ checked true | false ↦ next at ]
]

module _ (format : Format) where
  open format use {header_size, offset_size, message_batch, message_packet, batch_packets}
  open format use {packet_payload}

  unfoldable pub resolve_field : List ℕ → ℕ → Field → Checked (Option ℕ)
  resolve_field bytes message field = elim (in_bounds (length bytes) message header_size) [
    | false ↦ checked none
    | true ↦ read_u16 bytes message >>= λ typed_limit. elim (bit_and typed_limit 0x8000 == 0) [
      | true ↦ checked none
      | false ↦ elim (leb typed_limit (flat_typed_limit field.id)) [
        | true ↦ checked (some 0)
        | false ↦
            let pointer_offset = (message + header_size + field.offset) % u32_mod in
            elim (in_bounds (length bytes) pointer_offset offset_size) [
              | false ↦ checked none
              | true ↦ read_u32 bytes pointer_offset >>= λ pointer. checked (
                  if pointer == 0
                  then some 0
                  else if ltb (length bytes - message) pointer
                  then none
                  else some ((message + pointer) % u32_mod))
            ]
      ]
    ]
  ]

  -- The place of the text and its length.
  unfoldable pub resolve_string : List ℕ → ℕ → Checked (Option (ℕ × ℕ))
  resolve_string bytes offset = elim (in_bounds (length bytes) offset offset_size) [
    | false ↦ checked none
    | true ↦ read_u32 bytes offset >>= λ len.
        let data_offset = (offset + offset_size) % u32_mod in
        checked (if in_bounds (length bytes) data_offset len then some (data_offset, len) else none)
  ]

  unfoldable pub validate_inner : List ℕ → Checked Bool
  unfolding follow
  validate_inner bytes = elim (in_bounds (length bytes) 0 offset_size) [
    | false ↦ checked false
    | true ↦ read_u32 bytes 0 >>= λ root. follow (resolve_field bytes root message_packet) λ packet.
        follow (resolve_field bytes packet packet_payload) λ payload.
          resolve_string bytes payload >>= λ text.
          checked (elim text [ none ↦ false | some t ↦ true ])
  ]

  -- One entry of the table: false where the loop returns false.
  unfoldable pub check_element : List ℕ → ℕ → ℕ → Checked Bool
  check_element bytes table element = elim (element == 0) [
    | true ↦ checked true
    | false ↦ elim (ltb (length bytes - table) element) [
      | true ↦ checked false
      | false ↦ resolve_string bytes ((table + element) % u32_mod) >>= λ text. elim text [
        | none ↦ checked false
        | some blob ↦ slice bytes blob.0 blob.1 >>= λ packet. validate_inner packet
      ]
    ]
  ]

  -- The loop over the table, from its `i`-th entry, with the entries left.
  unfoldable pub validate_elements : ℕ → List ℕ → ℕ → ℕ → Checked Bool
  validate_elements zero bytes table i = checked true
  validate_elements (suc rest) bytes table i =
      read_u32 bytes ((table + i * offset_size % u32_mod) % u32_mod) >>= λ element.
      check_element bytes table element >>= λ good. elim good [
        | false ↦ checked false
        | true ↦ validate_elements rest bytes table (i + 1)
      ]

  unfoldable pub validate_packet_array : List ℕ → ℕ → Checked Bool
  validate_packet_array bytes array = elim (in_bounds (length bytes) array offset_size) [
    | false ↦ checked false
    | true ↦ read_u32 bytes array >>= λ count.
        let table = (array + offset_size) % u32_mod in
        elim (ltb (length bytes / offset_size) count) [
          | true ↦ checked false
          | false ↦ elim (in_bounds (length bytes) table (count * offset_size % u32_mod)) [
            | false ↦ checked false
            | true ↦ validate_elements count bytes table 0
          ]
        ]
  ]

  unfoldable pub validate_batch : List ℕ → Checked Bool
  unfolding follow
  validate_batch bytes = elim (in_bounds (length bytes) 0 offset_size) [
    | false ↦ checked false
    | true ↦ read_u32 bytes 0 >>= λ root. follow (resolve_field bytes root message_batch) λ batch.
        follow (resolve_field bytes batch batch_packets) λ array. validate_packet_array bytes array
  ]

  -- `HasValidYaffRootOffset`.
  unfoldable pub has_valid_root_offset : List ℕ → Checked Bool
  has_valid_root_offset bytes = elim (ltb (length bytes) offset_size) [
    | true ↦ checked false
    | false ↦ read_u32 bytes 0 >>= λ offset. checked (ltb offset (length bytes))
  ]
