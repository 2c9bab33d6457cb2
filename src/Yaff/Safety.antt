-- ===== src/Yaff/Safety.antt =====
-- The check of a frame in src/fptn-protocol-lib/protocol/yaff/yaff_serializer.cpp reads nothing
-- outside the frame.
use fptn_keenetic.Base.{
  ℕ, zero, suc, ◌+◌, ◌-◌, ◌*◌, ◌/◌, ◌%◌, ◌≤◌, ◌<◌, ◌≡◌, List, Option, none, some, Bool, true, false,
  ◌==◌, ltb, leb, length, bit_and, arith, Bool-cases, inl, inr, if◌then◌else◌,
}
use fptn_keenetic.Packet.Reader.{
  Checked, checked, ◌>>=◌, read, Gives, IsSafe, read-Gives, bind-Gives, test-Gives, value, slice,
  slice-Gives,
}
use fptn_keenetic.Yaff.{
  Field, Format, u32_mod, read_u16, read_u32, flat_typed_limit, in_bounds, resolve_field,
  resolve_string, follow, validate_inner, check_element, validate_elements, validate_packet_array,
  validate_batch, has_valid_root_offset,
}

-- The fields may stand anywhere; a header takes two bytes and an offset four.
abbrev pub format : Field → Field → Field → Field → Format
format message_batch message_packet batch_packets packet_payload = record {
  header_size = 2;
  offset_size = 4;
  message_batch = message_batch;
  message_packet = message_packet;
  batch_packets = batch_packets;
  packet_payload = packet_payload;
}

abbrev pub Any {ℓ} : {A : Type ℓ} → A → Type 0
Any a = Unit

pub within : (size pos len : ℕ) → in_bounds size pos len ≡ true → pos + len ≤ size
unfolding in_bounds
within size pos len h = ground arith

pub read_u16-Gives : (bytes : List ℕ) (i : ℕ) → i + 2 ≤ length bytes → Gives Any (read_u16 bytes i)
unfolding read_u16
read_u16-Gives bytes i h = bind-Gives (read bytes i) _ (read-Gives bytes i (omega arith)) (λ low _.
    bind-Gives (read bytes (i + 1)) _ (read-Gives bytes (i + 1) (omega arith))
      (λ high _. value _ tt))

pub read_u32-Gives : (bytes : List ℕ) (i : ℕ) → i + 4 ≤ length bytes → Gives Any (read_u32 bytes i)
unfolding read_u32
read_u32-Gives bytes i h =
    bind-Gives (read_u16 bytes i) _ (read_u16-Gives bytes i (omega arith)) (λ low _.
      bind-Gives (read_u16 bytes (i + 2)) _ (read_u16-Gives bytes (i + 2) (omega arith))
        (λ high _. value _ tt))

-- A read behind its test.
tested-Gives :
    {A : Type 0} (bytes : List ℕ) (i : ℕ) (refused : A) (next : ℕ → Checked A)
    → ((v : ℕ) → i + 4 ≤ length bytes → Gives Any (next v))
    → Gives Any (elim (in_bounds (length bytes) i 4) [
      | false ↦ checked refused
      | true ↦ read_u32 bytes i >>= next
    ])
tested-Gives bytes i refused next k =
    test-Gives (in_bounds (length bytes) i 4)
      (λ h.
        let room : i + 4 ≤ length bytes = within (length bytes) i 4 h in
        bind-Gives (read_u32 bytes i) next (read_u32-Gives bytes i room) (λ v _. k v room))
      (λ _. value refused tt)

option-Gives :
    {A B : Type 0} {x : Checked B} {f : A → Checked B} (o : Option A)
    → Gives Any x
    → ((a : A) → Gives Any (f a))
    → Gives Any (elim o [ none ↦ x | some a ↦ f a ])
option-Gives none h k = h
option-Gives (some a) h k = k a

follow-Gives :
    (field : Checked (Option ℕ)) (next : ℕ → Checked Bool)
    → Gives Any field
    → ((at : ℕ) → Gives Any (next at))
    → Gives Any (follow field next)
unfolding follow
follow-Gives field next g k = bind-Gives field _ g (λ target _.
    option-Gives target (value false tt)
      (λ at. test-Gives (at == 0) (λ _. value true tt) (λ _. k at)))

-- The text lies in the frame.
abbrev Holds : List ℕ → Option (ℕ × ℕ) → Type 0
Holds bytes none = Unit
Holds bytes (some t) = t.0 + t.1 ≤ length bytes

module _ (batch packet packets payload : Field) where
  resolve_field-Gives :
      (bytes : List ℕ) (message : ℕ) (field : Field)
      → Gives Any (resolve_field (format batch packet packets payload) bytes message field)
  unfolding resolve_field
  resolve_field-Gives bytes message field =
      test-Gives (in_bounds (length bytes) message 2)
        (λ h.
          bind-Gives (read_u16 bytes message) _
            (read_u16-Gives bytes message (within (length bytes) message 2 h))
            (λ typed_limit _.
              test-Gives (bit_and typed_limit 0x8000 == 0) (λ _. value none tt)
                (λ _.
                  test-Gives (leb typed_limit (flat_typed_limit field.id)) (λ _. value (some 0) tt)
                    (λ _. tested-Gives bytes _ none _ (λ pointer room. value _ tt)))))
        (λ _. value none tt)

  -- A text that is found lies in the frame.
  resolve_string-Gives :
      (bytes : List ℕ) (offset : ℕ)
      → Gives (Holds bytes) (resolve_string (format batch packet packets payload) bytes offset)
  unfolding resolve_string
  resolve_string-Gives bytes offset =
      test-Gives (in_bounds (length bytes) offset 4)
        (λ h.
          bind-Gives (read_u32 bytes offset) _
            (read_u32-Gives bytes offset (within (length bytes) offset 4 h))
            (λ len _. value _ (kept len ((offset + 4) % u32_mod))))
        (λ _. value none tt)
    where
      kept :
          (len at : ℕ)
          → Holds bytes (if in_bounds (length bytes) at len then some (at, len) else none)
      kept len at = elim (Bool-cases (in_bounds (length bytes) at len)) [
        | inl y ↦ rw y (within (length bytes) at len y)
        | inr n ↦ rw n tt
      ]

  validate_inner-Gives :
      (bytes : List ℕ) → Gives Any (validate_inner (format batch packet packets payload) bytes)
  unfolding validate_inner
  validate_inner-Gives bytes = tested-Gives bytes 0 false _ (λ root room.
      follow-Gives _ _ (resolve_field-Gives bytes root packet) (λ at.
        follow-Gives _ _ (resolve_field-Gives bytes at payload)
          (λ at'. bind-Gives _ _ (resolve_string-Gives bytes at') (λ text _. value _ tt))))

  check_element-Gives :
      (bytes : List ℕ) (table element : ℕ)
      → Gives Any (check_element (format batch packet packets payload) bytes table element)
  unfolding check_element
  check_element-Gives bytes table element =
      test-Gives (element == 0) (λ _. value true tt)
        (λ _.
          test-Gives (ltb (length bytes - table) element) (λ _. value false tt)
            (λ _. bind-Gives _ _ (resolve_string-Gives bytes _) (λ text inside. entry text inside)))
    where
      entry :
          (text : Option (ℕ × ℕ))
          → Holds bytes text
          → Gives {A = Bool} Any (elim text [
            | none ↦ checked false
            | some blob ↦ slice bytes blob.0 blob.1 >>= λ packet'.
                validate_inner (format batch packet packets payload) packet'
          ])
      entry none inside = value false tt
      entry (some blob) inside =
          bind-Gives (slice bytes blob.0 blob.1) _ (slice-Gives bytes blob.0 blob.1 inside)
            (λ packet' _. validate_inner-Gives packet')

  validate_elements-Gives :
      (rest : ℕ) (bytes : List ℕ) (table i : ℕ)
      → length bytes < u32_mod
      → table + (i + rest) * 4 ≤ length bytes
      → Gives Any (validate_elements (format batch packet packets payload) rest bytes table i)
  unfolding validate_elements
  validate_elements-Gives zero bytes table i small room = value true tt
  validate_elements-Gives (suc rest) bytes table i small room =
      let next = validate_elements-Gives rest bytes table (i + 1) small (omega arith) in
      bind-Gives (read_u32 bytes ((table + i * 4 % u32_mod) % u32_mod)) _
        (read_u32-Gives bytes ((table + i * 4 % u32_mod) % u32_mod) (omega arith))
        (λ element _.
          bind-Gives _ _ (check_element-Gives bytes table element)
            (λ good _. test-Gives good (λ _. next) (λ _. value false tt)))

  validate_packet_array-Gives :
      (bytes : List ℕ) (array : ℕ)
      → length bytes < u32_mod
      → Gives Any (validate_packet_array (format batch packet packets payload) bytes array)
  unfolding validate_packet_array
  validate_packet_array-Gives bytes array small = tested-Gives bytes array false _ (λ count room.
      test-Gives (ltb (length bytes / 4) count) (λ _. value false tt)
        (λ few.
          test-Gives (in_bounds (length bytes) ((array + 4) % u32_mod) (count * 4 % u32_mod))
            (λ h.
              let fits : count ≤ length bytes / 4 = ground arith in
              validate_elements-Gives count bytes ((array + 4) % u32_mod) 0 small
                (omega (arith, within _ _ _ h)))
            (λ _. value false tt)))

  root-Gives :
      (bytes : List ℕ)
      → Gives Any (has_valid_root_offset (format batch packet packets payload) bytes)
  unfolding has_valid_root_offset
  root-Gives bytes =
      test-Gives (ltb (length bytes) 4) (λ _. value false tt)
        (λ h.
          bind-Gives (read_u32 bytes 0) _ (read_u32-Gives bytes 0 (ground arith))
            (λ offset _. value _ tt))

  validate_batch-Gives :
      (bytes : List ℕ)
      → length bytes < u32_mod
      → Gives Any (validate_batch (format batch packet packets payload) bytes)
  unfolding validate_batch
  validate_batch-Gives bytes small = tested-Gives bytes 0 false _ (λ root room.
      follow-Gives _ _ (resolve_field-Gives bytes root batch) (λ at.
        follow-Gives _ _ (resolve_field-Gives bytes at packets)
          (λ array. validate_packet_array-Gives bytes array small)))

  -- Whatever bytes arrive, fewer than 2 ^ 32 of them, the test of the root and the check of the
  -- batch with every packet in it end, and read nothing outside the frame or the packet.
  pub validate-IsSafe :
      (bytes : List ℕ)
      → length bytes < u32_mod
      → IsSafe (has_valid_root_offset (format batch packet packets payload) bytes)
        × IsSafe (validate_batch (format batch packet packets payload) bytes)
  validate-IsSafe bytes small =
      let (found, root) = root-Gives bytes in
      let (good, checks) = validate_batch-Gives bytes small in ((found, root.0), (good, checks.0))
