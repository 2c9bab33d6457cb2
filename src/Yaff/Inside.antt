-- ===== src/Yaff/Inside.antt =====
-- What a frame that passes the check of src/fptn-protocol-lib/protocol/yaff/yaff_serializer.cpp is
-- like, when the path to a packet is followed without any check.
use fptn_keenetic.Base.{
  none, ◌-◌, ◌%◌, ◌==◌, ltb, leb, if◌then◌else◌, zero, suc, ap, ◌∷◌, Option, Bool, bit_and, ℕ, ◌+◌,
  ◌*◌, ◌≤◌, ◌<◌, ◌≡◌, ◌≢◌, inl, inr, [], refl, sym, ◌∙◌, List, some, true, false, length, take,
  drop, length-take, Option-cases, arith,
}
use fptn_keenetic.Packet.Reader.{Checked, checked, out_of_bounds, read}
use fptn_keenetic.Yaff.{
  Field, Format, u32_mod, read_u16, read_u32, flat_typed_limit, follow, in_bounds, resolve_field,
  resolve_string, validate_inner, validate_packet_array, validate_batch,
}
use fptn_keenetic.Yaff.Safety.{format}
use fptn_keenetic.Yaff.Inverse.{
  bind-eq-checked, checked_injective, tested_inverse, follow-some, resolve_string-inverse,
  packet_array-inverse, elements_inverse, check_element-inverse,
}

-- The text at a place, its length before it.
abbrev pub text : List ℕ → ℕ → List ℕ
text bytes i = elim (read_u32 bytes i) [
  | checked len ↦ take len (drop (i + 4) bytes)
  | out_of_bounds ↦ []
]

-- A reader of the flat message at `message` finds a field that is present: the message announces
-- fields up to it, and its offset is not 0 and leads from the message to `target`.
pub record Reads (bytes : List ℕ) (message : ℕ) (field : Field) (target : ℕ) : Type 0 where
  pub typed_limit : ℕ
  pub pointer : ℕ
  pub announced : read_u16 bytes message ≡ checked typed_limit
  pub present : flat_typed_limit field.id < typed_limit
  pub offset : read_u32 bytes (message + 2 + field.offset) ≡ checked pointer
  pub not_null : 0 < pointer
  pub leads : target ≡ message + pointer

-- The layout of the message is flat, and the field lies in the frame.
abbrev pub IsFlat :
    {bytes : List ℕ} {message : ℕ} {field : Field} {target : ℕ}
    → Reads bytes message field target
    → Type 0
IsFlat {bytes} {target = target} r = (bit_and r.typed_limit 0x8000 ≢ 0) × (target ≤ length bytes)

-- A way from the root of a frame to a packet of its batch.
pub record PacketPath (format : Format) (bytes : List ℕ) : Type 0 where
  pub root : ℕ
  pub batch : ℕ
  pub array : ℕ
  pub count : ℕ
  pub index : ℕ
  pub element : ℕ
  pub at_root : read_u32 bytes 0 ≡ checked root
  pub to_batch : Reads bytes root format.message_batch batch
  pub to_array : Reads bytes batch format.batch_packets array
  pub to_count : read_u32 bytes array ≡ checked count
  pub below : index < count
  pub to_element : read_u32 bytes (array + 4 + index * 4) ≡ checked element
  pub has_element : element ≢ 0

-- A way from the root of a packet to its payload.
pub record PayloadPath (format : Format) (bytes : List ℕ) : Type 0 where
  pub root : ℕ
  pub packet : ℕ
  pub payload : ℕ
  pub at_root : read_u32 bytes 0 ≡ checked root
  pub to_packet : Reads bytes root format.message_packet packet
  pub to_payload : Reads bytes packet format.packet_payload payload

read-below : (bytes : List ℕ) (i v : ℕ) → read bytes i ≡ checked v → i < length bytes
unfolding read
read-below [] i v h = ground arith
read-below (b ∷ bytes) zero v h = omega arith
read-below (b ∷ bytes) (suc i) v h = omega (arith, read-below bytes i v h)

read_u32-below : (bytes : List ℕ) (i v : ℕ) → read_u32 bytes i ≡ checked v → i + 2 < length bytes
unfolding read_u32 read_u16
read_u32-below bytes i v h =
    let (low, _, k) = bind-eq-checked (read_u16 bytes i) _ h in
    let (high, e, _) = bind-eq-checked (read_u16 bytes (i + 2)) _ k in
    let (b, e', _) = bind-eq-checked (read bytes (i + 2)) _ e in read-below bytes (i + 2) b e'

unless_none :
    {t : ℕ} (b : Bool) (c : Checked (Option ℕ))
    → (elim b [ false ↦ checked none | true ↦ c ]) ≡ checked (some t)
    → (b ≡ true) × (c ≡ checked (some t))
unless_none true c h = (refl, h)
unless_none false c h = cc

if_none :
    {t : ℕ} (b : Bool) (c : Checked (Option ℕ))
    → (elim b [ true ↦ checked none | false ↦ c ]) ≡ checked (some t)
    → (b ≡ false) × (c ≡ checked (some t))
if_none true c h = cc
if_none false c h = (refl, h)

if_zero :
    {t : ℕ} (b : Bool) (c : Checked (Option ℕ))
    → b ≡ false
    → (elim b [ true ↦ checked (some 0) | false ↦ c ]) ≡ checked (some t)
    → c ≡ checked (some t)
if_zero true c e h = cc
if_zero false c e h = h

unless_far :
    (b : Bool) (x t : ℕ)
    → checked (if b then none else some x) ≡ checked (some t)
    → (b ≡ false) × (x ≡ t)
unless_far true x t h = cc
unless_far false x t h = (refl, cc)

-- Where what follows on a field passes, the field is not bad.
follow-inverse :
    (field : Checked (Option ℕ)) (next : ℕ → Checked Bool)
    → follow field next ≡ checked true
    → (target : ℕ) × (field ≡ checked (some target))
unfolding follow
follow-inverse field next h =
    let (o, e, k) = bind-eq-checked field _ h in
    elim (Option-cases o) [
      | inl bad ↦ cc (rw bad at k)
      | inr (target, good) ↦ (target, e ∙ ap (λ x. checked x) good)
    ]

module _ (batch packet packets payload : Field) where
  resolve_field-Reads :
      (bytes : List ℕ) (message : ℕ) (field : Field) (target t : ℕ)
      → length bytes < u32_mod
      → (r : Reads bytes message field target)
      → resolve_field (format batch packet packets payload) bytes message field ≡ checked (some t)
      → (t ≡ target) × IsFlat r
  unfolding resolve_field
  resolve_field-Reads bytes message field target t small r h =
      let (_, k) = unless_none (in_bounds (length bytes) message 2) _ h in
      let (limit, read_limit, k1) = bind-eq-checked (read_u16 bytes message) _ k in
      let is_limit : limit ≡ r.typed_limit =
        checked_injective limit r.typed_limit (sym read_limit ∙ r.announced) in
      let (layout, k2) = if_none (bit_and limit 0x8000 == 0) _ k1 in
      let above : leb limit (flat_typed_limit field.id) ≡ false =
        ground (arith, r.present, is_limit) in
      let k3 = if_zero (leb limit (flat_typed_limit field.id)) _ above k2 in
      let inside = read_u32-below bytes (message + 2 + field.offset) r.pointer r.offset in
      let place : (message + 2 + field.offset) % u32_mod ≡ message + 2 + field.offset =
        omega arith in
      let (_, k4) =
        unless_none (in_bounds (length bytes) ((message + 2 + field.offset) % u32_mod) 4) _ k3 in
      let (pointer, read_pointer, k5) =
        bind-eq-checked (read_u32 bytes ((message + 2 + field.offset) % u32_mod)) _ k4 in
      let is_pointer : pointer ≡ r.pointer =
        checked_injective pointer r.pointer (sym (rw place at read_pointer) ∙ r.offset) in
      let not_null : (pointer == 0) ≡ false = ground (arith, r.not_null, is_pointer) in
      let k6 : checked (
            if ltb (length bytes - message) pointer
            then none
            else some ((message + pointer) % u32_mod))
          ≡ checked (some t) =
        rw not_null at k5 in
      let (near, leads) = unless_far (ltb (length bytes - message) pointer) _ t k6 in
      let fits : message + pointer ≤ length bytes = ground (arith, near, inside) in
      (
        omega (arith, leads, fits, r.leads, is_pointer),
        (
          λ none_set. ground (arith, layout, none_set, is_limit),
          omega (arith, fits, r.leads, is_pointer),
        ),
      )

  follow-Reads :
      (bytes : List ℕ) (message : ℕ) (field : Field) (target : ℕ) (next : ℕ → Checked Bool)
      → length bytes < u32_mod
      → (r : Reads bytes message field target)
      → follow (resolve_field (format batch packet packets payload) bytes message field) next
        ≡ checked true
      → IsFlat r × (next target ≡ checked true)
  follow-Reads bytes message field target next small r h =
      let (t, e) = follow-inverse _ next h in
      let (same, flat) = resolve_field-Reads bytes message field target t small r e in
      let ne : target ≢ 0 = λ z. omega (arith, r.leads, r.not_null, z) in
      (flat, follow-some _ next target (e ∙ ap (λ x. checked (some x)) same) ne h)

module _ (batch packet packets payload : Field) where
  payload_inverse :
      (bytes : List ℕ)
      → length bytes < u32_mod
      → validate_inner (format batch packet packets payload) bytes ≡ checked true
      → (q : PayloadPath (format batch packet packets payload) bytes)
      → (n : ℕ) × (read_u32 bytes q.payload ≡ checked n)
        × (q.payload + 4 + n ≤ length bytes)
        × IsFlat q.to_packet
        × IsFlat q.to_payload
  unfolding validate_inner
  payload_inverse bytes small h q =
      let (root, _, read, k) = tested_inverse bytes 0 false _ h (λ e. cc) in
      let same : root ≡ q.root = checked_injective root q.root (sym read ∙ q.at_root) in
      let (flat, k1) =
        follow-Reads batch packet packets payload bytes q.root packet q.packet _ small q.to_packet
          (rw same at k) in
      let (flat', k2) =
        follow-Reads batch packet packets payload bytes q.packet payload q.payload _ small
          q.to_payload k1 in
      let (t, resolved, k3) =
        bind-eq-checked (resolve_string (format batch packet packets payload) bytes q.payload) _
          k2 in
      elim (Option-cases t) [
        | inl missing ↦ cc (rw missing at k3)
        | inr ((at, n), is_text) ↦
            let (_, size, room) =
              resolve_string-inverse batch packet packets payload bytes q.payload (at, n) small
                (rw is_text at resolved) in
            (n, size, room, flat, flat')
      ]

  array_good :
      (bytes : List ℕ)
      → length bytes < u32_mod
      → validate_batch (format batch packet packets payload) bytes ≡ checked true
      → (p : PacketPath (format batch packet packets payload) bytes)
      → (validate_packet_array (format batch packet packets payload) bytes p.array ≡ checked true)
        × IsFlat p.to_batch
        × IsFlat p.to_array
  unfolding validate_batch
  array_good bytes small h p =
      let (root, _, read, k) = tested_inverse bytes 0 false _ h (λ e. cc) in
      let same : root ≡ p.root = checked_injective root p.root (sym read ∙ p.at_root) in
      let (flat, k1) =
        follow-Reads batch packet packets payload bytes p.root batch p.batch _ small p.to_batch
          (rw same at k) in
      let (flat', k2) =
        follow-Reads batch packet packets payload bytes p.batch packets p.array _ small p.to_array
          k1 in
      (k2, flat, flat')

  packet_inside :
      (bytes : List ℕ)
      → length bytes < u32_mod
      → validate_batch (format batch packet packets payload) bytes ≡ checked true
      → (p : PacketPath (format batch packet packets payload) bytes)
      → (len : ℕ) × (read_u32 bytes (p.array + 4 + p.element) ≡ checked len)
        × (p.array + 4 + p.element + 4 + len ≤ length bytes)
        × (validate_inner
              (format batch packet packets payload)
              (take len (drop (p.array + 4 + p.element + 4) bytes))
            ≡ checked true)
  packet_inside bytes small h p =
      let (room, all) =
        packet_array-inverse batch packet packets payload bytes p.array p.count small
          (array_good bytes small h p).0 p.to_count in
      let here =
        elements_inverse batch packet packets payload p.count bytes (p.array + 4) 0 p.index
          p.element small (omega (arith, room)) all (omega arith) (omega (arith, p.below))
          p.to_element in
      check_element-inverse batch packet packets payload bytes (p.array + 4) p.element small
        (omega (arith, room)) here p.has_element

  -- In an accepted frame, fewer than 2 ^ 32 bytes long, whoever follows the offsets of the fields that
  -- are announced and not null to any packet of the batch, and in it to its payload, finds the sizes
  -- and all bytes of the packet inside the frame and of the payload inside the packet. All fields on
  -- the way lie inside, and all messages have the flat layout.
  pub validate_batch-inside :
      (bytes : List ℕ)
      → length bytes < u32_mod
      → validate_batch (format batch packet packets payload) bytes ≡ checked true
      → (p : PacketPath (format batch packet packets payload) bytes)
      → (q : PayloadPath
          (format batch packet packets payload)
          (text bytes (p.array + 4 + p.element)))
      → (len : ℕ) × (read_u32 bytes (p.array + 4 + p.element) ≡ checked len)
        × (p.array + 4 + p.element + 4 + len ≤ length bytes)
        × ((n : ℕ) × (read_u32 (text bytes (p.array + 4 + p.element)) q.payload ≡ checked n)
            × (q.payload + 4 + n ≤ len))
        × ((IsFlat p.to_batch × IsFlat p.to_array) × (IsFlat q.to_packet × IsFlat q.to_payload))
  validate_batch-inside bytes small h p q =
      let (len, read, room, inner) = packet_inside bytes small h p in
      let is_text : text bytes (p.array + 4 + p.element)
          ≡ take len (drop (p.array + 4 + p.element + 4) bytes) =
        rw (read, text) refl in
      let short : length (text bytes (p.array + 4 + p.element)) ≤ len =
        rw is_text (omega (arith, length-take len (drop (p.array + 4 + p.element + 4) bytes))) in
      let (n, size, fits, flat, flat') =
        payload_inverse _ (omega arith) (rw (← is_text) at inner) q in
      let (_, above, above') = array_good bytes small h p in
      (len, read, room, (n, size, omega arith), ((above, above'), (flat, flat')))
