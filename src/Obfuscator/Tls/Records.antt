-- ===== src/Obfuscator/Tls/Records.antt =====
-- Reading the records of tls_obfuscator.cpp.
use fptn_keenetic.Base.{
  ℕ, ◌+◌, ◌^◌, ◌≤◌, ◌<◌, ◌≡◌, refl, ap, ◌∙◌, List, [], ◌∷◌, ◌++◌, arith, true, none, length, take,
  drop, length-append, take-append_left, drop-append_left,
}
use fptn_keenetic.Obfuscator.Wire.{
  write_uint16, read_uint16, write_uint64, apply_xor_transform, drop_add, take_add, uint16_digits,
}
use fptn_keenetic.Obfuscator.Tls.{
  TlsAppDataRecordHeader, header_size, read_header, write_header, is_fptn_protocol,
  full_record_size, Search, found, stopped, examine, search, output, conclude, deobfuscate,
  is_valid_protocol, check_protocol,
}

-- The numbers of a header fit their fields.
pub record IsHeader (h : TlsAppDataRecordHeader) : Type 0 where
  pub content : h.content_length < 2 ^ 16
  pub magic : h.magic_flag < 2 ^ 16
  pub payload : h.payload_length < 2 ^ 16

pub read-write_header :
    (h : TlsAppDataRecordHeader) (random_data : ℕ) (body : List ℕ)
    → IsHeader h
    → read_header (write_header h random_data ++ body) ≡ h
unfolding read_header write_header read_uint16 write_uint16 write_uint64
read-write_header h random_data body fits = rw (
  uint16_digits h.content_length fits.content,
  uint16_digits h.magic_flag fits.magic,
  uint16_digits h.payload_length fits.payload,
)

pub drop-write_header :
    (h : TlsAppDataRecordHeader) (random_data : ℕ) (body : List ℕ)
    → drop header_size (write_header h random_data ++ body) ≡ body
unfolding write_header write_uint16 write_uint64
drop-write_header h random_data body = refl

pub length-write_header :
    (h : TlsAppDataRecordHeader) (random_data : ℕ) (body : List ℕ)
    → length (write_header h random_data ++ body) ≡ 20 + length body
unfolding write_header write_uint16 write_uint64
length-write_header h random_data body = omega arith

pub deobfuscate-examine :
    (bytes : List ℕ)
    → header_size ≤ length bytes
    → deobfuscate bytes ≡ conclude bytes (examine (read_header bytes) bytes (search (drop 1 bytes)))
unfolding deobfuscate search
deobfuscate-examine [] h = absurd (omega arith)
deobfuscate-examine (b ∷ bytes) h = ground arith

pub examine-found :
    (h : TlsAppDataRecordHeader) (bytes : List ℕ) (next : Search)
    → is_fptn_protocol h ≡ true
    → 15 ≤ h.content_length
    → full_record_size h ≤ length bytes
    → examine h bytes next
      ≡ found 0
          (apply_xor_transform (take h.payload_length (drop header_size bytes)) h.xor_key)
          (drop (full_record_size h) bytes)
unfolding examine
examine-found h bytes next p q r = ground arith

pub examine-stopped :
    (h : TlsAppDataRecordHeader) (bytes : List ℕ) (next : Search)
    → is_fptn_protocol h ≡ true
    → 15 ≤ h.content_length
    → length bytes < full_record_size h
    → examine h bytes next ≡ stopped 0
unfolding examine
examine-stopped h bytes next p q r = ground arith

-- A header of the protocol, for a payload and a padding of the lengths it names.
pub record Announces (h : TlsAppDataRecordHeader) (payload padding : ℕ) : Type 0 where
  pub fits : IsHeader h
  pub protocol : is_fptn_protocol h ≡ true
  pub content : 15 ≤ h.content_length
  pub payload_length : h.payload_length ≡ payload
  pub padding_length : h.padding_length ≡ padding

pub full_record_size_lem :
    {h : TlsAppDataRecordHeader} {payload padding : ℕ}
    → Announces h payload padding
    → full_record_size h ≡ 20 + payload + padding
unfolding full_record_size
full_record_size_lem a = omega (arith, a.payload_length, a.padding_length)

-- A whole record at the front of the buffer is taken off and its payload put out.
pub deobfuscate-whole :
    (h : TlsAppDataRecordHeader) (random_data : ℕ) (payload padding rest : List ℕ)
    → Announces h (length payload) (length padding)
    → deobfuscate (write_header h random_data ++ (payload ++ (padding ++ rest)))
      ≡ (rest, output (apply_xor_transform payload h.xor_key))
unfolding conclude
deobfuscate-whole h random_data payload padding rest a =
    deobfuscate-examine bytes (omega (arith, room))
    ∙ ap (λ g. conclude bytes (examine g bytes next)) (read-write_header h random_data body a.fits)
    ∙ ap (conclude bytes) (
        examine-found h bytes next a.protocol a.content
          (omega (arith, room, full_record_size_lem a)))
    ∙ rw (taken, left)
  where
    body : List ℕ
    body = payload ++ (padding ++ rest)

    bytes : List ℕ
    bytes = write_header h random_data ++ body

    next : Search
    next = search (drop 1 bytes)

    room : length bytes ≡ 20 + (length payload + (length padding + length rest))
    room = omega (
      arith,
      length-write_header h random_data body,
      length-append payload (padding ++ rest),
      length-append padding rest,
    )

    taken : take h.payload_length (drop header_size bytes) ≡ payload
    taken =
        rw (drop-write_header h random_data body, a.payload_length)
          (take-append_left payload (padding ++ rest))

    left : drop (full_record_size h) bytes ≡ rest
    left =
        rw
          (
            full_record_size_lem a,
            drop_add (20 + length payload) (length padding) bytes,
            drop_add 20 (length payload) bytes,
            drop-write_header h random_data body,
            drop-append_left payload (padding ++ rest),
          )
          (drop-append_left padding rest)

-- A record that has not arrived as a whole stays in the buffer.
pub deobfuscate-part :
    (h : TlsAppDataRecordHeader) (random_data : ℕ) (payload padding : ℕ) (body : List ℕ)
    → Announces h payload padding
    → length body < payload + padding
    → deobfuscate (write_header h random_data ++ body) ≡ (write_header h random_data ++ body, none)
unfolding conclude
deobfuscate-part h random_data payload padding body a less =
    deobfuscate-examine bytes (omega (arith, length-write_header h random_data body))
    ∙ ap (λ g. conclude bytes (examine g bytes next)) (read-write_header h random_data body a.fits)
    ∙ ap (conclude bytes) (
        examine-stopped h bytes next a.protocol a.content
          (omega (arith, length-write_header h random_data body, full_record_size_lem a)))
  where
    bytes : List ℕ
    bytes = write_header h random_data ++ body

    next : Search
    next = search (drop 1 bytes)

pub deobfuscate-short :
    (bytes : List ℕ) → length bytes < header_size → deobfuscate bytes ≡ (bytes, none)
unfolding deobfuscate
deobfuscate-short bytes h = ground arith

pub take-write_header :
    (h : TlsAppDataRecordHeader) (random_data k : ℕ) (body : List ℕ)
    → take (20 + k) (write_header h random_data ++ body) ≡ write_header h random_data ++ take k body
unfolding write_header write_uint16 write_uint64
take-write_header h random_data k body = take_add 20 k (write_header h random_data ++ body)

pub check_protocol-header :
    (bytes : List ℕ)
    → header_size ≤ length bytes
    → check_protocol bytes ≡ is_valid_protocol (read_header bytes)
unfolding check_protocol
check_protocol-header bytes h = ground arith
