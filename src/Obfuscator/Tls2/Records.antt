-- ===== src/Obfuscator/Tls2/Records.antt =====
-- Reading the records of tls_obfuscator2.cpp.
use fptn_keenetic.Base.{
  ℕ, ◌+◌, ◌^◌, ◌≤◌, ◌<◌, ◌≡◌, refl, ap, ◌∙◌, List, [], ◌∷◌, ◌++◌, arith, true, false, none, ltb,
  length, take, drop, length-append, take-append_left, drop-append_left,
}
use fptn_keenetic.Obfuscator.Wire.{
  write_uint16, read_uint16, write_uint32, read_uint32, write_uint64, apply_xor_transform, drop_add,
  take_add, uint16_digits, uint32_digits,
}
use fptn_keenetic.Obfuscator.Tls2.{
  TlsAppDataRecordHeader, header_size, read_header, write_header, is_fptn_protocol,
  full_record_size, Search, found, stopped, examine, search, output, conclude, deobfuscate,
  is_valid_protocol, check_protocol,
}

-- The numbers of a header fit their fields.
pub record IsHeader (h : TlsAppDataRecordHeader) : Type 0 where
  pub content : h.content_length < 2 ^ 16
  pub timestamp : h.timestamp < 2 ^ 32
  pub payload : h.payload_length < 2 ^ 16
  pub padding : h.padding_length < 2 ^ 16

pub read-write_header :
    (h : TlsAppDataRecordHeader) (random_data : ℕ) (body : List ℕ)
    → IsHeader h
    → read_header (write_header h random_data ++ body) ≡ h
unfolding read_header write_header read_uint16 read_uint32 write_uint16 write_uint32 write_uint64
read-write_header h random_data body fits = rw (
  uint16_digits h.content_length fits.content,
  uint32_digits h.timestamp fits.timestamp,
  uint16_digits h.payload_length fits.payload,
  uint16_digits h.padding_length fits.padding,
)

pub drop-write_header :
    (h : TlsAppDataRecordHeader) (random_data : ℕ) (body : List ℕ)
    → drop header_size (write_header h random_data ++ body) ≡ body
unfolding write_header write_uint16 write_uint32 write_uint64
drop-write_header h random_data body = refl

pub length-write_header :
    (h : TlsAppDataRecordHeader) (random_data : ℕ) (body : List ℕ)
    → length (write_header h random_data ++ body) ≡ 22 + length body
unfolding write_header write_uint16 write_uint32 write_uint64
length-write_header h random_data body = omega arith

pub take-write_header :
    (h : TlsAppDataRecordHeader) (random_data k : ℕ) (body : List ℕ)
    → take (22 + k) (write_header h random_data ++ body) ≡ write_header h random_data ++ take k body
unfolding write_header write_uint16 write_uint32 write_uint64
take-write_header h random_data k body = take_add 22 k (write_header h random_data ++ body)

-- At a reading of the clock.
module _ (now : ℕ) where
  pub deobfuscate-search :
      (bytes : List ℕ)
      → header_size ≤ length bytes
      → deobfuscate now bytes ≡ conclude bytes (search now bytes)
  unfolding deobfuscate
  deobfuscate-search bytes h = rw long
    where
      long : ltb (length bytes) header_size ≡ false
      long = ground arith

  pub search-examine :
      (bytes : List ℕ)
      → header_size ≤ length bytes
      → search now bytes ≡ examine now (read_header bytes) bytes (search now (drop 1 bytes))
  unfolding search
  search-examine [] h = absurd (omega arith)
  search-examine (b ∷ bytes) h = rw long
    where
      long : ltb (length (b ∷ bytes)) header_size ≡ false
      long = ground arith

  pub examine-found :
      (h : TlsAppDataRecordHeader) (bytes : List ℕ) (next : Search)
      → is_fptn_protocol now h ≡ true
      → 17 + h.payload_length + h.padding_length ≤ h.content_length
      → full_record_size h ≤ length bytes
      → examine now h bytes next
        ≡ found 0
            (apply_xor_transform (take h.payload_length (drop header_size bytes)) h.xor_key)
            (drop (full_record_size h) bytes)
  unfolding examine
  examine-found h bytes next p q r = ground arith

  pub examine-stopped :
      (h : TlsAppDataRecordHeader) (bytes : List ℕ) (next : Search)
      → is_fptn_protocol now h ≡ true
      → 17 + h.payload_length + h.padding_length ≤ h.content_length
      → length bytes < full_record_size h
      → examine now h bytes next ≡ stopped 0
  unfolding examine
  examine-stopped h bytes next p q r = ground arith

  -- A header of the protocol, for a payload and a padding of the lengths it names.
  pub record Announces (h : TlsAppDataRecordHeader) (payload padding : ℕ) : Type 0 where
    pub fits : IsHeader h
    pub protocol : is_fptn_protocol now h ≡ true
    pub content : 17 + payload + padding ≤ h.content_length
    pub payload_length : h.payload_length ≡ payload
    pub padding_length : h.padding_length ≡ padding

  pub full_record_size_lem :
      {h : TlsAppDataRecordHeader} {payload padding : ℕ}
      → Announces h payload padding
      → full_record_size h ≡ 22 + payload + padding
  unfolding full_record_size
  full_record_size_lem a = omega (arith, a.payload_length, a.padding_length)

  pub room_of :
      {h : TlsAppDataRecordHeader} {payload padding : ℕ}
      → Announces h payload padding
      → 17 + h.payload_length + h.padding_length ≤ h.content_length
  room_of a = omega (arith, a.content, a.payload_length, a.padding_length)

  -- A whole record is found by its first byte.
  pub search-whole :
      (h : TlsAppDataRecordHeader) (random_data : ℕ) (payload padding rest : List ℕ)
      → Announces h (length payload) (length padding)
      → search now (write_header h random_data ++ (payload ++ (padding ++ rest)))
        ≡ found 0 (apply_xor_transform payload h.xor_key) rest
  search-whole h random_data payload padding rest a =
      search-examine bytes (omega (arith, room))
      ∙ ap (λ g. examine now g bytes next) (read-write_header h random_data body a.fits)
      ∙ examine-found h bytes next a.protocol (room_of a)
          (omega (arith, room, full_record_size_lem a))
      ∙ rw (taken, left)
    where
      body : List ℕ
      body = payload ++ (padding ++ rest)

      bytes : List ℕ
      bytes = write_header h random_data ++ body

      next : Search
      next = search now (drop 1 bytes)

      room : length bytes ≡ 22 + (length payload + (length padding + length rest))
      room = omega (
        arith,
        length-write_header h random_data body,
        length-append payload (padding ++ rest),
        length-append padding rest,
      )

      taken : take h.payload_length (drop header_size bytes) ≡ payload
      taken =
          rw (drop-write_header h random_data body, a.payload_length)
            (take-append_left payload (padding ++ rest))

      left : drop (full_record_size h) bytes ≡ rest
      left =
          rw
            (
              full_record_size_lem a,
              drop_add (22 + length payload) (length padding) bytes,
              drop_add 22 (length payload) bytes,
              drop-write_header h random_data body,
              drop-append_left payload (padding ++ rest),
            )
            (drop-append_left padding rest)

  -- A whole record at the front of the buffer is taken off and its payload put out.
  pub deobfuscate-whole :
      (h : TlsAppDataRecordHeader) (random_data : ℕ) (payload padding rest : List ℕ)
      → Announces h (length payload) (length padding)
      → deobfuscate now (write_header h random_data ++ (payload ++ (padding ++ rest)))
        ≡ (rest, output (apply_xor_transform payload h.xor_key))
  unfolding conclude
  deobfuscate-whole h random_data payload padding rest a =
      deobfuscate-search bytes
        (omega (arith, length-write_header h random_data (payload ++ (padding ++ rest))))
      ∙ ap (conclude bytes) (search-whole h random_data payload padding rest a)
    where
      bytes : List ℕ
      bytes = write_header h random_data ++ (payload ++ (padding ++ rest))

  -- A record that has not arrived as a whole stays in the buffer.
  pub deobfuscate-part :
      (h : TlsAppDataRecordHeader) (random_data : ℕ) (payload padding : ℕ) (body : List ℕ)
      → Announces h payload padding
      → length body < payload + padding
      → deobfuscate now (write_header h random_data ++ body)
        ≡ (write_header h random_data ++ body, none)
  unfolding conclude
  deobfuscate-part h random_data payload padding body a less =
      deobfuscate-search bytes (omega (arith, length-write_header h random_data body))
      ∙ ap (conclude bytes)
          (search-examine bytes (omega (arith, length-write_header h random_data body)))
      ∙ ap (λ g. conclude bytes (examine now g bytes next))
          (read-write_header h random_data body a.fits)
      ∙ ap (conclude bytes) (
          examine-stopped h bytes next a.protocol (room_of a)
            (omega (arith, length-write_header h random_data body, full_record_size_lem a)))
    where
      bytes : List ℕ
      bytes = write_header h random_data ++ body

      next : Search
      next = search now (drop 1 bytes)

  pub deobfuscate-short :
      (bytes : List ℕ) → length bytes < header_size → deobfuscate now bytes ≡ (bytes, none)
  unfolding deobfuscate
  deobfuscate-short bytes h = ground arith

  pub check_protocol-header :
      (bytes : List ℕ)
      → header_size ≤ length bytes
      → check_protocol now bytes ≡ is_valid_protocol now (read_header bytes)
  unfolding check_protocol
  check_protocol-header bytes h = ground arith
