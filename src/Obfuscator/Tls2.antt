-- ===== src/Obfuscator/Tls2.antt =====
-- src/fptn-protocol-lib/https/obfuscator/methods/tls2/tls_obfuscator2.cpp. Records carry the time
-- at which they were made; `now` is the reading of the clock of a call, in seconds.
pub mod Records
pub mod Roundtrip
pub mod Resync
use fptn_keenetic.Base.{
  ℕ, zero, suc, ◌+◌, ◌-◌, ◌*◌, ◌/◌, ◌%◌, ◌^◌, ◌≤◌, ◌<◌, ◌≡◌, refl, ap, ◌∙◌, sym, List, [], ◌∷◌,
  ◌++◌, arith, Bool, true, false, not, Option, none, some, ◌&&◌, ◌==◌, ltb, leb, if◌then◌else◌, All,
  length, get_or, take, drop,
}
use fptn_keenetic.Obfuscator.Wire.{
  IsByte, write_uint16, read_uint16, write_uint32, read_uint32, write_uint64, apply_xor_transform,
  add_bounded,
}

pub record TlsAppDataRecordHeader : Type 0 where
  pub headertype : ℕ
  pub headermajor : ℕ
  pub headerminor : ℕ
  pub content_length : ℕ
  pub timestamp : ℕ
  pub xor_key : ℕ
  pub payload_length : ℕ
  pub padding_length : ℕ

-- `sizeof(TLSAppDataRecordHeader)`.
abbrev pub header_size : ℕ
header_size = 22

-- The header of the packed struct, read from the first bytes; the random data is never looked at.
unfoldable pub read_header : List ℕ → TlsAppDataRecordHeader
unfolding read_uint16 read_uint32
read_header bytes = record {
  headertype = get_or bytes 0 0;
  headermajor = get_or bytes 1 0;
  headerminor = get_or bytes 2 0;
  content_length = read_uint16 bytes 3;
  timestamp = read_uint32 bytes 13;
  xor_key = get_or bytes 17 0;
  payload_length = read_uint16 bytes 18;
  padding_length = read_uint16 bytes 20;
}

unfoldable pub write_header : TlsAppDataRecordHeader → ℕ → List ℕ
unfolding write_uint16 write_uint32 write_uint64
write_header h random_data =
    (h.headertype ∷ h.headermajor ∷ h.headerminor ∷ [])
    ++ write_uint16 h.content_length
    ++ write_uint64 random_data
    ++ write_uint32 h.timestamp
    ++ (h.xor_key ∷ [])
    ++ write_uint16 h.payload_length
    ++ write_uint16 h.padding_length

-- `std::uint32_t` wraps.
unfoldable pub is_valid_timestamp : ℕ → ℕ → Bool
is_valid_timestamp now timestamp =
    leb timestamp ((now + 10) % 2 ^ 32) && leb now ((timestamp + 10) % 2 ^ 32)

-- What `Obfuscate` draws: the padding and its length, the key and the data of the header, and the time
-- that it reads.
pub record Random : Type 0 where
  pub padding : List ℕ
  pub xor_key : ℕ
  pub random_data : ℕ
  pub timestamp : ℕ

unfoldable pub header_of : Random → List ℕ → TlsAppDataRecordHeader
header_of r message = record {
  headertype = 0x17;
  headermajor = 3;
  headerminor = 3;
  content_length = (17 + length message % 2 ^ 16 + length r.padding) % 2 ^ 16;
  timestamp = r.timestamp;
  xor_key = r.xor_key;
  payload_length = length message % 2 ^ 16;
  padding_length = length r.padding;
}

-- `Obfuscate`; the record is never empty, so there always is one.
unfoldable pub obfuscate : Random → List ℕ → List ℕ
unfolding header_of write_header apply_xor_transform
obfuscate r message =
    write_header (header_of r message) r.random_data
    ++ (apply_xor_transform message r.xor_key ++ r.padding)

unfoldable pub is_fptn_protocol : ℕ → TlsAppDataRecordHeader → Bool
unfolding is_valid_timestamp
is_fptn_protocol now h =
    is_valid_timestamp now h.timestamp && h.headermajor == 3 && h.headerminor == 3

unfoldable pub full_record_size : TlsAppDataRecordHeader → ℕ
full_record_size h = header_size + h.payload_length + h.padding_length

-- How the search of `Deobfuscate` ends: on a record or with none, at an offset.
pub data Search : Type 0 where
  found : ℕ → List ℕ → List ℕ → Search
  stopped : ℕ → Search

abbrev pub shifted : Search → Search
shifted (found offset payload rest) = found (offset + 1) payload rest
shifted (stopped offset) = stopped (offset + 1)

-- A round of the loop, at the header `h` of the bytes from the search offset on; `next` is how the
-- search ends from the next byte on. `found` has the payload and what follows the record.
unfoldable pub examine : ℕ → TlsAppDataRecordHeader → List ℕ → Search → Search
unfolding is_fptn_protocol full_record_size apply_xor_transform
examine now h bytes next =
    if not (is_fptn_protocol now h)
    then shifted next
    else if ltb h.content_length (17 + h.payload_length + h.padding_length)
    then shifted next
    else if ltb (length bytes) (full_record_size h)
    then stopped 0
    else found 0 (apply_xor_transform (take h.payload_length (drop header_size bytes)) h.xor_key)
        (drop (full_record_size h) bytes)

-- The loop, on the bytes from the search offset on. All readings of the clock in one call are taken
-- to be the same.
unfoldable pub search : ℕ → List ℕ → Search
unfolding read_header examine
search now [] = stopped 0
search now (b ∷ bytes) =
    let next = search now bytes in
    if ltb (length (b ∷ bytes)) header_size
    then stopped 0
    else examine now (read_header (b ∷ bytes)) (b ∷ bytes) next

-- An empty output is no output.
abbrev pub output : List ℕ → Option (List ℕ)
output [] = none
output (b ∷ bytes) = some (b ∷ bytes)

-- What `Deobfuscate` does with the outcome: the input buffer afterwards, and the output. What
-- stands before a record stays.
unfoldable pub conclude : List ℕ → Search → List ℕ × Option (List ℕ)
conclude input_buffer (found offset payload rest) =
    (take offset input_buffer ++ rest, output payload)
conclude input_buffer (stopped offset) = (drop offset input_buffer, none)

unfoldable pub deobfuscate : ℕ → List ℕ → List ℕ × Option (List ℕ)
unfolding search conclude
deobfuscate now input_buffer =
    if ltb (length input_buffer) header_size
    then (input_buffer, none)
    else conclude input_buffer (search now input_buffer)

unfoldable pub add_data : List ℕ → List ℕ → List ℕ × Bool
unfolding add_bounded
add_data = add_bounded (1024 * 256)

unfoldable pub reset : List ℕ → List ℕ
reset input_buffer = []

unfoldable pub has_pending_data : List ℕ → Bool
has_pending_data [] = false
has_pending_data (b ∷ bytes) = true

unfoldable pub is_valid_protocol : ℕ → TlsAppDataRecordHeader → Bool
unfolding is_valid_timestamp
is_valid_protocol now h =
    h.headertype == 0x17
    && h.headermajor == 3
    && h.headerminor == 3
    && is_valid_timestamp now h.timestamp
    && leb (17 + h.payload_length + h.padding_length) h.content_length
    && leb h.content_length 16384

unfoldable pub check_protocol : ℕ → List ℕ → Bool
unfolding read_header is_valid_protocol
check_protocol now bytes =
    if ltb (length bytes) header_size then false else is_valid_protocol now (read_header bytes)
