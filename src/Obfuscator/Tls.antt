-- ===== src/Obfuscator/Tls.antt =====
-- src/fptn-protocol-lib/https/obfuscator/methods/tls/tls_obfuscator.cpp.
pub mod Records
pub mod Roundtrip
use fptn_keenetic.Base.{
  ℕ, zero, suc, ◌+◌, ◌-◌, ◌*◌, ◌/◌, ◌%◌, ◌^◌, ◌≤◌, ◌<◌, ◌≡◌, refl, ap, ◌∙◌, sym, List, [], ◌∷◌,
  ◌++◌, arith, Bool, true, false, not, Option, none, some, ◌&&◌, ◌==◌, ltb, leb, if◌then◌else◌, All,
  length, get_or, take, drop,
}
use fptn_keenetic.Obfuscator.Wire.{
  IsByte, write_uint16, read_uint16, write_uint64, apply_xor_transform, add_bounded,
}

pub record TlsAppDataRecordHeader : Type 0 where
  pub headertype : ℕ
  pub headermajor : ℕ
  pub headerminor : ℕ
  pub content_length : ℕ
  pub magic_flag : ℕ
  pub protocol_version : ℕ
  pub xor_key : ℕ
  pub payload_length : ℕ
  pub padding_length : ℕ

-- `sizeof(TLSAppDataRecordHeader)`.
abbrev pub header_size : ℕ
header_size = 20

-- The header of the packed struct, read from the first bytes; the random data is never looked at.
unfoldable pub read_header : List ℕ → TlsAppDataRecordHeader
unfolding read_uint16
read_header bytes = record {
  headertype = get_or bytes 0 0;
  headermajor = get_or bytes 1 0;
  headerminor = get_or bytes 2 0;
  content_length = read_uint16 bytes 3;
  magic_flag = read_uint16 bytes 13;
  protocol_version = get_or bytes 15 0;
  xor_key = get_or bytes 16 0;
  payload_length = read_uint16 bytes 17;
  padding_length = get_or bytes 19 0;
}

unfoldable pub write_header : TlsAppDataRecordHeader → ℕ → List ℕ
unfolding write_uint16 write_uint64
write_header h random_data =
    (h.headertype ∷ h.headermajor ∷ h.headerminor ∷ [])
    ++ write_uint16 h.content_length
    ++ write_uint64 random_data
    ++ write_uint16 h.magic_flag
    ++ (h.protocol_version ∷ h.xor_key ∷ [])
    ++ write_uint16 h.payload_length
    ++ (h.padding_length ∷ [])

-- What `Obfuscate` draws: the padding and its length, the key and the data of the header.
pub record Random : Type 0 where
  pub padding : List ℕ
  pub xor_key : ℕ
  pub random_data : ℕ

unfoldable pub header_of : Random → List ℕ → TlsAppDataRecordHeader
header_of r message = record {
  headertype = 0x17;
  headermajor = 3;
  headerminor = 3;
  content_length = (15 + length message % 2 ^ 16 + length r.padding) % 2 ^ 16;
  magic_flag = 0x9763;
  protocol_version = 1;
  xor_key = r.xor_key;
  payload_length = length message % 2 ^ 16;
  padding_length = length r.padding;
}

-- `Obfuscate`; the record is never empty, so there always is one.
unfoldable pub obfuscate : Random → List ℕ → List ℕ
unfolding header_of write_header apply_xor_transform
obfuscate r message =
    write_header (header_of r message) r.random_data
    ++ (apply_xor_transform message r.xor_key ++ r.padding)

unfoldable pub is_fptn_protocol : TlsAppDataRecordHeader → Bool
is_fptn_protocol h =
    h.magic_flag == 0x9763 && h.protocol_version == 1 && h.headermajor == 3 && h.headerminor == 3

unfoldable pub full_record_size : TlsAppDataRecordHeader → ℕ
full_record_size h = header_size + h.payload_length + h.padding_length

-- How the search of `Deobfuscate` ends: on data of another protocol, on a record, or with none, at
-- an offset.
pub data Search : Type 0 where
  foreign : Search
  found : ℕ → List ℕ → List ℕ → Search
  stopped : ℕ → Search

abbrev pub shifted : Search → Search
shifted foreign = foreign
shifted (found offset payload rest) = found (offset + 1) payload rest
shifted (stopped offset) = stopped (offset + 1)

-- A round of the loop, at the header `h` of the bytes from the search offset on; `next` is how the
-- search ends from the next byte on. `found` has the payload and what follows the record.
unfoldable pub examine : TlsAppDataRecordHeader → List ℕ → Search → Search
unfolding is_fptn_protocol full_record_size apply_xor_transform
examine h bytes next =
    if not (is_fptn_protocol h)
    then foreign
    else if ltb h.content_length 15
    then shifted next
    else if ltb (length bytes) (full_record_size h)
    then stopped 0
    else found 0 (apply_xor_transform (take h.payload_length (drop header_size bytes)) h.xor_key)
        (drop (full_record_size h) bytes)

-- The loop, on the bytes from the search offset on.
unfoldable pub search : List ℕ → Search
unfolding read_header examine
search [] = stopped 0
search (b ∷ bytes) =
    let next = search bytes in
    if ltb (length (b ∷ bytes)) header_size
    then stopped 0
    else examine (read_header (b ∷ bytes)) (b ∷ bytes) next

-- An empty output is no output.
abbrev pub output : List ℕ → Option (List ℕ)
output [] = none
output (b ∷ bytes) = some (b ∷ bytes)

-- What `Deobfuscate` does with the outcome: the input buffer afterwards, and the output.
unfoldable pub conclude : List ℕ → Search → List ℕ × Option (List ℕ)
conclude input_buffer foreign = ([], some input_buffer)
conclude input_buffer (found offset payload rest) =
    (take offset input_buffer ++ rest, output payload)
conclude input_buffer (stopped offset) = (drop offset input_buffer, none)

unfoldable pub deobfuscate : List ℕ → List ℕ × Option (List ℕ)
unfolding search conclude
deobfuscate input_buffer =
    if ltb (length input_buffer) header_size
    then (input_buffer, none)
    else conclude input_buffer (search input_buffer)

unfoldable pub add_data : List ℕ → List ℕ → List ℕ × Bool
unfolding add_bounded
add_data = add_bounded 65536

unfoldable pub reset : List ℕ → List ℕ
reset input_buffer = []

unfoldable pub has_pending_data : List ℕ → Bool
has_pending_data [] = false
has_pending_data (b ∷ bytes) = true

unfoldable pub is_valid_protocol : TlsAppDataRecordHeader → Bool
is_valid_protocol h =
    h.headertype == 0x17
    && h.headermajor == 3
    && h.headerminor == 3
    && h.protocol_version == 1
    && h.magic_flag == 0x9763
    && leb 15 h.content_length
    && leb h.content_length 16384
    && leb h.payload_length (h.content_length - 15)

-- The last comparison is reached only with a content length of 15 or more.
unfoldable pub check_protocol : List ℕ → Bool
unfolding read_header is_valid_protocol
check_protocol bytes =
    if ltb (length bytes) header_size then false else is_valid_protocol (read_header bytes)
