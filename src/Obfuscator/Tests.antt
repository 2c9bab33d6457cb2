-- ===== src/Obfuscator/Tests.antt =====
-- Records of src/fptn-protocol-lib/https/obfuscator made and read.
use fptn_keenetic.Base.{ℕ, ◌≡◌, refl, List, [], ◌∷◌, ◌++◌, arith, some, take}
use fptn_keenetic.Obfuscator.Wire.{
  write_uint16, read_uint16, write_uint32, read_uint32, write_uint64, apply_xor_transform,
  add_bounded,
}
use fptn_keenetic.Obfuscator.Tls
use fptn_keenetic.Obfuscator.Tls2
use fptn_keenetic.Obfuscator.Detector.{detect_obfuscator, tls2, detect_obfuscator-obfuscate}

program : Unit {0}
unfolding write_uint16 read_uint16 write_uint32 read_uint32 write_uint64 apply_xor_transform
    add_bounded Tls.read_header Tls.write_header Tls.header_of Tls.obfuscate Tls.is_fptn_protocol
    Tls.full_record_size Tls.examine Tls.search Tls.conclude Tls.deobfuscate Tls.add_data
    Tls.is_valid_protocol Tls.check_protocol Tls2.read_header Tls2.write_header Tls2.header_of
    Tls2.obfuscate Tls2.is_valid_timestamp Tls2.is_fptn_protocol Tls2.full_record_size Tls2.examine
    Tls2.search Tls2.conclude Tls2.deobfuscate Tls2.add_data Tls2.is_valid_protocol
    Tls2.check_protocol Tls.Roundtrip.receive Tls.Roundtrip.stream Tls2.Roundtrip.receive
    Tls2.Roundtrip.stream
program = tt

abbrev random : Tls.Random
random = record { padding = 1 ∷ 2 ∷ 3 ∷ []; xor_key = 0x5A; random_data = 123_456_789 }

abbrev random2 : Tls2.Random
random2 = record {
  padding = 1 ∷ 2 ∷ 3 ∷ [];
  xor_key = 0x5A;
  random_data = 123_456_789;
  timestamp = 1_700_000_000;
}

abbrev message : List ℕ
message = 72 ∷ 105 ∷ []

-- Bytes of another protocol are handed on.
main_foreign :
    Tls.deobfuscate (
      take 20 (22 ∷ 3 ∷ 1 ∷ 0 ∷ 9 ∷ 1 ∷ 1 ∷ 1 ∷ 1 ∷ 1 ∷ 1 ∷ 1 ∷ 1 ∷ 1 ∷ 1 ∷ 1 ∷ 1 ∷ 1 ∷ 1 ∷ 1 ∷ []))
    ≡ (
      [],
      some (22 ∷ 3 ∷ 1 ∷ 0 ∷ 9 ∷ 1 ∷ 1 ∷ 1 ∷ 1 ∷ 1 ∷ 1 ∷ 1 ∷ 1 ∷ 1 ∷ 1 ∷ 1 ∷ 1 ∷ 1 ∷ 1 ∷ 1 ∷ []),
    )
unfolding program
main_foreign = refl

main_obfuscate :
    Tls.obfuscate random message
    ≡ 0x17 ∷ 3 ∷ 3 ∷ 0 ∷ 20 ∷ 0x15 ∷ 0xCD ∷ 0x5B ∷ 7 ∷ 0 ∷ 0 ∷ 0 ∷ 0 ∷ 0x97 ∷ 0x63 ∷ 1 ∷ 0x5A ∷ 0
      ∷ 2 ∷ 3 ∷ 18 ∷ 51 ∷ 1 ∷ 2 ∷ 3 ∷ []
unfolding program
main_obfuscate = refl

random-IsSendable : Tls.Roundtrip.IsSendable random message
random-IsSendable = record {
  nonempty = omega arith;
  fits = omega arith;
  bytes = (omega arith, (omega arith, tt));
  key = omega arith;
}

random2-IsSendable : Tls2.Roundtrip.IsSendable 1_700_000_007 random2 message
random2-IsSendable = record {
  nonempty = omega arith;
  fits = omega arith;
  bytes = (omega arith, (omega arith, tt));
  key = omega arith;
  not_early = omega arith;
  not_late = omega arith;
  in_range = (omega arith, omega arith);
}

abbrev sent : List (Tls.Random × List ℕ)
sent = (random, message) ∷ (random, message) ∷ []

receive-stream_example :
    Tls.Roundtrip.receive 2 (Tls.Roundtrip.stream sent ++ (9 ∷ []))
    ≡ (9 ∷ [], message ∷ message ∷ [])
receive-stream_example =
    Tls.Roundtrip.receive-stream sent (9 ∷ []) (random-IsSendable, (random-IsSendable, tt))

abbrev sent2 : List (Tls2.Random × List ℕ)
sent2 = (random2, message) ∷ (random2, message) ∷ []

receive-stream_timely_example :
    Tls2.Roundtrip.receive 1_700_000_007 2 (Tls2.Roundtrip.stream sent2 ++ (9 ∷ []))
    ≡ (9 ∷ [], message ∷ message ∷ [])
receive-stream_timely_example =
    Tls2.Roundtrip.receive-stream_timely 1_700_000_007 sent2 (9 ∷ [])
      (random2-IsSendable, (random2-IsSendable, tt))

detect_obfuscator-obfuscate_example :
    detect_obfuscator 1_700_000_007 (Tls2.obfuscate random2 message ++ (9 ∷ [])) ≡ some tls2
detect_obfuscator-obfuscate_example =
    detect_obfuscator-obfuscate 1_700_000_007 random2 message (9 ∷ []) random2-IsSendable
      (omega arith)
