-- ===== src/Packet/Checksum/Tests.antt =====
-- The checksum of src/common/network/ip_utils.h on an IPv4 header.
use fptn_keenetic.Base.{ℕ, ◌≡◌, refl, List, [], ◌∷◌}
use fptn_keenetic.Packet.Checksum.{add_words, fold, rfc1071, words}

program : Unit {0}
unfolding add_words fold rfc1071 words
program = tt

-- An odd number of bytes.
abbrev bytes : List ℕ
bytes = 0x45 ∷ 0 ∷ 0xFF ∷ 0xFF ∷ 0x40 ∷ []

main : rfc1071 bytes 0 ≡ 0x7AFF
unfolding program
main = refl
