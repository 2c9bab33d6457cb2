-- ===== src/Filter/BitTorrent.antt =====
-- src/fptn-server/filter/filters/bittorrent/bittorrent.cpp.
use fptn_keenetic.Base.{
  ℕ, ◌≡◌, refl, List, [], ◌∷◌, arith, Option, none, some, Bool, true, false, ◌&&◌, ◌||◌, ◌==◌, leb,
  if◌then◌else◌, length, take, get_or,
}
use fptn_keenetic.Network.Address.{list_eq}
use fptn_keenetic.Packet.{IpPacket, get_udp_payload, get_tcp_payload}

abbrev pub classic : List ℕ
classic =
    0x13 ∷ 66 ∷ 105 ∷ 116 ∷ 84 ∷ 111 ∷ 114 ∷ 114 ∷ 101 ∷ 110 ∷ 116 ∷ 32 ∷ 112 ∷ 114 ∷ 111 ∷ 116
    ∷ 111 ∷ 99 ∷ 111 ∷ 108 ∷ []

abbrev pub extension_protocol : List ℕ
extension_protocol = 0x14 ∷ 101 ∷ 120 ∷ 116 ∷ 101 ∷ 110 ∷ 115 ∷ 105 ∷ 111 ∷ 110 ∷ []

abbrev pub dht : List ℕ
dht = 100 ∷ 49 ∷ 58 ∷ 97 ∷ 100 ∷ 50 ∷ 58 ∷ 105 ∷ 100 ∷ 50 ∷ []

-- `payload_size >= size && std::memcmp(payload, signature, size) == 0`.
unfoldable pub begins : List ℕ → List ℕ → Bool
begins signature payload =
    leb (length signature) (length payload) && list_eq (take (length signature) payload) signature

-- The first byte tells which signature to compare with.
unfoldable pub detect_bit_torrent : List ℕ → Bool
unfolding begins
detect_bit_torrent [] = false
detect_bit_torrent (first_byte ∷ payload) =
    if first_byte == 0x13
    then begins classic (first_byte ∷ payload)
    else if first_byte == 0x14
    then begins extension_protocol (first_byte ∷ payload)
    else if first_byte == 100
    then begins dht (first_byte ∷ payload)
    else false

unfoldable pub apply : IpPacket → Option IpPacket
unfolding detect_bit_torrent
apply packet = elim (get_udp_payload packet) [
  | some payload ↦ if detect_bit_torrent payload then none else some packet
  | none ↦ elim (get_tcp_payload packet) [
    | some payload ↦ if detect_bit_torrent payload then none else some packet
    | none ↦ some packet
  ]
]

begins_empty : false ≡ begins classic [] || begins extension_protocol [] || begins dht []
unfolding begins
begins_empty = refl

begins-first :
    (signature payload : List ℕ) (b : ℕ)
    → begins signature (b ∷ payload) ≡ true
    → get_or signature 0 b ≡ b
unfolding begins
begins-first [] payload b h = refl
begins-first (s ∷ signature) payload b h = ground arith

dispatch :
    (b : ℕ) (x y z : Bool)
    → (x ≡ true → 0x13 ≡ b)
    → (y ≡ true → 0x14 ≡ b)
    → (z ≡ true → 100 ≡ b)
    → (if b == 0x13 then x else if b == 0x14 then y else if b == 100 then z else false)
      ≡ x || y || z
dispatch b x y z p q r = ground arith

-- The dispatch on the first byte misses nothing: a payload is detected exactly if it begins with one
-- of the three signatures.
pub detect_bit_torrent_lem :
    (payload : List ℕ)
    → detect_bit_torrent payload
      ≡ begins classic payload || begins extension_protocol payload || begins dht payload
unfolding detect_bit_torrent
detect_bit_torrent_lem [] = begins_empty
detect_bit_torrent_lem (b ∷ payload) =
    dispatch b (begins classic (b ∷ payload)) (begins extension_protocol (b ∷ payload))
      (begins dht (b ∷ payload)) (begins-first classic payload b)
      (begins-first extension_protocol payload b) (begins-first dht payload b)
