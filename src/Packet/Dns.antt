-- ===== src/Packet/Dns.antt =====
-- The DNS readers of src/common/network/ip_packet.h. A name is its bytes. `unicode` is what the
-- build makes of a name: `ToUnicode` of a name in Punycode with libidn2, else the name.
pub mod Safety
pub mod Names
pub mod Tests
use fptn_keenetic.Base.{
  ℕ, zero, suc, ◌+◌, ◌*◌, ◌/◌, ◌^◌, List, [], ◌∷◌, ◌++◌, map, Option, none, some, Bool, true, false,
  not, ◌&&◌, ◌||◌, ◌==◌, ltb, leb, if◌then◌else◌, bit_and, bit_or, length,
}
use fptn_keenetic.Network.Address.{Asio, IpAddress, ipv4_address, ipv6_address}
use fptn_keenetic.Packet.{IpPacket, Inet, at, size, is_ipv4, is_ipv6, ipv4_ihl, read_u16_be}
use fptn_keenetic.Packet.Reader.{Checked, checked, out_of_bounds, ◌>>=◌, read, read_u16, slice}

-- `udp` is where the UDP header starts; a null pointer is `none`.
unfoldable pub dns_payload_ptr : IpPacket → ℕ → Checked (Option ℕ)
dns_payload_ptr p udp = elim (ltb (size p) (udp + 8)) [
  | true ↦ checked none
  | false ↦ do
    source ← read_u16 p.bytes udp
    destination ← read_u16 p.bytes (udp + 2)
    checked (
        if not (source == 53) && not (destination == 53)
        then none
        else if leb (udp + 8 + 12) (size p)
        then some (udp + 8)
        else none)
]

unfoldable pub dns_ptr : IpPacket → Checked (Option ℕ)
dns_ptr p = elim (is_ipv4 p && leb 20 (size p) && at p 9 == 17) [
  | true ↦ dns_payload_ptr p (ipv4_ihl p)
  | false ↦ elim (is_ipv6 p && leb 40 (size p) && at p 6 == 17) [
    | true ↦ dns_payload_ptr p 40
    | false ↦ checked none
  ]
]

unfoldable pub is_pointer : ℕ → Bool
is_pointer l = bit_and l 0xC0 == 0xC0

unfoldable pub append_label : List ℕ → List ℕ → List ℕ
append_label [] label = label
append_label (x ∷ name) label = x ∷ name ++ (46 ∷ label)

-- The rounds that are left, where the name is read, `*cur`, `jumped` and the name so far.
unfoldable pub parse_dns_name : ℕ → List ℕ → ℕ → ℕ → ℕ → Bool → List ℕ → Checked (List ℕ × ℕ)
parse_dns_name zero bytes base ptr cur jumped name = checked (name, cur)
parse_dns_name (suc rounds) bytes base ptr cur jumped name = elim (ltb ptr (length bytes)) [
  | false ↦ checked (name, cur)
  | true ↦ read bytes ptr >>= λ len. elim (len == 0) [
    | true ↦ checked (name, if jumped then cur else ptr + 1)
    | false ↦ elim (is_pointer len) [
      | true ↦ elim (ltb (length bytes) (ptr + 2)) [
        | true ↦ checked (name, cur)
        | false ↦ read bytes (ptr + 1) >>= λ low.
            parse_dns_name rounds bytes base (base + bit_or (bit_and len 0x3F * 2 ^ 8) low)
              (if jumped then cur else ptr + 2) true name
      ]
      | false ↦ elim (ltb (length bytes) (ptr + 1 + len)) [
        | true ↦ checked (name, cur)
        | false ↦ slice bytes (ptr + 1) len >>= λ label.
            parse_dns_name rounds bytes base (ptr + 1 + len) cur jumped (append_label name label)
      ]
    ]
  ]
]

-- The loop that skips a name; its rounds are 256.
unfoldable pub skip_name : ℕ → List ℕ → ℕ → Checked ℕ
skip_name zero bytes cur = checked cur
skip_name (suc rounds) bytes cur = elim (ltb cur (length bytes)) [
  | false ↦ checked cur
  | true ↦ read bytes cur >>= λ l. elim (l == 0) [
    | true ↦ checked (cur + 1)
    | false ↦ elim (is_pointer l) [
      | true ↦ checked (cur + 2)
      | false ↦ skip_name rounds bytes (cur + 1 + l)
    ]
  ]
]

unfoldable pub skip_questions : ℕ → List ℕ → ℕ → Checked ℕ
skip_questions zero bytes cur = checked cur
skip_questions (suc questions) bytes cur = elim (ltb cur (length bytes)) [
  | false ↦ checked cur
  | true ↦ skip_name 256 bytes cur >>= λ next. skip_questions questions bytes (next + 4)
]

-- Where the answers start, and how many there are.
unfoldable pub dns_answer_start : List ℕ → ℕ → Checked (Option (ℕ × ℕ))
dns_answer_start bytes dns = elim (ltb (length bytes) (dns + 12)) [
  | true ↦ checked none
  | false ↦ read bytes (dns + 2) >>= λ flags. elim (bit_and flags 0x80 == 0) [
    | true ↦ checked none
    | false ↦ read_u16 bytes (dns + 4) >>= λ qdcount. read_u16 bytes (dns + 6) >>= λ ancount.
        elim (ancount == 0) [
          | true ↦ checked none
          | false ↦ skip_questions qdcount bytes (dns + 12) >>= λ cur.
              checked (if ltb cur (length bytes) then some (cur, ancount) else none)
        ]
  ]
]

-- The loop over the answers: the data of the records of one type and length.
unfoldable pub records : ℕ → ℕ → ℕ → List ℕ → ℕ → List (List ℕ) → Checked (List (List ℕ))
records wanted size zero bytes cur out = checked out
records wanted size (suc answers) bytes cur out = elim (ltb cur (length bytes)) [
  | false ↦ checked out
  | true ↦ skip_name 256 bytes cur >>= λ at. elim (ltb (length bytes) (at + 10)) [
    | true ↦ checked out
    | false ↦ read_u16 bytes at >>= λ rtype. read_u16 bytes (at + 8) >>= λ rdlen.
        elim (ltb (length bytes) (at + 10 + rdlen)) [
          | true ↦ checked out
          | false ↦ elim (rtype == wanted && rdlen == size) [
            | true ↦ slice bytes (at + 10) size >>= λ rdata.
                records wanted size answers bytes (at + 10 + rdlen) (out ++ (rdata ∷ []))
            | false ↦ records wanted size answers bytes (at + 10 + rdlen) out
          ]
        ]
  ]
]

unfoldable pub dns_records : ℕ → ℕ → IpPacket → Checked (List (List ℕ))
dns_records wanted size p = dns_ptr p >>= λ dns. elim dns [
  | none ↦ checked []
  | some dns ↦ dns_answer_start p.bytes dns >>= λ start. elim start [
    | none ↦ checked []
    | some (cur, ancount) ↦ records wanted size ancount p.bytes cur []
  ]
]

unfoldable pub is_dns : IpPacket → Checked Bool
is_dns p = dns_ptr p >>= λ dns. checked (elim dns [ none ↦ false | some _ ↦ true ])

unfoldable pub get_dns_domain : (List ℕ → List ℕ) → IpPacket → Checked (Option (List ℕ))
get_dns_domain unicode p = dns_ptr p >>= λ dns. elim dns [
  | none ↦ checked none
  | some dns ↦ read_u16 p.bytes (dns + 4) >>= λ qdcount. elim (qdcount == 0) [
    | true ↦ checked none
    | false ↦ parse_dns_name 128 p.bytes dns (dns + 12) (dns + 12) false [] >>= λ parsed.
        checked (elim parsed.0 [ [] ↦ none | x ∷ name ↦ some (unicode (x ∷ name)) ])
  ]
]

module _ (asio : Asio) (inet : Inet) where
  open inet use {inet_ntop_v4, inet_ntop_v6}

  -- The A records.
  unfoldable pub get_dns_ipv4_addresses : IpPacket → Checked (List IpAddress)
  get_dns_ipv4_addresses p =
      dns_records 1 4 p >>= λ found. checked (map (λ d. ipv4_address asio (inet_ntop_v4 d)) found)

  -- The AAAA records.
  unfoldable pub get_dns_ipv6_addresses : IpPacket → Checked (List IpAddress)
  get_dns_ipv6_addresses p =
      dns_records 28 16 p >>= λ found. checked (map (λ d. ipv6_address asio (inet_ntop_v6 d)) found)
