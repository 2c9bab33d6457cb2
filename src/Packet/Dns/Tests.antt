-- ===== src/Packet/Dns/Tests.antt =====
-- A DNS answer through the readers of src/common/network/ip_packet.h.
use fptn_keenetic.Base.{◌≡◌, refl, [], ◌∷◌, ◌++◌, none, some, arith, true, false, ◌+◌}
use fptn_keenetic.Network.Address.{Asio, v4, ip_address, ipv4_address}
use fptn_keenetic.Packet.{IpPacket, Inet, is_ipv4, is_ipv6, ipv4_ihl}
use fptn_keenetic.Packet.Reader.{slice, checked, read, read_u16}
use fptn_keenetic.Packet.Dns.{
  dns_payload_ptr, dns_ptr, is_pointer, append_label, parse_dns_name, skip_name, skip_questions,
  dns_answer_start, records, dns_records, is_dns, get_dns_domain, get_dns_ipv4_addresses,
  get_dns_ipv6_addresses,
}
use fptn_keenetic.Packet.Dns.Names.{encode, joined, parse_dns_name-encode}

program : Unit {0}
unfolding is_ipv4 is_ipv6 ipv4_ihl ip_address ipv4_address read read_u16 slice dns_payload_ptr
    dns_ptr is_pointer append_label parse_dns_name skip_name skip_questions dns_answer_start records
    dns_records is_dns get_dns_domain get_dns_ipv4_addresses get_dns_ipv6_addresses
program = tt

-- The answer 1.2.3.4 for "a.bc", its name a pointer to the question.
abbrev pub answer : IpPacket
answer = record {
  bytes =
      0x45 ∷ 0 ∷ 0 ∷ 66 ∷ 0 ∷ 1 ∷ 0 ∷ 0 ∷ 64 ∷ 17 ∷ 0 ∷ 0 ∷ 9 ∷ 9 ∷ 9 ∷ 9 ∷ 10 ∷ 0 ∷ 0 ∷ 2 ∷ 0 ∷ 53
      ∷ 1 ∷ 0 ∷ 0 ∷ 46 ∷ 0 ∷ 0 ∷ 0 ∷ 1 ∷ 0x81 ∷ 0x80 ∷ 0 ∷ 1 ∷ 0 ∷ 1 ∷ 0 ∷ 0 ∷ 0 ∷ 0 ∷ 1 ∷ 97 ∷ 2
      ∷ 98 ∷ 99 ∷ 0 ∷ 0 ∷ 1 ∷ 0 ∷ 1 ∷ 0xC0 ∷ 12 ∷ 0 ∷ 1 ∷ 0 ∷ 1 ∷ 0 ∷ 0 ∷ 0 ∷ 60 ∷ 0 ∷ 4 ∷ 1 ∷ 2 ∷ 3
      ∷ 4 ∷ [];
  client_id = 0;
}

abbrev pub asio : Asio
asio = record {
  make_address = λ s. some (v4 7);
  make_address_v4 = λ s. some 7;
  make_address_v6 = λ s. none;
  to_string = λ a. "1.2.3.4";
}

abbrev pub inet : Inet
inet = record { inet_ntop_v4 = λ b. "1.2.3.4"; inet_ntop_v6 = λ b. "::" }

main :
    (is_dns answer ≡ checked true)
    × (get_dns_domain (λ n. n) answer ≡ checked (some (97 ∷ 46 ∷ 98 ∷ 99 ∷ [])))
    × (dns_records 1 4 answer ≡ checked ((1 ∷ 2 ∷ 3 ∷ 4 ∷ []) ∷ []))
    × (dns_records 28 16 answer ≡ checked [])
    × (parse_dns_name 128 (0xC0 ∷ 0 ∷ []) 0 0 0 false [] ≡ checked ([], 2))
unfolding program
main = (refl, refl, refl, refl, refl)

parse_dns_name-encode_example :
    parse_dns_name 128
      ((5 ∷ 5 ∷ []) ++ (encode ((97 ∷ []) ∷ (98 ∷ 99 ∷ []) ∷ []) ++ (8 ∷ [])))
      0
      2
      2
      false
      []
    ≡ checked (joined ((97 ∷ []) ∷ (98 ∷ 99 ∷ []) ∷ []), 2 + 6)
parse_dns_name-encode_example =
    parse_dns_name-encode ((97 ∷ []) ∷ (98 ∷ 99 ∷ []) ∷ []) (5 ∷ 5 ∷ []) (8 ∷ []) 0 (omega arith)
      ((omega arith, omega arith), ((omega arith, omega arith), tt))
