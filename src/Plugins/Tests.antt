-- ===== src/Plugins/Tests.antt =====
-- A DNS answer and a packet from its address through the plugins of src/fptn-client/plugins.
use fptn_keenetic.Base.{String_discrete, ℕ, ◌≡◌, refl, List, [], ◌∷◌, none, some, true, false}
use fptn_keenetic.Network.Address.{v4, to_int, ip_address, ipv4_address}
use fptn_keenetic.Packet.{
  IpPacket, is_ipv4, is_ipv6, ipv4_ihl, get_src_ipv4_address, get_src_ipv6_address,
}
use fptn_keenetic.Packet.Reader.{checked, ◌>>=◌, read, read_u16, slice, Gives}
use fptn_keenetic.Packet.Dns.{
  dns_payload_ptr, dns_ptr, is_pointer, append_label, parse_dns_name, skip_name, skip_questions,
  dns_answer_start, records, dns_records, is_dns, get_dns_domain, get_dns_ipv4_addresses,
  get_dns_ipv6_addresses,
}
use fptn_keenetic.Packet.Dns.Tests.{answer, asio, inet}
use fptn_keenetic.Text.{is_space, skip_space, trim}
use fptn_keenetic.Plugins.{Host, escape, domain_to_regex, compile_rules, any_match}
use fptn_keenetic.Plugins.DomainBlacklist.{
  DomainBlacklist, Handled, contains_ipv4, contains_ipv6, save_ipv4, save_ipv6, handle_dns,
  handle_other, run,
}
use fptn_keenetic.Plugins.DomainBlacklist
use fptn_keenetic.Plugins.DomainBlacklist.Blocking.{never_blocks_ipv6, blocks_later}
use fptn_keenetic.Plugins.Tunneling
use fptn_keenetic.Plugins.Tunneling.{exclude_from_vpn, include_in_vpn, excludes}
use fptn_keenetic.Plugins.Tunneling.Routes.{IsRouted, handle_packet-IsRouted}

program : Unit {0}
unfolding String_discrete to_int ip_address ipv4_address is_ipv4 is_ipv6 ipv4_ihl
    get_src_ipv4_address get_src_ipv6_address read read_u16 slice dns_payload_ptr dns_ptr is_pointer
    append_label parse_dns_name skip_name skip_questions dns_answer_start records dns_records is_dns
    get_dns_domain get_dns_ipv4_addresses get_dns_ipv6_addresses is_space skip_space trim escape
    domain_to_regex compile_rules any_match contains_ipv4 contains_ipv6 save_ipv4 save_ipv6
    handle_dns handle_other DomainBlacklist.handle_packet run excludes Tunneling.handle_packet
program = tt

-- Every rule matches every name.
abbrev host : Host
host = record {
  asio = asio;
  inet = inet;
  unicode = λ n. n;
  to_lower = λ t. t;
  regex = record { Pattern = List ℕ; compile = λ p. some p; partial_match = λ d p. true };
}

-- " domain:a.b", and a rule that is wrong.
abbrev rules : List (List ℕ)
rules =
    compile_rules host
      ((32 ∷ 100 ∷ 111 ∷ 109 ∷ 97 ∷ 105 ∷ 110 ∷ 58 ∷ 97 ∷ 46 ∷ 98 ∷ []) ∷ (97 ∷ []) ∷ [])

-- From the address of the answer.
abbrev packet : IpPacket
packet = record {
  bytes = 0x45 ∷ 0 ∷ 0 ∷ 20 ∷ 0 ∷ 1 ∷ 0 ∷ 0 ∷ 64 ∷ 6 ∷ 0 ∷ 0 ∷ 1 ∷ 2 ∷ 3 ∷ 4 ∷ 10 ∷ 0 ∷ 0 ∷ 2 ∷ [];
  client_id = 0;
}

-- An IPv6 packet.
abbrev packet6 : IpPacket
packet6 = record { bytes = 0x60 ∷ 0 ∷ []; client_id = 0 }

abbrev start : DomainBlacklist
start = record { ipv4_addresses = []; ipv6_addresses = [] }

main :
    (rules ≡ (40 ∷ 63 ∷ 58 ∷ 94 ∷ 124 ∷ 92 ∷ 46 ∷ 41 ∷ 97 ∷ 92 ∷ 46 ∷ 98 ∷ 36 ∷ []) ∷ [])
    × (run host rules (answer ∷ packet ∷ []) start
        ≡ checked (record { ipv4_addresses = 7 ∷ []; ipv6_addresses = [] }))
unfolding program
main = (refl, refl)

never_blocks_ipv6_example :
    Gives {A = Handled}
      (λ h. h.1.0 ≡ some packet6)
      (run host rules (answer ∷ packet ∷ []) start >>= λ s.
        DomainBlacklist.handle_packet host rules packet6 s)
unfolding program
never_blocks_ipv6_example = never_blocks_ipv6 host rules (answer ∷ packet ∷ []) packet6 refl

blocks_later_example :
    Gives {A = Handled}
      (λ h. h.1.0 ≡ none)
      (DomainBlacklist.handle_packet host rules answer start >>= λ h.
        run host rules (packet6 ∷ []) h.0 >>= λ s.
        DomainBlacklist.handle_packet host rules packet s)
unfolding program
blocks_later_example =
    blocks_later host rules answer start (97 ∷ 46 ∷ 98 ∷ 99 ∷ [])
      (record { ip = "1.2.3.4"; ip_impl = v4 7 } ∷ []) (packet6 ∷ []) packet refl refl refl refl
      refl refl refl

handle_packet-IsRouted_example :
    Gives
      (IsRouted include_in_vpn false true answer
        (record { ip = "1.2.3.4"; ip_impl = v4 7 } ∷ [])
        [])
      (Tunneling.handle_packet host rules include_in_vpn false answer)
unfolding program
handle_packet-IsRouted_example =
    handle_packet-IsRouted host rules include_in_vpn false answer (97 ∷ 46 ∷ 98 ∷ 99 ∷ [])
      (record { ip = "1.2.3.4"; ip_impl = v4 7 } ∷ []) [] refl refl refl refl
