-- ===== src/Plugins/DomainBlacklist.antt =====
-- src/fptn-client/plugins/blacklist/domain_blacklist.cpp. The sets are lists.
pub mod Blocking
use fptn_keenetic.Base.{
  ℕ, List, [], ◌∷◌, Option, none, some, Bool, true, false, not, ◌||◌, ◌==◌, if◌then◌else◌, String,
}
use fptn_keenetic.Network.Address.{Asio, IpAddress, to_int, string_eq}
use fptn_keenetic.Packet.{
  IpPacket, Inet, is_ipv4, is_ipv6, get_src_ipv4_address, get_src_ipv6_address,
}
use fptn_keenetic.Packet.Reader.{Checked, checked, ◌>>=◌}
use fptn_keenetic.Packet.Dns.{
  is_dns, get_dns_domain, get_dns_ipv4_addresses, get_dns_ipv6_addresses,
}
use fptn_keenetic.Plugins.{Host, any_match}

pub record DomainBlacklist : Type 0 where
  pub ipv4_addresses : List ℕ
  pub ipv6_addresses : List String

unfoldable pub contains_ipv4 : List ℕ → ℕ → Bool
contains_ipv4 [] a = false
contains_ipv4 (b ∷ set) a = a == b || contains_ipv4 set a

unfoldable pub contains_ipv6 : List String → String → Bool
contains_ipv6 [] a = false
contains_ipv6 (b ∷ set) a = string_eq a b || contains_ipv6 set a

-- The two loops that save the addresses of an answer.
unfoldable pub save_ipv4 : List IpAddress → List ℕ → List ℕ
save_ipv4 [] set = set
save_ipv4 (a ∷ addresses) set =
    save_ipv4 addresses (if not (contains_ipv4 set (to_int a)) then to_int a ∷ set else set)

unfoldable pub save_ipv6 : List IpAddress → List String → List String
save_ipv6 [] set = set
save_ipv6 (a ∷ addresses) set =
    save_ipv6 addresses (if contains_ipv6 set a.ip then a.ip ∷ set else set)

-- A state, the packet, and whether the plugin was triggered.
abbrev pub Handled : Type 0
Handled = DomainBlacklist × (Option IpPacket × Bool)

module _ (host : Host) (rules : List host.Pattern) where
  open host use {asio, inet, unicode, regex}

  unfoldable pub handle_dns : IpPacket → DomainBlacklist → Checked Handled
  handle_dns packet s = get_dns_domain unicode packet >>= λ domain. elim domain [
    | none ↦ checked (s, (some packet, false))
    | some domain ↦ elim (any_match regex domain rules) [
      | false ↦ checked (s, (some packet, false))
      | true ↦ get_dns_ipv4_addresses asio inet packet >>= λ ipv4.
          get_dns_ipv6_addresses asio inet packet >>= λ ipv6. checked (
            record {
              ipv4_addresses = save_ipv4 ipv4 s.ipv4_addresses;
              ipv6_addresses = save_ipv6 ipv6 s.ipv6_addresses;
            },
            (some packet, true),
          )
    ]
  ]

  unfoldable pub handle_other : IpPacket → DomainBlacklist → Handled
  handle_other packet s =
      if is_ipv4 packet
      then (
        s,
        (if contains_ipv4 s.ipv4_addresses (to_int (get_src_ipv4_address asio inet packet))
            then (none, true)
            else (some packet, false)),
      )
      else if is_ipv6 packet
      then (
        s,
        (if contains_ipv6 s.ipv6_addresses (get_src_ipv6_address asio inet packet).ip
            then (none, true)
            else (some packet, false)),
      )
      else (s, (some packet, false))

  unfoldable pub handle_packet : IpPacket → DomainBlacklist → Checked Handled
  handle_packet packet s = is_dns packet >>= λ dns. elim dns [
    | true ↦ handle_dns packet s
    | false ↦ checked (handle_other packet s)
  ]

  -- The plugin over a sequence of packets.
  unfoldable pub run : List IpPacket → DomainBlacklist → Checked DomainBlacklist
  run [] s = checked s
  run (packet ∷ packets) s = handle_packet packet s >>= λ handled. run packets handled.0
