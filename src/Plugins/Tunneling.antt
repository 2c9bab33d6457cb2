-- ===== src/Plugins/Tunneling.antt =====
-- src/fptn-client/plugins/split/tunneling.cpp. The calls of the route manager are the routes that
-- are asked for, in order; `apple` is the build for Apple, which asks for no IPv6 routes.
pub mod Routes
use fptn_keenetic.Base.{
  ℕ, List, [], ◌∷◌, ◌++◌, Option, none, some, Bool, true, false, not, ◌&&◌, if◌then◌else◌,
}
use fptn_keenetic.Network.Address.{Asio, IpAddress}
use fptn_keenetic.Packet.{IpPacket, Inet}
use fptn_keenetic.Packet.Reader.{Checked, checked, ◌>>=◌}
use fptn_keenetic.Packet.Dns.{
  is_dns, get_dns_domain, get_dns_ipv4_addresses, get_dns_ipv6_addresses,
}
use fptn_keenetic.Plugins.{Host, any_match}

pub data RoutingPolicy : Type 0 where
  exclude_from_vpn include_in_vpn : RoutingPolicy

pub data Route : Type 0 where
  add_dns_routes_ipv4 : List IpAddress → RoutingPolicy → Route
  add_dns_routes_ipv6 : List IpAddress → RoutingPolicy → Route

-- The routes, and whether the plugin was triggered; the packet always goes on.
abbrev pub Handled : Type 0
Handled = List Route × (Option IpPacket × Bool)

-- The `if` chain over the policy: whether the domain is sent past the VPN.
unfoldable pub excludes : RoutingPolicy → Bool → Bool
excludes include_in_vpn domain_matched = if not domain_matched then true else false
excludes exclude_from_vpn domain_matched = if domain_matched then true else false

abbrev pub is_nil : List IpAddress → Bool
is_nil [] = true
is_nil (x ∷ xs) = false

module _ (host : Host) (rules : List host.Pattern) (policy : RoutingPolicy) (apple : Bool) where
  open host use {asio, inet, unicode, regex}

  unfoldable pub handle_packet : IpPacket → Checked Handled
  handle_packet packet = is_dns packet >>= λ dns. elim dns [
    | false ↦ checked ([], (some packet, false))
    | true ↦ get_dns_domain unicode packet >>= λ domain. elim domain [
      | none ↦ checked ([], (some packet, false))
      | some domain ↦ get_dns_ipv4_addresses asio inet packet >>= λ ipv4.
          get_dns_ipv6_addresses asio inet packet >>= λ ipv6.
          let away = excludes policy (any_match regex domain rules) in
          let routes4 = if away then add_dns_routes_ipv4 ipv4 exclude_from_vpn ∷ [] else [] in
          let routes6 =
            if not apple && (not (is_nil ipv6) && away)
            then add_dns_routes_ipv6 ipv6 exclude_from_vpn ∷ []
            else [] in
          checked (routes4 ++ routes6, (some packet, away))
    ]
  ]
