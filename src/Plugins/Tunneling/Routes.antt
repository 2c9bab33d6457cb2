-- ===== src/Plugins/Tunneling/Routes.antt =====
-- Which routes src/fptn-client/plugins/split/tunneling.cpp asks for.
use fptn_keenetic.Base.{
  ℕ, ◌≡◌, refl, List, [], ◌∷◌, ◌++◌, some, Bool, true, false, not, ◌&&◌, if◌then◌else◌,
}
use fptn_keenetic.Network.Address.{IpAddress}
use fptn_keenetic.Packet.{IpPacket}
use fptn_keenetic.Packet.Reader.{checked, ◌>>=◌, Gives, value}
use fptn_keenetic.Packet.Dns.{
  is_dns, get_dns_domain, get_dns_ipv4_addresses, get_dns_ipv6_addresses,
}
use fptn_keenetic.Plugins.{Host, any_match}
use fptn_keenetic.Plugins.Tunneling.{
  RoutingPolicy, exclude_from_vpn, include_in_vpn, Route, add_dns_routes_ipv4, add_dns_routes_ipv6,
  Handled, excludes, is_nil, handle_packet,
}

-- The routes past the VPN for the addresses of a domain.
abbrev pub wanted : Bool → List IpAddress → List IpAddress → List Route
wanted apple v4 [] = add_dns_routes_ipv4 v4 exclude_from_vpn ∷ []
wanted true v4 (a ∷ v6) = add_dns_routes_ipv4 v4 exclude_from_vpn ∷ []
wanted false v4 (a ∷ v6) =
    add_dns_routes_ipv4 v4 exclude_from_vpn ∷ add_dns_routes_ipv6 (a ∷ v6) exclude_from_vpn ∷ []

-- What came of a packet whose domain a rule matches or not.
pub record IsRouted (policy : RoutingPolicy) (apple matched : Bool) (packet : IpPacket)
    (v4 v6 : List IpAddress) (h : Handled) : Type 0 where
  pub goes_on : h.1.0 ≡ some packet
  pub triggered :
      h.1.1 ≡ (elim policy [ include_in_vpn ↦ not matched | exclude_from_vpn ↦ matched ])
  pub routes : h.0 ≡ (if h.1.1 then wanted apple v4 v6 else [])

excludes-eq :
    (policy : RoutingPolicy) (matched : Bool)
    → excludes policy matched
      ≡ (elim policy [ include_in_vpn ↦ not matched | exclude_from_vpn ↦ matched ])
unfolding excludes
excludes-eq include_in_vpn true = refl
excludes-eq include_in_vpn false = refl
excludes-eq exclude_from_vpn true = refl
excludes-eq exclude_from_vpn false = refl

asked :
    (away apple : Bool) (v4 v6 : List IpAddress)
    → (if away then add_dns_routes_ipv4 v4 exclude_from_vpn ∷ [] else [])
        ++ (if not apple && (not (is_nil v6) && away)
            then add_dns_routes_ipv6 v6 exclude_from_vpn ∷ []
            else [])
      ≡ (if away then wanted apple v4 v6 else [])
asked true true v4 [] = refl
asked true true v4 (a ∷ v6) = refl
asked true false v4 [] = refl
asked true false v4 (a ∷ v6) = refl
asked false true v4 v6 = refl
asked false false v4 [] = refl
asked false false v4 (a ∷ v6) = refl

-- A DNS packet that names a domain, and from which the addresses `v4` and `v6` are read, goes on; the
-- plugin is triggered exactly if the policy is to exclude and a rule matches the domain, or to
-- include and none does. Then it asks for a route past the VPN for `v4` and after it, unless built
-- for Apple or `v6` is empty, one for `v6`; else it asks for nothing.
pub handle_packet-IsRouted :
    (host : Host) (rules : List host.Pattern) (policy : RoutingPolicy) (apple : Bool)
    (packet : IpPacket) (domain : List ℕ) (v4 v6 : List IpAddress)
    → is_dns packet ≡ checked true
    → get_dns_domain host.unicode packet ≡ checked (some domain)
    → get_dns_ipv4_addresses host.asio host.inet packet ≡ checked v4
    → get_dns_ipv6_addresses host.asio host.inet packet ≡ checked v6
    → Gives
        (IsRouted policy apple (any_match host.regex domain rules) packet v4 v6)
        (handle_packet host rules policy apple packet)
unfolding handle_packet
handle_packet-IsRouted host rules policy apple packet domain v4 v6 dns named four six =
    let away = excludes policy (any_match host.regex domain rules) in
    rw (handle_packet, dns, ◌>>=◌, named, ◌>>=◌, four, ◌>>=◌, six, ◌>>=◌)
      (value _ (record {
        goes_on = refl;
        triggered = excludes-eq policy (any_match host.regex domain rules);
        routes = asked away apple v4 v6;
      }))
