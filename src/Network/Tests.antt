-- ===== src/Network/Tests.antt =====
-- Runs of the address generators of src/common/network.
use fptn_keenetic.Base.{◌+◌, ◌-◌, ◌*◌, ◌^◌, ◌≡◌, refl, [], ◌∷◌, arith, count_from}
use fptn_keenetic.Network.Ipv4Generator
use fptn_keenetic.Network.Ipv4Generator.{Ipv4Generator}
use fptn_keenetic.Network.Ipv6Generator
use fptn_keenetic.Network.Ipv6Generator.{Ipv6Generator}
use fptn_keenetic.Network.Ipv6Utils.{to_uint128_from, to_uint128}

program : Unit {0}
unfolding Ipv4Generator.netmask_of Ipv4Generator.init Ipv4Generator.next_ip Ipv4Generator.next_ips
    Ipv6Generator.init Ipv6Generator.next_ip Ipv6Generator.next_ips
    Ipv6Generator.num_available_addresses to_uint128_from to_uint128
program = tt

-- 10.20.0.0/30 is 0x0A14_0000 = 42270720 * 2 ^ 2.
abbrev ipv4 : Ipv4Generator
ipv4 = Ipv4Generator.init (42_270_720 * 2 ^ 2) 30

-- The third call starts over.
main_ipv4 : Ipv4Generator.next_ips 3 ipv4 ≡ 0x0A14_0001 ∷ 0x0A14_0002 ∷ 0x0A14_0001 ∷ []
unfolding program
main_ipv4 = refl

main_bytes :
    to_uint128 (0xFD ∷ 0 ∷ 0 ∷ 0 ∷ 0 ∷ 0 ∷ 0 ∷ 0 ∷ 0 ∷ 0 ∷ 0 ∷ 0 ∷ 0 ∷ 0 ∷ 1 ∷ 2 ∷ [])
    ≡ 0xFD00_0000_0000_0000_0000_0000_0000_0102
unfolding program
main_bytes = refl

init-hosts_example :
    (ipv4.num_available_addresses ≡ 2 ^ 2 - 2)
    × (Ipv4Generator.next_ips (2 ^ 2 - 2) ipv4 ≡ count_from (42_270_720 * 2 ^ 2 + 1) (2 ^ 2 - 2))
init-hosts_example =
    Ipv4Generator.init-hosts 30 2 42_270_720 (omega arith) (omega arith) (omega arith) (omega arith)

abbrev ipv6 : Ipv6Generator
ipv6 = Ipv6Generator.init (5 * 2 ^ 2) 126
