-- ===== src/Filter/AntiScan.antt =====
-- src/fptn-server/filter/filters/antiscan/antiscan.cpp. The prefix lengths are 1 to 32 and 0 to
-- 128; outside of that the shifts have no meaning in C++.
use fptn_keenetic.Base.{
  ℕ, ◌+◌, ◌-◌, ◌*◌, ◌/◌, ◌%◌, ◌^◌, ◌<◌, ◌≡◌, ap, sym, ◌∙◌, arith, Option, none, some, Bool, not,
  ◌&&◌, ◌||◌, ◌==◌, leb, if◌then◌else◌, bit_and, bit_or,
}
use fptn_keenetic.Base.Bits.{bit_and_prefix, pow_two_add, pow_two_pos}
use fptn_keenetic.Network.Address.{Asio, IpAddress, to_int, ipv4_address}
use fptn_keenetic.Network.Ipv6Utils.{to_uint128_ip}
use fptn_keenetic.Network.Ipv4Generator.{netmask_of, netmask_lem, netmask-eq-prefix}
use fptn_keenetic.Packet.{
  IpPacket, Inet, is_ipv4, is_ipv6, get_dst_ipv4_address, get_dst_ipv6_address,
}
use native.Mathlib.Nat.{div-lt_iff_lt-mul, mul-div_cancel}

pub record AntiScan : Type 0 where
  pub server_ipv4 : ℕ
  pub server_ipv4_net : ℕ
  pub server_ipv4_mask : ℕ
  pub server_ipv6 : ℕ
  pub server_ipv6_net : ℕ
  pub server_ipv6_mask : ℕ

unfoldable pub ipv4_mask : ℕ → ℕ
ipv4_mask server_ip_v4_mask = 0xFFFF_FFFF * 2 ^ (32 - server_ip_v4_mask) % 2 ^ 32

ipv4_mask_lem : (m k : ℕ) → m + k ≡ 32 → 0 < m → ipv4_mask m ≡ (2 ^ m - 1) * 2 ^ k
unfolding ipv4_mask netmask_of
ipv4_mask_lem m k width prefix = same ∙ netmask_lem m k width prefix ∙ netmask-eq-prefix m k width
  where
    same : ipv4_mask m ≡ netmask_of m
    same = ground arith

masked : (m k a : ℕ) → m + k ≡ 32 → 0 < m → a < 2 ^ 32 → bit_and a (ipv4_mask m) ≡ a / 2 ^ k * 2 ^ k
masked m k a width prefix fits = rw (ipv4_mask_lem m k width prefix) (bit_and_prefix m k a below)
  where
    below : a / 2 ^ k < 2 ^ m
    below =
        (div-lt_iff_lt-mul (pow_two_pos k)).1
          (omega (arith, pow_two_add m k, ap (λ (t : ℕ). 2 ^ t) width))

scaled_eq : (a b c : ℕ) → 0 < c → ((a * c == b * c) ≡ (a == b))
scaled_eq a b c h = ground (arith, cancel, λ (e : a ≡ b). ap (λ t. t * c) e)
  where
    cancel : a * c ≡ b * c → a ≡ b
    cancel e = sym (mul-div_cancel a h) ∙ ap (λ t. t / c) e ∙ mul-div_cancel b h

module _ (asio : Asio) (inet : Inet) where
  -- The constructor; the parse of an IPv6 address may throw.
  unfoldable pub create : IpAddress → IpAddress → ℕ → IpAddress → IpAddress → ℕ → Option AntiScan
  unfolding ipv4_mask
  create ipv4 ipv4_net v4_mask ipv6 ipv6_net v6_mask = elim (to_uint128_ip asio ipv6) [
    | none ↦ none
    | some server_ipv6 ↦ elim (to_uint128_ip asio ipv6_net) [
      | none ↦ none
      | some server_ipv6_net ↦ some (record {
        server_ipv4 = to_int ipv4;
        server_ipv4_net = to_int ipv4_net;
        server_ipv4_mask = ipv4_mask v4_mask;
        server_ipv6 = server_ipv6;
        server_ipv6_net = server_ipv6_net;
        server_ipv6_mask = (2 ^ (128 - v6_mask) % 2 ^ 128 + 2 ^ 128 - 1) % 2 ^ 128;
      })
    ]
  ]

  unfoldable pub passes_ipv4 : AntiScan → ℕ → Bool
  passes_ipv4 f dst = f.server_ipv4 == dst || (not is_in_network && not (broadcast == dst))
    where
      is_in_network : Bool
      is_in_network = bit_and dst f.server_ipv4_mask == bit_and f.server_ipv4_net f.server_ipv4_mask

      broadcast : ℕ
      broadcast = to_int (ipv4_address asio "255.255.255.255")

  unfoldable pub passes_ipv6 : AntiScan → ℕ → Bool
  passes_ipv6 f dst = f.server_ipv6 == dst || not is_in_network
    where
      is_in_network : Bool
      is_in_network =
          leb f.server_ipv6_net dst && leb dst (bit_or f.server_ipv6_net f.server_ipv6_mask)

  -- The outer `none` is an exception of the parse of the destination.
  unfoldable pub apply : AntiScan → IpPacket → Option (Option IpPacket)
  unfolding passes_ipv4 passes_ipv6
  apply f packet =
      if is_ipv4 packet
      then (if passes_ipv4 f (to_int (get_dst_ipv4_address asio inet packet))
          then some (some packet)
          else some none)
      else if is_ipv6 packet
      then elim (to_uint128_ip asio (get_dst_ipv6_address asio inet packet)) [
        | none ↦ none
        | some dst ↦ if passes_ipv6 f dst then some (some packet) else some none
      ]
      else some none

  -- A client reaches the server's own IPv4 address and every address outside of the server's
  -- network but the broadcast address; nothing else. The network
  -- has a prefix of 1 bit or more and `k` host bits, the numbers fit 32 bits, and the text of the
  -- broadcast address reads as its number.
  pub passes_ipv4_lem :
      (m k : ℕ) (f : AntiScan) (dst : ℕ)
      → m + k ≡ 32
      → 0 < m
      → f.server_ipv4_mask ≡ ipv4_mask m
      → f.server_ipv4_net < 2 ^ 32
      → dst < 2 ^ 32
      → to_int (ipv4_address asio "255.255.255.255") ≡ 2 ^ 32 - 1
      → passes_ipv4 f dst
        ≡ f.server_ipv4 == dst
          || (not (dst / 2 ^ k == f.server_ipv4_net / 2 ^ k) && not (2 ^ 32 - 1 == dst))
  unfolding passes_ipv4 ipv4_mask
  passes_ipv4_lem m k f dst width prefix mask net fits broadcast = rw (
    mask,
    masked m k dst width prefix fits,
    masked m k f.server_ipv4_net width prefix net,
    scaled_eq (dst / 2 ^ k) (f.server_ipv4_net / 2 ^ k) (2 ^ k) (pow_two_pos k),
    broadcast,
  )
