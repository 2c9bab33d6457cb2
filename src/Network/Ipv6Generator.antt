-- ===== src/Network/Ipv6Generator.antt =====
-- src/common/network/ipv6_generator.h. The numbers are `uint128_t` of Boost.Multiprecision, which
-- wraps. A prefix above 128 is outside the model.
use fptn_keenetic.Base.{
  ℕ, zero, suc, ◌+◌, ◌-◌, ◌*◌, ◌%◌, ◌^◌, ◌≤◌, ◌<◌, ◌≡◌, refl, ap, List, [], ◌∷◌, arith, Option,
  none, some, bit_or, ltb, count_from, if◌then◌else◌,
}
use fptn_keenetic.Base.Bits.{bit_or-eq-add, pow_two_pos, pow_two-lt, two-le-pow_two, network_end-le}
use fptn_keenetic.Network.Address.{Asio, IpAddress, ipv6_address}
use fptn_keenetic.Network.Ipv6Utils.{to_uint128, to_string_uint128}

pub record Ipv6Generator : Type 0 where
  pub net_addr : ℕ
  pub max_addr : ℕ
  pub current_addr : ℕ

unfoldable pub init : ℕ → ℕ → Ipv6Generator
init net_addr subnet_mask = record {
  net_addr = net_addr;
  max_addr = bit_or net_addr ((2 ^ (128 - subnet_mask) % 2 ^ 128 + 2 ^ 128 - 1) % 2 ^ 128);
  current_addr = net_addr;
}

unfoldable pub create : Asio → IpAddress → ℕ → Option Ipv6Generator
create asio net_address subnet_mask = elim (asio.make_address_v6 net_address.ip) [
  | none ↦ none
  | some bytes ↦ some (init (to_uint128 bytes) subnet_mask)
]

unfoldable pub next_ip : Ipv6Generator → ℕ
next_ip g =
    let new_ip = (g.current_addr + 1) % 2 ^ 128 in
    if ltb new_ip g.max_addr then new_ip else (g.net_addr + 1) % 2 ^ 128

unfoldable pub get_next_address : Asio → Ipv6Generator → Ipv6Generator × IpAddress
unfolding next_ip
get_next_address asio g =
    let n = next_ip g in
    (record g { current_addr = n }, ipv6_address asio (to_string_uint128 asio n))

unfoldable pub num_available_addresses : Ipv6Generator → ℕ
num_available_addresses g = (g.max_addr + 2 ^ 128 - g.net_addr + 2 ^ 128 - 1) % 2 ^ 128

-- The numbers of the addresses that `count` calls return.
unfoldable pub next_ips : ℕ → Ipv6Generator → List ℕ
next_ips zero g = []
next_ips (suc count) g = next_ip g ∷ next_ips count (record g { current_addr = next_ip g })

pub next_ips-eq-count_from :
    (count : ℕ) (g : Ipv6Generator)
    → g.max_addr < 2 ^ 128
    → g.current_addr + count < g.max_addr
    → next_ips count g ≡ count_from (g.current_addr + 1) count
unfolding next_ips next_ip
next_ips-eq-count_from zero g w h = refl
next_ips-eq-count_from (suc count) g w h =
    ground (arith, next_ips-eq-count_from count (record g { current_addr = g.current_addr + 1 }))

-- The highest address of the network has all host bits set.
init-max_addr :
    (m k q : ℕ) → m + k ≡ 128 → 0 < m → (init (q * 2 ^ k) m).max_addr ≡ q * 2 ^ k + (2 ^ k - 1)
unfolding init
init-max_addr m k q width prefix =
    rw (rest, mask) (bit_or-eq-add k q (2 ^ k - 1) (omega (arith, pow_two_pos k)))
  where
    rest : 128 - m ≡ k
    rest = omega arith

    below : 2 ^ k < 2 ^ 128
    below = omega (arith, pow_two-lt m k prefix, pow_two_pos k, ap (λ (t : ℕ). 2 ^ t) width)

    mask : (2 ^ k % 2 ^ 128 + 2 ^ 128 - 1) % 2 ^ 128 ≡ 2 ^ k - 1
    mask = omega (arith, below, pow_two_pos k)

-- For a network of at least two host bits, the generator announces the number of its addresses but
-- the first and the last, and that many calls return each of them once, in order.
pub init-addresses :
    (m k q : ℕ)
    → m + k ≡ 128
    → 0 < m
    → 0 < k
    → q < 2 ^ m
    → (num_available_addresses (init (q * 2 ^ k) m) ≡ 2 ^ k - 2)
      × (next_ips (2 ^ k - 2) (init (q * 2 ^ k) m) ≡ count_from (q * 2 ^ k + 1) (2 ^ k - 2))
unfolding init num_available_addresses
init-addresses m k q width prefix host fits =
    let last : g.max_addr ≡ q * 2 ^ k + (2 ^ k - 1) = init-max_addr m k q width prefix in
    let two : 2 ≤ 2 ^ k = two-le-pow_two k host in
    (
      rw last (omega (arith, room)),
      next_ips-eq-count_from (2 ^ k - 2) g (rw last (omega (arith, room))) (rw last (omega arith)),
    )
  where
    g : Ipv6Generator
    g = init (q * 2 ^ k) m

    room : q * 2 ^ k + 2 ^ k ≤ 2 ^ 128
    room = omega (arith, network_end-le m k q fits, ap (λ (t : ℕ). 2 ^ t) width)
