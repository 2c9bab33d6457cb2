-- ===== src/Network/Ipv4Generator.antt =====
-- src/common/network/ipv4_generator.h. The numbers are `std::uint32_t`; a shift by 32 or more, which
-- a prefix of 0 or above 32 would ask for, has no meaning in C++ and is outside the theorems.
use fptn_keenetic.Base.{
  ℕ, zero, suc, ◌+◌, ◌-◌, ◌*◌, ◌/◌, ◌%◌, ◌^◌, ◌≤◌, ◌<◌, ◌≡◌, refl, ap, ◌∙◌, List, [], ◌∷◌, arith,
  Option, none, some, bit_and, bit_or, ltb, ◌==◌, count_from, if◌then◌else◌,
}
use fptn_keenetic.Base.Bits.{
  bit_or-eq-add, bit_and_prefix, pow_two_pos, pow_two_add, pow_two-lt, two-le-pow_two,
  network_end-le,
}
use fptn_keenetic.Network.Address.{Asio, v4, IpAddress, ipv4_address}
use native.Mathlib.Nat.{div-lt_iff_lt-mul, mul-div_cancel}

pub record Ipv4Generator : Type 0 where
  pub ip : ℕ
  pub net_addr : ℕ
  pub netmask : ℕ
  pub broadcast : ℕ
  pub num_available_addresses : ℕ

unfoldable pub netmask_of : ℕ → ℕ
netmask_of subnet_mask =
    if subnet_mask == 0 then 0 else (2 ^ 32 - 1) * 2 ^ (32 - subnet_mask) % 2 ^ 32

-- The constructor, from the number of the network address.
unfoldable pub init : ℕ → ℕ → Ipv4Generator
unfolding netmask_of
init ip_num subnet_mask =
    let netmask = netmask_of subnet_mask in
    let network_address = bit_and ip_num netmask in
    record {
      ip = ip_num;
      net_addr = ip_num;
      netmask = netmask;
      broadcast = bit_or network_address (2 ^ 32 - 1 - netmask);
      num_available_addresses = (2 ^ (32 - subnet_mask) % 2 ^ 32 + 2 ^ 32 - 2) % 2 ^ 32;
    }

-- `make_address_v4` throws on a text that is no IPv4 address.
unfoldable pub create : Asio → IpAddress → ℕ → Option Ipv4Generator
create asio net_address subnet_mask = elim (asio.make_address_v4 net_address.ip) [
  | none ↦ none
  | some n ↦ some (init n subnet_mask)
]

unfoldable pub next_ip : Ipv4Generator → ℕ
next_ip g =
    let new_ip = (g.ip + 1) % 2 ^ 32 in
    if ltb new_ip g.broadcast then new_ip else (g.net_addr + 1) % 2 ^ 32

-- `GetNextAddress`: the generator afterwards, and the address.
unfoldable pub get_next_address : Asio → Ipv4Generator → Ipv4Generator × IpAddress
unfolding next_ip
get_next_address asio g =
    let n = next_ip g in (record g { ip = n }, ipv4_address asio (asio.to_string (v4 n)))

-- The numbers of the addresses that `count` calls return.
unfoldable pub next_ips : ℕ → Ipv4Generator → List ℕ
next_ips zero g = []
next_ips (suc count) g = next_ip g ∷ next_ips count (record g { ip = next_ip g })

host_bits-lt : (m k : ℕ) → m + k ≡ 32 → 0 < m → 2 ^ k * 2 ≤ 2 ^ 32
host_bits-lt m k width prefix = omega (arith, pow_two-lt m k prefix, ap (λ (t : ℕ). 2 ^ t) width)

pub netmask_lem : (m k : ℕ) → m + k ≡ 32 → 0 < m → netmask_of m ≡ 2 ^ 32 - 2 ^ k
unfolding netmask_of
netmask_lem zero k width prefix = elim prefix [ ]
netmask_lem (suc m) k width prefix =
    rw rest (ground (arith, host_bits-lt (suc m) k width prefix, pow_two_pos k))
  where
    rest : 32 - suc m ≡ k
    rest = omega arith

pub netmask-eq-prefix : (m k : ℕ) → m + k ≡ 32 → 2 ^ 32 - 2 ^ k ≡ (2 ^ m - 1) * 2 ^ k
netmask-eq-prefix m k width =
    let whole : 2 ^ (m + k) ≡ 2 ^ 32 = ap (λ t. 2 ^ t) width in
    let one_more : 2 ^ m ≡ 2 ^ m - 1 + 1 = omega (arith, pow_two_pos m) in
    omega (arith, pow_two_add m k, ap (λ (t : ℕ). t * 2 ^ k) one_more)

-- For a prefix of 1 to 32 bits, the last address of the network is its prefix with all host bits
-- set.
pub init-broadcast :
    (m k ip : ℕ)
    → m + k ≡ 32
    → 0 < m
    → ip < 2 ^ 32
    → (init ip m).broadcast ≡ ip / 2 ^ k * 2 ^ k + (2 ^ k - 1)
unfolding init
init-broadcast m k ip width prefix fits =
    rw
      (netmask_lem m k width prefix, rest, netmask-eq-prefix m k width, bit_and_prefix m k ip below)
      (bit_or-eq-add k (ip / 2 ^ k) (2 ^ k - 1) (omega (arith, pow_two_pos k)))
  where
    rest : 4294967295 - (2 ^ 32 - 2 ^ k) ≡ 2 ^ k - 1
    rest = omega (arith, host_bits-lt m k width prefix)

    below : ip / 2 ^ k < 2 ^ m
    below =
        (div-lt_iff_lt-mul (pow_two_pos k)).1
          (omega (arith, pow_two_add m k, ap (λ (t : ℕ). 2 ^ t) width))

-- The addresses handed out lie strictly between the configured network address and the broadcast
-- address, if there is one, and if the last address handed out is not outside of them.
pub next_ip_bounds :
    (g : Ipv4Generator)
    → g.net_addr + 1 < g.broadcast
    → g.broadcast < 2 ^ 32
    → g.net_addr ≤ g.ip
    → g.ip < g.broadcast
    → (g.net_addr < next_ip g) × (next_ip g < g.broadcast)
unfolding next_ip
next_ip_bounds g h w lo hi = ground arith

-- As many calls as there are hosts give every host address once, in order.
pub next_ips-eq-count_from :
    (count : ℕ) (g : Ipv4Generator)
    → g.broadcast < 2 ^ 32
    → g.ip + count < g.broadcast
    → next_ips count g ≡ count_from (g.ip + 1) count
unfolding next_ips next_ip
next_ips-eq-count_from zero g w h = refl
next_ips-eq-count_from (suc count) g w h =
    ground (arith, next_ips-eq-count_from count (record g { ip = g.ip + 1 }))

-- For a network of at least two host bits, the generator announces the number of its hosts, and
-- that many calls return every host address once, in order.
pub init-hosts :
    (m k q : ℕ)
    → m + k ≡ 32
    → 0 < m
    → 0 < k
    → q < 2 ^ m
    → ((init (q * 2 ^ k) m).num_available_addresses ≡ 2 ^ k - 2)
      × (next_ips (2 ^ k - 2) (init (q * 2 ^ k) m) ≡ count_from (q * 2 ^ k + 1) (2 ^ k - 2))
unfolding init
init-hosts m k q width prefix host fits =
    let last : g.broadcast ≡ q * 2 ^ k + (2 ^ k - 1) =
      init-broadcast m k (q * 2 ^ k) width prefix (omega (arith, room, pow_two_pos k))
      ∙ omega (arith, ap (λ (t : ℕ). t * 2 ^ k) (mul-div_cancel q (pow_two_pos k))) in
    let rest : 32 - m ≡ k = omega arith in
    let two : 2 ≤ 2 ^ k = two-le-pow_two k host in
    (
      rw rest (omega (arith, host_bits-lt m k width prefix)),
      next_ips-eq-count_from (2 ^ k - 2) g (rw last (omega (arith, room))) (rw last (omega arith)),
    )
  where
    g : Ipv4Generator
    g = init (q * 2 ^ k) m

    room : q * 2 ^ k + 2 ^ k ≤ 2 ^ 32
    room = omega (arith, network_end-le m k q fits, ap (λ (t : ℕ). 2 ^ t) width)
