-- ===== src/Network/Address.antt =====
-- src/common/network/ip_address.h. A `boost::asio::ip::address` is an IPv4 number or the 16
-- bytes of an IPv6 address in network order, by default the IPv4 address 0.0.0.0; parsing and printing it is Boost's, and enters as a parameter.
use fptn_keenetic.Base.{
  ℕ, ◌<◌, ◌≡◌, List, [], ◌∷◌, length, All, String, Bool, true, false, not, ◌&&◌, ◌||◌, Option, none,
  some, ◌==◌, if◌then◌else◌, String_discrete, ite,
}

pub data Address : Type 0 where
  v4 : ℕ → Address
  v6 : List ℕ → Address

-- What the program calls in Boost.Asio. A failed parse throws there, and is `none` here.
pub record Asio : Type 0 where
  pub make_address : String → Option Address
  pub make_address_v4 : String → Option ℕ
  pub make_address_v6 : String → Option (List ℕ)
  pub to_string : Address → String

-- Printing an IPv6 address is inverted by parsing.
abbrev pub IsPrinting : Asio → Type 0
IsPrinting asio =
    (bytes : List ℕ)
    → length bytes ≡ 16
    → All (λ b. b < 256) bytes
    → asio.make_address_v6 (asio.to_string (v6 bytes)) ≡ some bytes

pub record IpAddress : Type 0 where
  pub ip : String
  pub ip_impl : Address

abbrev pub unspecified : Address
unspecified = v4 0

abbrev pub is_v4 : Address → Bool
is_v4 (v4 n) = true
is_v4 (v6 n) = false

abbrev pub is_v6 : Address → Bool
is_v6 a = not (is_v4 a)

abbrev pub list_eq : List ℕ → List ℕ → Bool
list_eq [] [] = true
list_eq (x ∷ xs) (y ∷ ys) = x == y && list_eq xs ys
list_eq [] (y ∷ ys) = false
list_eq (x ∷ xs) [] = false

abbrev pub address_eq : Address → Address → Bool
address_eq (v4 a) (v4 b) = a == b
address_eq (v6 a) (v6 b) = list_eq a b
address_eq (v4 a) (v6 b) = false
address_eq (v6 a) (v4 b) = false

abbrev pub string_eq : String → String → Bool
string_eq a b = ite (String_discrete a b) true false

unfoldable pub is_empty : IpAddress → Bool
is_empty a = string_eq a.ip "" || address_eq a.ip_impl unspecified

unfoldable pub is_valid : IpAddress → Bool
is_valid a = not (string_eq a.ip "") && not (address_eq a.ip_impl unspecified)

-- `operator==`.
unfoldable pub ip_eq : IpAddress → IpAddress → Bool
ip_eq a b = string_eq a.ip b.ip && address_eq a.ip_impl b.ip_impl

-- The number of an IPv4 address, 0 of any other.
unfoldable pub to_int : IpAddress → ℕ
to_int a = elim a.ip_impl [ v4 n ↦ n | v6 n ↦ 0 ]

module _ (asio : Asio) where
  open asio use {make_address, to_string}

  -- `IPAddress(const std::string&)`: a text that does not parse leaves the default address.
  unfoldable pub ip_address : String → IpAddress
  ip_address ip =
      if string_eq ip ""
      then record { ip = ip; ip_impl = unspecified }
      else elim (make_address ip) [
        | none ↦ record { ip = ip; ip_impl = unspecified }
        | some a ↦ record { ip = ip; ip_impl = a }
      ]

  -- The constructors of `IPv4Address` and `IPv6Address` drop an address of the other family.
  unfoldable pub ipv4_address : String → IpAddress
  unfolding ip_address
  ipv4_address ip =
      let a = ip_address ip in
      if not (string_eq ip "") && not (is_v4 a.ip_impl)
      then record a { ip_impl = unspecified }
      else a

  unfoldable pub ipv6_address : String → IpAddress
  unfolding ip_address
  ipv6_address ip =
      let a = ip_address ip in
      if not (string_eq ip "") && not (is_v6 a.ip_impl)
      then record a { ip_impl = unspecified }
      else a

  -- `IPv4Address::IsValid` and `IPv6Address::IsValid`.
  unfoldable pub ipv4_is_valid : IpAddress → Bool
  unfolding is_valid
  ipv4_is_valid a = is_valid a && is_v4 a.ip_impl
