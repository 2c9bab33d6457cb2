-- ===== src/Plugins.antt =====
-- src/fptn-client/plugins: what the client does to the packets that come from the network, by the
-- rules of domains. A plugin hands back its state, the packet or `none` for a null pointer, and
-- whether it was triggered. RE2 is a parameter: `compile` makes a pattern of a regular expression,
-- where it accepts it, and `partial_match` tests a name. So is Boost's `to_lower`. Texts are bytes.
pub mod DomainBlacklist
pub mod Tunneling
mod Tests
use fptn_keenetic.Base.{
  ℕ, List, [], ◌∷◌, ◌++◌, Option, none, some, Bool, true, false, not, ◌&&◌, ◌||◌, ◌==◌,
  if◌then◌else◌, drop, String,
}
use fptn_keenetic.Network.Address.{Asio, IpAddress}
use fptn_keenetic.Packet.{IpPacket, Inet}
use fptn_keenetic.Text.{trim}

pub record Regex : Type 1 where
  pub Pattern : Type 0
  pub compile : List ℕ → Option Pattern
  pub partial_match : List ℕ → Pattern → Bool

-- What the plugins call outside the repository.
pub record Host : Type 1 where
  pub asio : Asio
  pub inet : Inet
  pub unicode : List ℕ → List ℕ
  pub to_lower : List ℕ → List ℕ
  pub regex : Regex
  pub open regex use *

abbrev pub starts_with : List ℕ → List ℕ → Bool
starts_with [] text = true
starts_with (x ∷ prefix) [] = false
starts_with (x ∷ prefix) (c ∷ text) = x == c && starts_with prefix text

-- "domain:".
abbrev pub domain_prefix : List ℕ
domain_prefix = 100 ∷ 111 ∷ 109 ∷ 97 ∷ 105 ∷ 110 ∷ 58 ∷ []

-- A dot becomes a backslash and a dot.
unfoldable pub escape : List ℕ → List ℕ
escape [] = []
escape (c ∷ domain) = let rest = escape domain in if c == 46 then 92 ∷ 46 ∷ rest else c ∷ rest

-- The domain between "(?:^|\.)" and "$"; the empty text for a wrong rule.
unfoldable pub domain_to_regex : (List ℕ → List ℕ) → List ℕ → List ℕ
domain_to_regex to_lower pattern =
    let trimmed = trim pattern in
    if not (starts_with domain_prefix trimmed) then [] else elim (drop 7 trimmed) [
      | [] ↦ []
      | c ∷ domain ↦
          (40 ∷ 63 ∷ 58 ∷ 94 ∷ 124 ∷ 92 ∷ 46 ∷ 41 ∷ [])
          ++ escape (to_lower (c ∷ domain))
          ++ (36 ∷ [])
    ]

-- The loop of the constructors: a rule that is wrong, or does not compile, is left out.
unfoldable pub compile_rules : (host : Host) → List (List ℕ) → List host.Pattern
compile_rules host [] = []
compile_rules host (rule ∷ rules) =
    let rest = compile_rules host rules in
    elim (domain_to_regex host.to_lower rule) [
      | [] ↦ rest
      | c ∷ pattern ↦ elim (host.compile (c ∷ pattern)) [ none ↦ rest | some re ↦ re ∷ rest ]
    ]

-- `std::ranges::any_of` over the rules.
unfoldable pub any_match : (regex : Regex) → List ℕ → List regex.Pattern → Bool
any_match regex domain [] = false
any_match regex domain (re ∷ rules) = regex.partial_match domain re || any_match regex domain rules
