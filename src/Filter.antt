-- ===== src/Filter.antt =====
-- src/fptn-server/filter: the filters that the packets of clients go through.
pub mod AntiScan
pub mod BitTorrent
mod Tests
use fptn_keenetic.Base.{
  ℕ, ◌≡◌, refl, List, [], ◌∷◌, arith, Option, none, some, Bool, true, false, ◌&&◌, if◌then◌else◌,
  All, ◌⊎◌, inl, inr,
}
use fptn_keenetic.Packet.{IpPacket}

-- `BaseFilter`: a null pointer is `none`.
abbrev pub BaseFilter : Type 0
BaseFilter = IpPacket → Option IpPacket

-- `Manager::Apply`.
unfoldable pub apply : List BaseFilter → IpPacket → Option IpPacket
apply [] packet = some packet
apply (filter ∷ filters) packet = elim (filter packet) [
  | none ↦ none
  | some packet' ↦ apply filters packet'
]

-- A filter that lets a packet through as it is, or drops it.
abbrev pub Keeps : IpPacket → BaseFilter → Type 0
Keeps packet filter = (filter packet ≡ none) ⊎ (filter packet ≡ some packet)

abbrev pub passes : IpPacket → List BaseFilter → Bool
passes packet [] = true
passes packet (filter ∷ filters) =
    (elim (filter packet) [ none ↦ false | some _ ↦ true ]) && passes packet filters

-- Where no filter changes the packet, it passes the manager unchanged if it passes every filter,
-- and is dropped otherwise: the order of the filters does not matter.
pub apply_lem :
    (packet : IpPacket) (filters : List BaseFilter)
    → All (Keeps packet) filters
    → apply filters packet ≡ (if passes packet filters then some packet else none)
unfolding apply
apply_lem packet [] h = refl
apply_lem packet (filter ∷ filters) (inl dropped, h) = rw dropped
apply_lem packet (filter ∷ filters) (inr kept, h) = rw kept (apply_lem packet filters h)
