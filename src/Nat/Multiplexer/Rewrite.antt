-- ===== src/Nat/Multiplexer/Rewrite.antt =====
-- How a session changes the addresses of its packets: `ChangeIPAddressToClientIP`,
-- `ChangeIPAddressToFakeIP` and `DisableChecksumCalculation` of connection_multiplexer.cpp.
use fptn_keenetic.Base.{
  Bool-cases, Option-cases, inl, inr, ℕ, ◌<◌, ◌≡◌, refl, ◌∙◌, List, Option, none, some, Bool, true,
  false, arith, String, if◌then◌else◌, take, drop,
}
use fptn_keenetic.Network.Address.{to_int}
use fptn_keenetic.Packet.{IpPacket, at, set_client_id, is_ipv4, is_ipv6}
use fptn_keenetic.Packet.Rewrite.{
  u32_be, compute_calculate_fields, set_dst_ipv4_address, set_src_ipv4_address,
  set_dst_ipv6_address, set_src_ipv6_address,
}
use fptn_keenetic.Packet.Rewrite.Sent.{
  IsSent, set_dst-IsSent, set_src-IsSent, compute-IsSent, compute-client_id, set_dst-client_id,
  set_dst_ipv6-client_id, if_client_id,
}
use fptn_keenetic.Packet.Transport.Unchanged.{IsIpv4}
use fptn_keenetic.Nat.Connection.{ClientConnection}
use fptn_keenetic.Nat.Multiplexer.{Multiplexer, find_by_client_id}

module _ (inet_pton : String → Option (List ℕ)) where
  -- The packet for a connection that was found.
  unfoldable pub to_connection : ClientConnection → IpPacket → IpPacket
  to_connection c packet = compute_calculate_fields (
      if is_ipv4 packet
      then set_dst_ipv4_address c.params.request.client_tun_vpn_ipv4 packet
      else if is_ipv6 packet
      then set_dst_ipv6_address inet_pton c.params.request.client_tun_vpn_ipv6 packet
      else packet)

  -- A null pointer is `none`.
  unfoldable pub change_ip_address_to_client_ip : IpPacket → ℕ → Multiplexer → Option IpPacket
  change_ip_address_to_client_ip packet client_id m =
      if m.disable_checksum_calculation
      then some (set_client_id client_id packet)
      else elim (find_by_client_id m.receiving client_id) [
        | none ↦ none
        | some c ↦ some (to_connection c (set_client_id client_id packet))
      ]

  unfoldable pub change_ip_address_to_fake_ip : IpPacket → Multiplexer → IpPacket
  change_ip_address_to_fake_ip packet m =
      if m.disable_checksum_calculation
      then packet
      else compute_calculate_fields (
          if is_ipv4 packet
          then set_src_ipv4_address m.fake_client_ipv4 packet
          else if is_ipv6 packet
          then set_src_ipv6_address inet_pton m.fake_client_ipv6 packet
          else packet)

unfoldable pub disable_checksum_calculation : Bool → Multiplexer → Multiplexer
disable_checksum_calculation value m = record m { disable_checksum_calculation = value }

is_ipv4_lem : (packet : IpPacket) → IsIpv4 packet.bytes → is_ipv4 packet ≡ true
unfolding is_ipv4
is_ipv4_lem packet v = rw v.version (ground (arith, v.least, v.whole))

to_connection-client_id :
    (inet_pton : String → Option (List ℕ)) (c : ClientConnection) (p : IpPacket)
    → (to_connection inet_pton c p).client_id ≡ p.client_id
unfolding to_connection
to_connection-client_id inet_pton c p =
    compute-client_id _
    ∙ if_client_id _ _ (is_ipv4 p) (set_dst-client_id c.params.request.client_tun_vpn_ipv4 p) (
        if_client_id _ _ (is_ipv6 p)
          (set_dst_ipv6-client_id inet_pton c.params.request.client_tun_vpn_ipv6 p) refl)

-- Whatever the packet, what is handed to a client carries its id.
pub change_ip-client_id :
    (inet_pton : String → Option (List ℕ)) (packet : IpPacket) (k : ℕ) (m : Multiplexer)
    (q : IpPacket)
    → change_ip_address_to_client_ip inet_pton packet k m ≡ some q
    → q.client_id ≡ k
unfolding change_ip_address_to_client_ip set_client_id
change_ip-client_id inet_pton packet k m q h = elim (Bool-cases m.disable_checksum_calculation) [
  | inl off ↦ ground (arith, h, off)
  | inr on ↦ elim (Option-cases (find_by_client_id m.receiving k)) [
    | inl gone ↦ ground (arith, h, on, gone)
    | inr (c, found) ↦
        ground (
          arith,
          h,
          on,
          found,
          to_connection-client_id inet_pton c (record packet { client_id = k }),
        )
  ]
]

-- Where checksums are on, the client has a receiving connection and the packet a whole IPv4 header
-- and time to live, the packet goes on with the client's id, from the same address to the one
-- that the client's tunnel has, as long as it was, with a header checksum that verifies.
pub to_client_ip :
    (inet_pton : String → Option (List ℕ)) (packet : IpPacket) (client_id : ℕ) (m : Multiplexer)
    (c : ClientConnection)
    → m.disable_checksum_calculation ≡ false
    → find_by_client_id m.receiving client_id ≡ some c
    → IsIpv4 packet.bytes
    → 0 < at packet 8
    → (q : IpPacket) × ((change_ip_address_to_client_ip inet_pton packet client_id m ≡ some q)
        × ((q.client_id ≡ client_id)
            × IsSent
                (take 4 (drop 12 packet.bytes))
                (u32_be (to_int c.params.request.client_tun_vpn_ipv4))
                packet.bytes
                q.bytes))
unfolding change_ip_address_to_client_ip to_connection set_client_id
to_client_ip inet_pton packet client_id m c on found v alive =
    let marked = record packet { client_id = client_id } in
    let q = set_dst_ipv4_address c.params.request.client_tun_vpn_ipv4 marked in
    (
      compute_calculate_fields q,
      (
        rw (on, found, is_ipv4_lem marked v) refl,
        (
          compute-client_id q ∙ set_dst-client_id c.params.request.client_tun_vpn_ipv4 marked,
          compute-IsSent _ _ packet.bytes q
              (set_dst-IsSent c.params.request.client_tun_vpn_ipv4 marked v alive),
        ),
      ),
    )

-- Where checksums are on, a client's packet with a whole IPv4 header and time to live goes on from
-- the session's address to the same destination, as long as it was, with a header checksum that
-- verifies.
pub to_fake_ip :
    (inet_pton : String → Option (List ℕ)) (packet : IpPacket) (m : Multiplexer)
    → m.disable_checksum_calculation ≡ false
    → IsIpv4 packet.bytes
    → 0 < at packet 8
    → IsSent
        (u32_be (to_int m.fake_client_ipv4))
        (take 4 (drop 16 packet.bytes))
        packet.bytes
        (change_ip_address_to_fake_ip inet_pton packet m).bytes
unfolding change_ip_address_to_fake_ip
to_fake_ip inet_pton packet m on v alive =
    rw (on, is_ipv4_lem packet v)
      (compute-IsSent _ _ packet.bytes (set_src_ipv4_address m.fake_client_ipv4 packet)
        (set_src-IsSent m.fake_client_ipv4 packet v alive))
