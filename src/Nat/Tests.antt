-- ===== src/Nat/Tests.antt =====
-- Runs of a connection and a multiplexer of src/fptn-server/nat.
use fptn_keenetic.Base.{ℕ, ◌*◌, ◌≡◌, refl, [], ◌∷◌, arith, true, false, none}
use fptn_keenetic.Network.Address.{IpAddress, v4}
use fptn_keenetic.Nat.Connection.{
  ConnectParams, ClientConnection, is_bidirectional, is_sending, is_receiving, is_expired,
}
use fptn_keenetic.Nat.Multiplexer.{
  Clock, IsSteady, Multiplexer, contains, remove, place_by_role, accept, create, has_client_id,
  add_client_connection, del_connection_by_client_id, empty, gather, settle,
  update_connections_status,
}

program : Unit {0}
unfolding is_bidirectional is_sending is_receiving is_expired contains remove place_by_role create
    has_client_id add_client_connection del_connection_by_client_id empty gather settle
    update_connections_status
program = tt

abbrev address : ℕ → IpAddress
address n = record { ip = "10.0.0.1"; ip_impl = v4 n }

-- A connection that sends for 2 ms and lives for `ttl` ms.
abbrev params_of : ℕ → ℕ → ConnectParams
params_of client_id ttl = record {
  client_id = client_id;
  request = record {
    url = "/fptn";
    jwt_auth_token = "token";
    session_id = "session";
    connection_weight = 1;
    send_duration_ms = 2;
    ttl_ms = ttl;
    client_ipv4 = address 1;
    client_tun_vpn_ipv4 = address 2;
    client_tun_vpn_ipv6 = address 3;
  };
  user = record { username = "user"; bandwidth_bites_seconds = 8000 };
}

-- A reading every millisecond.
abbrev clock : Clock
clock i = i * 1_000_000

clock-IsSteady : IsSteady clock
clock-IsSteady i = omega arith

abbrev connection : ClientConnection
connection = accept clock 1 (params_of 7 5)

abbrev one : Multiplexer
one = create clock 0 (params_of 7 5) (address 4) (address 5) none none

abbrev bidirectional : Multiplexer
bidirectional = record one { receiving = connection ∷ [] }

-- A connection sends, then receives, then has expired.
main :
    (is_sending connection 2_000_000 ≡ true)
    × (is_sending connection 3_000_000 ≡ false)
    × (is_receiving connection 3_000_000 ≡ true)
    × (is_expired connection 6_000_000 ≡ true)
    × ((update_connections_status clock 5 one).1 ≡ 7 ∷ [])
    × (empty (update_connections_status clock 5 one).0 ≡ true)
unfolding program
main = (refl, refl, refl, refl, refl, refl)
