-- ===== src/Nat/Table/Tests.antt =====
-- A short life of a table of src/fptn-server/nat/table.cpp.
use mathlib.Core.List.{Nodup, Nodup-nil, Nodup-cons, not-mem-nil}
use fptn_keenetic.Base.{
  ℕ, ◌*◌, ◌≡◌, refl, List, [], ◌∷◌, arith, none, some, String, String_discrete, ℕ_discrete,
}
use fptn_keenetic.Base.Dict.{find, not-mem_of_find, assign, erase, insert}
use fptn_keenetic.Network.Address.{IpAddress, v4, v6, to_int}
use fptn_keenetic.Network.Ipv4Generator
use fptn_keenetic.Network.Ipv6Generator
use fptn_keenetic.Nat.Connection.{
  ConnectParams, is_bidirectional, is_sending, is_receiving, is_expired,
}
use fptn_keenetic.Nat.Multiplexer
use fptn_keenetic.Nat.Multiplexer.{
  Multiplexer, Clock, IsSteady, contains, remove, place_by_role, has_client_id, empty, gather,
  settle,
}
use fptn_keenetic.Nat.Table.{
  Config, Table, join_session, open_session, add_connection, release_session,
  release_session_if_empty, del_connection_by_client_id, get_multiplexer_by_fake_ipv4,
  get_multiplexer_by_fake_ipv6, get_multiplexer_by_client_id, sweep, erase_clients, release_all,
  finish_update, update_connections_status,
}
use fptn_keenetic.Nat.Table.Invariant.{IsValid}
use fptn_keenetic.Nat.Table.Operations.{Keeps}
use fptn_keenetic.Nat.Table.Routing.{IsRouted}
use fptn_keenetic.Nat.Table.Routing.Calls.{run-IsRouted}
use fptn_keenetic.Nat.Table.History.{Call, adds, deletes, step, run, run-Keeps}

program : Unit {0}
unfolding String_discrete ℕ_discrete find assign insert erase is_bidirectional is_sending
    is_receiving is_expired contains remove place_by_role Multiplexer.create has_client_id
    Multiplexer.add_client_connection Multiplexer.del_connection_by_client_id empty gather settle
    Multiplexer.update_connections_status to_int Ipv4Generator.init Ipv6Generator.init join_session
    open_session add_connection release_session release_session_if_empty del_connection_by_client_id
    get_multiplexer_by_fake_ipv4 get_multiplexer_by_fake_ipv6 get_multiplexer_by_client_id sweep
    erase_clients release_all finish_update update_connections_status step run
program = tt

abbrev pub address : String → ℕ → IpAddress
address ip n = record { ip = ip; ip_impl = v4 n }

abbrev config : Config
config = record {
  tun_ipv4 = address "10.0.0.1" 1;
  tun_ipv4_network = address "10.0.0.0" 0;
  tun_network_ipv4_mask = 30;
  tun_ipv6 = record { ip = "fd00::1"; ip_impl = v6 [] };
  tun_ipv6_network = record { ip = "fd00::"; ip_impl = v6 [] };
  tun_network_ipv6_mask = 126;
}

-- Two sessions fit.
abbrev pub fresh : Table
fresh = record {
  config = config;
  ipv4_generator = Ipv4Generator.init 0 30;
  ipv6_generator = Ipv6Generator.init 0 126;
  free_ipv4 = address "10.0.0.2" 2 ∷ address "10.0.0.3" 3 ∷ [];
  free_ipv6 =
      record { ip = "fd00::2"; ip_impl = v6 [] } ∷ record { ip = "fd00::3"; ip_impl = v6 [] } ∷ [];
  session_to_mplx = [];
  ipv4_to_mplx = [];
  ipv6_to_mplx = [];
  client_to_mplx = [];
  heap = λ p. none;
  next = 0;
}

two-Nodup :
    {A : Type 0} (dec : Discrete A) (a b : A)
    → find {V = ℕ} dec a ((b, 0) ∷ []) ≡ none
    → Nodup (a ∷ b ∷ [])
two-Nodup dec a b h =
    Nodup-cons.1
      (not-mem_of_find {V = ℕ} dec a ((b, 0) ∷ []) h, Nodup-cons.1 (not-mem-nil, Nodup-nil))

pub fresh-IsValid : IsValid fresh
unfolding program
fresh-IsValid = record {
  sessions = λ s p h. ground arith;
  clients = λ c p h. ground arith;
  members = λ s p m c h k l. ground arith;
  listed = tt;
  fresh = λ p m h. ground arith;
  distinct_ipv4 = two-Nodup ℕ_discrete 2 3 refl;
  distinct_ipv6 = two-Nodup String_discrete "fd00::2" "fd00::3" refl;
}

abbrev params_of : ℕ → String → ConnectParams
params_of client_id session = record {
  client_id = client_id;
  request = record {
    url = "/fptn";
    jwt_auth_token = "token";
    session_id = session;
    connection_weight = 1;
    send_duration_ms = 2;
    ttl_ms = 5;
    client_ipv4 = address "192.168.0.1" 10;
    client_tun_vpn_ipv4 = address "10.10.0.1" 11;
    client_tun_vpn_ipv6 = record { ip = "fc00::1"; ip_impl = v6 [] };
  };
  user = record { username = "user"; bandwidth_bites_seconds = 8000 };
}

-- A reading every millisecond.
abbrev pub clock : Clock
clock i = i * 1_000_000

pub clock-IsSteady : IsSteady clock
clock-IsSteady i = omega arith

-- Two sessions, the first of two connections, of which one is deleted.
abbrev calls : List Call
calls =
    adds 0 (params_of 7 "a") none none
    ∷ adds 1 (params_of 8 "a") none none
    ∷ adds 2 (params_of 9 "b") none none
    ∷ deletes 8
    ∷ []

abbrev busy : Table
busy = run clock calls fresh

-- The update finds all connections expired and frees the addresses.
main :
    (get_multiplexer_by_client_id 7 busy ≡ some 0)
    × (get_multiplexer_by_client_id 8 busy ≡ none)
    × (get_multiplexer_by_client_id 9 busy ≡ some 1)
    × (get_multiplexer_by_fake_ipv4 (address "10.0.0.3" 3) busy ≡ some 1)
    × (busy.free_ipv4 ≡ [])
    × ((update_connections_status clock (λ p. 9) busy).1 ≡ 9 ∷ 7 ∷ [])
    × ((update_connections_status clock (λ p. 9) busy).0.free_ipv4
        ≡ address "10.0.0.2" 2 ∷ address "10.0.0.3" 3 ∷ [])
unfolding program
main = (refl, refl, refl, refl, refl, refl, refl)

pub fresh-IsRouted : IsRouted fresh
unfolding program
fresh-IsRouted = record { ipv4 = λ a p h. cc; ipv6 = λ a p h. cc }

run-IsRouted_example : IsRouted busy
unfolding program
run-IsRouted_example =
    run-IsRouted clock calls fresh clock-IsSteady fresh-IsValid fresh-IsRouted
      (refl, (refl, (refl, (tt, tt))))

run-Keeps_example : Keeps fresh busy
unfolding program
run-Keeps_example =
    run-Keeps clock calls fresh clock-IsSteady fresh-IsValid (refl, (refl, (refl, (tt, tt))))

busy-IsValid : IsValid busy
unfolding program
busy-IsValid =
    (run-Keeps clock calls fresh clock-IsSteady fresh-IsValid
      (refl, (refl, (refl, (tt, tt))))).valid

abbrev first : Multiplexer
first =
    (Multiplexer.del_connection_by_client_id 8
      (Multiplexer.add_client_connection clock 1 (params_of 8 "a") (
        Multiplexer.create clock 0 (params_of 7 "a") (address "10.0.0.2" 2)
          (record { ip = "fd00::2"; ip_impl = v6 [] }) none none)).0).0

abbrev second : Multiplexer
second =
    Multiplexer.create clock 2 (params_of 9 "b") (address "10.0.0.3" 3)
      (record { ip = "fd00::3"; ip_impl = v6 [] }) none none
