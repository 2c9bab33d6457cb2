-- ===== src/Nat/Table.antt =====
-- src/fptn-server/nat/table.cpp. Multiplexers are shared objects: the maps hold their addresses,
-- and the heap what stands there, so that all maps see a change. The head of a free list is the
-- back of the vector. `mutex_` makes each method one step; `UpdateConnectionsStatus` is two, as it
-- gives the lock up in between.
pub mod Invariant
pub mod Pool
pub mod Open
pub mod Join
pub mod Release
pub mod Shrink
pub mod Operations
pub mod Update
pub mod Routing
pub mod History
pub mod Tests
use fptn_keenetic.Base.{
  ℕ, zero, suc, ◌+◌, ◌%◌, ◌^◌, List, [], ◌∷◌, ◌++◌, Option, none, some, Bool, true, false, not, ltb,
  ◌==◌, if◌then◌else◌, String, String_discrete, ℕ_discrete, length,
}
use fptn_keenetic.Base.Dict.{Dict, find, insert, erase}
use fptn_keenetic.Network.Address.{Asio, IpAddress, ip_eq, to_int, string_eq}
use fptn_keenetic.Network.Ipv4Generator
use fptn_keenetic.Network.Ipv4Generator.{Ipv4Generator}
use fptn_keenetic.Network.Ipv6Generator
use fptn_keenetic.Network.Ipv6Generator.{Ipv6Generator}
use fptn_keenetic.Nat.Connection.{ConnectParams}
use fptn_keenetic.Nat.Multiplexer
use fptn_keenetic.Nat.Multiplexer.{Multiplexer, Clock, empty}

pub record Config : Type 0 where
  pub tun_ipv4 : IpAddress
  pub tun_ipv4_network : IpAddress
  pub tun_network_ipv4_mask : ℕ
  pub tun_ipv6 : IpAddress
  pub tun_ipv6_network : IpAddress
  pub tun_network_ipv6_mask : ℕ

pub record Table : Type 0 where
  pub config : Config
  pub ipv4_generator : Ipv4Generator
  pub ipv6_generator : Ipv6Generator
  pub free_ipv4 : List IpAddress
  pub free_ipv6 : List IpAddress
  pub session_to_mplx : Dict String ℕ
  pub ipv4_to_mplx : Dict ℕ ℕ
  pub ipv6_to_mplx : Dict String ℕ
  pub client_to_mplx : Dict ℕ ℕ
  pub heap : ℕ → Option Multiplexer
  pub next : ℕ

-- The loops of the constructor; `free` is what the earlier rounds pushed.
unfoldable pub fill_ipv4 :
    Asio → IpAddress → ℕ → Ipv4Generator → List IpAddress → Ipv4Generator × List IpAddress
unfolding Ipv4Generator.get_next_address
fill_ipv4 asio tun zero g free = (g, free)
fill_ipv4 asio tun (suc rounds) g free =
    let (g', ip) = Ipv4Generator.get_next_address asio g in
    fill_ipv4 asio tun rounds g' (if not (ip_eq ip tun) then ip ∷ free else free)

unfoldable pub fill_ipv6 :
    Asio → IpAddress → ℕ → Ipv6Generator → List IpAddress → Ipv6Generator × List IpAddress
unfolding Ipv6Generator.get_next_address
fill_ipv6 asio tun zero g free = (g, free)
fill_ipv6 asio tun (suc rounds) g free =
    let (g', ip) = Ipv6Generator.get_next_address asio g in
    fill_ipv6 asio tun rounds g' (if not (ip_eq ip tun) then ip ∷ free else free)

unfoldable pub capacity : Ipv4Generator → Ipv6Generator → ℕ
capacity g4 g6 =
    let ipv4_available = g4.num_available_addresses in
    let ipv6_available = Ipv6Generator.num_available_addresses g6 in
    if ltb ipv4_available ipv6_available then ipv4_available else ipv6_available % 2 ^ 32

filled : Asio → Config → Ipv4Generator → Ipv6Generator → Table
unfolding fill_ipv4 fill_ipv6 capacity
filled asio config g4 g6 =
    let rounds = capacity g4 g6 in
    let (g4', free4) = fill_ipv4 asio config.tun_ipv4 rounds g4 [] in
    let (g6', free6) = fill_ipv6 asio config.tun_ipv6 rounds g6 [] in
    record {
      config = config;
      ipv4_generator = g4';
      ipv6_generator = g6';
      free_ipv4 = free4;
      free_ipv6 = free6;
      session_to_mplx = [];
      ipv4_to_mplx = [];
      ipv6_to_mplx = [];
      client_to_mplx = [];
      heap = λ p. none;
      next = 0;
    }

-- The constructor; `none` is the exception of a generator.
unfoldable pub create : Asio → Config → Option Table
unfolding filled
create asio config =
    elim (Ipv4Generator.create asio config.tun_ipv4_network config.tun_network_ipv4_mask) [
      | none ↦ none
      | some g4 ↦
          elim (Ipv6Generator.create asio config.tun_ipv6_network config.tun_network_ipv6_mask) [
            | none ↦ none
            | some g6 ↦ some (filled asio config g4 g6)
          ]
    ]

-- Writing through a pointer.
abbrev pub update : (ℕ → Option Multiplexer) → ℕ → Multiplexer → ℕ → Option Multiplexer
update heap p m q = if q == p then some m else heap q

-- `AddConnection` for a session that exists, whose multiplexer `m` stands at `p`.
unfoldable pub join_session : Clock → ℕ → ConnectParams → ℕ → Multiplexer → Table → Table × Option ℕ
join_session clock i params p m t =
    let (m', added) = Multiplexer.add_client_connection clock i params m in
    if not (string_eq m.username params.user.username)
    then (t, none)
    else if not added
    then (t, none)
    else (
      record t {
        heap = update t.heap p m';
        client_to_mplx = insert ℕ_discrete params.client_id p t.client_to_mplx;
      },
      some p,
    )

-- `AddConnection` for a new session, which gets the addresses at the back of the free lists.
unfoldable pub open_session :
    Clock
    → ℕ
    → ConnectParams
    → Option ℕ
    → Option ℕ
    → List IpAddress
    → List IpAddress
    → Table
    → Table × Option ℕ
open_session clock i params to_client from_client [] free6 t = (t, none)
open_session clock i params to_client from_client (fake_ipv4 ∷ free4) [] t = (t, none)
open_session clock i params to_client from_client (fake_ipv4 ∷ free4) (fake_ipv6 ∷ free6) t = (
  record t {
    free_ipv4 = free4;
    free_ipv6 = free6;
    session_to_mplx = insert String_discrete params.request.session_id t.next t.session_to_mplx;
    ipv4_to_mplx = insert ℕ_discrete (to_int fake_ipv4) t.next t.ipv4_to_mplx;
    ipv6_to_mplx = insert String_discrete fake_ipv6.ip t.next t.ipv6_to_mplx;
    client_to_mplx = insert ℕ_discrete params.client_id t.next t.client_to_mplx;
    heap =
        update t.heap t.next
          (Multiplexer.create clock i params fake_ipv4 fake_ipv6 to_client from_client);
    next = t.next + 1;
  },
  some t.next,
)

-- The table afterwards, and the multiplexer of the connection. A dangling pointer cannot come up
-- in a valid table; here it fails.
unfoldable pub add_connection :
    Clock → ℕ → ConnectParams → Option ℕ → Option ℕ → Table → Table × Option ℕ
add_connection clock i params to_client from_client t =
    elim (find String_discrete params.request.session_id t.session_to_mplx) [
      | some p ↦ elim (t.heap p) [ some m ↦ join_session clock i params p m t | none ↦ (t, none) ]
      | none ↦ open_session clock i params to_client from_client t.free_ipv4 t.free_ipv6 t
    ]

-- The body of `ReleaseSessionIfEmpty` past its guards.
unfoldable pub release_session : Multiplexer → Table → Table
release_session m t = record t {
  free_ipv4 = m.fake_client_ipv4 ∷ t.free_ipv4;
  free_ipv6 = m.fake_client_ipv6 ∷ t.free_ipv6;
  ipv4_to_mplx = erase ℕ_discrete (to_int m.fake_client_ipv4) t.ipv4_to_mplx;
  ipv6_to_mplx = erase String_discrete m.fake_client_ipv6.ip t.ipv6_to_mplx;
  session_to_mplx = erase String_discrete m.session_id t.session_to_mplx;
}

unfoldable pub release_session_if_empty : ℕ → Table → Table
release_session_if_empty p t = elim (t.heap p) [
  | none ↦ t
  | some m ↦
      if not (empty m) then t else elim (find String_discrete m.session_id t.session_to_mplx) [
        | none ↦ t
        | some q ↦ if not (q == p) then t else release_session m t
      ]
]

unfoldable pub del_connection_by_client_id : ℕ → Table → Table × Bool
del_connection_by_client_id client_id t = elim (find ℕ_discrete client_id t.client_to_mplx) [
  | none ↦ (t, false)
  | some p ↦
      let clients = erase ℕ_discrete client_id t.client_to_mplx in
      elim (t.heap p) [
        | none ↦ (record t { client_to_mplx = clients }, true)
        | some m ↦
            let (m', removed) = Multiplexer.del_connection_by_client_id client_id m in
            (
              release_session_if_empty p
                  (record t { client_to_mplx = clients; heap = update t.heap p m' }),
              true,
            )
      ]
]

unfoldable pub get_multiplexer_by_fake_ipv4 : IpAddress → Table → Option ℕ
get_multiplexer_by_fake_ipv4 ip t = find ℕ_discrete (to_int ip) t.ipv4_to_mplx

unfoldable pub get_multiplexer_by_fake_ipv6 : IpAddress → Table → Option ℕ
get_multiplexer_by_fake_ipv6 ip t = find String_discrete ip.ip t.ipv6_to_mplx

unfoldable pub get_multiplexer_by_client_id : ℕ → Table → Option ℕ
get_multiplexer_by_client_id client_id t = find ℕ_discrete client_id t.client_to_mplx

-- `std::ranges::count_if` over the sessions.
count_username : String → (ℕ → Option Multiplexer) → Dict String ℕ → ℕ
count_username username heap [] = 0
count_username username heap ((s, p) ∷ sessions) =
    let rest = count_username username heap sessions in
    elim (heap p) [
      | none ↦ rest
      | some m ↦ if string_eq m.username username then suc rest else rest
    ]

unfoldable pub get_number_active_session_by_username : String → Table → ℕ
unfolding count_username
get_number_active_session_by_username username t = count_username username t.heap t.session_to_mplx

-- What `UpdateConnectionsStatus` gathers under the shared lock.
pub record Sweep : Type 0 where
  pub heap : ℕ → Option Multiplexer
  pub expired : List ℕ
  pub emptied : List ℕ

-- The loop over the sessions. `reading` says which reading of the clock a session's update starts
-- at.
unfoldable pub sweep : Clock → (ℕ → ℕ) → Dict String ℕ → Sweep → Sweep
sweep clock reading [] s = s
sweep clock reading ((key, p) ∷ sessions) s = elim (s.heap p) [
  | none ↦ sweep clock reading sessions s
  | some m ↦
      let (m', ids) = Multiplexer.update_connections_status clock (reading p) m in
      sweep clock reading sessions (record {
        heap = update s.heap p m';
        expired = s.expired ++ ids;
        emptied = if empty m' then s.emptied ++ (p ∷ []) else s.emptied;
      })
]

unfoldable pub erase_clients : List ℕ → Dict ℕ ℕ → Dict ℕ ℕ
erase_clients [] clients = clients
erase_clients (client_id ∷ expired) clients =
    erase_clients expired (erase ℕ_discrete client_id clients)

unfoldable pub release_all : List ℕ → Table → Table
release_all [] t = t
release_all (p ∷ emptied) t = release_all emptied (release_session_if_empty p t)

-- What it does under the unique lock, to the table that it finds then.
unfoldable pub finish_update : Sweep → Table → Table
unfolding erase_clients release_all
finish_update s t =
    release_all s.emptied (record t { client_to_mplx = erase_clients s.expired t.client_to_mplx })

-- The whole method, where no other thread runs between its two parts. With nothing gathered it
-- returns at once, which the second part amounts to.
unfoldable pub update_connections_status : Clock → (ℕ → ℕ) → Table → Table × List ℕ
unfolding sweep finish_update
update_connections_status clock reading t =
    let s =
      sweep clock reading t.session_to_mplx
        (record { heap = t.heap; expired = []; emptied = [] }) in
    (finish_update s (record t { heap = s.heap }), s.expired)
