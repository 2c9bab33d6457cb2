-- ===== src/Nat/Connection.antt =====
-- src/fptn-server/nat/connect_params.h and client_connection. A time point of the steady clock is
-- its number of nanoseconds; sums stay below the 2 ^ 63 at which the clock's type would overflow.
use fptn_keenetic.Base.{
  ℕ, ◌+◌, ◌-◌, ◌*◌, ◌^◌, ◌≤◌, ◌≡◌, arith, Bool, true, false, not, ◌&&◌, ◌||◌, ltb, leb, ◌==◌,
  String,
}
use fptn_keenetic.Network.Address.{IpAddress, is_empty, string_eq}

pub record Request : Type 0 where
  pub url : String
  pub jwt_auth_token : String
  pub session_id : String
  pub connection_weight : ℕ
  pub send_duration_ms : ℕ
  pub ttl_ms : ℕ
  pub client_ipv4 : IpAddress
  pub client_tun_vpn_ipv4 : IpAddress
  pub client_tun_vpn_ipv6 : IpAddress

pub record User : Type 0 where
  pub username : String
  pub bandwidth_bites_seconds : ℕ

pub record ConnectParams : Type 0 where
  pub client_id : ℕ
  pub request : Request
  pub user : User

abbrev pub max_client_id : ℕ
max_client_id = 2 ^ 64 - 1

unfoldable pub validate : ConnectParams → Bool
validate p =
    not (p.client_id == max_client_id)
    && not (is_empty r.client_ipv4)
    && not (is_empty r.client_tun_vpn_ipv4)
    && not (is_empty r.client_tun_vpn_ipv6)
    && not (string_eq r.jwt_auth_token "")
    && not (string_eq r.session_id "")
  where
    r : Request
    r = p.request

pub record ClientConnection : Type 0 where
  pub params : ConnectParams
  pub accepted_at : ℕ

abbrev pub milliseconds : ℕ → ℕ
milliseconds n = n * 1_000_000

abbrev pub id_of : ClientConnection → ℕ
id_of c = c.params.client_id

unfoldable pub is_bidirectional : ClientConnection → Bool
is_bidirectional c = c.params.request.send_duration_ms == 0 && c.params.request.ttl_ms == 0

abbrev pub send_until : ClientConnection → ℕ
send_until c = c.accepted_at + milliseconds c.params.request.send_duration_ms

-- Each method reads the clock; the reading is its last argument.
unfoldable pub is_sending : ClientConnection → ℕ → Bool
unfolding is_bidirectional
is_sending c now = is_bidirectional c || ltb now (send_until c)

unfoldable pub is_receiving : ClientConnection → ℕ → Bool
unfolding is_bidirectional
is_receiving c now = is_bidirectional c || leb (send_until c) now

unfoldable pub is_expired : ClientConnection → ℕ → Bool
is_expired c now =
    not (c.params.request.ttl_ms == 0)
    && leb (c.accepted_at + milliseconds c.params.request.ttl_ms) now

-- A connection always has a role: of two readings of the clock in order, either it is sending at
-- the first or it is receiving at the second.
pub role_total :
    (c : ClientConnection) (now later : ℕ)
    → now ≤ later
    → is_sending c now || is_receiving c later ≡ true
unfolding is_sending is_receiving
role_total c now later h = ground arith

-- A connection that is not bidirectional sends up to a moment and receives from then on: at one
-- time it has exactly one of the roles.
pub role_exclusive :
    (c : ClientConnection) (now : ℕ)
    → is_bidirectional c ≡ false
    → is_receiving c now ≡ not (is_sending c now)
unfolding is_sending is_receiving
role_exclusive c now h = ground arith
