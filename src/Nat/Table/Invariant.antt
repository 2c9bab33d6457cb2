-- ===== src/Nat/Table/Invariant.antt =====
-- The well-formedness of a table: table.cpp keeps four maps and two free lists in step.
use mathlib.Core.List.{Nodup}
use fptn_keenetic.Base.{
  ℕ, ◌<◌, ◌≡◌, subst, List, [], ◌++◌, map, Option, some, true, false, arith, String,
  String_discrete, ℕ_discrete,
}
use fptn_keenetic.Base.Dict.{keys, find, Listed}
use fptn_keenetic.Network.Address.{to_int}
use fptn_keenetic.Nat.Multiplexer.{Multiplexer, has_client_id, empty}
use fptn_keenetic.Nat.Multiplexer.Roles.{mem, IsDistinct}
use fptn_keenetic.Nat.Table.{Table}

-- All addresses, free or in use.
abbrev pub pool_ipv4 : Table → List ℕ
pool_ipv4 t = map to_int t.free_ipv4 ++ keys t.ipv4_to_mplx

abbrev pub pool_ipv6 : Table → List String
pool_ipv6 t = map (λ a. a.ip) t.free_ipv6 ++ keys t.ipv6_to_mplx

abbrev pub session_of : Table → String → Option ℕ
session_of t s = find String_discrete s t.session_to_mplx

abbrev pub owner_of : Table → ℕ → Option ℕ
owner_of t c = find ℕ_discrete c t.client_to_mplx

-- The session `s` has the multiplexer `m` at `p`, which both address maps know. `emptied` holds the
-- multiplexers that may be empty, about to be released.
pub record IsLive (emptied : List ℕ) (t : Table) (s : String) (p : ℕ) (m : Multiplexer)
    : Type 0 where
  pub stands : t.heap p ≡ some m
  pub named : m.session_id ≡ s
  pub ipv4 : find ℕ_discrete (to_int m.fake_client_ipv4) t.ipv4_to_mplx ≡ some p
  pub ipv6 : find String_discrete m.fake_client_ipv6.ip t.ipv6_to_mplx ≡ some p
  pub occupied : mem p emptied ≡ false → empty m ≡ false
  pub distinct : IsDistinct m

-- The client `c` belongs to the live session with `m` at `p`.
pub record IsClient (expired : List ℕ) (t : Table) (c p : ℕ) (m : Multiplexer) : Type 0 where
  pub stands : t.heap p ≡ some m
  pub live : session_of t m.session_id ≡ some p
  pub member : mem c expired ≡ false → has_client_id m c ≡ true

-- A table in the middle of an update: the clients `expired` are still to be forgotten, and the
-- multiplexers `emptied` to be released.
pub record IsPending (expired emptied : List ℕ) (t : Table) : Type 0 where
  pub sessions :
      (s : String) (p : ℕ) → session_of t s ≡ some p → (m : Multiplexer) × IsLive emptied t s p m
  pub clients : (c p : ℕ) → owner_of t c ≡ some p → (m : Multiplexer) × IsClient expired t c p m
  pub members :
      (s : String) (p : ℕ) (m : Multiplexer) (c : ℕ)
      → session_of t s ≡ some p
      → t.heap p ≡ some m
      → has_client_id m c ≡ true
      → (owner_of t c ≡ some p) × (mem c expired ≡ false)
  pub listed : Listed String_discrete t.session_to_mplx
  pub fresh : (p : ℕ) (m : Multiplexer) → t.heap p ≡ some m → p < t.next
  pub distinct_ipv4 : Nodup (pool_ipv4 t)
  pub distinct_ipv6 : Nodup (pool_ipv6 t)

-- Every session has a multiplexer of its own, with a connection, under an address of each family
-- that no one else has; every client id of the table is of a connection of the session that it
-- leads to, and every connection of a session is found by its client id.
abbrev pub IsValid : Table → Type 0
IsValid t = IsPending [] [] t

-- What never changes in a multiplexer.
pub record SameIdentity (m n : Multiplexer) : Type 0 where
  pub session : n.session_id ≡ m.session_id
  pub ipv4 : n.fake_client_ipv4 ≡ m.fake_client_ipv4
  pub ipv6 : n.fake_client_ipv6 ≡ m.fake_client_ipv6
  pub user : n.username ≡ m.username

-- The multiplexer that stands at the pointer of a session is the session's.
pub IsLive-at :
    {expired emptied : List ℕ} {t : Table} (s : String) (p : ℕ) (m : Multiplexer)
    → IsPending expired emptied t
    → session_of t s ≡ some p
    → t.heap p ≡ some m
    → IsLive emptied t s p m
IsLive-at {expired} {emptied} {t} s p m valid h k =
    let (n, live) = valid.sessions s p h in
    let same : n ≡ m = ground (arith, live.stands) in subst (IsLive emptied t s p) same live
