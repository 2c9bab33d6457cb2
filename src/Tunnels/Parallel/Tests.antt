-- ===== src/Tunnels/Parallel/Tests.antt =====
-- Runs of the model of
-- src/fptn-protocol-lib/connection/strategies/parallel_tunnels/parallel_tunnels.h, as DualTunnel.
use fptn_keenetic.Base.{ℕ, ◌≤◌, ◌≡◌, refl, List, [], ◌∷◌, some, true, false, arith, get_elem?}
use fptn_keenetic.Packet.{
  IpPacket, is_ipv4, has_protocol, is_tcp, is_udp, ipv4_ihl, ip_header_size, read_u16_be,
  get_tcp_src_port, get_udp_src_port,
}
use fptn_keenetic.Tunnels.Parallel.{
  Kind, Channel, ParallelTunnels, Instant, create, start, started, start_of, find_started, send,
  keep, any, is_connected, is_dead, is_healthy, remove_closed_connections, comes_up,
  create_new_connection, stop,
}
use fptn_keenetic.Tunnels.Parallel.Lifetime.{
  slot_seconds, remaining, insert_sorted, sort, back, widen, place, next_lifetime_seconds,
}
use fptn_keenetic.Tunnels.Parallel.Rounds.{
  stopping, answer, answer_all, Surroundings, wants_connection, create_missing_connections,
  notify_connected_once, finish_round, manage,
}
use fptn_keenetic.Tunnels.Parallel.Apart.{distance, apart, next_lifetime-apart}
use fptn_keenetic.Tunnels.Parallel.Pool.{Event, call, round, run, Tame, run-Tame}
use fptn_keenetic.Tunnels.Parallel.Startup.{manage-early}
use fptn_keenetic.Tunnels.Parallel.Sending.{send-reaches}

program : Unit {0}
unfolding create start is_ipv4 has_protocol is_tcp is_udp ipv4_ihl ip_header_size read_u16_be
    get_tcp_src_port get_udp_src_port start_of find_started send keep any is_connected is_dead
    is_healthy remove_closed_connections comes_up create_new_connection stop slot_seconds remaining
    insert_sorted sort back widen place next_lifetime_seconds answer answer_all wants_connection
    create_missing_connections notify_connected_once finish_round manage
program = tt

abbrev dual : Kind
dual = record { connection_count = 2; lifetime_seconds = 600; stagger_seconds = 30 }

abbrev fresh : ParallelTunnels
unfolding create start
fresh = start create

abbrev at : ℕ → Instant
at now = record { now = now; is_started = λ c. true; is_stopped = λ c. false }

abbrev second : ℕ → Surroundings
second n = record {
  removing = at n;
  creating = at n;
  notifying = at n;
  lifetime_now = n;
  created_now = n;
  steady_before = n;
  steady_after = n;
  status = λ i. started;
  meanwhile = [];
}

abbrev rounds : List Event
rounds = round (second 60_000_000_000) ∷ round (second 100_000_000_000) ∷ []

-- The first connection gets a slot, the next, 40 seconds later, 300 seconds more than is left of it.
two_rounds :
    ((run dual rounds fresh).0.connections
      ≡ record { connection_id = 1; close_at = 360_000_000_000 }
        ∷ record { connection_id = 2; close_at = 660_000_000_000 }
        ∷ [])
    × ((run dual rounds fresh).1 ≡ 1)
unfolding program fresh
two_rounds = (refl, refl)

run-Tame_example : Tame dual fresh (run dual (call stopping ∷ rounds) fresh)
unfolding create start
run-Tame_example = run-Tame dual (call stopping ∷ rounds) fresh (omega arith)

abbrev pool : List Channel
pool =
    record { connection_id = 1; close_at = 360_000_000_000 }
    ∷ record { connection_id = 2; close_at = 660_000_000_000 }
    ∷ []

next_lifetime-apart_example :
    (next_lifetime_seconds dual 100_000_000_000 pool ≤ 600)
    × (apart dual 2 ≤ distance (next_lifetime_seconds dual 100_000_000_000 pool) 560)
next_lifetime-apart_example =
    next_lifetime-apart dual 100_000_000_000 pool 1
      (record { connection_id = 2; close_at = 660_000_000_000 }) 560 (omega arith) refl
      (omega arith) (omega arith) (omega arith) (omega arith)

-- A TCP packet from port 3.
abbrev packet : IpPacket
packet = record {
  bytes =
      0x45 ∷ 0 ∷ 0 ∷ 24 ∷ 0 ∷ 0 ∷ 0 ∷ 0 ∷ 64 ∷ 6 ∷ 0 ∷ 0 ∷ 10 ∷ 0 ∷ 0 ∷ 1 ∷ 10 ∷ 0 ∷ 0 ∷ 2 ∷ 0 ∷ 3
      ∷ 0 ∷ 80 ∷ [];
  client_id = 0;
}

abbrev full : ParallelTunnels
full = record fresh { connections = pool }

send-reaches_example :
    (c : Channel) × ((send (at 5) (some packet) full).1 ≡ some c)
    × ((at 5).is_started c.connection_id ≡ true)
    × ((j : ℕ) × (get_elem? pool j ≡ some c))
unfolding program fresh
send-reaches_example =
    send-reaches (at 5) packet full 0 (record { connection_id = 1; close_at = 360_000_000_000 })
      refl (omega arith) refl refl

manage-early_example : manage dual (second 20_000_000_000) (start create) ≡ (create, false)
manage-early_example = manage-early dual (second 20_000_000_000) (omega arith)
