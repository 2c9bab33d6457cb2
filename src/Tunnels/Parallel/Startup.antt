-- ===== src/Tunnels/Parallel/Startup.antt =====
-- The first round of src/fptn-protocol-lib/connection/strategies/parallel_tunnels/parallel_tunnels.h.
use fptn_keenetic.Base.{◌-◌, ◌*◌, ◌<◌, ◌≡◌, true, false, ltb, lt→ltb, arith}
use fptn_keenetic.Tunnels.Parallel.{Kind, create, start, seconds, keep, remove_closed_connections}
use fptn_keenetic.Tunnels.Parallel.Rounds.{
  Surroundings, wants_connection, create_missing_connections, finish_round, manage,
}

-- A new pool, where the time of the last connection is still that of the clock's start, gives up in
-- its first round, makes no attempt to connect and calls nobody, as long as the steady clock shows
-- less than the interval between two connections.
pub manage-early :
    (k : Kind) (s : Surroundings)
    → s.steady_before < k.stagger_seconds * seconds
    → manage k s (start create) ≡ (create, false)
unfolding create start manage finish_round create_missing_connections wants_connection
    remove_closed_connections keep
manage-early k s early =
    let some_seconds : ltb 0 k.stagger_seconds ≡ true =
      lt→ltb 0 k.stagger_seconds (grind (arith, early)) in
    let soon : ltb (s.steady_before - 0) (k.stagger_seconds * seconds) ≡ true =
      lt→ltb _ _ (omega (arith, early)) in
    ground (arith, some_seconds, soon)
