-- ===== src/Tunnels/Mimicry/Tests.antt =====
-- Runs of the pool of
-- src/fptn-protocol-lib/connection/strategies/browser_mimicry/browser_mimicry.cpp.
use fptn_keenetic.Base.{ℕ, ◌≡◌, refl, [], ◌∷◌, some, true, arith, ltb}
use fptn_keenetic.Tunnels.Mimicry.{
  ConnectionContext, creating, BrowserMimicry, Look, remove_from_connection_list, remove_from_both,
  for_each, drop_expired, is_dead, update_status, next_status, enlist, remove_expired_connections,
  update_connections_status, push_back, send,
}
use fptn_keenetic.Tunnels.Mimicry.Lists.{tally}
use fptn_keenetic.Tunnels.Mimicry.Consistent.{
  Reachable, created, pushed, updated, expired, Serves, send-Serves,
}

program : Unit {0}
unfolding remove_expired_connections update_connections_status push_back for_each drop_expired
    is_dead update_status next_status enlist remove_from_both remove_from_connection_list tally
program = tt

-- Connection 1 sends until 5, 2 until 9; 3 has not started.
abbrev new_connection : ℕ → ℕ → ℕ → ConnectionContext
new_connection id until after = record {
  connection_id = id;
  status = creating;
  send_mode_until = until;
  expire_after = after;
}

abbrev at_time : ℕ → Look
at_time now = record { now = now; now_at = λ id. now; is_started = λ id. ltb id 3 }

abbrev empty_pool : BrowserMimicry
empty_pool = record {
  running = true;
  all_connections = [];
  getting_data_connections = [];
  sending_data_connections = [];
}

abbrev three : BrowserMimicry
three =
    push_back (new_connection 3 9 30)
      (push_back (new_connection 2 9 20) (push_back (new_connection 1 5 20) empty_pool))

abbrev later : BrowserMimicry
later = update_connections_status (at_time 6) (update_connections_status (at_time 1) three)

three-Reachable : Reachable three
unfolding push_back tally
three-Reachable =
    pushed (new_connection 3 9 30) refl refl
      (pushed (new_connection 2 9 20) refl refl (pushed (new_connection 1 5 20) refl refl created))

later-Reachable : Reachable later
unfolding program
later-Reachable =
    expired (at_time 7) refl (updated (at_time 6) (updated (at_time 1) three-Reachable))

later_lists : (later.sending_data_connections ≡ 2 ∷ []) × (later.getting_data_connections ≡ 1 ∷ [])
unfolding program
later_lists = (refl, refl)

send-Serves_example : (id : ℕ) × ((send (λ n. 0) later ≡ some id) × Serves later id)
unfolding program
send-Serves_example = send-Serves (λ n. 0) (λ n h. h) later-Reachable refl 1 (omega arith)
