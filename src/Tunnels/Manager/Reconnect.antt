-- ===== src/Tunnels/Manager/Reconnect.antt =====
-- Run of src/fptn-protocol-lib/connection/connection_manager/connection_manager.cpp.
use fptn_keenetic.Base.{
  ℕ, zero, suc, ◌+◌, ◌-◌, ◌≤◌, ◌<◌, ◌≡◌, refl, subst, ◌∙◌, none, some, Bool, true, false, ◌&&◌, ltb,
  leb, lt→ltb, le→leb, Bool-cases, inl, inr, arith,
}
use fptn_keenetic.Tunnels.Manager.{Ending, Outcome, reconnection_window, run_loop, logs_failure}

silent : (a o : Outcome) → some a ≡ some o → logs_failure a ≡ false → logs_failure o ≡ false
unfolding logs_failure
silent a o e h = let same : a ≡ o = cc in subst (λ x. logs_failure x ≡ false) same h

module _ (max_reconnections : ℕ) (endings : ℕ → Ending) where
  one_more :
      (fuel i attempts window_start : ℕ)
      → attempts < max_reconnections
      → (endings i).running ≡ true
      → (endings i).running_later ≡ true
      → (endings i).now < window_start + reconnection_window
      → run_loop (suc fuel) max_reconnections endings i attempts window_start true
        ≡ run_loop fuel max_reconnections endings (i + 1) (attempts + 1) window_start true
  unfolding run_loop
  one_more fuel i attempts window_start h alive later soon =
      let more : ltb attempts max_reconnections ≡ true = lt→ltb _ _ h in
      let within : leb reconnection_window ((endings i).now - window_start) ≡ false =
        ground (arith, soon) in
      rw (more, alive, within, later, run_loop) refl

  -- Where nobody stops the manager and every connection ends within two minutes of the start of the
  -- window, it makes just the connections that are left of `max_reconnections`, and ends by itself;
  -- one round of fuel more than these is enough.
  pub run-ends :
      (left i attempts window_start : ℕ)
      → attempts + left ≡ max_reconnections
      → ((j : ℕ) → (endings j).running ≡ true)
      → ((j : ℕ) → (endings j).running_later ≡ true)
      → ((j : ℕ) → (endings j).now < window_start + reconnection_window)
      → run_loop (suc left) max_reconnections endings i attempts window_start true
        ≡ some (record { connections = i + left; attempts = max_reconnections; running = true })
  unfolding run_loop
  run-ends zero i attempts window_start e alive later soon =
      let full : ltb attempts max_reconnections ≡ false = ground arith in
      rw (full, run_loop) (ground (arith, e))
  run-ends (suc left) i attempts window_start e alive later soon =
      let rest = run-ends left (i + 1) (attempts + 1) window_start (omega arith) alive later soon in
      one_more (suc left) i attempts window_start (omega arith) (alive i) (later i) (soon i)
      ∙ rest
      ∙ ground arith

  -- However Run ends, it does not log a failure, unless it makes no connection at all.
  pub run-logs_failure :
      (fuel i attempts window_start : ℕ) (running : Bool) (o : Outcome)
      → 0 < max_reconnections
      → run_loop fuel max_reconnections endings i attempts window_start running ≡ some o
      → logs_failure o ≡ false
  unfolding run_loop logs_failure
  run-logs_failure zero i attempts window_start running o pos h = cc
  run-logs_failure (suc fuel) i attempts window_start running o pos h =
      elim (Bool-cases (running && ltb attempts max_reconnections)) [
        | inr over ↦
            silent (record { connections = i; attempts = attempts; running = running }) o
              (rw (over, run_loop) at h) (ground (arith, over))
        | inl more ↦ elim (Bool-cases (endings i).running) [
          | inr stopped ↦
              silent (record { connections = i + 1; attempts = attempts; running = false }) o
                (rw (more, stopped, run_loop) at h) refl
          | inl alive ↦
              elim (Bool-cases (leb reconnection_window ((endings i).now - window_start))) [
                | inl past ↦
                    run-logs_failure fuel (i + 1) 0 (endings i).now (endings i).running_later o pos
                      (rw (more, alive, past, run_loop) at h)
                | inr within ↦
                    run-logs_failure fuel (i + 1) (attempts + 1) window_start
                      (endings i).running_later o pos (rw (more, alive, within, run_loop) at h)
              ]
        ]
      ]

  -- Where nobody stops the manager, the first connection ends two minutes or more after the start of
  -- the window, and every other two minutes or more after the one before, Run goes on for ever, if
  -- it may connect at all.
  pub run-goes_on :
      (fuel i window_start : ℕ)
      → 0 < max_reconnections
      → ((j : ℕ) → (endings j).running ≡ true)
      → ((j : ℕ) → (endings j).running_later ≡ true)
      → ((j : ℕ) → (endings j).now + reconnection_window ≤ (endings (j + 1)).now)
      → window_start + reconnection_window ≤ (endings i).now
      → run_loop fuel max_reconnections endings i 0 window_start true ≡ none
  unfolding run_loop
  run-goes_on zero i window_start pos alive later long first = refl
  run-goes_on (suc fuel) i window_start pos alive later long first =
      let may : ltb 0 max_reconnections ≡ true = lt→ltb _ _ pos in
      let past : leb reconnection_window ((endings i).now - window_start) ≡ true =
        le→leb _ _ (omega arith) in
      rw (may, alive i, past, later i, run_loop)
        (run-goes_on fuel (i + 1) (endings i).now pos alive later long (long i))
