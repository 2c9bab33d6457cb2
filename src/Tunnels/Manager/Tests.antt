-- ===== src/Tunnels/Manager/Tests.antt =====
-- Runs of the model of src/fptn-protocol-lib/connection/connection_manager/connection_manager.cpp.
use fptn_keenetic.Base.{
  ℕ, ◌+◌, ◌*◌, ◌≡◌, refl, List, [], ◌∷◌, none, some, true, false, arith, ◌==◌, if◌then◌else◌,
}
use fptn_keenetic.Tunnels.Manager.{
  holds, lacks, Response, ConnectionManager, login_body, login_attempt, login_loop, login, Ending,
  run_loop, logs_failure,
}
use fptn_keenetic.Tunnels.Manager.Login.{Ends, login-Ends}
use fptn_keenetic.Tunnels.Manager.Reconnect.{run-ends, run-goes_on}

program : Unit {0}
unfolding login_body login_attempt login_loop login run_loop logs_failure
program = tt

abbrev fresh : ConnectionManager
fresh = record { running = false; jwt_access_token = []; latest_error = [] }

-- Nobody answers at first, then the server gives the token 7.
abbrev answers : ℕ → Response (List ℕ)
answers i =
    if i == 0
    then record { code = 600; errmsg = []; body = lacks }
    else record { code = 200; errmsg = []; body = holds (7 ∷ []) }

second_attempt : login answers fresh ≡ (record fresh { jwt_access_token = 7 ∷ [] }, true, 2)
unfolding program
second_attempt = refl

login-Ends_example : Ends answers 0 3 (login answers fresh)
login-Ends_example = login-Ends answers fresh refl

-- Every connection ends in the same second.
abbrev at_once : ℕ → Ending
at_once i = record { now = 5; running = true; running_later = true }

run-ends_example :
    run_loop 6 5 at_once 0 0 3 true
    ≡ some (record { connections = 0 + 5; attempts = 5; running = true })
run-ends_example =
    run-ends 5 at_once 5 0 0 3 (omega arith) (λ j. refl) (λ j. refl) (λ j. omega arith)

-- Every connection lasts three minutes.
abbrev long : ℕ → Ending
long i = record { now = (i + 1) * 180_000_000_000; running = true; running_later = true }

run-goes_on_example : run_loop 9 5 long 0 0 0 true ≡ none
run-goes_on_example =
    run-goes_on 5 long 9 0 0 (omega arith) (λ j. refl) (λ j. refl) (λ j. omega arith) (omega arith)
