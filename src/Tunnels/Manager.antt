-- ===== src/Tunnels/Manager.antt =====
-- src/fptn-protocol-lib/connection/connection_manager/connection_manager.cpp: the log-in and
-- the loop that connects again. What the server answers to an attempt
-- is the parameter `answers`, with its JSON read; texts are their bytes. What a strategy does until it
-- ends, and Stop by other threads, are the parameter of the loop. Times are in nanoseconds.
pub mod Login
pub mod Reconnect
mod Tests
use fptn_keenetic.Base.{
  ℕ, zero, suc, ◌+◌, ◌-◌, ◌*◌, ◌^◌, List, [], ◌∷◌, Option, none, some, Bool, true, false, not, ◌&&◌,
  ◌||◌, ◌==◌, ltb, leb, if◌then◌else◌,
}

-- The body of a response: the value of the field that is asked for, none if it is missing, or an
-- exception, with its text, where it is not JSON or not of the type.
pub data Body {ℓ} (A : Type ℓ) : Type ℓ where
  holds : A → Body A
  lacks : Body A
  throws : List ℕ → Body A

pub record Response {ℓ} (A : Type ℓ) : Type ℓ where
  pub code : ℕ
  pub errmsg : List ℕ
  pub body : Body A

pub record ConnectionManager : Type 0 where
  pub running : Bool
  pub jwt_access_token : List ℕ
  pub latest_error : List ℕ

-- What the body of an accepted log-in leads to.
unfoldable pub login_body : Body (List ℕ) → ConnectionManager → ConnectionManager × Option Bool
login_body (holds token) m = (record m { jwt_access_token = token }, some true)
login_body lacks m = (m, none)
login_body (throws what) m = (record m { jwt_access_token = []; latest_error = what }, none)

-- What an attempt to log in leads to: the end with a result, or another attempt.
unfoldable pub login_attempt :
    Response (List ℕ) → ConnectionManager → ConnectionManager × Option Bool
unfolding login_body
login_attempt r m =
    if r.code == 200
    then login_body r.body m
    else if r.code == 401 || r.code == 403
    then (record m { jwt_access_token = []; latest_error = r.errmsg }, some false)
    else (record m { jwt_access_token = []; latest_error = r.errmsg }, none)

-- The loop, with the attempts left; the last number counts the requests.
unfoldable pub login_loop :
    ℕ → ℕ → (ℕ → Response (List ℕ)) → ConnectionManager → ConnectionManager × Bool × ℕ
login_loop zero i answers m = (m, false, i)
login_loop (suc attempts) i answers m =
    let (m', result) = login_attempt (answers i) m in
    elim result [ none ↦ login_loop attempts (i + 1) answers m' | some b ↦ (m', b, i + 1) ]

unfoldable pub login : (ℕ → Response (List ℕ)) → ConnectionManager → ConnectionManager × Bool × ℕ
login answers m = elim m.jwt_access_token [
  | [] ↦ login_loop 3 0 answers m
  | b ∷ token ↦ (m, true, 0)
]

-- Where a connection has ended: the time, whether the manager still runs then, and whether it does
-- after the wait.
pub record Ending : Type 0 where
  pub now : ℕ
  pub running : Bool
  pub running_later : Bool

-- How Run ends: the connections made, the attempts counted in the window, and whether it runs.
pub record Outcome : Type 0 where
  pub connections : ℕ
  pub attempts : ℕ
  pub running : Bool

abbrev pub reconnection_window : ℕ
reconnection_window = 120_000_000_000

-- The loop of Run, with fuel; the clock does not run back.
unfoldable pub run_loop : ℕ → ℕ → (ℕ → Ending) → ℕ → ℕ → ℕ → Bool → Option Outcome
run_loop zero max_reconnections endings i attempts window_start running = none
run_loop (suc fuel) max_reconnections endings i attempts window_start running =
    elim (running && ltb attempts max_reconnections) [
      | false ↦ some (record { connections = i; attempts = attempts; running = running })
      | true ↦ elim (endings i).running [
        | false ↦ some (record { connections = i + 1; attempts = attempts; running = false })
        | true ↦ elim (leb reconnection_window ((endings i).now - window_start)) [
          | true ↦
              run_loop fuel max_reconnections endings (i + 1) 0 (endings i).now
                (endings i).running_later
          | false ↦
              run_loop fuel max_reconnections endings (i + 1) (attempts + 1) window_start
                (endings i).running_later
        ]
      ]
    ]

-- Whether Run logs at its end that no connection could be made.
unfoldable pub logs_failure : Outcome → Bool
logs_failure o = o.running && o.attempts == 0
