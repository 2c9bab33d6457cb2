-- ===== src/Tunnels/Manager/Login.antt =====
-- Login of src/fptn-protocol-lib/connection/connection_manager/connection_manager.cpp.
use fptn_keenetic.Base.{
  ◌<◌, sym, ◌∙◌, Option, none, some, ℕ, zero, suc, ◌+◌, ◌-◌, ◌≡◌, refl, List, [], ◌∷◌, Bool, true,
  false, ◌||◌, ◌==◌, ==_iff, ◌⊎◌, inl, inr, Bool-cases, All, arith,
}
use fptn_keenetic.Tunnels.Manager.{
  Body, holds, lacks, throws, Response, ConnectionManager, login_body, login_attempt, login_loop,
  login,
}

abbrev pub Grants : Response (List ℕ) → List ℕ → Type 0
Grants r token = (r.code ≡ 200) × (r.body ≡ holds token)

abbrev pub Refuses : Response (List ℕ) → Type 0
Refuses r = (r.code ≡ 401) ⊎ (r.code ≡ 403)

-- Neither.
abbrev pub IsOpen : Response (List ℕ) → Type 0
IsOpen r = ((token : List ℕ) → ¬ Grants r token) × (¬ Refuses r)

-- `n` answers from the `i`-th.
abbrev pub answers_from : (ℕ → Response (List ℕ)) → ℕ → ℕ → List (Response (List ℕ))
answers_from answers i zero = []
answers_from answers i (suc n) = answers i ∷ answers_from answers (i + 1) n

-- What the last answer, behind those that leave it open, has led to.
abbrev pub Last : (ℕ → Response (List ℕ)) → ℕ → ConnectionManager → Bool → ℕ → Type 0
Last answers at m true left = Grants (answers at) m.jwt_access_token
Last answers at m false left =
    (m.jwt_access_token ≡ []) × (((left ≡ 0) × IsOpen (answers at)) ⊎ Refuses (answers at))

-- The attempts come to their end at the `n`-th from the `i`-th, of `attempts`.
abbrev pub Ends : (ℕ → Response (List ℕ)) → ℕ → ℕ → ConnectionManager × Bool × ℕ → Type 0
Ends answers i attempts r =
    (n : ℕ) × (n < attempts)
    × (r.2 ≡ i + n + 1)
    × All IsOpen (answers_from answers i n)
    × Last answers (i + n) r.0 r.1 (attempts - (n + 1))

abbrev After : Response (List ℕ) → ConnectionManager → Option Bool → Type 0
After r m none = IsOpen r × (m.jwt_access_token ≡ [])
After r m (some true) = Grants r m.jwt_access_token
After r m (some false) = Refuses r × (m.jwt_access_token ≡ [])

body_decides :
    (r : Response (List ℕ)) (m : ConnectionManager) (b : Body (List ℕ))
    → r.body ≡ b
    → r.code ≡ 200
    → m.jwt_access_token ≡ []
    → let r' = login_body b m in After r r'.0 r'.1
unfolding login_body
body_decides r m (holds token) e ok blank = (ok, e)
body_decides r m lacks e ok blank = (
  (λ token g. cc (sym e ∙ g.1), λ f. elim f [ inl p ↦ omega arith | inr p ↦ omega arith ]),
  blank,
)
body_decides r m (throws what) e ok blank =
    ((λ token g. cc (sym e ∙ g.1), λ f. elim f [ inl p ↦ omega arith | inr p ↦ omega arith ]), refl)

attempt_decides :
    (r : Response (List ℕ)) (m : ConnectionManager)
    → m.jwt_access_token ≡ []
    → After r (login_attempt r m).0 (login_attempt r m).1
unfolding login_attempt
attempt_decides r m blank = elim (Bool-cases (r.code == 200)) [
  | inl ok ↦ rw (ok, login_attempt) (body_decides r m r.body refl ((==_iff _ _).0 ok) blank)
  | inr n ↦ elim (Bool-cases (r.code == 401 || r.code == 403)) [
    | inl y ↦ rw (n, y, login_attempt) (refused r y, refl)
    | inr m' ↦
        rw (n, m', login_attempt)
          (
            (
              λ token g. ground (arith, n, g),
              λ f. elim f [ inl p ↦ ground (arith, m', p) | inr p ↦ ground (arith, m', p) ],
            ),
            refl,
          )
  ]
]
  where
    refused : (r : Response (List ℕ)) → (r.code == 401 || r.code == 403) ≡ true → Refuses r
    refused r y = elim (Bool-cases (r.code == 401)) [
      | inl a ↦ inl ((==_iff _ _).0 a)
      | inr b ↦ inr (ground (arith, b, y))
    ]

Last-along :
    {at at' left left' : ℕ} (answers : ℕ → Response (List ℕ)) (m : ConnectionManager) (b : Bool)
    → at ≡ at'
    → left ≡ left'
    → Last answers at m b left
    → Last answers at' m b left'
Last-along answers m b e e' h = rw (e, e') at h

-- The end at the first answer.
at_first :
    (answers : ℕ → Response (List ℕ)) (i left : ℕ) (m : ConnectionManager) (b : Bool)
    → Last answers i m b left
    → Ends answers i (suc left) (m, b, i + 1)
at_first answers i left m b last =
    (0, omega arith, omega arith, tt, Last-along answers m b (omega arith) (omega arith) last)

settled :
    (attempts i : ℕ) (answers : ℕ → Response (List ℕ)) (m : ConnectionManager)
    (result : Option Bool)
    → After (answers i) m result
    → (0 < attempts
        → m.jwt_access_token ≡ []
        → Ends answers (i + 1) attempts (login_loop attempts (i + 1) answers m))
    → Ends answers i
        (suc attempts)
        (elim result [ none ↦ login_loop attempts (i + 1) answers m | some b ↦ (m, b, i + 1) ])
unfolding login_loop
settled attempts i answers m (some true) h rest = at_first answers i attempts m true h
settled attempts i answers m (some false) h rest =
    at_first answers i attempts m false (h.1, inr h.0)
settled zero i answers m none h rest = at_first answers i 0 m false (h.1, inl (refl, h.0))
settled (suc attempts) i answers m none h rest =
    let (n, below, count, opens, last) = rest (omega arith) h.1 in
    (
      suc n,
      omega arith,
      omega (arith, count),
      (h.0, opens),
      Last-along answers (login_loop (suc attempts) (i + 1) answers m).0 _ (omega arith)
          (omega arith) last,
    )

login_loop-Ends :
    (attempts i : ℕ) (answers : ℕ → Response (List ℕ)) (m : ConnectionManager)
    → 0 < attempts
    → m.jwt_access_token ≡ []
    → Ends answers i attempts (login_loop attempts i answers m)
unfolding login_loop
login_loop-Ends zero i answers m pos blank = absurd (omega arith)
login_loop-Ends (suc attempts) i answers m pos blank =
    settled attempts i answers (login_attempt (answers i) m).0 (login_attempt (answers i) m).1
      (attempt_decides (answers i) m blank)
      (λ more blank'.
        login_loop-Ends attempts (i + 1) answers (login_attempt (answers i) m).0 more blank')

-- Without a token, Login makes one to three requests. All but the last are answered neither by a
-- token nor by 401 or 403. If it succeeds, the last was answered by 200 with the token that is now
-- held; if it fails, no token is held, and the last was answered by 401 or 403, or was the third.
pub login-Ends :
    (answers : ℕ → Response (List ℕ)) (m : ConnectionManager)
    → m.jwt_access_token ≡ []
    → Ends answers 0 3 (login answers m)
unfolding login
login-Ends answers m blank = rw (blank, login) (login_loop-Ends 3 0 answers m (omega arith) blank)
