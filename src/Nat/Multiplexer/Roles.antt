-- ===== src/Nat/Multiplexer/Roles.antt =====
-- What the operations of a multiplexer keep of its connections.
use fptn_keenetic.Base.{
  ℕ, ◌+◌, ◌≡◌, refl, List, [], ◌∷◌, ◌++◌, arith, Bool, true, false, ◌||◌, ◌==◌, if◌then◌else◌,
  Bool-cases, inl, inr,
}
use fptn_keenetic.Nat.Connection.{ClientConnection, id_of, is_expired, role_total}
use fptn_keenetic.Nat.Multiplexer.{
  Clock, IsSteady, Multiplexer, Buckets, contains, place_by_role, gather, settle,
}

abbrev pub mem : ℕ → List ℕ → Bool
mem i [] = false
mem i (j ∷ js) = j == i || mem i js

pub contains-append :
    (cs ds : List ClientConnection) (j : ℕ) → contains (cs ++ ds) j ≡ contains cs j || contains ds j
unfolding contains
contains-append [] ds j = refl
contains-append (c ∷ cs) ds j = ground (arith, contains-append cs ds j)

pub mem-append : (j : ℕ) (is js : List ℕ) → mem j (is ++ js) ≡ mem j is || mem j js
mem-append j [] js = refl
mem-append j (i ∷ is) js = ground (arith, mem-append j is js)

-- No two connections of a bucket have one id.
abbrev pub Distinct : List ClientConnection → Type 0
Distinct [] = Unit
Distinct (c ∷ cs) = (contains cs (id_of c) ≡ false) × Distinct cs

pub record IsDistinct (m : Multiplexer) : Type 0 where
  pub sending : Distinct m.sending
  pub receiving : Distinct m.receiving

Distinct-append :
    (cs : List ClientConnection) (c : ClientConnection)
    → Distinct cs
    → contains cs (id_of c) ≡ false
    → Distinct (cs ++ (c ∷ []))
unfolding contains
Distinct-append [] c d h = (refl, tt)
Distinct-append (x ∷ cs) c d h =
    (ground (arith, contains-append cs (c ∷ []) (id_of x)), Distinct-append cs c d.1 (ground arith))

pub contains-gather :
    (cs rs : List ClientConnection) (j : ℕ)
    → contains (gather cs rs) j ≡ contains cs j || contains rs j
unfolding contains gather
contains-gather cs [] j = ground arith
contains-gather cs (c ∷ rs) j = ground (
  arith,
  contains-gather (if contains cs (id_of c) then cs else cs ++ (c ∷ [])) rs j,
  contains-append cs (c ∷ []) j,
)

pub gather-Distinct : (cs rs : List ClientConnection) → Distinct cs → Distinct (gather cs rs)
unfolding gather
gather-Distinct cs [] d = d
gather-Distinct cs (c ∷ rs) d = elim (Bool-cases (contains cs (id_of c))) [
  | inl e ↦ rw e (gather-Distinct cs rs d)
  | inr e ↦ rw e (gather-Distinct (cs ++ (c ∷ [])) rs (Distinct-append cs c d e))
]

-- Placing a connection adds its id to the buckets, and no other.
pub contains-place_by_role :
    (clock : Clock) (i : ℕ) (c : ClientConnection) (s r : List ClientConnection) (j : ℕ)
    → IsSteady clock
    → let (s', r') = place_by_role clock i c s r in
      contains s' j || contains r' j ≡ (contains s j || contains r j) || id_of c == j
unfolding place_by_role contains
contains-place_by_role clock i c s r j steady = ground (
  arith,
  role_total c (clock i) (clock (i + 1)) (steady i),
  contains-append s (c ∷ []) j,
  contains-append r (c ∷ []) j,
)

pub place_by_role-sending :
    (clock : Clock) (i : ℕ) (c : ClientConnection) (s r : List ClientConnection)
    → Distinct s
    → contains s (id_of c) ≡ false
    → Distinct (place_by_role clock i c s r).0
unfolding place_by_role
place_by_role-sending clock i c s r d h = ground (arith, Distinct-append s c d h)

pub place_by_role-receiving :
    (clock : Clock) (i : ℕ) (c : ClientConnection) (s r : List ClientConnection)
    → Distinct r
    → contains r (id_of c) ≡ false
    → Distinct (place_by_role clock i c s r).1
unfolding place_by_role
place_by_role-receiving clock i c s r d h = ground (arith, Distinct-append r c d h)

-- Whether an id is in a bucket, or among the expired.
abbrev pub known : Buckets → ℕ → Bool
known b j = (contains b.sending j || contains b.receiving j) || mem j b.expired

pub known-settle :
    (clock : Clock) (i : ℕ) (cs : List ClientConnection) (b : Buckets) (j : ℕ)
    → IsSteady clock
    → known (settle clock i cs b) j ≡ known b j || contains cs j
unfolding settle contains
known-settle clock i [] b j steady = ground arith
known-settle clock i (c ∷ cs) b j steady = elim (Bool-cases (is_expired c (clock i))) [
  | inl e ↦
      rw (e, settle)
        (ground (
          arith,
          known-settle clock (i + 3) cs (record b { expired = b.expired ++ (id_of c ∷ []) }) j
              steady,
          mem-append j b.expired (id_of c ∷ []),
        ))
  | inr e ↦
      let placed = place_by_role clock (i + 1) c b.sending b.receiving in
      rw (e, settle)
        (ground (
          arith,
          known-settle clock (i + 3) cs (record b { sending = placed.0; receiving = placed.1 }) j
              steady,
          contains-place_by_role clock (i + 1) c b.sending b.receiving j steady,
        ))
]

-- An id that is settled is either in a bucket or expired, never both, if no id is met twice.
abbrev pub Apart : List ClientConnection → Buckets → Type 0
Apart cs b = (j : ℕ) → contains cs j ≡ true → known b j ≡ false

pub record IsSettled (b : Buckets) : Type 0 where
  pub sending : Distinct b.sending
  pub receiving : Distinct b.receiving
  pub split :
      (j : ℕ) → mem j b.expired ≡ true → contains b.sending j || contains b.receiving j ≡ false

abbrev after_expiry : ClientConnection → Buckets → Buckets
after_expiry c b = record b { expired = b.expired ++ (id_of c ∷ []) }

abbrev after_placing : Clock → ℕ → ClientConnection → Buckets → Buckets
after_placing clock i c b =
    let placed = place_by_role clock i c b.sending b.receiving in
    record b { sending = placed.0; receiving = placed.1 }

Apart-after_expiry :
    (c : ClientConnection) (cs : List ClientConnection) (b : Buckets)
    → contains cs (id_of c) ≡ false
    → Apart (c ∷ cs) b
    → Apart cs (after_expiry c b)
unfolding contains
Apart-after_expiry c cs b fresh a j h = ground (arith, mem-append j b.expired (id_of c ∷ []), a j)

IsSettled-after_expiry :
    (c : ClientConnection) (cs : List ClientConnection) (b : Buckets)
    → Apart (c ∷ cs) b
    → IsSettled b
    → IsSettled (after_expiry c b)
unfolding contains
IsSettled-after_expiry c cs b a v = record {
  sending = v.sending;
  receiving = v.receiving;
  split = λ j h. ground (arith, mem-append j b.expired (id_of c ∷ []), a (id_of c), v.split j);
}

Apart-after_placing :
    (clock : Clock) (i : ℕ) (c : ClientConnection) (cs : List ClientConnection) (b : Buckets)
    → IsSteady clock
    → contains cs (id_of c) ≡ false
    → Apart (c ∷ cs) b
    → Apart cs (after_placing clock i c b)
unfolding contains
Apart-after_placing clock i c cs b steady fresh a j h =
    ground (arith, contains-place_by_role clock i c b.sending b.receiving j steady, a j)

IsSettled-after_placing :
    (clock : Clock) (i : ℕ) (c : ClientConnection) (cs : List ClientConnection) (b : Buckets)
    → IsSteady clock
    → Apart (c ∷ cs) b
    → IsSettled b
    → IsSettled (after_placing clock i c b)
unfolding contains
IsSettled-after_placing clock i c cs b steady a v = record {
  sending =
      place_by_role-sending clock i c b.sending b.receiving v.sending (ground (arith, a (id_of c)));
  receiving =
      place_by_role-receiving clock i c b.sending b.receiving v.receiving
        (ground (arith, a (id_of c)));
  split = λ j h.
      ground
        (arith, contains-place_by_role clock i c b.sending b.receiving j steady, v.split j, a j);
}

pub settle-IsSettled :
    (clock : Clock) (i : ℕ) (cs : List ClientConnection) (b : Buckets)
    → IsSteady clock
    → Distinct cs
    → Apart cs b
    → IsSettled b
    → IsSettled (settle clock i cs b)
unfolding settle
settle-IsSettled clock i [] b steady d a v = v
settle-IsSettled clock i (c ∷ cs) b steady d a v = elim (Bool-cases (is_expired c (clock i))) [
  | inl e ↦
      rw (e, settle)
        (settle-IsSettled clock (i + 3) cs (after_expiry c b) steady d.1
          (Apart-after_expiry c cs b d.0 a) (IsSettled-after_expiry c cs b a v))
  | inr e ↦
      rw (e, settle)
        (settle-IsSettled clock (i + 3) cs (after_placing clock (i + 1) c b) steady d.1
          (Apart-after_placing clock (i + 1) c cs b steady d.0 a)
          (IsSettled-after_placing clock (i + 1) c cs b steady a v))
]
