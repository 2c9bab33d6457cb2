-- ===== src/Yaff/Inverse.antt =====
-- What each step of the check in src/fptn-protocol-lib/protocol/yaff/yaff_serializer.cpp has seen
-- where it passes.
use fptn_keenetic.Base.{
  ℕ, zero, suc, ◌+◌, ◌-◌, ◌*◌, ◌/◌, ◌%◌, ◌≤◌, ◌<◌, ◌≡◌, ◌≢◌, inl, inr, refl, ap, sym, ◌∙◌,
  ℕ_discrete, List, Option, none, some, Bool, true, false, ◌==◌, ltb, length, take, drop,
  if◌then◌else◌, Bool-cases, arith,
}
use fptn_keenetic.Packet.Reader.{Checked, checked, out_of_bounds, ◌>>=◌, slice_inside}
use fptn_keenetic.Yaff.{
  Field, u32_mod, read_u32, in_bounds, resolve_string, follow, validate_inner, check_element,
  validate_elements, validate_packet_array,
}
use fptn_keenetic.Yaff.Safety.{format, within}

-- Inversion of a bind that gives a value.
pub bind-eq-checked :
    {A B : Type 0} (c : Checked A) (f : A → Checked B) {b : B}
    → (c >>= f) ≡ checked b
    → (a : A) × (c ≡ checked a) × (f a ≡ checked b)
bind-eq-checked (checked a) f h = (a, refl, h)
bind-eq-checked out_of_bounds f h = cc

pub checked_injective : {A : Type 0} (a b : A) → checked a ≡ checked b → a ≡ b
checked_injective a b h = cc

-- What has passed the test before a read.
pub tested_inverse :
    {A : Type 0} (bytes : List ℕ) (i : ℕ) (refused : A) (next : ℕ → Checked A) {r : A}
    → (elim (in_bounds (length bytes) i 4) [
      | false ↦ checked refused
      | true ↦ read_u32 bytes i >>= next
    ])
      ≡ checked r
    → refused ≢ r
    → (v : ℕ) × (i + 4 ≤ length bytes) × (read_u32 bytes i ≡ checked v) × (next v ≡ checked r)
tested_inverse bytes i refused next {r} h ne = elim (Bool-cases (in_bounds (length bytes) i 4)) [
  | inl y ↦
      let (v, e, k) = bind-eq-checked (read_u32 bytes i) next (rw y at h) in
      (v, within (length bytes) i 4 y, e, k)
  | inr n ↦ absurd (ne (checked_injective refused r (rw n at h)))
]

pub otherwise :
    (b : Bool) (c : Checked Bool)
    → b ≡ false
    → (elim b [ true ↦ checked true | false ↦ c ]) ≡ checked true
    → c ≡ checked true
otherwise true c e h = cc
otherwise false c e h = h

pub both_true :
    (b : Bool) (c : Checked Bool)
    → (elim b [ false ↦ checked false | true ↦ c ]) ≡ checked true
    → (b ≡ true) × (c ≡ checked true)
both_true true c h = (refl, h)
both_true false c h = cc

pub not_refused :
    (b : Bool) (c : Checked Bool)
    → (elim b [ true ↦ checked false | false ↦ c ]) ≡ checked true
    → (b ≡ false) × (c ≡ checked true)
not_refused true c h = cc
not_refused false c h = (refl, h)

pub found :
    {A : Type 0} (o : Option A) (f : A → Checked Bool)
    → (elim o [ none ↦ checked false | some a ↦ f a ]) ≡ checked true
    → (a : A) × (o ≡ some a) × (f a ≡ checked true)
found none f h = cc
found (some a) f h = (a, refl, h)

pub if_some :
    {A : Type 0} (b : Bool) (x y : A)
    → checked (if b then some x else none) ≡ checked (some y)
    → (b ≡ true) × (x ≡ y)
if_some true x y h = (refl, cc)
if_some false x y h = cc

pub follow-some :
    (field : Checked (Option ℕ)) (next : ℕ → Checked Bool) (at : ℕ)
    → field ≡ checked (some at)
    → at ≢ 0
    → follow field next ≡ checked true
    → next at ≡ checked true
unfolding follow
follow-some field next at e ne h =
    let there : (at == 0) ≡ false = ground arith in
    let taken : follow (checked (some at)) next ≡ checked true = rw e at h in
    otherwise (at == 0) (next at) there taken

module _ (batch packet packets payload : Field) where
  pub resolve_string-inverse :
      (bytes : List ℕ) (i : ℕ) (text : ℕ × ℕ)
      → length bytes < u32_mod
      → resolve_string (format batch packet packets payload) bytes i ≡ checked (some text)
      → (text.0 ≡ i + 4) × (read_u32 bytes i ≡ checked text.1) × (i + 4 + text.1 ≤ length bytes)
  unfolding resolve_string
  resolve_string-inverse bytes i (at, size) small h =
      let (len, room, read, k) = tested_inverse bytes i none _ h (λ e. cc) in
      let (y, same) =
        if_some (in_bounds (length bytes) ((i + 4) % u32_mod) len) ((i + 4) % u32_mod, len)
          (at, size) k in
      let at_is : (i + 4) % u32_mod ≡ at = ap (λ (t : ℕ × ℕ). t.0) same in
      let len_is : len ≡ size = ap (λ (t : ℕ × ℕ). t.1) same in
      let fits : (i + 4) % u32_mod + len ≤ length bytes = within _ _ _ y in
      (omega arith, rw (← len_is) read, omega arith)

  pub check_element-inverse :
      (bytes : List ℕ) (table element : ℕ)
      → length bytes < u32_mod
      → table ≤ length bytes
      → check_element (format batch packet packets payload) bytes table element ≡ checked true
      → element ≢ 0
      → (len : ℕ) × (read_u32 bytes (table + element) ≡ checked len)
        × (table + element + 4 + len ≤ length bytes)
        × (validate_inner
              (format batch packet packets payload)
              (take len (drop (table + element + 4) bytes))
            ≡ checked true)
  unfolding check_element
  check_element-inverse bytes table element small room h ne =
      let there : (element == 0) ≡ false = ground arith in
      let (near, k) =
        not_refused (ltb (length bytes - table) element) _ (otherwise (element == 0) _ there h) in
      let (text, resolved, k') =
        bind-eq-checked
          (resolve_string (format batch packet packets payload) bytes ((table + element) % u32_mod))
          _ k in
      let ((at, len), is_text, inner) = found text _ k' in
      let place : (table + element) % u32_mod ≡ table + element = ground (arith, near) in
      let (at_is, read, room') =
        resolve_string-inverse bytes (table + element) (at, len) small
          (rw (place, is_text) at resolved) in
      let inside : at + len ≤ length bytes = omega (arith, at_is, room') in
      (len, read, room', rw at_is at (rw (slice_inside bytes at len inside) at inner))

  -- The entry at `k` of a table that has passed: its text, which holds a good packet.
  pub elements_inverse :
      (rest : ℕ) (bytes : List ℕ) (table i k element : ℕ)
      → length bytes < u32_mod
      → table + (i + rest) * 4 ≤ length bytes
      → validate_elements (format batch packet packets payload) rest bytes table i ≡ checked true
      → i ≤ k
      → k < i + rest
      → read_u32 bytes (table + k * 4) ≡ checked element
      → check_element (format batch packet packets payload) bytes table element ≡ checked true
  unfolding validate_elements
  elements_inverse zero bytes table i k element small room h lo hi r = absurd (omega arith)
  elements_inverse (suc rest) bytes table i k element small room h lo hi r =
      let (e, read, body) =
        bind-eq-checked (read_u32 bytes ((table + i * 4 % u32_mod) % u32_mod)) _ h in
      let (good, this, next) =
        bind-eq-checked (check_element (format batch packet packets payload) bytes table e) _
          body in
      let (ok_here, later) = both_true good _ next in
      let place : (table + i * 4 % u32_mod) % u32_mod ≡ table + i * 4 = omega arith in
      elim (ℕ_discrete k i) [
        | yes same ↦
            let read_here : checked e ≡ checked element = sym (rw place at read) ∙ (rw same at r) in
            rw (checked_injective e element read_here, ok_here) at this
        | no other ↦
            elements_inverse rest bytes table (i + 1) k element small (omega arith) later
              (omega arith) (omega arith) r
      ]

  pub packet_array-inverse :
      (bytes : List ℕ) (array count : ℕ)
      → length bytes < u32_mod
      → validate_packet_array (format batch packet packets payload) bytes array ≡ checked true
      → read_u32 bytes array ≡ checked count
      → (array + 4 + count * 4 ≤ length bytes)
        × (validate_elements (format batch packet packets payload) count bytes (array + 4) 0
            ≡ checked true)
  unfolding validate_packet_array
  packet_array-inverse bytes array count small h r =
      let (n, room, read, k) = tested_inverse bytes array false _ h (λ e. cc) in
      let same : n ≡ count = checked_injective n count (sym read ∙ r) in
      let (few, k') = not_refused (ltb (length bytes / 4) n) _ k in
      let (fits, all) =
        both_true (in_bounds (length bytes) ((array + 4) % u32_mod) (n * 4 % u32_mod)) _ k' in
      let place : (array + 4) % u32_mod ≡ array + 4 = omega arith in
      let inside = within _ _ _ fits in
      let few' : n ≤ length bytes / 4 = ground (arith, few) in
      (omega arith, rw (place, same) at all)
