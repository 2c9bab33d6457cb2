-- ===== src/Packet/Reader.antt =====
-- Reading through a pointer into a packet, as in src/common/network. A pointer is an offset from
-- the first byte, and a read past the last one, which is undefined, is `out_of_bounds`.
use fptn_keenetic.Base.{
  le→leb, leb, ◌≤◌, take, drop, length-take, length-drop, arith, ℕ, ◌+◌, ◌*◌, ◌^◌, ◌<◌, ◌≡◌, refl,
  List, none, some, Bool, true, false, bit_or, length, get_elem?, get_elem?-lt,
}

pub data Checked {ℓ} (A : Type ℓ) : Type ℓ where
  checked : A → Checked A
  out_of_bounds : Checked A

infixl 5 ◌>>=◌
abbrev pub ◌>>=◌ {ℓ κ} : {A : Type ℓ} {B : Type κ} → Checked A → (A → Checked B) → Checked B
checked a >>= f = f a
out_of_bounds >>= f = out_of_bounds

unfoldable pub read : List ℕ → ℕ → Checked ℕ
read bytes i = elim (get_elem? bytes i) [ none ↦ out_of_bounds | some b ↦ checked b ]

-- `ReadU16Be`.
unfoldable pub read_u16 : List ℕ → ℕ → Checked ℕ
read_u16 bytes i = do
  high ← read bytes i
  low ← read bytes (i + 1)
  checked (bit_or (high * 2 ^ 8) low)

-- `len` bytes that are read from `start` on.
unfoldable pub slice : List ℕ → ℕ → ℕ → Checked (List ℕ)
slice bytes start len = elim (leb (start + len) (length bytes)) [
  | true ↦ checked (take len (drop start bytes))
  | false ↦ out_of_bounds
]

-- The computation reads nothing past the end, and its value is as `P` says.
abbrev pub Gives {ℓ κ} : {A : Type ℓ} → (A → Type κ) → Checked A → Type (ℓ ⊔ κ)
Gives {A} P c = (a : A) × ((c ≡ checked a) × P a)

-- It reads nothing past the end.
abbrev pub IsSafe {ℓ} : {A : Type ℓ} → Checked A → Type ℓ
IsSafe {A} c = (a : A) × (c ≡ checked a)

pub read-Gives : (bytes : List ℕ) (i : ℕ) → i < length bytes → Gives (λ b. Unit {0}) (read bytes i)
unfolding read
read-Gives bytes i h = let (b, e) = get_elem?-lt bytes i h in (b, (rw (e, read) refl, tt))

pub slice_inside :
    (bytes : List ℕ) (start len : ℕ)
    → start + len ≤ length bytes
    → slice bytes start len ≡ checked (take len (drop start bytes))
unfolding slice
slice_inside bytes start len h = rw (le→leb _ _ h, slice) refl

pub slice-Gives :
    (bytes : List ℕ) (start len : ℕ)
    → start + len ≤ length bytes
    → Gives (λ s. length s ≡ len) (slice bytes start len)
slice-Gives bytes start len h = (
  take len (drop start bytes),
  (
    slice_inside bytes start len h,
    omega (arith, length-take len (drop start bytes), length-drop start bytes),
  ),
)

pub bind-Gives {ℓ κ} :
    {A B : Type ℓ} {P : A → Type κ} {Q : B → Type κ} (c : Checked A) (f : A → Checked B)
    → Gives P c
    → ((a : A) → P a → Gives Q (f a))
    → Gives Q (c >>= f)
bind-Gives c f (b, (e, p)) k = rw e (k b p)

pub test-Gives {ℓ κ} :
    {A : Type ℓ} {P : A → Type κ} {x y : Checked A} (b : Bool)
    → (b ≡ true → Gives P x)
    → (b ≡ false → Gives P y)
    → Gives P (elim b [ true ↦ x | false ↦ y ])
test-Gives true h k = h refl
test-Gives false h k = k refl

pub value {ℓ κ} : {A : Type ℓ} {P : A → Type κ} (a : A) → P a → Gives P (checked a)
value a p = (a, (refl, p))

pub read_u16-Gives :
    (bytes : List ℕ) (i : ℕ) → i + 1 < length bytes → Gives (λ b. Unit {0}) (read_u16 bytes i)
unfolding read_u16
read_u16-Gives bytes i h =
    bind-Gives (read bytes i) _ (read-Gives bytes i (omega arith)) (λ high _.
      bind-Gives (read bytes (i + 1)) _ (read-Gives bytes (i + 1) h) (λ low _. value _ tt))
