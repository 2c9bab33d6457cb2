-- ===== src/Packet/Transport/Unchanged.antt =====
-- What the checksums of an IPv4 packet depend on, which writing them leaves as it is.
use fptn_keenetic.Base.{
  ℕ, zero, suc, ◌+◌, ◌*◌, ◌/◌, ◌%◌, ◌^◌, ◌≤◌, ◌<◌, ◌≡◌, refl, ap, ◌∙◌, List, [], ◌∷◌, arith, Bool,
  true, false, ◌==◌, ltb, if◌then◌else◌, length, take, drop, get_or,
}
use fptn_keenetic.Base.Bits.{bit_and_low, bit_or-eq-add}
use fptn_keenetic.Packet.Checksum.{add_words}
use fptn_keenetic.Packet.Bytes.{AreBytes}
use fptn_keenetic.Packet.Transport.{
  ihl, u16_at, seal, as_is, never_zero, ipv4_transport_len, ipv4_pseudo_header,
  checksum_ipv4_header, checksum_tcp_ipv4, checksum_udp_ipv4, checksum_icmp_ipv4,
  checksum_ipv4_transport, recalculate_checksums,
}
use fptn_keenetic.Packet.Transport.Seal.{
  length-seal, seal-AreBytes, drop-seal, slice-seal, get_or-seal,
}

-- The bytes of an IPv4 packet whose header is whole.
pub record IsIpv4 (p : List ℕ) : Type 0 where
  pub bytes : AreBytes p
  pub version : get_or p 0 0 / 2 ^ 4 ≡ 4
  pub least : 20 ≤ ihl p
  pub whole : ihl p ≤ length p

-- Where the header of the protocol has its checksum.
abbrev pub checksum_field : ℕ → ℕ
checksum_field protocol = if protocol == 6 then 16 else if protocol == 17 then 6 else 2

-- What the checksums depend on.
pub record SameHeader (p q : List ℕ) : Type 0 where
  pub size : length q ≡ length p
  pub head : (i : ℕ) → i < 10 → get_or q i 0 ≡ get_or p i 0
  pub source : take 4 (drop 12 q) ≡ take 4 (drop 12 p)
  pub destination : take 4 (drop 16 q) ≡ take 4 (drop 16 p)

pub ihl-SameHeader : (p q : List ℕ) → SameHeader p q → ihl q ≡ ihl p
unfolding ihl
ihl-SameHeader p q s = rw (s.head 0 (omega arith)) refl

pub len-SameHeader : (p q : List ℕ) → SameHeader p q → ipv4_transport_len q ≡ ipv4_transport_len p
unfolding ipv4_transport_len u16_at
len-SameHeader p q s =
    rw (ihl-SameHeader p q s, s.size, s.head 2 (omega arith), s.head 3 (omega arith)) refl

pub pseudo-SameHeader :
    (protocol len : ℕ) (p q : List ℕ)
    → SameHeader p q
    → ipv4_pseudo_header protocol len q ≡ ipv4_pseudo_header protocol len p
unfolding ipv4_pseudo_header
pseudo-SameHeader protocol len p q s = rw (s.source, s.destination) refl

seal-SameHeader :
    (finish : ℕ → ℕ) (start field len seed : ℕ) (p : List ℕ)
    → 20 ≤ start
    → SameHeader p (seal finish start field len seed p)
seal-SameHeader finish start field len seed p h = record {
  size = length-seal finish start field len seed p;
  head = λ i less. get_or-seal finish i start field len seed p (omega arith);
  source = slice-seal finish 12 4 start field len seed p (omega arith);
  destination = slice-seal finish 16 4 start field len seed p (omega arith);
}

pub header-SameHeader : (p : List ℕ) → SameHeader p (checksum_ipv4_header p)
unfolding checksum_ipv4_header
header-SameHeader p = record {
  size = length-seal as_is 0 10 (ihl p) 0 p;
  head = λ i less. get_or-seal as_is i 0 10 (ihl p) 0 p (omega arith);
  source = ap (take 4) (drop-seal as_is 12 0 10 (ihl p) 0 p (omega arith));
  destination = ap (take 4) (drop-seal as_is 16 0 10 (ihl p) 0 p (omega arith));
}

pub trans_SameHeader : (p q r : List ℕ) → SameHeader p q → SameHeader q r → SameHeader p r
trans_SameHeader p q r s t = record {
  size = t.size ∙ s.size;
  head = λ i less. t.head i less ∙ s.head i less;
  source = t.source ∙ s.source;
  destination = t.destination ∙ s.destination;
}

-- A step that changes nothing that the checksums depend on.
abbrev pub Keeps : List ℕ → List ℕ → Type 0
Keeps p q = AreBytes p → SameHeader p q × AreBytes q

pub keep_same : (p : List ℕ) → Keeps p p
keep_same p h =
    (record { size = refl; head = λ i less. refl; source = refl; destination = refl }, h)

pub if-Keeps : {p q r : List ℕ} (b : Bool) → Keeps p q → Keeps p r → Keeps p (if b then q else r)
if-Keeps true h k = h
if-Keeps false h k = k

seal-Keeps :
    (finish : ℕ → ℕ) (start field len seed : ℕ) (p : List ℕ)
    → 20 ≤ start
    → Keeps p (seal finish start field len seed p)
seal-Keeps finish start field len seed p least h = (
  seal-SameHeader finish start field len seed p least,
  seal-AreBytes finish start field len seed p h,
)

guarded-Keeps :
    {p q : List ℕ} (a b : Bool) → Keeps p q → Keeps p (if a then p else if b then p else q)
guarded-Keeps {p = p} a b k = if-Keeps a (keep_same p) (if-Keeps b (keep_same p) k)

tcp-Keeps : (p : List ℕ) → 20 ≤ ihl p → Keeps p (checksum_tcp_ipv4 p)
unfolding checksum_tcp_ipv4
tcp-Keeps p least = guarded-Keeps (ltb (length p) (ihl p + 18)) (ipv4_transport_len p == 0) (
    seal-Keeps as_is (ihl p) 16 (ipv4_transport_len p)
      (add_words (ipv4_pseudo_header 6 (ipv4_transport_len p) p) 0) p least)

udp-Keeps : (p : List ℕ) → 20 ≤ ihl p → Keeps p (checksum_udp_ipv4 p)
unfolding checksum_udp_ipv4
udp-Keeps p least = guarded-Keeps (ltb (length p) (ihl p + 8)) (ipv4_transport_len p == 0) (
    seal-Keeps never_zero (ihl p) 6 (ipv4_transport_len p)
      (add_words (ipv4_pseudo_header 17 (ipv4_transport_len p) p) 0) p least)

icmp-Keeps : (p : List ℕ) → 20 ≤ ihl p → Keeps p (checksum_icmp_ipv4 p)
unfolding checksum_icmp_ipv4
icmp-Keeps p least =
    guarded-Keeps (ltb (length p) (ihl p + 4)) (ipv4_transport_len p == 0)
      (seal-Keeps as_is (ihl p) 2 (ipv4_transport_len p) 0 p least)

pub transport-Keeps : (p : List ℕ) → 20 ≤ ihl p → Keeps p (checksum_ipv4_transport p)
unfolding checksum_ipv4_transport
transport-Keeps p least = if-Keeps (get_or p 9 0 == 6) (tcp-Keeps p least) (
    if-Keeps (get_or p 9 0 == 17) (udp-Keeps p least)
      (if-Keeps (get_or p 9 0 == 1) (icmp-Keeps p least) (keep_same p)))

pub ihl-small : (p : List ℕ) → ihl p < 2 ^ 16
unfolding ihl
ihl-small p =
    omega (
      arith,
      rw whole at (bit_and_low 4 (get_or p 0 0 / 2 ^ 4) (get_or p 0 0 % 2 ^ 4) (omega arith)),
    )
  where
    whole : get_or p 0 0 / 2 ^ 4 * 2 ^ 4 + get_or p 0 0 % 2 ^ 4 ≡ get_or p 0 0
    whole = omega arith

pub below : (a b : ℕ) → b ≤ a → ltb a b ≡ false
below a b h = ground arith

pub recalculate-eq :
    (p : List ℕ)
    → IsIpv4 p
    → recalculate_checksums p ≡ checksum_ipv4_header (checksum_ipv4_transport p)
unfolding recalculate_checksums
recalculate-eq p v =
    rw
      (
        below (length p) 1 (omega (arith, v.least, v.whole)),
        v.version,
        below (length p) 20 (omega (arith, v.least, v.whole)),
      )
      refl

pub get_or-byte : (p : List ℕ) (i : ℕ) → AreBytes p → get_or p i 0 < 256
get_or-byte [] i h = omega arith
get_or-byte (b ∷ p) zero h = h.0
get_or-byte (b ∷ p) (suc i) h = get_or-byte p i h.1

pub u16_at-small : (p : List ℕ) (i : ℕ) → AreBytes p → u16_at p i < 2 ^ 16
unfolding u16_at
u16_at-small p i h = omega (
  arith,
  rw whole at (bit_or-eq-add 8 (get_or p i 0) (get_or p (i + 1) 0) (get_or-byte p (i + 1) h)),
  get_or-byte p i h,
  get_or-byte p (i + 1) h,
)
  where
    whole : get_or p i 0 * 2 ^ 8 ≡ get_or p i 0 * 2 ^ 8 % 2 ^ 16
    whole = omega (arith, get_or-byte p i h)

pub zero-below : (n : ℕ) → 0 < n → (n == 0) ≡ false
zero-below n h = ground arith
