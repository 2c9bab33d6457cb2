-- ===== src/Packet/Dns/Safety.antt =====
-- The DNS readers of src/common/network/ip_packet.h read nothing outside the packet.
use fptn_keenetic.Base.{
  arith, ℕ, zero, suc, ◌+◌, ◌≤◌, ◌≡◌, List, [], ◌∷◌, Option, none, some, Bool, true, false, not,
  ◌&&◌, ◌==◌, ltb, leb, length, if◌then◌else◌, bit_and, ltb→lt, leb→le, All, All-append, Bool-cases,
  inl, inr,
}
use fptn_keenetic.Network.Address.{Asio}
use fptn_keenetic.Packet.{IpPacket, Inet, at, size, is_ipv4, is_ipv6, ipv4_ihl}
use fptn_keenetic.Packet.Reader.{
  Checked, checked, ◌>>=◌, read, read_u16, Gives, IsSafe, read-Gives, bind-Gives, test-Gives, value,
  read_u16-Gives, slice, slice-Gives,
}
use fptn_keenetic.Packet.Dns.{
  dns_payload_ptr, dns_ptr, is_pointer, parse_dns_name, skip_name, skip_questions, dns_answer_start,
  records, dns_records, is_dns, get_dns_domain, get_dns_ipv4_addresses, get_dns_ipv6_addresses,
}

not_less : (a b : ℕ) → ltb a b ≡ false → b ≤ a
not_less a b h = ground arith

abbrev pub Any {ℓ} : {A : Type ℓ} → A → Type 0
Any a = Unit

parse-Gives :
    (rounds : ℕ) (bytes : List ℕ) (base ptr cur : ℕ) (jumped : Bool) (name : List ℕ)
    → Gives Any (parse_dns_name rounds bytes base ptr cur jumped name)
unfolding parse_dns_name
parse-Gives zero bytes base ptr cur jumped name = value _ tt
parse-Gives (suc rounds) bytes base ptr cur jumped name =
    test-Gives (ltb ptr (length bytes))
      (λ h. bind-Gives (read bytes ptr) _ (read-Gives bytes ptr (ltb→lt _ _ h)) (λ len _.
        test-Gives (len == 0) (λ _. value _ tt)
          (λ _.
            test-Gives (is_pointer len)
              (λ _.
                test-Gives (ltb (length bytes) (ptr + 2)) (λ _. value _ tt)
                  (λ k.
                    bind-Gives (read bytes (ptr + 1)) _
                      (read-Gives bytes (ptr + 1) (omega (arith, not_less _ _ k)))
                      (λ low _. parse-Gives rounds bytes base _ _ true name)))
              (λ _.
                test-Gives (ltb (length bytes) (ptr + 1 + len)) (λ _. value _ tt)
                  (λ k.
                    bind-Gives (slice bytes (ptr + 1) len) _
                      (slice-Gives bytes (ptr + 1) len (not_less _ _ k))
                      (λ label _. parse-Gives rounds bytes base (ptr + 1 + len) cur jumped _))))))
      (λ _. value _ tt)

skip_name-Gives : (rounds : ℕ) (bytes : List ℕ) (cur : ℕ) → Gives Any (skip_name rounds bytes cur)
unfolding skip_name
skip_name-Gives zero bytes cur = value _ tt
skip_name-Gives (suc rounds) bytes cur =
    test-Gives (ltb cur (length bytes))
      (λ h. bind-Gives (read bytes cur) _ (read-Gives bytes cur (ltb→lt _ _ h)) (λ l _.
        test-Gives (l == 0) (λ _. value _ tt)
          (λ _.
            test-Gives (is_pointer l) (λ _. value _ tt)
              (λ _. skip_name-Gives rounds bytes (cur + 1 + l)))))
      (λ _. value _ tt)

skip_questions-Gives :
    (questions : ℕ) (bytes : List ℕ) (cur : ℕ) → Gives Any (skip_questions questions bytes cur)
unfolding skip_questions
skip_questions-Gives zero bytes cur = value _ tt
skip_questions-Gives (suc questions) bytes cur =
    test-Gives (ltb cur (length bytes))
      (λ h.
        bind-Gives (skip_name 256 bytes cur) _ (skip_name-Gives 256 bytes cur)
          (λ next _. skip_questions-Gives questions bytes (next + 4)))
      (λ _. value _ tt)

answer_start-Gives : (bytes : List ℕ) (dns : ℕ) → Gives Any (dns_answer_start bytes dns)
unfolding dns_answer_start
answer_start-Gives bytes dns =
    test-Gives (ltb (length bytes) (dns + 12)) (λ _. value _ tt)
      (λ h.
        let room : dns + 12 ≤ length bytes = not_less _ _ h in
        bind-Gives (read bytes (dns + 2)) _ (read-Gives bytes (dns + 2) (omega arith)) (λ flags _.
          test-Gives (bit_and flags 0x80 == 0) (λ _. value _ tt)
            (λ _.
              bind-Gives (read_u16 bytes (dns + 4)) _ (read_u16-Gives bytes (dns + 4) (omega arith))
                (λ qdcount _.
                  bind-Gives (read_u16 bytes (dns + 6)) _
                    (read_u16-Gives bytes (dns + 6) (omega arith))
                    (λ ancount _.
                      test-Gives (ancount == 0) (λ _. value _ tt)
                        (λ _.
                          bind-Gives (skip_questions qdcount bytes (dns + 12)) _
                            (skip_questions-Gives qdcount bytes (dns + 12))
                            (λ cur _. value _ tt)))))))

-- The records that are collected have the length that is asked for.
records-Gives :
    (wanted size answers : ℕ) (bytes : List ℕ) (cur : ℕ) (out : List (List ℕ))
    → All (λ d. length d ≡ size) out
    → Gives (All (λ d. length d ≡ size)) (records wanted size answers bytes cur out)
unfolding records
records-Gives wanted size zero bytes cur out sized = value _ sized
records-Gives wanted size (suc answers) bytes cur out sized =
    test-Gives (ltb cur (length bytes))
      (λ h. bind-Gives (skip_name 256 bytes cur) _ (skip_name-Gives 256 bytes cur) (λ at _.
        test-Gives (ltb (length bytes) (at + 10)) (λ _. value _ sized)
          (λ k.
            let room : at + 10 ≤ length bytes = not_less _ _ k in
            bind-Gives (read_u16 bytes at) _ (read_u16-Gives bytes at (omega arith)) (λ rtype _.
              bind-Gives (read_u16 bytes (at + 8)) _ (read_u16-Gives bytes (at + 8) (omega arith))
                (λ rdlen _.
                  test-Gives (ltb (length bytes) (at + 10 + rdlen)) (λ _. value _ sized)
                    (λ r.
                      test-Gives (rtype == wanted && rdlen == size)
                        (λ same.
                          bind-Gives (slice bytes (at + 10) size) _
                            (slice-Gives bytes (at + 10) size
                              (ground (arith, same, not_less _ _ r)))
                            (λ rdata long.
                              records-Gives wanted size answers bytes (at + 10 + rdlen) _ (
                                All-append (λ d. length d ≡ size) out (rdata ∷ []) sized
                                  (long, tt))))
                        (λ _.
                          records-Gives wanted size answers bytes (at + 10 + rdlen) out sized)))))))
      (λ _. value _ sized)

-- The DNS header lies in the packet.
abbrev Inside : IpPacket → Option ℕ → Type 0
Inside p none = Unit
Inside p (some dns) = dns + 12 ≤ size p

payload-Gives : (p : IpPacket) (udp : ℕ) → Gives (Inside p) (dns_payload_ptr p udp)
unfolding dns_payload_ptr
payload-Gives p udp =
    test-Gives (ltb (size p) (udp + 8)) (λ _. value _ tt)
      (λ h.
        let room : udp + 8 ≤ size p = not_less _ _ h in
        bind-Gives {P = Any} (read_u16 p.bytes udp) _ (read_u16-Gives p.bytes udp (omega arith))
          (λ source _.
            bind-Gives {P = Any} (read_u16 p.bytes (udp + 2)) _
              (read_u16-Gives p.bytes (udp + 2) (omega arith))
              (λ destination _. value _ (inside source destination))))
  where
    inside :
        (source destination : ℕ)
        → Inside p (
            if not (source == 53) && not (destination == 53)
            then none
            else if leb (udp + 8 + 12) (size p)
            then some (udp + 8)
            else none)
    inside source destination = elim (Bool-cases (not (source == 53) && not (destination == 53))) [
      | inl other ↦ rw other tt
      | inr dns ↦ elim (Bool-cases (leb (udp + 8 + 12) (size p))) [
        | inl fits ↦ rw (dns, fits) (leb→le _ _ fits)
        | inr short ↦ rw (dns, short) tt
      ]
    ]

pub dns_ptr-Gives : (p : IpPacket) → Gives (Inside p) (dns_ptr p)
unfolding dns_ptr
dns_ptr-Gives p =
    test-Gives (is_ipv4 p && leb 20 (size p) && at p 9 == 17) (λ _. payload-Gives p (ipv4_ihl p))
      (λ _.
        test-Gives (is_ipv6 p && leb 40 (size p) && at p 6 == 17) (λ _. payload-Gives p 40)
          (λ _. value _ tt))

pub dns_records-Gives :
    (wanted size : ℕ) (p : IpPacket)
    → Gives (All (λ d. length d ≡ size)) (dns_records wanted size p)
unfolding dns_records
dns_records-Gives wanted size p =
    bind-Gives (dns_ptr p) _ (dns_ptr-Gives p) (λ dns inside. found dns)
  where
    from :
        (start : Option (ℕ × ℕ))
        → Gives (All (λ d. length d ≡ size)) (elim start [
          | none ↦ checked []
          | some (cur, ancount) ↦ records wanted size ancount p.bytes cur []
        ])
    from none = value _ tt
    from (some (cur, ancount)) = records-Gives wanted size ancount p.bytes cur [] tt

    found :
        (dns : Option ℕ)
        → Gives (All (λ d. length d ≡ size)) (elim dns [
          | none ↦ checked []
          | some dns ↦ dns_answer_start p.bytes dns >>= λ start. elim start [
            | none ↦ checked []
            | some (cur, ancount) ↦ records wanted size ancount p.bytes cur []
          ]
        ])
    found none = value _ tt
    found (some dns) =
        bind-Gives (dns_answer_start p.bytes dns) _ (answer_start-Gives p.bytes dns)
          (λ start _. from start)

safe : {A : Type 0} {P : A → Type 0} (c : Checked A) → Gives P c → IsSafe c
safe c (a, (e, p)) = (a, e)

pub is_dns-Gives : (p : IpPacket) → Gives Any (is_dns p)
unfolding is_dns
is_dns-Gives p = bind-Gives (dns_ptr p) _ (dns_ptr-Gives p) (λ dns _. value _ tt)

pub domain-Gives : (unicode : List ℕ → List ℕ) (p : IpPacket) → Gives Any (get_dns_domain unicode p)
unfolding get_dns_domain
domain-Gives unicode p = bind-Gives (dns_ptr p) _ (dns_ptr-Gives p) named
  where
    named :
        (dns : Option ℕ)
        → Inside p dns
        → Gives {A = Option (List ℕ)} Any (elim dns [
          | none ↦ checked none
          | some dns ↦ read_u16 p.bytes (dns + 4) >>= λ qdcount. elim (qdcount == 0) [
            | true ↦ checked none
            | false ↦ parse_dns_name 128 p.bytes dns (dns + 12) (dns + 12) false [] >>= λ parsed.
                checked (elim parsed.0 [ [] ↦ none | x ∷ name ↦ some (unicode (x ∷ name)) ])
          ]
        ])
    named none inside = value _ tt
    named (some dns) inside =
        bind-Gives (read_u16 p.bytes (dns + 4)) _ (read_u16-Gives p.bytes (dns + 4) (omega arith))
          (λ qdcount _.
            test-Gives (qdcount == 0) (λ _. value _ tt)
              (λ _.
                bind-Gives (parse_dns_name 128 p.bytes dns (dns + 12) (dns + 12) false []) _
                  (parse-Gives 128 p.bytes dns (dns + 12) (dns + 12) false [])
                  (λ parsed _. value _ tt)))

pub dns_readers-IsSafe :
    (unicode : List ℕ → List ℕ) (asio : Asio) (inet : Inet) (p : IpPacket)
    → IsSafe (is_dns p)
      × (IsSafe (get_dns_domain unicode p)
          × (IsSafe (get_dns_ipv4_addresses asio inet p)
              × IsSafe (get_dns_ipv6_addresses asio inet p)))
unfolding get_dns_ipv4_addresses get_dns_ipv6_addresses
dns_readers-IsSafe unicode asio inet p = (
  safe (is_dns p) (is_dns-Gives p),
  (
    safe (get_dns_domain unicode p) (domain-Gives unicode p),
    (
      safe _ (
          bind-Gives {Q = Any} (dns_records 1 4 p) _ (dns_records-Gives 1 4 p)
            (λ found _. value _ tt)),
      safe _ (
          bind-Gives {Q = Any} (dns_records 28 16 p) _ (dns_records-Gives 28 16 p)
            (λ found _. value _ tt)),
    ),
  ),
)
