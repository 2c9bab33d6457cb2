-- ===== src/Plugins/DomainBlacklist/Blocking.antt =====
-- Which packets src/fptn-client/plugins/blacklist/domain_blacklist.cpp drops.
use fptn_keenetic.Base.{
  ℕ, ◌≡◌, refl, List, [], ◌∷◌, Option, none, some, Bool, true, false, ◌||◌, ◌==◌, ==_iff, arith,
  Bool-cases, inl, inr,
}
use fptn_keenetic.Network.Address.{IpAddress, to_int}
use fptn_keenetic.Packet.{IpPacket, is_ipv4, is_ipv6, get_src_ipv4_address}
use fptn_keenetic.Packet.Reader.{
  Checked, checked, ◌>>=◌, IsSafe, Gives, bind-Gives, test-Gives, value,
}
use fptn_keenetic.Packet.Dns.{
  is_dns, get_dns_domain, get_dns_ipv4_addresses, get_dns_ipv6_addresses,
}
use fptn_keenetic.Packet.Dns.Safety.{dns_readers-IsSafe}
use fptn_keenetic.Plugins.{Host, any_match}
use fptn_keenetic.Plugins.DomainBlacklist.{
  DomainBlacklist, Handled, contains_ipv4, contains_ipv6, save_ipv4, save_ipv6, handle_dns,
  handle_other, handle_packet, run,
}

save_ipv6-empty : (addresses : List IpAddress) → save_ipv6 addresses [] ≡ []
unfolding save_ipv6 contains_ipv6
save_ipv6-empty [] = refl
save_ipv6-empty (a ∷ addresses) = save_ipv6-empty addresses

-- The addresses in a list, by number.
abbrev pub has_number : List IpAddress → ℕ → Bool
has_number [] a = false
has_number (x ∷ addresses) a = a == to_int x || has_number addresses a

contains-save_ipv4 :
    (addresses : List IpAddress) (set : List ℕ) (a : ℕ)
    → contains_ipv4 (save_ipv4 addresses set) a ≡ contains_ipv4 set a || has_number addresses a
unfolding save_ipv4 contains_ipv4
contains-save_ipv4 [] set a = ground arith
contains-save_ipv4 (x ∷ addresses) set a = elim (Bool-cases (contains_ipv4 set (to_int x))) [
  | inl seen ↦
      rw seen (ground (arith, contains-save_ipv4 addresses set a, seen, ==_iff a (to_int x)))
  | inr new ↦ rw new (ground (arith, contains-save_ipv4 addresses (to_int x ∷ set) a))
]

-- A packet leaves the sets, or saves the addresses of an answer.
data Next (s : DomainBlacklist) : DomainBlacklist → Type 0 where
  same : Next s s
  saved :
      (v4 v6 : List IpAddress)
      → Next s (record {
        ipv4_addresses = save_ipv4 v4 s.ipv4_addresses;
        ipv6_addresses = save_ipv6 v6 s.ipv6_addresses;
      })

of_safe : {A : Type 0} (c : Checked A) → IsSafe c → Gives (λ a. Unit {0}) c
of_safe c (a, e) = (a, (e, tt))

module _ (host : Host) (rules : List host.Pattern) where
  open host use {asio, inet, unicode, regex}

  handle_dns-Gives :
      (packet : IpPacket) (s : DomainBlacklist)
      → Gives (λ h. Next s h.0 × (h.1.0 ≡ some packet)) (handle_dns host rules packet s)
  unfolding handle_dns
  handle_dns-Gives packet s =
      let (_, (domain, (v4, v6))) = dns_readers-IsSafe unicode asio inet packet in
      bind-Gives (get_dns_domain unicode packet) _ (of_safe _ domain) (λ found _. named v4 v6 found)
    where
      named :
          IsSafe (get_dns_ipv4_addresses asio inet packet)
          → IsSafe (get_dns_ipv6_addresses asio inet packet)
          → (found : Option (List ℕ))
          → Gives {A = Handled}
              (λ h. Next s h.0 × (h.1.0 ≡ some packet))
              (elim found [
                | none ↦ checked (s, (some packet, false))
                | some domain ↦ elim (any_match regex domain rules) [
                  | false ↦ checked (s, (some packet, false))
                  | true ↦ get_dns_ipv4_addresses asio inet packet >>= λ ipv4.
                      get_dns_ipv6_addresses asio inet packet >>= λ ipv6. checked (
                        record {
                          ipv4_addresses = save_ipv4 ipv4 s.ipv4_addresses;
                          ipv6_addresses = save_ipv6 ipv6 s.ipv6_addresses;
                        },
                        (some packet, true),
                      )
                ]
              ])
      named v4 v6 none = value _ (same, refl)
      named v4 v6 (some domain) =
          test-Gives (any_match regex domain rules)
            (λ _.
              bind-Gives _ _ (of_safe _ v4) (λ ipv4 _.
                bind-Gives _ _ (of_safe _ v6) (λ ipv6 _. value _ (saved ipv4 ipv6, refl))))
            (λ _. value _ (same, refl))

  other-same : (packet : IpPacket) (s : DomainBlacklist) → (handle_other host rules packet s).0 ≡ s
  unfolding handle_other
  other-same packet s = elim (Bool-cases (is_ipv4 packet)) [
    | inl four ↦ rw (handle_other, four) refl
    | inr other ↦ elim (Bool-cases (is_ipv6 packet)) [
      | inl six ↦ rw (handle_other, other, six) refl
      | inr neither ↦ rw (handle_other, other, neither) refl
    ]
  ]

  dns_test : (packet : IpPacket) → IsSafe (is_dns packet)
  dns_test packet = (dns_readers-IsSafe unicode asio inet packet).0

  handle_packet-Gives :
      (packet : IpPacket) (s : DomainBlacklist)
      → Gives (λ h. Next s h.0) (handle_packet host rules packet s)
  unfolding handle_packet
  handle_packet-Gives packet s =
      bind-Gives (is_dns packet) _ (of_safe _ (dns_test packet)) (λ dns _.
        test-Gives dns (λ _. let (h, (e, (next, _))) = handle_dns-Gives packet s in (h, (e, next)))
          (λ _. value _ (rw (other-same packet s) same)))

  -- What every packet keeps, a sequence of packets keeps.
  run-Gives :
      (P : DomainBlacklist → Type 0)
      → ((s s' : DomainBlacklist) → Next s s' → P s → P s')
      → (packets : List IpPacket) (s : DomainBlacklist) → P s
      → Gives P (run host rules packets s)
  unfolding run
  run-Gives P keep [] s p = value s p
  run-Gives P keep (packet ∷ packets) s p =
      bind-Gives (handle_packet host rules packet s) _ (handle_packet-Gives packet s)
        (λ h next. run-Gives P keep packets h.0 (keep s h.0 next p))

  no_ipv6 : (s s' : DomainBlacklist) → Next s s' → s.ipv6_addresses ≡ [] → s'.ipv6_addresses ≡ []
  no_ipv6 s s' same h = h
  no_ipv6 s s' (saved v4 v6) h = rw h (save_ipv6-empty v6)

  still :
      (a : ℕ) (s s' : DomainBlacklist)
      → Next s s'
      → contains_ipv4 s.ipv4_addresses a ≡ true
      → contains_ipv4 s'.ipv4_addresses a ≡ true
  still a s s' same h = h
  still a s s' (saved v4 v6) h = ground (arith, contains-save_ipv4 v4 s.ipv4_addresses a, h)

  pass_other :
      (packet : IpPacket) (s : DomainBlacklist)
      → s.ipv6_addresses ≡ []
      → is_ipv4 packet ≡ false
      → (handle_other host rules packet s).1.0 ≡ some packet
  unfolding handle_other contains_ipv6
  pass_other packet s empty other = elim (Bool-cases (is_ipv6 packet)) [
    | inl six ↦ rw (handle_other, other, six, empty) refl
    | inr neither ↦ rw (handle_other, other, neither) refl
  ]

  -- Whatever packets came before, from the start of the plugin, one that is not IPv4 goes on: the
  -- plugin blocks no IPv6 packet, even from an address of a blacklisted domain.
  pub never_blocks_ipv6 :
      (packets : List IpPacket) (packet : IpPacket)
      → is_ipv4 packet ≡ false
      → Gives
          (λ h. h.1.0 ≡ some packet)
          (run host rules packets (record { ipv4_addresses = []; ipv6_addresses = [] }) >>= λ s.
            handle_packet host rules packet s)
  unfolding handle_packet
  never_blocks_ipv6 packets packet other =
      bind-Gives (run host rules packets (record { ipv4_addresses = []; ipv6_addresses = [] })) _
        (run-Gives (λ s. s.ipv6_addresses ≡ []) no_ipv6 packets _ refl)
        (λ s empty. bind-Gives (is_dns packet) _ (of_safe _ (dns_test packet)) (λ dns _.
          test-Gives dns (λ _. let (h, (e, (_, on))) = handle_dns-Gives packet s in (h, (e, on)))
            (λ _. value _ (pass_other packet s empty other))))

  drop_other :
      (packet : IpPacket) (s : DomainBlacklist)
      → is_ipv4 packet ≡ true
      → contains_ipv4 s.ipv4_addresses (to_int (get_src_ipv4_address asio inet packet)) ≡ true
      → (handle_other host rules packet s).1.0 ≡ none
  unfolding handle_other
  drop_other packet s four seen = rw (handle_other, four, seen) refl

  saves :
      (answer : IpPacket) (s : DomainBlacklist) (domain : List ℕ) (v4 : List IpAddress) (a : ℕ)
      → get_dns_domain unicode answer ≡ checked (some domain)
      → any_match regex domain rules ≡ true
      → get_dns_ipv4_addresses asio inet answer ≡ checked v4
      → has_number v4 a ≡ true
      → Gives (λ h. contains_ipv4 h.0.ipv4_addresses a ≡ true) (handle_dns host rules answer s)
  unfolding handle_dns
  saves answer s domain v4 a named matched found listed =
      let (_, (_, (_, v6))) = dns_readers-IsSafe unicode asio inet answer in
      rw (handle_dns, named, ◌>>=◌, matched, found, ◌>>=◌)
        (bind-Gives (get_dns_ipv6_addresses asio inet answer) _ (of_safe _ v6)
          (λ ipv6 _. value _ (ground (arith, contains-save_ipv4 v4 s.ipv4_addresses a, listed))))

  -- After a DNS answer for a name that a rule matches, whatever packets come in between, an IPv4
  -- packet that is not DNS and comes from one of the answer's IPv4 addresses is dropped.
  pub blocks_later :
      (answer : IpPacket) (s : DomainBlacklist) (domain : List ℕ) (v4 : List IpAddress)
      (packets : List IpPacket) (packet : IpPacket)
      → is_dns answer ≡ checked true
      → get_dns_domain unicode answer ≡ checked (some domain)
      → any_match regex domain rules ≡ true
      → get_dns_ipv4_addresses asio inet answer ≡ checked v4
      → is_dns packet ≡ checked false
      → is_ipv4 packet ≡ true
      → has_number v4 (to_int (get_src_ipv4_address asio inet packet)) ≡ true
      → Gives
          (λ h. h.1.0 ≡ none)
          (handle_packet host rules answer s >>= λ h.
            run host rules packets h.0 >>= λ s'. handle_packet host rules packet s')
  unfolding handle_packet
  blocks_later answer s domain v4 packets packet dns named matched found plain four listed =
      let a = to_int (get_src_ipv4_address asio inet packet) in
      bind-Gives {P = λ h. contains_ipv4 h.0.ipv4_addresses a ≡ true}
        (handle_packet host rules answer s) _
        (rw (handle_packet, dns) (saves answer s domain v4 a named matched found listed))
        (λ h seen.
          bind-Gives (run host rules packets h.0) _
            (run-Gives (λ t. contains_ipv4 t.ipv4_addresses a ≡ true) (still a) packets h.0 seen)
            (λ t seen'. rw (handle_packet, plain) (value _ (drop_other packet t four seen'))))
