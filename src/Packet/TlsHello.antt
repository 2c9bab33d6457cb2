-- ===== src/Packet/TlsHello.antt =====
-- The readers of a TLS client hello in src/common/network/ip_utils.h. The loop over the extensions
-- runs on fuel; a result that it does not reach is `none`.
mod Tests
use fptn_keenetic.Base.{
  ℕ, zero, suc, ◌+◌, ◌-◌, ◌*◌, ◌^◌, ◌≤◌, ◌<◌, ◌≡◌, refl, List, [], ◌∷◌, Option, none, some, Bool,
  true, false, not, ◌&&◌, ◌||◌, ◌==◌, ltb, leb, ltb→lt, leb→le, length, take, drop, arith,
}
use fptn_keenetic.Packet.Reader.{
  Checked, checked, ◌>>=◌, slice, slice-Gives, read, read_u16, Gives, IsSafe, read-Gives,
  bind-Gives, test-Gives, value, read_u16-Gives,
}

-- A pointer to the data is not null.
unfoldable pub is_tls_client_hello : List ℕ → Checked Bool
is_tls_client_hello bytes = elim (ltb (length bytes) 6) [
  | true ↦ checked false
  | false ↦ read bytes 0 >>= λ kind. elim (not (kind == 0x16)) [
    | true ↦ checked false
    | false ↦ read_u16 bytes 1 >>= λ ver. elim (ltb ver 0x0301 || ltb 0x0304 ver) [
      | true ↦ checked false
      | false ↦ read bytes 5 >>= λ handshake. checked (handshake == 0x01)
    ]
  ]
]

-- The loop over the extensions between `p` and `ext_end`.
unfoldable pub find_sni : ℕ → List ℕ → ℕ → ℕ → Checked (Option (Option (List ℕ)))
find_sni zero bytes p ext_end = checked none
find_sni (suc fuel) bytes p ext_end = elim (leb (p + 4) ext_end) [
  | false ↦ checked (some none)
  | true ↦ read_u16 bytes p >>= λ type. read_u16 bytes (p + 2) >>= λ elen.
      elim (ltb ext_end (p + 4 + elen)) [
        | true ↦ checked (some none)
        | false ↦ elim (type == 0 && leb 5 elen) [
          | true ↦ read_u16 bytes (p + 4 + 3) >>= λ name_len.
              elim (ltb ext_end (p + 4 + 5 + name_len)) [
                | true ↦ checked (some none)
                | false ↦ slice bytes (p + 4 + 5) name_len >>= λ name. checked (some (some name))
              ]
          | false ↦ find_sni fuel bytes (p + 4 + elen) ext_end
        ]
      ]
]

-- The checks of the lengths before the extensions; each round of the loop takes four bytes.
unfoldable pub get_tls_sni : List ℕ → Checked (Option (Option (List ℕ)))
get_tls_sni bytes = elim (ltb (length bytes) (43 + 1)) [
  | true ↦ checked (some none)
  | false ↦ read bytes 43 >>= λ session. elim (ltb (length bytes) (44 + session + 2)) [
    | true ↦ checked (some none)
    | false ↦ read_u16 bytes (44 + session) >>= λ ciphers.
        elim (ltb (length bytes) (46 + session + ciphers + 1)) [
          | true ↦ checked (some none)
          | false ↦ read bytes (46 + session + ciphers) >>= λ compression.
              elim (ltb (length bytes) (47 + session + ciphers + compression + 2)) [
                | true ↦ checked (some none)
                | false ↦ read_u16 bytes (47 + session + ciphers + compression) >>= λ extensions.
                    elim (ltb (length bytes) (49 + session + ciphers + compression + extensions)) [
                      | true ↦ checked (some none)
                      | false ↦
                          find_sni (length bytes) bytes (49 + session + ciphers + compression)
                            (49 + session + ciphers + compression + extensions)
                    ]
              ]
        ]
  ]
]

unfoldable pub get_tls_session_id : List ℕ → Checked (List ℕ)
get_tls_session_id bytes = elim (ltb (length bytes) (43 + 1)) [
  | true ↦ checked []
  | false ↦ read bytes 43 >>= λ sid_len. elim (ltb (length bytes) (44 + sid_len)) [
    | true ↦ checked []
    | false ↦ slice bytes 44 sid_len
  ]
]

-- The loop has ended.
abbrev Ended : Option (Option (List ℕ)) → Type 0
Ended r = (name : Option (List ℕ)) × (r ≡ some name)

not_less : (a b : ℕ) → ltb a b ≡ false → b ≤ a
not_less a b h = ground arith

find_sni-Gives :
    (fuel : ℕ) (bytes : List ℕ) (p ext_end : ℕ)
    → ext_end ≤ length bytes
    → ext_end - p < fuel
    → Gives Ended (find_sni fuel bytes p ext_end)
unfolding find_sni
find_sni-Gives zero bytes p ext_end inside enough = absurd (omega arith)
find_sni-Gives (suc fuel) bytes p ext_end inside enough =
    test-Gives (leb (p + 4) ext_end)
      (λ h.
        let room : p + 4 ≤ ext_end = leb→le _ _ h in
        bind-Gives (read_u16 bytes p) _ (read_u16-Gives bytes p (omega arith)) (λ type _.
          bind-Gives (read_u16 bytes (p + 2)) _ (read_u16-Gives bytes (p + 2) (omega arith))
            (λ elen _.
              test-Gives (ltb ext_end (p + 4 + elen)) (λ _. value _ (none, refl))
                (λ k.
                  let fits : p + 4 + elen ≤ ext_end = not_less _ _ k in
                  test-Gives (type == 0 && leb 5 elen)
                    (λ s.
                      bind-Gives (read_u16 bytes (p + 4 + 3)) _
                        (read_u16-Gives bytes (p + 4 + 3) (ground (arith, s, fits, inside)))
                        (λ name_len _.
                          test-Gives (ltb ext_end (p + 4 + 5 + name_len))
                            (λ _. value _ (none, refl))
                            (λ l.
                              bind-Gives (slice bytes (p + 4 + 5) name_len) _
                                (slice-Gives bytes (p + 4 + 5) name_len
                                  (omega (arith, not_less _ _ l, inside)))
                                (λ name _. value _ (some name, refl)))))
                    (λ _. find_sni-Gives fuel bytes (p + 4 + elen) ext_end inside (omega arith))))))
      (λ _. value _ (none, refl))

sni-Gives : (bytes : List ℕ) → Gives Ended (get_tls_sni bytes)
unfolding get_tls_sni
sni-Gives bytes =
    test-Gives (ltb (length bytes) (43 + 1)) (λ _. value _ (none, refl))
      (λ a.
        let la : 44 ≤ length bytes = not_less _ _ a in
        bind-Gives (read bytes 43) _ (read-Gives bytes 43 (omega arith)) (λ session _.
          test-Gives (ltb (length bytes) (44 + session + 2)) (λ _. value _ (none, refl))
            (λ b.
              let lb : 44 + session + 2 ≤ length bytes = not_less _ _ b in
              bind-Gives (read_u16 bytes (44 + session)) _
                (read_u16-Gives bytes (44 + session) (omega arith))
                (λ ciphers _.
                  test-Gives (ltb (length bytes) (46 + session + ciphers + 1))
                    (λ _. value _ (none, refl))
                    (λ c.
                      let lc : 46 + session + ciphers + 1 ≤ length bytes = not_less _ _ c in
                      bind-Gives (read bytes (46 + session + ciphers)) _
                        (read-Gives bytes (46 + session + ciphers) (omega arith))
                        (λ compression _.
                          test-Gives (ltb (length bytes) (47 + session + ciphers + compression + 2))
                            (λ _. value _ (none, refl))
                            (λ d. last session ciphers compression (not_less _ _ d))))))))
  where
    last :
        (session ciphers compression : ℕ)
        → 47 + session + ciphers + compression + 2 ≤ length bytes
        → Gives Ended (
            read_u16 bytes (47 + session + ciphers + compression) >>= λ extensions.
            elim (ltb (length bytes) (49 + session + ciphers + compression + extensions)) [
              | true ↦ checked (some none)
              | false ↦
                  find_sni
                    (length bytes)
                    bytes
                    (49 + session + ciphers + compression)
                    (49 + session + ciphers + compression + extensions)
            ])
    last session ciphers compression room =
        bind-Gives (read_u16 bytes (47 + session + ciphers + compression)) _
          (read_u16-Gives bytes (47 + session + ciphers + compression) (omega arith))
          (λ extensions _.
            test-Gives (ltb (length bytes) (49 + session + ciphers + compression + extensions))
              (λ _. value _ (none, refl))
              (λ e.
                let fits : 49 + session + ciphers + compression + extensions ≤ length bytes =
                  not_less _ _ e in
                find_sni-Gives (length bytes) bytes _ _ fits (omega arith)))

-- Whatever the bytes are, the search for the server's name ends, the fuel being enough, and reads
-- nothing past the end.
pub get_tls_sni-ends :
    (bytes : List ℕ) → (name : Option (List ℕ)) × (get_tls_sni bytes ≡ checked (some name))
get_tls_sni-ends bytes = let (r, (e, (name, found))) = sni-Gives bytes in (name, rw (e, found) refl)

-- Nor do the test for a client hello and the reading of its session id.
pub hello_readers-IsSafe :
    (bytes : List ℕ) → IsSafe (is_tls_client_hello bytes) × IsSafe (get_tls_session_id bytes)
unfolding is_tls_client_hello get_tls_session_id
hello_readers-IsSafe bytes = (hello, session_id)
  where
    hello : IsSafe (is_tls_client_hello bytes)
    hello =
        let (r, (e, _)) =
          test-Gives {P = λ r. Unit {0}} (ltb (length bytes) 6) (λ _. value _ tt)
            (λ h.
              let room : 6 ≤ length bytes = not_less _ _ h in
              bind-Gives (read bytes 0) _ (read-Gives bytes 0 (omega arith)) (λ kind _.
                test-Gives (not (kind == 0x16)) (λ _. value _ tt)
                  (λ _.
                    bind-Gives (read_u16 bytes 1) _ (read_u16-Gives bytes 1 (omega arith)) (λ ver _.
                      test-Gives (ltb ver 0x0301 || ltb 0x0304 ver) (λ _. value _ tt)
                        (λ _.
                          bind-Gives (read bytes 5) _ (read-Gives bytes 5 (omega arith))
                            (λ handshake _. value _ tt)))))) in
        (r, e)

    session_id : IsSafe (get_tls_session_id bytes)
    session_id =
        let (r, (e, _)) =
          test-Gives {P = λ r. Unit {0}} (ltb (length bytes) (43 + 1)) (λ _. value _ tt)
            (λ h.
              let room : 44 ≤ length bytes = not_less _ _ h in
              bind-Gives (read bytes 43) _ (read-Gives bytes 43 (omega arith)) (λ sid_len _.
                test-Gives (ltb (length bytes) (44 + sid_len)) (λ _. value _ tt)
                  (λ k.
                    let (s, (e, _)) = slice-Gives bytes 44 sid_len (not_less _ _ k) in
                    (s, (e, tt))))) in
        (r, e)
