-- ===== src/Handshake/Genuine.antt =====
-- Where the answers of src/fptn-server/web/handshake/handshake_cache_manager.cpp come from.
use fptn_keenetic.Base.{
  ℕ, ◌+◌, ◌-◌, ◌≡◌, ◌≢◌, refl, sym, subst, List, [], ◌∷◌, Option, none, some, true, ltb, ==_iff,
  arith, if◌then◌else◌, ◌⊎◌, inl, inr, Option-cases, Bool-cases,
}
use fptn_keenetic.Network.Address.{list_eq}
use fptn_keenetic.Packet.TlsHello.{get_tls_sni}
use fptn_keenetic.Handshake.{
  CacheEntry, HandshakeCacheManager, Host, assign, check_cache, usable, differs,
  fetch_real_handshake, fall_back, get_handshake,
}

list_eq→eq : (a b : List ℕ) → list_eq a b ≡ true → a ≡ b
list_eq→eq [] [] h = refl
list_eq→eq [] (y ∷ b) h = cc
list_eq→eq (x ∷ a) [] h = cc
list_eq→eq (x ∷ a) (y ∷ b) h =
    let first : x ≡ y = ground (arith, ==_iff x y) in
    let rest : a ≡ b = list_eq→eq a b (ground arith) in rw (first, rest) refl

-- The answer is not empty, and one that the server of the name gave, or that of the default
-- domain.
pub record IsGenuine (host : Host) (default_domain sni answer : List ℕ) : Type 0 where
  pub not_empty : answer ≢ []
  pub attempt : ℕ
  pub hello : List ℕ
  pub server : List ℕ
  pub asked : (server ≡ sni) ⊎ (server ≡ default_domain)
  pub given : host.network attempt server hello ≡ answer

-- All that the cache holds is genuine.
pub record IsClean (host : Host) (default_domain : List ℕ) (m : HandshakeCacheManager)
    : Type 0 where
  pub same : m.default_domain ≡ default_domain
  pub entries :
      (k : List ℕ) (e : CacheEntry) → m.cache k ≡ some e → IsGenuine host default_domain k e.answer

-- What the other coroutines do leaves the cache so.
pub record IsFair (host : Host) (default_domain : List ℕ) : Type 0 where
  pub others :
      (i : ℕ) (m : HandshakeCacheManager)
      → IsClean host default_domain m
      → IsClean host default_domain (host.others i m)

usable-some : (o : Option (List ℕ)) (a : List ℕ) → usable o ≡ some a → (o ≡ some a) × (a ≢ [])
unfolding usable
usable-some none a h = cc
usable-some (some []) a h = cc
usable-some (some (b ∷ answer)) a h = (h, λ e. ground (arith, h, e))

-- An answer that is given is genuine.
abbrev pub Answered : Host → List ℕ → List ℕ → Option (List ℕ) → Type 0
Answered host d sni none = Unit
Answered host d sni (some answer) = IsGenuine host d sni answer

-- The cache afterwards is clean, and what is given is genuine.
abbrev pub IsSound : Host → List ℕ → List ℕ → HandshakeCacheManager × Option (List ℕ) → Type 0
IsSound host d sni r = IsClean host d r.0 × Answered host d sni r.1

module _ (host : Host) (d : List ℕ) where
  assign-IsClean :
      (key : List ℕ) (entry : Option CacheEntry) (m : HandshakeCacheManager)
      → ((e : CacheEntry) → entry ≡ some e → IsGenuine host d key e.answer)
      → IsClean host d m
      → IsClean host d (assign key entry m)
  unfolding assign
  assign-IsClean key entry m good v = record {
    same = v.same;
    entries = λ k e h. elim (Bool-cases (list_eq k key)) [
      | inl here ↦
          let at : key ≡ k = sym (list_eq→eq k key here) in
          subst (λ j. IsGenuine host d j e.answer) at (good e (rw here at h))
      | inr other ↦ v.entries k e (rw other at h)
    ];
  }

  -- A checked cache stays clean, and what it gives is in it.
  check-IsClean :
      (now : ℕ) (key : List ℕ) (m : HandshakeCacheManager)
      → IsClean host d m
      → IsClean host d (check_cache now key m).0
  unfolding check_cache
  check-IsClean now key m v = elim (Option-cases (m.cache key)) [
    | inl missing ↦ rw (missing, check_cache) v
    | inr (e, found) ↦
        rw (found, check_cache)
          (elim (Bool-cases (ltb (now - e.timestamp) m.cache_ttl)) [
            | inl fresh ↦ rw fresh v
            | inr old ↦ rw old (assign-IsClean key none m (λ e h. cc) v)
          ])
  ]

  check-IsGenuine :
      (now : ℕ) (key : List ℕ) (m : HandshakeCacheManager) (answer : List ℕ)
      → IsClean host d m
      → usable (check_cache now key m).1 ≡ some answer
      → IsGenuine host d key answer
  unfolding check_cache
  check-IsGenuine now key m answer v h = elim (Option-cases (m.cache key)) [
    | inl missing ↦ absurd (ground (arith, held, here missing))
    | inr (e, found) ↦ elim (Bool-cases (ltb (now - e.timestamp) m.cache_ttl)) [
      | inl fresh ↦
          let at : e.answer ≡ answer = ground (arith, held, found, fresh) in
          subst (IsGenuine host d key) at (v.entries key e found)
      | inr old ↦ absurd (ground (arith, held, found, old))
    ]
  ]
    where
      held : (check_cache now key m).1 ≡ some answer
      held = (usable-some (check_cache now key m).1 answer h).0

      here : m.cache key ≡ none → (check_cache now key m).1 ≡ none
      here missing = rw (check_cache, missing) refl

  fetched :
      (attempt : ℕ) (sni server hello answer : List ℕ)
      → (server ≡ sni) ⊎ (server ≡ d)
      → fetch_real_handshake host attempt server hello ≡ some answer
      → IsGenuine host d sni answer
  unfolding fetch_real_handshake
  fetched attempt sni server hello answer asked h =
      let (given, full) = usable-some (some (host.network attempt server hello)) answer h in
      record {
        not_empty = full;
        attempt = attempt;
        hello = hello;
        server = server;
        asked = asked;
        given = ground (arith, given);
      }

  -- An answer of the default domain will do for every name.
  of_default : (sni answer : List ℕ) → IsGenuine host d d answer → IsGenuine host d sni answer
  of_default sni answer g = record {
    not_empty = g.not_empty;
    attempt = g.attempt;
    hello = g.hello;
    server = g.server;
    asked = inr (elim g.asked [ inl p ↦ p | inr p ↦ p ]);
    given = g.given;
  }

  entry :
      (k answer : List ℕ) (now : ℕ) (e : CacheEntry)
      → IsGenuine host d k answer
      → some (record { answer = answer; timestamp = now }) ≡ some e
      → IsGenuine host d k e.answer
  entry k answer now e g h = subst (IsGenuine host d k) (ground (arith, h)) g

  fall_back-IsSound :
      (i : ℕ) (sni : List ℕ) (m : HandshakeCacheManager)
      → IsFair host d
      → IsClean host d m
      → IsSound host d sni (fall_back host i sni m)
  unfolding fall_back
  fall_back-IsSound i sni m fair v =
      elim (Option-cases (usable (check_cache (host.clock i) m.default_domain m).1)) [
        | inr (answer, hit) ↦
            rw (fall_back, hit)
              (
                check-IsClean (host.clock i) m.default_domain m v,
                of_default sni answer (
                    subst (λ x. IsGenuine host d x answer) v.same
                      (check-IsGenuine (host.clock i) m.default_domain m answer v hit)),
              )
        | inl miss ↦
            let clean = fair.others 1 _ (check-IsClean (host.clock i) m.default_domain m v) in
            elim (Option-cases
              (fetch_real_handshake host 1 m.default_domain (host.decoy m.default_domain))) [
                | inl nothing ↦ rw (fall_back, miss, nothing) (clean, tt)
                | inr (answer, got) ↦
                    let for_sni =
                      fetched 1 sni m.default_domain (host.decoy m.default_domain) answer
                        (inr v.same) got in
                    let for_default =
                      fetched 1 m.default_domain m.default_domain (host.decoy m.default_domain)
                        answer (inl refl) got in
                    rw (fall_back, miss, got)
                      (
                        assign-IsClean sni _ _
                            (λ e h. entry sni answer (host.clock (i + 2)) e for_sni h)
                            (assign-IsClean m.default_domain _ _
                              (λ e h.
                                entry m.default_domain answer (host.clock (i + 1)) e for_default h)
                              clean),
                        for_sni,
                      )
              ]
      ]

  -- From a cache with genuine answers only, which the other coroutines keep so, whatever is given
  -- is not empty and is an answer of the name's server or of the default domain's, and the cache
  -- stays so.
  pub get_handshake-IsSound :
      (i : ℕ) (sni client_hello : List ℕ) (m : HandshakeCacheManager)
      → IsFair host d
      → IsClean host d m
      → IsSound host d sni (get_handshake host i sni client_hello m)
  unfolding get_handshake
  get_handshake-IsSound i sni client_hello m fair v =
      let hello = if differs (get_tls_sni client_hello) sni then host.decoy sni else client_hello in
      elim (Option-cases (usable (check_cache (host.clock i) sni m).1)) [
        | inr (answer, hit) ↦
            rw (get_handshake, hit)
              (
                check-IsClean (host.clock i) sni m v,
                check-IsGenuine (host.clock i) sni m answer v hit,
              )
        | inl miss ↦
            let clean = fair.others 0 _ (check-IsClean (host.clock i) sni m v) in
            elim (Option-cases (fetch_real_handshake host 0 sni hello)) [
              | inl nothing ↦
                  rw (get_handshake, miss, nothing) (fall_back-IsSound (i + 1) sni _ fair clean)
              | inr (answer, got) ↦
                  let good = fetched 0 sni sni hello answer (inl refl) got in
                  rw (get_handshake, miss, got)
                    (
                      assign-IsClean sni _ _ (λ e h. entry sni answer (host.clock (i + 1)) e good h)
                          clean,
                      good,
                    )
            ]
      ]
