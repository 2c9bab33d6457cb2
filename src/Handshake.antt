-- ===== src/Handshake.antt =====
-- src/fptn-server/web/handshake/handshake_cache_manager.cpp: the answers of real servers that the
-- server shows to strangers. A text is its bytes, a null pointer is `none`. What a server answers
-- in an attempt is `network`, nothing where the attempt fails; `decoy` makes a client hello; while
-- a fetch waits, other coroutines change the cache, which is `others`. An operation takes the
-- number of its first reading of the clock.
pub mod Genuine
mod Tests
use fptn_keenetic.Base.{
  ℕ, ◌+◌, ◌-◌, List, [], ◌∷◌, Option, none, some, Bool, true, false, not, ltb, if◌then◌else◌,
}
use fptn_keenetic.Network.Address.{list_eq}
use fptn_keenetic.Packet.Reader.{Checked, checked}
use fptn_keenetic.Packet.TlsHello.{get_tls_sni}

pub record CacheEntry : Type 0 where
  pub answer : List ℕ
  pub timestamp : ℕ

pub record HandshakeCacheManager : Type 0 where
  pub cache_ttl : ℕ
  pub default_domain : List ℕ
  pub cache : List ℕ → Option CacheEntry

pub record Host : Type 0 where
  pub network : ℕ → List ℕ → List ℕ → List ℕ
  pub decoy : List ℕ → List ℕ
  pub others : ℕ → HandshakeCacheManager → HandshakeCacheManager
  pub clock : ℕ → ℕ

-- `cache_[key] = entry`, and `erase`.
unfoldable pub assign : List ℕ → Option CacheEntry → HandshakeCacheManager → HandshakeCacheManager
assign key entry m = record m { cache = λ k. if list_eq k key then entry else m.cache k }

unfoldable pub check_cache :
    ℕ → List ℕ → HandshakeCacheManager → HandshakeCacheManager × Option (List ℕ)
check_cache now key m = elim (m.cache key) [
  | none ↦ (m, none)
  | some entry ↦
      if ltb (now - entry.timestamp) m.cache_ttl
      then (m, some entry.answer)
      else (assign key none m, none)
]

-- A response that is there and not empty.
unfoldable pub usable : Option (List ℕ) → Option (List ℕ)
usable none = none
usable (some []) = none
usable (some (b ∷ answer)) = some (b ∷ answer)

-- `client_sni != sni`.
unfoldable pub differs : Checked (Option (Option (List ℕ))) → List ℕ → Bool
differs (checked (some (some name))) sni = not (list_eq name sni)
differs _ sni = true

module _ (host : Host) where
  open host use {network, decoy, others, clock}

  -- The end of it: an empty response is a null pointer.
  unfoldable pub fetch_real_handshake : ℕ → List ℕ → List ℕ → Option (List ℕ)
  fetch_real_handshake attempt sni hello = usable (some (network attempt sni hello))

  -- The branch where the server of the name did not answer.
  unfoldable pub fall_back :
      ℕ → List ℕ → HandshakeCacheManager → HandshakeCacheManager × Option (List ℕ)
  fall_back i sni m =
      let default_domain = m.default_domain in
      let (m', cached) = check_cache (clock i) default_domain m in
      elim (usable cached) [
        | some answer ↦ (m', some answer)
        | none ↦
            let later = others 1 m' in
            elim (fetch_real_handshake 1 default_domain (decoy default_domain)) [
              | none ↦ (later, none)
              | some answer ↦ (
                assign sni (some (record { answer = answer; timestamp = clock (i + 2) })) (
                    assign default_domain
                      (some (record { answer = answer; timestamp = clock (i + 1) })) later),
                some answer,
              )
            ]
      ]

  unfoldable pub get_handshake :
      ℕ → List ℕ → List ℕ → HandshakeCacheManager → HandshakeCacheManager × Option (List ℕ)
  get_handshake i sni client_hello m =
      let (m', cached) = check_cache (clock i) sni m in
      elim (usable cached) [
        | some answer ↦ (m', some answer)
        | none ↦
            let hello =
              if differs (get_tls_sni client_hello) sni then decoy sni else client_hello in
            let later = others 0 m' in
            elim (fetch_real_handshake 0 sni hello) [
              | some answer ↦ (
                assign sni (some (record { answer = answer; timestamp = clock (i + 1) })) later,
                some answer,
              )
              | none ↦ fall_back (i + 1) sni later
            ]
      ]
