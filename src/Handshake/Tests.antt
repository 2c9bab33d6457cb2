-- ===== src/Handshake/Tests.antt =====
-- Runs of the model of src/fptn-server/web/handshake/handshake_cache_manager.cpp.
use fptn_keenetic.Base.{ℕ, ◌+◌, ◌≡◌, refl, List, [], ◌∷◌, none, some, if◌then◌else◌}
use fptn_keenetic.Network.Address.{list_eq}
use fptn_keenetic.Packet.TlsHello.{get_tls_sni}
use fptn_keenetic.Handshake.{
  HandshakeCacheManager, Host, assign, check_cache, usable, differs, fetch_real_handshake,
  fall_back, get_handshake,
}
use fptn_keenetic.Handshake.Genuine.{IsClean, IsFair, IsSound, get_handshake-IsSound}

abbrev answer_of : List ℕ → List ℕ
answer_of name = if list_eq name (7 ∷ []) then 22 ∷ 3 ∷ [] else []

-- Only the default domain answers, whose name is the byte 7.
abbrev host : Host
host = record {
  network = λ attempt sni hello. answer_of sni;
  decoy = λ sni. 22 ∷ sni;
  others = λ i m. m;
  clock = λ i. 100 + i;
}

abbrev fresh : HandshakeCacheManager
fresh = record { cache_ttl = 3600; default_domain = 7 ∷ []; cache = λ k. none }

-- The first stranger fetches from the default domain, and the next is given the same until an
-- hour has passed.
after_miss :
    let m = (get_handshake host 0 (9 ∷ []) [] fresh).0 in
    ((check_cache 3000 (9 ∷ []) m).1 ≡ some (22 ∷ 3 ∷ []))
    × ((check_cache 4000 (9 ∷ []) m).1 ≡ none)
unfolding get_tls_sni assign check_cache usable differs fetch_real_handshake fall_back get_handshake
after_miss = (refl, refl)

fresh-IsClean : IsClean host (7 ∷ []) fresh
fresh-IsClean = record { same = refl; entries = λ k e h. cc }

host-IsFair : IsFair host (7 ∷ [])
host-IsFair = record { others = λ i m v. v }

get_handshake-IsSound_example :
    IsSound host (7 ∷ []) (9 ∷ []) (get_handshake host 0 (9 ∷ []) (22 ∷ 3 ∷ []) fresh)
get_handshake-IsSound_example =
    get_handshake-IsSound host (7 ∷ []) 0 (9 ∷ []) (22 ∷ 3 ∷ []) fresh host-IsFair fresh-IsClean
