-- ===== src/Packet/TlsHello/Tests.antt =====
-- A client hello through the readers of src/common/network/ip_utils.h.
use fptn_keenetic.Base.{ℕ, ◌≡◌, refl, List, [], ◌∷◌, ◌++◌, Option, some, true}
use fptn_keenetic.Packet.Reader.{checked, read, read_u16, slice}
use fptn_keenetic.Packet.TlsHello.{
  is_tls_client_hello, find_sni, get_tls_sni, get_tls_session_id, get_tls_sni-ends,
}

program : Unit {0}
unfolding read read_u16 slice is_tls_client_hello find_sni get_tls_sni get_tls_session_id
program = tt

abbrev random : List ℕ
random =
    0 ∷ 0 ∷ 0 ∷ 0 ∷ 0 ∷ 0 ∷ 0 ∷ 0 ∷ 0 ∷ 0 ∷ 0 ∷ 0 ∷ 0 ∷ 0 ∷ 0 ∷ 0 ∷ 0 ∷ 0 ∷ 0 ∷ 0 ∷ 0 ∷ 0 ∷ 0 ∷ 0
    ∷ 0 ∷ 0 ∷ 0 ∷ 0 ∷ 0 ∷ 0 ∷ 0 ∷ 0 ∷ []

-- A session id of one byte, one cipher suite, and the name "ab" in the second extension.
abbrev hello : List ℕ
hello =
    (0x16 ∷ 3 ∷ 1 ∷ 0 ∷ 0 ∷ 1 ∷ 0 ∷ 0 ∷ 0 ∷ 3 ∷ 3 ∷ [])
    ++ random
    ++ (1 ∷ 9 ∷ 0 ∷ 2 ∷ 0x13 ∷ 1 ∷ 1 ∷ 0 ∷ 0 ∷ 15 ∷ 0 ∷ 23 ∷ 0 ∷ 0 ∷ 0 ∷ 0 ∷ 0 ∷ 7 ∷ 0 ∷ 5 ∷ 0 ∷ 0
        ∷ 2 ∷ 97 ∷ 98 ∷ [])

main :
    (is_tls_client_hello hello ≡ checked true)
    × (get_tls_session_id hello ≡ checked (9 ∷ []))
    × (get_tls_sni hello ≡ checked (some (some (97 ∷ 98 ∷ []))))
unfolding program
main = (refl, refl, refl)

get_tls_sni-ends_example : (name : Option (List ℕ)) × (get_tls_sni hello ≡ checked (some name))
get_tls_sni-ends_example = get_tls_sni-ends hello
