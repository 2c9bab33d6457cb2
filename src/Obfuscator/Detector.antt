-- ===== src/Obfuscator/Detector.antt =====
-- src/fptn-protocol-lib/https/obfuscator/methods/detector.h.
use fptn_keenetic.Base.{
  ℕ, ◌≡◌, List, [], ◌∷◌, ◌++◌, ◌+◌, ◌≤◌, Option, none, some, if◌then◌else◌, String, length,
}
use fptn_keenetic.Network.Address.{string_eq}
use fptn_keenetic.Obfuscator.Tls
use fptn_keenetic.Obfuscator.Tls2
use fptn_keenetic.Obfuscator.Tls2.{Random, obfuscate}
use fptn_keenetic.Obfuscator.Tls2.Roundtrip.{IsSendable, check_protocol-obfuscate_timely}

-- The implementations of `IObfuscator`.
pub data Obfuscator : Type 0 where
  tls : Obfuscator
  tls2 : Obfuscator

unfoldable pub detect_obfuscator : ℕ → List ℕ → Option Obfuscator
detect_obfuscator now bytes =
    if Tls2.check_protocol now bytes
    then some tls2
    else if Tls.check_protocol bytes
    then some tls
    else none

unfoldable pub get_obfuscator_names : List String
get_obfuscator_names = "tls" ∷ "none" ∷ []

-- `none` is an unknown name, `some none` the name of no obfuscator.
unfoldable pub get_obfuscator_by_name : String → Option (Option Obfuscator)
get_obfuscator_by_name name =
    if string_eq name "tls"
    then some (some tls)
    else if string_eq name "none"
    then some none
    else none

-- The server recognises a stream that begins with a record of the current protocol, made within ten
-- seconds of its own clock and of a content length that TLS allows.
pub detect_obfuscator-obfuscate :
    (now : ℕ) (r : Random) (message rest : List ℕ)
    → IsSendable now r message
    → 17 + length message + length r.padding ≤ 16384
    → detect_obfuscator now (obfuscate r message ++ rest) ≡ some tls2
unfolding detect_obfuscator
detect_obfuscator-obfuscate now r message rest s h =
    rw (check_protocol-obfuscate_timely now r message rest s h)
