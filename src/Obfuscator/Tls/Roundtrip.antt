-- ===== src/Obfuscator/Tls/Roundtrip.antt =====
-- What the receiver makes of the records of tls_obfuscator.cpp.
use mathlib.Core.List.{append_assoc}
use fptn_keenetic.Base.{
  ℕ, zero, suc, ◌+◌, ◌-◌, ◌^◌, ◌≤◌, ◌<◌, ◌≡◌, refl, ap, ◌∙◌, sym, List, [], ◌∷◌, ◌++◌, arith, true,
  dec_lt, map, length-take, Option, none, some, All, length, take, length-append,
}
use fptn_keenetic.Obfuscator.Wire.{
  IsByte, apply_xor_transform, length-apply_xor_transform, apply_xor_transform_twice,
}
use fptn_keenetic.Obfuscator.Tls.{
  TlsAppDataRecordHeader, write_header, Random, header_of, obfuscate, is_fptn_protocol, output,
  deobfuscate, is_valid_protocol, check_protocol,
}
use fptn_keenetic.Obfuscator.Tls.Records.{
  read-write_header, length-write_header, Announces, deobfuscate-whole, deobfuscate-part,
  deobfuscate-short, take-write_header, check_protocol-header,
}

-- What `Obfuscate` may be given and draw: the message and the padding fit the content length, and
-- all are bytes.
pub record IsSendable (r : Random) (message : List ℕ) : Type 0 where
  pub nonempty : 0 < length message
  pub fits : 15 + length message + length r.padding < 2 ^ 16
  pub bytes : All IsByte message
  pub key : IsByte r.xor_key

header_of-Announces :
    (r : Random) (message : List ℕ)
    → IsSendable r message
    → Announces
        (header_of r message)
        (length (apply_xor_transform message r.xor_key))
        (length r.padding)
unfolding header_of is_fptn_protocol
header_of-Announces r message s = record {
  fits = record { content = omega arith; magic = omega arith; payload = omega arith };
  protocol = refl;
  content = omega (arith, s.fits);
  payload_length = omega (arith, s.fits, length-apply_xor_transform message r.xor_key);
  padding_length = refl;
}

output_nonempty : (message : List ℕ) → 0 < length message → output message ≡ some message
output_nonempty [] h = absurd (omega arith)
output_nonempty (b ∷ bytes) h = refl

obfuscate_parts :
    (r : Random) (message rest : List ℕ)
    → obfuscate r message ++ rest
      ≡ write_header (header_of r message) r.random_data
        ++ (apply_xor_transform message r.xor_key ++ (r.padding ++ rest))
unfolding obfuscate
obfuscate_parts r message rest =
    append_assoc (write_header (header_of r message) r.random_data) (enc ++ r.padding) rest
    ∙ ap (λ body. write_header (header_of r message) r.random_data ++ body)
        (append_assoc enc r.padding rest)
  where
    enc : List ℕ
    enc = apply_xor_transform message r.xor_key

-- The receiver gets the message back from its record, and keeps in its buffer exactly what follows
-- the record. The message is not empty, and its length with the padding fits the content length.
pub deobfuscate-obfuscate :
    (r : Random) (message rest : List ℕ)
    → IsSendable r message
    → deobfuscate (obfuscate r message ++ rest) ≡ (rest, some message)
unfolding header_of
deobfuscate-obfuscate r message rest s =
    ap deobfuscate (obfuscate_parts r message rest)
    ∙ deobfuscate-whole (header_of r message) r.random_data (apply_xor_transform message r.xor_key)
        r.padding rest (header_of-Announces r message s)
    ∙ ap (λ out. (rest, out)) (ap output (restored) ∙ output_nonempty message s.nonempty)
  where
    restored :
        apply_xor_transform (apply_xor_transform message r.xor_key) (header_of r message).xor_key
        ≡ message
    restored = apply_xor_transform_twice message r.xor_key s.bytes s.key

-- As long as only a part of the record of a sendable message has arrived, the receiver puts out
-- nothing and keeps the part.
pub deobfuscate-incomplete :
    (r : Random) (message : List ℕ) (n : ℕ)
    → IsSendable r message
    → n < length (obfuscate r message)
    → deobfuscate (take n (obfuscate r message)) ≡ (take n (obfuscate r message), none)
unfolding obfuscate
deobfuscate-incomplete r message n s h = elim (dec_lt n 20) [
  | yes few ↦
      deobfuscate-short (take n (obfuscate r message))
        (omega (arith, length-take n (obfuscate r message)))
  | no many ↦
      ap deobfuscate (cut (omega arith))
      ∙ part (omega arith)
      ∙ ap (λ bytes. (bytes, none)) (sym (cut (omega arith)))
]
  where
    start : TlsAppDataRecordHeader
    start = header_of r message

    body : List ℕ
    body = apply_xor_transform message r.xor_key ++ r.padding

    cut :
        20 ≤ n
        → take n (obfuscate r message) ≡ write_header start r.random_data ++ take (n - 20) body
    cut few =
        ap (λ k. take k (obfuscate r message)) (whole few)
        ∙ take-write_header start r.random_data (n - 20) body
      where
        whole : 20 ≤ n → n ≡ 20 + (n - 20)
        whole few = omega arith

    part :
        20 ≤ n
        → deobfuscate (write_header start r.random_data ++ take (n - 20) body)
          ≡ (write_header start r.random_data ++ take (n - 20) body, none)
    part few =
        deobfuscate-part start r.random_data (length (apply_xor_transform message r.xor_key))
          (length r.padding) (take (n - 20) body) (header_of-Announces r message s)
          (omega (
            arith,
            length-take (n - 20) body,
            length-write_header start r.random_data body,
            length-append (apply_xor_transform message r.xor_key) r.padding,
          ))

is_valid_protocol-header_of :
    (r : Random) (message : List ℕ)
    → 15 + length message + length r.padding ≤ 16384
    → is_valid_protocol (header_of r message) ≡ true
unfolding is_valid_protocol header_of
is_valid_protocol-header_of r message h = ground arith

-- A server that sees the record at the front of a stream takes it for one of the protocol, provided
-- that the content length is one that TLS allows.
pub check_protocol-obfuscate :
    (r : Random) (message rest : List ℕ)
    → IsSendable r message
    → 15 + length message + length r.padding ≤ 16384
    → check_protocol (obfuscate r message ++ rest) ≡ true
check_protocol-obfuscate r message rest s h =
    ap check_protocol (obfuscate_parts r message rest)
    ∙ check_protocol-header (write_header (header_of r message) r.random_data ++ body)
        (omega (arith, length-write_header (header_of r message) r.random_data body))
    ∙ ap is_valid_protocol (
        read-write_header (header_of r message) r.random_data body
          (header_of-Announces r message s).fits)
    ∙ is_valid_protocol-header_of r message h
  where
    body : List ℕ
    body = apply_xor_transform message r.xor_key ++ (r.padding ++ rest)

-- What a call puts out, and what the later calls do with the buffer that it leaves.
abbrev pub delivered :
    (List ℕ → List ℕ × List (List ℕ)) → List ℕ × Option (List ℕ) → List ℕ × List (List ℕ)
delivered later (buffer, none) = later buffer
delivered later (buffer, some message) = ((later buffer).0, message ∷ (later buffer).1)

-- The messages of a stream, as `count` calls put them out, and the buffer in the end.
unfoldable pub receive : ℕ → List ℕ → List ℕ × List (List ℕ)
receive zero input_buffer = (input_buffer, [])
receive (suc count) input_buffer = delivered (receive count) (deobfuscate input_buffer)

-- The records of the messages, one after the other.
unfoldable pub stream : List (Random × List ℕ) → List ℕ
stream [] = []
stream ((r, message) ∷ sent) = obfuscate r message ++ stream sent

-- A stream of records of sendable messages gives the messages back in order, one a call, and leaves
-- what follows them.
pub receive-stream :
    (sent : List (Random × List ℕ)) (rest : List ℕ)
    → All (λ e. IsSendable e.0 e.1) sent
    → receive (length sent) (stream sent ++ rest) ≡ (rest, map (λ e. e.1) sent)
unfolding receive stream
receive-stream [] rest s = refl
receive-stream ((r, message) ∷ sent) rest s =
    ap (λ bytes. delivered (receive (length sent)) (deobfuscate bytes))
      (append_assoc (obfuscate r message) (stream sent) rest)
    ∙ ap (delivered (receive (length sent)))
        (deobfuscate-obfuscate r message (stream sent ++ rest) s.0)
    ∙ ap (λ t. (t.0, message ∷ t.1)) (receive-stream sent rest s.1)
