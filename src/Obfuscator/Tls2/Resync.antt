-- ===== src/Obfuscator/Tls2/Resync.antt =====
-- The search of tls_obfuscator2.cpp over bytes that are no record.
use fptn_keenetic.Base.{
  ℕ, suc, ◌+◌, ◌≤◌, ◌<◌, ◌≡◌, ap, ◌∙◌, List, [], ◌∷◌, ◌++◌, arith, false, inl, inr, ◌⊎◌, some, ltb,
  length, length-append, take-append_left,
}
use fptn_keenetic.Obfuscator.Wire.{apply_xor_transform}
use fptn_keenetic.Obfuscator.Tls2.{
  header_of, TlsAppDataRecordHeader, header_size, read_header, Random, obfuscate, is_fptn_protocol,
  Search, found, stopped, shifted, examine, search, conclude, deobfuscate,
}
use fptn_keenetic.Obfuscator.Tls2.Records.{deobfuscate-search, length-write_header}
use fptn_keenetic.Obfuscator.Tls2.Roundtrip.{
  IsSendable, search-obfuscate, output_nonempty, obfuscate_parts,
}

module _ (now : ℕ) where
  -- The bytes do not start with a header of the protocol.
  abbrev pub IsSkipped : List ℕ → Type 0
  IsSkipped bytes =
      (header_size ≤ length bytes)
      × ((is_fptn_protocol now (read_header bytes) ≡ false)
          ⊎ ((read_header bytes).content_length
              < 17 + (read_header bytes).payload_length + (read_header bytes).padding_length))

  -- No header starts in `junk` where `bytes` follow.
  abbrev pub IsJunk : List ℕ → List ℕ → Type 0
  IsJunk [] bytes = Unit
  IsJunk (b ∷ junk) bytes = IsSkipped (b ∷ (junk ++ bytes)) × IsJunk junk bytes

  examine-skip :
      (h : TlsAppDataRecordHeader) (bytes : List ℕ) (next : Search)
      → (is_fptn_protocol now h ≡ false)
        ⊎ (h.content_length < 17 + h.payload_length + h.padding_length)
      → examine now h bytes next ≡ shifted next
  unfolding examine
  examine-skip h bytes next (inl other) = rw other
  examine-skip h bytes next (inr short) = ground arith

  search-skip :
      (b : ℕ) (bytes : List ℕ)
      → IsSkipped (b ∷ bytes)
      → search now (b ∷ bytes) ≡ shifted (search now bytes)
  unfolding search
  search-skip b bytes h =
      rw long (examine-skip (read_header (b ∷ bytes)) (b ∷ bytes) (search now bytes) h.1)
    where
      long : ltb (length (b ∷ bytes)) header_size ≡ false
      long = ground (arith, h.0)

  abbrev moved : ℕ → Search → Search
  moved n (found offset payload rest) = found (offset + n) payload rest
  moved n (stopped offset) = stopped (offset + n)

  moved-shifted : (n : ℕ) (s : Search) → shifted (moved n s) ≡ moved (suc n) s
  moved-shifted n (found offset payload rest) = ap (λ k. found k payload rest) (omega arith)
  moved-shifted n (stopped offset) = ap (λ k. stopped k) (omega arith)

  moved_zero : (s : Search) → s ≡ moved 0 s
  moved_zero (found offset payload rest) = ap (λ k. found k payload rest) (omega arith)
  moved_zero (stopped offset) = ap (λ k. stopped k) (omega arith)

  -- The search passes over the junk.
  search-junk :
      (junk bytes : List ℕ)
      → IsJunk junk bytes
      → search now (junk ++ bytes) ≡ moved (length junk) (search now bytes)
  search-junk [] bytes h = moved_zero (search now bytes)
  search-junk (b ∷ junk) bytes h =
      search-skip b (junk ++ bytes) h.0
      ∙ ap shifted (search-junk junk bytes h.1)
      ∙ moved-shifted (length junk) (search now bytes)

  -- A record behind bytes in which no header starts is found, and its message put out; but the
  -- bytes before it stay at the front of the buffer.
  pub deobfuscate-junk :
      (junk : List ℕ) (r : Random) (message rest : List ℕ)
      → IsSendable now r message
      → IsJunk junk (obfuscate r message ++ rest)
      → deobfuscate now (junk ++ (obfuscate r message ++ rest)) ≡ (junk ++ rest, some message)
  unfolding conclude
  deobfuscate-junk junk r message rest s h =
      deobfuscate-search now bytes
        (omega (arith, long, length-append junk (obfuscate r message ++ rest)))
      ∙ ap (conclude bytes) (
          search-junk junk (obfuscate r message ++ rest) h
          ∙ ap (moved (length junk)) (search-obfuscate now r message rest s))
      ∙ rw (
        zero_add,
        take-append_left junk (obfuscate r message ++ rest),
        output_nonempty message s.nonempty,
      )
    where
      bytes : List ℕ
      bytes = junk ++ (obfuscate r message ++ rest)

      zero_add : 0 + length junk ≡ length junk
      zero_add = omega arith

      long : 22 ≤ length (obfuscate r message ++ rest)
      long = rw (obfuscate_parts r message rest) (
          omega (
            arith,
            length-write_header (header_of r message) r.random_data
                (apply_xor_transform message r.xor_key ++ (r.padding ++ rest)),
          ))
