-- ===== src/Packet/Dns/Names.antt =====
-- `ParseDnsName` of src/common/network/ip_packet.h reads back a name that is written without
-- compression.
use fptn_keenetic.Base.{
  arith, ℕ, zero, suc, ◌+◌, ◌<◌, ◌≤◌, ◌≡◌, refl, subst, sym, ap, ◌∙◌, List, [], ◌∷◌, ◌++◌, true,
  false, ◌==◌, ltb, length, take, drop, get_elem?, some, All, length-append, take-append_left,
}
use mathlib.Core.List.{append_assoc, append-nil}
use fptn_keenetic.Base.Bits.{bit_and_prefix}
use fptn_keenetic.Packet.Reader.{checked, ◌>>=◌, read, slice_inside}
use fptn_keenetic.Packet.Dns.{is_pointer, append_label, parse_dns_name}

-- A label has between 1 and 63 bytes.
abbrev pub IsLabel : List ℕ → Type 0
IsLabel label = (0 < length label) × (length label < 64)

-- RFC 1035: each label after its length, and a zero byte.
abbrev pub encode : List (List ℕ) → List ℕ
encode [] = 0 ∷ []
encode (label ∷ labels) = length label ∷ label ++ encode labels

-- The labels, each behind a dot.
abbrev pub dotted : List (List ℕ) → List ℕ
dotted [] = []
dotted (label ∷ labels) = 46 ∷ label ++ dotted labels

-- The labels with dots between them.
abbrev pub joined : List (List ℕ) → List ℕ
joined [] = []
joined (label ∷ labels) = label ++ dotted labels

abbrev join : List ℕ → List (List ℕ) → List ℕ
join name [] = name
join name (label ∷ labels) = join (append_label name label) labels

join-dotted :
    (x : ℕ) (name : List ℕ) (labels : List (List ℕ))
    → join (x ∷ name) labels ≡ x ∷ name ++ dotted labels
unfolding append_label
join-dotted x name [] = ap (λ s. x ∷ s) (sym (append-nil name))
join-dotted x name (label ∷ labels) =
    join-dotted x (name ++ (46 ∷ label)) labels
    ∙ ap (λ s. x ∷ s) (append_assoc name (46 ∷ label) (dotted labels))

join-joined : (labels : List (List ℕ)) → All IsLabel labels → join [] labels ≡ joined labels
unfolding append_label
join-joined [] h = refl
join-joined ([] ∷ labels) h = absurd (omega (arith, h.0.0))
join-joined ((x ∷ label) ∷ labels) h = join-dotted x label labels

get_elem?-append :
    (before after : List ℕ) (b i : ℕ)
    → i ≡ length before
    → get_elem? (before ++ (b ∷ after)) i ≡ some b
get_elem?-append [] after b zero e = refl
get_elem?-append [] after b (suc i) e = absurd (omega arith)
get_elem?-append (x ∷ before) after b zero e = absurd (omega arith)
get_elem?-append (x ∷ before) after b (suc i) e = get_elem?-append before after b i (omega arith)

drop-append : (before after : List ℕ) (i : ℕ) → i ≡ length before → drop i (before ++ after) ≡ after
drop-append [] after zero e = refl
drop-append [] after (suc i) e = absurd (omega arith)
drop-append (x ∷ before) after zero e = absurd (omega arith)
drop-append (x ∷ before) after (suc i) e = drop-append before after i (omega arith)

plain_length : (l : ℕ) → l < 64 → is_pointer l ≡ false
unfolding is_pointer
plain_length l h = ground (arith, bit_and_prefix 2 6 l (omega arith))

read-append :
    (before after : List ℕ) (b i : ℕ)
    → i ≡ length before
    → read (before ++ (b ∷ after)) i ≡ checked b
unfolding read
read-append before after b i e = rw (get_elem?-append before after b i e, read) refl

inside :
    (before after : List ℕ) (b i : ℕ)
    → i ≡ length before
    → ltb i (length (before ++ (b ∷ after))) ≡ true
inside before after b i e = ground (arith, length-append before (b ∷ after))

end_step :
    (rounds : ℕ) (bytes : List ℕ) (base ptr cur : ℕ) (name : List ℕ)
    → ltb ptr (length bytes) ≡ true
    → read bytes ptr ≡ checked 0
    → parse_dns_name (suc rounds) bytes base ptr cur false name ≡ checked (name, ptr + 1)
unfolding parse_dns_name
end_step rounds bytes base ptr cur name h r = rw (parse_dns_name, h, r) refl

label_step :
    (rounds : ℕ) (bytes : List ℕ) (base ptr cur : ℕ) (name : List ℕ) (len : ℕ)
    → ltb ptr (length bytes) ≡ true
    → read bytes ptr ≡ checked len
    → (len == 0) ≡ false
    → is_pointer len ≡ false
    → ltb (length bytes) (ptr + 1 + len) ≡ false
    → parse_dns_name (suc rounds) bytes base ptr cur false name
      ≡ parse_dns_name rounds bytes base
          (ptr + 1 + len)
          cur
          false
          (append_label name (take len (drop (ptr + 1) bytes)))
unfolding parse_dns_name
label_step rounds bytes base ptr cur name len h r z plain fits =
    let inside : ptr + 1 + len ≤ length bytes = ground (arith, fits) in
    rw (parse_dns_name, h, r, ◌>>=◌, z, plain, fits, slice_inside bytes (ptr + 1) len inside) refl

-- The bytes with a label in the middle, cut in two ways.
regroup :
    (before label rest after : List ℕ) (l : ℕ)
    → (before ++ (l ∷ label)) ++ (rest ++ after) ≡ before ++ (l ∷ label ++ rest ++ after)
regroup before label rest after l =
    append_assoc before (l ∷ label) (rest ++ after)
    ∙ ap (λ x. before ++ (l ∷ x)) (sym (append_assoc label rest after))

label_at :
    (before label rest after : List ℕ) (l ptr : ℕ)
    → ptr ≡ length before
    → take (length label) (drop (ptr + 1) (before ++ (l ∷ label ++ rest ++ after))) ≡ label
label_at before label rest after l ptr e =
    ap (take (length label)) (
      ap (drop (ptr + 1)) (sym (append_assoc before (l ∷ []) (label ++ rest ++ after)))
      ∙ drop-append (before ++ (l ∷ [])) (label ++ rest ++ after) (ptr + 1)
          (omega (arith, length-append before (l ∷ []))))
    ∙ ap (take (length label)) (append_assoc label rest after)
    ∙ take-append_left label (rest ++ after)

parse-encode :
    (labels : List (List ℕ)) (rounds : ℕ) (before after : List ℕ) (base ptr cur : ℕ) (name : List ℕ)
    → ptr ≡ length before
    → length labels < rounds
    → All IsLabel labels
    → parse_dns_name rounds (before ++ (encode labels ++ after)) base ptr cur false name
      ≡ checked (join name labels, ptr + length (encode labels))
parse-encode labels zero before after base ptr cur name e few good = absurd (omega arith)
parse-encode [] (suc rounds) before after base ptr cur name e few good =
    end_step rounds _ base ptr cur name (inside before after 0 ptr e)
      (read-append before after 0 ptr e)
parse-encode (label ∷ labels) (suc rounds) before after base ptr cur name e few good =
    label_step rounds _ base ptr cur name (length label)
      (inside before (label ++ encode labels ++ after) (length label) ptr e)
      (read-append before (label ++ encode labels ++ after) (length label) ptr e)
      (ground (arith, good.0.0)) (plain_length (length label) good.0.1)
      (ground (
        arith,
        length-append before (length label ∷ label ++ encode labels ++ after),
        length-append (label ++ encode labels) after,
        length-append label (encode labels),
      ))
    ∙ rw (label_at before label (encode labels) after (length label) ptr e) (
        subst
          (λ bytes.
            parse_dns_name rounds bytes base (ptr + 1 + length label) cur false
              (append_label name label)
            ≡ checked (
              join (append_label name label) labels,
              ptr + suc (length (label ++ encode labels)),
            ))
          (regroup before label (encode labels) after (length label))
          (parse-encode labels rounds (before ++ (length label ∷ label)) after base
              (ptr + 1 + length label) cur (append_label name label)
              (omega (arith, length-append before (length label ∷ label))) (omega arith) good.1
            ∙ ap (λ n. checked (join (append_label name label) labels, n))
                (omega (arith, length-append label (encode labels)))))

-- A name that is written without compression, of at most 127 labels of 1 to 63 bytes each, is read
-- back wherever it stands in a packet: its labels with dots between them, and the place behind it.
pub parse_dns_name-encode :
    (labels : List (List ℕ)) (before after : List ℕ) (base : ℕ)
    → length labels < 128
    → All IsLabel labels
    → parse_dns_name 128
        (before ++ (encode labels ++ after))
        base
        (length before)
        (length before)
        false
        []
      ≡ checked (joined labels, length before + length (encode labels))
parse_dns_name-encode labels before after base few good =
    parse-encode labels 128 before after base (length before) (length before) [] refl few good
    ∙ ap (λ s. checked (s, length before + length (encode labels))) (join-joined labels good)
