-- ===== src/Dns/Name/RoundTrip.antt =====
-- Names without pointers are read back.
use pyatv_rs.Prelude.{
  ◌+◌, ◌≡◌, ◌∙◌, sym, ap, subst, ne→==_false, if◌then◌else◌, false, Option, List, [], ◌∷◌, ◌++◌,
  append_assoc, Bytes, length, length-append, All, le→ltb_false, arith,
}
use pyatv_rs.Dns.Reader.{ok}
use pyatv_rs.Dns.Name.{encode_label, ends_name, shortened, encode_name_labels, join, parse_name}
use pyatv_rs.Dns.Name.Spec.{at, IsName, ended, parse_name-IsName}
use pyatv_rs.Dns.Compress.Known.{IsPlain, encode_label-plain, get_elem?-here}
use pyatv_rs.Dns.Compress.RoundTrip.{label-IsName}

module _ (decode_punycode : Bytes → Option Bytes) (nfc : Bytes → Bytes) where
  goes_on : (text : Bytes) → IsPlain decode_punycode nfc text → ends_name nfc text ≡ false
  unfolding ends_name shortened
  goes_on text p =
      rw (p.normal, ends_name, le→ltb_false 63 (length text) (omega (arith, p.short)))
        (ne→==_false (length text) 0 (λ z. omega (arith, p.filled)))

  encode_name_labels-plain :
      (text : Bytes) (labels : List Bytes)
      → IsPlain decode_punycode nfc text
      → encode_name_labels nfc (text ∷ labels)
        ≡ length text ∷ (text ++ encode_name_labels nfc labels)
  unfolding encode_name_labels
  encode_name_labels-plain text labels p =
      ap
        (λ b.
          if b
          then encode_label nfc text
          else encode_label nfc text ++ encode_name_labels nfc labels)
        (goes_on text p)
      ∙ ap (λ x. x ++ encode_name_labels nfc labels) (encode_label-plain decode_punycode nfc text p)

  IsName-encode_name_labels :
      (labels : List Bytes) (out rest : Bytes)
      → All (IsPlain decode_punycode nfc) labels
      → IsName decode_punycode
          (out ++ (encode_name_labels nfc labels ++ rest))
          (length out)
          labels
          0
          (length out + length (encode_name_labels nfc labels))
  unfolding encode_name_labels
  IsName-encode_name_labels [] out rest p = ended (length out) (get_elem?-here out rest 0)
  IsName-encode_name_labels (text ∷ labels) out rest p =
      let tail : Bytes = encode_name_labels nfc labels in
      let all : out ++ (encode_name_labels nfc (text ∷ labels) ++ rest)
          ≡ out ++ length text ∷ (text ++ (tail ++ rest)) =
        ap (λ x. out ++ (x ++ rest)) (encode_name_labels-plain text labels p.0)
        ∙ ap (λ x. out ++ length text ∷ x) (append_assoc text tail rest) in
      let start : length (out ++ length text ∷ text) ≡ length out + 1 + length text =
        omega (arith, length-append out (length text ∷ text)) in
      let stop : length (out ++ length text ∷ text) + length tail
          ≡ length out + length (encode_name_labels nfc (text ∷ labels)) =
        omega (
          arith,
          start,
          ap length (encode_name_labels-plain text labels p.0),
          length-append text tail,
        ) in
      subst
        (λ m.
          IsName decode_punycode m (length out) (text ∷ labels) 0
            (length out + length (encode_name_labels nfc (text ∷ labels))))
        (sym all)
        (subst
          (IsName decode_punycode (out ++ length text ∷ (text ++ (tail ++ rest))) (length out)
            (text ∷ labels) 0)
          stop
          (label-IsName decode_punycode nfc out text (tail ++ rest) labels 0
            (length (out ++ length text ∷ text) + length tail) p.0
            (subst
              (λ m.
                IsName decode_punycode m (length out + 1 + length text) labels 0
                  (length (out ++ length text ∷ text) + length tail))
              (append_assoc out (length text ∷ text) (tail ++ rest))
              (subst
                (λ o.
                  IsName decode_punycode ((out ++ length text ∷ text) ++ (tail ++ rest)) o labels 0
                    (length (out ++ length text ∷ text) + length tail))
                start (IsName-encode_name_labels labels (out ++ length text ∷ text) rest p.1)))))

  -- Plain labels that are encoded without pointers, anywhere in a message, are read back joined, and
  -- the cursor is left behind them.
  pub parse_name-encode_name_labels :
      (labels : List Bytes) (out rest : Bytes)
      → All (IsPlain decode_punycode nfc) labels
      → parse_name decode_punycode
          (at (out ++ (encode_name_labels nfc labels ++ rest)) (length out))
        ≡ ok (
          join labels,
          at
              (out ++ (encode_name_labels nfc labels ++ rest))
              (length out + length (encode_name_labels nfc labels)),
        )
  parse_name-encode_name_labels labels out rest p =
      parse_name-IsName decode_punycode (out ++ (encode_name_labels nfc labels ++ rest))
        (length out) (length out + length (encode_name_labels nfc labels)) 0 labels (omega arith)
        (IsName-encode_name_labels labels out rest p)
