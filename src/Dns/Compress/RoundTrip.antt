-- ===== src/Dns/Compress/RoundTrip.antt =====
-- Compressed names are read back.
use pyatv_rs.Prelude.{
  ℕ, suc, ◌+◌, ◌≤◌, ◌<◌, ◌≡◌, ◌∙◌, ◌⊎◌, refl, sym, ap, subst, Bool-cases, Option-cases, Option,
  List, [], ◌∷◌, ◌++◌, append_assoc, Bytes, length, length-append, All, leb, inl, inr, arith,
}
use pyatv_rs.Dns.Reader.{ok}
use pyatv_rs.Dns.Name.{join, parse_name}
use pyatv_rs.Dns.Name.Spec.{at, IsName, ended, labelled, parse_name-IsName}
use pyatv_rs.Dns.Compress.{Offsets, suffix, offset_of, pointer_to, record_offset, encode_labels}
use pyatv_rs.Dns.Compress.Known.{
  AreKnown, AreKnown-append, IsKnown, IsName-append, IsPlain, closed, encode_label-plain, end_of,
  found, get_elem?-here, label_length, label_slice, pointer-IsName, suffix-closed, suffix_injective,
}

module _ (decode_punycode : Bytes → Option Bytes) (nfc : Bytes → Bytes) where
  -- What writing a name leaves.
  pub record IsWritten (P : Bytes × ℕ → Type 0) (out : Bytes) (labels : List Bytes)
      (written : Offsets × Bytes) : Type 0 where
    pub more : Bytes
    pub grown : written.1 ≡ out ++ more
    pub jumps : ℕ
    pub few : jumps ≤ suc (length labels)
    pub name : IsName decode_punycode written.1 (length out) labels jumps (length written.1)
    pub known : AreKnown decode_punycode nfc written.1 P written.0

  end-IsWritten :
      (P : Bytes × ℕ → Type 0) (offsets : Offsets) (out : Bytes)
      → AreKnown decode_punycode nfc out P offsets
      → IsWritten P out [] (offsets, out ++ 0 ∷ [])
  end-IsWritten P offsets out k = record {
    more = 0 ∷ [];
    grown = refl;
    jumps = 0;
    few = omega arith;
    name =
        subst (IsName decode_punycode (out ++ 0 ∷ []) (length out) [] 0) (end_of out)
          (ended (length out) (get_elem?-here out [] 0));
    known = AreKnown-append decode_punycode nfc out (0 ∷ []) P offsets k;
  }

  pointed_to :
      (P : Bytes × ℕ → Type 0) (offsets : Offsets) (out : Bytes) (labels : List Bytes) (o : ℕ)
      → All (IsPlain decode_punycode nfc) labels
      → AreKnown decode_punycode nfc out P offsets
      → IsKnown decode_punycode nfc out (suffix (closed labels), o)
      → IsWritten P out labels (offsets, out ++ pointer_to o)
  unfolding pointer_to
  pointed_to P offsets out labels o p k known =
      let same : known.labels ≡ labels =
        suffix_injective decode_punycode nfc known.labels labels known.plain p (sym known.key) in
      record {
        more = pointer_to o;
        grown = refl;
        jumps = suc known.jumps;
        few = subst (λ ls. suc known.jumps ≤ suc (length ls)) same (omega (arith, known.few));
        name =
            subst
              (λ ls.
                IsName decode_punycode (out ++ pointer_to o) (length out) ls (suc known.jumps)
                  (length (out ++ pointer_to o)))
              same
              (pointer-IsName decode_punycode out known.labels o known.end known.jumps known.near
                known.name);
        known = AreKnown-append decode_punycode nfc out (pointer_to o) P offsets k;
      }

  pub label-IsName :
      (out text rest : Bytes) (labels : List Bytes) (j e : ℕ)
      → IsPlain decode_punycode nfc text
      → IsName decode_punycode
          (out ++ length text ∷ (text ++ rest))
          (length out + 1 + length text)
          labels
          j
          e
      → IsName decode_punycode
          (out ++ length text ∷ (text ++ rest))
          (length out)
          (text ∷ labels)
          j
          e
  label-IsName out text rest labels j e p name =
      labelled (length out) e j text text labels (get_elem?-here out (text ++ rest) (length text))
        p.filled p.short (omega (arith, label_length out rest text)) (label_slice out rest text)
        p.reads name

  -- The name that is being written, where its offset is recorded.
  abbrev IsBegun : Bytes → Bytes → Bytes × ℕ → Type 0
  IsBegun key out entry = (entry ≡ (key, length out)) × (length out ≤ 0x3FFF)

  weaker :
      (P : Bytes × ℕ → Type 0) (key out m : Bytes) (offsets : Offsets)
      → AreKnown decode_punycode nfc m P offsets
      → AreKnown decode_punycode nfc m (λ entry. P entry ⊎ IsBegun key out entry) offsets
  weaker P key out m [] k = tt
  weaker P key out m (entry ∷ offsets) (inl i, ks) = (inl i, weaker P key out m offsets ks)
  weaker P key out m (entry ∷ offsets) (inr i, ks) = (inr (inl i), weaker P key out m offsets ks)

  record_offset-AreKnown :
      (P : Bytes × ℕ → Type 0) (key out m : Bytes) (offsets : Offsets)
      → AreKnown decode_punycode nfc m P offsets
      → AreKnown decode_punycode nfc m
          (λ entry. P entry ⊎ IsBegun key out entry)
          (record_offset key (length out) offsets)
  unfolding record_offset
  record_offset-AreKnown P key out m offsets k = elim (Bool-cases (leb (length out) 0x3FFF)) [
    | inl b ↦
        rw (b, record_offset) (inr (inr (refl, ground (arith, b))), weaker P key out m offsets k)
    | inr b ↦ rw (b, record_offset) (weaker P key out m offsets k)
  ]

  begun_known :
      (P : Bytes × ℕ → Type 0) (key out m : Bytes) (offsets : Offsets)
      → (length out ≤ 0x3FFF → IsKnown decode_punycode nfc m (key, length out))
      → AreKnown decode_punycode nfc m (λ entry. P entry ⊎ IsBegun key out entry) offsets
      → AreKnown decode_punycode nfc m P offsets
  begun_known P key out m [] f k = tt
  begun_known P key out m (entry ∷ offsets) f (inl i, ks) =
      (inl i, begun_known P key out m offsets f ks)
  begun_known P key out m (entry ∷ offsets) f (inr (inl i), ks) =
      (inr i, begun_known P key out m offsets f ks)
  begun_known P key out m (entry ∷ offsets) f (inr (inr (e, b)), ks) = (
    inl (subst (IsKnown decode_punycode nfc m) (sym e) (f b)),
    begun_known P key out m offsets f ks,
  )

  -- No name that is being written has a suffix as short as one of these labels.
  abbrev AreLonger : (Bytes × ℕ → Type 0) → List Bytes → Type 0
  AreLonger P labels =
      (entry : Bytes × ℕ) → P entry → length (suffix (closed labels)) < length entry.0

  longer :
      (text : Bytes) (labels : List Bytes)
      → length (suffix (closed labels)) < length (suffix (closed (text ∷ labels)))
  longer text labels = omega (
    arith,
    ap length (suffix-closed text labels),
    length-append text (0 ∷ suffix (closed labels)),
  )

  IsBegun-AreLonger :
      (P : Bytes × ℕ → Type 0) (text out : Bytes) (labels : List Bytes)
      → AreLonger P (text ∷ labels)
      → AreLonger (λ entry. P entry ⊎ IsBegun (suffix (closed (text ∷ labels))) out entry) labels
  IsBegun-AreLonger P text out labels f entry (inl i) = omega (arith, f entry i, longer text labels)
  IsBegun-AreLonger P text out labels f entry (inr (e, b)) =
      omega (arith, ap (λ x. length x.0) e, longer text labels)

  -- What is written behind a label.
  label-IsWritten :
      (P : Bytes × ℕ → Type 0) (out text : Bytes) (labels : List Bytes) (written : Offsets × Bytes)
      → All (IsPlain decode_punycode nfc) (text ∷ labels)
      → IsWritten
          (λ entry. P entry ⊎ IsBegun (suffix (closed (text ∷ labels))) out entry)
          (out ++ length text ∷ text)
          labels
          written
      → IsWritten P out (text ∷ labels) written
  label-IsWritten P out text labels (offsets, out') p w =
      let grown : out' ≡ out ++ length text ∷ (text ++ w.more) =
        w.grown ∙ append_assoc out (length text ∷ text) w.more in
      let start : length (out ++ length text ∷ text) ≡ length out + 1 + length text =
        omega (arith, length-append out (length text ∷ text)) in
      let name : IsName decode_punycode out' (length out) (text ∷ labels) w.jumps (length out') =
        subst (λ m. IsName decode_punycode m (length out) (text ∷ labels) w.jumps (length out'))
          (sym grown)
          (label-IsName out text w.more labels w.jumps (length out') p.0 (
            subst
              (λ m.
                IsName decode_punycode m (length out + 1 + length text) labels w.jumps
                  (length out'))
              grown
              (subst (λ o. IsName decode_punycode out' o labels w.jumps (length out')) start
                w.name))) in
      record {
        more = length text ∷ (text ++ w.more);
        grown = grown;
        jumps = w.jumps;
        few = omega (arith, w.few);
        name = name;
        known =
            begun_known P (suffix (closed (text ∷ labels))) out out' offsets
              (λ b. record {
                labels = text ∷ labels;
                end = length out';
                jumps = w.jumps;
                plain = p;
                key = refl;
                near = b;
                name = name;
                few = w.few;
              })
              w.known;
      }

  -- The entry that is found is not one of a name that is being written.
  found-IsKnown :
      (P : Bytes × ℕ → Type 0) (labels : List Bytes) (m : Bytes) (o : ℕ)
      → AreLonger P labels
      → IsKnown decode_punycode nfc m (suffix (closed labels), o) ⊎ P (suffix (closed labels), o)
      → IsKnown decode_punycode nfc m (suffix (closed labels), o)
  found-IsKnown P labels m o f (inl k) = k
  found-IsKnown P labels m o f (inr i) = absurd (omega (arith, f (suffix (closed labels), o) i))

  encode_labels-IsWritten :
      (P : Bytes × ℕ → Type 0) (labels : List Bytes) (offsets : Offsets) (out : Bytes)
      → All (IsPlain decode_punycode nfc) labels
      → AreLonger P labels
      → AreKnown decode_punycode nfc out P offsets
      → IsWritten P out labels (encode_labels nfc (closed labels) offsets out)
  unfolding encode_labels
  encode_labels-IsWritten P [] offsets out p f k = end-IsWritten P offsets out k
  encode_labels-IsWritten P ([] ∷ labels) offsets out p f k = absurd (omega (arith, p.0.filled))
  encode_labels-IsWritten P ((byte ∷ bytes) ∷ labels) offsets out p f k =
      let text : Bytes = byte ∷ bytes in
      elim (Option-cases (offset_of (suffix (closed ((byte ∷ bytes) ∷ labels))) offsets)) [
        | inl (o, h) ↦
            rw (h, encode_labels)
              (pointed_to P offsets out ((byte ∷ bytes) ∷ labels) o p k (
                found-IsKnown P ((byte ∷ bytes) ∷ labels) out o f (
                  found (λ entry. IsKnown decode_punycode nfc out entry ⊎ P entry)
                    (suffix (closed ((byte ∷ bytes) ∷ labels))) o offsets h k)))
        | inr h ↦
            rw (h, encode_labels, encode_label-plain decode_punycode nfc (byte ∷ bytes) p.0)
              (label-IsWritten P out (byte ∷ bytes) labels
                (encode_labels nfc (closed labels)
                  (record_offset (suffix (closed ((byte ∷ bytes) ∷ labels))) (length out) offsets)
                  (out ++ length (byte ∷ bytes) ∷ byte ∷ bytes))
                p
                (encode_labels-IsWritten
                  (λ entry. P entry ⊎ IsBegun (suffix (closed ((byte ∷ bytes) ∷ labels))) out entry)
                  labels
                  (record_offset (suffix (closed ((byte ∷ bytes) ∷ labels))) (length out) offsets)
                  (out ++ length (byte ∷ bytes) ∷ byte ∷ bytes) p.1
                  (IsBegun-AreLonger P (byte ∷ bytes) out labels f)
                  (record_offset-AreKnown P (suffix (closed ((byte ∷ bytes) ∷ labels))) out
                    (out ++ length (byte ∷ bytes) ∷ byte ∷ bytes) offsets
                    (AreKnown-append decode_punycode nfc out (length (byte ∷ bytes) ∷ byte ∷ bytes)
                      P offsets k))))
      ]

  -- Every recorded offset is that of a name which reads as the suffix that it is recorded for.
  abbrev pub AreOffsets : Bytes → Offsets → Type 0
  AreOffsets m offsets = AreKnown decode_punycode nfc m (λ entry. ⊥) offsets

  -- A name of at most 63 plain labels that is compressed against what the message has so far is read
  -- back as its labels joined, whatever is written behind it, and the cursor is left at its end. The
  -- recorded offsets stay right, so that the next name may be compressed against them.
  pub parse_name-encode_labels :
      (labels : List Bytes) (offsets : Offsets) (out rest : Bytes)
      → All (IsPlain decode_punycode nfc) labels
      → length labels ≤ 63
      → AreOffsets out offsets
      → let written : Offsets × Bytes = encode_labels nfc (closed labels) offsets out in
        (parse_name decode_punycode (at (written.1 ++ rest) (length out))
          ≡ ok (join labels, at (written.1 ++ rest) (length written.1)))
        × AreOffsets (written.1 ++ rest) written.0
  parse_name-encode_labels labels offsets out rest p n k =
      let written : Offsets × Bytes = encode_labels nfc (closed labels) offsets out in
      let w : IsWritten (λ entry. ⊥) out labels written =
        encode_labels-IsWritten (λ entry. ⊥) labels offsets out p (λ entry i. absurd i) k in
      (
        parse_name-IsName decode_punycode (written.1 ++ rest) (length out) (length written.1)
            w.jumps labels (omega (arith, w.few, n))
            (IsName-append decode_punycode written.1 rest (length out) (length written.1) w.jumps
              labels w.name),
        AreKnown-append decode_punycode nfc written.1 rest (λ entry. ⊥) written.0 w.known,
      )
