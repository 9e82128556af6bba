-- ===== src/Dns/Compress/Known.antt =====
-- What stands in a message where a name was written, and the offsets that are recorded.
use pyatv_rs.Prelude.{
  ℕ, zero, suc, ◌+◌, ◌*◌, ◌/◌, ◌%◌, ◌≤◌, ◌<◌, ◌≡◌, ◌≢◌, ◌∙◌, ◌⊎◌, refl, sym, ap, subst, Bool-cases,
  Option, some, List, [], ◌∷◌, ◌++◌, Bytes, length, length-append, All, take, take-append, drop,
  get_elem?, get_elem?-append, le→ltb_false, bytes_eq, bytes_eq→eq, inl, inr, arith,
}
use pyatv_rs.Dns.Reader.{ok}
use pyatv_rs.Dns.Name.{decode_label, encode_label, shortened}
use pyatv_rs.Dns.Name.Spec.{IsName, ended, labelled, pointed}
use pyatv_rs.Dns.Compress.{Offsets, suffix, offset_of, pointer_to}

pub get_elem?-here : (xs ys : Bytes) (b : ℕ) → get_elem? (xs ++ b ∷ ys) (length xs) ≡ some b
get_elem?-here [] ys b = refl
get_elem?-here (x ∷ xs) ys b = get_elem?-here xs ys b

drop-past : (xs ys : Bytes) (b : ℕ) → drop (suc (length xs)) (xs ++ b ∷ ys) ≡ ys
drop-past [] ys b = refl
drop-past (x ∷ xs) ys b = drop-past xs ys b

take-inside : (n : ℕ) (xs ys : Bytes) → n ≤ length xs → take n (xs ++ ys) ≡ take n xs
take-inside zero xs ys h = refl
take-inside (suc n) [] ys h = absurd (omega arith)
take-inside (suc n) (x ∷ xs) ys h = ap (λ t. x ∷ t) (take-inside n xs ys (omega arith))

drop-inside : (n : ℕ) (xs ys : Bytes) → n ≤ length xs → drop n (xs ++ ys) ≡ drop n xs ++ ys
drop-inside zero xs ys h = refl
drop-inside (suc n) [] ys h = absurd (omega arith)
drop-inside (suc n) (x ∷ xs) ys h = drop-inside n xs ys (omega arith)

slice-inside :
    (o n : ℕ) (m x : Bytes) → o + n ≤ length m → take n (drop o (m ++ x)) ≡ take n (drop o m)
slice-inside zero n m x h = take-inside n m x (omega arith)
slice-inside (suc o) n [] x h = absurd (omega arith)
slice-inside (suc o) n (b ∷ m) x h = slice-inside o n m x (omega arith)

-- The labels of a name, with the empty one that ends it.
abbrev pub closed : List Bytes → List Bytes
closed [] = [] ∷ []
closed (label ∷ labels) = label ∷ closed labels

pub suffix-closed :
    (label : Bytes) (labels : List Bytes)
    → suffix (label ∷ closed labels) ≡ label ++ 0 ∷ suffix (closed labels)
unfolding suffix
suffix-closed label [] = refl
suffix-closed label (next ∷ labels) = refl

first_equal :
    (a b x y : Bytes)
    → All (λ c. c ≢ 0) a
    → All (λ c. c ≢ 0) b
    → a ++ 0 ∷ x ≡ b ++ 0 ∷ y
    → (a ≡ b) × (x ≡ y)
first_equal [] [] x y p q h = (refl, cc)
first_equal [] (b ∷ bs) x y p q h = absurd (q.0 (cc))
first_equal (a ∷ as') [] x y p q h = absurd (p.0 (cc))
first_equal (a ∷ as') (b ∷ bs) x y p q h =
    let same : as' ++ 0 ∷ x ≡ bs ++ 0 ∷ y = cc in
    let rest : (as' ≡ bs) × (x ≡ y) = first_equal as' bs x y p.1 q.1 same in (cc, rest.1)

same_entry :
    (other key : Bytes) (p o : ℕ)
    → other ≡ key
    → some p ≡ some o
    → ◌≡◌ {A = Bytes × ℕ} (other, p) (key, o)
same_entry other key p o a b = cc

pub found :
    (Q : Bytes × ℕ → Type 0) (key : Bytes) (o : ℕ) (offsets : Offsets)
    → offset_of key offsets ≡ some o
    → All Q offsets
    → Q (key, o)
unfolding offset_of
found Q key o [] h q = absurd (cc h)
found Q key o ((other, p) ∷ offsets) h q = elim (Bool-cases (bytes_eq other key)) [
  | inl b ↦
      subst Q (same_entry other key p o (bytes_eq→eq other key b) (rw (b, offset_of) at h)) q.0
  | inr b ↦ found Q key o offsets (rw (b, offset_of) at h) q.1
]

no_start : (x rest : Bytes) → [] ≡ x ++ 0 ∷ rest → ⊥
no_start [] rest h = cc
no_start (b ∷ x) rest h = cc

pub end_of : (out : Bytes) → length out + 1 ≡ length (out ++ 0 ∷ [])
end_of out = omega (arith, length-append out (0 ∷ []))

one_more : (n : ℕ) → suc n ≡ n + 1
one_more n = omega arith

two_more : (out xs : Bytes) → length xs ≡ 2 → length out + 2 ≡ length (out ++ xs)
two_more out xs h = omega (arith, length-append out xs, h)

high_byte : (o : ℕ) → (0xC000 + o) / 256 ≡ 192 + o / 256
high_byte o = omega arith

both_bytes : (o : ℕ) → o / 256 * 256 + (0xC000 + o) % 256 ≡ o
both_bytes o = omega arith

second_of : (xs ys : Bytes) (a b : ℕ) → get_elem? (xs ++ a ∷ b ∷ ys) (suc (length xs)) ≡ some b
second_of [] ys a b = refl
second_of (x ∷ xs) ys a b = second_of xs ys a b

get_elem?-next : (xs ys : Bytes) (a b : ℕ) → get_elem? (xs ++ a ∷ b ∷ ys) (length xs + 1) ≡ some b
get_elem?-next xs ys a b =
    subst (λ i. get_elem? (xs ++ a ∷ b ∷ ys) i ≡ some b) (one_more (length xs))
      (second_of xs ys a b)

pub label_slice :
    (out rest text : Bytes)
    → take (length text) (drop (length out + 1) (out ++ length text ∷ (text ++ rest))) ≡ text
label_slice out rest text =
    subst (λ i. take (length text) (drop i (out ++ length text ∷ (text ++ rest))) ≡ text)
      (one_more (length out))
      (ap (take (length text)) (drop-past out (text ++ rest) (length text)) ∙ take-append text rest)

pub label_length :
    (out rest text : Bytes)
    → length (out ++ length text ∷ (text ++ rest)) ≡ length out + 1 + length text + length rest
label_length out rest text =
    omega (arith, length-append out (length text ∷ (text ++ rest)), length-append text rest)

module _ (decode_punycode : Bytes → Option Bytes) where
  pub IsName-append :
      (m x : Bytes) (o e j : ℕ) (labels : List Bytes)
      → IsName decode_punycode m o labels j e
      → IsName decode_punycode (m ++ x) o labels j e
  IsName-append m x o e j labels (ended p h) = ended p (get_elem?-append m x p h)
  IsName-append m x o e j labels (labelled p e' j' bytes text labels' h z s w t d name) =
      labelled p e' j' bytes text labels' (get_elem?-append m x p h) z s
        (omega (arith, length-append m x, w)) (slice-inside (p + 1) (length bytes) m x w ∙ t) d
        (IsName-append m x (p + 1 + length bytes) e' j' labels' name)
  IsName-append m x o e j labels (pointed p e' j' high low labels' s h l name) =
      pointed p e' j' high low labels' s (get_elem?-append m x p h) (get_elem?-append m x (p + 1) l)
        (IsName-append m x (high * 256 + low) e' j' labels' name)

  pub pointer-IsName :
      (out : Bytes) (labels : List Bytes) (o end j : ℕ)
      → o ≤ 0x3FFF
      → IsName decode_punycode out o labels j end
      → IsName decode_punycode
          (out ++ pointer_to o)
          (length out)
          labels
          (suc j)
          (length (out ++ pointer_to o))
  unfolding pointer_to
  pointer-IsName out labels o end j b name =
      subst (IsName decode_punycode (out ++ pointer_to o) (length out) labels (suc j))
        (two_more out (pointer_to o) refl)
        (pointed (length out) end j (o / 256) ((0xC000 + o) % 256) labels (omega arith)
          (get_elem?-here out ((0xC000 + o) % 256 ∷ []) ((0xC000 + o) / 256)
            ∙ ap some (high_byte o))
          (get_elem?-next out [] ((0xC000 + o) / 256) ((0xC000 + o) % 256))
          (subst (λ x. IsName decode_punycode (out ++ pointer_to o) x labels j end)
            (sym (both_bytes o)) (IsName-append out (pointer_to o) o end j labels name)))

  module _ (nfc : Bytes → Bytes) where
    -- A label that is written as it stands and read as it was.
    pub record IsPlain (text : Bytes) : Type 0 where
      pub normal : nfc text ≡ text
      pub filled : 0 < length text
      pub short : length text < 64
      pub reads : decode_label decode_punycode text ≡ ok text
      pub printed : All (λ b. b ≢ 0) text

    pub encode_label-plain :
        (text : Bytes) → IsPlain text → encode_label nfc text ≡ length text ∷ text
    unfolding encode_label shortened
    encode_label-plain text p =
        rw (p.normal, encode_label, le→ltb_false 63 (length text) (omega (arith, p.short))) refl

    pub suffix_injective :
        (xs ys : List Bytes)
        → All IsPlain xs
        → All IsPlain ys
        → suffix (closed xs) ≡ suffix (closed ys)
        → xs ≡ ys
    unfolding suffix
    suffix_injective [] [] p q h = refl
    suffix_injective [] (y ∷ ys) p q h =
        absurd (no_start y (suffix (closed ys)) (h ∙ suffix-closed y ys))
    suffix_injective (x ∷ xs) [] p q h =
        absurd (no_start x (suffix (closed xs)) (sym h ∙ suffix-closed x xs))
    suffix_injective (x ∷ xs) (y ∷ ys) p q h =
        let both : (x ≡ y) × (suffix (closed xs) ≡ suffix (closed ys)) =
          first_equal x y (suffix (closed xs)) (suffix (closed ys)) p.0.printed q.0.printed
            (sym (suffix-closed x xs) ∙ h ∙ suffix-closed y ys) in
        let rest : xs ≡ ys = suffix_injective xs ys p.1 q.1 both.1 in cc (both.0)

    -- A recorded suffix, which is read where the map says.
    pub record IsKnown (m : Bytes) (entry : Bytes × ℕ) : Type 0 where
      pub labels : List Bytes
      pub end : ℕ
      pub jumps : ℕ
      pub plain : All IsPlain labels
      pub key : entry.0 ≡ suffix (closed labels)
      pub near : entry.1 ≤ 0x3FFF
      pub name : IsName decode_punycode m entry.1 labels jumps end
      pub few : jumps ≤ length labels

    -- Every entry is known, or is one of the names that are being written.
    abbrev pub AreKnown : Bytes → (Bytes × ℕ → Type 0) → Offsets → Type 0
    AreKnown m P offsets = All (λ entry. IsKnown m entry ⊎ P entry) offsets

    IsKnown-append : (m x : Bytes) (entry : Bytes × ℕ) → IsKnown m entry → IsKnown (m ++ x) entry
    IsKnown-append m x entry k = record {
      labels = k.labels;
      end = k.end;
      jumps = k.jumps;
      plain = k.plain;
      key = k.key;
      near = k.near;
      name = IsName-append m x entry.1 k.end k.jumps k.labels k.name;
      few = k.few;
    }

    pub AreKnown-append :
        (m x : Bytes) (P : Bytes × ℕ → Type 0) (offsets : Offsets)
        → AreKnown m P offsets
        → AreKnown (m ++ x) P offsets
    AreKnown-append m x P [] k = tt
    AreKnown-append m x P (entry ∷ offsets) (inl k, ks) =
        (inl (IsKnown-append m x entry k), AreKnown-append m x P offsets ks)
    AreKnown-append m x P (entry ∷ offsets) (inr p, ks) = (inr p, AreKnown-append m x P offsets ks)
