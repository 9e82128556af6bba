-- ===== src/Dns/Name/Spec.antt =====
-- Names as RFC 1035 has them, labels and pointers in a message, against the parser.
use pyatv_rs.Prelude.{
  ℕ, zero, suc, ◌+◌, ◌*◌, ◌/◌, ◌%◌, ◌≤◌, ◌<◌, ◌≡◌, ◌∙◌, ◌⊎◌, refl, sym, ap, subst, Option, none,
  some, true, false, List, [], ◌∷◌, ◌++◌, append-nil, append_assoc, Bytes, length, take, drop,
  get_elem?, get_elem?-lt, ltb, le→ltb_false, ◌==◌, ne→==_false, inl, inr, arith,
}
use pyatv_rs.Dns.Reader.{
  stuck, Result, ok, err, Reader, read_slice, read_u8, number_of, from_be_bytes,
}
use pyatv_rs.Dns.Name.{
  max_pointer_jumps, last, label, pointer, resume_at, join, finish_name, pointer_part, decode_label,
  label_part, part_of, next_part, parse_loop, parse_name,
}
use pyatv_rs.Dns.Name.Total.{MovesOn, parse_name-MovesOn, seek_found}

-- A cursor in a message.
abbrev pub at : Bytes → ℕ → Reader
at m o = record { message = m; position = o }

take_one :
    {A : Type 0} (o : ℕ) (m : List A) (b : A) → get_elem? m o ≡ some b → take 1 (drop o m) ≡ b ∷ []
take_one zero [] b h = absurd (cc h)
take_one (suc o) [] b h = absurd (cc h)
take_one zero (a ∷ m) b h = cc
take_one (suc o) (a ∷ m) b h = take_one o m b h

pub read_slice-at :
    (m bytes : Bytes) (o n : ℕ)
    → o + n ≤ length m
    → take n (drop o m) ≡ bytes
    → read_slice n (at m o) ≡ ok (bytes, at m (o + n))
unfolding read_slice
read_slice-at m bytes o n h t =
    rw (le→ltb_false (length m) (o + n) h, read_slice) (ap (λ b. ok (b, at m (o + n))) t)

no_high : (b : ℕ) → 0 * 256 + b ≡ b
no_high b = omega arith

pub read_u8-at :
    (m : Bytes) (o b : ℕ) → get_elem? m o ≡ some b → read_u8 (at m o) ≡ ok (b, at m (o + 1))
unfolding read_u8 number_of from_be_bytes
read_u8-at m o b h =
    rw
      (read_slice-at m (b ∷ []) o 1 (omega (arith, get_elem?-lt m o h)) (take_one o m b h), read_u8)
      (ap (λ x. ok (x, at m (o + 1))) (no_high b))

flags : (high : ℕ) → high < 64 → (192 + high) / 64 ≡ 3
flags high b = omega arith

no_flags : (n : ℕ) → n < 64 → n / 64 ≡ 0
no_flags n b = omega arith

low_bits : (high : ℕ) → high < 64 → (192 + high) % 64 ≡ high
low_bits high b = omega arith

two_on : (o : ℕ) → o + 1 + 1 ≡ o + 2
two_on o = omega arith

module _ (decode_punycode : Bytes → Option Bytes) where
  -- `IsName m o labels jumps end`: the name at `o` has these labels behind this many pointers, and what
  -- follows it where it began is at `end`.
  pub data IsName (m : Bytes) : ℕ → List Bytes → ℕ → ℕ → Type 0 where
    ended : (o : ℕ) → get_elem? m o ≡ some 0 → IsName m o [] 0 (o + 1)
    labelled :
        (o e jumps : ℕ) (bytes text : Bytes) (labels : List Bytes)
        → get_elem? m o ≡ some (length bytes)
        → 0 < length bytes
        → length bytes < 64
        → o + 1 + length bytes ≤ length m
        → take (length bytes) (drop (o + 1) m) ≡ bytes
        → decode_label decode_punycode bytes ≡ ok text
        → IsName m (o + 1 + length bytes) labels jumps e
        → IsName m o (text ∷ labels) jumps e
    pointed :
        (o e jumps high low : ℕ) (labels : List Bytes)
        → high < 64
        → get_elem? m o ≡ some (192 + high)
        → get_elem? m (o + 1) ≡ some low
        → IsName m (high * 256 + low) labels jumps e
        → IsName m o labels (suc jumps) (o + 2)

  last_at :
      (m : Bytes) (o : ℕ)
      → get_elem? m o ≡ some 0
      → next_part decode_punycode (at m o) ≡ ok (last, at m (o + 1))
  unfolding next_part part_of
  last_at m o h = rw (read_u8-at m o 0 h, next_part) refl

  label_at :
      (m bytes text : Bytes) (o : ℕ)
      → get_elem? m o ≡ some (length bytes)
      → 0 < length bytes
      → length bytes < 64
      → o + 1 + length bytes ≤ length m
      → take (length bytes) (drop (o + 1) m) ≡ bytes
      → decode_label decode_punycode bytes ≡ ok text
      → next_part decode_punycode (at m o) ≡ ok (label text, at m (o + 1 + length bytes))
  unfolding next_part part_of label_part
  label_at m bytes text o h n b w t d =
      let small : (length bytes / 64 == 0) ≡ true = ap (λ x. x == 0) (no_flags (length bytes) b) in
      rw
        (
          read_u8-at m o (length bytes) h,
          next_part,
          ne→==_false (length bytes) 0 (λ z. omega arith),
          small,
          read_slice-at m bytes (o + 1) (length bytes) w t,
          label_part,
          d,
        )
        refl

  pointer_at :
      (m : Bytes) (o high low : ℕ)
      → high < 64
      → get_elem? m o ≡ some (192 + high)
      → get_elem? m (o + 1) ≡ some low
      → next_part decode_punycode (at m o) ≡ ok (pointer (high * 256 + low), at m (o + 2))
  unfolding next_part part_of pointer_part
  pointer_at m o high low b h l =
      let no_label : ((192 + high) / 64 == 0) ≡ false =
        ne→==_false ((192 + high) / 64) 0 (λ z. omega arith) in
      let flagged : ((192 + high) / 64 == 3) ≡ true = ap (λ x. x == 3) (flags high b) in
      rw
        (
          read_u8-at m o (192 + high) h,
          next_part,
          ne→==_false (192 + high) 0 (λ z. omega arith),
          no_label,
          flagged,
          read_u8-at m (o + 1) low l,
        )
        (ap (λ x. ok (pointer (x * 256 + low), at m (o + 1 + 1))) (low_bits high b)
          ∙ ap (λ y. ok (pointer (high * 256 + low), at m y)) (two_on o))

  -- What a name reads as, from any round of the loop on: the labels so far with those of the name, and
  -- the cursor at its end, or where the first pointer said.
  abbrev IsRead : ℕ → List Bytes → Option ℕ → ℕ → Bytes → ℕ → List Bytes → ℕ → Type 0
  IsRead n done resume jumps m o labels e =
      (parse_loop decode_punycode n done resume jumps (at m o) ≡ err stuck)
      ⊎ (parse_loop decode_punycode n done resume jumps (at m o)
          ≡ ok (join (done ++ labels), at m (resume_at resume e)))

  abbrev AreInside : Option ℕ → Bytes → Type 0
  AreInside none m = Unit {0}
  AreInside (some p) m = p ≤ length m

  finish_name-at :
      (m : Bytes) (labels : List Bytes) (resume : Option ℕ) (o : ℕ)
      → AreInside resume m
      → finish_name labels resume (at m o) ≡ ok (join labels, at m (resume_at resume o))
  unfolding finish_name resume_at
  finish_name-at m labels none o i = refl
  finish_name-at m labels (some p) o i =
      rw (seek_found decode_punycode p (at m o) i, finish_name) refl

  IsName-start :
      (m : Bytes) (o e jumps : ℕ) (labels : List Bytes) → IsName m o labels jumps e → o ≤ length m
  IsName-start m o e jumps labels (ended p h) = omega (arith, get_elem?-lt m p h)
  IsName-start m o e jumps labels (labelled p end jumps' bytes text labels' h n b w t d name) =
      omega arith
  IsName-start m o e jumps labels (pointed p end jumps' high low labels' b h l name) =
      omega (arith, get_elem?-lt m p h)

  resume_inside :
      (m : Bytes) (resume : Option ℕ) (o low : ℕ)
      → AreInside resume m
      → get_elem? m (o + 1) ≡ some low
      → resume_at resume (o + 2) ≤ length m
  unfolding resume_at
  resume_inside m none o low i h = omega (arith, get_elem?-lt m (o + 1) h)
  resume_inside m (some p) o low i h = i

  parse_loop-IsName :
      (n : ℕ) (m : Bytes) (o e j jumps : ℕ) (done labels : List Bytes) (resume : Option ℕ)
      → AreInside resume m
      → jumps + j ≤ 64
      → IsName m o labels j e
      → IsRead n done resume jumps m o labels e
  unfolding parse_loop resume_at
  parse_loop-IsName zero m o e j jumps done labels resume i b name = inl refl
  parse_loop-IsName (suc n) m o e j jumps done labels resume i b (ended p h) = inr (
      rw (last_at m p h, parse_loop)
        (finish_name-at m done resume (p + 1) i
          ∙ ap (λ x. ok (join x, at m (resume_at resume (p + 1)))) (sym (append-nil done))))
  parse_loop-IsName (suc n) m o e j jumps done labels resume i b
        (labelled p e' j' bytes text labels' h z s w t d name) =
      rw (label_at m bytes text p h z s w t d, parse_loop)
        (subst
          (λ x.
            (parse_loop decode_punycode n (done ++ text ∷ []) resume jumps
                (at m (p + 1 + length bytes))
              ≡ err stuck)
            ⊎ (parse_loop decode_punycode n (done ++ text ∷ []) resume jumps
                  (at m (p + 1 + length bytes))
                ≡ ok (join x, at m (resume_at resume e'))))
          (append_assoc done (text ∷ []) labels')
          (parse_loop-IsName n m (p + 1 + length bytes) e' j' jumps (done ++ text ∷ []) labels'
            resume i b name))
  parse_loop-IsName (suc n) m o e j jumps done labels resume i b
        (pointed p e' j' high low labels' s h l name) =
      let room : ltb max_pointer_jumps (jumps + 1) ≡ false =
        le→ltb_false 64 (jumps + 1) (omega arith) in
      rw
        (
          pointer_at m p high low s h l,
          room,
          seek_found decode_punycode (high * 256 + low) (at m (p + 2))
              (IsName-start m (high * 256 + low) e' j' labels' name),
          parse_loop,
        )
        (parse_loop-IsName n m (high * 256 + low) e' j' (jumps + 1) done labels'
          (some (resume_at resume (p + 2))) (resume_inside m resume p low i l) (omega arith) name)

  settled :
      (m : Bytes) (o e : ℕ) (labels : List Bytes) (r : Result (Bytes × Reader))
      → MovesOn (at m o) r
      → (r ≡ err stuck) ⊎ (r ≡ ok (join labels, at m e))
      → r ≡ ok (join labels, at m e)
  settled m o e labels r h (inr q) = q
  settled m o e labels r h (inl q) = absurd (subst (MovesOn (at m o)) q h)

  -- A name of a message, of labels and of pointers, is read as its labels joined, if it is behind 64
  -- pointers at most, and the cursor is left at its end where it began, behind the first pointer if
  -- there is one.
  pub parse_name-IsName :
      (m : Bytes) (o e j : ℕ) (labels : List Bytes)
      → j ≤ 64
      → IsName m o labels j e
      → parse_name decode_punycode (at m o) ≡ ok (join labels, at m e)
  unfolding parse_name resume_at
  parse_name-IsName m o e j labels b name =
      settled m o e labels (parse_name decode_punycode (at m o))
        (parse_name-MovesOn decode_punycode (at m o))
        (parse_loop-IsName (65 * (length m + 1)) m o e j 0 [] labels none tt (omega arith) name)
