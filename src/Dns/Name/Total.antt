-- ===== src/Dns/Name/Total.antt =====
-- The parser of names on any message, well formed or not.
use pyatv_rs.Prelude.{
  ℕ, zero, suc, ◌+◌, ◌-◌, ◌*◌, ◌/◌, ◌≤◌, ◌<◌, ◌≡◌, ◌∙◌, refl, subst, Option, none, some, true,
  false, List, [], ◌∷◌, ◌++◌, Bytes, length, take, drop, ltb, lt→ltb, le→ltb_false, sym, ◌==◌,
  Bool-cases, inl, inr, arith, bytes_eq, is_utf8,
}
use pyatv_rs.Dns.Reader.{
  Error, stuck, invalid_punycode, Result, ok, err, Reader, seek, read_slice, read_u8, number_of,
}
use pyatv_rs.Dns.Name.{
  max_pointer_jumps, Part, last, label, pointer, resume_at, finish_name, pointer_part, decode_label,
  label_part, part_of, next_part, parse_loop, parse_name, ace_prefix,
}

-- An error of the source.
abbrev pub IsError : Error → Type 0
IsError stuck = ⊥
IsError _ = Unit {0}

-- The second cursor is behind the first, in the same message.
pub record IsBehind (r r' : Reader) : Type 0 where
  pub same : r'.message ≡ r.message
  pub behind : r.position < r'.position
  pub within : r'.position ≤ length r.message

abbrev message_of : Reader → Result Reader → Bytes
message_of r (err e) = r.message
message_of r (ok r') = r'.message

abbrev Refuses : Result Reader → Type 0
Refuses (err e) = IsError e
Refuses (ok r) = Unit {0}

-- An operation that fails with an error of the source, or moves the cursor on.
abbrev pub MovesOn {ℓ} : {A : Type ℓ} → Reader → Result (A × Reader) → Type 0
MovesOn r (err e) = IsError e
MovesOn r (ok (a, r')) = IsBehind r r'

IsBehind-trans : (a b c : Reader) → IsBehind a b → IsBehind b c → IsBehind a c
IsBehind-trans a b c x y = record {
  same = y.same ∙ x.same;
  behind = omega (arith, x.behind, y.behind);
  within = subst (λ m. c.position ≤ length m) x.same y.within;
}

MovesOn-trans {ℓ} :
    {A : Type ℓ}
    → (a b : Reader) (o : Result (A × Reader)) → IsBehind a b
    → MovesOn b o
    → MovesOn a o
MovesOn-trans a b (err e) x h = h
MovesOn-trans a b (ok (v, c)) x h = IsBehind-trans a b c x h

read_slice-MovesOn : (n : ℕ) (r : Reader) → 0 < n → MovesOn r (read_slice n r)
unfolding read_slice
read_slice-MovesOn n r h = elim (Bool-cases (ltb (length r.message) (r.position + n))) [
  | inl b ↦ rw (b, read_slice) tt
  | inr b ↦
      rw (b, read_slice)
        (record { same = refl; behind = omega (arith, h); within = ground (arith, b) })
]

number_of-MovesOn :
    (r : Reader) (o : Result (Bytes × Reader)) → MovesOn r o → MovesOn r (number_of o)
unfolding number_of
number_of-MovesOn r (err e) h = h
number_of-MovesOn r (ok (bytes, r')) h = h

pub read_u8-MovesOn : (r : Reader) → MovesOn r (read_u8 r)
unfolding read_u8
read_u8-MovesOn r = number_of-MovesOn r (read_slice 1 r) (read_slice-MovesOn 1 r (omega arith))

pointer_part-MovesOn :
    (high : ℕ) (r : Reader) (o : Result (ℕ × Reader))
    → MovesOn r o
    → MovesOn r (pointer_part high o)
unfolding pointer_part
pointer_part-MovesOn high r (err e) h = h
pointer_part-MovesOn high r (ok (low, r')) h = h

module _ (decode_punycode : Bytes → Option Bytes) where
  abbrev IsText : Result Bytes → Type 0
  IsText (err e) = IsError e
  IsText (ok text) = Unit {0}

  punycode-IsText :
      (bytes : Bytes) (o : Option Bytes)
      → IsText (elim o [ none ↦ err (invalid_punycode bytes) | some text ↦ ok text ])
  punycode-IsText bytes none = tt
  punycode-IsText bytes (some text) = tt

  decode_label-IsText : (bytes : Bytes) → IsText (decode_label decode_punycode bytes)
  unfolding decode_label
  decode_label-IsText bytes = elim (Bool-cases (bytes_eq (take 4 bytes) ace_prefix)) [
    | inl a ↦ elim (Bool-cases (is_utf8 (drop 4 bytes))) [
      | inl u ↦ rw (a, u, decode_label) (punycode-IsText bytes (decode_punycode (drop 4 bytes)))
      | inr u ↦ rw (a, u, decode_label) tt
    ]
    | inr a ↦ elim (Bool-cases (is_utf8 bytes)) [
      | inl u ↦ rw (a, u, decode_label) tt
      | inr u ↦ rw (a, u, decode_label) tt
    ]
  ]

  text_part :
      (bytes : Bytes) (r r' : Reader) (t : Result Bytes)
      → IsText t
      → IsBehind r r'
      → MovesOn {A = Part} r (elim t [ err e ↦ err e | ok text ↦ ok (label text, r') ])
  text_part bytes r r' (err e) i h = i
  text_part bytes r r' (ok text) i h = h

  label_part-MovesOn :
      (r : Reader) (o : Result (Bytes × Reader))
      → MovesOn r o
      → MovesOn r (label_part decode_punycode o)
  unfolding label_part
  label_part-MovesOn r (err e) h = h
  label_part-MovesOn r (ok (bytes, r')) h =
      text_part bytes r r' (decode_label decode_punycode bytes) (decode_label-IsText bytes) h

  part_of-MovesOn :
      (r : Reader) (o : Result (ℕ × Reader)) → MovesOn r o → MovesOn r (part_of decode_punycode o)
  unfolding part_of
  part_of-MovesOn r (err e) h = h
  part_of-MovesOn r (ok (byte, r')) h = elim (Bool-cases (byte == 0)) [
    | inl z ↦ rw (z, part_of) h
    | inr z ↦ elim (Bool-cases (byte / 64 == 0)) [
      | inl l ↦
          rw (z, l, part_of)
            (MovesOn-trans r r' (label_part decode_punycode (read_slice byte r')) h (
              label_part-MovesOn r' (read_slice byte r')
                (read_slice-MovesOn byte r' (ground (arith, z)))))
      | inr l ↦ elim (Bool-cases (byte / 64 == 3)) [
        | inl p ↦
            rw (z, l, p, part_of)
              (MovesOn-trans r r' (pointer_part byte (read_u8 r')) h
                (pointer_part-MovesOn byte r' (read_u8 r') (read_u8-MovesOn r')))
        | inr p ↦ rw (z, l, p, part_of) tt
      ]
    ]
  ]

  pub next_part-MovesOn : (r : Reader) → MovesOn r (next_part decode_punycode r)
  unfolding next_part
  next_part-MovesOn r = part_of-MovesOn r (read_u8 r) (read_u8-MovesOn r)

  -- Where the cursor is to be when the name is read, against where the name began.
  abbrev IsResumed : Reader → Option ℕ → ℕ → Type 0
  IsResumed start none position = start.position ≤ position
  IsResumed start (some resume) position =
      (start.position < resume) × (resume ≤ length start.message)

  pub seek_found :
      (position : ℕ) (r : Reader)
      → position ≤ length r.message
      → seek position r ≡ ok (record r { position = position })
  unfolding seek
  seek_found position r h = rw (le→ltb_false (length r.message) position h, seek) refl

  seek_refused : (position : ℕ) (r : Reader) (e : Error) → seek position r ≡ err e → IsError e
  unfolding seek
  seek_refused position r e h = elim (Bool-cases (ltb (length r.message) position)) [
    | inl b ↦ subst Refuses (rw (b, seek) at h) tt
    | inr b ↦ absurd (cc (rw (b, seek) at h))
  ]

  finish_name-MovesOn :
      (start r r' : Reader) (labels : List Bytes) (resume : Option ℕ)
      → r.message ≡ start.message
      → IsResumed start resume r.position
      → IsBehind r r'
      → MovesOn start (finish_name labels resume r')
  unfolding finish_name
  finish_name-MovesOn start r r' labels none s i h = record {
    same = h.same ∙ s;
    behind = omega (arith, i, h.behind);
    within = subst (λ m. r'.position ≤ length m) s h.within;
  }
  finish_name-MovesOn start r r' labels (some resume) s i h =
      rw (seek_found resume r' (subst (λ m. resume ≤ length m) (sym (h.same ∙ s)) i.1), finish_name)
        (record { same = h.same ∙ s; behind = i.0; within = i.1 })

  kept_resume :
      (start r r' : Reader) (resume : Option ℕ) (position : ℕ)
      → r.message ≡ start.message
      → IsResumed start resume r.position
      → IsBehind r r'
      → IsResumed start (some (resume_at resume r'.position)) position
  unfolding resume_at
  kept_resume start r r' none position s i h =
      (omega (arith, i, h.behind), subst (λ m. r'.position ≤ length m) s h.within)
  kept_resume start r r' (some resume) position s i h = i

  further :
      (start r r' : Reader) (resume : Option ℕ)
      → IsResumed start resume r.position
      → IsBehind r r'
      → IsResumed start resume r'.position
  further start r r' none i h = omega (arith, i, h.behind)
  further start r r' (some resume) i h = i

  sought_message : (offset : ℕ) (r r' : Reader) → seek offset r ≡ ok r' → r'.message ≡ r.message
  unfolding seek
  sought_message offset r r' h = elim (Bool-cases (ltb (length r.message) offset)) [
    | inl b ↦ absurd (cc (rw (b, seek) at h))
    | inr b ↦ sym (subst (λ o. r.message ≡ message_of r o) (rw (b, seek) at h) refl)
  ]

  fewer :
      (length' position position' k n : ℕ)
      → position < position'
      → position' ≤ length'
      → k * (length' + 1) + (length' - position) < suc n
      → k * (length' + 1) + (length' - position') < n
  fewer length' position position' k n a b h = omega arith

  jumped :
      (length' position position' k n : ℕ)
      → suc k * (length' + 1) + (length' - position) < suc n
      → k * (length' + 1) + (length' - position') < n
  jumped length' position position' k n h = omega arith

  -- The loop from any round on.
  abbrev Continues : ℕ → Reader → Type 0
  Continues n start =
      (labels : List Bytes) (resume : Option ℕ) (jumps k : ℕ) (r : Reader)
      → jumps + k ≡ 64
      → r.message ≡ start.message
      → IsResumed start resume r.position
      → k * (length start.message + 1) + (length start.message - r.position) < n
      → MovesOn start (parse_loop decode_punycode n labels resume jumps r)

  after_seek :
      (n : ℕ) (labels : List Bytes) (resume : Option ℕ) (jumps k : ℕ) (start r r' : Reader)
      (o : Result Reader) (offset : ℕ)
      → Continues n start
      → suc jumps + k ≡ 64
      → r.message ≡ start.message
      → IsResumed start resume r.position
      → suc k * (length start.message + 1) + (length start.message - r.position) < suc n
      → IsBehind r r'
      → seek offset r' ≡ o
      → MovesOn start (elim o [
        | err e ↦ err e
        | ok r'' ↦
            parse_loop decode_punycode n labels
              (some (resume_at resume r'.position))
              (jumps + 1)
              r''
      ])
  after_seek n labels resume jumps k start r r' (err e) offset next j s i m b h =
      seek_refused offset r' e h
  after_seek n labels resume jumps k start r r' (ok r'') offset next j s i m b h =
      next labels (some (resume_at resume r'.position)) (jumps + 1) k r'' (omega arith)
        (sought_message offset r' r'' h ∙ b.same ∙ s)
        (kept_resume start r r' resume r''.position s i b)
        (jumped (length start.message) r.position r''.position k n m)

  round_lem :
      (n : ℕ) (labels : List Bytes) (resume : Option ℕ) (jumps k : ℕ) (start r : Reader)
      (o : Result (Part × Reader))
      → Continues n start
      → jumps + k ≡ 64
      → r.message ≡ start.message
      → IsResumed start resume r.position
      → k * (length start.message + 1) + (length start.message - r.position) < suc n
      → next_part decode_punycode r ≡ o
      → MovesOn r o
      → MovesOn start (parse_loop decode_punycode (suc n) labels resume jumps r)
  unfolding parse_loop
  round_lem n labels resume jumps k start r (err e) next j s i m h b = rw (h, parse_loop) b
  round_lem n labels resume jumps k start r (ok (last, r')) next j s i m h b =
      rw (h, parse_loop) (finish_name-MovesOn start r r' labels resume s i b)
  round_lem n labels resume jumps k start r (ok (label text, r')) next j s i m h b =
      rw (h, parse_loop)
        (next (labels ++ text ∷ []) resume jumps k r' j (b.same ∙ s) (further start r r' resume i b)
          (fewer (length start.message) r.position r'.position k n b.behind
            (subst (λ x. r'.position ≤ length x) s b.within) m))
  round_lem n labels resume jumps zero start r (ok (pointer offset, r')) next j s i m h b =
      let full : ltb max_pointer_jumps (jumps + 1) ≡ true = lt→ltb 64 (jumps + 1) (omega arith) in
      rw (h, full, parse_loop) tt
  round_lem n labels resume jumps (suc k) start r (ok (pointer offset, r')) next j s i m h b =
      let room : ltb max_pointer_jumps (jumps + 1) ≡ false =
        le→ltb_false 64 (jumps + 1) (omega arith) in
      rw (h, room, parse_loop)
        (after_seek n labels resume jumps k start r r' (seek offset r') offset next (omega arith) s
          i m b refl)

  parse_loop-MovesOn : (n : ℕ) (start : Reader) → Continues n start
  parse_loop-MovesOn zero start labels resume jumps k r j s i m = absurd (omega arith)
  parse_loop-MovesOn (suc n) start labels resume jumps k r j s i m =
      round_lem n labels resume jumps k start r (next_part decode_punycode r)
        (parse_loop-MovesOn n start) j s i m refl (next_part-MovesOn r)

  -- Reading a name ends on every message, pointers that loop included: it never runs out of its rounds.
  -- It fails with an error of the source, or leaves the cursor behind where it was and within the
  -- message.
  pub parse_name-MovesOn : (r : Reader) → MovesOn r (parse_name decode_punycode r)
  unfolding parse_name
  parse_name-MovesOn r =
      parse_loop-MovesOn (65 * (length r.message + 1)) r [] none 0 64 r refl refl (omega arith)
        (omega arith)
