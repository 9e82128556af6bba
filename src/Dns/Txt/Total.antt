-- ===== src/Dns/Txt/Total.antt =====
-- TXT data of any message, and the map that it is read into.
use pyatv_rs.Prelude.{
  ℕ, zero, suc, ◌+◌, ◌-◌, ◌≤◌, ◌<◌, ◌≡◌, ◌∙◌, refl, sym, ap, true, some, List, [], ◌∷◌, Bytes,
  bytes_eq, bytes_eq_refl, bytes_eq→eq, subst, length, ltb, if◌then◌else◌, Bool-cases, Option-cases,
  inl, inr, arith,
}
use pyatv_rs.Dns.Reader.{Result, ok, err, Reader, read_slice, read_u8}
use pyatv_rs.Dns.Name.Total.{IsError, MovesOn, read_u8-MovesOn}
use pyatv_rs.Dns.Txt.{
  to_ascii_lowercase, is_ascii, CaseInsensitiveMap, find_value, get, put_value, insert, TxtRecords,
  split_pair, has_none, store_chunk, take_chunk, txt_loop, parse_txt, empty_map,
}

-- Reading that fails with an error of the source, or leaves the cursor at a place of the message.
abbrev pub EndsAt : Reader → ℕ → Result (TxtRecords × Reader) → Type 0
EndsAt start stop (err e) = IsError e
EndsAt start stop (ok (output, r)) = (r.message ≡ start.message) × (r.position ≡ stop)

abbrev IsChunk : Reader → ℕ → Result (Bytes × Reader) → Type 0
IsChunk r stop (err e) = IsError e
IsChunk r stop (ok (chunk, r')) =
    (r'.message ≡ r.message) × ((r.position < r'.position) × (r'.position ≤ stop))

abbrev IsStored : Result TxtRecords → Type 0
IsStored (err e) = IsError e
IsStored (ok output) = Unit {0}

take_chunk-IsChunk :
    (stop : ℕ) (r : Reader) (o : Result (ℕ × Reader))
    → MovesOn r o
    → IsChunk r stop (take_chunk stop o)
unfolding take_chunk read_slice
take_chunk-IsChunk stop r (err e) h = h
take_chunk-IsChunk stop r (ok (n, r')) h = elim (Bool-cases (ltb stop (r'.position + n))) [
  | inl b ↦ rw (b, take_chunk) tt
  | inr b ↦ elim (Bool-cases (ltb (length r'.message) (r'.position + n))) [
    | inl c ↦ rw (b, take_chunk, c, read_slice) tt
    | inr c ↦
        rw (b, take_chunk, c, read_slice) (h.same, (omega (arith, h.behind), ground (arith, b)))
  ]
]

store_pair :
    (key value : Bytes) (output : TxtRecords)
    → IsStored (
        if has_none key
        then ok output
        else if is_ascii key
        then ok (insert key value output).1
        else ok output)
store_pair key value output = elim (Bool-cases (has_none key)) [
  | inl a ↦ rw a tt
  | inr a ↦ elim (Bool-cases (is_ascii key)) [ inl b ↦ rw (a, b) tt | inr b ↦ rw (a, b) tt ]
]

store_chunk-IsStored : (chunk : Bytes) (output : TxtRecords) → IsStored (store_chunk chunk output)
unfolding store_chunk
store_chunk-IsStored chunk output = elim (Option-cases (split_pair chunk)) [
  | inl ((key, value), h) ↦ rw (h, store_chunk) (store_pair key value output)
  | inr h ↦ elim (Bool-cases (is_ascii chunk)) [
    | inl b ↦ rw (h, store_chunk, b) tt
    | inr b ↦ rw (h, store_chunk, b) tt
  ]
]

abbrev Continues : ℕ → Reader → ℕ → Type 0
Continues n start stop =
    (output : TxtRecords) (r : Reader)
    → r.message ≡ start.message
    → r.position ≤ stop
    → stop - r.position ≤ n
    → EndsAt start stop (txt_loop n stop output r)

after_store :
    (n stop : ℕ) (start r : Reader) (o : Result TxtRecords)
    → Continues n start stop
    → IsStored o
    → r.message ≡ start.message
    → r.position ≤ stop
    → stop - r.position ≤ n
    → EndsAt start stop (elim o [ err e ↦ err e | ok output ↦ txt_loop n stop output r ])
after_store n stop start r (err e) next i s b f = i
after_store n stop start r (ok output) next i s b f = next output r s b f

after_take :
    (n stop : ℕ) (output : TxtRecords) (start r : Reader) (o : Result (Bytes × Reader))
    → Continues n start stop
    → IsChunk r stop o
    → r.message ≡ start.message
    → stop - r.position ≤ suc n
    → EndsAt start stop (elim o [
      | err e ↦ err e
      | ok (chunk, r') ↦ elim (store_chunk chunk output) [
        | err e ↦ err e
        | ok output' ↦ txt_loop n stop output' r'
      ]
    ])
after_take n stop output start r (err e) next i s f = i
after_take n stop output start r (ok (chunk, r')) next i s f =
    after_store n stop start r' (store_chunk chunk output) next (store_chunk-IsStored chunk output)
      (i.0 ∙ s) i.1.1 (omega (arith, i.1.0, i.1.1, f))

txt_loop-EndsAt : (n : ℕ) (start : Reader) (stop : ℕ) → Continues n start stop
unfolding txt_loop
txt_loop-EndsAt zero start stop output r s b f = elim (Bool-cases (ltb r.position stop)) [
  | inl c ↦ absurd (ground (arith, c, f))
  | inr c ↦ rw (c, txt_loop) (s, ground (arith, c, b))
]
txt_loop-EndsAt (suc n) start stop output r s b f = elim (Bool-cases (ltb r.position stop)) [
  | inl c ↦
      rw (c, txt_loop)
        (after_take n stop output start r (take_chunk stop (read_u8 r))
          (txt_loop-EndsAt n start stop) (take_chunk-IsChunk stop r (read_u8 r) (read_u8-MovesOn r))
          s f)
  | inr c ↦ rw (c, txt_loop) (s, ground (arith, c, b))
]

-- Reading TXT data ends on every message, and fails with an error of the source or leaves the cursor
-- exactly at the end of the record's data.
pub parse_txt-EndsAt :
    (length' : ℕ) (r : Reader) → EndsAt r (r.position + length') (parse_txt length' r)
unfolding parse_txt
parse_txt-EndsAt length' r = elim (Bool-cases (ltb (length r.message) (r.position + length'))) [
  | inl b ↦ rw (b, parse_txt) tt
  | inr b ↦
      rw (b, parse_txt)
        (txt_loop-EndsAt length' r (r.position + length') empty_map r refl (omega arith)
          (omega arith))
]

module _ {ℓ} {V : Type ℓ} where
  find_value-put_value :
      (key other : Bytes) (value : V) (entries : List (Bytes × V))
      → find_value other (put_value key value entries)
        ≡ (if bytes_eq key other then some value else find_value other entries)
  unfolding find_value put_value
  find_value-put_value key other value [] = refl
  find_value-put_value key other value ((existing, old) ∷ entries) =
      elim (Bool-cases (bytes_eq existing key)) [
        | inl a ↦
            let same : bytes_eq existing other ≡ bytes_eq key other =
              ap (λ x. bytes_eq x other) (bytes_eq→eq existing key a) in
            elim (Bool-cases (bytes_eq key other)) [
              | inl b ↦ rw (a, same ∙ b, b) refl
              | inr b ↦ rw (a, same ∙ b, b) refl
            ]
        | inr a ↦ elim (Bool-cases (bytes_eq existing other)) [
          | inl c ↦ elim (Bool-cases (bytes_eq key other)) [
            | inl d ↦
                let same : key ≡ existing =
                  bytes_eq→eq key other d ∙ sym (bytes_eq→eq existing other c) in
                absurd (
                  cc (
                    sym a
                    ∙ subst (λ x. bytes_eq existing x ≡ true) (sym same) (bytes_eq_refl existing)))
            | inr d ↦ rw (a, c, d) refl
          ]
          | inr c ↦ rw (a, c) (find_value-put_value key other value entries)
        ]
      ]

  -- A value that is inserted is found under every key that is the same but for case, and under any
  -- other key what was found before.
  pub get-insert :
      (key other : Bytes) (value : V) (m : CaseInsensitiveMap V)
      → get other (insert key value m).1 ≡ (
          if bytes_eq (to_ascii_lowercase key) (to_ascii_lowercase other)
          then some value
          else get other m)
  unfolding get insert
  get-insert key other value m =
      find_value-put_value (to_ascii_lowercase key) (to_ascii_lowercase other) value m.entries
