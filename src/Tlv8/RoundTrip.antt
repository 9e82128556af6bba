-- ===== src/Tlv8/RoundTrip.antt =====
-- What `encode` writes, `decode` reads back.
use pyatv_rs.Prelude.{
  ℕ, zero, suc, ◌+◌, ◌≤◌, ◌<◌, ◌≡◌, ◌≢◌, refl, sym, [], ◌∷◌, ◌++◌, Bytes, length, take, drop, arith,
  ap, ◌∙◌, append_assoc, append-nil, split_at-append, length-append, length-take_le, length-drop,
  take-append-drop,
}
use pyatv_rs.Tlv8.{
  Entries, Tlv8, Result, ok, max_chunk, chunk_length, encode_chunks, encode_entry, encode_entries,
  encode, add_chunk, decode_loop, decode,
}

-- No entry has the tag.
abbrev pub IsFresh : ℕ → Entries → Type 0
IsFresh tag [] = Unit {0}
IsFresh tag ((t, value) ∷ es) = (t ≢ tag) × IsFresh tag es

-- The tags are pairwise distinct, as `with` and `with_raw` keep them.
abbrev pub IsDistinct : Entries → Type 0
IsDistinct [] = Unit {0}
IsDistinct ((t, value) ∷ es) = IsFresh t es × IsDistinct es

add_chunk-fresh :
    (tag : ℕ) (value : Bytes) (es : Entries)
    → IsFresh tag es
    → add_chunk tag value es ≡ es ++ (tag, value) ∷ []
unfolding add_chunk
add_chunk-fresh tag value [] h = refl
add_chunk-fresh tag value ((t, old) ∷ es) h = ground (arith, add_chunk-fresh tag value es h.1)

add_chunk-last :
    (tag : ℕ) (old value : Bytes) (es : Entries)
    → IsFresh tag es
    → add_chunk tag value (es ++ (tag, old) ∷ []) ≡ es ++ (tag, old ++ value) ∷ []
unfolding add_chunk
add_chunk-last tag old value [] h = ground arith
add_chunk-last tag old value ((t, x) ∷ es) h = ground (arith, add_chunk-last tag old value es h.1)

-- One round of the loop on a whole chunk.
decode_chunk :
    (fuel offset tag : ℕ) (chunk rest : Bytes) (es : Entries)
    → length chunk ≤ 255
    → decode_loop (suc fuel) offset (tag ∷ chunk_length chunk ∷ (chunk ++ rest)) es
      ≡ decode_loop fuel (offset + 2 + length chunk) rest (add_chunk tag chunk es)
unfolding decode_loop chunk_length
decode_chunk fuel offset tag chunk rest es h = ground (arith, split_at-append chunk rest)

-- The loop reaches `rest` with `es` and with fuel for all of `rest`.
abbrev Reaches : Result Tlv8 → Bytes → Entries → Type 0
Reaches run rest es =
    (fuel : ℕ) × (offset : ℕ) × (run ≡ decode_loop fuel offset rest es) × (length rest ≤ fuel)

-- The first chunk of a value and what `chunks` leaves of it.
abbrev chunk_of : Bytes → Bytes
chunk_of value = take max_chunk value

abbrev tail_of : Bytes → Bytes
tail_of value = drop max_chunk value

rejoin : (old value : Bytes) → (old ++ chunk_of value) ++ tail_of value ≡ old ++ value
rejoin old value =
    append_assoc old (chunk_of value) (tail_of value)
    ∙ ap (λ t. old ++ t) (take-append-drop max_chunk value)

-- One round on the first chunk of a value that is not empty.
first_round :
    (k tag b : ℕ) (bs rest : Bytes) (es : Entries) (fuel offset : ℕ)
    → decode_loop (suc fuel) offset (encode_chunks (suc k) tag (b ∷ bs) ++ rest) es
      ≡ decode_loop fuel
          (offset + 2 + length (chunk_of (b ∷ bs)))
          (encode_chunks k tag (tail_of (b ∷ bs)) ++ rest)
          (add_chunk tag (chunk_of (b ∷ bs)) es)
unfolding encode_chunks
first_round k tag b bs rest es fuel offset =
    ap (λ r. decode_loop (suc fuel) offset (tag ∷ chunk_length (chunk_of (b ∷ bs)) ∷ r) es)
      (append_assoc (chunk_of (b ∷ bs)) (encode_chunks k tag (tail_of (b ∷ bs))) rest)
    ∙ decode_chunk fuel offset tag (chunk_of (b ∷ bs)) _ es (length-take_le max_chunk (b ∷ bs))

-- Each chunk costs more bytes than rounds.
room_after :
    (k tag b : ℕ) (bs rest : Bytes) (fuel : ℕ)
    → length (encode_chunks (suc k) tag (b ∷ bs) ++ rest) ≤ suc fuel
    → length (encode_chunks k tag (tail_of (b ∷ bs)) ++ rest) ≤ fuel
unfolding encode_chunks
room_after k tag b bs rest fuel h =
    let after : Bytes = encode_chunks k tag (tail_of (b ∷ bs)) in
    omega (
      arith,
      length-append (chunk_of (b ∷ bs) ++ after) rest,
      length-append (chunk_of (b ∷ bs)) after,
      length-append after rest,
    )

has_room : (k tag b : ℕ) (bs rest : Bytes) → 0 < length (encode_chunks (suc k) tag (b ∷ bs) ++ rest)
unfolding encode_chunks
has_room k tag b bs rest = omega arith

decode_chunks :
    (k tag : ℕ) (old value rest : Bytes) (es : Entries) (fuel offset : ℕ)
    → IsFresh tag es
    → length value ≤ k
    → length (encode_chunks k tag value ++ rest) ≤ fuel
    → Reaches
        (decode_loop fuel offset (encode_chunks k tag value ++ rest) (es ++ (tag, old) ∷ []))
        rest
        (es ++ (tag, old ++ value) ∷ [])
decode_chunks zero tag old [] rest es fuel offset fresh hk hf =
    unfold encode_chunks in (fuel, offset, rw append-nil, hf)
decode_chunks (suc k) tag old [] rest es fuel offset fresh hk hf =
    unfold encode_chunks in (fuel, offset, rw append-nil, hf)
decode_chunks zero tag old (b ∷ bs) rest es fuel offset fresh hk hf = absurd (omega arith)
decode_chunks (suc k) tag old (b ∷ bs) rest es zero offset fresh hk hf =
    absurd (omega (arith, has_room k tag b bs rest))
decode_chunks (suc k) tag old (b ∷ bs) rest es (suc fuel) offset fresh hk hf =
    let (fuel', offset', run, room) =
      decode_chunks k tag (old ++ chunk_of (b ∷ bs)) (tail_of (b ∷ bs)) rest es fuel
        (offset + 2 + length (chunk_of (b ∷ bs))) fresh
        (omega (arith, length-drop max_chunk (b ∷ bs))) (room_after k tag b bs rest fuel hf) in
    (
      fuel',
      offset',
      rw
          (
            first_round k tag b bs rest (es ++ (tag, old) ∷ []) fuel offset,
            add_chunk-last tag old (chunk_of (b ∷ bs)) es fresh,
            ← rejoin old (b ∷ bs),
          )
          run,
      room,
    )

-- A whole entry of a tag that is new is read back behind the entries before it.
decode_entry :
    (tag : ℕ) (value rest : Bytes) (es : Entries) (fuel offset : ℕ)
    → IsFresh tag es
    → length (encode_entry tag value ++ rest) ≤ fuel
    → Reaches
        (decode_loop fuel offset (encode_entry tag value ++ rest) es)
        rest
        (es ++ (tag, value) ∷ [])
unfolding encode_entry
decode_entry tag [] rest es zero offset fresh hf = absurd (omega arith)
decode_entry tag [] rest es (suc fuel) offset fresh hf = (
  fuel,
  offset + 2 + 0,
  unfold chunk_length in
      decode_chunk fuel offset tag [] rest es (omega arith) ∙ rw (add_chunk-fresh tag [] es fresh),
  omega arith,
)
decode_entry tag (b ∷ bs) rest es zero offset fresh hf =
    absurd (omega (arith, has_room (length bs) tag b bs rest))
decode_entry tag (b ∷ bs) rest es (suc fuel) offset fresh hf =
    let (fuel', offset', run, room) =
      decode_chunks (length bs) tag (chunk_of (b ∷ bs)) (tail_of (b ∷ bs)) rest es fuel
        (offset + 2 + length (chunk_of (b ∷ bs))) fresh
        (omega (arith, length-drop max_chunk (b ∷ bs)))
        (room_after (length bs) tag b bs rest fuel hf) in
    (
      fuel',
      offset',
      rw
            (
              first_round (length bs) tag b bs rest es fuel offset,
              add_chunk-fresh tag (chunk_of (b ∷ bs)) es fresh,
            )
            run
          ∙ ap (λ t. decode_loop fuel' offset' rest (es ++ (tag, t) ∷ []))
              (take-append-drop max_chunk (b ∷ bs)),
      room,
    )

IsFresh-append :
    (tag t : ℕ) (value : Bytes) (es : Entries)
    → IsFresh t es
    → tag ≢ t
    → IsFresh t (es ++ (tag, value) ∷ [])
IsFresh-append tag t value [] h ne = (ne, tt)
IsFresh-append tag t value ((u, x) ∷ es) h ne = (h.0, IsFresh-append tag t value es h.1 ne)

-- The tags of the second list are distinct and none stands in the first.
abbrev IsApart : Entries → Entries → Type 0
IsApart es [] = Unit {0}
IsApart es ((t, value) ∷ fs) = IsFresh t es × IsApart es fs

IsApart-append :
    (tag : ℕ) (value : Bytes) (es fs : Entries)
    → IsApart es fs
    → IsFresh tag fs
    → IsApart (es ++ (tag, value) ∷ []) fs
IsApart-append tag value es [] h fresh = tt
IsApart-append tag value es ((t, x) ∷ fs) h fresh = (
  IsFresh-append tag t value es h.0 (λ e. fresh.0 (sym e)),
  IsApart-append tag value es fs h.1 fresh.1,
)

decode_entries :
    (fs es : Entries) (fuel offset : ℕ)
    → IsApart es fs
    → IsDistinct fs
    → length (encode_entries fs) ≤ fuel
    → decode_loop fuel offset (encode_entries fs) es ≡ ok (record { entries = es ++ fs })
unfolding encode_entries
decode_entries [] es fuel offset apart distinct hf = rw append-nil (unfold decode_loop in refl)
decode_entries ((tag, value) ∷ fs) es fuel offset apart distinct hf =
    let (fuel', offset', run, room) =
      decode_entry tag value (encode_entries fs) es fuel offset apart.0 hf in
    run
    ∙ decode_entries fs (es ++ (tag, value) ∷ []) fuel' offset'
        (IsApart-append tag value es fs apart.1 distinct.0) distinct.1 room
    ∙ rw append_assoc

IsApart-nil : (fs : Entries) → IsApart [] fs
IsApart-nil [] = tt
IsApart-nil ((t, x) ∷ fs) = (tt, IsApart-nil fs)

-- Decoding the encoding of a message whose tags are distinct gives that message back, values over
-- 255 bytes and empty values included.
pub decode-encode : (m : Tlv8) → IsDistinct m.entries → decode (encode m) ≡ ok m
unfolding decode encode
decode-encode m distinct =
    decode_entries m.entries [] _ 0 (IsApart-nil m.entries) distinct (omega arith)
