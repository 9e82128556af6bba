-- ===== src/Dns/Txt/RoundTrip.antt =====
-- TXT data is read back.
use pyatv_rs.Prelude.{
  ℕ, zero, suc, ◌+◌, ◌≤◌, ◌<◌, ◌≡◌, ◌≢◌, ◌∙◌, refl, sym, ap, subst, true, false, List, [], ◌∷◌,
  ◌++◌, append-nil, append_assoc, Bytes, length, length-append, All, bytes_eq, lt→ltb, le→ltb_false,
  ne→==_false, some, arith,
}
use pyatv_rs.Dns.Reader.{ok, Reader, read_u8}
use pyatv_rs.Dns.Name.Spec.{at, read_slice-at, read_u8-at}
use pyatv_rs.Dns.Compress.Known.{get_elem?-here, label_slice, label_length}
use pyatv_rs.Dns.Txt.{
  to_ascii_lowercase, is_ascii, put_value, insert, TxtRecords, split_pair, has_none, store_chunk,
  take_chunk, txt_loop, parse_txt, encode_pair, encode_pairs, encode, empty_map,
}

-- An entry that a chunk has room for, under a key as the map has it.
pub record IsEntry (entry : Bytes × Bytes) : Type 0 where
  pub filled : 0 < length entry.0
  pub lowercase : to_ascii_lowercase entry.0 ≡ entry.0
  pub ascii : is_ascii entry.0 ≡ true
  pub unsplit : All (λ b. b ≢ b'=') entry.0
  pub short : length entry.0 + 1 + length entry.1 ≤ 255

-- No earlier entry has the key of one of these.
abbrev pub AreNew : List (Bytes × Bytes) → List (Bytes × Bytes) → Type 0
AreNew done [] = Unit {0}
AreNew done (entry ∷ entries) =
    All (λ earlier. bytes_eq earlier.0 entry.0 ≡ false) done × AreNew (done ++ entry ∷ []) entries

put_value-new :
    (key value : Bytes) (done : List (Bytes × Bytes))
    → All (λ earlier. bytes_eq earlier.0 key ≡ false) done
    → put_value key value done ≡ done ++ (key, value) ∷ []
unfolding put_value
put_value-new key value [] h = refl
put_value-new key value ((existing, old) ∷ done) h =
    rw (h.0, put_value) (ap (λ x. (existing, old) ∷ x) (put_value-new key value done h.1))

split_pair-append :
    (key value : Bytes)
    → All (λ b. b ≢ b'=') key
    → split_pair (key ++ b'=' ∷ value) ≡ some (key, value)
unfolding split_pair
split_pair-append [] value h = refl
split_pair-append (b ∷ key) value h =
    rw (ne→==_false b b'=' h.0, split_pair, split_pair-append key value h.1) refl

has_none-filled : (key : Bytes) → 0 < length key → has_none key ≡ false
unfolding has_none
has_none-filled [] h = absurd (omega arith)
has_none-filled (b ∷ key) h = refl

abbrev records : List (Bytes × Bytes) → TxtRecords
records entries = record { entries = entries }

store_chunk-pair :
    (key value : Bytes) (done : List (Bytes × Bytes))
    → IsEntry (key, value)
    → All (λ earlier. bytes_eq earlier.0 key ≡ false) done
    → store_chunk (key ++ b'=' ∷ value) (records done) ≡ ok (records (done ++ (key, value) ∷ []))
unfolding store_chunk insert
store_chunk-pair key value done i h =
    rw
      (
        split_pair-append key value i.unsplit,
        store_chunk,
        has_none-filled key i.filled,
        i.ascii,
        i.lowercase,
      )
      (ap (λ x. ok (records x)) (put_value-new key value done h))

encode_pair-entry :
    (key value : Bytes)
    → IsEntry (key, value)
    → encode_pair key value ≡ length (key ++ b'=' ∷ value) ∷ (key ++ b'=' ∷ value)
unfolding encode_pair
encode_pair-entry key value i =
    rw (le→ltb_false 255 (length key + 1 + length value) i.short, encode_pair)
      (ap (λ n. n ∷ (key ++ b'=' ∷ value)) (omega (arith, length-append key (b'=' ∷ value))))

-- A chunk in a message, and its reading.
abbrev chunk_in : Bytes → Bytes → Bytes → Bytes
chunk_in out chunk rest = out ++ length chunk ∷ (chunk ++ rest)

take_chunk-here :
    (out chunk rest : Bytes) (stop : ℕ)
    → length out + 1 + length chunk ≤ stop
    → take_chunk stop (read_u8 (at (chunk_in out chunk rest) (length out)))
      ≡ ok (chunk, at (chunk_in out chunk rest) (length out + 1 + length chunk))
unfolding take_chunk
take_chunk-here out chunk rest stop h =
    rw
      (
        read_u8-at (chunk_in out chunk rest) (length out) (length chunk)
            (get_elem?-here out (chunk ++ rest) (length chunk)),
        take_chunk,
        le→ltb_false stop (length out + 1 + length chunk) h,
      )
      (read_slice-at (chunk_in out chunk rest) chunk (length out + 1) (length chunk)
        (omega (arith, label_length out rest chunk)) (label_slice out rest chunk))

txt_loop-done :
    (n stop : ℕ) (output : TxtRecords) (r : Reader)
    → stop ≤ r.position
    → txt_loop n stop output r ≡ ok (output, r)
unfolding txt_loop
txt_loop-done zero stop output r h = rw (le→ltb_false r.position stop h, txt_loop) refl
txt_loop-done (suc n) stop output r h = rw (le→ltb_false r.position stop h, txt_loop) refl

txt_loop-chunk :
    (n stop : ℕ) (key value out rest : Bytes) (done : List (Bytes × Bytes))
    → IsEntry (key, value)
    → All (λ earlier. bytes_eq earlier.0 key ≡ false) done
    → length out + 1 + length (key ++ b'=' ∷ value) ≤ stop
    → txt_loop
        (suc n)
        stop
        (records done)
        (at (chunk_in out (key ++ b'=' ∷ value) rest) (length out))
      ≡ txt_loop n stop (records (done ++ (key, value) ∷ [])) (
          at
            (chunk_in out (key ++ b'=' ∷ value) rest)
            (length out + 1 + length (key ++ b'=' ∷ value)))
unfolding txt_loop
txt_loop-chunk n stop key value out rest done i h s =
    rw
      (
        lt→ltb (length out) stop (omega (arith, s)),
        txt_loop,
        take_chunk-here out (key ++ b'=' ∷ value) rest stop s,
        store_chunk-pair key value done i h,
      )
      refl

abbrev Reads : ℕ → ℕ → List (Bytes × Bytes) → List (Bytes × Bytes) → Bytes → ℕ → Type 0
Reads n stop done entries m o =
    txt_loop n stop (records done) (at m o) ≡ ok (records (done ++ entries), at m stop)

none_left :
    (n stop : ℕ) (done : List (Bytes × Bytes)) (out rest : Bytes)
    → stop ≡ length out + length (encode_pairs [])
    → Reads n stop done [] (out ++ (encode_pairs [] ++ rest)) (length out)
unfolding encode_pairs
none_left n stop done out rest s =
    let here : length out ≡ stop = omega (arith, s) in
    txt_loop-done n stop (records done) (at (out ++ rest) (length out)) (omega (arith, s))
    ∙ ap (λ x. ok (records x, at (out ++ rest) (length out))) (sym (append-nil done))
    ∙ ap (λ o. ok (records (done ++ []), at (out ++ rest) o)) here

pairs_length :
    (key value : Bytes) (entries : List (Bytes × Bytes))
    → IsEntry (key, value)
    → length (encode_pairs ((key, value) ∷ entries))
      ≡ 1 + length (key ++ b'=' ∷ value) + length (encode_pairs entries)
unfolding encode_pairs
pairs_length key value entries i = omega (
  arith,
  length-append (encode_pair key value) (encode_pairs entries),
  ap length (encode_pair-entry key value i),
)

pairs_chunk :
    (key value out rest : Bytes) (entries : List (Bytes × Bytes))
    → IsEntry (key, value)
    → out ++ (encode_pairs ((key, value) ∷ entries) ++ rest)
      ≡ chunk_in out (key ++ b'=' ∷ value) (encode_pairs entries ++ rest)
unfolding encode_pairs
pairs_chunk key value out rest entries i =
    ap (λ x. out ++ ((x ++ encode_pairs entries) ++ rest)) (encode_pair-entry key value i)
    ∙ ap (λ x. out ++ length (key ++ b'=' ∷ value) ∷ x)
        (append_assoc (key ++ b'=' ∷ value) (encode_pairs entries) rest)

after_chunk :
    (n stop : ℕ) (done entries : List (Bytes × Bytes)) (entry : Bytes × Bytes)
    (out chunk rest : Bytes)
    → Reads n stop
        (done ++ entry ∷ [])
        entries
        ((out ++ length chunk ∷ chunk) ++ rest)
        (length (out ++ length chunk ∷ chunk))
    → txt_loop n stop
        (records (done ++ entry ∷ []))
        (at (chunk_in out chunk rest) (length out + 1 + length chunk))
      ≡ ok (records (done ++ entry ∷ entries), at (chunk_in out chunk rest) stop)
after_chunk n stop done entries entry out chunk rest h =
    let start : length (out ++ length chunk ∷ chunk) ≡ length out + 1 + length chunk =
      omega (arith, length-append out (length chunk ∷ chunk)) in
    subst (λ o. Reads n stop (done ++ entry ∷ []) entries (chunk_in out chunk rest) o) start
      (subst
        (λ m. Reads n stop (done ++ entry ∷ []) entries m (length (out ++ length chunk ∷ chunk)))
        (append_assoc out (length chunk ∷ chunk) rest) h)
    ∙ ap (λ x. ok (records x, at (chunk_in out chunk rest) stop))
        (append_assoc done (entry ∷ []) entries)

txt_loop-encode_pairs :
    (n stop : ℕ) (done entries : List (Bytes × Bytes)) (out rest : Bytes)
    → All IsEntry entries
    → AreNew done entries
    → length (encode_pairs entries) ≤ n
    → stop ≡ length out + length (encode_pairs entries)
    → Reads n stop done entries (out ++ (encode_pairs entries ++ rest)) (length out)
txt_loop-encode_pairs n stop done [] out rest i f h s = none_left n stop done out rest s
txt_loop-encode_pairs zero stop done ((key, value) ∷ entries) out rest i f h s =
    absurd (omega (arith, h, pairs_length key value entries i.0))
txt_loop-encode_pairs (suc n) stop done ((key, value) ∷ entries) out rest i f h s =
    let chunk : Bytes = key ++ b'=' ∷ value in
    let size : length (encode_pairs ((key, value) ∷ entries))
        ≡ 1 + length chunk + length (encode_pairs entries) =
      pairs_length key value entries i.0 in
    let start : length (out ++ length chunk ∷ chunk) ≡ length out + 1 + length chunk =
      omega (arith, length-append out (length chunk ∷ chunk)) in
    subst (λ m. Reads (suc n) stop done ((key, value) ∷ entries) m (length out))
      (sym (pairs_chunk key value out rest entries i.0))
      (txt_loop-chunk n stop key value out (encode_pairs entries ++ rest) done i.0 f.0
          (omega (arith, s, size))
        ∙ after_chunk n stop done entries (key, value) out chunk (encode_pairs entries ++ rest)
            (txt_loop-encode_pairs n stop (done ++ (key, value) ∷ []) entries
              (out ++ length chunk ∷ chunk) rest i.1 f.1 (omega (arith, h, size))
              (omega (arith, s, size, start))))

-- The TXT data of entries with distinct keys, each an entry that a chunk has room for, is read back
-- from anywhere in a message, and the cursor is left behind it.
pub parse_txt-encode :
    (entries : List (Bytes × Bytes)) (out rest : Bytes)
    → All IsEntry entries
    → AreNew [] entries
    → parse_txt
        (length (encode (records entries)))
        (at (out ++ (encode (records entries) ++ rest)) (length out))
      ≡ ok (
        records entries,
        at
            (out ++ (encode (records entries) ++ rest))
            (length out + length (encode (records entries))),
      )
unfolding parse_txt encode empty_map
parse_txt-encode entries out rest i f =
    rw
      (
        le→ltb_false (length (out ++ (encode_pairs entries ++ rest)))
            (length out + length (encode_pairs entries))
            (omega (
              arith,
              length-append out (encode_pairs entries ++ rest),
              length-append (encode_pairs entries) rest,
            )),
        parse_txt,
      )
      (txt_loop-encode_pairs (length (encode_pairs entries))
        (length out + length (encode_pairs entries)) [] entries out rest i f (omega arith) refl)
