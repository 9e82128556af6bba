-- ===== src/Dns/Txt.antt =====
-- crates/pyatv-mdns/src/dns/txt.rs: the map with keys of any case, and the TXT data of a record as
-- such a map. A key is accepted when its bytes are ASCII, which is UTF-8.
use pyatv_rs.Prelude.{
  ℕ, zero, suc, ◌+◌, ◌-◌, Bool, true, false, ◌&&◌, Option, none, some, List, [], ◌∷◌, ◌++◌, map,
  Bytes, length, bytes_eq, ltb, leb, ◌==◌, if◌then◌else◌,
}
use pyatv_rs.Dns.Reader.{
  Result, ok, err, Reader, read_u8, read_slice, unexpected_eof, remaining,
  txt_chunk_overruns_record, non_ascii_txt_key, stuck,
}
pub mod RoundTrip
pub mod Total

unfoldable pub lowercase_byte : ℕ → ℕ
lowercase_byte byte = if leb b'A' byte && leb byte b'Z' then byte + 32 else byte

unfoldable pub to_ascii_lowercase : Bytes → Bytes
unfolding lowercase_byte
to_ascii_lowercase [] = []
to_ascii_lowercase (byte ∷ bytes) = lowercase_byte byte ∷ to_ascii_lowercase bytes

unfoldable pub is_ascii : Bytes → Bool
is_ascii [] = true
is_ascii (byte ∷ bytes) = ltb byte 128 && is_ascii bytes

pub record CaseInsensitiveMap {ℓ} (V : Type ℓ) : Type ℓ where
  pub entries : List (Bytes × V)

module _ {ℓ} {V : Type ℓ} where
  unfoldable pub empty_map : CaseInsensitiveMap V
  empty_map = record { entries = [] }

  unfoldable pub find_value : Bytes → List (Bytes × V) → Option V
  find_value key [] = none
  find_value key ((existing, value) ∷ entries) =
      let rest = find_value key entries in if bytes_eq existing key then some value else rest

  unfoldable pub get : Bytes → CaseInsensitiveMap V → Option V
  unfolding find_value to_ascii_lowercase
  get key m = find_value (to_ascii_lowercase key) m.entries

  unfoldable pub put_value : Bytes → V → List (Bytes × V) → List (Bytes × V)
  put_value key value [] = (key, value) ∷ []
  put_value key value ((existing, old) ∷ entries) =
      let rest = put_value key value entries in
      if bytes_eq existing key then (existing, value) ∷ entries else (existing, old) ∷ rest

  -- What was replaced, and the map.
  unfoldable pub insert : Bytes → V → CaseInsensitiveMap V → Option V × CaseInsensitiveMap V
  unfolding get put_value to_ascii_lowercase
  insert key value m =
      (get key m, record { entries = put_value (to_ascii_lowercase key) value m.entries })

abbrev pub TxtRecords : Type 0
TxtRecords = CaseInsensitiveMap Bytes

-- `position` of `=`, and what is before and behind it.
unfoldable pub split_pair : Bytes → Option (Bytes × Bytes)
split_pair [] = none
split_pair (byte ∷ bytes) =
    let rest = split_pair bytes in
    if byte == b'='
    then some ([], bytes)
    else elim rest [ none ↦ none | some (key, value) ↦ some (byte ∷ key, value) ]

unfoldable pub has_none : Bytes → Bool
has_none [] = true
has_none (byte ∷ bytes) = false

-- The body of the loop, behind the reading of the chunk.
unfoldable pub store_chunk : Bytes → TxtRecords → Result TxtRecords
unfolding split_pair is_ascii insert has_none
store_chunk chunk output = elim (split_pair chunk) [
  | none ↦ if is_ascii chunk then ok (insert chunk [] output).1 else err (non_ascii_txt_key chunk)
  | some (key, value) ↦
      if has_none key
      then ok output
      else if is_ascii key
      then ok (insert key value output).1
      else ok output
]

unfoldable pub take_chunk : ℕ → Result (ℕ × Reader) → Result (Bytes × Reader)
unfolding read_slice
take_chunk stop (err e) = err e
take_chunk stop (ok (chunk_length, r)) =
    if ltb stop (r.position + chunk_length)
    then err (txt_chunk_overruns_record chunk_length (stop - r.position))
    else read_slice chunk_length r

-- The loop, in at most as many rounds as the record has bytes.
unfoldable pub txt_loop : ℕ → ℕ → TxtRecords → Reader → Result (TxtRecords × Reader)
unfolding read_u8 take_chunk store_chunk
txt_loop zero stop output r = if ltb r.position stop then err stuck else ok (output, r)
txt_loop (suc n) stop output r =
    if ltb r.position stop
    then elim (take_chunk stop (read_u8 r)) [
      | err e ↦ err e
      | ok (chunk, r') ↦ elim (store_chunk chunk output) [
        | err e ↦ err e
        | ok output' ↦ txt_loop n stop output' r'
      ]
    ]
    else ok (output, r)

unfoldable pub parse_txt : ℕ → Reader → Result (TxtRecords × Reader)
unfolding txt_loop remaining empty_map
parse_txt length' r =
    if ltb (length r.message) (r.position + length')
    then err (unexpected_eof length' (remaining r))
    else txt_loop length' (r.position + length') empty_map r

-- `TxtRecords::encode`.
unfoldable pub encode_pair : Bytes → Bytes → Bytes
encode_pair key value =
    if ltb 255 (length key + 1 + length value)
    then []
    else (length key + 1 + length value) ∷ (key ++ b'=' ∷ value)

unfoldable pub encode_pairs : List (Bytes × Bytes) → Bytes
unfolding encode_pair
encode_pairs [] = []
encode_pairs ((key, value) ∷ entries) = encode_pair key value ++ encode_pairs entries

unfoldable pub encode : TxtRecords → Bytes
unfolding encode_pairs
encode output = encode_pairs output.entries
