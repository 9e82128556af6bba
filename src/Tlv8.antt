-- ===== src/Tlv8.antt =====
-- crates/pyatv-pairing/src/tlv8.rs: the HAP tag-length-value codec. A message is the source's
-- vector of entries in insertion order; `Bytes` and `BytesMut` are lists of byte values.
pub mod Lookup
pub mod RoundTrip
pub mod Total
mod Runs
use pyatv_rs.Prelude.{
  ℕ, zero, suc, ◌+◌, min, Bool, true, false, Option, none, some, List, [], ◌∷◌, ◌++◌, map, Bytes,
  length, take, drop, split_at, ◌==◌, leb, if◌then◌else◌, from_le_bytes, buffer8,
}
use mathlib.Core.Option

pub data TlvValue : Type 0 where
  method identifier salt public_key proof encrypted_data seq_no error back_off : TlvValue
  certificate signature permissions fragment_data fragment_last name flags : TlvValue

-- `tag as u8`.
unfoldable pub tag_byte : TlvValue → ℕ
tag_byte method = 0x00
tag_byte identifier = 0x01
tag_byte salt = 0x02
tag_byte public_key = 0x03
tag_byte proof = 0x04
tag_byte encrypted_data = 0x05
tag_byte seq_no = 0x06
tag_byte error = 0x07
tag_byte back_off = 0x08
tag_byte certificate = 0x09
tag_byte signature = 0x0A
tag_byte permissions = 0x0B
tag_byte fragment_data = 0x0C
tag_byte fragment_last = 0x0D
tag_byte name = 0x11
tag_byte flags = 0x13

unfoldable pub from_tag : ℕ → Option TlvValue
from_tag tag =
    if tag == 0x00
    then some method
    else if tag == 0x01
    then some identifier
    else if tag == 0x02
    then some salt
    else if tag == 0x03
    then some public_key
    else if tag == 0x04
    then some proof
    else if tag == 0x05
    then some encrypted_data
    else if tag == 0x06
    then some seq_no
    else if tag == 0x07
    then some error
    else if tag == 0x08
    then some back_off
    else if tag == 0x09
    then some certificate
    else if tag == 0x0A
    then some signature
    else if tag == 0x0B
    then some permissions
    else if tag == 0x0C
    then some fragment_data
    else if tag == 0x0D
    then some fragment_last
    else if tag == 0x11
    then some name
    else if tag == 0x13
    then some flags
    else none

-- Error codes a device reports, with `code as u8`.
pub data ErrorCode : Type 0 where
  unknown authentication back_off max_peers max_tries unavailable busy : ErrorCode

unfoldable pub code_byte : ErrorCode → ℕ
code_byte ErrorCode.unknown = 0x01
code_byte ErrorCode.authentication = 0x02
code_byte ErrorCode.back_off = 0x03
code_byte ErrorCode.max_peers = 0x04
code_byte ErrorCode.max_tries = 0x05
code_byte ErrorCode.unavailable = 0x06
code_byte ErrorCode.busy = 0x07

unfoldable pub from_code : ℕ → Option ErrorCode
from_code code =
    if code == 0x01
    then some ErrorCode.unknown
    else if code == 0x02
    then some ErrorCode.authentication
    else if code == 0x03
    then some ErrorCode.back_off
    else if code == 0x04
    then some ErrorCode.max_peers
    else if code == 0x05
    then some ErrorCode.max_tries
    else if code == 0x06
    then some ErrorCode.unavailable
    else if code == 0x07
    then some ErrorCode.busy
    else none

-- The errors of this file; each carries what the source formats into its message. `stuck` is no
-- value of the program: the loop of `decode` ran out of fuel.
pub data Error : Type 0 where
  missing_tlv : TlvValue → Error
  truncated_header : ℕ → Error
  truncated_value : ℕ → ℕ → ℕ → Error
  stuck : Error

pub data Result {ℓ} (A : Type ℓ) : Type ℓ where
  ok : A → Result A
  err : Error → Result A

abbrev pub Entries : Type 0
Entries = List (ℕ × Bytes)

pub record Tlv8 : Type 0 where
  pub entries : Entries

abbrev pub max_chunk : ℕ
max_chunk = 255

abbrev pub new : Tlv8
new = record { entries = [] }

-- The first entry under `tag` is replaced where it stands; a new tag goes to the end.
unfoldable pub set_entry : ℕ → Bytes → Entries → Entries
set_entry tag value [] = (tag, value) ∷ []
set_entry tag value ((t, existing) ∷ es) =
    if t == tag then (t, value) ∷ es else (t, existing) ∷ set_entry tag value es

-- `set_raw`, by which `with_raw`, `with` and `with_byte` are written.
unfoldable pub with_raw : ℕ → Bytes → Tlv8 → Tlv8
unfolding set_entry
with_raw tag value m = record { entries = set_entry tag value m.entries }

unfoldable pub with_tag : TlvValue → Bytes → Tlv8 → Tlv8
unfolding with_raw tag_byte
with_tag tag value m = with_raw (tag_byte tag) value m

unfoldable pub with_byte : TlvValue → ℕ → Tlv8 → Tlv8
unfolding with_tag
with_byte tag value m = with_tag tag (value ∷ []) m

unfoldable pub find_entry : ℕ → Entries → Option Bytes
find_entry tag [] = none
find_entry tag ((t, value) ∷ es) = if t == tag then some value else find_entry tag es

unfoldable pub get_raw : Tlv8 → ℕ → Option Bytes
unfolding find_entry
get_raw m tag = find_entry tag m.entries

unfoldable pub get : Tlv8 → TlvValue → Option Bytes
unfolding get_raw tag_byte
get m tag = get_raw m (tag_byte tag)

or_missing : TlvValue → Option Bytes → Result Bytes
or_missing tag none = err (missing_tlv tag)
or_missing tag (some value) = ok value

unfoldable pub require : Tlv8 → TlvValue → Result Bytes
unfolding get or_missing
require m tag = or_missing tag (get m tag)

-- The first eight bytes of the value, zero-padded, low byte first.
unfoldable pub get_uint : Tlv8 → TlvValue → Option ℕ
unfolding get from_le_bytes buffer8
get_uint m tag =
    Option.map (λ bytes. from_le_bytes (buffer8 (take (min (length bytes) 8) bytes))) (get m tag)

unfoldable pub is_empty : Tlv8 → Bool
is_empty m = elim (m.entries) [ [] ↦ true | _ ∷ _ ↦ false ]

unfoldable pub tags_of : Entries → List ℕ
tags_of [] = []
tags_of ((t, value) ∷ es) = t ∷ tags_of es

unfoldable pub tags : Tlv8 → List ℕ
unfolding tags_of
tags m = tags_of m.entries

-- `u8::try_from(chunk.len()).unwrap_or(u8::MAX)`.
unfoldable pub chunk_length : Bytes → ℕ
chunk_length chunk = if leb (length chunk) 255 then length chunk else 255

-- The loop over `value.chunks(MAX_CHUNK)`, with a round of fuel for each chunk.
unfoldable pub encode_chunks : ℕ → ℕ → Bytes → Bytes
unfolding chunk_length
encode_chunks fuel tag [] = []
encode_chunks zero tag (b ∷ bs) = []
encode_chunks (suc fuel) tag (b ∷ bs) =
    let chunk = take max_chunk (b ∷ bs) in
    tag ∷ chunk_length chunk ∷ (chunk ++ encode_chunks fuel tag (drop max_chunk (b ∷ bs)))

unfoldable pub encode_entry : ℕ → Bytes → Bytes
unfolding encode_chunks
encode_entry tag [] = tag ∷ 0 ∷ []
encode_entry tag (b ∷ bs) = encode_chunks (length (b ∷ bs)) tag (b ∷ bs)

unfoldable pub encode_entries : Entries → Bytes
unfolding encode_entry
encode_entries [] = []
encode_entries ((tag, value) ∷ es) = encode_entry tag value ++ encode_entries es

unfoldable pub encode : Tlv8 → Bytes
unfolding encode_entries
encode m = encode_entries m.entries

-- A chunk joins the first entry of its tag, or opens a new entry at the end.
unfoldable pub add_chunk : ℕ → Bytes → Entries → Entries
add_chunk tag value [] = (tag, value) ∷ []
add_chunk tag value ((t, existing) ∷ es) =
    if t == tag then (t, existing ++ value) ∷ es else (t, existing) ∷ add_chunk tag value es

-- The `while offset < input.len()` loop; `input` is what stands at and behind `offset`. The last
-- two arguments of a `truncated_value` are the length claimed and the bytes that remain.
unfoldable pub decode_loop : ℕ → ℕ → Bytes → Entries → Result Tlv8
unfolding add_chunk
decode_loop fuel offset [] entries = ok (record { entries = entries })
decode_loop zero offset (tag ∷ rest) entries = err stuck
decode_loop (suc fuel) offset (tag ∷ []) entries = err (truncated_header offset)
decode_loop (suc fuel) offset (tag ∷ len ∷ rest) entries = elim (split_at len rest) [
  | none ↦ err (truncated_value tag len (length rest))
  | some (value, rest') ↦ decode_loop fuel (offset + 2 + len) rest' (add_chunk tag value entries)
]

-- Each round takes two bytes at least, so a round for each byte is enough.
unfoldable pub decode : Bytes → Result Tlv8
unfolding decode_loop
decode input = decode_loop (length input) 0 input []
