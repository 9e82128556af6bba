-- ===== src/Tlv8/Runs.antt =====
-- Concrete runs of the TLV8 codec, and its theorems at concrete inputs.
use pyatv_rs.Prelude.{
  ◌≡◌, ◌≢◌, ◌↔◌, refl, some, [], ◌∷◌, ◌++◌, arith, ◌==◌, if◌then◌else◌, to_le_bytes,
}
use pyatv_rs.Tlv8.{
  ErrorCode, code_byte, from_code, Tlv8, new, encode, decode, ok, err, stuck, truncated_header,
  truncated_value, with_byte, with_tag, with_raw, get_raw, get_uint, tags, method, seq_no, back_off,
  from_tag, tag_byte,
}
use pyatv_rs.Tlv8.Lookup.{
  has_tag, get_raw-with_raw, tags-with_raw, from_tag_iff_byte, from_code_iff_byte,
  get_uint-with_tag,
}
use pyatv_rs.Tlv8.RoundTrip.{IsDistinct, decode-encode}
use pyatv_rs.Tlv8.Total.{decode-ne-stuck, decode-IsDistinct}

-- The first message of a pair-setup.
abbrev pair_setup_m1 : Tlv8
pair_setup_m1 = record { entries = (0x00, 0x00 ∷ []) ∷ (0x06, 0x01 ∷ []) ∷ [] }

with_byte_runs : with_byte seq_no 0x01 (with_byte method 0x00 new) ≡ pair_setup_m1
unfolding with_byte
with_byte_runs = refl

encode_m1 : encode pair_setup_m1 ≡ 0x00 ∷ 0x01 ∷ 0x00 ∷ 0x06 ∷ 0x01 ∷ 0x01 ∷ []
unfolding encode
encode_m1 = refl

encode_empty_value : encode (record { entries = (0x07, []) ∷ [] }) ≡ 0x07 ∷ 0x00 ∷ []
unfolding encode
encode_empty_value = refl

decode_cut_header : decode (0x06 ∷ []) ≡ err (truncated_header 0)
unfolding decode
decode_cut_header = refl

decode_cut_value : decode (0x06 ∷ 0x04 ∷ 0x01 ∷ []) ≡ err (truncated_value 0x06 4 1)
unfolding decode
decode_cut_value = refl

decode_m1 : decode (0x00 ∷ 0x01 ∷ 0x00 ∷ 0x06 ∷ 0x01 ∷ 0x01 ∷ []) ≡ ok pair_setup_m1
unfolding decode
decode_m1 = refl

get_raw-with_raw_example :
    get_raw (with_raw 6 (2 ∷ []) pair_setup_m1) 0
    ≡ (if 6 == 0 then some (2 ∷ []) else get_raw pair_setup_m1 0)
get_raw-with_raw_example = get_raw-with_raw 6 0 (2 ∷ []) pair_setup_m1

tags-with_raw_example :
    tags (with_raw 9 [] pair_setup_m1)
    ≡ (if has_tag 9 (tags pair_setup_m1) then tags pair_setup_m1 else tags pair_setup_m1 ++ 9 ∷ [])
tags-with_raw_example = tags-with_raw 9 [] pair_setup_m1

from_tag_iff_byte_example : (from_tag 6 ≡ some seq_no) ↔ (tag_byte seq_no ≡ 6)
from_tag_iff_byte_example = from_tag_iff_byte 6 seq_no

get_uint-with_tag_example : get_uint (with_tag back_off (to_le_bytes 2 600) new) back_off ≡ some 600
get_uint-with_tag_example = get_uint-with_tag back_off 2 600 new (omega arith) (omega arith)

decode-encode_example : decode (encode pair_setup_m1) ≡ ok pair_setup_m1
decode-encode_example = decode-encode pair_setup_m1 (omega arith)

decode-ne-stuck_example : decode (6 ∷ 1 ∷ []) ≢ err stuck
decode-ne-stuck_example = decode-ne-stuck (6 ∷ 1 ∷ [])

decode-IsDistinct_example : IsDistinct pair_setup_m1.entries
decode-IsDistinct_example = decode-IsDistinct _ pair_setup_m1 decode_m1

from_code_iff_byte_example :
    (from_code 5 ≡ some ErrorCode.max_tries) ↔ (code_byte ErrorCode.max_tries ≡ 5)
from_code_iff_byte_example = from_code_iff_byte 5 ErrorCode.max_tries
