-- ===== src/Dns/Name.antt =====
-- The parser of domain names and the encoder of labels in crates/pyatv-mdns/src/dns/name.rs. A string
-- is its UTF-8 bytes. Normalisation is a package's, and the decoder of punycode stands for any.
use pyatv_rs.Prelude.{
  ℕ, zero, suc, ◌+◌, ◌*◌, ◌/◌, ◌%◌, Option, none, some, Bool, true, false, List, [], ◌∷◌, ◌++◌,
  Bytes, length, take, drop, ltb, ◌==◌, if◌then◌else◌, is_utf8, bytes_eq, get_elem?,
}
use pyatv_rs.Dns.Reader.{
  Error, compression_loop, reserved_label_type, label_not_utf8, invalid_punycode, stuck, Result, ok,
  err, Reader, seek, read_slice, read_u8,
}
pub mod Total
pub mod Spec
pub mod RoundTrip

abbrev pub max_label_length : ℕ
max_label_length = 63

abbrev pub max_pointer_jumps : ℕ
max_pointer_jumps = 64

abbrev pub ace_prefix : Bytes
ace_prefix = b'x' ∷ b'n' ∷ b'-' ∷ b'-' ∷ []

-- `labels.join(".")`.
unfoldable pub join : List Bytes → Bytes
join [] = []
join (label ∷ []) = label
join (label ∷ next ∷ labels) = label ++ b'.' ∷ join (next ∷ labels)

-- What one round of the loop finds.
pub data Part : Type 0 where
  last : Part
  label : Bytes → Part
  pointer : ℕ → Part

unfoldable pub resume_at : Option ℕ → ℕ → ℕ
resume_at none position = position
resume_at (some resume) position = resume

unfoldable pub finish_name : List Bytes → Option ℕ → Reader → Result (Bytes × Reader)
unfolding join seek
finish_name labels none r = ok (join labels, r)
finish_name labels (some resume) r = elim (seek resume r) [
  | err e ↦ err e
  | ok r' ↦ ok (join labels, r')
]

unfoldable pub pointer_part : ℕ → Result (ℕ × Reader) → Result (Part × Reader)
pointer_part high (err e) = err e
pointer_part high (ok (low, r)) = ok (pointer (high % 64 * 256 + low), r)

module _ (decode_punycode : Bytes → Option Bytes) where
  unfoldable pub decode_label : Bytes → Result Bytes
  unfolding is_utf8
  decode_label bytes =
      if bytes_eq (take 4 bytes) ace_prefix
      then if is_utf8 (drop 4 bytes)
        then elim (decode_punycode (drop 4 bytes)) [
          | none ↦ err (invalid_punycode bytes)
          | some text ↦ ok text
        ]
        else err (label_not_utf8 bytes)
      else if is_utf8 bytes
      then ok bytes
      else err (label_not_utf8 bytes)

  unfoldable pub label_part : Result (Bytes × Reader) → Result (Part × Reader)
  unfolding decode_label
  label_part (err e) = err e
  label_part (ok (bytes, r)) = elim (decode_label bytes) [
    | err e ↦ err e
    | ok text ↦ ok (label text, r)
  ]

  unfoldable pub part_of : Result (ℕ × Reader) → Result (Part × Reader)
  unfolding read_u8 read_slice label_part pointer_part
  part_of (err e) = err e
  part_of (ok (byte, r)) =
      if byte == 0
      then ok (last, r)
      else if byte / 64 == 0
      then label_part (read_slice byte r)
      else if byte / 64 == 3
      then pointer_part byte (read_u8 r)
      else err (reserved_label_type (byte / 64))

  unfoldable pub next_part : Reader → Result (Part × Reader)
  unfolding part_of read_u8
  next_part r = part_of (read_u8 r)

  unfoldable pub parse_loop : ℕ → List Bytes → Option ℕ → ℕ → Reader → Result (Bytes × Reader)
  unfolding next_part finish_name resume_at seek
  parse_loop zero labels resume jumps r = err stuck
  parse_loop (suc n) labels resume jumps r = elim (next_part r) [
    | err e ↦ err e
    | ok (last, r') ↦ finish_name labels resume r'
    | ok (label text, r') ↦ parse_loop n (labels ++ text ∷ []) resume jumps r'
    | ok (pointer offset, r') ↦
        if ltb max_pointer_jumps (jumps + 1) then err compression_loop else elim (seek offset r') [
          | err e ↦ err e
          | ok r'' ↦ parse_loop n labels (some (resume_at resume r'.position)) (jumps + 1) r''
        ]
  ]

  -- Each jump is followed by as many labels at most as the message has bytes.
  unfoldable pub parse_name : Reader → Result (Bytes × Reader)
  unfolding parse_loop
  parse_name r = parse_loop (65 * (length r.message + 1)) [] none 0 r

-- The largest character boundary at or below a length: no continuation byte stands there.
unfoldable pub is_continuation : Option ℕ → Bool
is_continuation none = false
is_continuation (some byte) = byte / 64 == 2

unfoldable pub boundary_below : ℕ → Bytes → ℕ
unfolding is_continuation
boundary_below zero text = zero
boundary_below (suc end) text =
    let lower = boundary_below end text in
    if is_continuation (get_elem? text (suc end)) then lower else suc end

unfoldable pub shortened : Bytes → Bytes
unfolding boundary_below
shortened text =
    if ltb max_label_length (length text)
    then take (boundary_below max_label_length text) text
    else text

-- What `encode_label` writes, and whether the label was empty.
module _ (nfc : Bytes → Bytes) where
  unfoldable pub encode_label : Bytes → Bytes
  unfolding shortened
  encode_label text = length (shortened (nfc text)) ∷ shortened (nfc text)

  unfoldable pub ends_name : Bytes → Bool
  unfolding shortened
  ends_name text = length (shortened (nfc text)) == 0

  unfoldable pub encode_name_labels : List Bytes → Bytes
  unfolding encode_label ends_name
  encode_name_labels [] = 0 ∷ []
  encode_name_labels (text ∷ labels) =
      let rest = encode_name_labels labels in
      if ends_name text then encode_label text else encode_label text ++ rest
