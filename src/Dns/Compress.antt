-- ===== src/Dns/Compress.antt =====
-- `NameCompressor` of crates/pyatv-mdns/src/dns/name.rs. The map is an association list, and a suffix
-- is recorded only where it is missing, so that recording puts it in front.
use pyatv_rs.Prelude.{
  ℕ, ◌+◌, ◌/◌, ◌%◌, Option, none, some, List, [], ◌∷◌, ◌++◌, Bytes, length, bytes_eq, leb,
  if◌then◌else◌,
}
use pyatv_rs.Dns.Name.{encode_label}
pub mod Known
pub mod RoundTrip

-- `NameCompressor`.
abbrev pub Offsets : Type 0
Offsets = List (Bytes × ℕ)

abbrev pub max_pointer_offset : ℕ
max_pointer_offset = 0x3FFF

-- `join("\0")`.
unfoldable pub suffix : List Bytes → Bytes
suffix [] = []
suffix (label ∷ []) = label
suffix (label ∷ next ∷ labels) = label ++ 0 ∷ suffix (next ∷ labels)

unfoldable pub offset_of : Bytes → Offsets → Option ℕ
offset_of key [] = none
offset_of key ((other, offset) ∷ offsets) =
    let rest = offset_of key offsets in if bytes_eq other key then some offset else rest

-- An offset has 14 bits, so that `|` with the flag is a sum.
unfoldable pub pointer_to : ℕ → Bytes
pointer_to offset = (0xC000 + offset) / 256 ∷ (0xC000 + offset) % 256 ∷ []

unfoldable pub record_offset : Bytes → ℕ → Offsets → Offsets
record_offset key offset offsets =
    if leb offset max_pointer_offset then (key, offset) ∷ offsets else offsets

module _ (nfc : Bytes → Bytes) where
  unfoldable pub encode_labels : List Bytes → Offsets → Bytes → Offsets × Bytes
  unfolding suffix offset_of pointer_to record_offset encode_label
  encode_labels [] offsets out = (offsets, out ++ 0 ∷ [])
  encode_labels ([] ∷ labels) offsets out = (offsets, out ++ 0 ∷ [])
  encode_labels ((byte ∷ bytes) ∷ labels) offsets out =
      elim (offset_of (suffix ((byte ∷ bytes) ∷ labels)) offsets) [
        | some offset ↦ (offsets, out ++ pointer_to offset)
        | none ↦
            encode_labels labels
              (record_offset (suffix ((byte ∷ bytes) ∷ labels)) (length out) offsets)
              (out ++ encode_label nfc (byte ∷ bytes))
      ]
