-- ===== src/Tlv8/Lookup.antt =====
-- Reading and setting entries of a TLV8 message.
use pyatv_rs.Prelude.{
  ℕ, ◌^◌, ◌≤◌, ◌<◌, ◌≡◌, refl, Bool, false, some, List, [], ◌↔◌, subst, ◌∷◌, ◌++◌, Bytes, length,
  take, min, ◌==◌, if◌then◌else◌, arith, ◌||◌, ap, ◌∙◌, to_le_bytes, from_le_bytes, buffer8,
  length-to_le_bytes, from_le_bytes-to_le_bytes, from_le_bytes-buffer8, take_all, ==_refl,
}
use pyatv_rs.Tlv8.{
  ErrorCode, code_byte, from_code, TlvValue, tag_byte, from_tag, Entries, Tlv8, set_entry, with_raw,
  with_tag, find_entry, get_raw, get, get_uint, tags_of, tags, method,
}

find_entry-set_entry :
    (k j : ℕ) (value : Bytes) (es : Entries)
    → find_entry j (set_entry k value es) ≡ (if k == j then some value else find_entry j es)
unfolding find_entry set_entry
find_entry-set_entry k j value [] = refl
find_entry-set_entry k j value ((t, old) ∷ es) = ground (arith, find_entry-set_entry k j value es)

-- After a value is set under a tag, that tag reads the value and every other tag reads what it did.
pub get_raw-with_raw :
    (k j : ℕ) (value : Bytes) (m : Tlv8)
    → get_raw (with_raw k value m) j ≡ (if k == j then some value else get_raw m j)
unfolding get_raw with_raw
get_raw-with_raw k j value m =
    unfold find_entry set_entry in find_entry-set_entry k j value m.entries

-- Whether a tag is present.
unfoldable pub has_tag : ℕ → List ℕ → Bool
has_tag tag [] = false
has_tag tag (t ∷ ts) = (t == tag) || has_tag tag ts

tags_of-set_entry :
    (k : ℕ) (value : Bytes) (es : Entries)
    → tags_of (set_entry k value es)
      ≡ (if has_tag k (tags_of es) then tags_of es else tags_of es ++ k ∷ [])
unfolding tags_of set_entry has_tag
tags_of-set_entry k value [] = refl
tags_of-set_entry k value ((t, old) ∷ es) = ground (arith, tags_of-set_entry k value es)

-- Setting a tag that is present keeps the order of the tags, and a new tag goes to the end.
pub tags-with_raw :
    (k : ℕ) (value : Bytes) (m : Tlv8)
    → tags (with_raw k value m) ≡ (if has_tag k (tags m) then tags m else tags m ++ k ∷ [])
unfolding tags with_raw
tags-with_raw k value m = unfold tags_of set_entry has_tag in tags_of-set_entry k value m.entries

pub from_tag-tag_byte : (t : TlvValue) → from_tag (tag_byte t) ≡ some t
unfolding from_tag tag_byte
from_tag-tag_byte method = refl
from_tag-tag_byte _ = refl

-- `from_tag` gives a known tag exactly for that tag's own byte.
pub from_tag_iff_byte : (byte : ℕ) (t : TlvValue) → (from_tag byte ≡ some t) ↔ (tag_byte t ≡ byte)
unfolding from_tag tag_byte
from_tag_iff_byte byte t =
    (λ h. ground arith, λ e. subst (λ b. from_tag b ≡ some t) e (from_tag-tag_byte t))

from_code-code_byte : (e : ErrorCode) → from_code (code_byte e) ≡ some e
unfolding from_code code_byte
from_code-code_byte ErrorCode.unknown = refl
from_code-code_byte _ = refl

-- A byte is read as an error code exactly when it is that code's own byte.
pub from_code_iff_byte :
    (byte : ℕ) (e : ErrorCode) → (from_code byte ≡ some e) ↔ (code_byte e ≡ byte)
unfolding from_code code_byte
from_code_iff_byte byte e =
    (λ h. ground arith, λ q. subst (λ b. from_code b ≡ some e) q (from_code-code_byte e))

-- An integer of at most eight bytes that is stored low byte first is read back by `get_uint`.
pub get_uint-with_tag :
    (t : TlvValue) (k n : ℕ) (m : Tlv8)
    → k ≤ 8
    → n < 256 ^ k
    → get_uint (with_tag t (to_le_bytes k n) m) t ≡ some n
unfolding get_uint with_tag get
get_uint-with_tag t k n m hk hn =
    rw (get_raw-with_raw (tag_byte t) (tag_byte t) (to_le_bytes k n) m, ==_refl (tag_byte t))
      (ap some (
        ap (λ bs. from_le_bytes (buffer8 bs)) whole
        ∙ from_le_bytes-buffer8 (to_le_bytes k n)
        ∙ from_le_bytes-to_le_bytes k n hn))
  where
    whole : take (min (length (to_le_bytes k n)) 8) (to_le_bytes k n) ≡ to_le_bytes k n
    whole = take_all _ (to_le_bytes k n) (omega (arith, length-to_le_bytes k n))
