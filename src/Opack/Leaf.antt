-- ===== src/Opack/Leaf.antt =====
-- Reading back the encoding of a value that is no container.
use pyatv_rs.Prelude.{
  ℕ, ◌+◌, ◌^◌, ◌≤◌, ◌<◌, ◌≡◌, refl, true, [], ◌∷◌, ◌++◌, Bytes, length, split_at-append,
  to_le_bytes, from_le_bytes-buffer8, from_le_bytes-to_le_bytes, length-to_le_bytes, is_utf8, arith,
}
use pyatv_rs.Opack.Value.{UintWidth, one, width_tag, from_tag, string, byte_data, ok}
use pyatv_rs.Opack.Objects.{UnpackTable}
use pyatv_rs.Opack.De.{
  Decoder, take, tag, le_uint, charge, text, octets, width_of, arm_of, sized_arm, string_arm,
  data_arm, small_int_arm,
}

-- A decoder by its parts.
abbrev pub at : UnpackTable → ℕ → ℕ → Bytes → ℕ → ℕ → Decoder
at table depth budget rest offset spent = record {
  rest = rest;
  offset = offset;
  table = table;
  depth = depth;
  budget = budget;
  spent = spent;
}

module _ (table : UnpackTable) (depth budget : ℕ) where
  pub take_exact :
      (n : ℕ) (bytes rest : Bytes) (o s : ℕ)
      → length bytes ≡ n
      → take n (at table depth budget (bytes ++ rest) o s)
        ≡ ok (bytes, at table depth budget rest (o + n) s)
  unfolding take
  take_exact n bytes rest o s h = ground (arith, split_at-append bytes rest)

  pub tag_lem :
      (t : ℕ) (rest : Bytes) (o s : ℕ)
      → tag (at table depth budget (t ∷ rest) o s) ≡ ok (t, at table depth budget rest (o + 1) s)
  unfolding tag
  tag_lem t rest o s = rw (take_exact 1 (t ∷ []) rest o s refl)

  pub le_uint_lem :
      (k n : ℕ) (rest : Bytes) (o s : ℕ)
      → n < 256 ^ k
      → le_uint k (at table depth budget (to_le_bytes k n ++ rest) o s)
        ≡ ok (n, at table depth budget rest (o + k) s)
  unfolding le_uint
  le_uint_lem k n rest o s h = rw (
    take_exact k (to_le_bytes k n) rest o s (length-to_le_bytes k n),
    from_le_bytes-buffer8 (to_le_bytes k n),
    from_le_bytes-to_le_bytes k n h,
  )

  pub charge_lem :
      (n : ℕ) (rest : Bytes) (o s : ℕ)
      → budget < 2 ^ 64
      → s + n ≤ budget
      → charge n (at table depth budget rest o s) ≡ ok (tt, at table depth budget rest o (s + n))
  unfolding charge
  charge_lem n rest o s hb h = ground arith

  pub text_lem :
      (n start : ℕ) (bytes rest : Bytes) (o s : ℕ)
      → budget < 2 ^ 64
      → is_utf8 bytes ≡ true
      → length bytes ≡ n
      → s + n ≤ budget
      → text n start (at table depth budget (bytes ++ rest) o s)
        ≡ ok (string bytes, at table depth budget rest (o + n) (s + n))
  unfolding text
  text_lem n start bytes rest o s hb valid h room =
      rw (take_exact n bytes rest o s h, valid, charge_lem n rest (o + n) s hb room)

  pub octets_lem :
      (n : ℕ) (bytes rest : Bytes) (o s : ℕ)
      → budget < 2 ^ 64
      → length bytes ≡ n
      → s + n ≤ budget
      → octets n (at table depth budget (bytes ++ rest) o s)
        ≡ ok (byte_data bytes, at table depth budget rest (o + n) (s + n))
  unfolding octets
  octets_lem n bytes rest o s hb h room =
      rw (take_exact n bytes rest o s h, charge_lem n rest (o + n) s hb room)

-- Which arm the tags of the encoder select.
pub arm-small_int : (n : ℕ) → n < 0x28 → arm_of (n + 8) ≡ small_int_arm n
unfolding arm_of
arm-small_int n h = ground arith

pub arm-string : (n : ℕ) → n ≤ 0x20 → arm_of (0x40 + n) ≡ string_arm n
unfolding arm_of
arm-string n h = ground arith

pub arm-data : (n : ℕ) → n ≤ 0x20 → arm_of (0x70 + n) ≡ data_arm n
unfolding arm_of
arm-data n h = ground arith

pub arm-sized : (w : UintWidth) → arm_of (width_tag w) ≡ sized_arm (width_tag w)
unfolding arm_of width_tag
arm-sized one = refl
arm-sized _ = refl

pub width_of-width_tag : (w : UintWidth) → width_of (width_tag w) ≡ w
unfolding width_of width_tag from_tag
width_of-width_tag one = refl
width_of-width_tag _ = refl
