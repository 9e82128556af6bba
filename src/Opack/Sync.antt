-- ===== src/Opack/Sync.antt =====
-- The encoder's table and the decoder's table number the same values.
pub mod Equality
pub mod Step
use pyatv_rs.Prelude.{
  ℕ, ◌≡◌, ◌≢◌, refl, Bool, true, Option, some, List, [], ◌∷◌, Bytes, length, All, get_elem?, ◌^◌,
}
use pyatv_rs.Opack.Value.{Value, float, float32, ok}
use pyatv_rs.Opack.Objects.{
  PackTable, UnpackTable, empty_pack_table, empty_unpack_table, lookup, digest_of,
}
use pyatv_rs.Opack.Ser.{Encoder, write, is_interned}
use pyatv_rs.Opack.Spec.{LeafFits, norm}

-- The seeded hasher gives the two zeros of a float type different digests.
pub record TellsZerosApart (hash : List ℕ → ℕ) : Type 0 where
  pub double : digest_of hash (float 0) ≢ digest_of hash (float (2 ^ 63))
  pub single : digest_of hash (float32 0) ≢ digest_of hash (float32 (2 ^ 31))

-- `bytes` is the encoding of `v`, a leaf in normal form that takes a slot.
pub record Slot (bytes : Bytes) (v : Value) : Type 0 where
  pub fits : LeafFits v
  pub interned : is_interned v ≡ true
  pub normal : norm v ≡ v
  pub writes : (enc : Encoder) → write v enc ≡ ok (bytes, enc)

pub record InSync (hash : List ℕ → ℕ) (pt : PackTable) (ut : UnpackTable) : Type 0 where
  pub size : length pt.indices ≡ length ut.values
  pub found :
      (bytes : Bytes) (i : ℕ)
      → lookup pt bytes ≡ some i
      → (v : Value) × (get_elem? ut.values i ≡ some v) × Slot bytes v
  pub kept :
      (i : ℕ) (v : Value)
      → get_elem? ut.values i ≡ some v
      → (bytes : Bytes) × (lookup pt bytes ≡ some i) × Slot bytes v
  pub bucket :
      (d : ℕ)
      → All
          (λ i. (v : Value) × (get_elem? ut.values i ≡ some v) × (digest_of hash v ≡ d))
          (ut.buckets d)

pub InSync-empty : (hash : List ℕ → ℕ) → InSync hash empty_pack_table empty_unpack_table
InSync-empty hash = record {
  size = refl;
  found = λ bytes i h. unfold lookup in cc;
  kept = λ i v h. cc;
  bucket = λ d. tt;
}
