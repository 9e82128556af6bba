-- ===== src/Opack/Objects.antt =====
-- crates/pyatv-opack/src/objects.rs: the back-reference tables of the two directions. The standard
-- library's seeded hasher is not code of this repository: it is the parameter `hash`, a function
-- of the sequence of words that `hash_into` feeds it.
use pyatv_rs.Prelude.{
  ℕ, Bool, false, ◌&&◌, ◌||◌, Option, none, some, List, [], ◌∷◌, ◌++◌, Bytes, length, get_elem?,
  ◌==◌, ltb, bytes_eq, if◌then◌else◌,
}
use pyatv_rs.Opack.Value.{
  UintWidth, one, two, four, eight, Value, Items, Fields, null, bool, uint, sized_uint, float,
  float32, string, byte_data, uuid, absolute_time, array, dict, nil, cons, end, field, value_eq,
}

abbrev pub max_bucket : ℕ
max_bucket = 64

-- The map from an emitted encoding to its index, as an association list with distinct keys.
pub record PackTable : Type 0 where
  pub indices : List (Bytes × ℕ)

abbrev pub empty_pack_table : PackTable
empty_pack_table = record { indices = [] }

unfoldable pub lookup_index : Bytes → List (Bytes × ℕ) → Option ℕ
lookup_index encoded [] = none
lookup_index encoded ((key, index) ∷ m) =
    if bytes_eq key encoded then some index else lookup_index encoded m

unfoldable pub lookup : PackTable → Bytes → Option ℕ
unfolding lookup_index
lookup t encoded = lookup_index encoded t.indices

-- `entry(..).or_insert(next)`.
unfoldable pub record_encoding : PackTable → Bytes → PackTable
unfolding lookup
record_encoding t encoded = elim (lookup t encoded) [
  | some index ↦ t
  | none ↦ record { indices = (encoded, length t.indices) ∷ t.indices }
]

pub record UnpackTable : Type 0 where
  pub values : List Value
  pub buckets : ℕ → List ℕ

abbrev pub empty_unpack_table : UnpackTable
empty_unpack_table = record { values = []; buckets = λ digest. [] }

unfoldable pub get_value : UnpackTable → ℕ → Option Value
get_value t index = get_elem? t.values index

unfoldable pub width_word : UintWidth → ℕ
width_word one = 0
width_word two = 1
width_word four = 2
width_word eight = 3

-- The discriminant, then the payload; the elements of a container one after the other.
unfoldable mutual
  unfolding width_word

  pub hash_into : Value → List ℕ
  hash_into null = 0 ∷ []
  hash_into (bool b) = 1 ∷ (if b then 1 else 0) ∷ []
  hash_into (uint n) = 2 ∷ n ∷ []
  hash_into (sized_uint n w) = 3 ∷ n ∷ width_word w ∷ []
  hash_into (float n) = 4 ∷ n ∷ []
  hash_into (float32 n) = 5 ∷ n ∷ []
  hash_into (string s) = 6 ∷ (s ++ (0xFF ∷ []))
  hash_into (byte_data b) = 7 ∷ length b ∷ b
  hash_into (uuid b) = 8 ∷ length b ∷ b
  hash_into (absolute_time n) = 9 ∷ n ∷ []
  hash_into (array xs) = 10 ∷ hash_items xs
  hash_into (dict fs) = 11 ∷ hash_fields fs

  pub hash_items : Items → List ℕ
  hash_items nil = []
  hash_items (cons x xs) = hash_into x ++ hash_items xs

  pub hash_fields : Fields → List ℕ
  hash_fields end = []
  hash_fields (field k x fs) = hash_into k ++ (hash_into x ++ hash_fields fs)

-- Whether an index of the bucket names a value that equals `value`.
unfoldable pub any_equal : List Value → Value → List ℕ → Bool
any_equal values value [] = false
any_equal values value (index ∷ bucket) =
    elim (get_elem? values index) [ none ↦ false | some v ↦ value_eq v value ]
    || any_equal values value bucket

unfoldable pub set_bucket : (ℕ → List ℕ) → ℕ → List ℕ → ℕ → List ℕ
set_bucket buckets digest bucket d = if d == digest then bucket else buckets d

module _ (hash : List ℕ → ℕ) where
  unfoldable pub digest_of : Value → ℕ
  digest_of value = hash (hash_into value)

  unfoldable pub record_value : UnpackTable → Value → UnpackTable
  unfolding digest_of any_equal set_bucket
  record_value t value =
      let digest = digest_of value in
      let bucket = t.buckets digest in
      if ltb (length bucket) max_bucket && any_equal t.values value bucket then t else record {
        values = t.values ++ value ∷ [];
        buckets = set_bucket t.buckets digest (bucket ++ length t.values ∷ []);
      }
