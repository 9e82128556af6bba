-- ===== src/Opack/Spec.antt =====
-- What the OPACK round trip is stated with: which values the Rust types can hold, what a value
-- becomes when it is decoded, and how much decoding it may charge.
use pyatv_rs.Prelude.{ℕ, ◌+◌, ◌*◌, ◌^◌, ◌<◌, ◌≡◌, true, length, ltb, if◌then◌else◌, is_utf8}
use pyatv_rs.Opack.Tags
use pyatv_rs.Opack.Value.{
  narrowest_for, Value, Items, Fields, null, bool, uint, sized_uint, float, float32, string,
  byte_data, uuid, absolute_time, array, dict, nil, cons, end, field,
}

-- The ranges of the Rust types: `u64`, the bit patterns of floats, valid UTF-8 and lengths of a
-- 64-bit target. A container is no leaf.
abbrev pub LeafFits : Value → Type 0
LeafFits null = Unit {0}
LeafFits (bool b) = Unit {0}
LeafFits (uint n) = n < 2 ^ 64
LeafFits (sized_uint n w) = n < 2 ^ 64
LeafFits (float bits) = bits < 2 ^ 64
LeafFits (float32 bits) = bits < 2 ^ 32
LeafFits (string s) = (is_utf8 s ≡ true) × (length s < 2 ^ 64)
LeafFits (byte_data b) = length b < 2 ^ 64
LeafFits (uuid b) = length b ≡ 16
LeafFits (absolute_time n) = n < 2 ^ 64
LeafFits (array xs) = ⊥
LeafFits (dict fs) = ⊥

-- A value all of whose leaves fit.
mutual
  pub data Fits : Value → Type 0 where
    leaf : {v : Value} → LeafFits v → Fits v
    in_array : {xs : Items} → ItemsFit xs → Fits (array xs)
    in_dict : {fs : Fields} → FieldsFit fs → Fits (dict fs)

  pub data ItemsFit : Items → Type 0 where
    none : ItemsFit nil
    more : {x : Value} {xs : Items} → Fits x → ItemsFit xs → ItemsFit (cons x xs)

  pub data FieldsFit : Fields → Type 0 where
    stop : FieldsFit end
    next : {k x : Value} {fs : Fields} → Fits k → Fits x → FieldsFit fs → FieldsFit (field k x fs)

-- The bytes that decoding the value itself charges.
unfoldable pub payload : Value → ℕ
payload (string s) = length s
payload (byte_data b) = length b
payload _ = 0

-- An integer of 0x28 or more comes back pinned to the width that it was written with.
unfoldable mutual
  unfolding narrowest_for

  pub norm : Value → Value
  norm null = null
  norm (bool b) = bool b
  norm (uint n) = if ltb n Tags.small_int_limit then uint n else sized_uint n (narrowest_for n)
  norm (sized_uint n w) = sized_uint n w
  norm (float bits) = float bits
  norm (float32 bits) = float32 bits
  norm (string s) = string s
  norm (byte_data b) = byte_data b
  norm (uuid b) = uuid b
  norm (absolute_time n) = absolute_time n
  norm (array xs) = array (norm_items xs)
  norm (dict fs) = dict (norm_fields fs)

  pub norm_items : Items → Items
  norm_items nil = nil
  norm_items (cons x xs) = cons (norm x) (norm_items xs)

  pub norm_fields : Fields → Fields
  norm_fields end = end
  norm_fields (field k x fs) = field (norm k) (norm x) (norm_fields fs)

-- How many leaves a value has.
unfoldable mutual
  pub leaves : Value → ℕ
  leaves (array xs) = leaves_items xs
  leaves (dict fs) = leaves_fields fs
  leaves _ = 1

  pub leaves_items : Items → ℕ
  leaves_items nil = 0
  leaves_items (cons x xs) = leaves x + leaves_items xs

  pub leaves_fields : Fields → ℕ
  leaves_fields end = 0
  leaves_fields (field k x fs) = leaves k + leaves x + leaves_fields fs

-- A bound on what decoding a value charges: its payloads, a slot for each element, and a slot for
-- each leaf, which may come as a back-reference.
module _ (element_cost : ℕ) where
  unfoldable mutual
    unfolding payload

    pub cost : Value → ℕ
    cost (array xs) = cost_items xs
    cost (dict fs) = cost_fields fs
    cost v = payload v + element_cost

    pub cost_items : Items → ℕ
    cost_items nil = 0
    cost_items (cons x xs) = element_cost + cost x + cost_items xs

    pub cost_fields : Fields → ℕ
    cost_fields end = 0
    cost_fields (field k x fs) = 2 * element_cost + cost k + cost x + cost_fields fs
