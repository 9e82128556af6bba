-- ===== src/Opack/Value.antt =====
-- crates/pyatv-opack/src/value.rs, error.rs and the depth limit of lib.rs: the value model, its
-- accessors and the errors. A float is its IEEE-754 bit pattern; a string is its UTF-8 bytes.
use pyatv_rs.Prelude.{
  ℕ, ◌%◌, ◌^◌, Bool, true, false, not, ◌&&◌, ◌||◌, Option, none, some, Bytes, ◌==◌, ltb, leb,
  bytes_eq, if◌then◌else◌,
}
use pyatv_rs.Opack.Tags.{uint_1, uint_2, uint_4, uint_8}

pub data UintWidth : Type 0 where
  one two four eight : UintWidth

unfoldable pub byte_count : UintWidth → ℕ
byte_count one = 1
byte_count two = 2
byte_count four = 4
byte_count eight = 8

unfoldable pub width_tag : UintWidth → ℕ
width_tag one = uint_1
width_tag two = uint_2
width_tag four = uint_4
width_tag eight = uint_8

unfoldable pub narrowest_for : ℕ → UintWidth
narrowest_for value =
    if leb value 0xFF
    then one
    else if leb value 0xFFFF
    then two
    else if leb value 0xFFFF_FFFF
    then four
    else eight

unfoldable pub from_tag : ℕ → Option UintWidth
from_tag tag =
    if tag == uint_1
    then some one
    else if tag == uint_2
    then some two
    else if tag == uint_4
    then some four
    else if tag == uint_8
    then some eight
    else none

-- `Items` is the vector of an array and `Fields` that of a dictionary, in wire order. `byte_data`
-- is the source's `Data`.
mutual
  pub data Value : Type 0 where
    null : Value
    bool : Bool → Value
    uint : ℕ → Value
    sized_uint : ℕ → UintWidth → Value
    float : ℕ → Value
    float32 : ℕ → Value
    string : Bytes → Value
    byte_data : Bytes → Value
    uuid : Bytes → Value
    absolute_time : ℕ → Value
    array : Items → Value
    dict : Fields → Value

  pub data Items : Type 0 where
    nil : Items
    cons : Value → Items → Items

  pub data Fields : Type 0 where
    end : Fields
    field : Value → Value → Fields → Fields

unfoldable pub is_null : Value → Bool
is_null null = true
is_null _ = false

unfoldable pub as_bool : Value → Option Bool
as_bool (bool b) = some b
as_bool _ = none

unfoldable pub as_u64 : Value → Option ℕ
as_u64 (uint n) = some n
as_u64 (sized_uint n w) = some n
as_u64 _ = none

unfoldable pub as_str : Value → Option Bytes
as_str (string s) = some s
as_str _ = none

unfoldable pub as_bytes : Value → Option Bytes
as_bytes (byte_data b) = some b
as_bytes _ = none

unfoldable pub as_array : Value → Option Items
as_array (array xs) = some xs
as_array _ = none

unfoldable pub as_dict : Value → Option Fields
as_dict (dict fs) = some fs
as_dict _ = none

-- `entry_key.as_str() == Some(key)`.
unfoldable pub is_key : Bytes → Value → Bool
unfolding as_str
is_key key v = elim (as_str v) [ none ↦ false | some s ↦ bytes_eq s key ]

unfoldable pub find_field : Bytes → Fields → Option Value
unfolding is_key
find_field key end = none
find_field key (field k v fs) = if is_key key k then some v else find_field key fs

unfoldable pub get : Value → Bytes → Option Value
unfolding find_field
get (dict fs) key = find_field key fs
get _ key = none

-- `f64` and `f32` equality on bit patterns: a NaN equals nothing and the two zeros are equal.
unfoldable pub float_eq : ℕ → ℕ → Bool
float_eq a b =
    not (ltb 0x7FF0_0000_0000_0000 (a % 2 ^ 63))
    && not (ltb 0x7FF0_0000_0000_0000 (b % 2 ^ 63))
    && ((a == b) || ((a % 2 ^ 63 == 0) && (b % 2 ^ 63 == 0)))

unfoldable pub float32_eq : ℕ → ℕ → Bool
float32_eq a b =
    not (ltb 0x7F80_0000 (a % 2 ^ 31))
    && not (ltb 0x7F80_0000 (b % 2 ^ 31))
    && ((a == b) || ((a % 2 ^ 31 == 0) && (b % 2 ^ 31 == 0)))

unfoldable pub width_eq : UintWidth → UintWidth → Bool
width_eq one one = true
width_eq two two = true
width_eq four four = true
width_eq eight eight = true
width_eq _ _ = false

unfoldable pub bool_eq : Bool → Bool → Bool
bool_eq true b = b
bool_eq false b = not b

-- The derived `PartialEq`.
unfoldable mutual
  unfolding float_eq float32_eq width_eq bool_eq

  pub value_eq : Value → Value → Bool
  value_eq null null = true
  value_eq (bool a) (bool b) = bool_eq a b
  value_eq (uint a) (uint b) = a == b
  value_eq (sized_uint a v) (sized_uint b w) = (a == b) && width_eq v w
  value_eq (float a) (float b) = float_eq a b
  value_eq (float32 a) (float32 b) = float32_eq a b
  value_eq (string a) (string b) = bytes_eq a b
  value_eq (byte_data a) (byte_data b) = bytes_eq a b
  value_eq (uuid a) (uuid b) = bytes_eq a b
  value_eq (absolute_time a) (absolute_time b) = a == b
  value_eq (array xs) (array ys) = items_eq xs ys
  value_eq (dict fs) (dict gs) = fields_eq fs gs
  value_eq _ _ = false

  pub items_eq : Items → Items → Bool
  items_eq nil nil = true
  items_eq (cons x xs) (cons y ys) = value_eq x y && items_eq xs ys
  items_eq _ _ = false

  pub fields_eq : Fields → Fields → Bool
  fields_eq end end = true
  fields_eq (field k x fs) (field j y gs) = value_eq k j && value_eq x y && fields_eq fs gs
  fields_eq _ _ = false

-- error.rs, and `stuck`, which is no error of the program: a recursion of the model ran out of fuel.
-- `value_too_long` is raised for strings alone.
pub data Error : Type 0 where
  unexpected_eof : ℕ → Error
  unknown_tag : ℕ → ℕ → Error
  unpack_only_tag : ℕ → Error
  integer_too_wide : ℕ → ℕ → Error
  bad_back_reference : ℕ → ℕ → Error
  invalid_utf8 : ℕ → Error
  length_overflow : ℕ → ℕ → Error
  budget_exceeded : ℕ → ℕ → Error
  depth_limit_exceeded : ℕ → Error
  value_too_long : ℕ → Error
  sized_integer_overflow : ℕ → ℕ → Error
  stuck : Error

pub data Result {ℓ} (A : Type ℓ) : Type ℓ where
  ok : A → Result A
  err : Error → Result A

infixl 5 ◌>>=◌
abbrev pub ◌>>=◌ {ℓ κ} : {A : Type ℓ} {B : Type κ} → Result A → (A → Result B) → Result B
ok a >>= f = f a
err e >>= f = err e

abbrev pub max_depth : ℕ
max_depth = 32
