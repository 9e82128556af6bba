-- ===== src/Opack/De.antt =====
-- crates/pyatv-opack/src/de.rs: the decoder. `rest` is what stands at and behind the source's
-- `offset`. An offset past `usize::MAX` is past the input, so `checked_add` needs no case of its
-- own; `usize` has 64 bits, as every length prefix has at most. The parameters are the standard
-- library's hash of a word sequence and `size_of::<Value>()`.
use pyatv_rs.Prelude.{
  ℕ, zero, suc, ◌+◌, ◌-◌, ◌*◌, ◌/◌, ◌%◌, ◌^◌, Bool, true, false, ◌&&◌, ◌||◌, none, some, List, [],
  ◌∷◌, Bytes, length, split_at, ◌==◌, ltb, leb, if◌then◌else◌, from_le_bytes, buffer8, is_utf8,
}
use pyatv_rs.Opack.Tags
use pyatv_rs.Opack.Value.{
  UintWidth, one, byte_count, from_tag, Value, Items, Fields, null, bool, uint, sized_uint, float,
  float32, string, byte_data, uuid, absolute_time, array, dict, nil, cons, end, field, Error,
  unexpected_eof, unknown_tag, integer_too_wide, bad_back_reference, invalid_utf8, budget_exceeded,
  depth_limit_exceeded, stuck, Result, ok, err, max_depth,
}
use pyatv_rs.Opack.Objects.{UnpackTable, empty_unpack_table, get_value, record_value}

pub record Decoder : Type 0 where
  pub rest : Bytes
  pub offset : ℕ
  pub table : UnpackTable
  pub depth : ℕ
  pub budget : ℕ
  pub spent : ℕ

abbrev pub M {ℓ} : Type ℓ → Type ℓ
M A = Decoder → Result (A × Decoder)

abbrev pub bind {ℓ κ} :
    {A : Type ℓ} {B : Type κ} → Result (A × Decoder) → (A → M B) → Result (B × Decoder)
bind (ok (a, d)) f = f a d
bind (err e) f = err e

infixl 5 ◌>>=◌ ◌>>◌
abbrev pub ◌>>=◌ {ℓ κ} : {A : Type ℓ} {B : Type κ} → M A → (A → M B) → M B
◌>>=◌ m f d = bind (m d) f

abbrev pub ◌>>◌ {ℓ} : {B : Type ℓ} → M (Unit {0}) → M B → M B
m >> k = m >>= λ _. k

abbrev pub pure {ℓ} : {A : Type ℓ} → A → M A
pure a d = ok (a, d)

abbrev pub fail {ℓ} : {A : Type ℓ} → Error → M A
fail e d = err e

abbrev pub min_budget : ℕ
min_budget = 64 * 1024

abbrev pub max_budget : ℕ
max_budget = 16 * 1024 * 1024

unfoldable pub default_budget : ℕ → ℕ
default_budget input_len =
    let scaled = if ltb (input_len * 4) (2 ^ 64) then input_len * 4 else 2 ^ 64 - 1 in
    if ltb scaled min_budget
    then min_budget
    else if ltb max_budget scaled
    then max_budget
    else scaled

unfoldable pub take : ℕ → M Bytes
take count d = elim (split_at count d.rest) [
  | none ↦ err (unexpected_eof d.offset)
  | some (bytes, rest) ↦ ok (bytes, record d { rest = rest; offset = d.offset + count })
]

unfoldable pub head_byte : Bytes → ℕ
head_byte [] = 0
head_byte (b ∷ bs) = b

unfoldable pub position : M ℕ
position d = ok (d.offset, d)

-- `self.take(1)?[0]`.
unfoldable pub tag : M ℕ
unfolding take head_byte
tag = do bytes ← take 1; pure (head_byte bytes)

unfoldable pub peek : M ℕ
peek d = elim (d.rest) [ [] ↦ err (unexpected_eof d.offset) | b ∷ bs ↦ ok (b, d) ]

unfoldable pub le_uint : ℕ → M ℕ
unfolding take
le_uint count = do bytes ← take count; pure (from_le_bytes (buffer8 bytes))

-- `usize::try_from` of a `u64` cannot fail where `usize` has 64 bits.
unfoldable pub le_len : ℕ → M ℕ
unfolding le_uint
le_len count = le_uint count

unfoldable pub enter : M (Unit {0})
enter d =
    if leb max_depth d.depth
    then err (depth_limit_exceeded max_depth)
    else ok (tt, record d { depth = d.depth + 1 })

unfoldable pub leave : M (Unit {0})
leave d = ok (tt, record d { depth = d.depth - 1 })

-- `saturating_add` of the amount, then the test against the ceiling.
unfoldable pub charge : ℕ → M (Unit {0})
charge bytes d =
    let spent = if ltb (d.spent + bytes) (2 ^ 64) then d.spent + bytes else 2 ^ 64 - 1 in
    if ltb d.budget spent
    then err (budget_exceeded d.budget d.offset)
    else ok (tt, record d { spent = spent })

-- `self.offset += 1` behind a terminator that was peeked.
unfoldable pub skip_terminator : M (Unit {0})
skip_terminator d = elim (d.rest) [
  | [] ↦ ok (tt, record d { offset = d.offset + 1 })
  | b ∷ bs ↦ ok (tt, record d { rest = bs; offset = d.offset + 1 })
]

-- The arms of the `match` on the tag, in its order.
pub data Arm : Type 0 where
  true_arm false_arm null_arm uuid_arm absolute_time_arm float32_arm float64_arm too_wide_arm : Arm
  small_int_arm sized_arm string_arm string_len_arm data_arm data_len_arm : ℕ → Arm
  pointer_arm pointer_len_arm array_arm dict_arm : ℕ → Arm
  unknown_arm : Arm

abbrev within : ℕ → ℕ → ℕ → Bool
within lo hi t = leb lo t && leb t hi

-- `t & 0x0F` is `t % 16`, `1 << k` is `2 ^ k`, and `t & 0xE0 == 0xE0` says that the top three bits
-- of the byte are set.
unfoldable pub arm_of : ℕ → Arm
arm_of t =
    if t == Tags.true_tag
    then true_arm
    else if t == Tags.false_tag
    then false_arm
    else if t == Tags.null_tag
    then null_arm
    else if t == Tags.uuid_tag
    then uuid_arm
    else if t == Tags.absolute_time_tag
    then absolute_time_arm
    else if within Tags.small_int_bias Tags.small_int_max_tag t
    then small_int_arm (t - Tags.small_int_bias)
    else if within Tags.uint_1 Tags.uint_8 t
    then sized_arm t
    else if (t == Tags.uint_too_wide_low)
        || within Tags.uint_too_wide_high_first Tags.uint_too_wide_high_last t
    then too_wide_arm
    else if t == Tags.float32_tag
    then float32_arm
    else if t == Tags.float64_tag
    then float64_arm
    else if within Tags.string_inline_base Tags.string_inline_max_tag t
    then string_arm (t - Tags.string_inline_base)
    else if within Tags.string_len_min_tag Tags.string_len_max_tag t
    then string_len_arm (t % 16)
    else if within Tags.data_inline_base Tags.data_inline_max_tag t
    then data_arm (t - Tags.data_inline_base)
    else if within Tags.data_len_min_tag Tags.data_len_max_tag t
    then data_len_arm (2 ^ (t % 16 - 1))
    else if within Tags.pointer_inline_base Tags.pointer_inline_max_tag t
    then pointer_arm (t - Tags.pointer_inline_base)
    else if within Tags.pointer_len_min_tag Tags.pointer_len_max_tag t
    then pointer_len_arm (t - Tags.pointer_len_base)
    else if within Tags.array_base Tags.array_max_tag t
    then array_arm (t - Tags.array_base)
    else if t / 32 == 7
    then dict_arm (t % 16)
    else unknown_arm

unfoldable pub width_of : ℕ → UintWidth
width_of t = elim (from_tag t) [ none ↦ one | some w ↦ w ]

unfoldable pub sized : ℕ → M Value
unfolding width_of byte_count le_uint
sized t = do n ← le_uint (byte_count (width_of t)); pure (sized_uint n (width_of t))

unfoldable pub text : ℕ → ℕ → M Value
unfolding take charge
text len start = do
  bytes ← take len
  if is_utf8 bytes then charge len else fail (invalid_utf8 start)
  pure (string bytes)

unfoldable pub octets : ℕ → M Value
unfolding take charge
octets len = do bytes ← take len; charge len; pure (byte_data bytes)

unfoldable pub resolve : ℕ → M Value
resolve index d = elim (get_value d.table index) [
  | none ↦ err (bad_back_reference index (length d.table.values))
  | some v ↦ ok (v, d)
]

-- `array` and `dict` around their two loops.
unfoldable pub container {ℓ} : {A : Type ℓ} → (A → Value) → (ℕ → M A) → M A → ℕ → M Value
unfolding enter leave
container wrap counted endless count = do
  enter
  elements ← (if count == Tags.container_endless_count then endless else counted count)
  leave
  pure (wrap elements)

-- The value and the number of bytes that it took.
unfoldable pub consumed : Result (Value × Decoder) → Result (Value × ℕ)
consumed (ok (v, d)) = ok (v, d.offset)
consumed (err e) = err e

module _ (hash : List ℕ → ℕ) (element_cost : ℕ) where
  unfoldable pub back_reference : ℕ → M Value
  unfolding charge resolve
  back_reference index = do charge element_cost; resolve index

  -- The value of an arm and whether it takes a slot in the table.
  unfoldable pub decode_arm : (ℕ → M Value) → (ℕ → M Value) → ℕ → ℕ → Arm → M (Value × Bool)
  unfolding take le_uint le_len sized text octets back_reference
  decode_arm array_body dict_body t start true_arm = pure (bool true, false)
  decode_arm array_body dict_body t start false_arm = pure (bool false, false)
  decode_arm array_body dict_body t start null_arm = pure (null, false)
  decode_arm array_body dict_body t start uuid_arm = do bytes ← take 16; pure (uuid bytes, true)
  decode_arm array_body dict_body t start absolute_time_arm = do
    time ← le_uint 8
    pure (absolute_time time, true)
  decode_arm array_body dict_body t start (small_int_arm n) = pure (uint n, false)
  decode_arm array_body dict_body t start (sized_arm width) = do v ← sized width; pure (v, true)
  decode_arm array_body dict_body t start too_wide_arm = fail (integer_too_wide t start)
  decode_arm array_body dict_body t start float32_arm = do
    bytes ← take 4
    pure (float32 (from_le_bytes bytes), true)
  decode_arm array_body dict_body t start float64_arm = do bits ← le_uint 8; pure (float bits, true)
  decode_arm array_body dict_body t start (string_arm len) = do v ← text len start; pure (v, true)
  decode_arm array_body dict_body t start (string_len_arm width) = do
    len ← le_len width
    v ← text len start
    pure (v, true)
  decode_arm array_body dict_body t start (data_arm len) = do v ← octets len; pure (v, true)
  decode_arm array_body dict_body t start (data_len_arm width) = do
    len ← le_len width
    v ← octets len
    pure (v, true)
  decode_arm array_body dict_body t start (pointer_arm index) = do
    v ← back_reference index
    pure (v, false)
  decode_arm array_body dict_body t start (pointer_len_arm width) = do
    index ← le_len width
    v ← back_reference index
    pure (v, false)
  decode_arm array_body dict_body t start (array_arm count) = do
    v ← array_body count
    pure (v, false)
  decode_arm array_body dict_body t start (dict_arm count) = do v ← dict_body count; pure (v, false)
  decode_arm array_body dict_body t start unknown_arm = fail (unknown_tag t start)

  unfoldable pub note_value : Value → Bool → M Value
  note_value v true d = ok (v, record d { table = record_value hash d.table v })
  note_value v false d = ok (v, d)

  -- `Decoder::value` around the two container decoders.
  unfoldable pub value_with : (ℕ → M Value) → (ℕ → M Value) → M Value
  unfolding position tag arm_of decode_arm note_value
  value_with array_body dict_body = do
    start ← position
    t ← tag
    (v, recorded) ← decode_arm array_body dict_body t start (arm_of t)
    note_value v recorded

  -- One unit of fuel for each call. The loops charge before each element.
  unfoldable mutual
    unfolding container charge peek skip_terminator value_with

    pub value : ℕ → M Value
    value zero = fail stuck
    value (suc f) =
        value_with (container array (counted_items f) (endless_items f))
          (container dict (counted_fields f) (endless_fields f))

    pub counted_items : ℕ → ℕ → M Items
    counted_items zero count = fail stuck
    counted_items (suc f) zero = pure nil
    counted_items (suc f) (suc count) = do
      charge element_cost
      item ← value f
      items ← counted_items f count
      pure (cons item items)

    pub endless_items : ℕ → M Items
    endless_items zero = fail stuck
    endless_items (suc f) = do
      next ← peek
      elim (next == Tags.terminator) [
        | true ↦ do skip_terminator; pure nil
        | false ↦ do
          charge element_cost
          item ← value f
          items ← endless_items f
          pure (cons item items)
      ]

    pub counted_fields : ℕ → ℕ → M Fields
    counted_fields zero count = fail stuck
    counted_fields (suc f) zero = pure end
    counted_fields (suc f) (suc count) = do
      charge (2 * element_cost)
      key ← value f
      item ← value f
      fields ← counted_fields f count
      pure (field key item fields)

    pub endless_fields : ℕ → M Fields
    endless_fields zero = fail stuck
    endless_fields (suc f) = do
      next ← peek
      elim (next == Tags.terminator) [
        | true ↦ do skip_terminator; pure end
        | false ↦ do
          charge (2 * element_cost)
          key ← value f
          item ← value f
          fields ← endless_fields f
          pure (field key item fields)
      ]

  -- Every call of `value` takes a byte and a loop takes none of its own, so two units of fuel for
  -- each byte are enough.
  unfoldable pub unpack_with_budget : Bytes → ℕ → Result (Value × ℕ)
  unfolding value consumed
  unpack_with_budget input budget = consumed (
      value (2 * length input + 1) (record {
        rest = input;
        offset = 0;
        table = empty_unpack_table;
        depth = 0;
        budget = budget;
        spent = 0;
      }))

  unfoldable pub unpack : Bytes → Result (Value × ℕ)
  unfolding unpack_with_budget default_budget
  unpack input = unpack_with_budget input (default_budget (length input))
