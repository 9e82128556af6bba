-- ===== src/Opack/Ser.antt =====
-- crates/pyatv-opack/src/ser.rs: the encoder. Each function returns the bytes that it appends to
-- the buffer; what is left in the buffer after an error is not modelled.
use pyatv_rs.Prelude.{
  ℕ, suc, ◌+◌, ◌-◌, ◌*◌, ◌/◌, ◌%◌, ◌^◌, min, Bool, true, false, ◌&&◌, Option, none, some, [], ◌∷◌,
  ◌++◌, Bytes, length, ltb, leb, if◌then◌else◌, to_le_bytes,
}
use pyatv_rs.Opack.Tags
use pyatv_rs.Opack.Value.{
  UintWidth, byte_count, width_tag, narrowest_for, Value, Items, Fields, null, bool, uint,
  sized_uint, float, float32, string, byte_data, uuid, absolute_time, array, dict, nil, cons, end,
  field, unpack_only_tag, depth_limit_exceeded, value_too_long, sized_integer_overflow, Result, ok,
  err, ◌>>=◌, max_depth,
}
use pyatv_rs.Opack.Objects.{PackTable, empty_pack_table, lookup, record_encoding}

pub record Encoder : Type 0 where
  pub table : PackTable
  pub depth : ℕ

abbrev pub fresh_encoder : Encoder
fresh_encoder = record { table = empty_pack_table; depth = 0 }

unfoldable pub is_interned : Value → Bool
is_interned null = false
is_interned (bool b) = false
is_interned (array xs) = false
is_interned (dict fs) = false
is_interned (uint n) = leb Tags.small_int_limit n
is_interned _ = true

-- `base + min(count, 0xF)`, where a count over 255 saturates.
unfoldable pub container_tag : ℕ → ℕ → ℕ
container_tag base count =
    base
    + min (if leb count 255 then count else Tags.container_endless_count)
        Tags.container_endless_count

unfoldable pub finish_container : ℕ → Bytes
finish_container count = if leb Tags.container_endless_count count then Tags.terminator ∷ [] else []

unfoldable pub write_sized : ℕ → UintWidth → Bytes
unfolding width_tag byte_count
write_sized number width = width_tag width ∷ to_le_bytes (byte_count width) number

unfoldable pub write_uint : ℕ → Bytes
unfolding write_sized narrowest_for
write_uint number =
    if leb number 255 && ltb number Tags.small_int_limit
    then (number + Tags.small_int_bias) ∷ []
    else write_sized number (narrowest_for number)

unfoldable pub write_sized_uint : ℕ → UintWidth → Result Bytes
unfolding write_sized
write_sized_uint number width =
    let bytes = byte_count width in
    if ltb bytes 8 && leb (2 ^ (bytes * 8)) number
    then err (sized_integer_overflow number bytes)
    else ok (write_sized number width)

-- `put_length` is `to_le_bytes`.
unfoldable pub write_string : Bytes → Result Bytes
write_string text =
    let len = length text in
    if leb len Tags.string_inline_max_len
    then ok ((Tags.string_inline_base + len) ∷ text)
    else if leb len 0xFF
    then ok ((Tags.string_len_base + 1) ∷ (to_le_bytes 1 len ++ text))
    else if leb len 0xFFFF
    then ok ((Tags.string_len_base + 2) ∷ (to_le_bytes 2 len ++ text))
    else if leb len 0x00FF_FFFF
    then ok ((Tags.string_len_base + 3) ∷ (to_le_bytes 3 len ++ text))
    else if leb len 0xFFFF_FFFF
    then ok ((Tags.string_len_base + 4) ∷ (to_le_bytes 4 len ++ text))
    else err (value_too_long len)

unfoldable pub write_data : Bytes → Bytes
write_data bytes =
    let len = length bytes in
    if leb len Tags.data_inline_max_len
    then (Tags.data_inline_base + len) ∷ bytes
    else if leb len 0xFF
    then (Tags.data_len_base + 1) ∷ (to_le_bytes 1 len ++ bytes)
    else if leb len 0xFFFF
    then (Tags.data_len_base + 2) ∷ (to_le_bytes 2 len ++ bytes)
    else if leb len 0xFFFF_FFFF
    then (Tags.data_len_base + 3) ∷ (to_le_bytes 4 len ++ bytes)
    else (Tags.data_len_base + 4) ∷ (to_le_bytes 8 len ++ bytes)

unfoldable pub pointer_bytes : ℕ → Option Bytes
pointer_bytes index =
    if leb index Tags.pointer_inline_max_index
    then some ((Tags.pointer_inline_base + index) ∷ [])
    else if leb index 0xFF
    then some ((Tags.pointer_len_base + 1) ∷ index ∷ [])
    else if leb index 0xFFFF
    then some ((Tags.pointer_len_base + 2) ∷ (index % 256) ∷ (index / 256) ∷ [])
    else none

unfoldable pub enter : Encoder → Result Encoder
enter enc =
    if leb max_depth enc.depth
    then err (depth_limit_exceeded max_depth)
    else ok (record enc { depth = enc.depth + 1 })

unfoldable pub emit : Encoder → Result Bytes → Result (Bytes × Encoder)
emit enc r = r >>= λ bytes. ok (bytes, enc)

-- The end of `Encoder::value`: a repeated encoding becomes a back-reference, and a new one is
-- recorded if the value takes a slot.
unfoldable pub intern_bytes : Value → Bytes → Encoder → Bytes × Encoder
intern_bytes v bytes enc = elim (lookup enc.table bytes) [
  | some index ↦ elim (pointer_bytes index) [ some p ↦ (p, enc) | none ↦ (bytes, enc) ]
  | none ↦
      if is_interned v
      then (bytes, record enc { table = record_encoding enc.table bytes })
      else (bytes, enc)
]

unfoldable pub intern : Value → Result (Bytes × Encoder) → Result (Bytes × Encoder)
intern v r = r >>= λ (bytes, enc). ok (intern_bytes v bytes enc)

unfoldable pub count_items : Items → ℕ
count_items nil = 0
count_items (cons x xs) = suc (count_items xs)

unfoldable pub count_fields : Fields → ℕ
count_fields end = 0
count_fields (field k x fs) = suc (count_fields fs)

-- The tag, the elements and the terminator of a container, whose elements are written one level
-- deeper.
unfoldable pub container :
    ℕ → ℕ → Encoder → (Encoder → Result (Bytes × Encoder)) → Result (Bytes × Encoder)
container base count enc elements = enter enc >>= λ inner. elements inner >>= λ (body, after). ok (
  container_tag base count ∷ (body ++ finish_container count),
  record after { depth = after.depth - 1 },
)

-- `Encoder::write`, and the loops over the elements, where each element goes through
-- `Encoder::value`: written, then interned.
unfoldable mutual
  unfolding emit intern container

  pub write : Value → Encoder → Result (Bytes × Encoder)
  write null enc = ok (Tags.null_tag ∷ [], enc)
  write (bool true) enc = ok (Tags.true_tag ∷ [], enc)
  write (bool false) enc = ok (Tags.false_tag ∷ [], enc)
  write (uint number) enc = ok (write_uint number, enc)
  write (sized_uint number width) enc = emit enc (write_sized_uint number width)
  write (float bits) enc = ok (Tags.float64_tag ∷ to_le_bytes 8 bits, enc)
  write (float32 bits) enc = ok (Tags.float32_tag ∷ to_le_bytes 4 bits, enc)
  write (string text) enc = emit enc (write_string text)
  write (byte_data bytes) enc = ok (write_data bytes, enc)
  write (uuid bytes) enc = ok (Tags.uuid_tag ∷ bytes, enc)
  write (absolute_time time) enc = err (unpack_only_tag Tags.absolute_time_tag)
  write (array items) enc = container Tags.array_base (count_items items) enc (write_items items)
  write (dict fields) enc = container Tags.dict_base (count_fields fields) enc (write_fields fields)

  pub write_items : Items → Encoder → Result (Bytes × Encoder)
  write_items nil enc = ok ([], enc)
  write_items (cons item items) enc = intern item (write item enc) >>= λ (first, enc₁).
      write_items items enc₁ >>= λ (rest, enc₂). ok (first ++ rest, enc₂)

  pub write_fields : Fields → Encoder → Result (Bytes × Encoder)
  write_fields end enc = ok ([], enc)
  write_fields (field key item fields) enc = intern key (write key enc) >>= λ (first, enc₁).
      intern item (write item enc₁) >>= λ (second, enc₂).
      write_fields fields enc₂ >>= λ (rest, enc₃). ok (first ++ (second ++ rest), enc₃)

-- `Encoder::value`.
unfoldable pub encode_value : Value → Encoder → Result (Bytes × Encoder)
unfolding write
encode_value v enc = intern v (write v enc)

unfoldable pub pack : Value → Result Bytes
unfolding encode_value
pack v = encode_value v fresh_encoder >>= λ (bytes, enc). ok bytes

-- `encode` appends a document to a buffer; every call starts with an empty table.
unfoldable pub encode : Value → Bytes → Result Bytes
unfolding pack
encode v out = pack v >>= λ bytes. ok (out ++ bytes)
