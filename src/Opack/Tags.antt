-- ===== src/Opack/Tags.antt =====
-- crates/pyatv-opack/src/tags.rs: the tag bytes.
use pyatv_rs.Prelude.{ℕ}

abbrev pub true_tag : ℕ
true_tag = 0x01

abbrev pub false_tag : ℕ
false_tag = 0x02

abbrev pub terminator : ℕ
terminator = 0x03

abbrev pub null_tag : ℕ
null_tag = 0x04

abbrev pub uuid_tag : ℕ
uuid_tag = 0x05

abbrev pub absolute_time_tag : ℕ
absolute_time_tag = 0x06

abbrev pub small_int_bias : ℕ
small_int_bias = 0x08

abbrev pub small_int_max_tag : ℕ
small_int_max_tag = 0x2F

abbrev pub small_int_limit : ℕ
small_int_limit = 0x28

abbrev pub uint_1 : ℕ
uint_1 = 0x30

abbrev pub uint_2 : ℕ
uint_2 = 0x31

abbrev pub uint_4 : ℕ
uint_4 = 0x32

abbrev pub uint_8 : ℕ
uint_8 = 0x33

abbrev pub float32_tag : ℕ
float32_tag = 0x35

abbrev pub float64_tag : ℕ
float64_tag = 0x36

abbrev pub string_inline_base : ℕ
string_inline_base = 0x40

abbrev pub string_inline_max_len : ℕ
string_inline_max_len = 0x20

abbrev pub string_len_base : ℕ
string_len_base = 0x60

abbrev pub data_inline_base : ℕ
data_inline_base = 0x70

abbrev pub data_inline_max_len : ℕ
data_inline_max_len = 0x20

abbrev pub data_len_base : ℕ
data_len_base = 0x90

abbrev pub pointer_inline_base : ℕ
pointer_inline_base = 0xA0

abbrev pub pointer_inline_max_index : ℕ
pointer_inline_max_index = 0x20

abbrev pub pointer_len_base : ℕ
pointer_len_base = 0xC0

abbrev pub array_base : ℕ
array_base = 0xD0

abbrev pub dict_base : ℕ
dict_base = 0xE0

abbrev pub container_endless_count : ℕ
container_endless_count = 0x0F

abbrev pub string_inline_max_tag : ℕ
string_inline_max_tag = 0x60

abbrev pub string_len_min_tag : ℕ
string_len_min_tag = 0x61

abbrev pub string_len_max_tag : ℕ
string_len_max_tag = 0x64

abbrev pub data_inline_max_tag : ℕ
data_inline_max_tag = 0x90

abbrev pub data_len_min_tag : ℕ
data_len_min_tag = 0x91

abbrev pub data_len_max_tag : ℕ
data_len_max_tag = 0x94

abbrev pub pointer_inline_max_tag : ℕ
pointer_inline_max_tag = 0xC0

abbrev pub pointer_len_min_tag : ℕ
pointer_len_min_tag = 0xC1

abbrev pub pointer_len_max_tag : ℕ
pointer_len_max_tag = 0xC4

abbrev pub array_max_tag : ℕ
array_max_tag = 0xDF

abbrev pub uint_too_wide_low : ℕ
uint_too_wide_low = 0x34

abbrev pub uint_too_wide_high_first : ℕ
uint_too_wide_high_first = 0x37

abbrev pub uint_too_wide_high_last : ℕ
uint_too_wide_high_last = 0x3F
