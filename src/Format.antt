-- ===== src/Format.antt =====
-- format.go: the format bytes, the masks of the five fix formats and the tests on them.
pub mod Ranges
use msgpck.Base.{ℕ, Bool, ◌==◌, leb, bit_and}

abbrev pub format_nil : ℕ
format_nil = 0xc0

abbrev pub format_false : ℕ
format_false = 0xc2

abbrev pub format_true : ℕ
format_true = 0xc3

abbrev pub format_uint8 : ℕ
format_uint8 = 0xcc

abbrev pub format_uint16 : ℕ
format_uint16 = 0xcd

abbrev pub format_uint32 : ℕ
format_uint32 = 0xce

abbrev pub format_uint64 : ℕ
format_uint64 = 0xcf

abbrev pub format_int8 : ℕ
format_int8 = 0xd0

abbrev pub format_int16 : ℕ
format_int16 = 0xd1

abbrev pub format_int32 : ℕ
format_int32 = 0xd2

abbrev pub format_int64 : ℕ
format_int64 = 0xd3

abbrev pub format_float32 : ℕ
format_float32 = 0xca

abbrev pub format_float64 : ℕ
format_float64 = 0xcb

abbrev pub format_str8 : ℕ
format_str8 = 0xd9

abbrev pub format_str16 : ℕ
format_str16 = 0xda

abbrev pub format_str32 : ℕ
format_str32 = 0xdb

abbrev pub format_bin8 : ℕ
format_bin8 = 0xc4

abbrev pub format_bin16 : ℕ
format_bin16 = 0xc5

abbrev pub format_bin32 : ℕ
format_bin32 = 0xc6

abbrev pub format_array16 : ℕ
format_array16 = 0xdc

abbrev pub format_array32 : ℕ
format_array32 = 0xdd

abbrev pub format_map16 : ℕ
format_map16 = 0xde

abbrev pub format_map32 : ℕ
format_map32 = 0xdf

abbrev pub format_fix_ext1 : ℕ
format_fix_ext1 = 0xd4

abbrev pub format_fix_ext2 : ℕ
format_fix_ext2 = 0xd5

abbrev pub format_fix_ext4 : ℕ
format_fix_ext4 = 0xd6

abbrev pub format_fix_ext8 : ℕ
format_fix_ext8 = 0xd7

abbrev pub format_fix_ext16 : ℕ
format_fix_ext16 = 0xd8

abbrev pub format_ext8 : ℕ
format_ext8 = 0xc7

abbrev pub format_ext16 : ℕ
format_ext16 = 0xc8

abbrev pub format_ext32 : ℕ
format_ext32 = 0xc9

abbrev pub pos_fixint_mask : ℕ
pos_fixint_mask = 0x80

abbrev pub neg_fixint_min : ℕ
neg_fixint_min = 0xe0

abbrev pub fixmap_mask : ℕ
fixmap_mask = 0xf0

abbrev pub fixmap_prefix : ℕ
fixmap_prefix = 0x80

abbrev pub fixmap_max : ℕ
fixmap_max = 0xf

abbrev pub fixarray_mask : ℕ
fixarray_mask = 0xf0

abbrev pub fixarray_prefix : ℕ
fixarray_prefix = 0x90

abbrev pub fixarray_max : ℕ
fixarray_max = 0xf

abbrev pub fixstr_mask : ℕ
fixstr_mask = 0xe0

abbrev pub fixstr_prefix : ℕ
fixstr_prefix = 0xa0

abbrev pub fixstr_max : ℕ
fixstr_max = 0x1f

unfoldable pub is_positive_fixint : ℕ → Bool
is_positive_fixint b = bit_and b pos_fixint_mask == 0

unfoldable pub is_negative_fixint : ℕ → Bool
is_negative_fixint b = leb neg_fixint_min b

unfoldable pub is_fixmap : ℕ → Bool
is_fixmap b = bit_and b fixmap_mask == fixmap_prefix

unfoldable pub is_fixarray : ℕ → Bool
is_fixarray b = bit_and b fixarray_mask == fixarray_prefix

unfoldable pub is_fixstr : ℕ → Bool
is_fixstr b = bit_and b fixstr_mask == fixstr_prefix

unfoldable pub fixmap_len : ℕ → ℕ
fixmap_len b = bit_and b fixmap_max

unfoldable pub fixarray_len : ℕ → ℕ
fixarray_len b = bit_and b fixarray_max

unfoldable pub fixstr_len : ℕ → ℕ
fixstr_len b = bit_and b fixstr_max
