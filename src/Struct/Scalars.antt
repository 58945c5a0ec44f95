-- ===== src/Struct/Scalars.antt =====
-- struct_decoder.go: the readers of one word, one string or one byte slice, given the format byte. The
-- flag zeroCopy, which says whether texts share the input's memory, is left out.
use msgpck.Base.{ℕ, ◌%◌, ◌^◌, ◌||◌, Bool, true, false, Bytes, ◌==◌, if◌then◌else◌}
use msgpck.Base.Words.{ℤ, pos, to_int8, to_int16, to_int32, to_int64, to_uint64}
use msgpck.Base.Floats.{float64_of_float32, float32_of_float64, float64_of_nat, float64_of_int}
use msgpck.Format.{
  is_positive_fixint, is_negative_fixint, is_fixstr, fixstr_len, format_true, format_false,
  format_uint8, format_uint16, format_uint32, format_uint64, format_int8, format_int16,
  format_int32, format_int64, format_float32, format_float64, format_str8, format_str16,
  format_str32, format_bin8, format_bin16, format_bin32,
}
use msgpck.Errors.{type_mismatch}
use msgpck.Decoder.{
  M, pure, fail, ◌>>=◌, ◌>>◌, read_bytes, read_uint8, read_uint16, read_uint32, read_uint64,
  read_int8, read_int16, read_int32, read_int64, read_float32, read_float64,
}
use msgpck.Decoder.Limits.{validate_string_len, validate_binary_len}
use msgpck.Struct.Kinds.{
  ScalarKind, Scalar, k_string, k_int, k_int64, k_int32, k_int16, k_int8, k_uint, k_uint64,
  k_uint32, k_uint16, k_uint8, k_float64, k_float32, k_bool, v_string, v_int, v_uint, v_float64,
  v_float32, v_bool,
}

-- decodeInt, the function of this file.
unfoldable pub decode_int : ℕ → M ℤ
decode_int format =
    if is_positive_fixint format
    then pure (pos format)
    else if is_negative_fixint format
    then pure (to_int8 format)
    else if format == format_uint8
    then (do v ← read_uint8; pure (pos v))
    else if format == format_uint16
    then (do v ← read_uint16; pure (pos v))
    else if format == format_uint32
    then (do v ← read_uint32; pure (pos v))
    else if format == format_uint64
    then (do v ← read_uint64; pure (to_int64 v))
    else if format == format_int8
    then read_int8
    else if format == format_int16
    then read_int16
    else if format == format_int32
    then read_int32
    else if format == format_int64
    then read_int64
    else fail type_mismatch

unfoldable pub decode_uint : ℕ → M ℕ
decode_uint format =
    if is_positive_fixint format
    then pure format
    else if format == format_uint8
    then read_uint8
    else if format == format_uint16
    then read_uint16
    else if format == format_uint32
    then read_uint32
    else if format == format_uint64
    then read_uint64
    else fail type_mismatch

unfoldable pub decode_float : ℕ → M ℕ
decode_float format =
    if is_positive_fixint format
    then pure (float64_of_nat format)
    else if is_negative_fixint format
    then pure (float64_of_int (to_int8 format))
    else if format == format_float32
    then (do v ← read_float32; pure (float64_of_float32 v))
    else if format == format_float64
    then read_float64
    else if format == format_uint8
    then (do v ← read_uint8; pure (float64_of_nat v))
    else if format == format_uint16
    then (do v ← read_uint16; pure (float64_of_nat v))
    else if format == format_uint32
    then (do v ← read_uint32; pure (float64_of_nat v))
    else if format == format_int8
    then (do v ← read_int8; pure (float64_of_int v))
    else if format == format_int16
    then (do v ← read_int16; pure (float64_of_int v))
    else if format == format_int32
    then (do v ← read_int32; pure (float64_of_int v))
    else if format == format_int64
    then (do v ← read_int64; pure (float64_of_int v))
    else fail type_mismatch

-- The length of StructDecoder.decodeString.
unfoldable pub string_len : ℕ → M ℕ
string_len format =
    if is_fixstr format
    then pure (fixstr_len format)
    else if format == format_str8
    then (do n ← read_uint8; pure n)
    else if format == format_str16
    then (do n ← read_uint16; pure n)
    else if format == format_str32
    then (do n ← read_uint32; pure n)
    else fail type_mismatch

unfoldable pub decode_string : ℕ → M Bytes
decode_string format = do length ← string_len format; validate_string_len length; read_bytes length

-- The length of StructDecoder.decodeBytes, which takes strings as well.
unfoldable pub bytes_len : ℕ → M ℕ
bytes_len format =
    if is_fixstr format
    then pure (fixstr_len format)
    else if format == format_str8 || format == format_bin8
    then (do n ← read_uint8; pure n)
    else if format == format_str16 || format == format_bin16
    then (do n ← read_uint16; pure n)
    else if format == format_str32 || format == format_bin32
    then (do n ← read_uint32; pure n)
    else fail type_mismatch

unfoldable pub decode_bytes : ℕ → M Bytes
decode_bytes format = do length ← bytes_len format; validate_binary_len length; read_bytes length

-- The conversions from int64 and uint64 to narrower types keep the low bits.
unfoldable pub narrow_int : ScalarKind → ℤ → ℤ
narrow_int k_int32 v = to_int32 (to_uint64 v % 2 ^ 32)
narrow_int k_int16 v = to_int16 (to_uint64 v % 2 ^ 16)
narrow_int k_int8 v = to_int8 (to_uint64 v % 2 ^ 8)
narrow_int _ v = v

unfoldable pub narrow_uint : ScalarKind → ℕ → ℕ
narrow_uint k_uint32 v = v % 2 ^ 32
narrow_uint k_uint16 v = v % 2 ^ 16
narrow_uint k_uint8 v = v % 2 ^ 8
narrow_uint _ v = v

-- A boolean is its format byte.
unfoldable pub decode_bool : ℕ → M Bool
decode_bool format =
    if format == format_true
    then pure true
    else if format == format_false
    then pure false
    else fail type_mismatch

-- The switch of decodeField on the kind, for one word or one string, and its twin behind pointers.
unfoldable pub decode_scalar : ScalarKind → ℕ → M Scalar
decode_scalar k_string format = do s ← decode_string format; pure (v_string s)
decode_scalar k_int format = do v ← decode_int format; pure (v_int (narrow_int k_int v))
decode_scalar k_int64 format = do v ← decode_int format; pure (v_int (narrow_int k_int64 v))
decode_scalar k_int32 format = do v ← decode_int format; pure (v_int (narrow_int k_int32 v))
decode_scalar k_int16 format = do v ← decode_int format; pure (v_int (narrow_int k_int16 v))
decode_scalar k_int8 format = do v ← decode_int format; pure (v_int (narrow_int k_int8 v))
decode_scalar k_uint format = do v ← decode_uint format; pure (v_uint (narrow_uint k_uint v))
decode_scalar k_uint64 format = do v ← decode_uint format; pure (v_uint (narrow_uint k_uint64 v))
decode_scalar k_uint32 format = do v ← decode_uint format; pure (v_uint (narrow_uint k_uint32 v))
decode_scalar k_uint16 format = do v ← decode_uint format; pure (v_uint (narrow_uint k_uint16 v))
decode_scalar k_uint8 format = do v ← decode_uint format; pure (v_uint (narrow_uint k_uint8 v))
decode_scalar k_float64 format = do v ← decode_float format; pure (v_float64 v)
decode_scalar k_float32 format = do v ← decode_float format; pure (v_float32 (float32_of_float64 v))
decode_scalar k_bool format = do b ← decode_bool format; pure (v_bool b)
