-- ===== src/Decoder/Floats.antt =====
-- decoder.go, decode_struct.go, decode_any.go: the readers of floats, which take integers too, and of
-- booleans and strings with their format byte.
use msgpck.Base.{ℕ, Bool, true, false, Bytes, ◌==◌, if◌then◌else◌}
use msgpck.Base.Words.{to_int8}
use msgpck.Base.Floats.{float64_of_float32, float64_of_nat, float64_of_int}
use msgpck.Format.{
  is_positive_fixint, is_negative_fixint, format_true, format_false, format_uint8, format_uint16,
  format_uint32, format_uint64, format_int8, format_int16, format_int32, format_int64,
  format_float32, format_float64,
}
use msgpck.Errors.{type_mismatch}
use msgpck.Decoder.{
  M, pure, fail, ◌>>=◌, ◌>>◌, read_byte, read_bytes, read_uint8, read_uint16, read_uint32,
  read_uint64, read_int8, read_int16, read_int32, read_int64, read_float32, read_float64,
}
use msgpck.Decoder.Limits.{validate_string_len}
use msgpck.Decoder.Lengths.{parse_string_len}

-- Decoder.decodeFloat: every integer format but uint64.
unfoldable pub decode_float : ℕ → M ℕ
decode_float format =
    if is_positive_fixint format
    then pure (float64_of_nat format)
    else if is_negative_fixint format
    then pure (float64_of_int (to_int8 format))
    else if format == format_float32
    then (do v ← read_float32; pure (float64_of_float32 v))
    else if format == format_float64
    then read_float64
    else if format == format_uint8
    then (do v ← read_uint8; pure (float64_of_nat v))
    else if format == format_uint16
    then (do v ← read_uint16; pure (float64_of_nat v))
    else if format == format_uint32
    then (do v ← read_uint32; pure (float64_of_nat v))
    else if format == format_int8
    then (do v ← read_int8; pure (float64_of_int v))
    else if format == format_int16
    then (do v ← read_int16; pure (float64_of_int v))
    else if format == format_int32
    then (do v ← read_int32; pure (float64_of_int v))
    else if format == format_int64
    then (do v ← read_int64; pure (float64_of_int v))
    else fail type_mismatch

-- decodeValueFloat: uint64 as well.
unfoldable pub decode_value_float : ℕ → M ℕ
decode_value_float format =
    if is_positive_fixint format
    then pure (float64_of_nat format)
    else if is_negative_fixint format
    then pure (float64_of_int (to_int8 format))
    else if format == format_float32
    then (do v ← read_float32; pure (float64_of_float32 v))
    else if format == format_float64
    then read_float64
    else if format == format_uint8
    then (do v ← read_uint8; pure (float64_of_nat v))
    else if format == format_uint16
    then (do v ← read_uint16; pure (float64_of_nat v))
    else if format == format_uint32
    then (do v ← read_uint32; pure (float64_of_nat v))
    else if format == format_uint64
    then (do v ← read_uint64; pure (float64_of_nat v))
    else if format == format_int8
    then (do v ← read_int8; pure (float64_of_int v))
    else if format == format_int16
    then (do v ← read_int16; pure (float64_of_int v))
    else if format == format_int32
    then (do v ← read_int32; pure (float64_of_int v))
    else if format == format_int64
    then (do v ← read_int64; pure (float64_of_int v))
    else fail type_mismatch

-- decodeFloatValue takes the float formats only.
unfoldable pub decode_float_value : M ℕ
decode_float_value = do
  format ← read_byte
  if format == format_float32
      then (do v ← read_float32; pure (float64_of_float32 v))
      else if format == format_float64
      then read_float64
      else fail type_mismatch

unfoldable pub decode_bool_value : M Bool
decode_bool_value = do
  format ← read_byte
  if format == format_true
      then pure true
      else if format == format_false
      then pure false
      else fail type_mismatch

unfoldable pub decode_string_value : M Bytes
decode_string_value = do
  format ← read_byte
  length ← parse_string_len format
  validate_string_len length
  read_bytes length
