-- ===== src/Decoder/Integers.antt =====
-- decoder.go, decode_struct.go and decode_any.go: the readers of integers, which take any integer
-- format and convert to int64 or uint64.
pub mod Encoded
pub mod Agree
use msgpck.Base.{ℕ, ◌==◌, if◌then◌else◌}
use msgpck.Base.Words.{ℤ, pos, to_int8, to_int64, to_uint64}
use msgpck.Format.{
  is_positive_fixint, is_negative_fixint, format_uint8, format_uint16, format_uint32, format_uint64,
  format_int8, format_int16, format_int32, format_int64,
}
use msgpck.Errors.{type_mismatch}
use msgpck.Decoder.{
  M, pure, fail, ◌>>=◌, ◌>>◌, read_byte, read_uint8, read_uint16, read_uint32, read_uint64,
  read_int8, read_int16, read_int32, read_int64,
}

-- Decoder.decodeInt
unfoldable pub decode_int : ℕ → M ℤ
decode_int format =
    if is_positive_fixint format
    then pure (pos format)
    else if is_negative_fixint format
    then pure (to_int8 format)
    else if format == format_uint8
    then (do v ← read_uint8; pure (pos v))
    else if format == format_uint16
    then (do v ← read_uint16; pure (pos v))
    else if format == format_uint32
    then (do v ← read_uint32; pure (pos v))
    else if format == format_uint64
    then (do v ← read_uint64; pure (to_int64 v))
    else if format == format_int8
    then read_int8
    else if format == format_int16
    then read_int16
    else if format == format_int32
    then read_int32
    else if format == format_int64
    then read_int64
    else fail type_mismatch

-- Decoder.decodeUint: no signed format.
unfoldable pub decode_uint : ℕ → M ℕ
decode_uint format =
    if is_positive_fixint format
    then pure format
    else if format == format_uint8
    then read_uint8
    else if format == format_uint16
    then read_uint16
    else if format == format_uint32
    then read_uint32
    else if format == format_uint64
    then read_uint64
    else fail type_mismatch

-- decodeValueInt
unfoldable pub decode_value_int : ℕ → M ℤ
decode_value_int format =
    if is_positive_fixint format
    then pure (pos format)
    else if is_negative_fixint format
    then pure (to_int8 format)
    else if format == format_uint8
    then (do v ← read_uint8; pure (pos v))
    else if format == format_uint16
    then (do v ← read_uint16; pure (pos v))
    else if format == format_uint32
    then (do v ← read_uint32; pure (pos v))
    else if format == format_uint64
    then (do v ← read_uint64; pure (to_int64 v))
    else if format == format_int8
    then read_int8
    else if format == format_int16
    then read_int16
    else if format == format_int32
    then read_int32
    else if format == format_int64
    then read_int64
    else fail type_mismatch

-- decodeValueUint: signed formats wrap, but for the negative fixint.
unfoldable pub decode_value_uint : ℕ → M ℕ
decode_value_uint format =
    if is_positive_fixint format
    then pure format
    else if format == format_uint8
    then read_uint8
    else if format == format_uint16
    then read_uint16
    else if format == format_uint32
    then read_uint32
    else if format == format_uint64
    then read_uint64
    else if format == format_int8
    then (do v ← read_int8; pure (to_uint64 v))
    else if format == format_int16
    then (do v ← read_int16; pure (to_uint64 v))
    else if format == format_int32
    then (do v ← read_int32; pure (to_uint64 v))
    else if format == format_int64
    then (do v ← read_int64; pure (to_uint64 v))
    else fail type_mismatch

-- The switch of decodeIntValue.
unfoldable pub int_value_switch : ℕ → M ℤ
int_value_switch format =
    if is_positive_fixint format
    then pure (pos format)
    else if is_negative_fixint format
    then pure (to_int8 format)
    else if format == format_int8
    then read_int8
    else if format == format_int16
    then read_int16
    else if format == format_int32
    then read_int32
    else if format == format_int64
    then read_int64
    else if format == format_uint8
    then (do v ← read_uint8; pure (pos v))
    else if format == format_uint16
    then (do v ← read_uint16; pure (pos v))
    else if format == format_uint32
    then (do v ← read_uint32; pure (pos v))
    else if format == format_uint64
    then (do v ← read_uint64; pure (to_int64 v))
    else fail type_mismatch

unfoldable pub decode_int_value : M ℤ
decode_int_value = do format ← read_byte; int_value_switch format

-- The switch of decodeUintValue is that of decodeValueUint.
unfoldable pub decode_uint_value : M ℕ
decode_uint_value = do format ← read_byte; decode_value_uint format
