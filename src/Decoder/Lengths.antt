-- ===== src/Decoder/Lengths.antt =====
-- decode_struct.go and decoder.go: the length that a format byte announces, and the reads of strings
-- and binary data that begin with it.
use msgpck.Base.{ℕ, Bytes, ◌==◌, if◌then◌else◌}
use msgpck.Format.{
  is_fixmap, is_fixarray, is_fixstr, fixmap_len, fixarray_len, fixstr_len, format_map16,
  format_map32, format_array16, format_array32, format_str8, format_str16, format_str32,
  format_bin8, format_bin16, format_bin32,
}
use msgpck.Errors.{type_mismatch}
use msgpck.Decoder.{
  M, pure, fail, ◌>>=◌, ◌>>◌, read_byte, read_bytes, read_uint8, read_uint16, read_uint32,
}
use msgpck.Decoder.Limits.{validate_string_len, validate_binary_len}

unfoldable pub parse_map_len_switch : ℕ → M ℕ
parse_map_len_switch format =
    if format == format_map16
    then (do n ← read_uint16; pure n)
    else if format == format_map32
    then (do n ← read_uint32; pure n)
    else fail type_mismatch

unfoldable pub parse_map_len : ℕ → M ℕ
parse_map_len format =
    if is_fixmap format
    then pure (fixmap_len format)
    else if format == format_map16
    then (do n ← read_uint16; pure n)
    else if format == format_map32
    then (do n ← read_uint32; pure n)
    else fail type_mismatch

unfoldable pub parse_array_len_switch : ℕ → M ℕ
parse_array_len_switch format =
    if format == format_array16
    then (do n ← read_uint16; pure n)
    else if format == format_array32
    then (do n ← read_uint32; pure n)
    else fail type_mismatch

unfoldable pub parse_array_len : ℕ → M ℕ
parse_array_len format =
    if is_fixarray format
    then pure (fixarray_len format)
    else if format == format_array16
    then (do n ← read_uint16; pure n)
    else if format == format_array32
    then (do n ← read_uint32; pure n)
    else fail type_mismatch

unfoldable pub parse_string_len_switch : ℕ → M ℕ
parse_string_len_switch format =
    if format == format_str8
    then (do n ← read_uint8; pure n)
    else if format == format_str16
    then (do n ← read_uint16; pure n)
    else if format == format_str32
    then (do n ← read_uint32; pure n)
    else fail type_mismatch

unfoldable pub parse_string_len : ℕ → M ℕ
parse_string_len format =
    if is_fixstr format
    then pure (fixstr_len format)
    else if format == format_str8
    then (do n ← read_uint8; pure n)
    else if format == format_str16
    then (do n ← read_uint16; pure n)
    else if format == format_str32
    then (do n ← read_uint32; pure n)
    else fail type_mismatch

unfoldable pub parse_binary_len : ℕ → M ℕ
parse_binary_len format =
    if format == format_bin8
    then (do n ← read_uint8; pure n)
    else if format == format_bin16
    then (do n ← read_uint16; pure n)
    else if format == format_bin32
    then (do n ← read_uint32; pure n)
    else fail type_mismatch

-- The length is found by the switch that parseStringLen holds too.
unfoldable pub read_string_bytes : M Bytes
read_string_bytes = do
  format ← read_byte
  length ← parse_string_len format
  validate_string_len length
  read_bytes length

unfoldable pub decode_string_key_with_format : ℕ → M Bytes
decode_string_key_with_format format = do
  length ← parse_string_len format
  validate_string_len length
  read_bytes length

unfoldable pub decode_string_key : M Bytes
decode_string_key = do format ← read_byte; decode_string_key_with_format format

-- decodeValueString
unfoldable pub decode_value_string : ℕ → M Bytes
decode_value_string format = do
  length ← parse_string_len format
  validate_string_len length
  read_bytes length

-- decodeValueBytes: binary data, or a string, each under its own limit.
unfoldable pub decode_value_bytes : ℕ → M Bytes
decode_value_bytes format =
    if is_fixstr format
    then (do validate_string_len (fixstr_len format); read_bytes (fixstr_len format))
    else if format == format_str8
    then (do n ← read_uint8; validate_string_len n; read_bytes n)
    else if format == format_str16
    then (do n ← read_uint16; validate_string_len n; read_bytes n)
    else if format == format_str32
    then (do n ← read_uint32; validate_string_len n; read_bytes n)
    else if format == format_bin8
    then (do n ← read_uint8; validate_binary_len n; read_bytes n)
    else if format == format_bin16
    then (do n ← read_uint16; validate_binary_len n; read_bytes n)
    else if format == format_bin32
    then (do n ← read_uint32; validate_binary_len n; read_bytes n)
    else fail type_mismatch
