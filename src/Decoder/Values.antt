-- ===== src/Decoder/Values.antt =====
-- decode_value.go: the decoder of whole values. The recursion decodeValue → decodeArray → Decode →
-- decodeValue is open in the definitions: each takes the decodeValue of the level below. `decode_value`
-- ties the knot on fuel, and `decode` supplies one unit for each byte that is left and one more.
use msgpck.Base.{ℕ, zero, suc, ◌+◌, true, false, Bytes, [], ◌||◌, ◌==◌, if◌then◌else◌, length}
use msgpck.Base.Words.{to_int8}
use msgpck.Format.{
  is_positive_fixint, is_negative_fixint, is_fixmap, is_fixarray, is_fixstr, fixmap_len,
  fixarray_len, fixstr_len, format_nil, format_false, format_true, format_uint8, format_uint16,
  format_uint32, format_uint64, format_int8, format_int16, format_int32, format_int64,
  format_float32, format_float64, format_str8, format_str16, format_str32, format_bin8,
  format_bin16, format_bin32, format_array16, format_array32, format_map16, format_map32,
  format_fix_ext1, format_fix_ext2, format_fix_ext4, format_fix_ext8, format_fix_ext16, format_ext8,
  format_ext16, format_ext32,
}
use msgpck.Errors.{invalid_format}
use msgpck.Value.{
  Value, Values, Kvs, nil, bool, int, uint, float32, float64, string, binary, array, map, ext,
  no_values, elem, no_kvs, kv,
}
use msgpck.Decoder.{
  stuck, M, pure, fail, try, ◌>>=◌, ◌>>◌, read_byte, read_bytes, read_uint8, read_uint16,
  read_uint32, read_uint64, read_int8, read_int16, read_int32, read_int64, read_float32,
  read_float64, enter_container, deferring_leave, remaining,
}
use msgpck.Decoder.Limits.{
  validate_string_len, validate_binary_len, validate_array_len, validate_map_len, validate_ext_len,
}
use msgpck.Decoder.Lengths.{
  parse_string_len, parse_string_len_switch, parse_binary_len, parse_array_len_switch,
  parse_map_len_switch,
}

unfoldable pub decode_uint_to_value : ℕ → M Value
decode_uint_to_value format =
    if format == format_uint8
    then (do v ← read_uint8; pure (uint v))
    else if format == format_uint16
    then (do v ← read_uint16; pure (uint v))
    else if format == format_uint32
    then (do v ← read_uint32; pure (uint v))
    else (do v ← read_uint64; pure (uint v))

unfoldable pub decode_int_to_value : ℕ → M Value
decode_int_to_value format =
    if format == format_int8
    then (do v ← read_int8; pure (int v))
    else if format == format_int16
    then (do v ← read_int16; pure (int v))
    else if format == format_int32
    then (do v ← read_int32; pure (int v))
    else (do v ← read_int64; pure (int v))

unfoldable pub decode_float_to_value : ℕ → M Value
decode_float_to_value format =
    if format == format_float32
    then (do v ← read_float32; pure (float32 v))
    else (do v ← read_float64; pure (float64 v))

unfoldable pub decode_string : ℕ → M Value
decode_string length = do validate_string_len length; bytes ← read_bytes length; pure (string bytes)

unfoldable pub decode_binary : ℕ → M Value
decode_binary length = do validate_binary_len length; bytes ← read_bytes length; pure (binary bytes)

unfoldable pub decode_ext : ℕ → M Value
decode_ext length = do
  validate_ext_len length
  ext_type ← read_int8
  bytes ← read_bytes length
  pure (ext ext_type bytes)

unfoldable pub decode_value_ext_var : ℕ → M Value
decode_value_ext_var format =
    if format == format_ext8
    then (do length ← read_uint8; decode_ext length)
    else if format == format_ext16
    then (do length ← read_uint16; decode_ext length)
    else (do length ← read_uint32; decode_ext length)

-- The switch of decodeValue, its branches on extensions.
unfoldable pub decode_exts : ℕ → M Value
decode_exts format =
    if format == format_fix_ext1
    then decode_ext 1
    else if format == format_fix_ext2
    then decode_ext 2
    else if format == format_fix_ext4
    then decode_ext 4
    else if format == format_fix_ext8
    then decode_ext 8
    else if format == format_fix_ext16
    then decode_ext 16
    else if format == format_ext8 || format == format_ext16 || format == format_ext32
    then decode_value_ext_var format
    else fail invalid_format

-- keyVal.Bytes of a string key; any other key gives no bytes.
abbrev pub key_bytes : Value → Bytes
key_bytes (string bytes) = bytes
key_bytes _ = []

-- `below` is decodeValue of what stands inside.
module _ (below : ℕ → M Value) where
  unfoldable pub decode_inside : M Value
  decode_inside = do format ← read_byte; below format

  -- The loop of decodeArray.
  unfoldable pub decode_elems : ℕ → M Values
  unfolding decode_inside
  decode_elems zero = pure no_values
  decode_elems (suc n) = do v ← decode_inside; vs ← decode_elems n; pure (elem v vs)

  unfoldable pub decode_array : ℕ → M Value
  decode_array length = do
    validate_array_len length
    enter_container
    deferring_leave (do vs ← decode_elems length; pure (array vs))

  unfoldable pub decode_map_key : M Bytes
  decode_map_key = do
    key_format ← read_byte
    try (parse_string_len key_format)
        (λ key_len. do validate_string_len key_len; read_bytes key_len)
        (λ _. do key_val ← below key_format; pure (key_bytes key_val))

  -- The loop of decodeMap.
  unfoldable pub decode_pairs : ℕ → M Kvs
  decode_pairs zero = pure no_kvs
  decode_pairs (suc n) = do
    key ← decode_map_key
    val ← decode_inside
    kvs ← decode_pairs n
    pure (kv key val kvs)

  unfoldable pub decode_map : ℕ → M Value
  decode_map length = do
    validate_map_len length
    enter_container
    deferring_leave (do kvs ← decode_pairs length; pure (map kvs))

  -- The branches on arrays and maps.
  unfoldable pub decode_containers : ℕ → M Value
  decode_containers format =
      if format == format_array16 || format == format_array32
      then (do length ← parse_array_len_switch format; decode_array length)
      else if format == format_map16 || format == format_map32
      then (do length ← parse_map_len_switch format; decode_map length)
      else decode_exts format

  -- The switch of decodeValue, after the five fix formats.
  unfoldable pub decode_format : ℕ → M Value
  unfolding decode_containers decode_exts
  decode_format format =
      if format == format_nil
      then pure nil
      else if format == format_false
      then pure (bool false)
      else if format == format_true
      then pure (bool true)
      else if format == format_uint8
          || format == format_uint16
          || format == format_uint32
          || format == format_uint64
      then decode_uint_to_value format
      else if format == format_int8
          || format == format_int16
          || format == format_int32
          || format == format_int64
      then decode_int_to_value format
      else if format == format_float32 || format == format_float64
      then decode_float_to_value format
      else if format == format_str8 || format == format_str16 || format == format_str32
      then (do length ← parse_string_len_switch format; decode_string length)
      else if format == format_bin8 || format == format_bin16 || format == format_bin32
      then (do length ← parse_binary_len format; decode_binary length)
      else decode_containers format

  unfoldable pub decode_value_with : ℕ → M Value
  decode_value_with format =
      if is_positive_fixint format
      then pure (uint format)
      else if is_negative_fixint format
      then pure (int (to_int8 format))
      else if is_fixmap format
      then decode_map (fixmap_len format)
      else if is_fixarray format
      then decode_array (fixarray_len format)
      else if is_fixstr format
      then decode_string (fixstr_len format)
      else decode_format format

-- decodeValue
unfoldable pub decode_value : ℕ → ℕ → M Value
decode_value zero format d = stuck
decode_value (suc fuel) format d = decode_value_with (decode_value fuel) format d

-- Decode
unfoldable pub decode : M Value
decode d = decode_inside (decode_value (remaining d + 1)) d
