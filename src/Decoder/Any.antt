-- ===== src/Decoder/Any.antt =====
-- decode_any.go: DecodeAny, which decodes to Go's own types without a Value in between. As in
-- Decoder.Values, `below` is decodeAnyValue of what stands inside.
pub mod Follows
pub mod Itself
pub mod Agree
pub mod Safety
pub mod Calm
use msgpck.Base.{ℕ, zero, suc, ◌+◌, true, false, ◌||◌, ◌==◌, ltb, Bytes, if◌then◌else◌}
use msgpck.Base.Words.{pos, to_int8, to_int64}
use msgpck.Base.Floats.{float64_of_float32}
use msgpck.Format.{
  is_positive_fixint, is_negative_fixint, is_fixmap, is_fixarray, is_fixstr, fixmap_len,
  fixarray_len, fixstr_len, format_nil, format_false, format_true, format_uint8, format_uint16,
  format_uint32, format_uint64, format_int8, format_int16, format_int32, format_int64,
  format_float32, format_float64, format_str8, format_str16, format_str32, format_bin8,
  format_bin16, format_bin32, format_array16, format_array32, format_map16, format_map32,
}
use msgpck.Errors.{Error, invalid_format, type_mismatch, is_type_mismatch}
use msgpck.Any.{
  Any, Anys, Entries, go_nil, go_bool, go_int64, go_uint64, go_float64, go_string, go_bytes,
  go_slice, go_map, no_anys, item, no_entries, put,
}
use msgpck.Decoder.{
  Decoder, Outcome, stuck, M, pure, fail, try, ◌>>=◌, ◌>>◌, read_byte, read_bytes, read_uint8,
  read_uint16, read_uint32, read_uint64, read_int8, read_int16, read_int32, read_int64,
  read_float32, read_float64, enter_container, deferring_leave, remaining,
}
use msgpck.Decoder.Limits.{
  validate_string_len, validate_binary_len, validate_array_len, validate_map_len,
}
use msgpck.Decoder.Lengths.{
  parse_string_len, parse_string_len_switch, parse_binary_len, parse_array_len_switch,
  parse_map_len_switch,
}

-- A uint64 that int64 does not hold stays unsigned.
unfoldable pub decode_any_uint_value : ℕ → M Any
decode_any_uint_value format =
    if format == format_uint8
    then (do v ← read_uint8; pure (go_int64 (pos v)))
    else if format == format_uint16
    then (do v ← read_uint16; pure (go_int64 (pos v)))
    else if format == format_uint32
    then (do v ← read_uint32; pure (go_int64 (pos v)))
    else (do
      v ← read_uint64
      pure (if ltb 9223372036854775807 v then go_uint64 v else go_int64 (to_int64 v)))

unfoldable pub decode_any_int_value : ℕ → M Any
decode_any_int_value format =
    if format == format_int8
    then (do v ← read_int8; pure (go_int64 v))
    else if format == format_int16
    then (do v ← read_int16; pure (go_int64 v))
    else if format == format_int32
    then (do v ← read_int32; pure (go_int64 v))
    else (do v ← read_int64; pure (go_int64 v))

unfoldable pub decode_string_any : ℕ → M Bytes
decode_string_any length = do validate_string_len length; read_bytes length

unfoldable pub decode_binary_any : ℕ → M Bytes
decode_binary_any length = do validate_binary_len length; read_bytes length

module _ (below : ℕ → M Any) where
  -- DecodeAny
  unfoldable pub any_inside : M Any
  any_inside = do format ← read_byte; below format

  -- The loop of decodeArrayAny.
  unfoldable pub any_elems : ℕ → M Anys
  any_elems zero = pure no_anys
  any_elems (suc n) = do v ← any_inside; vs ← any_elems n; pure (item v vs)

  unfoldable pub decode_array_any : ℕ → M Any
  decode_array_any length = do
    validate_array_len length
    enter_container
    deferring_leave (do vs ← any_elems length; pure (go_slice vs))

  -- A key, in the loop of decodeMapAny.
  unfoldable pub any_key : M Bytes
  any_key = do
    key_format ← read_byte
    try (parse_string_len key_format) (λ key_len. decode_string_any key_len)
        (λ e. if is_type_mismatch e then fail invalid_format else fail e)

  -- The loop of decodeMapAny, which fills the map `m`.
  unfoldable pub any_pairs : ℕ → Entries → M Entries
  any_pairs zero m = pure m
  any_pairs (suc n) m = do key ← any_key; val ← any_inside; any_pairs n (put key val m)

  unfoldable pub decode_map_any : ℕ → M Any
  decode_map_any length = do
    validate_map_len length
    enter_container
    deferring_leave (do m ← any_pairs length no_entries; pure (go_map m))

  -- The branches of the switch on texts and containers.
  unfoldable pub any_texts : ℕ → M Any
  any_texts format =
      if format == format_str8 || format == format_str16 || format == format_str32
      then (do
        length ← parse_string_len_switch format
        s ← decode_string_any length
        pure (go_string s))
      else if format == format_bin8 || format == format_bin16 || format == format_bin32
      then (do length ← parse_binary_len format; s ← decode_binary_any length; pure (go_bytes s))
      else if format == format_array16 || format == format_array32
      then (do length ← parse_array_len_switch format; decode_array_any length)
      else if format == format_map16 || format == format_map32
      then (do length ← parse_map_len_switch format; decode_map_any length)
      else fail invalid_format

  -- The switch of decodeAnyValue, after the five fix formats.
  unfoldable pub any_format : ℕ → M Any
  any_format format =
      if format == format_nil
      then pure go_nil
      else if format == format_false
      then pure (go_bool false)
      else if format == format_true
      then pure (go_bool true)
      else if format == format_uint8
          || format == format_uint16
          || format == format_uint32
          || format == format_uint64
      then decode_any_uint_value format
      else if format == format_int8
          || format == format_int16
          || format == format_int32
          || format == format_int64
      then decode_any_int_value format
      else if format == format_float32
      then (do v ← read_float32; pure (go_float64 (float64_of_float32 v)))
      else if format == format_float64
      then (do v ← read_float64; pure (go_float64 v))
      else any_texts format

  unfoldable pub decode_any_value_with : ℕ → M Any
  decode_any_value_with format =
      if is_positive_fixint format
      then pure (go_int64 (pos format))
      else if is_negative_fixint format
      then pure (go_int64 (to_int8 format))
      else if is_fixmap format
      then decode_map_any (fixmap_len format)
      else if is_fixarray format
      then decode_array_any (fixarray_len format)
      else if is_fixstr format
      then (do s ← decode_string_any (fixstr_len format); pure (go_string s))
      else any_format format

-- decodeAnyValue
unfoldable pub decode_any_value : ℕ → ℕ → M Any
decode_any_value zero format d = stuck
decode_any_value (suc fuel) format d = decode_any_value_with (decode_any_value fuel) format d

-- DecodeAny
unfoldable pub decode_any : M Any
decode_any d = any_inside (decode_any_value (remaining d + 1)) d
