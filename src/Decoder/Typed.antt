-- ===== src/Decoder/Typed.antt =====
-- typed_decode.go: the readers of `any` for typed containers. The flag zeroCopy, which says whether
-- texts share the input's memory, does not show in their contents and is left out.
pub mod Agree
pub mod Safety
use msgpck.Base.{ℕ, zero, suc, ◌+◌, true, false, ◌||◌, ◌==◌, ltb, Bytes, if◌then◌else◌}
use msgpck.Base.Words.{pos, to_int8, to_int64}
use msgpck.Base.Floats.{float64_of_float32}
use msgpck.Format.{
  is_positive_fixint, is_negative_fixint, is_fixmap, is_fixarray, is_fixstr, fixmap_len,
  fixarray_len, fixstr_len, format_nil, format_false, format_true, format_uint8, format_uint16,
  format_uint32, format_uint64, format_int8, format_int16, format_int32, format_int64,
  format_float32, format_float64, format_str8, format_str16, format_str32, format_bin8,
  format_bin16, format_bin32, format_array16, format_array32, format_map16, format_map32,
}
use msgpck.Errors.{invalid_format}
use msgpck.Any.{
  Any, Anys, Entries, go_nil, go_bool, go_int64, go_uint64, go_float64, go_string, go_bytes,
  go_slice, go_map, no_anys, item, no_entries, put,
}
use msgpck.Decoder.{
  Decoder, Outcome, stuck, M, pure, fail, ◌>>=◌, ◌>>◌, read_byte, read_bytes, read_uint8,
  read_uint16, read_uint32, read_uint64, read_int8, read_int16, read_int32, read_int64,
  read_float32, read_float64, remaining,
}
use msgpck.Decoder.Limits.{
  validate_string_len, validate_binary_len, validate_array_len, validate_map_len,
}
use msgpck.Decoder.Lengths.{
  parse_string_len_switch, parse_binary_len, parse_array_len_switch, parse_map_len_switch,
  read_string_bytes,
}

unfoldable pub decode_any_uint : ℕ → M Any
decode_any_uint format =
    if format == format_uint8
    then (do v ← read_uint8; pure (go_int64 (pos v)))
    else if format == format_uint16
    then (do v ← read_uint16; pure (go_int64 (pos v)))
    else if format == format_uint32
    then (do v ← read_uint32; pure (go_int64 (pos v)))
    else (do
      v ← read_uint64
      pure (if ltb 9223372036854775807 v then go_uint64 v else go_int64 (to_int64 v)))

unfoldable pub decode_any_int : ℕ → M Any
decode_any_int format =
    if format == format_int8
    then (do v ← read_int8; pure (go_int64 v))
    else if format == format_int16
    then (do v ← read_int16; pure (go_int64 v))
    else if format == format_int32
    then (do v ← read_int32; pure (go_int64 v))
    else (do v ← read_int64; pure (go_int64 v))

unfoldable pub decode_string_with_len : ℕ → M Bytes
decode_string_with_len length = do validate_string_len length; read_bytes length

unfoldable pub decode_binary_with_len : ℕ → M Bytes
decode_binary_with_len length = do validate_binary_len length; read_bytes length

unfoldable pub decode_any_str : ℕ → M Bytes
decode_any_str format = do length ← parse_string_len_switch format; decode_string_with_len length

unfoldable pub decode_any_bin : ℕ → M Bytes
decode_any_bin format = do length ← parse_binary_len format; decode_binary_with_len length

-- `inside` is decodeAnyValue of what stands inside. No container is entered: the depth has no limit.
module _ (inside : M Any) where
  -- The loop of decodeArrayAnyWithLen.
  unfoldable pub items_with_len : ℕ → M Anys
  items_with_len zero = pure no_anys
  items_with_len (suc n) = do v ← inside; vs ← items_with_len n; pure (item v vs)

  unfoldable pub decode_array_any_with_len : ℕ → M Any
  decode_array_any_with_len length = do
    validate_array_len length
    vs ← items_with_len length
    pure (go_slice vs)

  -- The loop of decodeMapStringAnyWithLen.
  unfoldable pub entries_with_len : ℕ → Entries → M Entries
  entries_with_len zero m = pure m
  entries_with_len (suc n) m = do
    key ← read_string_bytes
    val ← inside
    entries_with_len n (put key val m)

  unfoldable pub decode_map_string_any_with_len : ℕ → M Any
  decode_map_string_any_with_len length = do
    validate_map_len length
    m ← entries_with_len length no_entries
    pure (go_map m)

  unfoldable pub decode_any_array : ℕ → M Any
  decode_any_array format = do
    length ← parse_array_len_switch format
    decode_array_any_with_len length

  unfoldable pub decode_any_map : ℕ → M Any
  decode_any_map format = do
    length ← parse_map_len_switch format
    decode_map_string_any_with_len length

  -- The switch of decodeAnyValue on texts and containers.
  unfoldable pub typed_texts : ℕ → M Any
  typed_texts format =
      if format == format_str8 || format == format_str16 || format == format_str32
      then (do s ← decode_any_str format; pure (go_string s))
      else if format == format_bin8 || format == format_bin16 || format == format_bin32
      then (do s ← decode_any_bin format; pure (go_bytes s))
      else if format == format_array16 || format == format_array32
      then decode_any_array format
      else if format == format_map16 || format == format_map32
      then decode_any_map format
      else fail invalid_format

  unfoldable pub typed_format : ℕ → M Any
  typed_format format =
      if format == format_nil
      then pure go_nil
      else if format == format_false
      then pure (go_bool false)
      else if format == format_true
      then pure (go_bool true)
      else if format == format_uint8
          || format == format_uint16
          || format == format_uint32
          || format == format_uint64
      then decode_any_uint format
      else if format == format_int8
          || format == format_int16
          || format == format_int32
          || format == format_int64
      then decode_any_int format
      else if format == format_float32
      then (do v ← read_float32; pure (go_float64 (float64_of_float32 v)))
      else if format == format_float64
      then (do v ← read_float64; pure (go_float64 v))
      else typed_texts format

  unfoldable pub typed_value : ℕ → M Any
  typed_value format =
      if is_positive_fixint format
      then pure (go_int64 (pos format))
      else if is_negative_fixint format
      then pure (go_int64 (to_int8 format))
      else if is_fixmap format
      then decode_map_string_any_with_len (fixmap_len format)
      else if is_fixarray format
      then decode_array_any_with_len (fixarray_len format)
      else if is_fixstr format
      then (do s ← decode_string_with_len (fixstr_len format); pure (go_string s))
      else typed_format format

-- decodeAnyValue after its format byte, by fuel.
unfoldable pub typed_any_value : ℕ → ℕ → M Any
typed_any_value zero format d = stuck
typed_any_value (suc fuel) format d =
    typed_value (do format ← read_byte; typed_any_value fuel format) format d

-- decodeAnyValue
unfoldable pub typed_any : M Any
typed_any d = (do format ← read_byte; typed_any_value (remaining d + 1) format) d
