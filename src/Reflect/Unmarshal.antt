-- ===== src/Reflect/Unmarshal.antt =====
-- decode_any.go: decodeReflect and Unmarshal.
use msgpck.Base.{ℕ, Bytes, ◌==◌, if◌then◌else◌}
use msgpck.Base.Floats.{float32_of_float64}
use msgpck.Config.{Config}
use msgpck.Errors.{not_pointer, unsupported_type}
use msgpck.Format.{format_nil}
use msgpck.Any.{Any, go_nil}
use msgpck.Timestamp.{decode_timestamp}
use msgpck.Decoder.{
  Outcome, M, pure, fail, try, ◌>>=◌, ◌>>◌, read_byte, read_bytes, new_decoder,
  new_decoder_with_config,
}
use msgpck.Decoder.Limits.{validate_array_len, validate_map_len, validate_binary_len}
use msgpck.Decoder.Lengths.{parse_array_len, parse_map_len, parse_binary_len, parse_string_len}
use msgpck.Decoder.Any.{decode_any}
use msgpck.Decoder.Integers.{decode_int_value, decode_uint_value}
use msgpck.Decoder.Floats.{decode_float_value, decode_bool_value, decode_string_value}
use msgpck.Struct.Kinds.{
  ScalarKind, Scalar, k_string, k_int, k_int64, k_int32, k_int16, k_int8, k_uint, k_uint64,
  k_uint32, k_uint16, k_uint8, k_float64, k_float32, k_bool, v_string, v_int, v_uint, v_float64,
  v_float32, v_bool,
}
use msgpck.Struct.Scalars.{narrow_int, narrow_uint}
use msgpck.Reflect.Types.{
  GoType, t_scalar, t_bytes, t_slice, t_array, t_map, t_struct, t_pointer, t_any, t_time, t_other,
  GoValue, g_scalar, g_bytes, g_slice, g_map, g_struct, g_pointer, g_any, g_time, zero_value,
  elems_of, pairs_of,
}
use msgpck.Reflect.Decode.{slice_elems, map_entries, target, decode_fields}

-- The cases of decodeReflect on words and strings.
unfoldable pub reflect_int : ScalarKind → M Scalar
reflect_int kind = do v ← decode_int_value; pure (v_int (narrow_int kind v))

unfoldable pub reflect_uint : ScalarKind → M Scalar
reflect_uint kind = do v ← decode_uint_value; pure (v_uint (narrow_uint kind v))

unfoldable pub reflect_scalar : ScalarKind → M Scalar
reflect_scalar k_string = do s ← decode_string_value; pure (v_string s)
reflect_scalar k_int = reflect_int k_int
reflect_scalar k_int8 = reflect_int k_int8
reflect_scalar k_int16 = reflect_int k_int16
reflect_scalar k_int32 = reflect_int k_int32
reflect_scalar k_int64 = reflect_int k_int64
reflect_scalar k_uint = reflect_uint k_uint
reflect_scalar k_uint8 = reflect_uint k_uint8
reflect_scalar k_uint16 = reflect_uint k_uint16
reflect_scalar k_uint32 = reflect_uint k_uint32
reflect_scalar k_uint64 = reflect_uint k_uint64
reflect_scalar k_float32 = do v ← decode_float_value; pure (v_float32 (float32_of_float64 v))
reflect_scalar k_float64 = do v ← decode_float_value; pure (v_float64 v)
reflect_scalar k_bool = do b ← decode_bool_value; pure (v_bool b)

-- decodeBinaryReflect, after the format byte: a string is taken where no binary length can be read.
unfoldable pub binary_len : ℕ → M ℕ
binary_len format = try (parse_binary_len format) (λ n. pure n) (λ e. parse_string_len format)

unfoldable pub decode_binary_reflect : ℕ → GoValue → M GoValue
decode_binary_reflect format v = if format == format_nil then pure v else (do
  length ← binary_len format
  validate_binary_len length
  b ← read_bytes length
  pure (g_bytes b))

-- decodeSliceReflect of another element type, and decodeMapReflect: nil leaves what the value holds.
unfoldable pub decode_slice_reflect : M GoValue → GoValue → M GoValue
decode_slice_reflect elem v = do
  format ← read_byte
  if format == format_nil then pure v else (do
    arr_len ← parse_array_len format
    validate_array_len arr_len
    vs ← slice_elems elem arr_len
    pure (g_slice vs))

unfoldable pub decode_map_reflect : M Scalar → M GoValue → GoValue → M GoValue
decode_map_reflect key value v = do
  format ← read_byte
  if format == format_nil then pure v else (do
    map_len ← parse_map_len format
    validate_map_len map_len
    m ← map_entries key value map_len (pairs_of v)
    pure (g_map m))

-- A nil interface is not set.
abbrev pub set_any : GoValue → Any → GoValue
set_any v go_nil = v
set_any v a = g_any a

-- decodeReflect
unfoldable pub decode_reflect : GoType → GoValue → M GoValue
decode_reflect (t_pointer t) v = do x ← decode_reflect t (target t v); pure (g_pointer x)
decode_reflect t_time v = do t ← decode_timestamp; pure (g_time t)
decode_reflect (t_struct ms) v = do vs ← decode_fields ms (elems_of v); pure (g_struct vs)
decode_reflect (t_map kind t) v =
    decode_map_reflect (reflect_scalar kind) (decode_reflect t (zero_value t)) v
decode_reflect t_bytes v = do format ← read_byte; decode_binary_reflect format v
decode_reflect (t_slice t) v = decode_slice_reflect (decode_reflect t (zero_value t)) v
decode_reflect (t_scalar kind) v = do s ← reflect_scalar kind; pure (g_scalar s)
decode_reflect t_any v = do a ← decode_any; pure (set_any v a)
decode_reflect (t_array n t) v = fail unsupported_type
decode_reflect t_other v = fail unsupported_type

-- decodeInto: the target is a pointer that is not nil.
unfoldable pub decode_into : GoType → GoValue → M GoValue
decode_into (t_pointer t) (g_pointer v) = do x ← decode_reflect t v; pure (g_pointer x)
decode_into _ v = fail not_pointer

-- Unmarshal: a Decoder from the pool, after Reset, has the default configuration.
unfoldable pub unmarshal : GoType → GoValue → Bytes → Outcome GoValue
unmarshal t v bs = decode_into t v (new_decoder bs)

unfoldable pub unmarshal_with_config : GoType → GoValue → Bytes → Config → Outcome GoValue
unmarshal_with_config t v bs c = decode_into t v (new_decoder_with_config bs c)
