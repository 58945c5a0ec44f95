-- ===== src/Reflect/Calm/Unmarshal.antt =====
-- decodeReflect is safe on every input.
use msgpck.Base.{ℕ}
use msgpck.Config.{Config}
use msgpck.Timestamp.{decode_timestamp_data_len, decode_timestamp_value, decode_timestamp}
use msgpck.Decoder.{
  M, read_uint8, read_int8, read_int16, read_int32, read_int64, read_float32, read_float64,
}
use msgpck.Decoder.Integers.{int_value_switch, decode_int_value, decode_uint_value}
use msgpck.Decoder.Floats.{decode_float_value, decode_bool_value, decode_string_value}
use msgpck.Decoder.Any.Calm.{Calm-decode_any}
use msgpck.Decoder.Contract.Calm.{
  Calm, Calm-pure, Calm-fail, Calm-bind, Calm-byte, calm, parts, Calm-binary_len, Calm-string_len,
}
use msgpck.Decoder.Contract.Try.{Calm-try, Level-binary_len}
use msgpck.Struct.Kinds.{
  ScalarKind, Scalar, k_string, k_int, k_int64, k_int32, k_int16, k_int8, k_uint, k_uint64,
  k_uint32, k_uint16, k_uint8, k_float64, k_float32, k_bool,
}
use msgpck.Reflect.Types.{
  GoType, t_scalar, t_bytes, t_slice, t_array, t_map, t_struct, t_pointer, t_any, t_time, t_other,
  GoValue, g_pointer, zero_value, elems_of,
}
use msgpck.Reflect.Decode.{target}
use msgpck.Reflect.Unmarshal.{
  reflect_int, reflect_uint, reflect_scalar, binary_len, decode_binary_reflect,
  decode_slice_reflect, decode_map_reflect, decode_reflect, decode_into,
}
use msgpck.Reflect.Calm.{Calm-value_uint, Calm-slice_elems, Calm-map_entries}
use msgpck.Reflect.Calm.Kinds.{Calm-decode_fields}

module _ {c : Config} {k n : ℕ} where
  Calm-data_len : (f : ℕ) → Calm c k n (decode_timestamp_data_len f)
  unfolding decode_timestamp_data_len read_uint8
  Calm-data_len f = search calm depth 12

  Calm-timestamp_value : (l : ℕ) → Calm c k n (decode_timestamp_value l)
  unfolding decode_timestamp_value read_int64
  Calm-timestamp_value l = search calm depth 12

  Calm-timestamp : Calm c k n decode_timestamp
  unfolding decode_timestamp read_int8
  Calm-timestamp = search (calm, Calm-data_len, Calm-timestamp_value) depth 12

  Calm-int_switch : (f : ℕ) → Calm c k n (int_value_switch f)
  unfolding int_value_switch read_uint8 read_int8 read_int16 read_int32 read_int64
  Calm-int_switch f = search calm depth 24

  Calm-int : Calm c k n decode_int_value
  unfolding decode_int_value
  Calm-int = Calm-bind _ _ Calm-byte Calm-int_switch

  Calm-uint : Calm c k n decode_uint_value
  unfolding decode_uint_value
  Calm-uint = Calm-bind _ _ Calm-byte Calm-value_uint

  Calm-float : Calm c k n decode_float_value
  unfolding decode_float_value read_float32 read_float64
  Calm-float = search calm depth 12

  Calm-bool : Calm c k n decode_bool_value
  unfolding decode_bool_value
  Calm-bool = search calm depth 12

  Calm-string : Calm c k n decode_string_value
  unfolding decode_string_value
  Calm-string = search parts depth 12

  ruleset values = (calm, Calm-int, Calm-uint, Calm-float, Calm-bool, Calm-string)

  Calm-reflect_scalar : (kind : ScalarKind) → Calm c k n (reflect_scalar kind)
  unfolding reflect_scalar reflect_int reflect_uint
  Calm-reflect_scalar k_string = search values
  Calm-reflect_scalar k_int = search values
  Calm-reflect_scalar k_int64 = search values
  Calm-reflect_scalar k_int32 = search values
  Calm-reflect_scalar k_int16 = search values
  Calm-reflect_scalar k_int8 = search values
  Calm-reflect_scalar k_uint = search values
  Calm-reflect_scalar k_uint64 = search values
  Calm-reflect_scalar k_uint32 = search values
  Calm-reflect_scalar k_uint16 = search values
  Calm-reflect_scalar k_uint8 = search values
  Calm-reflect_scalar k_float64 = search values
  Calm-reflect_scalar k_float32 = search values
  Calm-reflect_scalar k_bool = search values

  Calm-length : (f : ℕ) → Calm c k n (binary_len f)
  unfolding binary_len
  Calm-length f =
      Calm-try _ _ _ (Level-binary_len f) (Calm-binary_len f) Calm-pure (λ e. Calm-string_len f)

  Calm-binary : (f : ℕ) (v : GoValue) → Calm c k n (decode_binary_reflect f v)
  unfolding decode_binary_reflect
  Calm-binary f v = search (parts, Calm-length)

  Calm-slice :
      (elem : M GoValue) (v : GoValue) → Calm c k n elem → Calm c k n (decode_slice_reflect elem v)
  unfolding decode_slice_reflect
  Calm-slice elem v h = search (parts, Calm-slice_elems elem h) depth 12

  Calm-map :
      (key : M Scalar) (value : M GoValue) (v : GoValue)
      → Calm c k n key
      → Calm c k n value
      → Calm c k n (decode_map_reflect key value v)
  unfolding decode_map_reflect
  Calm-map key value v h h' = search (parts, Calm-map_entries key value h h') depth 12

  Calm-reflect : (t : GoType) (v : GoValue) → Calm c k n (decode_reflect t v)
  unfolding decode_reflect
  Calm-reflect (t_pointer t) v = Calm-bind _ _ (Calm-reflect t (target t v)) λ x. Calm-pure _
  Calm-reflect t_time v = Calm-bind _ _ Calm-timestamp λ t. Calm-pure _
  Calm-reflect (t_struct ms) v =
      Calm-bind _ _ (Calm-decode_fields ms k (elems_of v)) λ vs. Calm-pure _
  Calm-reflect (t_map kind t) v =
      Calm-map _ _ v (Calm-reflect_scalar kind) (Calm-reflect t (zero_value t))
  Calm-reflect t_bytes v = Calm-bind _ _ Calm-byte λ f. Calm-binary f v
  Calm-reflect (t_slice t) v = Calm-slice _ v (Calm-reflect t (zero_value t))
  Calm-reflect (t_scalar kind) v = Calm-bind _ _ (Calm-reflect_scalar kind) λ s. Calm-pure _
  Calm-reflect t_any v = Calm-bind _ _ Calm-decode_any λ a. Calm-pure _
  Calm-reflect (t_array m t) v = Calm-fail _
  Calm-reflect t_other v = Calm-fail _

  pub Calm-decode_into : (t : GoType) (v : GoValue) → Calm c k n (decode_into t v)
  unfolding decode_into
  Calm-decode_into (t_pointer t) (g_pointer v) = Calm-bind _ _ (Calm-reflect t v) λ x. Calm-pure _
  Calm-decode_into _ _ = Calm-fail _
