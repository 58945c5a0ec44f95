-- ===== src/Reflect/Decode/Loops.antt =====
-- decode_struct.go: the cases of decodeIntoValue on words and strings, and the loops over what stands inside
-- a value, given what decodes one element, entry or field.
use msgpck.Base.{ℕ, zero, suc, ◌+◌, List, Bytes, Option, none, some, ◌==◌, if◌then◌else◌}
use msgpck.Base.Floats.{float32_of_float64}
use msgpck.Format.{format_nil}
use msgpck.Value.{Value}
use msgpck.Decoder.{
  M, pure, try, ◌>>=◌, ◌>>◌, read_byte, enter_container, deferring_leave, remaining,
}
use msgpck.Decoder.Limits.{validate_array_len, validate_map_len}
use msgpck.Decoder.Lengths.{parse_array_len, parse_map_len, decode_string_key, decode_value_string}
use msgpck.Decoder.Values.{decode, decode_value}
use msgpck.Decoder.Integers.{decode_value_int, decode_value_uint}
use msgpck.Decoder.Floats.{decode_value_float}
use msgpck.Struct.Kinds.{
  ScalarKind, Scalar, k_string, k_int, k_int64, k_int32, k_int16, k_int8, k_uint, k_uint64,
  k_uint32, k_uint16, k_uint8, k_float64, k_float32, k_bool, v_string, v_int, v_uint, v_float64,
  v_float32, v_bool,
}
use msgpck.Struct.Scalars.{narrow_int, narrow_uint, decode_bool}
use msgpck.Reflect.Types.{GoValue, GoValues, GoPairs, no_slots, slot, zero_scalar}
use msgpck.Reflect.Info.{FieldInfo}
use msgpck.Reflect.Keys.{set_map_index}

-- d.decodeValue(format)
unfoldable pub decode_rest : ℕ → M Value
decode_rest format d = decode_value (remaining d + 1) format d

-- `if _, err := d.Decode(); err != nil`
unfoldable pub skip {ℓ} : {A : Type ℓ} → A → M A
skip a = do v ← decode; pure a

-- The cases of decodeIntoValue on words and strings; SetInt, SetUint and SetFloat keep what fits.
unfoldable pub into_int : ScalarKind → ℕ → M Scalar
into_int kind format = do v ← decode_value_int format; pure (v_int (narrow_int kind v))

unfoldable pub into_uint : ScalarKind → ℕ → M Scalar
into_uint kind format = do v ← decode_value_uint format; pure (v_uint (narrow_uint kind v))

unfoldable pub into_scalar : ScalarKind → ℕ → M Scalar
into_scalar k_bool format = do b ← decode_bool format; pure (v_bool b)
into_scalar k_int format = into_int k_int format
into_scalar k_int8 format = into_int k_int8 format
into_scalar k_int16 format = into_int k_int16 format
into_scalar k_int32 format = into_int k_int32 format
into_scalar k_int64 format = into_int k_int64 format
into_scalar k_uint format = into_uint k_uint format
into_scalar k_uint8 format = into_uint k_uint8 format
into_scalar k_uint16 format = into_uint k_uint16 format
into_scalar k_uint32 format = into_uint k_uint32 format
into_scalar k_uint64 format = into_uint k_uint64 format
into_scalar k_float32 format = do
  v ← decode_value_float format
  pure (v_float32 (float32_of_float64 v))
into_scalar k_float64 format = do v ← decode_value_float format; pure (v_float64 v)
into_scalar k_string format = do s ← decode_value_string format; pure (v_string s)

-- decodeIntoValue on a map's key, which starts as zero.
unfoldable pub into_key : ScalarKind → M Scalar
into_key kind = do
  format ← read_byte
  if format == format_nil then pure (zero_scalar kind) else into_scalar kind format

-- What decodeIntoSlice, decodeIntoArray, decodeIntoMap and decodeIntoStruct share: the announced length, its
-- check, and the body inside the container.
unfoldable pub into_array_with : (ℕ → M GoValue) → ℕ → M GoValue
into_array_with body format = do
  length ← parse_array_len format
  validate_array_len length
  enter_container
  deferring_leave (body length)

unfoldable pub into_map_with : (ℕ → M GoValue) → ℕ → M GoValue
into_map_with body format = do
  map_len ← parse_map_len format
  validate_map_len map_len
  enter_container
  deferring_leave (body map_len)

-- The loop of decodeIntoSlice, over new elements.
unfoldable pub slice_elems : M GoValue → ℕ → M GoValues
slice_elems elem zero = pure no_slots
slice_elems elem (suc n) = do v ← elem; vs ← slice_elems elem n; pure (slot v vs)

-- The loop of decodeIntoArray: elements beyond the array's length are skipped.
unfoldable pub array_elems : (GoValue → M GoValue) → ℕ → GoValues → M GoValues
array_elems elem zero vs = pure vs
array_elems elem (suc n) no_slots = do x ← decode; array_elems elem n no_slots
array_elems elem (suc n) (slot v vs) = do y ← elem v; ys ← array_elems elem n vs; pure (slot y ys)

-- The loop of decodeIntoMap.
unfoldable pub map_entries : M Scalar → M GoValue → ℕ → GoPairs → M GoPairs
map_entries key value zero m = pure m
map_entries key value (suc n) m = do
  k ← key
  v ← value
  map_entries key value n (set_map_index k v m)

-- The field of a key, or none: `set` decodes into the field at an index.
unfoldable pub set_key : (List ℕ → GoValues → M GoValues) → Option FieldInfo → GoValues → M GoValues
set_key set none vs = skip vs
set_key set (some f) vs = set f.index vs

-- The loop of decodeIntoStruct: at a key that is no string, one value is skipped from where the error left
-- the decoder.
unfoldable pub struct_entries : (Bytes → GoValues → M GoValues) → ℕ → GoValues → M GoValues
struct_entries set zero vs = pure vs
struct_entries set (suc n) vs = do
  vs' ← try decode_string_key (λ key. set key vs) (λ e. skip vs)
  struct_entries set n vs'
