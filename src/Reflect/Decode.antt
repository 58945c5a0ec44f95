-- ===== src/Reflect/Decode.antt =====
-- decode_struct.go: DecodeStruct and decodeIntoValue. A method takes what a Go value holds and returns
-- what it then holds; what an error leaves there is left out.
pub mod Loops
use msgpck.Base.{ℕ, zero, suc, ◌+◌, List, [], ◌∷◌, Bytes, Option, none, some, ◌==◌, if◌then◌else◌}
use msgpck.Base.Floats.{float32_of_float64}
use msgpck.Errors.{not_pointer, not_struct, unsupported_type, is_type_mismatch}
use msgpck.Format.{format_nil}
use msgpck.Value.{Value}
use msgpck.Any.{value_to_any}
use msgpck.Decoder.{
  panic, M, pure, fail, try, ◌>>=◌, ◌>>◌, read_byte, enter_container, deferring_leave, remaining,
}
use msgpck.Decoder.Limits.{validate_array_len, validate_map_len}
use msgpck.Decoder.Lengths.{
  parse_array_len, parse_map_len, decode_string_key_with_format, decode_string_key,
  decode_value_string, decode_value_bytes,
}
use msgpck.Decoder.Values.{decode, decode_value}
use msgpck.Decoder.Integers.{decode_value_int, decode_value_uint}
use msgpck.Decoder.Floats.{decode_value_float}
use msgpck.Struct.Kinds.{
  ScalarKind, Scalar, k_string, k_int, k_int64, k_int32, k_int16, k_int8, k_uint, k_uint64,
  k_uint32, k_uint16, k_uint8, k_float64, k_float32, k_bool, v_string, v_int, v_uint, v_float64,
  v_float32, v_bool,
}
use msgpck.Struct.Scalars.{narrow_int, narrow_uint, decode_bool}
use msgpck.Reflect.Types.{
  GoType, Members, t_scalar, t_bytes, t_slice, t_array, t_map, t_struct, t_pointer, t_any, t_time,
  t_other, no_members, member, GoValue, GoValues, GoPairs, g_scalar, g_bytes, g_slice, g_array,
  g_map, g_struct, g_pointer, g_any, no_slots, slot, zero_scalar, zero_value, elems_of, pairs_of,
  first_value, rest_values,
}
use msgpck.Reflect.Info.{FieldInfo, build_struct_info, find_field}
use msgpck.Reflect.Keys.{set_map_index}
unfoldable pub use msgpck.Reflect.Decode.Loops.{
  decode_rest, skip, into_int, into_uint, into_scalar, into_key, into_array_with, into_map_with,
  slice_elems, array_elems, map_entries, set_key, struct_entries,
}

-- FieldByIndex panics where there is no such field.
abbrev pub no_field : M GoValues
no_field d = panic

abbrev pub set_first : GoValues → M GoValue → M GoValues
set_first vs m = do y ← m; pure (slot y (rest_values vs))

abbrev pub set_rest : GoValues → M GoValues → M GoValues
set_rest vs m = do ys ← m; pure (slot (first_value vs) ys)

-- What a pointer points to; a nil pointer is set to a new zero value first.
abbrev pub target : GoType → GoValue → GoValue
target t (g_pointer v) = v
target t _ = zero_value t

-- The beginning of decodeIntoValue: nil stands for the zero value.
unfoldable pub or_zero : GoValue → (ℕ → M GoValue) → M GoValue
or_zero zero_of kind = do
  format ← read_byte
  if format == format_nil then pure zero_of else kind format

-- What the four methods do with a value, given what they do with what stands inside.
abbrev pub decode_into_slice : M GoValue → ℕ → M GoValue
decode_into_slice elem format =
    into_array_with (λ n. do vs ← slice_elems elem n; pure (g_slice vs)) format

abbrev pub decode_into_array : (GoValue → M GoValue) → GoValues → ℕ → M GoValue
decode_into_array elem vs format =
    into_array_with (λ n. do ys ← array_elems elem n vs; pure (g_array ys)) format

abbrev pub decode_into_map : M Scalar → M GoValue → GoPairs → ℕ → M GoValue
decode_into_map key value m format =
    into_map_with (λ n. do ps ← map_entries key value n m; pure (g_map ps)) format

abbrev pub decode_into_struct : (Bytes → GoValues → M GoValues) → GoValues → ℕ → M GoValue
decode_into_struct set vs format =
    into_map_with (λ n. do ys ← struct_entries set n vs; pure (g_struct ys)) format

unfoldable mutual
  -- The switch of decodeIntoValue. Behind a pointer the format byte is read again.
  pub into_kind : GoType → GoValue → ℕ → M GoValue
  into_kind (t_scalar kind) v format = do s ← into_scalar kind format; pure (g_scalar s)
  into_kind t_bytes v format = do b ← decode_value_bytes format; pure (g_bytes b)
  into_kind (t_slice t) v format =
      decode_into_slice (or_zero (zero_value t) (into_kind t (zero_value t))) format
  into_kind (t_array _ t) v format =
      decode_into_array (λ x. or_zero (zero_value t) (into_kind t x)) (elems_of v) format
  into_kind (t_map kind t) v format =
      decode_into_map (into_key kind) (or_zero (zero_value t) (into_kind t (zero_value t)))
        (pairs_of v) format
  into_kind (t_struct ms) v format =
      decode_into_struct (λ key. set_key (set_at ms) (find_field key (build_struct_info ms)))
        (elems_of v) format
  into_kind t_time v format =
      into_map_with (λ n. do vs ← struct_entries (λ key. skip) n no_slots; pure v) format
  into_kind (t_pointer t) v format = do
    x ← or_zero (zero_value t) (into_kind t (target t v))
    pure (g_pointer x)
  into_kind t_any v format = do x ← decode_rest format; pure (g_any (value_to_any x))
  into_kind t_other v format = fail unsupported_type

  -- decodeIntoValue on rv.FieldByIndex(index).
  pub set_at : Members → List ℕ → GoValues → M GoValues
  set_at no_members index vs = no_field
  set_at (member l t ms) [] vs = no_field
  set_at (member l t ms) (zero ∷ []) vs =
      set_first vs (or_zero (zero_value t) (into_kind t (first_value vs)))
  set_at (member l t ms) (zero ∷ j ∷ p) vs = set_first vs (set_inside t j p (first_value vs))
  set_at (member l t ms) (suc i ∷ p) vs = set_rest vs (set_at ms (i ∷ p) (rest_values vs))

  pub set_inside : GoType → ℕ → List ℕ → GoValue → M GoValue
  set_inside (t_struct ms) j p v = do vs ← set_at ms (j ∷ p) (elems_of v); pure (g_struct vs)
  set_inside _ j p v = λ d. panic

unfoldable pub into_value : GoType → GoValue → M GoValue
into_value t v = or_zero (zero_value t) (into_kind t v)

-- The loop of DecodeStruct: at a key that is no string, the rest of the key and the value are skipped.
unfoldable pub top_entries : (Bytes → GoValues → M GoValues) → ℕ → GoValues → M GoValues
top_entries set zero vs = pure vs
top_entries set (suc n) vs = do
  key_format ← read_byte
  vs' ←
      try (decode_string_key_with_format key_format) (λ key. set key vs)
        (λ e. if is_type_mismatch e then (do k ← decode_rest key_format; skip vs) else fail e)
  top_entries set n vs'

-- DecodeStruct, once it has found a struct behind the pointer.
unfoldable pub decode_fields : Members → GoValues → M GoValues
decode_fields ms vs = do
  format ← read_byte
  if format == format_nil then pure vs else (do
    map_len ← parse_map_len format
    validate_map_len map_len
    enter_container
    deferring_leave (
        top_entries (λ key. set_key (set_at ms) (find_field key (build_struct_info ms))) map_len
          vs))

-- DecodeStruct: the value that `v` holds, of a type, is a pointer to a struct.
unfoldable pub decode_struct : GoType → GoValue → M GoValue
decode_struct (t_pointer (t_struct ms)) (g_pointer v) = do
  vs ← decode_fields ms (elems_of v)
  pure (g_pointer (g_struct vs))
decode_struct (t_pointer t_time) (g_pointer v) = do
  vs ← decode_fields no_members no_slots
  pure (g_pointer v)
decode_struct (t_pointer t) v = fail not_struct
decode_struct _ v = fail not_pointer
