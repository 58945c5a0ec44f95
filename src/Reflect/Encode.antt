-- ===== src/Reflect/Encode.antt =====
-- encode.go: Encode by reflection. `none` is ErrUnsupportedType, which is the only error; what it leaves
-- in the buffer is left out. A value is of the type it stands beside.
use msgpck.Base.{
  ℕ, zero, suc, Bool, true, false, ◌&&◌, ◌==◌, List, [], ◌∷◌, Bytes, Option, none, some, length,
  if◌then◌else◌,
}
use msgpck.Base.Floats.{float64_of_float32, float32_of_float64}
use msgpck.Any.{
  Any, Anys, Entries, go_nil, go_float32, go_slice, go_map, no_anys, item, no_entries, entry,
}
use msgpck.Encoder.{
  Encoder, new_encoder, encode_nil, encode_string_bytes, encode_binary, encode_array_header,
  encode_map_header,
}
use msgpck.Encoder.Any.{encode_any}
use msgpck.Struct.Kinds.{k_string}
use msgpck.Struct.Encode.{encode_scalar, encode_pointed, is_zero, option_then}
use msgpck.Reflect.Types.{
  GoType, Members, t_scalar, t_bytes, t_slice, t_array, t_map, t_struct, t_pointer, t_any, t_time,
  t_other, no_members, member, GoValue, GoValues, GoPairs, g_scalar, g_nil, g_bytes, g_slice,
  g_array, g_map, g_struct, g_pointer, g_any, no_slots, slot, no_pairs, pair, elems_of, go_len,
  pairs_len, first_value, rest_values,
}
use msgpck.Reflect.Info.{FieldInfo, build_struct_info, field_by_index}

unfoldable pub is_empty_value : GoValue → Bool
is_empty_value (g_scalar s) = is_zero s
is_empty_value g_nil = true
is_empty_value (g_bytes b) = length b == 0
is_empty_value (g_slice vs) = go_len vs == 0
is_empty_value (g_array vs) = go_len vs == 0
is_empty_value (g_map m) = pairs_len m == 0
is_empty_value (g_any go_nil) = true
is_empty_value _ = false

abbrev pub is_left_out : FieldInfo → GoValues → Bool
is_left_out f vs = f.omitempty && is_empty_value (field_by_index f.index (g_struct vs))

-- The fields that encodeStruct keeps.
unfoldable pub kept_fields : List FieldInfo → GoValues → List FieldInfo
kept_fields [] vs = []
kept_fields (f ∷ fs) vs =
    let rest = kept_fields fs vs in if is_left_out f vs then rest else f ∷ rest

-- encodeSlice, and its loop.
unfoldable pub encode_elems :
    (GoValue → Encoder → Option Encoder) → GoValues → Encoder → Option Encoder
encode_elems f no_slots e = some e
encode_elems f (slot v vs) e = option_then (f v e) (encode_elems f vs)

unfoldable pub encode_slice :
    (GoValue → Encoder → Option Encoder) → GoValues → Encoder → Option Encoder
encode_slice f vs e = encode_elems f vs (encode_array_header (go_len vs) e)

-- encodeMap, and its loop.
unfoldable pub encode_pairs :
    (GoValue → Encoder → Option Encoder) → GoPairs → Encoder → Option Encoder
encode_pairs f no_pairs e = some e
encode_pairs f (pair k v m) e = option_then (f v (encode_pointed k e)) (encode_pairs f m)

unfoldable pub encode_map :
    (GoValue → Encoder → Option Encoder) → GoPairs → Encoder → Option Encoder
encode_map f m e = encode_pairs f m (encode_map_header (pairs_len m) e)

-- encodeStruct, and its loop: `at` encodes the field at an index.
unfoldable pub encode_fields :
    (List ℕ → Encoder → Option Encoder) → List FieldInfo → Encoder → Option Encoder
encode_fields at [] e = some e
encode_fields at (f ∷ fs) e =
    option_then (at f.index (encode_string_bytes f.name e)) (encode_fields at fs)

unfoldable pub encode_struct :
    (List ℕ → GoValues → Encoder → Option Encoder)
    → List FieldInfo
    → GoValues
    → Encoder
    → Option Encoder
encode_struct at info vs e =
    let fields = kept_fields info vs in
    encode_fields (λ p. at p vs) fields (encode_map_header (length fields) e)

-- What encodeValue writes of an interface: a float32 is widened by rv.Float() and narrowed again.
unfoldable mutual
  pub reflected : Any → Any
  reflected (go_float32 v) = go_float32 (float32_of_float64 (float64_of_float32 v))
  reflected (go_slice xs) = go_slice (reflected_items xs)
  reflected (go_map m) = go_map (reflected_entries m)
  reflected a = a

  pub reflected_items : Anys → Anys
  reflected_items no_anys = no_anys
  reflected_items (item x xs) = item (reflected x) (reflected_items xs)

  pub reflected_entries : Entries → Entries
  reflected_entries no_entries = no_entries
  reflected_entries (entry k x m) = entry k (reflected x) (reflected_entries m)

unfoldable mutual
  pub encode_value : GoType → GoValue → Encoder → Option Encoder
  encode_value (t_scalar _) (g_scalar s) e = some (encode_pointed s e)
  encode_value t_bytes (g_bytes b) e = some (encode_binary b e)
  encode_value (t_slice t) (g_slice vs) e = encode_slice (encode_value t) vs e
  encode_value (t_array _ t) (g_array vs) e = encode_slice (encode_value t) vs e
  encode_value (t_map _ t) (g_map m) e = encode_map (encode_value t) m e
  encode_value (t_struct ms) (g_struct vs) e =
      encode_struct (encode_at ms) (build_struct_info ms) vs e
  encode_value (t_pointer t) (g_pointer v) e = encode_value t v e
  encode_value t_any (g_any a) e = some (encode_any (reflected a) e)
  encode_value t_time v e = some (encode_map_header 0 e)
  encode_value t_other v e = none
  encode_value _ g_nil e = some (encode_nil e)
  encode_value _ _ e = none

  -- encodeValue on rv.FieldByIndex(index).
  pub encode_at : Members → List ℕ → GoValues → Encoder → Option Encoder
  encode_at no_members index vs e = none
  encode_at (member l t ms) [] vs e = none
  encode_at (member l t ms) (zero ∷ []) vs e = encode_value t (first_value vs) e
  encode_at (member l t ms) (zero ∷ j ∷ p) vs e = encode_inside t j p (first_value vs) e
  encode_at (member l t ms) (suc i ∷ p) vs e = encode_at ms (i ∷ p) (rest_values vs) e

  pub encode_inside : GoType → ℕ → List ℕ → GoValue → Encoder → Option Encoder
  encode_inside (t_struct ms) j p v e = encode_at ms (j ∷ p) (elems_of v) e
  encode_inside _ j p v e = none

-- Encode of an interface's value.
unfoldable pub encode_item : GoValue → Encoder → Option Encoder
encode_item (g_any a) e = some (encode_any a e)
encode_item _ e = none

-- Encode: the switch on the types that it knows writes their nil as empty.
unfoldable pub encode : GoType → GoValue → Encoder → Option Encoder
encode (t_scalar _) (g_scalar s) e = some (encode_scalar s e)
encode t_bytes g_nil e = some (encode_binary [] e)
encode (t_slice t_any) g_nil e = some (encode_array_header 0 e)
encode (t_map k_string t_any) g_nil e = some (encode_map_header 0 e)
encode (t_slice t_any) (g_slice vs) e = encode_slice encode_item vs e
encode (t_map k_string t_any) (g_map m) e = encode_map encode_item m e
encode t_any v e = encode_item v e
encode t v e = encode_value t v e

abbrev pub buf_of : Option Encoder → Option Bytes
buf_of none = none
buf_of (some e) = some e.buf

-- Marshal: the result is a copy of the buffer.
unfoldable pub marshal : GoType → GoValue → Option Bytes
marshal t v = buf_of (encode t v (new_encoder 256))
