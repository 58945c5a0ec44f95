-- ===== src/Reflect/Contents.antt =====
-- The Value with the contents of a Go value, and the Go values that have one: an array for a slice, a map
-- for a struct with the fields that encodeStruct keeps.
pub mod Loops
pub mod Written
use msgpck.Base.{ℕ, zero, suc, ◌≡◌, false, List, [], ◌∷◌, Bytes}
use msgpck.Base.Floats.{float64_of_float32, float32_of_float64}
use msgpck.Value.{
  Value, Values, Kvs, nil, bool, int, uint, float32, float64, string, binary, array, map, no_values,
  elem, no_kvs, kv,
}
use msgpck.Encoder.Any.Agree.{value_of}
use msgpck.Struct.Kinds.{
  ScalarKind, k_string, Scalar, v_string, v_int, v_uint, v_float64, v_float32, v_bool,
}
use msgpck.Reflect.Types.{
  GoType, Members, t_scalar, t_bytes, t_slice, t_array, t_map, t_struct, t_pointer, t_any, t_time,
  t_other, no_members, member, GoValue, GoValues, GoPairs, g_scalar, g_nil, g_bytes, g_slice,
  g_array, g_map, g_struct, g_pointer, g_any, g_time, no_slots, slot, no_pairs, pair, elems_of,
  first_value, rest_values,
}
use msgpck.Reflect.Info.{FieldInfo, build_struct_info}
use msgpck.Reflect.Encode.{kept_fields, reflected}
use msgpck.Reflect.Paths.{is_skipped}

abbrev pub AllValues : (GoValue → Type 0) → GoValues → Type 0
AllValues P no_slots = Unit
AllValues P (slot v vs) = P v × AllValues P vs

-- All values, and all keys strings.
abbrev pub AllPairs : (GoValue → Type 0) → GoPairs → Type 0
AllPairs P no_pairs = Unit
AllPairs P (pair (v_string s) v m) = P v × AllPairs P m
AllPairs P (pair _ v m) = ⊥

-- Of the type, with string keys, and of supported types but in skipped fields.
unfoldable mutual
  pub IsWritable : GoType → GoValue → Type 0
  IsWritable (t_scalar _) (g_scalar s) = Unit
  IsWritable t_bytes (g_bytes b) = Unit
  IsWritable t_bytes g_nil = Unit
  IsWritable (t_slice t) (g_slice vs) = AllValues (IsWritable t) vs
  IsWritable (t_slice _) g_nil = Unit
  IsWritable (t_array _ t) (g_array vs) = AllValues (IsWritable t) vs
  IsWritable (t_map _ t) (g_map m) = AllPairs (IsWritable t) m
  IsWritable (t_map _ _) g_nil = Unit
  IsWritable (t_struct ms) (g_struct vs) = AreWritable ms vs
  IsWritable (t_pointer t) (g_pointer v) = IsWritable t v
  IsWritable (t_pointer _) g_nil = Unit
  IsWritable t_any (g_any a) = Unit
  IsWritable t_time (g_time t) = Unit
  IsWritable _ _ = ⊥

  pub AreWritable : Members → GoValues → Type 0
  AreWritable (member l t ms) (slot v vs) =
      (is_skipped l t ≡ false → IsWritable t v) × AreWritable ms vs
  AreWritable no_members _ = Unit
  AreWritable (member l t ms) no_slots = ⊥

-- A float32 was widened and narrowed.
abbrev pub scalar_value : Scalar → Value
scalar_value (v_string s) = string s
scalar_value (v_int v) = int v
scalar_value (v_uint v) = uint v
scalar_value (v_float64 v) = float64 v
scalar_value (v_float32 v) = float32 (float32_of_float64 (float64_of_float32 v))
scalar_value (v_bool b) = bool b

abbrev pub key_text : Scalar → Bytes
key_text (v_string s) = s
key_text _ = []

unfoldable pub elems_value : (GoValue → Value) → GoValues → Values
elems_value f no_slots = no_values
elems_value f (slot v vs) = elem (f v) (elems_value f vs)

unfoldable pub pairs_value : (GoValue → Value) → GoPairs → Kvs
pairs_value f no_pairs = no_kvs
pairs_value f (pair k v m) = kv (key_text k) (f v) (pairs_value f m)

unfoldable pub fields_value : (List ℕ → Value) → List FieldInfo → Kvs
fields_value at [] = no_kvs
fields_value at (f ∷ fs) = kv f.name (at f.index) (fields_value at fs)

-- A struct is the map of the fields that are kept, by their names.
unfoldable mutual
  pub value_of_go : GoType → GoValue → Value
  value_of_go (t_scalar _) (g_scalar s) = scalar_value s
  value_of_go t_bytes (g_bytes b) = binary b
  value_of_go (t_slice t) (g_slice vs) = array (elems_value (value_of_go t) vs)
  value_of_go (t_array _ t) (g_array vs) = array (elems_value (value_of_go t) vs)
  value_of_go (t_map _ t) (g_map m) = map (pairs_value (value_of_go t) m)
  value_of_go (t_struct ms) (g_struct vs) =
      map (fields_value (λ p. value_at ms p vs) (kept_fields (build_struct_info ms) vs))
  value_of_go (t_pointer t) (g_pointer v) = value_of_go t v
  value_of_go t_any (g_any a) = value_of (reflected a)
  value_of_go t_time _ = map no_kvs
  value_of_go _ _ = nil

  -- The field at an index.
  pub value_at : Members → List ℕ → GoValues → Value
  value_at no_members index vs = nil
  value_at (member l t ms) [] vs = nil
  value_at (member l t ms) (zero ∷ []) vs = value_of_go t (first_value vs)
  value_at (member l t ms) (zero ∷ j ∷ p) vs = value_inside t j p (first_value vs)
  value_at (member l t ms) (suc i ∷ p) vs = value_at ms (i ∷ p) (rest_values vs)

  pub value_inside : GoType → ℕ → List ℕ → GoValue → Value
  value_inside (t_struct ms) j p v = value_at ms (j ∷ p) (elems_of v)
  value_inside _ j p v = nil

abbrev pub item_value : GoValue → Value
item_value (g_any a) = value_of a
item_value _ = nil

-- What Encode writes: a nil that its switch knows is written as empty.
unfoldable pub encoded_value : GoType → GoValue → Value
encoded_value t_bytes g_nil = binary []
encoded_value (t_slice t_any) g_nil = array no_values
encoded_value (t_map k_string t_any) g_nil = map no_kvs
encoded_value (t_scalar _) (g_scalar (v_float32 v)) = float32 v
encoded_value (t_slice t_any) (g_slice vs) = array (elems_value item_value vs)
encoded_value (t_map k_string t_any) (g_map m) = map (pairs_value item_value m)
encoded_value t_any v = item_value v
encoded_value t v = value_of_go t v
