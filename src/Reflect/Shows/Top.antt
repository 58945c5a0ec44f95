-- ===== src/Reflect/Shows/Top.antt =====
-- encode.go: what Encode and Marshal write of a Go value, whose switch knows some types.
use msgpck.Base.{◌≡◌, refl, Bool, true, false, [], Bytes}
use msgpck.Value.{
  Value, Values as ValueList, Kvs, bool, int, uint, float32, float64, string, binary, array, map,
  no_values, elem, no_kvs, kv,
}
use msgpck.Any.{Any}
use msgpck.Encoder.Any.Agree.{value_of}
use msgpck.Struct.Kinds.{
  ScalarKind, k_string, Scalar, v_string, v_int, v_uint, v_float64, v_float32, v_bool,
}
use msgpck.Reflect.Types.{
  GoType, t_scalar, t_bytes, t_slice, t_map, t_any, GoValue, GoValues, GoPairs, g_scalar, g_nil,
  g_bytes, g_slice, g_map, g_any, no_slots, slot, no_pairs, pair,
}
use msgpck.Reflect.Contents.{
  AllValues, AllPairs, IsWritable, elems_value, pairs_value, value_of_go, item_value, encoded_value,
}
use msgpck.Reflect.Shows.{Shows}
use msgpck.Reflect.Shows.Whole.{value_of_go-Shows}

abbrev pub word_value : Scalar → Value
word_value (v_string s) = string s
word_value (v_int v) = int v
word_value (v_uint v) = uint v
word_value (v_float64 v) = float64 v
word_value (v_float32 v) = float32 v
word_value (v_bool b) = bool b

-- The elements of a []any, and the entries of a map[string]any.
pub data ItemsOf : GoValues → ValueList → Type 0 where
  no_items : ItemsOf no_slots no_values
  one_item :
      (a : Any) (vs : GoValues) (xs : ValueList)
      → ItemsOf vs xs
      → ItemsOf (slot (g_any a) vs) (elem (value_of a) xs)

pub data EntriesOf : GoPairs → Kvs → Type 0 where
  no_entries : EntriesOf no_pairs no_kvs
  one_entry :
      (s : Bytes) (a : Any) (m : GoPairs) (kvs : Kvs)
      → EntriesOf m kvs
      → EntriesOf (pair (v_string s) (g_any a) m) (kv s (value_of a) kvs)

-- The types of the switch.
abbrev pub is_known : GoType → Bool
is_known (t_scalar _) = true
is_known t_bytes = true
is_known (t_slice t_any) = true
is_known (t_map k_string t_any) = true
is_known t_any = true
is_known _ = false

pub data Encodes : GoType → GoValue → Value → Type 0 where
  encodes_word : (k : ScalarKind) (s : Scalar) → Encodes (t_scalar k) (g_scalar s) (word_value s)
  encodes_nil_bytes : Encodes t_bytes g_nil (binary [])
  encodes_bytes : (b : Bytes) → Encodes t_bytes (g_bytes b) (binary b)
  encodes_nil_items : Encodes (t_slice t_any) g_nil (array no_values)
  encodes_items :
      (vs : GoValues) (xs : ValueList)
      → ItemsOf vs xs
      → Encodes (t_slice t_any) (g_slice vs) (array xs)
  encodes_nil_entries : Encodes (t_map k_string t_any) g_nil (map no_kvs)
  encodes_entries :
      (m : GoPairs) (kvs : Kvs)
      → EntriesOf m kvs
      → Encodes (t_map k_string t_any) (g_map m) (map kvs)
  encodes_any : (a : Any) → Encodes t_any (g_any a) (value_of a)
  encodes_other :
      (t : GoType) (v : GoValue) (x : Value) → is_known t ≡ false → Shows t v x → Encodes t v x

elems_value-ItemsOf :
    (vs : GoValues) → AllValues (IsWritable t_any) vs → ItemsOf vs (elems_value item_value vs)
unfolding elems_value IsWritable
elems_value-ItemsOf no_slots h = no_items
elems_value-ItemsOf (slot (g_any a) vs) (h, h') = one_item a vs _ (elems_value-ItemsOf vs h')
elems_value-ItemsOf (slot _ vs) h = absurd h.0

pairs_value-EntriesOf :
    (m : GoPairs) → AllPairs (IsWritable t_any) m → EntriesOf m (pairs_value item_value m)
unfolding pairs_value IsWritable
pairs_value-EntriesOf no_pairs h = no_entries
pairs_value-EntriesOf (pair (v_string s) (g_any a) m) (h, h') =
    one_entry s a m _ (pairs_value-EntriesOf m h')
pairs_value-EntriesOf (pair (v_string s) _ m) h = absurd h.0
pairs_value-EntriesOf (pair _ v m) h = absurd h

pub encoded_value-Encodes :
    (t : GoType) (v : GoValue) → IsWritable t v → Encodes t v (encoded_value t v)
unfolding encoded_value IsWritable value_of_go
encoded_value-Encodes (t_scalar k) (g_scalar (v_string s)) h = encodes_word k (v_string s)
encoded_value-Encodes (t_scalar k) (g_scalar (v_int v)) h = encodes_word k (v_int v)
encoded_value-Encodes (t_scalar k) (g_scalar (v_uint v)) h = encodes_word k (v_uint v)
encoded_value-Encodes (t_scalar k) (g_scalar (v_float64 v)) h = encodes_word k (v_float64 v)
encoded_value-Encodes (t_scalar k) (g_scalar (v_float32 v)) h = encodes_word k (v_float32 v)
encoded_value-Encodes (t_scalar k) (g_scalar (v_bool b)) h = encodes_word k (v_bool b)
encoded_value-Encodes t_bytes g_nil h = encodes_nil_bytes
encoded_value-Encodes t_bytes (g_bytes b) h = encodes_bytes b
encoded_value-Encodes (t_slice t_any) g_nil h = encodes_nil_items
encoded_value-Encodes (t_slice t_any) (g_slice vs) h = encodes_items vs _ (elems_value-ItemsOf vs h)
encoded_value-Encodes (t_map k_string t_any) g_nil h = encodes_nil_entries
encoded_value-Encodes (t_map k_string t_any) (g_map m) h =
    encodes_entries m _ (pairs_value-EntriesOf m h)
encoded_value-Encodes t_any (g_any a) h = encodes_any a
encoded_value-Encodes (t_scalar k) _ h = absurd h
encoded_value-Encodes t_bytes _ h = absurd h
encoded_value-Encodes (t_slice t_any) _ h = absurd h
encoded_value-Encodes (t_map k_string t_any) _ h = absurd h
encoded_value-Encodes t_any _ h = absurd h
encoded_value-Encodes t v h = encodes_other t v _ refl (value_of_go-Shows t v h)
