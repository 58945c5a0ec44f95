-- ===== src/Any.antt =====
-- What a Go value of type `any` holds where this package makes or takes one. A map[string]any is a
-- list of entries, one for each key; the order of the entries is not the program's to see.
pub mod Lookup
pub mod Represents
use msgpck.Base.{ℕ, Bool, Bytes, Option, none, some, ltb, if◌then◌else◌}
use msgpck.Base.Words.{ℤ, to_int64}
use msgpck.Base.Floats.{float64_of_float32}
use msgpck.Value.{
  Value, Values, Kvs, nil, bool, int, uint, float32, float64, string, binary, array, map, ext,
  no_values, elem, no_kvs, kv, bytes_equal,
}

mutual
  pub data Any : Type 0 where
    go_nil : Any
    go_bool : Bool → Any
    go_int64 : ℤ → Any
    go_uint64 : ℕ → Any
    go_float32 : ℕ → Any
    go_float64 : ℕ → Any
    go_string : Bytes → Any
    go_bytes : Bytes → Any
    go_slice : Anys → Any
    go_map : Entries → Any
    go_ext : ℤ → Bytes → Any

  pub data Anys : Type 0 where
    no_anys : Anys
    item : Any → Anys → Anys

  pub data Entries : Type 0 where
    no_entries : Entries
    entry : Bytes → Any → Entries → Entries

-- m[key] = v
unfoldable pub put : Bytes → Any → Entries → Entries
put key v no_entries = entry key v no_entries
put key v (entry k u m) =
    let rest = put key v m in if bytes_equal k key then entry k v m else entry k u rest

-- v, ok := m[key]
unfoldable pub lookup : Bytes → Entries → Option Any
lookup key no_entries = none
lookup key (entry k v m) = let rest = lookup key m in if bytes_equal k key then some v else rest

-- valueToAny. The map is filled pair by pair.
unfoldable mutual
  pub value_to_any : Value → Any
  value_to_any nil = go_nil
  value_to_any (bool b) = go_bool b
  value_to_any (int v) = go_int64 v
  value_to_any (uint v) = go_uint64 v
  value_to_any (float32 v) = go_float64 (float64_of_float32 v)
  value_to_any (float64 v) = go_float64 v
  value_to_any (string s) = go_string s
  value_to_any (binary s) = go_bytes s
  value_to_any (array vs) = go_slice (values_to_any vs)
  value_to_any (map kvs) = go_map (kvs_to_any kvs no_entries)
  value_to_any (ext t s) = go_ext t s

  pub values_to_any : Values → Anys
  values_to_any no_values = no_anys
  values_to_any (elem v vs) = item (value_to_any v) (values_to_any vs)

  pub kvs_to_any : Kvs → Entries → Entries
  kvs_to_any no_kvs m = m
  kvs_to_any (kv k v kvs) m = kvs_to_any kvs (put k (value_to_any v) m)

-- convertValue of struct_decoder.go: a float32 stays one, and an extension is nil.
unfoldable mutual
  pub convert_value : Value → Any
  convert_value (string s) = go_string s
  convert_value (binary s) = go_bytes s
  convert_value (array vs) = go_slice (convert_values vs)
  convert_value (map kvs) = go_map (convert_kvs kvs no_entries)
  convert_value (bool b) = go_bool b
  convert_value (float32 v) = go_float32 v
  convert_value (float64 v) = go_float64 v
  convert_value (uint v) = go_uint64 v
  convert_value (int v) = go_int64 v
  convert_value nil = go_nil
  convert_value (ext t s) = go_nil

  pub convert_values : Values → Anys
  convert_values no_values = no_anys
  convert_values (elem v vs) = item (convert_value v) (convert_values vs)

  pub convert_kvs : Kvs → Entries → Entries
  convert_kvs no_kvs m = m
  convert_kvs (kv k v kvs) m = convert_kvs kvs (put k (convert_value v) m)
