-- ===== src/Encoder/Any/Agree.antt =====
-- Encode writes a Go value as EncodeValue writes the Value with the same contents.
use msgpck.Base.{ℕ, suc, Bytes, ◌≡◌, refl, ap, ◌∙◌}
use msgpck.Value.{
  Value, Values, Kvs, nil, bool, int, uint, float32, float64, string, binary, array, map, no_values,
  elem, no_kvs, kv, values_len, kvs_len,
}
use msgpck.Any.{
  Any, Anys, Entries, go_nil, go_bool, go_int64, go_uint64, go_float32, go_float64, go_string,
  go_bytes, go_slice, go_map, go_ext, no_anys, item, no_entries, entry,
}
use msgpck.Encoder.{
  Encoder, encode_value, encode_values, encode_kvs, encode_string, encode_string_bytes,
  encode_array_header, encode_map_header,
}
use msgpck.Encoder.Any.{
  anys_len, entries_len, name_type, name_data, encode_any, encode_anys, encode_entries,
}

-- The Value with the contents of a Go value.
unfoldable mutual
  pub value_of : Any → Value
  value_of go_nil = nil
  value_of (go_bool b) = bool b
  value_of (go_int64 v) = int v
  value_of (go_uint64 v) = uint v
  value_of (go_float32 v) = float32 v
  value_of (go_float64 v) = float64 v
  value_of (go_string s) = string s
  value_of (go_bytes s) = binary s
  value_of (go_slice xs) = array (values_of xs)
  value_of (go_map m) = map (kvs_of m)
  value_of (go_ext t s) = map (kv name_type (int t) (kv name_data (binary s) no_kvs))

  pub values_of : Anys → Values
  values_of no_anys = no_values
  values_of (item x xs) = elem (value_of x) (values_of xs)

  pub kvs_of : Entries → Kvs
  kvs_of no_entries = no_kvs
  kvs_of (entry k x m) = kv k (value_of x) (kvs_of m)

values_of-len : (xs : Anys) → values_len (values_of xs) ≡ anys_len xs
unfolding values_of
values_of-len no_anys = refl
values_of-len (item x xs) = ap (λ (n : ℕ). suc n) (values_of-len xs)

kvs_of-len : (m : Entries) → kvs_len (kvs_of m) ≡ entries_len m
unfolding kvs_of
kvs_of-len no_entries = refl
kvs_of-len (entry k x m) = ap (λ (n : ℕ). suc n) (kvs_of-len m)

same_string : (s : Bytes) (e : Encoder) → encode_string s e ≡ encode_string_bytes s e
unfolding encode_string encode_string_bytes
same_string s e = refl

mutual
  unfolding encode_any encode_value value_of

  encode_any_lem : (a : Any) (e : Encoder) → encode_any a e ≡ encode_value (value_of a) e
  encode_any_lem go_nil e = refl
  encode_any_lem (go_bool b) e = refl
  encode_any_lem (go_int64 v) e = refl
  encode_any_lem (go_uint64 v) e = refl
  encode_any_lem (go_float32 v) e = refl
  encode_any_lem (go_float64 v) e = refl
  encode_any_lem (go_string s) e = same_string s e
  encode_any_lem (go_bytes s) e = refl
  encode_any_lem (go_slice xs) e =
      rw (values_of-len xs) (encode_anys_lem xs (encode_array_header (anys_len xs) e))
  encode_any_lem (go_map m) e =
      rw (kvs_of-len m) (encode_entries_lem m (encode_map_header (entries_len m) e))
  encode_any_lem (go_ext t s) e = refl

  encode_anys_lem : (xs : Anys) (e : Encoder) → encode_anys xs e ≡ encode_values (values_of xs) e
  encode_anys_lem no_anys e = refl
  encode_anys_lem (item x xs) e =
      encode_anys_lem xs (encode_any x e) ∙ ap (encode_values (values_of xs)) (encode_any_lem x e)

  encode_entries_lem : (m : Entries) (e : Encoder) → encode_entries m e ≡ encode_kvs (kvs_of m) e
  encode_entries_lem no_entries e = refl
  encode_entries_lem (entry k x m) e =
      encode_entries_lem m (encode_any x (encode_string k e))
      ∙ ap (encode_kvs (kvs_of m))
          (encode_any_lem x (encode_string k e) ∙ ap (encode_value (value_of x)) (same_string k e))

-- Encode does to the encoder what EncodeValue does on the Value with the contents of the Go value; for an
-- Ext that is not the extension, but a map of the struct's two fields.
pub encode_any-encode_value : (a : Any) (e : Encoder) → encode_any a e ≡ encode_value (value_of a) e
encode_any-encode_value = encode_any_lem
