-- ===== src/Encoder/Any.antt =====
-- encode.go: Encode and Marshal on the Go values that this package makes itself. The order of a map's
-- entries is that in which Go's loop comes to them. The data of an Ext are not nil.
pub mod Agree
use msgpck.Base.{ℕ, zero, suc, Bytes, [], ◌∷◌}
use msgpck.Any.{
  Any, Anys, Entries, go_nil, go_bool, go_int64, go_uint64, go_float32, go_float64, go_string,
  go_bytes, go_slice, go_map, go_ext, no_anys, item, no_entries, entry,
}
use msgpck.Encoder.{
  Encoder, new_encoder, encode_nil, encode_bool, encode_int, encode_uint, encode_float32,
  encode_float64, encode_string, encode_string_bytes, encode_binary, encode_array_header,
  encode_map_header,
}

-- len(s), len(m)
abbrev pub anys_len : Anys → ℕ
anys_len no_anys = zero
anys_len (item x xs) = suc (anys_len xs)

abbrev pub entries_len : Entries → ℕ
entries_len no_entries = zero
entries_len (entry k x m) = suc (entries_len m)

-- The fields of the struct Ext.
abbrev pub name_type : Bytes
name_type = b'T' ∷ b'y' ∷ b'p' ∷ b'e' ∷ []

abbrev pub name_data : Bytes
name_data = b'D' ∷ b'a' ∷ b't' ∷ b'a' ∷ []

-- Encode, and the loops of encodeSliceAny and encodeMapStringAny. An Ext is not known to the switch: it is
-- a struct, which encodeStruct writes as a map.
unfoldable mutual
  pub encode_any : Any → Encoder → Encoder
  encode_any go_nil e = encode_nil e
  encode_any (go_bool b) e = encode_bool b e
  encode_any (go_int64 v) e = encode_int v e
  encode_any (go_uint64 v) e = encode_uint v e
  encode_any (go_float32 v) e = encode_float32 v e
  encode_any (go_float64 v) e = encode_float64 v e
  encode_any (go_string s) e = encode_string s e
  encode_any (go_bytes s) e = encode_binary s e
  encode_any (go_slice xs) e = encode_anys xs (encode_array_header (anys_len xs) e)
  encode_any (go_map m) e = encode_entries m (encode_map_header (entries_len m) e)
  encode_any (go_ext t s) e = encode_binary s (
      encode_string_bytes name_data
        (encode_int t (encode_string_bytes name_type (encode_map_header 2 e))))

  pub encode_anys : Anys → Encoder → Encoder
  encode_anys no_anys e = e
  encode_anys (item x xs) e = encode_anys xs (encode_any x e)

  pub encode_entries : Entries → Encoder → Encoder
  encode_entries no_entries e = e
  encode_entries (entry k x m) e = encode_entries m (encode_any x (encode_string k e))

-- Marshal: the result is a copy of the buffer. No Go value of the model is of an unsupported type.
unfoldable pub marshal : Any → Bytes
marshal v = (encode_any v (new_encoder 256)).buf
