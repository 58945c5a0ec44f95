-- ===== src/Encoder/Refines.antt =====
-- EncodeValue writes the MessagePack form of its value behind what the buffer holds.
use msgpck.Base.{◌<◌, ◌^◌, ◌≡◌, sym, ◌∙◌, true, false, ◌++◌, length, append-nil, append_assoc}
use msgpck.Base.Words.{IsInt8, IsInt64}
use msgpck.Value.{
  Value, Values, Kvs, nil, bool, int, uint, float32, float64, string, binary, array, map, ext,
  no_values, elem, no_kvs, kv, values_len, kvs_len,
}
use msgpck.Encoder.{
  Encoder, encode_value, encode_values, encode_kvs, encode_array_header, encode_map_header,
  encode_string_bytes,
}
use msgpck.Encoder.Wire.{wire, wire_values, wire_kvs}
use msgpck.Encoder.Scalars.{
  buf-encode_nil, buf-encode_bool, buf-encode_float32, buf-encode_float64, buf-encode_uint,
  buf-encode_int, buf-encode_string_bytes, buf-encode_binary, buf-encode_ext,
  buf-encode_array_header, buf-encode_map_header,
}

-- What Go's types and the length prefixes of the format can hold: words in their range, and lengths
-- that fit 32 bits.
unfoldable mutual
  pub IsSized : Value → Type 0
  IsSized nil = Unit
  IsSized (bool b) = Unit
  IsSized (int v) = IsInt64 v
  IsSized (uint v) = v < 2 ^ 64
  IsSized (float32 v) = v < 2 ^ 32
  IsSized (float64 v) = v < 2 ^ 64
  IsSized (string s) = length s < 2 ^ 32
  IsSized (binary s) = length s < 2 ^ 32
  IsSized (array vs) = (values_len vs < 2 ^ 32) × AllSized vs
  IsSized (map kvs) = (kvs_len kvs < 2 ^ 32) × KvsSized kvs
  IsSized (ext t s) = IsInt8 t × (length s < 2 ^ 32)

  pub AllSized : Values → Type 0
  AllSized no_values = Unit
  AllSized (elem v vs) = IsSized v × AllSized vs

  pub KvsSized : Kvs → Type 0
  KvsSized no_kvs = Unit
  KvsSized (kv k v kvs) = (length k < 2 ^ 32) × IsSized v × KvsSized kvs

mutual
  unfolding encode_value wire IsSized

  buf-encode_value_lem :
      (v : Value) (e : Encoder) → IsSized v → (encode_value v e).buf ≡ e.buf ++ wire v
  buf-encode_value_lem nil e h = buf-encode_nil e
  buf-encode_value_lem (bool true) e h = buf-encode_bool true e
  buf-encode_value_lem (bool false) e h = buf-encode_bool false e
  buf-encode_value_lem (int v) e h = buf-encode_int v e h
  buf-encode_value_lem (uint v) e h = buf-encode_uint v e h
  buf-encode_value_lem (float32 v) e h = buf-encode_float32 v e
  buf-encode_value_lem (float64 v) e h = buf-encode_float64 v e
  buf-encode_value_lem (string s) e h = buf-encode_string_bytes s e h
  buf-encode_value_lem (binary s) e h = buf-encode_binary s e h
  buf-encode_value_lem (array vs) e (n, h) =
      buf-encode_values_lem vs (encode_array_header (values_len vs) e) h
      ∙ rw (buf-encode_array_header (values_len vs) e n) (append_assoc e.buf _ _)
  buf-encode_value_lem (map kvs) e (n, h) =
      buf-encode_kvs_lem kvs (encode_map_header (kvs_len kvs) e) h
      ∙ rw (buf-encode_map_header (kvs_len kvs) e n) (append_assoc e.buf _ _)
  buf-encode_value_lem (ext t s) e (ht, h) = buf-encode_ext t s e ht h

  buf-encode_values_lem :
      (vs : Values) (e : Encoder) → AllSized vs → (encode_values vs e).buf ≡ e.buf ++ wire_values vs
  buf-encode_values_lem no_values e h = sym (append-nil e.buf)
  buf-encode_values_lem (elem v vs) e (h, hs) =
      buf-encode_values_lem vs (encode_value v e) hs
      ∙ rw (buf-encode_value_lem v e h) (append_assoc e.buf _ _)

  buf-encode_kvs_lem :
      (kvs : Kvs) (e : Encoder) → KvsSized kvs → (encode_kvs kvs e).buf ≡ e.buf ++ wire_kvs kvs
  buf-encode_kvs_lem no_kvs e h = sym (append-nil e.buf)
  buf-encode_kvs_lem (kv k v kvs) e (hk, h, hs) =
      buf-encode_kvs_lem kvs (encode_value v (encode_string_bytes k e)) hs
      ∙ rw (buf-encode_value_lem v (encode_string_bytes k e) h, buf-encode_string_bytes k e hk)
          (simp append_assoc)

-- EncodeValue appends the MessagePack form of the value, whatever the buffer holds already.
pub buf-encode_value :
    (v : Value) (e : Encoder) → IsSized v → (encode_value v e).buf ≡ e.buf ++ wire v
buf-encode_value v e h = buf-encode_value_lem v e h
