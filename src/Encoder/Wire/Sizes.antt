-- ===== src/Encoder/Wire/Sizes.antt =====
-- How many bytes the encoded forms take at least.
use msgpck.Base.{ℕ, ◌+◌, ◌*◌, ◌≤◌, ◌<◌, ◌≡◌, Bytes, ◌++◌, arith, length, length-append}
use msgpck.Base.Words.{ℤ, pos, negsuc}
use msgpck.Value.{
  Value, Values, Kvs, nil, bool, int, uint, float32, float64, string, binary, array, map, ext,
  no_values, elem, no_kvs, kv, values_len, kvs_len,
}
use msgpck.Encoder.Wire.{
  wire, wire_values, wire_kvs, uint_bytes, int_bytes, string_header, binary_header, array_header,
  map_header, ext_header,
}

length-append_bytes : (xs ys : Bytes) → length (xs ++ ys) ≡ length xs + length ys
length-append_bytes = length-append

pub length-uint_bytes : (v : ℕ) → 0 < length (uint_bytes v)
unfolding uint_bytes
length-uint_bytes v = ground arith

pub length-int_bytes : (v : ℤ) → 0 < length (int_bytes v)
unfolding int_bytes
length-int_bytes (pos n) = length-uint_bytes n
length-int_bytes (negsuc n) = ground arith

pub length-string_header : (n : ℕ) → 0 < length (string_header n)
unfolding string_header
length-string_header n = ground arith

length-binary_header : (n : ℕ) → 0 < length (binary_header n)
unfolding binary_header
length-binary_header n = ground arith

pub length-array_header : (n : ℕ) → 0 < length (array_header n)
unfolding array_header
length-array_header n = ground arith

pub length-map_header : (n : ℕ) → 0 < length (map_header n)
unfolding map_header
length-map_header n = ground arith

length-ext_header : (n : ℕ) → 0 < length (ext_header n)
unfolding ext_header
length-ext_header n = ground arith

ruleset sizes = (arith, length-append_bytes)

pub length-wire : (v : Value) → 0 < length (wire v)
unfolding wire
length-wire nil = omega arith
length-wire (bool b) = omega arith
length-wire (int v) = length-int_bytes v
length-wire (uint v) = length-uint_bytes v
length-wire (float32 v) = omega arith
length-wire (float64 v) = omega arith
length-wire (string s) = omega (sizes, length-string_header (length s))
length-wire (binary s) = omega (sizes, length-binary_header (length s))
length-wire (array vs) = omega (sizes, length-array_header (values_len vs))
length-wire (map kvs) = omega (sizes, length-map_header (kvs_len kvs))
length-wire (ext t s) = omega (sizes, length-ext_header (length s))

pub length-wire_values : (vs : Values) → values_len vs ≤ length (wire_values vs)
unfolding wire
length-wire_values no_values = omega arith
length-wire_values (elem v vs) = omega (sizes, length-wire v, length-wire_values vs)

pub length-wire_kvs : (kvs : Kvs) → kvs_len kvs * 2 ≤ length (wire_kvs kvs)
unfolding wire
length-wire_kvs no_kvs = omega arith
length-wire_kvs (kv k v kvs) =
    omega (sizes, length-string_header (length k), length-wire v, length-wire_kvs kvs)
