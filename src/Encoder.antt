-- ===== src/Encoder.antt =====
-- encoder.go: the encoder's buffer and the methods that append to it. A method takes the encoder and
-- returns it.
pub mod Wire
pub mod Appends
pub mod Scalars
pub mod Refines
pub mod Arrays
pub mod Capacity
pub mod Any
use msgpck.Base.{
  ℕ, ◌+◌, ◌-◌, ◌*◌, ◌%◌, ◌^◌, Bool, true, false, Bytes, [], ◌∷◌, ◌++◌, List, length, take, drop,
  leb, ltb, ◌==◌, ◌||◌, bit_or, if◌then◌else◌,
}
use msgpck.Base.Words.{ℤ, pos, negsuc, leb_ℤ, to_uint64, be16, be32, be64}
use msgpck.Format.{
  format_nil, format_false, format_true, format_uint8, format_uint16, format_uint32, format_uint64,
  format_int8, format_int16, format_int32, format_int64, format_float32, format_float64,
  format_str8, format_str16, format_str32, format_bin8, format_bin16, format_bin32, format_array16,
  format_array32, format_map16, format_map32, format_fix_ext1, format_fix_ext2, format_fix_ext4,
  format_fix_ext8, format_fix_ext16, format_ext8, format_ext16, format_ext32, fixmap_prefix,
  fixarray_prefix, fixstr_prefix,
}
use msgpck.Value.{
  Value, Values, Kvs, nil, bool, int, uint, float32, float64, string, binary, array, map, ext,
  no_values, elem, no_kvs, kv, values_len, kvs_len,
}

-- The slice `buf` is its contents and its capacity. `spilled` is no field of the source: it records that
-- an append has found the capacity too small, so that it had to allocate.
pub record Encoder : Type 0 where
  pub buf : Bytes
  pub capacity : ℕ
  pub pos : ℕ
  pub spilled : Bool

abbrev pub new_encoder : ℕ → Encoder
new_encoder capacity = record { buf = []; capacity = capacity; pos = 0; spilled = false }

-- NewEncoderBuffer keeps the capacity of the buffer that it is given.
abbrev pub new_encoder_buffer : ℕ → Encoder
new_encoder_buffer cap_buf = record { buf = []; capacity = cap_buf; pos = 0; spilled = false }

abbrev pub reset : Encoder → Encoder
reset e = record e { buf = []; pos = 0 }

abbrev pub bytes : Encoder → Bytes
bytes e = e.buf

abbrev pub len : Encoder → ℕ
len e = length e.buf

-- Doubles the capacity, or makes it what is needed if that is more. The contents are copied.
unfoldable pub grow : ℕ → Encoder → Encoder
grow n e =
    if leb n (e.capacity - length e.buf)
    then e
    else (let doubled : ℕ = e.capacity * 2 in
        let new_cap : ℕ = if ltb doubled (length e.buf + n) then length e.buf + n else doubled in
        record e { capacity = new_cap })

-- `append(e.buf, b...)`. The capacity that append allocates where it has to is left open: `capacity` stands
-- for the slice's as long as nothing has spilled.
abbrev pub append_bytes : Bytes → Encoder → Encoder
append_bytes bs e = record e {
  buf = e.buf ++ bs;
  spilled = e.spilled || ltb e.capacity (length e.buf + length bs);
}

-- `copy(e.buf[i:], bs)`, for bytes that fit.
abbrev pub put_at : ℕ → Bytes → Bytes → Bytes
put_at i bs buf = take i buf ++ (bs ++ drop (i + length bs) buf)

unfoldable pub write_byte : ℕ → Encoder → Encoder
unfolding grow
write_byte b e = append_bytes (b ∷ []) (grow 1 e)

unfoldable pub write_bytes : Bytes → Encoder → Encoder
unfolding grow
write_bytes b e = append_bytes b (grow (length b) e)

-- Appends zeros and stores the word over the last bytes of the buffer.
unfoldable pub write_uint16 : ℕ → Encoder → Encoder
unfolding grow
write_uint16 v e =
    let e' = append_bytes (0 ∷ 0 ∷ []) (grow 2 e) in
    record e' { buf = put_at (length e'.buf - 2) (be16 v) e'.buf }

unfoldable pub write_uint32 : ℕ → Encoder → Encoder
unfolding grow
write_uint32 v e =
    let e' = append_bytes (0 ∷ 0 ∷ 0 ∷ 0 ∷ []) (grow 4 e) in
    record e' { buf = put_at (length e'.buf - 4) (be32 v) e'.buf }

unfoldable pub write_uint64 : ℕ → Encoder → Encoder
unfolding grow
write_uint64 v e =
    let e' = append_bytes (0 ∷ 0 ∷ 0 ∷ 0 ∷ 0 ∷ 0 ∷ 0 ∷ 0 ∷ []) (grow 8 e) in
    record e' { buf = put_at (length e'.buf - 8) (be64 v) e'.buf }

unfoldable pub encode_nil : Encoder → Encoder
encode_nil = write_byte format_nil

unfoldable pub encode_bool : Bool → Encoder → Encoder
encode_bool v e = if v then write_byte format_true e else write_byte format_false e

unfoldable pub encode_uint : ℕ → Encoder → Encoder
encode_uint v e =
    if leb v 127
    then write_byte (v % 256) e
    else if leb v 255
    then write_byte (v % 256) (write_byte format_uint8 e)
    else if leb v 65535
    then write_uint16 (v % 2 ^ 16) (write_byte format_uint16 e)
    else if leb v 4294967295
    then write_uint32 (v % 2 ^ 32) (write_byte format_uint32 e)
    else write_uint64 v (write_byte format_uint64 e)

-- byte(v), uint16(v) and uint32(v) of a negative v are the low bits of its pattern.
unfoldable pub encode_int : ℤ → Encoder → Encoder
encode_int v e =
    if leb_ℤ (pos 0) v
    then encode_uint (to_uint64 v) e
    else if leb_ℤ (negsuc 31) v
    then write_byte (to_uint64 v % 256) e
    else if leb_ℤ (negsuc 127) v
    then write_byte (to_uint64 v % 256) (write_byte format_int8 e)
    else if leb_ℤ (negsuc 32767) v
    then write_uint16 (to_uint64 v % 2 ^ 16) (write_byte format_int16 e)
    else if leb_ℤ (negsuc 2147483647) v
    then write_uint32 (to_uint64 v % 2 ^ 32) (write_byte format_int32 e)
    else write_uint64 (to_uint64 v) (write_byte format_int64 e)

-- A float is its bit pattern.
unfoldable pub encode_float32 : ℕ → Encoder → Encoder
encode_float32 v e = write_uint32 v (write_byte format_float32 e)

unfoldable pub encode_float64 : ℕ → Encoder → Encoder
encode_float64 v e = write_uint64 v (write_byte format_float64 e)

-- The format byte and the length of a string, which EncodeString and EncodeStringBytes both begin with.
unfoldable pub encode_string_len : ℕ → Encoder → Encoder
encode_string_len n e =
    if leb n 31
    then write_byte (bit_or fixstr_prefix (n % 256)) e
    else if leb n 255
    then write_byte (n % 256) (write_byte format_str8 e)
    else if leb n 65535
    then write_uint16 (n % 2 ^ 16) (write_byte format_str16 e)
    else write_uint32 (n % 2 ^ 32) (write_byte format_str32 e)

unfoldable pub encode_string : Bytes → Encoder → Encoder
encode_string v e = write_bytes v (encode_string_len (length v) e)

unfoldable pub encode_string_bytes : Bytes → Encoder → Encoder
encode_string_bytes v e = write_bytes v (encode_string_len (length v) e)

unfoldable pub encode_binary_len : ℕ → Encoder → Encoder
encode_binary_len n e =
    if leb n 255
    then write_byte (n % 256) (write_byte format_bin8 e)
    else if leb n 65535
    then write_uint16 (n % 2 ^ 16) (write_byte format_bin16 e)
    else write_uint32 (n % 2 ^ 32) (write_byte format_bin32 e)

unfoldable pub encode_binary : Bytes → Encoder → Encoder
encode_binary v e = write_bytes v (encode_binary_len (length v) e)

unfoldable pub encode_array_header : ℕ → Encoder → Encoder
encode_array_header n e =
    if leb n 15
    then write_byte (bit_or fixarray_prefix (n % 256)) e
    else if leb n 65535
    then write_uint16 (n % 2 ^ 16) (write_byte format_array16 e)
    else write_uint32 (n % 2 ^ 32) (write_byte format_array32 e)

unfoldable pub encode_map_header : ℕ → Encoder → Encoder
encode_map_header n e =
    if leb n 15
    then write_byte (bit_or fixmap_prefix (n % 256)) e
    else if leb n 65535
    then write_uint16 (n % 2 ^ 16) (write_byte format_map16 e)
    else write_uint32 (n % 2 ^ 32) (write_byte format_map32 e)

-- The switch of EncodeExt on the length.
unfoldable pub encode_ext_len : ℕ → Encoder → Encoder
encode_ext_len n e =
    if n == 1
    then write_byte format_fix_ext1 e
    else if n == 2
    then write_byte format_fix_ext2 e
    else if n == 4
    then write_byte format_fix_ext4 e
    else if n == 8
    then write_byte format_fix_ext8 e
    else if n == 16
    then write_byte format_fix_ext16 e
    else if leb n 255
    then write_byte (n % 256) (write_byte format_ext8 e)
    else if leb n 65535
    then write_uint16 (n % 2 ^ 16) (write_byte format_ext16 e)
    else write_uint32 (n % 2 ^ 32) (write_byte format_ext32 e)

unfoldable pub encode_ext : ℤ → Bytes → Encoder → Encoder
encode_ext ext_type v e =
    write_bytes v (write_byte (to_uint64 ext_type % 256) (encode_ext_len (length v) e))

-- EncodeValue, and its loops over the elements of an array and the pairs of a map.
unfoldable mutual
  pub encode_value : Value → Encoder → Encoder
  encode_value nil e = encode_nil e
  encode_value (bool b) e = encode_bool b e
  encode_value (int v) e = encode_int v e
  encode_value (uint v) e = encode_uint v e
  encode_value (float32 v) e = encode_float32 v e
  encode_value (float64 v) e = encode_float64 v e
  encode_value (string s) e = encode_string_bytes s e
  encode_value (binary s) e = encode_binary s e
  encode_value (array vs) e = encode_values vs (encode_array_header (values_len vs) e)
  encode_value (map kvs) e = encode_kvs kvs (encode_map_header (kvs_len kvs) e)
  encode_value (ext t s) e = encode_ext t s e

  pub encode_values : Values → Encoder → Encoder
  encode_values no_values e = e
  encode_values (elem v vs) e = encode_values vs (encode_value v e)

  pub encode_kvs : Kvs → Encoder → Encoder
  encode_kvs no_kvs e = e
  encode_kvs (kv k v kvs) e = encode_kvs kvs (encode_value v (encode_string_bytes k e))

-- The typed arrays: a header, and each element in turn.
abbrev pub encode_all {ℓ} : {A : Type ℓ} → (A → Encoder → Encoder) → List A → Encoder → Encoder
encode_all f [] e = e
encode_all f (x ∷ xs) e = encode_all f xs (f x e)

unfoldable pub encode_int64_array : List ℤ → Encoder → Encoder
encode_int64_array arr e = encode_all encode_int arr (encode_array_header (length arr) e)

unfoldable pub encode_uint64_array : List ℕ → Encoder → Encoder
encode_uint64_array arr e = encode_all encode_uint arr (encode_array_header (length arr) e)

unfoldable pub encode_float64_array : List ℕ → Encoder → Encoder
encode_float64_array arr e = encode_all encode_float64 arr (encode_array_header (length arr) e)

unfoldable pub encode_string_array : List Bytes → Encoder → Encoder
encode_string_array arr e = encode_all encode_string arr (encode_array_header (length arr) e)
