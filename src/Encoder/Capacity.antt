-- ===== src/Encoder/Capacity.antt =====
-- The contents of the buffer stay within its capacity, and each append of the encoder stores in place:
-- grow has made the room.
use msgpck.Base.{
  ℕ, ◌≤◌, ◌≡◌, refl, ap, Bool, true, false, Bytes, [], ◌∷◌, ◌++◌, arith, length, length-append,
  if◌then◌else◌, ◌∙◌, ◌+◌, ◌||◌, ltb,
}
use msgpck.Base.Words.{ℤ, be16, be32, be64}
use msgpck.Value.{
  Value, Values, Kvs, nil, bool, int, uint, float32, float64, string, binary, array, map, ext,
  no_values, elem, no_kvs, kv,
}
use msgpck.Encoder.{
  Encoder, grow, write_byte, write_bytes, write_uint16, write_uint32, write_uint64, encode_nil,
  encode_bool, encode_uint, encode_int, encode_float32, encode_float64, encode_string_len,
  encode_string_bytes, encode_binary_len, encode_binary, encode_array_header, encode_map_header,
  encode_ext_len, encode_ext, encode_value, encode_values, encode_kvs,
}
use msgpck.Encoder.Appends.{
  grow-capacity, spilled-grow, buf-grow, buf-write_byte, buf-write_bytes, buf-write_uint16,
  buf-write_uint32, buf-write_uint64,
}

pub record IsWithin (e : Encoder) : Type 0 where
  pub within : length e.buf ≤ e.capacity
  pub in_place : e.spilled ≡ false

-- An append of n bytes after grow has made room for them.
appended_in_place :
    (n : ℕ) (e : Encoder)
    → IsWithin e
    → (grow n e).spilled || ltb (grow n e).capacity (length (grow n e).buf + n) ≡ false
appended_in_place n e h =
    rw (spilled-grow n e, buf-grow n e, h.in_place)
      (let room : length e.buf + n ≤ (grow n e).capacity = grow-capacity n e h.within in
        ground arith)

-- A write that grows by what it appends.
IsWithin-write :
    (bs : Bytes) (n : ℕ) (e e' : Encoder)
    → e'.buf ≡ e.buf ++ bs
    → length bs ≡ n
    → e'.capacity ≡ (grow n e).capacity
    → e'.spilled ≡ ((grow n e).spilled || ltb (grow n e).capacity (length (grow n e).buf + n))
    → IsWithin e
    → IsWithin e'
IsWithin-write bs n e e' b l c s h = record {
  within = omega (arith, ap length b, length-append e.buf bs, grow-capacity n e h.within);
  in_place = s ∙ appended_in_place n e h;
}

IsWithin-write_byte : (b : ℕ) (e : Encoder) → IsWithin e → IsWithin (write_byte b e)
IsWithin-write_byte b e =
    IsWithin-write (b ∷ []) 1 e _ (buf-write_byte b e) refl (unfold write_byte in refl)
      (unfold write_byte in refl)

IsWithin-write_bytes : (bs : Bytes) (e : Encoder) → IsWithin e → IsWithin (write_bytes bs e)
IsWithin-write_bytes bs e =
    IsWithin-write bs (length bs) e _ (buf-write_bytes bs e) refl (unfold write_bytes in refl)
      (unfold write_bytes in refl)

IsWithin-write_uint16 : (v : ℕ) (e : Encoder) → IsWithin e → IsWithin (write_uint16 v e)
IsWithin-write_uint16 v e =
    IsWithin-write (be16 v) 2 e _ (buf-write_uint16 v e) (unfold be16 in refl)
      (unfold write_uint16 in refl) (unfold write_uint16 in refl)

IsWithin-write_uint32 : (v : ℕ) (e : Encoder) → IsWithin e → IsWithin (write_uint32 v e)
IsWithin-write_uint32 v e =
    IsWithin-write (be32 v) 4 e _ (buf-write_uint32 v e) (unfold be32 be16 in refl)
      (unfold write_uint32 in refl) (unfold write_uint32 in refl)

IsWithin-write_uint64 : (v : ℕ) (e : Encoder) → IsWithin e → IsWithin (write_uint64 v e)
IsWithin-write_uint64 v e =
    IsWithin-write (be64 v) 8 e _ (buf-write_uint64 v e) (unfold be64 be32 be16 in refl)
      (unfold write_uint64 in refl) (unfold write_uint64 in refl)

IsWithin-if : (t : Bool) (x y : Encoder) → IsWithin x → IsWithin y → IsWithin (if t then x else y)
IsWithin-if true x y h k = h
IsWithin-if false x y h k = k

ruleset writes = (
  IsWithin-write_byte, IsWithin-write_bytes, IsWithin-write_uint16, IsWithin-write_uint32,
  IsWithin-write_uint64, IsWithin-if,
)

IsWithin-encode_nil : (e : Encoder) → IsWithin e → IsWithin (encode_nil e)
unfolding encode_nil
IsWithin-encode_nil e h = search writes depth 12

IsWithin-encode_bool : (v : Bool) (e : Encoder) → IsWithin e → IsWithin (encode_bool v e)
unfolding encode_bool
IsWithin-encode_bool v e h = search writes depth 12

IsWithin-encode_uint : (v : ℕ) (e : Encoder) → IsWithin e → IsWithin (encode_uint v e)
unfolding encode_uint
IsWithin-encode_uint v e h = search writes depth 12

IsWithin-encode_float32 : (v : ℕ) (e : Encoder) → IsWithin e → IsWithin (encode_float32 v e)
unfolding encode_float32
IsWithin-encode_float32 v e h = search writes depth 12

IsWithin-encode_float64 : (v : ℕ) (e : Encoder) → IsWithin e → IsWithin (encode_float64 v e)
unfolding encode_float64
IsWithin-encode_float64 v e h = search writes depth 12

IsWithin-encode_string_len : (n : ℕ) (e : Encoder) → IsWithin e → IsWithin (encode_string_len n e)
unfolding encode_string_len
IsWithin-encode_string_len n e h = search writes depth 12

IsWithin-encode_binary_len : (n : ℕ) (e : Encoder) → IsWithin e → IsWithin (encode_binary_len n e)
unfolding encode_binary_len
IsWithin-encode_binary_len n e h = search writes depth 12

IsWithin-encode_array_header :
    (n : ℕ) (e : Encoder) → IsWithin e → IsWithin (encode_array_header n e)
unfolding encode_array_header
IsWithin-encode_array_header n e h = search writes depth 12

IsWithin-encode_map_header : (n : ℕ) (e : Encoder) → IsWithin e → IsWithin (encode_map_header n e)
unfolding encode_map_header
IsWithin-encode_map_header n e h = search writes depth 12

IsWithin-encode_ext_len : (n : ℕ) (e : Encoder) → IsWithin e → IsWithin (encode_ext_len n e)
unfolding encode_ext_len
IsWithin-encode_ext_len n e h = search writes depth 12

IsWithin-encode_int : (v : ℤ) (e : Encoder) → IsWithin e → IsWithin (encode_int v e)
unfolding encode_int
IsWithin-encode_int v e h = search (writes, IsWithin-encode_uint) depth 12

IsWithin-encode_string_bytes :
    (s : Bytes) (e : Encoder) → IsWithin e → IsWithin (encode_string_bytes s e)
unfolding encode_string_bytes
IsWithin-encode_string_bytes s e h = search (writes, IsWithin-encode_string_len) depth 12

IsWithin-encode_binary : (s : Bytes) (e : Encoder) → IsWithin e → IsWithin (encode_binary s e)
unfolding encode_binary
IsWithin-encode_binary s e h = search (writes, IsWithin-encode_binary_len) depth 12

IsWithin-encode_ext : (t : ℤ) (s : Bytes) (e : Encoder) → IsWithin e → IsWithin (encode_ext t s e)
unfolding encode_ext
IsWithin-encode_ext t s e h = search (writes, IsWithin-encode_ext_len) depth 12

mutual
  unfolding encode_value

  IsWithin-encode_value_lem : (v : Value) (e : Encoder) → IsWithin e → IsWithin (encode_value v e)
  IsWithin-encode_value_lem nil e h = IsWithin-encode_nil e h
  IsWithin-encode_value_lem (bool b) e h = IsWithin-encode_bool b e h
  IsWithin-encode_value_lem (int v) e h = IsWithin-encode_int v e h
  IsWithin-encode_value_lem (uint v) e h = IsWithin-encode_uint v e h
  IsWithin-encode_value_lem (float32 v) e h = IsWithin-encode_float32 v e h
  IsWithin-encode_value_lem (float64 v) e h = IsWithin-encode_float64 v e h
  IsWithin-encode_value_lem (string s) e h = IsWithin-encode_string_bytes s e h
  IsWithin-encode_value_lem (binary s) e h = IsWithin-encode_binary s e h
  IsWithin-encode_value_lem (array vs) e h =
      IsWithin-encode_values_lem vs _ (IsWithin-encode_array_header _ e h)
  IsWithin-encode_value_lem (map kvs) e h =
      IsWithin-encode_kvs_lem kvs _ (IsWithin-encode_map_header _ e h)
  IsWithin-encode_value_lem (ext t s) e h = IsWithin-encode_ext t s e h

  IsWithin-encode_values_lem :
      (vs : Values) (e : Encoder) → IsWithin e → IsWithin (encode_values vs e)
  IsWithin-encode_values_lem no_values e h = h
  IsWithin-encode_values_lem (elem v vs) e h =
      IsWithin-encode_values_lem vs _ (IsWithin-encode_value_lem v e h)

  IsWithin-encode_kvs_lem : (kvs : Kvs) (e : Encoder) → IsWithin e → IsWithin (encode_kvs kvs e)
  IsWithin-encode_kvs_lem no_kvs e h = h
  IsWithin-encode_kvs_lem (kv k v kvs) e h =
      IsWithin-encode_kvs_lem kvs _
        (IsWithin-encode_value_lem v _ (IsWithin-encode_string_bytes k e h))

-- EncodeValue, of every value, makes room by grow before each of its appends: where the buffer was within
-- its capacity and no append had found the capacity too small, both still hold afterwards, so that append
-- never has to allocate.
pub IsWithin-encode_value : (v : Value) (e : Encoder) → IsWithin e → IsWithin (encode_value v e)
IsWithin-encode_value v e h = IsWithin-encode_value_lem v e h
