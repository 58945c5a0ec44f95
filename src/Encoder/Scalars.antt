-- ===== src/Encoder/Scalars.antt =====
-- What the scalar methods and the header methods of the encoder append.
use msgpck.Base.{
  ℕ, ◌-◌, ◌%◌, ◌^◌, ◌<◌, ◌≡◌, ap, ◌∙◌, Bool, true, false, Bytes, [], ◌∷◌, ◌++◌, arith, length,
  bit_or, append_assoc, if◌then◌else◌,
}
use msgpck.Base.Words.{ℤ, pos, negsuc, be32, be64, IsInt64, IsInt8, to_uint64}
use msgpck.Format.{fixmap_prefix, fixarray_prefix, fixstr_prefix}
use msgpck.Format.Ranges.{fixmap_or, fixarray_or, fixstr_or}
use msgpck.Encoder.{
  Encoder, encode_nil, encode_bool, encode_uint, encode_int, encode_float32, encode_float64,
  encode_string_bytes, encode_string, encode_binary, encode_array_header, encode_map_header,
  encode_ext, encode_string_len, encode_binary_len, encode_ext_len, write_bytes,
}
use msgpck.Encoder.Appends.{
  buf-write_byte, buf-write_bytes, buf-byte_byte, buf-byte_uint16, buf-byte_uint32, buf-byte_uint64,
}
use msgpck.Encoder.Wire.{
  uint_bytes, int_bytes, string_header, binary_header, array_header, map_header, ext_header,
  int8_byte,
}

pub buf-encode_uint :
    (v : ℕ) (e : Encoder) → v < 2 ^ 64 → (encode_uint v e).buf ≡ e.buf ++ uint_bytes v
unfolding encode_uint uint_bytes
buf-encode_uint v e h = ground (
  arith,
  buf-write_byte (v % 256) e,
  buf-byte_byte 0xcc (v % 256) e,
  buf-byte_uint16 0xcd (v % 2 ^ 16) e,
  buf-byte_uint32 0xce (v % 2 ^ 32) e,
  buf-byte_uint64 0xcf v e,
)

pub buf-encode_int : (v : ℤ) (e : Encoder) → IsInt64 v → (encode_int v e).buf ≡ e.buf ++ int_bytes v
unfolding encode_int int_bytes to_uint64
buf-encode_int (pos n) e h = ground (arith, buf-encode_uint n e)
buf-encode_int (negsuc n) e h = ground (
  arith,
  buf-write_byte ((2 ^ 64 - 1 - n % 2 ^ 64) % 256) e,
  buf-byte_byte 0xd0 ((2 ^ 64 - 1 - n % 2 ^ 64) % 256) e,
  buf-byte_uint16 0xd1 ((2 ^ 64 - 1 - n % 2 ^ 64) % 2 ^ 16) e,
  buf-byte_uint32 0xd2 ((2 ^ 64 - 1 - n % 2 ^ 64) % 2 ^ 32) e,
  buf-byte_uint64 0xd3 (2 ^ 64 - 1 - n % 2 ^ 64) e,
)

pub buf-encode_array_header :
    (n : ℕ) (e : Encoder) → n < 2 ^ 32 → (encode_array_header n e).buf ≡ e.buf ++ array_header n
unfolding encode_array_header array_header
buf-encode_array_header n e h = ground (
  arith,
  fixarray_or n,
  buf-write_byte (bit_or fixarray_prefix (n % 256)) e,
  buf-byte_uint16 0xdc (n % 2 ^ 16) e,
  buf-byte_uint32 0xdd (n % 2 ^ 32) e,
)

pub buf-encode_map_header :
    (n : ℕ) (e : Encoder) → n < 2 ^ 32 → (encode_map_header n e).buf ≡ e.buf ++ map_header n
unfolding encode_map_header map_header
buf-encode_map_header n e h = ground (
  arith,
  fixmap_or n,
  buf-write_byte (bit_or fixmap_prefix (n % 256)) e,
  buf-byte_uint16 0xde (n % 2 ^ 16) e,
  buf-byte_uint32 0xdf (n % 2 ^ 32) e,
)

buf-encode_string_len :
    (n : ℕ) (e : Encoder) → n < 2 ^ 32 → (encode_string_len n e).buf ≡ e.buf ++ string_header n
unfolding encode_string_len string_header
buf-encode_string_len n e h = ground (
  arith,
  fixstr_or n,
  buf-write_byte (bit_or fixstr_prefix (n % 256)) e,
  buf-byte_byte 0xd9 (n % 256) e,
  buf-byte_uint16 0xda (n % 2 ^ 16) e,
  buf-byte_uint32 0xdb (n % 2 ^ 32) e,
)

buf-encode_binary_len :
    (n : ℕ) (e : Encoder) → n < 2 ^ 32 → (encode_binary_len n e).buf ≡ e.buf ++ binary_header n
unfolding encode_binary_len binary_header
buf-encode_binary_len n e h = ground (
  arith,
  buf-byte_byte 0xc4 (n % 256) e,
  buf-byte_uint16 0xc5 (n % 2 ^ 16) e,
  buf-byte_uint32 0xc6 (n % 2 ^ 32) e,
)

buf-encode_ext_len :
    (n : ℕ) (e : Encoder) → n < 2 ^ 32 → (encode_ext_len n e).buf ≡ e.buf ++ ext_header n
unfolding encode_ext_len ext_header
buf-encode_ext_len n e h = ground (
  arith,
  buf-write_byte 0xd4 e,
  buf-write_byte 0xd5 e,
  buf-write_byte 0xd6 e,
  buf-write_byte 0xd7 e,
  buf-write_byte 0xd8 e,
  buf-byte_byte 0xc7 (n % 256) e,
  buf-byte_uint16 0xc8 (n % 2 ^ 16) e,
  buf-byte_uint32 0xc9 (n % 2 ^ 32) e,
)

-- A header and the contents behind it.
then_bytes :
    (s xs h : Bytes) (e : Encoder) → e.buf ≡ xs ++ h → (write_bytes s e).buf ≡ xs ++ (h ++ s)
then_bytes s xs h e p = buf-write_bytes s e ∙ rw p (append_assoc xs h s)

pub buf-encode_string_bytes :
    (s : Bytes) (e : Encoder)
    → length s < 2 ^ 32
    → (encode_string_bytes s e).buf ≡ e.buf ++ (string_header (length s) ++ s)
unfolding encode_string_bytes
buf-encode_string_bytes s e h = then_bytes s e.buf _ _ (buf-encode_string_len (length s) e h)

pub buf-encode_string :
    (s : Bytes) (e : Encoder)
    → length s < 2 ^ 32
    → (encode_string s e).buf ≡ e.buf ++ (string_header (length s) ++ s)
unfolding encode_string
buf-encode_string s e h = then_bytes s e.buf _ _ (buf-encode_string_len (length s) e h)

pub buf-encode_binary :
    (s : Bytes) (e : Encoder)
    → length s < 2 ^ 32
    → (encode_binary s e).buf ≡ e.buf ++ (binary_header (length s) ++ s)
unfolding encode_binary
buf-encode_binary s e h = then_bytes s e.buf _ _ (buf-encode_binary_len (length s) e h)

pub buf-encode_ext :
    (t : ℤ) (s : Bytes) (e : Encoder)
    → IsInt8 t
    → length s < 2 ^ 32
    → (encode_ext t s e).buf ≡ e.buf ++ (ext_header (length s) ++ (int8_byte t ∷ s))
unfolding encode_ext
buf-encode_ext t s e ht h =
    let head : Bytes = ext_header (length s) in
    then_bytes s e.buf (head ++ (int8_byte t ∷ [])) _ (
      buf-write_byte (to_uint64 t % 256) (encode_ext_len (length s) e)
      ∙ rw (buf-encode_ext_len (length s) e h, type_byte t ht)
          (append_assoc e.buf head (int8_byte t ∷ [])))
    ∙ ap (λ x. e.buf ++ x) (append_assoc head (int8_byte t ∷ []) s)
  where
    type_byte : (t : ℤ) → IsInt8 t → to_uint64 t % 256 ≡ int8_byte t
    type_byte (pos n) h = unfold to_uint64 in omega arith
    type_byte (negsuc n) h = unfold to_uint64 in omega arith

pub buf-encode_nil : (e : Encoder) → (encode_nil e).buf ≡ e.buf ++ (0xc0 ∷ [])
unfolding encode_nil
buf-encode_nil e = buf-write_byte 0xc0 e

pub buf-encode_bool :
    (b : Bool) (e : Encoder) → (encode_bool b e).buf ≡ e.buf ++ ((if b then 0xc3 else 0xc2) ∷ [])
unfolding encode_bool
buf-encode_bool true e = buf-write_byte 0xc3 e
buf-encode_bool false e = buf-write_byte 0xc2 e

pub buf-encode_float32 : (v : ℕ) (e : Encoder) → (encode_float32 v e).buf ≡ e.buf ++ (0xca ∷ be32 v)
unfolding encode_float32
buf-encode_float32 v e = buf-byte_uint32 0xca v e

pub buf-encode_float64 : (v : ℕ) (e : Encoder) → (encode_float64 v e).buf ≡ e.buf ++ (0xcb ∷ be64 v)
unfolding encode_float64
buf-encode_float64 v e = buf-byte_uint64 0xcb v e
