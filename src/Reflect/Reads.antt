-- ===== src/Reflect/Reads.antt =====
-- The readers of words, strings and bytes of reflective decoding, on what EncodeValue wrote.
use msgpck.Base.{
  ℕ, ◌<◌, ◌^◌, ◌≡◌, refl, sym, ap, arith, true, false, Bytes, [], ◌∷◌, ◌++◌, length, leb, leb→le,
  Bool, if◌then◌else◌,
}
use msgpck.Base.Words.{ℤ, IsInt64, be64}
use msgpck.Config.{Config, exceeds}
use msgpck.Errors.{binary_too_long}
use msgpck.Format.{is_positive_fixint, is_negative_fixint, is_fixstr}
use msgpck.Format.Ranges.{is_positive_fixint-range}
use msgpck.Encoder.Wire.{wire, uint_bytes, int_bytes, binary_header, map_header}
use msgpck.Encoder.Arrays.{string_bytes}
use msgpck.Decoder.{
  M, pure, ◌>>=◌, ◌>>◌, read_byte, read_bytes, read_uint8, read_uint16, read_uint32, read_uint64,
  read_float64,
}
use msgpck.Decoder.Limits.{validate_binary_len}
use msgpck.Decoder.Lengths.{
  parse_map_len, read_string_bytes, decode_string_key, decode_string_key_with_format,
  decode_value_string, decode_value_bytes,
}
use msgpck.Decoder.Integers.{decode_int, decode_value_int, decode_value_uint}
use msgpck.Decoder.Integers.Encoded.{Reads-decode_int, Reads-uint_bytes}
use msgpck.Decoder.Floats.{decode_value_float}
use msgpck.Decoder.Arrays.RoundTrip.{StringFits, Reads-read_string}
use msgpck.Decoder.Scalars.{Reads-map}
use msgpck.Decoder.Reads.{
  Reads, Reads-pure, Reads-bind, Reads-byte, Reads-bytes, Reads-check, Reads-if_append,
  Reads-uint16, Reads-uint32, Reads-uint64,
}
use msgpck.Struct.Kinds.{ScalarKind, Scalar, v_string, v_int, v_uint, v_float64, v_bool}
use msgpck.Struct.Scalars.{narrow_int, narrow_uint, decode_bool}
use msgpck.Struct.Decode.{into_len}
use msgpck.Struct.Loop.{Reads-into_len}
use msgpck.Struct.Reads.{
  IntKind, is_int, is_int64, is_int32, is_int16, is_int8, UintKind, is_uint, is_uint64, is_uint32,
  is_uint16, is_uint8, Holds, holds_string, holds_int, holds_uint, holds_float64, holds_bool,
  scalar_bytes, Reads-made,
}
use msgpck.Reflect.Decode.{into_int, into_uint, into_scalar}
use msgpck.Reflect.Contents.{scalar_value}

-- A scalar is written in the form that its Value has.
pub wire-scalar_value :
    {c : Config} (kind : ScalarKind) (v : Scalar)
    → Holds c kind v
    → wire (scalar_value v) ≡ scalar_bytes v
unfolding wire
wire-scalar_value _ _ (holds_string s h) = refl
wire-scalar_value _ _ (holds_int _ v i h e) = refl
wire-scalar_value _ _ (holds_uint _ v i h e) = refl
wire-scalar_value _ _ (holds_float64 v h) = refl
wire-scalar_value _ _ (holds_bool b) = refl

value_uint-fixint : (n : ℕ) → n < 128 → decode_value_uint n ≡ pure n
unfolding decode_value_uint
value_uint-fixint n h = ground (arith, is_positive_fixint-range n)

parse_map_len_same : into_len ≡ parse_map_len
unfolding into_len parse_map_len
parse_map_len_same = refl

module _ {c : Config} {k : ℕ} where
  pub Reads-map_len :
      {A : Type 0} (n : ℕ) (g : ℕ → M A) (xs : Bytes) (a : A)
      → n < 2 ^ 32
      → Reads c k (g n) xs a
      → Reads c k (read_byte >>= λ f. parse_map_len f >>= g) (map_header n ++ xs) a
  Reads-map_len n g xs a h r = rw (sym parse_map_len_same) (Reads-into_len n g xs a h r)

  Reads-value_int : (v : ℤ) → IsInt64 v → Reads c k (read_byte >>= decode_value_int) (int_bytes v) v
  unfolding decode_value_int decode_int
  Reads-value_int v h = Reads-decode_int v h

  Reads-value_uint :
      (v : ℕ) → v < 2 ^ 64 → Reads c k (read_byte >>= decode_value_uint) (uint_bytes v) v
  unfolding decode_value_uint is_positive_fixint read_uint8
  Reads-value_uint v h =
      Reads-uint_bytes decode_value_uint value_uint-fixint refl refl refl refl v h

  Reads-value_float :
      (v : ℕ) → v < 2 ^ 64 → Reads c k (read_byte >>= decode_value_float) (0xcb ∷ be64 v) v
  unfolding decode_value_float read_float64 is_positive_fixint is_negative_fixint
  Reads-value_float v h =
      Reads-bind read_byte decode_value_float (0xcb ∷ []) (be64 v) 0xcb v (Reads-byte 0xcb)
        (Reads-map read_uint64 (λ v. v) (be64 v) v (Reads-uint64 v h))

  Reads-value_string :
      (s : Bytes)
      → StringFits c s
      → Reads c k (read_byte >>= decode_value_string) (string_bytes s) s
  unfolding decode_value_string read_string_bytes
  Reads-value_string s h = Reads-read_string s h

  pub Reads-key_with_format :
      (s : Bytes)
      → StringFits c s
      → Reads c k (read_byte >>= decode_string_key_with_format) (string_bytes s) s
  unfolding decode_string_key_with_format read_string_bytes
  Reads-key_with_format s h = Reads-read_string s h

  pub Reads-key : (s : Bytes) → StringFits c s → Reads c k decode_string_key (string_bytes s) s
  unfolding decode_string_key
  Reads-key s h = Reads-key_with_format s h

  Reads-bool :
      (b : Bool) → Reads c k (read_byte >>= decode_bool) ((if b then 0xc3 else 0xc2) ∷ []) b
  unfolding decode_bool
  Reads-bool true =
      Reads-bind read_byte decode_bool (0xc3 ∷ []) [] 0xc3 true (Reads-byte 0xc3) (Reads-pure true)
  Reads-bool false =
      Reads-bind read_byte decode_bool (0xc2 ∷ []) [] 0xc2 false (Reads-byte 0xc2)
        (Reads-pure false)

  of_int :
      (kind : ScalarKind) (v : ℤ)
      → IntKind kind
      → IsInt64 v
      → narrow_int kind v ≡ v
      → Reads c k (read_byte >>= into_scalar kind) (int_bytes v) (v_int v)
  unfolding into_scalar into_int
  of_int _ v is_int h e = Reads-made decode_value_int _ _ v _ (ap v_int e) (Reads-value_int v h)
  of_int _ v is_int64 h e = Reads-made decode_value_int _ _ v _ (ap v_int e) (Reads-value_int v h)
  of_int _ v is_int32 h e = Reads-made decode_value_int _ _ v _ (ap v_int e) (Reads-value_int v h)
  of_int _ v is_int16 h e = Reads-made decode_value_int _ _ v _ (ap v_int e) (Reads-value_int v h)
  of_int _ v is_int8 h e = Reads-made decode_value_int _ _ v _ (ap v_int e) (Reads-value_int v h)

  of_uint :
      (kind : ScalarKind) (v : ℕ)
      → UintKind kind
      → v < 2 ^ 64
      → narrow_uint kind v ≡ v
      → Reads c k (read_byte >>= into_scalar kind) (uint_bytes v) (v_uint v)
  unfolding into_scalar into_uint
  of_uint _ v is_uint h e =
      Reads-made decode_value_uint _ _ v _ (ap v_uint e) (Reads-value_uint v h)
  of_uint _ v is_uint64 h e =
      Reads-made decode_value_uint _ _ v _ (ap v_uint e) (Reads-value_uint v h)
  of_uint _ v is_uint32 h e =
      Reads-made decode_value_uint _ _ v _ (ap v_uint e) (Reads-value_uint v h)
  of_uint _ v is_uint16 h e =
      Reads-made decode_value_uint _ _ v _ (ap v_uint e) (Reads-value_uint v h)
  of_uint _ v is_uint8 h e =
      Reads-made decode_value_uint _ _ v _ (ap v_uint e) (Reads-value_uint v h)

  pub Reads-into_scalar :
      (kind : ScalarKind) (v : Scalar)
      → Holds c kind v
      → Reads c k (read_byte >>= into_scalar kind) (scalar_bytes v) v
  unfolding into_scalar
  Reads-into_scalar _ _ (holds_string s h) =
      Reads-made decode_value_string v_string _ s _ refl (Reads-value_string s h)
  Reads-into_scalar _ _ (holds_int kind v i h e) = of_int kind v i h e
  Reads-into_scalar _ _ (holds_uint kind v i h e) = of_uint kind v i h e
  Reads-into_scalar _ _ (holds_float64 v h) =
      Reads-made decode_value_float v_float64 _ v _ refl (Reads-value_float v h)
  Reads-into_scalar _ _ (holds_bool b) = Reads-made decode_bool v_bool _ b _ refl (Reads-bool b)

  -- Binary data, under its limit.
  pub Reads-value_bytes :
      (b : Bytes)
      → length b < 2 ^ 32
      → exceeds (length b) c.max_binary_len ≡ false
      → Reads c k (read_byte >>= decode_value_bytes) (binary_header (length b) ++ b) b
  unfolding binary_header decode_value_bytes validate_binary_len is_fixstr read_uint8
  Reads-value_bytes b h fits =
      Reads-if_append (leb (length b) 0xff) _ _ b
        (λ e. after 0xc4 _ read_byte refl (Reads-byte (length b)))
        λ _.
          Reads-if_append (leb (length b) 0xffff) _ _ b
            (λ e.
              after 0xc5 _ read_uint16 refl
                (Reads-uint16 (length b) (omega (arith, leb→le (length b) 0xffff e))))
            (λ _. after 0xc6 _ read_uint32 refl (Reads-uint32 (length b) h))
    where
      after :
          (f : ℕ) (word : Bytes) (m : M ℕ)
          → decode_value_bytes f ≡ (m >>= λ n. validate_binary_len n >> read_bytes n)
          → Reads c k m word (length b)
          → Reads c k (read_byte >>= decode_value_bytes) (f ∷ (word ++ b)) b
      after f word m e r =
          Reads-bind read_byte decode_value_bytes (f ∷ []) (word ++ b) f b (Reads-byte f) (
            rw e (
              Reads-bind m (λ n. validate_binary_len n >> read_bytes n) word b (length b) b r
                (Reads-check binary_too_long (λ c. c.max_binary_len) (length b) (length b) _ b b
                  fits (omega arith) (Reads-bytes (length b) b refl))))
