-- ===== src/Decoder/Arrays/RoundTrip.antt =====
-- The decoders of typed arrays on what their encoders wrote.
use msgpck.Base.{
  ℕ, ◌+◌, ◌<◌, ◌^◌, ◌≡◌, false, Bytes, List, [], ◌∷◌, ◌++◌, arith, length, All, leb, leb→le,
  length-append,
}
use msgpck.Base.Words.{ℤ, IsInt64}
use msgpck.Config.{Config, exceeds}
use msgpck.Errors.{array_too_long}
use msgpck.Format.{is_fixarray}
use msgpck.Format.Ranges.{is_fixarray-range, fixarray_len-mod}
use msgpck.Encoder.{Encoder, encode_int64_array, encode_uint64_array, encode_string_array}
use msgpck.Encoder.Arrays.{
  string_bytes, wire_all, length-wire_all, buf-encode_int64_array, buf-encode_uint64_array,
  buf-encode_string_array,
}
use msgpck.Encoder.Wire.{array_header, int_bytes, uint_bytes, string_header}
use msgpck.Encoder.Wire.Sizes.{length-int_bytes, length-uint_bytes, length-string_header}
use msgpck.Decoder.{M, ok, pure, ◌>>=◌, ◌>>◌, read_byte, read_bytes, read_uint16, read_uint32}
use msgpck.Decoder.Limits.{validate_array_len, validate_string_len}
use msgpck.Decoder.Lengths.{parse_array_len, read_string_bytes}
use msgpck.Decoder.Integers.{decode_int, decode_uint}
use msgpck.Decoder.Integers.Encoded.{Reads-decode_int, Reads-decode_uint}
use msgpck.Decoder.Arrays.{
  decode_list, decode_typed_array, decode_int64_array, decode_uint64_array, decode_string_array,
}
use msgpck.Decoder.Scalars.{Reads-map}
use msgpck.Decoder.Scalars.Texts.{Reads-returned}
use msgpck.Decoder.Containers.{Reads-string_len, Reads-string_body}
use msgpck.Decoder.Reads.{
  Reads, Reads-pure, Reads-bind, Reads-check, Reads-if_append, Reads-byte, Reads-uint16,
  Reads-uint32,
}
use msgpck.Decoder.Written.{Reads-appended}

parse_fixarray : (n : ℕ) → n < 16 → parse_array_len (0x90 + n) ≡ pure n
unfolding parse_array_len
parse_fixarray n h = ground (arith, is_fixarray-range (0x90 + n), fixarray_len-mod (0x90 + n))

-- An array's header, read by parseArrayLen, before any continuation.
pub Reads-array_len {ℓ} :
    {A : Type ℓ} {c : Config} {k : ℕ} (n : ℕ) (g : ℕ → M A) (xs : Bytes) (a : A)
    → n < 2 ^ 32
    → Reads c k (g n) xs a
    → Reads c k (read_byte >>= λ f. parse_array_len f >>= g) (array_header n ++ xs) a
unfolding array_header
Reads-array_len {c = c} {k = k} n g xs a h r =
    Reads-if_append (leb n 15) _ _ xs
      (λ e.
        with_byte (0x90 + n) []
          (rw (parse_fixarray n (omega (arith, leb→le n 15 e))) (Reads-pure n)))
      λ _.
        Reads-if_append (leb n 0xffff) _ _ xs
          (λ e. with_byte 0xdc _ (long16 (Reads-uint16 n (omega (arith, leb→le n 0xffff e)))))
          (λ _. with_byte 0xdd _ (long32 (Reads-uint32 n h)))
  where
    with_byte :
        (f : ℕ) (word : Bytes)
        → Reads c k (parse_array_len f) word n
        → Reads c k (read_byte >>= λ f. parse_array_len f >>= g) (f ∷ (word ++ xs)) a
    with_byte f word w =
        Reads-bind read_byte (λ f. parse_array_len f >>= g) (f ∷ []) (word ++ xs) f a (Reads-byte f)
          (Reads-bind (parse_array_len f) g word xs n a w r)

    long16 : {word : Bytes} → Reads c k read_uint16 word n → Reads c k (parse_array_len 0xdc) word n
    long16 w = unfold parse_array_len is_fixarray in Reads-returned read_uint16 w

    long32 : {word : Bytes} → Reads c k read_uint32 word n → Reads c k (parse_array_len 0xdd) word n
    long32 w = unfold parse_array_len is_fixarray in Reads-returned read_uint32 w

module _ {ℓ κ} {A : Type ℓ} {c : Config} {k : ℕ} (P : A → Type κ) (m : M A) (w : A → Bytes) where
  Reads-list :
      ((x : A) → P x → Reads c k m (w x) x)
      → (xs : List A) → All P xs
      → Reads c k (decode_list m (length xs)) (wire_all w xs) xs
  unfolding decode_list
  Reads-list h [] all = Reads-pure []
  Reads-list h (x ∷ xs) (p, all) =
      Reads-bind m (λ x. decode_list m (length xs) >>= λ xs. pure (x ∷ xs)) (w x) (wire_all w xs) x
        (x ∷ xs) (h x p)
        (Reads-map (decode_list m (length xs)) (λ xs. x ∷ xs) (wire_all w xs) xs
          (Reads-list h xs all))

  pub Reads-typed_array :
      ((x : A) → P x → Reads c k m (w x) x)
      → ((x : A) → 0 < length (w x))
      → (xs : List A) → length xs < 2 ^ 32
      → exceeds (length xs) c.max_array_len ≡ false
      → All P xs
      → Reads c k (decode_typed_array m) (array_header (length xs) ++ wire_all w xs) xs
  unfolding decode_typed_array validate_array_len
  Reads-typed_array h some_byte xs n fits all =
      Reads-array_len (length xs) (λ n. validate_array_len n >> decode_list m n) (wire_all w xs) xs
        n
        (Reads-check array_too_long (λ c. c.max_array_len) (length xs) (length xs) _ _ xs fits
          (length-wire_all w xs some_byte) (Reads-list h xs all))

-- A string, under its two limits.
abbrev pub StringFits : Config → Bytes → Type 0
StringFits c s = (length s < 2 ^ 32) × (exceeds (length s) c.max_string_len ≡ false)

pub Reads-read_string :
    {c : Config} {k : ℕ} (s : Bytes)
    → StringFits c s
    → Reads c k read_string_bytes (string_bytes s) s
unfolding read_string_bytes
Reads-read_string s (h, fits) =
    Reads-string_len (length s) (λ f m. m >>= λ n. validate_string_len n >> read_bytes n) s s h
      (λ f m word r. Reads-bind m _ word s (length s) s r (Reads-string_body s fits))

-- DecodeInt64Array reads back what EncodeInt64Array appended to any buffer, whatever follows it: for
-- int64 elements, as many as the length prefix and the limit on arrays allow.
pub decode_int64_array-encode :
    (xs : List ℤ) (e : Encoder) (rest : Bytes) (c : Config) (k : ℕ)
    → length xs < 2 ^ 32
    → exceeds (length xs) c.max_array_len ≡ false
    → All IsInt64 xs
    → decode_int64_array (record {
      input = (encode_int64_array xs e).buf ++ rest;
      pos = length e.buf;
      cfg = c;
      depth = k;
    })
      ≡ ok xs (record {
        input = (encode_int64_array xs e).buf ++ rest;
        pos = length (encode_int64_array xs e).buf;
        cfg = c;
        depth = k;
      })
unfolding decode_int64_array
decode_int64_array-encode xs e rest c k n fits all =
    Reads-appended decode_int64_array _ xs e.buf _ rest
      (Reads-typed_array IsInt64 (read_byte >>= decode_int) int_bytes Reads-decode_int
        length-int_bytes xs n fits all)
      (buf-encode_int64_array xs e n all)

-- DecodeUint64Array reads back what EncodeUint64Array appended to any buffer, whatever follows it: for
-- uint64 elements, as many as the length prefix and the limit on arrays allow.
pub decode_uint64_array-encode :
    (xs : List ℕ) (e : Encoder) (rest : Bytes) (c : Config) (k : ℕ)
    → length xs < 2 ^ 32
    → exceeds (length xs) c.max_array_len ≡ false
    → All (λ v. v < 2 ^ 64) xs
    → decode_uint64_array (record {
      input = (encode_uint64_array xs e).buf ++ rest;
      pos = length e.buf;
      cfg = c;
      depth = k;
    })
      ≡ ok xs (record {
        input = (encode_uint64_array xs e).buf ++ rest;
        pos = length (encode_uint64_array xs e).buf;
        cfg = c;
        depth = k;
      })
unfolding decode_uint64_array
decode_uint64_array-encode xs e rest c k n fits all =
    Reads-appended decode_uint64_array _ xs e.buf _ rest
      (Reads-typed_array (λ v. v < 2 ^ 64) (read_byte >>= decode_uint) uint_bytes Reads-decode_uint
        length-uint_bytes xs n fits all)
      (buf-encode_uint64_array xs e n all)

pub string_some_byte : (s : Bytes) → 0 < length (string_bytes s)
string_some_byte s =
    omega (arith, length-string_header (length s), length-append (string_header (length s)) s)

-- DecodeStringArray reads back what EncodeStringArray appended to any buffer, whatever follows it: for
-- strings and a number of strings that the length prefixes and the limits allow.
pub decode_string_array-encode :
    (xs : List Bytes) (e : Encoder) (rest : Bytes) (c : Config) (k : ℕ)
    → length xs < 2 ^ 32
    → exceeds (length xs) c.max_array_len ≡ false
    → All (λ s. length s < 2 ^ 32) xs
    → All (λ s. exceeds (length s) c.max_string_len ≡ false) xs
    → decode_string_array (record {
      input = (encode_string_array xs e).buf ++ rest;
      pos = length e.buf;
      cfg = c;
      depth = k;
    })
      ≡ ok xs (record {
        input = (encode_string_array xs e).buf ++ rest;
        pos = length (encode_string_array xs e).buf;
        cfg = c;
        depth = k;
      })
unfolding decode_string_array
decode_string_array-encode xs e rest c k n fits all within =
    Reads-appended decode_string_array _ xs e.buf _ rest
      (Reads-typed_array (StringFits c) read_string_bytes string_bytes Reads-read_string
        string_some_byte xs n fits (both xs all within))
      (buf-encode_string_array xs e n all)
  where
    both :
        (xs : List Bytes)
        → All (λ s. length s < 2 ^ 32) xs
        → All (λ s. exceeds (length s) c.max_string_len ≡ false) xs
        → All (StringFits c) xs
    both [] a b = tt
    both (x ∷ xs) (a, as') (b, bs) = ((a, b), both xs as' bs)
