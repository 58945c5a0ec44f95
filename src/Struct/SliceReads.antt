-- ===== src/Struct/SliceReads.antt =====
-- The readers of slices of strings and of integers, on what the encoder wrote for them.
use msgpck.Base.{
  ℕ, suc, ◌<◌, ◌^◌, ◌≡◌, refl, ap, false, Bytes, List, [], ◌∷◌, ◌++◌, map, length, All,
}
use msgpck.Base.Words.{ℤ}
use msgpck.Config.{Config, exceeds}
use msgpck.Encoder.Wire.{array_header, int_bytes, uint_bytes}
use msgpck.Encoder.Wire.Sizes.{length-int_bytes, length-uint_bytes}
use msgpck.Encoder.Arrays.{string_bytes, wire_all}
use msgpck.Decoder.{M, pure, ◌>>=◌, read_byte}
use msgpck.Decoder.Arrays.{decode_typed_array}
use msgpck.Decoder.Arrays.RoundTrip.{Reads-typed_array, string_some_byte}
use msgpck.Decoder.Integers.{decode_int, decode_uint}
use msgpck.Decoder.Integers.Encoded.{Reads-decode_int, Reads-decode_uint}
use msgpck.Decoder.Reads.{Reads}
use msgpck.Struct.Kinds.{
  ScalarKind, Scalar, k_string, k_int, k_int64, k_int32, k_int16, k_int8, k_uint, k_uint64,
  k_uint32, k_uint16, v_string, v_int, v_uint, Cell, slice,
}
use msgpck.Struct.Scalars.{decode_string, narrow_int, narrow_uint}
use msgpck.Struct.Slices.{
  decode_slice, decode_string_slice, decode_int64_slice, decode_int_slice, decode_int32_slice,
  decode_int16_slice, decode_int8_slice, decode_uint64_slice, decode_uint_slice,
  decode_uint32_slice, decode_uint16_slice,
}
use msgpck.Struct.Decode.{slice_field}
use msgpck.Struct.Reads.{
  Holds, holds_string, holds_int, holds_uint, IntKind, is_int, is_int64, is_int32, is_int16,
  is_int8, UintKind, is_uint, is_uint32, is_uint16, scalar_bytes, Reads-made, Reads-string_scalar,
}

-- A slice of uint8 is a byte slice and stands apart.
pub data UintSliceKind : ScalarKind → Type 0 where
  of_uint : UintSliceKind k_uint
  of_uint64 : UintSliceKind k_uint64
  of_uint32 : UintSliceKind k_uint32
  of_uint16 : UintSliceKind k_uint16

-- As many elements as the length prefix and the limit allow.
abbrev pub SliceFits : Config → ℕ → Type 0
SliceFits c n = (n < 2 ^ 32) × (exceeds n c.max_array_len ≡ false)

-- The encoded form of a slice.
abbrev pub slice_bytes : List Scalar → Bytes
slice_bytes vs = array_header (length vs) ++ wire_all scalar_bytes vs

module _ {A : Type 0} (inj : A → Scalar) where
  pub length-map_all : (xs : List A) → length (map inj xs) ≡ length xs
  length-map_all [] = refl
  length-map_all (x ∷ xs) = ap (λ (n : ℕ). suc n) (length-map_all xs)

  wire_all-map :
      (xs : List A) → wire_all scalar_bytes (map inj xs) ≡ wire_all (λ x. scalar_bytes (inj x)) xs
  wire_all-map [] = refl
  wire_all-map (x ∷ xs) = ap (λ bs. scalar_bytes (inj x) ++ bs) (wire_all-map xs)

  Reads-slice :
      {c : Config} {k : ℕ} (kind : ScalarKind) (elem : ℕ → M A)
      → ((x : A) → Holds c kind (inj x) → Reads c k (read_byte >>= elem) (scalar_bytes (inj x)) x)
      → ((x : A) → 0 < length (scalar_bytes (inj x)))
      → (xs : List A) → SliceFits c (length xs)
      → All (λ x. Holds c kind (inj x)) xs
      → Reads c k
          (read_byte >>= λ f. decode_slice elem f >>= λ xs. pure (slice (map inj xs)))
          (slice_bytes (map inj xs))
          (slice (map inj xs))
  unfolding decode_slice decode_typed_array
  Reads-slice {c = c} {k = k} kind elem h some_byte xs (n, fits) all =
      rw (length-map_all xs, wire_all-map xs)
        (Reads-made {c = c} {k = k} (decode_slice elem) (λ xs. slice (map inj xs)) _ xs _ refl
          (Reads-typed_array {c = c} {k = k} (λ x. Holds c kind (inj x)) (read_byte >>= elem)
            (λ x. scalar_bytes (inj x)) h some_byte xs n fits all))

module _ {c : Config} {k : ℕ} where
  narrowed_int :
      (kind : ScalarKind) (v : ℤ)
      → IntKind kind
      → Holds c kind (v_int v)
      → Reads c k
          (read_byte >>= λ f. decode_int f >>= λ v. pure (narrow_int kind v))
          (int_bytes v)
          v
  narrowed_int kind v i (holds_int _ _ _ h e) =
      Reads-made decode_int (narrow_int kind) _ v _ e (Reads-decode_int v h)

  narrowed_uint :
      (kind : ScalarKind) (v : ℕ)
      → UintKind kind
      → Holds c kind (v_uint v)
      → Reads c k
          (read_byte >>= λ f. decode_uint f >>= λ v. pure (narrow_uint kind v))
          (uint_bytes v)
          v
  narrowed_uint kind v i (holds_uint _ _ _ h e) =
      Reads-made decode_uint (narrow_uint kind) _ v _ e (Reads-decode_uint v h)

  pub Reads-int_slice :
      (kind : ScalarKind) (xs : List ℤ) (old : Cell)
      → IntKind kind
      → SliceFits c (length xs)
      → All (λ v. Holds c kind (v_int v)) xs
      → Reads c k
          (read_byte >>= slice_field kind old)
          (slice_bytes (map v_int xs))
          (slice (map v_int xs))
  unfolding slice_field decode_int_slice decode_int64_slice decode_int32_slice decode_int16_slice
      decode_int8_slice
  Reads-int_slice _ xs old is_int n all =
      Reads-slice v_int k_int _ (λ v. narrowed_int k_int v is_int) length-int_bytes xs n all
  Reads-int_slice _ xs old is_int32 n all =
      Reads-slice v_int k_int32 _ (λ v. narrowed_int k_int32 v is_int32) length-int_bytes xs n all
  Reads-int_slice _ xs old is_int16 n all =
      Reads-slice v_int k_int16 _ (λ v. narrowed_int k_int16 v is_int16) length-int_bytes xs n all
  Reads-int_slice _ xs old is_int8 n all =
      Reads-slice v_int k_int8 _ (λ v. narrowed_int k_int8 v is_int8) length-int_bytes xs n all
  Reads-int_slice _ xs old is_int64 n all =
      Reads-slice v_int k_int64 decode_int (λ v h. plain v h) length-int_bytes xs n all
    where
      plain :
          (v : ℤ) → Holds c k_int64 (v_int v) → Reads c k (read_byte >>= decode_int) (int_bytes v) v
      plain v (holds_int _ _ _ h e) = Reads-decode_int v h

  pub Reads-string_slice :
      (xs : List Bytes) (old : Cell)
      → SliceFits c (length xs)
      → All (λ s. Holds c k_string (v_string s)) xs
      → Reads c k
          (read_byte >>= slice_field k_string old)
          (slice_bytes (map v_string xs))
          (slice (map v_string xs))
  unfolding slice_field decode_string_slice
  Reads-string_slice xs old n all =
      Reads-slice v_string k_string decode_string (λ s h. plain s h) string_some_byte xs n all
    where
      plain :
          (s : Bytes)
          → Holds c k_string (v_string s)
          → Reads c k (read_byte >>= decode_string) (string_bytes s) s
      plain s (holds_string _ h) = Reads-string_scalar s h

  pub Reads-uint_slice :
      (kind : ScalarKind) (xs : List ℕ) (old : Cell)
      → UintSliceKind kind
      → SliceFits c (length xs)
      → All (λ v. Holds c kind (v_uint v)) xs
      → Reads c k
          (read_byte >>= slice_field kind old)
          (slice_bytes (map v_uint xs))
          (slice (map v_uint xs))
  unfolding slice_field decode_uint_slice decode_uint64_slice decode_uint32_slice
      decode_uint16_slice
  Reads-uint_slice _ xs old of_uint n all =
      Reads-slice v_uint k_uint _ (λ v. narrowed_uint k_uint v is_uint) length-uint_bytes xs n all
  Reads-uint_slice _ xs old of_uint32 n all =
      Reads-slice v_uint k_uint32 _ (λ v. narrowed_uint k_uint32 v is_uint32) length-uint_bytes xs n
        all
  Reads-uint_slice _ xs old of_uint16 n all =
      Reads-slice v_uint k_uint16 _ (λ v. narrowed_uint k_uint16 v is_uint16) length-uint_bytes xs n
        all
  Reads-uint_slice _ xs old of_uint64 n all =
      Reads-slice v_uint k_uint64 decode_uint (λ v h. plain v h) length-uint_bytes xs n all
    where
      plain :
          (v : ℕ)
          → Holds c k_uint64 (v_uint v)
          → Reads c k (read_byte >>= decode_uint) (uint_bytes v) v
      plain v (holds_uint _ _ _ h e) = Reads-decode_uint v h
