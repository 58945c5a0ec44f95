-- ===== src/Struct/Slices.antt =====
-- struct_decoder.go: the readers of typed slices, given the format byte.
use msgpck.Base.{ℕ, List, Bytes}
use msgpck.Base.Words.{ℤ}
use msgpck.Base.Floats.{float32_of_float64}
use msgpck.Decoder.{M, pure, ◌>>=◌, ◌>>◌, read_byte}
use msgpck.Decoder.Limits.{validate_array_len}
use msgpck.Decoder.Lengths.{parse_array_len}
use msgpck.Decoder.Arrays.{decode_list}
use msgpck.Decoder.Integers.{decode_int as read_int, decode_uint as read_uint}
use msgpck.Decoder.Floats.{decode_float as read_float}
use msgpck.Struct.Kinds.{k_int, k_int32, k_int16, k_int8, k_uint, k_uint32, k_uint16}
use msgpck.Struct.Scalars.{decode_string, narrow_int, narrow_uint}

-- What the readers share: the announced length, its check, and the loop over the elements, each with
-- its format byte.
unfoldable pub decode_slice {ℓ} : {A : Type ℓ} → (ℕ → M A) → ℕ → M (List A)
decode_slice elem format = do
  arr_len ← parse_array_len format
  validate_array_len arr_len
  decode_list (do f ← read_byte; elem f) arr_len

unfoldable pub decode_string_slice : ℕ → M (List Bytes)
decode_string_slice = decode_slice decode_string

unfoldable pub decode_int64_slice : ℕ → M (List ℤ)
decode_int64_slice = decode_slice read_int

unfoldable pub decode_int_slice : ℕ → M (List ℤ)
decode_int_slice = decode_slice (λ f. do v ← read_int f; pure (narrow_int k_int v))

unfoldable pub decode_int32_slice : ℕ → M (List ℤ)
decode_int32_slice = decode_slice (λ f. do v ← read_int f; pure (narrow_int k_int32 v))

unfoldable pub decode_int16_slice : ℕ → M (List ℤ)
decode_int16_slice = decode_slice (λ f. do v ← read_int f; pure (narrow_int k_int16 v))

unfoldable pub decode_int8_slice : ℕ → M (List ℤ)
decode_int8_slice = decode_slice (λ f. do v ← read_int f; pure (narrow_int k_int8 v))

unfoldable pub decode_uint64_slice : ℕ → M (List ℕ)
decode_uint64_slice = decode_slice read_uint

unfoldable pub decode_uint_slice : ℕ → M (List ℕ)
decode_uint_slice = decode_slice (λ f. do v ← read_uint f; pure (narrow_uint k_uint v))

unfoldable pub decode_uint32_slice : ℕ → M (List ℕ)
decode_uint32_slice = decode_slice (λ f. do v ← read_uint f; pure (narrow_uint k_uint32 v))

unfoldable pub decode_uint16_slice : ℕ → M (List ℕ)
decode_uint16_slice = decode_slice (λ f. do v ← read_uint f; pure (narrow_uint k_uint16 v))

unfoldable pub decode_float64_slice : ℕ → M (List ℕ)
decode_float64_slice = decode_slice read_float

unfoldable pub decode_float32_slice : ℕ → M (List ℕ)
decode_float32_slice = decode_slice (λ f. do v ← read_float f; pure (float32_of_float64 v))
