-- ===== src/Decoder/Arrays.antt =====
-- decoder.go: the typed arrays.
pub mod RoundTrip
use msgpck.Base.{ℕ, zero, suc, List, [], ◌∷◌, Bytes}
use msgpck.Base.Words.{ℤ}
use msgpck.Decoder.{M, pure, ◌>>=◌, ◌>>◌, read_byte}
use msgpck.Decoder.Limits.{validate_array_len}
use msgpck.Decoder.Lengths.{parse_array_len, read_string_bytes}
use msgpck.Decoder.Integers.{decode_int, decode_uint}
use msgpck.Decoder.Floats.{decode_float}

module _ {ℓ} {A : Type ℓ} (decode_elem : M A) where
  -- The loop over the elements.
  unfoldable pub decode_list : ℕ → M (List A)
  decode_list zero = pure []
  decode_list (suc n) = do x ← decode_elem; xs ← decode_list n; pure (x ∷ xs)

  -- What the functions share: the header, its check, and the loop.
  unfoldable pub decode_typed_array : M (List A)
  decode_typed_array = do
    format ← read_byte
    arr_len ← parse_array_len format
    validate_array_len arr_len
    decode_list arr_len

unfoldable pub decode_int64_array : M (List ℤ)
decode_int64_array = decode_typed_array (do format ← read_byte; decode_int format)

unfoldable pub decode_uint64_array : M (List ℕ)
decode_uint64_array = decode_typed_array (do format ← read_byte; decode_uint format)

unfoldable pub decode_string_array : M (List Bytes)
decode_string_array = decode_typed_array read_string_bytes

unfoldable pub decode_float64_array : M (List ℕ)
decode_float64_array = decode_typed_array (do format ← read_byte; decode_float format)
