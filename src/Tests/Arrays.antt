-- ===== src/Tests/Arrays.antt =====
-- The round trips of the typed arrays at concrete inputs.
use msgpck.Base.{ℕ, ◌≡◌, refl, arith, Bytes, List, [], ◌∷◌, ◌++◌, length}
use msgpck.Base.Words.{ℤ, pos, negsuc}
use msgpck.Config.{default_config, exceeds}
use msgpck.Encoder.{new_encoder, encode_int64_array, encode_uint64_array, encode_string_array}
use msgpck.Decoder.{ok}
use msgpck.Decoder.Arrays.{decode_int64_array, decode_uint64_array, decode_string_array}
use msgpck.Decoder.Arrays.RoundTrip.{
  decode_int64_array-encode, decode_uint64_array-encode, decode_string_array-encode,
}

abbrev ints : List ℤ
ints = pos 5 ∷ negsuc 40000 ∷ pos 300 ∷ []

abbrev words : List ℕ
words = 127 ∷ 128 ∷ 0x1_0000_0000 ∷ []

abbrev strings : List Bytes
strings = (b'a' ∷ b'b' ∷ []) ∷ [] ∷ []

decode_int64_array-encode_example :
    decode_int64_array (record {
      input = (encode_int64_array ints (new_encoder 0)).buf ++ (1 ∷ []);
      pos = 0;
      cfg = default_config;
      depth = 0;
    })
    ≡ ok ints (record {
      input = (encode_int64_array ints (new_encoder 0)).buf ++ (1 ∷ []);
      pos = length (encode_int64_array ints (new_encoder 0)).buf;
      cfg = default_config;
      depth = 0;
    })
unfolding exceeds
decode_int64_array-encode_example =
    decode_int64_array-encode ints (new_encoder 0) (1 ∷ []) default_config 0 (omega arith) refl
      (omega arith)

decode_uint64_array-encode_example :
    decode_uint64_array (record {
      input = (encode_uint64_array words (new_encoder 0)).buf ++ (1 ∷ []);
      pos = 0;
      cfg = default_config;
      depth = 0;
    })
    ≡ ok words (record {
      input = (encode_uint64_array words (new_encoder 0)).buf ++ (1 ∷ []);
      pos = length (encode_uint64_array words (new_encoder 0)).buf;
      cfg = default_config;
      depth = 0;
    })
unfolding exceeds
decode_uint64_array-encode_example =
    decode_uint64_array-encode words (new_encoder 0) (1 ∷ []) default_config 0 (omega arith) refl
      (omega arith)

decode_string_array-encode_example :
    decode_string_array (record {
      input = (encode_string_array strings (new_encoder 0)).buf ++ (1 ∷ []);
      pos = 0;
      cfg = default_config;
      depth = 0;
    })
    ≡ ok strings (record {
      input = (encode_string_array strings (new_encoder 0)).buf ++ (1 ∷ []);
      pos = length (encode_string_array strings (new_encoder 0)).buf;
      cfg = default_config;
      depth = 0;
    })
unfolding exceeds
decode_string_array-encode_example =
    decode_string_array-encode strings (new_encoder 0) (1 ∷ []) default_config 0 (omega arith) refl
      (omega arith) (refl, (refl, tt))
