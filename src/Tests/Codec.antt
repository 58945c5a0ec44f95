-- ===== src/Tests/Codec.antt =====
-- Concrete runs of the encoder and the decoder, and the theorems on them at concrete inputs.
use msgpck.Base.{ℕ, ◌+◌, ◌≤◌, ◌≡◌, ◌≢◌, ◌⊎◌, ◌↔◌, true, refl, arith, Bytes, [], ◌∷◌, ◌++◌, length}
use msgpck.Base.Words.{pos, negsuc, to_uint64, be16, uint16_at, to_int16}
use msgpck.Config.{default_config, exceeds, with_max_depth}
use msgpck.Errors.{max_depth_exceeded}
use msgpck.Value.{Value, nil, int, uint, array, map, no_values, elem, no_kvs, kv, bytes_equal}
use msgpck.Value.Size.{size}
use msgpck.Value.Lookup.{bytes_equal_iff}
use msgpck.Encoder.{
  Encoder, new_encoder, encode_value, encode_nil, write_byte, encode_string_bytes, write_bytes,
  encode_string_len, encode_int, write_uint16, encode_uint, encode_array_header, encode_map_header,
}
use msgpck.Encoder.Refines.{IsSized, buf-encode_value}
use msgpck.Encoder.Wire.{wire}
use msgpck.Decoder.{
  Outcome, Decoder, ok, err, panic, stuck, new_decoder, read_byte, read_bytes, read_uint8,
  read_uint16, read_int16, enter_container,
}
use msgpck.Decoder.Values.{
  decode, decode_inside, decode_value, decode_value_with, decode_map, decode_pairs, decode_map_key,
  decode_array, decode_elems, decode_format, decode_containers, decode_uint_to_value,
  decode_int_to_value, decode_string,
}
use msgpck.Format.{
  is_positive_fixint, is_negative_fixint, is_fixmap, is_fixarray, is_fixstr, fixmap_len,
  fixarray_len, fixstr_len,
}
use msgpck.Decoder.Limits.{validate_map_len, validate_array_len, validate_string_len, check_len}
use msgpck.Decoder.Lengths.{parse_string_len}
use msgpck.Decoder.Canonical.{Fits, canonical}
use msgpck.Decoder.RoundTrip.{decode-encode_value}
use msgpck.Decoder.Contract.{IsValid}
use msgpck.Decoder.Safety.{
  decode_total, decode-size, decode-err, decode-Fits, decode-encode_value-decode,
}

-- {"a": [300, 5, -200], "b": nil}, the 5 as an Int.
abbrev sample : Value
sample = map (
    kv (b'a' ∷ [])
      (array (elem (uint 300) (elem (int (pos 5)) (elem (int (negsuc 199)) no_values))))
      (kv (b'b' ∷ []) nil no_kvs))

abbrev sample_bytes : Bytes
sample_bytes =
    0x82 ∷ 0xa1 ∷ b'a' ∷ 0x93 ∷ 0xcd ∷ 1 ∷ 44 ∷ 5 ∷ 0xd1 ∷ 0xff ∷ 0x38 ∷ 0xa1 ∷ b'b' ∷ 0xc0 ∷ []

abbrev decoded : Value
decoded = map (
    kv (b'a' ∷ []) (array (elem (uint 300) (elem (uint 5) (elem (int (negsuc 199)) no_values))))
      (kv (b'b' ∷ []) nil no_kvs))

-- A decoder whose limit on the depth is 1, on an array in an array.
abbrev shallow : Decoder
shallow = record {
  input = 0x91 ∷ 0x91 ∷ 0x00 ∷ [];
  pos = 0;
  cfg = with_max_depth default_config (pos 1);
  depth = 0;
}

abbrev after_sample : Decoder
after_sample = record { input = sample_bytes; pos = 14; cfg = default_config; depth = 0 }

-- EncodeValue and Decode with all that they call opened.
run_encode : Value → Encoder → Encoder
unfolding encode_value encode_nil write_byte encode_string_bytes write_bytes encode_string_len
    encode_int write_uint16 encode_uint to_uint64 encode_array_header encode_map_header be16
run_encode = encode_value

run_decode : Decoder → Outcome Value
unfolding decode decode_inside decode_value decode_value_with decode_map decode_pairs decode_map_key
    decode_array decode_elems decode_format decode_containers decode_uint_to_value
    decode_int_to_value decode_string read_byte read_bytes read_uint8 read_uint16 read_int16
    enter_container is_positive_fixint is_negative_fixint is_fixmap is_fixarray is_fixstr fixmap_len
    fixarray_len fixstr_len validate_map_len validate_array_len validate_string_len check_len
    exceeds parse_string_len uint16_at to_int16
run_decode = decode

encode_sample : (encode_value sample (new_encoder 4)).buf ≡ sample_bytes
unfolding run_encode
encode_sample = refl

decode_sample : decode (new_decoder sample_bytes) ≡ ok decoded after_sample
unfolding run_decode
decode_sample = refl

decode-shallow : decode shallow ≡ err max_depth_exceeded (record shallow { pos = 2; depth = 1 })
unfolding run_decode
decode-shallow = refl

sample-IsValid : IsValid (new_decoder sample_bytes)
sample-IsValid = omega arith

sample-IsSized : IsSized sample
unfolding IsSized
sample-IsSized = omega arith

sample-Fits : Fits default_config 0 sample
unfolding Fits exceeds
sample-Fits = (refl, refl, (refl, (refl, refl, (tt, (tt, (tt, tt)))), (refl, tt, tt)))

decode-encode_value_example :
    decode (record {
      input = (encode_value sample (new_encoder 4)).buf ++ (7 ∷ []);
      pos = 0;
      cfg = default_config;
      depth = 0;
    })
    ≡ ok (canonical sample) (record {
      input = (encode_value sample (new_encoder 4)).buf ++ (7 ∷ []);
      pos = length (encode_value sample (new_encoder 4)).buf;
      cfg = default_config;
      depth = 0;
    })
decode-encode_value_example =
    decode-encode_value sample (new_encoder 4) (7 ∷ []) default_config 0 sample-IsSized sample-Fits

buf-encode_value_example : (encode_value sample (new_encoder 4)).buf ≡ wire sample
buf-encode_value_example = buf-encode_value sample (new_encoder 4) sample-IsSized

decode_total_example :
    (decode (new_decoder sample_bytes) ≢ panic) × (decode (new_decoder sample_bytes) ≢ stuck)
decode_total_example = decode_total (new_decoder sample_bytes) sample-IsValid

decode-size_example :
    (after_sample.input ≡ sample_bytes)
    × (after_sample.cfg ≡ default_config)
    × (after_sample.depth ≡ 0)
    × (0 + size decoded ≤ 14)
    × (14 ≤ 14)
decode-size_example =
    decode-size (new_decoder sample_bytes) decoded after_sample sample-IsValid decode_sample

shallow-IsValid : IsValid shallow
shallow-IsValid = omega arith

decode-err_example :
    (shallow.input ≡ shallow.input)
    × (shallow.cfg ≡ shallow.cfg)
    × (0 ≤ 2)
    × (2 ≤ 3)
    × ((◌≡◌ {A = ℕ} 1 0) ⊎ ((max_depth_exceeded ≡ max_depth_exceeded) × (◌≡◌ {A = ℕ} 1 (0 + 1))))
decode-err_example =
    decode-err shallow max_depth_exceeded (record shallow { pos = 2; depth = 1 }) shallow-IsValid
      decode-shallow

decode-Fits_example : Fits default_config 0 decoded
unfolding exceeds
decode-Fits_example =
    decode-Fits (new_decoder sample_bytes) decoded after_sample sample-IsValid refl decode_sample

decode-encode_value-decode_example :
    decode (record {
      input = (encode_value decoded (new_encoder 0)).buf ++ [];
      pos = 0;
      cfg = default_config;
      depth = 0;
    })
    ≡ ok (canonical decoded) (record {
      input = (encode_value decoded (new_encoder 0)).buf ++ [];
      pos = length (encode_value decoded (new_encoder 0)).buf;
      cfg = default_config;
      depth = 0;
    })
unfolding exceeds
decode-encode_value-decode_example =
    decode-encode_value-decode (new_decoder sample_bytes) decoded after_sample (new_encoder 0) []
      sample-IsValid refl decode_sample

bytes_equal_iff_example :
    (bytes_equal (b'a' ∷ []) (b'b' ∷ []) ≡ true) ↔ (◌≡◌ {A = Bytes} (b'a' ∷ []) (b'b' ∷ []))
bytes_equal_iff_example = bytes_equal_iff (b'a' ∷ []) (b'b' ∷ [])
