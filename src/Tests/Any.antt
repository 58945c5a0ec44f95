-- ===== src/Tests/Any.antt =====
-- Concrete runs of DecodeAny, of the typed readers and of the float conversions, and the theorems on
-- them at concrete inputs.
use msgpck.Base.{◌≤◌, ◌≡◌, ◌≢◌, refl, arith, Bytes, [], ◌∷◌, length}
use msgpck.Base.Words.{pos, negsuc, uint16_at}
use msgpck.Base.Floats.{
  log2_from, round_shift, float64_of_float32, float64_of_nat, float64_of_int, float32_of_float64,
}
use msgpck.Config.{default_config, exceeds}
use msgpck.Value.{Value, Kvs, map, bytes_equal}
use msgpck.Any.{
  Any, Entries, go_int64, go_uint64, go_slice, go_map, no_anys, item, no_entries, entry, put,
  lookup,
}
use msgpck.Any.Represents.{Represents}
use msgpck.Any.Lookup.{Finds}
use msgpck.Decoder.{
  Decoder, Outcome, ok, panic, stuck, new_decoder, new_decoder_with_config, read_byte, read_bytes,
  read_uint8, read_uint16, enter_container,
}
use msgpck.Decoder.Values.{decode}
use msgpck.Decoder.Any.{
  decode_any_uint_value, decode_string_any, any_inside, any_elems, decode_array_any, any_key,
  any_pairs, decode_map_any, any_format, decode_any_value_with, decode_any_value, decode_any,
}
use msgpck.Decoder.Any.Safety.{decode_any-decode, decode_any-Finds, decode_any_total}
use msgpck.Decoder.Typed.{typed_any}
use msgpck.Decoder.Typed.Agree.{typed_any-decode_any}
use msgpck.Decoder.Typed.Safety.{typed_any_total}
use msgpck.Format.{
  is_positive_fixint, is_negative_fixint, is_fixmap, is_fixarray, is_fixstr, fixmap_len,
  fixarray_len, fixstr_len,
}
use msgpck.Decoder.Limits.{validate_map_len, validate_array_len, validate_string_len, check_len}
use msgpck.Decoder.Lengths.{parse_string_len}
use msgpck.Decoder.Contract.{IsValid}
use msgpck.Decoder.Canonical.{Fits, canonical}
use msgpck.Decoder.Marshalled.{decode-marshal}
use msgpck.Encoder.{new_encoder, encode_value}
use msgpck.Encoder.Refines.{IsSized}
use msgpck.Encoder.Any.{encode_any, marshal}
use msgpck.Encoder.Any.Agree.{value_of, encode_any-encode_value}

-- {"a": [300], "a": 5}: the key stands twice.
abbrev twice_bytes : Bytes
twice_bytes = 0x82 ∷ 0xa1 ∷ b'a' ∷ 0x91 ∷ 0xcd ∷ 1 ∷ 44 ∷ 0xa1 ∷ b'a' ∷ 5 ∷ []

abbrev twice : Decoder
twice = new_decoder twice_bytes

abbrev after_twice : Decoder
after_twice = record { input = twice_bytes; pos = 10; cfg = default_config; depth = 0 }

abbrev twice_entries : Entries
twice_entries = entry (b'a' ∷ []) (go_int64 (pos 5)) no_entries

run_any : Decoder → Outcome Any
unfolding decode_any any_inside decode_any_value decode_any_value_with decode_map_any any_pairs
    any_key decode_array_any any_elems any_format decode_any_uint_value decode_string_any put
    bytes_equal read_byte read_bytes read_uint8 read_uint16 enter_container is_positive_fixint
    is_negative_fixint is_fixmap is_fixarray is_fixstr fixmap_len fixarray_len fixstr_len
    validate_map_len validate_array_len validate_string_len check_len exceeds parse_string_len
    uint16_at
run_any = decode_any

decode_any-twice : decode_any twice ≡ ok (go_map twice_entries) after_twice
unfolding run_any
decode_any-twice = refl

decode_any-decode_example :
    (v : Value) × (decode twice ≡ ok v after_twice) × Represents (go_map twice_entries) v
decode_any-decode_example =
    decode_any-decode twice (go_map twice_entries) after_twice decode_any-twice

twice-IsValid : IsValid twice
twice-IsValid = omega arith

decode_any_total_example : (decode_any twice ≢ panic) × (decode_any twice ≢ stuck)
decode_any_total_example = decode_any_total twice twice-IsValid

typed_any-decode_any_example :
    typed_any (record twice { depth = 3 })
    ≡ ok (go_map twice_entries) (record after_twice { depth = 3 })
typed_any-decode_any_example =
    typed_any-decode_any twice 3 (go_map twice_entries) after_twice decode_any-twice

typed_any_total_example :
    (typed_any twice ≢ panic)
    × (typed_any twice ≢ stuck)
    × ((a : Any) (d' : Decoder)
        → typed_any twice ≡ ok a d'
        → (d'.input ≡ twice_bytes)
          × (d'.cfg ≡ default_config)
          × (d'.depth ≡ 0)
          × (0 ≤ d'.pos)
          × (d'.pos ≤ 10))
typed_any_total_example = typed_any_total twice twice-IsValid

decode_any-Finds_example :
    (kvs : Kvs) × (decode twice ≡ ok (map kvs) after_twice)
    × ((key : Bytes) → Finds key kvs (lookup key twice_entries))
decode_any-Finds_example = decode_any-Finds twice twice_entries after_twice decode_any-twice

-- {"a": [-200, 300]}
abbrev made : Any
made = go_map (
    entry (b'a' ∷ []) (go_slice (item (go_int64 (negsuc 199)) (item (go_uint64 300) no_anys)))
      no_entries)

made-IsSized : IsSized (value_of made)
unfolding IsSized value_of
made-IsSized = omega arith

made-Fits : Fits default_config 0 (value_of made)
unfolding Fits exceeds value_of
made-Fits = (refl, refl, (refl, (refl, refl, (tt, (tt, tt))), tt))

decode-marshal_example :
    decode (new_decoder_with_config (marshal made) default_config)
    ≡ ok
        (canonical (value_of made))
        (record (new_decoder_with_config (marshal made) default_config) {
          pos = length (marshal made);
        })
decode-marshal_example = decode-marshal made default_config made-IsSized made-Fits

encode_any-encode_value_example :
    encode_any made (new_encoder 4) ≡ encode_value (value_of made) (new_encoder 4)
encode_any-encode_value_example = encode_any-encode_value made (new_encoder 4)

-- 1.5, 300, -2, 2^53 + 1 (a tie, to the even neighbour), the float32 next above 1, and the smallest
-- float32, which is subnormal.
widen_1_5 : float64_of_float32 0x3fc0_0000 ≡ 0x3ff8_0000_0000_0000
unfolding float64_of_float32
widen_1_5 = refl

of_300 : float64_of_nat 300 ≡ 0x4072_c000_0000_0000
unfolding float64_of_nat log2_from round_shift
of_300 = refl

of_minus_2 : float64_of_int (negsuc 1) ≡ 0xc000_0000_0000_0000
unfolding float64_of_int float64_of_nat log2_from round_shift
of_minus_2 = refl

of_tie : float64_of_nat 0x20_0000_0000_0001 ≡ 0x4340_0000_0000_0000
unfolding float64_of_nat log2_from round_shift
of_tie = refl

narrow_above_1 : float32_of_float64 0x3ff0_0000_3000_0000 ≡ 0x3f80_0002
unfolding float32_of_float64 round_shift
narrow_above_1 = refl

narrow_smallest : float32_of_float64 0x36a0_0000_0000_0000 ≡ 1
unfolding float32_of_float64 round_shift
narrow_smallest = refl

widen_smallest : float64_of_float32 1 ≡ 0x36a0_0000_0000_0000
unfolding float64_of_float32 log2_from
widen_smallest = refl
