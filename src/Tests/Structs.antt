-- ===== src/Tests/Structs.antt =====
-- Concrete runs of the struct decoder, and the theorems on it at concrete inputs.
use msgpck.Base.{◌≤◌, ◌≡◌, ◌≢◌, refl, true, false, arith, Bytes, List, [], ◌∷◌, All}
use msgpck.Base.Words.{pos, negsuc}
use msgpck.Config.{default_config, exceeds}
use msgpck.Value.{bytes_equal}
use msgpck.Decoder.{
  Decoder, Outcome, ok, panic, stuck, new_decoder, read_byte, read_bytes, read_uint8,
}
use msgpck.Decoder.Values.{decode, decode_inside, decode_value, decode_value_with}
use msgpck.Format.{
  is_positive_fixint, is_negative_fixint, is_fixmap, is_fixarray, is_fixstr, fixmap_len,
  fixarray_len, fixstr_len,
}
use msgpck.Decoder.Limits.{validate_map_len, validate_array_len, validate_string_len, check_len}
use msgpck.Decoder.Lengths.{parse_string_len, parse_array_len, parse_map_len, read_string_bytes}
use msgpck.Decoder.Arrays.{decode_list}
use msgpck.Decoder.Contract.{IsByte}
use msgpck.Struct.Kinds.{
  k_int, k_int32, k_bool, k_string, Fields, no_fields, field, f_scalar, f_slice, f_pointer,
  f_struct, Cells, unset, scalar, slice, pointer, nested, no_cells, cell, v_int, v_bool, v_string,
}
use msgpck.Struct.Scalars.{decode_int, string_len, decode_string, narrow_int, decode_scalar}
use msgpck.Struct.Slices.{decode_slice, decode_string_slice}
use msgpck.Struct.Decode.{
  slice_field, each_key, skip_unknown, has_field, nested_scalar, nested_struct, nested_value,
  decode_nested_struct, field_value, decode_field, set_field, into_len, decode_into, decode_with,
}
use msgpck.Struct.Tags.{
  StructMember, omitempty_option, cut, parse_struct_tag_name, pre_encode_string, new_struct_decoder,
  new_struct_encoder,
}
use msgpck.Struct.Names.{
  IsPlain, decoder_keys, encoder_keys, struct_keys_agree, encode_string-pre_encode_string,
}
use msgpck.Encoder.{Encoder, new_encoder, encode_string}
use msgpck.Struct.Safety.{decode_with_total}
use msgpck.Struct.Writes.{Wrote, set_field-writes}

-- {"in": {"ok": true}, "x": 1, "tags": ["a"], "p": 7}
abbrev message : Bytes
message =
    0x84 ∷ 0xa2 ∷ b'i' ∷ b'n' ∷ 0x81 ∷ 0xa2 ∷ b'o' ∷ b'k' ∷ 0xc3 ∷ 0xa1 ∷ b'x' ∷ 1 ∷ 0xa4 ∷ b't'
    ∷ b'a' ∷ b'g' ∷ b's' ∷ 0x91 ∷ 0xa1 ∷ b'a' ∷ 0xa1 ∷ b'p' ∷ 7 ∷ []

abbrev fields : Fields
fields = field (b'i' ∷ b'd' ∷ []) (f_scalar k_int) (
    field (b'i' ∷ b'n' ∷ []) (f_struct (field (b'o' ∷ b'k' ∷ []) (f_scalar k_bool) no_fields)) (
      field (b't' ∷ b'a' ∷ b'g' ∷ b's' ∷ []) (f_slice k_string)
        (field (b'p' ∷ []) (f_pointer k_int) no_fields)))

-- The struct before and after. The message has no "id".
abbrev before : Cells
before =
    cell (scalar (v_int (pos 3)))
      (cell (nested (cell (scalar (v_bool false)) no_cells)) (cell unset (cell unset no_cells)))

abbrev after : Cells
after = cell (scalar (v_int (pos 3))) (
    cell (nested (cell (scalar (v_bool true)) no_cells))
      (cell (slice (v_string (b'a' ∷ []) ∷ [])) (cell (pointer (v_int (pos 7))) no_cells)))

abbrev at_end : Decoder
at_end = record { input = message; pos = 23; cfg = default_config; depth = 0 }

run_with : Fields → Decoder → Bytes → Cells → Outcome Cells
unfolding decode_with decode_into into_len each_key set_field skip_unknown decode_field field_value
    slice_field decode_nested_struct nested_struct nested_value nested_scalar has_field
    decode_scalar decode_int narrow_int decode_string string_len decode_slice decode_string_slice
    decode_list decode decode_inside decode_value decode_value_with bytes_equal read_string_bytes
    read_byte read_bytes read_uint8 is_positive_fixint is_negative_fixint is_fixmap is_fixarray
    is_fixstr fixmap_len fixarray_len fixstr_len validate_map_len validate_array_len
    validate_string_len check_len exceeds parse_string_len parse_array_len parse_map_len
run_with = decode_with

decode_message : decode_with fields (new_decoder []) message before ≡ ok after at_end
unfolding run_with
decode_message = refl

message-bytes : All IsByte message
message-bytes = omega arith

decode_with_total_example :
    (decode_with fields (new_decoder []) message before ≢ panic)
    × (decode_with fields (new_decoder []) message before ≢ stuck)
    × ((cells : Cells) (d : Decoder)
        → decode_with fields (new_decoder []) message before ≡ ok cells d
        → (d.input ≡ message) × (d.cfg ≡ default_config) × (d.depth ≡ 0) × (d.pos ≤ 23))
decode_with_total_example = decode_with_total fields (new_decoder []) message before message-bytes

-- Where the value of "p" stands.
abbrev at_p : Decoder
at_p = record { input = message; pos = 22; cfg = default_config; depth = 0 }

abbrev wrote_p : Cells
wrote_p = cell (scalar (v_int (pos 3))) (
    cell (nested (cell (scalar (v_bool false)) no_cells))
      (cell unset (cell (pointer (v_int (pos 7))) no_cells)))

set_p : set_field fields (b'p' ∷ []) before at_p ≡ ok wrote_p at_end
unfolding run_with
set_p = refl

set_field-writes_example : Wrote fields (b'p' ∷ []) before at_p wrote_p at_end 3
set_field-writes_example = set_field-writes fields (b'p' ∷ []) before at_p wrote_p at_end set_p 3

-- An exported field with a tag, and one without.
abbrev members : List StructMember
members =
    record {
      exported = true;
      tag = b'i' ∷ b'd' ∷ b',' ∷ omitempty_option;
      name = b'I' ∷ b'D' ∷ [];
      kind = f_scalar k_int;
    }
    ∷ record { exported = true; tag = []; name = b'O' ∷ b'k' ∷ []; kind = f_scalar k_bool }
    ∷ []

members-IsPlain : All IsPlain members
unfolding cut
members-IsPlain = (
  record { named = λ h e. cc; undashed = λ e. cc; identifier = λ e. cc },
  (record { named = λ h e. h refl; undashed = λ e. cc; identifier = λ e. cc }, tt),
)

-- Both take the two fields, as "id" and "Ok".
decoder_members :
    new_struct_decoder members
    ≡ field
        (b'i' ∷ b'd' ∷ [])
        (f_scalar k_int)
        (field (b'O' ∷ b'k' ∷ []) (f_scalar k_bool) no_fields)
unfolding new_struct_decoder parse_struct_tag_name cut bytes_equal
decoder_members = refl

struct_keys_agree_example :
    encoder_keys (new_struct_encoder members) ≡ decoder_keys (new_struct_decoder members)
struct_keys_agree_example = struct_keys_agree members members-IsPlain

encode_string-pre_encode_string_example :
    (encode_string (b'i' ∷ b'd' ∷ []) (new_encoder 4)).buf ≡ pre_encode_string (b'i' ∷ b'd' ∷ [])
encode_string-pre_encode_string_example =
    encode_string-pre_encode_string (b'i' ∷ b'd' ∷ []) (new_encoder 4) (omega arith)

-- Three fields without options, and a struct with them.
abbrev plain : List StructMember
plain =
    record {
      exported = true;
      tag = b'i' ∷ b'd' ∷ [];
      name = b'I' ∷ b'D' ∷ [];
      kind = f_scalar k_int32;
    }
    ∷ record { exported = true; tag = []; name = b'O' ∷ b'k' ∷ []; kind = f_pointer k_bool }
    ∷ record { exported = true; tag = []; name = b'T' ∷ b's' ∷ []; kind = f_slice k_string }
    ∷ []

abbrev held : Cells
held =
    cell (scalar (v_int (negsuc 299)))
      (cell (pointer (v_bool true)) (cell (slice (v_string (b'a' ∷ []) ∷ [])) no_cells))

abbrev empty : Cells
empty = cell (scalar (v_int (pos 0))) (cell unset (cell unset no_cells))
