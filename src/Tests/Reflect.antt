-- ===== src/Tests/Reflect.antt =====
-- Concrete runs of what works by reflection, and the theorems on it at concrete inputs.
use msgpck.Reflect.Names.{same_unset, encode_field_of, field_info-parse_field_tag}
use msgpck.Base.{◌≡◌, refl, true, false, arith, Bytes, [], ◌∷◌, some, length, All}
use msgpck.Base.Words.{pos, to_uint64}
use msgpck.Config.{default_config, exceeds}
use msgpck.Errors.{unexpected_eof}
use msgpck.Value.{Value, Kvs, int, string, map, no_kvs, kv, bytes_equal}
use msgpck.Encoder.{
  new_encoder, encode_value as write_value, encode_map_header, encode_string_bytes,
  encode_string_len, write_bytes, write_byte, grow, encode_string, encode_int, encode_uint,
}
use msgpck.Encoder.Refines.{IsSized}
use msgpck.Decoder.{
  ok, err, new_decoder, new_decoder_with_config, read_byte, read_bytes, enter_container,
}
use msgpck.Decoder.Values.{decode}
use msgpck.Decoder.Canonical.{Fits, canonical}
use msgpck.Decoder.Contract.{IsByte, IsValid}
use msgpck.Decoder.Limits.{validate_map_len, validate_string_len, check_len}
use msgpck.Decoder.Lengths.{
  parse_string_len, parse_map_len, decode_string_key_with_format, decode_value_string,
}
use msgpck.Decoder.Integers.{decode_value_int}
use msgpck.Format.{
  is_positive_fixint, is_negative_fixint, is_fixmap, is_fixstr, fixmap_len, fixstr_len,
}
use msgpck.Struct.Kinds.{k_int, k_bool, k_string, v_int, v_string, f_slice, unset}
use msgpck.Struct.Scalars.{narrow_int}
use msgpck.Struct.Tags.{cut, dash, omitempty_option, contains, parse_field_tag}
use msgpck.Reflect.Types.{
  Members, t_scalar, t_slice, t_struct, t_pointer, t_time, t_other, no_members, member, GoValue,
  GoValues, g_scalar, g_nil, g_struct, g_pointer, g_time, g_other, no_slots, slot, zero_value,
  Label,
}
use msgpck.Reflect.Info.{
  string_contains, parse_tag, field_info, build_struct_fields, embedded_fields, build_struct_info,
  find_field, nth_value, field_by_index,
}
use msgpck.Reflect.Decode.{
  or_zero, into_int, into_scalar, into_kind, set_at, set_inside, set_key, top_entries,
  decode_fields, decode_struct,
}
use msgpck.Reflect.Unmarshal.{unmarshal, unmarshal_with_config}
use msgpck.Reflect.Encode.{
  is_empty_value, is_left_out, kept_fields, encode_fields, encode_struct, encode_value, encode_at,
  encode_inside, encode, marshal,
}
use msgpck.Struct.Encode.{encode_scalar, encode_pointed, is_empty_field, is_left_out as omits_field}
use msgpck.Reflect.Safety.{EndsWell, decode_struct_total, unmarshal_total}
use msgpck.Reflect.Contents.{
  IsWritable, AreWritable, value_of_go, value_at, value_inside, fields_value, encoded_value,
}
use msgpck.Reflect.Shows.Top.{Encodes}
use msgpck.Reflect.Contents.Written.{encode-Encodes, decode-marshal_go}

-- struct { Base; A int `msgpack:"a"`; C []bool `msgpack:"c,omitempty"`; X chan int `msgpack:"-"`; P *int },
-- where Base is struct { B string }
abbrev base : Members
base =
    member (record { exported = true; embedded = false; tag = []; name = b'B' ∷ [] })
      (t_scalar k_string) no_members

abbrev members : Members
members =
    member (record { exported = true; embedded = true; tag = []; name = b'B' ∷ b'a' ∷ [] })
      (t_struct base)
      (member (record { exported = true; embedded = false; tag = b'a' ∷ []; name = b'A' ∷ [] })
        (t_scalar k_int)
        (member
          (record {
            exported = true;
            embedded = false;
            tag = b'c' ∷ b',' ∷ omitempty_option;
            name = b'C' ∷ [];
          })
          (t_slice (t_scalar k_bool))
          (member (record { exported = true; embedded = false; tag = dash; name = b'X' ∷ [] })
            t_other
            (member (record { exported = true; embedded = false; tag = []; name = b'P' ∷ [] })
              (t_pointer (t_scalar k_int)) no_members))))

abbrev with_pointer : GoValue → GoValues
with_pointer p =
    slot (g_struct (slot (g_scalar (v_string (b'z' ∷ []))) no_slots))
      (slot (g_scalar (v_int (pos 7))) (slot g_nil (slot g_other (slot p no_slots))))

abbrev held : GoValue
held = g_struct (with_pointer (g_pointer (g_scalar (v_int (pos 5)))))

-- {"B": "z", "a": 7, "P": 5}
abbrev message : Bytes
message = 0x83 ∷ 0xa1 ∷ b'B' ∷ 0xa1 ∷ b'z' ∷ 0xa1 ∷ b'a' ∷ 7 ∷ 0xa1 ∷ b'P' ∷ 5 ∷ []

abbrev text : Kvs
text =
    kv (b'B' ∷ []) (string (b'z' ∷ []))
      (kv (b'a' ∷ []) (int (pos 7)) (kv (b'P' ∷ []) (int (pos 5)) no_kvs))

-- Embedded fields stand beside the others, an empty one is left out, and so is the one tagged "-".
contents : encoded_value (t_struct members) held ≡ map text
unfolding encoded_value value_of_go value_at value_inside build_struct_info build_struct_fields
    embedded_fields field_info parse_tag cut string_contains bytes_equal kept_fields is_empty_value
    field_by_index nth_value fields_value
contents = refl

marshal-held : marshal (t_struct members) held ≡ some message
unfolding marshal encode encode_value encode_at encode_inside encode_struct encode_fields
    build_struct_info build_struct_fields embedded_fields field_info parse_tag cut string_contains
    bytes_equal kept_fields is_empty_value field_by_index nth_value encode_map_header
    encode_string_bytes encode_string_len write_bytes write_byte grow encode_pointed encode_scalar
    encode_string encode_int encode_uint to_uint64
marshal-held = refl

-- A time.Time is written as an empty map.
marshal_time : marshal t_time (g_time (record { sec = pos 1; nsec = 0 })) ≡ some (0x80 ∷ [])
unfolding marshal encode encode_value encode_map_header write_byte grow
marshal_time = refl

abbrev zeroed : GoValue
zeroed = g_pointer (zero_value (t_struct members))

-- Decoding back fails: behind the pointer, the next byte is taken for the format byte.
decode-held :
    decode_struct (t_pointer (t_struct members)) zeroed (new_decoder message)
    ≡ err unexpected_eof (record { input = message; pos = 11; cfg = default_config; depth = 0 })
unfolding decode_struct decode_fields top_entries set_key set_at set_inside into_kind or_zero
    into_scalar into_int narrow_int build_struct_info build_struct_fields embedded_fields field_info
    parse_tag cut string_contains bytes_equal find_field zero_value decode_string_key_with_format
    decode_value_string decode_value_int parse_string_len parse_map_len validate_map_len
    validate_string_len check_len exceeds read_byte read_bytes is_positive_fixint is_negative_fixint
    is_fixmap is_fixstr fixmap_len fixstr_len enter_container
decode-held = refl

message-bytes : All IsByte message
message-bytes = omega arith

at_start : IsValid (new_decoder message)
at_start = record { within = omega arith; are_bytes = message-bytes }

decode_struct_total_example :
    EndsWell
      (new_decoder message)
      (decode_struct (t_pointer (t_struct members)) zeroed (new_decoder message))
decode_struct_total_example =
    decode_struct_total (t_pointer (t_struct members)) zeroed (new_decoder message) at_start

unmarshal_total_example :
    EndsWell (new_decoder message) (unmarshal (t_pointer (t_struct members)) zeroed message)
    × EndsWell
        (new_decoder_with_config message default_config)
        (unmarshal_with_config (t_pointer (t_struct members)) zeroed message default_config)
unmarshal_total_example =
    unmarshal_total (t_pointer (t_struct members)) zeroed message default_config message-bytes

held-IsWritable : IsWritable (t_struct members) held
unfolding IsWritable AreWritable bytes_equal
held-IsWritable =
    ((λ _. ((λ _. tt), tt)), ((λ _. tt), ((λ _. tt), ((λ e. absurd (cc e)), ((λ _. tt), tt)))))

encode-Encodes_example :
    (x : Value) × Encodes (t_struct members) held x
    × (encode (t_struct members) held (new_encoder 8) ≡ some (write_value x (new_encoder 8)))
encode-Encodes_example = encode-Encodes (t_struct members) held (new_encoder 8) held-IsWritable

text-IsSized : IsSized (map text)
unfolding IsSized
text-IsSized = omega arith

text-Fits : Fits default_config 0 (map text)
unfolding Fits exceeds
text-Fits = (refl, refl, (refl, refl, (refl, tt, (refl, tt, tt))))

held-IsSized : IsSized (encoded_value (t_struct members) held)
held-IsSized = rw contents text-IsSized

held-Fits : Fits default_config 0 (encoded_value (t_struct members) held)
held-Fits = rw contents text-Fits

decode-marshal_go_example :
    (x : Value) × Encodes (t_struct members) held x
    × ((bs : Bytes) × (marshal (t_struct members) held ≡ some bs)
        × (decode (new_decoder_with_config bs default_config)
            ≡ ok
                (canonical x)
                (record (new_decoder_with_config bs default_config) { pos = length bs })))
decode-marshal_go_example =
    decode-marshal_go (t_struct members) held default_config held-IsWritable held-IsSized held-Fits

-- A field A with the tag "a,string,omitempty"
abbrev twofold : Label
twofold = record {
  exported = true;
  embedded = false;
  tag = b'a' ∷ b',' ∷ b's' ∷ b't' ∷ b'r' ∷ b'i' ∷ b'n' ∷ b'g' ∷ b',' ∷ omitempty_option;
  name = b'A' ∷ [];
}

-- Of two options StructEncoder sees the first only, Encode both.
omits_less :
    ((parse_field_tag twofold.tag twofold.name).1 ≡ false)
    × ((field_info twofold []).omitempty ≡ true)
unfolding parse_field_tag contains field_info parse_tag string_contains cut bytes_equal
omits_less = (refl, refl)

-- The field with the slice of Booleans, which is nil in `held`; it is the third.
abbrev flags : Label
flags = record {
  exported = true;
  embedded = false;
  tag = b'c' ∷ b',' ∷ omitempty_option;
  name = b'C' ∷ [];
}

-- Both leave it out.
flags_empty : omits_field (encode_field_of flags (f_slice k_bool)) unset ≡ true
unfolding parse_field_tag contains cut bytes_equal is_empty_field
flags_empty = refl

flags_left_out : is_left_out (field_info flags (2 ∷ [])) (with_pointer g_nil) ≡ true
flags_left_out =
    ((field_info-parse_field_tag flags (2 ∷ [])).1 (f_slice k_bool) unset (with_pointer g_nil)
        (unfold field_by_index nth_value in same_unset k_bool)).0
      flags_empty
