-- ===== src/Tests/Restored.antt =====
-- A struct that Marshal writes and Unmarshal restores.
use msgpck.Reflect.RoundTrip.{unmarshal-marshal}
use msgpck.Reflect.Restored.{
  Restored, restored_scalar, restored_slice, restored_struct, all_none, all_one, fields_none,
  field_skipped, field_omitted, field_kept,
}
use msgpck.Struct.Reads.{holds_int, holds_string, is_int}
use msgpck.Base.{◌≡◌, refl, true, false, arith, Bytes, [], ◌∷◌, some, length}
use msgpck.Base.Words.{pos, to_int64}
use msgpck.Config.{default_config, exceeds}
use msgpck.Value.{bytes_equal}
use msgpck.Encoder.Refines.{IsSized}
use msgpck.Decoder.{ok, new_decoder_with_config}
use msgpck.Struct.Kinds.{k_int, k_bool, k_string, v_int, v_string, v_bool}
use msgpck.Struct.Scalars.{narrow_int}
use msgpck.Struct.Tags.{cut, dash, omitempty_option}
use msgpck.Reflect.Types.{
  Members, t_scalar, t_slice, t_struct, t_pointer, t_other, no_members, member, GoValues, g_scalar,
  g_struct, g_pointer, g_other, no_slots, slot, zero_value, g_slice, zero_scalar,
}
use msgpck.Reflect.Info.{
  string_contains, parse_tag, field_info, build_struct_fields, embedded_fields, build_struct_info,
  find_field, nth_value, field_by_index,
}
use msgpck.Reflect.Decode.{decode_struct}
use msgpck.Reflect.Unmarshal.{unmarshal_with_config}
use msgpck.Reflect.Encode.{is_empty_value, kept_fields, marshal}
use msgpck.Struct.Encode.{is_zero}
use msgpck.Reflect.Contents.{
  IsWritable, AreWritable, value_of_go, value_at, value_inside, fields_value, elems_value,
}

-- struct { A int `msgpack:"a"`; S []string; X chan int `msgpack:"-"`; N struct { B bool `msgpack:"b,omitempty"` } }
abbrev inner : Members
inner =
    member
      (record {
        exported = true;
        embedded = false;
        tag = b'b' ∷ b',' ∷ omitempty_option;
        name = b'B' ∷ [];
      })
      (t_scalar k_bool) no_members

abbrev plain : Members
plain =
    member (record { exported = true; embedded = false; tag = b'a' ∷ []; name = b'A' ∷ [] })
      (t_scalar k_int)
      (member (record { exported = true; embedded = false; tag = []; name = b'S' ∷ [] })
        (t_slice (t_scalar k_string))
        (member (record { exported = true; embedded = false; tag = dash; name = b'X' ∷ [] }) t_other
          (member (record { exported = true; embedded = false; tag = []; name = b'N' ∷ [] })
            (t_struct inner) no_members)))

abbrev kept : GoValues
kept = slot (g_scalar (v_int (pos 7))) (
    slot (g_slice (slot (g_scalar (v_string (b'z' ∷ []))) no_slots))
      (slot g_other (slot (g_struct (slot (g_scalar (v_bool false)) no_slots)) no_slots)))

kept-IsWritable : IsWritable (t_struct plain) (g_struct kept)
unfolding IsWritable AreWritable bytes_equal
kept-IsWritable =
    ((λ _. tt), ((λ _. (tt, tt)), ((λ e. absurd (cc e)), ((λ _. ((λ _. tt), tt)), tt))))

kept-IsSized : IsSized (value_of_go (t_struct plain) (g_struct kept))
unfolding IsSized value_of_go value_at value_inside build_struct_info build_struct_fields
    embedded_fields field_info parse_tag cut string_contains bytes_equal kept_fields is_empty_value
    is_zero field_by_index nth_value fields_value elems_value
kept-IsSized = omega arith

kept-Restored : Restored default_config 0 (t_struct plain) (g_struct kept)
unfolding exceeds build_struct_info build_struct_fields embedded_fields field_info parse_tag cut
    string_contains bytes_equal kept_fields is_empty_value is_zero field_by_index nth_value
    find_field zero_value zero_scalar narrow_int to_int64
kept-Restored =
    restored_struct 0 plain kept (omega arith, refl) refl (refl, (refl, (refl, tt)))
      (field_kept 1 _ _ _ _ _ refl refl refl (omega arith, refl)
        (restored_scalar 1 k_int _ (holds_int k_int (pos 7) is_int (omega arith) refl))
        (field_kept 1 _ _ _ _ _ refl refl refl (omega arith, refl)
          (restored_slice 1 _ _ (omega arith, refl) refl
            (all_one 2 _ _ _
              (restored_scalar 2 k_string _ (holds_string (b'z' ∷ []) (omega arith, refl)))
              (all_none 2 _)))
          (field_skipped 1 _ t_other _ _ refl (
            field_kept 1 _ _ _ _ _ refl refl refl (omega arith, refl)
              (restored_struct 1 inner _ (omega arith, refl) refl (refl, tt)
                (field_omitted 2 _ (t_scalar k_bool) _ _ refl refl refl (fields_none 2)))
              (fields_none 1)))))

unmarshal-marshal_example :
    (bs : Bytes) × (marshal (t_struct plain) (g_struct kept) ≡ some bs)
    × (unmarshal_with_config
          (t_pointer (t_struct plain))
          (g_pointer (zero_value (t_struct plain)))
          bs
          default_config
        ≡ ok
            (g_pointer (g_struct kept))
            (record (new_decoder_with_config bs default_config) { pos = length bs }))
    × (decode_struct
          (t_pointer (t_struct plain))
          (g_pointer (zero_value (t_struct plain)))
          (new_decoder_with_config bs default_config)
        ≡ ok
            (g_pointer (g_struct kept))
            (record (new_decoder_with_config bs default_config) { pos = length bs }))
unmarshal-marshal_example =
    unmarshal-marshal plain kept default_config kept-IsWritable kept-IsSized kept-Restored
