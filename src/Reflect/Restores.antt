-- ===== src/Reflect/Restores.antt =====
-- decodeIntoValue, into a new variable, restores what EncodeValue wrote of the contents of a Go value.
pub mod Kinds
pub mod Structs
use msgpck.Base.{
  ℕ, zero, suc, ◌+◌, ◌<◌, ◌^◌, ◌≤◌, ◌*◌, ◌≡◌, refl, sym, ap, arith, Bool, true, false, ◌&&◌, List,
  [], ◌∷◌, ◌++◌, Bytes, All, some, length, ◌==◌, if◌then◌else◌,
}
use mathlib.Core.Path.{subst}
use msgpck.Config.{Config, exceeds}
use msgpck.Errors.{array_too_long, map_too_long}
use msgpck.Format.{format_nil}
use msgpck.Any.{go_nil}
use msgpck.Value.{Value, values_len, kvs_len}
use msgpck.Encoder.Any.Agree.{value_of}
use msgpck.Encoder.Wire.{wire, wire_values, wire_kvs, array_header, map_header, binary_header}
use msgpck.Encoder.Arrays.{string_bytes}
use msgpck.Encoder.Wire.Sizes.{length-wire_values, length-wire_kvs}
use msgpck.Decoder.{M, ◌>>=◌, ◌>>◌, pure, read_byte, enter_container, deferring_leave}
use msgpck.Decoder.Limits.{validate_array_len, validate_map_len}
use msgpck.Decoder.Lengths.{decode_value_bytes, parse_map_len}
use msgpck.Decoder.Arrays.RoundTrip.{Reads-array_len, StringFits}
use msgpck.Decoder.Scalars.{Reads-map}
use msgpck.Decoder.Reads.{Reads, Reads-pure, Reads-bind, Reads-byte, Reads-check, Reads-container}
use msgpck.Struct.Kinds.{ScalarKind, Scalar, k_string, v_string}
use msgpck.Struct.Loop.{NotNil-map_header}
use msgpck.Struct.SliceReads.{SliceFits}
use msgpck.Struct.Reads.{
  Holds, NotNil, NotNil-scalar_bytes, Reads-unless_nil, Reads-made, holds_string,
}
use msgpck.Reflect.Types.{
  Label, GoType, Members, t_scalar, t_bytes, t_slice, t_map, t_struct, t_pointer, t_any, no_members,
  member, GoValue, GoValues, GoPairs, g_scalar, g_nil, g_bytes, g_slice, g_map, g_struct, g_any,
  no_slots, slot, no_pairs, pair, go_len, pairs_len, zero_value, zero_fields, elems_of, pairs_of,
}
use msgpck.Reflect.Info.{
  FieldInfo, field_info, build_struct_info, build_struct_fields, find_field, field_by_index,
}
use msgpck.Reflect.Encode.{is_empty_value, is_left_out, kept_fields, reflected}
use msgpck.Reflect.Decode.{
  into_key, into_scalar, into_array_with, into_map_with, slice_elems, map_entries, set_key,
  struct_entries, or_zero, into_kind, set_at, into_value, top_entries,
}
use msgpck.Reflect.Contents.{
  elems_value, pairs_value, fields_value, value_of_go, value_at, scalar_value,
}
use msgpck.Reflect.Contents.Loops.{elems_len, pairs_value-len, fields_value-len}
use msgpck.Reflect.Reads.{wire-scalar_value, Reads-map_len, Reads-into_scalar, Reads-value_bytes}
use msgpck.Reflect.Restored.{
  IsNilable, nil_bytes, nil_slice, nil_map, nil_pointer, AreNamed, MapFits, IsShallow, Restored,
  restored_scalar, restored_bytes, restored_nil, restored_any, restored_slice, restored_map,
  restored_struct, RestoredAll, all_none, all_one, RestoredPairs, pairs_none, pairs_one,
  RestoredFields, fields_none, field_skipped, field_omitted, field_kept,
}
use msgpck.Reflect.Steps.{Steps, no_step, step, Reads-struct_entries}
use msgpck.Reflect.Fields.{
  Filled, at_start, Filled-end, nth_value-Filled, value_at-Filled, Filled-zero, Filled-set,
  build_struct_fields-skipped, build_struct_fields-plain,
}
use msgpck.Reflect.Pairs.{AreApart, append_pairs, append_pairs-none, Reads-map_entries}
use msgpck.Reflect.Restores.Kinds.{
  Reads-array_with, Reads-bytes_value, Reads-into_key, Reads-map_body, Reads-map_value,
  Reads-map_with, Reads-nil, Reads-nil_any, Reads-no_elems, Reads-no_pairs, Reads-one_elem,
  Reads-scalar_value, Reads-slice_value,
}
use msgpck.Reflect.Restores.Structs.{
  Fills, Fills-kept, Fills-none, Fills-omitted, Reads-struct_value, field_bytes, is_left_out-Filled,
  setter,
}

mutual
  unfolding build_struct_info field_info

  pub Reads-Restored :
      {c : Config} (k : ℕ) (t : GoType) (v : GoValue)
      → Restored c k t v
      → Reads c k (into_value t (zero_value t)) (wire (value_of_go t v)) v
  Reads-Restored _ _ _ (restored_scalar k kind s h) = Reads-scalar_value kind s h
  Reads-Restored _ _ _ (restored_bytes k b l fits) = Reads-bytes_value b l fits
  Reads-Restored _ _ _ (restored_nil k t n) = Reads-nil t n
  Reads-Restored _ _ _ (restored_any k) = Reads-nil_any
  Reads-Restored _ _ _ (restored_slice k t vs fits deep h) =
      Reads-slice_value t vs fits deep (Reads-all (k + 1) t vs h)
  Reads-Restored _ _ _ (restored_map k t m fits deep h) =
      Reads-map_value t m fits deep (Reads-pairs (k + 1) t m no_pairs tt h)
  Reads-Restored _ _ _ (restored_struct k ms vs fits deep named h) =
      Reads-struct_value k ms vs fits deep
        (Steps-fields (k + 1) ms vs 0 (zero_fields ms) ms vs h (at_start ms vs) named)

  Reads-all :
      {c : Config} (k : ℕ) (t : GoType) (vs : GoValues)
      → RestoredAll c k t vs
      → Reads c k
          (slice_elems (into_value t (zero_value t)) (go_len vs))
          (wire_values (elems_value (value_of_go t) vs))
          vs
  Reads-all _ _ _ (all_none k t) = Reads-no_elems t
  Reads-all _ _ _ (all_one k t v vs h hs) =
      Reads-one_elem t v vs (Reads-Restored k t v h) (Reads-all k t vs hs)

  Reads-pairs :
      {c : Config} (k : ℕ) (t : GoType) (m m₀ : GoPairs)
      → AreApart m₀ m
      → RestoredPairs c k t m
      → Reads c k
          (map_entries (into_key k_string) (into_value t (zero_value t)) (pairs_len m) m₀)
          (wire_kvs (pairs_value (value_of_go t) m))
          (append_pairs m₀ m)
  Reads-pairs _ _ _ m₀ apart (pairs_none k t) = Reads-no_pairs t m₀
  Reads-pairs _ _ _ m₀ apart (pairs_one k t s v m fits new h hs) =
      Reads-map_entries (into_key k_string) (into_value t (zero_value t)) (value_of_go t) s v m m₀
        apart new (Reads-into_key s fits) (Reads-Restored k t v h)
        (λ m₁ apart'. Reads-pairs k t m m₁ apart' hs)

  pub Steps-fields :
      {c : Config} (k : ℕ) (ms : Members) (vs : GoValues) (i : ℕ) (now : GoValues) (ms' : Members)
      (vs' : GoValues)
      → RestoredFields c k ms' vs'
      → Filled i ms vs now ms' vs'
      → Fills c k ms vs now (build_struct_fields ms' [] i)
  Steps-fields k ms vs i now _ _ (fields_none _) f = Fills-none k ms vs i now f
  Steps-fields {c} k ms vs i now _ _ (field_skipped _ l t ms' vs' e h) f =
      subst (Fills c k ms vs now) (sym (build_struct_fields-skipped l t ms' i e)) (
        Steps-fields k ms vs (suc i) now ms' vs' h
          (Filled-zero l t ms' (zero_value t) vs' refl i ms vs now f))
  Steps-fields {c} k ms vs i now _ _ (field_omitted _ l t ms' vs' e e' o h) f =
      subst (Fills c k ms vs now) (sym (build_struct_fields-plain l t ms' i e e')) (
        Fills-omitted c k ms vs _ _ now (is_left_out-Filled true f o) (
          Steps-fields k ms vs (suc i) now ms' vs' h
            (Filled-zero l t ms' (zero_value t) vs' refl i ms vs now f)))
  Steps-fields {c} k ms vs i now _ _ (field_kept _ l t ms' v vs' e e' o s r h) f =
      let (next, reads, g) =
        Filled-set l t ms' v vs' (wire (value_of_go t v)) (Reads-Restored k t v r) i ms vs now f in
      subst (Fills c k ms vs now) (sym (build_struct_fields-plain l t ms' i e e')) (
        Fills-kept c k ms vs _ _ now next (is_left_out-Filled false f o) s
          (rw (value_at-Filled l t ms' v vs' i ms vs now f) reads)
          (Steps-fields k ms vs (suc i) next ms' vs' h g))
