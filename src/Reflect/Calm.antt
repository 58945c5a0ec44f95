-- ===== src/Reflect/Calm.antt =====
-- The readers and the loops of reflective decoding are safe on every input.
pub mod Kinds
pub mod Unmarshal
use msgpck.Base.{
  ℕ, zero, suc, ◌+◌, ◌≡◌, refl, arith, List, [], ◌∷◌, Bytes, Option, none, some, All, Bool, true,
  false, ◌==◌, if◌then◌else◌,
}
use msgpck.Format.{format_nil}
use msgpck.Errors.{is_type_mismatch}
use msgpck.Value.{bytes_equal}
use msgpck.Config.{Config}
use msgpck.Decoder.{
  M, ◌>>=◌, pure, read_byte, read_uint8, read_int8, read_int16, read_int32, read_int64,
  read_float32, read_float64, remaining, fail,
}
use msgpck.Decoder.Lengths.{
  decode_string_key_with_format, decode_string_key, decode_value_string, decode_value_bytes,
}
use msgpck.Decoder.Integers.{decode_value_int, decode_value_uint}
use msgpck.Decoder.Floats.{decode_value_float}
use msgpck.Decoder.Contract.{IsByte}
use msgpck.Decoder.Contract.Whole.{Meets-value}
use msgpck.Decoder.Contract.Calm.{
  Calm, Calm-of, Calm-pure, Calm-fail, Calm-if, Calm-bind, Calm-byte, calm, parts,
}
use msgpck.Decoder.Contract.Try.{
  Calm-try, Calm-container, Calm-byte_is, Level-key, Level-key_with_format,
}
use msgpck.Struct.Kinds.{
  ScalarKind, Scalar, k_string, k_int, k_int64, k_int32, k_int16, k_int8, k_uint, k_uint64,
  k_uint32, k_uint16, k_uint8, k_float64, k_float32, k_bool,
}
use msgpck.Struct.Calm.{Calm-decode, Calm-bool}
use msgpck.Reflect.Types.{
  GoType, Members, t_scalar, t_bytes, t_slice, t_array, t_map, t_struct, t_pointer, t_any, t_time,
  t_other, no_members, member, GoValue, GoValues, GoPairs, g_scalar, g_bytes, g_slice, g_array,
  g_map, g_struct, g_pointer, g_any, no_slots, slot, zero_value, elems_of, pairs_of, first_value,
  rest_values,
}
use msgpck.Reflect.Keys.{set_map_index}
use msgpck.Reflect.Info.{FieldInfo, build_struct_info, find_field}
use msgpck.Reflect.Decode.{
  decode_rest, skip, into_int, into_uint, into_scalar, into_key, into_array_with, into_map_with,
  slice_elems, array_elems, map_entries, set_key, struct_entries, set_first, set_rest, target,
  or_zero, into_kind, set_at, set_inside, into_value, top_entries, decode_fields,
}
use msgpck.Reflect.Paths.{Leads, here, later, inside, LeadsTo, build_struct_info-LeadsTo}

module _ {c : Config} {n : ℕ} where
  module _ {k : ℕ} where
    pub Calm-value_int : (f : ℕ) → Calm c k n (decode_value_int f)
    unfolding decode_value_int read_uint8 read_int8 read_int16 read_int32 read_int64
    Calm-value_int f = search calm depth 24

    pub Calm-value_uint : (f : ℕ) → Calm c k n (decode_value_uint f)
    unfolding decode_value_uint read_uint8 read_int8 read_int16 read_int32 read_int64
    Calm-value_uint f = search calm depth 24

    pub Calm-value_float : (f : ℕ) → Calm c k n (decode_value_float f)
    unfolding decode_value_float read_uint8 read_int8 read_int16 read_int32 read_int64 read_float32
        read_float64
    Calm-value_float f = search calm depth 26

    pub Calm-value_string : (f : ℕ) → Calm c k n (decode_value_string f)
    unfolding decode_value_string
    Calm-value_string f = search parts

    pub Calm-value_bytes : (f : ℕ) → Calm c k n (decode_value_bytes f)
    unfolding decode_value_bytes read_uint8
    Calm-value_bytes f = search parts depth 16

    pub Calm-key_with_format : (f : ℕ) → Calm c k n (decode_string_key_with_format f)
    unfolding decode_string_key_with_format
    Calm-key_with_format f = search parts

    pub Calm-string_key : Calm c k n decode_string_key
    unfolding decode_string_key
    Calm-string_key = Calm-bind _ _ Calm-byte Calm-key_with_format

    pub Calm-rest : (f : ℕ) → IsByte f → Calm c k n (decode_rest f)
    unfolding decode_rest
    Calm-rest f h = record {
      run = λ d v hc hk r.
          (Calm-of _ (Meets-value c (remaining d + 1) k f h)).run d v hc hk (omega arith);
    }

    pub Calm-skip : {A : Type 0} (a : A) → Calm c k n (skip a)
    unfolding skip
    Calm-skip a = Calm-bind _ _ Calm-decode λ v. Calm-pure a

    ruleset readers =
        (calm, Calm-value_int, Calm-value_uint, Calm-value_float, Calm-value_string, Calm-bool)

    pub Calm-into_scalar : (kind : ScalarKind) (f : ℕ) → Calm c k n (into_scalar kind f)
    unfolding into_scalar into_int into_uint
    Calm-into_scalar k_string f = search readers
    Calm-into_scalar k_int f = search readers
    Calm-into_scalar k_int64 f = search readers
    Calm-into_scalar k_int32 f = search readers
    Calm-into_scalar k_int16 f = search readers
    Calm-into_scalar k_int8 f = search readers
    Calm-into_scalar k_uint f = search readers
    Calm-into_scalar k_uint64 f = search readers
    Calm-into_scalar k_uint32 f = search readers
    Calm-into_scalar k_uint16 f = search readers
    Calm-into_scalar k_uint8 f = search readers
    Calm-into_scalar k_float64 f = search readers
    Calm-into_scalar k_float32 f = search readers
    Calm-into_scalar k_bool f = search readers

    pub Calm-into_key : (kind : ScalarKind) → Calm c k n (into_key kind)
    unfolding into_key
    Calm-into_key _ = search (calm, Calm-into_scalar)

    pub Calm-or_zero :
        (v : GoValue) (m : ℕ → M GoValue)
        → ((f : ℕ) → IsByte f → Calm c k n (m f))
        → Calm c k n (or_zero v m)
    unfolding or_zero
    Calm-or_zero v m h = Calm-byte_is _ λ f b. Calm-if (f == format_nil) _ _ (Calm-pure v) (h f b)

    -- The loops.
    pub Calm-slice_elems :
        (elem : M GoValue) → Calm c k n elem → (l : ℕ) → Calm c k n (slice_elems elem l)
    unfolding slice_elems
    Calm-slice_elems elem h zero = Calm-pure _
    Calm-slice_elems elem h (suc l) =
        Calm-bind _ _ h λ v. Calm-bind _ _ (Calm-slice_elems elem h l) λ vs. Calm-pure _

    pub Calm-array_elems :
        (elem : GoValue → M GoValue)
        → ((v : GoValue) → Calm c k n (elem v))
        → (l : ℕ) (vs : GoValues) → Calm c k n (array_elems elem l vs)
    unfolding array_elems
    Calm-array_elems elem h zero vs = Calm-pure _
    Calm-array_elems elem h (suc l) no_slots =
        Calm-bind _ _ Calm-decode λ x. Calm-array_elems elem h l no_slots
    Calm-array_elems elem h (suc l) (slot v vs) =
        Calm-bind _ _ (h v) λ y. Calm-bind _ _ (Calm-array_elems elem h l vs) λ ys. Calm-pure _

    pub Calm-map_entries :
        (key : M Scalar) (value : M GoValue)
        → Calm c k n key
        → Calm c k n value
        → (l : ℕ) (m : GoPairs) → Calm c k n (map_entries key value l m)
    unfolding map_entries
    Calm-map_entries key value h h' zero m = Calm-pure _
    Calm-map_entries key value h h' (suc l) m =
        Calm-bind _ _ h
          λ x. Calm-bind _ _ h' λ v. Calm-map_entries key value h h' l (set_map_index x v m)

    module _ (set : Bytes → GoValues → M GoValues)
        (h : (key : Bytes) (vs : GoValues) → Calm c k n (set key vs)) where
      pub Calm-struct_entries : (l : ℕ) (vs : GoValues) → Calm c k n (struct_entries set l vs)
      unfolding struct_entries
      Calm-struct_entries zero vs = Calm-pure _
      Calm-struct_entries (suc l) vs =
          Calm-bind _ _
            (Calm-try _ _ _ Level-key Calm-string_key (λ key. h key vs) (λ e. Calm-skip vs))
            λ vs'. Calm-struct_entries l vs'

      pub Calm-top_entries : (l : ℕ) (vs : GoValues) → Calm c k n (top_entries set l vs)
      unfolding top_entries
      Calm-top_entries zero vs = Calm-pure _
      Calm-top_entries (suc l) vs = Calm-byte_is _ λ f b.
          Calm-bind _ _
            (Calm-try _ _ _ (Level-key_with_format f) (Calm-key_with_format f) (λ key. h key vs)
              (λ e.
                Calm-if (is_type_mismatch e) _ _ (Calm-bind _ _ (Calm-rest f b) λ x. Calm-skip vs)
                  (Calm-fail e)))
            λ vs'. Calm-top_entries l vs'

    pub Calm-set_first :
        (vs : GoValues) (m : M GoValue) → Calm c k n m → Calm c k n (set_first vs m)
    Calm-set_first vs m h = Calm-bind m _ h λ y. Calm-pure _

    pub Calm-set_rest : (vs : GoValues) (m : M GoValues) → Calm c k n m → Calm c k n (set_rest vs m)
    Calm-set_rest vs m h = Calm-bind m _ h λ ys. Calm-pure _

    -- `set_at` is only asked for fields that are there.
    pub Calm-set_key :
        (ms : Members)
        → ((p : List ℕ) → Leads ms p → (vs : GoValues) → Calm c k n (set_at ms p vs))
        → (key : Bytes) (fs : List FieldInfo) → All (LeadsTo ms) fs
        → (vs : GoValues) → Calm c k n (set_key (set_at ms) (find_field key fs) vs)
    unfolding set_key find_field
    Calm-set_key ms h key [] p vs = Calm-skip vs
    Calm-set_key ms h key (f ∷ fs) (p, q) vs =
        found (bytes_equal f.name key) (Calm-set_key ms h key fs q vs)
      where
        found :
            (t : Bool)
            → Calm c k n (set_key (set_at ms) (find_field key fs) vs)
            → Calm c k n (set_key (set_at ms) (if t then some f else find_field key fs) vs)
        found true r = h f.index p vs
        found false r = r
