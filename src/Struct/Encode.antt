-- ===== src/Struct/Encode.antt =====
-- struct_encoder.go: StructEncoder, on the cells of a struct (Struct.Decode). `none` is no outcome of the
-- program and stands for what is left out: a struct, which goes to Encode, and a field of a type that the
-- cells do not describe, an array or an interface for which the default case writes nil among them.
use msgpck.Base.{
  ℕ, zero, suc, ◌^◌, Bool, true, false, not, ◌&&◌, ◌||◌, ◌==◌, List, [], ◌∷◌, Option, none, some,
  length, if◌then◌else◌,
}
use msgpck.Base.Words.{ℤ, pos, negsuc}
use msgpck.Base.Floats.{float64_of_float32, float32_of_float64}
use msgpck.Encoder.{
  Encoder, write_bytes, encode_nil, encode_bool, encode_int, encode_uint, encode_float32,
  encode_float64, encode_string, encode_binary, encode_array_header, encode_map_header, encode_all,
}
use msgpck.Encoder.Any.{encode_any, encode_entries, entries_len}
use msgpck.Struct.Kinds.{
  ScalarKind, k_uint8, Scalar, v_string, v_int, v_uint, v_float64, v_float32, v_bool, m_other,
  Table, FieldKind, f_scalar, f_slice, f_map, f_pointer, Cell, Cells, unset, scalar, byte_slice,
  slice, scalar_map, any_map, nested_map, pointer,
}
use msgpck.Struct.Tags.{EncodeField}
use msgpck.Struct.Decode.{first_cell, rest_cells}

-- The cases of one word or one string.
unfoldable pub encode_scalar : Scalar → Encoder → Encoder
encode_scalar (v_string s) e = encode_string s e
encode_scalar (v_int v) e = encode_int v e
encode_scalar (v_uint v) e = encode_uint v e
encode_scalar (v_float64 v) e = encode_float64 v e
encode_scalar (v_float32 v) e = encode_float32 v e
encode_scalar (v_bool b) e = encode_bool b e

-- What encodeValue of encode.go does with them, behind a pointer: a float32 is widened and narrowed.
unfoldable pub encode_pointed : Scalar → Encoder → Encoder
encode_pointed (v_float32 v) e = encode_float32 (float32_of_float64 (float64_of_float32 v)) e
encode_pointed v e = encode_scalar v e

-- The loop over a map's entries, in the order in which it comes to them.
unfoldable pub encode_table : {A : Type 0} → (A → Encoder → Encoder) → Table A → Encoder → Encoder
encode_table f m e =
    encode_all (λ kv e. f kv.1 (encode_string kv.0 e)) m (encode_map_header (length m) e)

-- The cases reflect.Slice, reflect.Map and reflect.Ptr.
unfoldable pub encode_slice : ScalarKind → Cell → Encoder → Option Encoder
encode_slice _ (byte_slice b) e = some (encode_binary b e)
encode_slice _ (slice vs) e = some (encode_all encode_scalar vs (encode_array_header (length vs) e))
encode_slice k_uint8 unset e = some (encode_binary [] e)
encode_slice _ unset e = some (encode_array_header 0 e)
encode_slice _ _ e = none

-- The inner maps of a map of maps are not nil.
unfoldable pub encode_map : Cell → Encoder → Option Encoder
encode_map (scalar_map m) e = some (encode_table encode_scalar m e)
encode_map (any_map m) e = some (encode_entries m (encode_map_header (entries_len m) e))
encode_map (nested_map m) e = some (encode_table (encode_table encode_any) m e)
encode_map unset e = some (encode_map_header 0 e)
encode_map _ e = none

unfoldable pub encode_pointer : Cell → Encoder → Option Encoder
encode_pointer (pointer v) e = some (encode_pointed v e)
encode_pointer unset e = some (encode_nil e)
encode_pointer _ e = none

unfoldable pub encode_field : FieldKind → Cell → Encoder → Option Encoder
encode_field (f_scalar _) (scalar v) e = some (encode_scalar v e)
encode_field (f_slice kind) c e = encode_slice kind c e
encode_field (f_map m_other) c e = none
encode_field (f_map _) c e = encode_map c e
encode_field (f_pointer _) c e = encode_pointer c e
encode_field _ c e = none

abbrev pub is_zero_int : ℤ → Bool
is_zero_int (pos n) = n == 0
is_zero_int (negsuc n) = false

-- A float is zero under either sign.
unfoldable pub is_zero : Scalar → Bool
is_zero (v_string s) = length s == 0
is_zero (v_int v) = is_zero_int v
is_zero (v_uint v) = v == 0
is_zero (v_float64 v) = (v == 0) || (v == 2 ^ 63)
is_zero (v_float32 v) = (v == 0) || (v == 2 ^ 31)
is_zero (v_bool b) = not b

unfoldable pub is_empty_field : FieldKind → Cell → Bool
is_empty_field (f_scalar _) (scalar v) = is_zero v
is_empty_field (f_slice _) unset = true
is_empty_field (f_slice _) (byte_slice b) = length b == 0
is_empty_field (f_slice _) (slice vs) = length vs == 0
is_empty_field _ _ = false

abbrev pub is_left_out : EncodeField → Cell → Bool
is_left_out f c = f.omitempty && is_empty_field f.kind c

abbrev pub option_then : Option Encoder → (Encoder → Option Encoder) → Option Encoder
option_then none f = none
option_then (some e) f = f e

-- The two loops of encodeInto.
unfoldable pub field_count : List EncodeField → Cells → ℕ
field_count [] cells = zero
field_count (f ∷ fs) cells =
    let rest = field_count fs (rest_cells cells) in
    if is_left_out f (first_cell cells) then rest else suc rest

unfoldable pub encode_fields : List EncodeField → Cells → Encoder → Option Encoder
encode_fields [] cells e = some e
encode_fields (f ∷ fs) cells e =
    if is_left_out f (first_cell cells)
    then encode_fields fs (rest_cells cells) e
    else option_then (encode_field f.kind (first_cell cells) (write_bytes f.name_encoded e))
        (encode_fields fs (rest_cells cells))

-- StructEncoder.EncodeWith
unfoldable pub encode_into : List EncodeField → Cells → Encoder → Option Encoder
encode_into fs cells e = encode_fields fs cells (encode_map_header (field_count fs cells) e)
