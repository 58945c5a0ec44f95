-- ===== src/Struct/Decode.antt =====
-- struct_decoder.go: StructDecoder. A struct is the list of what its fields hold, one cell for each field
-- of the decoder's table; a decoder returns the struct it has written. What an error leaves in the
-- struct is left out.
use msgpck.Base.{ℕ, zero, suc, List, map, Bytes, Bool, true, false, ◌||◌, ◌==◌, if◌then◌else◌}
use msgpck.Errors.{type_mismatch}
use msgpck.Format.{
  is_fixmap, fixmap_len, format_nil, format_map16, format_map32, format_true, format_false,
}
use msgpck.Value.{bytes_equal}
use msgpck.Decoder.{
  Decoder, Outcome, M, pure, fail, ◌>>=◌, ◌>>◌, read_byte, read_uint16, read_uint32, reset, unread,
}
use msgpck.Decoder.Limits.{validate_map_len}
use msgpck.Decoder.Lengths.{parse_map_len, read_string_bytes}
use msgpck.Decoder.Values.{decode}
use msgpck.Struct.Kinds.{
  ScalarKind, Scalar, k_string, k_int, k_int64, k_int32, k_int16, k_int8, k_uint, k_uint64,
  k_uint32, k_uint16, k_uint8, k_float64, k_float32, k_bool, v_string, v_int, v_uint, v_float64,
  v_float32, v_bool, MapKind, m_scalar, m_any, m_nested, m_other, Table, FieldKind, Fields,
  f_scalar, f_slice, f_map, f_pointer, f_struct, f_other, no_fields, field, Cell, Cells, unset,
  scalar, byte_slice, slice, scalar_map, any_map, nested_map, pointer, nested, no_cells, cell,
}
use msgpck.Struct.Scalars.{decode_bytes, decode_scalar}
use msgpck.Struct.Slices.{
  decode_string_slice, decode_int64_slice, decode_int_slice, decode_int32_slice, decode_int16_slice,
  decode_int8_slice, decode_uint64_slice, decode_uint_slice, decode_uint32_slice,
  decode_uint16_slice, decode_float64_slice, decode_float32_slice,
}
use msgpck.Struct.Maps.{
  decode_string_map, decode_map_string_int, decode_map_string_int64, decode_map_string_int32,
  decode_map_string_uint64, decode_map_string_uint32, decode_map_string_float64,
  decode_map_string_bool, decode_map_string_any, decode_nested_map,
}

-- `if _, err := d.Decode(); err != nil`
unfoldable pub skip_value : Cell → M Cell
skip_value c = do v ← decode; pure c

-- `d.pos--` and then Decode: the field keeps what it holds.
unfoldable pub skip_field : Cell → M Cell
skip_field c = do unread; skip_value c

module _ {A : Type 0} (f : A → Scalar) where
  abbrev pub to_slice : M (List A) → M Cell
  to_slice m = do xs ← m; pure (slice (map f xs))

  unfoldable pub map_values : Table A → Table Scalar
  map_values m = map (λ kv. (kv.0, f kv.1)) m

  abbrev pub to_map : M (Table A) → M Cell
  to_map m = do kvs ← m; pure (scalar_map (map_values kvs))

-- The case reflect.Slice of decodeField.
unfoldable pub slice_field : ScalarKind → Cell → ℕ → M Cell
slice_field k_uint8 c f = do b ← decode_bytes f; pure (byte_slice b)
slice_field k_string c f = to_slice v_string (decode_string_slice f)
slice_field k_int64 c f = to_slice v_int (decode_int64_slice f)
slice_field k_int c f = to_slice v_int (decode_int_slice f)
slice_field k_int32 c f = to_slice v_int (decode_int32_slice f)
slice_field k_int16 c f = to_slice v_int (decode_int16_slice f)
slice_field k_int8 c f = to_slice v_int (decode_int8_slice f)
slice_field k_uint64 c f = to_slice v_uint (decode_uint64_slice f)
slice_field k_uint c f = to_slice v_uint (decode_uint_slice f)
slice_field k_uint32 c f = to_slice v_uint (decode_uint32_slice f)
slice_field k_uint16 c f = to_slice v_uint (decode_uint16_slice f)
slice_field k_float64 c f = to_slice v_float64 (decode_float64_slice f)
slice_field k_float32 c f = to_slice v_float32 (decode_float32_slice f)
slice_field k_bool c f = skip_field c

-- The case reflect.Map of decodeField.
unfoldable pub map_field : MapKind → Cell → ℕ → M Cell
map_field (m_scalar k_string) c f = to_map v_string (decode_string_map f)
map_field (m_scalar k_int) c f = to_map v_int (decode_map_string_int f)
map_field (m_scalar k_int64) c f = to_map v_int (decode_map_string_int64 f)
map_field (m_scalar k_int32) c f = to_map v_int (decode_map_string_int32 f)
map_field (m_scalar k_uint64) c f = to_map v_uint (decode_map_string_uint64 f)
map_field (m_scalar k_uint32) c f = to_map v_uint (decode_map_string_uint32 f)
map_field (m_scalar k_float64) c f = to_map v_float64 (decode_map_string_float64 f)
map_field (m_scalar k_bool) c f = to_map v_bool (decode_map_string_bool f)
map_field (m_scalar _) c f = skip_field c
map_field m_any c f = do m ← decode_map_string_any f; pure (any_map m)
map_field (m_nested kind) c f = do m ← decode_nested_map kind f; pure (nested_map m)
map_field m_other c f = skip_field c

-- The loop over the pairs of the message: a key, and then what `set` does to the struct.
unfoldable pub each_key : (Bytes → Cells → M Cells) → ℕ → Cells → M Cells
each_key set zero cells = pure cells
each_key set (suc n) cells = do
  key ← read_string_bytes
  cells' ← set key cells
  each_key set n cells'

-- A key of no field: its value is skipped.
unfoldable pub skip_unknown : Cells → M Cells
skip_unknown cells = do v ← decode; pure cells

abbrev pub cells_of : Cell → Cells
cells_of (nested cells) = cells
cells_of _ = no_cells

-- The cell of the first field, and those of the rest.
abbrev pub first_cell : Cells → Cell
first_cell no_cells = unset
first_cell (cell c cs) = c

abbrev pub rest_cells : Cells → Cells
rest_cells no_cells = no_cells
rest_cells (cell c cs) = cs

abbrev pub set_first : Cells → M Cell → M Cells
set_first cells m = do c ← m; pure (cell c (rest_cells cells))

abbrev pub set_rest : Cells → M Cells → M Cells
set_rest cells m = do cs ← m; pure (cell (first_cell cells) cs)

unfoldable pub has_field : Bytes → Fields → Bool
has_field key no_fields = false
has_field key (field name kind fs) = bytes_equal name key || has_field key fs

-- The word kinds that decodeNestedStruct knows; it skips the other five.
unfoldable pub nested_scalar : ScalarKind → Cell → ℕ → M Cell
nested_scalar k_bool c f =
    if f == format_true
    then pure (scalar (v_bool true))
    else if f == format_false
    then pure (scalar (v_bool false))
    else pure c
nested_scalar k_int16 c f = skip_field c
nested_scalar k_int8 c f = skip_field c
nested_scalar k_uint32 c f = skip_field c
nested_scalar k_uint16 c f = skip_field c
nested_scalar k_uint8 c f = skip_field c
nested_scalar kind c f = do s ← decode_scalar kind f; pure (scalar s)

-- decodeNestedStruct, given what it does for one key.
unfoldable pub nested_struct : (Bytes → Cells → M Cells) → Cells → M Cells
nested_struct set cells = do
  format ← read_byte
  if format == format_nil
      then pure cells
      else (do map_len ← parse_map_len format; validate_map_len map_len; each_key set map_len cells)

unfoldable mutual
  -- The switch of decodeNestedStruct on the kind of the field.
  pub nested_value : FieldKind → Cell → ℕ → M Cell
  nested_value (f_scalar kind) c f = nested_scalar kind c f
  nested_value (f_struct fs) c f = do
    unread
    cs ← nested_struct (set_nested fs) (cells_of c)
    pure (nested cs)
  nested_value (f_slice _) c f = skip_field c
  nested_value (f_map _) c f = skip_field c
  nested_value (f_pointer _) c f = skip_field c
  nested_value f_other c f = skip_field c

  -- One key of decodeNestedStruct. The map of the fields keeps the last field of a name.
  pub set_nested : Fields → Bytes → Cells → M Cells
  set_nested no_fields key cells = skip_unknown cells
  set_nested (field name kind fs) key cells =
      let rest : M Cells = set_nested fs key (rest_cells cells) in
      let this : Cell → ℕ → M Cell = nested_value kind in
      if has_field key fs
      then set_rest cells rest
      else if bytes_equal name key
      then set_first cells (do
        f ← read_byte
        if f == format_nil then pure (first_cell cells) else this (first_cell cells) f)
      else skip_unknown cells

unfoldable pub decode_nested_struct : Fields → Cells → M Cells
decode_nested_struct fs = nested_struct (set_nested fs)

-- The switch of decodeField on the kind of the field.
unfoldable pub field_value : FieldKind → Cell → ℕ → M Cell
field_value (f_scalar kind) c f = do s ← decode_scalar kind f; pure (scalar s)
field_value (f_slice kind) c f = slice_field kind c f
field_value (f_map kind) c f = map_field kind c f
field_value (f_struct fs) c f = do
  unread
  cs ← decode_nested_struct fs (cells_of c)
  pure (nested cs)
field_value (f_pointer kind) c f = do s ← decode_scalar kind f; pure (pointer s)
field_value f_other c f = skip_field c

unfoldable pub decode_field : FieldKind → Cell → M Cell
decode_field kind c = do f ← read_byte; if f == format_nil then pure c else field_value kind c f

-- One key of decodeInto: the first field of that name.
unfoldable pub set_field : Fields → Bytes → Cells → M Cells
set_field no_fields key cells = skip_unknown cells
set_field (field name kind fs) key cells =
    let rest : M Cells = set_field fs key (rest_cells cells) in
    if bytes_equal name key
    then set_first cells (decode_field kind (first_cell cells))
    else set_rest cells rest

-- The announced length, in decodeInto.
unfoldable pub into_len : ℕ → M ℕ
into_len format =
    if is_fixmap format
    then pure (fixmap_len format)
    else if format == format_map16
    then (do n ← read_uint16; pure n)
    else if format == format_map32
    then (do n ← read_uint32; pure n)
    else fail type_mismatch

unfoldable pub decode_into : Fields → Cells → M Cells
decode_into fs cells = do
  format ← read_byte
  if format == format_nil then pure cells else (do
    map_len ← into_len format
    validate_map_len map_len
    each_key (set_field fs) map_len cells)

-- StructDecoder.DecodeWith
unfoldable pub decode_with : Fields → Decoder → Bytes → Cells → Outcome Cells
decode_with fs d input cells = decode_into fs cells (reset input d)
