-- ===== src/Struct/Safety.antt =====
-- The struct decoder is safe on every input, though it moves back one byte to skip a field.
use msgpck.Base.{ℕ, zero, suc, ◌≤◌, ◌≡◌, ◌≢◌, refl, arith, length, Bytes, All, ◌==◌, if◌then◌else◌}
use msgpck.Format.{format_nil}
use msgpck.Value.{bytes_equal}
use msgpck.Config.{Config}
use msgpck.Decoder.{Decoder, ok, panic, stuck, M, ◌>>=◌, ◌>>◌, pure, read_byte, unread, reset}
use msgpck.Decoder.Values.{decode}
use msgpck.Decoder.Contract.{
  IsByte, Good, Failed, Ensures, Ensures-ok, Ensures-panic, Ensures-stuck,
}
use msgpck.Decoder.Contract.Calm.{
  Calm, Calm-pure, Calm-bind, Calm-if, Calm-read_string, calm, parts,
}
use msgpck.Decoder.Contract.After.{After, Calm-byte_back, After-kept, After-if, After-unread}
use msgpck.Struct.Kinds.{
  ScalarKind, k_string, k_int, k_int64, k_int32, k_int16, k_int8, k_uint, k_uint64, k_uint32,
  k_uint16, k_uint8, k_float64, k_float32, k_bool, MapKind, m_scalar, m_any, m_nested, m_other,
  FieldKind, Fields, f_scalar, f_slice, f_map, f_pointer, f_struct, f_other, no_fields, field, Cell,
  Cells, scalar, nested,
}
use msgpck.Struct.Slices.{
  decode_string_slice, decode_int64_slice, decode_int_slice, decode_int32_slice, decode_int16_slice,
  decode_int8_slice, decode_uint64_slice, decode_uint_slice, decode_uint32_slice,
  decode_uint16_slice, decode_float64_slice, decode_float32_slice,
}
use msgpck.Struct.Maps.{
  decode_string_map, decode_map_string_int, decode_map_string_int64, decode_map_string_int32,
  decode_map_string_uint64, decode_map_string_uint32, decode_map_string_float64,
  decode_map_string_bool,
}
use msgpck.Struct.Decode.{
  skip_value, skip_field, slice_field, map_field, each_key, skip_unknown, nested_scalar,
  nested_struct, nested_value, set_nested, decode_nested_struct, field_value, decode_field,
  set_field, into_len, decode_into, decode_with, set_first, set_rest, has_field, first_cell,
  rest_cells, cells_of,
}
use msgpck.Struct.Scalars.{decode_scalar}
use msgpck.Struct.Calm.{
  Calm-decode, Calm-scalar, Calm-byte_slice, Calm-slice, Calm-map_string, Calm-map_any,
  Calm-nested_map, readers,
}

module _ {c : Config} {k n : ℕ} where
  After-skip : (x : Cell) → After c k n (skip_field x)
  unfolding skip_field skip_value
  After-skip x = After-unread _ (Calm-bind decode _ Calm-decode λ v. Calm-pure x)

  module _ {A : Type 0} where
    After-then : (m : M A) (g : A → Cell) → Calm c k n m → After c k n (do a ← m; pure (g a))
    After-then m g h = After-kept _ (Calm-bind m _ h λ a. Calm-pure (g a))

  ruleset elems = (calm, readers, Calm-slice)

  After-slice : (kind : ScalarKind) (x : Cell) (f : ℕ) → After c k n (slice_field kind x f)
  unfolding slice_field decode_string_slice decode_int64_slice decode_int_slice decode_int32_slice
      decode_int16_slice decode_int8_slice decode_uint64_slice decode_uint_slice decode_uint32_slice
      decode_uint16_slice decode_float64_slice decode_float32_slice
  After-slice k_uint8 x f = After-then _ _ (Calm-byte_slice f)
  After-slice k_string x f = After-then _ _ (search elems)
  After-slice k_int64 x f = After-then _ _ (search elems)
  After-slice k_int x f = After-then _ _ (search elems)
  After-slice k_int32 x f = After-then _ _ (search elems)
  After-slice k_int16 x f = After-then _ _ (search elems)
  After-slice k_int8 x f = After-then _ _ (search elems)
  After-slice k_uint64 x f = After-then _ _ (search elems)
  After-slice k_uint x f = After-then _ _ (search elems)
  After-slice k_uint32 x f = After-then _ _ (search elems)
  After-slice k_uint16 x f = After-then _ _ (search elems)
  After-slice k_float64 x f = After-then _ _ (search elems)
  After-slice k_float32 x f = After-then _ _ (search elems)
  After-slice k_bool x f = After-skip x

  ruleset values = (calm, readers, Calm-map_string)

  After-map : (kind : MapKind) (x : Cell) (f : ℕ) → After c k n (map_field kind x f)
  unfolding map_field decode_string_map decode_map_string_int decode_map_string_int64
      decode_map_string_int32 decode_map_string_uint64 decode_map_string_uint32
      decode_map_string_float64 decode_map_string_bool
  After-map (m_scalar k_string) x f = After-then _ _ (search values)
  After-map (m_scalar k_int) x f = After-then _ _ (search values)
  After-map (m_scalar k_int64) x f = After-then _ _ (search values)
  After-map (m_scalar k_int32) x f = After-then _ _ (search values)
  After-map (m_scalar k_uint64) x f = After-then _ _ (search values)
  After-map (m_scalar k_uint32) x f = After-then _ _ (search values)
  After-map (m_scalar k_float64) x f = After-then _ _ (search values)
  After-map (m_scalar k_bool) x f = After-then _ _ (search values)
  After-map (m_scalar k_int16) x f = After-skip x
  After-map (m_scalar k_int8) x f = After-skip x
  After-map (m_scalar k_uint) x f = After-skip x
  After-map (m_scalar k_uint16) x f = After-skip x
  After-map (m_scalar k_uint8) x f = After-skip x
  After-map (m_scalar k_float32) x f = After-skip x
  After-map m_any x f = After-then _ _ (Calm-map_any f)
  After-map (m_nested kind) x f = After-then _ _ (Calm-nested_map kind f)
  After-map m_other x f = After-skip x

  Calm-each_key :
      (set : Bytes → Cells → M Cells)
      → ((key : Bytes) (cells : Cells) → Calm c k n (set key cells))
      → (l : ℕ) (cells : Cells) → Calm c k n (each_key set l cells)
  unfolding each_key
  Calm-each_key set h zero cells = Calm-pure cells
  Calm-each_key set h (suc l) cells =
      Calm-bind _ _ Calm-read_string
        λ key. Calm-bind _ _ (h key cells) λ cells'. Calm-each_key set h l cells'

  Calm-unknown : (cells : Cells) → Calm c k n (skip_unknown cells)
  unfolding skip_unknown
  Calm-unknown cells = Calm-bind decode _ Calm-decode λ v. Calm-pure cells

  Calm-nested_struct :
      (set : Bytes → Cells → M Cells)
      → ((key : Bytes) (cells : Cells) → Calm c k n (set key cells))
      → (cells : Cells) → Calm c k n (nested_struct set cells)
  unfolding nested_struct
  Calm-nested_struct set h cells = search (parts, Calm-each_key set h) depth 12

  After-scalar :
      (kind : ScalarKind) (f : ℕ) → After c k n (do s ← decode_scalar kind f; pure (scalar s))
  After-scalar kind f = After-then _ _ (Calm-scalar kind f)

  After-nested_scalar :
      (kind : ScalarKind) (x : Cell) (f : ℕ) → After c k n (nested_scalar kind x f)
  unfolding nested_scalar
  After-nested_scalar k_bool x f = After-kept _ (search calm depth 8)
  After-nested_scalar k_int16 x f = After-skip x
  After-nested_scalar k_int8 x f = After-skip x
  After-nested_scalar k_uint32 x f = After-skip x
  After-nested_scalar k_uint16 x f = After-skip x
  After-nested_scalar k_uint8 x f = After-skip x
  After-nested_scalar k_string x f = After-scalar k_string f
  After-nested_scalar k_int x f = After-scalar k_int f
  After-nested_scalar k_int64 x f = After-scalar k_int64 f
  After-nested_scalar k_int32 x f = After-scalar k_int32 f
  After-nested_scalar k_uint x f = After-scalar k_uint f
  After-nested_scalar k_uint64 x f = After-scalar k_uint64 f
  After-nested_scalar k_float64 x f = After-scalar k_float64 f
  After-nested_scalar k_float32 x f = After-scalar k_float32 f

  Calm-field :
      (value : Cell → ℕ → M Cell)
      → ((x : Cell) (f : ℕ) → After c k n (value x f))
      → (x : Cell) → Calm c k n (do f ← read_byte; if f == format_nil then pure x else value x f)
  Calm-field value h x =
      Calm-byte_back _ λ f. After-if (f == format_nil) _ _ (After-kept _ (Calm-pure x)) (h x f)

  Calm-first : (cells : Cells) (m : M Cell) → Calm c k n m → Calm c k n (set_first cells m)
  Calm-first cells m h = Calm-bind m _ h λ x. Calm-pure _

  Calm-rest : (cells : Cells) (m : M Cells) → Calm c k n m → Calm c k n (set_rest cells m)
  Calm-rest cells m h = Calm-bind m _ h λ xs. Calm-pure _

  After-struct :
      (set : Bytes → Cells → M Cells)
      → ((key : Bytes) (cells : Cells) → Calm c k n (set key cells))
      → (x : Cell) → After c k n (do unread; cs ← nested_struct set (cells_of x); pure (nested cs))
  After-struct set h x =
      After-unread _ (Calm-bind _ _ (Calm-nested_struct set h (cells_of x)) λ cs. Calm-pure _)

  mutual
    unfolding nested_value

    After-nested_value : (kind : FieldKind) (x : Cell) (f : ℕ) → After c k n (nested_value kind x f)
    After-nested_value (f_scalar kind) x f = After-nested_scalar kind x f
    After-nested_value (f_struct fs) x f = After-struct (set_nested fs) (Calm-set_nested fs) x
    After-nested_value (f_slice _) x f = After-skip x
    After-nested_value (f_map _) x f = After-skip x
    After-nested_value (f_pointer _) x f = After-skip x
    After-nested_value f_other x f = After-skip x

    Calm-set_nested :
        (fs : Fields) (key : Bytes) (cells : Cells) → Calm c k n (set_nested fs key cells)
    Calm-set_nested no_fields key cells = Calm-unknown cells
    Calm-set_nested (field name kind fs) key cells =
        Calm-if (has_field key fs) _ _
          (Calm-rest cells _ (Calm-set_nested fs key (rest_cells cells)))
          (Calm-if (bytes_equal name key) _ _
            (Calm-first cells _
              (Calm-field (nested_value kind) (After-nested_value kind) (first_cell cells)))
            (Calm-unknown cells))

  After-field_value : (kind : FieldKind) (x : Cell) (f : ℕ) → After c k n (field_value kind x f)
  unfolding field_value decode_nested_struct
  After-field_value (f_scalar kind) x f = After-then _ _ (Calm-scalar kind f)
  After-field_value (f_slice kind) x f = After-slice kind x f
  After-field_value (f_map kind) x f = After-map kind x f
  After-field_value (f_struct fs) x f = After-struct (set_nested fs) (Calm-set_nested fs) x
  After-field_value (f_pointer kind) x f = After-then _ _ (Calm-scalar kind f)
  After-field_value f_other x f = After-skip x

  Calm-set_field : (fs : Fields) (key : Bytes) (cells : Cells) → Calm c k n (set_field fs key cells)
  unfolding set_field decode_field
  Calm-set_field no_fields key cells = Calm-unknown cells
  Calm-set_field (field name kind fs) key cells =
      Calm-if (bytes_equal name key) _ _
        (Calm-first cells _
          (Calm-field (field_value kind) (After-field_value kind) (first_cell cells)))
        (Calm-rest cells _ (Calm-set_field fs key (rest_cells cells)))

  Calm-into_len : (f : ℕ) → Calm c k n (into_len f)
  unfolding into_len
  Calm-into_len f = search calm depth 12

  Calm-into : (fs : Fields) (cells : Cells) → Calm c k n (decode_into fs cells)
  unfolding decode_into
  Calm-into fs cells =
      search (parts, Calm-into_len, Calm-each_key (set_field fs) (Calm-set_field fs)) depth 12

-- On any bytes and for any table of fields of the modelled types, StructDecoder.DecodeWith ends without
-- an index or a slice out of bounds, however the fields are nested and though it moves back to skip a
-- field; where it returns, it has kept the bytes and the configuration, is at depth 0, and has stopped
-- within the bytes.
pub decode_with_total :
    (fs : Fields) (d : Decoder) (input : Bytes) (cells : Cells)
    → All IsByte input
    → (decode_with fs d input cells ≢ panic)
      × (decode_with fs d input cells ≢ stuck)
      × ((cells' : Cells) (d' : Decoder)
          → decode_with fs d input cells ≡ ok cells' d'
          → (d'.input ≡ input) × (d'.cfg ≡ d.cfg) × (d'.depth ≡ 0) × (d'.pos ≤ length input))
unfolding decode_with
decode_with_total fs d input cells h =
    let all : Ensures (Good (λ _. 0) (λ _. Unit) (reset input d)) (Failed (reset input d))
        (decode_into fs cells (reset input d)) =
      (Calm-into {n = suc (length input)} fs cells).run (reset input d)
        (record { within = omega arith; are_bytes = h }) refl refl (omega arith) in
    (
      Ensures-panic all,
      Ensures-stuck all,
      λ cells' d' e. let g = Ensures-ok all e in (g.same_input, g.same_cfg, g.same_depth, g.inside),
    )
