-- ===== src/Struct/Kinds.antt =====
-- struct_decoder.go, struct_encoder.go: the types of struct fields that the code tells apart by
-- reflect.Kind, and what a field holds.
use msgpck.Base.{ℕ, Bool, Bytes, List}
use msgpck.Base.Words.{ℤ}
use msgpck.Any.{Any, Entries}

-- The kinds of one word or one string, as fields, behind a pointer, and as elements.
pub data ScalarKind : Type 0 where
  k_string k_int k_int64 k_int32 k_int16 k_int8 : ScalarKind
  k_uint k_uint64 k_uint32 k_uint16 k_uint8 : ScalarKind
  k_float64 k_float32 k_bool : ScalarKind

-- An int or a uint has 64 bits. A float is its bit pattern.
pub data Scalar : Type 0 where
  v_string : Bytes → Scalar
  v_int : ℤ → Scalar
  v_uint : ℕ → Scalar
  v_float64 : ℕ → Scalar
  v_float32 : ℕ → Scalar
  v_bool : Bool → Scalar

-- The values of a map of maps. Maps of maps of other values are left out: the decoder stores what it
-- decoded by reflection, which panics where the types differ.
pub data NestedKind : Type 0 where
  n_bytes n_string n_int64 n_any : NestedKind

-- The element types of maps that the decoder knows; `m_other` is every other one.
pub data MapKind : Type 0 where
  m_scalar : ScalarKind → MapKind
  m_any : MapKind
  m_nested : NestedKind → MapKind
  m_other : MapKind

-- A map from strings: its entries, one for each key. The order is not the program's to see.
abbrev pub Table : Type 0 → Type 0
Table A = List (Bytes × A)

mutual
  -- The type of a field; f_slice k_uint8 is a byte slice. A slice or a pointer of another element type is f_other, which is skipped.
  pub data FieldKind : Type 0 where
    f_scalar : ScalarKind → FieldKind
    f_slice : ScalarKind → FieldKind
    f_map : MapKind → FieldKind
    f_pointer : ScalarKind → FieldKind
    f_struct : Fields → FieldKind
    f_other : FieldKind

  -- The fields that a decoder keeps: the name in the message, and the type.
  pub data Fields : Type 0 where
    no_fields : Fields
    field : Bytes → FieldKind → Fields → Fields

mutual
  -- What a field holds. `unset` is the zero value of a slice, a map or a pointer, and what a field
  -- holds whose type the code does not know.
  pub data Cell : Type 0 where
    unset : Cell
    scalar : Scalar → Cell
    byte_slice : Bytes → Cell
    slice : List Scalar → Cell
    scalar_map : Table Scalar → Cell
    any_map : Entries → Cell
    nested_map : Table (Table Any) → Cell
    pointer : Scalar → Cell
    nested : Cells → Cell

  pub data Cells : Type 0 where
    no_cells : Cells
    cell : Cell → Cells → Cells
