-- ===== src/Struct/Shapes.antt =====
-- What the fields of a struct hold when it comes back from its bytes, those bytes, and where the fields
-- stand in the table.
use msgpck.Base.{
  ℕ, zero, suc, ◌≡◌, refl, sym, ap, ◌∙◌, arith, true, false, Bytes, List, map, All, length, [],
  ◌++◌, some, Bool-cases, inl, inr,
}
use msgpck.Base.Words.{ℤ}
use msgpck.Config.{Config}
use msgpck.Value.{bytes_equal}
use msgpck.Value.Lookup.{differs, bytes_differ, bytes_equal_refl}
use msgpck.Encoder.Arrays.{string_bytes}
use msgpck.Decoder.Arrays.RoundTrip.{StringFits}
use msgpck.Struct.Kinds.{
  ScalarKind, Scalar, FieldKind, f_scalar, f_pointer, f_slice, slice, k_string, v_string, v_int,
  v_uint, Fields, no_fields, field, Cell, scalar, pointer, Cells, no_cells, cell,
}
use msgpck.Struct.Decode.{first_cell, rest_cells, has_field}
use msgpck.Struct.Writes.{index_of, kind_at}
use msgpck.Struct.Reads.{Holds, IntKind, scalar_bytes}
use msgpck.Struct.SliceReads.{SliceFits, UintSliceKind, slice_bytes}

-- A field of one word or one string, a pointer to one, or a slice of strings or integers, and what it holds.
pub data HoldsCell (c : Config) : FieldKind → Cell → Type 0 where
  holds_scalar :
      (kind : ScalarKind) (v : Scalar) → Holds c kind v → HoldsCell c (f_scalar kind) (scalar v)
  holds_pointer :
      (kind : ScalarKind) (v : Scalar) → Holds c kind v → HoldsCell c (f_pointer kind) (pointer v)
  holds_strings :
      (xs : List Bytes)
      → SliceFits c (length xs)
      → All (λ s. Holds c k_string (v_string s)) xs
      → HoldsCell c (f_slice k_string) (slice (map v_string xs))
  holds_ints :
      (kind : ScalarKind) (xs : List ℤ)
      → IntKind kind
      → SliceFits c (length xs)
      → All (λ v. Holds c kind (v_int v)) xs
      → HoldsCell c (f_slice kind) (slice (map v_int xs))
  holds_uints :
      (kind : ScalarKind) (xs : List ℕ)
      → UintSliceKind kind
      → SliceFits c (length xs)
      → All (λ v. Holds c kind (v_uint v)) xs
      → HoldsCell c (f_slice kind) (slice (map v_uint xs))

pub data HoldsCells (c : Config) : Fields → Cells → Type 0 where
  holds_none : HoldsCells c no_fields no_cells
  holds_one :
      (name : Bytes) (kind : FieldKind) (fs : Fields) (x : Cell) (xs : Cells)
      → StringFits c name
      → HoldsCell c kind x
      → HoldsCells c fs xs
      → HoldsCells c (field name kind fs) (cell x xs)

abbrev pub cell_bytes : Cell → Bytes
cell_bytes (scalar v) = scalar_bytes v
cell_bytes (pointer v) = scalar_bytes v
cell_bytes (slice vs) = slice_bytes vs
cell_bytes _ = []

abbrev pub struct_bytes : Fields → Cells → Bytes
struct_bytes no_fields cells = []
struct_bytes (field name kind fs) cells =
    string_bytes name ++ (cell_bytes (first_cell cells) ++ struct_bytes fs (rest_cells cells))

abbrev pub fields_len : Fields → ℕ
fields_len no_fields = zero
fields_len (field name kind fs) = suc (fields_len fs)

abbrev pub cells_len : Cells → ℕ
cells_len no_cells = zero
cells_len (cell x xs) = suc (cells_len xs)

-- No two fields have one name.
abbrev pub IsDistinct : Fields → Type 0
IsDistinct no_fields = Unit
IsDistinct (field name kind fs) = (has_field name fs ≡ false) × IsDistinct fs

abbrev pub put_cell : ℕ → Cell → Cells → Cells
put_cell zero x cells = cell x (rest_cells cells)
put_cell (suc i) x cells = cell (first_cell cells) (put_cell i x (rest_cells cells))

-- The fields `gs` stand in `fs` from the place `i` on, each the first of its name.
unfoldable pub StandAt : Fields → ℕ → Fields → Type 0
StandAt fs i no_fields = Unit
StandAt fs i (field name kind gs) =
    (index_of name fs ≡ some i) × (kind_at i fs ≡ kind) × StandAt fs (suc i) gs

-- They do so one place further behind a field of another name.
StandAt-behind :
    (name : Bytes) (kind : FieldKind) (fs : Fields) (i : ℕ) (gs : Fields)
    → has_field name gs ≡ false
    → StandAt fs i gs
    → StandAt (field name kind fs) (suc i) gs
unfolding StandAt has_field index_of
StandAt-behind name kind fs i no_fields h s = tt
StandAt-behind name kind fs i (field n k gs) h (e, same, s) =
    elim (Bool-cases (bytes_equal n name)) [
      | inl t ↦ let f : true ≡ false = rw t at h in absurd (cc f)
      | inr t ↦ (
        rw (bytes_differ name n (λ g. differs n name t (sym g)), e) refl,
        same,
        StandAt-behind name kind fs (suc i) gs (rw t at h) s,
      )
    ]

pub IsDistinct-StandAt : (fs : Fields) → IsDistinct fs → StandAt fs 0 fs
unfolding StandAt index_of
IsDistinct-StandAt no_fields d = tt
IsDistinct-StandAt (field name kind fs) (h, d) = (
  rw (bytes_equal_refl name) refl,
  refl,
  StandAt-behind name kind fs 0 fs h (IsDistinct-StandAt fs d),
)

-- The cells put from the place `i` on.
abbrev pub fill : ℕ → Cells → Cells → Cells
fill i no_cells cells = cells
fill i (cell y ys) cells = fill (suc i) ys (put_cell i y cells)

fill-suc :
    (i : ℕ) (ys : Cells) (x : Cell) (xs : Cells)
    → fill (suc i) ys (cell x xs) ≡ cell x (fill i ys xs)
fill-suc i no_cells x xs = refl
fill-suc i (cell y ys) x xs = fill-suc (suc i) ys x (put_cell i y xs)

pub fill-all : (ys xs : Cells) → cells_len ys ≡ cells_len xs → fill 0 ys xs ≡ ys
fill-all no_cells no_cells h = refl
fill-all no_cells (cell x xs) h = absurd (omega arith)
fill-all (cell y ys) no_cells h = absurd (omega arith)
fill-all (cell y ys) (cell x xs) h = fill-suc 0 ys y xs ∙ ap (cell y) (fill-all ys xs (omega arith))
