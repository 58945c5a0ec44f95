-- ===== src/Struct/Loop.antt =====
-- decodeInto on the bytes of a whole struct: the fields' names and values, one after the other.
use msgpck.Base.{
  List, map, ℕ, zero, suc, ◌+◌, ◌*◌, ◌<◌, ◌≤◌, ◌^◌, ◌≡◌, refl, arith, false, Bytes, [], ◌∷◌, ◌++◌,
  length, some, Bool-cases, inl, inr, leb, leb→le, length-append,
}
use msgpck.Config.{Config, exceeds}
use msgpck.Errors.{map_too_long}
use msgpck.Format.{is_fixmap}
use msgpck.Format.Ranges.{is_fixmap-range, fixmap_len-mod}
use msgpck.Value.{bytes_equal}
use msgpck.Encoder.Wire.{map_header, array_header}
use msgpck.Encoder.Arrays.{string_bytes}
use msgpck.Decoder.{M, pure, ◌>>=◌, ◌>>◌, read_byte, read_uint16, read_uint32}
use msgpck.Decoder.Limits.{validate_map_len}
use msgpck.Decoder.Lengths.{read_string_bytes}
use msgpck.Decoder.Arrays.RoundTrip.{Reads-read_string, string_some_byte}
use msgpck.Decoder.Scalars.{Reads-map}
use msgpck.Decoder.Scalars.Texts.{Reads-returned}
use msgpck.Decoder.Reads.{
  Reads, Reads-pure, Reads-bind, Reads-byte, Reads-check, Reads-if_append, Reads-uint16,
  Reads-uint32,
}
use msgpck.Struct.Kinds.{
  Scalar, k_string, v_string, v_int, v_uint, FieldKind, Fields, no_fields, field, Cell, scalar,
  pointer, Cells, cell,
}
use msgpck.Struct.Scalars.{decode_scalar}
use msgpck.Struct.Decode.{
  slice_field, first_cell, rest_cells, decode_field, field_value, set_field, each_key, into_len,
  decode_into,
}
use msgpck.Struct.Writes.{index_of, kind_at, cell_at, first-at, rest-at, next-suc, next-zero}
use msgpck.Struct.Reads.{Reads-made, Reads-scalar, NotNil, NotNil-scalar_bytes, Reads-unless_nil}
use msgpck.Struct.SliceReads.{slice_bytes, Reads-string_slice, Reads-int_slice, Reads-uint_slice}
use msgpck.Struct.Shapes.{
  HoldsCell, holds_scalar, holds_pointer, holds_strings, holds_ints, holds_uints, HoldsCells,
  holds_none, holds_one, cell_bytes, struct_bytes, fields_len, cells_len, IsDistinct, put_cell,
  StandAt, IsDistinct-StandAt, fill, fill-all,
}

NotNil-slice_bytes : (vs : List Scalar) → NotNil (slice_bytes vs)
unfolding array_header
NotNil-slice_bytes vs = ground arith

module _ {c : Config} {k : ℕ} where
  Reads-cell :
      (kind : FieldKind) (x old : Cell)
      → HoldsCell c kind x
      → Reads c k (decode_field kind old) (cell_bytes x) x
  unfolding decode_field field_value
  Reads-cell _ _ old (holds_scalar kind v h) =
      Reads-unless_nil (pure old) (λ f. decode_scalar kind f >>= λ s. pure (scalar s)) _ _
        (NotNil-scalar_bytes kind v h)
        (Reads-made (decode_scalar kind) scalar _ v _ refl (Reads-scalar kind v h))
  Reads-cell _ _ old (holds_pointer kind v h) =
      Reads-unless_nil (pure old) (λ f. decode_scalar kind f >>= λ s. pure (pointer s)) _ _
        (NotNil-scalar_bytes kind v h)
        (Reads-made (decode_scalar kind) pointer _ v _ refl (Reads-scalar kind v h))
  Reads-cell _ _ old (holds_strings xs n all) =
      Reads-unless_nil (pure old) (slice_field k_string old) _ _
        (NotNil-slice_bytes (map v_string xs)) (Reads-string_slice xs old n all)
  Reads-cell _ _ old (holds_ints kind xs i n all) =
      Reads-unless_nil (pure old) (slice_field kind old) _ _ (NotNil-slice_bytes (map v_int xs))
        (Reads-int_slice kind xs old i n all)
  Reads-cell _ _ old (holds_uints kind xs i n all) =
      Reads-unless_nil (pure old) (slice_field kind old) _ _ (NotNil-slice_bytes (map v_uint xs))
        (Reads-uint_slice kind xs old i n all)

  -- A key of the i-th field.
  Reads-set :
      (fs : Fields) (key : Bytes) (i : ℕ) (cells : Cells) (bs : Bytes) (x : Cell)
      → index_of key fs ≡ some i
      → Reads c k (decode_field (kind_at i fs) (cell_at i cells)) bs x
      → Reads c k (set_field fs key cells) bs (put_cell i x cells)
  unfolding index_of set_field
  Reads-set no_fields key i cells bs x e r = absurd (cc e)
  Reads-set (field name kind fs) key zero cells bs x e r =
      elim (Bool-cases (bytes_equal name key)) [
        | inl t ↦ rw t (
            Reads-map (decode_field kind (first_cell cells)) (λ y. cell y (rest_cells cells)) bs x
              (rw (first-at cells) at r))
        | inr t ↦ absurd (next-zero (index_of key fs) (rw t at e))
      ]
  Reads-set (field name kind fs) key (suc i) cells bs x e r =
      elim (Bool-cases (bytes_equal name key)) [
        | inl t ↦ let f : some zero ≡ some (suc i) = rw t at e in absurd (cc f)
        | inr t ↦ rw t (
            Reads-map (set_field fs key (rest_cells cells)) (λ ys. cell (first_cell cells) ys) bs _
              (Reads-set fs key i (rest_cells cells) bs x (next-suc (index_of key fs) i (rw t at e))
                (rw (rest-at cells i) at r)))
      ]

module _ {c : Config} {k : ℕ} where
  Reads-keys :
      (fs : Fields) (i : ℕ) (gs : Fields) (ys cells : Cells)
      → HoldsCells c gs ys
      → StandAt fs i gs
      → Reads c k
          (each_key (set_field fs) (fields_len gs) cells)
          (struct_bytes gs ys)
          (fill i ys cells)
  unfolding each_key StandAt
  Reads-keys fs i _ _ cells holds_none s = Reads-pure cells
  Reads-keys fs i _ _ cells (holds_one name kind gs y ys n h hs) (e, same, s) =
      Reads-bind read_string_bytes _ (string_bytes name) _ name _ (Reads-read_string name n) (
        Reads-bind (set_field fs name cells) _ (cell_bytes y) _ (put_cell i y cells) _
          (Reads-set fs name i cells (cell_bytes y) y e
            (rw same (Reads-cell kind y (cell_at i cells) h)))
          (Reads-keys fs (suc i) gs ys (put_cell i y cells) hs s))

into_fixmap : (n : ℕ) → n < 16 → into_len (0x80 + n) ≡ pure n
unfolding into_len
into_fixmap n h = ground (arith, is_fixmap-range (0x80 + n), fixmap_len-mod (0x80 + n))

-- A map's header, as decodeInto reads it, before any continuation.
pub Reads-into_len :
    {A : Type 0} {c : Config} {k : ℕ} (n : ℕ) (g : ℕ → M A) (xs : Bytes) (a : A)
    → n < 2 ^ 32
    → Reads c k (g n) xs a
    → Reads c k (read_byte >>= λ f. into_len f >>= g) (map_header n ++ xs) a
unfolding map_header
Reads-into_len {c = c} {k = k} n g xs a h r =
    Reads-if_append (leb n 15) _ _ xs
      (λ e.
        with_byte (0x80 + n) [] (rw (into_fixmap n (omega (arith, leb→le n 15 e))) (Reads-pure n)))
      λ _.
        Reads-if_append (leb n 0xffff) _ _ xs
          (λ e. with_byte 0xde _ (long16 (Reads-uint16 n (omega (arith, leb→le n 0xffff e)))))
          (λ _. with_byte 0xdf _ (long32 (Reads-uint32 n h)))
  where
    with_byte :
        (f : ℕ) (word : Bytes)
        → Reads c k (into_len f) word n
        → Reads c k (read_byte >>= λ f. into_len f >>= g) (f ∷ (word ++ xs)) a
    with_byte f word w =
        Reads-bind read_byte (λ f. into_len f >>= g) (f ∷ []) (word ++ xs) f a (Reads-byte f)
          (Reads-bind (into_len f) g word xs n a w r)

    long16 : {word : Bytes} → Reads c k read_uint16 word n → Reads c k (into_len 0xde) word n
    long16 w = unfold into_len is_fixmap in Reads-returned read_uint16 w

    long32 : {word : Bytes} → Reads c k read_uint32 word n → Reads c k (into_len 0xdf) word n
    long32 w = unfold into_len is_fixmap in Reads-returned read_uint32 w

pub NotNil-map_header : (n : ℕ) (xs : Bytes) → NotNil (map_header n ++ xs)
unfolding map_header
NotNil-map_header n xs = ground arith

NotNil-length : (bs : Bytes) → NotNil bs → 0 < length bs
NotNil-length [] h = absurd h
NotNil-length (b ∷ bs) h = omega arith

cell_some_byte :
    {c : Config} (kind : FieldKind) (x : Cell) → HoldsCell c kind x → 0 < length (cell_bytes x)
cell_some_byte _ _ (holds_scalar kind v h) = NotNil-length _ (NotNil-scalar_bytes kind v h)
cell_some_byte _ _ (holds_pointer kind v h) = NotNil-length _ (NotNil-scalar_bytes kind v h)
cell_some_byte _ _ (holds_strings xs n all) = NotNil-length _ (NotNil-slice_bytes (map v_string xs))
cell_some_byte _ _ (holds_ints _ xs i n all) = NotNil-length _ (NotNil-slice_bytes (map v_int xs))
cell_some_byte _ _ (holds_uints _ xs i n all) = NotNil-length _ (NotNil-slice_bytes (map v_uint xs))

length-struct_bytes :
    {c : Config} (fs : Fields) (xs : Cells)
    → HoldsCells c fs xs
    → fields_len fs * 2 ≤ length (struct_bytes fs xs)
length-struct_bytes _ _ holds_none = omega arith
length-struct_bytes _ _ (holds_one name kind fs x xs n h hs) = omega (
  arith,
  string_some_byte name,
  cell_some_byte kind x h,
  length-struct_bytes fs xs hs,
  length-append (string_bytes name) (cell_bytes x ++ struct_bytes fs xs),
  length-append (cell_bytes x) (struct_bytes fs xs),
)

pub Reads-decode_into :
    {c : Config} {k : ℕ} (fs : Fields) (xs before : Cells)
    → IsDistinct fs
    → HoldsCells c fs xs
    → cells_len xs ≡ cells_len before
    → fields_len fs < 2 ^ 32
    → exceeds (fields_len fs) c.max_map_len ≡ false
    → Reads c k (decode_into fs before) (map_header (fields_len fs) ++ struct_bytes fs xs) xs
unfolding decode_into validate_map_len
Reads-decode_into {c = c} {k = k} fs xs before d h same n fits =
    Reads-unless_nil (pure before)
      (λ f. into_len f >>= λ n. validate_map_len n >> each_key (set_field fs) n before) _ _
      (NotNil-map_header (fields_len fs) (struct_bytes fs xs))
      (Reads-into_len (fields_len fs) _ (struct_bytes fs xs) xs n (
        Reads-check map_too_long (λ c. c.max_map_len) (fields_len fs) (fields_len fs * 2) _ _ xs
          fits (length-struct_bytes fs xs h)
          (rw (fill-all xs before same) at
            (Reads-keys {c = c} {k = k} fs 0 fs xs before h (IsDistinct-StandAt fs d)))))
