-- ===== src/Reflect/Names.antt =====
-- The two encoders of structs, Encode and StructEncoder, on a field's tag and on what it holds.
use msgpck.Base.{
  ℕ, suc, ◌≡◌, refl, ap, Bool, true, false, inl, inr, Bool-cases, arith, ◌&&◌, List, [], ◌∷◌, Bytes,
  Option, none, some, length,
}
use msgpck.Value.{bytes_equal}
use msgpck.Value.Lookup.{bytes_equal_iff}
use msgpck.Struct.Tags.{
  cut, contains, has_omitempty, omitempty_option, parse_field_tag, EncodeField, pre_encode_string,
}
use msgpck.Struct.Kinds.{
  ScalarKind, Scalar, FieldKind, f_scalar, f_slice, Cell, unset, scalar, byte_slice, slice,
}
use msgpck.Struct.Encode.{is_empty_field, is_left_out as omits_field}
use msgpck.Reflect.Types.{
  Label, GoValue, GoValues, g_scalar, g_nil, g_bytes, g_slice, g_struct, no_slots, slot, go_len,
}
use msgpck.Reflect.Info.{string_contains, options_of, parse_tag, field_info, field_by_index}
use msgpck.Reflect.Encode.{is_empty_value, is_left_out}

contains-string_contains :
    (opts : Option Bytes)
    → has_omitempty opts ≡ true
    → string_contains (options_of opts) omitempty_option ≡ true
unfolding contains string_contains
contains-string_contains none h = cc
contains-string_contains (some []) h = cc
contains-string_contains (some (c ∷ s)) h = ground arith

abbrev scalar_slots : List Scalar → GoValues
scalar_slots [] = no_slots
scalar_slots (s ∷ ss) = slot (g_scalar s) (scalar_slots ss)

-- A field of one word, one string or a slice of these, as the cell of StructEncoder and as the value that
-- reflection shows.
pub data SameField : FieldKind → Cell → GoValue → Type 0 where
  same_scalar : (k : ScalarKind) (s : Scalar) → SameField (f_scalar k) (scalar s) (g_scalar s)
  same_unset : (k : ScalarKind) → SameField (f_slice k) unset g_nil
  same_bytes : (k : ScalarKind) (b : Bytes) → SameField (f_slice k) (byte_slice b) (g_bytes b)
  same_slice :
      (k : ScalarKind) (ss : List Scalar)
      → SameField (f_slice k) (slice ss) (g_slice (scalar_slots ss))

go_len-scalar_slots : (ss : List Scalar) → go_len (scalar_slots ss) ≡ length ss
go_len-scalar_slots [] = refl
go_len-scalar_slots (s ∷ ss) = ap (λ (n : ℕ). suc n) (go_len-scalar_slots ss)

is_empty_value-is_empty_field :
    {kind : FieldKind} {c : Cell} {v : GoValue}
    → SameField kind c v
    → is_empty_value v ≡ is_empty_field kind c
unfolding is_empty_value is_empty_field
is_empty_value-is_empty_field (same_scalar k s) = refl
is_empty_value-is_empty_field (same_unset k) = refl
is_empty_value-is_empty_field (same_bytes k b) = refl
is_empty_value-is_empty_field (same_slice k ss) = rw (go_len-scalar_slots ss) refl

-- The name and the option omitempty, of both parsers.
tag_names :
    (l : Label) (index : List ℕ)
    → ((field_info l index).name ≡ (parse_field_tag l.tag l.name).0)
      × ((parse_field_tag l.tag l.name).1 ≡ true → (field_info l index).omitempty ≡ true)
unfolding field_info parse_tag parse_field_tag cut bytes_equal
tag_names l index = elim (Bool-cases (bytes_equal l.tag [])) [
  | inl e ↦ let empty = (bytes_equal_iff l.tag []).0 e in rw empty (refl, λ h. cc)
  | inr e ↦ rw e (refl, contains-string_contains (cut l.tag).1)
]

index_lem : (l : Label) (index : List ℕ) → (field_info l index).index ≡ index
unfolding field_info
index_lem l index = refl

-- What StructEncoder keeps of the field.
abbrev pub encode_field_of : Label → FieldKind → EncodeField
encode_field_of l kind = record {
  name_encoded = pre_encode_string (parse_field_tag l.tag l.name).0;
  kind = kind;
  omitempty = (parse_field_tag l.tag l.name).1;
}

both : (a b c : Bool) → (a ≡ true → b ≡ true) → a && c ≡ true → b && c ≡ true
both true b c h e = rw (h refl) e
both false b c h e = cc

pub field_info-parse_field_tag :
    (l : Label) (index : List ℕ)
    → ((field_info l index).name ≡ (parse_field_tag l.tag l.name).0)
      × ((kind : FieldKind) (c : Cell) (vs : GoValues)
          → SameField kind c (field_by_index index (g_struct vs))
          → (omits_field (encode_field_of l kind) c ≡ true
              → is_left_out (field_info l index) vs ≡ true)
            × ((parse_field_tag l.tag l.name).1 ≡ true
                → is_left_out (field_info l index) vs ≡ omits_field (encode_field_of l kind) c))
field_info-parse_field_tag l index =
    let (name, option) = tag_names l index in
    (
      name,
      λ kind c vs same.
          let eq = is_empty_value-is_empty_field same in
          rw (index_lem l index, eq)
            (both _ _ (is_empty_field kind c) option, λ seen. rw (seen, option seen) refl),
    )
