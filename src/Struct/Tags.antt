-- ===== src/Struct/Tags.antt =====
-- struct_decoder.go, struct_encoder.go: which fields of a struct type the codecs take, and under which
-- names. A struct type is the list of its fields, as reflect gives them.
use msgpck.Base.{
  ◌/◌, ◌%◌, ◌^◌, Bool, false, not, ◌&&◌, ◌||◌, ◌==◌, leb, List, [], ◌∷◌, Bytes, Option, none, some,
  length, take, bit_or, if◌then◌else◌,
}
use msgpck.Format.{fixstr_prefix, format_str8, format_str16, format_str32}
use msgpck.Value.{bytes_equal}
use msgpck.Struct.Kinds.{FieldKind, Fields, no_fields, field}

-- A field of a struct type: `tag` is the value of its tag for msgpack.
pub record StructMember : Type 0 where
  pub exported : Bool
  pub tag : Bytes
  pub name : Bytes
  pub kind : FieldKind

-- tag == "-"
abbrev pub dash : Bytes
dash = b'-' ∷ []

-- What stands before the first comma, and what stands after it.
unfoldable pub cut : Bytes → Bytes × Option Bytes
cut [] = ([], none)
cut (c ∷ s) = let rest = cut s in if c == b',' then ([], some s) else (c ∷ rest.0, rest.1)

unfoldable pub parse_struct_tag_name : Bytes → Bytes → Bytes
parse_struct_tag_name tag default_name =
    if bytes_equal tag [] || bytes_equal tag dash
    then (if bytes_equal tag dash then dash else default_name)
    else (cut tag).0

abbrev pub omitempty_option : Bytes
omitempty_option = b'o' ∷ b'm' ∷ b'i' ∷ b't' ∷ b'e' ∷ b'm' ∷ b'p' ∷ b't' ∷ b'y' ∷ []

unfoldable pub contains : Bytes → Bytes → Bool
contains s substr = leb (length substr) (length s) && bytes_equal (take (length substr) s) substr

abbrev pub has_omitempty : Option Bytes → Bool
has_omitempty none = false
has_omitempty (some s) = contains s omitempty_option

unfoldable pub parse_field_tag : Bytes → Bytes → Bytes × Bool
parse_field_tag tag field_name = if bytes_equal tag [] then (field_name, false) else (
  (if bytes_equal (cut tag).0 [] then field_name else (cut tag).0),
  has_omitempty (cut tag).1,
)

unfoldable pub pre_encode_string : Bytes → Bytes
pre_encode_string s =
    if leb (length s) 31
    then bit_or fixstr_prefix (length s % 256) ∷ s
    else if leb (length s) 255
    then format_str8 ∷ (length s % 256) ∷ s
    else if leb (length s) 65535
    then format_str16 ∷ (length s / 2 ^ 8 % 256) ∷ (length s % 256) ∷ s
    else format_str32
      ∷ (length s / 2 ^ 24 % 256)
      ∷ (length s / 2 ^ 16 % 256)
      ∷ (length s / 2 ^ 8 % 256)
      ∷ (length s % 256)
      ∷ s

-- newStructDecoder; buildNestedFieldMap goes through the fields in the same way.
unfoldable pub new_struct_decoder : List StructMember → Fields
new_struct_decoder [] = no_fields
new_struct_decoder (f ∷ fs) =
    let rest = new_struct_decoder fs in
    let name = parse_struct_tag_name f.tag f.name in
    if not f.exported then rest else if bytes_equal name dash then rest else field name f.kind rest

pub record EncodeField : Type 0 where
  pub name_encoded : Bytes
  pub kind : FieldKind
  pub omitempty : Bool

unfoldable pub new_struct_encoder : List StructMember → List EncodeField
new_struct_encoder [] = []
new_struct_encoder (f ∷ fs) =
    let rest = new_struct_encoder fs in
    let (name, omitempty) = parse_field_tag f.tag f.name in
    if not f.exported
    then rest
    else if bytes_equal f.tag dash
    then rest
    else record { name_encoded = pre_encode_string name; kind = f.kind; omitempty = omitempty }
      ∷ rest
