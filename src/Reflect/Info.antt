-- ===== src/Reflect/Info.antt =====
-- decode_struct.go: the fields of a struct type with their names, embedded structs laid open.
use msgpck.Base.{
  ℕ, zero, suc, Bool, true, false, not, ◌&&◌, ◌||◌, List, [], ◌∷◌, ◌++◌, Bytes, Option, none, some,
  length, take, if◌then◌else◌,
}
use msgpck.Value.{bytes_equal}
use msgpck.Struct.Tags.{cut, dash, omitempty_option}
use msgpck.Reflect.Types.{
  Label, GoType, Members, t_struct, t_time, no_members, member, GoValue, GoValues, elems_of,
  first_value, rest_values,
}

pub record FieldInfo : Type 0 where
  pub index : List ℕ
  pub name : Bytes
  pub omitempty : Bool

-- strings.Contains
unfoldable pub string_contains : Bytes → Bytes → Bool
string_contains [] substr = bytes_equal substr []
string_contains (c ∷ s) substr =
    let rest = string_contains s substr in bytes_equal (take (length substr) (c ∷ s)) substr || rest

abbrev pub options_of : Option Bytes → Bytes
options_of none = []
options_of (some opts) = opts

unfoldable pub parse_tag : Bytes → Bytes × Bytes
parse_tag tag = ((cut tag).0, options_of (cut tag).1)

abbrev pub is_struct : GoType → Bool
is_struct (t_struct ms) = true
is_struct t_time = true
is_struct _ = false

-- The entry of a field that is neither embedded nor left out.
unfoldable pub field_info : Label → List ℕ → FieldInfo
field_info l index = record {
  index = index;
  name = if bytes_equal (parse_tag l.tag).0 [] then l.name else (parse_tag l.tag).0;
  omitempty = string_contains (parse_tag l.tag).1 omitempty_option;
}

-- buildStructFields, from the field `i` on. A time.Time has no exported field.
unfoldable mutual
  pub build_struct_fields : Members → List ℕ → ℕ → List FieldInfo
  build_struct_fields no_members index i = []
  build_struct_fields (member l t ms) index i =
      let rest = build_struct_fields ms index (suc i) in
      let inside = embedded_fields t (index ++ (i ∷ [])) in
      if not l.exported
      then rest
      else if l.embedded && is_struct t
      then inside ++ rest
      else if bytes_equal l.tag dash
      then rest
      else field_info l (index ++ (i ∷ [])) ∷ rest

  pub embedded_fields : GoType → List ℕ → List FieldInfo
  embedded_fields (t_struct ms) index = build_struct_fields ms index 0
  embedded_fields _ index = []

unfoldable pub build_struct_info : Members → List FieldInfo
build_struct_info ms = build_struct_fields ms [] 0

-- The first field of a name.
unfoldable pub find_field : Bytes → List FieldInfo → Option FieldInfo
find_field key [] = none
find_field key (f ∷ fs) =
    let rest = find_field key fs in if bytes_equal f.name key then some f else rest

unfoldable pub nth_value : ℕ → GoValues → GoValue
nth_value zero vs = first_value vs
nth_value (suc i) vs = nth_value i (rest_values vs)

-- rv.FieldByIndex
unfoldable pub field_by_index : List ℕ → GoValue → GoValue
field_by_index [] v = v
field_by_index (i ∷ p) v = field_by_index p (nth_value i (elems_of v))
