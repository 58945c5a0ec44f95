-- ===== src/Struct/Names.antt =====
-- The keys that a struct's encoder writes and those that its decoder looks for.
use msgpck.Base.{
  ◌<◌, ◌^◌, ◌≡◌, ◌≢◌, refl, ap, ◌∙◌, arith, true, false, Bytes, List, [], ◌∷◌, ◌++◌, All, length,
  Bool-cases, inl, inr,
}
use msgpck.Base.Words.{be16, be32}
use msgpck.Value.{bytes_equal}
use msgpck.Value.Lookup.{bytes_equal_refl, differs, bytes_differ}
use msgpck.Encoder.{Encoder, encode_string}
use msgpck.Encoder.Wire.{string_header}
use msgpck.Format.Ranges.{fixstr_or}
use msgpck.Encoder.Scalars.{buf-encode_string}
use msgpck.Struct.Kinds.{FieldKind, Fields, no_fields, field}
use msgpck.Struct.Tags.{
  StructMember, dash, cut, parse_struct_tag_name, parse_field_tag, pre_encode_string,
  new_struct_decoder, EncodeField, new_struct_encoder,
}

pub pre_encoded :
    (s : Bytes) → length s < 2 ^ 32 → pre_encode_string s ≡ string_header (length s) ++ s
unfolding pre_encode_string string_header be16 be32
pre_encoded s h = ground (arith, fixstr_or (length s))

-- What a struct's encoder copies for the name of a field is what EncodeString appends for that name.
pub encode_string-pre_encode_string :
    (s : Bytes) (e : Encoder)
    → length s < 2 ^ 32
    → (encode_string s e).buf ≡ e.buf ++ pre_encode_string s
encode_string-pre_encode_string s e h = buf-encode_string s e h ∙ rw (pre_encoded s h) refl

-- A tag without a name before a comma is empty, one whose name is "-" is "-", and no field of Go is
-- called "-".
pub record IsPlain (f : StructMember) : Type 0 where
  pub named : f.tag ≢ [] → (cut f.tag).0 ≢ []
  pub undashed : (cut f.tag).0 ≡ dash → f.tag ≡ dash
  pub identifier : f.name ≢ dash

pub same_name :
    (f : StructMember)
    → IsPlain f
    → bytes_equal f.tag dash ≡ false
    → (parse_struct_tag_name f.tag f.name ≡ (parse_field_tag f.tag f.name).0)
      × (bytes_equal (parse_struct_tag_name f.tag f.name) dash ≡ false)
unfolding parse_struct_tag_name parse_field_tag
same_name f p ne = elim (Bool-cases (bytes_equal f.tag [])) [
  | inl e ↦ rw (e, ne) (refl, bytes_differ f.name dash p.identifier)
  | inr e ↦
      rw (e, ne, bytes_differ (cut f.tag).0 [] (p.named λ h. differs f.tag [] e h))
        (refl, bytes_differ (cut f.tag).0 dash λ h. differs f.tag dash ne (p.undashed h))
]

pub dashed :
    (f : StructMember) → bytes_equal f.tag dash ≡ true → parse_struct_tag_name f.tag f.name ≡ dash
unfolding parse_struct_tag_name
dashed f e = elim (Bool-cases (bytes_equal f.tag [])) [
  | inl n ↦ rw (n, e) refl
  | inr n ↦ rw (n, e) refl
]

abbrev pub decoder_keys : Fields → List (Bytes × FieldKind)
decoder_keys no_fields = []
decoder_keys (field name kind fs) = (pre_encode_string name, kind) ∷ decoder_keys fs

abbrev pub encoder_keys : List EncodeField → List (Bytes × FieldKind)
encoder_keys [] = []
encoder_keys (f ∷ fs) = (f.name_encoded, f.kind) ∷ encoder_keys fs

-- For one struct type, the encoder writes the fields that the decoder looks for, in the same order, under
-- the same names and with the same types, where no tag names nothing or "-" before a comma.
pub struct_keys_agree :
    (fs : List StructMember)
    → All IsPlain fs
    → encoder_keys (new_struct_encoder fs) ≡ decoder_keys (new_struct_decoder fs)
unfolding new_struct_encoder new_struct_decoder
struct_keys_agree [] all = refl
struct_keys_agree (f ∷ fs) (p, all) =
    let rest = struct_keys_agree fs all in
    elim (Bool-cases f.exported) [
      | inl x ↦ elim (Bool-cases (bytes_equal f.tag dash)) [
        | inl e ↦ rw (x, e, dashed f e, bytes_equal_refl dash) rest
        | inr ne ↦
            let (same, kept) = same_name f p ne in
            rw (x, ne, kept, same)
              (ap (λ ks. (pre_encode_string (parse_field_tag f.tag f.name).0, f.kind) ∷ ks) rest)
      ]
      | inr x ↦ rw x rest
    ]
