-- ===== src/Struct/RoundTrip.antt =====
-- StructDecoder on what StructEncoder wrote.
use msgpck.Base.{length, ◌≡◌, false, Bytes, List, [], ◌∷◌, ◌++◌, length, Option, some}
use msgpck.Config.{Config}
use msgpck.Encoder.{Encoder}
use msgpck.Struct.Kinds.{FieldKind, Fields, no_fields, field}
use msgpck.Struct.Tags.{EncodeField, pre_encode_string}

-- What the encoder comes to, and what it has appended.
abbrev pub Appends : Option Encoder → Encoder → Bytes → Type 0
Appends o e bs = (e' : Encoder) × (o ≡ some e') × (e'.buf ≡ e.buf ++ bs)

-- A table of fields for the encoder that goes with the decoder's, without omitempty.
pub data Matches : List EncodeField → Fields → Type 0 where
  match_none : Matches [] no_fields
  match_one :
      (name : Bytes) (kind : FieldKind) (es : List EncodeField) (fs : Fields)
      → Matches es fs
      → Matches
          (record { name_encoded = pre_encode_string name; kind = kind; omitempty = false } ∷ es)
          (field name kind fs)
