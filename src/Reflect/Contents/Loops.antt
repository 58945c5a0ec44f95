-- ===== src/Reflect/Contents/Loops.antt =====
-- The loops of Encode by reflection write what EncodeValue writes.
use msgpck.Base.{
  ℕ, suc, ◌≡◌, refl, ap, Bool, true, false, List, [], ◌∷◌, Bytes, Option, some, All, length,
  if◌then◌else◌,
}
use msgpck.Value.{Value, values_len, kvs_len}
use msgpck.Encoder.{
  Encoder, encode_value as write_value, encode_values, encode_kvs, encode_string,
  encode_string_bytes, encode_array_header, encode_map_header,
}
use msgpck.Struct.Kinds.{Scalar, v_string, v_int, v_uint, v_float64, v_float32, v_bool}
use msgpck.Struct.Encode.{encode_scalar, encode_pointed}
use msgpck.Reflect.Types.{
  GoValue, GoValues, GoPairs, no_slots, slot, no_pairs, pair, go_len, pairs_len,
}
use msgpck.Reflect.Info.{FieldInfo}
use msgpck.Reflect.Encode.{
  is_left_out, kept_fields, encode_elems, encode_slice, encode_pairs, encode_map, encode_fields,
}
use msgpck.Reflect.Contents.{
  AllValues, AllPairs, scalar_value, elems_value, pairs_value, fields_value,
}

-- `f` writes the Value `g v` of each `v` that `P` holds of.
abbrev pub Writes :
    (GoValue → Type 0) → (GoValue → Encoder → Option Encoder) → (GoValue → Value) → Type 0
Writes P f g = (v : GoValue) (e : Encoder) → P v → f v e ≡ some (write_value (g v) e)

pub same_string : (s : Bytes) (e : Encoder) → encode_string s e ≡ encode_string_bytes s e
unfolding encode_string encode_string_bytes
same_string s e = refl

pub encode_pointed_lem :
    (s : Scalar) (e : Encoder) → encode_pointed s e ≡ write_value (scalar_value s) e
unfolding encode_pointed encode_scalar write_value
encode_pointed_lem (v_string s) e = same_string s e
encode_pointed_lem (v_int v) e = refl
encode_pointed_lem (v_uint v) e = refl
encode_pointed_lem (v_float64 v) e = refl
encode_pointed_lem (v_float32 v) e = refl
encode_pointed_lem (v_bool b) e = refl

pub elems_len : (g : GoValue → Value) (vs : GoValues) → values_len (elems_value g vs) ≡ go_len vs
unfolding elems_value
elems_len g no_slots = refl
elems_len g (slot v vs) = ap (λ (n : ℕ). suc n) (elems_len g vs)

pub pairs_value-len : (g : GoValue → Value) (m : GoPairs) → kvs_len (pairs_value g m) ≡ pairs_len m
unfolding pairs_value
pairs_value-len g no_pairs = refl
pairs_value-len g (pair k v m) = ap (λ (n : ℕ). suc n) (pairs_value-len g m)

pub fields_value-len :
    (g : List ℕ → Value) (fs : List FieldInfo) → kvs_len (fields_value g fs) ≡ length fs
unfolding fields_value
fields_value-len g [] = refl
fields_value-len g (x ∷ fs) = ap (λ (n : ℕ). suc n) (fields_value-len g fs)

module _ {P : GoValue → Type 0} (f : GoValue → Encoder → Option Encoder) (g : GoValue → Value)
    (w : Writes P f g) where
  encode_elems_lem :
      (vs : GoValues) (e : Encoder)
      → AllValues P vs
      → encode_elems f vs e ≡ some (encode_values (elems_value g vs) e)
  unfolding encode_elems elems_value write_value
  encode_elems_lem no_slots e h = refl
  encode_elems_lem (slot v vs) e (h, h') = rw (w v e h) (encode_elems_lem vs _ h')

  pub encode_slice_lem :
      (vs : GoValues) (e : Encoder)
      → AllValues P vs
      → encode_slice f vs e
        ≡ some (
            encode_values
              (elems_value g vs)
              (encode_array_header (values_len (elems_value g vs)) e))
  unfolding encode_slice
  encode_slice_lem vs e h = rw (elems_len g vs) (encode_elems_lem vs _ h)

  encode_pairs_lem :
      (m : GoPairs) (e : Encoder)
      → AllPairs P m
      → encode_pairs f m e ≡ some (encode_kvs (pairs_value g m) e)
  unfolding encode_pairs pairs_value write_value encode_pointed encode_scalar
  encode_pairs_lem no_pairs e h = refl
  encode_pairs_lem (pair (v_string s) v m) e (h, h') =
      rw (same_string s e, w v (encode_string_bytes s e) h) (encode_pairs_lem m _ h')
  encode_pairs_lem (pair (v_int _) v m) e h = absurd h
  encode_pairs_lem (pair (v_uint _) v m) e h = absurd h
  encode_pairs_lem (pair (v_float64 _) v m) e h = absurd h
  encode_pairs_lem (pair (v_float32 _) v m) e h = absurd h
  encode_pairs_lem (pair (v_bool _) v m) e h = absurd h

  pub encode_map_lem :
      (m : GoPairs) (e : Encoder)
      → AllPairs P m
      → encode_map f m e
        ≡ some (encode_kvs (pairs_value g m) (encode_map_header (kvs_len (pairs_value g m)) e))
  unfolding encode_map
  encode_map_lem m e h = rw (pairs_value-len g m) (encode_pairs_lem m _ h)

-- A struct, whose fields are at indices of which `P` holds.
module _ {P : FieldInfo → Type 0} (f : List ℕ → Encoder → Option Encoder) (g : List ℕ → Value) where
  encode_fields_lem :
      ((i : FieldInfo) (e : Encoder) → P i → f i.index e ≡ some (write_value (g i.index) e))
      → (fs : List FieldInfo) (e : Encoder) → All P fs
      → encode_fields f fs e ≡ some (encode_kvs (fields_value g fs) e)
  unfolding encode_fields fields_value write_value
  encode_fields_lem w [] e h = refl
  encode_fields_lem w (x ∷ fs) e (h, h') = rw (w x _ h) (encode_fields_lem w fs _ h')

  -- With the header, whose count is that of the fields.
  pub encode_fields-encode_map_header :
      ((i : FieldInfo) (e : Encoder) → P i → f i.index e ≡ some (write_value (g i.index) e))
      → (fs : List FieldInfo) (e : Encoder) → All P fs
      → encode_fields f fs (encode_map_header (length fs) e)
        ≡ some (encode_kvs (fields_value g fs) (encode_map_header (kvs_len (fields_value g fs)) e))
  encode_fields-encode_map_header w fs e h =
      rw (fields_value-len g fs) (encode_fields_lem w fs (encode_map_header (length fs) e) h)

pub kept_fields-All :
    (P : FieldInfo → Type 0) (fs : List FieldInfo) (vs : GoValues)
    → All P fs
    → All P (kept_fields fs vs)
unfolding kept_fields
kept_fields-All P [] vs h = tt
kept_fields-All P (f ∷ fs) vs (h, h') = keep (is_left_out f vs) (kept_fields-All P fs vs h')
  where
    keep :
        (t : Bool)
        → All P (kept_fields fs vs)
        → All P (if t then kept_fields fs vs else f ∷ kept_fields fs vs)
    keep true r = r
    keep false r = (h, r)
