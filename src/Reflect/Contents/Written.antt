-- ===== src/Reflect/Contents/Written.antt =====
-- Encode by reflection writes a Go value as EncodeValue writes the Value with its contents.
use msgpck.Base.{ℕ, ◌≡◌, refl, ap, List, [], Bytes, some, length, append-nil}
use msgpck.Config.{Config}
use msgpck.Value.{Value}
use msgpck.Encoder.{
  Encoder, new_encoder, encode_value as write_value, encode_array_header, encode_map_header,
}
use msgpck.Encoder.Refines.{IsSized}
use msgpck.Encoder.Any.Agree.{encode_any-encode_value}
use msgpck.Decoder.{ok, new_decoder_with_config}
use msgpck.Decoder.Values.{decode}
use msgpck.Decoder.Canonical.{Fits, canonical}
use msgpck.Decoder.RoundTrip.{decode-encode_value}
use msgpck.Struct.Kinds.{k_string, v_string, v_int, v_uint, v_float64, v_float32, v_bool}
use msgpck.Struct.Encode.{encode_scalar, encode_pointed}
use msgpck.Reflect.Types.{
  GoType, Members, t_scalar, t_bytes, t_slice, t_array, t_map, t_struct, t_pointer, t_any, t_time,
  no_members, member, GoValue, GoValues, g_scalar, g_nil, g_bytes, g_slice, g_array, g_map,
  g_struct, g_pointer, g_any, g_time, no_slots, slot,
}
use msgpck.Reflect.Info.{build_struct_info}
use msgpck.Reflect.Encode.{
  kept_fields, encode_struct, encode_value, encode_at, encode_inside, encode_item, reflected,
  encode, marshal, buf_of,
}
use msgpck.Reflect.Paths.{Leads, here, later, inside, LeadsTo, build_struct_info-LeadsTo}
use msgpck.Reflect.Contents.{
  IsWritable, AreWritable, value_of_go, value_at, value_inside, item_value, encoded_value,
}
use msgpck.Reflect.Shows.Top.{Encodes, encoded_value-Encodes}
use msgpck.Reflect.Contents.Loops.{
  same_string, encode_pointed_lem, encode_slice_lem, encode_map_lem,
  encode_fields-encode_map_header, kept_fields-All,
}

mutual
  unfolding encode_value encode_at encode_inside write_value value_of_go value_at value_inside
      IsWritable AreWritable encode_struct

  encode_value_lem :
      (t : GoType) (v : GoValue) (e : Encoder)
      → IsWritable t v
      → encode_value t v e ≡ some (write_value (value_of_go t v) e)
  encode_value_lem (t_scalar _) (g_scalar s) e h = ap some (encode_pointed_lem s e)
  encode_value_lem t_bytes (g_bytes b) e h = refl
  encode_value_lem t_bytes g_nil e h = refl
  encode_value_lem (t_slice t) (g_slice vs) e h =
      encode_slice_lem _ _ (λ v e' h'. encode_value_lem t v e' h') vs e h
  encode_value_lem (t_slice t) g_nil e h = refl
  encode_value_lem (t_array _ t) (g_array vs) e h =
      encode_slice_lem _ _ (λ v e' h'. encode_value_lem t v e' h') vs e h
  encode_value_lem (t_map _ t) (g_map m) e h =
      encode_map_lem _ _ (λ v e' h'. encode_value_lem t v e' h') m e h
  encode_value_lem (t_map _ t) g_nil e h = refl
  encode_value_lem (t_struct ms) (g_struct vs) e h =
      encode_fields-encode_map_header _ _ (λ i e' p. encode_at_lem ms i.index p vs e' h)
        (kept_fields (build_struct_info ms) vs) e
        (kept_fields-All (LeadsTo ms) (build_struct_info ms) vs (build_struct_info-LeadsTo ms))
  encode_value_lem (t_pointer t) (g_pointer v) e h = encode_value_lem t v e h
  encode_value_lem (t_pointer t) g_nil e h = refl
  encode_value_lem t_any (g_any a) e h = ap some (encode_any-encode_value (reflected a) e)
  encode_value_lem t_time (g_time t) e h = refl
  encode_value_lem _ _ e h = absurd h

  encode_at_lem :
      (ms : Members) (p : List ℕ)
      → Leads ms p
      → (vs : GoValues) (e : Encoder) → AreWritable ms vs
      → encode_at ms p vs e ≡ some (write_value (value_at ms p vs) e)
  encode_at_lem no_members p q vs e h = elim q [ ]
  encode_at_lem (member l t ms) _ (here s) (slot v vs) e (h, h') = encode_value_lem t v e (h s)
  encode_at_lem (member l t ms) _ (later q) (slot v vs) e (h, h') = encode_at_lem ms _ q vs e h'
  encode_at_lem (member l (t_struct ms') ms) _ (inside s q) (slot (g_struct us) vs) e (h, h') =
      encode_at_lem ms' _ q us e (h s)
  encode_at_lem (member l (t_struct ms') ms) _ (inside s q) (slot _ vs) e (h, h') = absurd (h s)
  encode_at_lem (member l t ms) _ _ no_slots e h = absurd h

encode_item_lem :
    (v : GoValue) (e : Encoder)
    → IsWritable t_any v
    → encode_item v e ≡ some (write_value (item_value v) e)
unfolding encode_item IsWritable
encode_item_lem (g_any a) e h = ap some (encode_any-encode_value a e)
encode_item_lem _ e h = absurd h

-- With the Value that Reflect.Contents computes.
pub encode-encode_value :
    (t : GoType) (v : GoValue) (e : Encoder)
    → IsWritable t v
    → encode t v e ≡ some (write_value (encoded_value t v) e)
unfolding encode encode_scalar encode_pointed write_value encoded_value IsWritable encode_value
    value_of_go encode_array_header encode_map_header
encode-encode_value (t_scalar _) (g_scalar (v_string s)) e h = ap some (same_string s e)
encode-encode_value (t_scalar _) (g_scalar (v_int v)) e h = refl
encode-encode_value (t_scalar _) (g_scalar (v_uint v)) e h = refl
encode-encode_value (t_scalar _) (g_scalar (v_float64 v)) e h = refl
encode-encode_value (t_scalar _) (g_scalar (v_float32 v)) e h = refl
encode-encode_value (t_scalar _) (g_scalar (v_bool b)) e h = refl
encode-encode_value t_bytes g_nil e h = refl
encode-encode_value (t_slice t_any) g_nil e h = refl
encode-encode_value (t_map k_string t_any) g_nil e h = refl
encode-encode_value (t_slice t_any) (g_slice vs) e h = encode_slice_lem _ _ encode_item_lem vs e h
encode-encode_value (t_map k_string t_any) (g_map m) e h = encode_map_lem _ _ encode_item_lem m e h
encode-encode_value t_any v e h = encode_item_lem v e h
encode-encode_value t v e h = encode_value_lem t v e h

-- Encode, of every modelled Go value of a supported type with string keys in its maps, has no error, and
-- does to the encoder what EncodeValue does on the Value that the Go value is as a message: a struct is
-- the map of its exported fields in the order of the declaration, an embedded struct's fields in its
-- place, each other one under the name of its tag or its own, without those of them that are tagged "-"
-- or are empty where the tag's options hold omitempty; a time.Time is an empty map; a pointer is what it
-- points to, and nil but for the cases that Encode's switch knows is nil. Behind an interface stand
-- values as the decoders make them.
pub encode-Encodes :
    (t : GoType) (v : GoValue) (e : Encoder)
    → IsWritable t v
    → (x : Value) × Encodes t v x × (encode t v e ≡ some (write_value x e))
encode-Encodes t v e h =
    (encoded_value t v, encoded_value-Encodes t v h, encode-encode_value t v e h)

-- Decode of what Marshal returned for such a value takes all of the bytes and gives the canonical form
-- of the Value that the Go value is as a message, where that Value's words and lengths, as Encode writes
-- them, are in range and within the limits.
pub decode-marshal_go :
    (t : GoType) (v : GoValue) (c : Config)
    → IsWritable t v
    → IsSized (encoded_value t v)
    → Fits c 0 (encoded_value t v)
    → (x : Value) × Encodes t v x
      × ((bs : Bytes) × (marshal t v ≡ some bs)
          × (decode (new_decoder_with_config bs c)
              ≡ ok (canonical x) (record (new_decoder_with_config bs c) { pos = length bs })))
unfolding marshal
decode-marshal_go t v c h s f =
    let x = encoded_value t v in
    let written = write_value x (new_encoder 256) in
    (
      x,
      encoded_value-Encodes t v h,
      (
        written.buf,
        ap buf_of (encode-encode_value t v (new_encoder 256) h),
        rw (append-nil written.buf) at (decode-encode_value x (new_encoder 256) [] c 0 s f),
      ),
    )
