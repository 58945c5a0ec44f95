-- ===== src/Reflect/RoundTrip.antt =====
-- Unmarshal and DecodeStruct on what Marshal wrote for a struct.
use msgpck.Base.{ℕ, ◌≡◌, refl, ap, ◌∙◌, Bytes, [], some, length, append-nil}
use msgpck.Config.{Config}
use msgpck.Encoder.{new_encoder}
use msgpck.Encoder.Refines.{IsSized, buf-encode_value}
use msgpck.Encoder.Wire.{wire}
use msgpck.Encoder.Wire.Sizes.{length-wire_kvs}
use msgpck.Decoder.{M, ok, new_decoder_with_config}
use msgpck.Decoder.Scalars.{Reads-map}
use msgpck.Decoder.Reads.{Reads}
use msgpck.Decoder.Written.{Reads-appended}
use msgpck.Reflect.Types.{
  Members, t_struct, t_pointer, GoValues, g_struct, g_pointer, zero_value, zero_fields,
}
use msgpck.Reflect.Info.{build_struct_info}
use msgpck.Reflect.Decode.{decode_fields, decode_struct, top_entries}
use msgpck.Reflect.Unmarshal.{decode_reflect, decode_into, unmarshal_with_config}
use msgpck.Reflect.Encode.{marshal, buf_of, kept_fields}
use msgpck.Reflect.Contents.{IsWritable, fields_value, value_of_go, value_at, encoded_value}
use msgpck.Reflect.Contents.Loops.{fields_value-len}
use msgpck.Reflect.Contents.Written.{encode-encode_value}
use msgpck.Reflect.Restored.{Restored, restored_struct}
use msgpck.Reflect.Steps.{Reads-top_entries}
use msgpck.Reflect.Fields.{at_start}
use msgpck.Reflect.Restores.{Steps-fields}
use msgpck.Reflect.Restores.Kinds.{Reads-map_body}
use msgpck.Reflect.Restores.Structs.{setter}

Reads-decode_fields :
    {c : Config} {k : ℕ} (ms : Members) (vs : GoValues)
    → Restored c k (t_struct ms) (g_struct vs)
    → Reads c k
        (decode_fields ms (zero_fields ms))
        (wire (value_of_go (t_struct ms) (g_struct vs)))
        vs
unfolding decode_fields value_of_go wire build_struct_info
Reads-decode_fields {k = k} ms vs (restored_struct _ _ _ fits deep named h) =
    let kept = kept_fields (build_struct_info ms) vs in
    let len = fields_value-len (λ p. value_at ms p vs) kept in
    rw len (
      Reads-map_body (zero_fields ms) (λ n. top_entries (setter ms) n (zero_fields ms))
        (length kept) _ vs fits deep
        (rw len at (length-wire_kvs (fields_value (λ p. value_at ms p vs) kept)))
        (Reads-top_entries _ _ _ _ (Steps-fields _ ms vs 0 _ ms vs h (at_start ms vs) named)))

-- A method that reads the whole buffer.
on_buffer :
    {A : Type 0} (c : Config) (m : M A) (bs : Bytes) (a : A)
    → Reads c 0 m bs a
    → m (new_decoder_with_config bs c)
      ≡ ok a (record (new_decoder_with_config bs c) { pos = length bs })
on_buffer c m bs a r = rw (append-nil bs) at (Reads-appended m bs a [] bs [] r refl)

-- A struct that Marshal writes is restored by Unmarshal under the same limits, and by DecodeStruct, into a
-- new variable of its type, and all of the bytes are taken: where the fields that are written hold words
-- of their types other than float32, strings, byte slices, or slices, maps with string keys and structs
-- of such values, no struct is embedded and no pointer set, the names are different, the fields that are
-- not written are zero, and all lengths and the nesting are within the limits and the length prefixes.
pub unmarshal-marshal :
    (ms : Members) (vs : GoValues) (c : Config)
    → IsWritable (t_struct ms) (g_struct vs)
    → IsSized (value_of_go (t_struct ms) (g_struct vs))
    → Restored c 0 (t_struct ms) (g_struct vs)
    → (bs : Bytes) × (marshal (t_struct ms) (g_struct vs) ≡ some bs)
      × (unmarshal_with_config (t_pointer (t_struct ms)) (g_pointer (zero_value (t_struct ms))) bs c
          ≡ ok
              (g_pointer (g_struct vs))
              (record (new_decoder_with_config bs c) { pos = length bs }))
      × (decode_struct
            (t_pointer (t_struct ms))
            (g_pointer (zero_value (t_struct ms)))
            (new_decoder_with_config bs c)
          ≡ ok
              (g_pointer (g_struct vs))
              (record (new_decoder_with_config bs c) { pos = length bs }))
unfolding marshal unmarshal_with_config decode_into decode_reflect decode_struct zero_value
    encoded_value
unmarshal-marshal ms vs c w s h =
    let x = value_of_go (t_struct ms) (g_struct vs) in
    let fields = Reads-decode_fields ms vs h in
    (
      wire x,
      ap buf_of (encode-encode_value (t_struct ms) (g_struct vs) (new_encoder 256) w)
          ∙ ap some (buf-encode_value x (new_encoder 256) s),
      on_buffer c _ (wire x) _ (Reads-map _ g_pointer _ _ (Reads-map _ g_struct _ vs fields)),
      on_buffer c _ (wire x) _ (Reads-map _ (λ vs. g_pointer (g_struct vs)) _ vs fields),
    )
