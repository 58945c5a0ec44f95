-- ===== src/Reflect/Safety.antt =====
-- DecodeStruct and Unmarshal are safe on every input.
use msgpck.Base.{ℕ, suc, ◌≤◌, ◌≡◌, ◌≢◌, refl, arith, length, Bytes, All}
use msgpck.Config.{Config}
use msgpck.Decoder.{
  Decoder, Outcome, ok, panic, stuck, M, new_decoder, new_decoder_with_config, remaining,
}
use msgpck.Decoder.Contract.{
  IsByte, IsValid, Good, Failed, Ensures, Ensures-ok, Ensures-panic, Ensures-stuck,
}
use msgpck.Decoder.Contract.Calm.{Calm, Calm-fail, Calm-pure, Calm-bind}
use msgpck.Reflect.Types.{
  GoType, t_struct, t_pointer, t_time, no_members, no_slots, GoValue, g_pointer, elems_of,
}
use msgpck.Reflect.Decode.{decode_struct}
use msgpck.Reflect.Unmarshal.{decode_into, unmarshal, unmarshal_with_config}
use msgpck.Reflect.Calm.Kinds.{Calm-decode_fields}
use msgpck.Reflect.Calm.Unmarshal.{Calm-decode_into}

-- An outcome from `d` that is no panic, and if it is a result, leaves the bytes, the configuration and
-- the depth as they were and stops within the bytes, not before it began.
abbrev pub EndsWell : {A : Type 0} → Decoder → Outcome A → Type 0
EndsWell {A} d o =
    (o ≢ panic)
    × (o ≢ stuck)
    × ((a : A) (d' : Decoder)
        → o ≡ ok a d'
        → (d'.input ≡ d.input)
          × (d'.cfg ≡ d.cfg)
          × (d'.depth ≡ d.depth)
          × (d.pos ≤ d'.pos)
          × (d'.pos ≤ length d.input))

Calm-EndsWell :
    {A : Type 0} (m : M A) (d : Decoder)
    → Calm d.cfg d.depth (suc (remaining d)) m
    → IsValid d
    → EndsWell d (m d)
Calm-EndsWell m d h v =
    let all : Ensures (Good (λ _. 0) (λ _. Unit) d) (Failed d) (m d) =
      h.run d v refl refl (omega arith) in
    (
      Ensures-panic all,
      Ensures-stuck all,
      λ a d' e.
          let g = Ensures-ok all e in
          (g.same_input, g.same_cfg, g.same_depth, omega (arith, g.taken), g.inside),
    )

Calm-decode_struct :
    {c : Config} {k n : ℕ} (t : GoType) (v : GoValue) → Calm c k n (decode_struct t v)
unfolding decode_struct
Calm-decode_struct {k = k} (t_pointer (t_struct ms)) (g_pointer v) =
    Calm-bind _ _ (Calm-decode_fields ms k (elems_of v)) λ vs. Calm-pure _
Calm-decode_struct {k = k} (t_pointer t_time) (g_pointer v) =
    Calm-bind _ _ (Calm-decode_fields no_members k no_slots) λ vs. Calm-pure _
Calm-decode_struct (t_pointer _) _ = Calm-fail _
Calm-decode_struct _ _ = Calm-fail _

-- On any bytes, from any position within them, for a target of any modelled type, however its structs
-- are embedded and tagged, Decoder.DecodeStruct ends without a panic: no index or slice is out of
-- bounds, and FieldByIndex finds a field for every name. Where it returns, the bytes, the configuration
-- and the depth are as before, and it has stopped within the bytes, not before it began.
pub decode_struct_total :
    (t : GoType) (v : GoValue) (d : Decoder) → IsValid d → EndsWell d (decode_struct t v d)
decode_struct_total t v d h = Calm-EndsWell (decode_struct t v) d (Calm-decode_struct t v) h

-- On any bytes, under any configuration, for a target of any modelled type, Unmarshal and
-- UnmarshalWithConfig end without a panic; where they return, the decoder that they used has kept the
-- bytes and the configuration and is at depth 0.
pub unmarshal_total :
    (t : GoType) (v : GoValue) (bs : Bytes) (c : Config)
    → All IsByte bs
    → EndsWell (new_decoder bs) (unmarshal t v bs)
      × EndsWell (new_decoder_with_config bs c) (unmarshal_with_config t v bs c)
unfolding unmarshal unmarshal_with_config
unmarshal_total t v bs c h = (
  Calm-EndsWell (decode_into t v) (new_decoder bs) (Calm-decode_into t v)
      (record { within = omega arith; are_bytes = h }),
  Calm-EndsWell (decode_into t v) (new_decoder_with_config bs c) (Calm-decode_into t v)
      (record { within = omega arith; are_bytes = h }),
)
