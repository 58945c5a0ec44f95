-- ===== src/Reflect/Restores/Structs.antt =====
-- The loop over the keys of a struct, where each field is restored.
use msgpck.Base.{ℕ, ◌+◌, ◌≡◌, Bool, true, false, ◌&&◌, List, [], ◌∷◌, Bytes, All, some, length}
use msgpck.Config.{Config}
use msgpck.Encoder.Wire.{wire, wire_kvs}
use msgpck.Encoder.Wire.Sizes.{length-wire_kvs}
use msgpck.Decoder.{M}
use msgpck.Decoder.Arrays.RoundTrip.{StringFits}
use msgpck.Decoder.Scalars.{Reads-map}
use msgpck.Decoder.Reads.{Reads}
use msgpck.Reflect.Types.{
  Label, GoType, Members, t_struct, no_members, member, GoValue, GoValues, g_struct, no_slots, slot,
  zero_value, zero_fields,
}
use msgpck.Reflect.Info.{
  FieldInfo, field_info, build_struct_info, build_struct_fields, find_field, field_by_index,
}
use msgpck.Reflect.Encode.{is_empty_value, is_left_out, kept_fields}
use msgpck.Reflect.Decode.{set_key, into_kind, set_at, into_value}
use msgpck.Reflect.Contents.{fields_value, value_of_go, value_at}
use msgpck.Reflect.Contents.Loops.{fields_value-len}
use msgpck.Reflect.Restored.{MapFits, IsShallow}
use msgpck.Reflect.Steps.{Steps, no_step, step, Reads-struct_entries}
use msgpck.Reflect.Fields.{Filled, Filled-end, nth_value-Filled}
use msgpck.Reflect.Restores.Kinds.{Reads-map_with}

-- Decoding the value of a key, and what the loops over the keys of a struct do with the fields `fs`.
abbrev pub setter : Members → Bytes → GoValues → M GoValues
setter ms key = set_key (set_at ms) (find_field key (build_struct_info ms))

abbrev pub field_bytes : Members → GoValues → List FieldInfo → Bytes
field_bytes ms vs fs = wire_kvs (fields_value (λ p. value_at ms p vs) (kept_fields fs vs))

abbrev pub Fills : Config → ℕ → Members → GoValues → GoValues → List FieldInfo → Type 0
Fills c k ms vs now fs =
    All (λ f. find_field f.name (build_struct_info ms) ≡ some f) fs
    → Steps c k (setter ms) (length (kept_fields fs vs)) now (field_bytes ms vs fs) vs

pub is_left_out-Filled :
    {i : ℕ} {ms : Members} {vs now : GoValues} {l : Label} {t : GoType} {ms' : Members}
    {v : GoValue} {vs' : GoValues} (b : Bool)
    → Filled i ms vs now (member l t ms') (slot v vs')
    → (field_info l []).omitempty && is_empty_value v ≡ b
    → is_left_out (field_info l (i ∷ [])) vs ≡ b
unfolding field_info field_by_index
is_left_out-Filled {l = l} {t = t} {ms' = ms'} {v = v} {vs' = vs'} b f e =
    rw (nth_value-Filled l t ms' v vs' _ _ _ _ f) e

pub Fills-none :
    {c : Config} (k : ℕ) (ms : Members) (vs : GoValues) (i : ℕ) (now : GoValues)
    → Filled i ms vs now no_members no_slots
    → Fills c k ms vs now (build_struct_fields no_members [] i)
unfolding build_struct_fields kept_fields fields_value wire
Fills-none k ms vs i now f named = rw (Filled-end i ms vs now f) (no_step vs)

module _ (c : Config) (k : ℕ) (ms : Members) (vs : GoValues) (f : FieldInfo)
    (fs : List FieldInfo) where
  pub Fills-omitted :
      (now : GoValues)
      → is_left_out f vs ≡ true
      → Fills c k ms vs now fs
      → Fills c k ms vs now (f ∷ fs)
  unfolding kept_fields
  Fills-omitted now e h (n, ns) = rw e (h ns)

  pub Fills-kept :
      (now next : GoValues)
      → is_left_out f vs ≡ false
      → StringFits c f.name
      → Reads c k (set_at ms f.index now) (wire (value_at ms f.index vs)) next
      → Fills c k ms vs next fs
      → Fills c k ms vs now (f ∷ fs)
  unfolding kept_fields fields_value wire set_key
  Fills-kept now next e s r h (n, ns) = rw e (step _ f.name now next vs _ _ s (rw n r) (h ns))

pub Reads-struct_value :
    {c : Config} (k : ℕ) (ms : Members) (vs : GoValues)
    → MapFits c (length (kept_fields (build_struct_info ms) vs))
    → IsShallow c k
    → Steps c
        (k + 1)
        (setter ms)
        (length (kept_fields (build_struct_info ms) vs))
        (zero_fields ms)
        (field_bytes ms vs (build_struct_info ms))
        vs
    → Reads c k
        (into_value (t_struct ms) (zero_value (t_struct ms)))
        (wire (value_of_go (t_struct ms) (g_struct vs)))
        (g_struct vs)
unfolding into_value into_kind value_of_go wire zero_value
Reads-struct_value k ms vs fits deep steps =
    let kept = kept_fields (build_struct_info ms) vs in
    let len = fields_value-len (λ p. value_at ms p vs) kept in
    rw len (
      Reads-map_with _ _ (length kept) _ (g_struct vs) fits deep
        (rw len at (length-wire_kvs (fields_value (λ p. value_at ms p vs) kept)))
        (Reads-map _ g_struct _ vs (Reads-struct_entries _ _ _ _ steps)))
