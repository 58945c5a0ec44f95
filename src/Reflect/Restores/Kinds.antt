-- ===== src/Reflect/Restores/Kinds.antt =====
-- Each kind of value is restored where what stands inside is.
use msgpck.Base.{
  ℕ, suc, ◌+◌, ◌<◌, ◌^◌, ◌≤◌, ◌*◌, ◌≡◌, refl, arith, false, [], ◌∷◌, ◌++◌, Bytes, length, ◌==◌,
  if◌then◌else◌,
}
use msgpck.Config.{Config, exceeds}
use msgpck.Errors.{array_too_long, map_too_long}
use msgpck.Format.{format_nil}
use msgpck.Any.{go_nil}
use msgpck.Encoder.Any.Agree.{value_of}
use msgpck.Encoder.Wire.{wire, wire_values, wire_kvs, array_header, map_header, binary_header}
use msgpck.Encoder.Arrays.{string_bytes}
use msgpck.Encoder.Wire.Sizes.{length-wire_values, length-wire_kvs}
use msgpck.Decoder.{M, ◌>>=◌, ◌>>◌, pure, read_byte, enter_container, deferring_leave}
use msgpck.Decoder.Limits.{validate_array_len, validate_map_len}
use msgpck.Decoder.Lengths.{decode_value_bytes, parse_map_len}
use msgpck.Decoder.Arrays.RoundTrip.{Reads-array_len, StringFits}
use msgpck.Decoder.Scalars.{Reads-map}
use msgpck.Decoder.Reads.{Reads, Reads-pure, Reads-bind, Reads-byte, Reads-check, Reads-container}
use msgpck.Struct.Kinds.{ScalarKind, Scalar, k_string, v_string}
use msgpck.Struct.Loop.{NotNil-map_header}
use msgpck.Struct.SliceReads.{SliceFits}
use msgpck.Struct.Reads.{
  Holds, NotNil, NotNil-scalar_bytes, Reads-unless_nil, Reads-made, holds_string,
}
use msgpck.Reflect.Types.{
  GoType, t_scalar, t_bytes, t_slice, t_map, t_any, GoValue, GoValues, GoPairs, g_scalar, g_nil,
  g_bytes, g_slice, g_map, g_any, no_slots, slot, no_pairs, go_len, pairs_len, zero_value,
}
use msgpck.Reflect.Encode.{reflected}
use msgpck.Reflect.Decode.{
  into_key, into_scalar, into_array_with, into_map_with, slice_elems, map_entries, or_zero,
  into_kind, into_value,
}
use msgpck.Reflect.Contents.{elems_value, pairs_value, value_of_go}
use msgpck.Reflect.Contents.Loops.{elems_len, pairs_value-len}
use msgpck.Reflect.Reads.{wire-scalar_value, Reads-map_len, Reads-into_scalar, Reads-value_bytes}
use msgpck.Reflect.Restored.{
  IsNilable, nil_bytes, nil_slice, nil_map, nil_pointer, MapFits, IsShallow,
}
use msgpck.Reflect.Pairs.{append_pairs, append_pairs-none}

NotNil-array_header : (n : ℕ) (xs : Bytes) → NotNil (array_header n ++ xs)
unfolding array_header
NotNil-array_header n xs = ground arith

NotNil-binary_header : (n : ℕ) (xs : Bytes) → NotNil (binary_header n ++ xs)
unfolding binary_header
NotNil-binary_header n xs = ground arith

module _ {c : Config} {k : ℕ} where
  -- A container, whose body is read one level deeper.
  pub Reads-array_with :
      (old : GoValue) (body : ℕ → M GoValue) (n : ℕ) (xs : Bytes) (v : GoValue)
      → SliceFits c n
      → IsShallow c k
      → n ≤ length xs
      → Reads c (k + 1) (body n) xs v
      → Reads c k (or_zero old (into_array_with body)) (array_header n ++ xs) v
  unfolding or_zero into_array_with validate_array_len
  Reads-array_with old body n xs v (l, fits) deep enough r =
      Reads-unless_nil (pure old) (into_array_with body) _ v (NotNil-array_header n xs) (
        Reads-array_len n _ xs v l (
          Reads-check array_too_long (λ c. c.max_array_len) n n _ xs v fits enough
            (Reads-container (body n) xs v deep r)))

  -- The same for a map; DecodeStruct has it with another body.
  pub Reads-map_body :
      {A : Type 0} (old : A) (body : ℕ → M A) (n : ℕ) (xs : Bytes) (v : A)
      → MapFits c n
      → IsShallow c k
      → n * 2 ≤ length xs
      → Reads c (k + 1) (body n) xs v
      → Reads c k
          (read_byte >>= λ f.
            if f == format_nil
            then pure old
            else (parse_map_len f >>= λ n.
                validate_map_len n >> (enter_container >> deferring_leave (body n))))
          (map_header n ++ xs)
          v
  unfolding validate_map_len
  Reads-map_body old body n xs v (l, fits) deep enough r =
      Reads-unless_nil (pure old) _ _ v (NotNil-map_header n xs) (
        Reads-map_len n _ xs v l (
          Reads-check map_too_long (λ c. c.max_map_len) n (n * 2) _ xs v fits enough
            (Reads-container (body n) xs v deep r)))

  pub Reads-map_with :
      (old : GoValue) (body : ℕ → M GoValue) (n : ℕ) (xs : Bytes) (v : GoValue)
      → MapFits c n
      → IsShallow c k
      → n * 2 ≤ length xs
      → Reads c (k + 1) (body n) xs v
      → Reads c k (or_zero old (into_map_with body)) (map_header n ++ xs) v
  unfolding or_zero into_map_with
  Reads-map_with old body n xs v fits deep enough r =
      Reads-map_body old body n xs v fits deep enough r

  pub Reads-nil :
      (t : GoType)
      → IsNilable t
      → Reads c k (into_value t (zero_value t)) (wire (value_of_go t g_nil)) g_nil
  unfolding into_value or_zero zero_value value_of_go wire
  Reads-nil _ nil_bytes =
      Reads-bind read_byte _ (0xc0 ∷ []) [] 0xc0 _ (Reads-byte 0xc0) (Reads-pure _)
  Reads-nil _ (nil_slice t) =
      Reads-bind read_byte _ (0xc0 ∷ []) [] 0xc0 _ (Reads-byte 0xc0) (Reads-pure _)
  Reads-nil _ (nil_map _ t) =
      Reads-bind read_byte _ (0xc0 ∷ []) [] 0xc0 _ (Reads-byte 0xc0) (Reads-pure _)
  Reads-nil _ (nil_pointer t) =
      Reads-bind read_byte _ (0xc0 ∷ []) [] 0xc0 _ (Reads-byte 0xc0) (Reads-pure _)

  pub Reads-into_key :
      (s : Bytes) → StringFits c s → Reads c k (into_key k_string) (string_bytes s) (v_string s)
  unfolding into_key
  Reads-into_key s h =
      Reads-unless_nil (pure _) (into_scalar k_string) _ _
        (NotNil-scalar_bytes {c = c} k_string (v_string s) (holds_string s h))
        (Reads-into_scalar k_string (v_string s) (holds_string s h))

  pub Reads-nil_any :
      Reads c k
        (into_value t_any (zero_value t_any))
        (wire (value_of_go t_any (g_any go_nil)))
        (g_any go_nil)
  unfolding into_value or_zero zero_value value_of_go value_of reflected wire
  Reads-nil_any = Reads-bind read_byte _ (0xc0 ∷ []) [] 0xc0 _ (Reads-byte 0xc0) (Reads-pure _)

  pub Reads-scalar_value :
      (kind : ScalarKind) (s : Scalar)
      → Holds c kind s
      → Reads c k
          (into_value (t_scalar kind) (zero_value (t_scalar kind)))
          (wire (value_of_go (t_scalar kind) (g_scalar s)))
          (g_scalar s)
  unfolding into_value or_zero into_kind value_of_go
  Reads-scalar_value kind s h = rw (wire-scalar_value kind s h) (
      Reads-unless_nil (pure _) (λ f. into_scalar kind f >>= λ s. pure (g_scalar s)) _ _
        (NotNil-scalar_bytes kind s h)
        (Reads-made (into_scalar kind) g_scalar _ s _ refl (Reads-into_scalar kind s h)))

  pub Reads-bytes_value :
      (b : Bytes)
      → length b < 2 ^ 32
      → exceeds (length b) c.max_binary_len ≡ false
      → Reads c k
          (into_value t_bytes (zero_value t_bytes))
          (wire (value_of_go t_bytes (g_bytes b)))
          (g_bytes b)
  unfolding into_value or_zero into_kind value_of_go wire
  Reads-bytes_value b l fits =
      Reads-unless_nil (pure _) (λ f. decode_value_bytes f >>= λ s. pure (g_bytes s)) _ _
        (NotNil-binary_header (length b) b)
        (Reads-made decode_value_bytes g_bytes _ b _ refl (Reads-value_bytes b l fits))

  pub Reads-slice_value :
      (t : GoType) (vs : GoValues)
      → SliceFits c (go_len vs)
      → IsShallow c k
      → Reads c
          (k + 1)
          (slice_elems (into_value t (zero_value t)) (go_len vs))
          (wire_values (elems_value (value_of_go t) vs))
          vs
      → Reads c k
          (into_value (t_slice t) (zero_value (t_slice t)))
          (wire (value_of_go (t_slice t) (g_slice vs)))
          (g_slice vs)
  unfolding into_value into_kind value_of_go wire
  Reads-slice_value t vs fits deep r =
      let len = elems_len (value_of_go t) vs in
      rw len (
        Reads-array_with _ _ (go_len vs) _ (g_slice vs) fits deep
          (rw len at (length-wire_values (elems_value (value_of_go t) vs)))
          (Reads-map _ g_slice _ vs r))

  pub Reads-map_value :
      (t : GoType) (m : GoPairs)
      → MapFits c (pairs_len m)
      → IsShallow c k
      → Reads c
          (k + 1)
          (map_entries (into_key k_string) (into_value t (zero_value t)) (pairs_len m) no_pairs)
          (wire_kvs (pairs_value (value_of_go t) m))
          m
      → Reads c k
          (into_value (t_map k_string t) (zero_value (t_map k_string t)))
          (wire (value_of_go (t_map k_string t) (g_map m)))
          (g_map m)
  unfolding into_value into_kind value_of_go wire zero_value
  Reads-map_value t m fits deep r =
      let len = pairs_value-len (value_of_go t) m in
      rw len (
        Reads-map_with _ _ (pairs_len m) _ (g_map m) fits deep
          (rw len at (length-wire_kvs (pairs_value (value_of_go t) m))) (Reads-map _ g_map _ m r))

  pub Reads-no_elems :
      (t : GoType)
      → Reads c k
          (slice_elems (into_value t (zero_value t)) 0)
          (wire_values (elems_value (value_of_go t) no_slots))
          no_slots
  unfolding slice_elems elems_value wire
  Reads-no_elems t = Reads-pure no_slots

  pub Reads-one_elem :
      (t : GoType) (v : GoValue) (vs : GoValues)
      → Reads c k (into_value t (zero_value t)) (wire (value_of_go t v)) v
      → Reads c k
          (slice_elems (into_value t (zero_value t)) (go_len vs))
          (wire_values (elems_value (value_of_go t) vs))
          vs
      → Reads c k
          (slice_elems (into_value t (zero_value t)) (suc (go_len vs)))
          (wire_values (elems_value (value_of_go t) (slot v vs)))
          (slot v vs)
  unfolding slice_elems elems_value wire
  Reads-one_elem t v vs r rs =
      Reads-bind (into_value t (zero_value t)) _ _ _ v (slot v vs) r (Reads-map _ (slot v) _ vs rs)

  pub Reads-no_pairs :
      (t : GoType) (m₀ : GoPairs)
      → Reads c k
          (map_entries (into_key k_string) (into_value t (zero_value t)) 0 m₀)
          (wire_kvs (pairs_value (value_of_go t) no_pairs))
          (append_pairs m₀ no_pairs)
  unfolding map_entries pairs_value wire
  Reads-no_pairs t m₀ = rw (append_pairs-none m₀) (Reads-pure m₀)
