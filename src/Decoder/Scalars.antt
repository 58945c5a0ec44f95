-- ===== src/Decoder/Scalars.antt =====
-- The decoder reads the encoded form of numbers, texts and extensions, inside a value of any kind.
pub mod Numbers
pub mod Texts
use msgpck.Base.{
  ℕ, ◌+◌, ◌-◌, ◌%◌, ◌^◌, ◌≤◌, ◌<◌, ◌≡◌, refl, ap, ◌∙◌, Bool, true, false, Bytes, [], ◌∷◌, ◌++◌,
  arith, length, leb, leb→le, if◌then◌else◌, ◌==◌, ==_iff, Bool-cases, inl, inr, length-append,
}
use msgpck.Base.Words.{
  ℤ, pos, negsuc, IsInt8, IsInt64, be16, be32, be64, to_int8, to_int16, to_int32, to_int64,
}
use msgpck.Config.{Config, exceeds}
use msgpck.Errors.{string_too_long, binary_too_long, ext_too_long}
use msgpck.Value.{Value, nil, bool, int, uint, float32, float64, string, binary, ext}
use msgpck.Encoder.Wire.{uint_bytes, int_bytes, string_header, binary_header, ext_header, int8_byte}
use msgpck.Decoder.{
  M, pure, ◌>>=◌, ◌>>◌, read_byte, read_bytes, read_uint8, read_uint16, read_uint32, read_uint64,
  read_int8, read_int16, read_int32, read_int64, read_float32, read_float64,
}
use msgpck.Decoder.Limits.{validate_string_len, validate_binary_len, validate_ext_len}
use msgpck.Decoder.Lengths.{parse_string_len_switch, parse_binary_len}
use msgpck.Decoder.Values.{
  decode_inside, decode_value_with, decode_format, decode_uint_to_value, decode_int_to_value,
  decode_float_to_value, decode_string, decode_binary, decode_ext, decode_value_ext_var,
}
use msgpck.Decoder.Dispatch.{dispatch_pos, dispatch_neg, dispatch_string, dispatch_format}
use msgpck.Decoder.Reads.{
  Reads, Reads-pure, Reads-if, Reads-bind, Reads-check, Reads-byte, Reads-uint16, Reads-uint32,
  Reads-uint64, Reads-bytes,
}

type_read : (t : ℤ) → IsInt8 t → to_int8 (int8_byte t) ≡ t
unfolding to_int8
type_read (pos n) h = ground arith
type_read (negsuc n) h = ground arith

module _ {c : Config} {k : ℕ} where
  -- A read, and the value made of what it gives.
  pub Reads-map {ℓ κ} :
      {A : Type ℓ} {B : Type κ} (m : M A) (g : A → B) (bs : Bytes) (a : A)
      → Reads c k m bs a
      → Reads c k (m >>= λ v. pure (g v)) bs (g a)
  Reads-map m g bs a r = record { run = λ d rest hc hk hp h. rw (r.run d rest hc hk hp h) }

  -- The same, where what is made of it is known.
  pub Reads-map_to {ℓ κ} :
      {A : Type ℓ} {B : Type κ} (m : M A) (g : A → B) (bs : Bytes) (a : A) (b : B)
      → g a ≡ b
      → Reads c k m bs a
      → Reads c k (m >>= λ v. pure (g v)) bs b
  Reads-map_to m g bs a b e r = rw e at (Reads-map m g bs a r)

  -- decodeString, decodeBinary and decodeExt, where the limit allows the length.
  pub Reads-decode_string :
      (s : Bytes)
      → exceeds (length s) c.max_string_len ≡ false
      → Reads c k (decode_string (length s)) s (string s)
  unfolding decode_string validate_string_len
  Reads-decode_string s fits =
      Reads-check string_too_long (λ c. c.max_string_len) (length s) (length s) _ s (string s) fits
        (omega arith) (Reads-map (read_bytes (length s)) string s s (Reads-bytes (length s) s refl))

  pub Reads-decode_binary :
      (s : Bytes)
      → exceeds (length s) c.max_binary_len ≡ false
      → Reads c k (decode_binary (length s)) s (binary s)
  unfolding decode_binary validate_binary_len
  Reads-decode_binary s fits =
      Reads-check binary_too_long (λ c. c.max_binary_len) (length s) (length s) _ s (binary s) fits
        (omega arith) (Reads-map (read_bytes (length s)) binary s s (Reads-bytes (length s) s refl))

  pub Reads-decode_ext :
      (t : ℤ) (s : Bytes)
      → IsInt8 t
      → exceeds (length s) c.max_ext_len ≡ false
      → Reads c k (decode_ext (length s)) (int8_byte t ∷ s) (ext t s)
  unfolding decode_ext validate_ext_len read_int8
  Reads-decode_ext t s ht fits =
      Reads-check ext_too_long (λ c. c.max_ext_len) (length s) (length s) _ (int8_byte t ∷ s)
        (ext t s) fits (omega arith)
        (Reads-bind read_int8 (λ u. read_bytes (length s) >>= λ bs. pure (ext u bs))
          (int8_byte t ∷ []) s t (ext t s)
          (rw (type_read t ht) at (Reads-map read_byte to_int8 _ _ (Reads-byte (int8_byte t))))
          (Reads-map (read_bytes (length s)) (ext t) s s (Reads-bytes (length s) s refl)))

-- `below` stands for the level below, which a scalar does not use.
module _ {c : Config} {k : ℕ} (below : ℕ → M Value) where
  -- Decode on a format byte and what its branch reads.
  pub Reads-inside :
      (f : ℕ) (bs : Bytes) (v : Value) (m : M Value)
      → decode_value_with below f ≡ m
      → Reads c k m bs v
      → Reads c k (decode_inside (decode_value_with below)) (f ∷ bs) v
  unfolding decode_inside
  Reads-inside f bs v m e r =
      Reads-bind read_byte (decode_value_with below) (f ∷ []) bs f v (Reads-byte f) (rw e r)

  -- The same for a format byte of the switch.
  pub Reads-format :
      (f : ℕ) (bs : Bytes) (v : Value)
      → 0xc0 ≤ f
      → f < 0xe0
      → Reads c k (decode_format below f) bs v
      → Reads c k (decode_inside (decode_value_with below)) (f ∷ bs) v
  Reads-format f bs v lo hi r =
      Reads-inside f bs v (decode_format below f) (dispatch_format below f lo hi) r
