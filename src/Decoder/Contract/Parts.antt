-- ===== src/Decoder/Contract/Parts.antt =====
-- The methods that read one value with nothing inside it, and the lengths, meet their contracts.
use msgpck.Base.{ℕ, ◌-◌, ◌^◌, ◌<◌, ◌≡◌, refl, false, arith, ◌==◌}
use msgpck.Errors.{Error}
use msgpck.Config.{Config, exceeds}
use msgpck.Format.{is_fixstr, fixstr_len}
use msgpck.Format.Ranges.{fixstr_len-mod}
use msgpck.Value.{Value, int, uint, float32, float64, string, binary, ext}
use msgpck.Value.Size.{size}
use msgpck.Encoder.Refines.{IsSized}
use msgpck.Decoder.{
  Decoder, err, M, pure, ◌>>=◌, read_byte, read_bytes, read_uint8, read_uint16, read_uint32,
  read_uint64, read_int8, read_int16, read_int32, read_int64, read_float32, read_float64,
}
use msgpck.Decoder.Limits.{validate_string_len, validate_binary_len, validate_ext_len}
use msgpck.Decoder.Lengths.{
  parse_string_len, parse_string_len_switch, parse_binary_len, parse_array_len_switch,
  parse_map_len_switch,
}
use msgpck.Decoder.Values.{
  decode_uint_to_value, decode_int_to_value, decode_float_to_value, decode_string, decode_binary,
  decode_ext, decode_value_ext_var,
}
use msgpck.Decoder.Canonical.{Fits}
use msgpck.Decoder.Contract.{
  IsByte, Meets, Meets-bind, Meets-pure, Meets-fail, Meets-if, Meets-step, Meets-weaken,
}
use msgpck.Decoder.Contract.Leaves.{
  Meets-read_byte, Meets-uint16, Meets-uint32, Meets-uint64, Meets-map, Meets-read_int8,
  Meets-int8_wide, Meets-int16, Meets-int32, Meets-read_int64, Meets-bytes, Meets-check,
}

-- A decoded value is one that Go's types can hold, and within the limits. (A map key that is no
-- string counts as the empty string, which a negative limit on strings would exclude.)
abbrev pub Decoded : Config → ℕ → Value → Type 0
Decoded c k v = (exceeds 0 c.max_string_len ≡ false → Fits c k v) × IsSized v

-- The bytes behind the format byte.
abbrev pub inner_size : Value → ℕ
inner_size v = size v - 1

abbrev pub IsAnnounced : ℕ → Type 0
IsAnnounced l = l < 2 ^ 32

module _ {c : Config} {k n : ℕ} where
  pub Meets-len8 : Meets c k n (λ _. 0) IsAnnounced (read_uint8 >>= λ l. pure l)
  unfolding read_uint8
  Meets-len8 = Meets-map _ _ read_byte (λ l. l) (λ l h. (omega arith, omega arith)) Meets-read_byte

  pub Meets-len16 : Meets c k n (λ _. 0) IsAnnounced (read_uint16 >>= λ l. pure l)
  Meets-len16 = Meets-map _ _ read_uint16 (λ l. l) (λ l h. (omega arith, omega arith)) Meets-uint16

  pub Meets-len32 : Meets c k n (λ _. 0) IsAnnounced (read_uint32 >>= λ l. pure l)
  Meets-len32 = Meets-map _ _ read_uint32 (λ l. l) (λ l h. (omega arith, omega arith)) Meets-uint32

  pub Meets-string_len_switch :
      (f : ℕ) → Meets c k n (λ _. 0) IsAnnounced (parse_string_len_switch f)
  unfolding parse_string_len_switch
  Meets-string_len_switch f =
      Meets-if (f == 0xd9) _ _ (λ _. Meets-len8)
        λ _.
          Meets-if (f == 0xda) _ _ (λ _. Meets-len16)
            λ _. Meets-if (f == 0xdb) _ _ (λ _. Meets-len32) (λ _. Meets-fail _)

  pub Meets-binary_len : (f : ℕ) → Meets c k n (λ _. 0) IsAnnounced (parse_binary_len f)
  unfolding parse_binary_len
  Meets-binary_len f =
      Meets-if (f == 0xc4) _ _ (λ _. Meets-len8)
        λ _.
          Meets-if (f == 0xc5) _ _ (λ _. Meets-len16)
            λ _. Meets-if (f == 0xc6) _ _ (λ _. Meets-len32) (λ _. Meets-fail _)

  pub Meets-array_len_switch : (f : ℕ) → Meets c k n (λ _. 0) IsAnnounced (parse_array_len_switch f)
  unfolding parse_array_len_switch
  Meets-array_len_switch f =
      Meets-if (f == 0xdc) _ _ (λ _. Meets-len16)
        λ _. Meets-if (f == 0xdd) _ _ (λ _. Meets-len32) (λ _. Meets-fail _)

  pub Meets-map_len_switch : (f : ℕ) → Meets c k n (λ _. 0) IsAnnounced (parse_map_len_switch f)
  unfolding parse_map_len_switch
  Meets-map_len_switch f =
      Meets-if (f == 0xde) _ _ (λ _. Meets-len16)
        λ _. Meets-if (f == 0xdf) _ _ (λ _. Meets-len32) (λ _. Meets-fail _)

  pub Meets-string_len : (f : ℕ) → IsByte f → Meets c k n (λ _. 0) IsAnnounced (parse_string_len f)
  unfolding parse_string_len
  Meets-string_len f h =
      Meets-if (is_fixstr f) _ _
        (λ _. Meets-pure (fixstr_len f) refl (omega (arith, fixstr_len-mod f h)))
        λ _.
          Meets-if (f == 0xd9) _ _ (λ _. Meets-len8)
            λ _.
              Meets-if (f == 0xda) _ _ (λ _. Meets-len16)
                λ _. Meets-if (f == 0xdb) _ _ (λ _. Meets-len32) (λ _. Meets-fail _)

  pub Meets-decode_uint : (f : ℕ) → Meets c k n inner_size (Decoded c k) (decode_uint_to_value f)
  unfolding decode_uint_to_value read_uint8 size Fits IsSized
  Meets-decode_uint f =
      Meets-if (f == 0xcc) _ _
        (λ _.
          Meets-map _ _ read_byte uint (λ v h. (omega arith, ((λ _. tt), omega arith)))
            Meets-read_byte)
        λ _.
          Meets-if (f == 0xcd) _ _
            (λ _.
              Meets-map _ _ read_uint16 uint (λ v h. (omega arith, ((λ _. tt), omega arith)))
                Meets-uint16)
            λ _.
              Meets-if (f == 0xce) _ _
                (λ _.
                  Meets-map _ _ read_uint32 uint (λ v h. (omega arith, ((λ _. tt), omega arith)))
                    Meets-uint32)
                (λ _.
                  Meets-map _ _ read_uint64 uint (λ v h. (omega arith, ((λ _. tt), h)))
                    Meets-uint64)

  pub Meets-decode_int : (f : ℕ) → Meets c k n inner_size (Decoded c k) (decode_int_to_value f)
  unfolding decode_int_to_value size Fits IsSized
  Meets-decode_int f =
      Meets-if (f == 0xd0) _ _
        (λ _. Meets-map _ _ read_int8 int (λ v h. (omega arith, ((λ _. tt), h))) Meets-int8_wide)
        λ _.
          Meets-if (f == 0xd1) _ _
            (λ _. Meets-map _ _ read_int16 int (λ v h. (omega arith, ((λ _. tt), h))) Meets-int16)
            λ _.
              Meets-if (f == 0xd2) _ _
                (λ _.
                  Meets-map _ _ read_int32 int (λ v h. (omega arith, ((λ _. tt), h))) Meets-int32)
                (λ _.
                  Meets-map _ _ read_int64 int (λ v h. (omega arith, ((λ _. tt), h)))
                    Meets-read_int64)

  pub Meets-decode_float : (f : ℕ) → Meets c k n inner_size (Decoded c k) (decode_float_to_value f)
  unfolding decode_float_to_value read_float32 read_float64 size Fits IsSized
  Meets-decode_float f =
      Meets-if (f == 0xca) _ _
        (λ _.
          Meets-map _ _ read_float32 float32 (λ v h. (omega arith, ((λ _. tt), h)))
            (Meets-map (λ _. 4) (λ v. v < 2 ^ 32) read_uint32 (λ v. v) (λ v h. (omega arith, h))
              Meets-uint32))
        (λ _.
          Meets-map _ _ read_float64 float64 (λ v h. (omega arith, ((λ _. tt), h)))
            (Meets-map (λ _. 8) (λ v. v < 2 ^ 64) read_uint64 (λ v. v) (λ v h. (omega arith, h))
              Meets-uint64))

  pub Meets-decode_string :
      (l : ℕ) → IsAnnounced l → Meets c k n inner_size (Decoded c k) (decode_string l)
  unfolding decode_string validate_string_len size Fits IsSized
  Meets-decode_string l h =
      Meets-step inner_size _ _ (Meets-check _ (λ c. c.max_string_len) l l) λ _ fits.
        Meets-map _ _ (read_bytes l) string (λ s e. (omega arith, ((λ _. rw e fits), omega arith)))
          (Meets-bytes l)

  pub Meets-decode_binary :
      (l : ℕ) → IsAnnounced l → Meets c k n inner_size (Decoded c k) (decode_binary l)
  unfolding decode_binary validate_binary_len size Fits IsSized
  Meets-decode_binary l h =
      Meets-step inner_size _ _ (Meets-check _ (λ c. c.max_binary_len) l l) λ _ fits.
        Meets-map _ _ (read_bytes l) binary (λ s e. (omega arith, ((λ _. rw e fits), omega arith)))
          (Meets-bytes l)

  pub Meets-decode_ext :
      (l : ℕ) → IsAnnounced l → Meets c k n inner_size (Decoded c k) (decode_ext l)
  unfolding decode_ext validate_ext_len size Fits IsSized
  Meets-decode_ext l h =
      Meets-step inner_size _ _ (Meets-check _ (λ c. c.max_ext_len) l l) λ _ fits.
        Meets-bind c k n (λ _. 1) inner_size read_int8 _ Meets-read_int8
          λ t ht.
            Meets-map _ _ (read_bytes l) (ext t)
              (λ s e. (omega arith, ((λ _. rw e fits), (ht, omega arith)))) (Meets-bytes l)

  -- A length, and what is read under it.
  pub Meets-with_len :
      (m : M ℕ) (f : ℕ → M Value)
      → Meets c k n (λ _. 0) IsAnnounced m
      → ((l : ℕ) → IsAnnounced l → Meets c k n inner_size (Decoded c k) (f l))
      → Meets c k n inner_size (Decoded c k) (m >>= f)
  Meets-with_len m f h next = Meets-step inner_size m f h next

  pub Meets-decode_ext_var : (f : ℕ) → Meets c k n inner_size (Decoded c k) (decode_value_ext_var f)
  unfolding decode_value_ext_var read_uint8
  Meets-decode_ext_var f =
      Meets-if (f == 0xc7) _ _
        (λ _.
          Meets-with_len read_byte decode_ext
            (Meets-weaken _ IsAnnounced read_byte (λ l h. (omega arith, omega arith))
              Meets-read_byte)
            Meets-decode_ext)
        λ _.
          Meets-if (f == 0xc8) _ _
            (λ _.
              Meets-with_len read_uint16 decode_ext
                (Meets-weaken _ IsAnnounced read_uint16 (λ l h. (omega arith, omega arith))
                  Meets-uint16)
                Meets-decode_ext)
            (λ _.
              Meets-with_len read_uint32 decode_ext
                (Meets-weaken _ IsAnnounced read_uint32 (λ l h. (omega arith, omega arith))
                  Meets-uint32)
                Meets-decode_ext)

-- parseStringLen leaves the decoder as it was when it fails.
pub parse_string_len_fails :
    (f : ℕ) (d : Decoder) (e : Error) (d' : Decoder) → parse_string_len f d ≡ err e d' → d' ≡ d
unfolding parse_string_len read_uint8 read_byte read_uint16 read_uint32
parse_string_len_fails f d e d' h = ground arith
