-- ===== src/Decoder/Scalars/Texts.antt =====
-- The decoder reads the encoded form of strings, binary data and extensions.
use msgpck.Base.{
  ℕ, ◌+◌, ◌^◌, ◌≤◌, ◌<◌, ◌≡◌, refl, true, false, Bytes, [], ◌∷◌, ◌++◌, arith, length, leb, leb→le,
  ◌==◌, ==_iff,
}
use msgpck.Base.Words.{ℤ, IsInt8}
use msgpck.Config.{Config, exceeds}
use msgpck.Value.{Value, string, binary, ext}
use msgpck.Encoder.Wire.{string_header, binary_header, ext_header, int8_byte}
use msgpck.Decoder.{M, pure, ◌>>=◌, read_byte, read_uint8, read_uint16, read_uint32}
use msgpck.Decoder.Lengths.{parse_string_len_switch, parse_binary_len}
use msgpck.Decoder.Values.{
  decode_inside, decode_value_with, decode_format, decode_string, decode_binary, decode_ext,
  decode_value_ext_var,
}
use msgpck.Decoder.Dispatch.{dispatch_string}
use msgpck.Decoder.Scalars.{
  Reads-map, Reads-inside, Reads-format, Reads-decode_string, Reads-decode_binary, Reads-decode_ext,
}
use msgpck.Decoder.Reads.{
  Reads, Reads-if_append, Reads-bind, Reads-byte, Reads-uint16, Reads-uint32,
}

-- `n, err := m(); if err != nil { return 0, err }; return int(n), nil`
abbrev pub returned : M ℕ → M ℕ
returned m = m >>= λ n. pure n

pub Reads-returned :
    {c : Config} {k : ℕ} (m : M ℕ) {bs : Bytes} {n : ℕ}
    → Reads c k m bs n
    → Reads c k (returned m) bs n
Reads-returned m r = Reads-map m (λ n. n) _ _ r

module _ {c : Config} {k : ℕ} (below : ℕ → M Value) where
  -- A format byte of the switch, a length word that the branch reads first, and the contents.
  pub sized :
      (f n : ℕ) (m : M ℕ) (g : ℕ → M Value) (word xs : Bytes) (v : Value)
      → 0xc0 ≤ f
      → f < 0xe0
      → decode_format below f ≡ (m >>= g)
      → Reads c k m word n
      → Reads c k (g n) xs v
      → Reads c k (decode_inside (decode_value_with below)) (f ∷ (word ++ xs)) v
  sized f n m g word xs v lo hi e r s =
      Reads-format below f (word ++ xs) v lo hi (rw e (Reads-bind m g word xs n v r s))

  pub Reads-string :
      (s : Bytes)
      → length s < 2 ^ 32
      → exceeds (length s) c.max_string_len ≡ false
      → Reads c k
          (decode_inside (decode_value_with below))
          (string_header (length s) ++ s)
          (string s)
  unfolding string_header decode_format parse_string_len_switch read_uint8
  Reads-string s h fits =
      let n : ℕ = length s in
      let body : Reads c k (decode_string n) s (string s) = Reads-decode_string s fits in
      Reads-if_append (leb n 31) _ _ s
        (λ e.
          Reads-inside below (0xa0 + n) s _ _
            (dispatch_string below n (omega (arith, leb→le n 31 e))) body)
        λ _.
          Reads-if_append (leb n 0xff) _ _ s
            (λ e.
              sized 0xd9 n (returned read_byte) decode_string (n ∷ []) s _ (omega arith)
                (omega arith) refl (Reads-returned read_byte (Reads-byte n)) body)
            λ _.
              Reads-if_append (leb n 0xffff) _ _ s
                (λ e.
                  sized 0xda n (returned read_uint16) decode_string _ s _ (omega arith)
                    (omega arith) refl
                    (Reads-returned read_uint16 (Reads-uint16 n (omega (arith, leb→le n 0xffff e))))
                    body)
                (λ _.
                  sized 0xdb n (returned read_uint32) decode_string _ s _ (omega arith)
                    (omega arith) refl (Reads-returned read_uint32 (Reads-uint32 n h)) body)

  pub Reads-binary :
      (s : Bytes)
      → length s < 2 ^ 32
      → exceeds (length s) c.max_binary_len ≡ false
      → Reads c k
          (decode_inside (decode_value_with below))
          (binary_header (length s) ++ s)
          (binary s)
  unfolding binary_header decode_format parse_binary_len read_uint8
  Reads-binary s h fits =
      let n : ℕ = length s in
      let body : Reads c k (decode_binary n) s (binary s) = Reads-decode_binary s fits in
      Reads-if_append (leb n 0xff) _ _ s
        (λ e.
          sized 0xc4 n (returned read_byte) decode_binary (n ∷ []) s _ (omega arith) (omega arith)
            refl (Reads-returned read_byte (Reads-byte n)) body)
        λ _.
          Reads-if_append (leb n 0xffff) _ _ s
            (λ e.
              sized 0xc5 n (returned read_uint16) decode_binary _ s _ (omega arith) (omega arith)
                refl
                (Reads-returned read_uint16 (Reads-uint16 n (omega (arith, leb→le n 0xffff e))))
                body)
            (λ _.
              sized 0xc6 n (returned read_uint32) decode_binary _ s _ (omega arith) (omega arith)
                refl (Reads-returned read_uint32 (Reads-uint32 n h)) body)

  -- A fixext byte, which stands for its length.
  fixed_ext :
      (f n : ℕ) (t : ℤ) (s : Bytes)
      → 0xc0 ≤ f
      → f < 0xe0
      → decode_format below f ≡ decode_ext n
      → (length s == n) ≡ true
      → Reads c k (decode_ext (length s)) (int8_byte t ∷ s) (ext t s)
      → Reads c k (decode_inside (decode_value_with below)) (f ∷ int8_byte t ∷ s) (ext t s)
  fixed_ext f n t s lo hi e l r =
      Reads-format below f _ _ lo hi (rw (e, ← ((==_iff (length s) n).0 l)) r)

  pub Reads-ext :
      (t : ℤ) (s : Bytes)
      → IsInt8 t
      → length s < 2 ^ 32
      → exceeds (length s) c.max_ext_len ≡ false
      → Reads c k
          (decode_inside (decode_value_with below))
          (ext_header (length s) ++ (int8_byte t ∷ s))
          (ext t s)
  unfolding ext_header decode_format decode_value_ext_var read_uint8
  Reads-ext t s ht h fits =
      let n : ℕ = length s in
      let xs : Bytes = int8_byte t ∷ s in
      let body : Reads c k (decode_ext n) xs (ext t s) = Reads-decode_ext t s ht fits in
      Reads-if_append (n == 1) _ _ xs
        (λ e. fixed_ext 0xd4 1 t s (omega arith) (omega arith) refl e body)
        λ _.
          Reads-if_append (n == 2) _ _ xs
            (λ e. fixed_ext 0xd5 2 t s (omega arith) (omega arith) refl e body)
            λ _.
              Reads-if_append (n == 4) _ _ xs
                (λ e. fixed_ext 0xd6 4 t s (omega arith) (omega arith) refl e body)
                λ _.
                  Reads-if_append (n == 8) _ _ xs
                    (λ e. fixed_ext 0xd7 8 t s (omega arith) (omega arith) refl e body)
                    λ _.
                      Reads-if_append (n == 16) _ _ xs
                        (λ e. fixed_ext 0xd8 16 t s (omega arith) (omega arith) refl e body)
                        λ _.
                          Reads-if_append (leb n 0xff) _ _ xs
                            (λ e.
                              sized 0xc7 n read_byte decode_ext (n ∷ []) xs _ (omega arith)
                                (omega arith) refl (Reads-byte n) body)
                            λ _.
                              Reads-if_append (leb n 0xffff) _ _ xs
                                (λ e.
                                  sized 0xc8 n read_uint16 decode_ext _ xs _ (omega arith)
                                    (omega arith) refl
                                    (Reads-uint16 n (omega (arith, leb→le n 0xffff e))) body)
                                (λ _.
                                  sized 0xc9 n read_uint32 decode_ext _ xs _ (omega arith)
                                    (omega arith) refl (Reads-uint32 n h) body)
