-- ===== src/Decoder/Containers.antt =====
-- The decoder reads the encoded form of a map key and the headers of arrays and maps, where it reads
-- what stands inside.
use msgpck.Base.{
  ℕ, ◌+◌, ◌*◌, ◌^◌, ◌≤◌, ◌<◌, ◌≡◌, refl, ◌∙◌, false, Bytes, [], ◌∷◌, ◌++◌, arith, length, leb,
  leb→le, append_assoc,
}
use msgpck.Config.{Config, exceeds}
use msgpck.Errors.{Error, string_too_long, array_too_long, map_too_long}
use msgpck.Format.{is_fixstr}
use msgpck.Format.Ranges.{is_fixstr-range, fixstr_len-mod}
use msgpck.Value.{Value, Values, Kvs, array, map}
use msgpck.Encoder.Wire.{string_header, array_header, map_header}
use msgpck.Decoder.{
  M, pure, try, ◌>>=◌, ◌>>◌, read_byte, read_bytes, read_uint8, read_uint16, read_uint32,
}
use msgpck.Decoder.Limits.{validate_string_len, validate_array_len, validate_map_len}
use msgpck.Decoder.Lengths.{parse_string_len, parse_array_len_switch, parse_map_len_switch}
use msgpck.Decoder.Values.{
  decode_inside, decode_value_with, decode_format, decode_elems, decode_array, decode_map_key,
  decode_pairs, decode_map, key_bytes,
}
use msgpck.Decoder.Dispatch.{dispatch_array, dispatch_map}
use msgpck.Decoder.Scalars.{Reads-map, Reads-inside}
use msgpck.Decoder.Scalars.Texts.{returned, Reads-returned, sized}
use msgpck.Decoder.Reads.{
  Reads, Reads-pure, Reads-if_append, Reads-bind, Reads-check, Reads-container, Reads-byte,
  Reads-uint16, Reads-uint32, Reads-bytes,
}

parse_fixstr : (n : ℕ) → n < 32 → parse_string_len (0xa0 + n) ≡ pure n
unfolding parse_string_len
parse_fixstr n h = ground (arith, is_fixstr-range (0xa0 + n), fixstr_len-mod (0xa0 + n))

module _ {c : Config} {k : ℕ} where
  -- A string's header, read as a format byte and by parseStringLen, before any continuation.
  pub Reads-string_len {ℓ} :
      {A : Type ℓ} (n : ℕ) (cont : ℕ → M ℕ → M A) (xs : Bytes) (a : A)
      → n < 2 ^ 32
      → ((f : ℕ) (m : M ℕ) (word : Bytes)
          → Reads c k m word n
          → Reads c k (cont f m) (word ++ xs) a)
      → Reads c k (read_byte >>= λ f. cont f (parse_string_len f)) (string_header n ++ xs) a
  unfolding string_header
  Reads-string_len n cont xs a h next =
      Reads-if_append (leb n 31) _ _ xs
        (λ e.
          with_byte (0xa0 + n) []
            (rw (parse_fixstr n (omega (arith, leb→le n 31 e))) (Reads-pure n)))
        λ _.
          Reads-if_append (leb n 0xff) _ _ xs (λ e. with_byte 0xd9 (n ∷ []) (long8 (Reads-byte n)))
            λ _.
              Reads-if_append (leb n 0xffff) _ _ xs
                (λ e. with_byte 0xda _ (long16 (Reads-uint16 n (omega (arith, leb→le n 0xffff e)))))
                (λ _. with_byte 0xdb _ (long32 (Reads-uint32 n h)))
    where
      with_byte :
          (f : ℕ) (word : Bytes)
          → Reads c k (parse_string_len f) word n
          → Reads c k (read_byte >>= λ f. cont f (parse_string_len f)) (f ∷ (word ++ xs)) a
      with_byte f word r =
          Reads-bind read_byte (λ f. cont f (parse_string_len f)) (f ∷ []) (word ++ xs) f a
            (Reads-byte f) (next f (parse_string_len f) word r)

      long8 : {word : Bytes} → Reads c k read_byte word n → Reads c k (parse_string_len 0xd9) word n
      long8 r = unfold parse_string_len is_fixstr read_uint8 in Reads-returned read_byte r

      long16 :
          {word : Bytes} → Reads c k read_uint16 word n → Reads c k (parse_string_len 0xda) word n
      long16 r = unfold parse_string_len is_fixstr in Reads-returned read_uint16 r

      long32 :
          {word : Bytes} → Reads c k read_uint32 word n → Reads c k (parse_string_len 0xdb) word n
      long32 r = unfold parse_string_len is_fixstr in Reads-returned read_uint32 r

  -- The contents of a string, under the limit on strings.
  pub Reads-string_body :
      (s : Bytes)
      → exceeds (length s) c.max_string_len ≡ false
      → Reads c k (validate_string_len (length s) >> read_bytes (length s)) s s
  unfolding validate_string_len
  Reads-string_body s fits =
      Reads-check string_too_long (λ c. c.max_string_len) (length s) (length s)
        (read_bytes (length s)) s s fits (omega arith) (Reads-bytes (length s) s refl)

  Reads-try {ℓ κ} :
      {A : Type ℓ} {B : Type κ} (m : M A) (f : A → M B) (g : Error → M B) (bs cs : Bytes) (a : A)
      (b : B)
      → Reads c k m bs a
      → Reads c k (f a) cs b
      → Reads c k (try m f g) (bs ++ cs) b
  Reads-try m f g bs cs a b r s = record {
    run = λ d rest hc hk hp h.
        let first = r.run d (cs ++ rest) hc hk hp (h ∙ append_assoc bs cs rest) in
        rw first (rw first at ((Reads-bind m f bs cs a b r s).run d rest hc hk hp h));
  }

  module _ (below : ℕ → M Value) where
    pub Reads-map_key :
        (s : Bytes)
        → length s < 2 ^ 32
        → exceeds (length s) c.max_string_len ≡ false
        → Reads c k (decode_map_key below) (string_header (length s) ++ s) s
    unfolding decode_map_key
    Reads-map_key s h fits =
        Reads-string_len (length s)
          (λ f m.
            try m (λ n. validate_string_len n >> read_bytes n)
              (λ _. below f >>= λ v. pure (key_bytes v)))
          s s h (λ f m word r. Reads-try m _ _ word s (length s) s r (Reads-string_body s fits))

    pub Reads-array :
        (n : ℕ) (bs : Bytes) (vs : Values)
        → n < 2 ^ 32
        → exceeds n c.max_array_len ≡ false
        → exceeds (k + 1) c.max_depth ≡ false
        → n ≤ length bs
        → Reads c (k + 1) (decode_elems below n) bs vs
        → Reads c k (decode_inside (decode_value_with below)) (array_header n ++ bs) (array vs)
    unfolding array_header decode_format parse_array_len_switch
    Reads-array n bs vs h fits deep enough r =
        Reads-if_append (leb n 15) _ _ bs
          (λ e.
            Reads-inside below (0x90 + n) bs _ _
              (dispatch_array below n (omega (arith, leb→le n 15 e))) body)
          λ _.
            Reads-if_append (leb n 0xffff) _ _ bs
              (λ e.
                sized below 0xdc n (returned read_uint16) (decode_array below) _ bs _ (omega arith)
                  (omega arith) refl
                  (Reads-returned read_uint16 (Reads-uint16 n (omega (arith, leb→le n 0xffff e))))
                  body)
              (λ _.
                sized below 0xdd n (returned read_uint32) (decode_array below) _ bs _ (omega arith)
                  (omega arith) refl (Reads-returned read_uint32 (Reads-uint32 n h)) body)
      where
        body : Reads c k (decode_array below n) bs (array vs)
        body =
            unfold decode_array validate_array_len in
            Reads-check array_too_long (λ c. c.max_array_len) n n _ bs (array vs) fits enough
              (Reads-container _ bs (array vs) deep
                (Reads-map (decode_elems below n) array bs vs r))

    pub Reads-pairs :
        (n : ℕ) (bs : Bytes) (kvs : Kvs)
        → n < 2 ^ 32
        → exceeds n c.max_map_len ≡ false
        → exceeds (k + 1) c.max_depth ≡ false
        → n * 2 ≤ length bs
        → Reads c (k + 1) (decode_pairs below n) bs kvs
        → Reads c k (decode_inside (decode_value_with below)) (map_header n ++ bs) (map kvs)
    unfolding map_header decode_format parse_map_len_switch
    Reads-pairs n bs kvs h fits deep enough r =
        Reads-if_append (leb n 15) _ _ bs
          (λ e.
            Reads-inside below (0x80 + n) bs _ _
              (dispatch_map below n (omega (arith, leb→le n 15 e))) body)
          λ _.
            Reads-if_append (leb n 0xffff) _ _ bs
              (λ e.
                sized below 0xde n (returned read_uint16) (decode_map below) _ bs _ (omega arith)
                  (omega arith) refl
                  (Reads-returned read_uint16 (Reads-uint16 n (omega (arith, leb→le n 0xffff e))))
                  body)
              (λ _.
                sized below 0xdf n (returned read_uint32) (decode_map below) _ bs _ (omega arith)
                  (omega arith) refl (Reads-returned read_uint32 (Reads-uint32 n h)) body)
      where
        body : Reads c k (decode_map below n) bs (map kvs)
        body =
            unfold decode_map validate_map_len in
            Reads-check map_too_long (λ c. c.max_map_len) n (n * 2) _ bs (map kvs) fits enough
              (Reads-container _ bs (map kvs) deep (Reads-map (decode_pairs below n) map bs kvs r))
