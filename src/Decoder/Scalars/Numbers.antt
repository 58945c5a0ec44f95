-- ===== src/Decoder/Scalars/Numbers.antt =====
-- The decoder reads the encoded form of nil, booleans, integers and floats.
use msgpck.Base.{
  ℕ, ◌-◌, ◌^◌, ◌<◌, ◌≡◌, Bool, true, false, Bytes, [], ◌∷◌, arith, leb, leb→le, if◌then◌else◌,
}
use msgpck.Base.Words.{ℤ, negsuc, be32, be64, to_int8, to_int16, to_int32, to_int64}
use msgpck.Config.{Config}
use msgpck.Value.{Value, nil, bool, int, uint, float32, float64}
use msgpck.Encoder.Wire.{uint_bytes, int_bytes}
use msgpck.Decoder.{
  M, pure, ◌>>=◌, read_byte, read_uint8, read_uint16, read_uint32, read_uint64, read_int8,
  read_int16, read_int32, read_int64, read_float32, read_float64,
}
use msgpck.Decoder.Values.{
  decode_inside, decode_value_with, decode_format, decode_uint_to_value, decode_int_to_value,
  decode_float_to_value,
}
use msgpck.Decoder.Dispatch.{dispatch_pos, dispatch_neg}
use msgpck.Decoder.Scalars.{Reads-map, Reads-inside, Reads-format}
use msgpck.Decoder.Reads.{
  Reads, Reads-pure, Reads-if, Reads-byte, Reads-uint16, Reads-uint32, Reads-uint64,
}

pub neg8 : (n : ℕ) → leb n 0x7f ≡ true → to_int8 (0xff - n) ≡ negsuc n
unfolding to_int8
neg8 n h = ground arith

pub neg16 : (n : ℕ) → leb n 0x7fff ≡ true → to_int16 (0xffff - n) ≡ negsuc n
unfolding to_int16
neg16 n h = ground arith

pub neg32 : (n : ℕ) → leb n 0x7fff_ffff ≡ true → to_int32 (0xffff_ffff - n) ≡ negsuc n
unfolding to_int32
neg32 n h = ground arith

pub neg64 : (n : ℕ) → n < 2 ^ 63 → to_int64 (2 ^ 64 - 1 - n) ≡ negsuc n
unfolding to_int64
neg64 n h = ground arith

module _ {c : Config} {k : ℕ} (below : ℕ → M Value) where
  pub Reads-uint :
      (v : ℕ)
      → v < 2 ^ 64
      → Reads c k (decode_inside (decode_value_with below)) (uint_bytes v) (uint v)
  unfolding uint_bytes decode_format decode_uint_to_value read_uint8
  Reads-uint v h =
      Reads-if (leb v 0x7f) _ _
        (λ e.
          Reads-inside below v [] (uint v) _ (dispatch_pos below v (omega (arith, leb→le v 0x7f e)))
            (Reads-pure (uint v)))
        λ _.
          Reads-if (leb v 0xff) _ _
            (λ e.
              Reads-format below 0xcc _ (uint v) (omega arith) (omega arith)
                (Reads-map read_byte uint _ v (Reads-byte v)))
            λ _.
              Reads-if (leb v 0xffff) _ _
                (λ e. Reads-format below 0xcd _ (uint v) (omega arith) (omega arith) (
                  Reads-map read_uint16 uint _ v
                    (Reads-uint16 v (omega (arith, leb→le v 0xffff e)))))
                λ _.
                  Reads-if (leb v 0xffff_ffff) _ _
                    (λ e. Reads-format below 0xce _ (uint v) (omega arith) (omega arith) (
                      Reads-map read_uint32 uint _ v
                        (Reads-uint32 v (omega (arith, leb→le v 0xffff_ffff e)))))
                    λ _.
                      Reads-format below 0xcf _ (uint v) (omega arith) (omega arith)
                        (Reads-map read_uint64 uint _ v (Reads-uint64 v h))

  pub Reads-nil : Reads c k (decode_inside (decode_value_with below)) (0xc0 ∷ []) nil
  unfolding decode_format
  Reads-nil = Reads-format below 0xc0 [] nil (omega arith) (omega arith) (Reads-pure nil)

  pub Reads-bool :
      (b : Bool)
      → Reads c k
          (decode_inside (decode_value_with below))
          ((if b then 0xc3 else 0xc2) ∷ [])
          (bool b)
  unfolding decode_format
  Reads-bool true =
      Reads-format below 0xc3 [] (bool true) (omega arith) (omega arith) (Reads-pure _)
  Reads-bool false =
      Reads-format below 0xc2 [] (bool false) (omega arith) (omega arith) (Reads-pure _)

  pub Reads-float32 :
      (v : ℕ)
      → v < 2 ^ 32
      → Reads c k (decode_inside (decode_value_with below)) (0xca ∷ be32 v) (float32 v)
  unfolding decode_format decode_float_to_value read_float32
  Reads-float32 v h =
      Reads-format below 0xca _ (float32 v) (omega arith) (omega arith)
        (Reads-map read_float32 float32 _ v (Reads-map read_uint32 (λ v. v) _ v (Reads-uint32 v h)))

  pub Reads-float64 :
      (v : ℕ)
      → v < 2 ^ 64
      → Reads c k (decode_inside (decode_value_with below)) (0xcb ∷ be64 v) (float64 v)
  unfolding decode_format decode_float_to_value read_float64
  Reads-float64 v h =
      Reads-format below 0xcb _ (float64 v) (omega arith) (omega arith)
        (Reads-map read_float64 float64 _ v (Reads-map read_uint64 (λ v. v) _ v (Reads-uint64 v h)))

  -- A signed word: the read, the conversion, and the value.
  signed :
      (m : M ℕ) (conv : ℕ → ℤ) (bs : Bytes) (w n : ℕ)
      → conv w ≡ negsuc n
      → Reads c k m bs w
      → Reads c k (m >>= (λ v. pure (conv v)) >>= λ v. pure (int v)) bs (int (negsuc n))
  signed m conv bs w n e r =
      Reads-map (m >>= λ v. pure (conv v)) int bs (negsuc n) (rw e at (Reads-map m conv bs w r))

  pub Reads-negative :
      (n : ℕ)
      → n < 2 ^ 63
      → Reads c k (decode_inside (decode_value_with below)) (int_bytes (negsuc n)) (int (negsuc n))
  unfolding int_bytes decode_format decode_int_to_value read_int8 read_int16 read_int32 read_int64
  Reads-negative n h =
      Reads-if (leb n 31) _ _
        (λ e.
          Reads-inside below (0xff - n) [] _ _ (dispatch_neg below n (omega (arith, leb→le n 31 e)))
            (Reads-pure _))
        λ _.
          Reads-if (leb n 0x7f) _ _
            (λ e.
              Reads-format below 0xd0 _ _ (omega arith) (omega arith)
                (signed read_byte to_int8 _ (0xff - n) n (neg8 n e) (Reads-byte (0xff - n))))
            λ _.
              Reads-if (leb n 0x7fff) _ _
                (λ e. Reads-format below 0xd1 _ _ (omega arith) (omega arith) (
                  signed read_uint16 to_int16 _ _ n (neg16 n e)
                    (Reads-uint16 (0xffff - n) (omega arith))))
                λ _.
                  Reads-if (leb n 0x7fff_ffff) _ _
                    (λ e. Reads-format below 0xd2 _ _ (omega arith) (omega arith) (
                      signed read_uint32 to_int32 _ _ n (neg32 n e)
                        (Reads-uint32 (0xffff_ffff - n) (omega arith))))
                    λ _. Reads-format below 0xd3 _ _ (omega arith) (omega arith) (
                      signed read_uint64 to_int64 _ _ n (neg64 n h)
                        (Reads-uint64 (2 ^ 64 - 1 - n) (omega arith)))
