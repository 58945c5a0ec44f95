-- ===== src/Decoder/Integers/Encoded.antt =====
-- The readers of integers on what EncodeInt and EncodeUint write.
use msgpck.Base.{ℕ, ◌-◌, ◌^◌, ◌<◌, ◌≡◌, refl, Bytes, [], ◌∷◌, arith, leb, leb→le}
use msgpck.Base.Words.{ℤ, pos, negsuc, IsInt64, to_int8, to_int16, to_int32, to_int64}
use msgpck.Config.{Config}
use msgpck.Format.{is_positive_fixint, is_negative_fixint}
use msgpck.Format.Ranges.{is_positive_fixint-range, is_negative_fixint-range}
use msgpck.Encoder.Wire.{uint_bytes, int_bytes}
use msgpck.Decoder.{
  M, pure, ◌>>=◌, read_byte, read_uint8, read_uint16, read_uint32, read_uint64, read_int8,
  read_int16, read_int32, read_int64,
}
use msgpck.Decoder.Integers.{decode_int, decode_uint}
use msgpck.Decoder.Scalars.{Reads-map, Reads-map_to}
use msgpck.Decoder.Scalars.Numbers.{neg8, neg16, neg32, neg64}
use msgpck.Decoder.Reads.{
  Reads, Reads-pure, Reads-if, Reads-bind, Reads-byte, Reads-uint16, Reads-uint32, Reads-uint64,
}

module _ (n : ℕ) where
  decode_int-fixint : n < 128 → decode_int n ≡ pure (pos n)
  unfolding decode_int
  decode_int-fixint h = ground (arith, is_positive_fixint-range n)

  decode_int-negative_fixint : n < 32 → decode_int (0xff - n) ≡ pure (negsuc n)
  unfolding decode_int to_int8
  decode_int-negative_fixint h =
      ground (arith, is_positive_fixint-range (0xff - n), is_negative_fixint-range (0xff - n))

  decode_uint-fixint : n < 128 → decode_uint n ≡ pure n
  unfolding decode_uint
  decode_uint-fixint h = ground (arith, is_positive_fixint-range n)

  int64_of : n < 2 ^ 63 → to_int64 n ≡ pos n
  unfolding to_int64
  int64_of h = ground arith

module _ {c : Config} {k : ℕ} where
  -- A format byte, and what its branch reads.
  Reads-after {ℓ} :
      {A : Type ℓ} (reader : ℕ → M A) (f : ℕ) (bs : Bytes) (a : A)
      → Reads c k (reader f) bs a
      → Reads c k (read_byte >>= reader) (f ∷ bs) a
  Reads-after reader f bs a r = Reads-bind read_byte reader (f ∷ []) bs f a (Reads-byte f) r

  -- A fixint is its format byte.
  Reads-fixint {ℓ} :
      {A : Type ℓ} (reader : ℕ → M A) (f : ℕ) (a : A)
      → reader f ≡ pure a
      → Reads c k (read_byte >>= reader) (f ∷ []) a
  Reads-fixint reader f a e = Reads-after reader f [] a (rw e (Reads-pure a))

  -- Any reader that takes the unsigned formats as they are.
  pub Reads-uint_bytes :
      (reader : ℕ → M ℕ)
      → ((n : ℕ) → n < 128 → reader n ≡ pure n)
      → reader 0xcc ≡ read_byte
      → reader 0xcd ≡ read_uint16
      → reader 0xce ≡ read_uint32
      → reader 0xcf ≡ read_uint64
      → (v : ℕ) → v < 2 ^ 64
      → Reads c k (read_byte >>= reader) (uint_bytes v) v
  unfolding uint_bytes
  Reads-uint_bytes reader fix e8 e16 e32 e64 v h =
      Reads-if (leb v 0x7f) _ _
        (λ e. Reads-fixint reader v v (fix v (omega (arith, leb→le v 0x7f e))))
        λ _.
          Reads-if (leb v 0xff) _ _ (λ e. Reads-after reader 0xcc _ v (rw e8 (Reads-byte v)))
            λ _.
              Reads-if (leb v 0xffff) _ _
                (λ e.
                  Reads-after reader 0xcd _ v
                    (rw e16 (Reads-uint16 v (omega (arith, leb→le v 0xffff e)))))
                λ _.
                  Reads-if (leb v 0xffff_ffff) _ _
                    (λ e.
                      Reads-after reader 0xce _ v
                        (rw e32 (Reads-uint32 v (omega (arith, leb→le v 0xffff_ffff e)))))
                    λ _. Reads-after reader 0xcf _ v (rw e64 (Reads-uint64 v h))

  pub Reads-decode_uint :
      (v : ℕ) → v < 2 ^ 64 → Reads c k (read_byte >>= decode_uint) (uint_bytes v) v
  unfolding decode_uint is_positive_fixint read_uint8
  Reads-decode_uint v h = Reads-uint_bytes decode_uint decode_uint-fixint refl refl refl refl v h

  -- An unsigned form, of a number that int64 holds.
  Reads-int_pos : (n : ℕ) → n < 2 ^ 63 → Reads c k (read_byte >>= decode_int) (uint_bytes n) (pos n)
  unfolding uint_bytes decode_int is_positive_fixint is_negative_fixint read_uint8
  Reads-int_pos v h =
      Reads-if (leb v 0x7f) _ _
        (λ e. Reads-fixint decode_int v _ (decode_int-fixint v (omega (arith, leb→le v 0x7f e))))
        λ _.
          Reads-if (leb v 0xff) _ _
            (λ e. Reads-after decode_int 0xcc _ _ (Reads-map read_byte pos _ v (Reads-byte v)))
            λ _.
              Reads-if (leb v 0xffff) _ _
                (λ e. Reads-after decode_int 0xcd _ _ (
                  Reads-map read_uint16 pos _ v
                    (Reads-uint16 v (omega (arith, leb→le v 0xffff e)))))
                λ _.
                  Reads-if (leb v 0xffff_ffff) _ _
                    (λ e. Reads-after decode_int 0xce _ _ (
                      Reads-map read_uint32 pos _ v
                        (Reads-uint32 v (omega (arith, leb→le v 0xffff_ffff e)))))
                    λ _. Reads-after decode_int 0xcf _ _ (
                      Reads-map_to read_uint64 to_int64 _ v _ (int64_of v h)
                        (Reads-uint64 v (omega arith)))

  Reads-int_negsuc :
      (n : ℕ) → n < 2 ^ 63 → Reads c k (read_byte >>= decode_int) (int_bytes (negsuc n)) (negsuc n)
  unfolding int_bytes decode_int is_positive_fixint is_negative_fixint read_int8 read_int16
      read_int32 read_int64
  Reads-int_negsuc n h =
      Reads-if (leb n 31) _ _
        (λ e.
          Reads-fixint decode_int (0xff - n) _
            (decode_int-negative_fixint n (omega (arith, leb→le n 31 e))))
        λ _.
          Reads-if (leb n 0x7f) _ _
            (λ e.
              Reads-after decode_int 0xd0 _ _
                (Reads-map_to read_byte to_int8 _ (0xff - n) _ (neg8 n e) (Reads-byte (0xff - n))))
            λ _.
              Reads-if (leb n 0x7fff) _ _
                (λ e. Reads-after decode_int 0xd1 _ _ (
                  Reads-map_to read_uint16 to_int16 _ _ _ (neg16 n e)
                    (Reads-uint16 (0xffff - n) (omega arith))))
                λ _.
                  Reads-if (leb n 0x7fff_ffff) _ _
                    (λ e. Reads-after decode_int 0xd2 _ _ (
                      Reads-map_to read_uint32 to_int32 _ _ _ (neg32 n e)
                        (Reads-uint32 (0xffff_ffff - n) (omega arith))))
                    λ _. Reads-after decode_int 0xd3 _ _ (
                      Reads-map_to read_uint64 to_int64 _ _ _ (neg64 n h)
                        (Reads-uint64 (2 ^ 64 - 1 - n) (omega arith)))

  pub Reads-decode_int : (v : ℤ) → IsInt64 v → Reads c k (read_byte >>= decode_int) (int_bytes v) v
  unfolding int_bytes
  Reads-decode_int (pos n) h = Reads-int_pos n h
  Reads-decode_int (negsuc n) h = Reads-int_negsuc n h
