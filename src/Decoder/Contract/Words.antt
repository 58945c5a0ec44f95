-- ===== src/Decoder/Contract/Words.antt =====
-- Words read from enough bytes exist and are in range, and so are the integers made of them.
use msgpck.Base.{
  ℕ, ◌^◌, ◌≤◌, ◌<◌, ◌≡◌, inl, inr, refl, Bytes, [], ◌∷◌, All, length, arith, some, Bool-cases, ltb,
  ltb→lt, ltb_false→le,
}
use msgpck.Base.Words.{
  ℤ, pos, negsuc, IsInt8, IsInt64, uint16_at, uint32_at, uint64_at, to_int8, to_int16, to_int32,
  to_int64,
}
use msgpck.Decoder.Contract.{IsByte}

pub total16 :
    (bs : Bytes) → All IsByte bs → 2 ≤ length bs → (v : ℕ) × (uint16_at bs ≡ some v) × (v < 2 ^ 16)
unfolding uint16_at
total16 [] h l = absurd (omega arith)
total16 (a ∷ []) h l = absurd (omega arith)
total16 (a ∷ b ∷ bs) h l = (_, refl, omega arith)

pub total32 :
    (bs : Bytes) → All IsByte bs → 4 ≤ length bs → (v : ℕ) × (uint32_at bs ≡ some v) × (v < 2 ^ 32)
unfolding uint32_at
total32 [] h l = absurd (omega arith)
total32 (a ∷ []) h l = absurd (omega arith)
total32 (a ∷ b ∷ []) h l = absurd (omega arith)
total32 (a ∷ b ∷ c ∷ []) h l = absurd (omega arith)
total32 (a ∷ b ∷ c ∷ d ∷ bs) h l = (_, refl, omega arith)

pub total64 :
    (bs : Bytes) → All IsByte bs → 8 ≤ length bs → (v : ℕ) × (uint64_at bs ≡ some v) × (v < 2 ^ 64)
unfolding uint64_at
total64 [] h l = absurd (omega arith)
total64 (a ∷ []) h l = absurd (omega arith)
total64 (a ∷ b ∷ []) h l = absurd (omega arith)
total64 (a ∷ b ∷ c ∷ []) h l = absurd (omega arith)
total64 (a ∷ b ∷ c ∷ d ∷ []) h l = absurd (omega arith)
total64 (a ∷ b ∷ c ∷ d ∷ e ∷ []) h l = absurd (omega arith)
total64 (a ∷ b ∷ c ∷ d ∷ e ∷ f ∷ []) h l = absurd (omega arith)
total64 (a ∷ b ∷ c ∷ d ∷ e ∷ f ∷ g ∷ []) h l = absurd (omega arith)
total64 (a ∷ b ∷ c ∷ d ∷ e ∷ f ∷ g ∷ i ∷ bs) h l = (_, refl, omega arith)

pub to_int8-IsInt8 : (v : ℕ) → IsByte v → IsInt8 (to_int8 v)
unfolding to_int8
to_int8-IsInt8 v h = elim (Bool-cases (ltb v 0x80)) [
  | inl e ↦ rw e (ltb→lt v 0x80 e)
  | inr e ↦ rw e (omega (arith, ltb_false→le v 0x80 e))
]

pub IsInt64-of_int8 : (v : ℤ) → IsInt8 v → IsInt64 v
IsInt64-of_int8 (pos n) h = omega arith
IsInt64-of_int8 (negsuc n) h = omega arith

pub to_int16-IsInt64 : (v : ℕ) → v < 2 ^ 16 → IsInt64 (to_int16 v)
unfolding to_int16
to_int16-IsInt64 v h = elim (Bool-cases (ltb v 0x8000)) [
  | inl e ↦ rw e (omega arith)
  | inr e ↦ rw e (omega arith)
]

pub to_int32-IsInt64 : (v : ℕ) → v < 2 ^ 32 → IsInt64 (to_int32 v)
unfolding to_int32
to_int32-IsInt64 v h = elim (Bool-cases (ltb v 0x8000_0000)) [
  | inl e ↦ rw e (omega arith)
  | inr e ↦ rw e (omega arith)
]

pub to_int64-IsInt64 : (v : ℕ) → v < 2 ^ 64 → IsInt64 (to_int64 v)
unfolding to_int64
to_int64-IsInt64 v h = elim (Bool-cases (ltb v (2 ^ 63))) [
  | inl e ↦ rw e (ltb→lt v _ e)
  | inr e ↦ rw e (omega (arith, ltb_false→le v _ e))
]
