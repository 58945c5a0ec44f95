-- ===== src/Base/Words.antt =====
-- Machine integers. An unsigned word is a native number below its modulus; an int64 is an integer,
-- and a conversion between the two wraps as Go's conversions do.
use Prim.Native.Nat.{ℕ, ◌+◌, ◌-◌, ◌*◌, ◌/◌, ◌%◌, ◌^◌, ◌<◌}
use mathlib.Core.Path.{◌≡◌}
use mathlib.Core.Bool.{Bool, true, false}
use mathlib.Core.Option.{Option, none, some}
use mathlib.Core.List.{List, [], ◌∷◌, ◌++◌}
use native.Mathlib.Omega.{arith}
use msgpck.Base.Tests.{ltb, leb, if◌then◌else◌}

-- `negsuc n` is -(n + 1).
pub data ℤ : Type 0 where
  pos : ℕ → ℤ
  negsuc : ℕ → ℤ

-- v <= w.
abbrev pub leb_ℤ : ℤ → ℤ → Bool
leb_ℤ (pos a) (pos b) = leb a b
leb_ℤ (pos a) (negsuc b) = false
leb_ℤ (negsuc a) (pos b) = true
leb_ℤ (negsuc a) (negsuc b) = leb b a

abbrev pub IsInt64 : ℤ → Type 0
IsInt64 (pos n) = n < 2 ^ 63
IsInt64 (negsuc n) = n < 2 ^ 63

abbrev pub IsInt8 : ℤ → Type 0
IsInt8 (pos n) = n < 128
IsInt8 (negsuc n) = n < 128

-- uint64(v): the two's complement pattern of an integer.
unfoldable pub to_uint64 : ℤ → ℕ
to_uint64 (pos n) = n % 2 ^ 64
to_uint64 (negsuc n) = 2 ^ 64 - 1 - n % 2 ^ 64

-- int8(n), int16(n), int32(n) and int64(n), for a word n of that width.
unfoldable pub to_int8 : ℕ → ℤ
to_int8 n = if ltb n 0x80 then pos n else negsuc (0xff - n)

unfoldable pub to_int16 : ℕ → ℤ
to_int16 n = if ltb n 0x8000 then pos n else negsuc (0xffff - n)

unfoldable pub to_int32 : ℕ → ℤ
to_int32 n = if ltb n 0x8000_0000 then pos n else negsuc (0xffff_ffff - n)

unfoldable pub to_int64 : ℕ → ℤ
to_int64 n = if ltb n (2 ^ 63) then pos n else negsuc (2 ^ 64 - 1 - n)

-- The byte order of binary.BigEndian: what PutUint16, PutUint32 and PutUint64 store.
unfoldable pub be16 : ℕ → List ℕ
be16 v = (v / 256 % 256) ∷ (v % 256) ∷ []

unfoldable pub be32 : ℕ → List ℕ
unfolding be16
be32 v = be16 (v / 65536) ++ be16 v

unfoldable pub be64 : ℕ → List ℕ
unfolding be32
be64 v = be32 (v / 2 ^ 32) ++ be32 v

-- Uint16, Uint32 and Uint64 of the bytes at the front; they panic on a shorter slice.
abbrev pub word16 : ℕ → ℕ → ℕ
word16 a b = a * 256 + b

abbrev pub word32 : ℕ → ℕ → ℕ → ℕ → ℕ
word32 a b c d = word16 a b * 65536 + word16 c d

unfoldable pub uint16_at : List ℕ → Option ℕ
uint16_at (a ∷ b ∷ _) = some (word16 a b)
uint16_at _ = none

unfoldable pub uint32_at : List ℕ → Option ℕ
uint32_at (a ∷ b ∷ c ∷ d ∷ _) = some (word32 a b c d)
uint32_at _ = none

unfoldable pub uint64_at : List ℕ → Option ℕ
uint64_at (a ∷ b ∷ c ∷ d ∷ e ∷ f ∷ g ∷ h ∷ _) = some (word32 a b c d * 2 ^ 32 + word32 e f g h)
uint64_at _ = none

pub uint16_at-be16 : (v : ℕ) (rest : List ℕ) → v < 2 ^ 16 → uint16_at (be16 v ++ rest) ≡ some v
unfolding uint16_at be16
uint16_at-be16 v rest h = ground arith

word32_be :
    (v : ℕ)
    → v < 2 ^ 32
    → word32 (v / 65536 / 256 % 256) (v / 65536 % 256) (v / 256 % 256) (v % 256) ≡ v
word32_be v h = omega arith

pub uint32_at-be32 : (v : ℕ) (rest : List ℕ) → v < 2 ^ 32 → uint32_at (be32 v ++ rest) ≡ some v
unfolding uint32_at be32
uint32_at-be32 v rest h = ground (arith, word32_be v)

low_half :
    (v : ℕ)
    → word32 (v / 65536 / 256 % 256) (v / 65536 % 256) (v / 256 % 256) (v % 256) ≡ v % 2 ^ 32
low_half v = omega arith

pub uint64_at-be64 : (v : ℕ) (rest : List ℕ) → v < 2 ^ 64 → uint64_at (be64 v ++ rest) ≡ some v
unfolding uint64_at be64
uint64_at-be64 v rest h = rw (word32_be (v / 2 ^ 32) (omega arith), low_half v) (ground arith)

-- A conversion to a wider type and back.
pub to_int8-to_uint64 : (n : ℕ) → n < 128 → to_int8 (to_uint64 (negsuc n) % 256) ≡ negsuc n
unfolding to_int8 to_uint64
to_int8-to_uint64 n h = ground arith

pub to_int16-to_uint64 : (n : ℕ) → n < 2 ^ 15 → to_int16 (to_uint64 (negsuc n) % 2 ^ 16) ≡ negsuc n
unfolding to_int16 to_uint64
to_int16-to_uint64 n h = ground arith

pub to_int32-to_uint64 : (n : ℕ) → n < 2 ^ 31 → to_int32 (to_uint64 (negsuc n) % 2 ^ 32) ≡ negsuc n
unfolding to_int32 to_uint64
to_int32-to_uint64 n h = ground arith

pub to_int64-to_uint64 : (v : ℤ) → IsInt64 v → to_int64 (to_uint64 v) ≡ v
unfolding to_int64 to_uint64
to_int64-to_uint64 (pos n) h = ground arith
to_int64-to_uint64 (negsuc n) h = ground arith

pub to_uint64-lt : (v : ℤ) → to_uint64 v < 2 ^ 64
unfolding to_uint64
to_uint64-lt (pos n) = omega arith
to_uint64-lt (negsuc n) = omega arith
