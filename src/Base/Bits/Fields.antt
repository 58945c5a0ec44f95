-- ===== src/Base/Bits/Fields.antt =====
-- Two fields of bits in one word: the upper shifted by k places, the lower below 2 ^ k.
use Prim.Native.Nat.{
  ℕ, zero, suc, ◌+◌, ◌*◌, ◌/◌, ◌%◌, ◌^◌, ◌≤◌, ◌<◌, max, min, digits, bit_or, bit_and,
  bit_or-bitwise, bit_and-bitwise,
}
use mathlib.Core.Logic.{◌⊎◌, inl, inr}
use mathlib.Core.Path.{◌≡◌, refl, ◌∙◌}
use native.Mathlib.Omega.{arith}

-- x << k, 2 ^ k and 2 ^ k - 1, by doubling.
abbrev pub shifted : ℕ → ℕ → ℕ
shifted x zero = x
shifted x (suc k) = shifted x k * 2

abbrev pub power : ℕ → ℕ
power zero = 1
power (suc k) = power k * 2

abbrev pub ones : ℕ → ℕ
ones zero = 0
ones (suc k) = ones k * 2 + 1

-- Two bits, of which one is zero; and two bits, of which the second is one or the second zero.
max_or : (x y : ℕ) → (x ≡ 0) ⊎ (y ≡ 0) → max x y ≡ x + y
max_or x y h = omega arith

min_zero : (x y : ℕ) → y ≡ 0 → min x y ≡ 0
min_zero x y h = omega arith

min_one : (x y : ℕ) → x < 2 → y ≡ 1 → min x y ≡ x
min_one x y h e = omega arith

digits-or :
    (n k x b a : ℕ) → a ≡ shifted x k → b < power k → a ≤ n → digits (λ b. b) max n a b ≡ a + b
digits-or zero k x b a e lt le = omega arith
digits-or (suc n) k x b zero e lt le = omega arith
digits-or (suc n) zero x b (suc a) e lt le =
    rw
      (
        digits-or n zero (suc a / 2) (b / 2) (suc a / 2) refl (omega arith) (omega arith),
        max_or (suc a % 2) (b % 2) (inr (omega arith)),
      )
      (omega arith)
digits-or (suc n) (suc k) x b (suc a) e lt le =
    rw
      (
        digits-or n k x (b / 2) (suc a / 2) (omega arith) (omega arith) (omega arith),
        max_or (suc a % 2) (b % 2) (inl (omega arith)),
      )
      (omega arith)

pub bit_or-shifted : (k x b : ℕ) → b < power k → bit_or (shifted x k) b ≡ shifted x k + b
bit_or-shifted k x b lt =
    bit_or-bitwise (shifted x k) b
    ∙ digits-or (shifted x k) k x b (shifted x k) refl lt (omega arith)

digits-ones :
    (n k x b a m : ℕ)
    → a ≡ shifted x k + b
    → b < power k
    → a ≤ n
    → m ≡ ones k
    → digits (λ b. 0) min n a m ≡ b
digits-ones zero k x b a m e lt le o = omega arith
digits-ones (suc n) k x b zero m e lt le o = omega arith
digits-ones (suc n) zero x b (suc a) m e lt le o =
    rw
      (
        digits-ones n zero (suc a / 2) 0 (suc a / 2) (m / 2) (omega arith) (omega arith)
            (omega arith) (omega arith),
        min_zero (suc a % 2) (m % 2) (omega arith),
      )
      (omega arith)
digits-ones (suc n) (suc k) x b (suc a) m e lt le o =
    rw
      (
        digits-ones n k x (b / 2) (suc a / 2) (m / 2) (omega arith) (omega arith) (omega arith)
            (omega arith),
        min_one (suc a % 2) (m % 2) (omega arith) (omega arith),
      )
      (omega arith)

pub bit_and-ones : (k x b : ℕ) → b < power k → bit_and (shifted x k + b) (ones k) ≡ b
bit_and-ones k x b lt =
    bit_and-bitwise (shifted x k + b) (ones k)
    ∙ digits-ones (shifted x k + b) k x b (shifted x k + b) (ones k) refl lt (omega arith) refl

shifted_34 : (x : ℕ) → shifted x 34 ≡ x * 2 ^ 34
shifted_34 x = omega arith

-- The two fields of a timestamp of 64 bits.
pub bit_or_34 : (x b : ℕ) → b < 2 ^ 34 → bit_or (x * 2 ^ 34) b ≡ x * 2 ^ 34 + b
bit_or_34 x b h = rw (shifted_34 x) at (bit_or-shifted 34 x b h)

pub bit_and_34 : (x b : ℕ) → b < 2 ^ 34 → bit_and (x * 2 ^ 34 + b) 0x3_ffff_ffff ≡ b
bit_and_34 x b h = rw (shifted_34 x) at (bit_and-ones 34 x b h)
