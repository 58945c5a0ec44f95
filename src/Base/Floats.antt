-- ===== src/Base/Floats.antt =====
-- Go's conversions to and between floats, on IEEE bit patterns: to the nearest, ties to even.
use Prim.Native.Nat.{ℕ, zero, suc, ◌+◌, ◌-◌, ◌*◌, ◌/◌, ◌%◌, ◌^◌}
use msgpck.Base.Tests.{ltb, leb, ◌==◌, if◌then◌else◌}
use msgpck.Base.Words.{ℤ, pos, negsuc}

-- The place of the highest bit, among the lowest 64; zero has none and gives 0.
unfoldable pub log2_from : ℕ → ℕ → ℕ
log2_from zero n = 0
log2_from (suc k) n = let below = log2_from k n in if leb (2 ^ suc k) n then suc k else below

abbrev pub log2 : ℕ → ℕ
log2 n = log2_from 63 n

-- n / 2 ^ s, rounded to the nearest, a tie to the even one.
unfoldable pub round_shift : ℕ → ℕ → ℕ
round_shift s n =
    let q : ℕ = n / 2 ^ s in
    let r : ℕ = n % 2 ^ s * 2 in
    if ltb r (2 ^ s) then q else if ltb (2 ^ s) r then q + 1 else q + q % 2

-- float64(v) of a float32 v. A NaN is made quiet, as the processors' conversions do.
unfoldable pub float64_of_float32 : ℕ → ℕ
float64_of_float32 v =
    let sign : ℕ = v / 2 ^ 31 * 2 ^ 63 in
    let exponent : ℕ = v / 2 ^ 23 % 256 in
    let fraction : ℕ = v % 2 ^ 23 in
    if exponent == 255
    then (if fraction == 0
        then sign + 2047 * 2 ^ 52
        else sign + 2047 * 2 ^ 52 + 2 ^ 51 + fraction % 2 ^ 22 * 2 ^ 29)
    else if exponent == 0
    then (if fraction == 0
        then sign
        else sign
          + (874 + log2 fraction) * 2 ^ 52
          + (fraction - 2 ^ log2 fraction) * 2 ^ (52 - log2 fraction))
    else sign + (exponent + 896) * 2 ^ 52 + fraction * 2 ^ 29

-- float64(n) of a number below 2 ^ 64. Rounding up to the next power of two carries into the exponent.
unfoldable pub float64_of_nat : ℕ → ℕ
unfolding round_shift
float64_of_nat n =
    if n == 0
    then 0
    else if leb (log2 n) 52
    then (1022 + log2 n) * 2 ^ 52 + n * 2 ^ (52 - log2 n)
    else (1022 + log2 n) * 2 ^ 52 + round_shift (log2 n - 52) n

unfoldable pub float64_of_int : ℤ → ℕ
unfolding float64_of_nat
float64_of_int (pos n) = float64_of_nat n
float64_of_int (negsuc n) = 2 ^ 63 + float64_of_nat (n + 1)

-- float32(v) of a float64 v: too large is infinite, and below 2 ^ -126 the fraction loses bits.
unfoldable pub float32_of_float64 : ℕ → ℕ
unfolding round_shift
float32_of_float64 v =
    let sign : ℕ = v / 2 ^ 63 * 2 ^ 31 in
    let exponent : ℕ = v / 2 ^ 52 % 2048 in
    let fraction : ℕ = v % 2 ^ 52 in
    if exponent == 2047
    then (if fraction == 0
        then sign + 255 * 2 ^ 23
        else sign + 255 * 2 ^ 23 + 2 ^ 22 + fraction / 2 ^ 29 % 2 ^ 22)
    else if ltb 1150 exponent
    then sign + 255 * 2 ^ 23
    else if ltb 896 exponent
    then sign + (exponent - 897) * 2 ^ 23 + round_shift 29 (2 ^ 52 + fraction)
    else if ltb exponent 872
    then sign
    else sign + round_shift (926 - exponent) (2 ^ 52 + fraction)
