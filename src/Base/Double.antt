-- ===== src/Base/Double.antt =====
-- Numbers of JavaScript that are not whole: a double that is not negative and below 2 ^ 53 is a
-- numerator over a power of two. A quotient is rounded to 53 bits, to even in the middle.
use Prim.Native.Nat.{ℕ, zero, suc, ◌+◌, ◌*◌, ◌/◌, ◌%◌, ◌<◌}
use mathlib.Core.Bool.{true, false}
use native.Mathlib.Omega.{arith}
use go_live_streaming.Base.Tests.{ltb, leb, if◌then◌else◌}

abbrev pub Double : Type 0
Double = ℕ × ℕ

unfoldable pub round_even : ℕ → ℕ → ℕ
round_even num den =
    if ltb (2 * (num % den)) den
    then num / den
    else if ltb den (2 * (num % den))
    then num / den + 1
    else num / den + num / den % 2

-- The scale is doubled until 53 bits are before the point; the smallest double has 2 ^ 1074 below.
unfoldable pub scaled : ℕ → ℕ → ℕ → ℕ → Double
unfolding round_even
scaled zero num den scale = (round_even num den, scale)
scaled (suc fuel) num den scale = elim (leb (4503599627370496 * den) num) [
  | true ↦ (round_even num den, scale)
  | false ↦ scaled fuel (2 * num) den (2 * scale)
]

-- The double next to a fraction.
unfoldable pub to_double : ℕ → ℕ → Double
unfolding scaled
to_double num den = scaled 1074 num den 1

-- `x / n`, for a whole n
unfoldable pub quotient : Double → ℕ → Double
unfolding to_double
quotient x n = to_double x.0 (x.1 * n)

scaled-pos : (fuel num den scale : ℕ) → 0 < scale → 0 < (scaled fuel num den scale).1
unfolding scaled
scaled-pos zero num den scale h = h
scaled-pos (suc fuel) num den scale h =
    elim (leb (4503599627370496 * den) num)
      as (λ b.
        0
        < (elim b as (λ c. Double) [
          | true ↦ (round_even num den, scale)
          | false ↦ scaled fuel (2 * num) den (2 * scale)
        ]).1) [ true ↦ h | false ↦ scaled-pos fuel (2 * num) den (2 * scale) (omega arith) ]

pub quotient-pos : (x : Double) (n : ℕ) → 0 < (quotient x n).1
unfolding quotient to_double
quotient-pos x n = scaled-pos 1074 x.0 (x.1 * n) 1 (omega arith)
