-- ===== src/Console/Filters/Units.antt =====
-- The unit that a filter chooses, and how near the number that it prints is.
use go_live_streaming.Base.{
  ℕ, zero, suc, ◌+◌, ◌*◌, ◌^◌, ◌≤◌, ◌<◌, ◌≡◌, ◌⊎◌, ◌++◌, ltb, if◌then◌else◌,
}
use go_live_streaming.Base.Text.{Text, codes}
use go_live_streaming.Base.Decimal.{fixed, to_fixed}
use go_live_streaming.Console.Filters.{fixed_double, divided}
use go_live_streaming.Base.Double.{Double}

-- The letters of the powers of the base, from the zeroth.
abbrev pub prefix : ℕ → Text
prefix zero = codes "K"
prefix (suc zero) = codes "M"
prefix (suc (suc zero)) = codes "G"
prefix (suc (suc (suc zero))) = codes "T"
prefix (suc (suc (suc (suc n)))) = codes "P"

-- The value over a power of the base.
abbrev pub exact : ℕ → ℕ → ℕ → Double
exact base v power = (v, base ^ power)

-- The text is an amount with so many digits and the unit of a power of the base: the largest power
-- below the value, up to the fourth; and the amount is off by half of its last digit at most from the
-- quotient of the value for that power, upwards in the middle.
pub record Shows (base digits : ℕ) (unit : Text) (quotient : ℕ → Double) (v : ℕ) (t : Text)
    : Type 0 where
  pub power : ℕ
  pub amount : ℕ
  pub text : t ≡ fixed digits amount ++ (prefix power ++ unit)
  pub fits : power ≤ 4
  pub above : (power ≡ 0) ⊎ (base ^ power < v)
  pub below : (power ≡ 4) ⊎ (v ≤ base ^ (power + 1))
  pub near :
      2 * amount * (quotient power).1 ≤ 2 * (quotient power).0 * 10 ^ digits + (quotient power).1
  pub nearest :
      2 * (quotient power).0 * 10 ^ digits < 2 * amount * (quotient power).1 + (quotient power).1

-- The ladder of tests that the filters with the base 1024 share.
abbrev scale_1024 : ℕ → Text → ℕ → Text
scale_1024 digits unit v =
    if ltb (1024 * 1024 * 1024 * 1024) v
    then to_fixed digits v (1024 * 1024 * 1024 * 1024) ++ (codes "P" ++ unit)
    else if ltb (1024 * 1024 * 1024) v
    then to_fixed digits v (1024 * 1024 * 1024) ++ (codes "T" ++ unit)
    else if ltb (1024 * 1024) v
    then to_fixed digits v (1024 * 1024) ++ (codes "G" ++ unit)
    else if ltb 1024 v
    then to_fixed digits v 1024 ++ (codes "M" ++ unit)
    else to_fixed digits v 1 ++ (codes "K" ++ unit)

-- The ladder of tests that the filters with the base 1000 share.
abbrev scale_1000 : ℕ → Text → ℕ → Text
scale_1000 digits unit v =
    if ltb (1000 * 1000 * 1000 * 1000) v
    then fixed_double digits (divided v 4) ++ (codes "P" ++ unit)
    else if ltb (1000 * 1000 * 1000) v
    then fixed_double digits (divided v 3) ++ (codes "T" ++ unit)
    else if ltb (1000 * 1000) v
    then fixed_double digits (divided v 2) ++ (codes "G" ++ unit)
    else if ltb 1000 v
    then fixed_double digits (divided v 1) ++ (codes "M" ++ unit)
    else fixed_double digits (divided v 0) ++ (codes "K" ++ unit)
