-- ===== src/Base/Decimal.antt =====
-- Numbers as JavaScript prints them: String(n) of a natural number, and Number(x).toFixed(digits) of
-- a fraction.
use Prim.Native.Nat.{ℕ, zero, suc, ◌+◌, ◌-◌, ◌*◌, ◌/◌, ◌%◌, ◌^◌, ◌≤◌, ◌<◌}
use mathlib.Core.Path.{◌≡◌, refl, ◌∙◌}
use mathlib.Core.Logic.{inl, inr}
use mathlib.Core.List.{[], ◌∷◌, ◌++◌}
use native.Mathlib.Omega.{arith}
use native.Mathlib.Nat.{div-add-mod, mod-lt}
use go_live_streaming.Base.Tests.{ltb, if◌then◌else◌, Bool-cases}
use go_live_streaming.Base.Text.{Text, codes}

-- The digits of a number, with fuel for one round more than there are digits.
unfoldable pub dec_from : ℕ → ℕ → Text
dec_from zero n = []
dec_from (suc fuel) n =
    let front = dec_from fuel (n / 10) in (if ltb n 10 then [] else front) ++ (48 + n % 10) ∷ []

-- `String(n)`
unfoldable pub dec : ℕ → Text
unfolding dec_from
dec n = dec_from (suc n) n

-- `Number(text)` of a text of digits
unfoldable pub number_from : ℕ → Text → ℕ
number_from acc [] = acc
number_from acc (c ∷ s) = number_from (acc * 10 + (c - 48)) s

number_from-concat :
    (acc : ℕ) (s : Text) (c : ℕ) → number_from acc (s ++ c ∷ []) ≡ number_from acc s * 10 + (c - 48)
unfolding number_from
number_from-concat acc [] c = refl
number_from-concat acc (d ∷ s) c = number_from-concat (acc * 10 + (d - 48)) s c

number_from-dec_from : (fuel n : ℕ) → n < fuel → number_from 0 (dec_from fuel n) ≡ n
unfolding dec_from number_from
number_from-dec_from zero n h = absurd (omega arith)
number_from-dec_from (suc fuel) n h = elim (Bool-cases (ltb n 10)) [
  | inl small ↦ rw small (ground arith)
  | inr large ↦ rw large (
      number_from-concat 0 (dec_from fuel (n / 10)) (48 + n % 10)
      ∙ ground (arith, number_from-dec_from fuel (n / 10)))
]

-- What is printed reads back.
pub number_from-dec : (n : ℕ) → number_from 0 (dec n) ≡ n
unfolding dec
number_from-dec n = number_from-dec_from (suc n) n (omega arith)

-- The nearest whole number to num * 10 ^ digits / den; halves go up.
unfoldable pub round_to : ℕ → ℕ → ℕ → ℕ
round_to digits num den = (2 * num * 10 ^ digits + den) / (2 * den)

-- A number of hundredths, or of wholes, as toFixed(2) and toFixed(0) print it.
unfoldable pub fixed : ℕ → ℕ → Text
unfolding dec
fixed zero n = dec n
fixed (suc digits) n = dec (n / 100) ++ codes "." ++ (48 + n % 100 / 10) ∷ (48 + n % 10) ∷ []

-- `Number(num / den).toFixed(digits)` for the digits 0 and 2
unfoldable pub to_fixed : ℕ → ℕ → ℕ → Text
unfolding fixed round_to
to_fixed digits num den = fixed digits (round_to digits num den)

-- The rounding is off by a half at most.
pub round_to-near :
    (digits num den : ℕ)
    → 0 < den
    → (2 * round_to digits num den * den ≤ 2 * num * 10 ^ digits + den)
      × (2 * num * 10 ^ digits < 2 * round_to digits num den * den + den)
unfolding round_to
round_to-near digits num den h =
    let a : ℕ = 2 * num * 10 ^ digits + den in
    (
      omega (arith, div-add-mod a (2 * den), mod-lt a {m = 2 * den} (omega arith)),
      omega (arith, div-add-mod a (2 * den), mod-lt a {m = 2 * den} (omega arith)),
    )
