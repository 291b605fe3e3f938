-- ===== src/Utility/Arrays/Tests.antt =====
-- The theorems on the array helpers at concrete arrays.
use go_live_streaming.Base.{ℕ, ◌≡◌, refl, Bool, false, not, some, List, [], ◌∷◌, keep_if, ◌==◌, ltb}
use go_live_streaming.Utility.Arrays.{
  value, test, system_array_remove, system_array_get, system_array_contains,
}
use go_live_streaming.Utility.Arrays.Remove.{system_array_remove-keep_if}

abbrev sample : List ℕ
sample = 10 ∷ 15 ∷ 20 ∷ 30 ∷ 20 ∷ 40 ∷ []

remove_20 : system_array_remove ◌==◌ sample 20 ≡ some (10 ∷ 15 ∷ 30 ∷ 40 ∷ [])
unfolding system_array_remove
remove_20 = refl

get_30 : system_array_get ◌==◌ sample (test (λ x. x == 30)) ≡ some 30
unfolding system_array_get
get_30 = refl

contains_11 : system_array_contains ◌==◌ sample (value 11) ≡ false
unfolding system_array_contains
contains_11 = refl

system_array_remove-keep_if_example :
    system_array_remove ◌==◌ sample 20 ≡ some (keep_if (λ x. not (20 == x)) sample)
system_array_remove-keep_if_example = system_array_remove-keep_if ◌==◌ 20 sample

abbrev below_20 : ℕ → ℕ → Bool
below_20 x i = ltb x 20
