-- ===== src/Utility/Arrays.antt =====
-- The array helpers of winlin.utility.js. The operator `==` of the elements is a parameter.
pub mod Remove
pub mod Find
mod Tests
use go_live_streaming.Base.{
  ℕ, zero, suc, Bool, true, false, Option, none, some, List, [], ◌∷◌, length, get_elem?, remove_at,
  if◌then◌else◌, ltb,
}
use go_live_streaming.Base.Int.{ℤ, pos, negsuc, ◌*ℤ◌}

-- `elem_or_function`
pub data Wanted (A : Type 0) : Type 0 where
  value : A → Wanted A
  test : (A → Bool) → Wanted A

module _ {A : Type 0} (eq : A → A → Bool) where
  -- The inner `for` of `system_array_remove`, from index i: where it stops, and whether at a hit.
  unfoldable pub scan : ℕ → List A → A → ℕ → ℕ × Bool
  scan zero arr elem i = (i, false)
  scan (suc fuel) arr elem i = elim (get_elem? arr i) [
    | none ↦ (i, false)
    | some x ↦ if eq elem x then (i, true) else scan fuel arr elem (suc i)
  ]

  -- The outer `while`: what was hit is spliced out, and the next round goes on at its index. `none`
  -- means that the fuel ran out.
  unfoldable pub remove_from : ℕ → List A → A → ℕ → Option (List A)
  unfolding scan
  remove_from zero arr elem i = none
  remove_from (suc fuel) arr elem i =
      let (j, removed) = scan (suc (length arr)) arr elem i in
      elim removed [ true ↦ remove_from fuel (remove_at j arr) elem j | false ↦ some arr ]

  -- `system_array_remove(arr, elem)`: the array afterwards.
  unfoldable pub system_array_remove : List A → A → Option (List A)
  unfolding remove_from
  system_array_remove arr elem = remove_from (suc (length arr)) arr elem 0

  abbrev pub matches : Wanted A → A → Bool
  matches (value v) x = eq v x
  matches (test f) x = f x

  -- null is `none`.
  unfoldable pub system_array_get : List A → Wanted A → Option A
  system_array_get [] wanted = none
  system_array_get (x ∷ arr) wanted =
      if matches wanted x then some x else system_array_get arr wanted

  unfoldable pub system_array_contains : List A → Wanted A → Bool
  unfolding system_array_get
  system_array_contains arr wanted = elim (system_array_get arr wanted) [
    | none ↦ false
    | some _ ↦ true
  ]

module _ {A : Type 0} where
  -- The loop of `system_array_foreach` from an index: what it returns, and the calls it makes.
  unfoldable pub foreach_from : List A → (A → ℕ → Bool) → ℕ → Bool × List (A × ℕ)
  foreach_from [] pfn i = (true, [])
  foreach_from (x ∷ arr) pfn i =
      let (done, visited) = foreach_from arr pfn (suc i) in
      if pfn x i then (done, (x, i) ∷ visited) else (false, (x, i) ∷ [])

  unfoldable pub system_array_foreach : List A → Option (A → ℕ → Bool) → Bool × List (A × ℕ)
  unfolding foreach_from
  system_array_foreach arr none = (false, [])
  system_array_foreach arr (some pfn) = foreach_from arr pfn 0

unfoldable pub array_sort_asc : ℕ → ℕ → ℤ
array_sort_asc a b = if ltb b a then pos 1 else if ltb a b then negsuc 0 else pos 0

unfoldable pub array_sort_desc : ℕ → ℕ → ℤ
unfolding array_sort_asc ◌*ℤ◌
array_sort_desc a b = negsuc 0 *ℤ array_sort_asc a b

unfoldable pub system_array_sort_asc : ℕ → ℕ → ℤ
unfolding array_sort_asc
system_array_sort_asc a b = array_sort_asc a b

unfoldable pub system_array_sort_desc : ℕ → ℕ → ℤ
unfolding array_sort_asc ◌*ℤ◌
system_array_sort_desc a b = negsuc 0 *ℤ array_sort_asc a b
