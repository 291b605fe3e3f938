-- ===== src/Utility/Arrays/Find.antt =====
-- Looking for an element, calling a function on each, and comparing for a sort.
use go_live_streaming.Base.{
  ℕ, suc, ◌+◌, ◌<◌, ◌≡◌, refl, ap, ◌↔◌, ◌⊎◌, inl, inr, Bool, true, false, none, some, List, [], ◌∷◌,
  ◌++◌, arith, length, Bool-cases,
}
use go_live_streaming.Base.Int.{pos, negsuc}
use go_live_streaming.Utility.Arrays.{
  Wanted, matches, system_array_get, system_array_contains, foreach_from, system_array_foreach,
  array_sort_asc, array_sort_desc, system_array_sort_asc, system_array_sort_desc,
}

module _ {A : Type 0} (eq : A → A → Bool) where
  -- No element of the list is one that is wanted.
  abbrev pub NoMatch : Wanted A → List A → Type 0
  NoMatch wanted [] = Unit
  NoMatch wanted (x ∷ xs) = (matches eq wanted x ≡ false) × NoMatch wanted xs

  -- `system_array_get` returns null exactly if no element is wanted, and otherwise the first that is.
  pub system_array_get_cases :
      (arr : List A) (wanted : Wanted A)
      → ((system_array_get eq arr wanted ≡ none)
          × NoMatch wanted arr
          × (system_array_contains eq arr wanted ≡ false))
        ⊎ ((before after : List A) × (x : A) × (system_array_get eq arr wanted ≡ some x)
            × (arr ≡ before ++ x ∷ after)
            × NoMatch wanted before
            × (matches eq wanted x ≡ true)
            × (system_array_contains eq arr wanted ≡ true))
  unfolding system_array_get system_array_contains
  system_array_get_cases [] wanted = inl (refl, tt, refl)
  system_array_get_cases (y ∷ arr) wanted = elim (Bool-cases (matches eq wanted y)) [
    | inl hit ↦ inr ([], arr, y, rw hit, refl, tt, hit, ground (arith, hit))
    | inr miss ↦ elim (system_array_get_cases arr wanted) [
      | inl (nothing, rest, not_in) ↦
          inl (rw miss nothing, (miss, rest), ground (arith, miss, not_in))
      | inr (before, after, x, found, split, rest, hit, is_in) ↦ inr (
        y ∷ before,
        after,
        x,
        rw miss found,
        ap (λ zs. y ∷ zs) split,
        (miss, rest),
        hit,
        ground (arith, miss, is_in),
      )
    ]
  ]

module _ {A : Type 0} where
  -- The calls for the elements from an index.
  abbrev pub numbered : List A → ℕ → List (A × ℕ)
  numbered [] i = []
  numbered (x ∷ xs) i = (x, i) ∷ numbered xs (suc i)

  -- The function returns true for every element from an index.
  abbrev pub AllTrue : (A → ℕ → Bool) → List A → ℕ → Type 0
  AllTrue pfn [] i = Unit
  AllTrue pfn (x ∷ xs) i = (pfn x i ≡ true) × AllTrue pfn xs (suc i)

  abbrev Visits : (A → ℕ → Bool) → List A → ℕ → Bool × List (A × ℕ) → Type 0
  Visits pfn arr i r =
      ((r ≡ (true, numbered arr i)) × AllTrue pfn arr i)
      ⊎ ((before after : List A) × (x : A) × (r ≡ (false, numbered (before ++ x ∷ []) i))
          × (arr ≡ before ++ x ∷ after)
          × AllTrue pfn before i
          × (pfn x (i + length before) ≡ false))

  foreach_from-Visits :
      (pfn : A → ℕ → Bool) (arr : List A) (i : ℕ) → Visits pfn arr i (foreach_from arr pfn i)
  unfolding foreach_from
  foreach_from-Visits pfn [] i = inl (refl, tt)
  foreach_from-Visits pfn (y ∷ arr) i = elim (Bool-cases (pfn y i)) [
    | inr stop ↦ inr ([], arr, y, rw stop, refl, tt, rw (let e : i + 0 ≡ i = omega arith in e) stop)
    | inl go ↦ elim (foreach_from-Visits pfn arr (suc i)) [
      | inl (e, all) ↦ inl (rw (go, e), (go, all))
      | inr (before, after, x, e, split, all, stop) ↦ inr (
        y ∷ before,
        after,
        x,
        rw (go, e),
        ap (λ zs. y ∷ zs) split,
        (go, all),
        rw (let e : i + suc (length before) ≡ suc i + length before = omega arith in e) stop,
      )
    ]
  ]

  -- `system_array_foreach` calls the function on the elements in order with their indices, up to and
  -- with the first for which it returns false, and returns whether there was none.
  pub system_array_foreach-Visits :
      (pfn : A → ℕ → Bool) (arr : List A)
      → ((system_array_foreach arr (some pfn) ≡ (true, numbered arr 0)) × AllTrue pfn arr 0)
        ⊎ ((before after : List A) × (x : A) × (system_array_foreach arr (some pfn)
              ≡ (false, numbered (before ++ x ∷ []) 0))
            × (arr ≡ before ++ x ∷ after)
            × AllTrue pfn before 0
            × (pfn x (0 + length before) ≡ false))
  unfolding system_array_foreach
  system_array_foreach-Visits pfn arr = foreach_from-Visits pfn arr 0

-- The comparators agree with the order of the numbers: ascending is 1, 0 or -1 as the first is above,
-- at or below the second, and descending is ascending with the arguments swapped.
pub array_sort_order :
    (a b : ℕ)
    → ((array_sort_asc a b ≡ pos 1) ↔ (b < a))
      × ((array_sort_asc a b ≡ pos 0) ↔ (a ≡ b))
      × ((array_sort_asc a b ≡ negsuc 0) ↔ (a < b))
      × (array_sort_desc a b ≡ array_sort_asc b a)
      × (system_array_sort_desc a b ≡ system_array_sort_asc b a)
unfolding array_sort_asc array_sort_desc system_array_sort_asc system_array_sort_desc
array_sort_order a b = (ground arith, ground arith, ground arith, ground arith, ground arith)
