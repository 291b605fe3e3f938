-- ===== src/Console/Objects/Equals.antt =====
-- `array_actual_equals` is equality of the sets of elements.
use go_live_streaming.Base.{
  ◌≡◌, refl, sym, ◌↔◌, ◌⊎◌, inl, inr, Bool, true, List, [], ◌∷◌, arith, Bool-cases,
}
use go_live_streaming.Utility.Arrays.{value, system_array_get, system_array_contains}
use go_live_streaming.Console.Objects.{all_in, array_actual_equals}

module _ {A : Type 0} where
  abbrev pub IsIn : A → List A → Type 0
  IsIn x [] = ⊥
  IsIn x (y ∷ ys) = (y ≡ x) ⊎ IsIn x ys

module _ {A : Type 0} (eq : A → A → Bool) (eq_iff : (x y : A) → (eq x y ≡ true) ↔ (x ≡ y)) where
  contains→IsIn : (x : A) (ys : List A) → system_array_contains eq ys (value x) ≡ true → IsIn x ys
  unfolding system_array_contains system_array_get
  contains→IsIn x [] h = absurd (ground arith)
  contains→IsIn x (y ∷ ys) h = elim (Bool-cases (eq x y)) [
    | inl same ↦ inl (sym ((eq_iff x y).0 same))
    | inr other ↦ inr (contains→IsIn x ys (ground (arith, other, h)))
  ]

  IsIn→contains : (x : A) (ys : List A) → IsIn x ys → system_array_contains eq ys (value x) ≡ true
  unfolding system_array_contains system_array_get
  IsIn→contains x [] m = absurd m
  IsIn→contains x (y ∷ ys) (inl e) = let same = (eq_iff x y).1 (sym e) in ground (arith, same)
  IsIn→contains x (y ∷ ys) (inr m) = let rest = IsIn→contains x ys m in ground (arith, rest)

  all_in→IsIn : (a b : List A) → all_in eq b a ≡ true → (x : A) → IsIn x a → IsIn x b
  unfolding all_in
  all_in→IsIn [] b h x m = absurd m
  all_in→IsIn (y ∷ a) b h x (inl e) =
      let first : system_array_contains eq b (value y) ≡ true = ground (arith, h) in
      rw (← e) (contains→IsIn y b first)
  all_in→IsIn (y ∷ a) b h x (inr m) = all_in→IsIn a b (ground (arith, h)) x m

  IsIn→all_in : (a b : List A) → ((x : A) → IsIn x a → IsIn x b) → all_in eq b a ≡ true
  unfolding all_in
  IsIn→all_in [] b k = refl
  IsIn→all_in (y ∷ a) b k =
      let first = IsIn→contains y b (k y (inl refl)) in
      let rest = IsIn→all_in a b (λ x m. k x (inr m)) in ground (arith, first, rest)

  -- For an operator that holds of equal elements only: two arrays are equal exactly if an element is
  -- in the one if and only if it is in the other, whatever their order and lengths.
  pub array_actual_equals_iff :
      (a b : List A) → (array_actual_equals eq a b ≡ true) ↔ ((x : A) → IsIn x a ↔ IsIn x b)
  unfolding array_actual_equals
  array_actual_equals_iff a b = (
    λ h x. (all_in→IsIn a b (ground (arith, h)) x, all_in→IsIn b a (ground (arith, h)) x),
    λ k.
        let one = IsIn→all_in a b (λ x. (k x).0) in
        let two = IsIn→all_in b a (λ x. (k x).1) in ground (arith, one, two),
  )
