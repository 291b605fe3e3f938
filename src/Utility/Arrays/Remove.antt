-- ===== src/Utility/Arrays/Remove.antt =====
-- `system_array_remove` against filtering.
use mathlib.Core.List.{append_assoc}
use go_live_streaming.Base.{
  ℕ, zero, suc, ◌≤◌, ◌<◌, ◌≡◌, refl, ap, inl, inr, Bool, true, false, not, Option, some, List, [],
  ◌∷◌, ◌++◌, arith, length, get_elem?, remove_at, keep_if, length-append, Bool-cases,
}
use go_live_streaming.Utility.Arrays.{scan, remove_from, system_array_remove}

module _ {A : Type 0} where
  get_elem?-append : (pre suf : List A) → get_elem? (pre ++ suf) (length pre) ≡ get_elem? suf 0
  get_elem?-append [] suf = refl
  get_elem?-append (x ∷ pre) suf = get_elem?-append pre suf

  remove_at-append :
      (pre suf : List A) (x : A) → remove_at (length pre) (pre ++ x ∷ suf) ≡ pre ++ suf
  remove_at-append [] suf x = refl
  remove_at-append (y ∷ pre) suf x = ap (λ zs. y ∷ zs) (remove_at-append pre suf x)

module _ {A : Type 0} (eq : A → A → Bool) (elem : A) where
  abbrev kept : List A → List A
  kept = keep_if (λ x. not (eq elem x))

  -- What the outer loop does with the outcome of a scan.
  abbrev after : ℕ → List A → ℕ × Bool → Option (List A)
  after fuel arr r = elim (r.1) [
    | true ↦ remove_from eq fuel (remove_at r.0 arr) elem r.0
    | false ↦ some arr
  ]

  scan_end :
      (fuel : ℕ) (pre : List A)
      → scan eq (suc fuel) (pre ++ []) elem (length pre) ≡ (length pre, false)
  unfolding scan
  scan_end fuel pre = rw (get_elem?-append pre [], scan)

  scan_hit :
      (fuel : ℕ) (pre suf : List A) (x : A)
      → eq elem x ≡ true
      → scan eq (suc fuel) (pre ++ x ∷ suf) elem (length pre) ≡ (length pre, true)
  unfolding scan
  scan_hit fuel pre suf x hit = rw (get_elem?-append pre (x ∷ suf), scan, hit)

  scan_miss :
      (fuel : ℕ) (pre suf : List A) (x : A)
      → eq elem x ≡ false
      → scan eq (suc fuel) (pre ++ x ∷ suf) elem (length pre)
        ≡ scan eq fuel ((pre ++ x ∷ []) ++ suf) elem (length (pre ++ x ∷ []))
  unfolding scan
  scan_miss fuel pre suf x miss =
      rw (get_elem?-append pre (x ∷ suf), scan, miss, append_assoc pre (x ∷ []) suf)
        (ap (scan eq fuel (pre ++ x ∷ suf) elem) (omega (arith, length-append pre (x ∷ []))))

  scan-after :
      (inner outer : ℕ) (pre suf : List A)
      → length suf < inner
      → length suf ≤ outer
      → after outer (pre ++ suf) (scan eq inner (pre ++ suf) elem (length pre))
        ≡ some (pre ++ kept suf)
  unfolding remove_from
  scan-after zero outer pre suf h k = absurd (omega arith)
  scan-after (suc inner) outer pre [] h k = rw (scan_end inner pre)
  scan-after (suc inner) zero pre (x ∷ suf) h k = absurd (omega arith)
  scan-after (suc inner) (suc outer) pre (x ∷ suf) h k = elim (Bool-cases (eq elem x)) [
    | inl hit ↦
        rw (scan_hit inner pre suf x hit, remove_at-append pre suf x, hit)
          (scan-after (suc (length (pre ++ suf))) outer pre suf
            (omega (arith, length-append pre suf)) (omega arith))
    | inr miss ↦
        rw (scan_miss inner pre suf x miss, miss)
          (rw (← append_assoc pre (x ∷ []) suf, ← append_assoc pre (x ∷ []) (kept suf))
            (scan-after inner (suc outer) (pre ++ x ∷ []) suf (omega arith) (omega arith)))
  ]

  -- The loops end, and what is left is the elements that the element sought is not equal to, in
  -- their order.
  pub system_array_remove-keep_if :
      (arr : List A) → system_array_remove eq arr elem ≡ some (keep_if (λ x. not (eq elem x)) arr)
  unfolding system_array_remove
  system_array_remove-keep_if arr =
      scan-after (suc (length arr)) (length arr) [] arr (omega arith) (omega arith)
