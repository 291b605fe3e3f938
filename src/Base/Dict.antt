-- ===== src/Base/Dict.antt =====
-- Objects of JavaScript that are used as dictionaries: the keys in the order of insertion. (The
-- language puts keys that are array indices first; none of the code below depends on that order.)
use mathlib.Core.Path.{◌≡◌, refl}
use mathlib.Core.Logic.{inl, inr}
use mathlib.Core.Option.{Option, none, some}
use mathlib.Core.List.{List, [], ◌∷◌}
use native.Mathlib.Omega.{arith}
use go_live_streaming.Base.Tests.{if◌then◌else◌, Bool-cases}
use go_live_streaming.Base.Text.{Text, text_eq, text_eq_iff}

abbrev pub Dict {ℓ} : Type ℓ → Type ℓ
Dict V = List (Text × V)

module _ {ℓ} {V : Type ℓ} where
  -- `obj[key]`
  unfoldable pub lookup : Text → Dict V → Option V
  lookup k [] = none
  lookup k ((j, v) ∷ d) = if text_eq j k then some v else lookup k d

  -- `obj[key] = v`
  unfoldable pub assign : Text → V → Dict V → Dict V
  assign k v [] = (k, v) ∷ []
  assign k v ((j, w) ∷ d) = if text_eq j k then (j, v) ∷ d else (j, w) ∷ assign k v d

  pub lookup-assign :
      (k j : Text) (v : V) (d : Dict V)
      → lookup j (assign k v d) ≡ (if text_eq k j then some v else lookup j d)
  unfolding lookup assign
  lookup-assign k j v [] = refl
  lookup-assign k j v ((i, w) ∷ d) =
      ground (arith, text_eq_iff k j, text_eq_iff i k, text_eq_iff i j, lookup-assign k j v d)

module _ {V : Type 0} where
  -- No key stands twice.
  abbrev pub AreDistinct : Dict V → Type 0
  AreDistinct [] = Unit
  AreDistinct ((k, v) ∷ d) = (lookup k d ≡ none) × AreDistinct d

  abbrev pub or_old : Option V → Option V → Option V
  or_old none old = old
  or_old (some v) old = some v

  -- A key that was assigned first, and is not assigned again.
  pub assign_later :
      (k key : Text) (v : V) (o old : Option V)
      → (k ≡ key → o ≡ none)
      → or_old o (if text_eq k key then some v else old)
        ≡ or_old (if text_eq k key then some v else o) old
  assign_later k key v none old h = ground arith
  assign_later k key v (some u) old h = elim (Bool-cases (text_eq k key)) [
    | inl e ↦ absurd (ground (arith, h ((text_eq_iff k key).0 e)))
    | inr e ↦ rw e refl
  ]
