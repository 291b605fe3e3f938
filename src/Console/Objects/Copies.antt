-- ===== src/Console/Objects/Copies.antt =====
-- `copy_object` of $sc_utility in srs.console.js, for objects whose keys are their own.
use go_live_streaming.Base.{◌≡◌, refl, sym, ap, ◌∙◌, [], ◌∷◌}
use go_live_streaming.Base.Text.{Text}
use go_live_streaming.Base.Dict.{
  Dict, lookup, assign, lookup-assign, AreDistinct, or_old, assign_later,
}

module _ {V : Type 0} where
  -- `for (var k in src) dst[k] = src[k]`
  unfoldable pub copy_object : Dict V → Dict V → Dict V
  unfolding assign
  copy_object dst [] = dst
  copy_object dst ((k, v) ∷ src) = copy_object (assign k v dst) src

  -- After the copy a key has the value of the source, and what it had where the source has none.
  pub lookup-copy_object :
      (src dst : Dict V) (key : Text)
      → AreDistinct src
      → lookup key (copy_object dst src) ≡ or_old (lookup key src) (lookup key dst)
  unfolding copy_object lookup
  lookup-copy_object [] dst key h = refl
  lookup-copy_object ((k, v) ∷ src) dst key h =
      lookup-copy_object src (assign k v dst) key h.1
      ∙ (ap (or_old (lookup key src)) (lookup-assign k key v dst)
          ∙ assign_later k key v (lookup key src) (lookup key dst)
              (λ e. ap (λ j. lookup j src) (sym e) ∙ h.0))
