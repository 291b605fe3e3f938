-- ===== src/Console/Collapse/Clicks.antt =====
-- Clicks on a heading open and close the body next to it.
use mathlib.Core.Option.{some-injective}
use go_live_streaming.Base.{
  ◌<◌, ℕ, zero, suc, ◌≡◌, refl, ap, ◌∙◌, Bool, true, false, not, Option, none, some, List, [], ◌∷◌,
  arith, if◌then◌else◌, get_elem?,
}
use go_live_streaming.Base.Text.{Text, codes, text_eq}
use go_live_streaming.Console.Collapse.{
  Classes, AreClasses, find_siblings, update, change_at, body, on_click, clicks,
}

-- `not`, as many times as there are clicks.
abbrev pub flipped : ℕ → Bool → Bool
flipped zero b = b
flipped (suc n) b = flipped n (not b)

module _ {E : Type 0} (c : Classes E) (laws : AreClasses c) where
  -- The body is open.
  abbrev pub open_at : Option (List E) → ℕ → Option Bool
  open_at none i = none
  open_at (some es) i = elim (get_elem? es i) [
    | none ↦ none
    | some e ↦ some (c.has_class e (codes "in"))
  ]

  -- A change that keeps the class of the bodies finds the same body again.
  find_siblings-update :
      (f : E → E) (es : List E) (i : ℕ)
      → ((e : E) → c.has_class (f e) body ≡ c.has_class e body)
      → find_siblings c (update f es i) body ≡ find_siblings c es body
  unfolding find_siblings
  find_siblings-update f [] i h = refl
  find_siblings-update f (e ∷ es) zero h = rw (h e) refl
  find_siblings-update f (e ∷ es) (suc i) h = rw (find_siblings-update f es i h) refl

  open_at-toggle :
      (es : List E) (i : ℕ) (b : Bool)
      → open_at (some es) i ≡ some b
      → open_at (some (update (c.toggle_class (codes "in")) es i)) i ≡ some (not b)
  open_at-toggle [] i b h = absurd (ground (arith, h))
  open_at-toggle (e ∷ es) zero b h =
      ap some (laws.toggled e (codes "in") ∙ ap not (some-injective _ b h))
  open_at-toggle (e ∷ es) (suc i) b h = open_at-toggle es i b h

  -- Each click on the heading opens the body or closes it, and it is the same body each time.
  pub clicks-open_at :
      (n : ℕ) (es : List E) (i : ℕ) (b : Bool)
      → find_siblings c es body ≡ some i
      → open_at (some es) i ≡ some b
      → open_at (clicks c n (some es)) i ≡ some (flipped n b)
  unfolding clicks on_click text_eq
  clicks-open_at zero es i b h o = o
  clicks-open_at (suc n) es i b h o =
      let next = update (c.toggle_class (codes "in")) es i in
      let same =
        find_siblings-update (c.toggle_class (codes "in")) es i
          (λ e. laws.toggle_other e (codes "in") body refl)
        ∙ h in
      ap (λ k. open_at (clicks c n (change_at (c.toggle_class (codes "in")) es k)) i) h
      ∙ clicks-open_at n next i (not b) same (open_at-toggle es i b o)

  -- The class at a place, or the default outside.
  abbrev pub class_at : Bool → List E → ℕ → Text → Bool
  class_at outside es i name = elim (get_elem? es i) [
    | none ↦ outside
    | some e ↦ c.has_class e name
  ]

  found_here :
      (b : Bool) (o : Option ℕ)
      → (if b then some 0 else elim o [ none ↦ none | some i ↦ some (suc i) ]) ≡ some 0
      → b ≡ true
  found_here true o h = refl
  found_here false none h = ground (arith, h)
  found_here false (some i) h = ground (arith, h)

  found_there :
      (b : Bool) (o : Option ℕ) (i : ℕ)
      → (if b then some 0 else elim o [ none ↦ none | some i ↦ some (suc i) ]) ≡ some (suc i)
      → (b ≡ false) × (o ≡ some i)
  found_there true o i h = absurd (ground (arith, h))
  found_there false none i h = absurd (ground (arith, h))
  found_there false (some j) i h = (refl, ground (arith, h))

  -- The first sibling with the class is found, the element itself included.
  pub find_siblings-first :
      (es : List E) (name : Text) (i j : ℕ)
      → find_siblings c es name ≡ some i
      → (class_at false es i name ≡ true) × (j < i → class_at true es j name ≡ false)
  unfolding find_siblings
  find_siblings-first [] name i j h = absurd (ground (arith, h))
  find_siblings-first (e ∷ es) name zero j h =
      (found_here (c.has_class e name) (find_siblings c es name) h, λ l. absurd (omega arith))
  find_siblings-first (e ∷ es) name (suc i) zero h =
      let here = found_there (c.has_class e name) (find_siblings c es name) i h in
      ((find_siblings-first es name i zero here.1).0, λ l. here.0)
  find_siblings-first (e ∷ es) name (suc i) (suc j) h =
      let here = found_there (c.has_class e name) (find_siblings c es name) i h in
      let rest = find_siblings-first es name i j here.1 in (rest.0, λ l. rest.1 (omega arith))
