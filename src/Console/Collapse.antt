-- ===== src/Console/Collapse.antt =====
-- The directive scCollapse of srs.console.js and find_siblings of $sc_utility. Nodes of the page have
-- the classes that Angular's jqLite reads and writes, which is a parameter; the siblings of a node are
-- the list of the nodes from it on.
pub mod Clicks
mod Tests
use go_live_streaming.Base.{
  ℕ, zero, suc, ◌≡◌, Bool, true, false, not, Option, none, some, List, [], ◌∷◌, if◌then◌else◌,
}
use go_live_streaming.Base.Text.{Text, codes, text_eq}

-- jqLite's `hasClass`, `addClass` and `toggleClass`
pub record Classes (E : Type 0) : Type 0 where
  pub has_class : E → Text → Bool
  pub add_class : Text → E → E
  pub toggle_class : Text → E → E

-- What they are documented to do.
pub record AreClasses {E : Type 0} (c : Classes E) : Type 0 where
  pub added : (e : E) (name : Text) → c.has_class (c.add_class name e) name ≡ true
  pub add_other :
      (e : E) (name other : Text)
      → text_eq name other ≡ false
      → c.has_class (c.add_class name e) other ≡ c.has_class e other
  pub toggled :
      (e : E) (name : Text) → c.has_class (c.toggle_class name e) name ≡ not (c.has_class e name)
  pub toggle_other :
      (e : E) (name other : Text)
      → text_eq name other ≡ false
      → c.has_class (c.toggle_class name e) other ≡ c.has_class e other

abbrev pub body : Text
body = codes "accordion-body"

module _ {E : Type 0} where
  abbrev pub update : (E → E) → List E → ℕ → List E
  update f [] i = []
  update f (e ∷ es) zero = f e ∷ es
  update f (e ∷ es) (suc i) = e ∷ update f es i

  -- A change of the body; `none` is the TypeError when there is none.
  abbrev pub change_at : (E → E) → List E → Option ℕ → Option (List E)
  change_at f es none = none
  change_at f es (some i) = some (update f es i)

module _ {E : Type 0} (c : Classes E) where
  -- The place of the sibling with the class, from the element on; `none` is null.
  unfoldable pub find_siblings : List E → Text → Option ℕ
  find_siblings [] name = none
  find_siblings (e ∷ es) name =
      if c.has_class e name
      then some 0
      else elim (find_siblings es name) [ none ↦ none | some i ↦ some (suc i) ]

  -- The link function, for the attribute sc-collapse.
  unfoldable pub link : Text → List E → Option (List E)
  unfolding find_siblings text_eq
  link attr es =
      if text_eq attr (codes "in")
      then change_at (c.add_class (codes "in")) es (find_siblings es body)
      else some es

  -- A click on the heading.
  unfoldable pub on_click : List E → Option (List E)
  unfolding find_siblings
  on_click es = change_at (c.toggle_class (codes "in")) es (find_siblings es body)

  unfoldable pub clicks : ℕ → Option (List E) → Option (List E)
  unfolding on_click
  clicks n none = none
  clicks zero (some es) = some es
  clicks (suc n) (some es) = clicks n (on_click es)
