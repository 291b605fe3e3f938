-- ===== src/Console/Collapse/Tests.antt =====
-- The collapse of a heading, where the classes of a node are a list.
use go_live_streaming.Base.{◌≡◌, refl, Bool, false, ◌||◌, none, some, List, [], ◌∷◌, if◌then◌else◌}
use go_live_streaming.Base.Text.{Text, codes, text_eq}
use go_live_streaming.Console.Collapse.{Classes, link, clicks, body}

abbrev has : List Text → Text → Bool
has [] name = false
has (c ∷ cs) name = text_eq c name || has cs name

abbrev removed : Text → List Text → List Text
removed name [] = []
removed name (c ∷ cs) = if text_eq c name then removed name cs else c ∷ removed name cs

abbrev class_lists : Classes (List Text)
class_lists = record {
  has_class = has;
  add_class = λ name cs. if has cs name then cs else name ∷ cs;
  toggle_class = λ name cs. if has cs name then removed name cs else name ∷ cs;
}

abbrev group : List (List Text)
group = (codes "accordion-heading" ∷ []) ∷ [] ∷ (body ∷ codes "collapse" ∷ []) ∷ []

link_test :
    link class_lists (codes "in") group
    ≡ some
        ((codes "accordion-heading" ∷ []) ∷ [] ∷ (codes "in" ∷ body ∷ codes "collapse" ∷ []) ∷ [])
unfolding link text_eq
link_test = refl

clicks_test : clicks class_lists 2 (some group) ≡ some group
unfolding clicks text_eq
clicks_test = refl

no_body : link class_lists (codes "in") ((codes "accordion-heading" ∷ []) ∷ []) ≡ none
unfolding link text_eq
no_body = refl
