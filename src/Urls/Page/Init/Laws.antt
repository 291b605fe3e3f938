-- ===== src/Urls/Page/Init/Laws.antt =====
-- What a player page shows once it is opened (srs.page.js).
use go_live_streaming.Base.{
  ◌≡◌, refl, sym, ap, ◌∙◌, Bool-cases, inl, inr, Option, none, some, [], ◌∷◌, ◌++◌, arith,
  if◌then◌else◌,
}
use go_live_streaming.Base.Text.{Text, text_eq, text_eq_iff}
use go_live_streaming.Base.Dict.{Dict, lookup, assign, lookup-assign, AreDistinct, or_old}
use go_live_streaming.Urls.Query.{Window, Parsed}
use go_live_streaming.Urls.Page.{build_default_rtc_url}
use go_live_streaming.Urls.Page.Init.{Page, nav_files, set_hrefs, update_nav, srs_init_rtc}

-- A file with the query of the page.
abbrev pub with_search : Text → Option Text → Option Text
with_search query none = none
with_search query (some file) = some (file ++ query)

assigned :
    (query s selector file : Text) (o old : Option Text)
    → (s ≡ selector → o ≡ none)
    → or_old (with_search query o) (if text_eq s selector then some (file ++ query) else old)
      ≡ or_old (with_search query (if text_eq s selector then some file else o)) old
assigned query s selector file none old h = ground arith
assigned query s selector file (some u) old h = elim (Bool-cases (text_eq s selector)) [
  | inl e ↦ absurd (ground (arith, h ((text_eq_iff s selector).0 e)))
  | inr e ↦ rw e refl
]

set_hrefs-lookup :
    (query : Text) (files hrefs : Dict Text) (selector : Text)
    → AreDistinct files
    → lookup selector (set_hrefs query files hrefs)
      ≡ or_old (with_search query (lookup selector files)) (lookup selector hrefs)
unfolding lookup set_hrefs
set_hrefs-lookup query [] hrefs selector h = refl
set_hrefs-lookup query ((s, file) ∷ files) hrefs selector h =
    set_hrefs-lookup query files (assign s (file ++ query) hrefs) selector h.1
    ∙ (ap (or_old (with_search query (lookup selector files)))
          (lookup-assign s selector (file ++ query) hrefs)
        ∙ assigned query s selector file (lookup selector files) (lookup selector hrefs)
            (λ e. ap (λ j. lookup j files) (sym e) ∙ h.0))

nav_files-AreDistinct : AreDistinct nav_files
unfolding nav_files lookup text_eq
nav_files-AreDistinct = (refl, (refl, (refl, (refl, (refl, (refl, (refl, (refl, (refl, tt)))))))))

-- Opening a page of a WebRTC stream gives every link of the navigator the query of the page and leaves
-- the other links, and its field has the URL that the page offers.
pub srs_init_rtc_lem :
    (w : Window) (id : Text) (query : Parsed) (page : Page) (selector : Text)
    → (lookup selector (srs_init_rtc w id query page).hrefs
        ≡ or_old (with_search w.search (lookup selector nav_files)) (lookup selector page.hrefs))
      × (lookup id (srs_init_rtc w id query page).values ≡ some (build_default_rtc_url w query))
unfolding srs_init_rtc update_nav nav_files set_hrefs
srs_init_rtc_lem w id query page selector = (
  set_hrefs-lookup w.search nav_files page.hrefs selector nav_files-AreDistinct,
  lookup-assign id id (build_default_rtc_url w query) page.values
      ∙ rw ((text_eq_iff id id).1 refl) refl,
)
