-- ===== src/Players/Publisher/Tests.antt =====
-- The theorems on the publisher at concrete pages. A codec's settings are a number here.
use go_live_streaming.Base.{ℕ, ◌≡◌, refl, true, some, none, [], ◌∷◌, arith}
use go_live_streaming.Base.Text.{codes}
use go_live_streaming.Players.Publisher.{Page, empty_page, construct, start, publish}
use go_live_streaming.Players.Publisher.Registry.{
  Reach, here, next, constructs, starts, publishes, Inv, Reach-Inv,
}

abbrev page : Page ℕ
page = start 100 true (construct 0 640 480 (empty_page 0))

page-Reach : Reach (empty_page 0) page
page-Reach = next (next here (constructs 0 640 480)) (starts 100 true)

abbrev published : Page ℕ
published = (publish 100 (some (codes "rtmp://a/live/b")) (some 1) none page).0

published-Reach : Reach (empty_page 0) published
unfolding start construct
published-Reach =
    next page-Reach (publishes 100 (some (codes "rtmp://a/live/b")) (some 1) none (omega arith))

published_once : published.publishers ≡ 100 ∷ []
unfolding publish start construct
published_once = refl

Reach-Inv_example : Inv published
Reach-Inv_example = Reach-Inv 0 published-Reach

page_loaded : (page.object 100).loaded ≡ true
unfolding start construct
page_loaded = refl
