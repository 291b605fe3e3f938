-- ===== src/Refresh/Tests.antt =====
-- The theorems on the refreshers at concrete histories.
use go_live_streaming.Base.{ℕ, ◌≡◌, refl, true, some, none, List, [], ◌∷◌, arith}
use go_live_streaming.Refresh.{
  init, stop, request, initialize, fire, Event, changes, requests, fires, step, run,
}
use go_live_streaming.Refresh.Invariant.{Inv, run-init-Inv}
use go_live_streaming.Refresh.Behaviour.{Fires, run-fire-current, stop-silent}
use go_live_streaming.Refresh.Rounds.{AllOther, change-request-fire}

-- A page asks for callback 7, the next page for callback 8; the first timer fires late.
abbrev two_pages : List (Event ℕ)
two_pages =
    changes (some 7) (some 3000)
    ∷ requests (some 0)
    ∷ changes (some 8) (some 3000)
    ∷ requests none
    ∷ []

late_timer : (run {P = ℕ} init (fires 1 true ∷ [])).ran ≡ []
unfolding run step fire
late_timer = refl

second_page : (fire 2 true (fire 1 true (run init two_pages))).ran ≡ 8 ∷ []
unfolding run step fire request initialize
second_page = refl

run-init-Inv_example : Inv (run init two_pages)
run-init-Inv_example = run-init-Inv two_pages

run-fire-current_example : Fires (run init two_pages) true (fire 1 true (run init two_pages))
run-fire-current_example = run-fire-current two_pages 1 true

abbrev late_fires : List (Event ℕ)
late_fires = fires 1 true ∷ fires 2 true ∷ []

late_AllOther : AllOther (run init two_pages).next_timer late_fires
unfolding run step request initialize
late_AllOther = (ground arith, (ground arith, tt))

change-request-fire_example :
    let w = run init two_pages in
    let w1 = run (request (some 0) (initialize (some 5) (some 3000) w)) late_fires in
    let w2 = fire w.next_timer true w1 in
    (w1.timers w.next_timer ≡ some (record { call = w1.current; delay = 0 }))
    × (w1.ran ≡ w.ran)
    × (w2.ran ≡ 5 ∷ w.ran)
    × ((request none w2).timers w2.next_timer ≡ some (record { call = w1.current; delay = 3000 }))
change-request-fire_example =
    change-request-fire two_pages late_fires 5 3000 true late_AllOther (λ _. refl)

stop-silent_example :
    (run (stop (run init two_pages)) (fires 2 true ∷ requests none ∷ fires 3 true ∷ [])).ran
    ≡ (run init two_pages).ran
stop-silent_example =
    stop-silent two_pages (fires 2 true ∷ requests none ∷ fires 3 true ∷ []) (tt, (tt, (tt, tt)))
