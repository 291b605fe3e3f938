-- ===== src/Players/Player/Tests.antt =====
-- The theorems on the player at concrete objects.
use go_live_streaming.Base.{◌≤◌, ◌≡◌, refl, true, [], ◌∷◌, arith}
use go_live_streaming.Base.Int.{neg_part, pos_part}
use go_live_streaming.Players.Fluency.{fresh, calc}
use go_live_streaming.Players.Fluency.Laws.{empty, full, reports, IsPercentage, fluency_bounds}
use go_live_streaming.Players.Player.{Player, Page, create, construct, empty_page, embedded}
use go_live_streaming.Players.Player.Buffers.{IsBuffered}

abbrev loaded_player : Player
loaded_player = record (create 100 640 480) { loaded = true }

loaded_player-IsBuffered : IsBuffered loaded_player
loaded_player-IsBuffered = record { buffer_le = omega arith; least = omega arith }

abbrev page : Page
page = embedded 100 true (construct 640 480 empty_page)

fluency_bounds_example :
    (neg_part (reports fresh (empty 1000 ∷ full 1500 ∷ [])).total_empty_time ≡ 0)
    × (pos_part (reports fresh (empty 1000 ∷ full 1500 ∷ [])).total_empty_time ≤ 9000)
    × IsPercentage (calc 9000 (reports fresh (empty 1000 ∷ full 1500 ∷ [])))
fluency_bounds_example = fluency_bounds (empty 1000 ∷ full 1500 ∷ []) 9000 (omega arith)

page_loaded : (page.object 100).loaded ≡ true
unfolding embedded construct
page_loaded = refl
