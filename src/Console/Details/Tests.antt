-- ===== src/Console/Details/Tests.antt =====
-- Histories of the page of a stream.
use go_live_streaming.Base.{◌≡◌, ◌≤◌, refl, none, some, List, [], ◌∷◌, get_elem?}
use go_live_streaming.Base.Text.{codes}
use go_live_streaming.Refresh.{World, init}
use go_live_streaming.Console.Logs.{absent}
use go_live_streaming.Console.Polling as Polling
use go_live_streaming.Console.Polling.{responds, errors}
use go_live_streaming.Console.Streams.{Vhost, Stream}
use go_live_streaming.Console.Details.{
  stream_page, gets_stream, has_stream, has_vhost, Details, enter, Event, answers, step, run,
}
use go_live_streaming.Console.Details.Shown.{HonestRun, IsShown, asked, run-IsShown}
use go_live_streaming.Console.Details.Outcome.{failure_hides}

abbrev home : Vhost
home = record { id = codes "v1"; name = codes "a.b" }

abbrev live : Stream
live = record {
  id = codes "s1";
  vhost = codes "v1";
  app = codes "live";
  name = codes "one";
  cid = codes "7";
  owner = none;
}

abbrev fresh : World Polling.Page
fresh = init

abbrev page : Details
page = enter (stream_page (codes "s1")) 0 fresh []

abbrev both : List Event
both =
    answers 0 (responds 200 0 (has_stream live)) 1
    ∷ answers 0 (responds 200 0 (has_vhost home)) 2
    ∷ []

both_honest : HonestRun page both
unfolding enter step
both_honest = ((live, refl, refl), ((home, refl, refl), tt))

run-IsShown_example :
    IsShown (codes "s1") (run (enter (stream_page (codes "s1")) 0 fresh []) both).stream
    × (asked (run (enter (stream_page (codes "s1")) 0 fresh []) both).waits ≤ 1)
run-IsShown_example = run-IsShown (codes "s1") 0 fresh [] both both_honest

asks_stream : get_elem? page.waits 0 ≡ some (gets_stream (codes "s1"))
unfolding enter
asks_stream = refl

-- The stream is shown with its owner after both answers.
both_show : (run page both).stream ≡ some (record live { owner = some home })
unfolding enter run
both_show = refl

asks_one : 1 ≡ asked page.waits
unfolding enter
asks_one = refl

failure_hides_example :
    (run (step page (answers 0 (errors 502 absent) 1)) both).stream ≡ page.stream
failure_hides_example =
    failure_hides (gets_stream (codes "s1")) 0 (errors 502 absent) 1 page both tt asks_stream
      asks_one
