-- ===== src/Console/Polling/Tests.antt =====
-- Histories of a page of the console.
use go_live_streaming.Base.{
  ℕ, remove_at, false, get_elem?, ◌≡◌, ◌≢◌, refl, ◌⊎◌, true, none, some, List, [], ◌∷◌, arith,
}
use go_live_streaming.Base.Text.{codes}
use go_live_streaming.Refresh.{this_call, refresh_change, request, fire}
use go_live_streaming.Console.Logs.{absent}
use go_live_streaming.Console.Polling.{
  vhosts, clients, polls, streams, asks_vhosts, Console, responds, errors, opened, Event, enters,
  fires, answers, kicks_client, answers_aside, step, run, enter,
}
use go_live_streaming.Console.Polling.Alive.{Pending, run-polling}
use go_live_streaming.Console.Polling.Switching.{AllQuiet, late_vhosts}
use go_live_streaming.Console.Polling.Failures.{failure_stops}

abbrev fine_events : List (Event ℕ)
fine_events =
    enters vhosts 0
    ∷ fires 1
    ∷ kicks_client (codes "7")
    ∷ answers 0 (responds 200 0 7) 5
    ∷ answers_aside 0 (errors 500 absent) 6
    ∷ fires 2
    ∷ []

fine_enabled : (this_call (run opened fine_events).refresher).enabled ≡ true
unfolding run fire refresh_change request
fine_enabled = refl

run-polling_example :
    Pending (run opened fine_events).refresher ⊎ ((run opened fine_events).in_flight ≢ [])
run-polling_example = run-polling fine_events (tt, (tt, (tt, (refl, (tt, (tt, tt)))))) fine_enabled

-- The page waits for its first answer.
abbrev first_round : List (Event ℕ)
first_round = enters clients 0 ∷ fires 1 ∷ []

abbrev waiting : Console ℕ
unfolding run
waiting = run opened first_round

waiting_one : waiting.in_flight ≡ polls clients ∷ []
unfolding waiting fire refresh_change request
waiting_one = refl

waiting_no_timer : (id : ℕ) → waiting.refresher.timers id ≡ none
unfolding waiting fire refresh_change request
waiting_no_timer id = ground arith

failure_stops_example :
    ((run (step waiting (answers 0 (errors 502 absent) 9)) (fires 1 ∷ fires 2 ∷ [])).in_flight ≡ [])
    × ((run (step waiting (answers 0 (errors 502 absent) 9)) (fires 1 ∷ fires 2 ∷ [])).shown
        ≡ waiting.shown)
failure_stops_example =
    failure_stops (polls clients) (errors 502 absent) 9 waiting (fires 1 ∷ fires 2 ∷ []) tt
      waiting_one waiting_no_timer tt

-- CSCStreams waits for the vhosts.
abbrev streams_entered : Console ℕ
unfolding run
streams_entered = run opened (enters streams 0 ∷ [])

asks_first : get_elem? streams_entered.in_flight 0 ≡ some asks_vhosts
unfolding streams_entered enter
asks_first = refl

clients_streams : clients ≢ streams
clients_streams = ground arith

-- The page of the clients polls once before the vhosts come.
abbrev meanwhile : List (Event ℕ)
meanwhile = fires 1 ∷ answers 0 (responds 200 0 9) 2 ∷ []

meanwhile-AllQuiet : AllQuiet (enter clients 1 streams_entered) meanwhile
unfolding streams_entered enter step fire refresh_change request
meanwhile-AllQuiet = (tt, (ground arith, tt))

still_asks :
    get_elem? (run (enter clients 1 streams_entered) meanwhile).in_flight 0 ≡ some asks_vhosts
unfolding streams_entered enter run fire refresh_change request
still_asks = refl

streams_unguarded : streams_entered.refresher.guarded ≡ false
unfolding streams_entered
streams_unguarded = refl

late_vhosts_example :
    let t = run (enter clients 1 streams_entered) meanwhile in
    let u = step t (answers 0 (responds 200 0 7) 2) in
    ((this_call t.refresher).pfn ≡ some clients)
    × ((this_call u.refresher).pfn ≡ some streams)
    × ((step u (fires t.refresher.next_timer)).in_flight ≡ polls streams ∷ remove_at 0 t.in_flight)
late_vhosts_example =
    late_vhosts clients 1 meanwhile 0 200 7 2 streams_entered clients_streams streams_unguarded
      meanwhile-AllQuiet still_asks
