-- ===== src/Signaling/Tests.antt =====
-- The theorems on signaling at concrete histories. A message is a number here.
use go_live_streaming.Base.{ℕ, ◌≡◌, ◌≢◌, refl, none, List, [], ◌∷◌, arith}
use go_live_streaming.Base.Text.{codes}
use go_live_streaming.Signaling.Table.{lookup, assign, delete}
use go_live_streaming.Signaling.{
  pending, resolved, init, opened, send, on_message, socket_url, on_open, connect, Event, connects,
  opens, closes, sends, receives, step, run, close, answer,
}
use go_live_streaming.Signaling.Promises.{waits}
use go_live_streaming.Signaling.Placed.{IsPlaced, run-IsPlaced}
use go_live_streaming.Signaling.Replies.{send-reply}
use go_live_streaming.Signaling.Collision.{send_twice-pending}

abbrev joined : List (Event ℕ)
joined =
    connects (codes "ws") (codes "a:1989") (codes "live") (codes "bob") ∷ opens ∷ sends 9 1 ∷ []

url_of_bob : (run init joined).url ≡ codes "ws://a:1989/sig/v1/rtc?room=live&display=bob"
unfolding run step socket_url send on_open connect
url_of_bob = refl

joined_open : (run init joined).ws ≡ opened
unfolding run step send on_open
joined_open = refl

send-reply_example :
    let waiting = run (send 7 4 (run init joined)) (sends 8 2 ∷ receives 8 5 ∷ receives 3 6 ∷ []) in
    let s = on_message 7 40 waiting in
    (s.promises (run init joined).next_promise ≡ resolved 40)
    × (lookup 7 s.msgs ≡ none)
    × (s.delivered ≡ waiting.delivered)
send-reply_example =
    send-reply joined (sends 8 2 ∷ receives 8 5 ∷ receives 3 6 ∷ []) 7 4 40 joined_open
      ((λ e. omega arith), ((λ e. omega arith), ((λ e. omega arith), tt)))

abbrev answered : List (Event ℕ)
answered = opens ∷ sends 9 1 ∷ receives 9 2 ∷ sends 9 3 ∷ []

run-IsPlaced_example :
    IsPlaced ((run init answered).promises 1) (waits 1 (run init answered).msgs)
    × ((close (run init answered)).promises 1 ≢ pending)
unfolding run step send on_message on_open lookup assign delete answer
run-IsPlaced_example = run-IsPlaced answered 1 (refl, (refl, tt)) (omega arith)

send_twice-pending_example :
    (run (send 7 2 (send 7 1 (run init joined))) (receives 7 5 ∷ closes ∷ [])).promises
      (run init joined).next_promise
    ≡ pending
send_twice-pending_example =
    send_twice-pending joined (receives 7 5 ∷ closes ∷ []) 7 1 2 joined_open
