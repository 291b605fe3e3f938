-- ===== src/Signaling/Replies.antt =====
-- Which reply a request gets.
use go_live_streaming.Base.{ℕ, ◌<◌, ◌≡◌, ◌≢◌, none, some, List, [], ◌∷◌, arith}
use go_live_streaming.Signaling.Table.{lookup, lookup-assign, lookup-delete, Every-lookup}
use go_live_streaming.Signaling.{
  pending, resolved, opened, Signaling, init, connect, on_open, on_error, send, on_message, Event,
  connects, opens, errors, closes, sends, receives, step, run,
}
use go_live_streaming.Signaling.Promises.{Made, run-Made}

-- Events that do not touch what waits under a tid: no `close`, and no other request or reply for it.
abbrev pub Leaves : {M : Type 0} → ℕ → Event M → Type 0
Leaves tid closes = ⊥
Leaves tid (sends t m) = t ≢ tid
Leaves tid (receives t m) = t ≢ tid
Leaves tid _ = Unit

abbrev pub AllLeave : {M : Type 0} → ℕ → List (Event M) → Type 0
AllLeave tid [] = Unit
AllLeave tid (e ∷ es) = Leaves tid e × AllLeave tid es

-- The promise p is pending, and waits under the tid and no other.
record Waits {M : Type 0} (tid p : ℕ) (s : Signaling M) : Type 0 where
  made : p < s.next_promise
  open_still : s.promises p ≡ pending
  here : lookup tid s.msgs ≡ some p
  alone : (t : ℕ) → lookup t s.msgs ≡ some p → t ≡ tid

module _ {M : Type 0} where
  -- A request on an open socket waits for its reply.
  send-Waits :
      (tid : ℕ) (m : M) (s : Signaling M)
      → s.ws ≡ opened
      → Made s
      → Waits tid s.next_promise (send tid m s)
  unfolding send
  send-Waits tid m s on k = record {
    made = ground arith;
    open_still = ground arith;
    here = ground (arith, lookup-assign tid tid s.next_promise s.msgs);
    alone = λ t e. ground (
      arith,
      lookup-assign t tid s.next_promise s.msgs,
      Every-lookup (λ t' p. p < s.next_promise) t s.next_promise s.msgs,
    );
  }

  send-other :
      (tid p t : ℕ) (m : M) (s : Signaling M) → t ≢ tid → Waits tid p s → Waits tid p (send t m s)
  unfolding send
  send-other tid p t m s l w = record {
    made = ground arith;
    open_still = ground arith;
    here = ground (arith, lookup-assign tid t s.next_promise s.msgs);
    alone = λ u e. ground (arith, lookup-assign u t s.next_promise s.msgs, w.alone u);
  }

  on_message-other :
      (tid p t : ℕ) (m : M) (s : Signaling M)
      → t ≢ tid
      → Waits tid p s
      → Waits tid p (on_message t m s)
  unfolding on_message
  on_message-other tid p t m s l w = record {
    made = ground arith;
    open_still = ground (arith, w.alone t);
    here = ground (arith, lookup-delete tid t s.msgs);
    alone = λ u e. ground (arith, lookup-delete u t s.msgs, w.alone u);
  }

  step-Waits :
      (tid p : ℕ) (s : Signaling M) (e : Event M)
      → Leaves tid e
      → Waits tid p s
      → Waits tid p (step s e)
  unfolding step connect on_open on_error
  step-Waits tid p s (connects schema host room display) l w = record {
    made = w.made;
    open_still = w.open_still;
    here = w.here;
    alone = w.alone;
  }
  step-Waits tid p s opens l w = record {
    made = w.made;
    open_still = w.open_still;
    here = w.here;
    alone = w.alone;
  }
  step-Waits tid p s errors l w = record {
    made = w.made;
    open_still = w.open_still;
    here = w.here;
    alone = w.alone;
  }
  step-Waits tid p s closes l w = absurd l
  step-Waits tid p s (sends t m) l w = send-other tid p t m s l w
  step-Waits tid p s (receives t m) l w = on_message-other tid p t m s l w

  run-Waits :
      (tid p : ℕ) (s : Signaling M) (es : List (Event M))
      → AllLeave tid es
      → Waits tid p s
      → Waits tid p (run s es)
  unfolding run
  run-Waits tid p s [] l w = w
  run-Waits tid p s (e ∷ es) l w = run-Waits tid p (step s e) es l.1 (step-Waits tid p s e l.0 w)

  -- After every history with an open socket: a request for a tid gets the first message that comes
  -- for that tid, whatever other requests and messages come before it; the message is not handed to
  -- `onmessage`, and the tid is free again.
  pub send-reply :
      (before between : List (Event M)) (tid : ℕ) (m reply : M)
      → (run init before).ws ≡ opened
      → AllLeave tid between
      → let waiting = run (send tid m (run init before)) between in
        let s = on_message tid reply waiting in
        (s.promises (run init before).next_promise ≡ resolved reply)
        × (lookup tid s.msgs ≡ none)
        × (s.delivered ≡ waiting.delivered)
  unfolding on_message
  send-reply before between tid m reply on l =
      let start = run init before in
      let w =
        run-Waits tid start.next_promise (send tid m start) between l
          (send-Waits tid m start on (run-Made init before tt)) in
      let waiting = run (send tid m start) between in
      (
        ground (arith, w.here, w.open_still),
        ground (arith, w.here, lookup-delete tid tid waiting.msgs),
        ground (arith, w.here),
      )
