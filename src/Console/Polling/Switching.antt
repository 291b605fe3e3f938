-- ===== src/Console/Polling/Switching.antt =====
-- CSCStreams asks for the vhosts before it sets its callback, and another page may be entered meanwhile.
use go_live_streaming.Base.{
  ℕ, ◌≡◌, ◌≢◌, refl, ap, ◌∙◌, inl, inr, true, false, Option, none, some, List, [], ◌∷◌, arith, ◌==◌,
  Bool-cases, get_elem?, remove_at,
}
use go_live_streaming.Refresh.{
  World, this_call, refresh_change, request, clear_timeout, schedule, set_timer, fire,
}
use go_live_streaming.Refresh.Behaviour.{fire-this_call}
use go_live_streaming.Console.Logs.{object}
use go_live_streaming.Console.Polling.{
  Page, summary, vhosts, streams, clients, Request, polls, asks_vhosts, Console, Answer, responds,
  errors, log, start, enter, fire_timer, on_success, http_error, on_answer, answered,
  kickoff_client, kickoff_stream, aside_answered, Event, enters, leaves, fires, answers,
  kicks_client, kicks_stream, answers_aside, step, run,
}
use go_live_streaming.Console.Polling.Asides.{aside_answered-Same}

request-pfn : (o : Option ℕ) (w : World Page) → (this_call (request o w)).pfn ≡ (this_call w).pfn
unfolding request clear_timeout schedule set_timer
request-pfn o w = ground arith

request-guarded : (o : Option ℕ) (w : World Page) → (request o w).guarded ≡ w.guarded
unfolding request clear_timeout schedule set_timer
request-guarded o w = ground arith

fire-guarded : (id : ℕ) (w : World Page) → (fire id true w).guarded ≡ w.guarded
unfolding fire
fire-guarded id w = ground arith

module _ {D : Type 0} where
  start-pfn :
      (page : Page) (now : ℕ) (s : Console D)
      → (this_call (start page now s).refresher).pfn ≡ some page
  unfolding start log refresh_change request clear_timeout schedule set_timer
  start-pfn page now s = ground arith

  vhosts_answered :
      (o : Option Request) (i status : ℕ) (result : D) (now : ℕ) (s : Console D)
      → o ≡ some asks_vhosts
      → (this_call (answered o i (responds status 0 result) now s).refresher).pfn ≡ some streams
  unfolding answered on_answer on_success
  vhosts_answered none i status result now s e = absurd (ground arith)
  vhosts_answered (some (polls p)) i status result now s e = absurd (ground arith)
  vhosts_answered (some asks_vhosts) i status result now s e =
      start-pfn streams now (record s { in_flight = remove_at i s.in_flight })

  -- No page is entered or left, and no answer to the request for the vhosts comes.
  abbrev pub IsQuiet : Console D → Event D → Type 0
  IsQuiet s (enters page now) = ⊥
  IsQuiet s leaves = ⊥
  IsQuiet s (answers i a now) = get_elem? s.in_flight i ≢ some asks_vhosts
  IsQuiet s _ = Unit

  abbrev pub AllQuiet : Console D → List (Event D) → Type 0
  AllQuiet s [] = Unit
  AllQuiet s (e ∷ es) = IsQuiet s e × AllQuiet (step s e) es

  -- The refresher polls for the page, and no hook keeps it from that.
  record PollsFor (page : Page) (s : Console D) : Type 0 where
    callback : (this_call s.refresher).pfn ≡ some page
    unguarded : s.refresher.guarded ≡ false

  PollsFor-same :
      (page : Page) (s t : Console D)
      → t.refresher ≡ s.refresher
      → PollsFor page s
      → PollsFor page t
  PollsFor-same page s t e v = record {
    callback = ap (λ w. (this_call w).pfn) e ∙ v.callback;
    unguarded = ap (λ w. w.guarded) e ∙ v.unguarded;
  }

  start-PollsFor :
      (page : Page) (now : ℕ) (s : Console D)
      → s.refresher.guarded ≡ false
      → PollsFor page (start page now s)
  unfolding start log refresh_change request clear_timeout schedule set_timer
  start-PollsFor page now s g = record { callback = ground arith; unguarded = ground (arith, g) }

  enter-PollsFor :
      (page : Page) (now : ℕ) (s : Console D)
      → page ≢ streams
      → s.refresher.guarded ≡ false
      → PollsFor page (enter page now s)
  unfolding enter
  enter-PollsFor summary now s h g = start-PollsFor summary now s g
  enter-PollsFor vhosts now s h g = start-PollsFor vhosts now s g
  enter-PollsFor streams now s h g = absurd (h refl)
  enter-PollsFor clients now s h g = start-PollsFor clients now s g

  on_answer-PollsFor :
      (page p : Page) (a : Answer D) (now : ℕ) (s : Console D)
      → PollsFor page s
      → PollsFor page (on_answer (polls p) a now s)
  unfolding on_answer on_success http_error
  on_answer-PollsFor page p (errors status response) now s v =
      PollsFor-same page s (on_answer (polls p) (errors status response) now s) refl v
  on_answer-PollsFor page p (responds status code result) now s v = elim (Bool-cases (code == 0)) [
    | inl good ↦
        rw (on_answer, good)
          (record {
            callback = request-pfn none s.refresher ∙ v.callback;
            unguarded = request-guarded none s.refresher ∙ v.unguarded;
          })
    | inr bad ↦
        rw (on_answer, bad) (PollsFor-same page s (http_error status (object code) now s) refl v)
  ]

  answered-PollsFor :
      (page : Page) (o : Option Request) (i : ℕ) (a : Answer D) (now : ℕ) (s : Console D)
      → o ≢ some asks_vhosts
      → PollsFor page s
      → PollsFor page (answered o i a now s)
  unfolding answered
  answered-PollsFor page none i a now s h v = v
  answered-PollsFor page (some asks_vhosts) i a now s h v = absurd (h refl)
  answered-PollsFor page (some (polls p)) i a now s h v =
      let t = record s { in_flight = remove_at i s.in_flight } in
      on_answer-PollsFor page p a now t (PollsFor-same page s t refl v)

  step-PollsFor :
      (page : Page) (s : Console D) (e : Event D)
      → IsQuiet s e
      → PollsFor page s
      → PollsFor page (step s e)
  unfolding step fire_timer kickoff_client kickoff_stream
  step-PollsFor page s (enters p now) q v = absurd q
  step-PollsFor page s leaves q v = absurd q
  step-PollsFor page s (fires id) q v =
      let w = record s.refresher { ran = [] } in
      record {
        callback = ap (λ c. c.pfn) (fire-this_call id true w) ∙ v.callback;
        unguarded = fire-guarded id w ∙ v.unguarded;
      }
  step-PollsFor page s (answers i a now) q v =
      answered-PollsFor page (get_elem? s.in_flight i) i a now s q v
  step-PollsFor page s (kicks_client id) q v = PollsFor-same page s (kickoff_client id s) refl v
  step-PollsFor page s (kicks_stream cid) q v = PollsFor-same page s (kickoff_stream cid s) refl v
  step-PollsFor page s (answers_aside i a now) q v =
      PollsFor-same page s (aside_answered (get_elem? s.asides i) i a now s)
        (aside_answered-Same (get_elem? s.asides i) i a now s).0 v

  run-PollsFor :
      (page : Page) (s : Console D) (es : List (Event D))
      → AllQuiet s es
      → PollsFor page s
      → PollsFor page (run s es)
  unfolding run
  run-PollsFor page s [] q v = v
  run-PollsFor page s (e ∷ es) q v =
      run-PollsFor page (step s e) es q.1 (step-PollsFor page s e q.0 v)

  -- A page that has just started sends its first request when its timer fires.
  start-first :
      (page : Page) (now : ℕ) (s : Console D)
      → s.refresher.guarded ≡ false
      → (fire_timer s.refresher.next_timer (start page now s)).in_flight ≡ polls page ∷ s.in_flight
  unfolding start log fire_timer fire refresh_change request clear_timeout schedule set_timer
  start-first page now s g = ground (arith, g)

  vhosts_first :
      (o : Option Request) (i status : ℕ) (result : D) (now : ℕ) (s : Console D)
      → o ≡ some asks_vhosts
      → s.refresher.guarded ≡ false
      → (fire_timer s.refresher.next_timer
          (answered o i (responds status 0 result) now s)).in_flight
        ≡ polls streams ∷ remove_at i s.in_flight
  unfolding answered on_answer on_success
  vhosts_first none i status result now s e g = absurd (ground arith)
  vhosts_first (some (polls p)) i status result now s e g = absurd (ground arith)
  vhosts_first (some asks_vhosts) i status result now s e g =
      start-first streams now (record s { in_flight = remove_at i s.in_flight }) g

  -- If another page is entered while CSCStreams waits for the vhosts, then whatever timers fire, other
  -- answers come and clients are kicked off, with no page entered or left, the callback of the refresher is
  -- that of this page, until the vhosts come: with their answer it is that of the streams, and the timer
  -- that is set then sends a request for the streams.
  pub late_vhosts :
      (page : Page) (now : ℕ) (es : List (Event D)) (i status : ℕ) (result : D) (later : ℕ)
      (s : Console D)
      → page ≢ streams
      → s.refresher.guarded ≡ false
      → AllQuiet (enter page now s) es
      → get_elem? (run (enter page now s) es).in_flight i ≡ some asks_vhosts
      → let t = run (enter page now s) es in
        let u = step t (answers i (responds status 0 result) later) in
        ((this_call t.refresher).pfn ≡ some page)
        × ((this_call u.refresher).pfn ≡ some streams)
        × ((step u (fires t.refresher.next_timer)).in_flight
            ≡ polls streams ∷ remove_at i t.in_flight)
  unfolding step
  late_vhosts page now es i status result later s h g q e =
      let t = run (enter page now s) es in
      let v = run-PollsFor page (enter page now s) es q (enter-PollsFor page now s h g) in
      (
        v.callback,
        vhosts_answered (get_elem? t.in_flight i) i status result later t e,
        vhosts_first (get_elem? t.in_flight i) i status result later t e v.unguarded,
      )
