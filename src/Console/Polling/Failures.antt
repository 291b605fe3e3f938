-- ===== src/Console/Polling/Failures.antt =====
-- After a request that fails, nobody asks for the next round; the answers to other requests do not either.
use go_live_streaming.Base.{
  ℕ, ◌≡◌, ◌≢◌, refl, sym, ap, ◌∙◌, false, Option, none, List, [], ◌∷◌, arith, ◌==◌, get_elem?,
  remove_at,
}
use mathlib.Core.Path.{subst}
use go_live_streaming.Refresh.{stop, fire}
use go_live_streaming.Console.Polling.Asides.{aside_answered-Same}
use go_live_streaming.Console.Polling.{
  Request, Page, Console, Answer, responds, errors, http_error, leave, fire_timer, on_answer,
  answered, Event, enters, leaves, fires, answers, kicks_client, kicks_stream, answers_aside, step,
  run, kickoff_client, kickoff_stream, aside_answered,
}

-- An error, or a code that is not 0.
abbrev pub IsFailure : {D : Type 0} → Answer D → Type 0
IsFailure (responds status code result) = code ≢ 0
IsFailure (errors status response) = Unit

-- The page is not left for one that polls.
abbrev pub NoneEnters : {D : Type 0} → List (Event D) → Type 0
NoneEnters [] = Unit
NoneEnters (enters page now ∷ es) = ⊥
NoneEnters (_ ∷ es) = NoneEnters es

module _ {D : Type 0} where
  -- Nothing will happen by itself any more, and the page shows what it did.
  record Dead (before : Page → Option D) (s : Console D) : Type 0 where
    no_request : s.in_flight ≡ []
    no_timer : (id : ℕ) → s.refresher.timers id ≡ none
    same : s.shown ≡ before

  leave-Dead : (before : Page → Option D) (s : Console D) → Dead before s → Dead before (leave s)
  unfolding leave stop
  leave-Dead before s v = record { no_request = v.no_request; no_timer = v.no_timer; same = v.same }

  fire_timer-Dead :
      (before : Page → Option D) (id : ℕ) (s : Console D)
      → Dead before s
      → Dead before (fire_timer id s)
  unfolding fire_timer fire
  fire_timer-Dead before id s v = record {
    no_request = ground (arith, v.no_request, v.no_timer id);
    no_timer = λ j. ground (arith, v.no_timer j, v.no_timer id);
    same = v.same;
  }

  answers-Dead :
      (before : Page → Option D) (i : ℕ) (a : Answer D) (now : ℕ) (s : Console D)
      → Dead before s
      → Dead before (step s (answers i a now))
  unfolding step
  answers-Dead before i a now s v =
      subst (λ waits. Dead before (answered (get_elem? waits i) i a now s)) (sym v.no_request) v

  -- The other requests change nothing of this.
  Dead-same :
      (before : Page → Option D) (s t : Console D)
      → t.refresher ≡ s.refresher
      → t.in_flight ≡ s.in_flight
      → t.shown ≡ s.shown
      → Dead before s
      → Dead before t
  Dead-same before s t e f g v = record {
    no_request = f ∙ v.no_request;
    no_timer = λ id. ap (λ w. w.timers id) e ∙ v.no_timer id;
    same = g ∙ v.same;
  }

  run-Dead :
      (before : Page → Option D) (s : Console D) (es : List (Event D))
      → NoneEnters es
      → Dead before s
      → Dead before (run s es)
  unfolding run step kickoff_client kickoff_stream
  run-Dead before s [] h v = v
  run-Dead before s (enters page now ∷ es) h v = absurd h
  run-Dead before s (leaves ∷ es) h v = run-Dead before (leave s) es h (leave-Dead before s v)
  run-Dead before s (fires id ∷ es) h v =
      run-Dead before (fire_timer id s) es h (fire_timer-Dead before id s v)
  run-Dead before s (answers i a now ∷ es) h v =
      run-Dead before (step s (answers i a now)) es h (answers-Dead before i a now s v)
  run-Dead before s (kicks_client id ∷ es) h v =
      run-Dead before (kickoff_client id s) es h
        (Dead-same before s (kickoff_client id s) refl refl refl v)
  run-Dead before s (kicks_stream cid ∷ es) h v =
      run-Dead before (kickoff_stream cid s) es h
        (Dead-same before s (kickoff_stream cid s) refl refl refl v)
  run-Dead before s (answers_aside i a now ∷ es) h v =
      let t = aside_answered (get_elem? s.asides i) i a now s in
      let kept = aside_answered-Same (get_elem? s.asides i) i a now s in
      run-Dead before t es h (Dead-same before s t kept.0 kept.1.0 kept.1.1 v)

  -- What is left of the requests after the answer.
  rejected-Dead :
      (q : Request) (a : Answer D) (now : ℕ) (s : Console D)
      → IsFailure a
      → s.in_flight ≡ []
      → ((id : ℕ) → s.refresher.timers id ≡ none)
      → Dead s.shown (on_answer q a now s)
  unfolding on_answer http_error
  rejected-Dead q (responds status code result) now s f w t =
      let bad : (code == 0) ≡ false = ground (arith, f) in
      rw (on_answer, bad) (record { no_request = w; no_timer = t; same = refl })
  rejected-Dead q (errors status response) now s f w t = record {
    no_request = w;
    no_timer = t;
    same = refl;
  }

  failed-Dead :
      (q : Request) (a : Answer D) (now : ℕ) (s : Console D)
      → IsFailure a
      → s.in_flight ≡ q ∷ []
      → ((id : ℕ) → s.refresher.timers id ≡ none)
      → Dead s.shown (step s (answers 0 a now))
  unfolding step
  failed-Dead q a now s f w t =
      subst (λ waits. Dead s.shown (answered (get_elem? waits 0) 0 a now s)) (sym w)
        (rejected-Dead q a now (record s { in_flight = remove_at 0 s.in_flight }) f
          (ap (remove_at 0) w) t)

  -- Where a page waits for one answer and for no timer, and this answer is an error or has a code that is
  -- not 0: no request of a page is sent and no data shown ever after, until a page that polls is entered.
  pub failure_stops :
      (q : Request) (a : Answer D) (now : ℕ) (s : Console D) (es : List (Event D))
      → IsFailure a
      → s.in_flight ≡ q ∷ []
      → ((id : ℕ) → s.refresher.timers id ≡ none)
      → NoneEnters es
      → ((run (step s (answers 0 a now)) es).in_flight ≡ [])
        × ((run (step s (answers 0 a now)) es).shown ≡ s.shown)
  failure_stops q a now s es f w t h =
      let dead = run-Dead s.shown (step s (answers 0 a now)) es h (failed-Dead q a now s f w t) in
      (dead.no_request, dead.same)
