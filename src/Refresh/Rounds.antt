-- ===== src/Refresh/Rounds.antt =====
-- The rounds of a page: the first at once, and every later one after the delay.
use mathlib.Core.Option.{some-injective}
use go_live_streaming.Base.{
  ℕ, ◌≡◌, ◌≢◌, refl, sym, ap, ◌∙◌, Bool, true, false, Option, none, some, List, [], ◌∷◌, arith, inl,
  inr, Bool-cases,
}
use go_live_streaming.Refresh.{
  Timer, World, init, this_call, initialize, request, fire_timer, fire, Event, changes, stops,
  restarts, requests, guards, fires, step, run, invoke,
}
use go_live_streaming.Refresh.Invariant.{Inv, step-Inv, run-init-Inv}

-- Only other timers fire, or the hook is set.
abbrev pub IsOther : {P : Type 0} → ℕ → Event P → Type 0
IsOther id (fires j answer) = j ≢ id
IsOther id (guards installed) = Unit
IsOther id _ = ⊥

abbrev pub AllOther : {P : Type 0} → ℕ → List (Event P) → Type 0
AllOther id [] = Unit
AllOther id (e ∷ es) = IsOther id e × AllOther id es

-- The timer waits for the current call, which has the callback and the delay, and the callbacks that ran
-- are these.
record Waits {P : Type 0} (id : ℕ) (p : P) (delay : ℕ) (ran : List P) (w : World P) : Type 0 where
  safe : Inv w
  timer : w.timers id ≡ some (record { call = w.current; delay = 0 })
  call :
      this_call w ≡ record { pfn = some p; timeout = some delay; enabled = true; handler = some id }
  same : w.ran ≡ ran

module _ {P : Type 0} where
  -- A timer of another call than the current one is silent.
  disabled :
      (id j : ℕ) (t : Timer) (p : P) (delay : ℕ) (ran : List P) (w : World P)
      → j ≢ id
      → w.timers j ≡ some t
      → Waits id p delay ran w
      → (w.calls t.call).enabled ≡ false
  disabled id j t p delay ran w ne e v = elim (Bool-cases (w.calls t.call).enabled) [
    | inl on ↦
        let here = v.safe.only t.call on in
        let own = (v.safe.owned j t e).1 in
        let knows : (w.calls t.call).handler ≡ some id =
          ap (λ i. (w.calls i).handler) here ∙ ap (λ c. c.handler) v.call in
        absurd (ne (some-injective j id (sym own ∙ knows)))
    | inr off ↦ off
  ]

  fire_timer-other :
      (pending : Option Timer) (id j : ℕ) (answer : Bool) (p : P) (delay : ℕ) (ran : List P)
      (w : World P)
      → j ≢ id
      → w.timers j ≡ pending
      → Waits id p delay ran w
      → ((fire_timer pending j answer w).timers id ≡ w.timers id)
        × ((fire_timer pending j answer w).calls ≡ w.calls)
        × ((fire_timer pending j answer w).current ≡ w.current)
        × ((fire_timer pending j answer w).ran ≡ w.ran)
  unfolding fire_timer invoke
  fire_timer-other none id j answer p delay ran w ne e v = (refl, refl, refl, refl)
  fire_timer-other (some t) id j answer p delay ran w ne e v =
      let off = disabled id j t p delay ran w ne e v in
      (ground (arith, off, ne), ground (arith, off), ground (arith, off), ground (arith, off))

  fire-other :
      (id j : ℕ) (answer : Bool) (p : P) (delay : ℕ) (ran : List P) (w : World P)
      → j ≢ id
      → Waits id p delay ran w
      → Waits id p delay ran (fire j answer w)
  unfolding fire step
  fire-other id j answer p delay ran w ne v =
      let (timer, calls, current, same) =
        fire_timer-other (w.timers j) id j answer p delay ran w ne refl v in
      record {
        safe = step-Inv w (fires j answer) v.safe;
        timer = timer ∙ (v.timer ∙ ap (λ c. some (record { call = c; delay = 0 })) (sym current));
        call =
            ap (λ i. (fire_timer (w.timers j) j answer w).calls i) current
            ∙ (ap (λ cs. cs w.current) calls ∙ v.call);
        same = same ∙ v.same;
      }

  start-Waits :
      (w : World P) (p : P) (delay : ℕ)
      → Inv w
      → Waits w.next_timer p delay w.ran (request (some 0) (initialize (some p) (some delay) w))
  unfolding request initialize step
  start-Waits w p delay v = record {
    safe =
        step-Inv (initialize (some p) (some delay) w) (requests (some 0))
          (step-Inv w (changes (some p) (some delay)) v);
    timer = ground arith;
    call = ground arith;
    same = ground arith;
  }

  run-Waits :
      (id : ℕ) (p : P) (delay : ℕ) (ran : List P) (w : World P) (es : List (Event P))
      → AllOther id es
      → Waits id p delay ran w
      → Waits id p delay ran (run w es)
  unfolding run step
  run-Waits id p delay ran w [] o v = v
  run-Waits id p delay ran w (fires j answer ∷ es) o v =
      run-Waits id p delay ran (fire j answer w) es o.1 (fire-other id j answer p delay ran w o.0 v)
  run-Waits id p delay ran w (guards installed ∷ es) o v =
      run-Waits id p delay ran (step w (guards installed)) es o.1 (record {
        safe = step-Inv w (guards installed) v.safe;
        timer = v.timer;
        call = v.call;
        same = v.same;
      })
  run-Waits id p delay ran w (changes pfn timeout ∷ es) o v = absurd o.0
  run-Waits id p delay ran w (stops ∷ es) o v = absurd o.0
  run-Waits id p delay ran w (restarts ∷ es) o v = absurd o.0
  run-Waits id p delay ran w (requests timeout ∷ es) o v = absurd o.0

  fire-round :
      (id : ℕ) (answer : Bool) (p : P) (delay : ℕ) (ran : List P) (w : World P)
      → (w.guarded ≡ true → answer ≡ true)
      → Waits id p delay ran w
      → ((fire id answer w).ran ≡ p ∷ ran)
        × ((request none (fire id answer w)).timers (fire id answer w).next_timer
            ≡ some (record { call = w.current; delay = delay }))
  unfolding fire request
  fire-round id answer p delay ran w agrees v =
      (ground (arith, v.timer, v.call, v.same, agrees), ground (arith, v.timer, v.call, agrees))

  -- The way of the pages, after every history: once they have called `refresh_change(p, delay)` and
  -- `request(0)`, whatever other timers fire and whether or not the hook is installed, nothing is called
  -- until the new timer fires, which waits for no time; then p is called, unless the hook refuses; and
  -- the `request()` that follows sets a timer that waits for the delay.
  pub change-request-fire :
      (before between : List (Event P)) (p : P) (delay : ℕ) (answer : Bool)
      → AllOther (run init before).next_timer between
      → ((run
              (request (some 0) (initialize (some p) (some delay) (run init before)))
              between).guarded
            ≡ true
          → answer ≡ true)
      → let w = run init before in
        let w1 = run (request (some 0) (initialize (some p) (some delay) w)) between in
        let w2 = fire w.next_timer answer w1 in
        (w1.timers w.next_timer ≡ some (record { call = w1.current; delay = 0 }))
        × (w1.ran ≡ w.ran)
        × (w2.ran ≡ p ∷ w.ran)
        × ((request none w2).timers w2.next_timer
            ≡ some (record { call = w1.current; delay = delay }))
  change-request-fire before between p delay answer o agrees =
      let w = run init before in
      let w0 = request (some 0) (initialize (some p) (some delay) w) in
      let v =
        run-Waits w.next_timer p delay w.ran w0 between o
          (start-Waits w p delay (run-init-Inv before)) in
      let round = fire-round w.next_timer answer p delay w.ran (run w0 between) agrees v in
      (v.timer, v.same, round.0, round.1)
