-- ===== src/Refresh/Behaviour.antt =====
-- What the shared refresher does: which callback a timer may call, and when none is called.
use go_live_streaming.Base.{
  ℕ, ◌≡◌, refl, ◌∙◌, ◌⊎◌, inl, inr, Bool, true, false, Option, none, some, List, [], ◌∷◌, arith,
  Option-cases, Bool-cases,
}
use go_live_streaming.Refresh.{
  Call, Timer, World, init, this_call, stop, refresh_change, request, fire_timer, fire, Event,
  changes, stops, restarts, requests, guards, fires, step, run, update, invoke,
}
use go_live_streaming.Refresh.Invariant.{Inv, step-Inv, run-init-Inv, stop-Inv}

-- A firing calls nothing, or the callback of the current call while it is enabled.
abbrev pub Fires : {P : Type 0} → World P → Bool → World P → Type 0
Fires {P} w answer w' =
    (w'.ran ≡ w.ran)
    ⊎ ((p : P) × (w'.ran ≡ p ∷ w.ran)
        × ((this_call w).pfn ≡ some p)
        × ((this_call w).enabled ≡ true)
        × (w.guarded ≡ true → answer ≡ true))

module _ {P : Type 0} where
  invoke-Fires :
      (c : Call P) (i : ℕ) (answer : Bool) (w : World P) (timers : ℕ → Option Timer)
      → Inv w
      → w.calls i ≡ c
      → Fires w answer (invoke c answer (record w { timers = timers }))
  unfolding invoke
  invoke-Fires c i answer w timers v e = elim (Bool-cases c.enabled) [
    | inl on ↦ elim (Option-cases c.pfn) [
      | inl nothing ↦ inl (ground arith)
      | inr (p, found) ↦ elim (Bool-cases answer) [
        | inl yea ↦
            inr (p, ground arith, ground (arith, v.only i), ground (arith, v.only i), λ _. yea)
        | inr nay ↦ elim (Bool-cases w.guarded) [
          | inl set ↦ inl (ground arith)
          | inr unset ↦
              inr (p, ground arith, ground (arith, v.only i), ground (arith, v.only i), λ s. cc)
        ]
      ]
    ]
    | inr off ↦ inl (ground arith)
  ]

  fire_timer-Fires :
      (pending : Option Timer) (id : ℕ) (answer : Bool) (w : World P)
      → Inv w
      → Fires w answer (fire_timer pending id answer w)
  unfolding fire_timer
  fire_timer-Fires none id answer w v = inl refl
  fire_timer-Fires (some t) id answer w v =
      invoke-Fires (w.calls t.call) t.call answer w (update w.timers id none) v refl

  fire-Fires : (id : ℕ) (answer : Bool) (w : World P) → Inv w → Fires w answer (fire id answer w)
  unfolding fire
  fire-Fires id answer w v = fire_timer-Fires (w.timers id) id answer w v

  -- After every history, a timer that fires, whichever it is and whatever it was set for, calls
  -- nothing or the callback of the current call, and that only while the call is enabled and the
  -- hook, if it is installed, agrees: a callback that `refresh_change` replaced never runs again.
  pub run-fire-current :
      (es : List (Event P)) (id : ℕ) (answer : Bool)
      → Fires (run init es) answer (fire id answer (run init es))
  run-fire-current es id answer = fire-Fires id answer (run init es) (run-init-Inv es)

  -- After every history, two pending timers that hold the same call are one timer.
  pub run-one_timer :
      (es : List (Event P)) (i j : ℕ) (s t : Timer)
      → (run init es).timers i ≡ some s
      → (run init es).timers j ≡ some t
      → s.call ≡ t.call
      → i ≡ j
  run-one_timer es i j s t e f same =
      ground (arith, (run-init-Inv es).owned i s e, (run-init-Inv es).owned j t f)

  -- Whatever was pending before, after `request` the current call waits for the new timer alone.
  pub request_supersedes :
      (es : List (Event P)) (timeout : Option ℕ) (id : ℕ) (t : Timer)
      → (request timeout (run init es)).timers id ≡ some t
      → t.call ≡ (run init es).current
      → id ≡ (run init es).next_timer
  unfolding request
  request_supersedes es timeout id t e same = ground (arith, (run-init-Inv es).owned id t)

  -- `refresh_change` clears no timer, but one that was set before it fires without effect.
  pub refresh_change_cancels :
      (es : List (Event P)) (pfn : Option P) (timeout : Option ℕ) (id : ℕ) (t : Timer)
      (answer : Bool)
      → (run init es).timers id ≡ some t
      → ((refresh_change pfn timeout (run init es)).timers id ≡ some t)
        × ((fire id answer (refresh_change pfn timeout (run init es))).ran ≡ (run init es).ran)
  unfolding refresh_change fire
  refresh_change_cancels es pfn timeout id t answer e =
      let v = run-init-Inv es in ground (arith, v.known id t e, v.only t.call, e)

-- Events that neither change the callback nor enable it.
abbrev pub IsQuiet : {P : Type 0} → Event P → Type 0
IsQuiet (changes _ _) = ⊥
IsQuiet restarts = ⊥
IsQuiet _ = Unit

abbrev pub AllQuiet : {P : Type 0} → List (Event P) → Type 0
AllQuiet [] = Unit
AllQuiet (e ∷ es) = IsQuiet e × AllQuiet es

module _ {P : Type 0} where
  fire_timer-calls :
      (pending : Option Timer) (id : ℕ) (answer : Bool) (w : World P)
      → ((fire_timer pending id answer w).calls ≡ w.calls)
        × ((fire_timer pending id answer w).current ≡ w.current)
  unfolding fire_timer invoke
  fire_timer-calls none id answer w = (refl, refl)
  fire_timer-calls (some t) id answer w = (ground arith, ground arith)

  fire-calls :
      (id : ℕ) (answer : Bool) (w : World P)
      → ((fire id answer w).calls ≡ w.calls) × ((fire id answer w).current ≡ w.current)
  unfolding fire
  fire-calls id answer w = fire_timer-calls (w.timers id) id answer w

  pub fire-this_call :
      (id : ℕ) (answer : Bool) (w : World P) → this_call (fire id answer w) ≡ this_call w
  fire-this_call id answer w = cc ((fire-calls id answer w).0, (fire-calls id answer w).1)

  quiet_step :
      (w : World P) (e : Event P)
      → Inv w
      → (this_call w).enabled ≡ false
      → IsQuiet e
      → ((step w e).ran ≡ w.ran) × ((this_call (step w e)).enabled ≡ false)
  unfolding step stop request fire
  quiet_step w (changes pfn timeout) v off q = absurd q
  quiet_step w stops v off q = ground arith
  quiet_step w restarts v off q = absurd q
  quiet_step w (requests timeout) v off q = ground arith
  quiet_step w (guards installed) v off q = (refl, off)
  quiet_step w (fires id answer) v off q =
      ground (arith, fire-Fires id answer w v, fire-this_call id answer w)

  quiet_run :
      (w : World P) (es : List (Event P))
      → Inv w
      → (this_call w).enabled ≡ false
      → AllQuiet es
      → (run w es).ran ≡ w.ran
  unfolding run
  quiet_run w [] v off q = refl
  quiet_run w (e ∷ es) v off q =
      let now = quiet_step w e v off q.0 in
      quiet_run (step w e) es (step-Inv w e v) now.1 q.1 ∙ now.0

  -- After `stop`, from every history, no callback is made until `restart` or a new
  -- `refresh_change`, whatever timers fire and whoever calls `request`.
  pub stop-silent :
      (before after : List (Event P))
      → AllQuiet after
      → (run (stop (run init before)) after).ran ≡ (run init before).ran
  unfolding stop
  stop-silent before after q =
      let v = run-init-Inv before in
      quiet_run (stop (run init before)) after (stop-Inv (run init before) v) (ground arith) q
