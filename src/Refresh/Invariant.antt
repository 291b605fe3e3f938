-- ===== src/Refresh/Invariant.antt =====
-- What every history of the shared refresher keeps.
use go_live_streaming.Base.{
  ℕ, ◌<◌, ◌≡◌, ◌≢◌, refl, Bool, true, false, Option, none, some, List, [], ◌∷◌, arith,
}
use go_live_streaming.Refresh.{
  Call, Timer, World, init, this_call, set_this_call, clear_timeout, stop, refresh_change,
  initialize, request, restart, fire_timer, fire, Event, changes, stops, restarts, requests, guards,
  fires, step, run,
}

-- A call whose timer is pending has a callback, and knows the timer.
abbrev Owns : {P : Type 0} → Call P → ℕ → Type 0
Owns c id = (c.pfn ≢ none) × (c.handler ≡ some id)

pub record Inv {P : Type 0} (w : World P) : Type 0 where
  pub current_lt : w.current < w.next_call
  pub owned : (id : ℕ) (t : Timer) → w.timers id ≡ some t → Owns (w.calls t.call) id
  pub known : (id : ℕ) (t : Timer) → w.timers id ≡ some t → t.call < w.next_call
  pub fresh : (id : ℕ) (t : Timer) → w.timers id ≡ some t → id < w.next_timer
  pub only : (i : ℕ) → (w.calls i).enabled ≡ true → i ≡ w.current
  pub sound : w.faulted ≡ false

module _ {P : Type 0} where
  init-Inv : Inv (init {P = P})
  init-Inv = record {
    current_lt = ground arith;
    owned = λ id t e. cc;
    known = λ id t e. cc;
    fresh = λ id t e. cc;
    only = λ i e. cc;
    sound = refl;
  }

  pub stop-Inv : (w : World P) → Inv w → Inv (stop w)
  unfolding stop
  stop-Inv w v = record {
    current_lt = v.current_lt;
    owned = λ id t e. ground (arith, v.owned id t e);
    known = v.known;
    fresh = v.fresh;
    only = λ i e. ground (arith, v.only i);
    sound = v.sound;
  }

  pub refresh_change-Inv :
      (pfn : Option P) (timeout : Option ℕ) (w : World P)
      → Inv w
      → Inv (refresh_change pfn timeout w)
  unfolding refresh_change
  refresh_change-Inv pfn timeout w v = record {
    current_lt = ground arith;
    owned = λ id t e. ground (arith, v.owned id t, v.known id t);
    known = λ id t e. ground (arith, v.known id t);
    fresh = λ id t e. ground (arith, v.fresh id t);
    only = λ i e. ground (arith, v.only i);
    sound = ground (arith, v.sound);
  }

  clear_timeout-Inv : (h : Option ℕ) (w : World P) → Inv w → Inv (clear_timeout h w)
  unfolding clear_timeout
  clear_timeout-Inv none w v = v
  clear_timeout-Inv (some h) w v = record {
    current_lt = v.current_lt;
    owned = λ id t e. ground (arith, v.owned id t);
    known = λ id t e. ground (arith, v.known id t);
    fresh = λ id t e. ground (arith, v.fresh id t);
    only = v.only;
    sound = v.sound;
  }

  request-Inv : (timeout : Option ℕ) (w : World P) → Inv w → Inv (request timeout w)
  unfolding request
  request-Inv timeout w v = record {
    current_lt = ground (arith, v.current_lt);
    owned = λ id t e. ground (arith, v.owned id t, v.fresh id t);
    known = λ id t e. ground (arith, v.known id t, v.current_lt);
    fresh = λ id t e. ground (arith, v.fresh id t);
    only = λ i e. ground (arith, v.only i);
    sound = ground (arith, v.sound);
  }

  enable-Inv :
      (w : World P) → Inv w → Inv (set_this_call w (record (this_call w) { enabled = true }))
  enable-Inv w v = record {
    current_lt = v.current_lt;
    owned = λ id t e. ground (arith, v.owned id t);
    known = v.known;
    fresh = v.fresh;
    only = λ i e. ground (arith, v.only i);
    sound = v.sound;
  }

  restart-Inv : (w : World P) → Inv w → Inv (restart w)
  unfolding restart
  restart-Inv w v = request-Inv (some 0) _ (enable-Inv w v)

  fire_timer_sound :
      (pending : Option Timer) (id : ℕ) (answer : Bool) (w : World P)
      → Inv w
      → w.timers id ≡ pending
      → (fire_timer pending id answer w).faulted ≡ false
  unfolding fire_timer
  fire_timer_sound none id answer w v e = v.sound
  fire_timer_sound (some t) id answer w v e = ground (arith, v.owned id t e, v.sound)

  fire-Inv : (id : ℕ) (answer : Bool) (w : World P) → Inv w → Inv (fire id answer w)
  unfolding fire
  fire-Inv id answer w v = record {
    current_lt = ground (arith, v.current_lt);
    owned = λ i t e. ground (arith, v.owned i t);
    known = λ i t e. ground (arith, v.known i t);
    fresh = λ i t e. ground (arith, v.fresh i t);
    only = λ i e. ground (arith, v.only i);
    sound = fire_timer_sound (w.timers id) id answer w v refl;
  }

  pub step-Inv : (w : World P) (e : Event P) → Inv w → Inv (step w e)
  unfolding step initialize
  step-Inv w (changes pfn timeout) v = refresh_change-Inv pfn timeout w v
  step-Inv w stops v = stop-Inv w v
  step-Inv w restarts v = restart-Inv w v
  step-Inv w (requests timeout) v = request-Inv timeout w v
  step-Inv w (guards installed) v = record {
    current_lt = v.current_lt;
    owned = v.owned;
    known = v.known;
    fresh = v.fresh;
    only = v.only;
    sound = v.sound;
  }
  step-Inv w (fires id answer) v = fire-Inv id answer w v

  pub run-Inv : (w : World P) (es : List (Event P)) → Inv w → Inv (run w es)
  unfolding run
  run-Inv w [] v = v
  run-Inv w (e ∷ es) v = run-Inv (step w e) es (step-Inv w e v)

  -- After every history of the pages' calls and of timers that fire in any order: a timer that is
  -- pending belongs to a call with a callback, which knows that timer as its handler; only the
  -- current call is enabled; and null was never called.
  pub run-init-Inv : (es : List (Event P)) → Inv (run init es)
  run-init-Inv es = run-Inv init es init-Inv
