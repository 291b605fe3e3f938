-- ===== src/Refresh.antt =====
-- AsyncRefresh and AsyncRefresh2 of live-streaming-web/nginx/html/console/js/winlin.utility.js: the
-- refresher that every page of the console shares. The objects that `__call` points to live in a
-- store, since a timer keeps the one that it was set for after `__call` has been replaced. The
-- timers of the browser are a map from their ids; a step of the event loop fires any of them.
-- What a callback does after it has been called is the events that follow.
pub mod Simple
pub mod Invariant
pub mod Behaviour
pub mod Rounds
mod Tests
use go_live_streaming.Base.{
  ℕ, suc, ◌+◌, Bool, true, false, ◌&&◌, ◌||◌, not, Option, none, some, List, [], ◌∷◌, ◌==◌,
  if◌then◌else◌,
}

-- An object of `this.__call`; null is `none`.
pub record Call (P : Type 0) : Type 0 where
  pub pfn : Option P
  pub timeout : Option ℕ
  pub enabled : Bool
  pub handler : Option ℕ

-- The closure that waits for a timer: the call that it holds, and after how long it is due.
pub record Timer : Type 0 where
  pub call : ℕ
  pub delay : ℕ

-- The refresher with the store of calls, the browser's timers, the callbacks made so far (newest
-- first), and whether a call of null was tried.
pub record World (P : Type 0) : Type 0 where
  pub calls : ℕ → Call P
  pub next_call : ℕ
  pub current : ℕ
  pub guarded : Bool
  pub timers : ℕ → Option Timer
  pub next_timer : ℕ
  pub ran : List P
  pub faulted : Bool

abbrev pub update {ℓ} : {A : Type ℓ} → (ℕ → A) → ℕ → A → ℕ → A
update f i a j = if i == j then a else f j

abbrev pub is_some {ℓ} : {A : Type ℓ} → Option A → Bool
is_some none = false
is_some (some _) = true

abbrev pub or_else {ℓ} : {A : Type ℓ} → Option A → Option A → Option A
or_else none d = d
or_else (some a) d = some a

module _ {P : Type 0} where
  -- `new AsyncRefresh2()`
  abbrev pub init : World P
  init = record {
    calls = λ _. record { pfn = none; timeout = some 0; enabled = false; handler = none };
    next_call = 1;
    current = 0;
    guarded = false;
    timers = λ _. none;
    next_timer = 1;
    ran = [];
    faulted = false;
  }

  -- `this.__call`
  abbrev pub this_call : World P → Call P
  this_call w = w.calls w.current

  abbrev pub set_this_call : World P → Call P → World P
  set_this_call w c = record w { calls = update w.calls w.current c }

  -- `clearTimeout(handler)`; undefined is ignored
  unfoldable pub clear_timeout : Option ℕ → World P → World P
  clear_timeout none w = w
  clear_timeout (some h) w = record w { timers = update w.timers h none }

  unfoldable pub stop : World P → World P
  stop w = set_this_call w (record (this_call w) { enabled = false })

  -- The argument of `clearTimeout` is `this.__handler`, which is never set.
  unfoldable pub refresh_change : Option P → Option ℕ → World P → World P
  unfolding clear_timeout stop
  refresh_change pfn timeout w =
      let cleared = if is_some (this_call w).handler then clear_timeout none w else w in
      let stopped = stop cleared in
      record stopped {
        calls =
            update stopped.calls stopped.next_call
              (record { pfn = pfn; timeout = timeout; enabled = true; handler = none });
        next_call = suc stopped.next_call;
        current = stopped.next_call;
      }

  unfoldable pub initialize : Option P → Option ℕ → World P → World P
  unfolding refresh_change
  initialize pfn timeout w = refresh_change pfn timeout w

  -- The last line of `request`: `this_call.__handler = setTimeout(…, timeout)`.
  unfoldable pub set_timer : World P → ℕ → World P
  set_timer w delay = record w {
    calls = update w.calls w.current (record (this_call w) { handler = some w.next_timer });
    timers = update w.timers w.next_timer (some (record { call = w.current; delay = delay }));
    next_timer = suc w.next_timer;
  }

  -- The guard before it: no timer without a callback and a timeout.
  unfoldable pub schedule : Option P → Option ℕ → World P → World P
  unfolding set_timer
  schedule none timeout w = w
  schedule (some p) none w = w
  schedule (some p) (some delay) w = set_timer w delay

  unfoldable pub request : Option ℕ → World P → World P
  unfolding clear_timeout schedule
  request timeout w =
      let cleared = clear_timeout (this_call w).handler w in
      schedule (this_call w).pfn (or_else timeout (this_call w).timeout) cleared

  unfoldable pub restart : World P → World P
  unfolding request
  restart w = request (some 0) (set_this_call w (record (this_call w) { enabled = true }))

  -- `this_call.pfn()`
  unfoldable pub call_pfn : Option P → World P → World P
  call_pfn none w = record w { faulted = true }
  call_pfn (some p) w = record w { ran = p ∷ w.ran }

  -- The closure of `request`; `answer` is what the hook `on_before_call_pfn` returns, if it is set.
  unfoldable pub invoke : Call P → Bool → World P → World P
  unfolding call_pfn
  invoke c answer w =
      if not c.enabled then w else if w.guarded && not answer then w else call_pfn c.pfn w

  -- The browser fires a timer, which is gone then; an id that is not pending is ignored.
  unfoldable pub fire_timer : Option Timer → ℕ → Bool → World P → World P
  unfolding invoke
  fire_timer none id answer w = w
  fire_timer (some t) id answer w =
      invoke (w.calls t.call) answer (record w { timers = update w.timers id none })

  unfoldable pub fire : ℕ → Bool → World P → World P
  unfolding fire_timer
  fire id answer w = fire_timer (w.timers id) id answer w

-- What the pages and the browser do to the refresher; `guards` assigns `on_before_call_pfn`.
pub data Event (P : Type 0) : Type 0 where
  changes : Option P → Option ℕ → Event P
  stops : Event P
  restarts : Event P
  requests : Option ℕ → Event P
  guards : Bool → Event P
  fires : ℕ → Bool → Event P

module _ {P : Type 0} where
  pub step : World P → Event P → World P
  step w (changes pfn timeout) = initialize pfn timeout w
  step w stops = stop w
  step w restarts = restart w
  step w (requests timeout) = request timeout w
  step w (guards installed) = record w { guarded = installed }
  step w (fires id answer) = fire id answer w

  pub run : World P → List (Event P) → World P
  run w [] = w
  run w (e ∷ es) = run (step w e) es
