-- ===== src/Refresh/Simple.antt =====
-- AsyncRefresh of live-streaming-web/nginx/html/console/js/winlin.utility.js: the refresher for one
-- callback. The browser's timers are a map from their ids to their delays.
pub mod Laws
use go_live_streaming.Base.{
  ℕ, suc, ◌+◌, Bool, true, false, Option, none, some, List, [], ◌∷◌, ◌==◌, if◌then◌else◌,
}

-- The object, the browser's timers, and the callbacks made so far.
pub record Refresher : Type 0 where
  pub refresh_interval : ℕ
  pub handler : Option ℕ
  pub enabled : Bool
  pub timers : ℕ → Option ℕ
  pub next_timer : ℕ
  pub calls : ℕ

-- `new AsyncRefresh(pfn, refresh_interval)`
abbrev pub create : ℕ → Refresher
create interval = record {
  refresh_interval = interval;
  handler = none;
  enabled = true;
  timers = λ _. none;
  next_timer = 1;
  calls = 0;
}

pub refresh_disable : Refresher → Refresher
refresh_disable r = record r { enabled = false }

pub refresh_enable : Refresher → Refresher
refresh_enable r = record r { enabled = true }

pub refresh_is_enabled : Refresher → Bool
refresh_is_enabled r = r.enabled

-- `if (this.__handler) clearTimeout(this.__handler)`
unfoldable pub clear_handler : Option ℕ → Refresher → Refresher
clear_handler none r = r
clear_handler (some h) r = record r { timers = λ j. if h == j then none else r.timers j }

pub request : ℕ → Refresher → Refresher
unfolding clear_handler
request timeout r =
    let cleared = clear_handler r.handler r in
    record cleared {
      handler = some r.next_timer;
      timers = λ j. if r.next_timer == j then some timeout else cleared.timers j;
      next_timer = suc r.next_timer;
    }

-- The browser fires a timer: the callback is called, whether the refresher is enabled or not.
unfoldable pub fire_delay : Option ℕ → ℕ → Refresher → Refresher
fire_delay none id r = r
fire_delay (some delay) id r = record r {
  timers = λ j. if id == j then none else r.timers j;
  calls = suc r.calls;
}

pub fire : ℕ → Refresher → Refresher
unfolding fire_delay
fire id r = fire_delay (r.timers id) id r

pub data Event : Type 0 where
  disables enables : Event
  requests fires : ℕ → Event

pub step : Refresher → Event → Refresher
step r disables = refresh_disable r
step r enables = refresh_enable r
step r (requests timeout) = request timeout r
step r (fires id) = fire id r

pub run : Refresher → List Event → Refresher
run r [] = r
run r (e ∷ es) = run (step r e) es
