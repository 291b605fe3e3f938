-- ===== src/Console/Polling.antt =====
-- The pages of srs.console.js that poll the server: the controllers CSCSummary, CSCVhosts,
-- CSCStreams and CSCClients with the shared refresher, the interceptor MHttpInterceptor, and the messages of
-- CSCMain. `D` is the type of what a request returns. A page of the console is entered when its route
-- is followed; the pages that do not poll stop the refresher.
pub mod Asides
pub mod Alive
pub mod Failures
pub mod Switching
mod Tests
use go_live_streaming.Base.{
  ℕ, suc, Bool, true, false, not, Option, none, some, List, [], ◌∷◌, ◌++◌, ◌==◌, if◌then◌else◌,
  remove_at, get_elem?, map,
}
use go_live_streaming.Base.Text.{Text, codes}
use go_live_streaming.Refresh.{World, init, refresh_change, request, stop, fire}
use go_live_streaming.Console.Logs.{
  Level, trace, warn, Message, text, Log, Response, object, on_log, on_http_error,
}

pub data Page : Type 0 where
  summary vhosts streams clients : Page

abbrev pub page_eq : Page → Page → Bool
page_eq summary summary = true
page_eq vhosts vhosts = true
page_eq streams streams = true
page_eq clients clients = true
page_eq _ _ = false

abbrev pub greeting : Page → Text
greeting summary = codes "Retrieve summary from SRS."
greeting vhosts = codes "Retrieve vhosts from SRS"
greeting streams = codes "Retrieve streams from SRS"
greeting clients = codes "Retrieve clients from SRS"

-- A request of the API that polling waits for: a round of a page, or CSCStreams asking for the vhosts
-- before it polls.
pub data Request : Type 0 where
  polls : Page → Request
  asks_vhosts : Request

-- Another request: clients_delete for a client or for the publisher of a stream, and configs_raw of
-- CSCStreams.
pub data Aside : Type 0 where
  deletes_client : Text → Aside
  deletes_stream : Text → Aside
  reads_raw : Aside

-- The refresher, the requests of the API that wait for an answer, what the page shows, what configs_raw
-- returned, and the messages.
pub record Console (D : Type 0) : Type 0 where
  pub refresher : World Page
  pub in_flight : List Request
  pub asides : List Aside
  pub shown : Page → Option D
  pub raw : Option D
  pub logs : List Log

-- What comes back of a request: data with a code, or an error. A code that is missing counts as 0.
pub data Answer (D : Type 0) : Type 0 where
  responds : (status code : ℕ) → D → Answer D
  errors : (status : ℕ) → Response → Answer D

abbrev pub logged : Option (Level × Message) → ℕ → List Log → List Log
unfolding on_log
logged none now logs = logs
logged (some (level, msg)) now logs = on_log level msg now logs

module _ {D : Type 0} where
  abbrev pub opened : Console D
  opened = record {
    refresher = init;
    in_flight = [];
    asides = [];
    shown = λ _. none;
    raw = none;
    logs = [];
  }

  -- `$sc_utility.log`
  unfoldable pub log : Text → ℕ → Console D → Console D
  unfolding on_log
  log msg now s = record s { logs = on_log trace (text msg) now s.logs }

  -- `$sc_utility.http_error`
  unfoldable pub http_error : ℕ → Response → ℕ → Console D → Console D
  unfolding on_http_error logged
  http_error status response now s = record s {
    logs = logged (on_http_error status response) now s.logs;
  }

  -- `refresh_change`, the message and the first round of a page.
  unfoldable pub start : Page → ℕ → Console D → Console D
  unfolding refresh_change request log
  start page now s =
      let s1 = record s { refresher = refresh_change (some page) (some 3000) s.refresher } in
      let s2 = log (greeting page) now s1 in record s2 { refresher = request (some 0) s2.refresher }

  -- CSCStreams: the refresher is left as it is until the vhosts come.
  unfoldable pub enter_streams : ℕ → Console D → Console D
  unfolding log
  enter_streams now s = log (codes "Retrieve vhost info from SRS") now (record s {
    in_flight = asks_vhosts ∷ s.in_flight;
    asides = reads_raw ∷ s.asides;
    raw = none;
  })

  -- A controller of a page that polls.
  unfoldable pub enter : Page → ℕ → Console D → Console D
  unfolding start enter_streams
  enter streams now s = enter_streams now s
  enter page now s = start page now s

  -- A controller of another page: `$sc_utility.refresh.stop()`.
  unfoldable pub leave : Console D → Console D
  unfolding stop
  leave s = record s { refresher = stop s.refresher }

  -- The browser fires a timer; the callback, if it is called, sends the request of its page. (`ran` is
  -- emptied before, so that it has the call of this timer only.)
  unfoldable pub fire_timer : ℕ → Console D → Console D
  unfolding fire
  fire_timer id s =
      let w = fire id true (record s.refresher { ran = [] }) in
      record s { refresher = w; in_flight = map polls w.ran ++ s.in_flight }

  -- The callback of a request: the data is shown, and the next round asked for; with the vhosts the
  -- page of the streams starts.
  unfoldable pub on_success : Request → D → ℕ → Console D → Console D
  unfolding request start
  on_success (polls page) result now s = record s {
    shown = λ p. if page_eq p page then some result else s.shown p;
    refresher = request none s.refresher;
  }
  on_success asks_vhosts result now s = start streams now s

  -- The interceptor: the callback is called for a code that is falsy, and other answers are reported and
  -- rejected.
  unfoldable pub on_answer : Request → Answer D → ℕ → Console D → Console D
  unfolding on_success http_error
  on_answer q (responds status code result) now s =
      if code == 0 then on_success q result now s else http_error status (object code) now s
  on_answer q (errors status response) now s = http_error status response now s

  -- `$scope.kickoff(client)` of CSCClients
  unfoldable pub kickoff_client : Text → Console D → Console D
  kickoff_client id s = record s { asides = deletes_client id ∷ s.asides }

  -- `$scope.kickoff(stream)` of CSCStreams, for `stream.publish.cid`
  unfoldable pub kickoff_stream : Text → Console D → Console D
  kickoff_stream cid s = record s { asides = deletes_stream cid ∷ s.asides }

  -- The callbacks of these requests.
  unfoldable pub on_aside : Aside → D → ℕ → Console D → Console D
  unfolding on_log
  on_aside (deletes_client id) result now s = record s {
    logs = on_log warn (text (codes "Kickoff client ok.")) now s.logs;
  }
  on_aside (deletes_stream cid) result now s = record s {
    logs = on_log warn (text (codes "Kickoff stream ok.")) now s.logs;
  }
  on_aside reads_raw result now s = record s { raw = some result }

  unfoldable pub on_aside_answer : Aside → Answer D → ℕ → Console D → Console D
  unfolding on_aside http_error
  on_aside_answer q (responds status code result) now s =
      if code == 0 then on_aside q result now s else http_error status (object code) now s
  on_aside_answer q (errors status response) now s = http_error status response now s

  abbrev pub aside_answered : Option Aside → ℕ → Answer D → ℕ → Console D → Console D
  unfolding on_aside_answer
  aside_answered none i a now s = s
  aside_answered (some q) i a now s =
      on_aside_answer q a now (record s { asides = remove_at i s.asides })

  -- The answer to one of the requests that wait, by its index.
  abbrev pub answered : Option Request → ℕ → Answer D → ℕ → Console D → Console D
  unfolding on_answer
  answered none i a now s = s
  answered (some q) i a now s = on_answer q a now (record s { in_flight = remove_at i s.in_flight })

pub data Event (D : Type 0) : Type 0 where
  enters : Page → (now : ℕ) → Event D
  leaves : Event D
  fires : (id : ℕ) → Event D
  answers : (i : ℕ) → Answer D → (now : ℕ) → Event D
  kicks_client : (id : Text) → Event D
  kicks_stream : (cid : Text) → Event D
  answers_aside : (i : ℕ) → Answer D → (now : ℕ) → Event D

module _ {D : Type 0} where
  unfoldable pub step : Console D → Event D → Console D
  unfolding enter leave fire_timer answered kickoff_client kickoff_stream aside_answered
  step s (enters page now) = enter page now s
  step s leaves = leave s
  step s (fires id) = fire_timer id s
  step s (answers i a now) = answered (get_elem? s.in_flight i) i a now s
  step s (kicks_client id) = kickoff_client id s
  step s (kicks_stream cid) = kickoff_stream cid s
  step s (answers_aside i a now) = aside_answered (get_elem? s.asides i) i a now s

  unfoldable pub run : Console D → List (Event D) → Console D
  unfolding step
  run s [] = s
  run s (e ∷ es) = run (step s e) es
