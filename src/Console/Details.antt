-- ===== src/Console/Details.antt =====
-- The pages of srs.console.js that show one thing and do not poll: the controllers CSCVhost, CSCStream,
-- CSCClient and CSCConfigs, with the calls that kick off a client. A page starts with an empty scope.
-- Requests that the page before it has left are answered in closures of that page, which still use the
-- shared refresher and the messages; that is the event `elsewhere`.
pub mod Shown
pub mod Outcome
mod Tests
use go_live_streaming.Base.{
  ℕ, Bool, true, false, Option, none, some, List, [], ◌∷◌, ◌++◌, ◌==◌, if◌then◌else◌, remove_at,
  get_elem?,
}
use go_live_streaming.Base.Text.{Text, codes}
use go_live_streaming.Refresh.{World, stop}
use go_live_streaming.Console.Logs.{
  Level, trace, warn, text, Log, Response, object, on_log, on_http_error,
}
use go_live_streaming.Console.Server as Server
use go_live_streaming.Console.Polling as Polling
use go_live_streaming.Console.Polling.{Answer, responds, errors, logged}
use go_live_streaming.Console.Streams.{Vhost, Stream, HttpApi, raw_api_enabled}

pub record Client : Type 0 where
  pub id : Text
  pub url : Text

-- The page of a route, with the id of `$routeParams`.
pub data Page : Type 0 where
  vhost_page stream_page client_page : Text → Page
  configs_page : Page

-- A request, for what its callback does. CSCStream asks for the owner of the stream that it keeps.
pub data Call : Type 0 where
  gets_vhost gets_stream gets_client : Text → Call
  gets_owner : Stream → Call
  gets_raw gets_configs : Call
  kicks_stream kicks_client : Text → Call

-- The method of MSCApi.
unfoldable pub request_of : Call → Server.Request
request_of (gets_vhost id) = Server.vhosts_get2 id
request_of (gets_stream id) = Server.streams_get2 id
request_of (gets_client id) = Server.clients_get2 id
request_of (gets_owner stream) = Server.vhosts_get2 stream.vhost
request_of gets_raw = Server.configs_raw
request_of gets_configs = Server.configs_raw
request_of (kicks_stream cid) = Server.clients_delete cid
request_of (kicks_client id) = Server.clients_delete id

-- The data of an answer: the field that it has.
pub data Body : Type 0 where
  has_vhost : Vhost → Body
  has_stream : Stream → Body
  has_client : Client → Body
  has_http_api : HttpApi → Body
  has_nothing : Body

abbrev pub vhost_in : Body → Option Vhost
vhost_in (has_vhost v) = some v
vhost_in _ = none

abbrev pub stream_in : Body → Option Stream
stream_in (has_stream s) = some s
stream_in _ = none

abbrev pub client_in : Body → Option Client
client_in (has_client c) = some c
client_in _ = none

abbrev pub http_api_in : Body → Option HttpApi
http_api_in (has_http_api a) = some a
http_api_in _ = none

-- The shared refresher, the requests of the page that wait for an answer, `$scope`, and the messages.
pub record Details : Type 0 where
  pub refresher : World Polling.Page
  pub waits : List Call
  pub vhost : Option Vhost
  pub stream : Option Stream
  pub owner : Option Vhost
  pub support_raw_api : Bool
  pub client : Option Client
  pub http_api : Option HttpApi
  pub logs : List Log

unfoldable pub log : Level → Text → ℕ → Details → Details
unfolding on_log
log level msg now s = record s { logs = on_log level (text msg) now s.logs }

unfoldable pub ask : Call → Details → Details
ask c s = record s { waits = c ∷ s.waits }

-- The scope of a new controller, which stops the refresher.
unfoldable pub opened : World Polling.Page → List Log → Details
unfolding stop
opened w logs = record {
  refresher = stop w;
  waits = [];
  vhost = none;
  stream = none;
  owner = none;
  support_raw_api = false;
  client = none;
  http_api = none;
  logs = logs;
}

-- The controllers.
unfoldable pub enter : Page → ℕ → World Polling.Page → List Log → Details
unfolding opened ask log
enter (vhost_page id) now w logs =
    log trace (codes "Retrieve vhost info from SRS") now (ask (gets_vhost id) (opened w logs))
enter (stream_page id) now w logs =
    log trace (codes "Retrieve stream info from SRS") now
      (ask (gets_stream id) (ask gets_raw (opened w logs)))
enter (client_page id) now w logs =
    log trace (codes "Retrieve client info from SRS") now (ask (gets_client id) (opened w logs))
enter configs_page now w logs =
    log trace (codes "Retrieve config info from SRS") now (ask gets_configs (opened w logs))

-- The callback of `streams_get2`: without an owner it is asked for first. A stream that is undefined
-- throws.
unfoldable pub on_stream : Option Stream → Option Vhost → ℕ → Details → Details
unfolding ask log
on_stream none owner now s = s
on_stream (some stream) none now s =
    log trace (codes "Retrieve vhost info from SRS") now (ask (gets_owner stream) s)
on_stream (some stream) (some v) now s = record s {
  stream = some (record stream { owner = some v });
}

-- The callbacks.
unfoldable pub on_success : Call → Body → ℕ → Details → Details
unfolding on_stream raw_api_enabled log
on_success (gets_vhost id) body now s = record s { vhost = vhost_in body }
on_success (gets_stream id) body now s = on_stream (stream_in body) s.owner now s
on_success (gets_client id) body now s = record s { client = client_in body }
on_success (gets_owner stream) body now s = record s {
  owner = vhost_in body;
  stream = some (record stream { owner = vhost_in body });
}
on_success gets_raw body now s = record s { support_raw_api = raw_api_enabled (http_api_in body) }
on_success gets_configs body now s = record s { http_api = http_api_in body }
on_success (kicks_stream cid) body now s = log warn (codes "Kickoff stream ok.") now s
on_success (kicks_client id) body now s = log warn (codes "Kickoff client ok.") now s

-- `$sc_utility.http_error`
unfoldable pub http_error : ℕ → Response → ℕ → Details → Details
unfolding on_http_error
http_error status response now s = record s {
  logs = logged (on_http_error status response) now s.logs;
}

-- The answer behind the interceptor.
unfoldable pub on_answer : Call → Answer Body → ℕ → Details → Details
unfolding on_success http_error
on_answer c (responds status code body) now s =
    if code == 0 then on_success c body now s else http_error status (object code) now s
on_answer c (errors status response) now s = http_error status response now s

unfoldable pub answered : Option Call → ℕ → Answer Body → ℕ → Details → Details
unfolding on_answer
answered none i a now s = s
answered (some c) i a now s = on_answer c a now (record s { waits = remove_at i s.waits })

-- The user kicks off a publisher or a client; an answer comes to one of the requests of the page; or a
-- timer of the refresher or a callback of another page leaves the refresher and the messages as given.
pub data Event : Type 0 where
  kickoff_stream kickoff_client : Text → Event
  answers : (i : ℕ) → Answer Body → (now : ℕ) → Event
  elsewhere : World Polling.Page → List Log → Event

unfoldable pub step : Details → Event → Details
unfolding answered ask
step s (kickoff_stream cid) = ask (kicks_stream cid) s
step s (kickoff_client id) = ask (kicks_client id) s
step s (answers i a now) = answered (get_elem? s.waits i) i a now s
step s (elsewhere w logs) = record s { refresher = w; logs = logs }

unfoldable pub run : Details → List Event → Details
unfolding step
run s [] = s
run s (e ∷ es) = run (step s e) es
