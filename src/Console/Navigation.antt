-- ===== src/Console/Navigation.antt =====
-- How the console moves between its pages: `goto` and `redirect` of CSCMain, and CSCConnect, which
-- connects to another server and goes to its summaries.
pub mod Opened
mod Tests
use go_live_streaming.Base.{ℕ, Option, none, some, List, [], ◌∷◌, ◌++◌, ◌==◌, if◌then◌else◌}
use go_live_streaming.Base.Text.{Text, codes, replace}
use go_live_streaming.Console.Logs.{trace, text, Log, Response, object, on_log}
use go_live_streaming.Console.Server.{
  Location, Port, Server, Request, versions_get, request_url, build_nav_url,
}
use go_live_streaming.Console.Polling.{Answer, responds, errors, logged}
use go_live_streaming.Console.Logs.{on_http_error}

-- `$location`, with its `$$path`.
pub record Place : Type 0 where
  pub location : Location
  pub path : Text

-- The location that `$scope.goto(path)` gives the window.
unfoldable pub goto : Server → Place → Text → Text
unfolding replace
goto s place path = replace (build_nav_url s place.location) place.path path

-- The location that `$scope.redirect(from, to)` gives the window.
unfoldable pub redirect : Server → Place → Text → Text → Text
unfolding replace
redirect s place from to = replace (build_nav_url s place.location) from to

-- `$scope.server` of CSCConnect, which the user edits.
pub record Form : Type 0 where
  pub schema : Text
  pub ip : Text
  pub port : Port

-- The form as the page opens.
unfoldable pub form_of : Server → Form
form_of s = record { schema = s.schema; ip = s.host; port = s.port }

-- `$sc_server` after `$scope.connect()`, and the URL of its request.
unfoldable pub connect : Form → Server → Server × Text
unfolding request_url
connect form s =
    let s' = record s { schema = form.schema; host = form.ip; port = form.port } in
    (s', request_url versions_get s')

-- The message that the server answered.
unfoldable pub connected_message : Form → Text → Text
connected_message form version = codes "连接到SRS" ++ (form.ip ++ (codes "成功, SRS/" ++ version))

-- The answer, for the text `data.data.version`: the messages, and where the window goes.
unfoldable pub on_versions :
    Form → Server → Place → Answer Text → ℕ → List Log → List Log × Option Text
unfolding on_log on_http_error goto connected_message
on_versions form s place (responds status code version) now logs =
    if code == 0
    then (
      on_log trace (text (connected_message form version)) now logs,
      some (goto s place (codes "/summaries")),
    )
    else (logged (on_http_error status (object code)) now logs, none)
on_versions form s place (errors status response) now logs =
    (logged (on_http_error status response) now logs, none)
