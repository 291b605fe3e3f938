-- ===== src/Console/Logs.antt =====
-- The controller CSCMain of srs.console.js: the messages that the console shows, and the texts that it
-- makes of failed requests. Times are milliseconds.
pub mod Laws
use go_live_streaming.Base.{
  ℕ, zero, suc, ◌+◌, ltb, leb, Bool, true, false, ◌&&◌, Option, none, some, List, [], ◌∷◌, ◌++◌,
  length, ◌==◌, if◌then◌else◌,
}
use go_live_streaming.Base.Text.{Text, codes}
use go_live_streaming.Base.Decimal.{dec}

pub data Level : Type 0 where
  trace warn : Level

-- What the request failed with: null or undefined, a text, or an object with a code.
pub data Response : Type 0 where
  absent : Response
  plain : Text → Response
  object : ℕ → Response

-- What is shown: a text, or the response itself.
pub data Message : Type 0 where
  text : Text → Message
  raw : Response → Message

pub record Log : Type 0 where
  pub level : Level
  pub msg : Message
  pub create : ℕ

-- The timer that removes the first message that is older than ten seconds.
unfoldable pub remove_expired : ℕ → List Log → List Log
remove_expired now [] = []
remove_expired now (log ∷ logs) =
    if ltb (log.create + 10000) now then logs else log ∷ remove_expired now logs

-- `while ($scope.logs.length > 2) $scope.logs.splice(0, 1)`
unfoldable pub make_room : List Log → List Log
make_room [] = []
make_room (log ∷ logs) =
    let rest = make_room logs in if ltb 2 (length (log ∷ logs)) then rest else log ∷ logs

-- The handler of `$sc_utility_log`.
unfoldable pub on_log : Level → Message → ℕ → List Log → List Log
unfolding make_room
on_log level msg now logs = make_room logs ++ record { level = level; msg = msg; create = now } ∷ []

-- `"" + response`
abbrev pub coerced : Response → Text
coerced absent = codes "undefined"
coerced (plain t) = t
coerced (object code) = codes "[object Object]"

-- `!response`
abbrev pub is_falsy : Response → Bool
is_falsy absent = true
is_falsy (plain []) = true
is_falsy (plain (_ ∷ _)) = false
is_falsy (object code) = false

-- The table of the codes that the console explains.
unfoldable pub known_code : ℕ → Option Text
known_code code =
    if code == 1061
    then some (codes "RAW API被禁用")
    else if code == 1062
    then some (codes "服务器不允许这个操作")
    else if code == 1063
    then some (codes "RawApi参数不符合要求")
    else none

-- `code = response.code`; `none` stands for undefined, and reading it of null throws.
pub data Code : Type 0 where
  throws undefined : Code
  code_is : ℕ → Code

abbrev pub code_of : Response → Code
code_of absent = throws
code_of (plain t) = undefined
code_of (object code) = code_is code

-- The text for a code of a response with status 200; for a code that is not in the table the text is
-- assigned to `resonse`, and the response stays.
abbrev pub explained : Response → ℕ → Option Text → Message
explained response code (some why) = text (codes "code=" ++ dec code ++ codes ", " ++ why)
explained response code none = raw response

unfoldable pub message_of : ℕ → Response → Code → Message
unfolding known_code
message_of status response code =
    if status == 200
    then elim code [
      | throws ↦ raw response
      | undefined ↦ raw response
      | code_is c ↦ explained response c (known_code c)
    ]
    else if status == 0 && is_falsy response
    then text (codes "无法访问服务器")
    else text (codes "HTTP/" ++ dec status ++ codes ", " ++ coerced response)

abbrev pub level_of : Code → Level
level_of (code_is c) = if c == 1061 then trace else warn
level_of _ = warn

-- The handler of `$sc_utility_http_error`: what it logs, or `none` where it throws.
unfoldable pub on_http_error : ℕ → Response → Option (Level × Message)
unfolding message_of
on_http_error status response = elim (code_of response) [
  | throws ↦ none
  | undefined ↦ some (warn, message_of status response undefined)
  | code_is c ↦ some (level_of (code_is c), message_of status response (code_is c))
]

-- `sc_filter_log_level`
unfoldable pub sc_filter_log_level : Level → Text
sc_filter_log_level warn = codes "alert-warn"
sc_filter_log_level trace = codes "alert-success"
