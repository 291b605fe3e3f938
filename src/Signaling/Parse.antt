-- ===== src/Signaling/Parse.antt =====
-- SrsRtcSignalingParse of live-streaming-web/nginx/html/demos/js/srs.sig.js: the location of a demo
-- page, read into the address of the signaling server, the room and the name. The name that is drawn
-- at random where none is given is an argument.
pub mod Squeeze
pub mod Laws
mod Tests
use go_live_streaming.Base.{
  ℕ, zero, suc, ◌+◌, ◌-◌, Bool, true, false, Option, none, some, List, [], ◌∷◌, ◌++◌, ◌==◌,
  if◌then◌else◌, length, take, drop,
}
use go_live_streaming.Base.Text.{Text, codes, text_eq, index_of?, last_index_of?, replace, is_empty}

-- What is read of `location`.
pub record Location : Type 0 where
  pub href : Text
  pub protocol : Text
  pub host : Text
  pub hostname : Text

-- `s.split(sep)[0]`
abbrev pub before_at : Option ℕ → Text → Text
before_at none s = s
before_at (some i) s = take i s

unfoldable pub before : Text → Text → Text
unfolding index_of?
before s sep = before_at (index_of? s sep) s

-- `s.split(sep)[1]`: what follows the first separator, up to the second.
unfoldable pub between : Text → Text → Option Text
unfolding index_of? before
between s sep = elim (index_of? s sep) [
  | none ↦ none
  | some i ↦ some (before (drop (i + length sep) s) sep)
]

-- A text that is truthy.
abbrev pub given : Option Text → Option Text
given none = none
given (some []) = none
given (some (c ∷ t)) = some (c ∷ t)

abbrev pub up_to_and : Option Text → Option Text
unfolding before
up_to_and none = none
up_to_and (some t) = some (before t (codes "&"))

-- The value after a name like "wss=", up to "&".
unfoldable pub param : Text → Text → Option Text
unfolding between before
param href name = up_to_and (given (between href name))

abbrev pub or_text : Option Text → Text → Text
or_text none default = default
or_text (some t) default = t

-- `autostart && autostart.split('&')[0] === 'true'`
pub data Autostart : Type 0 where
  undefined empty : Autostart
  flag : Bool → Autostart

unfoldable pub autostart_of : Option Text → Autostart
unfolding before text_eq
autostart_of none = undefined
autostart_of (some []) = empty
autostart_of (some (c ∷ t)) = flag (text_eq (before (c ∷ t) (codes "&")) (codes "true"))

abbrev pub autostart_text : Autostart → Text
autostart_text undefined = codes "undefined"
autostart_text empty = []
autostart_text (flag true) = codes "true"
autostart_text (flag false) = codes "false"

abbrev pub port_text : Option Text → Text
port_text none = codes "undefined"
port_text (some t) = t

abbrev pub remove : Text → Text → Text
unfolding replace
remove text query = replace query text []

abbrev pub remove_room : Option Text → Text → Text
unfolding remove
remove_room none query = query
remove_room (some []) query = query
remove_room (some (c ∷ t)) query = remove (codes "room=" ++ (c ∷ t)) query

-- `while (query.indexOf('&&') >= 0) query = query.replace('&&', '&')`; `none` means that the fuel ran
-- out.
unfoldable pub squeeze : ℕ → Text → Option Text
unfolding index_of? replace
squeeze zero query = none
squeeze (suc fuel) query =
    let rest = squeeze fuel (replace query (codes "&&") (codes "&")) in
    elim (index_of? query (codes "&&")) [ none ↦ some query | some i ↦ rest ]

-- `if (query.lastIndexOf(t) === query.length - 1) query = query.slice(0, query.length - 1)`; for the
-- empty text both sides are -1 and the slice is empty.
abbrev pub drop_at : Option ℕ → Text → Text
drop_at none query = query
drop_at (some i) query = if suc i == length query then take i query else query

unfoldable pub drop_last : Text → Text → Text
unfolding last_index_of?
drop_last query t = drop_at (last_index_of? query t) query

unfoldable pub tidy : Text → Text
unfolding replace drop_last
tidy query = drop_last (drop_last (replace query (codes "?&") (codes "?")) (codes "?")) (codes "&")

pub record Parsed : Type 0 where
  pub query : Option Text
  pub raw_query : Option Text
  pub ws_schema : Text
  pub ws_host : Text
  pub host : Text
  pub room : Option Text
  pub display : Text
  pub autostart : Autostart

-- The query without the data.
unfoldable pub without_data : Text → Option Text → Parsed → Text → Text
unfolding remove_room remove
without_data ws_host ws_port p query =
    let q1 = remove (codes "wss=" ++ p.ws_schema) query in
    let q2 = remove (codes "wsh=" ++ ws_host) q1 in
    let q3 = remove (codes "wsp=" ++ port_text ws_port) q2 in
    let q4 = remove_room p.room (remove (codes "host=" ++ p.host) q3) in
    let q5 = remove (codes "display=" ++ p.display) q4 in
    remove (codes "autostart=" ++ autostart_text p.autostart) q5

abbrev pub tidy_all : Option Text → Option Text
unfolding tidy
tidy_all none = none
tidy_all (some query) = some (tidy query)

unfoldable pub clean : Text → Option Text
unfolding squeeze tidy
clean query = tidy_all (squeeze (suc (length query)) query)

abbrev pub with_query : Parsed → Option Text → Option Parsed
with_query p none = none
with_query p (some query) = some (record p { query = some query })

abbrev pub with_port : Text → Option Text → Text
unfolding before
with_port ws_host none = ws_host
with_port ws_host (some []) = ws_host
with_port ws_host (some (c ∷ port)) = before ws_host (codes ":") ++ (codes ":" ++ (c ∷ port))

abbrev pub or_option : Option Text → Option Text → Option Text
or_option none o = o
or_option (some t) o = some t

abbrev pub marked : Option Text → Option Text
marked none = none
marked (some t) = some (codes "?" ++ t)

-- What is read, before the query is edited.
unfoldable pub read : Location → Text → Text → Option Text → Parsed
unfolding param between text_eq autostart_of with_port
read l name ws_host ws_port =
    let query = marked (given (between l.href (codes "?"))) in
    record {
      query = query;
      raw_query = query;
      ws_schema =
          or_text (param l.href (codes "wss="))
            (if text_eq l.protocol (codes "http:") then codes "ws" else codes "wss");
      ws_host = with_port ws_host ws_port;
      host = or_text (param l.href (codes "host=")) l.hostname;
      room = param l.href (codes "room=");
      display = or_text (param l.href (codes "display=")) name;
      autostart = autostart_of (between l.href (codes "autostart="));
    }

-- `none` means that the fuel of the loop ran out.
abbrev pub edited : Text → Option Text → Parsed → Option Text → Option Parsed
unfolding without_data clean
edited ws_host ws_port p none = some p
edited ws_host ws_port p (some query) = with_query p (clean (without_data ws_host ws_port p query))

-- `wsHost`, before the port is put behind it, and `wsPort`
unfoldable pub ws_host_of : Location → Text
unfolding param
ws_host_of l = or_text (param l.href (codes "wsh=")) l.hostname

unfoldable pub ws_port_of : Location → Option Text
unfolding param between
ws_port_of l = or_option (param l.href (codes "wsp=")) (between l.host (codes ":"))

unfoldable pub parse : Location → Text → Option Parsed
unfolding ws_host_of ws_port_of read edited
parse l name =
    let p = read l name (ws_host_of l) (ws_port_of l) in
    edited (ws_host_of l) (ws_port_of l) p p.query
