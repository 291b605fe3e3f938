-- ===== src/Console/Server.antt =====
-- The providers $sc_server and $sc_nav of srs.console.js and the factory MSCApi: the server that the
-- console is connected to, the page that is selected, and the URLs that the requests go to.
pub mod Laws
use go_live_streaming.Base.{
  ℕ, Bool, true, false, not, ◌&&◌, ◌||◌, Option, none, some, List, [], ◌∷◌, ◌++◌, map, ◌==◌,
  if◌then◌else◌, ltb,
}
use go_live_streaming.Base.Text.{Text, codes, text_eq, index_of?, slice, join}
use go_live_streaming.Base.Decimal.{dec}
use go_live_streaming.Base.Dict.{Dict, lookup, assign}

-- A value of `$location.search()`: a text, true for a key with no value, or a list for one that is
-- repeated.
pub data SearchValue : Type 0 where
  one : Text → SearchValue
  flag : SearchValue
  many : List Text → SearchValue

-- `"" + value`
abbrev pub coerced : SearchValue → Text
coerced (one t) = t
coerced flag = codes "true"
coerced (many ts) = join ts (codes ",")

-- What the console reads of Angular's `$location`.
pub record Location : Type 0 where
  pub abs_url : Text
  pub protocol : Text
  pub host : Text
  pub port : ℕ
  pub search : Dict SearchValue

-- The port is a number or a text of the query.
pub data Port : Type 0 where
  number : ℕ → Port
  query_text : Text → Port

abbrev pub port_text : Port → Text
port_text (number n) = dec n
port_text (query_text t) = t

-- `self.port === 80`
abbrev pub is_80 : Port → Bool
is_80 (number n) = n == 80
is_80 (query_text t) = false

-- The fields that texts are made of, after the coercion of what the query gives.
pub record Server : Type 0 where
  pub schema : Text
  pub host : Text
  pub port : Port
  pub rtmp : List Text
  pub http : List Text

-- The host is null at first, which prints as "null".
abbrev pub created : Server
created = record {
  schema = codes "http";
  host = codes "null";
  port = number 1985;
  rtmp = codes "1935" ∷ [];
  http = codes "8080" ∷ [];
}

-- A value of the query that is there and is not empty.
abbrev pub truthy : Option SearchValue → Option Text
truthy none = none
truthy (some (one [])) = none
truthy (some (one (c ∷ t))) = some (c ∷ t)
truthy (some flag) = some (codes "true")
truthy (some (many ts)) = some (join ts (codes ","))

abbrev pub or_else {ℓ} : {A : Type ℓ} → Option A → A → A
or_else none d = d
or_else (some a) d = a

abbrev pub port_of : Option Text → ℕ → Port
port_of none n = number n
port_of (some t) n = query_text t

abbrev pub http_of : Option Text → List Text → List Text
http_of none old = old
http_of (some t) old = t ∷ []

pub init : Location → Server → Server
unfolding lookup
init loc s = record s {
  schema = or_else (truthy (lookup (codes "schema") loc.search)) loc.protocol;
  host = or_else (truthy (lookup (codes "host") loc.search)) loc.host;
  port = port_of (truthy (lookup (codes "port") loc.search)) loc.port;
  http = http_of (truthy (lookup (codes "http") loc.search)) s.http;
}

unfoldable pub baseurl : Server → Text
baseurl s =
    (s.schema ++ codes "://" ++ s.host)
    ++ (if is_80 s.port then [] else codes ":" ++ port_text s.port)

unfoldable pub jsonp : Text → Server → Text
unfolding baseurl
jsonp url s = baseurl s ++ (url ++ codes "?callback=JSON_CALLBACK")

unfoldable pub jsonp_delete : Text → Server → Text
unfolding jsonp
jsonp_delete url s = jsonp url s ++ codes "&method=DELETE"

unfoldable pub jsonp_query : Text → Text → Server → Text
unfolding baseurl
jsonp_query url query s = baseurl s ++ (url ++ (codes "?callback=JSON_CALLBACK&" ++ query))

-- The url without its query: `url.slice(0, url.indexOf('?'))` if that index is above 0.
unfoldable pub without_query : Text → Text
without_query url = elim (index_of? url (codes "?")) [
  | none ↦ url
  | some i ↦ if ltb 0 i then slice url 0 i else url
]

-- The object `query` of `buildNavUrl`.
unfoldable pub nav_query : Server → Location → Dict SearchValue
unfolding assign
nav_query s loc =
    assign (codes "port") (one (port_text s.port))
      (assign (codes "host") (one s.host) (assign (codes "schema") (one s.schema) loc.search))

abbrev pub values_of : SearchValue → List Text
values_of (one t) = t ∷ []
values_of flag = codes "true" ∷ []
values_of (many ts) = ts

abbrev pub pair : Text → Text → Text
pair key v = key ++ (codes "=" ++ v)

-- The loop that fills `queries`.
unfoldable pub queries_of : Dict SearchValue → List Text
queries_of [] = []
queries_of ((key, v) ∷ query) = map (pair key) (values_of v) ++ queries_of query

unfoldable pub build_nav_url : Server → Location → Text
unfolding without_query nav_query queries_of
build_nav_url s loc =
    without_query loc.abs_url ++ (codes "?" ++ join (queries_of (nav_query s loc)) (codes "&"))

-- The requests of MSCApi.
pub data Request : Type 0 where
  versions_get summaries_get vhosts_get streams_get clients_get configs_raw configs_get : Request
  vhosts_get2 streams_get2 clients_get2 clients_delete : Text → Request

unfoldable pub request_url : Request → Server → Text
unfolding jsonp jsonp_delete jsonp_query
request_url versions_get = jsonp (codes "/api/v1/versions")
request_url summaries_get = jsonp (codes "/api/v1/summaries")
request_url vhosts_get = jsonp (codes "/api/v1/vhosts/")
request_url (vhosts_get2 id) = jsonp (codes "/api/v1/vhosts/" ++ id)
request_url streams_get = jsonp (codes "/api/v1/streams/")
request_url (streams_get2 id) = jsonp (codes "/api/v1/streams/" ++ id)
request_url clients_get = jsonp (codes "/api/v1/clients/")
request_url (clients_get2 id) = jsonp (codes "/api/v1/clients/" ++ id)
request_url (clients_delete id) = jsonp_delete (codes "/api/v1/clients/" ++ id)
request_url configs_raw = jsonp_query (codes "/api/v1/raw") (codes "rpc=raw")
request_url configs_get = jsonp_query (codes "/api/v1/raw") (codes "rpc=query&scope=global")

-- The pages of `$sc_nav`; `selected` is null at first.
pub data Page : Type 0 where
  control summary vhosts streams clients configs : Page

unfoldable pub path_of : Page → Text
path_of control = codes "/console"
path_of summary = codes "/summaries"
path_of vhosts = codes "/vhosts"
path_of streams = codes "/streams"
path_of clients = codes "/clients"
path_of configs = codes "/configs"

-- `in_control` and its like
pub enter : Page → Option Text → Option Text
unfolding path_of
enter page selected = some (path_of page)

-- `is_selected(v)`, and the filter sc_filter_nav_active
abbrev pub is_selected : Text → Option Text → Bool
is_selected v none = false
is_selected v (some t) = text_eq v t

pub sc_filter_nav_active : Text → Option Text → Text
sc_filter_nav_active v selected = if is_selected v selected then codes "active" else []
