-- ===== src/Urls/Page.antt =====
-- The URLs that the player pages offer: srs.page.js. A port in a query is a text of digits, or is NaN.
pub mod Laws
pub mod Init
use go_live_streaming.Base.{
  ℕ, zero, suc, ◌+◌, ◌-◌, Bool, true, false, not, ◌&&◌, ◌||◌, Option, none, some, List, [], ◌∷◌,
  ◌++◌, if◌then◌else◌, length, take, ◌==◌,
}
use go_live_streaming.Base.Text.{Text, codes, text_eq, index_of?, last_index_of?, join}
use go_live_streaming.Base.Decimal.{dec, number_from}
use go_live_streaming.Base.Dict.{Dict, lookup}
use go_live_streaming.Urls.Query.{
  Value, undefined, number, str, Parsed, Window, truthy, or_else, parse_query_string,
}
use go_live_streaming.Urls.Rtmp.{print, all_digits}

abbrev pub member : Text → List Text → Bool
member key [] = false
member key (k ∷ ks) = text_eq key k || member key ks

-- The keys that `user_extra_params` skips.
unfoldable pub reserved : List Text
reserved =
    codes "app"
    ∷ codes "autostart"
    ∷ codes "dir"
    ∷ codes "filename"
    ∷ codes "host"
    ∷ codes "hostname"
    ∷ codes "http_port"
    ∷ codes "pathname"
    ∷ codes "port"
    ∷ codes "server"
    ∷ codes "stream"
    ∷ codes "buffer"
    ∷ codes "schema"
    ∷ codes "vhost"
    ∷ codes "api"
    ∷ codes "path"
    ∷ []

abbrev pub pushed : Text → Option Value → List Text
pushed key none = []
pushed key (some v) = (key ++ (codes "=" ++ print v)) ∷ []

unfoldable pub extra_params : Dict Value → Dict Value → List Text
unfolding text_eq reserved lookup
extra_params fields [] = []
extra_params fields ((key, v) ∷ keys) =
    let rest = extra_params fields keys in
    if member key reserved then rest else pushed key (truthy (lookup key fields)) ++ rest

unfoldable pub user_extra_params : Parsed → List Text → List Text
unfolding extra_params
user_extra_params query queries = queries ++ extra_params query.fields query.user_query

-- `(!query.key)? default : query.key`, as a text
unfoldable pub field_or : Text → Text → Parsed → Text
unfolding lookup
field_or key default query = print (or_else (truthy (lookup key query.fields)) (str default))

-- `queries.push("vhost=" + vhost)`, unless the vhost is the server or the default.
unfoldable pub vhost_query : Text → Text → List Text
unfolding text_eq
vhost_query server vhost =
    if not (text_eq server vhost) && not (text_eq vhost (codes "__defaultVhost__"))
    then (codes "vhost=" ++ vhost) ∷ []
    else []

-- `none` is NaN, which is no default port.
unfoldable pub is_default_port : Text → Option ℕ → Bool
unfolding text_eq
is_default_port schema none = false
is_default_port schema (some port) =
    (text_eq schema (codes "http") && (port == 80))
    || ((text_eq schema (codes "https") && (port == 443))
        || ((text_eq schema (codes "webrtc") && (port == 1985))
            || (text_eq schema (codes "rtmp") && (port == 1935))))

abbrev pub print_number : Option ℕ → Text
print_number none = codes "NaN"
print_number (some n) = dec n

abbrev pub to_number : Value → Option ℕ
to_number undefined = none
to_number (number n) = some n
to_number (str t) = if all_digits t then some (number_from 0 t) else none

abbrev pub port_of : Text → Option Value → Option ℕ
port_of schema none = some (if text_eq schema (codes "http") then 8080 else 1935)
port_of schema (some v) = to_number v

-- `uri.indexOf(c) === uri.length - 1`, where -1 stands for no index.
abbrev pub is_last : Option ℕ → ℕ → Bool
is_last none n = n == 0
is_last (some i) n = suc i == n

-- `while (uri.indexOf(c) === uri.length - 1) uri = uri.slice(0, uri.length - 1)`
unfoldable pub strip_first : ℕ → Text → Text → Text
unfolding index_of?
strip_first zero c uri = uri
strip_first (suc fuel) c uri =
    let rest = strip_first fuel c (take (length uri - 1) uri) in
    if is_last (index_of? uri c) (length uri) then rest else uri

-- The loop with `lastIndexOf`.
unfoldable pub strip_last : ℕ → Text → Text → Text
unfolding last_index_of?
strip_last zero c uri = uri
strip_last (suc fuel) c uri =
    let rest = strip_last fuel c (take (length uri - 1) uri) in
    if is_last (last_index_of? uri c) (length uri) then rest else uri

unfoldable pub build_default_flv_url : Window → Text
unfolding parse_query_string field_or vhost_query user_extra_params is_default_port strip_first
    lookup text_eq
build_default_flv_url w =
    let query = parse_query_string w in
    let schema = field_or (codes "schema") (codes "http") query in
    let server = field_or (codes "server") w.hostname query in
    let port = port_of schema (truthy (lookup (codes "port") query.fields)) in
    let vhost = field_or (codes "vhost") w.hostname query in
    let queries = user_extra_params query (vhost_query server vhost) in
    let start = schema ++ (codes "://" ++ server) in
    let with_port =
      if is_default_port schema port then start else start ++ (codes ":" ++ print_number port) in
    let uri =
      with_port
      ++ (codes "/"
          ++ (field_or (codes "app") (codes "live") query
              ++ (codes "/"
                  ++ (field_or (codes "stream") (codes "livestream.flv") query
                      ++ (codes "?" ++ join queries (codes "&")))))) in
    strip_first (length uri) (codes "?") uri

-- The query `schema=`, if it is not the protocol of the page.
abbrev pub schema_query : Window → Option Value → List Text
schema_query w none = []
schema_query w (some v) =
    if text_eq w.protocol (print v ++ codes ":") then [] else (codes "schema=" ++ print v) ∷ []

-- The queries of the rtc and whip URLs.
unfoldable pub rtc_queries : Window → Parsed → Text
unfolding field_or vhost_query user_extra_params lookup text_eq
rtc_queries w query =
    let server = field_or (codes "server") w.hostname query in
    let vhost = field_or (codes "vhost") w.hostname query in
    join
      (user_extra_params query (
        vhost_query server vhost ++ schema_query w (truthy (lookup (codes "schema") query.fields))))
      (codes "&")

abbrev pub api_port : Option Value → Text
api_port none = []
api_port (some v) = codes ":" ++ print v

unfoldable pub rtc_uri : Window → Parsed → Text
unfolding field_or rtc_queries lookup
rtc_uri w query =
    codes "webrtc://"
    ++ (field_or (codes "server") w.hostname query
        ++ (api_port (truthy (lookup (codes "api") query.fields))
            ++ (codes "/"
                ++ (field_or (codes "app") (codes "live") query
                    ++ (codes "/"
                        ++ (field_or (codes "stream") (codes "livestream") query
                            ++ (codes "?" ++ rtc_queries w query)))))))

unfoldable pub build_default_rtc_url : Window → Parsed → Text
unfolding rtc_uri strip_last
build_default_rtc_url w query = strip_last (length (rtc_uri w query)) (codes "?") (rtc_uri w query)

unfoldable pub whip_uri : Window → Text → Parsed → Text
unfolding field_or rtc_queries lookup text_eq
whip_uri w api_path query =
    let api =
      or_else (truthy (lookup (codes "api") query.fields))
        (str (if text_eq w.protocol (codes "http:") then codes "1985" else codes "1990")) in
    w.protocol
    ++ (codes "//"
        ++ (field_or (codes "server") w.hostname query
            ++ (codes ":"
                ++ (print api
                    ++ (field_or (codes "path") api_path query
                        ++ (codes "?app="
                            ++ (field_or (codes "app") (codes "live") query
                                ++ (codes "&stream="
                                    ++ (field_or (codes "stream") (codes "livestream") query
                                        ++ (codes "&" ++ rtc_queries w query))))))))))

unfoldable pub build_default_whip_whep_url : Window → Text → Parsed → Text
unfolding whip_uri strip_last
build_default_whip_whep_url w api_path query =
    let marks =
      strip_last (length (whip_uri w api_path query)) (codes "?") (whip_uri w api_path query) in
    strip_last (length marks) (codes "&") marks
